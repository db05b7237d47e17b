-- ===== src/Scheduler/Scan.antt =====
-- The search of the queue in `Scheduler::run`.
use helens.Prelude.{
  ℕ, ◌+◌, ◌≡◌, refl, ap, inl, inr, Bool, true, false, not, ◌||◌, Option, none, some, List, [], ◌∷◌,
  ◌++◌, All, Bool-cases, subst, arith, ◌≢◌,
}
use helens.Fiber.{Fiber, FiberState}
use helens.Scheduler.{Task, fiber, FiberAndThread, is_empty, elsewhere, in_exec, scan, picked}
use helens.Scheduler.Steps.{queued, phase_picks}

or_assoc : (a b c : Bool) → ((a || b) || c) ≡ (a || (b || c))
or_assoc true b c = refl
or_assoc false b c = refl

module _ {Cb : Type 0} (own : ℕ) (heap : ℕ → Fiber Cb) where
  -- The thread passes the entry over.
  abbrev pub skips : FiberAndThread Cb → Bool
  skips e = elsewhere own e || in_exec heap e

  abbrev pub any_elsewhere : List (FiberAndThread Cb) → Bool
  any_elsewhere [] = false
  any_elsewhere (e ∷ es) = elsewhere own e || any_elsewhere es

  -- The first entry that the thread does not pass over, if there is one.
  pub data FirstFit (es : List (FiberAndThread Cb))
      : Option (Task Cb) × List (FiberAndThread Cb) × Bool → Type 0 where
    nothing : All (λ e. skips e ≡ true) es → FirstFit es (none, es, any_elsewhere es)
    found :
        (before : List (FiberAndThread Cb)) (e : FiberAndThread Cb)
        (after : List (FiberAndThread Cb))
        → es ≡ before ++ (e ∷ after)
        → All (λ e. skips e ≡ true) before
        → skips e ≡ false
        → FirstFit es (some e.task, before ++ after, any_elsewhere before || not (is_empty after))

  FirstFit-skip :
      (e : FiberAndThread Cb) (es : List (FiberAndThread Cb))
      {r : Option (Task Cb) × List (FiberAndThread Cb) × Bool}
      → skips e ≡ true
      → FirstFit es r
      → FirstFit (e ∷ es) (r.0, e ∷ r.1, elsewhere own e || r.2)
  FirstFit-skip e es h (nothing all) = nothing (h, all)
  FirstFit-skip e es h (found before x after eq all no_skip) =
      subst (λ t. FirstFit (e ∷ es) (some x.task, e ∷ (before ++ after), t))
        (or_assoc (elsewhere own e) (any_elsewhere before) (not (is_empty after)))
        (found (e ∷ before) x after (ap (λ l. e ∷ l) eq) (h, all) no_skip)

  -- The loop stops at the first entry that is neither for another thread nor a fiber in EXEC, and
  -- takes it out; the others stay in their order. tickle_me is set if an entry for another thread was
  -- passed over, or if entries stand behind the one that is taken.
  pub scan_lem : (es : List (FiberAndThread Cb)) → FirstFit es (scan own heap es)
  unfolding scan
  scan_lem [] = nothing tt
  scan_lem (e ∷ es) = elim (Bool-cases (elsewhere own e)) [
    | inl away ↦ let tail = FirstFit-skip e es (rw away) (scan_lem es) in rw away (rw away at tail)
    | inr here ↦ elim (Bool-cases (in_exec heap e)) [
      | inl busy ↦
          let tail = FirstFit-skip e es (rw (here, busy)) (scan_lem es) in
          rw (here, busy) (rw here at tail)
      | inr free ↦ rw (here, free) (found [] e es refl tt (rw (here, free)))
    ]
  ]

  pub queued-scan :
      (f : ℕ) (es : List (FiberAndThread Cb))
      → queued f (scan own heap es).1 + phase_picks f (picked (scan own heap es).0) ≡ queued f es
  unfolding scan
  queued-scan f [] = refl
  queued-scan f (e ∷ es) = ground (arith, queued-scan f es)

  pub scan-not_exec :
      (f : ℕ) (es : List (FiberAndThread Cb))
      → (scan own heap es).0 ≡ some (fiber f)
      → (heap f).state ≢ FiberState.exec
  unfolding scan
  scan-not_exec f [] h e = cc
  scan-not_exec f (x ∷ es) h e = ground (arith, scan-not_exec f es)
