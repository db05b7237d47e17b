-- ===== src/FiberSemaphore/Order.antt =====
-- Any sequence of waits and notifies, beside the list of all who have come.
use helens.Prelude.{
  ℕ, zero, suc, ◌+◌, ◌-◌, ◌≡◌, refl, sym, ap, ◌∙◌, ◌⊎◌, inl, inr, Bool, true, false, Option, none,
  some, List, [], ◌∷◌, ◌++◌, arith, length, take, drop, subst, append-nil, append_assoc,
  length-append, lt→ltb, ◌≤◌,
}
use native.Mathlib.Nat.{add-zero}
use helens.Prelude.Slices.{take-append_le, drop-append_le}
use helens.FiberSemaphore.{FiberSemaphore, new_semaphore, wait, notify}

pub data Call (W : Type 0) : Type 0 where
  wait_by : W → Call W
  notify_by : Call W

module _ {W : Type 0} where
  -- Who has gone on, in order, and the semaphore.
  abbrev pub after_wait : W → List W → Bool × FiberSemaphore W → List W × FiberSemaphore W
  after_wait w gone (true, s) = (gone ++ w ∷ [], s)
  after_wait w gone (false, s) = (gone, s)

  abbrev pub after_notify : List W → Option W × FiberSemaphore W → List W × FiberSemaphore W
  after_notify gone (none, s) = (gone, s)
  after_notify gone (some w, s) = (gone ++ w ∷ [], s)

  unfoldable pub run : List (Call W) → List W × FiberSemaphore W → List W × FiberSemaphore W
  run [] st = st
  run (wait_by w ∷ cs) st = run cs (after_wait w st.0 (wait w st.1))
  run (notify_by ∷ cs) st = run cs (after_notify st.0 (notify st.1))

  abbrev pub arrivals : List (Call W) → List W
  arrivals [] = []
  arrivals (wait_by w ∷ cs) = w ∷ arrivals cs
  arrivals (notify_by ∷ cs) = arrivals cs

  abbrev pub notifies : List (Call W) → ℕ
  notifies [] = 0
  notifies (wait_by w ∷ cs) = notifies cs
  notifies (notify_by ∷ cs) = notifies cs + 1

  -- `came` have arrived and `permits` have been given out.
  record Serves (came : List W) (permits : ℕ) (gone : List W) (s : FiberSemaphore W) : Type 0 where
    order : gone ++ s.waiters ≡ came
    total : length gone + s.concurrency ≡ permits
    idle : (s.concurrency ≡ 0) ⊎ (s.waiters ≡ [])

  abbrev semaphore : ℕ → List W → FiberSemaphore W
  semaphore n ws = record { concurrency = n; waiters = ws }

  wait-Serves :
      (w : W) (came gone : List W) (permits n : ℕ) (ws : List W)
      → Serves came permits gone (semaphore n ws)
      → let r = after_wait w gone (wait w (semaphore n ws)) in
        Serves (came ++ w ∷ []) permits r.0 r.1
  unfolding wait
  wait-Serves w came gone permits zero ws h = record {
    order = sym (append_assoc gone ws (w ∷ [])) ∙ ap (λ l. l ++ w ∷ []) h.order;
    total = h.total;
    idle = inl refl;
  }
  wait-Serves w came gone permits (suc n) [] h = rw (lt→ltb 0 (suc n) (omega arith)) (record {
    order = append-nil (gone ++ w ∷ []) ∙ ap (λ l. l ++ w ∷ []) (sym (append-nil gone) ∙ h.order);
    total = omega (arith, length-append gone (w ∷ []), h.total);
    idle = inr refl;
  })
  wait-Serves w came gone permits (suc n) (v ∷ ws) h = ground (arith, h.idle)

  notify-Serves :
      (came gone : List W) (permits n : ℕ) (ws : List W)
      → Serves came permits gone (semaphore n ws)
      → let r = after_notify gone (notify (semaphore n ws)) in Serves came (permits + 1) r.0 r.1
  unfolding notify
  notify-Serves came gone permits n [] h = record {
    order = h.order;
    total = omega (arith, h.total);
    idle = inr refl;
  }
  notify-Serves came gone permits n (w ∷ ws) h = record {
    order = append_assoc gone (w ∷ []) ws ∙ h.order;
    total = omega (arith, length-append gone (w ∷ []), h.total);
    idle = ground (arith, h.idle);
  }

  run-Serves :
      (cs : List (Call W)) (came gone : List W) (permits : ℕ) (s : FiberSemaphore W)
      → Serves came permits gone s
      → let r = run cs (gone, s) in Serves (came ++ arrivals cs) (permits + notifies cs) r.0 r.1
  unfolding run
  run-Serves [] came gone permits s h = rw (append-nil came, add-zero permits) h
  run-Serves (wait_by w ∷ cs) came gone permits s h =
      let r = after_wait w gone (wait w s) in
      rw (← append_assoc came (w ∷ []) (arrivals cs)) (
        run-Serves cs (came ++ w ∷ []) r.0 permits r.1
          (wait-Serves w came gone permits s.concurrency s.waiters h))
  run-Serves (notify_by ∷ cs) came gone permits s h =
      let r = after_notify gone (notify s) in
      subst (λ (p : ℕ). let q = run cs r in Serves (came ++ arrivals cs) p q.0 q.1) (omega arith)
        (run-Serves cs came r.0 (permits + 1) r.1
          (notify-Serves came gone permits s.concurrency s.waiters h))

  take_all : (n : ℕ) (xs : List W) → length xs ≤ n → take n xs ≡ xs
  take_all zero [] h = refl
  take_all zero (x ∷ xs) h = absurd (omega arith)
  take_all (suc n) [] h = refl
  take_all (suc n) (x ∷ xs) h = ap (◌∷◌ x) (take_all n xs (omega arith))

  drop_all : (n : ℕ) (xs : List W) → length xs ≤ n → drop n xs ≡ []
  drop_all zero [] h = refl
  drop_all zero (x ∷ xs) h = absurd (omega arith)
  drop_all (suc n) [] h = refl
  drop_all (suc n) (x ∷ xs) h = drop_all n xs (omega arith)

  -- All who have gone on are those whom the permits reach.
  abbrev split : ℕ → List W → List W × FiberSemaphore W
  split permits came = (take permits came, semaphore (permits - length came) (drop permits came))

  all_gone :
      (gone : List W) (n permits : ℕ)
      → length gone + n ≡ permits
      → (gone, semaphore n []) ≡ split permits gone
  all_gone gone n permits h =
      rw (take_all permits gone (omega arith), drop_all permits gone (omega arith))
        (ap (λ (k : ℕ). (gone, semaphore k [])) (omega arith))

  some_wait :
      (gone ws : List W) (permits : ℕ)
      → length gone ≡ permits
      → (gone, semaphore 0 ws) ≡ split permits (gone ++ ws)
  some_wait gone ws permits h =
      rw
        (
          take-append_le permits gone ws (omega arith),
          drop-append_le permits gone ws (omega arith),
          take_all permits gone (omega arith),
          drop_all permits gone (omega arith),
        )
        (ap (λ (k : ℕ). (gone, semaphore k ws)) (omega (arith, length-append gone ws)))

  Serves-split :
      (came gone : List W) (permits n : ℕ) (ws : List W)
      → Serves came permits gone (semaphore n ws)
      → (gone, semaphore n ws) ≡ split permits came
  Serves-split came gone permits n [] h =
      all_gone gone n permits h.total ∙ ap (split permits) (sym (append-nil gone) ∙ h.order)
  Serves-split came gone permits zero (w ∷ ws) h =
      some_wait gone (w ∷ ws) permits (omega (arith, h.total)) ∙ ap (split permits) h.order
  Serves-split came gone permits (suc n) (w ∷ ws) h = ground (arith, h.idle)

  -- After any sequence of waits and notifies, as many of those who have come as there are permits have
  -- gone on, in the order in which they came; the others are queued in that order, and the permits that
  -- nobody has taken are in the semaphore.
  pub run_lem :
      (n : ℕ) (cs : List (Call W))
      → run cs ([], new_semaphore n) ≡ (
        take (n + notifies cs) (arrivals cs),
        record {
          concurrency = n + notifies cs - length (arrivals cs);
          waiters = drop (n + notifies cs) (arrivals cs);
        },
      )
  unfolding new_semaphore
  run_lem n cs =
      let r = run cs ([], new_semaphore n) in
      Serves-split (arrivals cs) r.0 (n + notifies cs) r.1.concurrency r.1.waiters (
        run-Serves cs [] [] n (new_semaphore n)
          (record { order = refl; total = omega arith; idle = inr refl }))
