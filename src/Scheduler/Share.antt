-- ===== src/Scheduler/Share.antt =====
-- The share of one fiber: how often it is in the queue (`q`), picked (`p`), held (`h`) and kept (`k`),
-- beside its state, and what the steps of the scheduler do to these numbers.
use helens.Prelude.{ℕ, ◌+◌, ◌≡◌, ◌≢◌, ◌≤◌, ◌<◌, ◌⊎◌, sym, subst, arith}
use helens.Fiber.{FiberState}
use helens.Fiber.{exec, init, ready}

pub record Share (f last q p h k : ℕ) (state : FiberState) : Type 0 where
  pub claimed : q + p ≤ 1
  pub owned : p + (h + k) ≤ 1
  pub both : 1 ≤ q + p → 1 ≤ h + k → state ≡ exec
  pub held : 0 < f → f ≤ last → state ≡ exec → 1 ≤ h
  pub waits : 0 < f → f ≤ last → state ≡ ready → 1 ≤ q + p + h
  pub known : 1 ≤ q + p + (h + k) → (0 < f) × (f ≤ last)

pub at_state :
    {f last q p h k : ℕ} {st st' : FiberState}
    → st' ≡ st
    → Share f last q p h k st
    → Share f last q p h k st'
at_state {f} {last} {q} {p} {h} {k} e old = subst (Share f last q p h k) (sym e) old

module _ {f last q p h k : ℕ} {st : FiberState} (old : Share f last q p h k st)
    {q' p' h' k' : ℕ} where
  pub took : st ≢ exec → q' + 1 ≡ q → p' ≡ p + 1 → h' ≡ h → k' ≡ k → Share f last q' p' h' k' st
  took ne a b c d = ground arith

  pub dropped :
      st ≢ exec → st ≢ ready → q' ≡ q → p' + 1 ≡ p → h' ≡ h → k' ≡ k → Share f last q' p' h' k' st
  dropped ne nr a b c d = ground arith

  pub entered : q' ≡ q → p' + 1 ≡ p → h' ≡ h + 1 → k' ≡ k → Share f last q' p' h' k' exec
  entered a b c d = ground arith

  pub entered_kept : q' ≡ q → p' ≡ p → h' ≡ h + 1 → k' + 1 ≡ k → Share f last q' p' h' k' exec
  entered_kept a b c d = ground arith

  pub entered_new :
      f ≡ last + 1 → q' ≡ q → p' ≡ p → h' ≡ h + 1 → k' ≡ k → Share f f q' p' h' k' exec
  entered_new e a b c d = ground arith

  pub yielded :
      (st' : FiberState)
      → 1 ≤ h
      → q + p ≡ 0
      → st' ≢ exec
      → q' ≡ q
      → p' ≡ p
      → h' ≡ h
      → k' ≡ k
      → Share f last q' p' h' k' st'
  yielded st' pos free ne a b c d = ground arith

  pub released :
      (st' : FiberState)
      → st' ≢ exec
      → st' ≢ ready
      → q' ≡ q
      → p' ≡ p
      → h' + 1 ≡ h
      → k' ≡ k
      → Share f last q' p' h' k' st'
  released st' ne nr a b c d = ground arith

  pub requeued : st ≢ exec → q' ≡ q + 1 → p' ≡ p → h' + 1 ≡ h → k' ≡ k → Share f last q' p' h' k' st
  requeued ne a b c d = ground arith

  pub kept : st ≢ exec → q' ≡ q → p' ≡ p → h' + 1 ≡ h → k' ≡ k + 1 → Share f last q' p' h' k' init
  kept ne a b c d = ground arith

  pub scheduled :
      0 < f
      → f ≤ last
      → q + p ≡ 0
      → (h + k ≡ 0) ⊎ (st ≡ exec)
      → q' ≡ q + 1
      → p' ≡ p
      → h' ≡ h
      → k' ≡ k
      → Share f last q' p' h' k' st
  scheduled pos le free own a b c d = ground arith

  pub created :
      f ≡ last + 1 → q' ≡ q → p' ≡ p → h' ≡ h → k' ≡ k → Share f (last + 1) q' p' h' k' init
  created e a b c d = ground arith

  pub unchanged : q' ≡ q → p' ≡ p → h' ≡ h → k' ≡ k → Share f last q' p' h' k' st
  unchanged a b c d = ground arith

module _ {f last q p h k : ℕ} {st : FiberState} (old : Share f last q p h k st) where
  -- The same numbers, once a fiber with another id has been made.
  pub grown : f ≢ last + 1 → Share f (last + 1) q p h k st
  grown ne = ground arith
