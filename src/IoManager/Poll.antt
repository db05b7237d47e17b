-- ===== src/IoManager/Poll.antt =====
-- `IOManager::idle`: how long epoll_wait may sleep, when the loop ends, and what is done with an event
-- that epoll_wait has reported.
use helens.Prelude.{
  ℕ, min, ◌%◌, ◌^◌, ◌≡◌, ◌≢◌, ◌≤◌, ◌<◌, Bool, true, false, not, ◌&&◌, ◌||◌, ◌⊎◌, Option, none, some,
  arith, get_elem?, if◌then◌else◌, ◌==◌, ltb, leb, inl, inr,
}
use helens.Scheduler.{Scheduler, stopped}
use helens.Timer.{never}
use helens.Epoll.{Events, any, mod_, del, ctl}
use helens.FdContext.{FdContext}
use helens.IoManager.{IoManager, trigger_all}

abbrev pub max_timeout : ℕ
max_timeout = 3000

-- An `int` from a `uint64_t` is negative if bit 31 is set.
abbrev pub low_word : ℕ → ℕ
low_word t = t % 2 ^ 32

abbrev pub is_negative : ℕ → Bool
is_negative w = leb (2 ^ 31) w

-- The `int` that epoll_wait is given: `none` is a negative one, with which it sleeps without end.
unfoldable pub wait_time : ℕ → Option ℕ
wait_time next_timeout =
    let t =
      if next_timeout == never
      then max_timeout
      else if not (is_negative (low_word next_timeout)) && ltb max_timeout (low_word next_timeout)
      then max_timeout
      else next_timeout in
    if is_negative (low_word t) then none else some (low_word t)

-- `stopping(timeout)`: the time until the next timer is getNextTimer's.
unfoldable pub io_stopping : {Cb : Type 0} → ℕ → IoManager Cb → Scheduler Cb → Bool
io_stopping next_timer m s = next_timer == never && (m.pending == 0) && stopped s

-- The bits of a reported event.
pub record Report : Type 0 where
  pub in_ : Bool
  pub out : Bool
  pub err : Bool  -- EPOLLERR or EPOLLHUP

-- `real_events`, once the bits of an error have been turned into those that are registered.
abbrev pub real_events : Report → Events → Events
real_events r e = record {
  readable = r.in_ || (r.err && e.readable);
  writable = r.out || (r.err && e.writable);
}

abbrev pub both : Events → Events → Events
both a b = record { readable = a.readable && b.readable; writable = a.writable && b.writable }

abbrev pub minus : Events → Events → Events
minus a b = record {
  readable = a.readable && not b.readable;
  writable = a.writable && not b.writable;
}

module _ {Cb : Type 0} where
  -- The body of the loop over the reported events, for an event of a descriptor.
  unfoldable pub handle_at : Bool → ℕ → Report → FdContext Cb → IoManager Cb → Option (IoManager Cb)
  handle_at ok fd r c s =
      let real = real_events r c.events in
      elim (any (both c.events real)) [
        | false ↦ some s
        | true ↦
            let left = minus c.events real in
            elim (ctl ok (if any left then mod_ else del) fd left s.kernel) [
              | none ↦ some s
              | some k ↦ trigger_all fd real (record s { kernel = k })
            ]
      ]

  -- epoll gives back the pointer to the context that addEvent has stored for the descriptor. It is the
  -- context that the table has at `fd`, unless the table has been made shorter since; then, with `none`
  -- there, the code goes on with a context that the model does not have.
  unfoldable pub handle_event : Bool → ℕ → Report → IoManager Cb → Option (IoManager Cb)
  handle_event ok fd r s = elim (get_elem? s.contexts fd) [
    | none ↦ none
    | some c ↦ handle_at ok fd r c s
  ]

-- For less than 2^31 milliseconds epoll_wait sleeps until the next timer, and not longer than three
-- seconds; so it does with no timer.
pub wait_time_lem : (t : ℕ) → (t < 2 ^ 31) ⊎ (t ≡ never) → wait_time t ≡ some (min t max_timeout)
unfolding wait_time
wait_time_lem t (inl h) = ground arith
wait_time_lem t (inr h) = rw h

-- With a timer for which bit 31 of the time is set, epoll_wait sleeps without end.
pub wait_time_negative : (t : ℕ) → 2 ^ 31 ≤ t % 2 ^ 32 → t ≢ never → wait_time t ≡ none
unfolding wait_time
wait_time_negative t h ne = ground arith
