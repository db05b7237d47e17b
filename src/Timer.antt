-- ===== src/Timer.antt =====
-- Helens/timer.cc: `Timer` and `TimerManager`. Each method holds the lock over what it does to the
-- timers, so a call is one step. The clock's reading, `now`, is an argument of the methods that call
-- `GetCurrentMS`; times are 64 bits wide and wrap.
pub mod Order
pub mod Laws
pub mod Due
pub mod Expire
pub mod Distinct
pub mod Reached
mod Tests
use helens.Prelude.{
  ℕ, zero, suc, ◌+◌, ◌-◌, ◌*◌, ◌%◌, ◌^◌, Bool, true, false, not, ◌&&◌, ◌||◌, Option, none, some,
  List, [], ◌∷◌, ◌++◌, if◌then◌else◌, ltb, ◌==◌, map, length, take, drop,
}

-- A timer that the manager holds, as a value: a method takes the timer as it is and returns it as it is
-- then, and the set holds it as it was when it was inserted, so that a change of its time without an
-- erasure before leaves the old one there. `id` is its address, which orders timers of equal time and tells
-- timers apart; `cb` is the call-back, none for a cancelled timer or one that is done.
pub record Timer : Type 0 where
  pub id : ℕ
  pub recurring : Bool
  pub ms : ℕ
  pub next : ℕ
  pub cb : Option ℕ

-- `timers` is the `std::set` in its order; `previous_time` is `m_previouseTime`.
pub record TimerManager : Type 0 where
  pub timers : List Timer
  pub tickled : Bool
  pub previous_time : ℕ

abbrev is_some : Option ℕ → Bool
is_some none = false
is_some (some _) = true

-- `m_cb` as a condition
abbrev pub has_cb : Timer → Bool
has_cb t = is_some t.cb

-- 64 bits
unfoldable pub wrap : ℕ → ℕ
wrap n = n % 2 ^ 64

-- `a - b` on 64 bits, for numbers below `2 ^ 64`
unfoldable pub minus : ℕ → ℕ → ℕ
minus a b = (a + 2 ^ 64 - b) % 2 ^ 64

-- `Timer::Comparator` on timers that are there: by time, then by address.
unfoldable pub before : Timer → Timer → Bool
before a b = if ltb a.next b.next then true else if ltb b.next a.next then false else ltb a.id b.id

-- `Comparator` on pointers, where a null pointer comes first.
unfoldable pub before_ptr : Option Timer → Option Timer → Bool
before_ptr none none = false
before_ptr none (some b) = true
before_ptr (some a) none = false
before_ptr (some a) (some b) = before a b

-- `m_timers.insert(t)`; an equal element stays as it is.
unfoldable pub insert : Timer → List Timer → List Timer
insert t [] = t ∷ []
insert t (u ∷ us) =
    let rest = insert t us in
    if before t u then t ∷ u ∷ us else if before u t then u ∷ rest else u ∷ us

-- `m_timers.find(t) != m_timers.end()`
unfoldable pub has : Timer → List Timer → Bool
has t [] = false
has t (u ∷ us) =
    let rest = has t us in if before t u then false else if before u t then rest else true

-- `m_timers.erase(m_timers.find(t))`
unfoldable pub erase : Timer → List Timer → List Timer
erase t [] = []
erase t (u ∷ us) =
    let rest = erase t us in if before t u then u ∷ us else if before u t then u ∷ rest else us

-- Whether `t` is the first of the timers.
unfoldable pub is_first : Timer → List Timer → Bool
is_first t [] = false
is_first t (u ∷ us) = not (before t u || before u t)

unfoldable pub create : ℕ → ℕ → Option ℕ → Bool → ℕ → Timer
create id ms cb recurring now = record {
  id = id;
  recurring = recurring;
  ms = ms;
  next = wrap (now + ms);
  cb = cb;
}

unfoldable pub init : ℕ → TimerManager
init now = record { timers = []; tickled = false; previous_time = now }

-- `addTimer(val, lock)`; the Boolean tells whether `onTimerInsertedAtFront` is called.
unfoldable pub add : Timer → TimerManager → TimerManager × Bool
add val m =
    let timers = insert val m.timers in
    let at_front = is_first val timers && not m.tickled in
    (record m { timers = timers; tickled = m.tickled || at_front }, at_front)

unfoldable pub add_timer : ℕ → ℕ → ℕ → Bool → ℕ → TimerManager → TimerManager × Bool
add_timer id ms cb recurring now m = add (create id ms (some cb) recurring now) m

-- The timer after the call, the manager, and what the method returns.
-- `none` stands for `erase(end())`, which is undefined.
unfoldable pub cancel : Timer → TimerManager → Option (Timer × TimerManager × Bool)
cancel t m =
    if not (has_cb t)
    then some (t, m, false)
    else if has t m.timers
    then some (record t { cb = none }, record m { timers = erase t m.timers }, true)
    else none

unfoldable pub refresh : Timer → ℕ → TimerManager → Timer × TimerManager × Bool
refresh t now m =
    let t' = record t { next = wrap (now + t.ms) } in
    if has_cb t && has t m.timers
    then (t', record m { timers = insert t' (erase t m.timers) }, true)
    else (t, m, false)

-- The last Boolean tells whether `onTimerInsertedAtFront` is called.
unfoldable pub reset : Timer → ℕ → Bool → ℕ → TimerManager → Timer × TimerManager × Bool × Bool
reset t ms from_now now m =
    let start = if from_now then now else minus t.next t.ms in
    let t' = record t { ms = ms; next = wrap (start + ms) } in
    let (m', at_front) = add t' (record m { timers = erase t m.timers }) in
    if ms == t.ms && not from_now
    then (t, m, true, false)
    else if has_cb t && has t m.timers
    then (t', m', true, at_front)
    else (t, m, false, false)

abbrev pub never : ℕ
never = 2 ^ 64 - 1

unfoldable pub wait : ℕ → List Timer → ℕ
wait now [] = never
wait now (t ∷ _) = if ltb now t.next then t.next - now else 0

-- `getNextTimer`: the manager, whose `m_tickled` is cleared, and the time to the first timer.
unfoldable pub get_next_timer : ℕ → TimerManager → TimerManager × ℕ
get_next_timer now m = (record m { tickled = false }, wait now m.timers)

-- `detectClockRollover`: the clock went back by more than an hour.
unfoldable pub rolled_over : ℕ → ℕ → Bool
rolled_over now previous = ltb now previous && ltb now (minus previous (60 * 60 * 1000))

abbrev pub is_empty : List Timer → Bool
is_empty [] = true
is_empty (_ ∷ _) = false

-- `(*m_timers.begin())->m_next > now_ms`
abbrev pub first_later : ℕ → List Timer → Bool
first_later now [] = false
first_later now (t ∷ _) = ltb now t.next

-- `Timer(now_ms)`
abbrev pub create_probe : ℕ → ℕ → Timer
create_probe id next = record { id = id; recurring = false; ms = 0; next = next; cb = none }

-- How many timers stand before `probe`: the distance of `lower_bound(probe)` from the begin.
unfoldable pub count_before : Timer → List Timer → ℕ
count_before probe [] = 0
count_before probe (t ∷ ts) =
    let rest = count_before probe ts in if before t probe then suc rest else 0

-- `while(it != end && (*it)->m_next == now_ms) ++it`
unfoldable pub count_equal : ℕ → List Timer → ℕ
count_equal now [] = 0
count_equal now (t ∷ ts) = let rest = count_equal now ts in if t.next == now then suc rest else 0

unfoldable pub cut : Bool → ℕ → ℕ → List Timer → ℕ
cut rollover probe now ts =
    let reached = count_before (create_probe probe now) ts in
    if rollover then length ts else reached + count_equal now (drop reached ts)

-- The loop over the expired timers: a recurring one is set to its next time and put back, any
-- other loses its call-back. The timers as they are after it, and the manager's.
unfoldable pub restart : ℕ → Timer → Timer
restart now t =
    if t.recurring then record t { next = wrap (now + t.ms) } else record t { cb = none }

unfoldable pub insert_if : Bool → Timer → List Timer → List Timer
insert_if true t timers = insert t timers
insert_if false t timers = timers

unfoldable pub put_back : ℕ → List Timer → List Timer → List Timer
put_back now [] timers = timers
put_back now (t ∷ expired) timers =
    put_back now expired (insert_if t.recurring (restart now t) timers)

-- What `listExpiredCb` leaves: the manager, the call-backs, and the expired timers as they are then.
pub record Listed : Type 0 where
  pub manager : TimerManager
  pub cbs : List (Option ℕ)
  pub expired : List Timer

-- `probe` is the address of the timer that is made for the search.
unfoldable pub list_expired_cb : ℕ → ℕ → TimerManager → Listed
list_expired_cb probe now m =
    let rollover = rolled_over now m.previous_time in
    let n = cut rollover probe now m.timers in
    let seen = record m { previous_time = now } in
    let expired = take n m.timers in
    if is_empty m.timers
    then record { manager = m; cbs = []; expired = [] }
    else if not rollover && first_later now m.timers
    then record { manager = seen; cbs = []; expired = [] }
    else record {
      manager = record seen { timers = put_back now expired (drop n m.timers) };
      cbs = map (λ t. t.cb) expired;
      expired = map (restart now) expired;
    }

pub has_timer : TimerManager → Bool
has_timer m = not (is_empty m.timers)
