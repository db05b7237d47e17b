-- ===== src/Timer/Tests.antt =====
-- Runs of the timers at concrete inputs.
use helens.Prelude.{◌-◌, ◌≤◌, ◌≡◌, refl, ◌⊎◌, true, false, some, [], ◌∷◌, All}
use helens.Timer.{
  Timer, TimerManager, before, insert, insert_if, has, add_timer, wrap, minus, never,
  get_next_timer, list_expired_cb, init, create, refresh, count_before, count_equal, cut, restart,
  put_back, rolled_over,
}
use helens.Timer.Order.{Sorted}
use helens.Timer.Laws.{get_next_timer_lem}
use helens.Timer.Reached.{Runs, IsValid, reached-IsValid}
use helens.Timer.Reached
use helens.Timer.Expire.{Expired, list_expired_cb_lem}

abbrev once : Timer
once = record { id = 1; recurring = false; ms = 100; next = 1100; cb = some 7 }

abbrev every : Timer
every = record { id = 2; recurring = true; ms = 200; next = 1200; cb = some 8 }

abbrev late : Timer
late = record { id = 3; recurring = false; ms = 900; next = 1900; cb = some 9 }

abbrev three : TimerManager
three = record { timers = once ∷ every ∷ late ∷ []; tickled = true; previous_time = 1000 }

three-Sorted : Sorted three.timers
unfolding before
three-Sorted = ((refl, (refl, tt)), ((refl, tt), (tt, tt)))

-- At 1200 two of the three are due; the recurring one is put back.
listed_at_1200 :
    (list_expired_cb 50 1200 three).manager.timers ≡ record every { next = 1400 } ∷ late ∷ []
unfolding list_expired_cb cut count_before count_equal before put_back insert_if insert restart
    rolled_over minus wrap
listed_at_1200 = refl

not_rolled_over : rolled_over 1200 1000 ≡ false
unfolding rolled_over minus
not_rolled_over = refl

list_expired_cb_lem_example : Expired 1200 three.timers (list_expired_cb 50 1200 three)
list_expired_cb_lem_example = list_expired_cb_lem 50 1200 three three-Sorted not_rolled_over

abbrev first_added : TimerManager
first_added = (add_timer 1 100 7 false 1000 (init 1000)).0

abbrev first : Timer
first = create 1 100 (some 7) false 1000

-- A timer is added, and refreshed 50 milliseconds later.
abbrev two_calls : TimerManager
two_calls = (refresh first 1050 first_added).1

two_calls-Runs : Runs (init 1000) two_calls
unfolding init
two_calls-Runs =
    Runs.step (Reached.Step.added 1 100 7 false 1000 (init 1000) tt)
      (Runs.step (Reached.Step.refreshed first 1050 first_added) (Runs.stop two_calls))

reached-IsValid_example : IsValid two_calls.timers
reached-IsValid_example = reached-IsValid 1000 two_calls two_calls-Runs

abbrev fresh : Timer
fresh = record { id = 4; recurring = false; ms = 50; next = 1050; cb = some 5 }

fresh_absent : has fresh three.timers ≡ false
unfolding has before
fresh_absent = refl

get_next_timer_lem_example :
    ((three.timers ≡ []) × ((get_next_timer 1000 three).1 ≡ never))
    ⊎ ((t : Timer) × (has t three.timers ≡ true)
        × ((get_next_timer 1000 three).1 ≡ t.next - 1000)
        × All (λ u. t.next - 1000 ≤ u.next - 1000) three.timers)
get_next_timer_lem_example = get_next_timer_lem 1000 three three-Sorted

every_held : has every three.timers ≡ true
unfolding has before
every_held = refl
