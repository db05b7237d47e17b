-- ===== src/AsyncStream/Tests.antt =====
-- An AsyncSocketStream at concrete inputs.
use mathlib.Core.List.{Nodup, Nodup-nil}
use helens.Prelude.{
  ℕ, ◌+◌, ◌≡◌, ◌≢◌, refl, ◌⊎◌, true, false, not, ◌||◌, none, some, [], ◌∷◌, arith, ℕ_discrete,
}
use helens.Prelude.Family.{put}
use helens.Keyed.{keys, find, cons-Nodup, contains}
use helens.FiberSemaphore.{wait, notify}
use helens.AsyncStream.{
  Ctx, AsyncStream, timeout_error, io_error, add_ctx, do_rsp, enqueue, fail_all, finish_rsp,
  get_ctx, get_and_del_ctx, inner_close, on_time_out, swap_scheduler, write_round, send_all,
  disconnect, notify_writer,
}
use helens.AsyncStream.Answers.{Reach, Step, answered, answering, waiting, answered_once}
use helens.AsyncStream.Answers
use helens.AsyncStream.Closing.{holds_ctx, failure_of, inner_close_lem}
use helens.AsyncStream.Responses.{response_lem, time_out_lem}
use helens.AsyncStream.Wakeup.{writer_wakes, awake, at_wait, before_wait, has_left}
use helens.AsyncStream.Wakeup

-- A request with the sequence number `sn`, and its fiber, which waits
abbrev request : ℕ → ℕ → Ctx
request sn f = record {
  sn = sn;
  timeout = 1000;
  result = 0;
  timed = false;
  scheduler = some 1;
  fiber = some f;
  timer = some 9;
}

abbrev empty : AsyncStream
empty = record {
  heap = λ _. record {
    sn = 0;
    timeout = 0;
    result = 0;
    timed = false;
    scheduler = none;
    fiber = none;
    timer = none;
  };
  ctxs = [];
  queue = [];
  sem = record { concurrency = 0; waiters = [] };
  wait_sem = record { concurrency = 0; waiters = [] };
  connected = true;
  disconnect_cb = true;
  disconnects = 0;
  answers = [];
  cancelled = [];
  woken = [];
}

-- Two requests wait for their responses.
abbrev two : AsyncStream
two = record empty {
  heap = put (put empty.heap 1 (request 100 5)) 2 (request 101 6);
  ctxs = (101, 2) ∷ (100, 1) ∷ [];
  queue = 2 ∷ [];
}

add_two : (add_ctx 2 (add_ctx 1 (record two { ctxs = [] }))).ctxs ≡ (101, 2) ∷ (100, 1) ∷ []
unfolding add_ctx find ℕ_discrete
add_two = refl

close_two :
    (inner_close two).answers
    ≡ record { ctx = 2; to = 1; who = 6 } ∷ record { ctx = 1; to = 1; who = 5 } ∷ []
unfolding inner_close fail_all do_rsp swap_scheduler finish_rsp disconnect notify_writer notify
close_two = refl

-- The first send fails.
failed_send : ((write_round (λ _. false) two).heap 1).result ≡ io_error
unfolding write_round send_all inner_close fail_all do_rsp swap_scheduler finish_rsp disconnect
    notify_writer notify
failed_send = refl

enqueue_first : (enqueue 1 empty).0 ≡ true
unfolding enqueue
enqueue_first = refl

inner_close_lem_example :
    let s' = inner_close two in
    (s'.ctxs ≡ [])
    × (s'.queue ≡ [])
    × (s'.connected ≡ false)
    × (s'.disconnects ≡ 1)
    × (s'.answers ≡ record { ctx = 2; to = 1; who = 6 } ∷ record { ctx = 1; to = 1; who = 5 } ∷ [])
    × ((c : ℕ)
        → holds_ctx c two.ctxs ≡ true
        → ((s'.heap c).result ≡ failure_of (two.heap c)) × ((s'.heap c).scheduler ≡ none))
    × ((c : ℕ) → holds_ctx c two.ctxs ≡ false → s'.heap c ≡ two.heap c)
inner_close_lem_example = inner_close_lem two (refl, (refl, tt))

two-Nodup : Nodup (keys two.ctxs)
unfolding contains ℕ_discrete
two-Nodup = cons-Nodup ℕ_discrete 101 (100 ∷ []) refl (cons-Nodup ℕ_discrete 100 [] refl Nodup-nil)

time_out_lem_example :
    let s' = on_time_out 1 two in
    ((s'.heap 1).result ≡ timeout_error)
    × (s'.answers ≡ record { ctx = 1; to = 1; who = 5 } ∷ [])
    × ((get_and_del_ctx 100 s').0 ≡ none)
    × ((sn : ℕ) → sn ≢ 100 → get_ctx sn s' ≡ get_ctx sn two)
    × ((on_time_out 1 s').answers ≡ s'.answers)
time_out_lem_example = time_out_lem 1 1 5 two (refl, refl) two-Nodup

found_one : get_ctx 100 two ≡ some 1
unfolding get_ctx find ℕ_discrete
found_one = refl

response_lem_example :
    let r = get_and_del_ctx 100 two in
    let s' = do_rsp 1 r.1 in
    (r.0 ≡ some 1)
    × ((s'.heap 1).result ≡ 0)
    × (s'.answers ≡ record { ctx = 1; to = 1; who = 5 } ∷ [])
    × (s'.cancelled ≡ 9 ∷ [])
    × (get_ctx 100 s' ≡ none)
    × ((other : ℕ) → other ≢ 100 → get_ctx other s' ≡ get_ctx other two)
    × ((on_time_out 1 s').answers ≡ s'.answers)
response_lem_example = response_lem 100 1 1 5 two found_one (refl, refl) refl two-Nodup

-- One request, for which two threads have called doRsp: one has swapped, the other has just looked.
abbrev registered : Answers.System
registered = record {
  stream = record empty { heap = put empty.heap 1 (request 100 5) };
  threads = λ _. Answers.outside;
  last_id = 1;
}

registered-Reach : Reach 2 empty registered
registered-Reach = Reach.later Reach.start (Step.request (request 100 5) 1 5 refl refl)

abbrev first_looks : Answers.System
first_looks = Answers.at 0 (Answers.loaded 1 (some 1)) registered.stream registered

abbrev both_look : Answers.System
both_look = Answers.at 1 (Answers.loaded 1 (some 1)) registered.stream first_looks

both_look-Reach : Reach 2 empty both_look
both_look-Reach =
    Reach.later (Reach.later registered-Reach (Step.load 0 1 (omega arith) refl))
      (Step.load 1 1 (omega arith) refl)

abbrev first_swapped : Answers.System
first_swapped =
    Answers.after_swap 0 1 (some 1) (swap_scheduler 1 (some 1) both_look.stream) both_look

first_swapped-Reach : Reach 2 empty first_swapped
first_swapped-Reach = Reach.later both_look-Reach (Step.swap 0 1 (some 1) (omega arith) refl)

-- The second thread's swap fails.
second_fails : (swap_scheduler 1 (some 1) first_swapped.stream).0 ≡ false
unfolding swap_scheduler
second_fails = refl

answered_once_example :
    answered 1 first_swapped + answering 2 1 first_swapped + waiting 1 first_swapped ≡ 1
unfolding swap_scheduler
answered_once_example =
    answered_once 2 1 ((λ c. refl), refl) first_swapped-Reach (omega arith) (omega arith)

-- The writer waits, an entry is put into the queue, and the caller notifies.
abbrev quiet : Wakeup.System
quiet = record {
  queue = [];
  sem = record { concurrency = 0; waiters = [] };
  notifying = 0;
  writer = at_wait;
  connected = true;
  threw = false;
}

abbrev notified : Wakeup.System
notified =
    Wakeup.notify_sem (record (Wakeup.wait_sem (1, 7) quiet) { queue = 3 ∷ []; notifying = 0 })

notified-Reach : Wakeup.Reach (1, 7) notified
unfolding wait
notified-Reach =
    Wakeup.later
      (Wakeup.later
        (Wakeup.later (Wakeup.later Wakeup.start (Wakeup.test refl)) (Wakeup.call_wait refl))
        (Wakeup.push 3))
      (Wakeup.notify_pushed (omega arith))

writer_wakes_example :
    (notified.writer ≡ awake)
    ⊎ ((before_wait notified.writer ≡ true) × ((wait (1, 7) notified.sem).0 ≡ true))
    ⊎ ((has_left notified.writer ≡ true) × ((not notified.connected || notified.threw) ≡ true))
unfolding wait notify
writer_wakes_example = writer_wakes notified-Reach refl (λ e. cc e)
