-- ===== src/AsyncStream.antt =====
-- Helens/streams/async_socket_stream.cc and async_socket_stream.h: requests that wait for a response, by
-- their sequence number, and what is to be sent. A `Ctx` is shared by the table, the queue, its timer
-- and the fiber that waits: it stands in a heap under an id. Fibers, schedulers and timers are ids. What
-- doSend and the call-backs do is the caller's: `send` says whether doSend succeeds.
pub mod Answers
pub mod Closing
pub mod Responses
pub mod Wakeup
pub mod Manager
mod Tests
use helens.Prelude.{
  ℕ, ◌+◌, ◌-◌, ◌^◌, Bool, true, false, ◌&&◌, Option, none, some, List, [], ◌∷◌, ◌++◌, map, ◌==◌,
  if◌then◌else◌, ℕ_discrete,
}
use helens.Prelude.Family.{put}
use helens.Keyed.{find, remove}
use helens.FiberSemaphore.{FiberSemaphore, notify}

pub record Ctx : Type 0 where
  pub sn : ℕ
  pub timeout : ℕ
  pub result : ℕ
  pub timed : Bool
  pub scheduler : Option ℕ
  pub fiber : Option ℕ
  pub timer : Option ℕ

unfoldable pub new_ctx : Ctx
new_ctx = record {
  sn = 0;
  timeout = 0;
  result = 0;
  timed = false;
  scheduler = none;
  fiber = none;
  timer = none;
}

-- The errors -1 and -2, as `uint32_t result` holds them.
abbrev pub timeout_error : ℕ
timeout_error = 2 ^ 32 - 1

abbrev pub io_error : ℕ
io_error = 2 ^ 32 - 2

-- A call of `schedule` by doRsp: for which context, on which scheduler, with which fiber.
pub record Answer : Type 0 where
  pub ctx : ℕ
  pub to : ℕ
  pub who : ℕ

pub record AsyncStream : Type 0 where
  pub heap : ℕ → Ctx
  pub ctxs : List (ℕ × ℕ)  -- m_ctxs
  pub queue : List ℕ
  pub sem : FiberSemaphore (ℕ × ℕ)
  pub wait_sem : FiberSemaphore (ℕ × ℕ)
  pub connected : Bool
  pub disconnect_cb : Bool
  pub disconnects : ℕ  -- how often m_disconnectCb has been called
  pub answers : List Answer
  pub cancelled : List ℕ  -- the timers that doRsp has cancelled
  pub woken : List (ℕ × ℕ)  -- whom the semaphores have scheduled

abbrev pub same : Option ℕ → Option ℕ → Bool
same none none = true
same (some a) (some b) = a == b
same _ _ = false

abbrev pub change_ctx : ℕ → Ctx → AsyncStream → AsyncStream
change_ctx c x s = record s { heap = put s.heap c x }

-- `compareAndSwapBool(scheduler, scd, nullptr)`
unfoldable pub swap_scheduler : ℕ → Option ℕ → AsyncStream → Bool × AsyncStream
swap_scheduler c scd s =
    if same scd (s.heap c).scheduler
    then (true, change_ctx c (record (s.heap c) { scheduler = none }) s)
    else (false, s)

abbrev pub to_list : Option ℕ → List ℕ
to_list none = []
to_list (some a) = a ∷ []

-- `schedule(&fiber)` takes the fiber out of the context.
abbrev pub answered_ctx : Ctx → Ctx
answered_ctx x = record x {
  result = if x.timed then timeout_error else x.result;
  fiber = none;
  timer = none;
}

abbrev pub finish_at : ℕ → Ctx → Option ℕ → Option ℕ → AsyncStream → AsyncStream
finish_at c x (some scd) (some f) s = record s {
  heap = put s.heap c (answered_ctx x);
  cancelled = s.cancelled ++ to_list x.timer;
  answers = s.answers ++ record { ctx = c; to = scd; who = f } ∷ [];
}
finish_at c x _ _ s = s

-- doRsp once it has swapped the scheduler
unfoldable pub finish_rsp : ℕ → Option ℕ → AsyncStream → AsyncStream
finish_rsp c scd s = finish_at c (s.heap c) scd (s.heap c).fiber s

abbrev pub rsp_from : ℕ → Option ℕ → Bool × AsyncStream → AsyncStream
rsp_from c scd (true, s) = finish_rsp c scd s
rsp_from c scd (false, s) = s

unfoldable pub do_rsp : ℕ → AsyncStream → AsyncStream
do_rsp c s = let scd = (s.heap c).scheduler in rsp_from c scd (swap_scheduler c scd s)

unfoldable pub get_ctx : ℕ → AsyncStream → Option ℕ
get_ctx sn s = find ℕ_discrete sn s.ctxs

unfoldable pub get_and_del_ctx : ℕ → AsyncStream → Option ℕ × AsyncStream
get_and_del_ctx sn s = elim (find ℕ_discrete sn s.ctxs) [
  | none ↦ (none, s)
  | some c ↦ (some c, record s { ctxs = remove ℕ_discrete sn s.ctxs })
]

-- `insert` keeps an entry that is there.
unfoldable pub add_ctx : ℕ → AsyncStream → AsyncStream
add_ctx c s =
    let sn = (s.heap c).sn in
    elim (find ℕ_discrete sn s.ctxs) [ none ↦ record s { ctxs = (sn, c) ∷ s.ctxs } | some _ ↦ s ]

unfoldable pub on_time_out : ℕ → AsyncStream → AsyncStream
on_time_out c s =
    let s' = record s { ctxs = remove ℕ_discrete (s.heap c).sn s.ctxs } in
    do_rsp c (change_ctx c (record (s.heap c) { timed = true }) s')

abbrev pub woken_by : Option (ℕ × ℕ) → List (ℕ × ℕ)
woken_by none = []
woken_by (some w) = w ∷ []

unfoldable pub notify_writer : AsyncStream → AsyncStream
notify_writer s = let r = notify s.sem in record s { sem = r.1; woken = s.woken ++ woken_by r.0 }

unfoldable pub notify_start : AsyncStream → AsyncStream
notify_start s =
    let r = notify s.wait_sem in record s { wait_sem = r.1; woken = s.woken ++ woken_by r.0 }

abbrev pub no_entry : List ℕ → Bool
no_entry [] = true
no_entry (_ ∷ _) = false

unfoldable pub enqueue : ℕ → AsyncStream → Bool × AsyncStream
enqueue c s =
    let s' = record s { queue = s.queue ++ c ∷ [] } in
    (no_entry s.queue, if no_entry s.queue then notify_writer s' else s')

-- The loop at the end of innerClose, in the order of the table.
unfoldable pub fail_all : List (ℕ × ℕ) → AsyncStream → AsyncStream
fail_all [] s = s
fail_all (e ∷ es) s =
    fail_all es (do_rsp e.1 (change_ctx e.1 (record (s.heap e.1) { result = io_error }) s))

-- The call-back, if the socket is connected, and `SocketStream::close`.
unfoldable pub disconnect : AsyncStream → AsyncStream
disconnect s = record s {
  disconnects = if s.connected && s.disconnect_cb then s.disconnects + 1 else s.disconnects;
  connected = false;
}

unfoldable pub inner_close : AsyncStream → AsyncStream
inner_close s =
    let s' = notify_writer (disconnect s) in fail_all s'.ctxs (record s' { ctxs = []; queue = [] })

abbrev pub rsp_if : Option ℕ → AsyncStream → AsyncStream
rsp_if none s = s
rsp_if (some c) s = do_rsp c s

-- What doRecv has returned while the stream was connected.
unfoldable pub read_all : List (Option ℕ) → AsyncStream → AsyncStream
read_all [] s = s
read_all (r ∷ rs) s = read_all rs (rsp_if r s)

-- Without the timer that connects again
unfoldable pub do_read : List (Option ℕ) → AsyncStream → AsyncStream
do_read rs s = notify_start (inner_close (read_all rs s))

-- The inner loop of doWrite, which a failure ends.
unfoldable pub send_all : (ℕ → Bool) → List ℕ → AsyncStream → AsyncStream
send_all send [] s = s
send_all send (c ∷ cs) s = let rest = send_all send cs s in if send c then rest else inner_close s

-- One round of doWrite after it has got the semaphore.
unfoldable pub write_round : (ℕ → Bool) → AsyncStream → AsyncStream
write_round send s = send_all send s.queue (record s { queue = [] })

-- doWrite once the stream is not connected
unfoldable pub end_write : AsyncStream → AsyncStream
end_write s = notify_start (record s { queue = [] })
