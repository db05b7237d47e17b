-- ===== src/AsyncStream/Wakeup.antt =====
-- m_queue and m_sem between the callers of enqueue and innerClose and doWrite. A caller puts
-- its entry into the queue under the lock, and calls `m_sem.notify()` afterwards, if at all: these are
-- two steps, and the others come in between.
use helens.Prelude.{
  ℕ, ◌+◌, ◌-◌, ◌≡◌, ap, Bool-cases, ◌≢◌, ◌≤◌, refl, ◌⊎◌, inl, inr, Bool, true, false, not, ◌||◌,
  ◌==◌, Option, none, some, List, [], ◌∷◌, ◌++◌, arith, if◌then◌else◌,
}
use helens.FiberSemaphore.{FiberSemaphore, wait, notify}
use helens.AsyncStream.{AsyncStream, no_entry, enqueue, notify_writer}

-- Where doWrite is: at the condition of its loop, before the wait, in it, between it and the swap of
-- the queue, or sending; in the three accesses of innerClose after a doSend that failed; behind the loop,
-- or at its end.
pub data Writer : Type 0 where
  at_test : Writer
  at_wait : Writer
  blocked : Writer
  awake : Writer
  sending : Writer
  to_disconnect : Writer
  to_notify : Writer
  to_clear : Writer
  leaving : Writer
  ended : Writer

-- From the first start of the stream on, with one doWrite, until the next start.
pub record System : Type 0 where
  pub queue : List ℕ
  pub sem : FiberSemaphore (ℕ × ℕ)
  pub notifying : ℕ  -- the callers that have still to notify
  pub writer : Writer
  pub connected : Bool
  pub threw : Bool  -- whether a doSend has thrown

abbrev pub woken_writer : Option (ℕ × ℕ) → Writer → Writer
woken_writer none w = w
woken_writer (some _) w = awake

abbrev pub notify_sem : System → System
notify_sem y = let r = notify y.sem in record y { sem = r.1; writer = woken_writer r.0 y.writer }

abbrev pub after_wait : Bool → Writer
after_wait true = awake
after_wait false = blocked

abbrev pub wait_sem : ℕ × ℕ → System → System
wait_sem me y = let r = wait me y.sem in record y { sem = r.1; writer = after_wait r.0 }

-- An entry is put into the queue; a caller that finds the queue empty has then to notify.
abbrev pub pushed : ℕ → System → System
pushed c y = record y {
  queue = y.queue ++ c ∷ [];
  notifying = if no_entry y.queue then y.notifying + 1 else y.notifying;
}

-- `me` is the fiber of doWrite, with its scheduler.
pub data Step (me : ℕ × ℕ) (y : System) : System → Type 0 where
  push : (c : ℕ) → Step me y (pushed c y)
  notify_pushed :
      1 ≤ y.notifying → Step me y (notify_sem (record y { notifying = y.notifying - 1 }))
  -- What close and the innerClose of doRead do.
  disconnect : Step me y (record y { connected = false })
  notify_closed : Step me y (notify_sem y)
  clear : Step me y (record y { queue = [] })
  -- doWrite
  test :
      y.writer ≡ at_test
      → Step me y (record y { writer = if y.connected then at_wait else leaving })
  call_wait : y.writer ≡ at_wait → Step me y (wait_sem me y)
  take_queue : y.writer ≡ awake → Step me y (record y { queue = []; writer = sending })
  all_sent : y.writer ≡ sending → Step me y (record y { writer = at_test })
  send_failed : y.writer ≡ sending → Step me y (record y { writer = to_disconnect })
  send_threw : y.writer ≡ sending → Step me y (record y { writer = leaving; threw = true })
  own_disconnect :
      y.writer ≡ to_disconnect → Step me y (record y { connected = false; writer = to_notify })
  own_notify : y.writer ≡ to_notify → Step me y (notify_sem (record y { writer = to_clear }))
  own_clear : y.writer ≡ to_clear → Step me y (record y { queue = []; writer = at_test })
  leave : y.writer ≡ leaving → Step me y (record y { queue = []; writer = ended })

pub data Reach (me : ℕ × ℕ) : System → Type 0 where
  start : Reach me (record {
    queue = [];
    sem = record { concurrency = 0; waiters = [] };
    notifying = 0;
    writer = at_test;
    connected = true;
    threw = false;
  })
  later : {y y' : System} → Reach me y → Step me y y' → Reach me y'

abbrev shown : AsyncStream → ℕ → Writer → Bool → Bool → System
shown s n w up t = record {
  queue = s.queue;
  sem = s.sem;
  notifying = n;
  writer = w;
  connected = up;
  threw = t;
}

-- Undisturbed, the two steps of enqueue come to what enqueue does.
enqueue_lem :
    (c n : ℕ) (s : AsyncStream) (w : Writer) (up t : Bool)
    → let y = pushed c (shown s n w up t) in
      (if no_entry s.queue then notify_sem (record y { notifying = y.notifying - 1 }) else y)
      ≡ shown
          (enqueue c s).1
          n
          (if no_entry s.queue then woken_writer (notify s.sem).0 w else w)
          up
          t
unfolding enqueue notify_writer
enqueue_lem c n s w up t = elim (Bool-cases (no_entry s.queue)) [
  | inl e ↦ rw e (
      ap
        (λ (k : ℕ). record {
          queue = s.queue ++ c ∷ [];
          sem = (notify s.sem).1;
          notifying = k;
          writer = woken_writer (notify s.sem).0 w;
          connected = up;
          threw = t;
        })
        (omega arith))
  | inr e ↦ rw e refl
]

abbrev is_blocked : Writer → Bool
is_blocked blocked = true
is_blocked _ = false

abbrev awakes : Writer → ℕ
awakes awake = 1
awakes _ = 0

-- Behind the loop
abbrev pub has_left : Writer → Bool
has_left leaving = true
has_left ended = true
has_left _ = false

-- In the loop, with the next wait still to come
abbrev pub before_wait : Writer → Bool
before_wait w = not (is_blocked w || has_left w || awakes w == 1)

record IsWoken (me : ℕ × ℕ) (y : System) : Type 0 where
  waiters : y.sem.waiters ≡ (if is_blocked y.writer then me ∷ [] else [])
  permits : is_blocked y.writer ≡ true → y.sem.concurrency ≡ 0
  signal : no_entry y.queue ≡ false → 1 ≤ y.notifying + y.sem.concurrency + awakes y.writer
  gone : has_left y.writer ≡ true → (not y.connected || y.threw) ≡ true

Step-IsWoken : {me : ℕ × ℕ} {y y' : System} → Step me y y' → IsWoken me y → IsWoken me y'
unfolding notify wait
Step-IsWoken (push c) v = ground arith
Step-IsWoken (notify_pushed some_caller) v = ground arith
Step-IsWoken disconnect v = ground arith
Step-IsWoken notify_closed v = ground arith
Step-IsWoken clear v = ground arith
Step-IsWoken (test here) v = ground arith
Step-IsWoken (call_wait here) v = ground arith
Step-IsWoken (take_queue here) v = ground arith
Step-IsWoken (all_sent here) v = ground arith
Step-IsWoken (send_failed here) v = ground arith
Step-IsWoken (send_threw here) v = ground arith
Step-IsWoken (own_disconnect here) v = ground arith
Step-IsWoken (own_notify here) v = ground arith
Step-IsWoken (own_clear here) v = ground arith
Step-IsWoken (leave here) v = ground arith

Reach-IsWoken : {me : ℕ × ℕ} {y : System} → Reach me y → IsWoken me y
Reach-IsWoken start = record {
  waiters = refl;
  permits = λ b. refl;
  signal = λ e. absurd (cc);
  gone = λ e. absurd (cc);
}
Reach-IsWoken (later r st) = Step-IsWoken st (Reach-IsWoken r)

-- No wake-up is lost: in every state that is reached from the first start of the stream on, until the
-- next one, with an entry in the queue and no caller that has still to notify, doWrite is not blocked. It is about to take the queue;
-- or it is in its loop with the next wait still to come, which will find a permit; or it has left the
-- loop, and then the stream is not connected or a doSend has thrown.
pub writer_wakes :
    {me : ℕ × ℕ} {y : System}
    → Reach me y
    → y.notifying ≡ 0
    → y.queue ≢ []
    → (y.writer ≡ awake)
      ⊎ ((before_wait y.writer ≡ true) × ((wait me y.sem).0 ≡ true))
      ⊎ ((has_left y.writer ≡ true) × ((not y.connected || y.threw) ≡ true))
unfolding wait
writer_wakes {me} {y} r done some_entry = awake_by y.writer (Reach-IsWoken r) refl
  where
    awake_by :
        (w : Writer)
        → IsWoken me y
        → y.writer ≡ w
        → (y.writer ≡ awake)
          ⊎ ((before_wait y.writer ≡ true) × ((wait me y.sem).0 ≡ true))
          ⊎ ((has_left y.writer ≡ true) × ((not y.connected || y.threw) ≡ true))
    awake_by awake v e = inl e
    awake_by blocked v e = ground (arith, v.signal, v.permits)
    awake_by at_test v e = inr (inl (rw e refl, ground (arith, v.signal)))
    awake_by at_wait v e = inr (inl (rw e refl, ground (arith, v.signal)))
    awake_by sending v e = inr (inl (rw e refl, ground (arith, v.signal)))
    awake_by to_disconnect v e = inr (inl (rw e refl, ground (arith, v.signal)))
    awake_by to_notify v e = inr (inl (rw e refl, ground (arith, v.signal)))
    awake_by to_clear v e = inr (inl (rw e refl, ground (arith, v.signal)))
    awake_by leaving v e = inr (inr (rw e refl, v.gone (rw e refl)))
    awake_by ended v e = inr (inr (rw e refl, v.gone (rw e refl)))
