-- ===== src/AsyncStream/Answers.antt =====
-- doRsp by any number of threads at once: a response, a time-out and a close may meet at one context.
-- Each of its accesses to `scheduler` is a step of its own. A request is registered with its scheduler
-- and its fiber; nobody but doRsp changes these two afterwards.
use helens.Prelude.{
  ℕ, ◌+◌, ◌≡◌, ◌≤◌, ◌<◌, refl, Bool, true, false, Option, none, some, List, [], ◌∷◌, ◌++◌, ◌==◌,
  arith, if◌then◌else◌,
}
use helens.Prelude.Family.{put, sum_below, sum_below-put, sum_below-const_zero, le-sum_below}
use helens.AsyncStream.{Ctx, Answer, AsyncStream, change_ctx, swap_scheduler, finish_at, finish_rsp}

-- Where a thread is in doRsp
pub data Responder : Type 0 where
  outside : Responder
  loaded : ℕ → Option ℕ → Responder
  swapped : ℕ → Option ℕ → Responder

pub record System : Type 0 where
  pub stream : AsyncStream
  pub threads : ℕ → Responder
  pub last_id : ℕ

abbrev pub at : ℕ → Responder → AsyncStream → System → System
at i r s y = record y { stream = s; threads = put y.threads i r }

abbrev pub after_swap : ℕ → ℕ → Option ℕ → Bool × AsyncStream → System → System
after_swap i c scd (true, s) y = at i (swapped c scd) s y
after_swap i c scd (false, s) y = at i outside s y

-- What the others may change in a context
abbrev pub Keeps : Ctx → Ctx → Type 0
Keeps x x' = (x'.scheduler ≡ x.scheduler) × (x'.fiber ≡ x.fiber)

pub data Step (n : ℕ) (y : System) : System → Type 0 where
  load :
      (i c : ℕ)
      → i < n
      → y.threads i ≡ outside
      → Step n y (at i (loaded c (y.stream.heap c).scheduler) y.stream y)
  swap :
      (i c : ℕ) (scd : Option ℕ)
      → i < n
      → y.threads i ≡ loaded c scd
      → Step n y (after_swap i c scd (swap_scheduler c scd y.stream) y)
  finish :
      (i c : ℕ) (scd : Option ℕ)
      → i < n
      → y.threads i ≡ swapped c scd
      → Step n y (at i outside (finish_rsp c scd y.stream) y)
  write :
      (c : ℕ) (x : Ctx)
      → Keeps (y.stream.heap c) x
      → Step n y (record y { stream = change_ctx c x y.stream })
  request :
      (x : Ctx) (scd f : ℕ)
      → x.scheduler ≡ some scd
      → x.fiber ≡ some f
      → Step n y
          (record y { stream = change_ctx (y.last_id + 1) x y.stream; last_id = y.last_id + 1 })

abbrev pub count : ℕ → List Answer → ℕ
count c [] = 0
count c (a ∷ rest) = (if a.ctx == c then 1 else 0) + count c rest

abbrev pub is_there : Option ℕ → ℕ
is_there none = 0
is_there (some _) = 1

abbrev pub answers_to : ℕ → Responder → ℕ
answers_to c (swapped d (some _)) = if d == c then 1 else 0
answers_to c _ = 0

abbrev pub answered : ℕ → System → ℕ
answered c y = count c y.stream.answers

-- the threads that are between the swap and the call of schedule
abbrev pub answering : ℕ → ℕ → System → ℕ
answering n c y = sum_below (answers_to c) n y.threads

abbrev pub waiting : ℕ → System → ℕ
waiting c y = is_there (y.stream.heap c).scheduler

pub data Reach (n : ℕ) (s : AsyncStream) : System → Type 0 where
  start : Reach n s (record { stream = s; threads = λ _. outside; last_id = 0 })
  later : {y y' : System} → Reach n s y → Step n y y' → Reach n s y'

-- The share of one context in the system.
record Share (c last a h w f : ℕ) : Type 0 where
  once : 0 < c → c ≤ last → a + h + w ≡ 1
  none_yet : last < c → a + h + w ≡ 0
  none_ever : c ≡ 0 → a + h + w ≡ 0
  has_fiber : 1 ≤ h + w → f ≡ 1

abbrev fibers : ℕ → System → ℕ
fibers c y = is_there (y.stream.heap c).fiber

abbrev IsShared : ℕ → ℕ → System → Type 0
IsShared n c y = Share c y.last_id (answered c y) (answering n c y) (waiting c y) (fibers c y)

count-append_one :
    (c : ℕ) (xs : List Answer) (a : Answer)
    → count c (xs ++ a ∷ []) ≡ count c xs + (if a.ctx == c then 1 else 0)
count-append_one c [] a = omega arith
count-append_one c (x ∷ xs) a = omega (arith, count-append_one c xs a)

module _ (n c : ℕ) (y : System) (old : IsShared n c y) where
  load-IsShared :
      (i d : ℕ) (scd : Option ℕ)
      → i < n
      → y.threads i ≡ outside
      → IsShared n c (at i (loaded d scd) y.stream y)
  load-IsShared i d scd below here =
      ground (arith, sum_below-put (answers_to c) n y.threads i (loaded d scd) below)

  swap-IsShared :
      (i d : ℕ) (scd : Option ℕ)
      → i < n
      → y.threads i ≡ loaded d scd
      → IsShared n c (after_swap i d scd (swap_scheduler d scd y.stream) y)
  unfolding swap_scheduler
  swap-IsShared i d scd below here = ground (
    arith,
    sum_below-put (answers_to c) n y.threads i (swapped d scd) below,
    sum_below-put (answers_to c) n y.threads i outside below,
  )

  finish_at-IsShared :
      (i d : ℕ) (scd f : Option ℕ)
      → i < n
      → y.threads i ≡ swapped d scd
      → (y.stream.heap d).fiber ≡ f
      → IsShared n c (at i outside (finish_at d (y.stream.heap d) scd f y.stream) y)
  finish_at-IsShared i d none f below here has =
      ground (arith, sum_below-put (answers_to c) n y.threads i outside below)
  finish_at-IsShared i d (some b) none below here has = ground (
    arith,
    sum_below-put (answers_to c) n y.threads i outside below,
    le-sum_below (answers_to c) n y.threads i below,
  )
  finish_at-IsShared i d (some b) (some f) below here has = ground (
    arith,
    sum_below-put (answers_to c) n y.threads i outside below,
    le-sum_below (answers_to c) n y.threads i below,
    count-append_one c y.stream.answers (record { ctx = d; to = b; who = f }),
  )

  finish-IsShared :
      (i d : ℕ) (scd : Option ℕ)
      → i < n
      → y.threads i ≡ swapped d scd
      → IsShared n c (at i outside (finish_rsp d scd y.stream) y)
  unfolding finish_rsp
  finish-IsShared i d scd below here =
      finish_at-IsShared i d scd (y.stream.heap d).fiber below here refl

  write-IsShared :
      (d : ℕ) (x : Ctx)
      → Keeps (y.stream.heap d) x
      → IsShared n c (record y { stream = change_ctx d x y.stream })
  write-IsShared d x keeps = ground arith

  request-IsShared :
      (x : Ctx) (scd f : ℕ)
      → x.scheduler ≡ some scd
      → x.fiber ≡ some f
      → IsShared n c
          (record y { stream = change_ctx (y.last_id + 1) x y.stream; last_id = y.last_id + 1 })
  request-IsShared x scd f has here = ground arith

Step-IsShared : (n c : ℕ) {y y' : System} → Step n y y' → IsShared n c y → IsShared n c y'
Step-IsShared n c {y} (load i d below here) old =
    load-IsShared n c y old i d (y.stream.heap d).scheduler below here
Step-IsShared n c {y} (swap i d scd below here) old = swap-IsShared n c y old i d scd below here
Step-IsShared n c {y} (finish i d scd below here) old = finish-IsShared n c y old i d scd below here
Step-IsShared n c {y} (write d x keeps) old = write-IsShared n c y old d x keeps
Step-IsShared n c {y} (request x scd f has here) old = request-IsShared n c y old x scd f has here

-- No context is registered, and no answer has been given.
abbrev pub IsFresh : AsyncStream → Type 0
IsFresh s = ((c : ℕ) → (s.heap c).scheduler ≡ none) × (s.answers ≡ [])

Reach-IsShared : (n c : ℕ) {s : AsyncStream} {y : System} → IsFresh s → Reach n s y → IsShared n c y
Reach-IsShared n c {s} fresh start =
    rw (fresh.1, fresh.0 c, sum_below-const_zero (answers_to c) n outside refl)
      (record {
        once = λ pos le. absurd (omega arith);
        none_yet = λ above. refl;
        none_ever = λ z. refl;
        has_fiber = λ pos. absurd (omega arith);
      })
Reach-IsShared n c fresh (later r st) = Step-IsShared n c st (Reach-IsShared n c fresh r)

-- From a stream with no registered request and no answer on: whatever threads call doRsp for it and however their accesses interleave, a registered request waits
-- for its answer, is being answered by one thread, or has been answered, once: the numbers of these
-- add up to one.
pub answered_once :
    (n c : ℕ) {s : AsyncStream} {y : System}
    → IsFresh s
    → Reach n s y
    → 0 < c
    → c ≤ y.last_id
    → answered c y + answering n c y + waiting c y ≡ 1
answered_once n c fresh r pos le = (Reach-IsShared n c fresh r).once pos le
