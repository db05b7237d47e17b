-- ===== src/AsyncStream/Closing.antt =====
-- innerClose and onTimeOut: what becomes of the contexts in the table.
use helens.Prelude.{
  ℕ, ◌+◌, ◌≡◌, ◌≢◌, refl, sym, ap, ◌∙◌, Bool, true, false, ◌&&◌, ◌||◌, Option, none, some, List, [],
  ◌∷◌, ◌++◌, append-nil, append_assoc, ◌==◌, arith, if◌then◌else◌, ℕ_discrete, subst,
}
use helens.Prelude.Family.{put}
use helens.AsyncStream.{
  Ctx, Answer, AsyncStream, timeout_error, io_error, change_ctx, swap_scheduler, finish_rsp, do_rsp,
  same, finish_at, fail_all, inner_close, disconnect, notify_writer,
}

-- Whether a fiber waits with the context
abbrev pub is_waiting : Ctx → Bool
is_waiting x = elim (x.scheduler) [
  | none ↦ false
  | some _ ↦ elim (x.fiber) [ none ↦ false | some _ ↦ true ]
]

abbrev pub answer_at : ℕ → Option ℕ → Option ℕ → List Answer
answer_at c (some b) (some f) = record { ctx = c; to = b; who = f } ∷ []
answer_at c _ _ = []

-- The answer that a context is due, if a fiber waits with it.
abbrev pub answer_to : ℕ → Ctx → List Answer
answer_to c x = answer_at c x.scheduler x.fiber

abbrev pub answers_to_all : (ℕ → Ctx) → List (ℕ × ℕ) → List Answer
answers_to_all heap [] = []
answers_to_all heap (e ∷ es) = answer_to e.1 (heap e.1) ++ answers_to_all heap es

abbrev pub holds_ctx : ℕ → List (ℕ × ℕ) → Bool
holds_ctx c [] = false
holds_ctx c (e ∷ es) = e.1 == c || holds_ctx c es

-- No context stands in the table twice.
abbrev pub AreDistinct : List (ℕ × ℕ) → Type 0
AreDistinct [] = Unit {0}
AreDistinct (e ∷ es) = (holds_ctx e.1 es ≡ false) × AreDistinct es

-- What a fiber that waits then finds in its context
abbrev pub failure_of : Ctx → ℕ
failure_of x = if is_waiting x && x.timed then timeout_error else io_error

pub put_self : (g : ℕ → Ctx) (c : ℕ) (x : Ctx) → put g c x c ≡ x
put_self g c x = ground arith

same_self : (o : Option ℕ) → same o o ≡ true
same_self none = refl
same_self (some a) = ground arith

abbrev pub idle_ctx : Ctx → Ctx
idle_ctx x = record x { scheduler = none }

finish_rsp_lem :
    (c : ℕ) (x : Ctx) (scd : Option ℕ) (s : AsyncStream)
    → finish_rsp c scd (change_ctx c x s) ≡ finish_at c x scd x.fiber (change_ctx c x s)
unfolding finish_rsp
finish_rsp_lem c x scd s =
    ap (λ (w : Ctx). finish_at c w scd w.fiber (change_ctx c x s)) (put_self s.heap c x)

-- By one thread alone doRsp takes the scheduler and finishes.
pub do_rsp_lem :
    (c : ℕ) (s : AsyncStream)
    → do_rsp c s
      ≡ finish_at c
          (idle_ctx (s.heap c))
          (s.heap c).scheduler
          (s.heap c).fiber
          (change_ctx c (idle_ctx (s.heap c)) s)
unfolding do_rsp swap_scheduler
do_rsp_lem c s =
    rw (same_self (s.heap c).scheduler)
      (finish_rsp_lem c (idle_ctx (s.heap c)) (s.heap c).scheduler s)

-- doRsp for a context that has become `x`
abbrev rsp_with : ℕ → Ctx → AsyncStream → AsyncStream
rsp_with c x s =
    let s' = change_ctx c x s in
    finish_at c (idle_ctx x) x.scheduler x.fiber (change_ctx c (idle_ctx x) s')

pub do_rsp-change :
    (c : ℕ) (x : Ctx) (s : AsyncStream) → do_rsp c (change_ctx c x s) ≡ rsp_with c x s
do_rsp-change c x s =
    do_rsp_lem c (change_ctx c x s)
    ∙ ap
        (λ (w : Ctx).
          finish_at c (idle_ctx w) w.scheduler w.fiber
            (change_ctx c (idle_ctx w) (change_ctx c x s)))
        (put_self s.heap c x)

fail_one : ℕ → AsyncStream → AsyncStream
fail_one c s = do_rsp c (change_ctx c (record (s.heap c) { result = io_error }) s)

-- `s'` differs from `s` in the context `c`, which is now answered, and in the log.
record Failed (c : ℕ) (s s' : AsyncStream) : Type 0 where
  others : (d : ℕ) → c ≢ d → s'.heap d ≡ s.heap d
  result : (s'.heap c).result ≡ failure_of (s.heap c)
  taken : (s'.heap c).scheduler ≡ none
  answers : s'.answers ≡ s.answers ++ answer_to c (s.heap c)
  table : s'.ctxs ≡ s.ctxs
  queue : s'.queue ≡ s.queue
  connected : s'.connected ≡ s.connected
  disconnects : s'.disconnects ≡ s.disconnects

Failed-finish :
    (c : ℕ) (x : Ctx) (scd f : Option ℕ) (s : AsyncStream)
    → s.heap c ≡ record x { scheduler = scd; fiber = f }
    → Failed c s (rsp_with c (record x { scheduler = scd; fiber = f; result = io_error }) s)
Failed-finish c x none f s e = record {
  others = λ d ne. ground arith;
  result = ground arith;
  taken = ground arith;
  answers = sym (append-nil s.answers) ∙ ap (λ (w : Ctx). s.answers ++ answer_to c w) (sym e);
  table = refl;
  queue = refl;
  connected = refl;
  disconnects = refl;
}
Failed-finish c x (some b) none s e = record {
  others = λ d ne. ground arith;
  result = ground arith;
  taken = ground arith;
  answers = sym (append-nil s.answers) ∙ ap (λ (w : Ctx). s.answers ++ answer_to c w) (sym e);
  table = refl;
  queue = refl;
  connected = refl;
  disconnects = refl;
}
Failed-finish c x (some b) (some f) s e = record {
  others = λ d ne. ground arith;
  result = ground arith;
  taken = ground arith;
  answers = ground arith;
  table = refl;
  queue = refl;
  connected = refl;
  disconnects = refl;
}

fail_one-Failed : (c : ℕ) (s : AsyncStream) → Failed c s (fail_one c s)
unfolding fail_one
fail_one-Failed c s =
    let x = s.heap c in
    subst (Failed c s) (sym (do_rsp-change c (record x { result = io_error }) s))
      (Failed-finish c x x.scheduler x.fiber s refl)

answers_to_all_congr :
    (g h : ℕ → Ctx) (es : List (ℕ × ℕ))
    → ((d : ℕ) → holds_ctx d es ≡ true → g d ≡ h d)
    → answers_to_all g es ≡ answers_to_all h es
answers_to_all_congr g h [] same_ctx = refl
answers_to_all_congr g h (e ∷ es) same_ctx =
    rw
      (
        same_ctx e.1 (ground arith),
        answers_to_all_congr g h es (λ d there. same_ctx d (ground arith)),
      )
      refl

-- The contexts of the entries have been given up, each with what it was due.
record AllFailed (es : List (ℕ × ℕ)) (s s' : AsyncStream) : Type 0 where
  others : (d : ℕ) → holds_ctx d es ≡ false → s'.heap d ≡ s.heap d
  result : (d : ℕ) → holds_ctx d es ≡ true → (s'.heap d).result ≡ failure_of (s.heap d)
  taken : (d : ℕ) → holds_ctx d es ≡ true → (s'.heap d).scheduler ≡ none
  answers : s'.answers ≡ s.answers ++ answers_to_all s.heap es
  table : s'.ctxs ≡ s.ctxs
  queue : s'.queue ≡ s.queue
  connected : s'.connected ≡ s.connected
  disconnects : s'.disconnects ≡ s.disconnects

module _ (e : ℕ × ℕ) (es : List (ℕ × ℕ)) (s t u : AsyncStream) (new : holds_ctx e.1 es ≡ false)
    (first : Failed e.1 s t) (rest : AllFailed es t u) where
  later_ctx : (d : ℕ) → holds_ctx d es ≡ true → t.heap d ≡ s.heap d
  later_ctx d there = first.others d (λ eq. absurd (cc (ap (λ (k : ℕ). holds_ctx k es) eq)))

  -- What holds of the entry's context and of those behind it holds of all.
  for_each :
      (P : ℕ → Type 0)
      → P e.1
      → ((d : ℕ) → e.1 ≢ d → holds_ctx d es ≡ true → P d)
      → (d : ℕ) → holds_ctx d (e ∷ es) ≡ true
      → P d
  for_each P here behind d there = elim (ℕ_discrete e.1 d) [
    | yes same_ctx ↦ subst P same_ctx here
    | no ne ↦ behind d ne (ground arith)
  ]

  AllFailed-cons : AllFailed (e ∷ es) s u
  AllFailed-cons = record {
    others = λ d out. rest.others d (ground arith) ∙ first.others d (λ eq. ground arith);
    result =
        for_each (λ d. (u.heap d).result ≡ failure_of (s.heap d))
          (ap (λ (w : Ctx). w.result) (rest.others e.1 new) ∙ first.result)
          (λ d ne there. rest.result d there ∙ ap failure_of (later_ctx d there));
    taken =
        for_each (λ d. (u.heap d).scheduler ≡ none)
          (ap (λ (w : Ctx). w.scheduler) (rest.others e.1 new) ∙ first.taken)
          (λ d ne there. rest.taken d there);
    answers =
        rest.answers
        ∙ ap (λ l. l ++ answers_to_all t.heap es) first.answers
        ∙ append_assoc s.answers (answer_to e.1 (s.heap e.1)) (answers_to_all t.heap es)
        ∙ ap (λ l. s.answers ++ (answer_to e.1 (s.heap e.1) ++ l))
            (answers_to_all_congr t.heap s.heap es later_ctx);
    table = rest.table ∙ first.table;
    queue = rest.queue ∙ first.queue;
    connected = rest.connected ∙ first.connected;
    disconnects = rest.disconnects ∙ first.disconnects;
  }

fail_all-AllFailed :
    (es : List (ℕ × ℕ)) (s : AsyncStream) → AreDistinct es → AllFailed es s (fail_all es s)
unfolding fail_all fail_one
fail_all-AllFailed [] s tt = record {
  others = λ d no_entry. refl;
  result = λ d there. absurd (cc);
  taken = λ d there. absurd (cc);
  answers = sym (append-nil s.answers);
  table = refl;
  queue = refl;
  connected = refl;
  disconnects = refl;
}
fail_all-AllFailed (e ∷ es) s (new, distinct) =
    AllFailed-cons e es s (fail_one e.1 s) (fail_all es (fail_one e.1 s)) new
      (fail_one-Failed e.1 s) (fail_all-AllFailed es (fail_one e.1 s) distinct)

-- If no context stands in the table twice, innerClose leaves the table and the queue empty and the
-- socket closed, and calls the call-back if there is one and the socket was connected. Each fiber that
-- waits with a context of the table is scheduled, once, in the order of the table, and finds IO_ERROR
-- there, or TIMEOUT if its time had run out. Other contexts do not change.
pub inner_close_lem :
    (s : AsyncStream)
    → AreDistinct s.ctxs
    → let s' = inner_close s in
      (s'.ctxs ≡ [])
      × (s'.queue ≡ [])
      × (s'.connected ≡ false)
      × (s'.disconnects ≡ s.disconnects + (if s.connected && s.disconnect_cb then 1 else 0))
      × (s'.answers ≡ s.answers ++ answers_to_all s.heap s.ctxs)
      × ((c : ℕ)
          → holds_ctx c s.ctxs ≡ true
          → ((s'.heap c).result ≡ failure_of (s.heap c)) × ((s'.heap c).scheduler ≡ none))
      × ((c : ℕ) → holds_ctx c s.ctxs ≡ false → s'.heap c ≡ s.heap c)
unfolding inner_close notify_writer disconnect
inner_close_lem s distinct =
    let closed = notify_writer (disconnect s) in
    let emptied = record closed { ctxs = []; queue = [] } in
    let all = fail_all-AllFailed s.ctxs emptied distinct in
    (
      all.table,
      all.queue,
      all.connected,
      all.disconnects ∙ ground arith,
      all.answers,
      λ c there. (all.result c there, all.taken c there),
      λ c out. all.others c out,
    )
