-- ===== src/AsyncStream/Responses.antt =====
-- A response and the time-out of one request: what each does, and what it leaves for the other.
use mathlib.Core.List.{Nodup}
use mathlib.Core.Logic.{if_pos}
use helens.Prelude.{
  ℕ, ◌≡◌, ◌≢◌, refl, sym, ap, ◌∙◌, true, false, Option, none, some, [], ◌∷◌, ◌++◌, arith,
  ℕ_discrete, subst,
}
use helens.Prelude.Family.{put}
use helens.Keyed.{keys, find, remove, find-remove, find-remove_ne}
use helens.AsyncStream.{
  Ctx, Answer, AsyncStream, timeout_error, change_ctx, to_list, answered_ctx, finish_at, do_rsp,
  get_ctx, get_and_del_ctx, on_time_out,
}
use helens.AsyncStream.Closing.{idle_ctx, put_self, do_rsp_lem}

-- The fiber `f` of the scheduler `b` waits with the context.
abbrev pub WaitsWith : ℕ → ℕ → Ctx → Type 0
WaitsWith b f x = (x.scheduler ≡ some b) × (x.fiber ≡ some f)

abbrev answer_of : ℕ → ℕ → ℕ → Answer
answer_of c b f = record { ctx = c; to = b; who = f }

-- What doRsp comes to where a fiber waits
abbrev rsp_done : ℕ → ℕ → ℕ → AsyncStream → AsyncStream
rsp_done c b f s =
    finish_at c (idle_ctx (s.heap c)) (some b) (some f) (change_ctx c (idle_ctx (s.heap c)) s)

do_rsp_waiting :
    (c b f : ℕ) (s : AsyncStream) → WaitsWith b f (s.heap c) → do_rsp c s ≡ rsp_done c b f s
do_rsp_waiting c b f s (has, here) =
    do_rsp_lem c s
    ∙ ap
        (λ (o : Option ℕ).
          finish_at c (idle_ctx (s.heap c)) o (s.heap c).fiber
            (change_ctx c (idle_ctx (s.heap c)) s))
        has
    ∙ ap
        (λ (o : Option ℕ).
          finish_at c (idle_ctx (s.heap c)) (some b) o (change_ctx c (idle_ctx (s.heap c)) s))
        here

record Responded (c b f : ℕ) (x : Ctx) (s s' : AsyncStream) : Type 0 where
  ctx : s'.heap c ≡ answered_ctx (idle_ctx x)
  answers : s'.answers ≡ s.answers ++ answer_of c b f ∷ []
  cancelled : s'.cancelled ≡ s.cancelled ++ to_list x.timer
  table : s'.ctxs ≡ s.ctxs

do_rsp-Responded :
    (c b f : ℕ) (x : Ctx) (s : AsyncStream)
    → s.heap c ≡ x
    → WaitsWith b f x
    → Responded c b f x s (do_rsp c s)
do_rsp-Responded c b f x s e waits =
    subst (λ (w : Ctx). WaitsWith b f w → Responded c b f w s (do_rsp c s)) e
      (λ here. subst (Responded c b f (s.heap c) s) (sym (do_rsp_waiting c b f s here)) (record {
        ctx = put_self (put s.heap c (idle_ctx (s.heap c))) c (answered_ctx (idle_ctx (s.heap c)));
        answers = refl;
        cancelled = refl;
        table = refl;
      }))
      waits

-- Where no scheduler is left, doRsp says nothing more.
do_rsp_again :
    (c : ℕ) (s : AsyncStream) → (s.heap c).scheduler ≡ none → (do_rsp c s).answers ≡ s.answers
do_rsp_again c s gone =
    ap (λ (t : AsyncStream). t.answers)
      (do_rsp_lem c s
        ∙ ap
            (λ (o : Option ℕ).
              finish_at c (idle_ctx (s.heap c)) o (s.heap c).fiber
                (change_ctx c (idle_ctx (s.heap c)) s))
            gone)

time_out_again :
    (c : ℕ) (s : AsyncStream) → (s.heap c).scheduler ≡ none → (on_time_out c s).answers ≡ s.answers
unfolding on_time_out
time_out_again c s gone = do_rsp_again c _ (ground arith)

get_and_del_miss :
    (sn : ℕ) (s : AsyncStream) → get_ctx sn s ≡ none → (get_and_del_ctx sn s).0 ≡ none
unfolding get_ctx get_and_del_ctx
get_and_del_miss sn s e = rw (e, get_and_del_ctx) refl

get_and_del_hit :
    (sn c : ℕ) (s : AsyncStream)
    → get_ctx sn s ≡ some c
    → get_and_del_ctx sn s ≡ (some c, record s { ctxs = remove ℕ_discrete sn s.ctxs })
unfolding get_ctx get_and_del_ctx
get_and_del_hit sn c s e = rw (e, get_and_del_ctx) refl

-- In a table with each sequence number once: when the time of a request has run out while its fiber
-- waits, its fiber is scheduled once and finds
-- TIMEOUT; the table has forgotten its sequence number alone, so that a response that comes later
-- finds no context, and the timer's firing again would schedule nobody.
pub time_out_lem :
    (c b f : ℕ) (s : AsyncStream)
    → WaitsWith b f (s.heap c)
    → Nodup (keys s.ctxs)
    → let s' = on_time_out c s in
      ((s'.heap c).result ≡ timeout_error)
      × (s'.answers ≡ s.answers ++ record { ctx = c; to = b; who = f } ∷ [])
      × ((get_and_del_ctx (s.heap c).sn s').0 ≡ none)
      × ((sn : ℕ) → sn ≢ (s.heap c).sn → get_ctx sn s' ≡ get_ctx sn s)
      × ((on_time_out c s').answers ≡ s'.answers)
unfolding on_time_out get_ctx
time_out_lem c b f s waits distinct =
    let x = record (s.heap c) { timed = true } in
    let erased = record s { ctxs = remove ℕ_discrete (s.heap c).sn s.ctxs } in
    let done = do_rsp-Responded c b f x (change_ctx c x erased) (put_self s.heap c x) waits in
    (
      ap (λ (w : Ctx). w.result) done.ctx,
      done.answers,
      get_and_del_miss (s.heap c).sn (on_time_out c s) (
          ap (find ℕ_discrete (s.heap c).sn) done.table
          ∙ find-remove ℕ_discrete (s.heap c).sn (s.heap c).sn s.ctxs distinct
          ∙ if_pos (ℕ_discrete (s.heap c).sn (s.heap c).sn) refl _ _),
      λ sn ne.
          ap (find ℕ_discrete sn) done.table ∙ find-remove_ne ℕ_discrete (s.heap c).sn sn s.ctxs ne,
      time_out_again c (on_time_out c s) (ap (λ (w : Ctx). w.scheduler) done.ctx),
    )

-- In a table with each sequence number once: a response to a request in the table takes it out of the table, alone; if its fiber waits and its
-- time has not run out, the fiber is scheduled once and finds what the response has put there, the
-- request's timer is cancelled, and a time-out that comes all the same schedules nobody.
pub response_lem :
    (sn c b f : ℕ) (s : AsyncStream)
    → get_ctx sn s ≡ some c
    → WaitsWith b f (s.heap c)
    → (s.heap c).timed ≡ false
    → Nodup (keys s.ctxs)
    → let r = get_and_del_ctx sn s in
      let s' = do_rsp c r.1 in
      (r.0 ≡ some c)
      × ((s'.heap c).result ≡ (s.heap c).result)
      × (s'.answers ≡ s.answers ++ record { ctx = c; to = b; who = f } ∷ [])
      × (s'.cancelled ≡ s.cancelled ++ to_list (s.heap c).timer)
      × (get_ctx sn s' ≡ none)
      × ((other : ℕ) → other ≢ sn → get_ctx other s' ≡ get_ctx other s)
      × ((on_time_out c s').answers ≡ s'.answers)
unfolding get_ctx
response_lem sn c b f s there waits in_time distinct =
    let left = record s { ctxs = remove ℕ_discrete sn s.ctxs } in
    let done = do_rsp-Responded c b f (s.heap c) left refl waits in
    rw (get_and_del_hit sn c s there) (
      refl,
      ap (λ (w : Ctx). w.result) done.ctx ∙ rw in_time refl,
      done.answers,
      done.cancelled,
      ap (find ℕ_discrete sn) done.table
          ∙ find-remove ℕ_discrete sn sn s.ctxs distinct
          ∙ if_pos (ℕ_discrete sn sn) refl _ _,
      λ other ne.
          ap (find ℕ_discrete other) done.table ∙ find-remove_ne ℕ_discrete sn other s.ctxs ne,
      time_out_again c (do_rsp c left) (ap (λ (w : Ctx). w.scheduler) done.ctx),
    )
