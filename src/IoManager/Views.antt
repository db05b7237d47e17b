-- ===== src/IoManager/Views.antt =====
-- What the contexts of an IOManager stand for: who waits for which event of which descriptor. The
-- invariant says that contexts, m_pendingEventCount and epoll's descriptors tell the same.
use helens.Prelude.{
  ℕ, zero, suc, ◌+◌, ◌≡◌, ◌<◌, refl, sym, ap, ◌∙◌, Bool, true, false, ◌||◌, Option, none, some,
  List, [], ◌∷◌, arith, get_elem?, set, length, get_elem?-set_self, get_elem?-set_ne, ℕ_discrete,
  ◌≢◌, if◌then◌else◌,
}
use helens.Scheduler.{Task, fiber, call}
use helens.Epoll.{Event, read, write, Events}
use helens.FdContext.{EventContext, FdContext, null}
use helens.IoManager.{IoManager}

abbrev pub one_if : Bool → ℕ
one_if true = 1
one_if false = 0

-- A task that waits, with the scheduler that it goes back to.
abbrev pub Waiter : Type 0 → Type 0
Waiter Cb = ℕ × Task Cb

pub record View (Cb : Type 0) : Type 0 where
  pub reader : Option (Waiter Cb)
  pub writer : Option (Waiter Cb)

module _ {Cb : Type 0} where
  abbrev pub nobody : View Cb
  nobody = record { reader = none; writer = none }

  abbrev pub waiter : Event → View Cb → Option (Waiter Cb)
  waiter read v = v.reader
  waiter write v = v.writer

  abbrev pub put_waiter : Event → Option (Waiter Cb) → View Cb → View Cb
  put_waiter read w v = record v { reader = w }
  put_waiter write w v = record v { writer = w }

  abbrev pub event_context : Option (Waiter Cb) → EventContext Cb
  event_context none = null
  event_context (some (s, fiber f)) = record { scheduler = some s; fiber = some f; cb = none }
  event_context (some (s, call cb)) = record { scheduler = some s; fiber = none; cb = some cb }

  abbrev pub is_there : Option (Waiter Cb) → Bool
  is_there none = false
  is_there (some _) = true

  abbrev pub events_of : View Cb → Events
  events_of v = record { readable = is_there v.reader; writable = is_there v.writer }

  abbrev pub context_of : ℕ → View Cb → FdContext Cb
  context_of fd v = record {
    read = event_context v.reader;
    write = event_context v.writer;
    fd = fd;
    events = events_of v;
  }

  abbrev pub contexts_from : ℕ → List (View Cb) → List (FdContext Cb)
  contexts_from fd [] = []
  contexts_from fd (v ∷ vs) = context_of fd v ∷ contexts_from (fd + 1) vs

  abbrev pub waiters : View Cb → ℕ
  waiters v = one_if (is_there v.reader) + one_if (is_there v.writer)

  abbrev pub all_waiters : List (View Cb) → ℕ
  all_waiters [] = 0
  all_waiters (v ∷ vs) = waiters v + all_waiters vs

  -- What epoll watches for a descriptor.
  abbrev pub watched : View Cb → Option Events
  watched v = if is_there v.reader || is_there v.writer then some (events_of v) else none

  abbrev pub watched_in : Option (View Cb) → Option Events
  watched_in none = none
  watched_in (some v) = watched v

  abbrev pub watched_at : List (View Cb) → ℕ → Option Events
  watched_at vs fd = watched_in (get_elem? vs fd)

  -- The contexts, the count and the kernel show the table.
  pub record Shows (s : IoManager Cb) (vs : List (View Cb)) : Type 0 where
    pub contexts : s.contexts ≡ contexts_from 0 vs
    pub pending : s.pending ≡ all_waiters vs
    pub kernel : (fd : ℕ) → s.kernel fd ≡ watched_at vs fd

  get_contexts :
      (from : ℕ) (vs : List (View Cb)) (fd : ℕ) (v : View Cb)
      → get_elem? vs fd ≡ some v
      → get_elem? (contexts_from from vs) fd ≡ some (context_of (from + fd) v)
  get_contexts from [] fd v e = cc
  get_contexts from (u ∷ vs) zero v e = ground arith
  get_contexts from (u ∷ vs) (suc fd) v e =
      get_contexts (from + 1) vs fd v e ∙ ap (λ k. some (context_of k v)) (omega arith)

  get_contexts_none :
      (from : ℕ) (vs : List (View Cb)) (fd : ℕ)
      → get_elem? vs fd ≡ none
      → get_elem? (contexts_from from vs) fd ≡ none
  get_contexts_none from [] fd e = refl
  get_contexts_none from (u ∷ vs) zero e = cc
  get_contexts_none from (u ∷ vs) (suc fd) e = get_contexts_none (from + 1) vs fd e

  set_contexts :
      (from : ℕ) (vs : List (View Cb)) (fd : ℕ) (v : View Cb)
      → set (contexts_from from vs) fd (context_of (from + fd) v) ≡ contexts_from from (set vs fd v)
  set_contexts from [] fd v = refl
  set_contexts from (u ∷ vs) zero v = ground arith
  set_contexts from (u ∷ vs) (suc fd) v =
      ap (λ l. context_of from u ∷ l)
        (ap (λ k. set (contexts_from (from + 1) vs) fd (context_of k v)) (omega arith)
          ∙ set_contexts (from + 1) vs fd v)

  pub lt_of_get :
      (vs : List (View Cb)) (fd : ℕ) {v : View Cb} → get_elem? vs fd ≡ some v → fd < length vs
  lt_of_get [] fd e = cc
  lt_of_get (u ∷ vs) zero e = omega arith
  lt_of_get (u ∷ vs) (suc fd) e = omega (arith, lt_of_get vs fd e)

  pub all_waiters-set :
      (vs : List (View Cb)) (fd : ℕ) (u v : View Cb)
      → get_elem? vs fd ≡ some u
      → all_waiters (set vs fd v) + waiters u ≡ all_waiters vs + waiters v
  all_waiters-set [] fd u v e = cc
  all_waiters-set (x ∷ vs) zero u v e = ground arith
  all_waiters-set (x ∷ vs) (suc fd) u v e = omega (arith, all_waiters-set vs fd u v e)

  pub length-contexts_from :
      (from : ℕ) (vs : List (View Cb)) → length (contexts_from from vs) ≡ length vs
  length-contexts_from from [] = refl
  length-contexts_from from (v ∷ vs) = ap suc (length-contexts_from (from + 1) vs)

module _ {Cb : Type 0} {s : IoManager Cb} {vs : List (View Cb)} (shows : Shows s vs) where
  pub context_at :
      (fd : ℕ) {v : View Cb}
      → get_elem? vs fd ≡ some v
      → get_elem? s.contexts fd ≡ some (context_of fd v)
  context_at fd {v} e =
      rw shows.contexts (get_contexts 0 vs fd v e ∙ ap (λ k. some (context_of k v)) (omega arith))

  pub no_context_at : (fd : ℕ) → get_elem? vs fd ≡ none → get_elem? s.contexts fd ≡ none
  no_context_at fd e = rw shows.contexts (get_contexts_none 0 vs fd e)

  -- The descriptor `fd` gets the view `v'`.
  pub Shows-set :
      (fd : ℕ) {v : View Cb} (v' : View Cb) {s' : IoManager Cb}
      → get_elem? vs fd ≡ some v
      → s'.contexts ≡ set s.contexts fd (context_of fd v')
      → s'.pending + waiters v ≡ s.pending + waiters v'
      → s'.kernel fd ≡ watched v'
      → ((g : ℕ) → fd ≢ g → s'.kernel g ≡ s.kernel g)
      → Shows s' (set vs fd v')
  Shows-set fd {v} v' {s'} e cs p here others = record {
    contexts =
        cs
        ∙ ap (λ l. set l fd (context_of fd v')) shows.contexts
        ∙ ap (λ k. set (contexts_from 0 vs) fd (context_of k v')) (omega arith)
        ∙ set_contexts 0 vs fd v';
    pending = omega (arith, p, shows.pending, all_waiters-set vs fd v v' e);
    kernel = λ g. elim (ℕ_discrete fd g) [
      | yes same ↦ rw (← same) (here ∙ sym (watched_self (lt_of_get vs fd e)))
      | no ne ↦ others g ne ∙ shows.kernel g ∙ sym (watched_other g ne)
    ];
  }
    where
      watched_self : fd < length vs → watched_at (set vs fd v') fd ≡ watched v'
      watched_self h = ap watched_in (get_elem?-set_self vs fd v' h)

      watched_other : (g : ℕ) → fd ≢ g → watched_at (set vs fd v') g ≡ watched_at vs g
      watched_other g ne = ap watched_in (get_elem?-set_ne vs v' ne)
