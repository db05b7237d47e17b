-- ===== src/IoManager/Handling.antt =====
-- What idle does with a reported event, and cancelAll, on a manager that shows a table.
use helens.Prelude.{
  ℕ, ◌+◌, ◌-◌, ◌≡◌, ◌≤◌, refl, sym, subst, ap, ◌∙◌, Bool, true, false, ◌&&◌, ◌||◌, Option, none,
  some, append-nil, List, [], ◌∷◌, ◌++◌, arith, get_elem?, get_elem?-set_self, set, ◌⊎◌,
  if◌then◌else◌, Bool-cases, inl, inr,
}
use helens.Prelude.Family.{put}
use helens.Prelude.Family.{put}
use helens.Epoll.{read, write, Events, any, mod_, del, Kernel, ctl}
use helens.IoManager.{IoManager, trigger_all}
use helens.IoManager.Views.{
  Waiter, View, nobody, put_waiter, is_there, events_of, context_of, watched, one_if, Shows,
  context_at, Shows-set, waiters, all_waiters-set,
}
use helens.IoManager.Steps.{ctl_failed, kernel_at}
use helens.IoManager.Poll.{Report, real_events, both, minus, handle_at, handle_event}
use helens.IoManager.Reported.{
  left_view, woken, Waited, there, trigger-none, trigger_lem, triggered, trigger_bits, ctl-left,
  length-get_elem?,
}

pub and_true : (b : Bool) → (b && true) ≡ b
and_true true = refl
and_true false = refl

pub and_false : (b : Bool) → (b && false) ≡ false
and_false true = refl
and_false false = refl

-- epoll_ctl changes or removes what it watches.
ctl_watched :
    (fd : ℕ) (b : Bool) (l : Events) (k : Kernel) {e : Events}
    → k fd ≡ some e
    → (k' : Kernel) × (ctl true (if b then mod_ else del) fd l k ≡ some k')
unfolding ctl
ctl_watched fd true l k h = (put k fd (some l), ground arith)
ctl_watched fd false l k h = (put k fd none, ground arith)

module _ {Cb : Type 0} where
  waiters-left :
      (a b : Bool) (v : View Cb)
      → Waited (record { readable = a; writable = b }) v
      → waiters v
        ≡ waiters (left_view (record { readable = a; writable = b }) v) + (one_if a + one_if b)
  waiters-left a b v waited = ground (arith, waited.0, waited.1)

  -- What has happened to those who wait for a descriptor: the reader can go on if the descriptor has
  -- become readable, the writer if it has become writable, and with an error whoever waits.
  abbrev pub happened : Report → View Cb → Events
  happened r v = record {
    readable = r.in_ || (r.err && is_there v.reader);
    writable = r.out || (r.err && is_there v.writer);
  }

  -- A result of the code without a return value, that does to the table what is said.
  abbrev pub Handles :
      IoManager Cb → Option (IoManager Cb) → List (View Cb) × List (Waiter Cb) → Type 0
  Handles s r effect =
      (s' : IoManager Cb) × (r ≡ some s')
      × Shows s' effect.0
      × (s'.scheduled ≡ s.scheduled ++ effect.1)

  -- The events of the mask are taken out of the table, and those who wait for them wake up.
  abbrev pub wake : Bool → ℕ → Events → View Cb → List (View Cb) → List (View Cb) × List (Waiter Cb)
  wake true fd e v vs = (set vs fd (left_view e v), woken e v)
  wake false fd e v vs = (vs, [])

module _ {Cb : Type 0} {s : IoManager Cb} {vs : List (View Cb)} (shows : Shows s vs) (fd : ℕ)
    {v : View Cb} (at : get_elem? vs fd ≡ some v) where
  abbrev pub woken_state : Events → IoManager Cb
  woken_state e = triggered fd e v (record s { kernel = put s.kernel fd (watched (left_view e v)) })

  pub woken-Shows : (e : Events) → Waited e v → Shows (woken_state e) (set vs fd (left_view e v))
  woken-Shows e waited =
      Shows-set shows fd (left_view e v) at refl
        (omega (arith, waiters-left e.readable e.writable v waited, waiters-le)) (ground arith)
        (λ g ne. ground arith)
    where
      waiters-le : waiters v ≤ s.pending
      waiters-le = omega (arith, shows.pending, all_waiters-set vs fd v nobody at)

  handle_none : Handles s (some s) (vs, [])
  handle_none = (s, refl, shows, sym (append-nil s.scheduled))

  both_real :
      (r : Report)
      → Waited (real_events r (events_of v)) v
      → any (both (events_of v) (real_events r (events_of v))) ≡ any (real_events r (events_of v))
  both_real r waited = ground (arith, waited.0, waited.1)

  module _ (r : Report) (waited : Waited (real_events r (events_of v)) v) where
    abbrev real : Events
    real = real_events r (events_of v)

    handle_hit :
        (ok : Bool)
        → any real ≡ true
        → Handles s (handle_at ok fd r (context_of fd v) s) (wake ok fd real v vs)
    unfolding handle_at
    handle_hit false some_bit =
        rw (handle_at, both_real r waited ∙ some_bit, ctl_failed) handle_none
    handle_hit true some_bit = (
      woken_state real,
      rw
          (
            handle_at,
            both_real r waited ∙ some_bit,
            ctl-left fd real.readable real.writable v s.kernel some_bit waited
                (kernel_at shows fd at),
          )
          (trigger_bits fd real.readable real.writable v _ some_bit (context_at shows fd at)
            waited),
      woken-Shows real waited,
      refl,
    )

    handle_miss : (ok : Bool) → any real ≡ false → handle_at ok fd r (context_of fd v) s ≡ some s
    unfolding handle_at
    handle_miss ok no_bit = rw (handle_at, both_real r waited ∙ no_bit)

  -- If a task waits for each event that has happened to a descriptor (with an error, to whoever waits),
  -- idle wakes exactly these tasks, the reader first, and tells epoll to watch for what is left; if
  -- epoll_ctl fails, or nothing is reported, nothing changes.
  pub handle_event_lem :
      (ok : Bool) (r : Report)
      → Waited (happened r v) v
      → Handles s (handle_event ok fd r s) (wake (ok && any (happened r v)) fd (happened r v) v vs)
  unfolding handle_event
  handle_event_lem ok r waited = elim (Bool-cases (any (happened r v))) [
    | inl some_bit ↦
        subst (λ b. Handles s (handle_event ok fd r s) (wake b fd (happened r v) v vs))
          (sym (ap (λ b. ok && b) some_bit ∙ and_true ok))
          (rw (handle_event, context_at shows fd at) (handle_hit r waited ok some_bit))
    | inr no_bit ↦
        subst (λ b. Handles s (handle_event ok fd r s) (wake b fd (happened r v) v vs))
          (sym (ap (λ b. ok && b) no_bit ∙ and_false ok))
          (rw (handle_event, context_at shows fd at, handle_miss r waited ok no_bit) handle_none)
  ]

  -- The manager with the reader gone.
  abbrev without_reader : Waiter Cb → Kernel → IoManager Cb
  without_reader w k = record {
    contexts = set s.contexts fd (context_of fd (put_waiter read none v));
    pending = s.pending - 1;
    kernel = k;
    scheduled = s.scheduled ++ w ∷ [];
  }

  write_faults :
      (k : Kernel) (b : Bool)
      → v.writer ≡ none
      → (b ≡ true → is_there v.reader ≡ true)
      → trigger_all fd (record { readable = b; writable = true }) (record s { kernel = k }) ≡ none
  unfolding trigger_all
  write_faults k false free there_if =
      trigger-none fd write v (record s { kernel = k }) (context_at shows fd at) free
  write_faults k true free there_if =
      let (w, e) = there v.reader (there_if refl) in
      rw (trigger_lem fd read v w (record s { kernel = k }) (context_at shows fd at) e) (
        trigger-none fd write (put_waiter read none v) (without_reader w k)
          (get_elem?-set_self s.contexts fd (context_of fd (put_waiter read none v))
            (length-get_elem? s.contexts fd (context_at shows fd at)))
          free)

  read_faults :
      (k : Kernel) (b : Bool)
      → v.reader ≡ none
      → trigger_all fd (record { readable = true; writable = b }) (record s { kernel = k }) ≡ none
  unfolding trigger_all
  read_faults k b free =
      rw (trigger-none fd read v (record s { kernel = k }) (context_at shows fd at) free)

  fails :
      (r : Report)
      → r.in_ ≡ true
      → r.out ≡ true
      → (is_there v.reader || is_there v.writer) ≡ true
      → ((k : Kernel)
          → trigger_all fd (record { readable = true; writable = true }) (record s { kernel = k })
            ≡ none)
      → handle_event true fd r s ≡ none
  unfolding handle_event handle_at
  fails r i o some_bit stuck =
      let real = real_events r (events_of v) in
      let left = minus (events_of v) real in
      let hit : any (both (events_of v) real) ≡ true = ground arith in
      let same : real ≡ record { readable = true; writable = true } = ground arith in
      let seen : s.kernel fd ≡ some (events_of v) =
        kernel_at shows fd at ∙ ap (λ b. if b then some (events_of v) else none) some_bit in
      let (k, told) = ctl_watched fd (any left) left s.kernel seen in
      rw (handle_event, context_at shows fd at, handle_at, hit, told)
        (ap (λ e. trigger_all fd e (record s { kernel = k })) same ∙ stuck k)

  -- If one of the two events has a task that waits and is reported, and the other is reported and has
  -- none (as when it was cancelled after epoll_wait had returned), the assertion of triggerEvent fails.
  pub handle_stale_faults :
      (r : Report)
      → r.in_ ≡ true
      → r.out ≡ true
      → (is_there v.reader ≡ true) × (v.writer ≡ none)
        ⊎ (v.reader ≡ none) × (is_there v.writer ≡ true)
      → handle_event true fd r s ≡ none
  handle_stale_faults r i o (inl (here, gone)) =
      fails r i o (rw here) (λ k. write_faults k true gone (λ _. here))
  handle_stale_faults r i o (inr (gone, here)) =
      fails r i o (rw (gone, here)) (λ k. read_faults k true gone)
