-- ===== src/IoManager/Reported.antt =====
-- Several events at once: what idle does with a reported event, and cancelAll.
use helens.Prelude.{
  ℕ, zero, suc, ◌+◌, ◌-◌, ◌≡◌, ◌<◌, refl, ap, ◌∙◌, Bool, true, false, ◌||◌, Option, none, some,
  List, [], ◌∷◌, ◌++◌, arith, get_elem?, get_elem?-set_self, append_assoc, set, length,
  if◌then◌else◌,
}
use helens.Prelude.Family.{put}
use helens.Prelude.Family.{put}
use helens.Prelude.Maybe.{◌>>=◌}
use helens.Epoll.{Event, read, write, Events, any, mod_, del, Kernel, ctl}
use helens.FdContext.{trigger_event}
use helens.IoManager.{IoManager, trigger, trigger_all}
use helens.IoManager.Views.{
  Waiter, View, nobody, waiter, put_waiter, is_there, events_of, context_of, watched, one_if,
}
use helens.IoManager.Steps.{trigger_event_lem, has_no_waiter}
use helens.IoManager.Poll.{minus}

set-set {ℓ} : {A : Type ℓ} (xs : List A) (i : ℕ) (a b : A) → set (set xs i a) i b ≡ set xs i b
set-set [] i a b = refl
set-set (x ∷ xs) zero a b = refl
set-set (x ∷ xs) (suc i) a b = ap (λ l. x ∷ l) (set-set xs i a b)

pub length-get_elem? {ℓ} :
    {A : Type ℓ} (xs : List A) (i : ℕ) {a : A} → get_elem? xs i ≡ some a → i < length xs
length-get_elem? [] i e = cc
length-get_elem? (x ∷ xs) zero e = omega arith
length-get_elem? (x ∷ xs) (suc i) e = omega (arith, length-get_elem? xs i e)

module _ {Cb : Type 0} where
  abbrev pub emptied : Bool → Option (Waiter Cb) → Option (Waiter Cb)
  emptied b w = if b then none else w

  abbrev pub as_list : Bool → Option (Waiter Cb) → List (Waiter Cb)
  as_list true (some w) = w ∷ []
  as_list _ _ = []

  -- The view and the tasks that wake up when the events of a mask happen.
  abbrev pub left_view : Events → View Cb → View Cb
  left_view e v = record {
    reader = emptied e.readable v.reader;
    writer = emptied e.writable v.writer;
  }

  abbrev pub woken : Events → View Cb → List (Waiter Cb)
  woken e v = as_list e.readable v.reader ++ as_list e.writable v.writer

  -- A task waits for each event of the mask.
  abbrev pub Waited : Events → View Cb → Type 0
  Waited e v =
      (e.readable ≡ true → is_there v.reader ≡ true)
      × (e.writable ≡ true → is_there v.writer ≡ true)

  pub there : (o : Option (Waiter Cb)) → is_there o ≡ true → (w : Waiter Cb) × (o ≡ some w)
  there none e = cc
  there (some w) e = (w, refl)

  pub trigger_lem :
      (fd : ℕ) (ev : Event) (v : View Cb) (w : Waiter Cb) (s : IoManager Cb)
      → get_elem? s.contexts fd ≡ some (context_of fd v)
      → waiter ev v ≡ some w
      → trigger fd ev s
        ≡ some (record s {
          contexts = set s.contexts fd (context_of fd (put_waiter ev none v));
          pending = s.pending - 1;
          scheduled = s.scheduled ++ w ∷ [];
        })
  unfolding trigger
  trigger_lem fd ev v w s at e = rw (trigger, at, trigger_event_lem ev fd w.0 w.1 v e)

  -- No task waits for the event: the assertion of triggerEvent fails.
  pub trigger-none :
      (fd : ℕ) (ev : Event) (v : View Cb) (s : IoManager Cb)
      → get_elem? s.contexts fd ≡ some (context_of fd v)
      → waiter ev v ≡ none
      → trigger fd ev s ≡ none
  unfolding trigger trigger_event
  trigger-none fd ev v s at e = rw (trigger, at, trigger_event, has_no_waiter ev v e)

  -- A manager in which the events of the mask have been triggered.
  abbrev pub triggered : ℕ → Events → View Cb → IoManager Cb → IoManager Cb
  triggered fd e v s = record s {
    contexts = set s.contexts fd (context_of fd (left_view e v));
    pending = s.pending - (one_if e.readable + one_if e.writable);
    scheduled = s.scheduled ++ woken e v;
  }

  trigger_both :
      (fd : ℕ) (r w : Waiter Cb) (s : IoManager Cb)
      → get_elem? s.contexts fd ≡ some (context_of fd (record { reader = some r; writer = some w }))
      → trigger_all fd (record { readable = true; writable = true }) s
        ≡ some (
            triggered fd
              (record { readable = true; writable = true })
              (record { reader = some r; writer = some w })
              s)
  unfolding trigger_all
  trigger_both fd r w s at =
      let v : View Cb = record { reader = some r; writer = some w } in
      ap (λ o. o >>= λ s'. trigger fd write s') (trigger_lem fd read v r s at refl)
      ∙ trigger_lem fd write (put_waiter read none v) w _
          (get_elem?-set_self s.contexts fd (context_of fd (put_waiter read none v))
            (length-get_elem? s.contexts fd at))
          refl
      ∙ (λ i. some (record s {
        contexts =
            set-set s.contexts fd (context_of fd (put_waiter read none v)) (context_of fd nobody) i;
        pending = fewer i;
        scheduled = append_assoc s.scheduled (r ∷ []) (w ∷ []) i;
      }))
    where
      fewer : s.pending - 1 - 1 ≡ s.pending - (1 + 1)
      fewer = omega arith

  -- With the bits of the mask as arguments.
  pub trigger_bits :
      (fd : ℕ) (a b : Bool) (v : View Cb) (s : IoManager Cb)
      → (a || b) ≡ true
      → get_elem? s.contexts fd ≡ some (context_of fd v)
      → Waited (record { readable = a; writable = b }) v
      → trigger_all fd (record { readable = a; writable = b }) s
        ≡ some (triggered fd (record { readable = a; writable = b }) v s)
  unfolding trigger_all
  trigger_bits fd false false v s some_bit at waited = cc
  trigger_bits fd true false v s some_bit at waited =
      let (w, e) = there v.reader (waited.0 refl) in rw (trigger_lem fd read v w s at e, e)
  trigger_bits fd false true v s some_bit at waited =
      let (w, e) = there v.writer (waited.1 refl) in rw (trigger_lem fd write v w s at e, e)
  trigger_bits fd true true v s some_bit at waited =
      let (r, e) = there v.reader (waited.0 refl) in
      let (w, e') = there v.writer (waited.1 refl) in
      rw (e, e') (trigger_both fd r w s (rw (e, e') at at))

  -- What epoll_ctl is told before the triggers.
  pub ctl-left :
      (fd : ℕ) (a b : Bool) (v : View Cb) (k : Kernel)
      → (a || b) ≡ true
      → Waited (record { readable = a; writable = b }) v
      → k fd ≡ watched v
      → let left = minus (events_of v) (record { readable = a; writable = b }) in
        ctl true (if any left then mod_ else del) fd left k
        ≡ some (put k fd (watched (left_view (record { readable = a; writable = b }) v)))
  unfolding ctl
  ctl-left fd a b v k some_bit waited at = ground (arith, waited.0, waited.1)
