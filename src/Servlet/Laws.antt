-- ===== src/Servlet/Laws.antt =====
-- What requests are dispatched to.
use mathlib.Core.List.{Nodup}
use mathlib.Core.Logic.{ite, if_pos, if_neg}
use helens.Prelude.{
  ◌≡◌, refl, sym, ap, ◌∙◌, ◌⊎◌, inl, inr, Bool, true, false, Option, none, some, List, [], ◌∷◌,
  ◌++◌, Bool-cases, Option-cases, All,
}
use helens.Keyed.{
  keys, find, remove, assign, find-assign, find-remove, remove-Nodup, assign-Nodup, find-moved_last,
  moved_last-Nodup,
}
use helens.Servlet.{
  ServletCreator, servlet_of, ServletDispatch, add_servlet_creator, add_servlet,
  add_glob_servlet_creator, add_glob_servlet, del_servlet, get_servlet, get_glob_servlet,
  match_globs, get_matched_servlet, or_else, made,
}

-- No path and no pattern stands twice.
pub record IsValid {Uri S : Type 0} (d : ServletDispatch Uri S) : Type 0 where
  pub paths : Nodup (keys d.datas)
  pub patterns : Nodup (keys d.globs)

module _ {Uri S : Type 0} (dec : Discrete Uri) (matches : Uri → Uri → Bool) where
  -- The glob that a path goes to is the first that matches.
  abbrev FirstMatch : Uri → List (Uri × ServletCreator S) → S → Type 0
  FirstMatch uri gs s =
      (before : List (Uri × ServletCreator S)) × (g : Uri × ServletCreator S) × (after : List
        (Uri × ServletCreator S))
      × (gs ≡ before ++ g ∷ after)
      × All (λ e. matches e.0 uri ≡ false) before
      × (matches g.0 uri ≡ true)
      × (s ≡ servlet_of g.1)

  match_globs_lem :
      (uri : Uri) (other : S) (gs : List (Uri × ServletCreator S))
      → (All (λ e. matches e.0 uri ≡ false) gs × (match_globs dec matches uri other gs ≡ other))
        ⊎ FirstMatch uri gs (match_globs dec matches uri other gs)
  unfolding match_globs
  match_globs_lem uri other [] = inl (tt, refl)
  match_globs_lem uri other (g ∷ gs) = elim (Bool-cases (matches g.0 uri)) [
    | inl e ↦ inr ([], g, gs, refl, tt, e, rw e refl)
    | inr e ↦ elim (match_globs_lem uri other gs) [
      | inl h ↦ inl ((e, h.0), rw (e, h.1) refl)
      | inr h ↦
          let (before, g', after, split, none_before, here, same) = h in
          inr (g ∷ before, g', after, ap (◌∷◌ g) split, (e, none_before), here, rw e same)
    ]
  ]

  -- A request goes to the servlet of its exact path if there is one, else to the first glob whose
  -- pattern matches, else to the default servlet.
  pub get_matched_servlet_lem :
      (uri : Uri) (d : ServletDispatch Uri S)
      → (get_servlet dec uri d ≡ some (get_matched_servlet dec matches uri d))
        ⊎ ((get_servlet dec uri d ≡ none)
            × ((All (λ e. matches e.0 uri ≡ false) d.globs
                  × (get_matched_servlet dec matches uri d ≡ d.default))
                ⊎ FirstMatch uri d.globs (get_matched_servlet dec matches uri d)))
  unfolding get_matched_servlet
  get_matched_servlet_lem uri d = elim (Option-cases (get_servlet dec uri d)) [
    | inl e ↦ inr (e, rw e (match_globs_lem uri d.default d.globs))
    | inr h ↦ inl (
        h.1
        ∙ ap (λ t. some (or_else dec t (match_globs dec matches uri d.default d.globs))) (sym h.1))
  ]

  made-ite :
      (q uri : Uri) (o : Option (ServletCreator S)) (l : List (Uri × ServletCreator S))
      (m : List (Uri × ServletCreator S))
      → find dec q m ≡ ite (dec q uri) o (find dec q l)
      → made dec (find dec q m) ≡ ite (dec q uri) (made dec o) (made dec (find dec q l))
  made-ite q uri o l m h = elim (dec q uri) [
    | yes p ↦ ap (made dec) (h ∙ if_pos (dec q uri) p _ _) ∙ sym (if_pos (dec q uri) p _ _)
    | no p ↦ ap (made dec) (h ∙ if_neg (dec q uri) p _ _) ∙ sym (if_neg (dec q uri) p _ _)
  ]

  -- Adding a servlet for a path serves that path, and no other one differently.
  pub add_servlet_lem :
      (uri q : Uri) (slt : S) (d : ServletDispatch Uri S)
      → IsValid d
      → IsValid (add_servlet dec uri slt d)
        × (get_servlet dec q (add_servlet dec uri slt d)
            ≡ ite (dec q uri) (some slt) (get_servlet dec q d))
        × ((add_servlet dec uri slt d).globs ≡ d.globs)
  unfolding add_servlet add_servlet_creator get_servlet
  add_servlet_lem uri q slt d v = (
    record {
      paths = assign-Nodup dec uri (ServletCreator.hold slt) d.datas v.paths;
      patterns = v.patterns;
    },
    made-ite q uri (some (ServletCreator.hold slt)) d.datas
        (assign dec uri (ServletCreator.hold slt) d.datas)
        (find-assign dec uri q (ServletCreator.hold slt) d.datas),
    refl,
  )

  -- Deleting a servlet leaves its path without one, and every other path with its own.
  pub del_servlet_lem :
      (uri q : Uri) (d : ServletDispatch Uri S)
      → IsValid d
      → IsValid (del_servlet dec uri d)
        × (get_servlet dec q (del_servlet dec uri d) ≡ ite (dec q uri) none (get_servlet dec q d))
        × ((del_servlet dec uri d).globs ≡ d.globs)
  unfolding del_servlet get_servlet
  del_servlet_lem uri q d v = (
    record { paths = remove-Nodup dec uri d.datas v.paths; patterns = v.patterns },
    made-ite q uri none d.datas (remove dec uri d.datas) (find-remove dec uri q d.datas v.paths),
    refl,
  )

  -- A glob that is added replaces the one of the same pattern and comes last.
  pub add_glob_servlet_lem :
      (uri q : Uri) (slt : S) (d : ServletDispatch Uri S)
      → IsValid d
      → IsValid (add_glob_servlet dec uri slt d)
        × (get_glob_servlet dec q (add_glob_servlet dec uri slt d)
            ≡ ite (dec q uri) (some slt) (get_glob_servlet dec q d))
        × (get_servlet dec q (add_glob_servlet dec uri slt d) ≡ get_servlet dec q d)
  unfolding add_glob_servlet add_glob_servlet_creator get_glob_servlet get_servlet
  add_glob_servlet_lem uri q slt d v = (
    record {
      paths = v.paths;
      patterns = moved_last-Nodup dec uri (ServletCreator.hold slt) d.globs v.patterns;
    },
    made-ite q uri (some (ServletCreator.hold slt)) d.globs _
        (find-moved_last dec uri q (ServletCreator.hold slt) d.globs v.patterns),
    refl,
  )
