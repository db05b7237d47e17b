-- ===== src/Servlet/Tests.antt =====
-- Dispatching at concrete inputs: paths and patterns are numbers, and the pattern 0 matches all.
use mathlib.Core.List.Pairwise
use helens.Prelude.{
  ℕ, ◌≡◌, refl, ◌⊎◌, Bool, true, false, ◌||◌, none, some, List, [], ◌∷◌, ◌++◌, ◌==◌, ℕ_discrete,
  All,
}
use helens.Keyed.{contains, cons-Nodup, find}
use helens.Servlet.{
  ServletCreator, ServletDispatch, servlet_of, get_servlet, get_matched_servlet, match_globs,
}
use helens.Servlet.Laws.{IsValid, get_matched_servlet_lem}

abbrev fits : ℕ → ℕ → Bool
fits pattern uri = pattern == 0 || pattern == uri

abbrev site : ServletDispatch ℕ ℕ
site = record {
  datas = (5, ServletCreator.hold 50) ∷ [];
  globs = (7, ServletCreator.hold 70) ∷ (0, ServletCreator.make 100) ∷ [];
  default = 404;
}

-- 5 has a servlet of its own, 7 goes to the first glob, all else to the second.
dispatched :
    (get_matched_servlet ℕ_discrete fits 5 site ≡ 50)
    × (get_matched_servlet ℕ_discrete fits 7 site ≡ 70)
    × (get_matched_servlet ℕ_discrete fits 8 site ≡ 100)
unfolding get_matched_servlet get_servlet match_globs find ℕ_discrete
dispatched = (refl, refl, refl)

site-IsValid : IsValid site
unfolding contains ℕ_discrete
site-IsValid = record {
  paths = cons-Nodup ℕ_discrete 5 [] refl Pairwise.nil;
  patterns = cons-Nodup ℕ_discrete 7 (0 ∷ []) refl (cons-Nodup ℕ_discrete 0 [] refl Pairwise.nil);
}

get_matched_servlet_lem_example :
    (get_servlet ℕ_discrete 7 site ≡ some (get_matched_servlet ℕ_discrete fits 7 site))
    ⊎ ((get_servlet ℕ_discrete 7 site ≡ none)
        × ((All (λ e. fits e.0 7 ≡ false) site.globs
              × (get_matched_servlet ℕ_discrete fits 7 site ≡ 404))
            ⊎ ((before : List (ℕ × ServletCreator ℕ)) × (g : ℕ × ServletCreator ℕ) × (after : List
                  (ℕ × ServletCreator ℕ))
                × (site.globs ≡ before ++ g ∷ after)
                × All (λ e. fits e.0 7 ≡ false) before
                × (fits g.0 7 ≡ true)
                × (get_matched_servlet ℕ_discrete fits 7 site ≡ servlet_of g.1))))
get_matched_servlet_lem_example = get_matched_servlet_lem ℕ_discrete fits 7 site
