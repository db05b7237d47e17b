-- ===== src/Servlet.antt =====
-- Helens/http/servlet.cc: `ServletDispatch`, which finds the servlet for a request's path. `fnmatch`
-- is the C library's and stands as the parameter `matches`, of the pattern and the path.
pub mod Laws
mod Tests
use helens.Prelude.{Bool, true, false, Option, none, some, List, [], ◌∷◌, ◌++◌, if◌then◌else◌}
use helens.Keyed.{find, remove, assign}

-- `HoldServletCreator` gives the servlet that it holds, any other creator one that it makes.
pub data ServletCreator (S : Type 0) : Type 0 where
  hold : S → ServletCreator S
  make : S → ServletCreator S

abbrev pub servlet_of : {S : Type 0} → ServletCreator S → S
servlet_of (ServletCreator.hold s) = s
servlet_of (ServletCreator.make s) = s

-- `datas` is `m_datas`, in no order that matters; `globs` is `m_globs` in its order.
pub record ServletDispatch (Uri S : Type 0) : Type 0 where
  pub datas : List (Uri × ServletCreator S)
  pub globs : List (Uri × ServletCreator S)
  pub default : S

module _ {Uri S : Type 0} (dec : Discrete Uri) where
  unfoldable pub add_servlet_creator :
      Uri → ServletCreator S → ServletDispatch Uri S → ServletDispatch Uri S
  add_servlet_creator uri creator d = record d { datas = assign dec uri creator d.datas }

  -- `addServlet`, of a servlet or of a call-back that is made one
  unfoldable pub add_servlet : Uri → S → ServletDispatch Uri S → ServletDispatch Uri S
  add_servlet uri slt d = add_servlet_creator uri (ServletCreator.hold slt) d

  -- The first glob with the pattern is erased, the new one is the last.
  unfoldable pub add_glob_servlet_creator :
      Uri → ServletCreator S → ServletDispatch Uri S → ServletDispatch Uri S
  add_glob_servlet_creator uri creator d = record d {
    globs = remove dec uri d.globs ++ (uri, creator) ∷ [];
  }

  unfoldable pub add_glob_servlet : Uri → S → ServletDispatch Uri S → ServletDispatch Uri S
  add_glob_servlet uri slt d = add_glob_servlet_creator uri (ServletCreator.hold slt) d

  unfoldable pub del_servlet : Uri → ServletDispatch Uri S → ServletDispatch Uri S
  del_servlet uri d = record d { datas = remove dec uri d.datas }

  unfoldable pub del_glob_servlet : Uri → ServletDispatch Uri S → ServletDispatch Uri S
  del_glob_servlet uri d = record d { globs = remove dec uri d.globs }

  abbrev pub made : Option (ServletCreator S) → Option S
  made none = none
  made (some c) = some (servlet_of c)

  unfoldable pub get_servlet : Uri → ServletDispatch Uri S → Option S
  get_servlet uri d = made (find dec uri d.datas)

  unfoldable pub get_glob_servlet : Uri → ServletDispatch Uri S → Option S
  get_glob_servlet uri d = made (find dec uri d.globs)

  -- The first glob whose pattern matches, or the default
  unfoldable pub match_globs : (Uri → Uri → Bool) → Uri → S → List (Uri × ServletCreator S) → S
  match_globs matches uri other [] = other
  match_globs matches uri other (g ∷ gs) =
      let rest = match_globs matches uri other gs in
      if matches g.0 uri then servlet_of g.1 else rest

  abbrev pub or_else : Option S → S → S
  or_else none s = s
  or_else (some t) s = t

  unfoldable pub get_matched_servlet : (Uri → Uri → Bool) → Uri → ServletDispatch Uri S → S
  get_matched_servlet matches uri d =
      or_else (get_servlet uri d) (match_globs matches uri d.default d.globs)

unfoldable pub set_default : {Uri S : Type 0} → S → ServletDispatch Uri S → ServletDispatch Uri S
set_default v d = record d { default = v }
