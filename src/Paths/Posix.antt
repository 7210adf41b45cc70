-- ===== src/Paths/Posix.antt =====
-- The parts of Python's `str` and `posixpath` that vfs.py, sql_metadata.py and session.py call.
pub mod Normal
use ai_vfs.Base.{
  ℕ, zero, suc, ◌≡◌, refl, Bool, true, false, not, ◌&&◌, ◌||◌, List, [], ◌∷◌, ◌++◌, Text, codes,
  text_eq, starts_with, ends_with, rev_onto, ◌==◌, if◌then◌else◌,
}

abbrev pub slash : ℕ
slash = b'/'

abbrev pub is_nil : List Text → Bool
is_nil [] = true
is_nil (x ∷ xs) = false

abbrev pub is_empty : Text → Bool
is_empty [] = true
is_empty (a ∷ s) = false

abbrev pub onto_first : ℕ → List Text → List Text
onto_first a [] = (a ∷ []) ∷ []
onto_first a (t ∷ ts) = (a ∷ t) ∷ ts

-- `s.split("/")`
unfoldable pub split : Text → List Text
split [] = [] ∷ []
split (a ∷ s) = let rest = split s in if a == slash then [] ∷ rest else onto_first a rest

-- `"/".join(ts)`
unfoldable pub join : List Text → Text
join [] = []
join (t ∷ []) = t
join (t ∷ u ∷ ts) = t ++ (slash ∷ join (u ∷ ts))

-- `new_comps and new_comps[-1] == ".."`, where the last component heads the list.
abbrev pub top_is_up : List Text → Bool
top_is_up [] = false
top_is_up (t ∷ ts) = text_eq t (codes "..")

abbrev pub pop : List Text → List Text
pop [] = []
pop (t ∷ ts) = ts

-- One round of the loop of `normpath`.
unfoldable pub norm_step : Bool → List Text → Text → List Text
norm_step rooted comps comp =
    if is_empty comp || text_eq comp (codes ".")
    then comps
    else if not (text_eq comp (codes "..")) || (not rooted && is_nil comps) || top_is_up comps
    then comp ∷ comps
    else pop comps

unfoldable pub norm_comps : Bool → List Text → List Text → List Text
norm_comps rooted comps [] = rev_onto comps []
norm_comps rooted comps (c ∷ cs) = norm_comps rooted (norm_step rooted comps c) cs

-- The slashes that POSIX keeps in front: one, or two where there are exactly two.
unfoldable pub root_of : Text → Text
root_of path =
    if starts_with path (codes "/")
    then (if starts_with path (codes "//") && not (starts_with path (codes "///"))
        then codes "//"
        else codes "/")
    else []

abbrev pub or_dot : Text → Text
or_dot [] = codes "."
or_dot (a ∷ s) = a ∷ s

-- `posixpath.normpath`
unfoldable pub normpath : Text → Text
unfolding root_of norm_comps norm_step split join rev_onto text_eq starts_with
normpath [] = codes "."
normpath (a ∷ s) =
    let path = a ∷ s in
    let root = root_of path in
    or_dot (root ++ join (norm_comps (not (is_empty root)) [] (split path)))

-- `posixpath.isabs`
abbrev pub isabs : Text → Bool
isabs path = starts_with path (codes "/")

-- `posixpath.join` of two arguments
unfoldable pub path_join : Text → Text → Text
unfolding starts_with ends_with
path_join a b =
    if starts_with b (codes "/")
    then b
    else if is_empty a || ends_with a slash
    then a ++ b
    else a ++ (slash ∷ b)

normpath_dots : normpath (codes "/a//b/../c/.") ≡ codes "/a/c"
unfolding normpath
normpath_dots = refl

normpath_roots : normpath (codes "//a/../..") ≡ codes "//"
unfolding normpath
normpath_roots = refl

normpath_three : normpath (codes "///a/") ≡ codes "/a"
unfolding normpath
normpath_three = refl

normpath_relative : normpath (codes "a/../../b") ≡ codes "../b"
unfolding normpath
normpath_relative = refl
