-- ===== src/Execution/Lines.antt =====
-- The texts and lists that execution/fs_ops.py cuts: lines, the first segment of a path, `_truncated`.
use ai_vfs.Base.{
  ℕ, ◌-◌, true, false, Option, none, some, List, [], ◌∷◌, ◌++◌, Text, ◌==◌, ltb, take, drop, length,
  if◌then◌else◌,
}
use ai_vfs.Paths.Posix.{slash, split}
use ai_vfs.Execution.{Capped}

abbrev pub newline : ℕ
newline = 10

abbrev pub onto_first : ℕ → List Text → List Text
onto_first a [] = (a ∷ []) ∷ []
onto_first a (t ∷ ts) = (a ∷ t) ∷ ts

-- `s.split("\n")`
unfoldable pub split_lines : Text → List Text
split_lines [] = [] ∷ []
split_lines (a ∷ s) =
    let rest = split_lines s in if a == newline then [] ∷ rest else onto_first a rest

-- `"\n".join(ts)`
unfoldable pub join_lines : List Text → Text
join_lines [] = []
join_lines (t ∷ []) = t
join_lines (t ∷ u ∷ ts) = t ++ (newline ∷ join_lines (u ∷ ts))

-- `lines[:n] if n > 0 else []`; a negative `n` is the case 0.
unfoldable pub first_lines : ℕ → List Text → List Text
first_lines n lines = if ltb 0 n then take n lines else []

-- `lines[-n:] if n > 0 else []`
unfoldable pub last_lines : ℕ → List Text → List Text
last_lines n lines = if ltb 0 n then drop (length lines - n) lines else []

abbrev pub consed : ℕ → Option Text → Option Text
consed a none = none
consed a (some t) = some (a ∷ t)

-- `remainder[: remainder.find("/")]`; `none` where there is no slash.
unfoldable pub first_segment : Text → Option Text
first_segment [] = none
first_segment (a ∷ s) = let rest = first_segment s in if a == slash then some [] else consed a rest

unfoldable pub last_text : Text → List Text → Text
last_text t [] = t
last_text t (u ∷ ts) = last_text u ts

-- `posixpath.basename`: what stands behind the last slash.
unfoldable pub basename : Text → Text
unfolding last_text split
basename path = last_text [] (split path)

abbrev pub slash_or : ℕ → Text → Text
slash_or a [] = if a == slash then [] else a ∷ []
slash_or a (b ∷ s) = a ∷ b ∷ s

-- `path.rstrip("/")`
unfoldable pub rstrip_slash : Text → Text
rstrip_slash [] = []
rstrip_slash (a ∷ s) = slash_or a (rstrip_slash s)

-- `_truncated`
unfoldable pub truncated : {A : Type 0} → List A → Option ℕ → Capped A
truncated items none = record { items = items; truncated = false }
truncated items (some n) =
    if ltb n (length items)
    then record { items = take n items; truncated = true }
    else record { items = items; truncated = false }
