-- ===== src/Paths/Like.antt =====
-- `_like_escape` of src/vfs/stores/sql_metadata.py, and the LIKE pattern of `list_dir`. LIKE is the
-- database's: a parameter, with the documented behaviour that the escaping relies on.
use ai_vfs.Base.{
  ℕ, ◌≡◌, refl, Bool, true, false, ◌&&◌, ◌||◌, [], ◌∷◌, ◌++◌, map, Text, starts_with, if◌then◌else◌,
  arith, ◌==◌, Bool-cases, inl, inr,
}

abbrev pub backslash : ℕ
backslash = 92

abbrev pub percent : ℕ
percent = b'%'

abbrev pub underscore : ℕ
underscore = b'_'

-- `s.replace(c, r)` for a single character.
unfoldable pub replace : ℕ → Text → Text → Text
replace c r [] = []
replace c r (a ∷ s) = if a == c then r ++ replace c r s else a ∷ replace c r s

unfoldable pub like_escape : Text → Text
unfolding replace
like_escape value = replace underscore (backslash ∷ underscore ∷ []) (
    replace percent (backslash ∷ percent ∷ [])
      (replace backslash (backslash ∷ backslash ∷ []) value))

-- The pattern of `list_dir`.
unfoldable pub list_pattern : Text → Text
unfolding like_escape
list_pattern path_prefix = like_escape path_prefix ++ (percent ∷ [])

-- `column LIKE pattern ESCAPE '\'`. `fold` is what the database compares characters up to: the
-- identity on PostgreSQL, the lower case of ASCII letters on SQLite.
pub record LikeOperator : Type 0 where
  pub like : Text → Text → Bool
  pub fold : ℕ → ℕ
  pub like_escaped :
      (c d : ℕ) (p s : Text) → like (backslash ∷ c ∷ p) (d ∷ s) ≡ ((fold c == fold d) && like p s)
  pub like_escaped_end : (c : ℕ) (p : Text) → like (backslash ∷ c ∷ p) [] ≡ false
  pub like_any : (s : Text) → like (percent ∷ []) s ≡ true
  pub like_plain :
      (c d : ℕ) (p s : Text)
      → ((c == backslash) || (c == percent) || (c == underscore)) ≡ false
      → like (c ∷ p) (d ∷ s) ≡ ((fold c == fold d) && like p s)
  pub like_plain_end :
      (c : ℕ) (p : Text)
      → ((c == backslash) || (c == percent) || (c == underscore)) ≡ false
      → like (c ∷ p) [] ≡ false

special : ℕ → Bool
special c = (c == backslash) || (c == percent) || (c == underscore)

like_escape-cons :
    (c : ℕ) (s : Text)
    → like_escape (c ∷ s) ≡ (if special c then backslash ∷ c ∷ like_escape s else c ∷ like_escape s)
unfolding like_escape special
like_escape-cons c s = ground arith

list_pattern-cons :
    (c : ℕ) (s : Text)
    → list_pattern (c ∷ s)
      ≡ (if special c then backslash ∷ c ∷ list_pattern s else c ∷ list_pattern s)
unfolding list_pattern special
list_pattern-cons c s = rw like_escape-cons (ground arith)

module _ (L : LikeOperator) where
  -- The escaped prefix with `%` behind it matches exactly the texts that begin with the prefix, up
  -- to the characters that the database does not tell apart; no character of the prefix is a
  -- wildcard.
  pub like-list_pattern :
      (prefix path : Text)
      → L.like (list_pattern prefix) path ≡ starts_with (map L.fold path) (map L.fold prefix)
  unfolding starts_with special
  like-list_pattern [] path = unfold list_pattern in L.like_any path
  like-list_pattern (c ∷ prefix) [] = elim (Bool-cases (special c)) [
    | inl e ↦ rw (list_pattern-cons, e) (L.like_escaped_end c (list_pattern prefix))
    | inr e ↦ rw (list_pattern-cons, e) (L.like_plain_end c (list_pattern prefix) e)
  ]
  like-list_pattern (c ∷ prefix) (d ∷ path) = elim (Bool-cases (special c)) [
    | inl e ↦ rw (list_pattern-cons, e) (rw (L.like_escaped, like-list_pattern prefix path) refl)
    | inr e ↦
        rw (list_pattern-cons, e)
          (rw (L.like_plain c d (list_pattern prefix) path e, like-list_pattern prefix path) refl)
  ]
