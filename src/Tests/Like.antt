-- ===== src/Tests/Like.antt =====
-- A LIKE operator that distinguishes all characters, as PostgreSQL's does: the parameter of the
-- model can be given.
use ai_vfs.Base.{
  ℕ, ◌≡◌, refl, Bool, true, false, ◌&&◌, ◌||◌, [], ◌∷◌, Text, ◌==◌, if◌then◌else◌, arith,
}
use ai_vfs.Paths.Posix.{is_empty}
use ai_vfs.Paths.Like.{LikeOperator, backslash, percent, underscore}

unfoldable pub one : ℕ → (Text → Bool) → Text → Bool
one c k [] = false
one c k (d ∷ s) = (c == d) && k s

unfoldable pub any_one : (Text → Bool) → Text → Bool
any_one k [] = false
any_one k (d ∷ s) = k s

unfoldable pub any_suffix : (Text → Bool) → Text → Bool
any_suffix k [] = k []
any_suffix k (d ∷ s) = k (d ∷ s) || any_suffix k s

unfoldable pub match : Text → Text → Bool
match [] s = is_empty s
match (c ∷ []) s =
    if c == percent
    then any_suffix is_empty s
    else if c == underscore
    then any_one is_empty s
    else if c == backslash
    then false
    else one c is_empty s
match (c ∷ e ∷ p) s =
    if c == backslash
    then one e (match p) s
    else if c == percent
    then any_suffix (match (e ∷ p)) s
    else if c == underscore
    then any_one (match (e ∷ p)) s
    else one c (match (e ∷ p)) s

pub match_any : (s : Text) → match (percent ∷ []) s ≡ true
unfolding match any_suffix
match_any [] = refl
match_any (d ∷ s) = match_any s

pub match_plain :
    (c d : ℕ) (p s : Text)
    → ((c == backslash) || (c == percent) || (c == underscore)) ≡ false
    → match (c ∷ p) (d ∷ s) ≡ ((c == d) && match p s)
unfolding match one
match_plain c d [] s h = ground arith
match_plain c d (e ∷ p) s h = ground arith

pub match_plain_end :
    (c : ℕ) (p : Text)
    → ((c == backslash) || (c == percent) || (c == underscore)) ≡ false
    → match (c ∷ p) [] ≡ false
unfolding match one
match_plain_end c [] h = ground arith
match_plain_end c (e ∷ p) h = ground arith

pub match_escaped :
    (c d : ℕ) (p s : Text) → match (backslash ∷ c ∷ p) (d ∷ s) ≡ ((c == d) && match p s)
unfolding match one
match_escaped c d p s = refl

pub match_escaped_end : (c : ℕ) (p : Text) → match (backslash ∷ c ∷ p) [] ≡ false
unfolding match one
match_escaped_end c p = refl

abbrev pub sql_like : LikeOperator
sql_like = record {
  like = match;
  fold = λ c. c;
  like_escaped = match_escaped;
  like_escaped_end = match_escaped_end;
  like_any = match_any;
  like_plain = match_plain;
  like_plain_end = match_plain_end;
}
