-- ===== src/Search/Sqlite/Quoting.antt =====
-- The query text that `_fulltext_search` builds, read back by the rules of FTS5: a string is what
-- stands between two double quotes, where two double quotes in a row are one.
use ai_vfs.Base.{
  ℕ, ◌≡◌, refl, ap, sym, ◌∙◌, true, false, List, [], ◌∷◌, ◌++◌, Text, codes, ◌==◌, ==_iff,
  Bool-cases, inl, inr,
}
use mathlib.Core.List.{append-nil}
use ai_vfs.Search.{MatchMode, match_all, match_any}
use ai_vfs.Search.Sqlite.{quote, escaped_quotes, phrase, separator, fts_query}

-- Outside a string, in a string, and behind a double quote of a string.
pub data Place : Type 0 where
  outside inside closing : Place

abbrev pub onto : ℕ → Text × List Text → Text × List Text
onto c (p, ps) = (c ∷ p, ps)

abbrev pub opened : Text × List Text → Text × List Text
opened (p, ps) = ([], p ∷ ps)

abbrev pub closed : Text × List Text → Text × List Text
closed (p, ps) = ([], ps)

-- The rest of the string that is open, and the strings behind it.
unfoldable pub read_strings : Place → Text → Text × List Text
read_strings _ [] = ([], [])
read_strings outside (c ∷ s) = elim (c == quote) [
  | true ↦ opened (read_strings inside s)
  | false ↦ read_strings outside s
]
read_strings inside (c ∷ s) = elim (c == quote) [
  | true ↦ read_strings closing s
  | false ↦ onto c (read_strings inside s)
]
read_strings closing (c ∷ s) = elim (c == quote) [
  | true ↦ onto quote (read_strings inside s)
  | false ↦ closed (read_strings outside s)
]

-- The strings of an FTS5 query.
abbrev pub strings_of : Text → List Text
strings_of s = (read_strings outside s).1

abbrev in_front : Text → Text × List Text → Text × List Text
in_front t (p, ps) = (t ++ p, ps)

read_escaped :
    (t s : Text)
    → read_strings inside (escaped_quotes t ++ (quote ∷ s)) ≡ in_front t (read_strings closing s)
unfolding read_strings escaped_quotes
read_escaped [] s = refl
read_escaped (c ∷ t) s = elim (Bool-cases (c == quote)) [
  | inl e ↦ rw e (
      ap (onto quote) (read_escaped t s)
      ∙ ap (λ x. in_front (x ∷ t) (read_strings closing s)) (sym ((==_iff c quote).0 e)))
  | inr e ↦ rw e (rw (read_strings, e) (ap (onto c) (read_escaped t s)))
]

append_assoc : (t s : Text) → (t ++ (quote ∷ [])) ++ s ≡ t ++ (quote ∷ s)
append_assoc [] s = refl
append_assoc (c ∷ t) s = ap (λ x. c ∷ x) (append_assoc t s)

-- A phrase at the end, and a phrase in front of a separator.
strings_of-phrase : (t : Text) → strings_of (phrase t) ≡ t ∷ []
unfolding read_strings
strings_of-phrase t = rw (read_escaped t []) (ap (λ x. x ∷ []) (append-nil t))

strings_of-separated :
    (mode : MatchMode) (t s : Text)
    → strings_of (phrase t ++ (separator mode ++ s)) ≡ t ∷ strings_of s
unfolding read_strings
strings_of-separated match_all t s =
    rw (append_assoc (escaped_quotes t) (codes " " ++ s), read_escaped t (codes " " ++ s))
      (ap (λ x. x ∷ strings_of s) (append-nil t))
strings_of-separated match_any t s =
    rw (append_assoc (escaped_quotes t) (codes " OR " ++ s), read_escaped t (codes " OR " ++ s))
      (ap (λ x. x ∷ strings_of s) (append-nil t))

-- For every list of terms, whatever characters they hold, and in both modes: the strings that FTS5
-- reads in the query that `_fulltext_search` builds are the terms, in their order.
pub strings_of-fts_query :
    (mode : MatchMode) (terms : List Text) → strings_of (fts_query mode terms) ≡ terms
unfolding fts_query read_strings
strings_of-fts_query mode [] = refl
strings_of-fts_query mode (t ∷ []) = strings_of-phrase t
strings_of-fts_query mode (t ∷ u ∷ ts) =
    strings_of-separated mode t (fts_query mode (u ∷ ts))
    ∙ ap (λ x. t ∷ x) (strings_of-fts_query mode (u ∷ ts))
