-- ===== src/Search/Default/Laws.antt =====
-- What the built-in provider answers and reads: entries of the request only, within the budget.
use ai_vfs.Base.{
  ℕ, suc, ◌≡◌, refl, Bool, true, List, [], ◌∷◌, ◌++◌, Text, text_eq, text_eq_refl, starts_with,
  select, any, All, map, Bool-cases, Option-cases, inl, inr, arith,
}
use ai_vfs.Models.{SearchType, glob, find, regex, fulltext, semantic}
use ai_vfs.Errors.{ok}
use ai_vfs.Exec.Answers.{Answers, Answers-pure, Answers-bind, Answers-after}
use ai_vfs.Search.{SearchMetaEntry, SearchResult, SearchRequest, ContentReader}
use ai_vfs.Search.Reader.{Reading, Search}
use ai_vfs.Search.Default.{
  Patterns, path_result, line_result, glob_search, find_search, matching_lines, regex_entries,
  regex_search, search_by, unless_empty, default_search,
}

-- One of the entries has the path of the result.
abbrev pub Shows : List SearchMetaEntry → SearchResult → Type 0
Shows entries r = any (λ e. text_eq e.path r.path) entries ≡ true

pub All-append :
    {A : Type 0} (Q : A → Type 0) (xs ys : List A) → All Q xs → All Q ys → All Q (xs ++ ys)
All-append Q [] ys hx hy = hy
All-append Q (x ∷ xs) ys hx hy = (hx.0, All-append Q xs ys hx.1 hy)

pub All-weaken :
    {A : Type 0} (Q R : A → Type 0) (xs : List A) → ((x : A) → Q x → R x) → All Q xs → All R xs
All-weaken Q R [] g h = h
All-weaken Q R (x ∷ xs) g h = (g x h.0, All-weaken Q R xs g h.1)

pub Shows-cons :
    (e : SearchMetaEntry) (es : List SearchMetaEntry) (rs : List SearchResult)
    → All (Shows es) rs
    → All (Shows (e ∷ es)) rs
unfolding any
Shows-cons e es rs = All-weaken (Shows es) (Shows (e ∷ es)) rs (λ r h. ground arith)

pub Shows-head :
    (e : SearchMetaEntry) (es : List SearchMetaEntry) (r : SearchResult)
    → r.path ≡ e.path
    → Shows (e ∷ es) r
unfolding any
Shows-head e es r h = rw (h, text_eq_refl e.path) refl

selected-Shows :
    (p : SearchMetaEntry → Bool) (es : List SearchMetaEntry)
    → All (Shows es) (map path_result (select p es))
unfolding select
selected-Shows p [] = tt
selected-Shows p (e ∷ es) = elim (Bool-cases (p e)) [
  | inl q ↦ rw q (Shows-head e es (path_result e) refl, Shows-cons e es _ (selected-Shows p es))
  | inr q ↦ rw q (Shows-cons e es _ (selected-Shows p es))
]

module _ (P : Patterns) where
  matching_lines-Shows :
      (matches : Text → Bool) (e : SearchMetaEntry) (es : List SearchMetaEntry) (n : ℕ)
      (lines : List Text)
      → All (Shows (e ∷ es)) (matching_lines P matches e n lines)
  unfolding matching_lines
  matching_lines-Shows matches e es n [] = tt
  matching_lines-Shows matches e es n (l ∷ ls) = elim (Bool-cases (matches l)) [
    | inl q ↦
        rw q
          (Shows-head e es (line_result e n l) refl, matching_lines-Shows matches e es (suc n) ls)
    | inr q ↦ rw q (matching_lines-Shows matches e es (suc n) ls)
  ]

  Answers-cons :
      (e : SearchMetaEntry) (es : List SearchMetaEntry) (m : Search (List SearchResult))
      → Answers (All (Shows es)) m
      → Answers (All (Shows (e ∷ es))) m
  Answers-cons e es m h = record { answered = λ s a q. Shows-cons e es a (h.answered s a q) }

  regex_entries-Shows :
      (matches : Text → Bool) (scope : Text) (reader : ContentReader) (es : List SearchMetaEntry)
      → Answers (All (Shows es)) (regex_entries P matches scope reader es)
  unfolding regex_entries
  regex_entries-Shows matches scope reader [] = Answers-pure [] tt
  regex_entries-Shows matches scope reader (e ∷ es) = elim (Bool-cases (starts_with e.path scope)) [
    | inl q ↦
        rw (regex_entries, q)
          (Answers-bind _ _ (λ content.
            Answers-after _ _ (regex_entries-Shows matches scope reader es) (λ rest h.
              Answers-pure _ (
                All-append (Shows (e ∷ es)) _ rest (matching_lines-Shows matches e es 1 _)
                  (Shows-cons e es rest h)))))
    | inr q ↦
        rw (regex_entries, q) (Answers-cons e es _ (regex_entries-Shows matches scope reader es))
  ]

  search_by-Shows :
      (t : SearchType) (r : SearchRequest) → Answers (All (Shows r.search_metas)) (search_by P t r)
  unfolding search_by glob_search find_search regex_search
  search_by-Shows glob r = Answers-pure _ (selected-Shows _ r.search_metas)
  search_by-Shows find r = Answers-pure _ (selected-Shows _ r.search_metas)
  search_by-Shows regex r = elim (Option-cases (P.compile r.query)) [
    | inl q ↦ rw q (Answers-pure [] tt)
    | inr (f, q) ↦ rw q (regex_entries-Shows f r.scope r.read_content r.search_metas)
  ]
  search_by-Shows fulltext r = Answers-pure [] tt
  search_by-Shows semantic r = Answers-pure [] tt

  unless_empty-Shows :
      (es : List SearchMetaEntry) (m : Search (List SearchResult))
      → Answers (All (Shows es)) m
      → Answers (All (Shows es)) (unless_empty P es m)
  unless_empty-Shows [] m h = Answers-pure [] tt
  unless_empty-Shows (e ∷ es) m h = h

  pub default_search-Answers :
      (r : SearchRequest) → Answers (All (Shows r.search_metas)) (default_search P r)
  unfolding default_search
  default_search-Answers r = unless_empty-Shows r.search_metas _ (search_by-Shows r.search_type r)

  -- Whatever the other tasks do, the results that the built-in provider returns for a request are at
  -- paths of the request's entries only.
  pub default_search-Shows :
      (r : SearchRequest) (s : Reading) (rs : List SearchResult)
      → (default_search P r s).0 ≡ ok rs
      → All (Shows r.search_metas) rs
  default_search-Shows r s rs e = (default_search-Answers r).answered s rs e
