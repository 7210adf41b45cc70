-- ===== src/Search/Sqlite/Shown.antt =====
-- What `search_text` of sqlite_metadata.py answers: entries of its request only.
use ai_vfs.Base.{
  ℕ, suc, ◌≡◌, refl, Bool, Option, none, some, List, [], ◌∷◌, Text, text_eq, select, All, map,
  Bool-cases, inl, inr,
}
use ai_vfs.Exec.{pure, gets}
use ai_vfs.Exec.Answers.{Answers, Answers-pure, Answers-bind}
use ai_vfs.Store.Tables.{Meta, FtsRow}
use ai_vfs.Store.TextIndex.{NativeTextSearch}
use ai_vfs.Search.{SearchMetaEntry, SearchResult, SearchRequest, MatchMode, Score}
use ai_vfs.Search.Default.{line_result}
use ai_vfs.Search.Default.Laws.{Shows, All-append, Shows-head, Shows-cons}
use ai_vfs.Search.Sqlite.{
  Fts, entries_with, row_lines, text_lines, of_index, ranked_result, has_entries, is_fulltext_type,
  candidate_rows, compiled_search, ranked_results, fulltext_terms, fulltext_search, search_text,
  fts5_literal_from_pattern, split_terms,
}

-- Results made from some of the entries.
made-Shows :
    (make : SearchMetaEntry → SearchResult) (p : SearchMetaEntry → Bool) (es : List SearchMetaEntry)
    → ((e : SearchMetaEntry) → (make e).path ≡ e.path)
    → All (Shows es) (map make (select p es))
unfolding select
made-Shows make p [] same = tt
made-Shows make p (e ∷ es) same = elim (Bool-cases (p e)) [
  | inl q ↦ rw q (Shows-head e es (make e) (same e), Shows-cons e es _ (made-Shows make p es same))
  | inr q ↦ rw q (Shows-cons e es _ (made-Shows make p es same))
]

row_lines-Shows :
    (matches : Text → Bool) (ch : Text) (es : List SearchMetaEntry) (n : ℕ) (lines : List Text)
    → All (Shows es) (row_lines matches (entries_with ch es) n lines)
unfolding row_lines entries_with
row_lines-Shows matches ch es n [] = tt
row_lines-Shows matches ch es n (l ∷ ls) =
    let rest = row_lines-Shows matches ch es (suc n) ls in
    elim (Bool-cases (matches l)) [
      | inl q ↦ rw q (
          All-append (Shows es) (map (λ e. line_result e n l) (entries_with ch es)) _
            (made-Shows (λ e. line_result e n l) (λ e. text_eq e.content_hash ch) es (λ e. refl))
            rest)
      | inr q ↦ rw q rest
    ]

text_lines-Shows :
    (matches : Text → Bool) (es : List SearchMetaEntry) (rows : List (Text × Text))
    → All (Shows es) (text_lines matches es rows)
unfolding text_lines
text_lines-Shows matches es [] = tt
text_lines-Shows matches es ((ch, raw) ∷ rows) =
    All-append (Shows es) (row_lines matches (entries_with ch es) 1 _) (text_lines matches es rows)
      (row_lines-Shows matches ch es 1 _) (text_lines-Shows matches es rows)

module _ (F : Fts) (nts : NativeTextSearch) where
  ranked_results-Shows :
      (es : List SearchMetaEntry) (rows : List (FtsRow × Score))
      → All (Shows es) (ranked_results F nts es rows)
  unfolding ranked_results entries_with
  ranked_results-Shows es [] = tt
  ranked_results-Shows es ((r, score) ∷ rows) =
      let rest = ranked_results-Shows es rows in
      elim (Bool-cases (of_index nts r)) [
        | inl q ↦ rw q (
            All-append (Shows es)
              (map (λ e. ranked_result e score) (entries_with r.content_hash es)) _
              (made-Shows (λ e. ranked_result e score) (λ e. text_eq e.content_hash r.content_hash)
                es (λ e. refl))
              rest)
        | inr q ↦ rw q rest
      ]

  compiled-Shows :
      (compiled : Option (Text → Bool)) (pattern : Text) (es : List SearchMetaEntry)
      → Answers (All (Shows es)) (compiled_search F nts compiled pattern es)
  compiled-Shows none pattern es = Answers-pure [] tt
  compiled-Shows (some matches) pattern es =
      Answers-bind (candidate_rows F nts (fts5_literal_from_pattern pattern) es)
        (λ rows. pure (text_lines matches es rows))
        (λ rows. Answers-pure (text_lines matches es rows) (text_lines-Shows matches es rows))

  gets-Answers :
      {A : Type 0} (Q : A → Type 0) (f : Meta → A) → ((m : Meta) → Q (f m)) → Answers Q (gets f)
  gets-Answers Q f h = record {
    answered = λ m a e. (Answers-pure {Q = Q} (f m) (h m)).answered m a e;
  }

  terms-Shows :
      (ts : List Text) (mode : MatchMode) (es : List SearchMetaEntry)
      → Answers (All (Shows es)) (fulltext_terms F nts ts mode es)
  terms-Shows [] mode es = Answers-pure [] tt
  terms-Shows (t ∷ ts) mode es = gets-Answers (All (Shows es)) _ (λ m. ranked_results-Shows es _)

  -- Whatever FTS5 answers, and whatever the tables hold.
  pub search_text-Shows :
      (compile : Text → Option (Text → Bool)) (r : SearchRequest)
      → Answers (All (Shows r.search_metas)) (search_text F nts compile r)
  unfolding search_text fulltext_search
  search_text-Shows compile r = elim (Bool-cases (has_entries r.search_metas)) [
    | inr none_left ↦ rw none_left (Answers-pure [] tt)
    | inl some_left ↦ rw some_left (elim (Bool-cases (is_fulltext_type r.search_type)) [
      | inl q ↦ rw q (terms-Shows (split_terms r.query) r.match_mode r.search_metas)
      | inr q ↦ rw q (compiled-Shows (compile r.query) r.query r.search_metas)
    ])
  ]
