-- ===== src/Search/Sqlite.antt =====
-- The query side of the SQLite text index, src/vfs/stores/sqlite_metadata.py: `search_text`,
-- `_regex_search`, `_fulltext_search` and `_fts5_literal_from_pattern`. What FTS5 answers to a MATCH
-- and the regex engine are parameters.
pub mod Quoting
pub mod Shown
use ai_vfs.Base.{
  ℕ, zero, suc, Bool, true, false, not, ◌&&◌, ◌||◌, Option, none, some, List, [], ◌∷◌, ◌++◌, Text,
  codes, text_eq, has_char, select, map, length, ltb, ◌==◌, any, if◌then◌else◌,
}
use ai_vfs.Models.{SearchType, fulltext}
use ai_vfs.Exec.{gets, pure, ◌>>=◌}
use ai_vfs.Store.Tables.{Sql, FtsRow, TextArtifact}
use ai_vfs.Store.TextIndex.{NativeTextSearch}
use ai_vfs.Search.{
  SearchMetaEntry, SearchResult, SearchRequest, MatchMode, match_all, match_any, Score,
}
use ai_vfs.Search.Lines.{splitlines, is_space}
use ai_vfs.Search.Default.{line_result}

abbrev pub quote : ℕ
quote = b'"'

-- The rows of an FTS5 table that a MATCH selects, in order of rank, with the scores.
pub record Fts : Type 0 where
  pub matches : Text → List FtsRow → List FtsRow
  pub ranked : Text → List FtsRow → List (FtsRow × Score)

abbrev pub longer : Text → Text → Text
longer current best = if ltb (length best) (length current) then current else best

-- Where the scan of the pattern stands: at a character, behind a backslash, at the start of a
-- character class, behind its `^`, or inside it.
pub data Scan : Type 0 where
  plain escaped class_start class_negated class : Scan

-- `"".join(best)` if it has three characters
abbrev pub long_enough : Text → Option Text
long_enough best = if ltb 2 (length best) then some best else none

-- One character of the loop of `_fts5_literal_from_pattern`, with the best run so far and the current
-- one; the flag says that a character follows. `none` for the fall back to a full scan.
unfoldable pub literal_step : Scan → Bool → ℕ → Text → Text → Option (Scan × Text × Text)
unfolding has_char
literal_step plain more c best current =
    if more && c == b'\\'
    then some (escaped, best, current)
    else if c == b'['
    then some (class_start, longer current best, [])
    else if has_char c (codes "|?*")
    then none
    else if has_char c (codes "\\.^$+{}()")
    then some (plain, longer current best, [])
    else some (plain, best, current ++ (c ∷ []))
literal_step escaped more c best current =
    if has_char c (codes "\\.^$*+?{}[]|()")
    then some (plain, best, current ++ (c ∷ []))
    else some (plain, longer current best, [])
literal_step class_start more c best current =
    some (if c == b'^' then class_negated else class, best, current)
literal_step class_negated more c best current = some (class, best, current)
literal_step class more c best current = some (if c == b']' then plain else class, best, current)

abbrev pub has_more : Text → Bool
has_more [] = false
has_more (c ∷ s) = true

unfoldable pub literal_scan : Scan → Text → Text → Text → Option Text
unfolding literal_step
literal_scan state best current [] = long_enough (longer current best)
literal_scan state best current (c ∷ s) = elim (literal_step state (has_more s) c best current) [
  | none ↦ none
  | some (next, b, run) ↦ literal_scan next b run s
]

-- `_fts5_literal_from_pattern`
unfoldable pub fts5_literal_from_pattern : Text → Option Text
unfolding literal_scan
fts5_literal_from_pattern pattern = literal_scan plain [] [] pattern

-- `query.split()`
abbrev pub onto_term : ℕ → List Text → List Text
onto_term c [] = (c ∷ []) ∷ []
onto_term c (t ∷ ts) = (c ∷ t) ∷ ts

abbrev pub starts_space : Text → Bool
starts_space [] = true
starts_space (c ∷ s) = is_space c

unfoldable pub split_terms : Text → List Text
unfolding is_space
split_terms [] = []
split_terms (c ∷ s) =
    let rest = split_terms s in
    if is_space c then rest else if starts_space s then (c ∷ []) ∷ rest else onto_term c rest

-- `tok.replace('"', '""')`
unfoldable pub escaped_quotes : Text → Text
escaped_quotes [] = []
escaped_quotes (c ∷ s) =
    let rest = escaped_quotes s in if c == quote then quote ∷ quote ∷ rest else c ∷ rest

abbrev pub phrase : Text → Text
phrase token = quote ∷ (escaped_quotes token ++ (quote ∷ []))

abbrev pub separator : MatchMode → Text
separator match_any = codes " OR "
separator match_all = codes " "

-- `join.join(phrases)`
unfoldable pub fts_query : MatchMode → List Text → Text
fts_query mode [] = []
fts_query mode (t ∷ []) = phrase t
fts_query mode (t ∷ u ∷ ts) = phrase t ++ (separator mode ++ fts_query mode (u ∷ ts))

-- `ch_to_entries[ch]`, and nothing for a hash that is not visible
unfoldable pub entries_with : Text → List SearchMetaEntry → List SearchMetaEntry
unfolding select text_eq
entries_with ch entries = select (λ e. text_eq e.content_hash ch) entries

-- The results of one row: for each matching line, one for each occurrence of the content.
unfoldable pub row_lines : (Text → Bool) → List SearchMetaEntry → ℕ → List Text → List SearchResult
row_lines matches entries number [] = []
row_lines matches entries number (line ∷ lines) =
    let rest = row_lines matches entries (suc number) lines in
    if matches line then map (λ e. line_result e number line) entries ++ rest else rest

unfoldable pub text_lines :
    (Text → Bool) → List SearchMetaEntry → List (Text × Text) → List SearchResult
unfolding row_lines entries_with splitlines
text_lines matches entries [] = []
text_lines matches entries ((ch, raw) ∷ rows) =
    row_lines matches (entries_with ch entries) 1 (splitlines raw)
    ++ text_lines matches entries rows

abbrev pub of_index : NativeTextSearch → FtsRow → Bool
of_index nts r = text_eq r.provider_key nts.provider_key && text_eq r.params_hash nts.params_hash

abbrev pub ranked_result : SearchMetaEntry → Score → SearchResult
ranked_result e score = record {
  path = e.path;
  line_number = none;
  match_context = none;
  score = score;
}

abbrev pub has_entries : List SearchMetaEntry → Bool
has_entries [] = false
has_entries (e ∷ es) = true

abbrev pub is_fulltext_type : SearchType → Bool
is_fulltext_type fulltext = true
is_fulltext_type _ = false

abbrev pub of_table : NativeTextSearch → List SearchMetaEntry → TextArtifact → Bool
of_table nts entries a =
    text_eq a.provider_key nts.provider_key
    && (text_eq a.params_hash nts.params_hash
        && any (λ e. text_eq e.content_hash a.content_hash) entries)

-- The scan of the main table.
unfoldable pub scanned_rows : NativeTextSearch → List SearchMetaEntry → Sql (List (Text × Text))
unfolding select
scanned_rows nts entries = gets (λ m.
    map (λ a. (a.content_hash, a.raw_text)) (select (of_table nts entries) m.search_text_artifacts))

module _ (F : Fts) (nts : NativeTextSearch) where
  -- The rows that the literal leaves, or all the visible ones.
  abbrev pub candidate_rows : Option Text → List SearchMetaEntry → Sql (List (Text × Text))
  candidate_rows (some literal) entries =
      if has_char quote literal
      then scanned_rows nts entries
      else gets (λ m.
        map (λ r. (r.content_hash, r.raw_text))
          (select (of_index nts) (F.matches (quote ∷ (literal ++ (quote ∷ []))) m.search_fts)))
  candidate_rows none entries = scanned_rows nts entries

  -- `_regex_search`
  abbrev pub compiled_search :
      Option (Text → Bool) → Text → List SearchMetaEntry → Sql (List SearchResult)
  compiled_search none pattern entries = pure []
  compiled_search (some matches) pattern entries = do
    rows ← candidate_rows (fts5_literal_from_pattern pattern) entries
    pure (text_lines matches entries rows)

  unfoldable pub ranked_results : List SearchMetaEntry → List (FtsRow × Score) → List SearchResult
  ranked_results entries [] = []
  ranked_results entries ((r, score) ∷ rows) =
      let rest = ranked_results entries rows in
      if of_index nts r
      then map (λ e. ranked_result e score) (entries_with r.content_hash entries) ++ rest
      else rest

  abbrev pub fulltext_terms : List Text → MatchMode → List SearchMetaEntry → Sql (List SearchResult)
  fulltext_terms [] mode entries = pure []
  fulltext_terms (t ∷ ts) mode entries =
      gets (λ m. ranked_results entries (F.ranked (fts_query mode (t ∷ ts)) m.search_fts_words))

  -- `_fulltext_search`
  unfoldable pub fulltext_search : Text → MatchMode → List SearchMetaEntry → Sql (List SearchResult)
  fulltext_search query mode entries = fulltext_terms (split_terms query) mode entries

  abbrev pub text_search :
      (Text → Option (Text → Bool)) → Bool → SearchRequest → Sql (List SearchResult)
  text_search compile true r = fulltext_search r.query r.match_mode r.search_metas
  text_search compile false r = compiled_search (compile r.query) r.query r.search_metas

  -- `search_text`
  unfoldable pub search_text :
      (Text → Option (Text → Bool)) → SearchRequest → Sql (List SearchResult)
  search_text compile r =
      if has_entries r.search_metas
      then text_search compile (is_fulltext_type r.search_type) r
      else pure []
