-- ===== src/Search/Default.antt =====
-- src/vfs/search/default.py and _regex.py: the built-in provider of glob, find and regex searches.
-- `fnmatch`, `PurePosixPath.match` and RE2 are parameters.
pub mod Laws
pub mod Reads
use ai_vfs.Base.{
  ℕ, suc, Bool, true, false, not, ◌&&◌, ◌||◌, Option, none, some, List, [], ◌∷◌, ◌++◌, Text, codes,
  text_eq, starts_with, has_char, drop, length, ltb, map, select, if◌then◌else◌,
}
use ai_vfs.Models.{SearchType, glob, find, regex, fulltext, semantic}
use ai_vfs.Exec.{pure, ◌>>=◌}
use ai_vfs.Paths.Posix.{slash, split, is_empty}
use ai_vfs.Search.{
  FindPredicates, SearchMetaEntry, SearchResult, SearchRequest, ContentReader, default_score,
}
use ai_vfs.Search.Lines.{splitlines, strip}
use ai_vfs.Search.Reader.{Search, read_content}

-- What the provider takes from Python's library and from RE2.
pub record Patterns : Type 0 where
  -- `fnmatch.fnmatch(name, pattern)`
  pub fnmatch : Text → Text → Bool
  -- `PurePosixPath(path).match(pattern)`
  pub path_match : Text → Text → Bool
  -- `re2.compile(pattern)` and the `search` of what it returns; `none` for `re2.error`
  pub compile : Text → Option (Text → Bool)
  -- `content.decode("utf-8", errors="replace")`
  pub decode_replace : Text → Text

-- `p in s`
unfoldable pub has_text : Text → Text → Bool
unfolding starts_with
has_text p [] = starts_with [] p
has_text p (a ∷ s) = starts_with (a ∷ s) p || has_text p s

-- `pattern.replace("**/", "")`
unfoldable pub collapsed : Text → Text
collapsed [] = []
collapsed (a ∷ []) = a ∷ []
collapsed (a ∷ b ∷ []) = a ∷ b ∷ []
collapsed (a ∷ b ∷ c ∷ s) =
    let skipped = collapsed s in
    let kept = collapsed (b ∷ c ∷ s) in
    if text_eq (a ∷ b ∷ c ∷ []) (codes "**/") then skipped else a ∷ kept

-- The last component that is neither empty nor `.`; the given text if there is none.
unfoldable pub last_component : Text → List Text → Text
unfolding text_eq
last_component found [] = found
last_component found (t ∷ ts) =
    last_component (if is_empty t || text_eq t (codes ".") then found else t) ts

-- `PurePosixPath(path).name`
unfoldable pub path_name : Text → Text
unfolding last_component split
path_name path = last_component [] (split path)

-- `SearchResult(path=…)`
abbrev pub path_result : SearchMetaEntry → SearchResult
path_result e = record {
  path = e.path;
  line_number = none;
  match_context = none;
  score = default_score;
}

-- `SearchResult(path=…, line_number=…, match_context=…)`
abbrev pub line_result : SearchMetaEntry → ℕ → Text → SearchResult
line_result e number line = record {
  path = e.path;
  line_number = some number;
  match_context = some (strip line);
  score = default_score;
}

-- An optional bound: no bound admits everything.
abbrev pub admits : {A : Type 0} → Option A → (A → Bool) → Bool
admits none p = true
admits (some a) p = p a

module _ (P : Patterns) where
  -- The body of the loop of `_glob_search`.
  unfoldable pub glob_matches : Text → Text → SearchMetaEntry → Bool
  unfolding starts_with has_char has_text collapsed
  glob_matches pattern scope e =
      let recursive = has_text (codes "**") pattern in
      let relative = drop (length scope) e.path in
      if not (starts_with e.path scope)
      then false
      else if not recursive && has_char slash relative
      then false
      else P.path_match relative pattern || (recursive && P.fnmatch relative (collapsed pattern))

  unfoldable pub glob_search : Text → Text → List SearchMetaEntry → List SearchResult
  unfolding select glob_matches
  glob_search pattern scope entries = map path_result (select (glob_matches pattern scope) entries)

  -- The tests on `find_predicates.type`.
  unfoldable pub kind_matches : Bool → Text → Bool
  unfolding text_eq
  kind_matches is_deleted kind =
      if text_eq kind (codes "file") && is_deleted
      then false
      else not (text_eq kind (codes "tombstone") && not is_deleted)

  unfoldable pub predicates_match : FindPredicates → Text → SearchMetaEntry → Bool
  unfolding kind_matches
  predicates_match p name e =
      admits p.name (λ n. P.fnmatch name n)
      && (admits p.size_min (λ n. not (ltb e.size n))
          && (admits p.size_max (λ n. not (ltb n e.size))
              && (admits p.mtime_after (λ n. ltb n e.updated_at)
                  && (admits p.mtime_before (λ n. ltb e.updated_at n)
                      && admits p.kind (kind_matches e.is_deleted)))))

  unfoldable pub find_matches : Text → Text → Option FindPredicates → SearchMetaEntry → Bool
  unfolding starts_with predicates_match path_name
  find_matches query scope predicates e =
      let name = path_name e.path in
      starts_with e.path scope
      && (P.fnmatch name query && admits predicates (λ p. predicates_match p name e))

  unfoldable pub find_search :
      Text → Text → List SearchMetaEntry → Option FindPredicates → List SearchResult
  unfolding select find_matches
  find_search query scope entries predicates =
      map path_result (select (find_matches query scope predicates) entries)

  -- The matching lines of one file, numbered from the given number.
  unfoldable pub matching_lines :
      (Text → Bool) → SearchMetaEntry → ℕ → List Text → List SearchResult
  unfolding strip
  matching_lines matches e number [] = []
  matching_lines matches e number (line ∷ lines) =
      let rest = matching_lines matches e (suc number) lines in
      if matches line then line_result e number line ∷ rest else rest

  unfoldable pub regex_entries :
      (Text → Bool) → Text → ContentReader → List SearchMetaEntry → Search (List SearchResult)
  unfolding starts_with read_content matching_lines splitlines
  regex_entries matches scope reader [] = pure []
  regex_entries matches scope reader (e ∷ es) =
      if not (starts_with e.path scope) then regex_entries matches scope reader es else do
        content ← read_content reader e.path
        rest ← regex_entries matches scope reader es
        pure (matching_lines matches e 1 (splitlines (P.decode_replace content)) ++ rest)

  abbrev pub regex_compiled :
      Option (Text → Bool)
      → Text
      → ContentReader
      → List SearchMetaEntry
      → Search (List SearchResult)
  regex_compiled none scope reader entries = pure []
  regex_compiled (some matches) scope reader entries = regex_entries matches scope reader entries

  unfoldable pub regex_search :
      Text → Text → List SearchMetaEntry → ContentReader → Search (List SearchResult)
  unfolding regex_entries
  regex_search pattern scope entries reader =
      regex_compiled (P.compile pattern) scope reader entries

  unfoldable pub search_by : SearchType → SearchRequest → Search (List SearchResult)
  unfolding glob_search find_search regex_search
  search_by glob r = pure (glob_search r.query r.scope r.search_metas)
  search_by find r = pure (find_search r.query r.scope r.search_metas r.find_predicates)
  search_by regex r = regex_search r.query r.scope r.search_metas r.read_content
  search_by fulltext r = pure []
  search_by semantic r = pure []

  -- `if not entries: return SearchResponse()`
  abbrev pub unless_empty :
      List SearchMetaEntry → Search (List SearchResult) → Search (List SearchResult)
  unless_empty [] m = pure []
  unless_empty (e ∷ es) m = m

  -- `DefaultSearchProvider.search`
  unfoldable pub default_search : SearchRequest → Search (List SearchResult)
  unfolding search_by
  default_search r = unless_empty r.search_metas (search_by r.search_type r)
