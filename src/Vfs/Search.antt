-- ===== src/Vfs/Search.antt =====
-- `search` and `_native_search` of vfs.py. The search provider, and the query of a store's native
-- text index, are parameters.
pub mod Permitted
pub mod Builtin
use ai_vfs.Base.{
  ℕ, zero, suc, ◌+◌, Bool, true, false, not, ◌&&◌, ◌||◌, Option, none, some, List, [], ◌∷◌, Text,
  codes, text_eq, map, ltb, if◌then◌else◌,
}
use ai_vfs.Models.{
  FileMeta, VersionMeta, SearchType, glob, find, regex, fulltext, semantic, SearchArtifact,
  ArtifactDict, artifact_dict, malformed, is_usable,
}
use ai_vfs.Errors.{
  Result, ok, err, value_error, search_type_unsupported, reindex_required, index_unavailable,
}
use ai_vfs.Exec.{pure, raise, lift, guard, ◌>>=◌, ◌>>◌}
use ai_vfs.Paths.Canonical.{require_canonical}
use ai_vfs.Store.Files.{list_dir}
use ai_vfs.Store.Versions.{get_version}
use ai_vfs.Store.TextIndex.{NativeTextSearch, get_artifact}
use ai_vfs.World.{World, Io, Setup, operation}
use ai_vfs.Search.{
  MatchMode, FindPredicates, SearchMetaEntry, SearchResult, SearchRequest, max_content_reads,
}
use ai_vfs.Search.Lines.{term_count}
use ai_vfs.Search.Reader.{Reading, Search}
use ai_vfs.Vfs.Access.{readable}

-- `_MAX_FULLTEXT_TERMS`
abbrev pub max_fulltext_terms : ℕ
max_fulltext_terms = 128

-- What a search is served by: `SearchProvider`, and `search_text` of `NativeTextSearch`.
pub record SearchProvider : Type 0 where
  pub provider_search : SearchRequest → Search (List SearchResult)
  pub provider_index : Text → Text → FileMeta → Io (Option SearchArtifact)
  pub search_text : NativeTextSearch → SearchRequest → List Text → Search (List SearchResult)

abbrev pub is_supported : SearchType → Bool
is_supported semantic = false
is_supported _ = true

abbrev pub is_fulltext : SearchType → Bool
is_fulltext fulltext = true
is_fulltext _ = false

-- The entry of a file, unless it has no version or its latest version is a tombstone.
abbrev pub with_entry : FileMeta → Option VersionMeta → List SearchMetaEntry → List SearchMetaEntry
with_entry f none rest = rest
with_entry f (some v) rest =
    if v.is_tombstone
    then rest
    else record {
      version_id = v.id;
      path = f.path;
      content_hash = v.content_hash;
      size = v.size;
      updated_at = f.updated_at;
      is_deleted = f.is_deleted;
      search_meta = v.search_meta;
    }
      ∷ rest

-- The loop that builds the entries, one query for each file.
unfoldable pub entries_of : Text → List FileMeta → Io (List SearchMetaEntry)
entries_of ns [] = pure []
entries_of ns (f ∷ fs) = do
  v ← operation (get_version ns f.path none)
  rest ← entries_of ns fs
  pure (with_entry f v rest)

-- What `_native_search` decides of an entry.
pub data Freshness : Type 0 where
  fresh decided straggler : Freshness

unfoldable pub artifact_freshness :
    NativeTextSearch → SearchMetaEntry → Option ArtifactDict → Freshness
unfolding text_eq is_usable
artifact_freshness nts e none = straggler
artifact_freshness nts e (some malformed) = straggler
artifact_freshness nts e (some (artifact_dict a)) =
    let identity_current =
      text_eq a.content_hash e.content_hash && text_eq a.params_hash nts.params_hash in
    if identity_current
      && (text_eq a.status (codes "unsupported") || text_eq a.status (codes "failed"))
    then decided
    else if is_usable a e.content_hash nts.params_hash
    then fresh
    else straggler

unfoldable pub freshness : NativeTextSearch → SearchMetaEntry → Freshness
unfolding artifact_freshness get_artifact
freshness nts e = artifact_freshness nts e (get_artifact nts.provider_key e.search_meta)

unfoldable pub fresh_entries : NativeTextSearch → List SearchMetaEntry → List SearchMetaEntry
fresh_entries nts [] = []
fresh_entries nts (e ∷ es) =
    let rest = fresh_entries nts es in
    elim (freshness nts e) [ fresh ↦ e ∷ rest | decided ↦ rest | straggler ↦ rest ]

unfoldable pub straggler_count : NativeTextSearch → List SearchMetaEntry → ℕ
straggler_count nts [] = 0
straggler_count nts (e ∷ es) =
    let rest = straggler_count nts es in
    elim (freshness nts e) [ fresh ↦ rest | decided ↦ rest | straggler ↦ suc rest ]

-- `except Exception as exc: raise IndexUnavailableError`
abbrev pub or_unavailable : {A : Type 0} → Result A → Result A
or_unavailable (ok a) = ok a
or_unavailable (err e) = err index_unavailable

module _ (P : SearchProvider) where
  unfoldable pub native_search :
      NativeTextSearch → List SearchMetaEntry → SearchRequest → Search (List SearchResult)
  unfolding straggler_count fresh_entries
  native_search nts entries request =
      let found = fresh_entries nts entries in
      elim (straggler_count nts entries) [
        | suc n ↦ raise reindex_required
        | zero ↦ λ r.
            let (a, r') =
              P.search_text nts (record request { search_metas = found })
                (map (λ e. e.version_id) found) r in
            (or_unavailable a, r')
      ]

  abbrev pub search_natively :
      Option NativeTextSearch
      → Bool
      → List SearchMetaEntry
      → SearchRequest
      → Search (List SearchResult)
  search_natively (some nts) whole entries request = native_search nts entries request
  search_natively none true entries request = raise search_type_unsupported
  search_natively none false entries request = P.provider_search request

  -- The dispatch by search type and capability.
  abbrev pub dispatch :
      SearchType
      → Option NativeTextSearch
      → List SearchMetaEntry
      → SearchRequest
      → Search (List SearchResult)
  dispatch glob nts entries request = P.provider_search request
  dispatch find nts entries request = P.provider_search request
  dispatch fulltext nts entries request = search_natively nts true entries request
  dispatch regex nts entries request = search_natively nts false entries request
  dispatch semantic nts entries request = search_natively nts false entries request

  -- A search with a reader that has done no reads.
  abbrev pub with_reader : Search (List SearchResult) → Io (List SearchResult)
  with_reader m w = let (a, r) = m (record { world = w; reads_done = 0 }) in (a, r.world)

  unfoldable pub search :
      Setup
      → Text
      → Text
      → Text
      → SearchType
      → Text
      → Option FindPredicates
      → MatchMode
      → Io (List SearchResult)
  unfolding term_count
  search S ns query scope search_type principal find_predicates match_mode = do
    lift (require_canonical scope)
    guard (is_supported search_type) value_error
    guard (not (is_fulltext search_type && ltb max_fulltext_terms (term_count false query)))
        value_error
    all_files ← operation (list_dir S.like ns scope true)
    pruned_files ← readable ns principal all_files
    entries ← entries_of ns pruned_files
    with_reader (
        dispatch search_type S.native_text_search entries (record {
          query = query;
          scope = scope;
          search_type = search_type;
          search_metas = entries;
          read_content = record { entries = entries; max_reads = max_content_reads };
          find_predicates = find_predicates;
          match_mode = match_mode;
        }))
