-- ===== src/Vfs/Reindex/Settled.antt =====
-- After `reindex` no search of the scope asks for another reindex.
use ai_vfs.Base.{
  ℕ, ◌≡◌, ◌≢◌, refl, ap, sym, ◌∙◌, subst, true, false, ◌&&◌, Option, none, some, List, [], ◌∷◌, ◌⊎◌,
  inl, inr, Text, codes, text_eq, text_eq_complete, All, All-select, select, ltb, Bool-cases,
}
use ai_vfs.Models.{FileMeta, VersionMeta, is_usable, regex, fulltext, SearchType}
use ai_vfs.Vfs.Search.{
  SearchProvider, fresh, decided, freshness, artifact_freshness, straggler_count, with_entry,
  native_search, or_unavailable, dispatch, with_reader, is_supported, is_fulltext,
  max_fulltext_terms,
}
use ai_vfs.Errors.{Result, ok, err, reindex_required}
use ai_vfs.Store.TextIndex.{NativeTextSearch}
use ai_vfs.Search.{SearchMetaEntry, SearchRequest, MatchMode, max_content_reads}
use ai_vfs.Search.Reader.{Reading}
use ai_vfs.Search.Lines.{term_count}
use ai_vfs.Store.Permissions.{allowed}
use ai_vfs.Paths.Canonical.{require_canonical}
use ai_vfs.Store.Tables.{Meta}
use ai_vfs.Store.Files.{is_listed, in_dir}
use ai_vfs.World.{Blobs, Setup}
use ai_vfs.Vfs.Quiet.{alone}
use ai_vfs.Vfs.Search
use ai_vfs.Vfs.Reindex.{reindex}
use ai_vfs.Vfs.Reindex.Laws.{loop}
use ai_vfs.Store.Versions.{find_version}
use ai_vfs.Vfs.Reindex.Rewritten.{IsIndexed, IsSettled, IdsDecide, HasBlobs}
use ai_vfs.Vfs.Search.Permitted.{entries_in, list_dir-alone, readable-alone, entries_of-alone}

abbrev entry_of : FileMeta → VersionMeta → SearchMetaEntry
entry_of f v = record {
  version_id = v.id;
  path = f.path;
  content_hash = v.content_hash;
  size = v.size;
  updated_at = f.updated_at;
  is_deleted = f.is_deleted;
  search_meta = v.search_meta;
}

indexed_freshness :
    (nts : NativeTextSearch) (f : FileMeta) (v : VersionMeta)
    → IsIndexed nts v
    → (freshness nts (entry_of f v) ≡ fresh) ⊎ (freshness nts (entry_of f v) ≡ decided)
unfolding freshness artifact_freshness is_usable text_eq
indexed_freshness nts f v h =
    let a = h.artifact in
    let c = text_eq_complete a.content_hash v.content_hash h.decides.of_content in
    let p = text_eq_complete a.params_hash nts.params_hash h.decides.of_params in
    elim h.decides.with_status [
      | inl s ↦ inl (rw (h.listed, c, p, s) refl)
      | inr s ↦ inr (rw (h.listed, c, p, s) refl)
    ]

entry_counts :
    (nts : NativeTextSearch) (ns : Text) (f : FileMeta) (o : Option VersionMeta)
    (es : List SearchMetaEntry)
    → IsSettled nts o
    → straggler_count nts (with_entry f o es) ≡ straggler_count nts es
unfolding straggler_count
entry_counts nts ns f none es h = refl
entry_counts nts ns f (some v) es h = elim (Bool-cases v.is_tombstone) [
  | inl t ↦ rw t refl
  | inr live ↦ elim (indexed_freshness nts f v (h.indexed v refl live)) [
    | inl e ↦ rw (live, straggler_count, e) refl
    | inr e ↦ rw (live, straggler_count, e) refl
  ]
]

no_straggler :
    (nts : NativeTextSearch) (ns : Text) (vs : List VersionMeta) (fs : List FileMeta)
    → All (λ f. IsSettled nts (find_version ns f.path none vs)) fs
    → straggler_count nts (entries_in ns vs fs) ≡ 0
unfolding straggler_count
no_straggler nts ns vs [] h = refl
no_straggler nts ns vs (f ∷ fs) h =
    entry_counts nts ns f (find_version ns f.path none vs) (entries_in ns vs fs) h.0
    ∙ no_straggler nts ns vs fs h.1

or_unavailable-not_reindex : {A : Type 0} (r : Result A) → or_unavailable r ≢ err reindex_required
or_unavailable-not_reindex (ok a) e = cc e
or_unavailable-not_reindex (err x) e = cc e

native_served :
    (P : SearchProvider) (nts : NativeTextSearch) (es : List SearchMetaEntry) (r : SearchRequest)
    (s : Reading)
    → straggler_count nts es ≡ 0
    → (native_search P nts es r s).0 ≢ err reindex_required
unfolding native_search
native_served P nts es r s none_left e =
    or_unavailable-not_reindex _ (rw (native_search, none_left) at e)

-- The files that a search of the scope by the principal sees.
abbrev seen : Setup → Text → Text → Text → Meta → List FileMeta
seen S ns scope principal m =
    select (λ f. allowed principal ns f.path (codes "read") m.permissions)
      (select (is_listed S.like scope true) (select (in_dir S.like ns scope) m.files))

module _ (P : SearchProvider) (S : Setup) (nts : NativeTextSearch)
    (is_native : S.native_text_search ≡ some nts) (ns scope : Text)
    (canonical : require_canonical scope ≡ ok tt) (m : Meta) (b : Blobs) (ids ticks : ℕ)
    (settled : All
      (λ f. IsSettled nts (find_version ns f.path none m.versions))
      (select (is_listed S.like scope true) (select (in_dir S.like ns scope) m.files)))
    (query principal : Text) (mode : MatchMode) where
  abbrev asked : SearchType → SearchRequest
  asked t = record {
    query = query;
    scope = scope;
    search_type = t;
    search_metas = entries_in ns m.versions (seen S ns scope principal m);
    read_content = record {
      entries = entries_in ns m.versions (seen S ns scope principal m);
      max_reads = max_content_reads;
    };
    find_predicates = none;
    match_mode = mode;
  }

  -- What a search of a supported type is, behind its guards.
  dispatched :
      (t : SearchType)
      → is_supported t ≡ true
      → (is_fulltext t && ltb max_fulltext_terms (term_count false query)) ≡ false
      → Search.search P S ns query scope t principal none mode (alone m b ids ticks)
        ≡ with_reader P
            (dispatch P t S.native_text_search
              (entries_in ns m.versions (seen S ns scope principal m))
              (asked t))
            (alone m b ids ticks)
  unfolding Search.search
  dispatched t supported short =
      rw
        (
          canonical,
          supported,
          short,
          list_dir-alone m b ids ticks S.like ns scope true,
          readable-alone m b ids ticks ns principal
              (select (is_listed S.like scope true) (select (in_dir S.like ns scope) m.files)),
          entries_of-alone m b ids ticks ns (seen S ns scope principal m),
        )
        refl

  no_straggler_left :
      straggler_count nts (entries_in ns m.versions (seen S ns scope principal m)) ≡ 0
  no_straggler_left =
      no_straggler nts ns m.versions _
        (All-select _ (λ f. allowed principal ns f.path (codes "read") m.permissions) _ settled)

  regex_served :
      (Search.search P S ns query scope regex principal none mode (alone m b ids ticks)).0
      ≢ err reindex_required
  regex_served e =
      native_served P nts _ (asked regex) _ no_straggler_left
        (rw is_native at (ap (λ x. x.0) (sym (dispatched regex refl refl)) ∙ e))

  too_long :
      ltb max_fulltext_terms (term_count false query) ≡ true
      → (Search.search P S ns query scope fulltext principal none mode (alone m b ids ticks)).0
        ≢ err reindex_required
  unfolding Search.search
  too_long long e = cc (rw (canonical, long) at e)

  fulltext_served :
      (Search.search P S ns query scope fulltext principal none mode (alone m b ids ticks)).0
      ≢ err reindex_required
  fulltext_served e = elim (Bool-cases (ltb max_fulltext_terms (term_count false query))) [
    | inl long ↦ too_long long e
    | inr short ↦
        native_served P nts _ (asked fulltext) _ no_straggler_left
          (rw is_native at (ap (λ x. x.0) (sym (dispatched fulltext refl short)) ∙ e))
  ]

-- Where no other task runs, on a store with a native text index, for a canonical scope, if the ids of
-- the latest versions are a key and the contents of those that are live are stored: `reindex` returns,
-- and afterwards no regex search and no fulltext search in the scope, by any principal and for any
-- query, raises ReindexRequiredError.
pub reindex-search :
    (P : SearchProvider) (S : Setup) (nts : NativeTextSearch) (ns scope : Text) (m : Meta)
    (b : Blobs) (ids ticks : ℕ)
    → S.native_text_search ≡ some nts
    → require_canonical scope ≡ ok tt
    → IdsDecide ns m
    → HasBlobs ns b m
    → (n : ℕ) × (m' : Meta) × (time : ℕ) × (reindex P S ns scope (alone m b ids ticks)
        ≡ (ok n, alone m' b ids time))
      × ((query principal : Text) (mode : MatchMode)
          → ((Search.search P S ns query scope regex principal none mode (alone m' b ids time)).0
              ≢ err reindex_required)
            × ((Search.search P S ns query scope fulltext principal none mode
                  (alone m' b ids time)).0
                ≢ err reindex_required))
unfolding reindex
reindex-search P S nts ns scope m b ids ticks is_native canonical decide blobs =
    let fs = select (is_listed S.like scope true) (select (in_dir S.like ns scope) m.files) in
    let l = loop P S nts b is_native ns fs m ids ticks decide blobs in
    (
      l.count,
      l.tables,
      l.time,
      rw (canonical, list_dir-alone m b ids ticks S.like ns scope true, l.runs) refl,
      λ query principal mode. (
        regex_served P S nts is_native ns scope canonical l.tables b ids l.time
            (subst
              (λ files.
                All (λ f. IsSettled nts (find_version ns f.path none l.tables.versions))
                  (select (is_listed S.like scope true) (select (in_dir S.like ns scope) files)))
              (sym l.files) l.settled)
            query principal mode,
        fulltext_served P S nts is_native ns scope canonical l.tables b ids l.time
            (subst
              (λ files.
                All (λ f. IsSettled nts (find_version ns f.path none l.tables.versions))
                  (select (is_listed S.like scope true) (select (in_dir S.like ns scope) files)))
              (sym l.files) l.settled)
            query principal mode,
      ),
    )
