-- ===== src/Vfs/Search/Permitted.antt =====
-- A search answers only files that the principal may read.
use ai_vfs.Base.{
  ℕ, zero, suc, ◌≡◌, refl, subst, Bool, true, false, ◌&&◌, Option, none, some, List, [], ◌∷◌, Text,
  codes, text_eq, text_eq_sound, any, All, map, select, ltb, Bool-cases, inl, inr, arith,
}
use ai_vfs.Models.{FileMeta, VersionMeta, SearchType, glob, find, regex, fulltext, semantic}
use ai_vfs.Errors.{Result, Result-cases, ok, err, reindex_required}
use ai_vfs.Exec.{raise}
use ai_vfs.Exec.Answers.{Answers}
use ai_vfs.Paths.Canonical.{require_canonical}
use ai_vfs.Search.Lines.{term_count}
use ai_vfs.Store.Tables.{Meta}
use ai_vfs.Paths.Like.{LikeOperator}
use ai_vfs.Store.Files.{list_dir, is_listed, in_dir}
use ai_vfs.Store.Permissions.{allowed, check_permission}
use ai_vfs.Store.Versions.{find_version}
use ai_vfs.Store.TextIndex.{NativeTextSearch}
use ai_vfs.World.{Blobs, Setup, operation}
use ai_vfs.Vfs.Quiet.{alone, get_version-alone}
use ai_vfs.Search.{SearchMetaEntry, SearchResult, SearchRequest, MatchMode, FindPredicates}
use ai_vfs.Search.Default.Laws.{Shows, All-weaken}
use ai_vfs.Vfs.Access.{readable}
use ai_vfs.Vfs.Search
use ai_vfs.Vfs.Search.{
  SearchProvider, Freshness, fresh, decided, straggler, freshness, fresh_entries, straggler_count,
  or_unavailable, with_entry, entries_of, native_search, search_natively, dispatch, with_reader,
  is_supported, is_fulltext, max_fulltext_terms,
}

-- A provider, and the text index of a store, answer entries of their request only.
pub record AnswersEntries (P : SearchProvider) : Type 0 where
  pub by_provider : (r : SearchRequest) → Answers (All (Shows r.search_metas)) (P.provider_search r)
  pub by_index :
      (nts : NativeTextSearch) (r : SearchRequest) (ids : List Text)
      → Answers (All (Shows r.search_metas)) (P.search_text nts r ids)

-- The entries of the given files in a world where no other task runs.
abbrev pub entries_in : Text → List VersionMeta → List FileMeta → List SearchMetaEntry
entries_in ns vs [] = []
entries_in ns vs (f ∷ fs) = with_entry f (find_version ns f.path none vs) (entries_in ns vs fs)

module _ (m : Meta) (b : Blobs) (ids ticks : ℕ) where
  pub list_dir-alone :
      (L : LikeOperator) (ns scope : Text) (recursive : Bool)
      → operation (list_dir L ns scope recursive) (alone m b ids ticks) ≡ (
        ok (select (is_listed L scope recursive) (select (in_dir L ns scope) m.files)),
        alone m b ids ticks,
      )
  unfolding operation list_dir
  list_dir-alone L ns scope recursive = refl

  check_permission-alone :
      (principal ns path op : Text)
      → operation (check_permission principal ns path op) (alone m b ids ticks)
        ≡ (ok (allowed principal ns path op m.permissions), alone m b ids ticks)
  unfolding operation check_permission
  check_permission-alone principal ns path op = refl

  -- The files that the principal may read.
  pub readable-alone :
      (ns principal : Text) (fs : List FileMeta)
      → readable ns principal fs (alone m b ids ticks) ≡ (
        ok (select (λ f. allowed principal ns f.path (codes "read") m.permissions) fs),
        alone m b ids ticks,
      )
  unfolding readable select
  readable-alone ns principal [] = refl
  readable-alone ns principal (f ∷ fs) =
      rw (check_permission-alone principal ns f.path (codes "read"), readable-alone ns principal fs)
        refl

  pub entries_of-alone :
      (ns : Text) (fs : List FileMeta)
      → entries_of ns fs (alone m b ids ticks)
        ≡ (ok (entries_in ns m.versions fs), alone m b ids ticks)
  unfolding entries_of
  entries_of-alone ns [] = refl
  entries_of-alone ns (f ∷ fs) =
      rw (get_version-alone m b ids ticks ns f.path none, entries_of-alone ns fs) refl

-- The entries of a list of readable files are readable.
entries_in-allowed :
    (Q : Text → Type 0) (ns : Text) (vs : List VersionMeta) (fs : List FileMeta)
    → All (λ f. Q f.path) fs
    → All (λ e. Q e.path) (entries_in ns vs fs)
entries_in-allowed Q ns vs [] h = tt
entries_in-allowed Q ns vs (f ∷ fs) h =
    entry (find_version ns f.path none vs) (entries_in-allowed Q ns vs fs h.1)
  where
    entry :
        (o : Option VersionMeta)
        → All (λ e. Q e.path) (entries_in ns vs fs)
        → All (λ e. Q e.path) (with_entry f o (entries_in ns vs fs))
    entry none rest = rest
    entry (some v) rest = elim (Bool-cases v.is_tombstone) [
      | inl t ↦ rw t rest
      | inr t ↦ rw t (h.0, rest)
    ]

select-All : {A : Type 0} (p : A → Bool) (xs : List A) → All (λ x. p x ≡ true) (select p xs)
unfolding select
select-All p [] = tt
select-All p (x ∷ xs) = elim (Bool-cases (p x)) [
  | inl e ↦ rw e (e, select-All p xs)
  | inr e ↦ rw e (select-All p xs)
]

-- A result at the path of an entry shares what holds of the entries' paths.
Shows-transfer :
    (Q : Text → Type 0) (es : List SearchMetaEntry) (r : SearchResult)
    → All (λ e. Q e.path) es
    → Shows es r
    → Q r.path
unfolding any
Shows-transfer Q [] r h shown = absurd (ground arith)
Shows-transfer Q (e ∷ es) r h shown = elim (Bool-cases (text_eq e.path r.path)) [
  | inl q ↦ subst Q (text_eq_sound e.path r.path q) h.0
  | inr q ↦ Shows-transfer Q es r h.1 (rw q at shown)
]

fresh-Shows :
    (nts : NativeTextSearch) (es : List SearchMetaEntry) (r : SearchResult)
    → Shows (fresh_entries nts es) r
    → Shows es r
unfolding fresh_entries any
fresh-Shows nts [] r h = h
fresh-Shows nts (e ∷ es) r h = kept (freshness nts e) (fresh-Shows nts es r) h
  where
    kept :
        (c : Freshness)
        → (Shows (fresh_entries nts es) r → Shows es r)
        → Shows
            (elim c [
              | fresh ↦ e ∷ fresh_entries nts es
              | decided ↦ fresh_entries nts es
              | straggler ↦ fresh_entries nts es
            ])
            r
        → Shows (e ∷ es) r
    kept fresh rest h = ground (arith, rest)
    kept decided rest h = ground (arith, rest)
    kept straggler rest h = ground (arith, rest)

or_unavailable_ok : {A : Type 0} (r : Result A) (a : A) → or_unavailable r ≡ ok a → r ≡ ok a
or_unavailable_ok (ok x) a e = e
or_unavailable_ok (err x) a e = cc e

module _ (P : SearchProvider) (faithful : AnswersEntries P) where
  native-Shows :
      (nts : NativeTextSearch) (es : List SearchMetaEntry) (r : SearchRequest)
      → Answers (All (Shows es)) (native_search P nts es r)
  unfolding native_search
  native-Shows nts es r = by_count (straggler_count nts es)
    where
      found : (a : List SearchResult) → All (Shows (fresh_entries nts es)) a → All (Shows es) a
      found a h = All-weaken (Shows (fresh_entries nts es)) (Shows es) a (fresh-Shows nts es) h

      by_count :
          (n : ℕ)
          → Answers (All (Shows es)) (elim n [
            | suc k ↦ raise reindex_required
            | zero ↦ λ s.
                let (a, s') =
                  P.search_text nts
                    (record r { search_metas = fresh_entries nts es })
                    (map (λ e. e.version_id) (fresh_entries nts es))
                    s in
                (or_unavailable a, s')
          ])
      by_count zero = record {
        answered = λ s a e. found a (
            (faithful.by_index nts (record r { search_metas = fresh_entries nts es })
                (map (λ e. e.version_id) (fresh_entries nts es))).answered
              s a (or_unavailable_ok _ a e));
      }
      by_count (suc n) = record { answered = λ s a e. cc e }

  natively-Shows :
      (o : Option NativeTextSearch) (whole : Bool) (es : List SearchMetaEntry) (r : SearchRequest)
      → r.search_metas ≡ es
      → Answers (All (Shows es)) (search_natively P o whole es r)
  natively-Shows (some nts) whole es r q = native-Shows nts es r
  natively-Shows none true es r q = record { answered = λ s a e. cc e }
  natively-Shows none false es r q =
      subst (λ x. Answers (All (Shows x)) (P.provider_search r)) q (faithful.by_provider r)

  dispatch-Shows :
      (t : SearchType) (o : Option NativeTextSearch) (es : List SearchMetaEntry) (r : SearchRequest)
      → r.search_metas ≡ es
      → Answers (All (Shows es)) (dispatch P t o es r)
  dispatch-Shows glob o es r q =
      subst (λ x. Answers (All (Shows x)) (P.provider_search r)) q (faithful.by_provider r)
  dispatch-Shows find o es r q =
      subst (λ x. Answers (All (Shows x)) (P.provider_search r)) q (faithful.by_provider r)
  dispatch-Shows regex o es r q = natively-Shows o false es r q
  dispatch-Shows fulltext o es r q = natively-Shows o true es r q
  dispatch-Shows semantic o es r q = natively-Shows o false es r q

  -- What a search shows may be read, if the provider and the index answer so.
  pub shown-allowed :
      (S : Setup) (ns query scope principal : Text) (t : SearchType)
      (predicates : Option FindPredicates) (mode : MatchMode) (m : Meta) (b : Blobs) (ids ticks : ℕ)
      (rs : List SearchResult)
      → (Search.search P S ns query scope t principal predicates mode (alone m b ids ticks)).0
        ≡ ok rs
      → All (λ r. allowed principal ns r.path (codes "read") m.permissions ≡ true) rs
  unfolding Search.search
  shown-allowed S ns query scope principal t predicates mode m b ids ticks rs e =
      elim (Result-cases (require_canonical scope)) [
        | inr (x, q) ↦ cc (rw q at e)
        | inl (u, q) ↦ elim (Bool-cases (is_supported t)) [
          | inr c ↦ cc (rw (q, c) at e)
          | inl c ↦
              elim (Bool-cases (is_fulltext t && ltb max_fulltext_terms (term_count false query))) [
                | inl d ↦ cc (rw (q, c, d) at e)
                | inr d ↦
                    let files : List FileMeta =
                      select (is_listed S.like scope true)
                        (select (in_dir S.like ns scope) m.files) in
                    let may_read : Text → Bool =
                      λ path. allowed principal ns path (codes "read") m.permissions in
                    let visible : List FileMeta = select (λ f. may_read f.path) files in
                    let es = entries_in ns m.versions visible in
                    All-weaken (Shows es) (λ r. may_read r.path ≡ true) rs
                      (λ r h.
                        Shows-transfer (λ path. may_read path ≡ true) es r
                          (entries_in-allowed (λ path. may_read path ≡ true) ns m.versions visible
                            (select-All (λ f. may_read f.path) files))
                          h)
                      ((dispatch-Shows t S.native_text_search es _ refl).answered
                        (record { world = alone m b ids ticks; reads_done = 0 }) rs
                        (rw
                          (
                            q,
                            c,
                            d,
                            list_dir-alone m b ids ticks S.like ns scope true,
                            readable-alone m b ids ticks ns principal files,
                            entries_of-alone m b ids ticks ns visible,
                          )
                          at e))
              ]
        ]
      ]
