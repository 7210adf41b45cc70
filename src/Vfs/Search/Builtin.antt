-- ===== src/Vfs/Search/Builtin.antt =====
-- `DefaultSearchProvider` of src/vfs/search/default.py as the provider of a VFS, and the text index of
-- sqlite_metadata.py as that of its store.
use ai_vfs.Base.{ℕ, ◌≡◌, ◌∙◌, Bool, true, none, Option, List, [], Text, codes, All, inl, inr}
use ai_vfs.Models.{FileMeta, SearchArtifact, SearchType}
use ai_vfs.Errors.{ok, Result-cases}
use ai_vfs.Exec.{pure}
use ai_vfs.Exec.Answers.{Answers}
use ai_vfs.Store.Tables.{Meta, Sql}
use ai_vfs.Store.Permissions.{allowed}
use ai_vfs.World.{Io, Setup, Blobs, operation, interleave}
use ai_vfs.Search.{SearchResult, SearchRequest, MatchMode, FindPredicates}
use ai_vfs.Search.Reader.{step}
use ai_vfs.Search.Default.{Patterns, default_search}
use ai_vfs.Search.Default.Laws.{Shows}
use ai_vfs.Search.Sqlite
use ai_vfs.Search.Sqlite.{Fts}
use ai_vfs.Search.Sqlite.Shown.{search_text-Shows}
use ai_vfs.Vfs.Quiet.{alone}
use ai_vfs.Vfs.Search
use ai_vfs.Vfs.Search.{SearchProvider}
use ai_vfs.Vfs.Search.Permitted.{shown-allowed}

-- `DefaultSearchProvider.index`: no artifact
unfoldable pub default_index : Text → Text → FileMeta → Io (Option SearchArtifact)
default_index path content f = pure none

-- The text index of a SQLite store behind a provider: `search_text` runs as one operation.
abbrev pub with_sqlite : Fts → (Text → Option (Text → Bool)) → SearchProvider → SearchProvider
with_sqlite F compile P = record P {
  search_text = λ nts r ids. step (operation (Sqlite.search_text F nts compile r));
}

-- The built-in provider over it.
abbrev pub sqlite_provider : Fts → Patterns → SearchProvider
sqlite_provider F P = with_sqlite F P.compile (record {
  provider_search = default_search P;
  provider_index = default_index;
  search_text = λ nts r ids. pure [];
})

operation-Answers :
    {A : Type 0} (Q : A → Type 0) (sql : Sql A) → Answers Q sql → Answers Q (step (operation sql))
unfolding operation interleave
operation-Answers Q sql h = record {
  answered = λ r a e.
      let m = (interleave r.world).stores.meta in
      elim (Result-cases (sql m).0) [
        | inl (b, q) ↦ h.answered m a (q ∙ (rw q at e))
        | inr (x, q) ↦ cc (rw q at e)
      ];
}

-- Where no other task runs, on a store with the SQLite text index or without one, and where the
-- provider answers entries of its request only, as the built-in one does: every path that a search
-- returns is one that the principal may read, whatever the query, the scope and the type of the
-- search, and whatever FTS5 answers.
pub search-permitted :
    (F : Fts) (compile : Text → Option (Text → Bool)) (P : SearchProvider)
    → ((r : SearchRequest) → Answers (All (Shows r.search_metas)) (P.provider_search r))
    → (S : Setup) (ns query scope principal : Text) (t : SearchType)
      (predicates : Option FindPredicates) (mode : MatchMode) (m : Meta) (b : Blobs) (ids ticks : ℕ)
      (rs : List SearchResult)
    → (Search.search
        (with_sqlite F compile P)
        S
        ns
        query
        scope
        t
        principal
        predicates
        mode
        (alone m b ids ticks)).0
      ≡ ok rs
    → All (λ r. allowed principal ns r.path (codes "read") m.permissions ≡ true) rs
search-permitted F compile P by_provider = shown-allowed (with_sqlite F compile P) (record {
  by_provider = by_provider;
  by_index = λ nts r ids.
      operation-Answers (All (Shows r.search_metas)) (Sqlite.search_text F nts compile r)
        (search_text-Shows F nts compile r);
})
