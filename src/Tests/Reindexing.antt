-- ===== src/Tests/Reindexing.antt =====
-- `reindex` on the stored file, with the store's text index.
use ai_vfs.Base.{
  ℕ, ◌≡◌, ◌≢◌, refl, sym, ◌∙◌, ap, some, none, Text, codes, Bool-cases, inl, inr, select,
}
use ai_vfs.Models.{VersionMeta, regex, fulltext}
use ai_vfs.Errors.{ok, err, reindex_required}
use ai_vfs.Paths.Canonical.{require_canonical}
use ai_vfs.Store.Tables.{Meta}
use ai_vfs.Store.Versions.{is_version_of, find_version, newest_first}
use ai_vfs.Store.TextIndex.{NativeTextSearch}
use ai_vfs.World.{Setup, find_blob, blob_content}
use ai_vfs.Search.{MatchMode}
use ai_vfs.Vfs.Quiet.{alone}
use ai_vfs.Vfs.Search
use ai_vfs.Vfs.Reindex.{reindex}
use ai_vfs.Vfs.Reindex.Rewritten.{latest, IdsDecide, HasBlobs}
use ai_vfs.Vfs.Reindex.Settled.{reindex-search}
use ai_vfs.Tests.Scene.{setup, ns, hi, stored_version, scene, blobs, start}
use ai_vfs.Tests.Sandbox.{provider}

abbrev index : NativeTextSearch
index = record { provider_key = codes "vfs.sqlite_fts5"; params_hash = codes "p1" }

abbrev indexed : Setup
indexed = record setup { native_text_search = some index }

only_version : (p : Text) (v : VersionMeta) → latest ns p scene ≡ some v → stored_version ≡ v
unfolding find_version newest_first
only_version p v e = elim (Bool-cases (is_version_of ns p stored_version)) [
  | inl q ↦ cc (rw (find_version, newest_first, select, q) at e)
  | inr q ↦ cc (rw (find_version, newest_first, select, q) at e)
]

scene-IdsDecide : IdsDecide ns scene
scene-IdsDecide = record {
  same_content = λ p q u v eu ev ids.
      ap (λ x. x.content_hash) (sym (only_version p u eu) ∙ only_version q v ev);
}

scene-HasBlobs : HasBlobs ns blobs scene
unfolding find_blob
scene-HasBlobs = record {
  stored =
      λ p v e live. (hi, ap (λ x. blob_content x.content_hash blobs) (sym (only_version p v e)));
}

is_root : require_canonical (codes "/") ≡ ok tt
unfolding require_canonical
is_root = refl

reindex-search_example :
    (n : ℕ) × (m' : Meta) × (time : ℕ) × (reindex provider indexed ns (codes "/") start
      ≡ (ok n, alone m' blobs 0 time))
    × ((query principal : Text) (mode : MatchMode)
        → ((Search.search provider indexed ns query
              (codes "/")
              regex
              principal
              none
              mode
              (alone m' blobs 0 time)).0
            ≢ err reindex_required)
          × ((Search.search provider indexed ns query
                (codes "/")
                fulltext
                principal
                none
                mode
                (alone m' blobs 0 time)).0
              ≢ err reindex_required))
reindex-search_example =
    reindex-search provider indexed index ns (codes "/") scene blobs 0 0 refl is_root
      scene-IdsDecide scene-HasBlobs
