-- ===== src/Gc/Collect.antt =====
-- `GarbageCollector` of src/vfs/gc.py and `run_gc` of src/vfs/vfs.py.
use ai_vfs.Base.{
  ℕ, ◌+◌, Bool, true, false, ◌&&◌, Option, none, some, List, [], ◌∷◌, ◌++◌, map, Text, text_eq, any,
  length, leb, if◌then◌else◌,
}
use ai_vfs.Models.{VersionMeta, RetentionTier, RetentionPolicy, GcResult}
use ai_vfs.Exec.{pure, ◌>>=◌, ◌>>◌}
use ai_vfs.Store.Tables.{Sql}
use ai_vfs.Store.Versions.{delete_versions, has_version_references}
use ai_vfs.Store.TextIndex.{NativeTextSearch, delete_text_artifacts}
use ai_vfs.Store.Retention.{list_reclaimable_versions, iter_versions_for_gc}
use ai_vfs.World.{Io, Setup, operation, interleave, blob_delete, read_clock}
use ai_vfs.Errors.{ok}
use ai_vfs.Vfs.Audit.{audit_gc_run}
use ai_vfs.Gc.Tiers.{evaluate_tier_retention, id_of}

-- `if ids: await self._meta.delete_versions(ids)`
unfoldable pub delete_if_any : List Text → Io (Unit {0})
delete_if_any [] = pure tt
delete_if_any (i ∷ ids) = operation (delete_versions (i ∷ ids))

unfoldable pub version_gc : ℕ → Option Text → Io ℕ
version_gc max_recent ns = do
  reclaimable ← operation (
      list_reclaimable_versions
        (record {
          max_recent_versions = max_recent;
          tiers = [];
          keep_first_version = true;
          keep_current_version = true;
        })
        ns)
  delete_if_any (map id_of reclaimable)
  pure (length (map id_of reclaimable))

-- `max(versions, key=lambda v: v.version_number)`: the first of the largest.
unfoldable pub newest : VersionMeta → List VersionMeta → VersionMeta
newest v [] = v
newest v (w ∷ ws) = if leb w.version_number v.version_number then newest v ws else newest w ws

-- `{(v.namespace_id, v.file_path) for v in all_versions}`
unfoldable pub has_key : Text → Text → List (Text × Text) → Bool
unfolding text_eq any
has_key ns path = any (λ k. text_eq k.0 ns && text_eq k.1 path)

unfoldable pub file_keys : List VersionMeta → List (Text × Text)
unfolding has_key
file_keys [] = []
file_keys (v ∷ vs) =
    let rest = file_keys vs in
    if has_key v.namespace_id v.file_path rest then rest else (v.namespace_id, v.file_path) ∷ rest

abbrev pub reclaimable_ids : RetentionPolicy → ℕ → List VersionMeta → List Text
reclaimable_ids policy now [] = []
reclaimable_ids policy now (v ∷ vs) =
    evaluate_tier_retention (v ∷ vs) policy now (some (newest v vs).id)

-- The loop over the files.
unfoldable pub collect_ids : RetentionPolicy → ℕ → List (Text × Text) → Io (List Text)
collect_ids policy now [] = pure []
collect_ids policy now ((ns, path) ∷ keys) = do
  versions ← operation (iter_versions_for_gc ns path)
  rest ← collect_ids policy now keys
  pure (reclaimable_ids policy now versions ++ rest)

unfoldable pub tier_version_gc : Setup → Option Text → RetentionPolicy → Io ℕ
tier_version_gc S ns policy = do
  now ← read_clock S
  all_versions ← operation (
      list_reclaimable_versions
        (record {
          max_recent_versions = 0;
          tiers = [];
          keep_first_version = false;
          keep_current_version = false;
        })
        ns)
  ids ← collect_ids policy now (file_keys all_versions)
  delete_if_any ids
  pure (length ids)

-- The transaction of `_blob_gc` for one hash: whether it is unreferenced; then its text artifacts
-- are gone.
unfoldable pub sweep_artifacts : Option NativeTextSearch → Text → Sql (Unit {0})
unfolding delete_text_artifacts
sweep_artifacts none h = pure tt
sweep_artifacts (some nts) h = delete_text_artifacts nts (h ∷ []) []

unfoldable pub claim_orphan : Option NativeTextSearch → Text → Sql Bool
unfolding sweep_artifacts has_version_references
claim_orphan nts h = do
  referenced ← has_version_references h
  elim referenced [ true ↦ pure false | false ↦ do sweep_artifacts nts h; pure true ]

-- `async for content_hash in self._blob.list_hashes()`, from the hashes that are listed.
unfoldable pub sweep : Option NativeTextSearch → List Text → ℕ → Io ℕ
sweep nts [] count = pure count
sweep nts (h ∷ hs) count = do
  orphan ← operation (claim_orphan nts h)
  elim orphan [ true ↦ do blob_delete h; sweep nts hs (count + 1) | false ↦ sweep nts hs count ]

abbrev pub hash_of : Text × Text → Text
hash_of (h, d) = h

unfoldable pub list_hashes : Io (List Text)
unfolding interleave
list_hashes w = let w' = interleave w in (ok (map hash_of w'.stores.blobs), w')

unfoldable pub blob_gc : Option NativeTextSearch → Io ℕ
blob_gc nts = do hashes ← list_hashes; sweep nts hashes 0

-- `run`; no tiers in the configuration is `None` or an empty list.
abbrev pub collect_versions : Setup → ℕ → List RetentionTier → Option Text → Io ℕ
collect_versions S max_recent [] ns = version_gc max_recent ns
collect_versions S max_recent (t ∷ ts) ns = tier_version_gc S ns (record {
  max_recent_versions = max_recent;
  tiers = t ∷ ts;
  keep_first_version = true;
  keep_current_version = true;
})

unfoldable pub run_gc : Setup → ℕ → List RetentionTier → Option Text → Io GcResult
run_gc S max_recent tiers ns = do
  versions_reclaimed ← collect_versions S max_recent tiers ns
  blobs_reclaimed ← blob_gc S.native_text_search
  audit_gc_run S ns versions_reclaimed blobs_reclaimed
  pure (record { versions_reclaimed = versions_reclaimed; blobs_reclaimed = blobs_reclaimed })

unfoldable pub sweep_retired_text_params : Option NativeTextSearch → List Text → Io (Unit {0})
sweep_retired_text_params none retired = pure tt
sweep_retired_text_params (some nts) retired = operation (delete_text_artifacts nts [] retired)
