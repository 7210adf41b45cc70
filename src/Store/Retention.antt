-- ===== src/Store/Retention.antt =====
-- The retention queries of sql_metadata.py: `list_reclaimable_versions`, `iter_versions_for_gc`.
use ai_vfs.Base.{
  Bool, true, not, ◌&&◌, ◌||◌, Option, none, some, List, [], ◌∷◌, ◌++◌, Text, text_eq, select, drop,
  sort_desc, length, ◌==◌, if◌then◌else◌, leb, ltb,
}
use ai_vfs.Models.{FileMeta, VersionMeta, RetentionPolicy}
use ai_vfs.Exec.{gets}
use ai_vfs.Store.Tables.{Sql}
use ai_vfs.Store.Versions.{is_version_of}

-- The versions of a file that are no tombstones, newest first.
unfoldable pub live_versions : Text → Text → List VersionMeta → List VersionMeta
unfolding is_version_of select sort_desc
live_versions ns path vs =
    sort_desc (λ v. v.version_number)
      (select (λ v. is_version_of ns path v && not v.is_tombstone) vs)

-- What is past the most recent ones, without the first version where that is kept.
unfoldable pub excess : RetentionPolicy → List VersionMeta → List VersionMeta
unfolding select
excess policy rows =
    if leb (length rows) policy.max_recent_versions
    then []
    else select (λ v. not (policy.keep_first_version && v.version_number == 1))
        (drop policy.max_recent_versions rows)

unfoldable pub reclaimable_of :
    RetentionPolicy → List FileMeta → List VersionMeta → List VersionMeta
unfolding excess live_versions
reclaimable_of policy [] vs = []
reclaimable_of policy (f ∷ fs) vs =
    excess policy (live_versions f.namespace_id f.path vs) ++ reclaimable_of policy fs vs

-- `if namespace_id:`, which an empty text does not pass either
abbrev pub in_namespace : Option Text → FileMeta → Bool
in_namespace none f = true
in_namespace (some []) f = true
in_namespace (some (c ∷ ns)) f = text_eq f.namespace_id (c ∷ ns)

unfoldable pub list_reclaimable_versions : RetentionPolicy → Option Text → Sql (List VersionMeta)
unfolding reclaimable_of select
list_reclaimable_versions policy ns =
    gets (λ m. reclaimable_of policy (select (in_namespace ns) m.files) m.versions)

-- `ORDER BY created_at, version_number`
abbrev pub is_older : VersionMeta → VersionMeta → Bool
is_older v w =
    ltb v.created_at w.created_at
    || (v.created_at == w.created_at && leb v.version_number w.version_number)

unfoldable pub insert_oldest : VersionMeta → List VersionMeta → List VersionMeta
insert_oldest v [] = v ∷ []
insert_oldest v (w ∷ ws) =
    let later = w ∷ insert_oldest v ws in if is_older v w then v ∷ w ∷ ws else later

unfoldable pub oldest_first : List VersionMeta → List VersionMeta
unfolding insert_oldest
oldest_first [] = []
oldest_first (v ∷ vs) = insert_oldest v (oldest_first vs)

unfoldable pub iter_versions_for_gc : Text → Text → Sql (List VersionMeta)
unfolding oldest_first is_version_of select
iter_versions_for_gc ns path =
    gets
      (λ m. oldest_first (select (λ v. is_version_of ns path v && not v.is_tombstone) m.versions))
