-- ===== src/Vfs/Restore.antt =====
-- What `delete` and `rollback` leave in a world where no other task runs.
use ai_vfs.Base.{ℕ, ◌+◌, ◌≡◌, refl, true, false, some, [], ◌∷◌, Text, codes}
use ai_vfs.Models.{FileMeta, VersionMeta, text}
use ai_vfs.Errors.{Result, ok}
use ai_vfs.Paths.Canonical.{require_canonical}
use ai_vfs.Store.Tables.{Meta}
use ai_vfs.Store.Files.{find_file}
use ai_vfs.Store.Versions.{has_id, find_version}
use ai_vfs.Store.Permissions.{allowed}
use ai_vfs.Store.History.{IsHistory}
use ai_vfs.World.{Blobs, Setup, draw_id, read_clock}
use ai_vfs.Vfs.Audit.{audit_delete, audit_rollback}
use ai_vfs.Vfs.Quiet.{
  alone, check_perm_granted, get_file-alone, get_version-alone, audit_event-SameFiles, logged,
  continue-logged,
}
use ai_vfs.Vfs.Added.{Added, put, put_version-alone}
use ai_vfs.Vfs.Write.{next_version_number}
use ai_vfs.Vfs.Write.Laws.{next_is_free}
use ai_vfs.Vfs.Read.{delete, rollback, rolled_back, tombstone}
use ai_vfs.Vfs.Read.Laws.{next_is_free_behind}

module _ (S : Setup) (ns path principal : Text) (m : Meta) (b : Blobs) (ids ticks : ℕ)
    (canonical : require_canonical path ≡ ok tt) (history : IsHistory m)
    (fresh : has_id (S.new_id ids) m.versions ≡ false) where
  -- A deletion adds a tombstone behind the current version.
  pub delete-Added :
      (f : FileMeta)
      → find_file ns path m.files ≡ some f
      → allowed principal ns path (codes "delete") m.permissions ≡ true
      → let v : VersionMeta =
          tombstone
            (S.new_id ids)
            ns
            path
            (f.current_version_number + 1)
            (S.clock ticks)
            principal in
        (r : Result (Unit {0})) × (m' : Meta) × (delete S ns path principal (alone m b ids ticks)
          ≡ (logged r v, alone m' b (ids + 1 + 1) (ticks + 1 + 1)))
        × Added v m m'
  unfolding delete audit_delete draw_id read_clock
  delete-Added f e granted =
      let v =
        tombstone (S.new_id ids) ns path (f.current_version_number + 1) (S.clock ticks) principal in
      let (r, m₂, g, same, logs) =
        audit_event-SameFiles (put v m) b (ids + 1) (ticks + 1) S ns principal (codes "delete")
          (some path) (some (S.new_id ids)) [] in
      let free = next_is_free_behind ns path m f history e in
      (
        r,
        m₂,
        rw
            (
              canonical,
              check_perm_granted m b ids ticks principal ns path (codes "delete") granted,
              get_file-alone m b ids ticks ns path,
              e,
              put_version-alone v m b (ids + 1) (ticks + 1) (rw (fresh, free) refl),
              g,
            )
            (continue-logged r v _),
        record { versions = same.versions; files = same.files; permissions = same.permissions },
      )

  -- The version that a rollback adds.
  abbrev pub restored : VersionMeta → VersionMeta
  restored target =
      rolled_back (S.new_id ids) ns path (next_version_number (find_file ns path m.files))
        (S.clock ticks) principal target

  pub rollback-Added :
      (n : ℕ) (target : VersionMeta)
      → find_version ns path (some n) m.versions ≡ some target
      → allowed principal ns path (codes "write") m.permissions ≡ true
      → (r : Result (Unit {0})) × (m' : Meta) × (rollback S ns path n principal
            (alone m b ids ticks)
          ≡ (logged r (restored target), alone m' b (ids + 1 + 1) (ticks + 1 + 1)))
        × Added (restored target) m m'
  unfolding rollback audit_rollback draw_id read_clock
  rollback-Added n target e granted =
      let v = restored target in
      let (r, m₂, g, same, logs) =
        audit_event-SameFiles (put v m) b (ids + 1) (ticks + 1) S ns principal (codes "rollback")
          (some path) (some (S.new_id ids)) ((codes "target_version_id", text target.id) ∷ []) in
      (
        r,
        m₂,
        rw
            (
              canonical,
              check_perm_granted m b ids ticks principal ns path (codes "write") granted,
              get_version-alone m b ids ticks ns path (some n),
              e,
              get_file-alone m b ids ticks ns path,
              put_version-alone v m b (ids + 1) (ticks + 1)
                  (rw (fresh, next_is_free ns path m history) refl),
              g,
            )
            (continue-logged r v _),
        record { versions = same.versions; files = same.files; permissions = same.permissions },
      )
