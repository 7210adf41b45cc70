-- ===== src/Vfs/Added.antt =====
-- What one more version changes: what lookups find, and what is kept.
use ai_vfs.Base.{ℕ, ◌+◌, ◌≡◌, refl, false, none, some, ◌∷◌, Text, find}
use ai_vfs.Models.{VersionMeta}
use ai_vfs.Errors.{ok}
use ai_vfs.Store.Tables.{Meta}
use ai_vfs.Store.Files.{upsert_file, current_number}
use ai_vfs.Store.Versions.{
  pointer, is_version_of, is_version, find_version, newest_first, put_version,
}
use ai_vfs.Store.History.{IsHistory, clash, put_version-fresh}
use ai_vfs.Store.Latest.{find_version-newest}
use ai_vfs.World.{Blobs, operation}
use ai_vfs.Vfs.Quiet.{alone, operation-ok}

-- The version is added, and the pointer of its path shows it.
pub record Added (v : VersionMeta) (m m' : Meta) : Type 0 where
  pub versions : m'.versions ≡ v ∷ m.versions
  pub files : m'.files ≡ upsert_file (pointer v) m.files
  pub permissions : m'.permissions ≡ m.permissions

abbrev pub put : VersionMeta → Meta → Meta
put v m = record m { versions = v ∷ m.versions; files = upsert_file (pointer v) m.files }

pub put-Added : (v : VersionMeta) (m : Meta) → Added v m (put v m)
put-Added v m = record { versions = refl; files = refl; permissions = refl }

-- The store's put in a world where no other task runs.
pub put_version-alone :
    (v : VersionMeta) (m : Meta) (b : Blobs) (ids ticks : ℕ)
    → clash v m ≡ false
    → operation (put_version v none) (alone m b ids ticks) ≡ (ok tt, alone (put v m) b ids ticks)
put_version-alone v m b ids ticks c =
    operation-ok m b ids ticks (put_version v none) tt (put v m) (put_version-fresh v m c)

module _ (v : VersionMeta) (m m' : Meta) (a : Added v m m') where
  pub latest-Added :
      IsHistory m
      → v.version_number ≡ current_number v.namespace_id v.file_path m.files + 1
      → find_version v.namespace_id v.file_path none m'.versions ≡ some v
  latest-Added history e = rw a.versions (find_version-newest v m history e)

  -- No other version of any path is touched.
  pub numbered-Added :
      (ns path : Text) (n : ℕ)
      → is_version ns path n v ≡ false
      → find_version ns path (some n) m'.versions ≡ find_version ns path (some n) m.versions
  unfolding find_version find
  numbered-Added ns path n e = rw a.versions (rw e)

  pub latest_other-Added :
      (ns path : Text)
      → is_version_of ns path v ≡ false
      → find_version ns path none m'.versions ≡ find_version ns path none m.versions
  unfolding find_version newest_first
  latest_other-Added ns path e = rw a.versions (rw e)
