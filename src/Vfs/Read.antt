-- ===== src/Vfs/Read.antt =====
-- `read`, `delete` and `rollback` of vfs.py.
pub mod Laws
use ai_vfs.Base.{ℕ, ◌+◌, true, false, Option, none, some, [], Text, codes, if◌then◌else◌}
use ai_vfs.Models.{VersionMeta}
use ai_vfs.Errors.{not_found}
use ai_vfs.Exec.{pure, raise, lift, ◌>>=◌, ◌>>◌}
use ai_vfs.Paths.Canonical.{require_canonical}
use ai_vfs.Store.Files.{get_file}
use ai_vfs.Store.Versions.{get_version, put_version}
use ai_vfs.World.{Io, Setup, operation, blob_get, draw_id, read_clock}
use ai_vfs.Vfs.Audit.{audit_delete, audit_rollback}
use ai_vfs.Vfs.Access.{check_perm, some_or_not_found}
use ai_vfs.Vfs.Write.{next_version_number}

-- `if ver is None or ver.is_tombstone: raise NotFoundError`
abbrev pub live_or_not_found : Option VersionMeta → Io VersionMeta
live_or_not_found none = raise not_found
live_or_not_found (some v) = if v.is_tombstone then raise not_found else pure v

unfoldable pub read : Text → Text → Text → Option ℕ → Io Text
read ns path principal version_number = do
  lift (require_canonical path)
  check_perm principal ns path (codes "read")
  found ← operation (get_version ns path version_number)
  ver ← live_or_not_found found
  blob_get ver.content_hash

abbrev pub tombstone : Text → Text → Text → ℕ → ℕ → Text → VersionMeta
tombstone version_id ns path number now principal = record {
  id = version_id;
  file_path = path;
  namespace_id = ns;
  version_number = number;
  content_hash = [];
  size = 0;
  created_at = now;
  created_by = principal;
  is_tombstone = true;
  search_meta = [];
  parent_version_id = none;
}

-- The version that `rollback` creates: the content and the manifest of the target.
abbrev pub rolled_back : Text → Text → Text → ℕ → ℕ → Text → VersionMeta → VersionMeta
rolled_back version_id ns path number now principal target = record {
  id = version_id;
  file_path = path;
  namespace_id = ns;
  version_number = number;
  content_hash = target.content_hash;
  size = target.size;
  created_at = now;
  created_by = principal;
  is_tombstone = false;
  search_meta = target.search_meta;
  parent_version_id = some target.id;
}

module _ (S : Setup) where
  unfoldable pub delete : Text → Text → Text → Io VersionMeta
  delete ns path principal = do
    lift (require_canonical path)
    check_perm principal ns path (codes "delete")
    found ← operation (get_file ns path)
    existing ← some_or_not_found found
    now ← read_clock S
    version_id ← draw_id S
    let v = tombstone version_id ns path (existing.current_version_number + 1) now principal
    operation (put_version v none)
    audit_delete S ns principal path v.id
    pure v

  unfoldable pub rollback : Text → Text → ℕ → Text → Io VersionMeta
  rollback ns path target_version principal = do
    lift (require_canonical path)
    check_perm principal ns path (codes "write")
    found ← operation (get_version ns path (some target_version))
    target ← some_or_not_found found
    existing ← operation (get_file ns path)
    now ← read_clock S
    version_id ← draw_id S
    let v = rolled_back version_id ns path (next_version_number existing) now principal target
    operation (put_version v none)
    audit_rollback S ns principal path v.id target.id
    pure v
