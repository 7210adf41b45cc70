-- ===== src/Execution/FsPort.antt =====
-- src/vfs/execution/fs_port.py: the file system that a sandbox mounts, over a session. Limits and
-- counter are optional there; `execute` gives both.
use ai_vfs.Base.{
  ℕ, Bool, true, false, Option, none, some, List, [], ◌∷◌, Text, length, map, if◌then◌else◌,
}
use ai_vfs.Models.{FileMeta, VersionMeta}
use ai_vfs.Errors.{
  Error, Result, ok, err, not_found, resource_limit_exceeded, unsupported_operation,
}
use ai_vfs.Exec.{pure, raise, guard, ◌>>=◌, ◌>>◌}
use ai_vfs.Store.Versions.{get_version}
use ai_vfs.World.{Setup, operation}
use ai_vfs.Session
use ai_vfs.Session.{Sh, io, resolved, as_directory}
use ai_vfs.Execution.{ResourceLimits, FsStat, check_and_increment}
use ai_vfs.Execution.FsOps.{exceeds, is_oversized}

-- `except NotFoundError`
unfoldable pub is_not_found : Error → Bool
is_not_found not_found = true
is_not_found _ = false

-- `version.size if version is not None else 0`
abbrev pub size_or_zero : Option VersionMeta → ℕ
size_or_zero none = 0
size_or_zero (some v) = v.size

abbrev pub file_stat : FileMeta → Option VersionMeta → FsStat
file_stat f v = record {
  size = size_or_zero v;
  is_dir = false;
  version_number = some f.current_version_number;
}

abbrev pub dir_stat : FsStat
dir_stat = record { size = 0; is_dir = true; version_number = none }

-- `except NotFoundError: return False`
abbrev pub stat_exists : Result FsStat → Result Bool
stat_exists (ok f) = ok true
stat_exists (err e) = if is_not_found e then ok false else err e

-- The limit on reads and the limit on writes, where there are limits at all.
abbrev pub max_read : Option ResourceLimits → Option ℕ
max_read none = none
max_read (some l) = l.max_read_bytes

abbrev pub max_write : Option ResourceLimits → Option ℕ
max_write none = none
max_write (some l) = l.max_write_bytes

-- `if children: return FsStat(…)`, else the error again
abbrev pub dir_or_not_found : List FileMeta → Sh FsStat
dir_or_not_found [] = raise not_found
dir_or_not_found (f ∷ fs) = pure dir_stat

-- `_unsupported`: `symlink`, `readlink`, `chmod`, `utime`
unfoldable pub unsupported : Sh (Unit {0})
unsupported = raise unsupported_operation

module _ (S : Setup) (ns principal : Text) (limits : Option ResourceLimits)
    (counter : Option ℕ) where
  abbrev pub charge_to : Option ℕ → Sh (Unit {0})
  charge_to none = pure tt
  charge_to (some max_operations) = check_and_increment max_operations

  -- `_account`
  unfoldable pub account : Sh (Unit {0})
  account = charge_to counter

  abbrev pub read_size_checked : Option ℕ → Text → Sh (Unit {0})
  read_size_checked none path = pure tt
  read_size_checked (some limit) path = do
    f ← Session.stat ns principal path
    v ← io (operation (get_version f.namespace_id f.path none))
    guard (if is_oversized v (some limit) then false else true) resource_limit_exceeded

  unfoldable pub enforce_read_size : Text → Sh (Unit {0})
  enforce_read_size path = read_size_checked (max_read limits) path

  unfoldable pub enforce_write_size : Text → Sh (Unit {0})
  enforce_write_size content =
      guard (if exceeds (length content) (max_write limits) then false else true)
        resource_limit_exceeded

  unfoldable pub port_read : Text → Sh Text
  unfolding account enforce_read_size
  port_read path = do
    account
    target ← resolved path
    enforce_read_size target
    Session.read ns principal target none

  unfoldable pub port_write : Text → Text → Sh ℕ
  unfolding account enforce_write_size
  port_write path content = do
    account
    enforce_write_size content
    target ← resolved path
    v ← Session.write ns principal S target content none
    pure v.version_number

  unfoldable pub port_list : Text → Sh (List Text)
  unfolding account
  port_list path = do
    account
    target ← resolved path
    files ← Session.list ns principal S (as_directory target) false
    pure (map (λ f. f.path) files)

  -- Not a file: perhaps a prefix of files.
  unfoldable pub stat_directory : Text → Sh FsStat
  stat_directory path = do
    children ← Session.list ns principal S (as_directory path) true
    dir_or_not_found children

  -- The rest of `_stat` behind `session.stat`.
  abbrev pub stat_result : Text → Result FileMeta → Sh FsStat
  stat_result path (ok f) = do
    v ← io (operation (get_version f.namespace_id f.path none))
    pure (file_stat f v)
  stat_result path (err e) = if is_not_found e then stat_directory path else raise e

  -- `_stat`
  unfoldable pub stat_at : Text → Sh FsStat
  stat_at path s = let (r, s') = Session.stat ns principal path s in stat_result path r s'

  unfoldable pub port_stat : Text → Sh FsStat
  unfolding account stat_at
  port_stat path = do account; target ← resolved path; stat_at target

  unfoldable pub port_exists : Text → Sh Bool
  unfolding account stat_at
  port_exists path = do
    account
    target ← resolved path
    λ s. let (r, s') = stat_at target s in (stat_exists r, s')

  unfoldable pub port_delete : Text → Sh (Unit {0})
  unfolding account
  port_delete path = do
    account
    target ← resolved path
    v ← Session.delete ns principal S target
    pure tt

  unfoldable pub port_mkdir : Text → Sh (Unit {0})
  unfolding account
  port_mkdir path = account
