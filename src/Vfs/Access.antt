-- ===== src/Vfs/Access.antt =====
-- `_check_perm`, `stat`, `list`, `versions` of vfs.py.
use ai_vfs.Base.{ℕ, Bool, Option, none, some, List, [], ◌∷◌, Text, codes, if◌then◌else◌}
use ai_vfs.Models.{FileMeta, VersionMeta}
use ai_vfs.Errors.{permission_denied, not_found}
use ai_vfs.Exec.{pure, raise, lift, guard, ◌>>=◌, ◌>>◌}
use ai_vfs.Paths.Canonical.{require_canonical}
use ai_vfs.Store.Files.{get_file, list_dir}
use ai_vfs.Store.Versions.{list_versions}
use ai_vfs.Store.Permissions.{check_permission}
use ai_vfs.World.{Io, Setup, operation}

unfoldable pub check_perm : Text → Text → Text → Text → Io (Unit {0})
unfolding operation check_permission
check_perm principal ns path op = do
  is_allowed ← operation (check_permission principal ns path op)
  guard is_allowed permission_denied

-- `if x is None: raise NotFoundError`
abbrev pub some_or_not_found : {A : Type 0} → Option A → Io A
some_or_not_found none = raise not_found
some_or_not_found (some a) = pure a

unfoldable pub stat : Text → Text → Text → Io FileMeta
stat ns path principal = do
  lift (require_canonical path)
  check_perm principal ns path (codes "read")
  meta ← operation (get_file ns path)
  some_or_not_found meta

-- The loop of `list`: one permission check for each file, and the file only if it passes.
unfoldable pub readable : Text → Text → List FileMeta → Io (List FileMeta)
readable ns principal [] = pure []
readable ns principal (f ∷ fs) = do
  is_allowed ← operation (check_permission principal ns f.path (codes "read"))
  rest ← readable ns principal fs
  pure (if is_allowed then f ∷ rest else rest)

unfoldable pub list : Setup → Text → Text → Text → Bool → Io (List FileMeta)
list S ns path_prefix principal recursive = do
  lift (require_canonical path_prefix)
  files ← operation (list_dir S.like ns path_prefix recursive)
  readable ns principal files

unfoldable pub versions : Text → Text → Text → ℕ → Option ℕ → Io (List VersionMeta)
versions ns path principal limit before = do
  lift (require_canonical path)
  check_perm principal ns path (codes "read")
  operation (list_versions ns path limit before)
