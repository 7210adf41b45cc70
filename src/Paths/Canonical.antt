-- ===== src/Paths/Canonical.antt =====
-- `_require_canonical` of src/vfs/vfs.py and src/vfs/stores/sql_metadata.py, and `resolve_path` of src/vfs/session.py.
pub mod Laws
use ai_vfs.Base.{
  ◌≡◌, refl, not, ◌&&◌, [], ◌∷◌, ◌++◌, Text, codes, text_eq, starts_with, ends_with, drop_last,
  if◌then◌else◌,
}
use ai_vfs.Errors.{Result, ok, err, value_error}
use ai_vfs.Paths.Posix.{slash, normpath, isabs, path_join}

-- The path without at most one trailing slash; the root is exempt.
unfoldable pub checked : Text → Text
unfolding ends_with text_eq drop_last
checked path =
    if ends_with path slash && not (text_eq path (codes "/")) then drop_last path else path

unfoldable pub require_canonical : Text → Result (Unit {0})
unfolding checked normpath starts_with text_eq
require_canonical path =
    if not (starts_with path (codes "/"))
    then err value_error
    else if not (text_eq (checked path) (normpath (checked path)))
    then err value_error
    else ok tt

-- The path joined onto the working directory, unless it is absolute.
unfoldable pub joined_path : Text → Text → Text
unfolding path_join starts_with
joined_path cwd path = if isabs path then path else path_join cwd path

-- A trailing slash of the joined input is kept.
unfoldable pub keep_slash : Text → Text → Text
unfolding ends_with text_eq
keep_slash joined result =
    if ends_with joined slash && not (text_eq result (codes "/"))
    then result ++ (slash ∷ [])
    else result

unfoldable pub resolve_path : Text → Text → Text
unfolding joined_path keep_slash normpath
resolve_path cwd path = let joined = joined_path cwd path in keep_slash joined (normpath joined)

accepted : require_canonical (codes "/foo/") ≡ ok tt
unfolding require_canonical
accepted = refl

double_root : require_canonical (codes "//foo") ≡ ok tt
unfolding require_canonical
double_root = refl

refused : require_canonical (codes "/a/../b") ≡ err value_error
unfolding require_canonical
refused = refl

dir_kept : resolve_path (codes "/a/") (codes "../src/") ≡ codes "/src/"
unfolding resolve_path
dir_kept = refl
