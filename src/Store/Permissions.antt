-- ===== src/Store/Permissions.antt =====
-- The `permissions` table: `check_permission`, `set_permission`, `has_any_admin`.
pub mod Decision
pub mod Granted
use ai_vfs.Base.{
  ℕ, ◌≡◌, refl, Bool, true, false, not, ◌&&◌, ◌||◌, Option, none, some, List, [], ◌∷◌, Text, codes,
  text_eq, select, any, length, sort_desc, if◌then◌else◌,
}
use ai_vfs.Models.{Permission}
use ai_vfs.Errors.{Result, ok, err, integrity_error}
use ai_vfs.Exec.{gets, modify, lift, continue, ◌>>=◌, ◌>>◌}
use ai_vfs.Paths.Prefix.{prefix_matches}
use ai_vfs.Paths.Canonical.{require_canonical}
use ai_vfs.Store.Tables.{Meta, Sql}
use ai_vfs.Store.Versions.{mem_text}

unfoldable pub is_held_by : Text → Text → Permission → Bool
unfolding text_eq
is_held_by principal ns p = text_eq p.principal_id principal && text_eq p.namespace_id ns

-- The loop over the sorted rows: the first row that covers the path decides.
unfoldable pub decide : Text → Text → List Permission → Bool
unfolding prefix_matches mem_text
decide path operation [] = false
decide path operation (p ∷ ps) =
    if prefix_matches p.path_prefix path
    then mem_text operation p.operations
    else decide path operation ps

abbrev pub specificity : Permission → ℕ
specificity p = length p.path_prefix

unfoldable pub allowed : Text → Text → Text → Text → List Permission → Bool
unfolding is_held_by decide select sort_desc
allowed principal ns path operation ps =
    decide path operation (sort_desc specificity (select (is_held_by principal ns) ps))

unfoldable pub check_permission : Text → Text → Text → Text → Sql Bool
unfolding allowed
check_permission principal ns path operation =
    gets (λ m. allowed principal ns path operation m.permissions)

unfoldable pub same_scope : Permission → Permission → Bool
unfolding text_eq
same_scope p q =
    text_eq q.principal_id p.principal_id
    && (text_eq q.namespace_id p.namespace_id && text_eq q.path_prefix p.path_prefix)

-- A conflict on the scope overwrites the id, the operations and the time.
unfoldable pub upsert_permission : Permission → List Permission → List Permission
unfolding same_scope
upsert_permission p [] = p ∷ []
upsert_permission p (q ∷ qs) =
    if same_scope p q
    then record q { id = p.id; operations = p.operations; created_at = p.created_at } ∷ qs
    else q ∷ upsert_permission p qs

unfoldable pub has_permission_id : Text → List Permission → Bool
unfolding text_eq any
has_permission_id i = any (λ p. text_eq p.id i)

-- The primary key is enforced before the upsert on the scope. The operations are a set, which is stored sorted; only membership is read.
unfoldable pub set_permission : Permission → Sql (Unit {0})
unfolding require_canonical upsert_permission has_permission_id
set_permission p = do
  lift (require_canonical p.path_prefix)
  λ m.
      if has_permission_id p.id m.permissions
      then (err integrity_error, m)
      else (ok tt, record m { permissions = upsert_permission p m.permissions })

unfoldable pub has_admin : Text → List Permission → Bool
unfolding mem_text text_eq any
has_admin ns = any (λ p. text_eq p.namespace_id ns && mem_text (codes "admin") p.operations)

unfoldable pub has_any_admin : Text → Sql Bool
unfolding has_admin
has_any_admin ns = gets (λ m. has_admin ns m.permissions)
