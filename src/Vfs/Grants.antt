-- ===== src/Vfs/Grants.antt =====
-- `grant`, `bootstrap_admin`, `create_namespace`, `create_principal`, `resolve_name` of vfs.py.
use ai_vfs.Base.{not, Option, none, List, [], ◌∷◌, Text, codes}
use ai_vfs.Models.{Namespace, Principal, text, texts}
use ai_vfs.Errors.{permission_denied}
use ai_vfs.Exec.{pure, lift, guard, ◌>>=◌, ◌>>◌}
use ai_vfs.Paths.Canonical.{require_canonical}
use ai_vfs.Store.Permissions.{check_permission, set_permission, has_any_admin}
use ai_vfs.Store.Names
use ai_vfs.Store.Names.{set_name, put_namespace, put_principal}
use ai_vfs.World.{Io, Setup, operation, draw_id, read_clock}
use ai_vfs.Vfs.Audit.{audit_event, audit_permission_change}

module _ (S : Setup) where
  unfoldable pub grant : Text → Text → Text → Text → List Text → Io (Unit {0})
  grant granter target ns path_prefix operations = do
    lift (require_canonical path_prefix)
    is_allowed ← operation (check_permission granter ns path_prefix (codes "admin"))
    guard is_allowed permission_denied
    permission_id ← draw_id S
    now ← read_clock S
    operation (
        set_permission (record {
          id = permission_id;
          principal_id = target;
          namespace_id = ns;
          path_prefix = path_prefix;
          operations = operations;
          created_at = now;
        }))
    audit_permission_change S ns granter target path_prefix operations

  unfoldable pub bootstrap_admin : Text → Text → Io (Unit {0})
  bootstrap_admin principal ns = do
    has_one ← operation (has_any_admin ns)
    guard (not has_one) permission_denied
    permission_id ← draw_id S
    now ← read_clock S
    operation (
        set_permission (record {
          id = permission_id;
          principal_id = principal;
          namespace_id = ns;
          path_prefix = codes "/";
          operations = codes "admin" ∷ [];
          created_at = now;
        }))
    audit_event S ns principal (codes "bootstrap_admin") none none (
        (codes "path_prefix", text (codes "/"))
        ∷ (codes "operations", texts (codes "admin" ∷ []))
        ∷ [])

  unfoldable pub create_namespace : Text → Text → Io Namespace
  create_namespace display_name created_by = do
    namespace_id ← draw_id S
    now ← read_clock S
    let ns : Namespace = record {
      id = namespace_id;
      display_name = display_name;
      created_at = now;
      created_by = created_by;
      retention_policy = none;
    }
    operation (do set_name (codes "namespace") ns.id display_name; put_namespace ns)
    pure ns

  unfoldable pub create_principal : Text → Text → Io Principal
  create_principal display_name principal_type = do
    principal_id ← draw_id S
    now ← read_clock S
    let p : Principal = record {
      id = principal_id;
      display_name = display_name;
      principal_type = principal_type;
      created_at = now;
    }
    operation (do set_name (codes "principal") p.id display_name; put_principal p)
    pure p

unfoldable pub resolve_name : Text → Text → Io (Option Text)
resolve_name entity_type display_name = operation (Names.resolve_name entity_type display_name)
