-- ===== src/Vfs/Audit.antt =====
-- src/vfs/observability/audit.py: one event for each operation, unless auditing is off.
use ai_vfs.Base.{ℕ, Bool, false, Option, none, some, List, [], ◌∷◌, Text, codes, if◌then◌else◌}
use ai_vfs.Models.{AuditEvent, Json, text, texts, number}
use ai_vfs.Exec.{pure, ◌>>=◌}
use ai_vfs.Store.Names.{append_audit_event}
use ai_vfs.World.{Io, Setup, operation, draw_id, read_clock}

-- `if not success and error_type is not None: detail["error_type"] = error_type`
abbrev pub error_detail : Bool → Option Text → List (Text × Json)
error_detail false (some error_type) = (codes "error_type", text error_type) ∷ []
error_detail _ _ = []

module _ (S : Setup) where
  -- `audit`: the event is built first, and gets the trace id when it is stored.
  unfoldable pub audit : AuditEvent → Io (Unit {0})
  unfolding operation append_audit_event
  audit event =
      if S.audit_log_enabled
      then operation (append_audit_event (record event { trace_id = S.trace_id }))
      else pure tt

  -- The event that an `audit_…` helper builds, with a fresh id and the time.
  unfoldable pub audit_event :
      Text → Text → Text → Option Text → Option Text → List (Text × Json) → Io (Unit {0})
  unfolding audit draw_id read_clock
  audit_event ns principal operation_name path version_id detail = do
    event_id ← draw_id S
    now ← read_clock S
    audit (record {
      event_id = event_id;
      timestamp = now;
      namespace_id = ns;
      principal_id = principal;
      operation = operation_name;
      path = path;
      version_id = version_id;
      detail = detail;
      trace_id = none;
    })

  unfoldable pub audit_write : Text → Text → Text → Text → Io (Unit {0})
  audit_write ns principal path version_id =
      audit_event ns principal (codes "write") (some path) (some version_id) []

  unfoldable pub audit_delete : Text → Text → Text → Text → Io (Unit {0})
  audit_delete ns principal path version_id =
      audit_event ns principal (codes "delete") (some path) (some version_id) []

  unfoldable pub audit_rollback : Text → Text → Text → Text → Text → Io (Unit {0})
  audit_rollback ns principal path version_id target_version_id =
      audit_event ns principal (codes "rollback") (some path) (some version_id)
        ((codes "target_version_id", text target_version_id) ∷ [])

  unfoldable pub audit_copy : Text → Text → Text → Text → Text → Io (Unit {0})
  audit_copy ns principal src_path dst_path version_id =
      audit_event ns principal (codes "copy") (some dst_path) (some version_id)
        ((codes "src_path", text src_path) ∷ [])

  unfoldable pub audit_move : Text → Text → Text → Text → Text → Io (Unit {0})
  audit_move ns principal src_path dst_path version_id =
      audit_event ns principal (codes "move") (some dst_path) (some version_id)
        ((codes "src_path", text src_path) ∷ [])

  unfoldable pub audit_permission_change : Text → Text → Text → Text → List Text → Io (Unit {0})
  audit_permission_change ns principal target path_prefix operations =
      audit_event ns principal (codes "permission_change") none none (
        (codes "target_principal_id", text target)
        ∷ (codes "path_prefix", text path_prefix)
        ∷ (codes "operations", texts operations)
        ∷ [])

  unfoldable pub audit_gc_run : Option Text → ℕ → ℕ → Io (Unit {0})
  audit_gc_run ns versions_reclaimed blobs_reclaimed =
      audit_event (namespace_or_system ns) (codes "__system__") (codes "gc_run") none none (
        (codes "versions_reclaimed", number versions_reclaimed)
        ∷ (codes "blobs_reclaimed", number blobs_reclaimed)
        ∷ [])
    where
      namespace_or_system : Option Text → Text
      namespace_or_system none = codes "__system__"
      namespace_or_system (some []) = codes "__system__"
      namespace_or_system (some (c ∷ n)) = c ∷ n

  unfoldable pub audit_execute : Text → Text → Text → Text → Bool → Option Text → Io (Unit {0})
  audit_execute ns principal path provider success error_type =
      audit_event ns principal (codes "execute") (some path) none (
        (codes "provider", text provider)
        ∷ (codes "outcome", text (if success then codes "success" else codes "failure"))
        ∷ error_detail success error_type)
