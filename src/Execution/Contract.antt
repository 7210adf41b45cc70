-- ===== src/Execution/Contract.antt =====
-- The error contract of `execute`, and its audit event.
use ai_vfs.Base.{
  ◌≡◌, subst, inl, inr, Bool, true, false, Option, none, some, Text, codes, text_eq, starts_with,
  Bool-cases,
}
use ai_vfs.Models.{AuditEvent}
use ai_vfs.Errors.{
  Error, Result, err, value_error, permission_denied, import_error, integrity_error,
}
use ai_vfs.Exec.{modify, guard, lift}
use ai_vfs.Exec.Answers.{Raises, Raises-pure, Raises-lift, Raises-bind}
use ai_vfs.Paths.Canonical.{require_canonical, checked}
use ai_vfs.Paths.Posix.{normpath}
use ai_vfs.Store.Permissions.{check_permission}
use ai_vfs.Store.Names.{has_event, append_audit_event}
use ai_vfs.World.{World, Io, Setup, operation, interleave, draw_id, read_clock}
use ai_vfs.Vfs.Access.{check_perm}
use ai_vfs.Vfs.Audit.{audit, audit_event, audit_execute}
use ai_vfs.Session
use ai_vfs.Session.{Shell, Sh}
use ai_vfs.Execution.{ExecutionResult}
use ai_vfs.Execution.Execute.{
  Installed, ProviderSpec, provider_spec, load_provider, resolve_execution_provider, in_session,
  caught,
}

-- The exceptions that `execute` documents for the time before the provider runs, and the one of an
-- audit event whose identifier is taken, which is stored behind the run.
pub data IsTier1 : Error → Type 0 where
  malformed_or_unknown : IsTier1 value_error
  denied : IsTier1 permission_denied
  not_installed : IsTier1 import_error
  event_collides : IsTier1 integrity_error

IsTier1-of : (e f : Error) → IsTier1 f → Path (Result (Unit {0})) (err f) (err e) → IsTier1 e
IsTier1-of e f t h = subst IsTier1 (cc h) t

require_canonical-IsTier1 : (path : Text) (e : Error) → require_canonical path ≡ err e → IsTier1 e
unfolding require_canonical
require_canonical-IsTier1 path e h = elim (Bool-cases (starts_with path (codes "/"))) [
  | inl r ↦ elim (Bool-cases (text_eq (checked path) (normpath (checked path)))) [
    | inl q ↦ cc (rw (r, q) at h)
    | inr q ↦ IsTier1-of e value_error malformed_or_unknown (rw (r, q) at h)
  ]
  | inr r ↦ IsTier1-of e value_error malformed_or_unknown (rw r at h)
]

guard-IsTier1 : {S : Type 0} (b : Bool) → Raises IsTier1 (guard {S = S} b permission_denied)
guard-IsTier1 true = record { raised = λ s e h. cc h }
guard-IsTier1 false = record { raised = λ s e h. IsTier1-of e _ denied h }

asked :
    (principal ns path op : Text)
    → Raises IsTier1 (operation (check_permission principal ns path op))
unfolding operation check_permission
asked principal ns path op = record { raised = λ s e h. cc h }

check_perm-IsTier1 :
    (principal ns path op : Text) → Raises IsTier1 (check_perm principal ns path op)
unfolding check_perm
check_perm-IsTier1 principal ns path op =
    Raises-bind (operation (check_permission principal ns path op)) _ (asked principal ns path op)
      (λ b. guard-IsTier1 b)

load_provider-IsTier1 :
    (I : Installed) (p : Option ProviderSpec) (e : Error) → load_provider I p ≡ err e → IsTier1 e
load_provider-IsTier1 I none e h = subst IsTier1 (cc h) malformed_or_unknown
load_provider-IsTier1 I (some p) e h = elim (Bool-cases (I.has_module p.driver)) [
  | inl a ↦ elim (Bool-cases (I.has_module p.adapter_module)) [
    | inl b ↦ cc (rw (a, b) at h)
    | inr b ↦ subst IsTier1 (cc (rw (a, b) at h)) not_installed
  ]
  | inr a ↦ subst IsTier1 (cc (rw a at h)) not_installed
]

io-IsTier1 : {A : Type 0} (m : Io A) → Raises IsTier1 m → Raises IsTier1 (Session.io m)
io-IsTier1 m h = record { raised = λ s e q. h.raised s.world e q }

resolved-total : (path : Text) → Raises IsTier1 (Session.resolved path)
unfolding Session.resolved
resolved-total path = record { raised = λ s e h. cc h }

modify-total : {S : Type 0} (f : S → S) → Raises IsTier1 (modify f)
modify-total f = record { raised = λ s e h. cc h }

cd-IsTier1 : (ns principal path : Text) → Raises IsTier1 (Session.cd ns principal path)
unfolding Session.cd
cd-IsTier1 ns principal path =
    search (Raises-bind, resolved-total, io-IsTier1, check_perm-IsTier1, modify-total)

append-IsTier1 : (e : AuditEvent) → Raises IsTier1 (operation (append_audit_event e))
unfolding append_audit_event operation interleave
append-IsTier1 e = record {
  raised = λ w x h.
      elim (Bool-cases (has_event e.event_id (interleave w).stores.meta.audit_events)) [
        | inl q ↦ IsTier1-of x integrity_error event_collides (rw q at h)
        | inr q ↦ cc (rw q at h)
      ];
}

audit-IsTier1 : (S : Setup) (e : AuditEvent) → Raises IsTier1 (audit S e)
unfolding audit
audit-IsTier1 S e = elim (Bool-cases S.audit_log_enabled) [
  | inl q ↦ rw q (append-IsTier1 _)
  | inr q ↦ rw q (record { raised = λ s e h. cc h })
]

draw_id-total : (S : Setup) → Raises IsTier1 (draw_id S)
unfolding draw_id
draw_id-total S = record { raised = λ s e h. cc h }

read_clock-total : (S : Setup) → Raises IsTier1 (read_clock S)
unfolding read_clock
read_clock-total S = record { raised = λ s e h. cc h }

audit_execute-IsTier1 :
    (S : Setup) (ns principal path provider : Text) (success : Bool) (error_type : Option Text)
    → Raises IsTier1 (audit_execute S ns principal path provider success error_type)
unfolding audit_execute audit_event
audit_execute-IsTier1 S ns principal path provider success error_type =
    search (Raises-bind, draw_id-total, read_clock-total, audit-IsTier1)

in_session-IsTier1 : {A : Type 0} (m : Sh A) → Raises IsTier1 m → Raises IsTier1 (in_session m)
in_session-IsTier1 m h = record { raised = λ w e q. h.raised _ e q }

caught-total : (m : Sh ExecutionResult) → Raises IsTier1 (caught m)
caught-total m = record { raised = λ s e h. cc h }

lifted_path-IsTier1 : (path : Text) → Raises {S = World} IsTier1 (lift (require_canonical path))
lifted_path-IsTier1 path = Raises-lift _ (require_canonical-IsTier1 path)

resolved_provider-IsTier1 :
    (I : Installed) (name : Text)
    → Raises {S = World} IsTier1 (lift (resolve_execution_provider I name))
unfolding resolve_execution_provider
resolved_provider-IsTier1 I name = Raises-lift _ (load_provider-IsTier1 I (provider_spec name))

ruleset tier1_rules = (
  Raises-bind, Raises-pure, lifted_path-IsTier1, resolved_provider-IsTier1, check_perm-IsTier1,
  in_session-IsTier1, cd-IsTier1, caught-total, audit_execute-IsTier1,
)
