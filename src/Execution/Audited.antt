-- ===== src/Execution/Audited.antt =====
-- The audit event of `execute`, and the permission that it asks for.
use ai_vfs.Base.{
  ◌+◌, ◌≡◌, refl, sym, ap, ◌∙◌, subst, Bool, Bool-cases, inl, inr, true, Option, some, List, ◌∷◌,
  Text, codes, ℕ, if◌then◌else◌, false,
}
use ai_vfs.Models.{AuditEvent, text}
use ai_vfs.Errors.{ok, err, permission_denied}
use ai_vfs.Exec.{pure, ◌>>◌}
use ai_vfs.Exec.Answers.{Leaves, Leaves-bind}
use ai_vfs.Paths.Canonical.{require_canonical}
use ai_vfs.Store.Tables.{Meta}
use ai_vfs.Store.Names.{has_event, append_audit_event}
use ai_vfs.Store.Permissions.{allowed}
use ai_vfs.World.{World, Blobs, Setup, operation, interleave, draw_id, read_clock}
use ai_vfs.Vfs.Quiet.{alone, check_perm_denied}
use ai_vfs.Vfs.Audit.{audit, audit_event, audit_execute, error_detail}
use ai_vfs.Vfs.Search.{SearchProvider}
use ai_vfs.Execution.{ResourceLimits, ExecutionResult}
use ai_vfs.Execution.Execute.{Installed, execute}

-- The last event of the log is about this run of `execute` and has its outcome.
pub record IsAudited (ns principal provider cwd : Text) (r : ExecutionResult) (w : World)
    : Type 0 where
  pub event : AuditEvent
  pub earlier : List AuditEvent
  pub logged : w.stores.meta.audit_events ≡ event ∷ earlier
  pub of_execute : event.operation ≡ codes "execute"
  pub of_principal : (event.namespace_id ≡ ns) × (event.principal_id ≡ principal)
  pub at_cwd : event.path ≡ some cwd
  pub outcome :
      event.detail
      ≡ (codes "provider", text provider)
        ∷ (codes "outcome", text (if r.success then codes "success" else codes "failure"))
        ∷ error_detail r.success r.error_type

module _ (S : Setup) (is_on : S.audit_log_enabled ≡ true) where
  -- The identifier of the event is taken.
  abbrev is_taken : World → Bool
  is_taken w =
      has_event (S.new_id w.ids)
        (interleave (record w { ids = w.ids + 1; ticks = w.ticks + 1 })).stores.meta.audit_events

  logged_execute :
      (ns principal path provider : Text) (r : ExecutionResult) (w : World)
      → ((audit_execute S ns principal path provider r.success r.error_type >> pure r) w).0 ≡ ok r
      → IsAudited ns principal provider path r
          ((audit_execute S ns principal path provider r.success r.error_type >> pure r) w).1
  unfolding audit_execute audit_event audit append_audit_event operation interleave draw_id
      read_clock
  logged_execute ns principal path provider r w e = elim (Bool-cases (is_taken w)) [
    | inl q ↦ cc (rw (is_on, q) at e)
    | inr q ↦
        rw (is_on, q)
          (record {
            event = _;
            earlier = _;
            logged = refl;
            of_execute = refl;
            of_principal = (refl, refl);
            at_cwd = refl;
            outcome = refl;
          })
  ]

  returned :
      (ns principal path provider : Text) (r a : ExecutionResult) (w : World)
      → ((audit_execute S ns principal path provider r.success r.error_type >> pure r) w).0 ≡ ok a
      → r ≡ a
  unfolding audit_execute audit_event audit append_audit_event operation interleave draw_id
      read_clock
  returned ns principal path provider r a w e = elim (Bool-cases (is_taken w)) [
    | inl q ↦ cc (rw (is_on, q) at e)
    | inr q ↦ cc (rw (is_on, q) at e)
  ]

  audit_execute-IsAudited :
      (ns principal path provider : Text) (r : ExecutionResult)
      → Leaves
          (IsAudited ns principal provider path)
          (audit_execute S ns principal path provider r.success r.error_type >> pure r)
  audit_execute-IsAudited ns principal path provider r = record {
    left = λ w a e.
        let q : r ≡ a = returned ns principal path provider r a w e in
        subst
          (λ x.
            IsAudited ns principal provider path x
              ((audit_execute S ns principal path provider r.success r.error_type >> pure r) w).1)
          q (logged_execute ns principal path provider r w (e ∙ ap ok (sym q)));
  }

  execute-Leaves :
      (P : SearchProvider) (I : Installed) (code ns principal provider_name : Text)
      (limits : Option ResourceLimits) (cwd : Text)
      → Leaves
          (IsAudited ns principal provider_name cwd)
          (execute S P I code ns principal provider_name limits cwd)
  unfolding execute
  execute-Leaves P I code ns principal provider_name limits cwd =
      search (Leaves-bind, audit_execute-IsAudited) depth 12

  -- Whatever the other tasks do, where auditing is on: when `execute` returns, the last event of the
  -- audit log is about this run, with the principal, the namespace, the working directory, the
  -- provider, and the outcome and the error type of the result that is returned.
  pub execute-IsAudited :
      (P : SearchProvider) (I : Installed) (code ns principal provider_name : Text)
      (limits : Option ResourceLimits) (cwd : Text) (w : World) (r : ExecutionResult)
      → (execute S P I code ns principal provider_name limits cwd w).0 ≡ ok r
      → IsAudited ns principal provider_name cwd r
          (execute S P I code ns principal provider_name limits cwd w).1
  execute-IsAudited P I code ns principal provider_name limits cwd w r e =
      (execute-Leaves P I code ns principal provider_name limits cwd).left w r e

-- Where no other task runs, for a canonical working directory on which the principal may not execute,
-- `execute` raises PermissionDeniedError, whatever the code and the provider, and changes nothing.
pub execute-denied :
    (S : Setup) (P : SearchProvider) (I : Installed) (code ns principal provider_name : Text)
    (limits : Option ResourceLimits) (cwd : Text) (m : Meta) (b : Blobs) (ids ticks : ℕ)
    → require_canonical cwd ≡ ok tt
    → allowed principal ns cwd (codes "execute") m.permissions ≡ false
    → execute S P I code ns principal provider_name limits cwd (alone m b ids ticks)
      ≡ (err permission_denied, alone m b ids ticks)
unfolding execute
execute-denied S P I code ns principal provider_name limits cwd m b ids ticks canonical denied =
    rw (canonical, check_perm_denied m b ids ticks principal ns cwd (codes "execute") denied) refl
