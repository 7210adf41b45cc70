-- ===== src/Vfs/Granted.antt =====
-- What `grant` leaves in a world where no other task runs.
use ai_vfs.Base.{
  ℕ, ◌+◌, ◌≡◌, refl, ◌∙◌, inl, inr, true, false, none, List, [], ◌∷◌, Text, codes, if◌then◌else◌,
  Bool-cases,
}
use ai_vfs.Models.{Permission, text, texts}
use ai_vfs.Errors.{Result, ok, err, permission_denied}
use ai_vfs.Paths.Canonical.{require_canonical}
use ai_vfs.Store.Tables.{Meta}
use ai_vfs.Store.Versions.{mem_text}
use ai_vfs.Store.Permissions.{
  allowed, check_permission, set_permission, upsert_permission, has_permission_id,
}
use ai_vfs.Store.Permissions.Granted.{allowed-upsert_permission}
use ai_vfs.World.{Blobs, Setup, operation, draw_id, read_clock}
use ai_vfs.Vfs.Audit.{audit_permission_change}
use ai_vfs.Vfs.Access.{check_perm}
use ai_vfs.Vfs.Quiet.{
  alone, operation-ok, audit_event-SameFiles, check_perm_granted, check_perm_denied,
}
use ai_vfs.Vfs.Grants.{grant}

module _ (S : Setup) (granter target ns path_prefix : Text) (operations : List Text) (m : Meta)
    (b : Blobs) (ids ticks : ℕ) where
  abbrev rule : Permission
  rule = record {
    id = S.new_id ids;
    principal_id = target;
    namespace_id = ns;
    path_prefix = path_prefix;
    operations = operations;
    created_at = S.clock ticks;
  }

  abbrev granted : Meta
  granted = record m { permissions = upsert_permission rule m.permissions }

  set_permission-alone :
      require_canonical path_prefix ≡ ok tt
      → has_permission_id (S.new_id ids) m.permissions ≡ false
      → operation (set_permission rule) (alone m b (ids + 1) (ticks + 1))
        ≡ (ok tt, alone granted b (ids + 1) (ticks + 1))
  unfolding set_permission
  set_permission-alone canonical fresh =
      operation-ok m b (ids + 1) (ticks + 1) (set_permission rule) tt granted
        (rw (canonical, fresh) refl)

  check-alone :
      allowed granter ns path_prefix (codes "admin") m.permissions ≡ true
      → operation (check_permission granter ns path_prefix (codes "admin")) (alone m b ids ticks)
        ≡ (ok true, alone m b ids ticks)
  unfolding check_permission
  check-alone admin =
      operation-ok m b ids ticks (check_permission granter ns path_prefix (codes "admin")) true m
        (rw admin refl)

  grant-alone :
      require_canonical path_prefix ≡ ok tt
      → allowed granter ns path_prefix (codes "admin") m.permissions ≡ true
      → has_permission_id (S.new_id ids) m.permissions ≡ false
      → (r : Result (Unit {0})) × (m' : Meta) × (grant S granter target ns path_prefix operations
            (alone m b ids ticks)
          ≡ (r, alone m' b (ids + 1 + 1) (ticks + 1 + 1)))
        × (m'.permissions ≡ upsert_permission rule m.permissions)
  unfolding grant audit_permission_change draw_id read_clock
  grant-alone canonical admin fresh =
      let (r, m', e, same, logs) =
        audit_event-SameFiles granted b (ids + 1) (ticks + 1) S ns granter
          (codes "permission_change") none none
          ((codes "target_principal_id", text target)
            ∷ (codes "path_prefix", text path_prefix)
            ∷ (codes "operations", texts operations)
            ∷ []) in
      (
        r,
        m',
        rw (canonical, check-alone admin, set_permission-alone canonical fresh, e) refl,
        same.permissions,
      )

  decision :
      (op : Text) (m' : Meta)
      → m'.permissions ≡ upsert_permission rule m.permissions
      → allowed target ns path_prefix op m'.permissions ≡ mem_text op operations
  decision op m' e = rw e (allowed-upsert_permission rule m.permissions op)

-- Where no other task runs, a grant by a principal who may administer a canonical path decides the
-- permission checks of the target at that path: an operation passes exactly if the grant lists it,
-- whatever the target held before. The identifier of the new rule is unused.
pub grant-check_perm :
    (S : Setup) (granter target ns path_prefix op : Text) (operations : List Text) (m : Meta)
    (b : Blobs) (ids ticks : ℕ)
    → require_canonical path_prefix ≡ ok tt
    → allowed granter ns path_prefix (codes "admin") m.permissions ≡ true
    → has_permission_id (S.new_id ids) m.permissions ≡ false
    → let w = (grant S granter target ns path_prefix operations (alone m b ids ticks)).1 in
      check_perm target ns path_prefix op w
      ≡ (if mem_text op operations then ok tt else err permission_denied, w)
grant-check_perm S granter target ns path_prefix op operations m b ids ticks canonical admin fresh =
    let (r, m', e, p) =
      grant-alone S granter target ns path_prefix operations m b ids ticks canonical admin fresh in
    let d = decision S granter target ns path_prefix operations m b ids ticks op m' p in
    rw e (elim (Bool-cases (mem_text op operations)) [
      | inl h ↦
          rw h
            (check_perm_granted m' b (ids + 1 + 1) (ticks + 1 + 1) target ns path_prefix op (d ∙ h))
      | inr h ↦
          rw h
            (check_perm_denied m' b (ids + 1 + 1) (ticks + 1 + 1) target ns path_prefix op (d ∙ h))
    ])
