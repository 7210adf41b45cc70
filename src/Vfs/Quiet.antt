-- ===== src/Vfs/Quiet.antt =====
-- A world in which no other task runs: what the steps that the operations share do there.
use ai_vfs.Base.{
  ℕ, zero, suc, ◌+◌, ◌≡◌, refl, ap, Bool, true, false, Option, List, [], ◌∷◌, Text, Bool-cases, inl,
  inr,
}
use ai_vfs.Models.{Json}
use ai_vfs.Errors.{Error, Result, ok, err, permission_denied, integrity_error}
use ai_vfs.Exec.{continue, pure}
use ai_vfs.Store.Tables.{Meta, Sql}
use ai_vfs.Store.Files.{get_file, find_file}
use ai_vfs.Store.Versions.{get_version, find_version}
use ai_vfs.Store.Permissions.{allowed}
use ai_vfs.Store.Names.{has_event, append_audit_event}
use ai_vfs.World.{
  World, Blobs, Io, Setup, operation, draw_id, read_clock, blob_put, blob_get, add_blob,
  blob_content,
}
use ai_vfs.Vfs.Audit.{audit, audit_event}
use ai_vfs.Vfs.Access.{check_perm}
use ai_vfs.Vfs.Retry.{retry, or_retry}

abbrev pub alone : Meta → Blobs → ℕ → ℕ → World
alone m b ids ticks = record {
  stores = record { meta = m; blobs = b };
  ids = ids;
  ticks = ticks;
  others = [];
}

-- The tables that the file operations read are those of `m`.
pub record SameFiles (m m' : Meta) : Type 0 where
  pub files : m'.files ≡ m.files
  pub versions : m'.versions ≡ m.versions
  pub permissions : m'.permissions ≡ m.permissions

module _ (m : Meta) (b : Blobs) (ids ticks : ℕ) where
  pub operation-ok :
      {A : Type 0} (sql : Sql A) (a : A) (m' : Meta)
      → sql m ≡ (ok a, m')
      → operation sql (alone m b ids ticks) ≡ (ok a, alone m' b ids ticks)
  unfolding operation
  operation-ok sql a m' e = rw e

  pub operation-err :
      {A : Type 0} (sql : Sql A) (x : Error) (m' : Meta)
      → sql m ≡ (err x, m')
      → operation sql (alone m b ids ticks) ≡ (err x, alone m b ids ticks)
  unfolding operation
  operation-err sql x m' e = rw e

  pub operation-raises :
      {A : Type 0} (sql : Sql A) (x : Error)
      → (sql m).0 ≡ err x
      → operation sql (alone m b ids ticks) ≡ (err x, alone m b ids ticks)
  operation-raises sql x e = operation-err sql x (sql m).1 (ap (λ r. (r, (sql m).1)) e)

  pub check_perm_granted :
      (principal ns path op : Text)
      → allowed principal ns path op m.permissions ≡ true
      → check_perm principal ns path op (alone m b ids ticks) ≡ (ok tt, alone m b ids ticks)
  unfolding check_perm
  check_perm_granted principal ns path op e = rw e

  pub check_perm_denied :
      (principal ns path op : Text)
      → allowed principal ns path op m.permissions ≡ false
      → check_perm principal ns path op (alone m b ids ticks)
        ≡ (err permission_denied, alone m b ids ticks)
  unfolding check_perm
  check_perm_denied principal ns path op e = rw e

  pub get_file-alone :
      (ns path : Text)
      → operation (get_file ns path) (alone m b ids ticks)
        ≡ (ok (find_file ns path m.files), alone m b ids ticks)
  unfolding operation get_file
  get_file-alone ns path = refl

  pub get_version-alone :
      (ns path : Text) (n : Option ℕ)
      → operation (get_version ns path n) (alone m b ids ticks)
        ≡ (ok (find_version ns path n m.versions), alone m b ids ticks)
  unfolding operation get_version
  get_version-alone ns path n = refl

  pub blob_put-alone :
      (h d : Text)
      → blob_put h d (alone m b ids ticks) ≡ (ok tt, alone m (add_blob h d b) ids ticks)
  unfolding blob_put
  blob_put-alone h d = refl

  pub blob_get-alone :
      (h : Text) → blob_get h (alone m b ids ticks) ≡ (blob_content h b, alone m b ids ticks)
  unfolding blob_get
  blob_get-alone h = refl

  -- An audit helper leaves the files, versions and permissions as they were, and it returns if the
  -- identifier of its event is unused.
  pub audit_event-SameFiles :
      (S : Setup) (ns principal name : Text) (path version_id : Option Text)
      (detail : List (Text × Json))
      → (r : Result (Unit {0})) × (m' : Meta) × (audit_event S ns principal name path version_id
            detail
            (alone m b ids ticks)
          ≡ (r, alone m' b (ids + 1) (ticks + 1)))
        × SameFiles m m'
        × (has_event (S.new_id ids) m.audit_events ≡ false → r ≡ ok tt)
  unfolding audit_event audit operation append_audit_event draw_id read_clock
  audit_event-SameFiles S ns principal name path version_id detail =
      elim (Bool-cases S.audit_log_enabled) [
        | inl e ↦ elim (Bool-cases (has_event (S.new_id ids) m.audit_events)) [
          | inl t ↦ (
            err integrity_error,
            m,
            rw (e, t),
            record { files = refl; versions = refl; permissions = refl },
            λ f. cc (t, f),
          )
          | inr t ↦ (
            ok tt,
            record m {
              audit_events =
                  (record {
                    event_id = S.new_id ids;
                    timestamp = S.clock ticks;
                    namespace_id = ns;
                    principal_id = principal;
                    operation = name;
                    path = path;
                    version_id = version_id;
                    detail = detail;
                    trace_id = S.trace_id;
                  })
                  ∷ m.audit_events;
            },
            rw (e, t),
            record { files = refl; versions = refl; permissions = refl },
            λ f. refl,
          )
        ]
        | inr e ↦ (
          ok tt,
          m,
          rw e,
          record { files = refl; versions = refl; permissions = refl },
          λ f. refl,
        )
      ]

-- What an operation returns whose last step is an audit event.
abbrev pub logged : {A : Type 0} → Result (Unit {0}) → A → Result A
logged (ok u) a = ok a
logged (err e) a = err e

pub continue-logged :
    {A : Type 0} (r : Result (Unit {0})) (a : A) (w : World)
    → continue r (λ u. pure a) w ≡ (logged r a, w)
continue-logged (ok u) a w = refl
continue-logged (err e) a w = refl

-- A first attempt that succeeds is the loop's result.
pub retry_first :
    {A : Type 0} (more : ℕ) (cas : Bool) (first again : Io A) (w w' : World) (a : A)
    → first w ≡ (ok a, w')
    → retry more cas first again w ≡ (ok a, w')
unfolding retry or_retry
retry_first zero cas first again w w' a e = rw e
retry_first (suc more) cas first again w w' a e = rw e
