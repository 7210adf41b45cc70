-- ===== src/Vfs/Interleaved/Steps.antt =====
-- The steps that the operations share: permission checks, blobs, identifiers, audit events, retries.
use ai_vfs.Base.{
  ℕ, zero, suc, ◌+◌, ◌≤◌, ◌≡◌, refl, subst, ap, inl, inr, Bool, true, Option, none, some, List,
  Text, Bool-cases, arith,
}
use ai_vfs.Models.{Json, AuditEvent, FileMeta, VersionMeta}
use ai_vfs.Errors.{Result, ok, err, is_collision, permission_denied}
use ai_vfs.Exec.{pure, lift, ◌>>=◌, ◌>>◌}
use ai_vfs.Paths.Canonical.{require_canonical}
use ai_vfs.Store.Tables.{Meta}
use ai_vfs.Store.Files.{find_file, get_file, current_number, number_of}
use ai_vfs.Store.Versions.{get_version, find_version, put_version}
use ai_vfs.Store.Permissions.{check_permission, allowed}
use ai_vfs.Store.Names.{has_event, append_audit_event}
use ai_vfs.Store.History.{IsHistory}
use ai_vfs.World.{World, Io, Setup, operation, blob_put, draw_id, read_clock}
use ai_vfs.Vfs.Audit.{audit, audit_event}
use ai_vfs.Vfs.Access.{check_perm}
use ai_vfs.Vfs.Retry.{retry, or_retry}
use ai_vfs.Vfs.Interleaved.{
  IsGood, Step, Step-refl, Step-trans, IsSafe, Advance, interleave-Step, bind-Step, bind-IsSafe,
  operation-Step, gets-IsSafe, guard-IsSafe, lift-IsSafe, put_version-Advance,
}

pub pure-IsSafe : {A : Type 0} (a : A) → IsSafe (pure {S = World} a)
pure-IsSafe a = record { step = Step-refl }

pub get_version-IsSafe :
    (ns path : Text) (n : Option ℕ) → IsSafe (operation (get_version ns path n))
unfolding get_version
get_version-IsSafe ns path n = gets-IsSafe (λ m. find_version ns path n m.versions)

pub get_file-IsSafe : (ns path : Text) → IsSafe (operation (get_file ns path))
unfolding get_file
get_file-IsSafe ns path = gets-IsSafe (λ m. find_file ns path m.files)

-- What `get_file` returns is the file in the world that it leaves.
pub get_file-seen :
    (ns path : Text) (w : World)
    → (operation (get_file ns path) w).0
      ≡ ok (find_file ns path (operation (get_file ns path) w).1.stores.meta.files)
unfolding operation get_file
get_file-seen ns path w = refl

pub check_perm-IsSafe : (principal ns path op : Text) → IsSafe (check_perm principal ns path op)
unfolding check_perm check_permission
check_perm-IsSafe principal ns path op =
    bind-IsSafe (operation (check_permission principal ns path op)) _
      (gets-IsSafe (λ m. allowed principal ns path op m.permissions))
      (λ t. guard-IsSafe t permission_denied)

pub blob_put-IsSafe : (h d : Text) → IsSafe (blob_put h d)
unfolding blob_put
blob_put-IsSafe h d = record {
  step = λ w g.
      let s = interleave-Step w g in
      record {
        good = record { history = s.good.history; friendly = s.good.friendly };
        grows = s.grows;
      };
}

module _ (S : Setup) where
  pub draw_id-IsSafe : IsSafe (draw_id S)
  unfolding draw_id
  draw_id-IsSafe = record {
    step = λ w g. record {
      good = record { history = g.history; friendly = g.friendly };
      grows = λ ns path. omega arith;
    };
  }

  pub read_clock-IsSafe : IsSafe (read_clock S)
  unfolding read_clock
  read_clock-IsSafe = record {
    step = λ w g. record {
      good = record { history = g.history; friendly = g.friendly };
      grows = λ ns path. omega arith;
    };
  }

  appended :
      (event : AuditEvent) (m m' : Meta) (u : Unit {0})
      → IsHistory m
      → append_audit_event event m ≡ (ok u, m')
      → Advance m m'
  unfolding append_audit_event
  appended event m m' u h e = elim (Bool-cases (has_event event.event_id m.audit_events)) [
    | inl q ↦ cc (rw q at e)
    | inr q ↦ subst (λ x. Advance m x) (ap (λ r. r.1) (rw q at e)) (h, λ ns path. omega arith)
  ]

  append-IsSafe : (event : AuditEvent) → IsSafe (operation (append_audit_event event))
  append-IsSafe event = record {
    step = λ w g.
        operation-Step (append_audit_event event) w g
          (λ w' s a m' e. appended event w'.stores.meta m' a s.good.history e);
  }

  audit-IsSafe : (event : AuditEvent) → IsSafe (audit S event)
  unfolding audit
  audit-IsSafe event = elim (Bool-cases S.audit_log_enabled) [
    | inl e ↦ rw e (append-IsSafe _)
    | inr e ↦ rw e (pure-IsSafe tt)
  ]

  pub audit_event-IsSafe :
      (ns principal name : Text) (path version_id : Option Text) (detail : List (Text × Json))
      → IsSafe (audit_event S ns principal name path version_id detail)
  unfolding audit_event
  audit_event-IsSafe ns principal name path version_id detail =
      bind-IsSafe (draw_id S) _ draw_id-IsSafe (λ i.
        bind-IsSafe (read_clock S) _ read_clock-IsSafe (λ now. audit-IsSafe (record {
          event_id = i;
          timestamp = now;
          namespace_id = ns;
          principal_id = principal;
          operation = name;
          path = path;
          version_id = version_id;
          detail = detail;
          trace_id = none;
        })))

or_retry-Step :
    {A : Type 0} (final : Bool) (w : World) (r : Result A × World) (again : Io A)
    → Step w r.1
    → (Step w r.1 → Step w (again r.1).1)
    → Step w (or_retry final r again).1
unfolding or_retry
or_retry-Step final w (ok a, w') again s next = s
or_retry-Step final w (err e, w') again s next = elim (Bool-cases (is_collision e)) [
  | inl c ↦ elim (Bool-cases final) [ inl f ↦ rw (c, f) s | inr f ↦ rw (c, f) (next s) ]
  | inr c ↦ rw c s
]

last :
    {A : Type 0} (w : World) (r : Result A × World) (again : Io A)
    → Step w r.1
    → Step w (or_retry true r again).1
unfolding or_retry
last w (ok a, w') again s = s
last w (err e, w') again s = elim (Bool-cases (is_collision e)) [ inl c ↦ rw c s | inr c ↦ rw c s ]

pub retry-Step :
    {A : Type 0} (more : ℕ) (cas : Bool) (first again : Io A) (w : World)
    → Step w (first w).1
    → IsSafe again
    → Step w (retry more cas first again w).1
unfolding retry
retry-Step zero cas first again w s safe = last w (first w) again s
retry-Step (suc more) cas first again w s safe =
    or_retry-Step cas w (first w) (retry more cas again again) s (λ t.
      Step-trans w (first w).1 _ t
        (retry-Step more cas again again (first w).1 (safe.step (first w).1 t.good) safe))

-- The file that an operation has read, or an older one.
abbrev pub Seen : Text → Text → Option FileMeta → World → Type 0
Seen ns path existing w = number_of existing ≤ current_number ns path w.stores.meta.files

-- A read of the file, and code that is safe as long as the file has not gone back.
pub get_file_then-IsSafe :
    {A : Type 0} (ns path : Text) (k : Option FileMeta → Io A)
    → ((f : Option FileMeta) (w : World) → IsGood w → Seen ns path f w → Step w (k f w).1)
    → IsSafe (operation (get_file ns path) >>= k)
unfolding current_number
get_file_then-IsSafe ns path k safe = record {
  step = λ w g.
      bind-Step (operation (get_file ns path)) k w ((get_file-IsSafe ns path).step w g) (λ f e s.
        let q : find_file ns path (operation (get_file ns path) w).1.stores.meta.files ≡ f =
          cc (get_file-seen ns path w, e) in
        safe f _ s.good (rw q (omega arith)));
}

-- A put of a version whose number is behind that of the file.
pub put_next-Step :
    (ns path : Text) (v : VersionMeta) (expected : Option ℕ) (f : Option FileMeta) (w : World)
    → v.namespace_id ≡ ns
    → v.file_path ≡ path
    → v.version_number ≡ number_of f + 1
    → IsGood w
    → Seen ns path f w
    → Step w (operation (put_version v expected) w).1
put_next-Step ns path v expected f w n p q g seen =
    operation-Step (put_version v expected) w g (λ w' t a m' e.
      put_version-Advance v expected w'.stores.meta m' t.good.history
        (omega (arith, q), rw (n, p, q) (omega (arith, t.grows ns path))) e)

-- The audit event and the result behind the put.
pub logged-IsSafe :
    (S : Setup) (ns principal name path i : Text) (detail : List (Text × Json)) (v : VersionMeta)
    → IsSafe (audit_event S ns principal name (some path) (some i) detail >> pure v)
logged-IsSafe S ns principal name path i detail v =
    bind-IsSafe (audit_event S ns principal name (some path) (some i) detail) _
      (audit_event-IsSafe S ns principal name (some path) (some i) detail) (λ u. pure-IsSafe v)

-- The guards that the operations begin with.
pub guarded-IsSafe :
    {A : Type 0} (principal ns path op : Text) (m : Io A)
    → IsSafe m
    → IsSafe (lift (require_canonical path) >> (check_perm principal ns path op >> m))
guarded-IsSafe principal ns path op m safe =
    bind-IsSafe (lift (require_canonical path)) _ (lift-IsSafe (require_canonical path)) (λ u.
      bind-IsSafe (check_perm principal ns path op) _ (check_perm-IsSafe principal ns path op)
        (λ u. safe))
