-- ===== src/Session/Cwd.antt =====
-- The working directory of a session: `cd`, and what the session's operations read.
use ai_vfs.Base.{
  ℕ, ◌≡◌, refl, ap, true, false, Option, [], ◌∷◌, ◌++◌, Text, codes, starts_with, ends_with,
  ends_with-append, if◌then◌else◌, Bool-cases, inl, inr, ◌⊎◌,
}
use ai_vfs.Errors.{Error, Result-cases, ok, err, permission_denied}
use ai_vfs.Paths.Posix.{slash, join}
use ai_vfs.Paths.Canonical.{require_canonical, resolve_path}
use ai_vfs.Paths.Canonical.Laws.{
  CanonicalForm, file_form, dir_form, guard_passed, accepts-form, form-of_accepted,
  require_canonical-resolve_path,
}
use ai_vfs.Store.Tables.{Meta}
use ai_vfs.Store.Versions.{find_version}
use ai_vfs.Store.Permissions.{allowed}
use ai_vfs.World.{Blobs}
use ai_vfs.Vfs.Quiet.{alone}
use ai_vfs.Vfs.Access.{check_perm}
use ai_vfs.Vfs.Read.Laws.{read-alone, content_of}
use ai_vfs.Session.{Shell, as_directory, cd, read, resolved}

-- A directory that the guard accepts.
pub record IsDirectory (path : Text) : Type 0 where
  pub canonical : require_canonical path ≡ ok tt
  pub slashed : ends_with path slash ≡ true
  pub rooted : starts_with path (codes "/") ≡ true

slashed_form :
    (path : Text)
    → CanonicalForm path
    → ends_with path slash ≡ false
    → CanonicalForm (path ++ (slash ∷ []))
slashed_form path (file_form r ts root segs e) open_end =
    dir_form r ts root segs (ap (λ p. p ++ (slash ∷ [])) e)
slashed_form path (dir_form r ts root segs e) open_end =
    cc (ends_with-append (r ++ join ts) slash, ap (λ p. ends_with p slash) e, open_end)

canonical-IsDirectory :
    (path : Text) → require_canonical path ≡ ok tt → IsDirectory (as_directory path)
unfolding as_directory
canonical-IsDirectory path h = elim (Bool-cases (ends_with path slash)) [
  | inl e ↦ rw e (record { canonical = h; slashed = e; rooted = (guard_passed path h).0 })
  | inr e ↦
      let canonical = accepts-form _ (slashed_form path (form-of_accepted path h) e) in
      rw e (record {
        canonical = canonical;
        slashed = ends_with-append path slash;
        rooted = (guard_passed _ canonical).0;
      })
]

-- The target of `cd` from a directory is a directory.
pub target-IsDirectory :
    (cwd path : Text) → IsDirectory cwd → IsDirectory (as_directory (resolve_path cwd path))
target-IsDirectory cwd path h =
    canonical-IsDirectory (resolve_path cwd path) (require_canonical-resolve_path cwd path h.rooted)

-- From a working directory that is a canonical path with a trailing slash, `cd` either succeeds, and
-- the working directory is then the resolved argument as a directory, canonical and with a trailing
-- slash again, or raises, and then the working directory is the old one.
pub cd-cwd :
    (ns principal path : Text) (s : Shell)
    → IsDirectory s.cwd
    → (((cd ns principal path s).0 ≡ ok tt)
        × ((cd ns principal path s).1.cwd ≡ as_directory (resolve_path s.cwd path))
        × IsDirectory (cd ns principal path s).1.cwd)
      ⊎ ((e : Error) × ((cd ns principal path s).0 ≡ err e)
          × ((cd ns principal path s).1.cwd ≡ s.cwd))
unfolding cd resolved
cd-cwd ns principal path s h =
    elim (Result-cases
      (check_perm principal ns (as_directory (resolve_path s.cwd path)) (codes "read") s.world).0) [
        | inl (done, e) ↦ inl (rw e (refl, refl, target-IsDirectory s.cwd path h))
        | inr (x, e) ↦ inr (x, rw e refl, rw e refl)
      ]

-- Where no other task runs, a session at a rooted working directory reads the version of the resolved
-- path: the canonical-form guard never refuses what a session resolves, so the result is the
-- content of that version, or PermissionDeniedError, NotFoundError or, for a version with the empty
-- hash, IsADirectoryError, and nothing changes.
pub session_read-alone :
    (ns principal path cwd : Text) (n : Option ℕ) (m : Meta) (b : Blobs) (ids ticks count : ℕ)
    → IsDirectory cwd
    → let s : Shell = record { world = alone m b ids ticks; cwd = cwd; count = count } in
      read ns principal path n s ≡ (
        if allowed principal ns (resolve_path cwd path) (codes "read") m.permissions
            then content_of b (find_version ns (resolve_path cwd path) n m.versions)
            else err permission_denied,
        s,
      )
unfolding read resolved
session_read-alone ns principal path cwd n m b ids ticks count h =
    rw
      (
        read-alone ns (resolve_path cwd path) principal n m b ids ticks,
        require_canonical-resolve_path cwd path h.rooted,
      )
      refl
