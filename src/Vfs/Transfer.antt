-- ===== src/Vfs/Transfer.antt =====
-- `copy` and `move` of vfs.py.
use ai_vfs.Base.{
  ℕ, zero, suc, ◌+◌, Bool, true, false, Option, none, some, Text, codes, leb, if◌then◌else◌,
}
use ai_vfs.Models.{FileMeta, VersionMeta}
use ai_vfs.Errors.{Result, ok, err, version_collision, attribute_error, is_collision}
use ai_vfs.Exec.{pure, raise, lift, ◌>>=◌, ◌>>◌}
use ai_vfs.Paths.Canonical.{require_canonical}
use ai_vfs.Store.Tables.{Sql}
use ai_vfs.Store.Files.{get_file}
use ai_vfs.Store.Versions.{get_version, put_version}
use ai_vfs.World.{World, Io, Setup, operation, draw_id, read_clock, is_some}
use ai_vfs.Vfs.Audit.{audit_copy, audit_move}
use ai_vfs.Vfs.Access.{check_perm}
use ai_vfs.Vfs.Retry.{retry}
use ai_vfs.Vfs.Write.{next_version_number}
use ai_vfs.Vfs.Read.{live_or_not_found, tombstone}

-- The version that `copy` and `move` create at the destination: the source's content and manifest.
abbrev pub copied : Text → Text → Text → ℕ → ℕ → Text → VersionMeta → VersionMeta
copied version_id ns dst number now principal src_version = record {
  id = version_id;
  file_path = dst;
  namespace_id = ns;
  version_number = number;
  content_hash = src_version.content_hash;
  size = src_version.size;
  created_at = now;
  created_by = principal;
  is_tombstone = false;
  search_meta = src_version.search_meta;
  parent_version_id = none;
}

-- `try: … except VersionCollisionError`: `none` for the collision.
abbrev pub catch_collision : {A : Type 0} → Result A × World → Result (Option A) × World
catch_collision (ok a, w) = (ok (some a), w)
catch_collision (err e, w) = (if is_collision e then ok none else err e, w)

unfoldable pub attempt : {A : Type 0} → Io A → Io (Option A)
unfolding is_collision
attempt m w = catch_collision (m w)

-- `dst_committed`: the version of an earlier attempt, if the destination has reached its number.
unfoldable pub committed_before : Option VersionMeta → Option FileMeta → Option VersionMeta
committed_before (some v) (some f) =
    if leb v.version_number f.current_version_number then some v else none
committed_before _ _ = none

-- `src_file.current_version_number`, where `src_file` may be `None`.
abbrev pub file_or_attribute_error : Option FileMeta → Io FileMeta
file_or_attribute_error none = raise attribute_error
file_or_attribute_error (some f) = pure f

module _ (S : Setup) where
  unfoldable pub copy_attempt : Text → Text → Text → Option ℕ → VersionMeta → Io VersionMeta
  copy_attempt ns dst principal expected src_version = do
    dst_file ← operation (get_file ns dst)
    now ← read_clock S
    version_id ← draw_id S
    let v = copied version_id ns dst (next_version_number dst_file) now principal src_version
    operation (put_version v expected)
    pure v

  unfoldable pub copy : Text → Text → Text → Text → Option ℕ → Io VersionMeta
  copy ns src dst principal expected = do
    lift (require_canonical src)
    lift (require_canonical dst)
    check_perm principal ns src (codes "read")
    check_perm principal ns dst (codes "write")
    found ← operation (get_version ns src none)
    src_version ← live_or_not_found found
    v ←
        retry 4 (is_some expected) (copy_attempt ns dst principal expected src_version)
          (copy_attempt ns dst principal expected src_version)
    audit_copy S ns principal src dst v.id
    pure v

  -- The destination's version of this round, and whether it is written already.
  unfoldable pub destination :
      Text
      → Text
      → Text
      → VersionMeta
      → Option VersionMeta
      → Option FileMeta
      → ℕ
      → Io (Bool × VersionMeta)
  unfolding committed_before draw_id next_version_number
  destination ns dst principal src_version previous dst_file now =
      elim (committed_before previous dst_file) [
        | some v ↦ pure (true, v)
        | none ↦ do
          version_id ← draw_id S
          pure (
            false,
            copied version_id ns dst (next_version_number dst_file) now principal src_version,
          )
      ]

  -- The transaction: the destination first, then the source's tombstone.
  unfoldable pub put_both : Bool → VersionMeta → VersionMeta → Sql (Unit {0})
  unfolding put_version
  put_both true v t = put_version t none
  put_both false v t = do put_version v none; put_version t none

  -- `previous` is the version of the last attempt, whose number is `_last_dst_attempt`; `more`
  -- counts the attempts that are left after this one.
  unfoldable pub move_round :
      Text
      → Text
      → Text
      → Text
      → VersionMeta
      → Option VersionMeta
      → Io (Option VersionMeta × VersionMeta)
  move_round ns src dst principal src_version previous = do
    src_found ← operation (get_file ns src)
    dst_file ← operation (get_file ns dst)
    now ← read_clock S
    (is_committed, v) ← destination ns dst principal src_version previous dst_file now
    tombstone_id ← draw_id S
    src_file ← file_or_attribute_error src_found
    let t = tombstone tombstone_id ns src (src_file.current_version_number + 1) now principal
    done ← attempt (operation (put_both is_committed v t))
    pure (elim done [ none ↦ none | some u ↦ some v ], v)

  unfoldable pub move_loop :
      Text → Text → Text → Text → VersionMeta → ℕ → Option VersionMeta → Io VersionMeta
  move_loop ns src dst principal src_version zero previous = do
    (done, v) ← move_round ns src dst principal src_version previous
    elim done [ some u ↦ pure u | none ↦ raise version_collision ]
  move_loop ns src dst principal src_version (suc more) previous = do
    (done, v) ← move_round ns src dst principal src_version previous
    elim done [ some u ↦ pure u | none ↦ move_loop ns src dst principal src_version more (some v) ]

  unfoldable pub move : Text → Text → Text → Text → Io VersionMeta
  move ns src dst principal = do
    lift (require_canonical src)
    lift (require_canonical dst)
    check_perm principal ns src (codes "read")
    check_perm principal ns src (codes "delete")
    check_perm principal ns dst (codes "write")
    found ← operation (get_version ns src none)
    src_version ← live_or_not_found found
    v ← move_loop ns src dst principal src_version 4 none
    audit_move S ns principal src dst v.id
    pure v
