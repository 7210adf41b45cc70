-- ===== src/Vfs/Refused.antt =====
-- Calls that are refused: without the permission, and a compare-and-swap that has lost.
use ai_vfs.Base.{
  ℕ, zero, suc, List, ◌+◌, ◌≡◌, refl, inl, inr, Bool, true, false, Option, none, some, [], ◌∷◌,
  Text, codes, Bool-cases,
}
use ai_vfs.Models.{FileMeta, VersionMeta, artifact_dict}
use ai_vfs.Errors.{Result, ok, err, conflict, permission_denied, is_collision}
use ai_vfs.Exec.{continue, pure}
use ai_vfs.Paths.Canonical.{require_canonical}
use ai_vfs.Store.Tables.{Meta}
use ai_vfs.Store.Files.{current_number, find_file}
use ai_vfs.Store.Versions.{cas_files, put_version, put_cas}
use ai_vfs.Store.TextIndex.{NativeTextSearch, index_text, ready_artifact}
use ai_vfs.Store.Permissions.{allowed}
use ai_vfs.Store.History.{cas_files-hit}
use ai_vfs.World.{World, Io, Blobs, Setup, draw_id, read_clock, add_blob}
use ai_vfs.Vfs.Quiet.{
  alone, operation-raises, check_perm_granted, check_perm_denied, get_file-alone, blob_put-alone,
}
use ai_vfs.Vfs.Access.{stat, versions}
use ai_vfs.Vfs.Retry.{retry, or_retry}
use ai_vfs.Vfs.Write.{with_manifest, put_decoded, put_indexed, write_attempt, write_again, write}
use ai_vfs.Vfs.Read.{read, delete, rollback}

-- Where no other task runs, a principal who may neither read, write nor delete a canonical path gets
-- PermissionDeniedError from `read`, `stat`, `versions`, `write`, `rollback` and `delete` of it, and
-- nothing is changed: no blob, no metadata, no audit event.
pub denied-unchanged :
    (S : Setup) (ns path content principal : Text) (n limit : ℕ) (number before expected : Option ℕ)
    (m : Meta) (b : Blobs) (ids ticks : ℕ)
    → require_canonical path ≡ ok tt
    → allowed principal ns path (codes "read") m.permissions ≡ false
    → allowed principal ns path (codes "write") m.permissions ≡ false
    → allowed principal ns path (codes "delete") m.permissions ≡ false
    → let w = alone m b ids ticks in
      (read ns path principal number w ≡ (err permission_denied, w))
      × (stat ns path principal w ≡ (err permission_denied, w))
      × (versions ns path principal limit before w ≡ (err permission_denied, w))
      × (write S ns path content principal expected w ≡ (err permission_denied, w))
      × (rollback S ns path n principal w ≡ (err permission_denied, w))
      × (delete S ns path principal w ≡ (err permission_denied, w))
unfolding read stat versions write rollback delete
denied-unchanged S ns path content principal n limit number before expected m b ids ticks canonical
      r w d =
    let no = check_perm_denied m b ids ticks principal ns path in
    (
      rw (canonical, no (codes "read") r),
      rw (canonical, no (codes "read") r),
      rw (canonical, no (codes "read") r),
      rw (canonical, no (codes "write") w),
      rw (canonical, no (codes "write") w),
      rw (canonical, no (codes "delete") d),
    )

-- A compare-and-swap put whose expected number is not the current one.
put_version-conflict :
    (v : VersionMeta) (e : ℕ) (m : Meta)
    → (cas_files v e m.files).0 ≡ false
    → (put_version v (some e) m).0 ≡ err conflict
unfolding put_version put_cas
put_version-conflict v e m h = rw h refl

then_raises :
    (r : Result (Unit {0}) × Meta) (v : VersionMeta)
    → r.0 ≡ err conflict
    → (continue r.0 (λ u. pure v) r.1).0 ≡ err conflict
then_raises (ok u, m) v e = cc e
then_raises (err x, m) v e = cc e

put_decoded-conflict :
    (nts : NativeTextSearch) (v : VersionMeta) (now e : ℕ) (decoded : Option Text) (m : Meta)
    → (cas_files v e m.files).0 ≡ false
    → (put_decoded nts v now (some e) decoded m).0 ≡ err conflict
unfolding put_decoded index_text cas_files
put_decoded-conflict nts v now e none m h = then_raises _ _ (put_version-conflict _ e m h)
put_decoded-conflict nts v now e (some t) m h =
    let v' = with_manifest v (
      (nts.provider_key, artifact_dict (ready_artifact nts v.content_hash nts.params_hash now))
      ∷ []) in
    let m' = (index_text nts v.content_hash nts.params_hash t now m).1 in
    then_raises (put_version v' (some e) m') v' (put_version-conflict v' e m' h)

put_indexed-conflict :
    (S : Setup) (nts : Option NativeTextSearch) (v : VersionMeta) (content : Text) (now e : ℕ)
    (m : Meta)
    → (cas_files v e m.files).0 ≡ false
    → (put_indexed S nts v content now (some e) m).0 ≡ err conflict
unfolding put_indexed
put_indexed-conflict S none v content now e m h = then_raises _ _ (put_version-conflict v e m h)
put_indexed-conflict S (some nts) v content now e m h =
    put_decoded-conflict nts v now e (S.decode content) m h

cas_files-miss :
    (v : VersionMeta) (e : ℕ) (fs : List FileMeta)
    → ¬ (current_number v.namespace_id v.file_path fs ≡ e)
    → (cas_files v e fs).0 ≡ false
cas_files-miss v e fs n = elim (Bool-cases (cas_files v e fs).0) [
  | inl h ↦ elim (n (cas_files-hit v e fs h)) [ ]
  | inr h ↦ h
]

raised :
    (more : ℕ) (cas : Bool) (first again : Io VersionMeta) (w w' : World)
    → first w ≡ (err conflict, w')
    → retry more cas first again w ≡ (err conflict, w')
unfolding retry or_retry is_collision
raised zero cas first again w w' e = rw e
raised (suc more) cas first again w w' e = rw e

module _ (S : Setup) (ns path content principal : Text) (expected : ℕ) (m : Meta) (b : Blobs)
    (ids ticks : ℕ) where
  write_attempt-conflict :
      (f : Option FileMeta)
      → ¬ (current_number ns path m.files ≡ expected)
      → write_attempt S ns path content principal (some expected) f (alone m b ids ticks)
        ≡ (err conflict, alone m b (ids + 1) (ticks + 1))
  unfolding write_attempt draw_id read_clock
  write_attempt-conflict f stale = operation-raises m b (ids + 1) (ticks + 1) _ conflict (
      put_indexed-conflict S S.native_text_search _ content (S.clock ticks) expected m
        (cas_files-miss _ expected m.files stale))

-- Where no other task runs, a compare-and-swap write that expects another number than the current
-- one of its path raises ConflictError at once, and leaves the metadata and the audit log as they
-- were; of the write only the blob stays. The path is canonical and the principal may write.
pub write-stale :
    (S : Setup) (ns path content principal : Text) (expected : ℕ) (m : Meta) (b : Blobs)
    (ids ticks : ℕ)
    → require_canonical path ≡ ok tt
    → allowed principal ns path (codes "write") m.permissions ≡ true
    → ¬ (current_number ns path m.files ≡ expected)
    → write S ns path content principal (some expected) (alone m b ids ticks)
      ≡ (err conflict, alone m (add_blob (S.blake3 content) content b) (ids + 1) (ticks + 1))
unfolding write
write-stale S ns path content principal expected m b ids ticks canonical granted stale =
    let b' = add_blob (S.blake3 content) content b in
    rw (
      canonical,
      check_perm_granted m b ids ticks principal ns path (codes "write") granted,
      blob_put-alone m b ids ticks (S.blake3 content) content,
      get_file-alone m b' ids ticks ns path,
      raised 4 true _ (write_again S ns path content principal (some expected)) _ _ (
          write_attempt-conflict S ns path content principal expected m b' ids ticks
            (find_file ns path m.files) stale),
    )
