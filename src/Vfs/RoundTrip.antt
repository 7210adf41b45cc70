-- ===== src/Vfs/RoundTrip.antt =====
-- What `read` returns after `write`, `delete`, `rollback` and `copy`, where no other task runs.
use ai_vfs.Base.{
  ℕ, ◌+◌, ◌<◌, ◌≡◌, refl, sym, ap, ◌∙◌, ◌⊎◌, true, false, Option, none, some, [], ◌∷◌, Text, codes,
  length, arith,
}
use ai_vfs.Models.{FileMeta, VersionMeta}
use ai_vfs.Errors.{ok, err, not_found}
use ai_vfs.Paths.Canonical.{require_canonical}
use ai_vfs.Store.Tables.{Meta}
use ai_vfs.Store.Files.{find_file, number_of, current_number}
use ai_vfs.Store.Versions.{has_id, find_version}
use ai_vfs.Store.Permissions.{allowed}
use ai_vfs.Store.Names.{has_event}
use ai_vfs.Store.History.{IsHistory, clash}
use ai_vfs.World.{World, Blobs, Setup, find_blob, found, add_blob, blob_content}
use ai_vfs.Vfs.Quiet.{alone}
use ai_vfs.Vfs.Added.{Added, latest-Added}
use ai_vfs.Vfs.Write.{write, next_version_number}
use ai_vfs.Vfs.Write.Laws.{write-Added, written, next_is_free, find_blob-add_blob}
use ai_vfs.Vfs.Read.{read, delete, rollback, tombstone}
use ai_vfs.Vfs.Read.Laws.{
  read-alone, read_result-Added, read_result_ok, content_of, Grows, add_blob-Grows,
  next_is_free_behind,
}
use ai_vfs.Vfs.Restore.{delete-Added, rollback-Added, restored}
use ai_vfs.Vfs.Transfer.{copy}
use ai_vfs.Vfs.Copied.{copy-Added, copy_of}

pub next_is_behind :
    (ns path : Text) (m : Meta)
    → next_version_number (find_file ns path m.files) ≡ current_number ns path m.files + 1
unfolding next_version_number current_number
next_is_behind ns path m = refl

blob_content_hashed :
    (h : Text) (b : Blobs) → 0 < length h → blob_content h b ≡ found (find_blob h b)
blob_content_hashed [] b e = ground arith
blob_content_hashed (c ∷ h) b e = refl

-- The latest version of a path after one more version of it.
pub read_latest :
    (v : VersionMeta) (m m' : Meta) (b : Blobs) (ids ticks : ℕ) (reader : Text)
    → Added v m m'
    → IsHistory m
    → v.version_number ≡ current_number v.namespace_id v.file_path m.files + 1
    → require_canonical v.file_path ≡ ok tt
    → allowed reader v.namespace_id v.file_path (codes "read") m.permissions ≡ true
    → read v.namespace_id v.file_path reader none (alone m' b ids ticks)
      ≡ (content_of b (some v), alone m' b ids ticks)
read_latest v m m' b ids ticks reader a history number canonical may_read =
    rw
      (
        read-alone v.namespace_id v.file_path reader none m' b ids ticks,
        canonical,
        a.permissions,
        may_read,
        latest-Added v m m' a history number,
      )
      refl

-- A numbered version of any path after one more version.
pub read_kept :
    (v : VersionMeta) (m m' : Meta) (b b' : Blobs) (ids ticks ids' ticks' : ℕ)
    → Added v m m'
    → clash v m ≡ false
    → Grows b b'
    → (ns path reader : Text) (n : ℕ) (d : Text)
    → read ns path reader (some n) (alone m b ids ticks) ≡ (ok d, alone m b ids ticks)
    → read ns path reader (some n) (alone m' b' ids' ticks') ≡ (ok d, alone m' b' ids' ticks')
read_kept v m m' b b' ids ticks ids' ticks' a free g ns path reader n d before =
    read-alone ns path reader (some n) m' b' ids' ticks'
    ∙ ap (λ r. (r, alone m' b' ids' ticks'))
        (read_result-Added v m m' b b' a free g ns path reader n d
          (ap (λ x. x.0) (sym (read-alone ns path reader (some n) m b ids ticks) ∙ before)))

-- Where no other task runs, a write that is no compare-and-swap, by a principal who may write,
-- returns a version with the next number of the path, and every principal who may read then reads
-- the content that was written. The path is canonical, the numbers of every path are gapless, the
-- identifiers of the new version and of the audit event are unused, the hash of the content is not
-- empty, and no other content with the same hash is stored.
pub write-read :
    (S : Setup) (ns path content writer reader : Text) (m : Meta) (b : Blobs) (ids ticks : ℕ)
    → require_canonical path ≡ ok tt
    → allowed writer ns path (codes "write") m.permissions ≡ true
    → allowed reader ns path (codes "read") m.permissions ≡ true
    → IsHistory m
    → has_id (S.new_id ids) m.versions ≡ false
    → has_event (S.new_id (ids + 1)) m.audit_events ≡ false
    → 0 < length (S.blake3 content)
    → (find_blob (S.blake3 content) b ≡ none) ⊎ (find_blob (S.blake3 content) b ≡ some content)
    → (v : VersionMeta) × (w : World) × (write S ns path content writer none (alone m b ids ticks)
        ≡ (ok v, w))
      × (v.version_number ≡ current_number ns path m.files + 1)
      × (read ns path reader none w ≡ (ok content, w))
write-read S ns path content writer reader m b ids ticks canonical may_write may_read history fresh
      unlogged hashed unique =
    let (r, s, m', e, a, logs) =
      write-Added S ns path content writer m b ids ticks canonical may_write history fresh in
    let v = written S ns path content writer ids ticks (find_file ns path m.files) s in
    let number = next_is_behind ns path m in
    (
      v,
      _,
      rw (logs unlogged) at e,
      number,
      rw
          (
            read_latest v m m' (add_blob (S.blake3 content) content b) (ids + 1 + 1) (ticks + 1 + 1)
                reader a history number canonical may_read,
            blob_content_hashed (S.blake3 content) (add_blob (S.blake3 content) content b) hashed,
            find_blob-add_blob (S.blake3 content) content b unique,
          )
          refl,
    )

-- Where no other task runs, a write that is no compare-and-swap leaves what was read of every
-- numbered version of every path as it was, to every principal who could read it, and this also
-- where its audit event fails. The write is allowed, its path is canonical,
-- the numbers of every path are gapless, and the new identifier is unused.
pub write-read_old :
    (S : Setup) (ns path content writer : Text) (m : Meta) (b : Blobs) (ids ticks : ℕ)
    (ns' path' reader d : Text) (n : ℕ)
    → require_canonical path ≡ ok tt
    → allowed writer ns path (codes "write") m.permissions ≡ true
    → IsHistory m
    → has_id (S.new_id ids) m.versions ≡ false
    → read ns' path' reader (some n) (alone m b ids ticks) ≡ (ok d, alone m b ids ticks)
    → let w = (write S ns path content writer none (alone m b ids ticks)).1 in
      read ns' path' reader (some n) w ≡ (ok d, w)
write-read_old S ns path content writer m b ids ticks ns' path' reader d n canonical may_write
      history fresh before =
    let (r, s, m', e, a, logs) =
      write-Added S ns path content writer m b ids ticks canonical may_write history fresh in
    rw e (
      read_kept _ m m' b _ ids ticks (ids + 1 + 1) (ticks + 1 + 1) a
        (rw (fresh, next_is_free ns path m history) refl)
        (add_blob-Grows (S.blake3 content) content b) ns' path' reader n d before)

-- Where no other task runs, a delete by a principal who may delete leaves a path whose content
-- cannot be read any more: a read of the latest version raises NotFoundError, while what was read
-- of a numbered version of any path is still read. The file exists, its path is canonical, the
-- numbers of every path are gapless, and the new identifier is unused.
pub delete-read :
    (S : Setup) (ns path principal : Text) (m : Meta) (b : Blobs) (ids ticks : ℕ) (f : FileMeta)
    (ns' path' reader d : Text) (n : ℕ)
    → require_canonical path ≡ ok tt
    → find_file ns path m.files ≡ some f
    → allowed principal ns path (codes "delete") m.permissions ≡ true
    → allowed reader ns path (codes "read") m.permissions ≡ true
    → IsHistory m
    → has_id (S.new_id ids) m.versions ≡ false
    → read ns' path' reader (some n) (alone m b ids ticks) ≡ (ok d, alone m b ids ticks)
    → let w = (delete S ns path principal (alone m b ids ticks)).1 in
      (read ns path reader none w ≡ (err not_found, w))
      × (read ns' path' reader (some n) w ≡ (ok d, w))
delete-read S ns path principal m b ids ticks f ns' path' reader d n canonical there may_delete
      may_read history fresh before =
    let (r, m', e, a) =
      delete-Added S ns path principal m b ids ticks canonical history fresh f there may_delete in
    let v =
      tombstone (S.new_id ids) ns path (f.current_version_number + 1) (S.clock ticks) principal in
    let number : v.version_number ≡ current_number ns path m.files + 1 =
      unfold current_number number_of in rw there refl in
    rw e (
      read_latest v m m' b (ids + 1 + 1) (ticks + 1 + 1) reader a history number canonical may_read,
      read_kept v m m' b b ids ticks (ids + 1 + 1) (ticks + 1 + 1) a
          (rw (fresh, next_is_free_behind ns path m f history there) refl) (λ h x q. q) ns' path'
          reader n d before,
    )

-- What a successful read says: the path is canonical, the reader may read it, and the version is
-- live and its blob is stored.
pub read_ok :
    (ns path reader : Text) (n : Option ℕ) (m : Meta) (b : Blobs) (ids ticks : ℕ) (d : Text)
    → read ns path reader n (alone m b ids ticks) ≡ (ok d, alone m b ids ticks)
    → (require_canonical path ≡ ok tt)
      × (allowed reader ns path (codes "read") m.permissions ≡ true)
      × (v : VersionMeta) × (find_version ns path n m.versions ≡ some v)
      × (v.is_tombstone ≡ false)
      × (blob_content v.content_hash b ≡ ok d)
read_ok ns path reader n m b ids ticks d before =
    read_result_ok ns path reader n m b d
      (ap (λ x. x.0) (sym (read-alone ns path reader n m b ids ticks) ∙ before))

-- Where no other task runs, a rollback of a path to one of its versions makes a read of the latest
-- version return what a read of that version returned, to every principal who could read it, and
-- what was read of a numbered version of any path is still read. The principal may write, the
-- numbers of every path are gapless, and the new identifier is unused.
pub rollback-read :
    (S : Setup) (ns path principal : Text) (m : Meta) (b : Blobs) (ids ticks target : ℕ)
    (ns' path' reader reader' d d' : Text) (n : ℕ)
    → allowed principal ns path (codes "write") m.permissions ≡ true
    → IsHistory m
    → has_id (S.new_id ids) m.versions ≡ false
    → read ns path reader (some target) (alone m b ids ticks) ≡ (ok d, alone m b ids ticks)
    → read ns' path' reader' (some n) (alone m b ids ticks) ≡ (ok d', alone m b ids ticks)
    → let w = (rollback S ns path target principal (alone m b ids ticks)).1 in
      (read ns path reader none w ≡ (ok d, w)) × (read ns' path' reader' (some n) w ≡ (ok d', w))
rollback-read S ns path principal m b ids ticks target ns' path' reader reader' d d' n may_write
      history fresh before before' =
    let (canonical, may_read, t, there, live, shows) =
      read_ok ns path reader (some target) m b ids ticks d before in
    let (r, m', e, a) =
      rollback-Added S ns path principal m b ids ticks canonical history fresh target t there
        may_write in
    let v = restored S ns path principal m b ids ticks canonical history fresh t in
    rw e (
      read_latest v m m' b (ids + 1 + 1) (ticks + 1 + 1) reader a history (next_is_behind ns path m)
            canonical may_read
          ∙ ap (λ r. (r, alone m' b (ids + 1 + 1) (ticks + 1 + 1))) shows,
      read_kept v m m' b b ids ticks (ids + 1 + 1) (ticks + 1 + 1) a
          (rw (fresh, next_is_free ns path m history) refl) (λ h x q. q) ns' path' reader' n d'
          before',
    )

-- Where no other task runs, a copy that is no compare-and-swap makes the destination read as the source did: a read of the
-- latest version of `dst` returns what a read of the latest version of `src` returned, to every
-- principal who may read both, and what was read of a numbered version of any path is still read.
-- The principal may read the source and write the destination, the destination is canonical, the
-- numbers of every path are gapless, and the new identifier is unused.
pub copy-read :
    (S : Setup) (ns src dst principal : Text) (m : Meta) (b : Blobs) (ids ticks : ℕ)
    (ns' path' reader reader' d d' : Text) (n : ℕ)
    → require_canonical dst ≡ ok tt
    → allowed principal ns src (codes "read") m.permissions ≡ true
    → allowed principal ns dst (codes "write") m.permissions ≡ true
    → allowed reader ns dst (codes "read") m.permissions ≡ true
    → IsHistory m
    → has_id (S.new_id ids) m.versions ≡ false
    → read ns src reader none (alone m b ids ticks) ≡ (ok d, alone m b ids ticks)
    → read ns' path' reader' (some n) (alone m b ids ticks) ≡ (ok d', alone m b ids ticks)
    → let w = (copy S ns src dst principal none (alone m b ids ticks)).1 in
      (read ns dst reader none w ≡ (ok d, w)) × (read ns' path' reader' (some n) w ≡ (ok d', w))
copy-read S ns src dst principal m b ids ticks ns' path' reader reader' d d' n canonical readable
      writable may_read history fresh before before' =
    let (from, _, source, there, live, shows) = read_ok ns src reader none m b ids ticks d before in
    let (r, m', e, a) =
      copy-Added S ns src dst principal m b ids ticks history fresh source from canonical readable
        writable there live in
    let v = copy_of S ns src dst principal m b ids ticks history fresh source in
    rw e (
      read_latest v m m' b (ids + 1 + 1) (ticks + 1 + 1) reader a history (next_is_behind ns dst m)
            canonical may_read
          ∙ ap (λ r. (r, alone m' b (ids + 1 + 1) (ticks + 1 + 1))) shows,
      read_kept v m m' b b ids ticks (ids + 1 + 1) (ticks + 1 + 1) a
          (rw (fresh, next_is_free ns dst m history) refl) (λ h x q. q) ns' path' reader' n d'
          before',
    )
