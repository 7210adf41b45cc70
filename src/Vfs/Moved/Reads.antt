-- ===== src/Vfs/Moved/Reads.antt =====
-- What `read` returns after `move`, where no other task runs.
use ai_vfs.Base.{
  text_eq, text_eq_iff, ℕ, ◌+◌, ◌≡◌, refl, sym, ap, arith, ◌∙◌, true, false, none, some, Text,
  codes,
}
use ai_vfs.Models.{FileMeta, VersionMeta}
use ai_vfs.Errors.{Result, ok, err, not_found}
use ai_vfs.Paths.Canonical.{require_canonical}
use ai_vfs.Store.Tables.{Meta}
use ai_vfs.Store.Files.{find_file}
use ai_vfs.Store.Versions.{is_version_of, has_id}
use ai_vfs.Store.Permissions.{allowed}
use ai_vfs.Store.History.{IsHistory}
use ai_vfs.World.{Blobs, Setup}
use ai_vfs.Vfs.Quiet.{alone}
use ai_vfs.Vfs.Added.{put-Added, latest_other-Added, Added}
use ai_vfs.Vfs.Read.{read}
use ai_vfs.Vfs.Read.Laws.{read-alone, read_result}
use ai_vfs.Vfs.Transfer.{move}
use ai_vfs.Vfs.Moved.{
  arrived, left, halfway, arrived_is_new, left_is_new, halfway-IsHistory, source_number, move-Added,
}
use ai_vfs.Vfs.RoundTrip.{read_latest, read_kept, read_ok, next_is_behind}

-- The latest version of another path is not touched by one more version.
pub read_other :
    (t : VersionMeta) (m m' : Meta) (b : Blobs) (ids ticks ids' ticks' : ℕ) (ns path reader : Text)
    (r : Result Text)
    → Added t m m'
    → is_version_of ns path t ≡ false
    → read ns path reader none (alone m b ids ticks) ≡ (r, alone m b ids ticks)
    → read ns path reader none (alone m' b ids' ticks') ≡ (r, alone m' b ids' ticks')
read_other t m m' b ids ticks ids' ticks' ns path reader r a other before =
    let result : read_result ns path reader none m b ≡ r =
      ap (λ x. x.0) (sym (read-alone ns path reader none m b ids ticks) ∙ before) in
    let same : read_result ns path reader none m' b ≡ read_result ns path reader none m b =
      rw (a.permissions, latest_other-Added t m m' a ns path other) refl in
    read-alone ns path reader none m' b ids' ticks'
    ∙ ap (λ x. (x, alone m' b ids' ticks')) (same ∙ result)

-- Where no other task runs, a move to another path makes the destination read as the source did,
-- to every principal who may read both; the source is not found any more, and what was read of a
-- numbered version of any path is still read. The principal may read and delete the source and
-- write the destination, the destination is canonical, the source is a file, the numbers of every
-- path are gapless, and the two new identifiers are unused and distinct.
pub move-read :
    (S : Setup) (ns src dst principal : Text) (m : Meta) (b : Blobs) (ids ticks : ℕ) (f : FileMeta)
    (ns' path' reader reader' d d' : Text) (n : ℕ)
    → text_eq dst src ≡ false
    → require_canonical dst ≡ ok tt
    → allowed principal ns src (codes "read") m.permissions ≡ true
    → allowed principal ns src (codes "delete") m.permissions ≡ true
    → allowed principal ns dst (codes "write") m.permissions ≡ true
    → allowed reader ns dst (codes "read") m.permissions ≡ true
    → find_file ns src m.files ≡ some f
    → IsHistory m
    → has_id (S.new_id ids) m.versions ≡ false
    → has_id (S.new_id (ids + 1)) m.versions ≡ false
    → text_eq (S.new_id ids) (S.new_id (ids + 1)) ≡ false
    → read ns src reader none (alone m b ids ticks) ≡ (ok d, alone m b ids ticks)
    → read ns' path' reader' (some n) (alone m b ids ticks) ≡ (ok d', alone m b ids ticks)
    → let w = (move S ns src dst principal (alone m b ids ticks)).1 in
      (read ns dst reader none w ≡ (ok d, w))
      × (read ns src reader none w ≡ (err not_found, w))
      × (read ns' path' reader' (some n) w ≡ (ok d', w))
move-read S ns src dst principal m b ids ticks f ns' path' reader reader' d d' n other canonical
      readable deletable writable may_read there history fresh fresh' distinct before before' =
    let (from, may_read_src, source, current, live, shows) =
      read_ok ns src reader none m b ids ticks d before in
    let (r, m', e, a) =
      move-Added S ns src dst principal m b ids ticks f source history there other fresh fresh'
        distinct from canonical readable deletable writable current live in
    let v = arrived S ns src dst principal m b ids ticks f source in
    let t = left S ns src dst principal m b ids ticks f source in
    let half = halfway S ns src dst principal m b ids ticks f source in
    let away : is_version_of ns dst t ≡ false =
      unfold is_version_of in ground (arith, text_eq_iff src dst, text_eq_iff dst src) in
    let half_history =
      halfway-IsHistory S ns src dst principal m b ids ticks f source history there other fresh
        fresh' distinct in
    rw e (
      read_other t half m' b ids ticks (ids + 1 + 1 + 1) (ticks + 1 + 1) ns dst reader (ok d) a away
          (read_latest v m half b ids ticks reader (put-Added v m) history (next_is_behind ns dst m)
              canonical may_read
            ∙ ap (λ r. (r, alone half b ids ticks)) shows),
      read_latest t half m' b (ids + 1 + 1 + 1) (ticks + 1 + 1) reader a half_history
          (source_number S ns src dst principal m b ids ticks f source history there other fresh
            fresh' distinct)
          from may_read_src,
      read_kept t half m' b b ids ticks (ids + 1 + 1 + 1) (ticks + 1 + 1) a
          (left_is_new S ns src dst principal m b ids ticks f source history there other fresh
            fresh' distinct)
          (λ h x q. q) ns' path' reader' n d'
          (read_kept v m half b b ids ticks ids ticks (put-Added v m)
            (arrived_is_new S ns src dst principal m b ids ticks f source history there other fresh
              fresh' distinct)
            (λ h x q. q) ns' path' reader' n d' before'),
    )
