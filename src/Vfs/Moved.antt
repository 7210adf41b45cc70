-- ===== src/Vfs/Moved.antt =====
-- What `move` leaves in a world where no other task runs.
pub mod Reads
use ai_vfs.Base.{
  ℕ, ◌+◌, ◌≡◌, ◌≢◌, refl, sym, ap, ◌∙◌, Bool, true, false, ◌&&◌, ◌||◌, Option, none, some, List, [],
  ◌∷◌, Text, text_eq, text_eq_iff, codes, inl, inr, any, ◌==◌, Bool-cases, arith, if◌then◌else◌,
}
use ai_vfs.Models.{FileMeta, VersionMeta, text}
use ai_vfs.Errors.{Result, ok, err, not_found}
use ai_vfs.Paths.Canonical.{require_canonical}
use ai_vfs.Store.Tables.{Meta}
use ai_vfs.Store.Files.{is_file, find_file, number_of, current_number, current_number-upsert_file}
use ai_vfs.Store.Versions.{has_id, has_version, find_version, is_version_of, pointer, put_version}
use ai_vfs.Store.Permissions.{allowed}
use ai_vfs.Store.History.{
  IsHistory, clash, has_version-cons, put_version-fresh, put_version-IsHistory,
}
use ai_vfs.World.{World, Blobs, Setup, operation, draw_id, read_clock}
use ai_vfs.Vfs.Audit.{audit_move}
use ai_vfs.Vfs.Quiet.{
  alone, SameFiles, operation-ok, check_perm_granted, get_file-alone, get_version-alone,
  audit_event-SameFiles, logged, continue-logged,
}
use ai_vfs.Vfs.Added.{Added, put}
use ai_vfs.Vfs.Write.{next_version_number}
use ai_vfs.Vfs.Write.Laws.{next_is_free}
use ai_vfs.Vfs.Read.{tombstone}
use ai_vfs.Vfs.Read.Laws.{live_version, next_is_free_behind}
use ai_vfs.Vfs.Transfer.{
  move, move_loop, move_round, copied, destination, put_both, committed_before, attempt,
}

module _ (S : Setup) (ns src dst principal : Text) (m : Meta) (b : Blobs) (ids ticks : ℕ)
    (f : FileMeta) (source : VersionMeta) where
  -- The destination's version and the source's tombstone.
  abbrev pub arrived : VersionMeta
  arrived =
      copied (S.new_id ids) ns dst (next_version_number (find_file ns dst m.files)) (S.clock ticks)
        principal source

  abbrev pub left : VersionMeta
  left =
      tombstone (S.new_id (ids + 1)) ns src (f.current_version_number + 1) (S.clock ticks) principal

  abbrev pub halfway : Meta
  halfway = put arrived m

  module _ (history : IsHistory m) (there : find_file ns src m.files ≡ some f)
      (other : text_eq dst src ≡ false) (fresh : has_id (S.new_id ids) m.versions ≡ false)
      (fresh' : has_id (S.new_id (ids + 1)) m.versions ≡ false)
      (distinct : text_eq (S.new_id ids) (S.new_id (ids + 1)) ≡ false) where
    pub arrived_is_new : clash arrived m ≡ false
    arrived_is_new = rw (fresh, next_is_free ns dst m history) refl

    pub left_is_new : clash left halfway ≡ false
    unfolding has_id any is_version_of
    left_is_new =
        let free = next_is_free_behind ns src m f history there in
        rw (has_version-cons, distinct, fresh', other, free) (ground arith)

    both_put : put_both S false arrived left m ≡ (ok tt, put left halfway)
    unfolding put_both
    both_put =
        rw (put_version-fresh arrived m arrived_is_new, put_version-fresh left halfway left_is_new)
          refl

    round-alone :
        move_round S ns src dst principal source none (alone m b ids ticks)
        ≡ (ok (some arrived, arrived), alone (put left halfway) b (ids + 1 + 1) (ticks + 1))
    unfolding move_round destination committed_before draw_id read_clock attempt
    round-alone =
        rw
          (
            get_file-alone m b ids ticks ns src,
            get_file-alone m b ids ticks ns dst,
            there,
            operation-ok m b (ids + 1 + 1) (ticks + 1) (put_both S false arrived left) tt
                (put left halfway) both_put,
          )
          refl

    loop-alone :
        move_loop S ns src dst principal source 4 none (alone m b ids ticks)
        ≡ (ok arrived, alone (put left halfway) b (ids + 1 + 1) (ticks + 1))
    unfolding move_loop
    loop-alone = rw round-alone refl

    -- The move adds the destination's version and then the source's tombstone.
    pub move-Added :
        require_canonical src ≡ ok tt
        → require_canonical dst ≡ ok tt
        → allowed principal ns src (codes "read") m.permissions ≡ true
        → allowed principal ns src (codes "delete") m.permissions ≡ true
        → allowed principal ns dst (codes "write") m.permissions ≡ true
        → find_version ns src none m.versions ≡ some source
        → source.is_tombstone ≡ false
        → (r : Result (Unit {0})) × (m' : Meta) × (move S ns src dst principal (alone m b ids ticks)
            ≡ (logged r arrived, alone m' b (ids + 1 + 1 + 1) (ticks + 1 + 1)))
          × Added left halfway m'
    unfolding move audit_move
    move-Added cs cd readable deletable writable e live =
        let (r, m₂, g, same, logs) =
          audit_event-SameFiles (put left halfway) b (ids + 1 + 1) (ticks + 1) S ns principal
            (codes "move") (some dst) (some (S.new_id ids)) ((codes "src_path", text src) ∷ []) in
        (
          r,
          m₂,
          rw
              (
                cs,
                cd,
                check_perm_granted m b ids ticks principal ns src (codes "read") readable,
                check_perm_granted m b ids ticks principal ns src (codes "delete") deletable,
                check_perm_granted m b ids ticks principal ns dst (codes "write") writable,
                get_version-alone m b ids ticks ns src none,
                e,
                live_version source (alone m b ids ticks) live,
                loop-alone,
                g,
              )
              (continue-logged r arrived _),
          record { versions = same.versions; files = same.files; permissions = same.permissions },
        )

    -- Between the two puts, the numbers are gapless and the source's file is as it was.
    pub halfway-IsHistory : IsHistory halfway
    unfolding next_version_number current_number
    halfway-IsHistory =
        (put_version-IsHistory arrived m history (omega arith, omega arith) none halfway
          (put_version-fresh arrived m arrived_is_new)).0

    pub source_number : left.version_number ≡ current_number ns src halfway.files + 1
    unfolding current_number number_of is_file
    source_number =
        rw (current_number-upsert_file ns src (pointer arrived) m.files, other, there)
          (ground arith)
