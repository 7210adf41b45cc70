-- ===== src/Tests/Interleavings.antt =====
-- The theorems on interleaved operations at concrete inputs, and runs that end badly.
use ai_vfs.Base.{ap, ◌+◌, ◌≡◌, refl, false, none, some, [], ◌∷◌, codes, All, arith}
use ai_vfs.Models.{VersionMeta}
use ai_vfs.Errors.{ok, err, not_found, is_a_directory}
use ai_vfs.Base.{true, false}
use ai_vfs.Store.Versions.{has_version}
use ai_vfs.Paths.Canonical.{require_canonical}
use ai_vfs.Store.Files.{get_file}
use ai_vfs.Store.Versions.{put_version, get_version, pointer}
use ai_vfs.World.{World, Stores, blob_put, blob_get, operation, draw_id, read_clock}
use ai_vfs.Vfs.Access.{check_perm, stat}
use ai_vfs.Vfs.Write.{write, write_attempt, write_again, put_indexed, next_version_number}
use ai_vfs.Vfs.Retry.{retry}
use ai_vfs.Vfs.Audit.{audit_write, audit_move, audit_delete, audit_rollback, audit_event, audit}
use ai_vfs.Store.Names.{append_audit_event}
use ai_vfs.Vfs.Interleaved.Cas.{write-expected}
use ai_vfs.Vfs.Read.{read, delete, rollback}
use ai_vfs.Vfs.Transfer.{
  copy, copied, move, move_loop, move_round, destination, committed_before, attempt, put_both,
}
use ai_vfs.Vfs.Interleaved.{Advance, IsFriendly}
use ai_vfs.Vfs.Interleaved.Laws.{write-interleaved, updates-interleaved}
use ai_vfs.Tests.Scene.{setup, ns, file, bob, scene, start, scene-IsHistory, other, stored_version}

-- Another task: a write of the same file, with identifiers of its own.
rival : Stores → Stores
rival s =
    (write setup ns file (codes "mine") bob none
      (record { stores = s; ids = 100; ticks = 100; others = [] })).1.stores

rival-IsFriendly : IsFriendly rival
unfolding rival
rival-IsFriendly s history =
    write-interleaved setup ns file (codes "mine") bob none
      (record { stores = s; ids = 100; ticks = 100; others = [] }) history tt

-- The rival writes between the read of the file and the put of the first attempt, and again later.
abbrev contested : World
contested = record start { others = (λ s. s) ∷ (λ s. s) ∷ (λ s. s) ∷ rival ∷ rival ∷ [] }

idle-IsFriendly : IsFriendly (λ s. s)
idle-IsFriendly s history = (history, λ ns path. omega arith)

tasks-IsFriendly : All IsFriendly contested.others
tasks-IsFriendly = (
  idle-IsFriendly,
  (idle-IsFriendly, (idle-IsFriendly, (rival-IsFriendly, (rival-IsFriendly, tt)))),
)

write-interleaved_example :
    Advance scene (write setup ns file (codes "bye") bob none contested).1.stores.meta
write-interleaved_example =
    write-interleaved setup ns file (codes "bye") bob none contested scene-IsHistory
      tasks-IsFriendly

updates-interleaved_example :
    Advance scene (delete setup ns file bob contested).1.stores.meta
    × Advance scene (rollback setup ns file 1 bob contested).1.stores.meta
    × Advance scene (copy setup ns file other bob none contested).1.stores.meta
updates-interleaved_example =
    updates-interleaved setup ns file other bob 1 none contested scene-IsHistory tasks-IsFriendly

-- A compare-and-swap write of the file at its current number.
abbrev cas_version : VersionMeta
cas_version = record {
  id = 0 ∷ [];
  file_path = file;
  namespace_id = ns;
  version_number = 2;
  content_hash = 35 ∷ codes "bye";
  size = 3;
  created_at = 0;
  created_by = bob;
  is_tombstone = false;
  search_meta = [];
  parent_version_id = none;
}

abbrev idle : World
idle = record start { others = (λ s. s) ∷ (λ s. s) ∷ [] }

cas_returns : (write setup ns file (codes "bye") bob (some 1) idle).0 ≡ ok cas_version
unfolding write write_attempt write_again put_indexed put_version blob_put check_perm get_file
    operation draw_id read_clock retry audit_write audit_event audit require_canonical
    next_version_number append_audit_event
cas_returns = refl

write-expected_example :
    (2 ≡ 1 + 1)
    × (has_version ns file 2 scene.versions ≡ false)
    × (has_version ns file 2
          (write setup ns file (codes "bye") bob (some 1) idle).1.stores.meta.versions
        ≡ true)
write-expected_example =
    write-expected setup ns file (codes "bye") bob 1 idle
      (write setup ns file (codes "bye") bob (some 1) idle).1 cas_version scene-IsHistory
      (idle-IsFriendly, (idle-IsFriendly, tt))
      (ap (λ r. (r, (write setup ns file (codes "bye") bob (some 1) idle).1)) cas_returns)

-- A task that writes the destination of a move just before the move's transaction.
taker : Stores → Stores
taker s =
    (write setup ns other (codes "mine") bob none
      (record { stores = s; ids = 100; ticks = 100; others = [] })).1.stores

abbrev taken : World
taken = record start {
  others = (λ s. s) ∷ (λ s. s) ∷ (λ s. s) ∷ (λ s. s) ∷ (λ s. s) ∷ (λ s. s) ∷ taker ∷ [];
}

-- The move returns, the source is gone, and the destination holds what the other task wrote.
moved : World
moved = (move setup ns file other bob taken).1

move_loses_content :
    ((move setup ns file other bob taken).0 ≡ ok (copied (0 ∷ []) ns other 1 0 bob stored_version))
    × ((read ns other bob none moved).0 ≡ ok (codes "mine"))
    × ((read ns file bob none moved).0 ≡ err not_found)
unfolding moved taker move move_loop move_round destination committed_before attempt put_both read
    write write_attempt write_again put_indexed put_version get_version blob_put blob_get check_perm
    get_file operation draw_id read_clock retry audit_write audit_move audit_event audit
    require_canonical next_version_number append_audit_event
move_loses_content = (refl, refl, refl)

-- A rollback to a deletion returns, and leaves a file that is listed as live but cannot be read.
undeleted : World
undeleted = (rollback setup ns file 2 bob (delete setup ns file bob start).1).1

rollback_to_tombstone :
    ((stat ns file bob undeleted).0
      ≡ ok (record (pointer stored_version) {
        current_version_id = 2 ∷ [];
        current_version_number = 3;
        updated_at = 2;
      }))
    × ((read ns file bob none undeleted).0 ≡ err is_a_directory)
unfolding undeleted rollback delete stat read put_version get_version blob_get check_perm get_file
    operation draw_id read_clock audit_delete audit_rollback audit_event audit require_canonical
    next_version_number append_audit_event
rollback_to_tombstone = (refl, refl)
