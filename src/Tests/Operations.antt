-- ===== src/Tests/Operations.antt =====
-- The theorems on the operations at concrete inputs, where no other task runs.
use ai_vfs.Base.{if◌then◌else◌, ◌+◌, ◌≡◌, none, some, [], ◌∷◌, codes}
use ai_vfs.Models.{VersionMeta}
use ai_vfs.Errors.{ok, err, not_found, conflict, permission_denied}
use ai_vfs.Store.Files.{current_number}
use ai_vfs.Store.Versions.{mem_text, pointer}
use ai_vfs.World.{World, add_blob}
use ai_vfs.Vfs.Quiet.{alone}
use ai_vfs.Vfs.Access.{check_perm, stat, versions}
use ai_vfs.Vfs.Write.{write}
use ai_vfs.Vfs.Read.{read, delete, rollback}
use ai_vfs.Vfs.Transfer.{copy, move}
use ai_vfs.Vfs.Grants.{grant}
use ai_vfs.Base.{arith, refl, false, any}
use ai_vfs.Store.Names.{has_event}
use ai_vfs.Store.Permissions.{has_permission_id}
use ai_vfs.Vfs.Granted.{grant-check_perm}
use ai_vfs.Vfs.Moved.Reads.{move-read}
use ai_vfs.Vfs.Read.Laws.{read-alone, read_result}
use ai_vfs.Vfs.RoundTrip.{write-read, write-read_old, delete-read, rollback-read, copy-read}
use ai_vfs.Vfs.Refused.{denied-unchanged, write-stale}
use ai_vfs.Tests.Scene.{
  setup, ns, file, bob, ann, hi, stored_version, scene, blobs, start, scene-IsHistory, is_fresh,
  may_read, may_write, may_delete, is_canonical, reads_hi, no_blob, file_is_there, other,
  other_is_canonical, may_write_other, may_read_other, reads_latest, ann_may_not, is_stale,
  elsewhere, is_fresh_too, ids_differ, administered, may_administer,
}

read-alone_example : read ns file bob none start ≡ (read_result ns file bob none scene blobs, start)
read-alone_example = read-alone ns file bob none scene blobs 0 0

unlogged : has_event (1 ∷ []) scene.audit_events ≡ false
unfolding has_event any
unlogged = refl

write-read_example :
    (v : VersionMeta) × (w : World) × (write setup ns file (codes "bye") bob none start ≡ (ok v, w))
    × (v.version_number ≡ current_number ns file scene.files + 1)
    × (read ns file bob none w ≡ (ok (codes "bye"), w))
write-read_example =
    write-read setup ns file (codes "bye") bob bob scene blobs 0 0 is_canonical may_write may_read
      scene-IsHistory is_fresh unlogged (omega arith) no_blob

write-read_old_example :
    let w = (write setup ns file (codes "bye") bob none start).1 in
    read ns file bob (some 1) w ≡ (ok hi, w)
write-read_old_example =
    write-read_old setup ns file (codes "bye") bob scene blobs 0 0 ns file bob hi 1 is_canonical
      may_write scene-IsHistory is_fresh reads_hi

delete-read_example :
    let w = (delete setup ns file bob start).1 in
    (read ns file bob none w ≡ (err not_found, w)) × (read ns file bob (some 1) w ≡ (ok hi, w))
delete-read_example =
    delete-read setup ns file bob scene blobs 0 0 (pointer stored_version) ns file bob hi 1
      is_canonical file_is_there may_delete may_read scene-IsHistory is_fresh reads_hi

rollback-read_example :
    let w = (rollback setup ns file 1 bob start).1 in
    (read ns file bob none w ≡ (ok hi, w)) × (read ns file bob (some 1) w ≡ (ok hi, w))
rollback-read_example =
    rollback-read setup ns file bob scene blobs 0 0 1 ns file bob bob hi hi 1 may_write
      scene-IsHistory is_fresh reads_hi reads_hi

copy-read_example :
    let w = (copy setup ns file other bob none start).1 in
    (read ns other bob none w ≡ (ok hi, w)) × (read ns file bob (some 1) w ≡ (ok hi, w))
copy-read_example =
    copy-read setup ns file other bob scene blobs 0 0 ns file bob bob hi hi 1 other_is_canonical
      may_read may_write_other may_read_other scene-IsHistory is_fresh reads_latest reads_hi

denied-unchanged_example :
    (read ns file ann none start ≡ (err permission_denied, start))
    × (stat ns file ann start ≡ (err permission_denied, start))
    × (versions ns file ann 10 none start ≡ (err permission_denied, start))
    × (write setup ns file hi ann none start ≡ (err permission_denied, start))
    × (rollback setup ns file 1 ann start ≡ (err permission_denied, start))
    × (delete setup ns file ann start ≡ (err permission_denied, start))
denied-unchanged_example =
    denied-unchanged setup ns file hi ann 1 10 none none none scene blobs 0 0 is_canonical
      (ann_may_not (codes "read")) (ann_may_not (codes "write")) (ann_may_not (codes "delete"))

write-stale_example :
    write setup ns file (codes "bye") bob (some 5) start
    ≡ (err conflict, alone scene (add_blob (35 ∷ codes "bye") (codes "bye") blobs) 1 1)
write-stale_example =
    write-stale setup ns file (codes "bye") bob 5 scene blobs 0 0 is_canonical may_write is_stale

move-read_example :
    let w = (move setup ns file other bob start).1 in
    (read ns other bob none w ≡ (ok hi, w))
    × (read ns file bob none w ≡ (err not_found, w))
    × (read ns file bob (some 1) w ≡ (ok hi, w))
move-read_example =
    move-read setup ns file other bob scene blobs 0 0 (pointer stored_version) ns file bob bob hi hi
      1 elsewhere other_is_canonical may_read may_delete may_write_other may_read_other
      file_is_there scene-IsHistory is_fresh is_fresh_too ids_differ reads_latest reads_hi

is_new_rule : has_permission_id (0 ∷ []) administered.permissions ≡ false
unfolding has_permission_id any
is_new_rule = refl

grant-check_perm_example :
    let w = (grant setup bob ann ns file (codes "read" ∷ []) (alone administered blobs 0 0)).1 in
    check_perm ann ns file (codes "read") w
    ≡ (if mem_text (codes "read") (codes "read" ∷ []) then ok tt else err permission_denied, w)
grant-check_perm_example =
    grant-check_perm setup bob ann ns file (codes "read") (codes "read" ∷ []) administered blobs 0 0
      is_canonical may_administer is_new_rule
