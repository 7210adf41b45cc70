-- ===== src/Vfs/Interleaved/Laws.antt =====
-- `write`, `delete`, `rollback` and `copy` keep the histories whatever runs beside them.
use ai_vfs.Base.{ℕ, Option, Text, All}
use ai_vfs.Store.History.{IsHistory}
use ai_vfs.World.{World, Setup}
use ai_vfs.Vfs.Write.{write}
use ai_vfs.Vfs.Read.{delete, rollback}
use ai_vfs.Vfs.Transfer.{copy}
use ai_vfs.Vfs.Interleaved.{Advance, IsFriendly, IsGood}
use ai_vfs.Vfs.Interleaved.Writes.{write-IsSafe}
use ai_vfs.Vfs.Interleaved.Updates.{delete-IsSafe, rollback-IsSafe, copy-IsSafe}

-- Whatever the other tasks do between the steps of a write, whether or not it is a compare-and-swap
-- and whether it returns or raises, the numbers of every path stay gapless and no path loses a
-- number, if that is so of each step of the other tasks.
pub write-interleaved :
    (S : Setup) (ns path content principal : Text) (expected : Option ℕ) (w : World)
    → IsHistory w.stores.meta
    → All IsFriendly w.others
    → Advance w.stores.meta (write S ns path content principal expected w).1.stores.meta
write-interleaved S ns path content principal expected w history friendly =
    let s =
      (write-IsSafe S ns path content principal expected).step w
        (record { history = history; friendly = friendly }) in
    (s.good.history, s.grows)

-- Of a delete, of a rollback and of a copy: whatever the other tasks do between their steps,
-- and whether they return or raise, the numbers of every path stay gapless and no path loses a
-- number, if that is so of each step of the other tasks.
pub updates-interleaved :
    (S : Setup) (ns path dst principal : Text) (n : ℕ) (expected : Option ℕ) (w : World)
    → IsHistory w.stores.meta
    → All IsFriendly w.others
    → Advance w.stores.meta (delete S ns path principal w).1.stores.meta
      × Advance w.stores.meta (rollback S ns path n principal w).1.stores.meta
      × Advance w.stores.meta (copy S ns path dst principal expected w).1.stores.meta
updates-interleaved S ns path dst principal n expected w history friendly =
    let g : IsGood w = record { history = history; friendly = friendly } in
    let d = (delete-IsSafe S ns path principal).step w g in
    let r = (rollback-IsSafe S ns path principal n).step w g in
    let c = (copy-IsSafe S ns path dst principal expected).step w g in
    ((d.good.history, d.grows), (r.good.history, r.grows), (c.good.history, c.grows))
