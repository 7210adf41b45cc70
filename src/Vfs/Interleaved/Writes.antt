-- ===== src/Vfs/Interleaved/Writes.antt =====
-- `write`, `delete`, `rollback` and `copy` beside other tasks.
use ai_vfs.Base.{ℕ, ◌≡◌, ap, Option, none, some, [], Text, codes, arith}
use ai_vfs.Models.{FileMeta, VersionMeta}
use ai_vfs.Errors.{Result, ok, err}
use ai_vfs.Exec.{continue, pure, ◌>>◌}
use ai_vfs.Store.Tables.{Meta}
use ai_vfs.Store.Versions.{put_version}
use ai_vfs.Store.TextIndex.{NativeTextSearch, index_text}
use ai_vfs.Store.History.{IsHistory, IsNumbered}
use ai_vfs.World.{World, Setup, blob_put, draw_id, read_clock, is_some}
use ai_vfs.Vfs.Audit.{audit_write, audit_event}
use ai_vfs.Vfs.Retry.{retry}
use ai_vfs.Vfs.Write.{
  put_decoded, put_indexed, next_version_number, write_attempt, write_again, write,
}
use ai_vfs.Vfs.Interleaved.{
  IsGood, Step, IsSafe, Advance, bind-Step, bind-IsSafe, operation-Step, put_version-Advance,
}
use ai_vfs.Vfs.Interleaved.Steps.{
  blob_put-IsSafe, draw_id-IsSafe, read_clock-IsSafe, retry-Step, Seen, get_file_then-IsSafe,
  logged-IsSafe, guarded-IsSafe,
}

-- What a put and the value behind it leave is what the put leaves.
put_then :
    {A : Type 0} (r : Result (Unit {0}) × Meta) (v a : A) (m' : Meta)
    → continue r.0 (λ _. pure v) r.1 ≡ (ok a, m')
    → r ≡ (ok tt, m')
put_then (ok tt, m) v a m' e = ap (λ x. (ok tt, x.1)) e
put_then (err x, m) v a m' e = cc (ap (λ x. x.0) e)

put_decoded-Advance :
    (nts : NativeTextSearch) (v a : VersionMeta) (now : ℕ) (expected : Option ℕ)
    (decoded : Option Text) (m m' : Meta)
    → IsHistory m
    → IsNumbered v m
    → put_decoded nts v now expected decoded m ≡ (ok a, m')
    → Advance m m'
unfolding put_decoded index_text
put_decoded-Advance nts v a now expected none m m' h n e =
    put_version-Advance _ expected m m' h n (put_then _ _ a m' e)
put_decoded-Advance nts v a now expected (some d) m m' h n e =
    put_version-Advance _ expected _ m' h n (put_then _ _ a m' e)

put_indexed-Advance :
    (S : Setup) (nts : Option NativeTextSearch) (v a : VersionMeta) (content : Text) (now : ℕ)
    (expected : Option ℕ) (m m' : Meta)
    → IsHistory m
    → IsNumbered v m
    → put_indexed S nts v content now expected m ≡ (ok a, m')
    → Advance m m'
unfolding put_indexed
put_indexed-Advance S none v a content now expected m m' h n e =
    put_version-Advance v expected m m' h n (put_then (put_version v expected m) v a m' e)
put_indexed-Advance S (some nts) v a content now expected m m' h n e =
    put_decoded-Advance nts v a now expected (S.decode content) m m' h n e

module _ (S : Setup) (ns path content principal : Text) (expected : Option ℕ) where
  pub write_attempt-Step :
      (existing : Option FileMeta) (w : World)
      → IsGood w
      → Seen ns path existing w
      → Step w (write_attempt S ns path content principal expected existing w).1
  unfolding write_attempt next_version_number
  write_attempt-Step existing w g seen =
      bind-Step (read_clock S) _ w ((read_clock-IsSafe S).step w g) (λ now e s.
        bind-Step (draw_id S) _ _ ((draw_id-IsSafe S).step _ s.good) (λ i e' s'.
          operation-Step _ _ s'.good (λ w' t a m' q.
            put_indexed-Advance S S.native_text_search _ a content now expected w'.stores.meta m'
              t.good.history
              (omega arith, omega (arith, s.grows ns path, s'.grows ns path, t.grows ns path)) q)))

  write_again-IsSafe : IsSafe (write_again S ns path content principal expected)
  unfolding write_again
  write_again-IsSafe = get_file_then-IsSafe ns path _ write_attempt-Step

  pub write-IsSafe : IsSafe (write S ns path content principal expected)
  unfolding write audit_write
  write-IsSafe = guarded-IsSafe principal ns path (codes "write") _ (
      bind-IsSafe (blob_put (S.blake3 content) content) _
        (blob_put-IsSafe (S.blake3 content) content)
        (λ u. get_file_then-IsSafe ns path _ (λ f w g seen.
          bind-Step
            (retry 4 (is_some expected) (write_attempt S ns path content principal expected f)
              (write_again S ns path content principal expected))
            (λ v. audit_event S ns principal (codes "write") (some path) (some v.id) [] >> pure v) w
            (retry-Step 4 (is_some expected) _ _ w (write_attempt-Step f w g seen)
              write_again-IsSafe)
            (λ v e s.
              (logged-IsSafe S ns principal (codes "write") path v.id [] v).step _ s.good))))
