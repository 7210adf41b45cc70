-- ===== src/Vfs/Interleaved/Updates.antt =====
-- `delete`, `rollback` and `copy` beside other tasks.
use ai_vfs.Base.{
  ℕ, ◌+◌, ◌≡◌, refl, Option, none, some, [], ◌∷◌, Text, codes, Bool-cases, inl, inr, arith,
}
use ai_vfs.Models.{FileMeta, VersionMeta, text}
use ai_vfs.Errors.{not_found}
use ai_vfs.Exec.{pure, raise, lift, ◌>>=◌, ◌>>◌}
use ai_vfs.Paths.Canonical.{require_canonical}
use ai_vfs.Store.Files.{number_of}
use ai_vfs.Store.Versions.{get_version, put_version}
use ai_vfs.World.{World, Io, Setup, operation, draw_id, read_clock, is_some}
use ai_vfs.Vfs.Audit.{audit_delete, audit_rollback, audit_copy, audit_event}
use ai_vfs.Vfs.Access.{check_perm, some_or_not_found}
use ai_vfs.Vfs.Retry.{retry}
use ai_vfs.Vfs.Write.{next_version_number}
use ai_vfs.Vfs.Read.{delete, rollback, rolled_back, tombstone, live_or_not_found}
use ai_vfs.Vfs.Transfer.{copy, copy_attempt, copied}
use ai_vfs.Vfs.Interleaved.{IsGood, Step, Step-refl, IsSafe, bind-Step, bind-IsSafe, lift-IsSafe}
use ai_vfs.Vfs.Interleaved.Steps.{
  pure-IsSafe, get_version-IsSafe, check_perm-IsSafe, draw_id-IsSafe, read_clock-IsSafe, retry-Step,
  Seen, get_file_then-IsSafe, put_next-Step, logged-IsSafe, guarded-IsSafe,
}

raise-IsSafe : {A : Type 0} → IsSafe (raise {S = World} {A = A} not_found)
raise-IsSafe = record { step = Step-refl }

some_or_not_found-IsSafe : {A : Type 0} (o : Option A) → IsSafe (some_or_not_found o)
some_or_not_found-IsSafe none = raise-IsSafe
some_or_not_found-IsSafe (some a) = pure-IsSafe a

live_or_not_found-IsSafe : (o : Option VersionMeta) → IsSafe (live_or_not_found o)
live_or_not_found-IsSafe none = raise-IsSafe
live_or_not_found-IsSafe (some v) = elim (Bool-cases v.is_tombstone) [
  | inl e ↦ rw e raise-IsSafe
  | inr e ↦ rw e (pure-IsSafe _)
]

-- The time, an identifier, and a put behind the file.
stamped-Step :
    (S : Setup) (ns path : Text) (v : ℕ → Text → VersionMeta) (expected : Option ℕ)
    (f : Option FileMeta) (w : World)
    → ((now : ℕ) (i : Text) → (v now i).namespace_id ≡ ns)
    → ((now : ℕ) (i : Text) → (v now i).file_path ≡ path)
    → ((now : ℕ) (i : Text) → (v now i).version_number ≡ number_of f + 1)
    → {A : Type 0} (k : VersionMeta → Io A) → ((u : VersionMeta) → IsSafe (k u))
    → IsGood w
    → Seen ns path f w
    → Step w
        ((read_clock S >>= λ now.
            draw_id S >>= λ i. operation (put_version (v now i) expected) >> k (v now i))
          w).1
stamped-Step S ns path v expected f w n p q k safe g seen =
    bind-Step (read_clock S) _ w ((read_clock-IsSafe S).step w g) (λ now e s.
      bind-Step (draw_id S) _ _ ((draw_id-IsSafe S).step _ s.good) (λ i e' s'.
        bind-Step (operation (put_version (v now i) expected)) _ _
          (put_next-Step ns path (v now i) expected f _ (n now i) (p now i) (q now i) s'.good
            (omega (arith, s.grows ns path, s'.grows ns path)))
          (λ u e'' t. (safe (v now i)).step _ t.good)))

module _ (S : Setup) (ns path principal : Text) where
  delete_put-Step :
      (f : Option FileMeta) (w : World)
      → IsGood w
      → Seen ns path f w
      → Step w
          ((some_or_not_found f >>= λ existing. read_clock S >>= λ now. draw_id S >>= λ i.
              operation (
                put_version
                  (tombstone i ns path (existing.current_version_number + 1) now principal)
                  none)
              >> (audit_delete S ns principal path i
                  >> pure
                      (tombstone i ns path (existing.current_version_number + 1) now principal)))
            w).1
  unfolding audit_delete number_of
  delete_put-Step none w g seen = Step-refl w g
  delete_put-Step (some f) w g seen =
      stamped-Step S ns path
        (λ now i. tombstone i ns path (f.current_version_number + 1) now principal) none (some f) w
        (λ now i. refl) (λ now i. refl) (λ now i. refl)
        (λ v. audit_event S ns principal (codes "delete") (some path) (some v.id) [] >> pure v)
        (λ v. logged-IsSafe S ns principal (codes "delete") path v.id [] v) g seen

  pub delete-IsSafe : IsSafe (delete S ns path principal)
  unfolding delete audit_delete
  delete-IsSafe =
      guarded-IsSafe principal ns path (codes "delete") _
        (get_file_then-IsSafe ns path _ delete_put-Step)

  pub rollback-IsSafe : (n : ℕ) → IsSafe (rollback S ns path n principal)
  unfolding rollback audit_rollback next_version_number
  rollback-IsSafe n = guarded-IsSafe principal ns path (codes "write") _ (
      bind-IsSafe (operation (get_version ns path (some n))) _ (get_version-IsSafe ns path (some n))
        (λ found.
          bind-IsSafe (some_or_not_found found) _ (some_or_not_found-IsSafe found) (λ target.
            get_file_then-IsSafe ns path _ (λ f w g seen.
              stamped-Step S ns path
                (λ now i. rolled_back i ns path (number_of f + 1) now principal target) none f w
                (λ now i. refl) (λ now i. refl) (λ now i. refl)
                (λ v.
                  audit_event S ns principal (codes "rollback") (some path) (some v.id)
                    ((codes "target_version_id", text target.id) ∷ [])
                  >> pure v)
                (λ v. logged-IsSafe S ns principal (codes "rollback") path v.id _ v) g seen))))

module _ (S : Setup) (ns src dst principal : Text) (expected : Option ℕ) where
  copy_attempt-IsSafe :
      (source : VersionMeta) → IsSafe (copy_attempt S ns dst principal expected source)
  unfolding copy_attempt next_version_number
  copy_attempt-IsSafe source = get_file_then-IsSafe ns dst _ (λ f w g seen.
      stamped-Step S ns dst (λ now i. copied i ns dst (number_of f + 1) now principal source)
        expected f w (λ now i. refl) (λ now i. refl) (λ now i. refl) (λ v. pure v) pure-IsSafe g
        seen)

  copy_loop-IsSafe :
      (source : VersionMeta)
      → IsSafe (
          retry 4
            (is_some expected)
            (copy_attempt S ns dst principal expected source)
            (copy_attempt S ns dst principal expected source))
  copy_loop-IsSafe source = record {
    step = λ w g.
        retry-Step 4 (is_some expected) _ _ w ((copy_attempt-IsSafe source).step w g)
          (copy_attempt-IsSafe source);
  }

  pub copy-IsSafe : IsSafe (copy S ns src dst principal expected)
  unfolding copy audit_copy
  copy-IsSafe =
      bind-IsSafe (lift (require_canonical src)) _ (lift-IsSafe (require_canonical src)) (λ u.
        bind-IsSafe (lift (require_canonical dst)) _ (lift-IsSafe (require_canonical dst)) (λ u.
          bind-IsSafe (check_perm principal ns src (codes "read")) _
            (check_perm-IsSafe principal ns src (codes "read"))
            (λ u.
              bind-IsSafe (check_perm principal ns dst (codes "write")) _
                (check_perm-IsSafe principal ns dst (codes "write"))
                (λ u.
                  bind-IsSafe (operation (get_version ns src none)) _
                    (get_version-IsSafe ns src none)
                    (λ found.
                      bind-IsSafe (live_or_not_found found) _ (live_or_not_found-IsSafe found)
                        (λ source.
                          bind-IsSafe
                            (retry 4 (is_some expected)
                              (copy_attempt S ns dst principal expected source)
                              (copy_attempt S ns dst principal expected source))
                            _ (copy_loop-IsSafe source)
                            (λ v. logged-IsSafe S ns principal (codes "copy") dst v.id _ v)))))))
