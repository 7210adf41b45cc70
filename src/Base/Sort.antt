-- ===== src/Base/Sort.antt =====
-- A stable sort by a numeric key, largest first: `sorted(xs, key=k, reverse=True)` and
-- `ORDER BY k DESC`.
use Prim.Native.Nat.{ℕ, ◌≤◌}
use mathlib.Core.List.{List, [], ◌∷◌}
use native.Mathlib.Omega.{arith}
use ai_vfs.Base.Tests.{ltb, if◌then◌else◌}
use ai_vfs.Base.Lists.{All}

module _ {ℓ} {A : Type ℓ} (key : A → ℕ) where
  -- In front of the first element whose key is not larger, so that equal keys keep their order.
  unfoldable pub insert_desc : A → List A → List A
  insert_desc x [] = x ∷ []
  insert_desc x (y ∷ ys) =
      let later = y ∷ insert_desc x ys in if ltb (key x) (key y) then later else x ∷ y ∷ ys

  unfoldable pub sort_desc : List A → List A
  unfolding insert_desc
  sort_desc [] = []
  sort_desc (x ∷ xs) = insert_desc x (sort_desc xs)

  abbrev pub IsDesc : List A → Type 0
  IsDesc [] = Unit
  IsDesc (x ∷ xs) = All (λ y. key y ≤ key x) xs × IsDesc xs

  All-insert_desc {κ} :
      (P : A → Type κ) (x : A) (ys : List A) → P x → All P ys → All P (insert_desc x ys)
  unfolding insert_desc
  All-insert_desc P x [] px h = (px, tt)
  All-insert_desc P x (y ∷ ys) px h = ground (arith, All-insert_desc P x ys px h.1)

  pub All-sort_desc {κ} : (P : A → Type κ) (xs : List A) → All P xs → All P (sort_desc xs)
  unfolding sort_desc
  All-sort_desc P [] h = tt
  All-sort_desc P (x ∷ xs) h = All-insert_desc P x (sort_desc xs) h.0 (All-sort_desc P xs h.1)

  pub All-le_trans :
      (a b : ℕ) (ys : List A) → a ≤ b → All (λ y. key y ≤ a) ys → All (λ y. key y ≤ b) ys
  All-le_trans a b [] h q = tt
  All-le_trans a b (y ∷ ys) h q = (omega arith, All-le_trans a b ys h q.1)

  insert_desc-IsDesc : (x : A) (ys : List A) → IsDesc ys → IsDesc (insert_desc x ys)
  unfolding insert_desc
  insert_desc-IsDesc x [] h = (tt, tt)
  insert_desc-IsDesc x (y ∷ ys) h = ground (
    arith,
    insert_desc-IsDesc x ys h.1,
    λ (p : key x ≤ key y). All-insert_desc (λ z. key z ≤ key y) x ys p h.0,
    λ (p : key y ≤ key x). All-le_trans (key y) (key x) ys p h.0,
  )

  pub sort_desc-IsDesc : (xs : List A) → IsDesc (sort_desc xs)
  unfolding sort_desc
  sort_desc-IsDesc [] = tt
  sort_desc-IsDesc (x ∷ xs) = insert_desc-IsDesc x (sort_desc xs) (sort_desc-IsDesc xs)
