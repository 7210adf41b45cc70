-- ===== src/Paths/Prefix.antt =====
-- `_prefix_matches` of src/vfs/stores/sql_metadata.py: the test that a grant covers a path.
use ai_vfs.Base.{
  ℕ, ◌≡◌, refl, sym, ◌∙◌, Bool, true, false, ◌&&◌, ◌||◌, List, [], ◌∷◌, ◌++◌, Text, codes, text_eq,
  text_eq_iff, starts_with, ends_with, if◌then◌else◌, arith, ◌==◌, Bool-cases, inl, inr,
  starts_with_split,
}
use mathlib.Core.List.{append-nil, append_assoc}
use ai_vfs.Paths.Posix.{slash, split, onto_first}

unfoldable pub dir_prefix : Text → Text
unfolding ends_with
dir_prefix path_prefix =
    if ends_with path_prefix slash then path_prefix else path_prefix ++ (slash ∷ [])

unfoldable pub prefix_matches : Text → Text → Bool
unfolding dir_prefix text_eq starts_with
prefix_matches path_prefix path =
    if text_eq path path_prefix then true else starts_with path (dir_prefix path_prefix)

boundary : prefix_matches (codes "/work") (codes "/workspace/file") ≡ false
unfolding prefix_matches
boundary = refl

-- The independent description: the components of one list begin another.
pub components_prefix : List Text → List Text → Bool
components_prefix [] xs = true
components_prefix (t ∷ ts) [] = false
components_prefix (t ∷ ts) (x ∷ xs) = text_eq x t && components_prefix ts xs

split_nonempty : (s : Text) → (t : Text) × (ts : List Text) × (split s ≡ t ∷ ts)
unfolding split
split_nonempty [] = ([], [], refl)
split_nonempty (a ∷ s) = elim (Bool-cases (a == slash)) [
  | inl e ↦ ([], split s, rw e)
  | inr e ↦ let (t, ts, q) = split_nonempty s in (a ∷ t, ts, rw (e, q))
]

components_prefix-onto_first :
    (a b : ℕ) (p x : Text)
    → components_prefix (onto_first a (split p)) (onto_first b (split x))
      ≡ ((b == a) && components_prefix (split p) (split x))
unfolding components_prefix text_eq
components_prefix-onto_first a b p x =
    let (t, ts, q) = split_nonempty p in
    let (u, us, r) = split_nonempty x in rw (q, r) (ground arith)

covers : Text → Text → Bool
covers p x = text_eq x p || starts_with x (p ++ (slash ∷ []))

covers-eq-components : (p x : Text) → covers p x ≡ components_prefix (split p) (split x)
unfolding covers components_prefix split text_eq starts_with
covers-eq-components [] [] = refl
covers-eq-components [] (b ∷ x) = let (u, us, r) = split_nonempty x in rw r (ground arith)
covers-eq-components (a ∷ p) [] = let (t, ts, q) = split_nonempty p in rw q (ground arith)
covers-eq-components (a ∷ p) (b ∷ x) =
    let (t, ts, q) = split_nonempty p in
    let (u, us, r) = split_nonempty x in
    ground (arith, covers-eq-components p x, components_prefix-onto_first a b p x)

-- For a grant prefix without a trailing slash, the prefix covers a path exactly when its
-- components begin those of the path.
pub prefix_matches-components :
    (path_prefix path : Text)
    → ends_with path_prefix slash ≡ false
    → prefix_matches path_prefix path ≡ components_prefix (split path_prefix) (split path)
unfolding prefix_matches covers
prefix_matches-components path_prefix path h =
    rw h (ground (arith, covers-eq-components path_prefix path))

-- A prefix that covers a path begins it.
pub prefix_matches-begins :
    (path_prefix path : Text)
    → prefix_matches path_prefix path ≡ true
    → (rest : Text) × (path ≡ path_prefix ++ rest)
unfolding prefix_matches
prefix_matches-begins p x h = elim (Bool-cases (text_eq x p)) [
  | inl e ↦ ([], (text_eq_iff x p).0 e ∙ sym (append-nil p))
  | inr e ↦ elim (Bool-cases (ends_with p slash)) [
    | inl f ↦ starts_with_split x p (rw (e, f) at h)
    | inr f ↦
        let (rest, q) = starts_with_split x (p ++ (slash ∷ [])) (rw (e, f) at h) in
        (slash ∷ rest, q ∙ append_assoc p (slash ∷ []) rest)
  ]
]
