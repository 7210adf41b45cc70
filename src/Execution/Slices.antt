-- ===== src/Execution/Slices.antt =====
-- What `head` and `tail` keep of the lines of a file.
use ai_vfs.Base.{
  ℕ, zero, suc, ◌-◌, ◌≤◌, ◌≡◌, refl, sym, ap, ◌∙◌, true, List, [], ◌∷◌, ◌++◌, Text, ltb, take, drop,
  length, length-take, length-drop, Bool-cases, inl, inr, arith,
}
use ai_vfs.Execution.Lines.{first_lines, last_lines}

module _ {A : Type 0} where
  take-drop : (n : ℕ) (xs : List A) → take n xs ++ drop n xs ≡ xs
  take-drop zero xs = refl
  take-drop (suc n) [] = refl
  take-drop (suc n) (x ∷ xs) = ap (λ t. x ∷ t) (take-drop n xs)

  drop_all : (n : ℕ) (xs : List A) → length xs ≤ n → drop n xs ≡ []
  drop_all zero [] h = refl
  drop_all zero (x ∷ xs) h = ground arith
  drop_all (suc n) [] h = refl
  drop_all (suc n) (x ∷ xs) h = drop_all n xs (omega arith)

first_lines-take : (n : ℕ) (lines : List Text) → first_lines n lines ≡ take n lines
unfolding first_lines
first_lines-take zero lines = refl
first_lines-take (suc n) lines = let e : ltb 0 (suc n) ≡ true = ground arith in rw e refl

last_lines-drop : (n : ℕ) (lines : List Text) → last_lines n lines ≡ drop (length lines - n) lines
unfolding last_lines
last_lines-drop n lines = elim (Bool-cases (ltb 0 n)) [
  | inl e ↦ rw e refl
  | inr e ↦ rw e (sym (drop_all (length lines - n) lines (ground arith)))
]

-- `head` of n lines and `tail` of the number of the others, of any list of lines, are together all
-- the lines, and each keeps at most as many as it is asked for.
pub first_lines-last_lines :
    (n : ℕ) (lines : List Text)
    → (first_lines n lines ++ last_lines (length lines - n) lines ≡ lines)
      × (length (first_lines n lines) ≤ n)
      × (length (last_lines n lines) ≤ n)
first_lines-last_lines n lines =
    rw (first_lines-take n lines, last_lines-drop (length lines - n) lines, last_lines-drop n lines)
      (
        elim (Bool-cases (ltb (length lines) n)) [
          | inl e ↦
              ap (λ t. take n lines ++ t)
                (drop_all (length lines - (length lines - n)) lines (ground arith)
                  ∙ sym (drop_all n lines (ground arith)))
              ∙ take-drop n lines
          | inr e ↦
              let q : length lines - (length lines - n) ≡ n = ground arith in
              rw q (take-drop n lines)
        ],
        omega (arith, length-take n lines),
        omega (arith, length-drop (length lines - n) lines),
      )
