-- ===== src/Execution/Limits.antt =====
-- The limits on what the operations of sandboxed code answer: lines, sizes and result items.
use ai_vfs.Base.{
  ℕ, ◌+◌, ◌≤◌, ◌<◌, ◌≡◌, refl, sym, ap, Bool, true, false, none, some, List, [], ◌∷◌, Text, ◌==◌,
  ==_iff, ltb, length, length-take, Bool-cases, Option-cases, inl, inr, arith, ◌∙◌,
}
use mathlib.Core.Path.{ap₂}
use ai_vfs.Models.{VersionMeta}
use ai_vfs.Errors.{ok, err, resource_limit_exceeded}
use ai_vfs.Exec.{pure}
use ai_vfs.Exec.Answers.{Answers, Answers-pure, Answers-bind, OnReturn, Answers-OnReturn}
use ai_vfs.World.{Setup}
use ai_vfs.Search.{FindPredicates}
use ai_vfs.Vfs.Search.{SearchProvider}
use ai_vfs.Session.{Shell, Sh}
use ai_vfs.Execution.{ResourceLimits, LinesAnswer, Capped, WriteAnswer, check_and_increment}
use ai_vfs.Execution.Lines.{newline, onto_first, split_lines, join_lines, truncated}
use ai_vfs.Execution.FsOps
use ai_vfs.Execution.FsOps.{
  exceeds, decode_raw, decoded_response, error_response, lines_response, op_read_lines, read_lines,
  oversized_write, written,
}
use ai_vfs.Execution.Budget.{charge_counted}
use ai_vfs.Execution.FsPort

-- A first character goes onto the first line.
join-onto_first :
    (a : ℕ) (ts : List Text) → 0 < length ts → join_lines (onto_first a ts) ≡ a ∷ join_lines ts
unfolding join_lines
join-onto_first a [] h = ground arith
join-onto_first a (t ∷ []) h = refl
join-onto_first a (t ∷ u ∷ ts) h = refl

split_lines-filled : (s : Text) → 0 < length (split_lines s)
unfolding split_lines
split_lines-filled [] = omega arith
split_lines-filled (a ∷ s) = elim (Bool-cases (a == newline)) [
  | inl e ↦ rw e (omega arith)
  | inr e ↦ rw e (onto (split_lines s))
]
  where
    onto : (ts : List Text) → 0 < length (onto_first a ts)
    onto [] = omega arith
    onto (t ∷ ts) = omega arith

join-empty_first : (ts : List Text) → 0 < length ts → join_lines ([] ∷ ts) ≡ newline ∷ join_lines ts
unfolding join_lines
join-empty_first [] h = ground arith
join-empty_first (t ∷ ts) h = refl

-- The lines of a text joined by newlines are the text.
pub join_lines-split_lines : (s : Text) → join_lines (split_lines s) ≡ s
unfolding split_lines
join_lines-split_lines [] = unfold join_lines in refl
join_lines-split_lines (a ∷ s) = elim (Bool-cases (a == newline)) [
  | inl e ↦ rw e (
      join-empty_first (split_lines s) (split_lines-filled s)
      ∙ ap₂ (λ x t. x ∷ t) (sym ((==_iff a newline).0 e)) (join_lines-split_lines s))
  | inr e ↦ rw e (
      join-onto_first a (split_lines s) (split_lines-filled s)
      ∙ ap (λ t. a ∷ t) (join_lines-split_lines s))
]

-- No error in the answer.
abbrev pub IsAccepted : WriteAnswer → Type 0
IsAccepted a = a.error ≡ none

-- At most `n` items.
abbrev pub AtMost : {A : Type 0} → ℕ → Capped A → Type 0
AtMost n a = length a.items ≤ n

module _ (S : Setup) (P : SearchProvider) (ns principal : Text) (limits : ResourceLimits) where
  -- A response without an error holds the lines of a decoded text within the limit.
  pub record IsWithin (cut : List Text → List Text) (a : LinesAnswer) : Type 0 where
    pub within :
        a.error ≡ none
        → (raw : Text) × (text : Text) × (exceeds (length raw) limits.max_read_bytes ≡ false)
          × (S.decode raw ≡ some text)
          × (a.lines ≡ cut (split_lines text))

  decode_raw-IsWithin :
      (cut : List Text → List Text) (raw : Text)
      → IsWithin cut (decode_raw S P ns principal limits cut raw)
  unfolding decode_raw
  decode_raw-IsWithin cut raw = elim (Bool-cases (exceeds (length raw) limits.max_read_bytes)) [
    | inl e ↦ rw e (record { within = λ h. cc h })
    | inr e ↦ elim (Option-cases (S.decode raw)) [
      | inl d ↦ rw (e, d) (record { within = λ h. cc h })
      | inr (text, d) ↦ rw (e, d) (record { within = λ h. (raw, text, e, d, refl) })
    ]
  ]

  read_lines-IsWithin :
      (cut : List Text → List Text) (path : Text) (is_early_error : Bool)
      → Answers (IsWithin cut) (read_lines S P ns principal limits cut path is_early_error)
  read_lines-IsWithin cut path true = Answers-pure _ (record { within = λ h. cc h })
  read_lines-IsWithin cut path false =
      Answers-bind _ _ (λ raw. Answers-pure _ (decode_raw-IsWithin cut raw))

  op_read_lines-IsWithin :
      (cut : List Text → List Text) (path : Text)
      → Answers (IsWithin cut) (op_read_lines S P ns principal limits cut path)
  unfolding op_read_lines
  op_read_lines-IsWithin cut path = search (Answers-bind, read_lines-IsWithin)

  -- Whatever the other tasks do: what `cat` returns without an error, joined by newlines, is the
  -- UTF-8 decoding of a content that is no longer than max_read_bytes.
  pub op_cat-decodes :
      (path : Text) (s : Shell) (a : LinesAnswer)
      → (FsOps.op_cat S P ns principal limits path s).0 ≡ ok a
      → a.error ≡ none
      → (raw : Text) × (exceeds (length raw) limits.max_read_bytes ≡ false)
        × (S.decode raw ≡ some (join_lines a.lines))
  unfolding FsOps.op_cat
  op_cat-decodes path s a e h =
      let (raw, text, fits, d, q) =
        ((op_read_lines-IsWithin (λ lines. lines) path).answered s a e).within h in
      (raw, fits, d ∙ ap some (sym (ap join_lines q ∙ join_lines-split_lines text)))

  written-IsAccepted : (v : VersionMeta) → Answers {S = Shell} IsAccepted (pure (written v))
  written-IsAccepted v = Answers-pure (written v) refl

  write_sized-IsAccepted :
      (path content : Text)
      → Answers IsAccepted (FsOps.write_sized S P ns principal limits path content false)
  write_sized-IsAccepted path content = search (Answers-bind, written-IsAccepted)

  op_write-IsAccepted :
      (limit : ℕ) (path content : Text)
      → limits.max_write_bytes ≡ some limit
      → length content ≤ limit
      → Answers IsAccepted (FsOps.op_write S P ns principal limits path content)
  unfolding FsOps.op_write
  op_write-IsAccepted limit path content is_set small =
      let fits : exceeds (length content) limits.max_write_bytes ≡ false =
        rw is_set (ground arith) in
      Answers-bind (check_and_increment limits.max_operations)
        (λ u.
          FsOps.write_sized S P ns principal limits path content
            (exceeds (length content) limits.max_write_bytes))
        (λ u. rw fits (write_sized-IsAccepted path content))

  -- Where max_write_bytes is set, and with budget left, a write of more bytes is charged and refused:
  -- the shell's `write` answers the `oversized_write` error, the mounted file system's `write` raises
  -- ResourceLimitExceededError, and both leave the stores and the working directory as they were.
  -- Whatever the other tasks do, the shell's `write` of at most max_write_bytes, if it returns,
  -- answers without an error.
  pub oversized-unchanged :
      (limit : ℕ) (path large small : Text) (s t : Shell)
      → limits.max_write_bytes ≡ some limit
      → limit < length large
      → length small ≤ limit
      → s.count < limits.max_operations
      → (FsOps.op_write S P ns principal limits path large s
          ≡ (ok oversized_write, record s { count = s.count + 1 }))
        × (FsPort.port_write S ns principal (some limits) (some limits.max_operations) path large s
            ≡ (err resource_limit_exceeded, record s { count = s.count + 1 }))
        × OnReturn IsAccepted (FsOps.op_write S P ns principal limits path small t).0
  unfolding FsOps.op_write FsPort.port_write FsPort.account FsPort.enforce_write_size
  oversized-unchanged limit path large small s t is_set over within h =
      let e : exceeds (length large) limits.max_write_bytes ≡ true = rw is_set (ground arith) in
      (
        rw (charge_counted limits.max_operations s h, e) refl,
        rw (charge_counted limits.max_operations s h, e) refl,
        Answers-OnReturn IsAccepted _ (op_write-IsAccepted limit path small is_set within) t,
      )

  -- No more items than the limit.
  pub record IsCapped {A : Type 0} (a : Capped A) : Type 0 where
    pub bounded : (n : ℕ) → limits.max_result_items ≡ some n → length a.items ≤ n

  truncated-IsCapped :
      {A : Type 0} (items : List A) → IsCapped (truncated items limits.max_result_items)
  unfolding truncated
  truncated-IsCapped items = record {
    bounded = λ n e. rw e (elim (Bool-cases (ltb n (length items))) [
      | inl q ↦ rw q (omega (arith, length-take n items))
      | inr q ↦ rw q (ground arith)
    ]);
  }

  IsCapped-answer :
      {A : Type 0} (items : List A)
      → Answers {S = Shell} IsCapped (pure (truncated items limits.max_result_items))
  IsCapped-answer items = Answers-pure _ (truncated-IsCapped items)

  ruleset capped_rules = (Answers-bind, IsCapped-answer)

  ls-IsCapped :
      (path : Text) (long : Bool) → Answers IsCapped (FsOps.op_ls S P ns principal limits path long)
  unfolding FsOps.op_ls
  ls-IsCapped path long = search capped_rules depth 9

  grep-IsCapped :
      (pattern path : Text) (recursive : Bool)
      → Answers IsCapped (FsOps.op_grep S P ns principal limits pattern path recursive)
  unfolding FsOps.op_grep
  grep-IsCapped pattern path recursive = search capped_rules depth 9

  find-IsCapped :
      (path : Text) (p : FindPredicates)
      → Answers IsCapped (FsOps.op_find S P ns principal limits path p)
  unfolding FsOps.op_find
  find-IsCapped path p = search capped_rules depth 9

  glob-IsCapped :
      (pattern : Text) → Answers IsCapped (FsOps.op_glob S P ns principal limits pattern)
  unfolding FsOps.op_glob
  glob-IsCapped pattern = search capped_rules depth 9

  capped_at :
      {A : Type 0} (n : ℕ) (m : Sh (Capped A))
      → limits.max_result_items ≡ some n
      → Answers IsCapped m
      → (s : Shell) → OnReturn (AtMost n) (m s).0
  capped_at n m limit h =
      Answers-OnReturn (AtMost n) m
        (record { answered = λ s a e. (h.answered s a e).bounded n limit })

  -- Whatever the other tasks do, where max_result_items is set: `ls`, `grep`, `find` and `glob`,
  -- each if it returns, answer no more items.
  pub results-le :
      (n : ℕ) (pattern path : Text) (flag : Bool) (p : FindPredicates) (s : Shell)
      → limits.max_result_items ≡ some n
      → OnReturn (AtMost n) (FsOps.op_ls S P ns principal limits path flag s).0
        × OnReturn (AtMost n) (FsOps.op_grep S P ns principal limits pattern path flag s).0
        × OnReturn (AtMost n) (FsOps.op_find S P ns principal limits path p s).0
        × OnReturn (AtMost n) (FsOps.op_glob S P ns principal limits pattern s).0
  results-le n pattern path flag p s limit = (
    capped_at n _ limit (ls-IsCapped path flag) s,
    capped_at n _ limit (grep-IsCapped pattern path flag) s,
    capped_at n _ limit (find-IsCapped path p) s,
    capped_at n _ limit (glob-IsCapped pattern) s,
  )
