-- ===== src/Execution/Budget.antt =====
-- The operation counter: every call of sandboxed code charges it by one, or is refused.
use ai_vfs.Base.{
  ℕ, ◌+◌, ◌≤◌, ◌<◌, ◌≡◌, refl, Bool, true, false, Option, none, some, List, [], ◌∷◌, ◌++◌, Text,
  ltb, drop, length, Option-cases, inl, inr, lt→ltb, arith,
}
use ai_vfs.Models.{FileMeta}
use ai_vfs.Errors.{Result, ok, err, operation_budget_exceeded}
use ai_vfs.Exec.{continue, pure, ◌>>=◌, ◌>>◌}
use ai_vfs.Exec.Invariants.{Preserves, Preserves-pure, Preserves-bind}
use ai_vfs.World.{Setup}
use ai_vfs.Search.{FindPredicates}
use ai_vfs.Vfs.Search.{SearchProvider}
use ai_vfs.Session.{Shell, Sh}
use ai_vfs.Session.Laws.{Counts, session_rules}
use ai_vfs.Execution.{ResourceLimits, LsEntry, check_and_increment}
use ai_vfs.Execution.FsOps
use ai_vfs.Execution.FsOps.{
  build_ls_entry, ls_entries, size_checked, check_size_before_read, read_lines,
}
use ai_vfs.Execution.Lines.{first_segment}

-- A call under a counter with the limit `n`: with budget left it adds one to the count, else it
-- raises and changes nothing.
pub record Charged {A : Type 0} (n : ℕ) (m : Sh A) : Type 0 where
  pub counted : (s : Shell) → s.count < n → (m s).1.count ≡ s.count + 1
  pub refused : (s : Shell) → n ≤ s.count → m s ≡ (err operation_budget_exceeded, s)

pub charge_counted :
    (n : ℕ) (s : Shell)
    → s.count < n
    → check_and_increment n s ≡ (ok tt, record s { count = s.count + 1 })
unfolding check_and_increment
charge_counted n s h = rw (lt→ltb s.count n h) refl

charge_refused :
    (n : ℕ) (s : Shell) → n ≤ s.count → check_and_increment n s ≡ (err operation_budget_exceeded, s)
unfolding check_and_increment
charge_refused n s h = let e : ltb s.count n ≡ false = ground arith in rw e refl

-- The charge in front of a body that leaves the counter alone.
pub Charged-bind :
    {A : Type 0} (n : ℕ) (m : Sh A)
    → ((k : ℕ) → Preserves (Counts k) m)
    → Charged n (check_and_increment n >> m)
Charged-bind n m body = record {
  counted = λ s h. rw (charge_counted n s h) (
      ((body (s.count + 1)).after (record s { count = s.count + 1 })
        (record { shown = refl })).shown);
  refused = λ s h. rw (charge_refused n s h) refl;
}

pub Charged-charge : (n : ℕ) → Charged n (check_and_increment n)
Charged-charge n = record {
  counted = λ s h. rw (charge_counted n s h) refl;
  refused = charge_refused n;
}

answered :
    {A B : Type 0} (r : Result A) (f : A → B) (s : Shell) → (continue r (λ a. pure (f a)) s).1 ≡ s
answered (ok a) f s = refl
answered (err e) f s = refl

pub Charged-answering :
    {A B : Type 0} (n : ℕ) (m : Sh A) (f : A → B) → Charged n m → Charged n (m >>= λ a. pure (f a))
Charged-answering n m f c = record {
  counted = λ s h. rw (answered (m s).0 f (m s).1) (c.counted s h);
  refused = λ s h. rw (c.refused s h) refl;
}

build_ls_entry-Counts :
    {n : ℕ} (long : Bool) (f : FileMeta) → Preserves (Counts n) (build_ls_entry long f)
unfolding build_ls_entry
build_ls_entry-Counts true f = search session_rules
build_ls_entry-Counts false f = search session_rules

ls_entries-Counts :
    {n : ℕ} (prefix : Text) (long : Bool) (dirs files : List LsEntry) (fs : List FileMeta)
    → Preserves (Counts n) (ls_entries prefix long dirs files fs)
unfolding ls_entries
ls_entries-Counts prefix long dirs files [] = Preserves-pure _
ls_entries-Counts prefix long dirs files (f ∷ fs) =
    elim (Option-cases (first_segment (drop (length prefix) f.path))) [
      | inl e ↦
          rw (ls_entries, e)
            (Preserves-bind _ _ (build_ls_entry-Counts long f)
              (λ a. ls_entries-Counts prefix long dirs (files ++ (a ∷ [])) fs))
      | inr (seg, e) ↦
          rw (ls_entries, e)
            (ls_entries-Counts prefix long (FsOps.add_dir (FsOps.dir_entry prefix seg) dirs) files
              fs)
    ]

module _ (S : Setup) (P : SearchProvider) (ns principal : Text) (limits : ResourceLimits) where
  size_checked-Counts :
      {n : ℕ} (limit : Option ℕ) (path : Text)
      → Preserves (Counts n) (size_checked S P ns principal limits limit path)
  size_checked-Counts none path = search session_rules
  size_checked-Counts (some limit) path = search session_rules

  read_lines-Counts :
      {n : ℕ} (cut : List Text → List Text) (path : Text) (is_early_error : Bool)
      → Preserves (Counts n) (read_lines S P ns principal limits cut path is_early_error)
  read_lines-Counts cut path true = search session_rules
  read_lines-Counts cut path false = search session_rules

  check_size-Counts :
      {n : ℕ} (path : Text)
      → Preserves (Counts n) (check_size_before_read S P ns principal limits path)
  unfolding check_size_before_read
  check_size-Counts path = size_checked-Counts limits.max_read_bytes path

  pub op_read_lines-Charged :
      (cut : List Text → List Text) (path : Text)
      → Charged limits.max_operations (FsOps.op_read_lines S P ns principal limits cut path)
  unfolding FsOps.op_read_lines
  op_read_lines-Charged cut path =
      Charged-bind limits.max_operations _
        (λ k. search (session_rules, check_size-Counts, read_lines-Counts))

  pub op_cd-Charged :
      (path : Text) → Charged limits.max_operations (FsOps.op_cd S P ns principal limits path)
  unfolding FsOps.op_cd
  op_cd-Charged path = Charged-bind limits.max_operations _ (λ k. search session_rules)

  pub op_pwd-Charged : Charged limits.max_operations (FsOps.op_pwd S P ns principal limits)
  unfolding FsOps.op_pwd
  op_pwd-Charged = Charged-bind limits.max_operations _ (λ k. search session_rules)

  pub op_ls-Charged :
      (path : Text) (long : Bool)
      → Charged limits.max_operations (FsOps.op_ls S P ns principal limits path long)
  unfolding FsOps.op_ls
  op_ls-Charged path long =
      Charged-bind limits.max_operations _ (λ k. search (session_rules, ls_entries-Counts))

  pub op_grep-Charged :
      (pattern path : Text) (recursive : Bool)
      → Charged limits.max_operations (FsOps.op_grep S P ns principal limits pattern path recursive)
  unfolding FsOps.op_grep
  op_grep-Charged pattern path recursive =
      Charged-bind limits.max_operations _ (λ k. search session_rules)

  pub op_find-Charged :
      (path : Text) (p : FindPredicates)
      → Charged limits.max_operations (FsOps.op_find S P ns principal limits path p)
  unfolding FsOps.op_find
  op_find-Charged path p = Charged-bind limits.max_operations _ (λ k. search session_rules)

  pub op_glob-Charged :
      (pattern : Text)
      → Charged limits.max_operations (FsOps.op_glob S P ns principal limits pattern)
  unfolding FsOps.op_glob
  op_glob-Charged pattern = Charged-bind limits.max_operations _ (λ k. search session_rules)

  write_sized-Counts :
      {n : ℕ} (path content : Text) (oversized : Bool)
      → Preserves (Counts n) (FsOps.write_sized S P ns principal limits path content oversized)
  write_sized-Counts path content true = search session_rules
  write_sized-Counts path content false = search session_rules

  pub op_write-Charged :
      (path content : Text)
      → Charged limits.max_operations (FsOps.op_write S P ns principal limits path content)
  unfolding FsOps.op_write
  op_write-Charged path content =
      Charged-bind limits.max_operations _ (λ k. write_sized-Counts path content _)
