-- ===== src/Execution/Calls.antt =====
-- Every call of a sandbox is charged, and a run of any code stays within the budget.
use ai_vfs.Base.{
  ℕ, suc, ◌+◌, ◌≤◌, ◌≡◌, Bool, true, false, Option, none, some, List, [], ◌∷◌, Text, ltb, ltb→lt,
  Bool-cases, inl, inr, if◌then◌else◌, arith,
}
use ai_vfs.Models.{FileMeta}
use ai_vfs.Errors.{Result, ok, err, operation_budget_exceeded}
use ai_vfs.Exec.Invariants.{Preserves, Preserves-if, Preserves-bind}
use ai_vfs.World.{Setup}
use ai_vfs.Vfs.Search.{SearchProvider}
use ai_vfs.Session.{Shell, as_directory}
use ai_vfs.Session.Laws.{Counts, session_rules, stat-Counts, resolved-Counts, list-Counts}
use ai_vfs.Execution.{ResourceLimits}
use ai_vfs.Execution.FsOps
use ai_vfs.Execution.FsPort
use ai_vfs.Execution.FsPort.{is_not_found}
use ai_vfs.Execution.Program.{
  Command, cd, pwd, cat, head, tail, ls, grep, find, glob, write, port_read_of, port_write_of,
  port_list_of, port_stat_of, port_exists_of, port_delete_of, port_mkdir_of, Program, finish, call,
  Answer, perform,
}
use ai_vfs.Execution.Budget.{
  Charged, Charged-bind, Charged-charge, Charged-answering, op_read_lines-Charged, op_cd-Charged,
  op_pwd-Charged, op_ls-Charged, op_grep-Charged, op_find-Charged, op_glob-Charged,
  op_write-Charged,
}

module _ (S : Setup) (ns principal : Text) (limits : ResourceLimits) where
  enforce_read_size-Counts :
      {n : ℕ} (path : Text)
      → Preserves
          (Counts n)
          (FsPort.enforce_read_size S ns principal (some limits) (some limits.max_operations) path)
  unfolding FsPort.enforce_read_size
  enforce_read_size-Counts {n = n} path = checked limits.max_read_bytes
    where
      checked :
          (limit : Option ℕ)
          → Preserves (Counts n) (
              FsPort.read_size_checked S ns principal
                (some limits)
                (some limits.max_operations)
                limit
                path)
      checked none = search session_rules
      checked (some limit) = search session_rules

  port_read-Charged :
      (path : Text)
      → Charged limits.max_operations
          (FsPort.port_read S ns principal (some limits) (some limits.max_operations) path)
  unfolding FsPort.port_read FsPort.account
  port_read-Charged path =
      Charged-bind limits.max_operations _ (λ k. search (session_rules, enforce_read_size-Counts))

  port_write-Charged :
      (path content : Text)
      → Charged limits.max_operations
          (FsPort.port_write S ns principal (some limits) (some limits.max_operations) path content)
  unfolding FsPort.port_write FsPort.account
  port_write-Charged path content = Charged-bind limits.max_operations _ (λ k. search session_rules)

  port_list-Charged :
      (path : Text)
      → Charged limits.max_operations
          (FsPort.port_list S ns principal (some limits) (some limits.max_operations) path)
  unfolding FsPort.port_list FsPort.account
  port_list-Charged path = Charged-bind limits.max_operations _ (λ k. search session_rules)

  stat_directory-Counts :
      {n : ℕ} (path : Text)
      → Preserves
          (Counts n)
          (FsPort.stat_directory S ns principal (some limits) (some limits.max_operations) path)
  unfolding FsPort.stat_directory
  stat_directory-Counts {n = n} path =
      Preserves-bind _ _ (list-Counts ns principal S (as_directory path) true) children
    where
      children : (fs : List FileMeta) → Preserves (Counts n) (FsPort.dir_or_not_found fs)
      children [] = search session_rules
      children (f ∷ fs) = search session_rules

  stat_result-Counts :
      {n : ℕ} (path : Text) (r : Result FileMeta)
      → Preserves
          (Counts n)
          (FsPort.stat_result S ns principal (some limits) (some limits.max_operations) path r)
  stat_result-Counts path (ok f) = search session_rules
  stat_result-Counts path (err e) =
      Preserves-if (is_not_found e) _ _ (stat_directory-Counts path) (search session_rules)

  stat_at-Counts :
      {n : ℕ} (path : Text)
      → Preserves
          (Counts n)
          (FsPort.stat_at S ns principal (some limits) (some limits.max_operations) path)
  unfolding FsPort.stat_at
  stat_at-Counts path = record {
    after = λ s h. (stat_result-Counts path _).after _ ((stat-Counts ns principal path).after s h);
  }

  port_stat-Charged :
      (path : Text)
      → Charged limits.max_operations
          (FsPort.port_stat S ns principal (some limits) (some limits.max_operations) path)
  unfolding FsPort.port_stat FsPort.account
  port_stat-Charged path =
      Charged-bind limits.max_operations _ (λ k. search (session_rules, stat_at-Counts))

  port_exists-Charged :
      (path : Text)
      → Charged limits.max_operations
          (FsPort.port_exists S ns principal (some limits) (some limits.max_operations) path)
  unfolding FsPort.port_exists FsPort.account
  port_exists-Charged path = Charged-bind limits.max_operations _ (λ k.
      Preserves-bind _ _ (resolved-Counts path)
        (λ target. record { after = λ s h. (stat_at-Counts target).after s h }))

  port_delete-Charged :
      (path : Text)
      → Charged limits.max_operations
          (FsPort.port_delete S ns principal (some limits) (some limits.max_operations) path)
  unfolding FsPort.port_delete FsPort.account
  port_delete-Charged path = Charged-bind limits.max_operations _ (λ k. search session_rules)

  port_mkdir-Charged :
      (path : Text)
      → Charged limits.max_operations
          (FsPort.port_mkdir S ns principal (some limits) (some limits.max_operations) path)
  unfolding FsPort.port_mkdir FsPort.account
  port_mkdir-Charged path = Charged-charge limits.max_operations

module _ (S : Setup) (P : SearchProvider) (ns principal : Text) (limits : ResourceLimits) where
  perform-Charged :
      (c : Command) → Charged limits.max_operations (perform S P ns principal limits c)
  unfolding perform FsOps.op_cat FsOps.op_head FsOps.op_tail
  perform-Charged (cd path) = Charged-answering _ _ _ (op_cd-Charged S P ns principal limits path)
  perform-Charged pwd = Charged-answering _ _ _ (op_pwd-Charged S P ns principal limits)
  perform-Charged (cat path) =
      Charged-answering _ _ _ (op_read_lines-Charged S P ns principal limits _ path)
  perform-Charged (head path n) =
      Charged-answering _ _ _ (op_read_lines-Charged S P ns principal limits _ path)
  perform-Charged (tail path n) =
      Charged-answering _ _ _ (op_read_lines-Charged S P ns principal limits _ path)
  perform-Charged (ls path long) =
      Charged-answering _ _ _ (op_ls-Charged S P ns principal limits path long)
  perform-Charged (grep pattern path r) =
      Charged-answering _ _ _ (op_grep-Charged S P ns principal limits pattern path r)
  perform-Charged (find path p) =
      Charged-answering _ _ _ (op_find-Charged S P ns principal limits path p)
  perform-Charged (glob pattern) =
      Charged-answering _ _ _ (op_glob-Charged S P ns principal limits pattern)
  perform-Charged (write path content) =
      Charged-answering _ _ _ (op_write-Charged S P ns principal limits path content)
  perform-Charged (port_read_of path) =
      Charged-answering _ _ _ (port_read-Charged S ns principal limits path)
  perform-Charged (port_write_of path content) =
      Charged-answering _ _ _ (port_write-Charged S ns principal limits path content)
  perform-Charged (port_list_of path) =
      Charged-answering _ _ _ (port_list-Charged S ns principal limits path)
  perform-Charged (port_stat_of path) =
      Charged-answering _ _ _ (port_stat-Charged S ns principal limits path)
  perform-Charged (port_exists_of path) =
      Charged-answering _ _ _ (port_exists-Charged S ns principal limits path)
  perform-Charged (port_delete_of path) =
      Charged-answering _ _ _ (port_delete-Charged S ns principal limits path)
  perform-Charged (port_mkdir_of path) =
      Charged-answering _ _ _ (port_mkdir-Charged S ns principal limits path)

  -- With the budget spent, each of the ten shell verbs, and each of `read`, `write`, `stat`, `exists`,
  -- `list`, `delete` and `mkdir` of the mounted file system, raises OperationBudgetExceededError and leaves the stores, the working directory and the count as
  -- they were.
  pub perform-refused :
      (c : Command) (s : Shell)
      → limits.max_operations ≤ s.count
      → perform S P ns principal limits c s ≡ (err operation_budget_exceeded, s)
  perform-refused c s h = (perform-Charged c).refused s h

  abbrev pub is_refusal : {A : Type 0} → Result A → Bool
  is_refusal (err operation_budget_exceeded) = true
  is_refusal _ = false

  -- The calls of a run that are not refused for want of budget.
  abbrev pub calls_made : Program → Shell → ℕ
  calls_made (finish r) s = 0
  calls_made (call c next) s =
      let (a, s') = perform S P ns principal limits c s in
      let rest = calls_made (next a) s' in if is_refusal a then rest else suc rest

  added :
      (refused : Bool) (rest n n' max : ℕ)
      → n' ≡ n + 1
      → rest + n' ≤ max
      → (if refused then rest else suc rest) + n ≤ max
  added true rest n n' max e h = omega arith
  added false rest n n' max e h = omega arith

  call_bound :
      (c : Command) (next : Result Answer → Program)
      → ((a : Result Answer) (s : Shell)
          → s.count ≤ limits.max_operations
          → calls_made (next a) s + s.count ≤ limits.max_operations)
      → (s : Shell) → s.count ≤ limits.max_operations
      → calls_made (call c next) s + s.count ≤ limits.max_operations
  call_bound c next rest s h = elim (Bool-cases (ltb s.count limits.max_operations)) [
    | inl e ↦
        let q = (perform-Charged c).counted s (ltb→lt _ _ e) in
        let bounded : (perform S P ns principal limits c s).1.count ≤ limits.max_operations =
          rw q (ground arith) in
        added _ _ _ _ _ q (rest _ _ bounded)
    | inr e ↦ rw ((perform-Charged c).refused s (ground arith)) (rest _ s h)
  ]

  -- However long the code that a sandbox runs, the calls of it that are not refused, added to the
  -- count at its start, do not exceed max_operations.
  pub calls_made-le :
      (p : Program) (s : Shell)
      → s.count ≤ limits.max_operations
      → calls_made p s + s.count ≤ limits.max_operations
  calls_made-le (finish r) s h = omega arith
  calls_made-le (call c next) s h = call_bound c next (λ a. calls_made-le (next a)) s h
