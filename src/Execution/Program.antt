-- ===== src/Execution/Program.antt =====
-- What a sandbox runs: a tree of calls of the operations it is given, where the code that comes after
-- a call depends on its answer or its exception. The sandboxes themselves are not modelled: a
-- provider is any function from code to such a tree.
use ai_vfs.Base.{ℕ, Bool, some, List, Text}
use ai_vfs.Errors.{Result}
use ai_vfs.Exec.{pure, ◌>>=◌}
use ai_vfs.World.{Setup}
use ai_vfs.Search.{FindPredicates, SearchResult}
use ai_vfs.Vfs.Search.{SearchProvider}
use ai_vfs.Session.{Sh}
use ai_vfs.Execution.{
  ResourceLimits, LinesAnswer, LsEntry, GlobItem, Capped, WriteAnswer, FsStat, ExecutionResult,
}
use ai_vfs.Execution.FsOps.{
  op_cd, op_pwd, op_cat, op_head, op_tail, op_ls, op_grep, op_find, op_glob, op_write,
}
use ai_vfs.Execution.FsPort.{
  port_read, port_write, port_list, port_stat, port_exists, port_delete, port_mkdir,
}

-- The ten shell verbs that a sandbox gets, and the operations of the mounted file system.
pub data Command : Type 0 where
  cd cat port_read_of port_list_of port_stat_of port_exists_of port_delete_of : Text → Command
  port_mkdir_of glob : Text → Command
  pwd : Command
  head tail : Text → ℕ → Command
  ls : Text → Bool → Command
  grep : Text → Text → Bool → Command
  find : Text → FindPredicates → Command
  write port_write_of : Text → Text → Command

-- What a command answers.
pub data Answer : Type 0 where
  done : Answer
  text_answer : Text → Answer
  number_answer : ℕ → Answer
  flag_answer : Bool → Answer
  paths_answer : List Text → Answer
  lines_answer : LinesAnswer → Answer
  write_answer : WriteAnswer → Answer
  stat_answer : FsStat → Answer
  ls_answer : Capped LsEntry → Answer
  search_answer : Capped SearchResult → Answer
  glob_answer : Capped GlobItem → Answer

-- The provider's result or the exception that ends the run, also the one of `wait_for` when the time
-- is over; or a call and what the code does with its outcome.
pub data Program : Type 0 where
  finish : Result ExecutionResult → Program
  call : Command → (Result Answer → Program) → Program

-- `ExecutionProvider.execute`
abbrev pub Provider : Type 0
Provider = Text → ResourceLimits → Program

abbrev pub answering : {A : Type 0} → (A → Answer) → Sh A → Sh Answer
answering f m = m >>= λ a. pure (f a)

module _ (S : Setup) (P : SearchProvider) (ns principal : Text) (limits : ResourceLimits) where
  -- The operations that `execute` binds to one session, one set of limits and one counter.
  unfoldable pub perform : Command → Sh Answer
  perform (cd path) = answering (λ _. done) (op_cd S P ns principal limits path)
  perform pwd = answering text_answer (op_pwd S P ns principal limits)
  perform (cat path) = answering lines_answer (op_cat S P ns principal limits path)
  perform (head path n) = answering lines_answer (op_head S P ns principal limits path n)
  perform (tail path n) = answering lines_answer (op_tail S P ns principal limits path n)
  perform (ls path long) = answering ls_answer (op_ls S P ns principal limits path long)
  perform (grep pattern path recursive) =
      answering search_answer (op_grep S P ns principal limits pattern path recursive)
  perform (find path predicates) =
      answering search_answer (op_find S P ns principal limits path predicates)
  perform (glob pattern) = answering glob_answer (op_glob S P ns principal limits pattern)
  perform (write path content) =
      answering write_answer (op_write S P ns principal limits path content)
  perform (port_read_of path) =
      answering text_answer
        (port_read S ns principal (some limits) (some limits.max_operations) path)
  perform (port_write_of path content) =
      answering number_answer
        (port_write S ns principal (some limits) (some limits.max_operations) path content)
  perform (port_list_of path) =
      answering paths_answer
        (port_list S ns principal (some limits) (some limits.max_operations) path)
  perform (port_stat_of path) =
      answering stat_answer
        (port_stat S ns principal (some limits) (some limits.max_operations) path)
  perform (port_exists_of path) =
      answering flag_answer
        (port_exists S ns principal (some limits) (some limits.max_operations) path)
  perform (port_delete_of path) =
      answering (λ _. done)
        (port_delete S ns principal (some limits) (some limits.max_operations) path)
  perform (port_mkdir_of path) =
      answering (λ _. done)
        (port_mkdir S ns principal (some limits) (some limits.max_operations) path)

  -- A run of the tree; an exception of a call comes back to the code.
  unfoldable pub run : Program → Sh ExecutionResult
  unfolding perform
  run (finish r) s = (r, s)
  run (call c next) s = let (a, s') = perform c s in run (next a) s'
