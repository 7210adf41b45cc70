-- ===== src/Execution.antt =====
-- src/vfs/protocols/execution.py and fs_port.py, `OperationCounter` of execution/fs_ops.py: the limits
-- of sandboxed code, what its operations answer, and the counter that they charge.
pub mod Lines
pub mod FsOps
pub mod FsPort
pub mod Budget
pub mod Calls
pub mod Limits
pub mod Slices
pub mod Contract
pub mod Audited
pub mod Program
pub mod Execute
use ai_vfs.Base.{ℕ, ◌+◌, Bool, Option, List, Text, ltb}
use ai_vfs.Errors.{operation_budget_exceeded}
use ai_vfs.Exec.{pure, guard, gets, modify, ◌>>=◌, ◌>>◌}
use ai_vfs.Search.{SearchResult, Score}
use ai_vfs.Session.{Shell, Sh}

-- `timeout_seconds` and `max_memory_bytes` bound the provider's run and not these operations.
pub record ResourceLimits : Type 0 where
  pub max_operations : ℕ
  pub max_read_bytes : Option ℕ
  pub max_write_bytes : Option ℕ
  pub max_result_items : Option ℕ

-- `{"lines": …, "error": …}`, with the error's code.
pub record LinesAnswer : Type 0 where
  pub lines : List Text
  pub error : Option Text

-- An entry of `ls`; `size` is there only for `long=True`.
pub record LsEntry : Type 0 where
  pub name : Text
  pub path : Text
  pub is_dir : Bool
  pub version_number : Option ℕ
  pub updated_at : Option ℕ
  pub size : Option (Option ℕ)

pub record GlobItem : Type 0 where
  pub path : Text
  pub score : Score

-- A list that `_truncated` has cut, and whether it has.
pub record Capped (A : Type 0) : Type 0 where
  pub items : List A
  pub truncated : Bool

pub record WriteAnswer : Type 0 where
  pub version_number : Option ℕ
  pub size : ℕ
  pub error : Option Text

pub record FsStat : Type 0 where
  pub size : ℕ
  pub is_dir : Bool
  pub version_number : Option ℕ

pub record ExecutionResult : Type 0 where
  pub success : Bool
  pub output : Option Text
  pub error_type : Option Text
  pub error_message : Option Text

-- `check_and_increment` of a counter with the given limit.
unfoldable pub check_and_increment : ℕ → Sh (Unit {0})
check_and_increment max_operations = do
  has_budget ← gets (λ s. ltb s.count max_operations)
  guard has_budget operation_budget_exceeded
  modify (λ s. record s { count = s.count + 1 })
