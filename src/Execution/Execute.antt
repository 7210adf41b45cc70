-- ===== src/Execution/Execute.antt =====
-- `execute` of src/vfs/vfs.py and src/vfs/execution/registry.py.
use ai_vfs.Base.{ℕ, Bool, false, not, Option, none, some, Text, codes, text_eq, if◌then◌else◌}
use ai_vfs.Errors.{
  Error, Result, ok, err, conflict, version_collision, permission_denied, not_found,
  read_budget_exceeded, index_unavailable, reindex_required, operation_budget_exceeded,
  resource_limit_exceeded, value_error, import_error, timeout,
}
use ai_vfs.Exec.{gets, pure, lift, ◌>>=◌, ◌>>◌}
use ai_vfs.Paths.Canonical.{require_canonical}
use ai_vfs.World.{Io, Setup}
use ai_vfs.Vfs.Access.{check_perm}
use ai_vfs.Vfs.Audit.{audit_execute}
use ai_vfs.Vfs.Search.{SearchProvider}
use ai_vfs.Session
use ai_vfs.Session.{Sh, io, new_session}
use ai_vfs.Execution.{ResourceLimits, ExecutionResult}
use ai_vfs.Execution.Program.{Provider, run}

-- `(driver_module, adapter_module, class_name)`
pub record ProviderSpec : Type 0 where
  pub driver : Text
  pub adapter_module : Text
  pub class_name : Text

-- `_EXECUTION_PROVIDERS.get(name)`
unfoldable pub provider_spec : Text → Option ProviderSpec
unfolding text_eq
provider_spec name =
    if text_eq name (codes "monty")
    then some (record {
      driver = codes "pydantic_monty";
      adapter_module = codes "vfs.execution.monty_provider";
      class_name = codes "MontyExecutionProvider";
    })
    else if text_eq name (codes "just-bash")
    then some (record {
      driver = codes "just_bash";
      adapter_module = codes "vfs.execution.just_bash_provider";
      class_name = codes "JustBashExecutionProvider";
    })
    else none

-- What is installed: `importlib.util.find_spec`, and the classes of the adapter modules.
pub record Installed : Type 0 where
  pub has_module : Text → Bool
  pub load : Text → Text → Provider
  pub default_max_operations : ℕ

abbrev pub load_provider : Installed → Option ProviderSpec → Result Provider
load_provider I none = err value_error
load_provider I (some p) =
    if not (I.has_module p.driver)
    then err import_error
    else if not (I.has_module p.adapter_module)
    then err import_error
    else ok (I.load p.adapter_module p.class_name)

unfoldable pub resolve_execution_provider : Installed → Text → Result Provider
unfolding provider_spec
resolve_execution_provider I name = load_provider I (provider_spec name)

-- `ResourceLimits(timeout_seconds=…, max_operations=…)`, for a call without limits
abbrev pub effective_limits : Installed → Option ResourceLimits → ResourceLimits
effective_limits I none = record {
  max_operations = I.default_max_operations;
  max_read_bytes = none;
  max_write_bytes = none;
  max_result_items = none;
}
effective_limits I (some limits) = limits

abbrev pub failed : Text → Text → ExecutionResult
failed error_type error_message = record {
  success = false;
  output = none;
  error_type = some error_type;
  error_message = some error_message;
}

-- The `except` clauses of `execute`.
unfoldable pub translated : Error → ExecutionResult
translated timeout = failed (codes "timeout") (codes "Execution timed out")
translated permission_denied = failed (codes "permission_denied") (codes "Access denied to path")
translated not_found = failed (codes "not_found") (codes "File not found")
translated conflict = failed (codes "conflict") (codes "Version conflict; re-read and retry")
translated version_collision = failed (codes "conflict") (codes "Concurrent write; retry")
translated operation_budget_exceeded =
    failed (codes "budget_exceeded") (codes "Operation limit reached")
translated resource_limit_exceeded =
    failed (codes "budget_exceeded") (codes "Resource size limit exceeded")
translated read_budget_exceeded =
    failed (codes "search_unavailable") (codes "Search read budget exhausted; reindex")
translated reindex_required =
    failed (codes "search_unavailable") (codes "Index cold; run vfs.reindex()")
translated index_unavailable =
    failed (codes "search_unavailable") (codes "Search index unavailable")
translated _ = failed (codes "internal_error") (codes "Execution error")

abbrev pub result_of : Result ExecutionResult → ExecutionResult
result_of (ok r) = r
result_of (err e) = translated e

-- The `try` around the provider's run.
abbrev pub caught : Sh ExecutionResult → Sh ExecutionResult
caught m s = let (r, s') = m s in (ok (result_of r), s')

-- A fresh session and counter, and what it leaves in the world.
abbrev pub in_session : {A : Type 0} → Sh A → Io A
in_session m w = let (a, s) = m (new_session w) in (a, s.world)

module _ (S : Setup) (P : SearchProvider) (I : Installed) where
  unfoldable pub execute :
      Text → Text → Text → Text → Option ResourceLimits → Text → Io ExecutionResult
  unfolding resolve_execution_provider
  execute code ns principal provider_name resource_limits cwd = do
    lift (require_canonical cwd)
    let limits = effective_limits I resource_limits
    check_perm principal ns cwd (codes "execute")
    provider ← lift (resolve_execution_provider I provider_name)
    result ← in_session (do
      Session.cd ns principal cwd
      caught (run S P ns principal limits (provider code limits)))
    audit_execute S ns principal cwd provider_name result.success result.error_type
    pure result

  -- `execute` of src/vfs/session.py: the sandbox starts in the working directory of the session.
  unfoldable pub session_execute :
      Text → Text → Text → Text → Option ResourceLimits → Sh ExecutionResult
  unfolding execute
  session_execute ns principal code provider_name resource_limits = do
    cwd ← gets (λ s. s.cwd)
    io (execute code ns principal provider_name resource_limits cwd)
