-- ===== src/Tests/Searching.antt =====
-- Searches by sandboxed code at concrete inputs, and runs of `execute`.
use ai_vfs.Base.{◌≡◌, ◌≤◌, refl, true, false, none, some, [], ◌∷◌, codes, All, arith}
use ai_vfs.Models.{regex}
use ai_vfs.Errors.{ok, err, permission_denied, value_error}
use ai_vfs.Paths.Canonical.{require_canonical}
use ai_vfs.Store.Tables.{Meta}
use ai_vfs.Store.Permissions.{allowed}
use ai_vfs.World.{World}
use ai_vfs.Vfs.Quiet.{alone}
use ai_vfs.Search.{SearchMetaEntry, SearchRequest, match_all}
use ai_vfs.Search.Reader.{Reading}
use ai_vfs.Search.Default.{default_search}
use ai_vfs.Search.Default.Laws.{Shows, default_search-Shows}
use ai_vfs.Search.Default.Reads.{default_search-ReadsWithin}
use ai_vfs.Vfs.Search
use ai_vfs.Vfs.Search.Builtin.{search-permitted}
use ai_vfs.Search.Default.Laws.{default_search-Answers}
use ai_vfs.Execution.{ExecutionResult, GlobItem}
use ai_vfs.Execution.Limits.{AtMost, results-le}
use ai_vfs.Exec.Answers.{OnReturn}
use ai_vfs.Execution.FsOps
use ai_vfs.Execution.Program.{call, finish, cat}
use ai_vfs.Execution.Execute.{Installed, execute}
use ai_vfs.Execution.Audited.{IsAudited, execute-IsAudited, execute-denied}
use ai_vfs.Tests.Scene.{setup, ns, file, bob, hi, scene, blobs, start}
use ai_vfs.Tests.Sandbox.{patterns, fts, provider, limits, shell, by_name, hit}
use ai_vfs.Execution.Execute
use ai_vfs.Execution.Program
use ai_vfs.Session
use ai_vfs.Store.Files
use ai_vfs.Store.Permissions
use ai_vfs.Store.Versions
use ai_vfs.Tests.Like
use ai_vfs.Vfs.Access
use ai_vfs.Vfs.Audit
use ai_vfs.World
use ai_vfs.Execution
use ai_vfs.Vfs.Read

results-le_example :
    OnReturn (AtMost 1) (FsOps.op_ls setup provider ns bob limits (codes "/") false shell).0
    × OnReturn (AtMost 1) (FsOps.op_grep setup provider ns bob limits hi (codes "/") false shell).0
    × OnReturn (AtMost 1) (FsOps.op_find setup provider ns bob limits (codes "/") by_name shell).0
    × OnReturn (AtMost 1) (FsOps.op_glob setup provider ns bob limits hi shell).0
results-le_example =
    results-le setup provider ns bob limits 1 hi (codes "/") false by_name shell refl

abbrev visible : SearchMetaEntry
visible = record {
  version_id = codes "v1";
  path = file;
  content_hash = 35 ∷ hi;
  size = 2;
  updated_at = 7;
  is_deleted = false;
  search_meta = [];
}

abbrev request : SearchRequest
request = record {
  query = hi;
  scope = codes "/";
  search_type = regex;
  search_metas = visible ∷ [];
  read_content = record { entries = visible ∷ []; max_reads = 10 };
  find_predicates = none;
  match_mode = match_all;
}

abbrev reading : Reading
reading = record { world = start; reads_done = 0 }

request_run : (default_search patterns request reading).0 ≡ ok (hit ∷ [])
unfolding default_search World.blob_get
request_run = refl

default_search-Shows_example : All (Shows (visible ∷ [])) (hit ∷ [])
default_search-Shows_example = default_search-Shows patterns request reading (hit ∷ []) request_run

default_search-ReadsWithin_example : (default_search patterns request reading).1.reads_done ≤ 10
default_search-ReadsWithin_example =
    default_search-ReadsWithin patterns request reading (omega arith)

search_run :
    (Search.search provider setup ns hi (codes "/") regex bob none match_all start).0
    ≡ ok (hit ∷ [])
unfolding Search.search require_canonical World.operation Files.list_dir Access.readable Like.match
    Like.one Like.any_suffix Permissions.check_permission Search.entries_of Versions.get_version
    default_search World.blob_get
search_run = refl

search-permitted_example :
    All (λ r. allowed bob ns r.path (codes "read") scene.permissions ≡ true) (hit ∷ [])
search-permitted_example =
    search-permitted fts patterns.compile provider (default_search-Answers patterns) setup ns hi
      (codes "/") bob regex none match_all scene blobs 0 0 (hit ∷ []) search_run

-- Every module is installed, and the sandbox reads one file and returns.
abbrev installed : Installed
installed = record {
  has_module = λ m. true;
  load = λ m c code limits. call (cat file) (λ a. finish (err value_error));
  default_max_operations = 5;
}

abbrev runner : Meta
runner = record scene {
  permissions =
      (record {
        id = codes "p";
        principal_id = bob;
        namespace_id = ns;
        path_prefix = codes "/";
        operations = codes "read" ∷ codes "execute" ∷ [];
        created_at = 0;
      })
      ∷ [];
}

abbrev failure : ExecutionResult
failure = record {
  success = false;
  output = none;
  error_type = some (codes "internal_error");
  error_message = some (codes "Execution error");
}

execute_run :
    (execute setup provider installed [] ns bob
      (codes "monty")
      none
      (codes "/")
      (alone runner blobs 0 0)).0
    ≡ ok failure
unfolding execute require_canonical Access.check_perm Session.cd Audit.audit_execute
    Audit.audit_event Program.run Execute.translated FsOps.op_cat FsOps.op_read_lines
    Execution.check_and_increment Session.read Read.read Versions.get_version World.blob_get
execute_run = refl

execute-IsAudited_example :
    IsAudited ns bob
      (codes "monty")
      (codes "/")
      failure
      (execute setup provider installed [] ns bob
        (codes "monty")
        none
        (codes "/")
        (alone runner blobs 0 0)).1
execute-IsAudited_example =
    execute-IsAudited setup refl provider installed [] ns bob (codes "monty") none (codes "/")
      (alone runner blobs 0 0) failure execute_run

is_root : require_canonical (codes "/") ≡ ok tt
unfolding require_canonical
is_root = refl

bob_may_not_execute : allowed bob ns (codes "/") (codes "execute") scene.permissions ≡ false
unfolding allowed
bob_may_not_execute = refl

execute-denied_example :
    execute setup provider installed [] ns bob (codes "monty") none (codes "/") start
    ≡ (err permission_denied, start)
execute-denied_example =
    execute-denied setup provider installed [] ns bob (codes "monty") none (codes "/") scene blobs 0
      0 is_root bob_may_not_execute
