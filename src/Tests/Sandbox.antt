-- ===== src/Tests/Sandbox.antt =====
-- The theorems on sessions, searches and sandboxed code at concrete inputs.
use ai_vfs.Base.{
  ◌≡◌, ◌≤◌, ◌+◌, refl, ◌⊎◌, false, none, some, [], ◌∷◌, Text, codes, text_eq, starts_with,
  ends_with, length, if◌then◌else◌, arith,
}
use ai_vfs.Errors.{
  Error, ok, err, permission_denied, value_error, operation_budget_exceeded,
  resource_limit_exceeded,
}
use ai_vfs.Paths.Canonical.{require_canonical, resolve_path}
use ai_vfs.Store.Permissions.{allowed}
use ai_vfs.Store.Versions.{find_version}
use ai_vfs.World.{World, Setup}
use ai_vfs.Vfs.Read.Laws.{content_of}
use ai_vfs.Search.{
  SearchMetaEntry, SearchResult, SearchRequest, FindPredicates, match_all, default_score,
}
use ai_vfs.Search.Reader.{Reading}
use ai_vfs.Search.Default.{Patterns, default_search}
use ai_vfs.Vfs.Search
use ai_vfs.Vfs.Search.{SearchProvider}
use ai_vfs.Vfs.Search.Builtin.{sqlite_provider}
use ai_vfs.Search.Sqlite.{Fts}
use ai_vfs.Base.{map}
use ai_vfs.Session
use ai_vfs.Session.{Shell, new_session, as_directory}
use ai_vfs.Session.Cwd.{IsDirectory, cd-cwd, session_read-alone}
use ai_vfs.Execution.{ResourceLimits, ExecutionResult, LinesAnswer, LsEntry}
use ai_vfs.Execution.FsOps
use ai_vfs.Execution.FsOps.{oversized_write}
use ai_vfs.Execution.FsPort
use ai_vfs.Execution.Lines.{first_lines, last_lines, join_lines}
use ai_vfs.Exec.Answers.{OnReturn}
use ai_vfs.Execution.Limits.{IsAccepted, op_cat-decodes, oversized-unchanged}
use ai_vfs.Execution.Program.{Program, call, finish, cat, pwd, perform}
use ai_vfs.Execution.Calls.{perform-refused, calls_made, calls_made-le}
use ai_vfs.Tests.Scene.{setup, ns, file, bob, hi, scene, blobs, start}
use ai_vfs.Execution
use ai_vfs.Execution.Lines
use ai_vfs.Search.Default
use ai_vfs.Search.Reader
use ai_vfs.Store.Files
use ai_vfs.Store.Permissions
use ai_vfs.Store.Versions
use ai_vfs.Tests.Like
use ai_vfs.Vfs.Access
use ai_vfs.Vfs.Read
use ai_vfs.World

-- Patterns that match literally.
abbrev pub patterns : Patterns
patterns = record {
  fnmatch = text_eq;
  path_match = text_eq;
  compile = λ p. some (text_eq p);
  decode_replace = λ c. c;
}

-- A MATCH that finds every row.
abbrev pub fts : Fts
fts = record { matches = λ q rows. rows; ranked = λ q rows. map (λ r. (r, default_score)) rows }

abbrev pub provider : SearchProvider
provider = sqlite_provider fts patterns

abbrev pub hit : SearchResult
hit = record { path = file; line_number = some 1; match_context = some hi; score = default_score }

abbrev pub named : SearchResult
named = record hit { line_number = none; match_context = none }

abbrev pub entry : LsEntry
entry = record {
  name = codes "f";
  path = file;
  is_dir = false;
  version_number = some 1;
  updated_at = some 7;
  size = none;
}

abbrev pub by_name : FindPredicates
by_name = record {
  name = some (codes "f");
  size_min = some 1;
  size_max = none;
  mtime_after = none;
  mtime_before = none;
  kind = some (codes "file");
}

abbrev pub limits : ResourceLimits
limits = record {
  max_operations = 2;
  max_read_bytes = some 8;
  max_write_bytes = some 1;
  max_result_items = some 1;
}

abbrev pub shell : Shell
shell = new_session start

root : IsDirectory (codes "/")
unfolding require_canonical starts_with ends_with
root = record { canonical = refl; slashed = refl; rooted = refl }

cd-cwd_example :
    (((Session.cd ns bob (codes "a/..") shell).0 ≡ ok tt)
      × ((Session.cd ns bob (codes "a/..") shell).1.cwd
          ≡ as_directory (resolve_path (codes "/") (codes "a/..")))
      × IsDirectory (Session.cd ns bob (codes "a/..") shell).1.cwd)
    ⊎ ((e : Error) × ((Session.cd ns bob (codes "a/..") shell).0 ≡ err e)
        × ((Session.cd ns bob (codes "a/..") shell).1.cwd ≡ codes "/"))
cd-cwd_example = cd-cwd ns bob (codes "a/..") shell root

session_read-alone_example : Session.read ns bob (codes "./f") none shell ≡ (
  if allowed bob ns (resolve_path (codes "/") (codes "./f")) (codes "read") scene.permissions
      then content_of blobs
          (find_version ns (resolve_path (codes "/") (codes "./f")) none scene.versions)
      else err permission_denied,
  shell,
)
session_read-alone_example =
    session_read-alone ns bob (codes "./f") (codes "/") none scene blobs 0 0 0 root

abbrev spent : Shell
spent = record shell { count = 2 }

perform-refused_example :
    perform setup provider ns bob limits (cat file) spent ≡ (err operation_budget_exceeded, spent)
perform-refused_example =
    perform-refused setup provider ns bob limits (cat file) spent (omega arith)

-- Code that reads the file, then asks for the working directory, then reads again.
abbrev program : Program
program = call (cat file) (λ a. call pwd (λ b. call (cat file) (λ c. finish (err value_error))))

calls_made-le_example : calls_made setup provider ns bob limits program shell + 0 ≤ 2
calls_made-le_example = calls_made-le setup provider ns bob limits program shell (omega arith)

op_cat_run :
    (FsOps.op_cat setup provider ns bob limits file shell).0
    ≡ ok (record { lines = hi ∷ []; error = none })
unfolding FsOps.op_cat FsOps.op_read_lines Execution.check_and_increment Session.resolved
    Session.stat Access.stat require_canonical Access.check_perm Files.get_file Versions.get_version
    Session.read Read.read World.blob_get FsOps.decode_raw Lines.split_lines
op_cat_run = refl

op_cat-decodes_example :
    (raw : Text) × (FsOps.exceeds (length raw) (some 8) ≡ false)
    × (some raw ≡ some (join_lines (hi ∷ [])))
op_cat-decodes_example =
    op_cat-decodes setup provider ns bob limits file shell
      (record { lines = hi ∷ []; error = none }) op_cat_run refl

oversized-unchanged_example :
    (FsOps.op_write setup provider ns bob limits file hi shell
      ≡ (ok oversized_write, record shell { count = 1 }))
    × (FsPort.port_write setup ns bob (some limits) (some 2) file hi shell
        ≡ (err resource_limit_exceeded, record shell { count = 1 }))
    × OnReturn IsAccepted (FsOps.op_write setup provider ns bob limits file (33 ∷ []) shell).0
oversized-unchanged_example =
    oversized-unchanged setup provider ns bob limits 1 file hi (33 ∷ []) shell shell refl
      (omega arith) (omega arith) (omega arith)

pub ls_run :
    (FsOps.op_ls setup provider ns bob limits (codes "/") false shell).0
    ≡ ok (record { items = entry ∷ []; truncated = false })
unfolding FsOps.op_ls Execution.check_and_increment Session.resolved Session.list Access.list
    require_canonical as_directory World.operation Files.list_dir Access.readable Like.match
    Like.one Like.any_suffix Permissions.check_permission Lines.basename Lines.rstrip_slash
ls_run = refl

pub grep_run :
    (FsOps.op_grep setup provider ns bob limits hi (codes "/") false shell).0
    ≡ ok (record { items = hit ∷ []; truncated = false })
unfolding FsOps.op_grep Execution.check_and_increment Session.resolved Session.search Search.search
    require_canonical as_directory World.operation Files.list_dir Access.readable Like.match
    Like.one Like.any_suffix Permissions.check_permission Search.entries_of Versions.get_version
    default_search Default.search_by Default.regex_search Default.regex_entries Reader.read_content
    Reader.read_entry World.blob_get Default.matching_lines ai_vfs.Search.Lines.splitlines
    ai_vfs.Search.Lines.strip Lines.truncated
grep_run = refl

pub find_run :
    (FsOps.op_find setup provider ns bob limits (codes "/") by_name shell).0
    ≡ ok (record { items = named ∷ []; truncated = false })
unfolding FsOps.op_find Execution.check_and_increment Session.resolved Session.search Search.search
    require_canonical World.operation Files.list_dir Access.readable Like.match Like.one
    Like.any_suffix Permissions.check_permission Search.entries_of Versions.get_version
    default_search
find_run = refl

pub glob_run :
    (FsOps.op_glob setup provider ns bob limits hi shell).0
    ≡ ok (record { items = []; truncated = false })
unfolding FsOps.op_glob Execution.check_and_increment Session.pwd Session.search Search.search
    require_canonical World.operation Files.list_dir Access.readable Like.match Like.one
    Like.any_suffix Permissions.check_permission Search.entries_of Versions.get_version
    default_search
glob_run = refl
