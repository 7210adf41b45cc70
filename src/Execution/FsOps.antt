-- ===== src/Execution/FsOps.antt =====
-- src/vfs/execution/fs_ops.py: the shell operations of sandboxed code, as `fs_operations_for` binds
-- them to a session, its limits and its counter.
use ai_vfs.Base.{
  ℕ, Bool, true, false, not, Option, none, some, List, [], ◌∷◌, ◌++◌, Text, codes, text_eq,
  ends_with, has_char, any, select, map, ltb, drop, length, if◌then◌else◌,
}
use ai_vfs.Models.{FileMeta, VersionMeta, regex, find, glob}
use ai_vfs.Exec.{pure, ◌>>=◌, ◌>>◌}
use ai_vfs.Paths.Posix.{slash}
use ai_vfs.Store.Versions.{get_version}
use ai_vfs.World.{Setup, operation}
use ai_vfs.Search.{FindPredicates, SearchResult, match_all}
use ai_vfs.Vfs.Search.{SearchProvider}
use ai_vfs.Session
use ai_vfs.Session.{Sh, io, resolved, as_directory}
use ai_vfs.Execution.{
  ResourceLimits, LinesAnswer, LsEntry, GlobItem, Capped, WriteAnswer, check_and_increment,
}
use ai_vfs.Execution.Lines.{
  split_lines, first_lines, last_lines, first_segment, basename, rstrip_slash, truncated,
}

-- `_error_response`
abbrev pub error_response : Text → LinesAnswer
error_response code = record { lines = []; error = some code }

abbrev pub lines_response : List Text → LinesAnswer
lines_response lines = record { lines = lines; error = none }

-- `limit is not None and n > limit`
abbrev pub exceeds : ℕ → Option ℕ → Bool
exceeds n none = false
exceeds n (some limit) = ltb limit n

-- The size of a version, where there is one, against a limit.
abbrev pub is_oversized : Option VersionMeta → Option ℕ → Bool
is_oversized none limit = false
is_oversized (some v) limit = exceeds v.size limit

-- The decoded text as a response, cut by the operation.
abbrev pub decoded_response : (List Text → List Text) → Option Text → LinesAnswer
decoded_response cut none = error_response (codes "binary_content")
decoded_response cut (some text) = lines_response (cut (split_lines text))

abbrev pub size_of : Option VersionMeta → Option ℕ
size_of none = none
size_of (some v) = some v.size

abbrev pub dir_entry : Text → Text → LsEntry
dir_entry prefix seg = record {
  name = seg;
  path = prefix ++ (seg ++ (slash ∷ []));
  is_dir = true;
  version_number = none;
  updated_at = none;
  size = none;
}

-- One more directory, unless it is there.
unfoldable pub add_dir : LsEntry → List LsEntry → List LsEntry
unfolding any text_eq
add_dir d dirs = if any (λ e. text_eq e.path d.path) dirs then dirs else dirs ++ (d ∷ [])

abbrev pub file_entry : FileMeta → Option (Option ℕ) → LsEntry
file_entry f size = record {
  name = basename (rstrip_slash f.path);
  path = f.path;
  is_dir = ends_with f.path slash;
  version_number = some f.current_version_number;
  updated_at = some f.updated_at;
  size = size;
}

-- `_build_ls_entry`
unfoldable pub build_ls_entry : Bool → FileMeta → Sh LsEntry
build_ls_entry false f = pure (file_entry f none)
build_ls_entry true f = do
  v ← io (operation (get_version f.namespace_id f.path none))
  pure (file_entry f (some (size_of v)))

-- The loop of `_op_ls`: synthesised directories, then files.
unfoldable pub ls_entries :
    Text → Bool → List LsEntry → List LsEntry → List FileMeta → Sh (List LsEntry)
unfolding add_dir first_segment build_ls_entry
ls_entries prefix long dirs files [] = pure (dirs ++ files)
ls_entries prefix long dirs files (f ∷ fs) = elim (first_segment (drop (length prefix) f.path)) [
  | none ↦ do e ← build_ls_entry long f; ls_entries prefix long dirs (files ++ (e ∷ [])) fs
  | some seg ↦ ls_entries prefix long (add_dir (dir_entry prefix seg) dirs) files fs
]

abbrev pub glob_item : SearchResult → GlobItem
glob_item r = record { path = r.path; score = r.score }

-- `find_preds.name if find_preds.name is not None else "*"`
abbrev pub name_query : Option Text → Text
name_query none = codes "*"
name_query (some name) = name

abbrev pub oversized_write : WriteAnswer
oversized_write = record { version_number = none; size = 0; error = some (codes "oversized_write") }

abbrev pub written : VersionMeta → WriteAnswer
written v = record { version_number = some v.version_number; size = v.size; error = none }

module _ (S : Setup) (P : SearchProvider) (ns principal : Text) (limits : ResourceLimits) where
  abbrev pub charge : Sh (Unit {0})
  charge = check_and_increment limits.max_operations

  -- `_decode_raw`, and what the operation makes of the text
  unfoldable pub decode_raw : (List Text → List Text) → Text → LinesAnswer
  decode_raw cut raw =
      if exceeds (length raw) limits.max_read_bytes
      then error_response (codes "oversized_read")
      else decoded_response cut (S.decode raw)

  abbrev pub size_checked : Option ℕ → Text → Sh Bool
  size_checked none path = pure false
  size_checked (some limit) path = do
    f ← Session.stat ns principal path
    v ← io (operation (get_version f.namespace_id f.path none))
    pure (is_oversized v (some limit))

  -- `_check_size_before_read`, `true` for its error
  unfoldable pub check_size_before_read : Text → Sh Bool
  check_size_before_read path = size_checked limits.max_read_bytes path

  abbrev pub read_lines : (List Text → List Text) → Text → Bool → Sh LinesAnswer
  read_lines cut path true = pure (error_response (codes "oversized_read"))
  read_lines cut path false =
      Session.read ns principal path none >>= λ raw. pure (decode_raw cut raw)

  -- What `_op_cat`, `_op_head` and `_op_tail` share.
  unfoldable pub op_read_lines : (List Text → List Text) → Text → Sh LinesAnswer
  unfolding check_size_before_read
  op_read_lines cut path = do
    charge
    target ← resolved path
    is_early_error ← check_size_before_read target
    read_lines cut target is_early_error

  unfoldable pub op_cat : Text → Sh LinesAnswer
  op_cat path = op_read_lines (λ lines. lines) path

  unfoldable pub op_head : Text → ℕ → Sh LinesAnswer
  op_head path n = op_read_lines (first_lines n) path

  unfoldable pub op_tail : Text → ℕ → Sh LinesAnswer
  op_tail path n = op_read_lines (last_lines n) path

  unfoldable pub op_cd : Text → Sh (Unit {0})
  op_cd path = do charge; Session.cd ns principal path

  unfoldable pub op_pwd : Sh Text
  op_pwd = do charge; Session.pwd

  unfoldable pub op_ls : Text → Bool → Sh (Capped LsEntry)
  unfolding ls_entries truncated
  op_ls path long = do
    charge
    target ← resolved path
    files ← Session.list ns principal S (as_directory target) true
    entries ← ls_entries (as_directory target) long [] [] files
    pure (truncated entries limits.max_result_items)

  unfoldable pub op_grep : Text → Text → Bool → Sh (Capped SearchResult)
  unfolding select has_char truncated
  op_grep pattern path recursive = do
    charge
    target ← resolved path
    let prefix = as_directory target
    results ← Session.search ns principal S P pattern prefix regex none match_all
    let items =
        if recursive
        then results
        else select (λ r. not (has_char slash (drop (length prefix) r.path))) results
    pure (truncated items limits.max_result_items)

  unfoldable pub op_find : Text → FindPredicates → Sh (Capped SearchResult)
  unfolding truncated
  op_find path predicates = do
    charge
    target ← resolved path
    results ←
        Session.search ns principal S P (name_query predicates.name) target find (some predicates)
          match_all
    pure (truncated results limits.max_result_items)

  unfoldable pub op_glob : Text → Sh (Capped GlobItem)
  unfolding truncated
  op_glob pattern = do
    charge
    scope ← Session.pwd
    results ← Session.search ns principal S P pattern scope glob none match_all
    pure (truncated (map glob_item results) limits.max_result_items)

  abbrev pub write_sized : Text → Text → Bool → Sh WriteAnswer
  write_sized path content true = pure oversized_write
  write_sized path content false = do
    target ← resolved path
    v ← Session.write ns principal S target content none
    pure (written v)

  unfoldable pub op_write : Text → Text → Sh WriteAnswer
  op_write path content = do
    charge
    write_sized path content (exceeds (length content) limits.max_write_bytes)

  unfoldable pub op_read : Text → Option ℕ → Sh Text
  op_read path version_number = do
    target ← resolved path
    Session.read ns principal target version_number

  unfoldable pub op_stat : Text → Sh FileMeta
  op_stat path = do target ← resolved path; Session.stat ns principal target

  unfoldable pub op_delete : Text → Sh VersionMeta
  op_delete path = do target ← resolved path; Session.delete ns principal S target
