-- ===== src/Store/Versions.antt =====
-- The `versions` table: `put_version`, `get_version`, `list_versions`, `delete_versions`,
-- `has_version_references`.
use ai_vfs.Base.{
  ℕ, Bool, true, false, not, ◌&&◌, ◌||◌, Option, none, some, List, [], ◌∷◌, Text, text_eq, select,
  find, any, head?, take, ltb, ◌==◌, sort_desc, if◌then◌else◌,
}
use ai_vfs.Models.{FileMeta, VersionMeta}
use ai_vfs.Errors.{Result, ok, err, conflict, version_collision, integrity_error}
use ai_vfs.Exec.{gets, modify, ◌>>◌}
use ai_vfs.Store.Tables.{Meta, Sql}
use ai_vfs.Store.Files.{is_file, upsert_file}

unfoldable pub is_version_of : Text → Text → VersionMeta → Bool
unfolding text_eq
is_version_of ns path v = text_eq v.namespace_id ns && text_eq v.file_path path

-- The UNIQUE(namespace_id, file_path, version_number) key.
unfoldable pub is_version : Text → Text → ℕ → VersionMeta → Bool
unfolding is_version_of
is_version ns path n v = is_version_of ns path v && v.version_number == n

unfoldable pub has_version : Text → Text → ℕ → List VersionMeta → Bool
unfolding is_version any
has_version ns path n = any (is_version ns path n)

unfoldable pub has_id : Text → List VersionMeta → Bool
unfolding text_eq any
has_id i = any (λ v. text_eq v.id i)

-- `INSERT INTO versions`: the primary key and the unique key are enforced.
unfoldable pub insert_version : VersionMeta → Sql (Unit {0})
unfolding has_version has_id
insert_version v m =
    if has_id v.id m.versions || has_version v.namespace_id v.file_path v.version_number m.versions
    then (err integrity_error, m)
    else (ok tt, record m { versions = v ∷ m.versions })

-- `except sa.exc.IntegrityError: raise VersionCollisionError`
unfoldable pub as_collision : Result (Unit {0}) × Meta → Result (Unit {0}) × Meta
as_collision (err integrity_error, m) = (err version_collision, m)
as_collision (ok a, m) = (ok a, m)
as_collision (err e, m) = (err e, m)

abbrev pub pointer : VersionMeta → FileMeta
pointer v = record {
  namespace_id = v.namespace_id;
  path = v.file_path;
  current_version_id = v.id;
  current_version_number = v.version_number;
  created_at = v.created_at;
  updated_at = v.created_at;
  is_deleted = v.is_tombstone;
}

abbrev pub advanced : VersionMeta → FileMeta → FileMeta
advanced v f = record f {
  current_version_id = v.id;
  current_version_number = v.version_number;
  updated_at = v.created_at;
  is_deleted = v.is_tombstone;
}

-- `UPDATE files … WHERE namespace_id, path, current_version_number = expected`, and whether a row
-- matched. The primary key lets at most one row of the path match.
unfoldable pub cas_files : VersionMeta → ℕ → List FileMeta → Bool × List FileMeta
unfolding is_file
cas_files v expected [] = (false, [])
cas_files v expected (f ∷ fs) =
    let (hit, rest) = cas_files v expected fs in
    if is_file v.namespace_id v.file_path f
    then (if f.current_version_number == expected
        then (true, advanced v f ∷ fs)
        else (false, f ∷ fs))
    else (hit, f ∷ rest)

-- The unconditional branch: insert the version, then upsert the pointer.
unfoldable pub put_unconditional : VersionMeta → Sql (Unit {0})
unfolding insert_version as_collision upsert_file
put_unconditional v = do
  (λ m. as_collision (insert_version v m))
  modify (λ m. record m { files = upsert_file (pointer v) m.files })

-- The compare-and-swap branch: advance the pointer, then insert the version.
unfoldable pub put_cas : VersionMeta → ℕ → Sql (Unit {0})
unfolding cas_files insert_version
put_cas v expected m =
    let (hit, fs) = cas_files v expected m.files in
    if hit
    then insert_version v (record m { files = fs })
    else (err conflict, record m { files = fs })

unfoldable pub put_version : VersionMeta → Option ℕ → Sql (Unit {0})
unfolding put_unconditional put_cas
put_version v none = put_unconditional v
put_version v (some expected) = put_cas v expected

-- `… ORDER BY version_number DESC`
unfoldable pub newest_first : Text → Text → List VersionMeta → List VersionMeta
unfolding is_version_of select sort_desc
newest_first ns path vs = sort_desc (λ v. v.version_number) (select (is_version_of ns path) vs)

unfoldable pub find_version : Text → Text → Option ℕ → List VersionMeta → Option VersionMeta
unfolding newest_first is_version find
find_version ns path none vs = head? (newest_first ns path vs)
find_version ns path (some n) vs = find (is_version ns path n) vs

unfoldable pub get_version : Text → Text → Option ℕ → Sql (Option VersionMeta)
unfolding find_version
get_version ns path n = gets (λ m. find_version ns path n m.versions)

abbrev pub older_than : Option ℕ → VersionMeta → Bool
older_than none v = true
older_than (some b) v = ltb v.version_number b

unfoldable pub list_versions : Text → Text → ℕ → Option ℕ → Sql (List VersionMeta)
unfolding is_version_of select sort_desc
list_versions ns path limit before = gets (λ m. take limit (
    sort_desc (λ v. v.version_number)
      (select (older_than before) (select (is_version_of ns path) m.versions))))

unfoldable pub mem_text : Text → List Text → Bool
unfolding text_eq any
mem_text t = any (λ u. text_eq u t)

unfoldable pub delete_versions : List Text → Sql (Unit {0})
unfolding mem_text select
delete_versions ids =
    modify (λ m. record m { versions = select (λ v. not (mem_text v.id ids)) m.versions })

unfoldable pub has_version_references : Text → Sql Bool
unfolding text_eq any
has_version_references content_hash =
    gets (λ m. any (λ v. text_eq v.content_hash content_hash) m.versions)
