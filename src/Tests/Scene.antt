-- ===== src/Tests/Scene.antt =====
-- One stored file, and a principal who may read, write and delete it.
use ai_vfs.Base.{
  text_eq, ◌≡◌, ◌≢◌, refl, inl, ◌⊎◌, true, false, none, some, [], ◌∷◌, Text, codes, any, arith,
}
use ai_vfs.Models.{VersionMeta}
use ai_vfs.Errors.{ok}
use ai_vfs.Paths.Canonical.{require_canonical}
use ai_vfs.Store.Tables.{Meta, empty_meta}
use ai_vfs.Store.Files.{find_file, current_number}
use ai_vfs.Store.Versions.{put_version, pointer, has_id, has_version, find_version}
use ai_vfs.Store.Permissions.{allowed}
use ai_vfs.Store.History.{IsHistory, put_version-IsHistory}
use ai_vfs.World.{World, Blobs, Setup, find_blob}
use ai_vfs.Vfs.Quiet.{alone}
use ai_vfs.Vfs.Read.{read}
use ai_vfs.Vfs.Read.Laws.{read-alone}
use ai_vfs.Tests.Like.{sql_like}

-- The hash is the content behind a mark, identifiers and times are their numbers.
abbrev pub setup : Setup
setup = record {
  like = sql_like;
  blake3 = λ c. 35 ∷ c;
  new_id = λ n. n ∷ [];
  clock = λ n. n;
  trace_id = none;
  decode = some;
  native_text_search = none;
  audit_log_enabled = true;
}

abbrev pub ns : Text
ns = codes "ns"

abbrev pub file : Text
file = codes "/f"

abbrev pub bob : Text
bob = codes "bob"

abbrev pub ann : Text
ann = codes "ann"

abbrev pub hi : Text
hi = codes "hi"

abbrev pub stored_version : VersionMeta
stored_version = record {
  id = codes "v1";
  file_path = file;
  namespace_id = ns;
  version_number = 1;
  content_hash = 35 ∷ hi;
  size = 2;
  created_at = 7;
  created_by = bob;
  is_tombstone = false;
  search_meta = [];
  parent_version_id = none;
}

abbrev pub stored : Meta
stored = record empty_meta { versions = stored_version ∷ []; files = pointer stored_version ∷ [] }

abbrev pub scene : Meta
scene = record stored {
  permissions =
      (record {
        id = codes "p";
        principal_id = bob;
        namespace_id = ns;
        path_prefix = codes "/";
        operations = codes "read" ∷ codes "write" ∷ codes "delete" ∷ [];
        created_at = 0;
      })
      ∷ [];
}

abbrev pub blobs : Blobs
blobs = (35 ∷ hi, hi) ∷ []

abbrev pub start : World
start = alone scene blobs 0 0

pub empty-IsHistory : IsHistory empty_meta
unfolding has_version current_number find_file
empty-IsHistory ns path n = ground arith

pub stored-IsHistory : IsHistory stored
unfolding put_version
stored-IsHistory =
    (put_version-IsHistory stored_version empty_meta empty-IsHistory
      (unfold current_number find_file in omega arith) none stored refl).0

pub scene-IsHistory : IsHistory scene
scene-IsHistory = stored-IsHistory

pub is_fresh : has_id (0 ∷ []) scene.versions ≡ false
unfolding has_id any
is_fresh = refl

pub may_read : allowed bob ns file (codes "read") scene.permissions ≡ true
unfolding allowed
may_read = refl

pub may_write : allowed bob ns file (codes "write") scene.permissions ≡ true
unfolding allowed
may_write = refl

pub may_delete : allowed bob ns file (codes "delete") scene.permissions ≡ true
unfolding allowed
may_delete = refl

pub is_canonical : require_canonical file ≡ ok tt
unfolding require_canonical
is_canonical = refl

pub reads_hi : read ns file bob (some 1) start ≡ (ok hi, start)
unfolding find_version find_blob allowed require_canonical
reads_hi = read-alone ns file bob (some 1) scene blobs 0 0

pub no_blob :
    (find_blob (35 ∷ codes "bye") blobs ≡ none)
    ⊎ (find_blob (35 ∷ codes "bye") blobs ≡ some (codes "bye"))
unfolding find_blob
no_blob = inl refl

pub file_is_there : find_file ns file scene.files ≡ some (pointer stored_version)
unfolding find_file
file_is_there = refl

abbrev pub other : Text
other = codes "/g"

pub other_is_canonical : require_canonical other ≡ ok tt
unfolding require_canonical
other_is_canonical = refl

pub may_write_other : allowed bob ns other (codes "write") scene.permissions ≡ true
unfolding allowed
may_write_other = refl

pub may_read_other : allowed bob ns other (codes "read") scene.permissions ≡ true
unfolding allowed
may_read_other = refl

pub reads_latest : read ns file bob none start ≡ (ok hi, start)
unfolding find_version find_blob allowed require_canonical
reads_latest = read-alone ns file bob none scene blobs 0 0

pub ann_may_not : (op : Text) → allowed ann ns file op scene.permissions ≡ false
unfolding allowed
ann_may_not op = refl

pub is_stale : current_number ns file scene.files ≢ 5
unfolding current_number find_file
is_stale = ground arith

pub elsewhere : text_eq other file ≡ false
unfolding text_eq
elsewhere = refl

pub is_fresh_too : has_id (1 ∷ []) scene.versions ≡ false
unfolding has_id any
is_fresh_too = refl

pub ids_differ : text_eq (0 ∷ []) (1 ∷ []) ≡ false
unfolding text_eq
ids_differ = refl

abbrev pub administered : Meta
administered = record scene {
  permissions =
      (record {
        id = codes "p";
        principal_id = bob;
        namespace_id = ns;
        path_prefix = codes "/";
        operations = codes "admin" ∷ [];
        created_at = 0;
      })
      ∷ [];
}

pub may_administer : allowed bob ns file (codes "admin") administered.permissions ≡ true
unfolding allowed
may_administer = refl
