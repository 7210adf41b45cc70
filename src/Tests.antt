-- ===== src/Tests.antt =====
-- The theorems at concrete inputs, and runs of the operations in a small world.
mod Like
mod Scene
mod Operations
mod Interleavings
mod Collecting
mod Sandbox
mod Searching
mod Querying
mod Indexing
mod Caching
mod Reindexing
use ai_vfs.Base.{
  ℕ, zero, suc, ◌≡◌, refl, Bool, true, false, Option, none, some, List, [], ◌∷◌, ◌++◌, map, Text,
  codes, String, starts_with, ends_with, leb, ◌&&◌, ◌+◌, arith,
}
use ai_vfs.Errors.{Result, ok, err}
use ai_vfs.Models.{Permission, VersionMeta, FileMeta}
use ai_vfs.Paths.Posix.{slash, split}
use ai_vfs.Paths.Posix.Normal.{single}
use ai_vfs.Paths.Canonical.{require_canonical, resolve_path}
use ai_vfs.Paths.Canonical.Laws.{
  require_canonical-resolve_path, require_canonical_iff, CanonicalForm,
}
use ai_vfs.Paths.Prefix.{prefix_matches, components_prefix, prefix_matches-components}
use ai_vfs.Paths.Like.{LikeOperator, list_pattern, like-list_pattern}
use ai_vfs.Store.Tables.{Meta, empty_meta, NameRow}
use ai_vfs.Store.Files.{current_number, find_file}
use ai_vfs.Store.Versions.{put_version, has_version}
use ai_vfs.Store.History.{IsHistory, put_version-IsHistory}
use ai_vfs.Store.Names.{find_name, upsert_name, is_taken, find_name-upsert_name}
use ai_vfs.Store.Permissions.{allowed}
use ai_vfs.Store.Permissions.Decision.{grants, longest_rule, allowed-longest_rule}
use Like.{sql_like}

require_canonical-resolve_path_example :
    require_canonical (resolve_path (codes "/a/") (codes "../b//c/")) ≡ ok tt
require_canonical-resolve_path_example =
    require_canonical-resolve_path (codes "/a/") (codes "../b//c/") (unfold starts_with in refl)

abbrev slashed : Text
slashed = codes "/work/"

require_canonical_iff_example :
    (require_canonical slashed ≡ ok tt → CanonicalForm slashed)
    × (CanonicalForm slashed → require_canonical slashed ≡ ok tt)
require_canonical_iff_example = require_canonical_iff slashed

prefix_matches-components_example :
    prefix_matches (codes "/work") (codes "/work/a")
    ≡ components_prefix (split (codes "/work")) (split (codes "/work/a"))
prefix_matches-components_example =
    prefix_matches-components (codes "/work") (codes "/work/a") (unfold ends_with in refl)

like-list_pattern_example :
    sql_like.like (list_pattern (codes "/a_b%/")) (codes "/a_b%/x")
    ≡ starts_with (map sql_like.fold (codes "/a_b%/x")) (map sql_like.fold (codes "/a_b%/"))
like-list_pattern_example = like-list_pattern sql_like (codes "/a_b%/") (codes "/a_b%/x")

abbrev rule : String → String → Permission
rule prefix op = record {
  id = codes "p";
  principal_id = codes "bob";
  namespace_id = codes "ns";
  path_prefix = codes prefix;
  operations = codes op ∷ [];
  created_at = 0;
}

abbrev rules : List Permission
rules = rule "/" "read" ∷ rule "/work" "write" ∷ []

allowed-longest_rule_example :
    allowed (codes "bob") (codes "ns") (codes "/work/x") (codes "read") rules
    ≡ grants (codes "read") (longest_rule (codes "bob") (codes "ns") (codes "/work/x") rules)
allowed-longest_rule_example =
    allowed-longest_rule (codes "bob") (codes "ns") (codes "/work/x") (codes "read") rules

abbrev first_version : VersionMeta
first_version = record {
  id = codes "v1";
  file_path = codes "/f";
  namespace_id = codes "ns";
  version_number = 1;
  content_hash = codes "h";
  size = 1;
  created_at = 7;
  created_by = codes "bob";
  is_tombstone = false;
  search_meta = [];
  parent_version_id = none;
}

empty-IsHistory : IsHistory empty_meta
unfolding has_version current_number find_file
empty-IsHistory ns path n = ground arith

put_first : Meta
unfolding put_version
put_first = (put_version first_version none empty_meta).1

put_version-IsHistory_example :
    IsHistory put_first
    × (1 ≡ current_number (codes "ns") (codes "/f") empty_meta.files + 1)
    × (put_first.versions ≡ first_version ∷ [])
    × (current_number (codes "ns") (codes "/f") put_first.files ≡ 1)
unfolding put_first
put_version-IsHistory_example =
    put_version-IsHistory first_version empty_meta empty-IsHistory
      (unfold current_number find_file in omega arith) none put_first refl

abbrev owner : List NameRow
owner =
    (record { entity_type = codes "principal"; entity_id = codes "1"; display_name = codes "ann" })
    ∷ []
