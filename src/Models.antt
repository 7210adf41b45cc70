-- ===== src/Models.antt =====
-- src/vfs/models.py: the records of the domain. Times are numbers on one clock; the ISO texts of the
-- tables stand for the same numbers.
use ai_vfs.Base.{ℕ, Bool, Option, List, Text, codes, text_eq, false, not, if◌then◌else◌}

pub data SearchType : Type 0 where
  glob find regex fulltext semantic : SearchType

-- `keep_every` is `none` where every version of the tier is kept.
pub record RetentionTier : Type 0 where
  pub max_age : ℕ
  pub keep_every : Option ℕ

pub record RetentionPolicy : Type 0 where
  pub max_recent_versions : ℕ
  pub tiers : List RetentionTier
  pub keep_first_version : Bool
  pub keep_current_version : Bool

pub record FileMeta : Type 0 where
  pub namespace_id : Text
  pub path : Text
  pub current_version_id : Text
  pub current_version_number : ℕ
  pub created_at : ℕ
  pub updated_at : ℕ
  pub is_deleted : Bool

-- The JSON values that are stored.
pub data Json : Type 0 where
  text : Text → Json
  number : ℕ → Json
  texts : List Text → Json

pub record SearchArtifact : Type 0 where
  pub status : Text
  pub schema_version : ℕ
  pub provider_key : Text
  pub provider_version : Text
  pub params_hash : Text
  pub content_hash : Text
  pub created_at : ℕ
  pub storage : Text
  pub payload : Option Json
  pub artifact_ref : Option Text
  pub error_code : Option Text
  pub error_message : Option Text

-- A value of the manifest: what `to_dict` writes, or a dict that `from_dict` refuses.
pub data ArtifactDict : Type 0 where
  artifact_dict : SearchArtifact → ArtifactDict
  malformed : ArtifactDict

-- `search_meta`: artifacts by provider key.
abbrev pub Manifest : Type 0
Manifest = List (Text × ArtifactDict)

pub record VersionMeta : Type 0 where
  pub id : Text
  pub file_path : Text
  pub namespace_id : Text
  pub version_number : ℕ
  pub content_hash : Text
  pub size : ℕ
  pub created_at : ℕ
  pub created_by : Text
  pub is_tombstone : Bool
  pub search_meta : Manifest
  pub parent_version_id : Option Text

pub record Permission : Type 0 where
  pub id : Text
  pub principal_id : Text
  pub namespace_id : Text
  pub path_prefix : Text
  pub operations : List Text
  pub created_at : ℕ

pub record AuditEvent : Type 0 where
  pub event_id : Text
  pub timestamp : ℕ
  pub namespace_id : Text
  pub principal_id : Text
  pub operation : Text
  pub path : Option Text
  pub version_id : Option Text
  pub detail : List (Text × Json)
  pub trace_id : Option Text

pub record Namespace : Type 0 where
  pub id : Text
  pub display_name : Text
  pub created_at : ℕ
  pub created_by : Text
  pub retention_policy : Option RetentionPolicy

pub record Principal : Type 0 where
  pub id : Text
  pub display_name : Text
  pub principal_type : Text
  pub created_at : ℕ

pub record GcResult : Type 0 where
  pub versions_reclaimed : ℕ
  pub blobs_reclaimed : ℕ

-- `SearchArtifact.is_usable`
unfoldable pub is_usable : SearchArtifact → Text → Text → Bool
unfolding text_eq
is_usable a current_content_hash active_params_hash =
    if not (text_eq a.status (codes "ready"))
    then false
    else if not (text_eq a.content_hash current_content_hash)
    then false
    else text_eq a.params_hash active_params_hash
