-- ===== src/Store/Tables.antt =====
-- The tables of schema.py and of `_setup_fts5`, as lists of rows.
use ai_vfs.Base.{ℕ, List, [], Text}
use ai_vfs.Models.{FileMeta, VersionMeta, Permission, AuditEvent, Namespace, Principal}
use ai_vfs.Exec.{Exec}

pub record NameRow : Type 0 where
  pub entity_type : Text
  pub entity_id : Text
  pub display_name : Text

-- A row of `search_text_artifacts`; the rows of the two FTS5 tables leave out the last two columns.
pub record TextArtifact : Type 0 where
  pub provider_key : Text
  pub params_hash : Text
  pub content_hash : Text
  pub raw_text : Text
  pub status : Text
  pub created_at : ℕ

pub record FtsRow : Type 0 where
  pub provider_key : Text
  pub params_hash : Text
  pub content_hash : Text
  pub raw_text : Text

pub record Meta : Type 0 where
  pub files : List FileMeta
  pub versions : List VersionMeta
  pub permissions : List Permission
  pub audit_events : List AuditEvent
  pub names : List NameRow
  pub namespaces : List Namespace
  pub principals : List Principal
  pub search_text_artifacts : List TextArtifact
  pub search_fts : List FtsRow
  pub search_fts_words : List FtsRow

abbrev pub empty_meta : Meta
empty_meta = record {
  files = [];
  versions = [];
  permissions = [];
  audit_events = [];
  names = [];
  namespaces = [];
  principals = [];
  search_text_artifacts = [];
  search_fts = [];
  search_fts_words = [];
}

-- Statements inside one transaction.
abbrev pub Sql : Type 0 → Type 0
Sql A = Exec Meta A
