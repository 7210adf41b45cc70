-- ===== src/Search.antt =====
-- src/vfs/protocols/search.py, `SearchResult` and `FullTextMatchMode` of models.py: what a search is
-- asked and what it answers. Its reader, the default provider and the library functions it takes.
pub mod Reader
pub mod Lines
pub mod Default
pub mod Sqlite
use ai_vfs.Base.{ℕ, Bool, Option, List, Text}
use ai_vfs.Models.{SearchType, Manifest}

pub data MatchMode : Type 0 where
  match_all match_any : MatchMode

pub record FindPredicates : Type 0 where
  pub name : Option Text
  pub size_min : Option ℕ
  pub size_max : Option ℕ
  pub mtime_after : Option ℕ
  pub mtime_before : Option ℕ
  pub kind : Option Text

pub record SearchMetaEntry : Type 0 where
  pub version_id : Text
  pub path : Text
  pub content_hash : Text
  pub size : ℕ
  pub updated_at : ℕ
  pub is_deleted : Bool
  pub search_meta : Manifest

-- A score: the default 1.0, or a float that an index computed, by its bits.
pub data Score : Type 0 where
  default_score : Score
  ranked : ℕ → Score

pub record SearchResult : Type 0 where
  pub path : Text
  pub line_number : Option ℕ
  pub match_context : Option Text
  pub score : Score

-- The reader of one search, less its count of the reads done.
pub record ContentReader : Type 0 where
  pub entries : List SearchMetaEntry
  pub max_reads : ℕ

pub record SearchRequest : Type 0 where
  pub query : Text
  pub scope : Text
  pub search_type : SearchType
  pub search_metas : List SearchMetaEntry
  pub read_content : ContentReader
  pub find_predicates : Option FindPredicates
  pub match_mode : MatchMode

-- `SearchLimits().max_content_reads`
abbrev pub max_content_reads : ℕ
max_content_reads = 10
