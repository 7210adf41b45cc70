-- ===== src/Store/TextIndex.antt =====
-- The content-addressed text index of sqlite_metadata.py (`_SQLiteNativeTextSearch.index_text` and
-- `delete_text_artifacts`), and the manifests of the `versions` table.
pub mod Manifests
pub mod Mirrored
pub mod Kept
use ai_vfs.Base.{
  ℕ, Bool, not, ◌&&◌, ◌||◌, Option, none, some, List, [], ◌∷◌, ◌++◌, Text, codes, text_eq, select,
  map, any, if◌then◌else◌,
}
use ai_vfs.Models.{VersionMeta, SearchArtifact, ArtifactDict, artifact_dict, Manifest}
use ai_vfs.Exec.{modify, pure, ◌>>◌}
use ai_vfs.Store.Tables.{Sql, TextArtifact, FtsRow}
use ai_vfs.Store.Versions.{mem_text}

-- `provider_key` and `params_hash` of the capability.
pub record NativeTextSearch : Type 0 where
  pub provider_key : Text
  pub params_hash : Text

abbrev pub as_fts : TextArtifact → FtsRow
as_fts a = record {
  provider_key = a.provider_key;
  params_hash = a.params_hash;
  content_hash = a.content_hash;
  raw_text = a.raw_text;
}

unfoldable pub same_text_key : Text → Text → Text → Text → Text → Text → Bool
unfolding text_eq
same_text_key k p c k' p' c' = text_eq k' k && (text_eq p' p && text_eq c' c)

unfoldable pub upsert_artifact : TextArtifact → List TextArtifact → List TextArtifact
unfolding same_text_key
upsert_artifact a [] = a ∷ []
upsert_artifact a (b ∷ bs) =
    if same_text_key a.provider_key a.params_hash a.content_hash b.provider_key b.params_hash
      b.content_hash
    then record b { raw_text = a.raw_text; status = a.status; created_at = a.created_at } ∷ bs
    else b ∷ upsert_artifact a bs

-- `DELETE` of the stale rows, then `INSERT`.
unfoldable pub replace_fts : FtsRow → List FtsRow → List FtsRow
unfolding same_text_key select
replace_fts r rs =
    r
    ∷ select
        (λ q. not (
          same_text_key r.provider_key r.params_hash r.content_hash q.provider_key q.params_hash
            q.content_hash))
        rs

abbrev pub text_row : NativeTextSearch → Text → Text → Text → ℕ → TextArtifact
text_row nts content_hash params_hash text now = record {
  provider_key = nts.provider_key;
  params_hash = params_hash;
  content_hash = content_hash;
  raw_text = text;
  status = codes "ready";
  created_at = now;
}

abbrev pub ready_artifact : NativeTextSearch → Text → Text → ℕ → SearchArtifact
ready_artifact nts content_hash params_hash now = record {
  status = codes "ready";
  schema_version = 1;
  provider_key = nts.provider_key;
  provider_version = codes "2";
  params_hash = params_hash;
  content_hash = content_hash;
  created_at = now;
  storage = codes "external";
  payload = none;
  artifact_ref =
      some (nts.provider_key ++ (codes ":" ++ (params_hash ++ (codes ":" ++ content_hash))));
  error_code = none;
  error_message = none;
}

unfoldable pub index_text : NativeTextSearch → Text → Text → Text → ℕ → Sql SearchArtifact
unfolding upsert_artifact replace_fts
index_text nts content_hash params_hash text now = do
  modify (λ m.
      let row = text_row nts content_hash params_hash text now in
      record m {
        search_text_artifacts = upsert_artifact row m.search_text_artifacts;
        search_fts = replace_fts (as_fts row) m.search_fts;
        search_fts_words = replace_fts (as_fts row) m.search_fts_words;
      })
  pure (ready_artifact nts content_hash params_hash now)

-- The record of content that is not UTF-8 text.
abbrev pub unsupported_artifact : NativeTextSearch → Text → ℕ → SearchArtifact
unsupported_artifact nts content_hash now = record {
  status = codes "unsupported";
  schema_version = 1;
  provider_key = nts.provider_key;
  provider_version = codes "2";
  params_hash = nts.params_hash;
  content_hash = content_hash;
  created_at = now;
  storage = codes "inline";
  payload = none;
  artifact_ref = none;
  error_code = some (codes "decode_error");
  error_message = some (codes "content is not valid UTF-8");
}

unfoldable pub delete_text_artifacts : NativeTextSearch → List Text → List Text → Sql (Unit {0})
unfolding mem_text text_eq select
delete_text_artifacts nts content_hashes retired_params_hashes = modify (λ m.
    let swept = λ (k : Text) (p : Text) (c : Text).
      text_eq k nts.provider_key
      && (mem_text c content_hashes || mem_text p retired_params_hashes) in
    record m {
      search_text_artifacts =
          select (λ a. not (swept a.provider_key a.params_hash a.content_hash))
            m.search_text_artifacts;
      search_fts =
          select (λ r. not (swept r.provider_key r.params_hash r.content_hash)) m.search_fts;
      search_fts_words =
          select (λ r. not (swept r.provider_key r.params_hash r.content_hash)) m.search_fts_words;
    })

-- The rows of an artifact table that the word index does not hold: the `NOT EXISTS` of the backfill.
unfoldable pub has_row : TextArtifact → List FtsRow → Bool
unfolding same_text_key any
has_row a rs =
    any
      (λ r.
        same_text_key a.provider_key a.params_hash a.content_hash r.provider_key r.params_hash
          r.content_hash)
      rs

unfoldable pub backfilled : Text → List TextArtifact → List FtsRow → List FtsRow
unfolding has_row text_eq select
backfilled provider_key artifacts rs =
    map as_fts (select (λ a. text_eq a.provider_key provider_key && not (has_row a rs)) artifacts)
    ++ rs

unfoldable pub backfill_word_index : NativeTextSearch → Sql (Unit {0})
unfolding backfilled
backfill_word_index nts = modify (λ m. record m {
  search_fts_words = backfilled nts.provider_key m.search_text_artifacts m.search_fts_words;
})

-- `current[provider_key] = …` on a dict.
unfoldable pub set_artifact : Text → ArtifactDict → Manifest → Manifest
unfolding text_eq
set_artifact k d [] = (k, d) ∷ []
set_artifact k d ((j, e) ∷ rest) =
    if text_eq j k then (j, d) ∷ rest else (j, e) ∷ set_artifact k d rest

-- `search_meta.get(provider_key)`
unfoldable pub get_artifact : Text → Manifest → Option ArtifactDict
unfolding text_eq
get_artifact k [] = none
get_artifact k ((j, d) ∷ rest) = if text_eq j k then some d else get_artifact k rest

unfoldable pub update_manifest : Text → (Manifest → Manifest) → List VersionMeta → List VersionMeta
unfolding text_eq
update_manifest i f [] = []
update_manifest i f (v ∷ vs) =
    (if text_eq v.id i then record v { search_meta = f v.search_meta } else v)
    ∷ update_manifest i f vs

unfoldable pub update_search_artifact : Text → Text → SearchArtifact → Sql (Unit {0})
unfolding set_artifact update_manifest
update_search_artifact version_id provider_key artifact = modify (λ m. record m {
  versions =
      update_manifest version_id (set_artifact provider_key (artifact_dict artifact)) m.versions;
})

unfoldable pub update_search_meta : Text → Manifest → Sql (Unit {0})
unfolding update_manifest
update_search_meta version_id search_meta =
    modify (λ m. record m { versions = update_manifest version_id (λ old. search_meta) m.versions })
