-- ===== src/Vfs/Reindex.antt =====
-- `reindex` of vfs.py.
pub mod Rewritten
pub mod Laws
pub mod Settled
use ai_vfs.Base.{ℕ, ◌+◌, true, Option, none, some, List, [], ◌∷◌, Text, if◌then◌else◌}
use ai_vfs.Models.{FileMeta, VersionMeta, SearchArtifact}
use ai_vfs.Exec.{pure, lift, ◌>>=◌, ◌>>◌}
use ai_vfs.Paths.Canonical.{require_canonical}
use ai_vfs.Store.Tables.{Sql}
use ai_vfs.Store.Files.{list_dir}
use ai_vfs.Store.Versions.{get_version}
use ai_vfs.Store.TextIndex.{
  NativeTextSearch, index_text, unsupported_artifact, update_search_artifact,
}
use ai_vfs.World.{Io, Setup, operation, blob_get, read_clock}
use ai_vfs.Vfs.Search.{SearchProvider}

-- The transaction that writes the text and the artifact together.
unfoldable pub put_text_artifact : NativeTextSearch → VersionMeta → Text → ℕ → Sql (Unit {0})
unfolding index_text update_search_artifact
put_text_artifact nts v text now = do
  artifact ← index_text nts v.content_hash nts.params_hash text now
  update_search_artifact v.id nts.provider_key artifact

-- Text is indexed; other content gets an `unsupported` artifact.
abbrev pub put_artifact : NativeTextSearch → VersionMeta → ℕ → Option Text → Sql (Unit {0})
put_artifact nts v now (some text) = put_text_artifact nts v text now
put_artifact nts v now none =
    update_search_artifact v.id nts.provider_key (unsupported_artifact nts v.content_hash now)

module _ (P : SearchProvider) (S : Setup) where
  abbrev pub put_provider_artifact : VersionMeta → Option SearchArtifact → Io ℕ
  put_provider_artifact v none = pure 0
  put_provider_artifact v (some a) = do
    operation (update_search_artifact v.id a.provider_key a)
    pure 1

  -- The count that one version adds.
  abbrev pub reindex_content : Option NativeTextSearch → FileMeta → VersionMeta → Text → Io ℕ
  reindex_content (some nts) f v content = do
    now ← read_clock S
    operation (put_artifact nts v now (S.decode content))
    pure 1
  reindex_content none f v content = do
    artifact ← P.provider_index f.path content f
    put_provider_artifact v artifact

  abbrev pub reindex_version : FileMeta → Option VersionMeta → Io ℕ
  reindex_version f none = pure 0
  reindex_version f (some v) =
      if v.is_tombstone
      then pure 0
      else do content ← blob_get v.content_hash; reindex_content S.native_text_search f v content

  unfoldable pub reindex_files : Text → List FileMeta → Io ℕ
  reindex_files ns [] = pure 0
  reindex_files ns (f ∷ fs) = do
    v ← operation (get_version ns f.path none)
    n ← reindex_version f v
    count ← reindex_files ns fs
    pure (n + count)

  unfoldable pub reindex : Text → Text → Io ℕ
  reindex ns scope = do
    lift (require_canonical scope)
    files ← operation (list_dir S.like ns scope true)
    reindex_files ns files
