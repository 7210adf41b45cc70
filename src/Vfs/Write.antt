-- ===== src/Vfs/Write.antt =====
-- `write` of vfs.py.
pub mod Laws
use ai_vfs.Base.{ℕ, ◌+◌, false, Option, none, some, [], ◌∷◌, Text, codes, length}
use ai_vfs.Models.{Manifest, FileMeta, VersionMeta, artifact_dict}
use ai_vfs.Exec.{pure, lift, ◌>>=◌, ◌>>◌}
use ai_vfs.Paths.Canonical.{require_canonical}
use ai_vfs.Store.Tables.{Sql}
use ai_vfs.Store.Files.{get_file, number_of}
use ai_vfs.Store.Versions.{put_version}
use ai_vfs.Store.TextIndex.{NativeTextSearch, index_text, unsupported_artifact}
use ai_vfs.World.{Io, Setup, operation, blob_put, draw_id, read_clock, is_some}
use ai_vfs.Vfs.Audit.{audit_write}
use ai_vfs.Vfs.Access.{check_perm}
use ai_vfs.Vfs.Retry.{retry}

-- `1 if existing is None else existing.current_version_number + 1`
unfoldable pub next_version_number : Option FileMeta → ℕ
unfolding number_of
next_version_number existing = number_of existing + 1

abbrev pub with_manifest : VersionMeta → Manifest → VersionMeta
with_manifest v s = record v { search_meta = s }

-- The body of the transaction on a store with the native index, from the decoded content: the text
-- artifact, then the version. Content that is not UTF-8 gets an artifact that says so.
unfoldable pub put_decoded :
    NativeTextSearch → VersionMeta → ℕ → Option ℕ → Option Text → Sql VersionMeta
unfolding put_version index_text
put_decoded nts v now expected none =
    let v' =
      with_manifest v
        ((nts.provider_key, artifact_dict (unsupported_artifact nts v.content_hash now)) ∷ []) in
    do put_version v' expected; pure v'
put_decoded nts v now expected (some text) = do
  artifact ← index_text nts v.content_hash nts.params_hash text now
  let v' = with_manifest v ((nts.provider_key, artifact_dict artifact) ∷ [])
  put_version v' expected
  pure v'

module _ (S : Setup) where
  -- `DefaultSearchProvider.index` returns `None`, so the base manifest is empty. One clock reading
  -- stands for those of the version and of its artifact.
  unfoldable pub put_indexed :
      Option NativeTextSearch → VersionMeta → Text → ℕ → Option ℕ → Sql VersionMeta
  unfolding put_version put_decoded
  put_indexed none v content now expected = do put_version v expected; pure v
  put_indexed (some nts) v content now expected = put_decoded nts v now expected (S.decode content)

  -- One round of the loop, from the file record that it has read.
  unfoldable pub write_attempt :
      Text → Text → Text → Text → Option ℕ → Option FileMeta → Io VersionMeta
  write_attempt ns path content principal expected existing = do
    now ← read_clock S
    version_id ← draw_id S
    operation (
        put_indexed S.native_text_search
          (record {
            id = version_id;
            file_path = path;
            namespace_id = ns;
            version_number = next_version_number existing;
            content_hash = S.blake3 content;
            size = length content;
            created_at = now;
            created_by = principal;
            is_tombstone = false;
            search_meta = [];
            parent_version_id = none;
          })
          content now expected)

  -- Later rounds read the file record again.
  unfoldable pub write_again : Text → Text → Text → Text → Option ℕ → Io VersionMeta
  write_again ns path content principal expected = do
    existing ← operation (get_file ns path)
    write_attempt ns path content principal expected existing

  unfoldable pub write : Text → Text → Text → Text → Option ℕ → Io VersionMeta
  write ns path content principal expected = do
    lift (require_canonical path)
    check_perm principal ns path (codes "write")
    blob_put (S.blake3 content) content
    existing ← operation (get_file ns path)
    version ←
        retry 4 (is_some expected) (write_attempt ns path content principal expected existing)
          (write_again ns path content principal expected)
    audit_write S ns principal path version.id
    pure version
