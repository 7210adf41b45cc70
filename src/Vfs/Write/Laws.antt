-- ===== src/Vfs/Write/Laws.antt =====
-- What `write` leaves in a world where no other task runs.
use ai_vfs.Base.{
  ℕ, ◌+◌, ◌≡◌, refl, ◌∙◌, ◌⊎◌, inl, inr, true, false, Option, none, some, [], ◌∷◌, Text, codes,
  length, text_eq_refl, arith,
}
use ai_vfs.Models.{FileMeta, VersionMeta, Manifest, artifact_dict}
use ai_vfs.Errors.{Result, ok}
use ai_vfs.Paths.Canonical.{require_canonical}
use ai_vfs.Store.Tables.{Meta}
use ai_vfs.Store.Files.{find_file, current_number}
use ai_vfs.Store.Versions.{has_id, has_version}
use ai_vfs.Store.TextIndex.{NativeTextSearch, index_text, unsupported_artifact, ready_artifact}
use ai_vfs.Store.Permissions.{allowed}
use ai_vfs.Store.Names.{has_event}
use ai_vfs.Store.History.{IsHistory, clash, put_version-fresh}
use ai_vfs.World.{Blobs, Setup, draw_id, read_clock, find_blob, add_blob}
use ai_vfs.Vfs.Audit.{audit_write}
use ai_vfs.Vfs.Quiet.{
  alone, operation-ok, check_perm_granted, audit_event-SameFiles, retry_first, blob_put-alone,
  get_file-alone, logged, continue-logged,
}
use ai_vfs.Vfs.Added.{Added, put}
use ai_vfs.Vfs.Write.{
  with_manifest, put_decoded, next_version_number, put_indexed, write_attempt, write_again, write,
}

put_decoded-Added :
    (nts : NativeTextSearch) (v : VersionMeta) (now : ℕ) (decoded : Option Text) (m : Meta)
    → clash v m ≡ false
    → (s : Manifest) × (m' : Meta) × (put_decoded nts v now none decoded m
        ≡ (ok (with_manifest v s), m'))
      × Added (with_manifest v s) m m'
      × (m'.audit_events ≡ m.audit_events)
unfolding put_decoded
put_decoded-Added nts v now none m c =
    let s : Manifest =
      (nts.provider_key, artifact_dict (unsupported_artifact nts v.content_hash now)) ∷ [] in
    (
      s,
      put (with_manifest v s) m,
      rw (put_version-fresh (with_manifest v s) m c),
      record { versions = refl; files = refl; permissions = refl },
      refl,
    )
put_decoded-Added nts v now (some text) m c =
    let s : Manifest =
      (nts.provider_key, artifact_dict (ready_artifact nts v.content_hash nts.params_hash now))
      ∷ [] in
    let base : Meta = (index_text nts v.content_hash nts.params_hash text now m).1 in
    (
      s,
      put (with_manifest v s) base,
      rw (put_version-fresh (with_manifest v s) base c),
      record { versions = refl; files = refl; permissions = refl },
      refl,
    )

put_indexed-Added :
    (S : Setup) (nts : Option NativeTextSearch) (v : VersionMeta) (content : Text) (now : ℕ)
    (m : Meta)
    → clash v m ≡ false
    → (s : Manifest) × (m' : Meta) × (put_indexed S nts v content now none m
        ≡ (ok (with_manifest v s), m'))
      × Added (with_manifest v s) m m'
      × (m'.audit_events ≡ m.audit_events)
unfolding put_indexed
put_indexed-Added S none v content now m c = (
  v.search_meta,
  put v m,
  rw (put_version-fresh v m c),
  record { versions = refl; files = refl; permissions = refl },
  refl,
)
put_indexed-Added S (some nts) v content now m c =
    put_decoded-Added nts v now (S.decode content) m c

pub find_blob-add_blob :
    (h d : Text) (bs : Blobs)
    → (find_blob h bs ≡ none) ⊎ (find_blob h bs ≡ some d)
    → find_blob h (add_blob h d bs) ≡ some d
unfolding add_blob
find_blob-add_blob h d bs (inl e) = rw e (own h d bs)
  where
    own : (h d : Text) (bs : Blobs) → find_blob h ((h, d) ∷ bs) ≡ some d
    own h d bs = unfold find_blob in rw text_eq_refl
find_blob-add_blob h d bs (inr e) = rw e e

-- The version that `write` creates, with the n-th identifier and clock reading.
abbrev pub written :
    Setup → Text → Text → Text → Text → ℕ → ℕ → Option FileMeta → Manifest → VersionMeta
written S ns path content principal ids ticks existing s = record {
  id = S.new_id ids;
  file_path = path;
  namespace_id = ns;
  version_number = next_version_number existing;
  content_hash = S.blake3 content;
  size = length content;
  created_at = S.clock ticks;
  created_by = principal;
  is_tombstone = false;
  search_meta = s;
  parent_version_id = none;
}

-- No version has the number behind the current one.
pub next_is_free :
    (ns path : Text) (m : Meta)
    → IsHistory m
    → has_version ns path (next_version_number (find_file ns path m.files)) m.versions ≡ false
unfolding next_version_number current_number
next_is_free ns path m history = rw history (ground arith)

module _ (S : Setup) (ns path content principal : Text) (m : Meta) (b : Blobs) (ids ticks : ℕ) where
  write_attempt-Added :
      IsHistory m
      → has_id (S.new_id ids) m.versions ≡ false
      → (s : Manifest) × (m' : Meta) × (write_attempt S ns path content principal none
            (find_file ns path m.files)
            (alone m b ids ticks)
          ≡ (
            ok (written S ns path content principal ids ticks (find_file ns path m.files) s),
            alone m' b (ids + 1) (ticks + 1),
          ))
        × Added (written S ns path content principal ids ticks (find_file ns path m.files) s) m m'
        × (m'.audit_events ≡ m.audit_events)
  unfolding write_attempt draw_id read_clock
  write_attempt-Added history fresh =
      let v = written S ns path content principal ids ticks (find_file ns path m.files) [] in
      let (s, m', e, a, events) =
        put_indexed-Added S S.native_text_search v content (S.clock ticks) m
          (rw fresh (next_is_free ns path m history)) in
      (s, m', operation-ok m b (ids + 1) (ticks + 1) _ _ m' e, a, events)

module _ (S : Setup) (ns path content principal : Text) (m : Meta) (b : Blobs) (ids ticks : ℕ) where
  -- A write that is allowed adds one version, whatever the native index does, and stores the blob;
  -- it returns if the identifier of its event is unused.
  pub write-Added :
      require_canonical path ≡ ok tt
      → allowed principal ns path (codes "write") m.permissions ≡ true
      → IsHistory m
      → has_id (S.new_id ids) m.versions ≡ false
      → (r : Result (Unit {0})) × (s : Manifest) × (m' : Meta) × (write S ns path content principal
            none
            (alone m b ids ticks)
          ≡ (
            logged r (written S ns path content principal ids ticks (find_file ns path m.files) s),
            alone m' (add_blob (S.blake3 content) content b) (ids + 1 + 1) (ticks + 1 + 1),
          ))
        × Added (written S ns path content principal ids ticks (find_file ns path m.files) s) m m'
        × (has_event (S.new_id (ids + 1)) m.audit_events ≡ false → r ≡ ok tt)
  unfolding write audit_write
  write-Added canonical granted history fresh =
      let b' = add_blob (S.blake3 content) content b in
      let (s, m₁, e, a, events) =
        write_attempt-Added S ns path content principal m b' ids ticks history fresh in
      let (r, m₂, f, same, logs) =
        audit_event-SameFiles m₁ b' (ids + 1) (ticks + 1) S ns principal (codes "write") (some path)
          (some (S.new_id ids)) [] in
      (
        r,
        s,
        m₂,
        rw
            (
              canonical,
              check_perm_granted m b ids ticks principal ns path (codes "write") granted,
              blob_put-alone m b ids ticks (S.blake3 content) content,
              get_file-alone m b' ids ticks ns path,
              retry_first 4 false _ (write_again S ns path content principal none) _ _ _ e,
              f,
            )
            (continue-logged r
              (written S ns path content principal ids ticks (find_file ns path m.files) s) _),
        record {
          versions = same.versions ∙ a.versions;
          files = same.files ∙ a.files;
          permissions = same.permissions ∙ a.permissions;
        },
        λ free. logs (rw events free),
      )
