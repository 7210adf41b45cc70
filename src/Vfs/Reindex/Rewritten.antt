-- ===== src/Vfs/Reindex/Rewritten.antt =====
-- The artifact that `reindex` writes for one version, and what it does to the other versions.
use ai_vfs.Base.{
  ℕ, ◌≡◌, refl, ap, sym, subst, ◌∙◌, true, false, Option, none, some, ◌⊎◌, inl, inr, Text, codes,
  text_eq, text_eq_sound, text_eq_complete, Bool-cases,
}
use ai_vfs.Models.{VersionMeta, SearchArtifact, artifact_dict}
use ai_vfs.Errors.{ok}
use ai_vfs.Store.Tables.{Meta}
use ai_vfs.Store.Versions.{find_version}
use ai_vfs.Store.TextIndex.{
  NativeTextSearch, index_text, set_artifact, get_artifact, update_manifest, update_search_artifact,
  ready_artifact, unsupported_artifact,
}
use ai_vfs.Store.TextIndex.Manifests.{
  map_option, touched, SameVersion, touched-SameVersion, find_version-update_manifest,
  get_artifact-set_artifact,
}
use ai_vfs.World.{Blobs, blob_content}
use ai_vfs.Vfs.Reindex.{put_artifact, put_text_artifact}

-- The artifact decides about the content without a blob read.
pub record Decides (nts : NativeTextSearch) (content_hash : Text) (a : SearchArtifact)
    : Type 0 where
  pub of_content : a.content_hash ≡ content_hash
  pub of_params : a.params_hash ≡ nts.params_hash
  pub with_status : (a.status ≡ codes "ready") ⊎ (a.status ≡ codes "unsupported")

-- The manifest of the version has such an artifact.
pub record IsIndexed (nts : NativeTextSearch) (v : VersionMeta) : Type 0 where
  pub artifact : SearchArtifact
  pub listed : get_artifact nts.provider_key v.search_meta ≡ some (artifact_dict artifact)
  pub decides : Decides nts v.content_hash artifact

-- What one file's reindexing does to the tables.
pub record Refreshes (nts : NativeTextSearch) (v : VersionMeta) (m m' : Meta) : Type 0 where
  pub artifact : SearchArtifact
  pub decides : Decides nts v.content_hash artifact
  pub files : m'.files ≡ m.files
  pub permissions : m'.permissions ≡ m.permissions
  pub versions :
      m'.versions
      ≡ update_manifest v.id (set_artifact nts.provider_key (artifact_dict artifact)) m.versions

pub put_artifact-Refreshes :
    (nts : NativeTextSearch) (v : VersionMeta) (now : ℕ) (decoded : Option Text) (m : Meta)
    → (m' : Meta) × (put_artifact nts v now decoded m ≡ (ok tt, m')) × Refreshes nts v m m'
unfolding put_text_artifact index_text update_search_artifact
put_artifact-Refreshes nts v now none m = (
  _,
  refl,
  record {
    artifact = unsupported_artifact nts v.content_hash now;
    decides = record { of_content = refl; of_params = refl; with_status = inr refl };
    files = refl;
    permissions = refl;
    versions = refl;
  },
)
put_artifact-Refreshes nts v now (some text) m = (
  _,
  refl,
  record {
    artifact = ready_artifact nts v.content_hash nts.params_hash now;
    decides = record { of_content = refl; of_params = refl; with_status = inl refl };
    files = refl;
    permissions = refl;
    versions = refl;
  },
)

-- A lookup of the latest version of a path of the namespace.
abbrev pub latest : Text → Text → Meta → Option VersionMeta
latest ns path m = find_version ns path none m.versions

-- Versions that are latest of some path have different ids or the same content: the ids are a key.
pub record IdsDecide (ns : Text) (m : Meta) : Type 0 where
  pub same_content :
      (p q : Text) (u v : VersionMeta)
      → latest ns p m ≡ some u
      → latest ns q m ≡ some v
      → u.id ≡ v.id
      → u.content_hash ≡ v.content_hash

-- The content of every latest version that is not a tombstone is stored.
pub record HasBlobs (ns : Text) (b : Blobs) (m : Meta) : Type 0 where
  pub stored :
      (p : Text) (v : VersionMeta)
      → latest ns p m ≡ some v
      → v.is_tombstone ≡ false
      → (d : Text) × (blob_content v.content_hash b ≡ ok d)

-- The latest version of the path, where it is live, is indexed.
pub record IsSettled (nts : NativeTextSearch) (o : Option VersionMeta) : Type 0 where
  pub indexed : (v : VersionMeta) → o ≡ some v → v.is_tombstone ≡ false → IsIndexed nts v

mapped :
    {A B : Type 0} (g : A → B) (o : Option A) (w : B)
    → map_option g o ≡ some w
    → (u : A) × (o ≡ some u) × (g u ≡ w)
mapped g none w e = cc e
mapped g (some u) w e = (u, refl, cc e)

module _ (nts : NativeTextSearch) (ns : Text) (v : VersionMeta) (m m' : Meta)
    (r : Refreshes nts v m m') where
  abbrev rewritten : VersionMeta → VersionMeta
  rewritten = touched v.id (set_artifact nts.provider_key (artifact_dict r.artifact))

  kept : (u : VersionMeta) → SameVersion u (rewritten u)
  kept u = touched-SameVersion v.id (set_artifact nts.provider_key (artifact_dict r.artifact)) u

  latest-rewritten : (p : Text) → latest ns p m' ≡ map_option rewritten (latest ns p m)
  latest-rewritten p = rw r.versions (find_version-update_manifest v.id _ ns p m.versions)

  -- A latest version after the rewrite is one before it, rewritten.
  rewritten_from :
      (p : Text) (w : VersionMeta)
      → latest ns p m' ≡ some w
      → (u : VersionMeta) × (latest ns p m ≡ some u) × (rewritten u ≡ w)
  rewritten_from p w e = mapped rewritten (latest ns p m) w (sym (latest-rewritten p) ∙ e)

  rewritten-IsIndexed :
      (u : VersionMeta)
      → text_eq u.id v.id ≡ true
      → u.content_hash ≡ v.content_hash
      → IsIndexed nts (rewritten u)
  rewritten-IsIndexed u e h = rw e (record {
    artifact = r.artifact;
    listed = get_artifact-set_artifact nts.provider_key _ u.search_meta;
    decides = record {
      of_content = r.decides.of_content ∙ sym h;
      of_params = r.decides.of_params;
      with_status = r.decides.with_status;
    };
  })

  pub IdsDecide-refreshed : IdsDecide ns m → IdsDecide ns m'
  IdsDecide-refreshed h = record {
    same_content = λ p q u w eu ew ids.
        let (u', fu, gu) = rewritten_from p u eu in
        let (w', fw, gw) = rewritten_from q w ew in
        let su = kept u' in
        let sw = kept w' in
        let same : u'.content_hash ≡ w'.content_hash =
          h.same_content p q u' w' fu fw
            (sym su.id ∙ (ap (λ x. x.id) gu ∙ (ids ∙ (sym (ap (λ x. x.id) gw) ∙ sw.id)))) in
        sym (ap (λ x. x.content_hash) gu)
        ∙ (su.content_hash ∙ (same ∙ (sym sw.content_hash ∙ ap (λ x. x.content_hash) gw)));
  }

  pub HasBlobs-refreshed : (b : Blobs) → HasBlobs ns b m → HasBlobs ns b m'
  HasBlobs-refreshed b h = record {
    stored = λ p w e live.
        let (u, f, q) = rewritten_from p w e in
        let su = kept u in
        let (d, there) =
          h.stored p u f (sym su.is_tombstone ∙ (ap (λ x. x.is_tombstone) q ∙ live)) in
        (
          d,
          ap (λ x. blob_content x b) (sym (ap (λ x. x.content_hash) q) ∙ su.content_hash) ∙ there,
        );
  }

  -- The file that is reindexed is settled, and a settled file stays so.
  pub IsSettled-itself : (p : Text) → latest ns p m ≡ some v → IsSettled nts (latest ns p m')
  IsSettled-itself p e = record {
    indexed = λ w f live.
        let (u, eu, q) = rewritten_from p w f in
        let same : v ≡ u = cc (e, eu) in
        subst (IsIndexed nts) q (
          rewritten-IsIndexed u (text_eq_complete u.id v.id (sym (ap (λ x. x.id) same)))
            (sym (ap (λ x. x.content_hash) same)));
  }

  pub IsSettled-still :
      IdsDecide ns m
      → (p : Text) → latest ns p m ≡ some v
      → (q : Text) → IsSettled nts (latest ns q m)
      → IsSettled nts (latest ns q m')
  IsSettled-still ids p ev q h = record {
    indexed = λ w f live.
        let (u, eu, k) = rewritten_from q w f in
        let su = kept u in
        elim (Bool-cases (text_eq u.id v.id)) [
          | inl e ↦
              subst (IsIndexed nts) k (
                rewritten-IsIndexed u e
                  (ids.same_content q p u v eu ev (text_eq_sound u.id v.id e)))
          | inr e ↦
              let untouched : rewritten u ≡ u = rw e refl in
              subst (IsIndexed nts) (sym untouched ∙ k)
                (h.indexed u eu (sym su.is_tombstone ∙ (ap (λ x. x.is_tombstone) k ∙ live)))
        ];
  }
