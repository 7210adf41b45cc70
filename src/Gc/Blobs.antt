-- ===== src/Gc/Blobs.antt =====
-- What the blob sweep of src/vfs/gc.py leaves in a world where no other task runs.
use ai_vfs.Base.{
  ℕ, ◌+◌, ◌≡◌, refl, sym, ap, ◌∙◌, inl, inr, Bool, true, false, not, ◌&&◌, Option, none, some, List,
  [], ◌∷◌, map, Text, text_eq, text_eq_iff, text_eq_sound, any, if◌then◌else◌, Bool-cases, arith,
}
use ai_vfs.Models.{VersionMeta}
use ai_vfs.Errors.{ok}
use ai_vfs.Store.Tables.{Meta}
use ai_vfs.Store.Versions.{mem_text}
use ai_vfs.Store.TextIndex.{NativeTextSearch, delete_text_artifacts}
use ai_vfs.World.{Blobs, operation, find_blob, remove_blob, blob_delete}
use ai_vfs.Vfs.Quiet.{alone, SameFiles}
use ai_vfs.Gc.Collect.{sweep_artifacts, claim_orphan, sweep, hash_of, list_hashes, blob_gc}

-- Some version has this content.
unfoldable pub referenced : Text → List VersionMeta → Bool
referenced h = any (λ v. text_eq v.content_hash h)

pub find_blob-remove_blob :
    (h k : Text) (b : Blobs)
    → find_blob h (remove_blob k b) ≡ (if text_eq k h then none else find_blob h b)
unfolding find_blob remove_blob
find_blob-remove_blob h k [] = ground arith
find_blob-remove_blob h k ((j, d) ∷ b) =
    ground (arith, find_blob-remove_blob h k b, text_eq_iff j k, text_eq_iff j h, text_eq_iff k h)

blob_delete-alone :
    (h : Text) (m : Meta) (b : Blobs) (ids ticks : ℕ)
    → blob_delete h (alone m b ids ticks) ≡ (ok tt, alone m (remove_blob h b) ids ticks)
unfolding blob_delete
blob_delete-alone h m b ids ticks = refl

sweep_artifacts-SameFiles :
    (nts : Option NativeTextSearch) (h : Text) (m : Meta)
    → (m' : Meta) × (sweep_artifacts nts h m ≡ (ok tt, m')) × SameFiles m m'
unfolding sweep_artifacts delete_text_artifacts
sweep_artifacts-SameFiles none h m =
    (m, refl, record { files = refl; versions = refl; permissions = refl })
sweep_artifacts-SameFiles (some nts) h m =
    (_, refl, record { files = refl; versions = refl; permissions = refl })

module _ (nts : Option NativeTextSearch) (b : Blobs) (ids ticks : ℕ) where
  claim-kept :
      (h : Text) (m : Meta)
      → referenced h m.versions ≡ true
      → operation (claim_orphan nts h) (alone m b ids ticks) ≡ (ok false, alone m b ids ticks)
  unfolding operation claim_orphan referenced
  claim-kept h m e = rw e refl

  claim-orphan :
      (h : Text) (m : Meta)
      → referenced h m.versions ≡ false
      → (m' : Meta) × (operation (claim_orphan nts h) (alone m b ids ticks)
          ≡ (ok true, alone m' b ids ticks))
        × SameFiles m m'
  unfolding operation claim_orphan referenced
  claim-orphan h m e =
      let (m', q, same) = sweep_artifacts-SameFiles nts h m in (m', rw (e, q) refl, same)

-- The sweep of some hashes: those of them that no version refers to are gone, and nothing else.
record Swept (hs : List Text) (m m' : Meta) (b b' : Blobs) : Type 0 where
  same : SameFiles m m'
  blobs :
      (h : Text)
      → find_blob h b'
        ≡ (if mem_text h hs && not (referenced h m.versions) then none else find_blob h b)

same_reference :
    (k h : Text) (m : Meta) (t : Bool)
    → referenced k m.versions ≡ t
    → text_eq k h ≡ true
    → referenced h m.versions ≡ t
same_reference k h m t e q = ap (λ x. referenced x m.versions) (sym (text_eq_sound k h q)) ∙ e

passed :
    (k h : Text) (m : Meta) (hs : List Text) (o : Option Text)
    → referenced k m.versions ≡ true
    → (if mem_text h hs && not (referenced h m.versions) then none else o)
      ≡ (if mem_text h (k ∷ hs) && not (referenced h m.versions) then none else o)
unfolding mem_text
passed k h m hs o e = elim (Bool-cases (text_eq k h)) [
  | inl q ↦ let r = same_reference k h m true e q in ground arith
  | inr q ↦ rw q refl
]

removed :
    (k h : Text) (m : Meta) (hs : List Text) (o : Option Text)
    → referenced k m.versions ≡ false
    → (if mem_text h hs && not (referenced h m.versions)
        then none
        else if text_eq k h
        then none
        else o)
      ≡ (if mem_text h (k ∷ hs) && not (referenced h m.versions) then none else o)
unfolding mem_text
removed k h m hs o e = elim (Bool-cases (text_eq k h)) [
  | inl q ↦ let r = same_reference k h m false e q in ground arith
  | inr q ↦ rw q refl
]

sweep-alone :
    (nts : Option NativeTextSearch) (hs : List Text) (count : ℕ) (m : Meta) (b : Blobs)
    (ids ticks : ℕ)
    → (n : ℕ) × (m' : Meta) × (b' : Blobs) × (sweep nts hs count (alone m b ids ticks)
        ≡ (ok n, alone m' b' ids ticks))
      × Swept hs m m' b b'
unfolding sweep mem_text
sweep-alone nts [] count m b ids ticks = (
  count,
  m,
  b,
  refl,
  record { same = record { files = refl; versions = refl; permissions = refl }; blobs = λ h. refl },
)
sweep-alone nts (k ∷ hs) count m b ids ticks = elim (Bool-cases (referenced k m.versions)) [
  | inl e ↦
      let (n, m', b', q, s) = sweep-alone nts hs count m b ids ticks in
      (
        n,
        m',
        b',
        rw (claim-kept nts b ids ticks k m e) q,
        record { same = s.same; blobs = λ h. s.blobs h ∙ passed k h m hs (find_blob h b) e },
      )
  | inr e ↦
      let (m₁, c, same) = claim-orphan nts b ids ticks k m e in
      let (n, m', b', q, s) = sweep-alone nts hs (count + 1) m₁ (remove_blob k b) ids ticks in
      (
        n,
        m',
        b',
        rw (c, blob_delete-alone k m₁ b ids ticks) q,
        record {
          same = record {
            files = s.same.files ∙ same.files;
            versions = s.same.versions ∙ same.versions;
            permissions = s.same.permissions ∙ same.permissions;
          };
          blobs = λ h.
              rw (s.blobs h, find_blob-remove_blob h k b, same.versions)
                (removed k h m hs (find_blob h b) e);
        },
      )
]

unlisted : (h : Text) (b : Blobs) → mem_text h (map hash_of b) ≡ false → find_blob h b ≡ none
unfolding mem_text find_blob
unlisted h [] e = refl
unlisted h ((k, d) ∷ b) e = ground (arith, unlisted h b)

listed :
    (h : Text) (m : Meta) (b : Blobs)
    → (if mem_text h (map hash_of b) && not (referenced h m.versions) then none else find_blob h b)
      ≡ (if referenced h m.versions then find_blob h b else none)
listed h m b = elim (Bool-cases (mem_text h (map hash_of b))) [
  | inl q ↦ ground arith
  | inr q ↦ rw (q, unlisted h b q) (ground arith)
]

-- Where no other task runs, the blob collection keeps a blob exactly if some version refers to it:
-- no blob of a version is lost and no orphan stays. It leaves the files, the versions and the
-- permissions as they were.
pub blob_gc-referenced :
    (nts : Option NativeTextSearch) (m : Meta) (b : Blobs) (ids ticks : ℕ)
    → (n : ℕ) × (m' : Meta) × (b' : Blobs) × (blob_gc nts (alone m b ids ticks)
        ≡ (ok n, alone m' b' ids ticks))
      × SameFiles m m'
      × ((h : Text) → find_blob h b' ≡ (if referenced h m.versions then find_blob h b else none))
unfolding blob_gc list_hashes
blob_gc-referenced nts m b ids ticks =
    let (n, m', b', e, s) = sweep-alone nts (map hash_of b) 0 m b ids ticks in
    (n, m', b', e, s.same, λ h. s.blobs h ∙ listed h m b)
