-- ===== src/Tests/Collecting.antt =====
-- The theorems on the garbage collector at concrete inputs.
use ai_vfs.Base.{
  ℕ, ◌+◌, ◌≤◌, ◌<◌, ◌≡◌, refl, true, false, none, some, [], ◌∷◌, Text, codes, if◌then◌else◌, arith,
}
use ai_vfs.Models.{VersionMeta, RetentionPolicy, RetentionTier}
use ai_vfs.Errors.{ok}
use ai_vfs.Store.Tables.{Meta, empty_meta}
use ai_vfs.Store.Versions.{mem_text}
use ai_vfs.World.{Blobs, find_blob}
use ai_vfs.Vfs.Quiet.{alone, SameFiles}
use ai_vfs.Gc.Tiers.{oldest, evaluate_tier_retention}
use ai_vfs.Gc.Collect.{blob_gc}
use ai_vfs.Gc.Blobs.{referenced, blob_gc-referenced}
use ai_vfs.Base.{◌&&◌}
use ai_vfs.Gc.Spared.{in_first_tier, evaluate_tier_retention-spares}

version : ℕ → ℕ → VersionMeta
version n created = record {
  id = n ∷ [];
  file_path = codes "/f";
  namespace_id = codes "ns";
  version_number = n;
  content_hash = n ∷ [];
  size = 1;
  created_at = created;
  created_by = codes "bob";
  is_tombstone = false;
  search_meta = [];
  parent_version_id = none;
}

abbrev meta : Meta
meta = record empty_meta { versions = version 2 20 ∷ version 1 10 ∷ [] }

-- The third blob is an orphan.
abbrev blobs : Blobs
blobs = (1 ∷ [], codes "a") ∷ (2 ∷ [], codes "b") ∷ (3 ∷ [], codes "c") ∷ []

blob_gc-referenced_example :
    (n : ℕ) × (m' : Meta) × (b' : Blobs) × (blob_gc none (alone meta blobs 0 0)
      ≡ (ok n, alone m' b' 0 0))
    × SameFiles meta m'
    × ((h : Text)
        → find_blob h b' ≡ (if referenced h meta.versions then find_blob h blobs else none))
blob_gc-referenced_example = blob_gc-referenced none meta blobs 0 0

abbrev tier : RetentionTier
tier = record { max_age = 15; keep_every = none }

abbrev policy : RetentionPolicy
policy = record {
  max_recent_versions = 50;
  tiers = tier ∷ [];
  keep_first_version = true;
  keep_current_version = true;
}

young : 30 < (version 2 20).created_at + tier.max_age
unfolding version
young = omega arith

past : (version 2 20).created_at ≤ 30
unfolding version
past = omega arith

evaluate_tier_retention-spares_example :
    let ids =
      evaluate_tier_retention (version 1 10 ∷ version 2 20 ∷ []) policy 30 (some (9 ∷ [])) in
    ((policy.keep_first_version && mem_text (oldest (version 1 10) (version 2 20 ∷ [])).id ids)
      ≡ false)
    × ((policy.keep_current_version && mem_text (9 ∷ []) ids) ≡ false)
    × ((in_first_tier policy.tiers 30 (version 2 20) && mem_text (version 2 20).id ids) ≡ false)
evaluate_tier_retention-spares_example =
    evaluate_tier_retention-spares (version 1 10) (version 2 20 ∷ []) policy 30 (9 ∷ [])
      (version 2 20) (version 1 10 ∷ []) [] refl

-- A version that is neither first nor current nor in a tier is given up.
gives_up :
    evaluate_tier_retention
      (version 1 1 ∷ version 2 2 ∷ version 3 20 ∷ [])
      policy
      30
      (some (3 ∷ []))
    ≡ (2 ∷ []) ∷ []
unfolding evaluate_tier_retention version
gives_up = refl
