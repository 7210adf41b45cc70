-- ===== src/Gc/Spared.antt =====
-- Which versions the tiered retention of src/vfs/gc.py never gives up.
use ai_vfs.Base.{
  ℕ, ◌+◌, ◌≤◌, ◌<◌, ◌≡◌, refl, ap, inl, inr, Bool, true, false, not, ◌&&◌, ◌||◌, none, some, List,
  [], ◌∷◌, ◌++◌, map, Text, text_eq, text_eq_sound, text_eq_refl, any, select, Bool-cases, arith,
  Option, Option-cases, leb, ltb,
}
use ai_vfs.Models.{VersionMeta, RetentionPolicy, RetentionTier}
use ai_vfs.Store.Versions.{mem_text}
use ai_vfs.Gc.Tiers.{
  kept_first, kept_current, kept_of_band, oldest, id_of, kept_by_tiers, evaluate_tier_retention,
  in_band,
}

spared :
    (i : Text) (keep ids : List Text)
    → mem_text i keep ≡ true
    → mem_text i (select (λ j. not (mem_text j keep)) ids) ≡ false
unfolding mem_text select
spared i keep [] e = refl
spared i keep (j ∷ ids) e = elim (Bool-cases (mem_text j keep)) [
  | inl k ↦ rw k (spared i keep ids e)
  | inr k ↦ elim (Bool-cases (text_eq j i)) [
    | inl q ↦ cc (k, e, ap (λ x. mem_text x keep) (text_eq_sound j i q))
    | inr q ↦ rw (k, q) (spared i keep ids e)
  ]
]

mem_text-append :
    (i : Text) (xs ys : List Text) → mem_text i (xs ++ ys) ≡ (mem_text i xs || mem_text i ys)
unfolding mem_text any
mem_text-append i [] ys = refl
mem_text-append i (x ∷ xs) ys = ground (arith, mem_text-append i xs ys)

mem_text-kept_first :
    (i : Text) (on : Bool) (v : VersionMeta) (vs : List VersionMeta)
    → mem_text i (kept_first on v vs) ≡ (on && text_eq (oldest v vs).id i)
unfolding mem_text any
mem_text-kept_first i true v vs = ground arith
mem_text-kept_first i false v vs = refl

mem_text-kept_current :
    (i current : Text) (on : Bool)
    → mem_text i (kept_current on (some current)) ≡ (on && text_eq current i)
unfolding mem_text any
mem_text-kept_current i current true = ground arith
mem_text-kept_current i current false = refl

mem_text-ids :
    (v : VersionMeta) (p : VersionMeta → Bool) (before after : List VersionMeta)
    → p v ≡ true
    → mem_text v.id (map id_of (select p (before ++ (v ∷ after)))) ≡ true
unfolding mem_text any select
mem_text-ids v p [] after e = rw (e, text_eq_refl v.id) refl
mem_text-ids v p (u ∷ before) after e = elim (Bool-cases (p u)) [
  | inl q ↦ let h = mem_text-ids v p before after e in rw q (ground arith)
  | inr q ↦ rw q (mem_text-ids v p before after e)
]

-- A version that the rules for single versions or the first tier keep.
spared_by :
    (i current : Text) (v : VersionMeta) (vs : List VersionMeta) (policy : RetentionPolicy)
    (now : ℕ)
    → ((policy.keep_first_version && text_eq (oldest v vs).id i)
        || ((policy.keep_current_version && text_eq current i)
            || mem_text i (kept_by_tiers now 0 policy.tiers (v ∷ vs))))
      ≡ true
    → mem_text i (evaluate_tier_retention (v ∷ vs) policy now (some current)) ≡ false
unfolding evaluate_tier_retention
spared_by i current v vs policy now e = spared i _ (map id_of (v ∷ vs)) (
    rw
      (
        mem_text-append i,
        mem_text-append i,
        mem_text-kept_first i policy.keep_first_version v vs,
        mem_text-kept_current i current policy.keep_current_version,
      )
      e)

first_tier :
    (tier : RetentionTier) (tiers : List RetentionTier) (u : VersionMeta)
    (before after : List VersionMeta) (now : ℕ)
    → tier.keep_every ≡ none
    → u.created_at ≤ now
    → now < u.created_at + tier.max_age
    → mem_text u.id (kept_by_tiers now 0 (tier ∷ tiers) (before ++ (u ∷ after))) ≡ true
unfolding kept_by_tiers kept_of_band
first_tier tier tiers u before after now every past young =
    let young_enough : in_band now 0 tier.max_age u ≡ true = unfold in_band in ground arith in
    rw
      (
        mem_text-append u.id,
        every,
        mem_text-ids u (in_band now 0 tier.max_age) before after young_enough,
      )
      refl

abbrev pub is_none : {A : Type 0} → Option A → Bool
is_none none = true
is_none (some a) = false

-- The first tier keeps every version of its age, and the version is of that age.
abbrev pub in_first_tier : List RetentionTier → ℕ → VersionMeta → Bool
in_first_tier [] now u = false
in_first_tier (tier ∷ tiers) now u =
    is_none tier.keep_every && (leb u.created_at now && ltb now (u.created_at + tier.max_age))

kept_in_first_tier :
    (tiers : List RetentionTier) (u : VersionMeta) (before after : List VersionMeta) (now : ℕ)
    → in_first_tier tiers now u ≡ true
    → mem_text u.id (kept_by_tiers now 0 tiers (before ++ (u ∷ after))) ≡ true
kept_in_first_tier [] u before after now h = cc h
kept_in_first_tier (tier ∷ tiers) u before after now h = elim (Option-cases tier.keep_every) [
  | inl every ↦
      let young : (leb u.created_at now && ltb now (u.created_at + tier.max_age)) ≡ true =
        rw every at h in
      first_tier tier tiers u before after now every (ground arith) (ground arith)
  | inr (n, windowed) ↦ cc (rw windowed at h)
]

spared_if :
    (b : Bool) (i : Text) (ids : List Text)
    → (b ≡ true → mem_text i ids ≡ false)
    → (b && mem_text i ids) ≡ false
spared_if true i ids h = h refl
spared_if false i ids h = refl

-- Whatever the policy and its tiers are: under `keep_first_version` the oldest version is not given
-- up, under `keep_current_version` the current one is not, and where the first tier keeps every
-- version, none that is younger than its `max_age` and not from the future is.
pub evaluate_tier_retention-spares :
    (v : VersionMeta) (vs : List VersionMeta) (policy : RetentionPolicy) (now : ℕ) (current : Text)
    (u : VersionMeta) (before after : List VersionMeta)
    → v ∷ vs ≡ before ++ (u ∷ after)
    → let ids = evaluate_tier_retention (v ∷ vs) policy now (some current) in
      ((policy.keep_first_version && mem_text (oldest v vs).id ids) ≡ false)
      × ((policy.keep_current_version && mem_text current ids) ≡ false)
      × ((in_first_tier policy.tiers now u && mem_text u.id ids) ≡ false)
evaluate_tier_retention-spares v vs policy now current u before after split =
    let ids = evaluate_tier_retention (v ∷ vs) policy now (some current) in
    (
      spared_if policy.keep_first_version (oldest v vs).id ids (λ first.
          spared_by (oldest v vs).id current v vs policy now
            (rw (first, text_eq_refl (oldest v vs).id) refl)),
      spared_if policy.keep_current_version current ids (λ last.
          spared_by current current v vs policy now
            (rw (last, text_eq_refl current) (ground arith))),
      spared_if (in_first_tier policy.tiers now u) u.id ids (λ young.
          spared_by u.id current v vs policy now (
            let k : mem_text u.id (kept_by_tiers now 0 policy.tiers (v ∷ vs)) ≡ true =
              rw split (kept_in_first_tier policy.tiers u before after now young) in
            ground arith)),
    )
