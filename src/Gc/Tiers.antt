-- ===== src/Gc/Tiers.antt =====
-- `evaluate_tier_retention` of src/vfs/gc.py. A time and a duration are numbers of one unit.
use ai_vfs.Base.{
  ℕ, ◌-◌, ◌/◌, Bool, true, false, not, ◌&&◌, Option, none, some, List, [], ◌∷◌, ◌++◌, map, Text,
  select, leb, ltb, ◌==◌, if◌then◌else◌,
}
use ai_vfs.Models.{VersionMeta, RetentionTier, RetentionPolicy}
use ai_vfs.Store.Versions.{mem_text}
use ai_vfs.Store.Retention.{is_older}

-- `min(…, key=lambda v: (v.created_at, v.version_number))`: the first of the oldest.
unfoldable pub oldest : VersionMeta → List VersionMeta → VersionMeta
oldest v [] = v
oldest v (w ∷ ws) = if is_older v w then oldest v ws else oldest w ws

-- `prev_max_age <= now - v.created_at < tier.max_age`; the age of a version from the future is
-- negative, which is in no band.
unfoldable pub in_band : ℕ → ℕ → ℕ → VersionMeta → Bool
in_band now from below v =
    leb v.created_at now && (leb from (now - v.created_at) && ltb (now - v.created_at) below)

-- `windows.setdefault(window_idx, []).append(v)`
unfoldable pub append_window :
    ℕ → VersionMeta → List (ℕ × List VersionMeta) → List (ℕ × List VersionMeta)
append_window i v [] = (i, v ∷ []) ∷ []
append_window i v ((j, vs) ∷ rest) =
    if j == i then (j, vs ++ (v ∷ [])) ∷ rest else (j, vs) ∷ append_window i v rest

unfoldable pub windows :
    ℕ → ℕ → List VersionMeta → List (ℕ × List VersionMeta) → List (ℕ × List VersionMeta)
unfolding append_window
windows now every [] acc = acc
windows now every (v ∷ vs) acc =
    windows now every vs (append_window ((now - v.created_at) / every) v acc)

unfoldable pub survivor : ℕ × List VersionMeta → List Text
unfolding oldest
survivor (i, []) = []
survivor (i, v ∷ vs) = (oldest v vs).id ∷ []

unfoldable pub survivors : List (ℕ × List VersionMeta) → List Text
unfolding survivor
survivors [] = []
survivors (w ∷ ws) = survivor w ++ survivors ws

abbrev pub id_of : VersionMeta → Text
id_of v = v.id

-- What one tier keeps of its band.
unfoldable pub kept_of_band : ℕ → Option ℕ → List VersionMeta → List Text
unfolding windows survivors
kept_of_band now none band = map id_of band
kept_of_band now (some every) band = survivors (windows now every band [])

-- The loop over the tiers; `from` is `prev_max_age`.
unfoldable pub kept_by_tiers : ℕ → ℕ → List RetentionTier → List VersionMeta → List Text
unfolding kept_of_band in_band select
kept_by_tiers now from [] versions = []
kept_by_tiers now from (tier ∷ tiers) versions =
    kept_of_band now tier.keep_every (select (in_band now from tier.max_age) versions)
    ++ kept_by_tiers now tier.max_age tiers versions

abbrev pub kept_first : Bool → VersionMeta → List VersionMeta → List Text
kept_first true v vs = (oldest v vs).id ∷ []
kept_first false v vs = []

abbrev pub kept_current : Bool → Option Text → List Text
kept_current true (some i) = i ∷ []
kept_current _ _ = []

-- `{v.id for v in versions} - keep`. Without tiers the loop keeps nothing.
unfoldable pub evaluate_tier_retention :
    List VersionMeta → RetentionPolicy → ℕ → Option Text → List Text
unfolding kept_by_tiers oldest mem_text select
evaluate_tier_retention [] policy now current = []
evaluate_tier_retention (v ∷ vs) policy now current =
    let keep =
      kept_first policy.keep_first_version v vs
      ++ (kept_current policy.keep_current_version current
          ++ kept_by_tiers now 0 policy.tiers (v ∷ vs)) in
    select (λ i. not (mem_text i keep)) (map id_of (v ∷ vs))
