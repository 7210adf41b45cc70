-- ===== src/Store/Permissions/Decision.antt =====
-- The permission decision against its description: the longest covering rule decides.
use ai_vfs.Base.{
  ℕ, ◌≤◌, ◌≡◌, refl, ◌∙◌, ap, Bool, false, ◌&&◌, Option, none, some, List, [], ◌∷◌, Text, select,
  find, ltb, sort_desc, insert_desc, IsDesc, sort_desc-IsDesc, All, All-le_trans, Option-cases,
  Bool-cases, inl, inr, if◌then◌else◌, arith,
}
use ai_vfs.Models.{Permission}
use ai_vfs.Paths.Prefix.{prefix_matches}
use ai_vfs.Store.Versions.{mem_text}
use ai_vfs.Store.Permissions.{is_held_by, decide, specificity, allowed}

-- Of two rules the longer; the first where they are equally long.
unfoldable pub longer : Permission → Option Permission → Permission
longer p none = p
longer p (some q) = if ltb (specificity p) (specificity q) then q else p

-- The longest rule of the principal that covers the path, with no sorting.
unfoldable pub longest_rule : Text → Text → Text → List Permission → Option Permission
longest_rule principal ns path [] = none
longest_rule principal ns path (p ∷ ps) =
    let rest = longest_rule principal ns path ps in
    if is_held_by principal ns p && prefix_matches p.path_prefix path
    then some (longer p rest)
    else rest

unfoldable pub grants : Text → Option Permission → Bool
grants operation none = false
grants operation (some p) = mem_text operation p.operations

abbrev covering : Text → Permission → Bool
covering path p = prefix_matches p.path_prefix path

decide-find :
    (path operation : Text) (ps : List Permission)
    → decide path operation ps ≡ grants operation (find (covering path) ps)
unfolding decide find grants
decide-find path operation [] = refl
decide-find path operation (p ∷ ps) = ground (arith, decide-find path operation ps)

find-bound :
    (path : Text) (b : ℕ) (ps : List Permission) (q : Permission)
    → All (λ p. specificity p ≤ b) ps
    → find (covering path) ps ≡ some q
    → specificity q ≤ b
unfolding find
find-bound path b [] q h e = ground arith
find-bound path b (p ∷ ps) q h e = ground (arith, find-bound path b ps q h.1)

longer_bound :
    (path : Text) (p : Permission) (ps : List Permission)
    → All (λ q. specificity q ≤ specificity p) ps
    → longer p (find (covering path) ps) ≡ p
unfolding longer
longer_bound path p ps h = elim (Option-cases (find (covering path) ps)) [
  | inl e ↦ rw e
  | inr (q, e) ↦ rw e (ground (arith, find-bound path (specificity p) ps q h e))
]

find-insert_desc :
    (path : Text) (p : Permission) (ps : List Permission)
    → IsDesc specificity ps
    → find (covering path) (insert_desc specificity p ps) ≡ (
        if covering path p
        then some (longer p (find (covering path) ps))
        else find (covering path) ps)
unfolding find insert_desc longer
find-insert_desc path p [] d = ground arith
find-insert_desc path p (q ∷ qs) d = elim (Bool-cases (ltb (specificity p) (specificity q))) [
  | inl e ↦ rw e (ground (arith, find-insert_desc path p qs d.1))
  | inr e ↦ rw e (ground (arith, longer_bound path p (q ∷ qs) (le_all e)))
]
  where
    le_all :
        ltb (specificity p) (specificity q) ≡ false
        → All (λ r. specificity r ≤ specificity p) (q ∷ qs)
    le_all e =
        let le : specificity q ≤ specificity p = ground arith in
        (le, All-le_trans specificity (specificity q) (specificity p) qs le d.0)

find-longest_rule :
    (principal ns path : Text) (ps : List Permission)
    → find (covering path) (sort_desc specificity (select (is_held_by principal ns) ps))
      ≡ longest_rule principal ns path ps
unfolding find longest_rule sort_desc select
find-longest_rule principal ns path [] = refl
find-longest_rule principal ns path (p ∷ ps) = elim (Bool-cases (is_held_by principal ns p)) [
  | inl e ↦ rw e (
      rw
        (
          find-insert_desc path p _
              (sort_desc-IsDesc specificity (select (is_held_by principal ns) ps)),
          find-longest_rule principal ns path ps,
        )
        refl)
  | inr e ↦ rw e (find-longest_rule principal ns path ps)
]

-- A request is allowed exactly if the longest rule of the principal in the namespace that covers
-- the path lists the operation; with no such rule it is refused.
pub allowed-longest_rule :
    (principal ns path operation : Text) (ps : List Permission)
    → allowed principal ns path operation ps ≡ grants operation (longest_rule principal ns path ps)
unfolding allowed
allowed-longest_rule principal ns path operation ps =
    decide-find path operation (sort_desc specificity (select (is_held_by principal ns) ps))
    ∙ ap (grants operation) (find-longest_rule principal ns path ps)
