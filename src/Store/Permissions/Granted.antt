-- ===== src/Store/Permissions/Granted.antt =====
-- What the permission check says after `set_permission`.
use ai_vfs.Base.{
  ℕ, ◌+◌, ◌≤◌, ◌<◌, ◌≡◌, refl, sym, ap, subst, ◌∙◌, true, false, ◌&&◌, Option, none, some, List, [],
  ◌∷◌, ◌++◌, Text, text_eq, text_eq_iff, text_eq_refl, text_eq_complete, ltb, length, length-append,
  Option-cases, and-eq-true, Bool-cases, inl, inr, arith,
}
use mathlib.Core.List.{append-nil}
use ai_vfs.Models.{Permission}
use ai_vfs.Paths.Prefix.{prefix_matches, prefix_matches-begins}
use ai_vfs.Store.Versions.{mem_text}
use ai_vfs.Store.Permissions.{is_held_by, specificity, allowed, same_scope, upsert_permission}
use ai_vfs.Store.Permissions.Decision.{longer, longest_rule, grants, allowed-longest_rule}

covers_itself : (x : Text) → prefix_matches x x ≡ true
unfolding prefix_matches
covers_itself x = rw text_eq_refl refl

-- A rule that covers a path is not longer than it, and shorter if it is not the path itself.
covering_bound : (p x : Text) → prefix_matches p x ≡ true → length p ≤ length x
covering_bound p x e =
    let (rest, q) = prefix_matches-begins p x e in omega (arith, ap length q, length-append p rest)

shorter : (p x rest : Text) → x ≡ p ++ rest → text_eq p x ≡ false → length p < length x
shorter p x [] q n = cc (n, text_eq_complete p x (sym (q ∙ append-nil p)))
shorter p x (c ∷ rest) q n =
    let l : length x ≡ length p + length (c ∷ rest) = ap length q ∙ length-append p (c ∷ rest) in
    omega arith

covering_shorter :
    (p x : Text) → prefix_matches p x ≡ true → text_eq p x ≡ false → length p < length x
covering_shorter p x e n = let (rest, q) = prefix_matches-begins p x e in shorter p x rest q n

longer_bounded :
    (p : Permission) (o : Option Permission) (b : ℕ)
    → specificity p ≤ b
    → ((s : Permission) → o ≡ some s → specificity s ≤ b)
    → specificity (longer p o) ≤ b
unfolding longer
longer_bounded p none b h f = h
longer_bounded p (some s) b h f = elim (Bool-cases (ltb (specificity p) (specificity s))) [
  | inl e ↦ rw e (f s refl)
  | inr e ↦ rw e h
]

module _ (principal ns path : Text) where
  longest_bound :
      (ps : List Permission) (r : Permission)
      → longest_rule principal ns path ps ≡ some r
      → specificity r ≤ length path
  unfolding longest_rule longer
  longest_bound [] r e = cc e
  longest_bound (p ∷ ps) r e =
      elim (Bool-cases (is_held_by principal ns p && prefix_matches p.path_prefix path)) [
        | inl h ↦
            let i : longer p (longest_rule principal ns path ps) ≡ r = cc (rw h at e) in
            subst (λ x. specificity x ≤ length path) i
              (longer_bounded p (longest_rule principal ns path ps) (length path)
                (covering_bound p.path_prefix path ((and-eq-true _ _).0 h).1) (longest_bound ps))
        | inr h ↦ longest_bound ps r (rw h at e)
      ]

  -- Over the bound, the first rule of that length wins.
  longest_first :
      (p : Permission) (ps : List Permission)
      → specificity p ≡ length path
      → longer p (longest_rule principal ns path ps) ≡ p
  unfolding longer
  longest_first p ps e = elim (Option-cases (longest_rule principal ns path ps)) [
    | inl n ↦ rw n refl
    | inr (s, q) ↦ rw q (ground (arith, longest_bound ps s q))
  ]

-- The rules of the scope of `p`.
scope_of :
    (p q : Permission)
    → same_scope p q ≡ true
    → (q.principal_id ≡ p.principal_id)
      × (q.namespace_id ≡ p.namespace_id)
      × (q.path_prefix ≡ p.path_prefix)
unfolding same_scope
scope_of p q e = ground (
  arith,
  text_eq_iff q.principal_id p.principal_id,
  text_eq_iff q.namespace_id p.namespace_id,
  text_eq_iff q.path_prefix p.path_prefix,
)

-- A rule of the principal that covers the path, of another scope, is shorter.
other_scope_shorter :
    (p q : Permission)
    → same_scope p q ≡ false
    → (is_held_by p.principal_id p.namespace_id q && prefix_matches q.path_prefix p.path_prefix)
      ≡ true
    → specificity q < length p.path_prefix
unfolding same_scope is_held_by
other_scope_shorter p q e h =
    covering_shorter q.path_prefix p.path_prefix ((and-eq-true _ _).0 h).1 (ground arith)

-- A rule of the scope of `p` covers the path of `p`.
own_scope :
    (p q : Permission)
    → same_scope p q ≡ true
    → (is_held_by p.principal_id p.namespace_id q && prefix_matches q.path_prefix p.path_prefix)
      ≡ true
unfolding is_held_by
own_scope p q e =
    let (i, n, x) = scope_of p q e in
    rw
      (
        i,
        n,
        x,
        text_eq_refl p.principal_id,
        text_eq_refl p.namespace_id,
        covers_itself p.path_prefix,
      )
      refl

same_scope_refl : (p : Permission) → same_scope p p ≡ true
unfolding same_scope
same_scope_refl p =
    rw (text_eq_refl p.principal_id, text_eq_refl p.namespace_id, text_eq_refl p.path_prefix) refl

abbrev updated : Permission → Permission → Permission
updated p q = record q { id = p.id; operations = p.operations; created_at = p.created_at }

same_scope-updated : (p q : Permission) → same_scope p q ≡ true → same_scope p (updated p q) ≡ true
unfolding same_scope
same_scope-updated p q e = e

-- In front of other rules it is the longest.
longest_head :
    (p q : Permission) (qs : List Permission)
    → same_scope p q ≡ true
    → longest_rule p.principal_id p.namespace_id p.path_prefix (q ∷ qs) ≡ some q
unfolding longest_rule
longest_head p q qs e = rw (own_scope p q e) (
    ap some (
      longest_first p.principal_id p.namespace_id p.path_prefix q qs
        (ap length (scope_of p q e).2)))

-- The longest rule for the path of a rule that was just set is that rule.
longest_set :
    (p : Permission) (ps : List Permission)
    → (r : Permission) × (longest_rule p.principal_id p.namespace_id p.path_prefix
          (upsert_permission p ps)
        ≡ some r)
      × (r.operations ≡ p.operations)
      × (specificity r ≡ length p.path_prefix)
unfolding longest_rule upsert_permission longer
longest_set p [] = (p, longest_head p p [] (same_scope_refl p), refl, refl)
longest_set p (q ∷ qs) = elim (Bool-cases (same_scope p q)) [
  | inl e ↦ (
    updated p q,
    rw e (longest_head p (updated p q) qs (same_scope-updated p q e)),
    refl,
    ap length (scope_of p q e).2,
  )
  | inr e ↦
      let (r, f, o, l) = longest_set p qs in
      elim (Bool-cases (
        is_held_by p.principal_id p.namespace_id q && prefix_matches q.path_prefix p.path_prefix)) [
          | inl h ↦ (r, rw (e, f, h) (ground (arith, other_scope_shorter p q e h)), o, l)
          | inr h ↦ (r, rw (e, f, h) refl, o, l)
        ]
]

-- Setting a rule decides the requests of its principal at its path: an operation is allowed there
-- exactly if the rule lists it, whatever rules there were before.
pub allowed-upsert_permission :
    (p : Permission) (ps : List Permission) (operation : Text)
    → allowed p.principal_id p.namespace_id p.path_prefix operation (upsert_permission p ps)
      ≡ mem_text operation p.operations
unfolding grants
allowed-upsert_permission p ps operation =
    let (r, f, o, l) = longest_set p ps in
    allowed-longest_rule p.principal_id p.namespace_id p.path_prefix operation
      (upsert_permission p ps)
    ∙ rw (f, o) refl
