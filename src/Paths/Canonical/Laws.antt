-- ===== src/Paths/Canonical/Laws.antt =====
-- Which paths the canonical-form guard accepts, and that resolved paths are among them.
use ai_vfs.Base.{
  ℕ, ◌≡◌, refl, sym, ap, subst, ◌∙◌, inl, inr, Bool, true, false, not, ◌&&◌, List, [], ◌∷◌, ◌++◌,
  Text, codes, text_eq, text_eq_complete, starts_with, starts_with_split, drop_last_split,
  text_eq_sound, and-eq-true, ends_with, drop_last, ends_with-append, drop_last-append, arith,
  Bool-cases,
}
use ai_vfs.Errors.{ok}
use ai_vfs.Paths.Posix.{slash, normpath, isabs, path_join, join}
use ai_vfs.Paths.Posix.Normal.{
  Root, single, double, Segments, normpath-render, normpath_rooted, ends_with-render,
}
use ai_vfs.Paths.Canonical.{checked, require_canonical, joined_path, keep_slash, resolve_path}

accepts_fixed :
    (s : Text)
    → normpath (checked (slash ∷ s)) ≡ checked (slash ∷ s)
    → require_canonical (slash ∷ s) ≡ ok tt
unfolding require_canonical starts_with
accepts_fixed s e =
    rw (text_eq_complete (checked (slash ∷ s)) (normpath (checked (slash ∷ s))) (sym e))

not_root : (s : Text) (c : ℕ) → text_eq ((slash ∷ s) ++ (c ∷ [])) (codes "/") ≡ false
unfolding text_eq
not_root [] c = ground arith
not_root (a ∷ s) c = ground arith

checked-dir : (s : Text) → checked ((slash ∷ s) ++ (slash ∷ [])) ≡ slash ∷ s
unfolding checked
checked-dir s =
    rw (ends_with-append (slash ∷ s) slash, not_root s slash) (drop_last-append (slash ∷ s) slash)

checked_file : (s : Text) → ends_with s slash ≡ false → checked s ≡ s
unfolding checked
checked_file s h = ground arith

accepts-render :
    (r : Text) (ts : List Text) → Root r → Segments ts → require_canonical (r ++ join ts) ≡ ok tt
accepts-render _ [] single h = unfold require_canonical in refl
accepts-render _ [] double h = unfold require_canonical in refl
accepts-render _ (t ∷ ts) single h = accepts_fixed (join (t ∷ ts)) (
    rw (checked_file (codes "/" ++ join (t ∷ ts)) (ends_with-render (codes "/") t ts single h))
      (normpath-render (codes "/") (t ∷ ts) single h))
accepts-render _ (t ∷ ts) double h = accepts_fixed (slash ∷ join (t ∷ ts)) (
    rw (checked_file (codes "//" ++ join (t ∷ ts)) (ends_with-render (codes "//") t ts double h))
      (normpath-render (codes "//") (t ∷ ts) double h))

accepts-render_dir :
    (r : Text) (ts : List Text)
    → Root r
    → Segments ts
    → require_canonical ((r ++ join ts) ++ (slash ∷ [])) ≡ ok tt
accepts-render_dir _ ts single h =
    accepts_fixed (join ts ++ (slash ∷ []))
      (rw (checked-dir (join ts)) (normpath-render (codes "/") ts single h))
accepts-render_dir _ ts double h =
    accepts_fixed (slash ∷ (join ts ++ (slash ∷ [])))
      (rw (checked-dir (slash ∷ join ts)) (normpath-render (codes "//") ts double h))

-- The forms of an accepted path: a root of one or two slashes and segments, perhaps with a
-- trailing slash.
pub data CanonicalForm (path : Text) : Type 0 where
  file_form :
      (r : Text) (ts : List Text) → Root r → Segments ts → path ≡ r ++ join ts → CanonicalForm path
  dir_form :
      (r : Text) (ts : List Text)
      → Root r
      → Segments ts
      → path ≡ (r ++ join ts) ++ (slash ∷ [])
      → CanonicalForm path

pub accepts-form : (path : Text) → CanonicalForm path → require_canonical path ≡ ok tt
accepts-form path (file_form r ts root segs e) =
    subst (λ p. require_canonical p ≡ ok tt) (sym e) (accepts-render r ts root segs)
accepts-form path (dir_form r ts root segs e) =
    subst (λ p. require_canonical p ≡ ok tt) (sym e) (accepts-render_dir r ts root segs)

pub guard_passed :
    (path : Text)
    → require_canonical path ≡ ok tt
    → (starts_with path (codes "/") ≡ true)
      × (text_eq (checked path) (normpath (checked path)) ≡ true)
unfolding require_canonical
guard_passed path h = elim (Bool-cases (starts_with path (codes "/"))) [
  | inl e ↦ elim (Bool-cases (text_eq (checked path) (normpath (checked path)))) [
    | inl f ↦ (e, f)
    | inr f ↦ cc (rw (e, f) at h)
  ]
  | inr e ↦ cc (rw e at h)
]

form_of_fixed :
    (s : Text)
    → checked (slash ∷ s) ≡ normpath (checked (slash ∷ s))
    → (b : Bool) → (ends_with (slash ∷ s) slash && not (text_eq (slash ∷ s) (codes "/"))) ≡ b
    → CanonicalForm (slash ∷ s)
unfolding checked
form_of_fixed s fixed false e =
    let (r, ts, root, segs, q) = normpath_rooted s in file_form r ts root segs ((rw e at fixed) ∙ q)
form_of_fixed [] fixed true e = absurd (at_root e)
  where
    at_root : (ends_with (slash ∷ []) slash && not (text_eq (slash ∷ []) (codes "/"))) ≡ true → ⊥
    at_root q = cc
form_of_fixed (b ∷ s) fixed true e =
    let (r, ts, root, segs, q) = normpath_rooted (drop_last (b ∷ s)) in
    let f : drop_last (slash ∷ b ∷ s) ≡ r ++ join ts = (rw e at fixed) ∙ q in
    dir_form r ts root segs (
      sym (drop_last_split slash (b ∷ s) slash ((and-eq-true _ _).0 e).0)
      ∙ ap (λ t. t ++ (slash ∷ [])) f)

pub form-of_accepted : (path : Text) → require_canonical path ≡ ok tt → CanonicalForm path
form-of_accepted path h =
    let (rooted, same) = guard_passed path h in
    let (s, q) = starts_with_split path (codes "/") rooted in
    subst CanonicalForm (sym q) (
      form_of_fixed s (subst (λ p. checked p ≡ normpath (checked p)) q (text_eq_sound _ _ same)) _
        refl)

-- The canonical-form guard accepts a path exactly if it consists of a root of one or two slashes,
-- components that are not empty, `.` or `..` and hold no slash, joined by single slashes, and at most
-- one slash behind them.
pub require_canonical_iff :
    (path : Text)
    → (require_canonical path ≡ ok tt → CanonicalForm path)
      × (CanonicalForm path → require_canonical path ≡ ok tt)
require_canonical_iff path = (form-of_accepted path, accepts-form path)

joined_path-rooted : (c path : Text) → (s : Text) × (joined_path (slash ∷ c) path ≡ slash ∷ s)
unfolding joined_path path_join
joined_path-rooted c path = elim (Bool-cases (isabs path)) [
  | inl e ↦ let (s, q) = starts_with_split path (codes "/") e in (s, rw e q)
  | inr e ↦ elim (Bool-cases (ends_with (slash ∷ c) slash)) [
    | inl f ↦ (c ++ path, rw (e, f))
    | inr f ↦ (c ++ (slash ∷ path), rw (e, f))
  ]
]

accepts-keep_slash :
    (joined r : Text) (ts : List Text)
    → Root r
    → Segments ts
    → require_canonical (keep_slash joined (r ++ join ts)) ≡ ok tt
unfolding keep_slash
accepts-keep_slash joined r ts root segs =
    elim (Bool-cases (ends_with joined slash && not (text_eq (r ++ join ts) (codes "/")))) [
      | inl e ↦ rw e (accepts-render_dir r ts root segs)
      | inr e ↦ rw e (accepts-render r ts root segs)
    ]

accepts-resolved :
    (joined s : Text)
    → joined ≡ slash ∷ s
    → require_canonical (keep_slash joined (normpath joined)) ≡ ok tt
accepts-resolved joined s e =
    let (r, ts, root, segs, q) = normpath_rooted s in
    rw e (rw q (accepts-keep_slash (slash ∷ s) r ts root segs))

-- For a working directory that is absolute, whatever the argument, the resolved path passes the
-- canonical-form guard.
pub require_canonical-resolve_path :
    (cwd path : Text)
    → starts_with cwd (codes "/") ≡ true
    → require_canonical (resolve_path cwd path) ≡ ok tt
unfolding resolve_path
require_canonical-resolve_path cwd path h =
    let (c, q) = starts_with_split cwd (codes "/") h in
    let (s, e) = joined_path-rooted c path in
    rw q (accepts-resolved (joined_path (slash ∷ c) path) s e)
