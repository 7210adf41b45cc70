-- ===== src/Paths/Posix/Normal.antt =====
-- Splitting undoes joining, and `normpath` of a rooted path is its normal form.
use ai_vfs.Base.{
  ℕ, ◌≡◌, refl, sym, ap, ◌∙◌, inl, inr, Bool, true, false, not, ◌&&◌, ◌||◌, List, [], ◌∷◌, ◌++◌,
  Text, codes, text_eq, starts_with, ends_with, has_char, rev_onto, All, All-rev_onto,
  rev_onto-rev_onto, ◌==◌, if◌then◌else◌, arith, Bool-cases,
}
use ai_vfs.Paths.Posix.{
  slash, is_empty, onto_first, split, join, norm_step, norm_comps, root_of, or_dot, normpath,
}
use mathlib.Core.List.{append-nil}

-- A component that `normpath` keeps in a rooted path: not empty, not `.` or `..`, with no slash.
unfoldable pub is_segment : Text → Bool
is_segment t =
    not (is_empty t || text_eq t (codes "."))
    && not (text_eq t (codes ".."))
    && not (has_char slash t)

abbrev pub Segments : List Text → Type 0
Segments = All (λ t. is_segment t ≡ true)

abbrev NoSlash : List Text → Type 0
NoSlash = All (λ t. has_char slash t ≡ false)

NoSlash-onto_first :
    (a : ℕ) (ts : List Text) → (a == slash) ≡ false → NoSlash ts → NoSlash (onto_first a ts)
unfolding has_char
NoSlash-onto_first a [] h n = ground arith
NoSlash-onto_first a (t ∷ ts) h n = ground arith

NoSlash-split : (s : Text) → NoSlash (split s)
unfolding split has_char
NoSlash-split [] = (refl, tt)
NoSlash-split (a ∷ s) = elim (Bool-cases (a == slash)) [
  | inl e ↦ rw e (refl, NoSlash-split s)
  | inr e ↦ rw e (NoSlash-onto_first a (split s) e (NoSlash-split s))
]

split_plain : (t : Text) → has_char slash t ≡ false → split t ≡ t ∷ []
unfolding split has_char
split_plain [] h = refl
split_plain (a ∷ t) h = ground (arith, split_plain t)

split-append : (t s : Text) → has_char slash t ≡ false → split (t ++ (slash ∷ s)) ≡ t ∷ split s
unfolding split has_char
split-append [] s h = refl
split-append (a ∷ t) s h = ground (arith, split-append t s)

has_char_of_segment : (t : Text) → is_segment t ≡ true → has_char slash t ≡ false
unfolding is_segment
has_char_of_segment t h = ground arith

-- Splitting a join of segments gives the segments back.
pub split-join : (t : Text) (ts : List Text) → Segments (t ∷ ts) → split (join (t ∷ ts)) ≡ t ∷ ts
unfolding join
split-join t [] h = split_plain t (has_char_of_segment t h.0)
split-join t (u ∷ ts) h =
    split-append t (join (u ∷ ts)) (has_char_of_segment t h.0)
    ∙ ap (λ r. t ∷ r) (split-join u ts h.1)

Segments-norm_step :
    (comps : List Text) (c : Text)
    → has_char slash c ≡ false
    → Segments comps
    → Segments (norm_step true comps c)
unfolding norm_step is_segment
Segments-norm_step [] c n h = ground arith
Segments-norm_step (t ∷ ts) c n h = ground arith

-- The components that the loop leaves of a rooted path are segments.
pub Segments-norm_comps :
    (comps cs : List Text) → NoSlash cs → Segments comps → Segments (norm_comps true comps cs)
unfolding norm_comps
Segments-norm_comps comps [] n h = All-rev_onto (λ t. is_segment t ≡ true) comps [] h tt
Segments-norm_comps comps (c ∷ cs) n h =
    Segments-norm_comps (norm_step true comps c) cs n.1 (Segments-norm_step comps c n.0 h)

norm_step_segment :
    (comps : List Text) (c : Text) → is_segment c ≡ true → norm_step true comps c ≡ c ∷ comps
unfolding norm_step is_segment
norm_step_segment comps c h = ground arith

norm_comps-Segments :
    (comps cs : List Text)
    → Segments cs
    → norm_comps true comps cs ≡ rev_onto (rev_onto cs comps) []
unfolding norm_comps rev_onto
norm_comps-Segments comps [] h = refl
norm_comps-Segments comps (c ∷ cs) h =
    rw (norm_step_segment comps c h.0) (norm_comps-Segments (c ∷ comps) cs h.1)

norm_comps_fixed : (cs : List Text) → Segments cs → norm_comps true [] cs ≡ cs
unfolding rev_onto
norm_comps_fixed cs h = norm_comps-Segments [] cs h ∙ rev_onto-rev_onto cs [] [] ∙ append-nil cs

-- The two roots that a rooted normal form can have.
pub data Root : Text → Type 0 where
  single : Root (codes "/")
  double : Root (codes "//")

starts_with-join : (ts : List Text) → Segments ts → starts_with (join ts) (codes "/") ≡ false
unfolding join starts_with is_segment has_char
starts_with-join [] h = refl
starts_with-join ([] ∷ ts) h = ground arith
starts_with-join ((a ∷ t) ∷ []) h = ground arith
starts_with-join ((a ∷ t) ∷ u ∷ ts) h = ground arith

root_of-render : (r : Text) (ts : List Text) → Root r → Segments ts → root_of (r ++ join ts) ≡ r
unfolding root_of starts_with
root_of-render _ ts single h = ground (arith, starts_with-join ts h)
root_of-render _ ts double h = ground (arith, starts_with-join ts h)

norm_comps-split-join : (ts : List Text) → Segments ts → norm_comps true [] (split (join ts)) ≡ ts
unfolding norm_comps norm_step split join rev_onto
norm_comps-split-join [] h = refl
norm_comps-split-join (t ∷ ts) h = rw (split-join t ts h) (norm_comps_fixed (t ∷ ts) h)

normpath-cons :
    (a : ℕ) (s : Text)
    → normpath (a ∷ s)
      ≡ or_dot (
          root_of (a ∷ s)
          ++ join (norm_comps (not (is_empty (root_of (a ∷ s)))) [] (split (a ∷ s))))
unfolding normpath
normpath-cons a s = refl

split-slash : (s : Text) → split (slash ∷ s) ≡ [] ∷ split s
unfolding split
split-slash s = refl

norm_comps-empty : (cs : List Text) → norm_comps true [] ([] ∷ cs) ≡ norm_comps true [] cs
unfolding norm_comps norm_step
norm_comps-empty cs = refl

-- A root with segments behind it is a fixed point of `normpath`.
pub normpath-render :
    (r : Text) (ts : List Text) → Root r → Segments ts → normpath (r ++ join ts) ≡ r ++ join ts
normpath-render _ ts single h = rw (
  normpath-cons,
  root_of-render (codes "/") ts single h,
  split-slash,
  norm_comps-empty,
  norm_comps-split-join ts h,
)
normpath-render _ ts double h = rw (
  normpath-cons,
  root_of-render (codes "//") ts double h,
  split-slash,
  norm_comps-empty,
  split-slash,
  norm_comps-empty,
  norm_comps-split-join ts h,
)

Root-if : (b : Bool) → Root (if b then codes "//" else codes "/")
Root-if true = double
Root-if false = single

root_of-Root : (s : Text) → Root (root_of (slash ∷ s))
unfolding root_of starts_with
root_of-Root s = Root-if _

or_dot-render :
    (r : Text) (cs : List Text)
    → Root r
    → or_dot (r ++ join (norm_comps (not (is_empty r)) [] cs)) ≡ r ++ join (norm_comps true [] cs)
or_dot-render _ cs single = refl
or_dot-render _ cs double = refl

-- A rooted path has a normal form: a root of one or two slashes with segments behind it.
pub normpath_rooted :
    (s : Text)
    → (r : Text) × (ts : List Text) × Root r × Segments ts × (normpath (slash ∷ s) ≡ r ++ join ts)
normpath_rooted s = (
  root_of (slash ∷ s),
  norm_comps true [] (split (slash ∷ s)),
  root_of-Root s,
  Segments-norm_comps [] (split (slash ∷ s)) (NoSlash-split (slash ∷ s)) tt,
  normpath-cons slash s ∙ or_dot-render _ (split (slash ∷ s)) (root_of-Root s),
)

ends_with-plain : (t : Text) → has_char slash t ≡ false → ends_with t slash ≡ false
unfolding ends_with has_char
ends_with-plain [] h = refl
ends_with-plain (a ∷ []) h = ground arith
ends_with-plain (a ∷ b ∷ t) h = ends_with-plain (b ∷ t) (ground arith)

ends_with-append-cons : (t u : Text) (b c : ℕ) → ends_with (t ++ (b ∷ u)) c ≡ ends_with (b ∷ u) c
unfolding ends_with
ends_with-append-cons [] u b c = refl
ends_with-append-cons (a ∷ []) u b c = refl
ends_with-append-cons (a ∷ d ∷ t) u b c = ends_with-append-cons (d ∷ t) u b c

ends_with-cons_segment :
    (t s : Text)
    → is_segment t ≡ true
    → ends_with (slash ∷ (t ++ s)) slash ≡ ends_with (t ++ s) slash
unfolding ends_with is_segment
ends_with-cons_segment [] s h = ground arith
ends_with-cons_segment (a ∷ t) s h = refl

join_cases : (t : Text) (ts : List Text) → (s : Text) × (join (t ∷ ts) ≡ t ++ s)
unfolding join
join_cases t [] = ([], sym (append-nil t))
join_cases t (u ∷ ts) = (slash ∷ join (u ∷ ts), refl)

ends_with-slash-join :
    (t : Text) (ts : List Text)
    → is_segment t ≡ true
    → ends_with (slash ∷ join (t ∷ ts)) slash ≡ ends_with (join (t ∷ ts)) slash
ends_with-slash-join t ts h = let (s, e) = join_cases t ts in rw e (ends_with-cons_segment t s h)

-- A join of segments does not end with a slash.
pub ends_with-join :
    (t : Text) (ts : List Text) → Segments (t ∷ ts) → ends_with (join (t ∷ ts)) slash ≡ false
unfolding join
ends_with-join t [] h = ends_with-plain t (has_char_of_segment t h.0)
ends_with-join t (u ∷ ts) h =
    ends_with-append-cons t (join (u ∷ ts)) slash slash
    ∙ ends_with-slash-join u ts h.1.0
    ∙ ends_with-join u ts h.1

pub ends_with-render :
    (r t : Text) (ts : List Text)
    → Root r
    → Segments (t ∷ ts)
    → ends_with (r ++ join (t ∷ ts)) slash ≡ false
unfolding ends_with
ends_with-render _ t ts single h = ends_with-slash-join t ts h.0 ∙ ends_with-join t ts h
ends_with-render _ t ts double h = ends_with-slash-join t ts h.0 ∙ ends_with-join t ts h
