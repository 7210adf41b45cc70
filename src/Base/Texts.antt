-- ===== src/Base/Texts.antt =====
-- Texts as lists of code points. The program's strings (paths, identifiers, hashes) and its
-- `bytes` are values of this type.
use Prim.Native.Nat.{ℕ, ◌≤◌}
use Prim.Native.Char.{code}
use Prim.Native.String.{String}
use mathlib.Core.Path.{◌≡◌, refl, sym, subst, ap, ap₂}
use mathlib.Core.Bool.{Bool, true, false, ◌&&◌, ◌||◌}
use mathlib.Core.Logic.{◌↔◌}
use mathlib.Core.List.{List, [], ◌∷◌, ◌++◌}
use native.Mathlib.Omega.{arith}
use ai_vfs.Base.Tests.{◌==◌, ==_iff}
use ai_vfs.Base.Lists.{length}

abbrev pub Text : Type 0
Text = List ℕ

-- A text literal.
abbrev pub codes : String → Text
codes String.[] = []
codes (String.◌∷◌ c s) = code c ∷ codes s

-- `a == b` on strings.
unfoldable pub text_eq : Text → Text → Bool
text_eq [] [] = true
text_eq (a ∷ s) (b ∷ t) = a == b && text_eq s t
text_eq _ _ = false

pub text_eq_sound : (s t : Text) → text_eq s t ≡ true → s ≡ t
unfolding text_eq
text_eq_sound [] [] h = refl
text_eq_sound [] (b ∷ t) h = ground arith
text_eq_sound (a ∷ s) [] h = ground arith
text_eq_sound (a ∷ s) (b ∷ t) h = ground (arith, text_eq_sound s t)

pub text_eq_refl : (s : Text) → text_eq s s ≡ true
unfolding text_eq
text_eq_refl [] = refl
text_eq_refl (a ∷ s) = ground (arith, text_eq_refl s)

pub text_eq_complete : (s t : Text) → s ≡ t → text_eq s t ≡ true
text_eq_complete s t h = subst (λ u. text_eq s u ≡ true) h (text_eq_refl s)

pub text_eq_iff : (s t : Text) → (text_eq s t ≡ true) ↔ (s ≡ t)
text_eq_iff s t = (text_eq_sound s t, text_eq_complete s t)

-- `s.startswith(p)`
unfoldable pub starts_with : Text → Text → Bool
starts_with s [] = true
starts_with [] (a ∷ p) = false
starts_with (b ∷ s) (a ∷ p) = a == b && starts_with s p

-- `s.endswith(c)` for a single character.
unfoldable pub ends_with : Text → ℕ → Bool
ends_with [] c = false
ends_with (a ∷ []) c = a == c
ends_with (a ∷ b ∷ s) c = ends_with (b ∷ s) c

-- `s[:-1]`
unfoldable pub drop_last : Text → Text
drop_last [] = []
drop_last (a ∷ []) = []
drop_last (a ∷ b ∷ s) = a ∷ drop_last (b ∷ s)

-- `c in s` for a single character.
unfoldable pub has_char : ℕ → Text → Bool
has_char c [] = false
has_char c (a ∷ s) = a == c || has_char c s

pub starts_with-append : (p s : Text) → starts_with (p ++ s) p ≡ true
unfolding starts_with
starts_with-append [] s = refl
starts_with-append (a ∷ p) s = ground (arith, starts_with-append p s)

-- A text with a prefix is that prefix and a rest.
pub starts_with_split : (s p : Text) → starts_with s p ≡ true → (rest : Text) × (s ≡ p ++ rest)
unfolding starts_with
starts_with_split s [] h = (s, refl)
starts_with_split [] (a ∷ p) h = ground arith
starts_with_split (b ∷ s) (a ∷ p) h =
    let (rest, e) = starts_with_split s p (ground arith) in
    let q : a ≡ b = (==_iff a b).0 (ground arith) in (rest, ap₂ (λ x y. x ∷ y) (sym q) e)

pub starts_with-length : (s p : Text) → starts_with s p ≡ true → length p ≤ length s
unfolding starts_with
starts_with-length s [] h = omega arith
starts_with-length [] (a ∷ p) h = ground arith
starts_with-length (b ∷ s) (a ∷ p) h = omega (arith, starts_with-length s p (ground arith))

pub ends_with-append : (s : Text) (c : ℕ) → ends_with (s ++ (c ∷ [])) c ≡ true
unfolding ends_with
ends_with-append [] c = ground arith
ends_with-append (a ∷ []) c = ground arith
ends_with-append (a ∷ b ∷ s) c = ends_with-append (b ∷ s) c

pub drop_last-append : (s : Text) (c : ℕ) → drop_last (s ++ (c ∷ [])) ≡ s
unfolding drop_last
drop_last-append [] c = refl
drop_last-append (a ∷ []) c = refl
drop_last-append (a ∷ b ∷ s) c = ap (λ t. a ∷ t) (drop_last-append (b ∷ s) c)

pub drop_last_split :
    (a : ℕ) (s : Text) (c : ℕ) → ends_with (a ∷ s) c ≡ true → drop_last (a ∷ s) ++ (c ∷ []) ≡ a ∷ s
unfolding ends_with drop_last
drop_last_split a [] c h = ap (λ x. x ∷ []) (sym ((==_iff a c).0 h))
drop_last_split a (b ∷ s) c h = ap (λ t. a ∷ t) (drop_last_split b s c h)
