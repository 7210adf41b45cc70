-- ===== src/Exec/Invariants.antt =====
-- Predicates of a state that actions leave true, whether they return or raise.
use ai_vfs.Base.{Bool, true, false, if◌then◌else◌}
use ai_vfs.Errors.{Error, Result, ok, err}
use ai_vfs.Exec.{Exec, pure, raise, lift, gets, modify, guard, continue, ◌>>=◌}

pub record Preserves {S A : Type 0} (P : S → Type 0) (m : Exec S A) : Type 0 where
  pub after : (s : S) → P s → P (m s).1

module _ {S : Type 0} {P : S → Type 0} where
  pub Preserves-gets : {A : Type 0} (f : S → A) → Preserves P (gets f)
  Preserves-gets f = record { after = λ s h. h }

  pub Preserves-pure : {A : Type 0} (a : A) → Preserves P (pure a)
  Preserves-pure a = record { after = λ s h. h }

  pub Preserves-raise : {A : Type 0} (e : Error) → Preserves P (raise {A = A} e)
  Preserves-raise e = record { after = λ s h. h }

  pub Preserves-lift : {A : Type 0} (r : Result A) → Preserves P (lift r)
  Preserves-lift r = record { after = λ s h. h }

  pub Preserves-modify : (f : S → S) → ((s : S) → P s → P (f s)) → Preserves P (modify f)
  Preserves-modify f kept = record { after = kept }

  pub Preserves-guard : (b : Bool) (e : Error) → Preserves P (guard b e)
  Preserves-guard true e = record { after = λ s h. h }
  Preserves-guard false e = record { after = λ s h. h }

  continue_after :
      {A B : Type 0} (r : Result A) (f : A → Exec S B)
      → ((a : A) → Preserves P (f a))
      → (s : S) → P s
      → P (continue r f s).1
  continue_after (ok a) f rest s h = (rest a).after s h
  continue_after (err e) f rest s h = h

  pub Preserves-bind :
      {A B : Type 0} (m : Exec S A) (f : A → Exec S B)
      → Preserves P m
      → ((a : A) → Preserves P (f a))
      → Preserves P (m >>= f)
  Preserves-bind m f first rest = record {
    after = λ s h. continue_after (m s).0 f rest (m s).1 (first.after s h);
  }

  pub Preserves-if :
      {A : Type 0} (b : Bool) (m n : Exec S A)
      → Preserves P m
      → Preserves P n
      → Preserves P (if b then m else n)
  Preserves-if true m n km kn = km
  Preserves-if false m n km kn = kn

pub ruleset invariant_rules = (
  Preserves-gets, Preserves-pure, Preserves-raise, Preserves-lift, Preserves-guard, Preserves-bind,
  Preserves-if,
)
