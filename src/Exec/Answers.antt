-- ===== src/Exec/Answers.antt =====
-- What an action answers when it returns, whatever the state.
use ai_vfs.Base.{◌≡◌, refl, subst}
use ai_vfs.Errors.{Error, Result, ok, err}
use ai_vfs.Exec.{Exec, pure, lift, continue, ◌>>=◌}

-- Every value that `m` returns satisfies `Q`.
pub record Answers {S A : Type 0} (Q : A → Type 0) (m : Exec S A) : Type 0 where
  pub answered : (s : S) (a : A) → (m s).0 ≡ ok a → Q a

module _ {S A : Type 0} {Q : A → Type 0} where
  pub Answers-pure : (a : A) → Q a → Answers {S = S} Q (pure a)
  Answers-pure a q = record { answered = λ s b e. subst Q (ok_injective e) q }
    where
      ok_injective : {a b : A} → ok a ≡ ok b → a ≡ b
      ok_injective e = cc e

  continue_answers :
      {B : Type 0} (r : Result B) (f : B → Exec S A)
      → ((b : B) → Answers Q (f b))
      → (s : S) (a : A) → (continue r f s).0 ≡ ok a
      → Q a
  continue_answers (ok b) f rest s a e = (rest b).answered s a e
  continue_answers (err x) f rest s a e = cc e

  -- Only the last action of a block counts.
  pub Answers-bind :
      {B : Type 0} (m : Exec S B) (f : B → Exec S A)
      → ((b : B) → Answers Q (f b))
      → Answers Q (m >>= f)
  Answers-bind m f rest = record { answered = λ s a e. continue_answers (m s).0 f rest (m s).1 a e }

module _ {S A B : Type 0} {Q : A → Type 0} where
  continue_after :
      (r : Result B) (f : B → Exec S A)
      → ((b : B) → r ≡ ok b → Answers Q (f b))
      → (s : S) (a : A) → (continue r f s).0 ≡ ok a
      → Q a
  continue_after (ok b) f rest s a e = (rest b refl).answered s a e
  continue_after (err x) f rest s a e = cc e

  -- The rest of the block may use what the first action answers.
  pub Answers-after :
      {R : B → Type 0} (m : Exec S B) (f : B → Exec S A)
      → Answers R m
      → ((b : B) → R b → Answers Q (f b))
      → Answers Q (m >>= f)
  Answers-after m f first rest = record {
    answered = λ s a e. continue_after (m s).0 f (λ b q. rest b (first.answered s b q)) (m s).1 a e;
  }

-- `Q` holds of the value, if there is one.
abbrev pub OnReturn : {A : Type 0} → (A → Type 0) → Result A → Type 0
OnReturn Q (ok a) = Q a
OnReturn Q (err e) = Unit {0}

OnReturn-of :
    {A : Type 0} (Q : A → Type 0) (r : Result A) → ((a : A) → r ≡ ok a → Q a) → OnReturn Q r
OnReturn-of Q (ok a) h = h a refl
OnReturn-of Q (err e) h = tt

pub Answers-OnReturn :
    {S A : Type 0} (Q : A → Type 0) (m : Exec S A) → Answers Q m → (s : S) → OnReturn Q (m s).0
Answers-OnReturn Q m h s = OnReturn-of Q (m s).0 (h.answered s)

-- Every error that `m` raises satisfies `Q`.
pub record Raises {S A : Type 0} (Q : Error → Type 0) (m : Exec S A) : Type 0 where
  pub raised : (s : S) (e : Error) → (m s).0 ≡ err e → Q e

-- What every return of `m` leaves, with the value returned.
pub record Leaves {S A : Type 0} (Q : A → S → Type 0) (m : Exec S A) : Type 0 where
  pub left : (s : S) (a : A) → (m s).0 ≡ ok a → Q a (m s).1

module _ {S A : Type 0} {Q : Error → Type 0} where
  pub Raises-pure : (a : A) → Raises {S = S} Q (pure a)
  Raises-pure a = record { raised = λ s e h. cc h }

  pub Raises-lift : (r : Result A) → ((e : Error) → r ≡ err e → Q e) → Raises {S = S} Q (lift r)
  Raises-lift r q = record { raised = λ s e h. q e h }

  continue_raises :
      {B : Type 0} (r : Result B) (f : B → Exec S A)
      → ((e : Error) → r ≡ err e → Q e)
      → ((b : B) → Raises Q (f b))
      → (s : S) (e : Error) → (continue r f s).0 ≡ err e
      → Q e
  continue_raises (ok b) f first rest s e h = (rest b).raised s e h
  continue_raises {B = B} (err x) f first rest s e h = first e (same h)
    where
      same : {x : Error} → Path (Result A) (err x) (err e) → Path (Result B) (err x) (err e)
      same h = cc h

  pub Raises-bind :
      {B : Type 0} (m : Exec S B) (f : B → Exec S A)
      → Raises Q m
      → ((b : B) → Raises Q (f b))
      → Raises Q (m >>= f)
  Raises-bind m f first rest = record {
    raised = λ s e h. continue_raises (m s).0 f (first.raised s) rest (m s).1 e h;
  }

module _ {S A : Type 0} {Q : A → S → Type 0} where
  continue_leaves :
      {B : Type 0} (r : Result B) (f : B → Exec S A)
      → ((b : B) → Leaves Q (f b))
      → (s : S) (a : A) → (continue r f s).0 ≡ ok a
      → Q a (continue r f s).1
  continue_leaves (ok b) f rest s a e = (rest b).left s a e
  continue_leaves (err x) f rest s a e = cc e

  pub Leaves-bind :
      {B : Type 0} (m : Exec S B) (f : B → Exec S A)
      → ((b : B) → Leaves Q (f b))
      → Leaves Q (m >>= f)
  Leaves-bind m f rest = record { left = λ s a e. continue_leaves (m s).0 f rest (m s).1 a e }
