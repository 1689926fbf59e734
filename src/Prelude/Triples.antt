-- ===== src/Prelude/Triples.antt =====
-- What an action makes of a state that has a property: `Q` of its result and `R` of what it raises.
use mathlib.Core.Path.{◌≡◌, refl, subst}
use mathlib.Core.Bool.{Bool, true, false}
use supersonic.Prelude.Tests.{if◌then◌else◌}
use supersonic.Prelude.Actions.{Result, ok, raise, Exec, ◌>>=◌, continue}

module _ {E S : Type 0} where
  abbrev pub Ends : {A : Type 0} → (A → S → Type 0) → (E → S → Type 0) → Result E A × S → Type 0
  Ends Q R (ok a, s) = Q a s
  Ends Q R (raise e, s) = R e s

  abbrev pub Triple :
      {A : Type 0} → (S → Type 0) → Exec E S A → (A → S → Type 0) → (E → S → Type 0) → Type 0
  Triple P m Q R = (s : S) → P s → Ends Q R (m s)

module _ {E S A B : Type 0} where
  pub Ends-continue :
      (r : Result E A × S) (f : A → Exec E S B) (Q : A → S → Type 0) (T : B → S → Type 0)
      (R : E → S → Type 0)
      → Ends Q R r
      → ((a : A) → Triple (Q a) (f a) T R)
      → Ends T R (continue r.0 f r.1)
  Ends-continue (ok a, s) f Q T R h k = k a s h
  Ends-continue (raise e, s) f Q T R h k = h

  pub Triple-bind :
      (P : S → Type 0) (m : Exec E S A) (f : A → Exec E S B) (Q : A → S → Type 0)
      (T : B → S → Type 0) (R : E → S → Type 0)
      → Triple P m Q R
      → ((a : A) → Triple (Q a) (f a) T R)
      → Triple P (m >>= f) T R
  Triple-bind P m f Q T R h k s p = Ends-continue (m s) f Q T R (h s p) k

pub ok_injective : {E A : Type 0} {a b : A} → Path (Result E A) (ok a) (ok b) → a ≡ b
ok_injective h = cc

module _ {E S A : Type 0} where
  -- What the triple says of a run that is known to have returned.
  pub Ends-ok :
      (Q : A → S → Type 0) (R : E → S → Type 0) (r : Result E A × S) (a : A)
      → Ends Q R r
      → r.0 ≡ ok a
      → Q a r.1
  Ends-ok Q R (ok b, s) a h e = subst (λ x. Q x s) (ok_injective e) h
  Ends-ok Q R (raise x, s) a h e = cc

  pub Ends-cases :
      (Q : A → S → Type 0) (R : E → S → Type 0) (r : Result E A × S)
      → ((a : A) → r.0 ≡ ok a → Q a r.1)
      → ((e : E) → r.0 ≡ raise e → R e r.1)
      → Ends Q R r
  Ends-cases Q R (ok a, s) f g = f a refl
  Ends-cases Q R (raise e, s) f g = g e refl

  pub Ends-weaken :
      (Q Q' : A → S → Type 0) (R R' : E → S → Type 0) (r : Result E A × S)
      → Ends Q R r
      → ((a : A) (s : S) → Q a s → Q' a s)
      → ((e : E) (s : S) → R e s → R' e s)
      → Ends Q' R' r
  Ends-weaken Q Q' R R' (ok a, s) h f g = f a s h
  Ends-weaken Q Q' R R' (raise e, s) h f g = g e s h

  pub Triple-if :
      (P : S → Type 0) (b : Bool) (m n : Exec E S A) (Q : A → S → Type 0) (R : E → S → Type 0)
      → Triple P m Q R
      → Triple P n Q R
      → Triple P (if b then m else n) Q R
  Triple-if P true m n Q R h k = h
  Triple-if P false m n Q R h k = k
