-- ===== src/Prelude/Effect.antt =====
-- Stateful code that may throw. A throw keeps the changes made before it, as in JavaScript.
use mathlib.Core.Path.{◌≡◌, refl}
use mathlib.Core.Option.{Option, none, some}

pub data Run {ℓ} (S E A : Type ℓ) : Type ℓ where
  ok : A → S → Run S E A
  err : E → S → Run S E A

module _ {ℓ} {S E : Type ℓ} where
  abbrev pub state : {A : Type ℓ} → Run S E A → S
  state (ok a s) = s
  state (err e s) = s

  -- A test whose outcome is known.
  pub after_ok :
      {A B : Type ℓ} (fail : E → S → B) (next : A → S → B) (x : Run S E A) (a : A) (s : S)
      → x ≡ ok a s
      → elim x as (λ x. B) [ err e t ↦ fail e t | ok b t ↦ next b t ] ≡ next a s
  after_ok fail next x a s h = rw h refl

pub after_some {ℓ} :
    {A B : Type ℓ} (fail : B) (next : A → B) (o : Option A) (a : A)
    → o ≡ some a
    → elim o as (λ o. B) [ none ↦ fail | some b ↦ next b ] ≡ next a
after_some fail next o a h = rw h refl
