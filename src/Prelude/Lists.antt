-- ===== src/Prelude/Lists.antt =====
-- Lists with lengths in the native numbers, and predicates on every element.
use Prim.Native.Nat.{ℕ, zero, suc, ◌+◌}
use mathlib.Core.Path.{◌≡◌, refl}
use mathlib.Core.Logic.{◌⊎◌, inl, inr}
use mathlib.Core.Bool.{Bool, true, false, ◌||◌}
use mathlib.Core.Option.{Option, none, some}
use mathlib.Core.List.{List, [], ◌∷◌, ◌++◌}
use native.Mathlib.Omega.{arith}

module _ {ℓ} {A : Type ℓ} where
  abbrev pub length : List A → ℕ
  length [] = 0
  length (x ∷ xs) = suc (length xs)

  pub length-append : (xs ys : List A) → length (xs ++ ys) ≡ length xs + length ys
  length-append [] ys = omega arith
  length-append (x ∷ xs) ys = omega (arith, length-append xs ys)

  -- JavaScript's `find`, `some` and `every`.
  abbrev pub find : (A → Bool) → List A → Option A
  find p [] = none
  find p (x ∷ xs) = elim (p x) [ true ↦ some x | false ↦ find p xs ]

  abbrev pub any : (A → Bool) → List A → Bool
  any p [] = false
  any p (x ∷ xs) = p x || any p xs

module _ {ℓ κ} {A : Type ℓ} (P : A → Type κ) where
  abbrev pub All : List A → Type κ
  All [] = Unit
  All (x ∷ xs) = P x × All xs

  pub All-append : (xs ys : List A) → All xs → All ys → All (xs ++ ys)
  All-append [] ys hx hy = hy
  All-append (x ∷ xs) ys hx hy = (hx.0, All-append xs ys hx.1 hy)

abbrev pub drop {ℓ} : {A : Type ℓ} → ℕ → List A → List A
drop zero xs = xs
drop (suc n) [] = []
drop (suc n) (x ∷ xs) = drop n xs

abbrev pub take {ℓ} : {A : Type ℓ} → ℕ → List A → List A
take zero xs = []
take (suc n) [] = []
take (suc n) (x ∷ xs) = x ∷ take n xs

-- `ys` is what `xs` became by appending.
abbrev pub Extends {ℓ} : {A : Type ℓ} → List A → List A → Type ℓ
Extends {A} xs ys = (zs : List A) × (ys ≡ xs ++ zs)

abbrev pub In : {A : Type 0} → A → List A → Type 0
In x [] = ⊥
In x (y ∷ ys) = (x ≡ y) ⊎ In x ys

module _ {A : Type 0} where
  pub In-append_left : (x : A) (xs ys : List A) → In x xs → In x (xs ++ ys)
  In-append_left x (z ∷ xs) ys (inl e) = inl e
  In-append_left x (z ∷ xs) ys (inr h) = inr (In-append_left x xs ys h)
  In-append_left x [] ys h = absurd h

  pub In-append_last : (x : A) (xs : List A) → In x (xs ++ x ∷ [])
  In-append_last x [] = inl refl
  In-append_last x (z ∷ xs) = inr (In-append_last x xs)

  -- An element of a list that has grown by one.
  pub In-cases_last : (x y : A) (xs : List A) → In x (xs ++ y ∷ []) → In x xs ⊎ (x ≡ y)
  In-cases_last x y [] (inl e) = inr e
  In-cases_last x y [] (inr h) = absurd h
  In-cases_last x y (z ∷ xs) (inl e) = inl (inl e)
  In-cases_last x y (z ∷ xs) (inr h) = elim (In-cases_last x y xs h) [
    | inl i ↦ inl (inr i)
    | inr e ↦ inr e
  ]

  -- Removing an element leaves elements of the list.
  pub In-without : (x y : A) (xs ys : List A) → In x (xs ++ ys) → In x (xs ++ y ∷ ys)
  In-without x y [] ys h = inr h
  In-without x y (z ∷ xs) ys (inl e) = inl e
  In-without x y (z ∷ xs) ys (inr h) = inr (In-without x y xs ys h)

  pub In-middle : (y : A) (xs ys : List A) → In y (xs ++ y ∷ ys)
  In-middle y [] ys = inl refl
  In-middle y (z ∷ xs) ys = inr (In-middle y xs ys)

  pub In-append_right : (x : A) (xs ys : List A) → In x ys → In x (xs ++ ys)
  In-append_right x [] ys h = h
  In-append_right x (z ∷ xs) ys h = inr (In-append_right x xs ys h)

  pub In-append_cases : (x : A) (xs ys : List A) → In x (xs ++ ys) → In x xs ⊎ In x ys
  In-append_cases x [] ys h = inr h
  In-append_cases x (z ∷ xs) ys (inl e) = inl (inl e)
  In-append_cases x (z ∷ xs) ys (inr h) = elim (In-append_cases x xs ys h) [
    | inl i ↦ inl (inr i)
    | inr i ↦ inr i
  ]

  pub In-swap : (x y z : A) (xs : List A) → In x (y ∷ z ∷ xs) → In x (z ∷ y ∷ xs)
  In-swap x y z xs (inl e) = inr (inl e)
  In-swap x y z xs (inr (inl e)) = inl e
  In-swap x y z xs (inr (inr h)) = inr (inr h)

  pub In-under : (x y : A) (xs ys : List A) → (In x xs → In x ys) → In x (y ∷ xs) → In x (y ∷ ys)
  In-under x y xs ys f (inl e) = inl e
  In-under x y xs ys f (inr h) = inr (f h)
