-- ===== src/Prelude/Promises.antt =====
-- Promises as numbers: a table of those that wait, a log of those that were settled, and how often a
-- promise stands in each.
use Prim.Native.Nat.{ℕ, ◌+◌}
use mathlib.Core.Path.{◌≡◌, refl, ap, subst}
use mathlib.Core.Logic.{inl, inr}
use mathlib.Core.Option.{none, some}
use mathlib.Core.List.{List, [], ◌∷◌, ◌++◌, map}
use native.Mathlib.Omega.{arith}
use capisco.Prelude.Tests.{if◌then◌else◌, Bool-cases}
use capisco.Prelude.Equality.{Eq, ◌==◌, nat_eq, ==_iff}
use capisco.Prelude.Dict.{Dict, get, set, delete, IsDict}

abbrev pub one : ℕ → ℕ → ℕ
one n m = if n == m then 1 else 0

some-injective : {V : Type 0} {a b : V} → some a ≡ some b → a ≡ b
some-injective {V} {a} {b} e = cc e

module _ {A : Type 0} where
  abbrev pub answers : ℕ → List (ℕ × A) → ℕ
  answers n [] = 0
  answers n ((m, d) ∷ l) = one n m + answers n l

  pub answers-append : (n : ℕ) (l k : List (ℕ × A)) → answers n (l ++ k) ≡ answers n l + answers n k
  answers-append n [] k = omega arith
  answers-append n ((i, x) ∷ l) k = omega (arith, answers-append n l k)

module _ {K V : Type 0} ⦃e : Eq K⦄ (promise : V → ℕ) where
  abbrev pub waiting : ℕ → Dict K V → ℕ
  waiting n [] = 0
  waiting n ((k, v) ∷ m) = one n (promise v) + waiting n m

  pub waiting-set :
      (n : ℕ) (k : K) (v : V) (m : Dict K V)
      → get k m ≡ none
      → waiting n (set k v m) ≡ waiting n m + one n (promise v)
  unfolding get set
  waiting-set n k v [] h = omega arith
  waiting-set n k v ((j, x) ∷ m) h = elim (Bool-cases (j == k)) [
    | inl t ↦ absurd (cc (rw t at h))
    | inr t ↦ rw t (omega (arith, waiting-set n k v m (rw t at h)))
  ]

  pub delete-absent : (k : K) (m : Dict K V) → get k m ≡ none → delete k m ≡ m
  unfolding get delete
  delete-absent k [] h = refl
  delete-absent k ((j, x) ∷ m) h = elim (Bool-cases (j == k)) [
    | inl t ↦ absurd (cc (rw t at h))
    | inr t ↦ rw t (ap (λ l. (j, x) ∷ l) (delete-absent k m (rw t at h)))
  ]

  pub waiting-delete :
      (n : ℕ) (k : K) (v : V) (m : Dict K V)
      → IsDict m
      → get k m ≡ some v
      → waiting n m ≡ waiting n (delete k m) + one n (promise v)
  unfolding get delete
  waiting-delete n k v [] d h = absurd (cc h)
  waiting-delete n k v ((j, x) ∷ m) d h = elim (Bool-cases (j == k)) [
    | inl t ↦ rw t (
        omega (
          arith,
          ap (waiting n) (delete-absent k m (subst (λ i. get i m ≡ none) ((==_iff j k).0 t) d.0)),
          ap (λ y. one n (promise y)) (some-injective (rw t at h)),
        ))
    | inr t ↦ rw t (omega (arith, waiting-delete n k v m d.1 (rw t at h)))
  ]

  -- Settling all that wait.
  pub answers-map :
      {A : Type 0} (n : ℕ) (a : A) (m : Dict K V)
      → answers n (map (λ (x : K × V). (promise x.1, a)) m) ≡ waiting n m
  answers-map n a [] = refl
  answers-map n a ((k, v) ∷ m) = omega (arith, answers-map n a m)
