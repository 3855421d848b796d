-- ===== src/Prelude/Dict.antt =====
-- JavaScript's `Map` as an association list in insertion order, and `Set` as a list.
use Prim.Native.Nat.{◌+◌, ◌≤◌}
use mathlib.Core.Path.{◌≡◌, refl, ap}
use mathlib.Core.Logic.{◌≢◌}
use mathlib.Core.Bool.{Bool, false, ◌||◌}
use mathlib.Core.Option.{Option, none, some}
use mathlib.Core.List.{List, [], ◌∷◌}
use native.Mathlib.Omega.{arith}
use capisco.Prelude.Tests.{if◌then◌else◌, is_some}
use capisco.Prelude.Equality.{Eq, ◌==◌}
use capisco.Prelude.Lists.{length}

abbrev pub Dict {ℓ} : Type ℓ → Type ℓ → Type ℓ
Dict K V = List (K × V)

module _ {ℓ} {K V : Type ℓ} ⦃e : Eq K⦄ where
  unfoldable pub get : K → Dict K V → Option V
  get k [] = none
  get k ((j, v) ∷ m) = if j == k then some v else get k m

  -- An entry that is there keeps its place, and a new one goes to the end.
  unfoldable pub set : K → V → Dict K V → Dict K V
  set k v [] = (k, v) ∷ []
  set k v ((j, w) ∷ m) = if j == k then (j, v) ∷ m else (j, w) ∷ set k v m

  unfoldable pub delete : K → Dict K V → Dict K V
  delete k [] = []
  delete k ((j, w) ∷ m) = let rest = delete k m in if j == k then rest else (j, w) ∷ rest

  abbrev pub has : K → Dict K V → Bool
  has k m = is_some (get k m)

  pub get-set :
      (k j : K) (v : V) (m : Dict K V) → get j (set k v m) ≡ (if k == j then some v else get j m)
  unfolding get set
  get-set k j v [] = refl
  get-set k j v ((i, w) ∷ m) =
      ground (arith, e.beq_iff k j, e.beq_iff i k, e.beq_iff i j, get-set k j v m)

  pub get-set-same : (k : K) (v : V) (m : Dict K V) → get k (set k v m) ≡ some v
  get-set-same k v m = ground (arith, get-set k k v m, e.beq_iff k k)

  pub get-set-other : (k j : K) (v : V) (m : Dict K V) → k ≢ j → get j (set k v m) ≡ get j m
  get-set-other k j v m ne = ground (arith, get-set k j v m, e.beq_iff k j, ne)

  pub get-differs : (k j : K) (v : V) (m : Dict K V) → get k m ≡ some v → get j m ≡ none → j ≢ k
  get-differs k j v m h f q = ground (arith, h, f, ap (λ i. get i m) q)

  pub get-delete :
      (k j : K) (m : Dict K V) → get j (delete k m) ≡ (if k == j then none else get j m)
  unfolding get delete
  get-delete k j [] = ground arith
  get-delete k j ((i, w) ∷ m) =
      ground (arith, e.beq_iff k j, e.beq_iff i k, e.beq_iff i j, get-delete k j m)

  pub length-set : (k : K) (v : V) (m : Dict K V) → length (set k v m) ≤ length m + 1
  unfolding set
  length-set k v [] = omega arith
  length-set k v ((i, w) ∷ m) = ground (arith, length-set k v m)

  pub length-delete : (k : K) (m : Dict K V) → length (delete k m) ≤ length m
  unfolding delete
  length-delete k [] = omega arith
  length-delete k ((i, w) ∷ m) = ground (arith, length-delete k m)

  -- No two entries share a key.
  abbrev pub IsDict : Dict K V → Type ℓ
  IsDict [] = Unit
  IsDict ((k, v) ∷ m) = (get k m ≡ none) × IsDict m

  pub set-IsDict : (k : K) (v : V) (m : Dict K V) → IsDict m → IsDict (set k v m)
  unfolding get set
  set-IsDict k v [] h = (refl, tt)
  set-IsDict k v ((j, w) ∷ m) h =
      ground (arith, e.beq_iff j k, e.beq_iff k j, get-set k j v m, set-IsDict k v m h.1)

  pub delete-IsDict : (k : K) (m : Dict K V) → IsDict m → IsDict (delete k m)
  unfolding get delete
  delete-IsDict k [] h = tt
  delete-IsDict k ((j, w) ∷ m) h = ground (arith, get-delete k j m, delete-IsDict k m h.1)

module _ {ℓ} {K : Type ℓ} ⦃e : Eq K⦄ where
  unfoldable pub contains : K → List K → Bool
  contains k [] = false
  contains k (x ∷ xs) = x == k || contains k xs

  unfoldable pub add : K → List K → List K
  add k [] = k ∷ []
  add k (x ∷ xs) = if x == k then x ∷ xs else x ∷ add k xs

  unfoldable pub remove : K → List K → List K
  remove k [] = []
  remove k (x ∷ xs) = let rest = remove k xs in if x == k then rest else x ∷ rest

  pub contains-add : (k j : K) (xs : List K) → contains j (add k xs) ≡ (k == j || contains j xs)
  unfolding contains add
  contains-add k j [] = refl
  contains-add k j (x ∷ xs) =
      ground (arith, e.beq_iff k j, e.beq_iff x k, e.beq_iff x j, contains-add k j xs)

  pub contains-remove :
      (k j : K) (xs : List K) → contains j (remove k xs) ≡ (if k == j then false else contains j xs)
  unfolding contains remove
  contains-remove k j [] = ground arith
  contains-remove k j (x ∷ xs) =
      ground (arith, e.beq_iff k j, e.beq_iff x k, e.beq_iff x j, contains-remove k j xs)
