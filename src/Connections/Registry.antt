-- ===== src/Connections/Registry.antt =====
-- app/sidecar/registry/registry.ts. A provider is any type; `member` is `provider[method]` where that
-- is a function, which a call with its arguments may throw from. `W` is what the calls of the providers
-- read and change.
use capisco.Prelude.{
  ◌≡◌, refl, Bool, true, false, Option, none, some, String, if◌then◌else◌, ◌==◌, string_eq, nat_eq,
  arith, inl, inr, Bool-cases, ==_iff, ==_refl, ap, List, sym, ◌∙◌, ◌≢◌,
}
use Prim.Native.Char.{Char, code}
use Prim.Native.String.append
use Prim.Native.String
use Prim.Native.String.{[], ◌∷◌}
use capisco.Prelude.Dict.{Dict, get, set, has, get-set}
use capisco.Prelude.Effect.{Run, ok, err}

pub data RegistryError : Type 0 where
  already_registered malformed_method unknown_provider : String → RegistryError
  no_such_method : String → String → RegistryError
  provider_threw : String → RegistryError

-- `qualified.indexOf(".")` with the slices before and behind it.
unfoldable pub split_dot : String → Option (String × String)
split_dot [] = none
split_dot (c ∷ s) =
    let rest = split_dot s in
    if code c == b'.'
    then some ("", s)
    else elim rest [ none ↦ none | some (provider, method) ↦ some (c ∷ provider, method) ]

unfoldable pub has_dot : String → Bool
has_dot [] = false
has_dot (c ∷ s) = let rest = has_dot s in if code c == b'.' then true else rest

grow_provider :
    (c : Char) (id method : String) (o : Option (String × String))
    → o ≡ some (id, method)
    → (elim o as (λ o. Option (String × String)) [
      | none ↦ none
      | some (provider, method) ↦ some (c ∷ provider, method)
    ])
      ≡ some (c ∷ id, method)
grow_provider c id method o h = rw h refl

pub split_dot-qualified :
    (id method : String)
    → has_dot id ≡ false
    → split_dot (String.◌++◌ id (String.◌++◌ "." method)) ≡ some (id, method)
unfolding split_dot has_dot
split_dot-qualified [] method h =
    rw (append.nil (String.◌++◌ "." method), append.cons _ "" method, append.nil method) refl
split_dot-qualified (c ∷ s) method h = elim (Bool-cases (code c == b'.')) [
  | inl t ↦ absurd (cc (rw t at h))
  | inr t ↦
      rw (append.cons c s (String.◌++◌ "." method), t)
        (grow_provider c s method _ (split_dot-qualified s method (rw t at h)))
]

module _ {P V W : Type 0} (member : P → String → Option (List V → W → Run W String V)) where
  abbrev pub ProviderRegistry : Type 0
  ProviderRegistry = Dict String P

  unfoldable pub register :
      ProviderRegistry → String → P → Run ProviderRegistry RegistryError (Unit {0})
  register r id provider =
      if has id r then err (already_registered id) r else ok tt (set id provider r)

  unfoldable pub replace : ProviderRegistry → String → P → ProviderRegistry
  replace r id provider = set id provider r

  unfoldable pub call : W → String → P → String → List V → Run W RegistryError V
  call w id provider method args = elim (member provider method) [
    | none ↦ err (no_such_method id method) w
    | some f ↦ elim (f args w) [ ok v w' ↦ ok v w' | err e w' ↦ err (provider_threw e) w' ]
  ]

  -- The lookups behind the split of the name.
  abbrev route :
      ProviderRegistry → W → String → List V → Option (String × String) → Run W RegistryError V
  route r w qualified args none = err (malformed_method qualified) w
  route r w qualified args (some (id, method)) = elim (get id r) [
    | none ↦ err (unknown_provider id) w
    | some provider ↦ call w id provider method args
  ]

  unfoldable pub dispatch : ProviderRegistry → W → String → List V → Run W RegistryError V
  dispatch r w qualified args = route r w qualified args (split_dot qualified)

  -- The calls after a registration: a name with a dot goes to the new provider when the part before
  -- its first dot is the id that was registered, and where it went before otherwise.
  pub dispatch-replace :
      (r : ProviderRegistry) (id : String) (provider : P) (w : W) (qualified : String)
      (args : List V)
      → dispatch (replace r id provider) w qualified args ≡ elim (split_dot qualified) [
        | none ↦ err (malformed_method qualified) w
        | some (i, method) ↦
            if id == i then call w i provider method args else dispatch r w qualified args
      ]
  unfolding dispatch replace
  dispatch-replace r id provider w qualified args = by_split (split_dot qualified)
    where
      by_split :
          (o : Option (String × String))
          → route (set id provider r) w qualified args o ≡ (elim o as (λ o. Run W RegistryError V) [
            | none ↦ err (malformed_method qualified) w
            | some (i, method) ↦
                if id == i then call w i provider method args else route r w qualified args o
          ])
      by_split none = refl
      by_split (some (i, method)) = rw (get-set id i provider r, route) (by_id (id == i))
        where
          by_id :
              (b : Bool)
              → (elim (if◌then◌else◌ {A = Option P} b (some provider) (get i r))
                  as (λ o. Run W RegistryError V) [
                    | none ↦ err (unknown_provider i) w
                    | some p ↦ call w i p method args
                  ])
                ≡ (if◌then◌else◌ {A = Run W RegistryError V} b
                    (call w i provider method args)
                    (route r w qualified args (some (i, method))))
          by_id true = refl
          by_id false = refl

  register-set :
      (r r' : ProviderRegistry) (id : String) (provider : P) (u : Unit {0})
      → register r id provider ≡ ok u r'
      → (has id r ≡ false) × (r' ≡ replace r id provider)
  unfolding register replace
  register-set r r' id provider u h = elim (Bool-cases (has id r)) [
    | inl t ↦ absurd (cc (rw t at h))
    | inr t ↦ (t, cc (rw t at h))
  ]

  -- A registered provider answers under its id: after a `register` that does not throw, of an id
  -- without a dot, the id was free, a call of `id.method` is a call of that method of the provider with
  -- the same arguments, for every name of a method, and a call under another id without a dot is
  -- dispatched as before.
  pub register-dispatch :
      (r r' : ProviderRegistry) (id : String) (provider : P) (u : Unit {0}) (w : W) (args : List V)
      → register r id provider ≡ ok u r'
      → has_dot id ≡ false
      → (has id r ≡ false)
        × ((method : String)
            → dispatch r' w (String.◌++◌ id (String.◌++◌ "." method)) args
              ≡ call w id provider method args)
        × ((other method : String)
            → has_dot other ≡ false
            → other ≢ id
            → dispatch r' w (String.◌++◌ other (String.◌++◌ "." method)) args
              ≡ dispatch r w (String.◌++◌ other (String.◌++◌ "." method)) args)
  register-dispatch r r' id provider u w args h plain =
      let (free, same) = register-set r r' id provider u h in
      (
        free,
        λ method.
            ap (λ x. dispatch x w (String.◌++◌ id (String.◌++◌ "." method)) args) same
            ∙ dispatch-replace r id provider w (String.◌++◌ id (String.◌++◌ "." method)) args
            ∙ rw (split_dot-qualified id method plain) (rw (==_refl id) refl),
        λ other method dotless ne.
            ap (λ x. dispatch x w (String.◌++◌ other (String.◌++◌ "." method)) args) same
            ∙ dispatch-replace r id provider w (String.◌++◌ other (String.◌++◌ "." method)) args
            ∙ rw (split_dot-qualified other method dotless)
                (rw (differs id other (λ e. ne (sym e))) refl),
      )
    where
      differs : (i j : String) → i ≢ j → (i == j) ≡ false
      differs i j n = ground (arith, ==_iff i j, n)
