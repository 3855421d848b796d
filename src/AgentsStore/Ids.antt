-- ===== src/AgentsStore/Ids.antt =====
-- The ids of the sessions that app/src/shell/agents/store.ts creates.
use capisco.Prelude.{
  ◌+◌, ◌≡◌, refl, inl, inr, Bool, true, false, not, List, [], ◌∷◌, ◌++◌, String, length, any, All,
  ◌==◌, string_eq, arith, Bool-cases, ap, ◌∙◌, ==_iff, ==_refl,
}
use mathlib.Core.List.{append-nil}
use capisco.Prelude.Dict.{contains}
use capisco.Prelude.Text.{concat, decimal}
use capisco.AgentsStore.{
  Units, Session, StoreOpts, AgentsState, new_id, create_session, close_session, open_sessions,
  filter,
}

-- No session with this id.
abbrev IsFree : String → List Session → Type 0
IsFree id xs = All (λ x. (x.id == id) ≡ false) xs

filter-append :
    (p : Session → Bool) (xs ys : List Session) → filter p (xs ++ ys) ≡ filter p xs ++ filter p ys
filter-append p [] ys = refl
filter-append p (x ∷ xs) ys = elim (Bool-cases (p x)) [
  | inl t ↦ rw t (ap (λ l. x ∷ l) (filter-append p xs ys))
  | inr t ↦ rw t (filter-append p xs ys)
]

filter-free :
    (id : String) (xs : List Session) → IsFree id xs → filter (λ x. not (x.id == id)) xs ≡ xs
filter-free id [] h = refl
filter-free id (x ∷ xs) (h, hs) = rw h (ap (λ l. x ∷ l) (filter-free id xs hs))

contains-last : (id : String) (xs : List String) → contains id (xs ++ id ∷ []) ≡ true
unfolding contains
contains-last id [] = rw (==_refl id) refl
contains-last id (x ∷ xs) = ground (arith, contains-last id xs)

-- A closed id is shown nowhere.
hidden :
    (id : String) (closed : List String) (xs : List Session)
    → contains id closed ≡ true
    → any (λ x. x.id == id) (filter (λ x. not (contains x.id closed)) xs) ≡ false
hidden id closed [] h = refl
hidden id closed (x ∷ xs) h = elim (Bool-cases (contains x.id closed)) [
  | inl t ↦ rw t (hidden id closed xs h)
  | inr t ↦ ground (arith, t, hidden id closed xs h, ==_iff x.id id, ap (λ i. contains i closed), h)
]

any-last :
    (id : String) (xs : List Session) (x : Session)
    → (x.id == id) ≡ true
    → any (λ y. y.id == id) (xs ++ x ∷ []) ≡ true
any-last id [] x h = rw h refl
any-last id (y ∷ xs) x h = ground (arith, any-last id xs x h)

module _ (opts : StoreOpts) (s : AgentsState) (m m' : Units) where
  closed_again : AgentsState
  closed_again = close_session opts (create_session opts s m) (new_id s)

  same_extra : IsFree (new_id s) s.extra → closed_again.extra ≡ s.extra
  unfolding closed_again close_session create_session
  same_extra h =
      filter-append (λ x. not (x.id == new_id s)) s.extra _
      ∙ ap (λ l. filter (λ x. not (x.id == new_id s)) s.extra ++ l) (rw (==_refl (new_id s)) refl)
      ∙ append-nil _
      ∙ filter-free (new_id s) s.extra h

  same_id : IsFree (new_id s) s.extra → new_id closed_again ≡ new_id s
  unfolding new_id
  same_id h = ap (λ l. concat ("n" ∷ decimal (length l + 1) ∷ [])) (same_extra h)

  id_closed : contains (new_id s) closed_again.closed ≡ true
  unfolding closed_again close_session create_session
  id_closed = elim (Bool-cases (contains (new_id s) s.closed)) [
    | inl t ↦ rw t t
    | inr t ↦ rw t (contains-last (new_id s) s.closed)
  ]

  -- A session that takes the place of a closed one cannot be seen: where the id of the next session is
  -- free, creating a session, closing it and creating another gives the second one the closed id; it is
  -- active and stored, but no session with its id is among those that the workspace shows.
  pub create_session-hidden :
      IsFree (new_id s) s.extra
      → (let c = create_session opts (close_session opts (create_session opts s m) (new_id s)) m' in
          (c.active_id ≡ new_id s)
          × (any (λ x. x.id == new_id s) c.extra ≡ true)
          × (any (λ x. x.id == new_id s) (open_sessions opts c) ≡ false))
  unfolding create_session closed_again open_sessions
  create_session-hidden h = (
    same_id h,
    any-last (new_id s) closed_again.extra _
        ((==_iff (new_id closed_again) (new_id s)).1 (same_id h)),
    hidden (new_id s) closed_again.closed _ id_closed,
  )
