-- ===== src/Permissions/Authority.antt =====
-- What clears a parked request: app/sidecar/acp/pending-permission-registry.ts.
use capisco.Prelude.{
  ℕ, ◌≡◌, refl, ap, subst, sym, ◌∙◌, not, Option, none, some, List, [], ◌∷◌, ◌++◌, map, String,
  ◌==◌, string_eq, nat_eq, if◌then◌else◌, Bool-cases, Option-cases, inl, inr, ◌⊎◌, ==_iff, All,
  All-append,
}
use capisco.Prelude.Dict.{get, delete}
use mathlib.Core.List.{append-nil, append_assoc}
use capisco.Broker.Contract.{GrantAxis, PermissionDecision}
use capisco.Permissions.{
  PendingEntry, Registry, denial, clear, emit, park, resolve_permission, fire, subscribe,
  push_parked, join, unsubscribe, publish, clear_each, deny_all,
}
use capisco.Permissions.Settlement.{
  Operation, parks, resolves, fires, subscribes, unsubscribes, publishes, denies_all, operate,
  clear-absent, clear-present, get-delete-same,
}

abbrev IsDenial : ℕ × PermissionDecision → Type 0
IsDenial z = z.1 ≡ denial

-- What was settled in between was denied.
abbrev pub Denies : List (ℕ × PermissionDecision) → List (ℕ × PermissionDecision) → Type 0
Denies old new =
    (zs : List (ℕ × PermissionDecision)) × (new ≡ old ++ zs) × All (λ z. z.1 ≡ denial) zs

same : (l : List (ℕ × PermissionDecision)) → Denies l l
same l = ([], sym (append-nil l), tt)

trans : (a b c : List (ℕ × PermissionDecision)) → Denies a b → Denies b c → Denies a c
trans a b c (xs, e, p) (ys, f, q) =
    (xs ++ ys, f ∙ ap (λ l. l ++ ys) e ∙ append_assoc a xs ys, All-append IsDenial xs ys p q)

clear-Denies : (r : Registry) (k : String) → Denies r.settled (clear r k denial).settled
clear-Denies r k = elim (Option-cases (get k r.pending)) [
  | inl e ↦
      subst (λ (x : Registry). Denies r.settled x.settled) (sym (clear-absent r k denial e))
        (same r.settled)
  | inr (x, e) ↦
      subst (λ (y : Registry). Denies r.settled y.settled) (sym (clear-present r k denial x e))
        ((x.promise, denial) ∷ [], refl, (refl, tt))
]

fire-Denies : (r : Registry) (t : ℕ) → Denies r.settled (fire r t).settled
unfolding fire
fire-Denies r t = found (get t r.timers)
  where
    found :
        (o : Option String)
        → Denies r.settled
            (elim o as (λ o. Registry) [
              | none ↦ r
              | some k ↦ clear (record r { timers = delete t r.timers }) k denial
            ]).settled
    found none = same r.settled
    found (some k) = clear-Denies (record r { timers = delete t r.timers }) k

subscribe-Denies :
    (r : Registry) (k : String) (l : ℕ) → Denies r.settled ((subscribe r k l).1).settled
unfolding subscribe
subscribe-Denies r k l = pushed (get k r.pending)
  where
    pushed : (o : Option PendingEntry) → Denies r.settled (push_parked (join r k l) l o).settled
    pushed none = same r.settled
    pushed (some e) = same r.settled

clear_each-Denies : (r : Registry) (ks : List String) → Denies r.settled (clear_each r ks).settled
unfolding clear_each
clear_each-Denies r [] = same r.settled
clear_each-Denies r (k ∷ ks) =
    trans r.settled (clear r k denial).settled _ (clear-Denies r k)
      (clear_each-Denies (clear r k denial) ks)

-- The human's answer to the request that is parked: its id is the one that was shown, and its promise
-- alone is settled, with this decision.
pub record Answers (r : Registry) (k id : String) (d : PermissionDecision) (r' : Registry)
    : Type 0 where
  pub entry : PendingEntry
  pub parked : get k r.pending ≡ some entry
  pub matching : entry.request.id ≡ id
  pub settled : r'.settled ≡ r.settled ++ (entry.promise, d) ∷ []
  pub gone : get k r'.pending ≡ none

-- What an operation may settle.
abbrev pub Settles : Registry → Operation → Registry → Type 0
Settles r (resolves k id d) r' = Answers r k id d r' ⊎ (r' ≡ r)
Settles r x r' = Denies r.settled r'.settled

resolve_permission-Answers :
    (r : Registry) (k id : String) (d : PermissionDecision)
    → Answers r k id d (resolve_permission r k id d).1 ⊎ ((resolve_permission r k id d).1 ≡ r)
unfolding resolve_permission
resolve_permission-Answers r k id d = found (get k r.pending) refl
  where
    found :
        (o : Option PendingEntry)
        → get k r.pending ≡ o
        → let x = elim o as (λ o. GrantAxis × Registry) [
          | none ↦ (GrantAxis.deny, r)
          | some e ↦ if not (e.request.id == id) then (GrantAxis.deny, r) else (d.axis, clear r k d)
        ] in
          Answers r k id d x.1 ⊎ (x.1 ≡ r)
    found none q = inr refl
    found (some e) q = elim (Bool-cases (e.request.id == id)) [
      | inr f ↦ inr (rw f refl)
      | inl f ↦ inl (
          rw f (
            subst (Answers r k id d) (sym (clear-present r k d e q)) (record {
              entry = e;
              parked = q;
              matching = (==_iff e.request.id id).0 f;
              settled = refl;
              gone = get-delete-same k r.pending;
            })))
    ]

-- Only the human's answer clears a parked request: parking, subscribing, ending a subscription,
-- relaying an event, a timeout and the teardown
-- settle promises with a denial and with nothing else, and a decision from the user interface either
-- names the id of the request that is parked for the session, settles that one promise and unparks
-- it, or changes nothing at all.
pub operate-Settles : (r : Registry) (x : Operation) → Settles r x (operate r x)
unfolding park deny_all emit unsubscribe publish
operate-Settles r (parks k q u) = clear-Denies r k
operate-Settles r (resolves k id d) = resolve_permission-Answers r k id d
operate-Settles r (fires t) = fire-Denies r t
operate-Settles r (subscribes k l) = subscribe-Denies r k l
operate-Settles r (unsubscribes k i l) = same r.settled
operate-Settles r (publishes k e) = same r.settled
operate-Settles r denies_all = clear_each-Denies r (map (λ e. e.0) r.pending)
