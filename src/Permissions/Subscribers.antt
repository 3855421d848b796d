-- ===== src/Permissions/Subscribers.antt =====
-- Who hears the events of a session: subscriptions of app/sidecar/acp/pending-permission-registry.ts.
use capisco.Prelude.{
  ℕ, suc, ◌≡◌, refl, ap, sym, subst, ◌∙◌, Option, none, some, List, [], ◌∷◌, String, string_eq,
  nat_eq, get_or, arith, ==_refl,
}
use capisco.Prelude.Dict.{
  Dict, add, get-delete, get, set, delete, remove, get-set-same, get-set-other,
}
use capisco.Permissions.{
  PendingEntry, Registry, audience, subscribe, set_of, join, push_parked, unsubscribe,
}

-- What the first subscription of a session changes of the sets.
record IsFirst (r : Registry) (k : String) (l : ℕ) (a : Registry) : Type 0 where
  listeners : a.listeners ≡ set k r.next_set r.listeners
  sets : a.sets ≡ set r.next_set (l ∷ []) r.sets
  next : a.next_set ≡ suc r.next_set

push_parked-IsFirst :
    (r a : Registry) (k : String) (l : ℕ) (o : Option PendingEntry)
    → IsFirst r k l a
    → IsFirst r k l (push_parked a l o)
push_parked-IsFirst r a k l none h = h
push_parked-IsFirst r a k l (some e) h = record {
  listeners = h.listeners;
  sets = h.sets;
  next = h.next;
}

-- A session without listeners gets a new set.
set_of-new : (r : Registry) (k : String) → get k r.listeners ≡ none → set_of r k ≡ r.next_set
set_of-new r k h = rw (h, set_of, get_or) refl

subscribe-IsFirst :
    (r : Registry) (k : String) (l : ℕ)
    → get k r.listeners ≡ none
    → get r.next_set r.sets ≡ none
    → IsFirst r k l (subscribe r k l).1
unfolding subscribe add
subscribe-IsFirst r k l h e = push_parked-IsFirst r (join r k l) k l (get k r.pending) (record {
  listeners = rw (h, join) (ap (λ i. set k i r.listeners) (set_of-new r k h));
  sets = rw (h, join, set_of, e, get_or, add) refl;
  next = rw (h, join, set_of) refl;
})

-- What ending a subscription changes of the sets, where nobody is left in the set that it holds.
record IsLast (r : Registry) (k : String) (i : ℕ) (a : Registry) : Type 0 where
  listeners : a.listeners ≡ delete k r.listeners
  sets : a.sets ≡ set i [] r.sets
  next : a.next_set ≡ r.next_set

unsubscribe-IsLast :
    (r : Registry) (k : String) (i l : ℕ) (ls : List ℕ)
    → get i r.sets ≡ some ls
    → remove l ls ≡ []
    → IsLast r k i (unsubscribe r k i l)
unfolding unsubscribe
unsubscribe-IsLast r k i l ls e q = record {
  listeners = rw (e, q) refl;
  sets = rw (e, q) refl;
  next = refl;
}

remove-one : (l : ℕ) → remove l (l ∷ []) ≡ []
unfolding remove
remove-one l = rw (==_refl l) refl

remove-nil : (l : ℕ) → remove l [] ≡ []
unfolding remove
remove-nil l = refl

audience_of :
    (r : Registry) (k : String) (i : ℕ) (ls : List ℕ)
    → get k r.listeners ≡ some i
    → get i r.sets ≡ some ls
    → audience r k ≡ ls
audience_of r k i ls h e = rw (h, e, audience) refl

first_audience : (r a : Registry) (k : String) (l : ℕ) → IsFirst r k l a → audience a k ≡ l ∷ []
first_audience r a k l f =
    audience_of a k r.next_set (l ∷ [])
      (ap (get k) f.listeners ∙ get-set-same k r.next_set r.listeners)
      (ap (get r.next_set) f.sets ∙ get-set-same r.next_set (l ∷ []) r.sets)

-- The set that the first subscription holds is the one it made.
held :
    (r : Registry) (k : String) (l : ℕ)
    → get k r.listeners ≡ none
    → (subscribe r k l).0 ≡ r.next_set
unfolding subscribe
held r k l h = set_of-new r k h

gone : (k : String) (m : Dict String ℕ) → get k (delete k m) ≡ none
gone k m = ground (arith, get-delete k k m, ==_refl k)

-- The state after the first subscription, its end, and another subscription.
module _ (r a b : Registry) (k : String) (l m : ℕ) where
  first_ended : IsFirst r k l a → IsLast a k r.next_set (unsubscribe a k r.next_set l)
  first_ended f =
      unsubscribe-IsLast a k r.next_set l (l ∷ [])
        (ap (get r.next_set) f.sets ∙ get-set-same r.next_set (l ∷ []) r.sets) (remove-one l)

  next_is_free :
      IsFirst r k l a
      → get (suc r.next_set) r.sets ≡ none
      → get (unsubscribe a k r.next_set l).next_set (unsubscribe a k r.next_set l).sets ≡ none
  next_is_free f h =
      let u = unsubscribe a k r.next_set l in
      let e = first_ended f in
      let n : u.next_set ≡ suc r.next_set = e.next ∙ f.next in
      ap (λ i. get i u.sets) n
      ∙ ap (get (suc r.next_set)) e.sets
      ∙ get-set-other r.next_set (suc r.next_set) [] a.sets (λ q. omega (arith, q))
      ∙ ap (get (suc r.next_set)) f.sets
      ∙ get-set-other r.next_set (suc r.next_set) (l ∷ []) r.sets (λ q. omega (arith, q))
      ∙ h

  ended_twice :
      IsFirst r k l a
      → IsFirst (unsubscribe a k r.next_set l) k m b
      → audience (unsubscribe b k r.next_set l) k ≡ []
  ended_twice f g =
      let u = unsubscribe a k r.next_set l in
      let e = first_ended f in
      let n : u.next_set ≡ suc r.next_set = e.next ∙ f.next in
      let there : get r.next_set b.sets ≡ some [] =
        ap (get r.next_set) g.sets
        ∙ get-set-other u.next_set r.next_set (m ∷ []) u.sets (λ q. omega (arith, q, n))
        ∙ ap (get r.next_set) e.sets
        ∙ get-set-same r.next_set [] a.sets in
      let last = unsubscribe-IsLast b k r.next_set l [] there (remove-nil l) in
      rw (ap (get k) last.listeners ∙ gone k b.listeners, audience) refl

-- A session without listeners gets one, which leaves, and then another one. When the first subscription is
-- ended a second time, nobody hears the events of the session any more, though the other subscription
-- has not ended.
pub unsubscribe_twice :
    (r : Registry) (k : String) (l m : ℕ)
    → get k r.listeners ≡ none
    → get r.next_set r.sets ≡ none
    → get (suc r.next_set) r.sets ≡ none
    → let (i, a) = subscribe r k l in
      let (j, b) = subscribe (unsubscribe a k i l) k m in
      (audience a k ≡ l ∷ []) × (audience b k ≡ m ∷ []) × (audience (unsubscribe b k i l) k ≡ [])
unsubscribe_twice r k l m h e f =
    let a = (subscribe r k l).1 in
    let first = subscribe-IsFirst r k l h e in
    let u = unsubscribe a k r.next_set l in
    let second =
      subscribe-IsFirst u k m
        (ap (get k) (first_ended r a a k l m first).listeners ∙ gone k a.listeners)
        (next_is_free r a a k l m first f) in
    subst
      (λ i.
        let b = (subscribe (unsubscribe a k i l) k m).1 in
        (audience a k ≡ l ∷ []) × (audience b k ≡ m ∷ []) × (audience (unsubscribe b k i l) k ≡ []))
      (sym (held r k l h))
      (
        first_audience r a k l first,
        first_audience u (subscribe u k m).1 k m second,
        ended_twice r a (subscribe u k m).1 k l m first second,
      )
