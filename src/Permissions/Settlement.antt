-- ===== src/Permissions/Settlement.antt =====
-- Who settles a parked request, and how often: app/sidecar/acp/pending-permission-registry.ts.
use capisco.Prelude.{
  ℕ, ◌+◌, ◌≡◌, refl, ap, subst, sym, ◌∙◌, Bool, true, false, not, Option, none, some, List, [], ◌∷◌,
  map, String, ◌==◌, string_eq, nat_eq, if◌then◌else◌, leb, arith, Option-cases, inl, inr, ==_refl,
}
use capisco.Prelude.Dict.{Dict, get, set, delete, get-delete, IsDict, set-IsDict, delete-IsDict}
use capisco.Prelude.Effect.{after_some}
use capisco.Prelude.Promises.{answers, waiting, answers-append, waiting-set, waiting-delete}
use capisco.Broker.Contract.{CapabilityRequest, GrantAxis, PermissionDecision}
use capisco.Permissions.{
  PermissionRequest, PendingEntry, Registry, denial, settle_entry, clear, emit, enqueue, park,
  resolve_permission, fire, subscribe, push_parked, join, unsubscribe, publish, clear_each,
  deny_all, next_seq,
}

abbrev promise_of : PendingEntry → ℕ
promise_of e = e.promise

-- Each promise that was given out waits in the table or was settled, exactly once in all; a promise
-- that was not given out does neither.
pub record IsSettled (r : Registry) : Type 0 where
  pub dict : IsDict r.pending
  pub once :
      (n : ℕ)
      → waiting promise_of n r.pending + answers n r.settled
        ≡ (if leb r.next_promise n then 0 else 1)

pub clear-absent :
    (r : Registry) (k : String) (d : PermissionDecision) → get k r.pending ≡ none → clear r k d ≡ r
unfolding clear
clear-absent r k d h = rw (h, clear) refl

pub clear-present :
    (r : Registry) (k : String) (d : PermissionDecision) (e : PendingEntry)
    → get k r.pending ≡ some e
    → clear r k d ≡ settle_entry r k d e
unfolding clear
clear-present r k d e h = after_some r (settle_entry r k d) (get k r.pending) e h

clear-IsSettled :
    (r : Registry) (k : String) (d : PermissionDecision) → IsSettled r → IsSettled (clear r k d)
clear-IsSettled r k d h = elim (Option-cases (get k r.pending)) [
  | inl e ↦ subst IsSettled (sym (clear-absent r k d e)) h
  | inr (x, e) ↦ subst IsSettled (sym (clear-present r k d x e)) (record {
    dict = delete-IsDict k r.pending h.dict;
    once = λ n. omega (
      arith,
      h.once n,
      waiting-delete promise_of n k x r.pending h.dict e,
      answers-append n r.settled ((x.promise, d) ∷ []),
    );
  })
]

pub get-delete-same : (k : String) (m : Dict String PendingEntry) → get k (delete k m) ≡ none
get-delete-same k m = ground (arith, get-delete k k m, ==_refl k)

clear-none :
    (r : Registry) (k : String) (d : PermissionDecision) → get k (clear r k d).pending ≡ none
clear-none r k d = elim (Option-cases (get k r.pending)) [
  | inl e ↦ ap (λ (x : Registry). get k x.pending) (clear-absent r k d e) ∙ e
  | inr (x, e) ↦
      ap (λ (y : Registry). get k y.pending) (clear-present r k d x e) ∙ get-delete-same k r.pending
]

enqueue-IsSettled :
    (r : Registry) (k : String) (q : PermissionRequest)
    → get k r.pending ≡ none
    → IsSettled r
    → IsSettled (enqueue r k q)
unfolding emit
enqueue-IsSettled r k q f h = record {
  dict = set-IsDict k _ r.pending h.dict;
  once = λ n. ground (
    arith,
    h.once n,
    waiting-set promise_of n k
        (record {
          request = q;
          promise = r.next_promise;
          timer = if not (leb r.timeout_ms 0) then some r.next_timer else none;
        })
        r.pending f,
  );
}

park-IsSettled :
    (r : Registry) (k : String) (q : CapabilityRequest) (u : Bool)
    → IsSettled r
    → IsSettled (park r k q u)
unfolding park
park-IsSettled r k q u h =
    let c = clear-IsSettled r k denial h in
    enqueue-IsSettled
      (record (clear r k denial) {
        seq = set k (next_seq (clear r k denial) k) (clear r k denial).seq;
      })
      k _ (clear-none r k denial) (record { dict = c.dict; once = c.once })

fire-IsSettled : (r : Registry) (t : ℕ) → IsSettled r → IsSettled (fire r t)
unfolding fire
fire-IsSettled r t h = found (get t r.timers)
  where
    found :
        (o : Option String)
        → IsSettled (elim o as (λ o. Registry) [
          | none ↦ r
          | some k ↦ clear (record r { timers = delete t r.timers }) k denial
        ])
    found none = h
    found (some k) =
        clear-IsSettled (record r { timers = delete t r.timers }) k denial
          (record { dict = h.dict; once = h.once })

resolve_permission-IsSettled :
    (r : Registry) (k id : String) (d : PermissionDecision)
    → IsSettled r
    → IsSettled (resolve_permission r k id d).1
unfolding resolve_permission
resolve_permission-IsSettled r k id d h = found (get k r.pending)
  where
    matched :
        (b : Bool)
        → IsSettled
            (if◌then◌else◌ {A = GrantAxis × Registry} b (GrantAxis.deny, r) (d.axis, clear r k d)).1
    matched true = h
    matched false = clear-IsSettled r k d h

    found :
        (o : Option PendingEntry)
        → IsSettled (
            (elim o as (λ o. GrantAxis × Registry) [
              | none ↦ (GrantAxis.deny, r)
              | some e ↦
                  if not (e.request.id == id) then (GrantAxis.deny, r) else (d.axis, clear r k d)
            ]).1)
    found none = h
    found (some e) = matched (not (e.request.id == id))

subscribe-IsSettled :
    (r : Registry) (k : String) (l : ℕ) → IsSettled r → IsSettled (subscribe r k l).1
unfolding subscribe
subscribe-IsSettled r k l h = pushed (get k r.pending)
  where
    pushed : (o : Option PendingEntry) → IsSettled (push_parked (join r k l) l o)
    pushed none = record { dict = h.dict; once = h.once }
    pushed (some e) = record { dict = h.dict; once = h.once }

clear_each-IsSettled : (r : Registry) (ks : List String) → IsSettled r → IsSettled (clear_each r ks)
unfolding clear_each
clear_each-IsSettled r [] h = h
clear_each-IsSettled r (k ∷ ks) h =
    clear_each-IsSettled (clear r k denial) ks (clear-IsSettled r k denial h)

-- An operation of the registry, or a timeout that fires.
pub data Operation : Type 0 where
  parks : String → CapabilityRequest → Bool → Operation
  resolves : String → String → PermissionDecision → Operation
  fires : ℕ → Operation
  subscribes : String → ℕ → Operation
  unsubscribes : String → ℕ → ℕ → Operation
  publishes : String → ℕ → Operation
  denies_all : Operation

abbrev pub operate : Registry → Operation → Registry
operate r (parks k q u) = park r k q u
operate r (resolves k id d) = (resolve_permission r k id d).1
operate r (fires t) = fire r t
operate r (subscribes k l) = (subscribe r k l).1
operate r (unsubscribes k i l) = unsubscribe r k i l
operate r (publishes k e) = publish r k e
operate r denies_all = deny_all r

-- No agent's question is lost or answered twice: each operation, and each timeout that fires, keeps it
-- that every promise given out so far waits in the table or has been settled, once in all.
pub operate-IsSettled : (r : Registry) (x : Operation) → IsSettled r → IsSettled (operate r x)
unfolding deny_all unsubscribe publish emit
operate-IsSettled r (parks k q u) h = park-IsSettled r k q u h
operate-IsSettled r (resolves k id d) h = resolve_permission-IsSettled r k id d h
operate-IsSettled r (fires t) h = fire-IsSettled r t h
operate-IsSettled r (subscribes k l) h = subscribe-IsSettled r k l h
operate-IsSettled r (unsubscribes k i l) h = record { dict = h.dict; once = h.once }
operate-IsSettled r (publishes k e) h = record { dict = h.dict; once = h.once }
operate-IsSettled r denies_all h = clear_each-IsSettled r (map (λ e. e.0) r.pending) h
