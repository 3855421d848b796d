-- ===== src/Connections/Wire/Replies.antt =====
-- Single steps of a client of app/src/lib/sidecar/protocol/peer.ts, as its network uses them.
use capisco.Prelude.{
  ℕ, ◌≤◌, ◌≡◌, refl, ◌⊎◌, inl, inr, Bool, true, false, Option, none, some, List, [], ◌∷◌, ◌++◌, map,
  String, if◌then◌else◌, arith, All, ap, nat_eq,
}
use capisco.Prelude.Dict.{Dict, get, delete}
use capisco.Prelude.Promises.{answers, waiting, waiting-delete}
use capisco.Connections.{
  RpcMessage, Params, Failure, Outcome, RpcClientPeer, conclude, event_message, dispatch_event,
  is_notification, request, reject_new, sending, receive, settle, reply_message, outcome_of,
  is_response,
}
use capisco.Connections.Wire.{Conveys}
use capisco.Connections.Correlation.{IsCorrelated, itself}

pub All-waiting :
    (l m : Dict ℕ ℕ)
    → ((n : ℕ) → waiting itself n l ≤ waiting itself n m)
    → All (λ p. 1 ≤ waiting itself p m) (map (λ x. x.1) l)
All-waiting [] m h = tt
All-waiting ((k, p) ∷ l) m h = (ground (arith, h p), All-waiting l m (λ n. ground (arith, h n)))

module _ {V : Type 0} where
  pub request-open :
      (c : RpcClientPeer V) (method : String) (params : Option (Params V)) (thrown : Option String)
      → c.closed ≡ false
      → request c method params thrown ≡ sending c method params thrown
  unfolding request
  request-open c method params thrown h = by_closed c.closed h
    where
      by_closed :
          (b : Bool)
          → b ≡ false
          → (if◌then◌else◌ {A = RpcClientPeer V} b
              (reject_new c Failure.transport_is_closed)
              (sending c method params thrown))
            ≡ sending c method params thrown
      by_closed true h = absurd (ground arith)
      by_closed false h = refl

  pub request-closed :
      (c : RpcClientPeer V) (method : String) (params : Option (Params V)) (thrown : Option String)
      → c.closed ≡ true
      → request c method params thrown ≡ reject_new c Failure.transport_is_closed
  unfolding request
  request-closed c method params thrown h = by_closed c.closed h
    where
      by_closed :
          (b : Bool)
          → b ≡ true
          → (if◌then◌else◌ {A = RpcClientPeer V} b
              (reject_new c Failure.transport_is_closed)
              (sending c method params thrown))
            ≡ reject_new c Failure.transport_is_closed
      by_closed true h = refl
      by_closed false h = absurd (ground arith)

  pub receive-reply :
      (c : RpcClientPeer V) (id : ℕ) (a : Option V ⊎ String)
      → receive c (reply_message id a) ≡ settle c id (reply_message id a)
  unfolding receive reply_message is_response
  receive-reply c id (inl r) = refl
  receive-reply c id (inr e) = refl

  pub receive-event :
      (c : RpcClientPeer V) (channel : String) (event : V)
      → receive c (event_message channel event) ≡ dispatch_event c channel event
  unfolding receive is_response is_notification
  receive-event c channel event = refl

  -- What the server says is what the client makes of it.
  pub outcome_of-reply_message :
      (Handles : String → Option (Params V) → Option V ⊎ String → Type 0) (id : ℕ)
      (a : Option V ⊎ String)
      → (o : Outcome V) × (outcome_of (reply_message id a) ≡ some o) × Conveys Handles a o
  unfolding outcome_of reply_message
  outcome_of-reply_message Handles id (inl r) = (_, refl, refl)
  outcome_of-reply_message Handles id (inr e) = (_, refl, refl)

  pub settle-found :
      (c : RpcClientPeer V) (id p : ℕ) (m : RpcMessage V) (o : Outcome V)
      → outcome_of m ≡ some o
      → get id c.pending ≡ some p
      → settle c id m
        ≡ record c { pending = delete id c.pending; settled = c.settled ++ (p, o) ∷ [] }
  unfolding settle
  settle-found c id p m o q h = rw (h, settle, q, conclude) refl

  pub settle-missing :
      (c : RpcClientPeer V) (id : ℕ) (m : RpcMessage V)
      → get id c.pending ≡ none
      → settle c id m ≡ c
  unfolding settle
  settle-missing c id m h = rw (h, settle) refl

  -- The next promise was not settled.
  pub next-open : (c : RpcClientPeer V) → IsCorrelated c → answers c.next_promise c.settled ≡ 0
  next-open c h = ground (arith, h.once c.next_promise)

  -- A promise in the table was not settled.
  pub pending-open :
      (c : RpcClientPeer V) (id p : ℕ)
      → IsCorrelated c
      → get id c.pending ≡ some p
      → answers p c.settled ≡ 0
  pending-open c id p h e =
      ground (arith, h.once p, waiting-delete itself p id p c.pending h.dict e)

  pub All-open :
      (c : RpcClientPeer V)
      → IsCorrelated c
      → (ps : List ℕ) → All (λ p. 1 ≤ waiting itself p c.pending) ps
      → All (λ p. answers p c.settled ≡ 0) ps
  All-open c h [] w = tt
  All-open c h (p ∷ ps) (w, ws) = (ground (arith, w, h.once p), All-open c h ps ws)

  pub reject_each :
      (m : Dict ℕ ℕ) (f : Failure V)
      → ◌≡◌ {A = List (ℕ × Outcome V)}
          (map (λ p. (p, Outcome.rejected f)) (map (λ x. x.1) m))
          (map (λ x. (x.1, Outcome.rejected f)) m)
  reject_each [] f = refl
  reject_each (x ∷ m) f = ap (λ l. (x.1, Outcome.rejected f) ∷ l) (reject_each m f)
