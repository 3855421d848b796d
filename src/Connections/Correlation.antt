-- ===== src/Connections/Correlation.antt =====
-- Every promise of a client of app/src/lib/sidecar/protocol/peer.ts is settled once or waits.
use capisco.Prelude.{
  ℕ, ◌+◌, ◌≡◌, refl, inl, inr, Bool, true, false, ◌&&◌, Option, none, some, List, [], ◌∷◌, map,
  String, ◌==◌, string_eq, nat_eq, if◌then◌else◌, leb, get_or, arith, Bool-cases,
}
use capisco.Prelude.Dict.{
  Dict, get, set, delete, get-set, get-set-same, get-delete, IsDict, set-IsDict, delete-IsDict,
}
use capisco.Prelude.Promises.{
  waiting, answers, answers-append, answers-map, waiting-set, waiting-delete,
}
use capisco.Connections.{
  RpcMessage, Params, Failure, Outcome, RpcClientPeer, event_method, is_response, is_notification,
  outcome_of, conclude, throws, settle, dispatch_event, fail_all, on_event, sending, receive,
  receive_all, close, request, reject_new,
}

abbrev pub itself : ℕ → ℕ
itself p = p

module _ {V : Type 0} where
  -- The ids in the table are old and belong to one entry; each promise that was given out waits or was
  -- settled, once in all, and a promise that was not given out does neither.
  pub record IsCorrelated (c : RpcClientPeer V) : Type 0 where
    pub dict : IsDict c.pending
    pub old : (id : ℕ) → leb c.next_id id ≡ true → get id c.pending ≡ none
    pub once :
        (n : ℕ)
        → waiting itself n c.pending + answers n c.settled + answers n c.stranded
          ≡ (if leb c.next_promise n then 0 else 1)

  pub settle-IsCorrelated :
      (c : RpcClientPeer V) (id : ℕ) (m : RpcMessage V)
      → IsCorrelated c
      → IsCorrelated (settle c id m)
  unfolding settle
  settle-IsCorrelated c id m h = found (get id c.pending) refl
    where
      concluded :
          (p : ℕ) (o : Option (Outcome V))
          → get id c.pending ≡ some p
          → IsCorrelated (conclude (record c { pending = delete id c.pending }) p m o)
      concluded p (some o) e = record {
        dict = delete-IsDict id c.pending h.dict;
        old = λ j l. ground (arith, get-delete id j c.pending, h.old j l);
        once = λ n. omega (
          arith,
          h.once n,
          waiting-delete itself n id p c.pending h.dict e,
          answers-append n c.settled ((p, o) ∷ []),
        );
      }
      concluded p none e = record {
        dict = delete-IsDict id c.pending h.dict;
        old = λ j l. ground (arith, get-delete id j c.pending, h.old j l);
        once = λ n. omega (
          arith,
          h.once n,
          waiting-delete itself n id p c.pending h.dict e,
          answers-append n c.stranded ((p, m) ∷ []),
        );
      }

      found :
          (x : Option ℕ)
          → get id c.pending ≡ x
          → IsCorrelated (elim x as (λ x. RpcClientPeer V) [
            | none ↦ c
            | some p ↦ conclude (record c { pending = delete id c.pending }) p m (outcome_of m)
          ])
      found none e = h
      found (some p) e = concluded p (outcome_of m) e

  pub fail_all-IsCorrelated :
      (c : RpcClientPeer V) (f : Failure V) → IsCorrelated c → IsCorrelated (fail_all c f)
  unfolding fail_all get
  fail_all-IsCorrelated c f h = record {
    dict = tt;
    old = λ j l. refl;
    once = λ n. omega (
      arith,
      h.once n,
      answers-append {A = Outcome V} n c.settled (map (λ x. (x.1, Outcome.rejected f)) c.pending),
      answers-map itself {A = Outcome V} n (Outcome.rejected f) c.pending,
    );
  }

  pub request-IsCorrelated :
      (c : RpcClientPeer V) (method : String) (params : Option (Params V)) (thrown : Option String)
      → IsCorrelated c
      → IsCorrelated (request c method params thrown)
  unfolding request
  request-IsCorrelated c method params thrown h = by_closed c.closed
    where
      free : get c.next_id c.pending ≡ none
      free = h.old c.next_id (ground arith)

      table : Dict ℕ ℕ
      table = set c.next_id c.next_promise c.pending

      reused : (n : ℕ) → waiting itself n (delete c.next_id table) ≡ waiting itself n c.pending
      reused n = omega (
        arith,
        waiting-set itself n c.next_id c.next_promise c.pending free,
        waiting-delete itself n c.next_id c.next_promise table
            (set-IsDict c.next_id c.next_promise c.pending h.dict)
            (get-set-same c.next_id c.next_promise c.pending),
      )

      by_send : (o : Option String) → IsCorrelated (sending c method params o)
      by_send none = record {
        dict = set-IsDict c.next_id c.next_promise c.pending h.dict;
        old = λ j l. ground (arith, get-set c.next_id j c.next_promise c.pending, h.old j);
        once = λ n.
            ground (arith, h.once n, waiting-set itself n c.next_id c.next_promise c.pending free);
      }
      by_send (some e) = record {
        dict = delete-IsDict c.next_id table (set-IsDict c.next_id c.next_promise c.pending h.dict);
        old = λ j l. ground (
          arith,
          get-delete c.next_id j table,
          get-set c.next_id j c.next_promise c.pending,
          h.old j,
        );
        once = λ n. ground (
          arith,
          h.once n,
          reused n,
          answers-append {A = Outcome V} n c.settled
              ((c.next_promise, Outcome.rejected (Failure.send_failed e)) ∷ []),
        );
      }

      by_closed :
          (b : Bool)
          → IsCorrelated (
              if◌then◌else◌ {A = RpcClientPeer V} b
                (reject_new c Failure.transport_is_closed)
                (sending c method params thrown))
      by_closed true = record {
        dict = h.dict;
        old = h.old;
        once = λ n. ground (
          arith,
          h.once n,
          answers-append {A = Outcome V} n c.settled
              ((c.next_promise, Outcome.rejected Failure.transport_is_closed) ∷ []),
        );
      }
      by_closed false = by_send thrown

  on_event-IsCorrelated :
      (c : RpcClientPeer V) (p : Option (Params V)) → IsCorrelated c → IsCorrelated (on_event c p)
  unfolding dispatch_event
  on_event-IsCorrelated c none h = h
  on_event-IsCorrelated c (some (Params.arguments vs)) h = h
  on_event-IsCorrelated c (some (Params.event_params channel v)) h = record {
    dict = h.dict;
    old = h.old;
    once = h.once;
  }

  receive-IsCorrelated :
      (c : RpcClientPeer V) (m : RpcMessage V) → IsCorrelated c → IsCorrelated (receive c m)
  unfolding receive
  receive-IsCorrelated c m h = elim (Bool-cases (is_response m)) [
    | inl t ↦ rw t (settle-IsCorrelated c (get_or m.id 0) m h)
    | inr t ↦ elim (Bool-cases (is_notification m && get_or m.method "" == event_method)) [
      | inl e ↦ rw t (rw e (on_event-IsCorrelated c m.params h))
      | inr e ↦ rw t (rw e h)
    ]
  ]

  pub receive_all-IsCorrelated :
      (c : RpcClientPeer V) (ms : List (Option (RpcMessage V)))
      → IsCorrelated c
      → IsCorrelated (receive_all c ms)
  unfolding receive_all
  receive_all-IsCorrelated c [] h = h
  receive_all-IsCorrelated c (none ∷ ms) h = receive_all-IsCorrelated c ms h
  receive_all-IsCorrelated c (some m ∷ ms) h =
      thrown (throws c m) (receive-IsCorrelated c m h)
        (receive_all-IsCorrelated (receive c m) ms (receive-IsCorrelated c m h))
    where
      thrown :
          (b : Bool)
          → IsCorrelated (receive c m)
          → IsCorrelated (receive_all (receive c m) ms)
          → IsCorrelated
              (if◌then◌else◌ {A = RpcClientPeer V} b (receive c m) (receive_all (receive c m) ms))
      thrown true now later = now
      thrown false now later = later

  pub close-IsCorrelated :
      (c : RpcClientPeer V) (f : Failure V) → IsCorrelated c → IsCorrelated (close c f)
  unfolding close
  close-IsCorrelated c f h =
      fail_all-IsCorrelated (record c { closed = true }) f
        (record { dict = h.dict; old = h.old; once = h.once })
