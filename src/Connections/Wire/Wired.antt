-- ===== src/Connections/Wire/Wired.antt =====
-- What keeps the peers of app/src/lib/sidecar/protocol/peer.ts in step: calls and their answers.
use capisco.Prelude.{
  ℕ, ◌<◌, ◌≡◌, ◌⊎◌, inl, inr, false, Option, none, some, List, [], ◌∷◌, ◌++◌, String, arith, In,
  In-append_left, In-append_last, In-cases_last, ap, subst, sym, ◌∙◌, Bool-cases, Option-cases,
  nat_eq, ◌==◌, ==_iff,
}
use capisco.Prelude.Dict.{get, delete, get-set, get-delete}
use capisco.Prelude.Promises.{answers}
use capisco.Connections.{
  RpcMessage, Params, Outcome, sending, settle, reply_message, event_message, dispatch_event,
  outcome_of,
}
use capisco.Connections.Correlation.{IsCorrelated, request-IsCorrelated, settle-IsCorrelated}
use capisco.Connections.Wire.{
  Issue, Network, issue_of, message_of, view, CallStep, idles, makes, completes,
}
use capisco.Connections.Wire.Replies.{
  request-open, settle-found, settle-missing, outcome_of-reply_message, pending-open,
}

pub some-injective : {A : Type 0} {a b : A} → some a ≡ some b → a ≡ b
some-injective {A} {a} {b} e = cc e

module _ {V : Type 0} (Handles : String → Option (Params V) → Option V ⊎ String → Type 0) where
  -- An event, or an answer that the handler gives for a request that was issued.
  abbrev pub Expected : Network V → RpcMessage V → Type 0
  Expected n m =
      ((i : Issue V) × (a : Option V ⊎ String) × In i n.issued
        × Handles i.method i.params a
        × (m ≡ reply_message i.id a))
      ⊎ ((channel : String) × (event : V) × (m ≡ event_message channel event))

  -- Ids are issued once; whatever is in the table, on the way or in the server belongs to a request
  -- that was issued, and an answer on its way is one that the handler gives for its own request.
  pub record IsWired (n : Network V) : Type 0 where
    pub correlated : IsCorrelated n.client
    pub below : (i : Issue V) → In i n.issued → i.id < n.client.next_id
    pub unique : (i j : Issue V) → In i n.issued → In j n.issued → i.id ≡ j.id → i ≡ j
    pub table :
        (id p : ℕ)
        → get id n.client.pending ≡ some p
        → (i : Issue V) × In i n.issued × (i.id ≡ id) × (i.promise ≡ p)
    pub asked :
        (m : RpcMessage V) → In m n.to_server → (i : Issue V) × In i n.issued × (m ≡ message_of i)
    pub begun :
        (m : RpcMessage V)
        → In m n.server.started
        → (i : Issue V) × In i n.issued × (m ≡ message_of i)
    pub answered : (m : RpcMessage V) → In m n.to_client → Expected n m

  abbrev pub Refined : Network V → Network V → Type 0
  Refined n n' = IsWired n' × CallStep Handles (view n) (view n')

  pub called :
      (n : Network V) (method : String) (params : Option (Params V))
      → n.client.closed ≡ false
      → IsWired n
      → Refined n (record n {
        client = sending n.client method params none;
        to_server = n.to_server ++ message_of (issue_of n.client method params) ∷ [];
        issued = n.issued ++ issue_of n.client method params ∷ [];
      })
  called n method params o w = (
    record {
      correlated =
          subst IsCorrelated (request-open n.client method params none o)
            (request-IsCorrelated n.client method params none w.correlated);
      below = λ i h. elim (In-cases_last i new n.issued h) [
        | inl old ↦ omega (arith, w.below i old)
        | inr e ↦ omega (arith, ap (λ (x : Issue V). x.id) e)
      ];
      unique = λ i j h k e. elim (In-cases_last i new n.issued h) [
        | inl a ↦ elim (In-cases_last j new n.issued k) [
          | inl b ↦ w.unique i j a b e
          | inr b ↦ absurd (omega (arith, w.below i a, e, ap (λ (x : Issue V). x.id) b))
        ]
        | inr a ↦ elim (In-cases_last j new n.issued k) [
          | inl b ↦ absurd (omega (arith, w.below j b, e, ap (λ (x : Issue V). x.id) a))
          | inr b ↦ a ∙ sym b
        ]
      ];
      table = λ id p h. elim (Bool-cases (n.client.next_id == id)) [
        | inl e ↦ (
          new,
          In-append_last new n.issued,
          (==_iff n.client.next_id id).0 e,
          some-injective (
              rw e at
                (sym (get-set n.client.next_id id n.client.next_promise n.client.pending) ∙ h)),
        )
        | inr e ↦
            let (i, k, a, b) = w.table id p (
              rw e at
                (sym (get-set n.client.next_id id n.client.next_promise n.client.pending) ∙ h)) in
            (i, In-append_left i n.issued (new ∷ []) k, a, b)
      ];
      asked = λ m h. elim (In-cases_last m (message_of new) n.to_server h) [
        | inl old ↦ let (i, k, e) = w.asked m old in (i, In-append_left i n.issued (new ∷ []) k, e)
        | inr e ↦ (new, In-append_last new n.issued, e)
      ];
      begun = λ m h. let (i, k, e) = w.begun m h in (i, In-append_left i n.issued (new ∷ []) k, e);
      answered = λ m h. elim (w.answered m h) [
        | inl (i, a, k, g, e) ↦ inl (i, a, In-append_left i n.issued (new ∷ []) k, g, e)
        | inr pushed ↦ inr pushed
      ];
    },
    makes new,
  )
    where
      new : Issue V
      new = issue_of n.client method params

  -- The client settles what it hears; the rest stays.
  pub settled :
      (n : Network V) (rest : List (RpcMessage V)) (i : Issue V) (a : Option V ⊎ String)
      → ((m : RpcMessage V) → In m rest → In m n.to_client)
      → In i n.issued
      → Handles i.method i.params a
      → IsWired n
      → Refined n
          (record n { to_client = rest; client = settle n.client i.id (reply_message i.id a) })
  settled n rest i a fewer k g w = elim (Option-cases (get i.id n.client.pending)) [
    | inl e ↦
        subst (λ c. Refined n (record n { to_client = rest; client = c }))
          (sym (settle-missing n.client i.id reply e)) missing
    | inr (p, e) ↦
        subst (λ c. Refined n (record n { to_client = rest; client = c }))
          (sym (settle-found n.client i.id p reply o q e)) (found p e)
  ]
    where
      reply : RpcMessage V
      reply = reply_message i.id a

      o : Outcome V
      o = (outcome_of-reply_message Handles i.id a).0

      q : outcome_of reply ≡ some o
      q = (outcome_of-reply_message Handles i.id a).1

      left :
          (id p : ℕ)
          → get id (delete i.id n.client.pending) ≡ some p
          → get id n.client.pending ≡ some p
      left id p h = ground (arith, h, get-delete i.id id n.client.pending)

      missing : Refined n (record n { to_client = rest })
      missing = (
        record {
          correlated = w.correlated;
          below = w.below;
          unique = w.unique;
          table = w.table;
          asked = w.asked;
          begun = w.begun;
          answered = λ m h. w.answered m (fewer m h);
        },
        idles,
      )

      found :
          (p : ℕ)
          → get i.id n.client.pending ≡ some p
          → Refined n (record n {
            to_client = rest;
            client = record n.client {
              pending = delete i.id n.client.pending;
              settled = n.client.settled ++ (p, o) ∷ [];
            };
          })
      found p e =
          let (j, kj, idj, pj) = w.table i.id p e in
          let same : i.promise ≡ p =
            ap (λ (x : Issue V). x.promise) (w.unique i j k kj (sym idj)) ∙ pj in
          (
            record {
              correlated =
                  subst IsCorrelated (settle-found n.client i.id p reply o q e)
                    (settle-IsCorrelated n.client i.id reply w.correlated);
              below = w.below;
              unique = w.unique;
              table = λ id x h. w.table id x (left id x h);
              asked = w.asked;
              begun = w.begun;
              answered = λ m h. w.answered m (fewer m h);
            },
            subst
                (λ x.
                  CallStep Handles (view n)
                    (record { made = n.issued; settled = n.client.settled ++ (x, o) ∷ [] }))
                same
                (completes i a o k
                  (subst (λ x. answers x n.client.settled ≡ 0) (sym same)
                    (pending-open n.client i.id p w.correlated e))
                  g (outcome_of-reply_message Handles i.id a).2),
          )

  -- What the client makes of an event does not touch the calls.
  pub delivered :
      (n : Network V) (rest : List (RpcMessage V)) (channel : String) (event : V)
      → ((m : RpcMessage V) → In m rest → In m n.to_client)
      → IsWired n
      → Refined n (record n { to_client = rest; client = dispatch_event n.client channel event })
  unfolding dispatch_event
  delivered n rest channel event fewer w = (
    record {
      correlated = record {
        dict = w.correlated.dict;
        old = w.correlated.old;
        once = w.correlated.once;
      };
      below = w.below;
      unique = w.unique;
      table = w.table;
      asked = w.asked;
      begun = w.begun;
      answered = λ m h. w.answered m (fewer m h);
    },
    idles,
  )
