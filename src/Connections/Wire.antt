-- ===== src/Connections/Wire.antt =====
-- A client and a server of app/src/lib/sidecar/protocol/peer.ts over one transport. The messages on
-- their way stand in two queues; the handler is any relation between a call and its answer, and its
-- promises end in any order. `issued` remembers what each request was made for.
pub mod Replies
pub mod Wired
pub mod Failing
pub mod Refine
use capisco.Prelude.{
  ℕ, ◌≡◌, ◌⊎◌, inl, inr, Bool, true, false, Option, none, some, List, [], ◌∷◌, ◌++◌, map, String,
  if◌then◌else◌, In, All,
}
use capisco.Prelude.Promises.{answers}
use capisco.Streams.Ndjson.{NdjsonDecoder, FramingError}
use capisco.Connections.{
  RpcMessage, Params, Failure, Outcome, RpcClientPeer, RpcServerPeer, request, receive, close,
  request_message, reply_message, reply, start_all, fail_all, push_event, event_message, on, off,
  negsuc, RpcError,
}

module _ (V : Type 0) where
  pub record Issue : Type 0 where
    pub id : ℕ
    pub promise : ℕ
    pub method : String
    pub params : Option (Params V)

  pub record Network : Type 0 where
    pub client : RpcClientPeer V
    pub server : RpcServerPeer V
    pub to_server : List (RpcMessage V)
    pub to_client : List (RpcMessage V)
    pub issued : List Issue

  -- What calls were made, and how their promises were settled.
  pub record Calls : Type 0 where
    pub made : List Issue
    pub settled : List (ℕ × Outcome V)

module _ {V : Type 0} where
  abbrev pub issue_of : RpcClientPeer V → String → Option (Params V) → Issue V
  issue_of c method params = record {
    id = c.next_id;
    promise = c.next_promise;
    method = method;
    params = params;
  }

  abbrev pub message_of : Issue V → RpcMessage V
  message_of i = request_message i.id i.method i.params

  module _ (Handles : String → Option (Params V) → Option V ⊎ String → Type 0) where
    pub data Step (n : Network V) : Network V → Type 0 where
      calls :
          (method : String) (params : Option (Params V))
          → n.client.closed ≡ false
          → Step n (record n {
            client = request n.client method params none;
            to_server = n.to_server ++ message_of (issue_of n.client method params) ∷ [];
            issued = n.issued ++ issue_of n.client method params ∷ [];
          })
      starts :
          (m : RpcMessage V) (rest : List (RpcMessage V))
          → n.to_server ≡ m ∷ rest
          → Step n (record n {
            to_server = rest;
            server = record n.server { started = n.server.started ++ start_all (some m ∷ []) };
          })
      finishes :
          (before after : List (RpcMessage V)) (m : RpcMessage V) (id : ℕ) (method : String)
          (answer : Option V ⊎ String)
          → n.server.started ≡ before ++ m ∷ after
          → m.id ≡ some id
          → m.method ≡ some method
          → Handles method m.params answer
          → Step n (record n {
            server =
                reply (record n.server { started = before ++ after }) (reply_message id answer);
            to_client =
                if n.server.closed
                then n.to_client
                else n.to_client ++ reply_message id answer ∷ [];
          })
      hears :
          (m : RpcMessage V) (rest : List (RpcMessage V))
          → n.to_client ≡ m ∷ rest
          → Step n (record n { to_client = rest; client = receive n.client m })
      -- The provider pushes an event.
      pushes :
          (channel : String) (event : V)
          → Step n (record n {
            server = push_event n.server channel event;
            to_client =
                if n.server.closed
                then n.to_client
                else n.to_client ++ event_message channel event ∷ [];
          })
      closes : (failure : Failure V) → Step n (record n { client = close n.client failure })
      -- The server's end is closed, by itself or since it cannot frame what it reads.
      shuts : Step n (record n { server = record n.server { closed = true } })
      -- The client cannot frame what it reads.
      garbles :
          (e : FramingError) (d : NdjsonDecoder)
          → Step n (record n {
            client =
                close
                  (fail_all (record n.client { decoder = d }) (Failure.framing_failed e))
                  Failure.transport_closed;
          })
      -- A request whose `send` throws, and one on a closed transport.
      loses :
          (method : String) (params : Option (Params V)) (thrown : String)
          → n.client.closed ≡ false
          → Step n (record n { client = request n.client method params (some thrown) })
      refuses :
          (method : String) (params : Option (Params V)) (thrown : Option String)
          → n.client.closed ≡ true
          → Step n (record n { client = request n.client method params thrown })
      subscribes :
          (channel : String) (listener : ℕ)
          → Step n (record n { client = on n.client channel listener })
      unsubscribes :
          (channel : String) (listener : ℕ)
          → Step n (record n { client = off n.client channel listener })

    -- What a caller gets for an answer: the result, or an error with the code of the provider's errors
    -- and the message of what the provider threw.
    abbrev pub Conveys : Option V ⊎ String → Outcome V → Type 0
    Conveys (inl result) outcome = outcome ≡ Outcome.resolved result
    Conveys (inr thrown) outcome =
        outcome
        ≡ Outcome.rejected (Failure.rpc_failed (record { code = negsuc 31999; message = thrown }))

    -- Remote calls as a caller sees them: a call is made, an open call is answered by what the handler
    -- gives for it, or open calls fail together.
    pub data CallStep (a : Calls V) : Calls V → Type 0 where
      idles : CallStep a a
      makes : (i : Issue V) → CallStep a (record a { made = a.made ++ i ∷ [] })
      completes :
          (i : Issue V) (answer : Option V ⊎ String) (outcome : Outcome V)
          → In i a.made
          → answers i.promise a.settled ≡ 0
          → Handles i.method i.params answer
          → Conveys answer outcome
          → CallStep a (record a { settled = a.settled ++ (i.promise, outcome) ∷ [] })
      fails :
          (open_calls : List ℕ) (failure : Failure V)
          → All (λ p. answers p a.settled ≡ 0) open_calls
          → CallStep a (record a {
            settled = a.settled ++ map (λ p. (p, Outcome.rejected failure)) open_calls;
          })

  abbrev pub view : Network V → Calls V
  view n = record { made = n.issued; settled = n.client.settled }
