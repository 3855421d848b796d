-- ===== src/Connections.antt =====
-- app/src/lib/sidecar/protocol/jsonrpc.ts and peer.ts. A listener and a promise are numbers: the calls
-- of a promise's `resolve` and `reject` are logged in `settled`, those of listeners in `delivered`. The
-- transport is what the peers see of it: whether it is closed, what was handed to it, and what a
-- `send` throws. `V` is what JSON can carry. A response whose `error` is null makes `settle` throw once
-- the entry is gone: its promise, which nothing settles any more, is logged in `stranded`.
pub mod Correlation
pub mod Closing
pub mod Wire
pub mod Registry
use capisco.Prelude.{
  ℕ, suc, ◌⊎◌, inl, inr, Bool, true, false, ◌&&◌, not, Option, none, some, List, [], ◌∷◌, ◌++◌, map,
  String, ◌==◌, string_eq, nat_eq, if◌then◌else◌, get_or, is_some,
}
use capisco.Prelude.Dict.{Dict, get, set, delete, add, remove}
use capisco.Prelude.Effect.{Run, ok, err}
use capisco.Streams.Ndjson.{NdjsonDecoder, FramingError, push}

pub data ℤ : Type 0 where
  pos negsuc : ℕ → ℤ

pub record RpcError : Type 0 where
  pub code : ℤ
  pub message : String

module _ (V : Type 0) where
  pub data Params : Type 0 where
    arguments : List V → Params
    event_params : String → V → Params

  -- A message of any shape: the fields that it has. The `error` of a message may be there and null.
  pub record RpcMessage : Type 0 where
    pub id : Option ℕ
    pub method : Option String
    pub params : Option Params
    pub result : Option V
    pub error : Option (Option RpcError)

  pub data Failure : Type 0 where
    transport_is_closed transport_closed : Failure
    send_failed : String → Failure
    framing_failed : FramingError → Failure
    rpc_failed : RpcError → Failure

  pub data Outcome : Type 0 where
    resolved : Option V → Outcome
    rejected : Failure → Outcome

  pub record RpcClientPeer : Type 0 where
    pub decoder : NdjsonDecoder
    pub next_id : ℕ
    pub pending : Dict ℕ ℕ
    pub channels : Dict String (List ℕ)
    pub closed : Bool
    pub next_promise : ℕ
    pub settled : List (ℕ × Outcome)
    pub stranded : List (ℕ × RpcMessage)
    pub delivered : List (ℕ × V)
    pub sent : List RpcMessage

  pub record RpcServerPeer : Type 0 where
    pub decoder : NdjsonDecoder
    pub closed : Bool
    pub started : List RpcMessage
    pub sent : List RpcMessage

abbrev pub event_method : String
event_method = "$/event"

abbrev pub provider_error : ℤ
provider_error = negsuc 31999

abbrev pub keep_channel : Dict String (List ℕ) → String → List ℕ → Dict String (List ℕ)
keep_channel m channel [] = delete channel m
keep_channel m channel (l ∷ ls) = set channel (l ∷ ls) m

module _ {V : Type 0} where
  unfoldable pub is_request : RpcMessage V → Bool
  is_request m = is_some m.method && is_some m.id

  unfoldable pub is_notification : RpcMessage V → Bool
  is_notification m = is_some m.method && not (is_some m.id)

  unfoldable pub is_response : RpcMessage V → Bool
  is_response m = not (is_some m.method) && is_some m.id

  abbrev pub new_client : NdjsonDecoder → RpcClientPeer V
  new_client d = record {
    decoder = d;
    next_id = 1;
    pending = [];
    channels = [];
    closed = false;
    next_promise = 0;
    settled = [];
    stranded = [];
    delivered = [];
    sent = [];
  }

  -- What `settle` does with a promise; none where reading `res.error.message` throws.
  unfoldable pub outcome_of : RpcMessage V → Option (Outcome V)
  outcome_of m = elim m.error [
    | none ↦ some (Outcome.resolved m.result)
    | some none ↦ none
    | some (some e) ↦ some (Outcome.rejected (Failure.rpc_failed e))
  ]

  abbrev pub conclude : RpcClientPeer V → ℕ → RpcMessage V → Option (Outcome V) → RpcClientPeer V
  conclude c p m none = record c { stranded = c.stranded ++ (p, m) ∷ [] }
  conclude c p m (some outcome) = record c { settled = c.settled ++ (p, outcome) ∷ [] }

  unfoldable pub settle : RpcClientPeer V → ℕ → RpcMessage V → RpcClientPeer V
  settle c id m = elim (get id c.pending) [
    | none ↦ c
    | some p ↦ conclude (record c { pending = delete id c.pending }) p m (outcome_of m)
  ]

  unfoldable pub dispatch_event : RpcClientPeer V → String → V → RpcClientPeer V
  dispatch_event c channel event = record c {
    delivered = c.delivered ++ map (λ l. (l, event)) (get_or (get channel c.channels) []);
  }

  unfoldable pub fail_all : RpcClientPeer V → Failure V → RpcClientPeer V
  fail_all c failure = record c {
    pending = [];
    settled = c.settled ++ map (λ x. (x.1, Outcome.rejected failure)) c.pending;
  }

  abbrev on_event : RpcClientPeer V → Option (Params V) → RpcClientPeer V
  on_event c (some (Params.event_params channel event)) = dispatch_event c channel event
  on_event c _ = c

  -- One decoded message of `ingest`.
  unfoldable pub receive : RpcClientPeer V → RpcMessage V → RpcClientPeer V
  receive c m =
      if is_response m
      then settle c (get_or m.id 0) m
      else if is_notification m && get_or m.method "" == event_method
      then on_event c m.params
      else c

  -- `settle` throws, and with it `ingest`.
  unfoldable pub throws : RpcClientPeer V → RpcMessage V → Bool
  throws c m =
      is_response m && (is_some (get (get_or m.id 0) c.pending) && not (is_some (outcome_of m)))

  -- The loop of `ingest`; a throw ends it.
  unfoldable pub receive_all : RpcClientPeer V → List (Option (RpcMessage V)) → RpcClientPeer V
  receive_all c [] = c
  receive_all c (none ∷ ms) = receive_all c ms
  receive_all c (some m ∷ ms) =
      let rest = receive_all (receive c m) ms in if throws c m then receive c m else rest

  -- `transport.close()`, or a close of the other end, with the `onClose` listener.
  unfoldable pub close : RpcClientPeer V → Failure V → RpcClientPeer V
  close c failure = fail_all (record c { closed = true }) failure

  unfoldable pub ingest :
      (List ℕ → Option (RpcMessage V)) → RpcClientPeer V → List ℕ → RpcClientPeer V
  ingest decode_line c chunk = elim (push decode_line c.decoder chunk) [
    | err e d ↦
        close (fail_all (record c { decoder = d }) (Failure.framing_failed e))
          Failure.transport_closed
    | ok results d ↦ receive_all (record c { decoder = d }) results
  ]

  abbrev pub request_message : ℕ → String → Option (Params V) → RpcMessage V
  request_message id method params = record {
    id = some id;
    method = some method;
    params = params;
    result = none;
    error = none;
  }

  abbrev pub reject_new : RpcClientPeer V → Failure V → RpcClientPeer V
  reject_new c failure = record c {
    settled = c.settled ++ (c.next_promise, Outcome.rejected failure) ∷ [];
    next_promise = suc c.next_promise;
  }

  -- The last argument is what `send` throws.
  abbrev pub sending :
      RpcClientPeer V → String → Option (Params V) → Option String → RpcClientPeer V
  sending c method params none = record c {
    next_id = suc c.next_id;
    pending = set c.next_id c.next_promise c.pending;
    next_promise = suc c.next_promise;
    sent = c.sent ++ request_message c.next_id method params ∷ [];
  }
  sending c method params (some e) =
      reject_new
        (record c {
          next_id = suc c.next_id;
          pending = delete c.next_id (set c.next_id c.next_promise c.pending);
        })
        (Failure.send_failed e)

  -- The promise of `request` is the client's next one.
  unfoldable pub request :
      RpcClientPeer V → String → Option (Params V) → Option String → RpcClientPeer V
  request c method params thrown =
      if c.closed then reject_new c Failure.transport_is_closed else sending c method params thrown

  unfoldable pub on : RpcClientPeer V → String → ℕ → RpcClientPeer V
  on c channel listener = record c {
    channels = set channel (add listener (get_or (get channel c.channels) [])) c.channels;
  }

  -- What the handle of `on` does.
  unfoldable pub off : RpcClientPeer V → String → ℕ → RpcClientPeer V
  off c channel listener = elim (get channel c.channels) [
    | none ↦ c
    | some ls ↦ record c { channels = keep_channel c.channels channel (remove listener ls) }
  ]

  -- The server's side: what a handler gives back is a result or the message of what it throws.
  unfoldable pub reply_message : ℕ → Option V ⊎ String → RpcMessage V
  reply_message id (inl result) = record {
    id = some id;
    method = none;
    params = none;
    result = result;
    error = none;
  }
  reply_message id (inr message) = record {
    id = some id;
    method = none;
    params = none;
    result = none;
    error = some (some (record { code = provider_error; message = message }));
  }

  unfoldable pub reply : RpcServerPeer V → RpcMessage V → RpcServerPeer V
  reply s m = if s.closed then s else record s { sent = s.sent ++ m ∷ [] }

  abbrev pub event_message : String → V → RpcMessage V
  event_message channel event = record {
    id = none;
    method = some event_method;
    params = some (Params.event_params channel event);
    result = none;
    error = none;
  }

  unfoldable pub push_event : RpcServerPeer V → String → V → RpcServerPeer V
  push_event s channel event = reply s (event_message channel event)

  abbrev pub start_all : List (Option (RpcMessage V)) → List (RpcMessage V)
  start_all [] = []
  start_all (none ∷ ms) = start_all ms
  start_all (some m ∷ ms) = let rest = start_all ms in if is_request m then m ∷ rest else rest

  -- The requests that a chunk completes are handed to the handler.
  unfoldable pub ingest_requests :
      (List ℕ → Option (RpcMessage V)) → RpcServerPeer V → List ℕ → RpcServerPeer V
  ingest_requests decode_line s chunk = elim (push decode_line s.decoder chunk) [
    | err e d ↦ record s { decoder = d; closed = true }
    | ok results d ↦ record s { decoder = d; started = s.started ++ start_all results }
  ]
