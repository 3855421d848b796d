-- ===== src/Tests/Peers.antt =====
-- Witnesses for the peers: a client that asks for the sessions, with strings for JSON.
use capisco.Prelude.{
  ℕ, ◌≡◌, ◌⊎◌, inl, refl, Bool, true, false, Option, none, some, List, [], ◌∷◌, ◌++◌, String,
  string_eq, nat_eq,
}
use capisco.Prelude.Dict.{get, set}
use capisco.Prelude.Effect.{Run, ok}
use capisco.Streams.Ndjson.{NdjsonDecoder}
use capisco.Connections.{RpcMessage, Params, RpcClientPeer, new_client, request}
use capisco.Connections.Closing.{Event, requests, hears, happen_all}
use capisco.Connections.Wire.{Network, message_of, issue_of}
use capisco.Connections.Registry.{register}

abbrev decoder : NdjsonDecoder
decoder = record { buffer = []; max_line_bytes = 16777216 }

abbrev decode_line : List ℕ → Option (RpcMessage String)
decode_line line =
    some (record { id = some 1; method = none; params = none; result = some "[]"; error = none })

abbrev happened : List (Event String)
happened =
    requests "agent.listSessions" none none
    ∷ hears (49 ∷ 10 ∷ [])
    ∷ requests "agent.create" none (some "EPIPE")
    ∷ []

abbrev client : RpcClientPeer String
client = happen_all decode_line (new_client decoder) happened

abbrev network : Network String
network = record {
  client = new_client decoder;
  server = record { decoder = decoder; closed = false; started = []; sent = [] };
  to_server = [];
  to_client = [];
  issued = [];
}

-- The handler gives back the name of the method.
abbrev Echoes : String → Option (Params String) → Option String ⊎ String → Type 0
Echoes method params a = a ≡ inl (some method)

abbrev after_call : Network String
after_call = record network {
  client = request network.client "agent.listSessions" none none;
  to_server = [] ++ message_of (issue_of network.client "agent.listSessions" none) ∷ [];
  issued = [] ++ issue_of network.client "agent.listSessions" none ∷ [];
}

abbrev member : Bool → String → Option (List String → ℕ → Run ℕ String String)
member provider method = some (λ args w. ok method w)

agent_registered : register member [] "agent" true ≡ ok tt (("agent", true) ∷ [])
unfolding register get set
agent_registered = refl
