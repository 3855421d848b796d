-- ===== src/Connections/Closing.antt =====
-- The runs of a client of app/src/lib/sidecar/protocol/peer.ts.
use capisco.Prelude.{ℕ, ◌≡◌, ◌≢◌, Option, none, some, List, [], ◌∷◌, String, string_eq, nat_eq}
use capisco.Prelude.Dict.{get, remove}
use capisco.Prelude.Effect.{Run, ok, err}
use capisco.Streams.Ndjson.{NdjsonDecoder, FramingError, push}
use capisco.Connections.{
  RpcMessage, Params, Failure, RpcClientPeer, fail_all, receive_all, close, ingest, request, on,
  off, keep_channel,
}
use capisco.Connections.Correlation.{
  IsCorrelated, fail_all-IsCorrelated, request-IsCorrelated, receive_all-IsCorrelated,
  close-IsCorrelated,
}

-- What happens to a client. The decoder's parser is `decode_line`.
pub data Event (V : Type 0) : Type 0 where
  requests : String → Option (Params V) → Option String → Event V
  hears : List ℕ → Event V
  subscribes unsubscribes : String → ℕ → Event V
  closes : Failure V → Event V

module _ {V : Type 0} (decode_line : List ℕ → Option (RpcMessage V)) where
  abbrev pub happen : RpcClientPeer V → Event V → RpcClientPeer V
  happen c (requests method params thrown) = request c method params thrown
  happen c (hears chunk) = ingest decode_line c chunk
  happen c (subscribes channel listener) = on c channel listener
  happen c (unsubscribes channel listener) = off c channel listener
  happen c (closes failure) = close c failure

  unfoldable pub happen_all : RpcClientPeer V → List (Event V) → RpcClientPeer V
  happen_all c [] = c
  happen_all c (e ∷ es) = happen_all (happen c e) es

  ingest-IsCorrelated :
      (c : RpcClientPeer V) (chunk : List ℕ)
      → IsCorrelated c
      → IsCorrelated (ingest decode_line c chunk)
  unfolding ingest
  ingest-IsCorrelated c chunk h = by_push (push decode_line c.decoder chunk)
    where
      by_push :
          (x : Run NdjsonDecoder FramingError (List (Option (RpcMessage V))))
          → IsCorrelated (elim x as (λ x. RpcClientPeer V) [
            | err e d ↦
                close
                  (fail_all (record c { decoder = d }) (Failure.framing_failed e))
                  Failure.transport_closed
            | ok results d ↦ receive_all (record c { decoder = d }) results
          ])
      by_push (err e d) =
          close-IsCorrelated (fail_all (record c { decoder = d }) (Failure.framing_failed e))
            Failure.transport_closed
            (fail_all-IsCorrelated (record c { decoder = d }) (Failure.framing_failed e)
              (record { dict = h.dict; old = h.old; once = h.once }))
      by_push (ok results d) =
          receive_all-IsCorrelated (record c { decoder = d }) results
            (record { dict = h.dict; old = h.old; once = h.once })

  happen-IsCorrelated :
      (c : RpcClientPeer V) (e : Event V) → IsCorrelated c → IsCorrelated (happen c e)
  unfolding on off
  happen-IsCorrelated c (requests method params thrown) h =
      request-IsCorrelated c method params thrown h
  happen-IsCorrelated c (hears chunk) h = ingest-IsCorrelated c chunk h
  happen-IsCorrelated c (subscribes channel listener) h = record {
    dict = h.dict;
    old = h.old;
    once = h.once;
  }
  happen-IsCorrelated c (unsubscribes channel listener) h = by_channel (get channel c.channels)
    where
      by_channel :
          (o : Option (List ℕ))
          → IsCorrelated (elim o as (λ o. RpcClientPeer V) [
            | none ↦ c
            | some ls ↦ record c { channels = keep_channel c.channels channel (remove listener ls) }
          ])
      by_channel none = h
      by_channel (some ls) = record { dict = h.dict; old = h.old; once = h.once }
  happen-IsCorrelated c (closes failure) h = close-IsCorrelated c failure h

  pub happen_all-IsCorrelated :
      (c : RpcClientPeer V) (es : List (Event V)) → IsCorrelated c → IsCorrelated (happen_all c es)
  unfolding happen_all
  happen_all-IsCorrelated c [] h = h
  happen_all-IsCorrelated c (e ∷ es) h =
      happen_all-IsCorrelated (happen c e) es (happen-IsCorrelated c e h)

  -- No promise is stranded where no line decodes to a message whose error is null.
  module _
      (sane : (line : List ℕ) (m : RpcMessage V)
        → decode_line line ≡ some m
        → m.error ≢ some none) where
    abbrev IsSane : Option (RpcMessage V) → Type 0
    IsSane o = (m : RpcMessage V) → o ≡ some m → m.error ≢ some none
