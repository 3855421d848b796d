-- ===== src/Connections/Wire/Failing.antt =====
-- The steps of the peers of app/src/lib/sidecar/protocol/peer.ts that answer no call: events,
-- subscriptions, and what fails.
use capisco.Prelude.{
  ℕ, ◌≡◌, ◌⊎◌, inl, inr, Bool, true, false, Option, none, some, List, [], ◌∷◌, ◌++◌, map, String,
  string_eq, if◌then◌else◌, arith, In-cases_last, subst, sym, nat_eq,
}
use mathlib.Core.List.{append-nil}
use capisco.Prelude.Dict.{Dict, get, set, remove, get-set, get-delete}
use capisco.Streams.Ndjson.{NdjsonDecoder, FramingError}
use capisco.Connections.{
  RpcMessage, Params, Failure, Outcome, RpcClientPeer, RpcServerPeer, close, fail_all, reply,
  push_event, event_message, request, on, off, keep_channel,
}
use capisco.Connections.Correlation.{
  IsCorrelated, request-IsCorrelated, fail_all-IsCorrelated, close-IsCorrelated,
}
use capisco.Connections.Wire.{Network, view, CallStep, idles, fails}
use capisco.Connections.Wire.Replies.{
  request-open, request-closed, next-open, All-waiting, All-open, reject_each,
}
use capisco.Connections.Wire.Wired.{IsWired, Refined}

module _ {V : Type 0} (Handles : String → Option (Params V) → Option V ⊎ String → Type 0) where
  -- The promises in the table fail together.
  failing :
      (n : Network V) (f : Failure V)
      → IsWired Handles n
      → CallStep Handles (view n) (record {
        made = n.issued;
        settled = n.client.settled ++ map (λ x. (x.1, Outcome.rejected f)) n.client.pending;
      })
  failing n f w =
      subst
        (λ l.
          CallStep Handles (view n) (record { made = n.issued; settled = n.client.settled ++ l }))
        (reject_each n.client.pending f)
        (fails (map (λ x. x.1) n.client.pending) f (
          All-open n.client w.correlated (map (λ x. x.1) n.client.pending)
            (All-waiting n.client.pending n.client.pending (λ m. omega arith))))

  pub closed_down :
      (n : Network V) (f : Failure V)
      → IsWired Handles n
      → Refined Handles n (record n { client = close n.client f })
  unfolding close fail_all get
  closed_down n f w = (
    record {
      correlated = close-IsCorrelated n.client f w.correlated;
      below = w.below;
      unique = w.unique;
      table = λ id p h. absurd (cc h);
      asked = w.asked;
      begun = w.begun;
      answered = w.answered;
    },
    failing n f w,
  )

  pub garbled :
      (n : Network V) (e : FramingError) (d : NdjsonDecoder)
      → IsWired Handles n
      → Refined Handles n (record n {
        client =
            close
              (fail_all (record n.client { decoder = d }) (Failure.framing_failed e))
              Failure.transport_closed;
      })
  unfolding close fail_all get
  garbled n e d w = (
    record {
      correlated =
          close-IsCorrelated (fail_all (record n.client { decoder = d }) (Failure.framing_failed e))
            Failure.transport_closed
            (fail_all-IsCorrelated (record n.client { decoder = d }) (Failure.framing_failed e)
              (record {
                dict = w.correlated.dict;
                old = w.correlated.old;
                once = w.correlated.once;
              }));
      below = w.below;
      unique = w.unique;
      table = λ id p h. absurd (cc h);
      asked = w.asked;
      begun = w.begun;
      answered = w.answered;
    },
    subst (λ l. CallStep Handles (view n) (record { made = n.issued; settled = l }))
        (sym (append-nil _)) (failing n (Failure.framing_failed e) w),
  )

  pub lost :
      (n : Network V) (method : String) (params : Option (Params V)) (thrown : String)
      → n.client.closed ≡ false
      → IsWired Handles n
      → Refined Handles n (record n { client = request n.client method params (some thrown) })
  lost n method params thrown o w =
      subst (λ c. Refined Handles n (record n { client = c }))
        (sym (request-open n.client method params (some thrown) o))
        (
          record {
            correlated =
                subst IsCorrelated (request-open n.client method params (some thrown) o)
                  (request-IsCorrelated n.client method params (some thrown) w.correlated);
            below = λ i h. omega (arith, w.below i h);
            unique = w.unique;
            table = λ id p h. w.table id p (
                ground (
                  arith,
                  h,
                  get-delete n.client.next_id id
                      (set n.client.next_id n.client.next_promise n.client.pending),
                  get-set n.client.next_id id n.client.next_promise n.client.pending,
                ));
            asked = w.asked;
            begun = w.begun;
            answered = w.answered;
          },
          fails (n.client.next_promise ∷ []) (Failure.send_failed thrown)
              (next-open n.client w.correlated, tt),
        )

  pub refused :
      (n : Network V) (method : String) (params : Option (Params V)) (thrown : Option String)
      → n.client.closed ≡ true
      → IsWired Handles n
      → Refined Handles n (record n { client = request n.client method params thrown })
  refused n method params thrown o w =
      subst (λ c. Refined Handles n (record n { client = c }))
        (sym (request-closed n.client method params thrown o))
        (
          record {
            correlated =
                subst IsCorrelated (request-closed n.client method params thrown o)
                  (request-IsCorrelated n.client method params thrown w.correlated);
            below = w.below;
            unique = w.unique;
            table = w.table;
            asked = w.asked;
            begun = w.begun;
            answered = w.answered;
          },
          fails (n.client.next_promise ∷ []) Failure.transport_is_closed
              (next-open n.client w.correlated, tt),
        )

  -- A step of the server that starts nothing and sends at most what is expected.
  pub pushed :
      (n : Network V) (channel : String) (event : V)
      → IsWired Handles n
      → Refined Handles n (record n {
        server = push_event n.server channel event;
        to_client =
            if n.server.closed
            then n.to_client
            else n.to_client ++ event_message channel event ∷ [];
      })
  unfolding push_event reply
  pushed n channel event w = by_closed n.server.closed
    where
      m : RpcMessage V
      m = event_message channel event

      by_closed :
          (b : Bool)
          → Refined Handles n (record n {
            server =
                if◌then◌else◌ {A = RpcServerPeer V} b n.server
                  (record n.server { sent = n.server.sent ++ m ∷ [] });
            to_client =
                if◌then◌else◌ {A = List (RpcMessage V)} b n.to_client (n.to_client ++ m ∷ []);
          })
      by_closed true = (w, idles)
      by_closed false = (
        record {
          correlated = w.correlated;
          below = w.below;
          unique = w.unique;
          table = w.table;
          asked = w.asked;
          begun = w.begun;
          answered = λ x h. elim (In-cases_last x m n.to_client h) [
            | inl old ↦ w.answered x old
            | inr same ↦ inr (channel, event, same)
          ];
        },
        idles,
      )

  pub shut :
      (n : Network V)
      → IsWired Handles n
      → Refined Handles n (record n { server = record n.server { closed = true } })
  shut n w = (
    record {
      correlated = w.correlated;
      below = w.below;
      unique = w.unique;
      table = w.table;
      asked = w.asked;
      begun = w.begun;
      answered = w.answered;
    },
    idles,
  )

  -- Subscriptions leave the calls alone.
  rechanneled :
      (n : Network V) (channels : Dict String (List ℕ))
      → IsWired Handles n
      → Refined Handles n (record n { client = record n.client { channels = channels } })
  rechanneled n channels w = (
    record {
      correlated = record {
        dict = w.correlated.dict;
        old = w.correlated.old;
        once = w.correlated.once;
      };
      below = w.below;
      unique = w.unique;
      table = w.table;
      asked = w.asked;
      begun = w.begun;
      answered = w.answered;
    },
    idles,
  )

  pub subscribed :
      (n : Network V) (channel : String) (listener : ℕ)
      → IsWired Handles n
      → Refined Handles n (record n { client = on n.client channel listener })
  unfolding on
  subscribed n channel listener w = rechanneled n _ w

  pub unsubscribed :
      (n : Network V) (channel : String) (listener : ℕ)
      → IsWired Handles n
      → Refined Handles n (record n { client = off n.client channel listener })
  unfolding off
  unsubscribed n channel listener w = by_channel (get channel n.client.channels)
    where
      by_channel :
          (o : Option (List ℕ))
          → Refined Handles n (record n {
            client = elim o as (λ o. RpcClientPeer V) [
              | none ↦ n.client
              | some ls ↦ record n.client {
                channels = keep_channel n.client.channels channel (remove listener ls);
              }
            ];
          })
      by_channel none = (w, idles)
      by_channel (some ls) =
          rechanneled n (keep_channel n.client.channels channel (remove listener ls)) w
