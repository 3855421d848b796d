-- ===== src/Tests/Wires.antt =====
-- Witnesses for the streams.
use capisco.Prelude.{ℕ, ◌≡◌, refl, nat_eq, false, List, [], ◌∷◌, ◌++◌, arith}
use capisco.Prelude.Dict.{contains}
use capisco.Prelude.Effect.{ok}
use capisco.Streams.Ndjson.{NdjsonDecoder, newline, frames, flatten, push_all, push_all-frames}
use capisco.Streams.Coalescer.{
  new_coalescer, pushes, fires, disposes, Event, react_all, pushed, seen, IsArmed, react_all-seen,
}
use capisco.Streams.Latest
use capisco.Streams.Latest.{new_latest, Thins, react_all-Thins}

abbrev decode_line : List ℕ → List ℕ
decode_line line = line

abbrev decoder : NdjsonDecoder
decoder = record { buffer = 123 ∷ []; max_line_bytes = 16 }

-- A line that is cut in two, and the begin of another one.
abbrev chunks : List (List ℕ)
chunks = (125 ∷ []) ∷ (newline ∷ 91 ∷ []) ∷ []

partial_line : contains newline decoder.buffer ≡ false
unfolding contains
partial_line = refl

push_all-frames_example :
    push_all decode_line decoder chunks
    ≡ ok
        (frames decode_line decoder.buffer (flatten chunks)).0
        (record decoder { buffer = (frames decode_line decoder.buffer (flatten chunks)).1 })
push_all-frames_example = push_all-frames decode_line decoder chunks partial_line (omega arith)

abbrev events : List Event
events = pushes (1 ∷ 2 ∷ []) ∷ pushes (3 ∷ []) ∷ fires ∷ pushes (4 ∷ []) ∷ disposes ∷ []

react_all-seen_example : seen (react_all new_coalescer events) ≡ seen new_coalescer ++ pushed events
react_all-seen_example = react_all-seen new_coalescer events

new-IsArmed : IsArmed new_coalescer
new-IsArmed = record { armed = λ f. absurd (cc f); empty = λ f. refl }

abbrev values : List (Latest.Event ℕ)
values = Latest.pushes 1 ∷ Latest.pushes 2 ∷ Latest.fires ∷ Latest.pushes 3 ∷ Latest.disposes ∷ []

react_all-Thins_example :
    Thins
      (Latest.seen (Latest.react_all new_latest values))
      (Latest.seen {T = ℕ} new_latest ++ Latest.pushed values)
react_all-Thins_example = react_all-Thins new_latest values
