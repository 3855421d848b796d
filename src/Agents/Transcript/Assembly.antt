-- ===== src/Agents/Transcript/Assembly.antt =====
-- The transcript of a run of app/sidecar/acp/acp-session.ts, read off its events.
use capisco.Prelude.{
  ◌≡◌, refl, false, none, List, [], ◌∷◌, String, ◌==◌, string_eq, ==_iff, ==_refl, if◌then◌else◌,
  get_or, arith, inl, inr, Bool-cases, All, ap, sym, ◌∙◌,
}
use Prim.Native.String
use text.Mathlib.TextLemmas
use capisco.Prelude.Dict.{Dict, get, set, add, IsDict, get-set, set-IsDict}
use capisco.Prelude.Text.{is_empty}
use capisco.Sessions.{TranscriptBlock, message}
use capisco.Agents.Transcript.{SessionEvent, buffer_token}

-- The ids of the streamed messages, by their first delta.
pub message_ids : List String → List SessionEvent → List String
message_ids ks [] = ks
message_ids ks (SessionEvent.token m delta ∷ es) = message_ids (add m ks) es
message_ids ks (_ ∷ es) = message_ids ks es

-- All the deltas of a message, in order.
pub text_of : String → List SessionEvent → String
text_of m [] = ""
text_of m (SessionEvent.token k delta ∷ es) =
    let rest = text_of m es in if k == m then String.◌++◌ delta rest else rest
text_of m (_ ∷ es) = text_of m es

pub messages_of : List String → (String → String) → List TranscriptBlock
messages_of [] f = []
messages_of (k ∷ ks) f =
    let rest = messages_of ks f in if is_empty (f k) then rest else message k (f k) ∷ rest

-- The blocks that are appended at once.
unfoldable pub direct : List SessionEvent → List TranscriptBlock
direct [] = []
direct (SessionEvent.tool b kind target ∷ es) = TranscriptBlock.tool b kind target ∷ direct es
direct (SessionEvent.permission b command label ∷ es) =
    TranscriptBlock.permission b command label ∷ direct es
direct (_ ∷ es) = direct es

unfoldable pub buffered : Dict String String → List SessionEvent → Dict String String
buffered m [] = m
buffered m (SessionEvent.token k delta ∷ es) = buffered (buffer_token k delta m) es
buffered m (_ ∷ es) = buffered m es

keys : Dict String String → List String
keys [] = []
keys ((k, v) ∷ m) = k ∷ keys m

abbrev text_in : Dict String String → String → String
text_in m k = get_or (get k m) ""

keys-set : (k v : String) (m : Dict String String) → keys (set k v m) ≡ add k (keys m)
unfolding keys set add
keys-set k v [] = refl
keys-set k v ((j, w) ∷ m) = ground (arith, keys-set k v m)

keys-buffered :
    (m : Dict String String) (es : List SessionEvent)
    → keys (buffered m es) ≡ message_ids (keys m) es
unfolding buffered message_ids buffer_token
keys-buffered m [] = refl
keys-buffered m (SessionEvent.token k delta ∷ es) =
    keys-buffered (buffer_token k delta m) es
    ∙ ap (λ ks. message_ids ks es) (keys-set k (String.◌++◌ (text_in m k) delta) m)
keys-buffered m (SessionEvent.status x ∷ es) = keys-buffered m es
keys-buffered m (SessionEvent.tool a b c ∷ es) = keys-buffered m es
keys-buffered m (SessionEvent.permission a b c ∷ es) = keys-buffered m es
keys-buffered m (SessionEvent.telemetry x ∷ es) = keys-buffered m es
keys-buffered m (SessionEvent.done ∷ es) = keys-buffered m es

text_in-buffer_token :
    (m : Dict String String) (k j delta : String)
    → text_in (buffer_token k delta m) j
      ≡ (if k == j then String.◌++◌ (text_in m j) delta else text_in m j)
unfolding buffer_token
text_in-buffer_token m k j delta = elim (Bool-cases (k == j)) [
  | inl t ↦
      rw (get-set k j (String.◌++◌ (text_in m k) delta) m, t)
        (ap (λ i. String.◌++◌ (text_in m i) delta) ((==_iff k j).0 t))
  | inr t ↦ rw (get-set k j (String.◌++◌ (text_in m k) delta) m, t) refl
]

text_in-buffered :
    (m : Dict String String) (j : String) (es : List SessionEvent)
    → text_in (buffered m es) j ≡ String.◌++◌ (text_in m j) (text_of j es)
unfolding buffered text_of
text_in-buffered m j [] = sym (TextLemmas.append-nil (text_in m j))
text_in-buffered m j (SessionEvent.token k delta ∷ es) =
    let step = text_in-buffer_token m k j delta in
    elim (Bool-cases (k == j)) [
      | inl t ↦ rw t (
          text_in-buffered (buffer_token k delta m) j es
          ∙ ap (λ x. String.◌++◌ x (text_of j es)) (rw t at step)
          ∙ TextLemmas.append_assoc (text_in m j) delta (text_of j es))
      | inr t ↦ rw t (
          text_in-buffered (buffer_token k delta m) j es
          ∙ ap (λ x. String.◌++◌ x (text_of j es)) (rw t at step))
    ]
text_in-buffered m j (SessionEvent.status x ∷ es) = text_in-buffered m j es
text_in-buffered m j (SessionEvent.tool a b c ∷ es) = text_in-buffered m j es
text_in-buffered m j (SessionEvent.permission a b c ∷ es) = text_in-buffered m j es
text_in-buffered m j (SessionEvent.telemetry x ∷ es) = text_in-buffered m j es
text_in-buffered m j (SessionEvent.done ∷ es) = text_in-buffered m j es

buffered-IsDict :
    (m : Dict String String) (es : List SessionEvent) → IsDict m → IsDict (buffered m es)
unfolding buffered buffer_token
buffered-IsDict m [] h = h
buffered-IsDict m (SessionEvent.token k delta ∷ es) h =
    buffered-IsDict (buffer_token k delta m) es (set-IsDict k (String.◌++◌ (text_in m k) delta) m h)
buffered-IsDict m (SessionEvent.status x ∷ es) h = buffered-IsDict m es h
buffered-IsDict m (SessionEvent.tool a b c ∷ es) h = buffered-IsDict m es h
buffered-IsDict m (SessionEvent.permission a b c ∷ es) h = buffered-IsDict m es h
buffered-IsDict m (SessionEvent.telemetry x ∷ es) h = buffered-IsDict m es h
buffered-IsDict m (SessionEvent.done ∷ es) h = buffered-IsDict m es h

pub messages_of-same :
    (ks : List String) (f g : String → String)
    → All (λ k. f k ≡ g k) ks
    → messages_of ks f ≡ messages_of ks g
unfolding messages_of
messages_of-same [] f g h = refl
messages_of-same (k ∷ ks) f g (h, hs) = rw (h, messages_of-same ks f g hs) refl

-- A key that is not there is none of the keys.
keys-differ :
    (k : String) (m : Dict String String) → get k m ≡ none → All (λ j. (k == j) ≡ false) (keys m)
unfolding get keys
keys-differ k [] h = tt
keys-differ k ((j, v) ∷ m) h = elim (Bool-cases (j == k)) [
  | inl t ↦ absurd (cc (rw t at h))
  | inr t ↦ (ground (arith, ==_iff k j, ==_iff j k), keys-differ k m (rw t at h))
]

tail-texts :
    (k v : String) (m : Dict String String) (ks : List String)
    → All (λ j. (k == j) ≡ false) ks
    → All (λ j. text_in m j ≡ text_in ((k, v) ∷ m) j) ks
unfolding get
tail-texts k v m [] h = tt
tail-texts k v m (j ∷ ks) (h, hs) = (rw h refl, tail-texts k v m ks hs)

-- What the flush writes for a buffer, entry by entry.
unfoldable pub flushed : Dict String String → List TranscriptBlock
flushed [] = []
flushed ((k, v) ∷ m) = let rest = flushed m in if is_empty v then rest else message k v ∷ rest

flushed-messages_of :
    (m : Dict String String) → IsDict m → flushed m ≡ messages_of (keys m) (text_in m)
unfolding flushed messages_of keys get
flushed-messages_of [] h = refl
flushed-messages_of ((k, v) ∷ m) (h, hs) = rw (==_refl k) (
    ap (λ (rest : List TranscriptBlock). if is_empty v then rest else message k v ∷ rest)
      (flushed-messages_of m hs
        ∙ messages_of-same (keys m) (text_in m) (text_in ((k, v) ∷ m))
            (tail-texts k v m (keys m) (keys-differ k m h))))

All-texts :
    (es : List SessionEvent) (ks : List String)
    → All (λ j. text_in (buffered [] es) j ≡ text_of j es) ks
unfolding get
All-texts es [] = tt
All-texts es (k ∷ ks) =
    (text_in-buffered [] k es ∙ TextLemmas.nil-append (text_of k es), All-texts es ks)

-- The buffer of a run holds one message for each id, in the order of their first deltas.
pub flushed-buffered :
    (es : List SessionEvent)
    → flushed (buffered [] es) ≡ messages_of (message_ids [] es) (λ k. text_of k es)
unfolding keys
flushed-buffered es =
    flushed-messages_of (buffered [] es) (buffered-IsDict [] es tt)
    ∙ ap (λ ks. messages_of ks (text_in (buffered [] es))) (keys-buffered [] es)
    ∙ messages_of-same (message_ids [] es) (text_in (buffered [] es)) (λ k. text_of k es)
        (All-texts es (message_ids [] es))
