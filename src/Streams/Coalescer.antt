-- ===== src/Streams/Coalescer.antt =====
-- app/sidecar/ipc/coalescer.ts. The calls of `flush` are logged in `flushed`; `timer` says whether a
-- timer is set.
use capisco.Prelude.{
  ℕ, ◌≡◌, refl, ap, sym, ◌∙◌, Bool, true, false, not, List, [], ◌∷◌, ◌++◌, if◌then◌else◌,
  Bool-cases, inl, inr,
}
use mathlib.Core.List.{append-nil, append_assoc}

pub record StringCoalescer : Type 0 where
  pub pending : List ℕ
  pub has : Bool
  pub timer : Bool
  pub flushed : List (List ℕ)

abbrev pub new_coalescer : StringCoalescer
new_coalescer = record { pending = []; has = false; timer = false; flushed = [] }

-- With `#arm`, which sets a timer unless one is set.
unfoldable pub push : StringCoalescer → List ℕ → StringCoalescer
push s chunk = record s { pending = s.pending ++ chunk; has = true; timer = true }

unfoldable pub flush_now : StringCoalescer → StringCoalescer
flush_now s =
    if not s.has
    then s
    else record s { pending = []; has = false; flushed = s.flushed ++ s.pending ∷ [] }

-- The timer fires, where one is set.
unfoldable pub fire : StringCoalescer → StringCoalescer
fire s = if s.timer then flush_now (record s { timer = false }) else s

unfoldable pub dispose : StringCoalescer → StringCoalescer
dispose s = flush_now (record s { timer = false })

pub data Event : Type 0 where
  pushes : List ℕ → Event
  fires flushes disposes : Event

unfoldable pub react : StringCoalescer → Event → StringCoalescer
react s (pushes chunk) = push s chunk
react s fires = fire s
react s flushes = flush_now s
react s disposes = dispose s

abbrev pub react_all : StringCoalescer → List Event → StringCoalescer
react_all s [] = s
react_all s (e ∷ es) = react_all (react s e) es

abbrev pub flatten : List (List ℕ) → List ℕ
flatten [] = []
flatten (x ∷ xs) = x ++ flatten xs

-- What went in.
abbrev pub pushed : List Event → List ℕ
pushed [] = []
pushed (pushes chunk ∷ es) = chunk ++ pushed es
pushed (_ ∷ es) = pushed es

-- What came out, and what waits.
abbrev pub seen : StringCoalescer → List ℕ
seen s = flatten s.flushed ++ s.pending

-- Bytes wait only while a timer is set.
pub record IsArmed (s : StringCoalescer) : Type 0 where
  pub armed : s.has ≡ true → s.timer ≡ true
  pub empty : s.has ≡ false → s.pending ≡ []

flatten-snoc : (xs : List (List ℕ)) (x : List ℕ) → flatten (xs ++ x ∷ []) ≡ flatten xs ++ x
flatten-snoc [] x = append-nil x
flatten-snoc (y ∷ ys) x = ap (λ l. y ++ l) (flatten-snoc ys x) ∙ sym (append_assoc y (flatten ys) x)

flush_now-seen : (s : StringCoalescer) → seen (flush_now s) ≡ seen s
unfolding flush_now
flush_now-seen s = elim (Bool-cases s.has) [
  | inr h ↦ rw h refl
  | inl h ↦
      rw h (append-nil (flatten (s.flushed ++ s.pending ∷ [])) ∙ flatten-snoc s.flushed s.pending)
]

react-seen :
    (s : StringCoalescer) (e : Event) (es : List Event)
    → seen (react s e) ++ pushed es ≡ seen s ++ pushed (e ∷ es)
unfolding react push fire dispose
react-seen s (pushes chunk) es =
    ap (λ l. l ++ pushed es) (sym (append_assoc (flatten s.flushed) s.pending chunk))
    ∙ append_assoc (seen s) chunk (pushed es)
react-seen s fires es = ap (λ l. l ++ pushed es) (fired s.timer)
  where
    fired : (t : Bool) → seen (if t then flush_now (record s { timer = false }) else s) ≡ seen s
    fired true = flush_now-seen (record s { timer = false })
    fired false = refl
react-seen s flushes es = ap (λ l. l ++ pushed es) (flush_now-seen s)
react-seen s disposes es = ap (λ l. l ++ pushed es) (flush_now-seen (record s { timer = false }))

-- No byte is lost, repeated or reordered: after any pushes, timers, flushes and disposals, what was
-- flushed followed by what is pending is what was there before followed by all that was pushed.
pub react_all-seen :
    (s : StringCoalescer) (es : List Event) → seen (react_all s es) ≡ seen s ++ pushed es
react_all-seen s [] = sym (append-nil (seen s))
react_all-seen s (e ∷ es) = react_all-seen (react s e) es ∙ react-seen s e es

flush_now-IsArmed :
    (s : StringCoalescer) (t : Bool)
    → (s.has ≡ false → s.pending ≡ [])
    → IsArmed (flush_now (record s { timer = t }))
unfolding flush_now
flush_now-IsArmed s t h = flushed s.has refl
  where
    flushed :
        (b : Bool)
        → s.has ≡ b
        → IsArmed (
            if not b then record s { timer = t } else record s {
              timer = t;
              pending = [];
              has = false;
              flushed = s.flushed ++ s.pending ∷ [];
            })
    flushed true e = record { armed = λ f. absurd (cc f); empty = λ f. refl }
    flushed false e = record { armed = λ f. absurd (cc (e, f)); empty = λ f. h f }

-- Bytes are never stranded: each event keeps it that while something waits to be flushed a timer is
-- set, and that while nothing waits no byte is pending.
pub react-IsArmed : (s : StringCoalescer) (e : Event) → IsArmed s → IsArmed (react s e)
unfolding react push fire dispose
react-IsArmed s (pushes chunk) h = record { armed = λ f. refl; empty = λ f. absurd (cc f) }
react-IsArmed s fires h = fired s.timer
  where
    fired : (t : Bool) → IsArmed (if t then flush_now (record s { timer = false }) else s)
    fired true = flush_now-IsArmed s false h.empty
    fired false = h
react-IsArmed s flushes h = flush_now-IsArmed s s.timer h.empty
react-IsArmed s disposes h = flush_now-IsArmed s false h.empty
