-- ===== src/Agents/Transcript/Turns.antt =====
-- The notifications of a run of app/sidecar/acp/acp-session.ts in any interleaving of their handlers.
use capisco.Prelude.{
  ℕ, zero, suc, ◌+◌, ◌≡◌, ◌⊎◌, refl, false, some, List, [], ◌∷◌, ◌++◌, String, string_eq, map, All,
  ap, sym, ◌∙◌, subst, inl, inr, Bool-cases, Option-cases, if◌then◌else◌, arith,
}
use mathlib.Core.List.{append-nil, append_assoc}
use capisco.Prelude.Dict.{Dict, get}
use capisco.Prelude.Effect.{state}
use capisco.Sessions.{TranscriptBlock, SessionRecord}
use capisco.Agents.Transcript.{
  SessionEvent, AgentNotification, Live, is_done, begin_notification, resume_notification, Turn,
  arrives, resumes, take_at, resume_taken, take_turn, run_turns,
}
use capisco.Agents.Transcript.Assembly.{
  message_ids, text_of, messages_of, direct, buffered, flushed, flushed-buffered,
}
use capisco.Agents.Transcript.Durable.{Saw, note, event-Applied, direct-cons, buffered-cons}
use capisco.Agents.Transcript.Reply.{Finished, other-runs, done-Finished}

-- The same events, as often, in any order.
abbrev pub Rearranges : List SessionEvent → List SessionEvent → Type 0
Rearranges [] ys = ys ≡ []
Rearranges (x ∷ xs) ys = (a b : List SessionEvent) × (ys ≡ a ++ x ∷ b) × Rearranges xs (a ++ b)

-- The notifications that arrive in the course of some turns.
abbrev pub arrivals : List Turn → List AgentNotification
arrivals [] = []
arrivals (arrives n ∷ ts) = n ∷ arrivals ts
arrivals (resumes i ∷ ts) = arrivals ts

dones : List SessionEvent → ℕ
dones [] = 0
dones (e ∷ es) = (if is_done e then 1 else 0) + dones es

dones-append : (xs ys : List SessionEvent) → dones (xs ++ ys) ≡ dones xs + dones ys
unfolding dones
dones-append [] ys = omega arith
dones-append (x ∷ xs) ys = omega (arith, dones-append xs ys)

dones-none : (es : List SessionEvent) → All (λ e. is_done e ≡ false) es → dones es ≡ 0
unfolding dones
dones-none [] h = refl
dones-none (e ∷ es) (h, hs) = rw h (omega (arith, dones-none es hs))

taken_at :
    (i : ℕ) (w : List SessionEvent) (e : SessionEvent) (rest : List SessionEvent)
    → take_at i w ≡ some (e, rest)
    → (a b : List SessionEvent) × (w ≡ a ++ e ∷ b) × (rest ≡ a ++ b)
unfolding take_at
taken_at i [] e rest h = absurd (cc h)
taken_at zero (x ∷ w) e rest h = ([], w, cc h, cc h)
taken_at (suc i) (x ∷ w) e rest h = elim (Option-cases (take_at i w)) [
  | inl f ↦ absurd (cc (rw f at h))
  | inr ((y, left), f) ↦
      let (a, b, p, q) = taken_at i w y left f in
      let g : some (y, x ∷ left) ≡ some (e, rest) = rw f at h in (x ∷ a, b, cc (p, g), cc (q, g))
]

dones-taken :
    (a b : List SessionEvent) (e : SessionEvent)
    → dones (a ++ e ∷ b) ≡ (if is_done e then 1 else 0) + dones (a ++ b)
unfolding dones
dones-taken a b e = omega (arith, dones-append a (e ∷ b), dones-append a b)

-- What the subscribers hear from `v` on is what waits and what arrives.
Heard : Live → Live → List SessionEvent → Type 0
Heard v v' es =
    (new : List SessionEvent) × (v'.emitted ≡ v.emitted ++ new) × Rearranges new (v.waiting ++ es)

-- One handler goes on and calls the subscribers.
hears :
    (v u v' : Live) (e : SessionEvent) (a b es : List SessionEvent)
    → v.waiting ≡ a ++ e ∷ b
    → u.waiting ≡ a ++ b
    → u.emitted ≡ v.emitted ++ e ∷ []
    → Heard u v' es
    → Heard v v' es
unfolding Heard
hears v u v' e a b es p q r (new, h, k) = (
  e ∷ new,
  h ∙ ap (λ l. l ++ new) r ∙ append_assoc v.emitted (e ∷ []) new,
  (
    a,
    b ++ es,
    ap (λ l. l ++ es) p ∙ append_assoc a (e ∷ b) es,
    subst (Rearranges new) (ap (λ l. l ++ es) q ∙ append_assoc a b es) k,
  ),
)

-- A notification arrives, and its handler waits.
waits :
    (v u v' : Live) (e : SessionEvent) (es : List SessionEvent)
    → u.waiting ≡ v.waiting ++ e ∷ []
    → u.emitted ≡ v.emitted
    → Heard u v' es
    → Heard v v' (e ∷ es)
unfolding Heard
waits v u v' e es p q (new, h, k) = (
  new,
  h ∙ ap (λ l. l ++ new) q,
  subst (Rearranges new) (ap (λ l. l ++ es) p ∙ append_assoc v.waiting (e ∷ []) es) k,
)

hears_nothing : (v : Live) → v.waiting ≡ [] → Heard v v []
unfolding Heard
hears_nothing v h = ([], sym (append-nil v.emitted), append-nil v.waiting ∙ h)

-- A turn on which a handler goes on, where there is one.
resume-cases :
    (id : String) (v : Live) (i : ℕ)
    → (take_turn id v (resumes i) ≡ v)
      ⊎ ((e : SessionEvent) × (a b : List SessionEvent) × (v.waiting ≡ a ++ e ∷ b)
          × (dones v.waiting ≡ (if is_done e then 1 else 0) + dones (a ++ b))
          × (take_turn id v (resumes i)
              ≡ state (resume_notification id (record v { waiting = a ++ b }) e)))
unfolding take_turn
resume-cases id v i = elim (Option-cases (take_at i v.waiting)) [
  | inl h ↦ inl (rw (h, resume_taken) refl)
  | inr ((e, rest), h) ↦
      let (a, b, p, r) = taken_at i v.waiting e rest h in
      inr (
        e,
        a,
        b,
        p,
        ap dones p ∙ dones-taken a b e,
        rw (h, resume_taken)
            (ap (λ l. state (resume_notification id (record v { waiting = l }) e)) r),
      )
]

-- Such a turn, where it is not the handler of `done`.
abbrev Speaks : String → Live → ℕ → SessionEvent → Type 0
Speaks id v i e =
    (a b : List SessionEvent) × (v.waiting ≡ a ++ e ∷ b)
    × (dones (a ++ b) ≡ dones v.waiting)
    × (take_turn id v (resumes i) ≡ record v { waiting = a ++ b; emitted = v.emitted ++ e ∷ [] })

speaks :
    (id : String) (v : Live) (i : ℕ) (e : SessionEvent) (a b : List SessionEvent)
    → is_done e ≡ false
    → v.waiting ≡ a ++ e ∷ b
    → dones v.waiting ≡ (if is_done e then 1 else 0) + dones (a ++ b)
    → take_turn id v (resumes i) ≡ state (resume_notification id (record v { waiting = a ++ b }) e)
    → Speaks id v i e
speaks id v i e a b d p c s = (
  a,
  b,
  p,
  omega (arith, rw d at c),
  s ∙ ap state (other-runs id (record v { waiting = a ++ b }) e d),
)

quiet :
    (id : String) (v : Live) (i : ℕ)
    → dones v.waiting ≡ 0
    → (take_turn id v (resumes i) ≡ v) ⊎ ((e : SessionEvent) × Speaks id v i e)
quiet id v i n = elim (resume-cases id v i) [
  | inl same ↦ inl same
  | inr (e, a, b, p, c, s) ↦ elim (Bool-cases (is_done e)) [
    | inl d ↦ absurd (omega (arith, n, rw d at c))
    | inr d ↦ inr (e, speaks id v i e a b d p c s)
  ]
]

module _ (id : String) (all : List TranscriptBlock) where
  -- The turns from `u` on end the run, and its subscribers hear what `v` still owes them.
  Ends : Live → List SessionEvent → List Turn → Live → Type 0
  Ends v es ts u =
      (run_turns id u ts).waiting ≡ []
      → Finished id all (run_turns id u ts) × Heard v (run_turns id u ts) es

  -- A handler other than that of `done` has gone on.
  spoke :
      (v : Live) (i : ℕ) (e : SessionEvent) (es : List SessionEvent) (ts : List Turn)
      (s : Speaks id v i e)
      → (let u : Live = record v { waiting = s.0 ++ s.1; emitted = v.emitted ++ e ∷ [] } in
          Ends u es ts u)
      → Ends v es ts (take_turn id v (resumes i))
  unfolding Ends
  spoke v i e es ts (a, b, p, m, s) k =
      let u : Live = record v { waiting = a ++ b; emitted = v.emitted ++ e ∷ [] } in
      subst (Ends v es ts) (sym s)
        (λ z. let (f, h) = k z in (f, hears v u (run_turns id u ts) e a b es p refl refl h))

  after_done :
      (v : Live) (ts : List Turn)
      → dones v.waiting ≡ 0
      → Finished id all v
      → arrivals ts ≡ []
      → Ends v [] ts v
  unfolding run_turns Ends
  after_done v [] n f q = λ z. (f, hears_nothing v z)
  after_done v (arrives x ∷ ts) n f q = absurd (cc q)
  after_done v (resumes i ∷ ts) n f q = elim (quiet id v i n) [
    | inl same ↦ subst (Ends v [] ts) (sym same) (after_done v ts n f q)
    | inr (e, s) ↦
        let u : Live = record v { waiting = s.0 ++ s.1; emitted = v.emitted ++ e ∷ [] } in
        spoke v i e [] ts s (
          after_done u ts (s.3 ∙ n)
            (record {
              session = f.session;
              found = f.found;
              blocks = f.blocks;
              status = f.status;
              buffer = f.buffer;
              finished = f.finished;
            })
            q)
  ]

  until_done :
      (bs : List TranscriptBlock) (buf : Dict String String) (v : Live) (ts : List Turn)
      → all ≡ bs ++ flushed buf
      → dones v.waiting ≡ 1
      → Saw id bs buf v
      → arrivals ts ≡ []
      → Ends v [] ts v
  unfolding run_turns Ends dones
  until_done bs buf v [] eq n w q = λ z. absurd (omega (arith, n, ap dones z))
  until_done bs buf v (arrives x ∷ ts) eq n w q = absurd (cc q)
  until_done bs buf v (resumes i ∷ ts) eq n w q = elim (resume-cases id v i) [
    | inl same ↦ subst (Ends v [] ts) (sym same) (until_done bs buf v ts eq n w q)
    | inr (e, a, b, p, c, s) ↦ elim (Bool-cases (is_done e)) [
      | inr d ↦
          let t = speaks id v i e a b d p c s in
          let u : Live = record v { waiting = t.0 ++ t.1; emitted = v.emitted ++ e ∷ [] } in
          spoke v i e [] ts t (
            until_done bs buf u ts eq (t.3 ∙ n) (record { stores = w.stores; buffer = w.buffer }) q)
      | inl d ↦
          let u : Live = record v { waiting = a ++ b } in
          let (v', g, f, h, k) =
            done-Finished id bs buf u e d (record { stores = w.stores; buffer = w.buffer }) in
          let left : dones v'.waiting ≡ 0 = omega (arith, n, rw d at c, ap dones h) in
          subst (Ends v [] ts) (sym (s ∙ ap state g)) (λ z.
            let (f', h') = after_done v' ts left (subst (λ l. Finished id l v') (sym eq) f) q z in
            (f', hears v v' (run_turns id v' ts) e a b [] p h k h'))
    ]
  ]

  streaming :
      (bs : List TranscriptBlock) (buf : Dict String String) (es : List SessionEvent) (v : Live)
      (ts : List Turn)
      → all ≡ (bs ++ direct es) ++ flushed (buffered buf es)
      → All (λ e. is_done e ≡ false) es
      → dones v.waiting ≡ 0
      → Saw id bs buf v
      → arrivals ts ≡ map note (es ++ SessionEvent.done ∷ [])
      → Ends v (es ++ SessionEvent.done ∷ []) ts v
  unfolding run_turns Ends dones take_turn direct buffered
  streaming bs buf [] v [] eq o n w q = absurd (cc q)
  streaming bs buf (e ∷ es) v [] eq o n w q = absurd (cc q)
  streaming bs buf [] v (arrives x ∷ ts) eq o n w q =
      let (v', g, w', p, h) = event-Applied id bs buf v SessionEvent.done w in
      let same : x ≡ note SessionEvent.done = cc q in
      let one : dones v'.waiting ≡ 1 =
        omega (arith, n, ap dones p, dones-append v.waiting (SessionEvent.done ∷ [])) in
      subst (Ends v (SessionEvent.done ∷ []) ts)
        (sym (ap (λ y. state (begin_notification id v y)) same ∙ ap state g))
        (λ z.
          let (f, k) = until_done (bs ++ []) buf v' ts eq one w' (cc q) z in
          (f, waits v v' (run_turns id v' ts) SessionEvent.done [] p h k))
  streaming bs buf (e ∷ es) v (arrives x ∷ ts) eq (o, os) n w q =
      let (v', g, w', p, h) = event-Applied id bs buf v e w in
      let same : x ≡ note e = cc q in
      let still : dones v'.waiting ≡ 0 =
        omega
          (arith, n, ap dones p, dones-append v.waiting (e ∷ []), dones-none (e ∷ []) (o, tt)) in
      let eq' : all
          ≡ ((bs ++ direct (e ∷ [])) ++ direct es)
            ++ flushed (buffered (buffered buf (e ∷ [])) es) =
        rw
          (
            append_assoc bs (direct (e ∷ [])) (direct es),
            sym (direct-cons e es),
            sym (buffered-cons buf e es),
          )
          eq in
      subst (Ends v (e ∷ es ++ SessionEvent.done ∷ []) ts)
        (sym (ap (λ y. state (begin_notification id v y)) same ∙ ap state g))
        (λ z.
          let (f, k) =
            streaming (bs ++ direct (e ∷ [])) (buffered buf (e ∷ [])) es v' ts eq' os still w'
              (cc q) z in
          (f, waits v v' (run_turns id v' ts) e (es ++ SessionEvent.done ∷ []) p h k))
  streaming bs buf es v (resumes i ∷ ts) eq o n w q = elim (quiet id v i n) [
    | inl same ↦
        subst (Ends v (es ++ SessionEvent.done ∷ []) ts) (sym same)
          (streaming bs buf es v ts eq o n w q)
    | inr (e, s) ↦
        let u : Live = record v { waiting = s.0 ++ s.1; emitted = v.emitted ++ e ∷ [] } in
        spoke v i e (es ++ SessionEvent.done ∷ []) ts s (
          streaming bs buf es u ts eq o (s.3 ∙ n) (record { stores = w.stores; buffer = w.buffer })
            q)
  ]

-- The transcript of a run, in any interleaving of the handlers that are not awaited: when the agent
-- streams events and then `done`, while any handlers that wait go on in between and none waits at the
-- end, the session keeps its blocks, then has the tool and permission blocks in the order in which they
-- arrived, then one message for each id of a streamed token, by the first token of each, whose body is
-- all its deltas in order, without the empty ones. The session is marked done and the buffer is empty.
-- The subscribers heard every event as often as it came, though not always in the order of arrival.
pub run_turns-Finished :
    (id : String) (v : Live) (r : SessionRecord) (es : List SessionEvent) (ts : List Turn)
    → get id v.store.sessions ≡ some r
    → v.token_buf ≡ []
    → v.waiting ≡ []
    → All (λ e. is_done e ≡ false) es
    → arrivals ts ≡ map note (es ++ SessionEvent.done ∷ [])
    → (run_turns id v ts).waiting ≡ []
    → let v' = run_turns id v ts in
      Finished id
        ((r.blocks ++ direct es) ++ messages_of (message_ids [] es) (λ k. text_of k es))
        v'
      × ((heard : List SessionEvent) × (v'.emitted ≡ v.emitted ++ heard)
          × Rearranges heard (es ++ SessionEvent.done ∷ []))
unfolding Ends Heard dones
run_turns-Finished id v r es ts h e n i q z =
    let (f, (heard, p, k)) =
      streaming id ((r.blocks ++ direct es) ++ messages_of (message_ids [] es) (λ k. text_of k es))
        r.blocks [] es v ts (ap (λ l. (r.blocks ++ direct es) ++ l) (sym (flushed-buffered es))) i
        (ap dones n)
        (record { stores = record { session = r; found = h; blocks = refl }; buffer = e }) q z in
    (f, (heard, p, subst (Rearranges heard) (ap (λ l. l ++ (es ++ SessionEvent.done ∷ [])) n) k))
