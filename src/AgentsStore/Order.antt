-- ===== src/AgentsStore/Order.antt =====
-- What the message queues of app/src/shell/agents/store.ts promise, and that they keep it. The operations
-- on one queue are described by what they leave where, without the code's own functions.
use capisco.Prelude.{
  ℕ, suc, zero, ◌≤◌, ◌<◌, ◌≡◌, ◌≢◌, ◌⊎◌, refl, inl, inr, true, false, ◌||◌, not, Option, none, some,
  List, [], ◌∷◌, ◌++◌, map, String, string_eq, if◌then◌else◌, leb, length, length-append, ◌==◌,
  nat_eq, Bool-cases, ap, subst, sym, ==_iff, arith, or-cases, leb→le,
}
use capisco.Prelude.Text.{trim}
use capisco.AgentsStore.{Units, AgentsState, QueuedMessage, filter}
use capisco.AgentsStore.Queue.{
  is_empty, take_out, put_in, move, edit_text, QueueOp, enqueues, dequeues, removes, reorders,
  edits, elsewhere, queue_of, on_queue,
}
use capisco.AgentsStore.Fifo.{run_queues, run_lists, run_queues_lists, replaced, next_seq}

-- Every message with this id is gone, the others stay in their order.
abbrev pub Removed : ℕ → List QueuedMessage → List QueuedMessage → Type 0
Removed item [] q' = q' ≡ []
Removed item (x ∷ q) q' =
    ((x.id ≡ item) × Removed item q q')
    ⊎ ((x.id ≢ item) × ((r : List QueuedMessage) × (q' ≡ x ∷ r) × Removed item q r))

-- Every message with this id has this text, the others are as they were.
abbrev pub Edited : ℕ → Units → List QueuedMessage → List QueuedMessage → Type 0
Edited item text [] q' = q' ≡ []
Edited item text (x ∷ q) q' =
    (y : QueuedMessage) × (r : List QueuedMessage) × (q' ≡ y ∷ r)
    × (y.id ≡ x.id)
    × (((x.id ≡ item) × (y.text ≡ text)) ⊎ ((x.id ≢ item) × (y ≡ x)))
    × Edited item text q r

-- The message at `from` is at `to`, the others keep their order.
pub record Moved (from to : ℕ) (q q' : List QueuedMessage) : Type 0 where
  pub item : QueuedMessage
  pub before : List QueuedMessage
  pub after : List QueuedMessage
  pub left : List QueuedMessage
  pub right : List QueuedMessage
  pub taken : q ≡ before ++ item ∷ after
  pub at_from : length before ≡ from
  pub others : before ++ after ≡ left ++ right
  pub placed : q' ≡ left ++ item ∷ right
  pub at_to : length left ≡ to

-- What an operation gives back and leaves of a queue, where `n` is the last id.
abbrev pub Leaves :
    ℕ → QueueOp → List QueuedMessage → Option QueuedMessage × List QueuedMessage → Type 0
Leaves n (enqueues text) q r =
    (r.0 ≡ none)
    × (((trim text ≡ []) × (r.1 ≡ q))
        ⊎ ((trim text ≢ []) × (r.1 ≡ q ++ record { id = suc n; text = trim text } ∷ [])))
Leaves n dequeues q r =
    ((q ≡ []) × (r ≡ (none, []))) ⊎ ((x : QueuedMessage) × (q ≡ x ∷ r.1) × (r.0 ≡ some x))
Leaves n (removes item) q r = (r.0 ≡ none) × Removed item q r.1
Leaves n (reorders from to) q r =
    (r.0 ≡ none)
    × (((from ≢ to) × (from < length q) × (to < length q) × Moved from to q r.1)
        ⊎ (((from ≡ to) ⊎ ((length q ≤ from) ⊎ (length q ≤ to))) × (r.1 ≡ q)))
Leaves n (edits item text) q r =
    (r.0 ≡ none)
    × (((trim text ≡ []) × Removed item q r.1) ⊎ ((trim text ≢ []) × Edited item (trim text) q r.1))
Leaves n elsewhere q r = r ≡ (none, q)

filter-Removed :
    (item : ℕ) (q : List QueuedMessage) → Removed item q (filter (λ x. not (x.id == item)) q)
filter-Removed item [] = refl
filter-Removed item (x ∷ q) = elim (Bool-cases (x.id == item)) [
  | inl t ↦ inl ((==_iff x.id item).0 t, rw t (filter-Removed item q))
  | inr t ↦ inr (
    λ e. cc (t, (==_iff x.id item).1 e),
    (filter (λ x. not (x.id == item)) q, rw t refl, filter-Removed item q),
  )
]

map-Edited :
    (item : ℕ) (text : Units) (q : List QueuedMessage)
    → Edited item text q (map (λ x. if x.id == item then record x { text = text } else x) q)
map-Edited item text [] = refl
map-Edited item text (x ∷ q) = elim (Bool-cases (x.id == item)) [
  | inl t ↦ (
    record x { text = text },
    _,
    rw t refl,
    refl,
    inl ((==_iff x.id item).0 t, refl),
    map-Edited item text q,
  )
  | inr t ↦ (
    x,
    _,
    rw t refl,
    refl,
    inr (λ e. cc (t, (==_iff x.id item).1 e), refl),
    map-Edited item text q,
  )
]

taken_out :
    (i : ℕ) (q : List QueuedMessage)
    → i < length q
    → (x : QueuedMessage) × (a b : List QueuedMessage) × (take_out i q ≡ some (x, a ++ b))
      × (q ≡ a ++ x ∷ b)
      × (length a ≡ i)
unfolding take_out
taken_out i [] h = absurd (omega (arith, h))
taken_out zero (x ∷ q) h = (x, [], q, refl, refl, refl)
taken_out (suc i) (y ∷ q) h =
    let (x, a, b, e, f, g) = taken_out i q (omega (arith, h)) in
    (x, y ∷ a, b, rw e refl, ap (λ l. y ∷ l) f, ap suc g)

put_between :
    (i : ℕ) (x : QueuedMessage) (q : List QueuedMessage)
    → i ≤ length q
    → (c d : List QueuedMessage) × (put_in i x q ≡ c ++ x ∷ d) × (q ≡ c ++ d) × (length c ≡ i)
unfolding put_in
put_between zero x q h = ([], q, refl, refl, refl)
put_between (suc i) x [] h = absurd (omega (arith, h))
put_between (suc i) x (y ∷ q) h =
    let (c, d, e, f, g) = put_between i x q (omega (arith, h)) in
    (y ∷ c, d, ap (λ l. y ∷ l) e, ap (λ l. y ∷ l) f, ap suc g)

move-Moved :
    (from to : ℕ) (q : List QueuedMessage)
    → from < length q
    → to < length q
    → Moved from to q (move from to q)
unfolding move
move-Moved from to q h k =
    let (x, a, b, e, f, g) = taken_out from q h in
    let (c, d, p, o, l) =
      put_between to x (a ++ b)
        (omega (arith, k, ap length f, length-append a (x ∷ b), length-append a b)) in
    record {
      item = x;
      before = a;
      after = b;
      left = c;
      right = d;
      taken = f;
      at_from = g;
      others = o;
      placed = rw (move, e) p;
      at_to = l;
    }

enqueues-Leaves :
    (n : ℕ) (text : Units) (q : List QueuedMessage)
    → Leaves n (enqueues text) q (on_queue n (enqueues text) q)
unfolding on_queue
enqueues-Leaves n text q = by_text (trim text)
  where
    by_text :
        (t : Units)
        → let r = if is_empty t then q else q ++ record { id = suc n; text = t } ∷ [] in
          (◌≡◌ {A = Option QueuedMessage} none none)
          × (((t ≡ []) × (r ≡ q)) ⊎ ((t ≢ []) × (r ≡ q ++ record { id = suc n; text = t } ∷ [])))
    by_text [] = (refl, inl (refl, refl))
    by_text (c ∷ cs) = (refl, inr (λ e. cc e, refl))

edits-Leaves :
    (n item : ℕ) (text : Units) (q : List QueuedMessage)
    → Leaves n (edits item text) q (on_queue n (edits item text) q)
unfolding on_queue
edits-Leaves n item text q = by_text (trim text)
  where
    by_text :
        (t : Units)
        → (◌≡◌ {A = Option QueuedMessage} none none)
          × (((t ≡ []) × Removed item q (edit_text item t q))
              ⊎ ((t ≢ []) × Edited item t q (edit_text item t q)))
    by_text [] = (refl, inl (refl, filter-Removed item q))
    by_text (c ∷ cs) = (refl, inr (λ e. cc e, map-Edited item (c ∷ cs) q))

reorders-Leaves :
    (n from to : ℕ) (q : List QueuedMessage)
    → Leaves n (reorders from to) q (on_queue n (reorders from to) q)
unfolding on_queue
reorders-Leaves n from to q =
    elim (Bool-cases (from == to || (leb (length q) from || leb (length q) to))) [
      | inl t ↦ (refl, inr (stays t, rw t refl))
      | inr f ↦
          let (ne, h, k) = inside f in
          (
            refl,
            inl (ne, h, k, subst (Moved from to q) (sym (rw f refl)) (move-Moved from to q h k)),
          )
    ]
  where
    stays :
        (from == to || (leb (length q) from || leb (length q) to)) ≡ true
        → (from ≡ to) ⊎ ((length q ≤ from) ⊎ (length q ≤ to))
    stays t = elim (or-cases (from == to) (leb (length q) from || leb (length q) to) t) [
      | inl e ↦ inl ((==_iff from to).0 e)
      | inr e ↦ elim (or-cases (leb (length q) from) (leb (length q) to) e) [
        | inl l ↦ inr (inl (leb→le (length q) from l))
        | inr l ↦ inr (inr (leb→le (length q) to l))
      ]
    ]

    inside :
        (from == to || (leb (length q) from || leb (length q) to)) ≡ false
        → (from ≢ to) × (from < length q) × (to < length q)
    inside f = (λ e. ground (arith, f, e), ground (arith, f), ground (arith, f))

dequeues-Leaves : (n : ℕ) (q : List QueuedMessage) → Leaves n dequeues q (on_queue n dequeues q)
unfolding on_queue
dequeues-Leaves n [] = inl (refl, refl)
dequeues-Leaves n (x ∷ q) = inr (x, refl, refl)

on_queue-Leaves : (n : ℕ) (x : QueueOp) (q : List QueuedMessage) → Leaves n x q (on_queue n x q)
unfolding on_queue
on_queue-Leaves n (enqueues text) q = enqueues-Leaves n text q
on_queue-Leaves n dequeues q = dequeues-Leaves n q
on_queue-Leaves n (removes item) q = (refl, filter-Removed item q)
on_queue-Leaves n (reorders from to) q = reorders-Leaves n from to q
on_queue-Leaves n (edits item text) q = edits-Leaves n item text q
on_queue-Leaves n elsewhere q = refl

-- What a run of operations on one list of messages for each session gives back.
abbrev pub Behaves :
    ℕ
    → (String → List QueuedMessage)
    → List (String × QueueOp)
    → List (Option QueuedMessage)
    → Type 0
Behaves n f [] outs = outs ≡ []
Behaves n f ((k, x) ∷ xs) outs =
    (r : Option QueuedMessage × List QueuedMessage) × (rest : List (Option QueuedMessage)) × (outs
      ≡ r.0 ∷ rest)
    × Leaves n x (f k) r
    × Behaves (next_seq n x) (replaced k r.1 f) xs rest

run_lists-Behaves :
    (n : ℕ) (f : String → List QueuedMessage) (xs : List (String × QueueOp))
    → Behaves n f xs (run_lists n f xs)
run_lists-Behaves n f [] = refl
run_lists-Behaves n f ((k, x) ∷ xs) =
    let r = on_queue n x (f k) in
    (
      r,
      run_lists (next_seq n x) (replaced k r.1 f) xs,
      refl,
      on_queue-Leaves n x (f k),
      run_lists-Behaves (next_seq n x) (replaced k r.1 f) xs,
    )

-- The queues are lists: for any operations on the queues of any sessions, between which another
-- workspace may take message ids, a workspace gives back what one list of messages for each session
-- gives back. A message that is not blank goes, trimmed and with the next id, to the end of its session's
-- list; the first message of a list comes out first; a removal takes out the messages with its id and
-- keeps the order of the others; a move puts one message from its place to another one and keeps the
-- order of the others, or does nothing where the places are equal or outside of the list; an edit gives
-- its text to the messages with its id and to no other, or removes them where it is blank. What is done
-- to the list of a session does not reach another's.
pub run_queues-refines :
    (s : AgentsState) (n : ℕ) (f : String → List QueuedMessage) (xs : List (String × QueueOp))
    → s.queue_seq ≡ n
    → ((j : String) → queue_of s j ≡ f j)
    → Behaves n f xs (run_queues s xs)
run_queues-refines s n f xs e h =
    subst (Behaves n f xs) (sym (run_queues_lists s n f xs e h)) (run_lists-Behaves n f xs)
