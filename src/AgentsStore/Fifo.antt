-- ===== src/AgentsStore/Fifo.antt =====
-- The message queues of app/src/shell/agents/store.ts as one list of messages for each session.
use capisco.Prelude.{
  ℕ, suc, ◌≡◌, refl, inl, inr, Bool, true, false, ◌||◌, not, Option, none, some, List, [], ◌∷◌,
  String, if◌then◌else◌, get_or, leb, length, ◌==◌, string_eq, nat_eq, Bool-cases, ap, ◌∙◌, sym,
  ==_iff,
}
use mathlib.Core.Path.{ap₂}
use capisco.Prelude.Dict.{get, set, get-set, get-delete}
use capisco.Prelude.Text.{trim}
use capisco.AgentsStore.{Units, AgentsState, QueuedMessage, filter}
use capisco.AgentsStore.Queue.{
  Queues, put_queue, is_empty, enqueue_message, split_head, dequeue_message, remove_queued, move,
  take_out, reorder_queued, edit_text, edit_queued, QueueOp, enqueues, dequeues, removes, reorders,
  edits, elsewhere, take_id, queue_op, queue_of, on_queue,
}

abbrev entry : String → Queues → List QueuedMessage
entry j m = get_or (get j m) []

abbrev pub replaced :
    String → List QueuedMessage → (String → List QueuedMessage) → String → List QueuedMessage
replaced k q f j = if k == j then q else f j

entry-set :
    (k j : String) (q : List QueuedMessage) (m : Queues)
    → entry j (set k q m) ≡ replaced k q (λ i. entry i m) j
entry-set k j q m = elim (Bool-cases (k == j)) [
  | inl t ↦ rw (get-set k j q m, t) refl
  | inr t ↦ rw (get-set k j q m, t) refl
]

entry-put_queue :
    (k j : String) (q : List QueuedMessage) (m : Queues)
    → entry j (put_queue k q m) ≡ replaced k q (λ i. entry i m) j
entry-put_queue k j [] m = elim (Bool-cases (k == j)) [
  | inl t ↦ rw (get-delete k j m, t) refl
  | inr t ↦ rw (get-delete k j m, t) refl
]
entry-put_queue k j (x ∷ xs) m = entry-set k j (x ∷ xs) m

untouched : (k j : String) (f : String → List QueuedMessage) → f j ≡ replaced k (f k) f j
untouched k j f = elim (Bool-cases (k == j)) [
  | inl t ↦ rw t (ap f (sym ((==_iff k j).0 t)))
  | inr t ↦ rw t refl
]

-- What an operation leaves in the queue of any session, and what it gives back.
abbrev Agrees :
    AgentsState
    → String
    → String
    → Option QueuedMessage × AgentsState
    → Option QueuedMessage × List QueuedMessage
    → Type 0
Agrees s k j r a = (r.0 ≡ a.0) × (queue_of r.1 j ≡ replaced k a.1 (queue_of s) j)

enqueue_message-Agrees :
    (s : AgentsState) (k j : String) (text : Units)
    → Agrees s k j
        (none, enqueue_message s k text)
        (on_queue s.queue_seq (enqueues text) (queue_of s k))
unfolding enqueue_message on_queue
enqueue_message-Agrees s k j text = elim (Bool-cases (is_empty (trim text))) [
  | inl t ↦ rw t (refl, untouched k j (queue_of s))
  | inr t ↦ rw t (refl, entry-set k j _ s.message_queues)
]

dequeue_message-Agrees :
    (s : AgentsState) (k j : String)
    → Agrees s k j (dequeue_message s k) (on_queue s.queue_seq dequeues (queue_of s k))
unfolding dequeue_message on_queue
dequeue_message-Agrees s k j = by_queue (queue_of s k) refl
  where
    by_queue :
        (q : List QueuedMessage)
        → queue_of s k ≡ q
        → Agrees s k j (split_head s k q) (on_queue s.queue_seq dequeues q)
    by_queue [] h = (refl, untouched k j (queue_of s) ∙ ap (λ q. replaced k q (queue_of s) j) h)
    by_queue (x ∷ xs) h = (refl, entry-put_queue k j xs s.message_queues)

module _ (s : AgentsState) (k j : String) where
  absent : get k s.message_queues ≡ none → queue_of s j ≡ replaced k [] (queue_of s) j
  absent h = untouched k j (queue_of s) ∙ ap (λ q. replaced k (get_or q []) (queue_of s) j) h

  -- An operation that rewrites the queue where there is one.
  rewritten-Agrees :
      (f : List QueuedMessage → List QueuedMessage) (o : Option (List QueuedMessage))
      → f [] ≡ []
      → get k s.message_queues ≡ o
      → Agrees s k j
          (
            none,
            elim o as (λ o. AgentsState) [
              | none ↦ s
              | some prev ↦ record s { message_queues = put_queue k (f prev) s.message_queues }
            ],
          )
          (none, f (get_or o []))
  rewritten-Agrees f none e h = (refl, rw e (absent h))
  rewritten-Agrees f (some prev) e h = (refl, entry-put_queue k j (f prev) s.message_queues)

  remove_queued-Agrees :
      (item : ℕ)
      → Agrees s k j
          (none, remove_queued s k item)
          (on_queue s.queue_seq (removes item) (queue_of s k))
  unfolding remove_queued on_queue
  remove_queued-Agrees item =
      rewritten-Agrees (λ q. filter (λ x. not (x.id == item)) q) (get k s.message_queues) refl refl

  edit_text-nil : (item : ℕ) (text : Units) → edit_text item text [] ≡ []
  edit_text-nil item [] = refl
  edit_text-nil item (c ∷ cs) = refl

  edit_queued-Agrees :
      (item : ℕ) (text : Units)
      → Agrees s k j
          (none, edit_queued s k item text)
          (on_queue s.queue_seq (edits item text) (queue_of s k))
  unfolding edit_queued on_queue
  edit_queued-Agrees item text =
      rewritten-Agrees (λ q. edit_text item (trim text) q) (get k s.message_queues)
        (edit_text-nil item (trim text)) refl

  reorder_queued-Agrees :
      (from to : ℕ)
      → Agrees s k j
          (none, reorder_queued s k from to)
          (on_queue s.queue_seq (reorders from to) (queue_of s k))
  unfolding reorder_queued on_queue move take_out
  reorder_queued-Agrees from to = by_entry (get k s.message_queues) refl
    where
      outside : List QueuedMessage → Bool
      outside q = from == to || (leb (length q) from || leb (length q) to)

      by_range :
          (b : Bool) (prev : List QueuedMessage)
          → get k s.message_queues ≡ some prev
          → Agrees s k j
              (
                none,
                if◌then◌else◌ {A = AgentsState} b s
                    (record s { message_queues = set k (move from to prev) s.message_queues }),
              )
              (none, if◌then◌else◌ {A = List QueuedMessage} b prev (move from to prev))
      by_range true prev h =
          (refl, untouched k j (queue_of s) ∙ ap (λ q. replaced k (get_or q []) (queue_of s) j) h)
      by_range false prev h = (refl, entry-set k j (move from to prev) s.message_queues)

      nothing : (b : Bool) → (if◌then◌else◌ {A = List QueuedMessage} b [] (move from to [])) ≡ []
      nothing true = refl
      nothing false = refl

      by_entry :
          (o : Option (List QueuedMessage))
          → get k s.message_queues ≡ o
          → Agrees s k j
              (
                none,
                elim o as (λ o. AgentsState) [
                  | none ↦ s
                  | some prev ↦
                      if outside prev
                      then s
                      else record s { message_queues = set k (move from to prev) s.message_queues }
                ],
              )
              (none, if outside (get_or o []) then get_or o [] else move from to (get_or o []))
      by_entry none h =
          (refl, absent h ∙ ap (λ q. replaced k q (queue_of s) j) (sym (nothing (outside []))))
      by_entry (some prev) h = by_range (outside prev) prev h

elsewhere-Agrees :
    (s : AgentsState) (k j : String)
    → Agrees s k j (none, take_id s) (on_queue s.queue_seq elsewhere (queue_of s k))
unfolding take_id on_queue
elsewhere-Agrees s k j = (refl, untouched k j (queue_of s))

queue_op-Agrees :
    (s : AgentsState) (k j : String) (x : QueueOp)
    → Agrees s k j (queue_op s k x) (on_queue s.queue_seq x (queue_of s k))
queue_op-Agrees s k j (enqueues text) = enqueue_message-Agrees s k j text
queue_op-Agrees s k j dequeues = dequeue_message-Agrees s k j
queue_op-Agrees s k j (removes item) = remove_queued-Agrees s k j item
queue_op-Agrees s k j (reorders from to) = reorder_queued-Agrees s k j from to
queue_op-Agrees s k j (edits item text) = edit_queued-Agrees s k j item text
queue_op-Agrees s k j elsewhere = elsewhere-Agrees s k j

-- Runs of operations, each on the queue of some session, and what they give back.
abbrev pub run_queues : AgentsState → List (String × QueueOp) → List (Option QueuedMessage)
run_queues s [] = []
run_queues s ((k, x) ∷ xs) = (queue_op s k x).0 ∷ run_queues (queue_op s k x).1 xs

-- The same runs on one list for each session. A message that is not blank takes the next id.
abbrev pub next_seq : ℕ → QueueOp → ℕ
next_seq n (enqueues text) = if is_empty (trim text) then n else suc n
next_seq n elsewhere = suc n
next_seq n _ = n

abbrev pub run_lists :
    ℕ → (String → List QueuedMessage) → List (String × QueueOp) → List (Option QueuedMessage)
run_lists n f [] = []
run_lists n f ((k, x) ∷ xs) =
    (on_queue n x (f k)).0 ∷ run_lists (next_seq n x) (replaced k (on_queue n x (f k)).1 f) xs

same_seq :
    (s : AgentsState) (f : List QueuedMessage → AgentsState) (o : Option (List QueuedMessage))
    → ((q : List QueuedMessage) → (f q).queue_seq ≡ s.queue_seq)
    → (elim o as (λ o. AgentsState) [ none ↦ s | some q ↦ f q ]).queue_seq ≡ s.queue_seq
same_seq s f none h = refl
same_seq s f (some q) h = h q

numbered :
    (s : AgentsState) (k : String) (x : QueueOp)
    → (queue_op s k x).1.queue_seq ≡ next_seq s.queue_seq x
unfolding enqueue_message dequeue_message remove_queued reorder_queued edit_queued take_id
numbered s k (enqueues text) = elim (Bool-cases (is_empty (trim text))) [
  | inl t ↦ rw t refl
  | inr t ↦ rw t refl
]
numbered s k elsewhere = refl
numbered s k dequeues = by_queue (queue_of s k)
  where
    by_queue : (q : List QueuedMessage) → (split_head s k q).1.queue_seq ≡ s.queue_seq
    by_queue [] = refl
    by_queue (x ∷ xs) = refl
numbered s k (removes item) = same_seq s _ (get k s.message_queues) (λ q. refl)
numbered s k (edits item text) = same_seq s _ (get k s.message_queues) (λ q. refl)
numbered s k (reorders from to) =
    same_seq s _ (get k s.message_queues) (λ q. moved_seq (moves_nothing q) s.queue_seq q)
  where
    moves_nothing : List QueuedMessage → Bool
    moves_nothing q = from == to || (leb (length q) from || leb (length q) to)

    moved_seq :
        (b : Bool) (n : ℕ) (q : List QueuedMessage)
        → (if◌then◌else◌ {A = AgentsState} b s
            (record s { message_queues = set k (move from to q) s.message_queues })).queue_seq
          ≡ s.queue_seq
    moved_seq true n q = refl
    moved_seq false n q = refl

replaced-same :
    (k j : String) (q q' : List QueuedMessage) (f g : String → List QueuedMessage)
    → q ≡ q'
    → f j ≡ g j
    → replaced k q f j ≡ replaced k q' g j
replaced-same k j q q' f g e h = rw (e, h) refl

-- The queues are lists, with the code's own operations on them.
pub run_queues_lists :
    (s : AgentsState) (n : ℕ) (f : String → List QueuedMessage) (xs : List (String × QueueOp))
    → s.queue_seq ≡ n
    → ((j : String) → queue_of s j ≡ f j)
    → run_queues s xs ≡ run_lists n f xs
run_queues_lists s n f [] e h = refl
run_queues_lists s n f ((k, x) ∷ xs) e h =
    let same : on_queue s.queue_seq x (queue_of s k) ≡ on_queue n x (f k) =
      ap (λ i. on_queue i x (queue_of s k)) e ∙ ap (on_queue n x) (h k) in
    ap₂ ◌∷◌ ((queue_op-Agrees s k k x).0 ∙ ap (λ r. r.0) same) (
      run_queues_lists (queue_op s k x).1 (next_seq n x) (replaced k (on_queue n x (f k)).1 f) xs
        (numbered s k x ∙ ap (λ i. next_seq i x) e)
        (λ j.
          (queue_op-Agrees s k j x).1
          ∙ replaced-same k j _ _ (queue_of s) f (ap (λ r. r.1) same) (h j)))
