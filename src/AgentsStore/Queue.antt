-- ===== src/AgentsStore/Queue.antt =====
-- The message queues of app/src/shell/agents/store.ts, and the queues that they stand for.
use capisco.Prelude.{
  ℕ, zero, suc, Bool, true, false, ◌||◌, not, Option, none, some, List, [], ◌∷◌, ◌++◌, map, String,
  if◌then◌else◌, get_or, leb, length, ◌==◌, string_eq, nat_eq,
}
use capisco.Prelude.Dict.{Dict, get, set, delete}
use capisco.Prelude.Text.{trim}
use capisco.AgentsStore.{Units, AgentsState, QueuedMessage, filter}

abbrev pub Queues : Type 0
Queues = Dict String (List QueuedMessage)

-- The queues with this one replaced; an empty queue has no entry.
abbrev pub put_queue : String → List QueuedMessage → Queues → Queues
put_queue session [] m = delete session m
put_queue session (x ∷ xs) m = set session (x ∷ xs) m

abbrev pub is_empty : Units → Bool
is_empty [] = true
is_empty (c ∷ cs) = false

unfoldable pub enqueue_message : AgentsState → String → Units → AgentsState
enqueue_message s session text = if is_empty (trim text) then s else record s {
  queue_seq = suc s.queue_seq;
  message_queues =
      set session
        (get_or (get session s.message_queues) []
          ++ record { id = suc s.queue_seq; text = trim text } ∷ [])
        s.message_queues;
}

abbrev pub split_head :
    AgentsState → String → List QueuedMessage → Option QueuedMessage × AgentsState
split_head s session [] = (none, s)
split_head s session (x ∷ xs) =
    (some x, record s { message_queues = put_queue session xs s.message_queues })

unfoldable pub dequeue_message : AgentsState → String → Option QueuedMessage × AgentsState
dequeue_message s session = split_head s session (get_or (get session s.message_queues) [])

unfoldable pub remove_queued : AgentsState → String → ℕ → AgentsState
remove_queued s session item = elim (get session s.message_queues) [
  | none ↦ s
  | some prev ↦ record s {
    message_queues = put_queue session (filter (λ x. not (x.id == item)) prev) s.message_queues;
  }
]

-- `next.splice(from, 1)` and `next.splice(to, 0, item)`
unfoldable pub take_out : ℕ → List QueuedMessage → Option (QueuedMessage × List QueuedMessage)
take_out i [] = none
take_out zero (x ∷ xs) = some (x, xs)
take_out (suc i) (x ∷ xs) = elim (take_out i xs) [
  | none ↦ none
  | some (item, rest) ↦ some (item, x ∷ rest)
]

unfoldable pub put_in : ℕ → QueuedMessage → List QueuedMessage → List QueuedMessage
put_in zero item xs = item ∷ xs
put_in (suc i) item [] = item ∷ []
put_in (suc i) item (x ∷ xs) = x ∷ put_in i item xs

unfoldable pub move : ℕ → ℕ → List QueuedMessage → List QueuedMessage
move from to xs = elim (take_out from xs) [ none ↦ xs | some (item, rest) ↦ put_in to item rest ]

unfoldable pub reorder_queued : AgentsState → String → ℕ → ℕ → AgentsState
reorder_queued s session from to = elim (get session s.message_queues) [
  | none ↦ s
  | some prev ↦
      if from == to || (leb (length prev) from || leb (length prev) to)
      then s
      else record s { message_queues = set session (move from to prev) s.message_queues }
]

abbrev pub edit_text : ℕ → Units → List QueuedMessage → List QueuedMessage
edit_text item [] xs = filter (λ x. not (x.id == item)) xs
edit_text item (c ∷ cs) xs = map (λ x. if x.id == item then record x { text = c ∷ cs } else x) xs

unfoldable pub edit_queued : AgentsState → String → ℕ → Units → AgentsState
edit_queued s session item text = elim (get session s.message_queues) [
  | none ↦ s
  | some prev ↦ record s {
    message_queues = put_queue session (edit_text item (trim text) prev) s.message_queues;
  }
]

-- The counter of message ids stands in the module, which two workspaces share: here another one enqueues.
unfoldable pub take_id : AgentsState → AgentsState
take_id s = record s { queue_seq = suc s.queue_seq }

pub data QueueOp : Type 0 where
  enqueues : Units → QueueOp
  dequeues : QueueOp
  removes : ℕ → QueueOp
  reorders : ℕ → ℕ → QueueOp
  edits : ℕ → Units → QueueOp
  elsewhere : QueueOp

abbrev pub queue_op : AgentsState → String → QueueOp → Option QueuedMessage × AgentsState
queue_op s session (enqueues text) = (none, enqueue_message s session text)
queue_op s session dequeues = dequeue_message s session
queue_op s session (removes item) = (none, remove_queued s session item)
queue_op s session (reorders from to) = (none, reorder_queued s session from to)
queue_op s session (edits item text) = (none, edit_queued s session item text)
queue_op s session elsewhere = (none, take_id s)

-- The queue of a session; a session without an entry has the empty queue.
abbrev pub queue_of : AgentsState → String → List QueuedMessage
queue_of s session = get_or (get session s.message_queues) []

-- What an operation does to a queue, and what it gives back. The number is the last id.
unfoldable pub on_queue :
    ℕ → QueueOp → List QueuedMessage → Option QueuedMessage × List QueuedMessage
on_queue n (enqueues text) q =
    (none, if is_empty (trim text) then q else q ++ record { id = suc n; text = trim text } ∷ [])
on_queue n dequeues [] = (none, [])
on_queue n dequeues (x ∷ xs) = (some x, xs)
on_queue n (removes item) q = (none, filter (λ x. not (x.id == item)) q)
on_queue n (reorders from to) q =
    (none, if from == to || (leb (length q) from || leb (length q) to) then q else move from to q)
on_queue n (edits item text) q = (none, edit_text item (trim text) q)
on_queue n elsewhere q = (none, q)
