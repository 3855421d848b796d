-- ===== src/AgentsStore/Tidy.antt =====
-- The bounds of app/src/shell/agents/store.ts: what every operation keeps.
use capisco.Prelude.{
  ℕ, zero, suc, ◌+◌, ◌-◌, ◌≤◌, ◌≡◌, refl, inl, inr, Bool, true, false, ◌||◌, Option, none, some,
  List, [], ◌∷◌, String, if◌then◌else◌, leb, length, take, drop, length-append, ◌==◌, string_eq,
  nat_eq, list_eq, arith, Bool-cases, ◌∙◌, sym, subst,
}
use capisco.Prelude.Dict.{Dict, get, set, delete, get-set, get-delete}
use capisco.Prelude.Text.{trim, is_blank}
use capisco.AgentsStore.{
  Units, AgentsState, QueuedMessage, last, max_prompt_log_size, max_draft_chars, append_prompt,
  save_draft, clear_draft,
}
use capisco.AgentsStore.Queue.{
  Queues, put_queue, is_empty, enqueue_message, split_head, dequeue_message, remove_queued, move,
  take_out, put_in, reorder_queued, edit_queued, QueueOp, enqueues, dequeues, removes, reorders,
  edits, elsewhere, take_id, queue_op, queue_of,
}

length-drop : {A : Type 0} (n : ℕ) (xs : List A) → length (drop n xs) ≡ length xs - n
length-drop zero xs = omega arith
length-drop (suc n) [] = omega arith
length-drop (suc n) (x ∷ xs) = omega (arith, length-drop n xs)

length-last : {A : Type 0} (n : ℕ) (xs : List A) → length (last n xs) ≤ n
unfolding last
length-last n xs = omega (arith, length-drop (length xs - n) xs)

length-take : {A : Type 0} (n : ℕ) (xs : List A) → length (take n xs) ≤ n
length-take zero xs = omega arith
length-take (suc n) [] = omega arith
length-take (suc n) (x ∷ xs) = omega (arith, length-take n xs)

-- Each value of a map.
abbrev Every : {V : Type 0} → (V → Type 0) → Dict String V → Type 0
Every {V} P m = (k : String) (v : V) → get k m ≡ some v → P v

some-injective : {A : Type 0} {a b : A} → some a ≡ some b → a ≡ b
some-injective {A} {a} {b} e = cc e

set-Every :
    {V : Type 0} (P : V → Type 0) (k : String) (v : V) (m : Dict String V)
    → P v
    → Every P m
    → Every P (set k v m)
set-Every P k v m p h j x e = elim (Bool-cases (k == j)) [
  | inl t ↦ subst P (some-injective (rw t at looked_up)) p
  | inr t ↦ h j x (rw t at looked_up)
]
  where
    looked_up : (if k == j then some v else get j m) ≡ some x
    looked_up = sym (get-set k j v m) ∙ e

delete-Every :
    {V : Type 0} (P : V → Type 0) (k : String) (m : Dict String V)
    → Every P m
    → Every P (delete k m)
delete-Every P k m h j x e = elim (Bool-cases (k == j)) [
  | inl t ↦ absurd (cc (rw t at looked_up))
  | inr t ↦ h j x (rw t at looked_up)
]
  where
    looked_up : (if k == j then none else get j m) ≡ some x
    looked_up = sym (get-delete k j m) ∙ e

abbrev IsShort : List Units → Type 0
IsShort log = length log ≤ max_prompt_log_size

abbrev IsDraft : Units → Type 0
IsDraft d = (length d ≤ max_draft_chars) × (is_blank d ≡ false)

abbrev IsWaiting : List QueuedMessage → Type 0
IsWaiting q = (length q ≡ 0) → ⊥

-- A log has at most a hundred prompts; a draft at most ten thousand code units, and is not blank; a
-- queue that has an entry is not empty.
pub record IsTidy (s : AgentsState) : Type 0 where
  pub logs : Every IsShort s.prompt_logs
  pub drafts : Every IsDraft s.draft_bodies
  pub queues : Every IsWaiting s.message_queues

append_prompt-IsTidy :
    (s : AgentsState) (k : String) (text : Units) → IsTidy s → IsTidy (append_prompt s k text)
unfolding append_prompt
append_prompt-IsTidy s k text h = elim (Bool-cases (is_blank text)) [
  | inl t ↦ rw t h
  | inr t ↦ rw t (record {
    logs = set-Every IsShort k _ s.prompt_logs (length-last max_prompt_log_size _) h.logs;
    drafts = h.drafts;
    queues = h.queues;
  })
]

save_draft-IsTidy :
    (s : AgentsState) (k : String) (body : Units) → IsTidy s → IsTidy (save_draft s k body)
unfolding save_draft
save_draft-IsTidy s k body h = elim (Bool-cases (is_blank (take max_draft_chars body))) [
  | inl t ↦ rw t (record {
    logs = h.logs;
    drafts = delete-Every IsDraft k s.draft_bodies h.drafts;
    queues = h.queues;
  })
  | inr t ↦ rw t (record {
    logs = h.logs;
    drafts =
        set-Every IsDraft k (take max_draft_chars body) s.draft_bodies
          (length-take max_draft_chars body, t) h.drafts;
    queues = h.queues;
  })
]

put_queue-Every :
    (k : String) (q : List QueuedMessage) (m : Queues)
    → Every IsWaiting m
    → Every IsWaiting (put_queue k q m)
put_queue-Every k [] m h = delete-Every IsWaiting k m h
put_queue-Every k (x ∷ xs) m h = set-Every IsWaiting k (x ∷ xs) m (λ e. omega (arith, e)) h

length-put_in :
    (i : ℕ) (x : QueuedMessage) (xs : List QueuedMessage) → length (put_in i x xs) ≡ length xs + 1
unfolding put_in
length-put_in zero x xs = omega arith
length-put_in (suc i) x [] = omega arith
length-put_in (suc i) x (y ∷ ys) = omega (arith, length-put_in i x ys)

move-IsWaiting : (from to : ℕ) (q : List QueuedMessage) → IsWaiting q → IsWaiting (move from to q)
unfolding move
move-IsWaiting from to q h = by_item (take_out from q)
  where
    by_item :
        (o : Option (QueuedMessage × List QueuedMessage))
        → IsWaiting (elim o as (λ o. List QueuedMessage) [
          | none ↦ q
          | some (item, rest) ↦ put_in to item rest
        ])
    by_item none = h
    by_item (some (item, rest)) = λ e. omega (arith, length-put_in to item rest, e)

module _ (s : AgentsState) (k : String) (h : IsTidy s) where
  requeued : (m : Queues) → Every IsWaiting m → IsTidy (record s { message_queues = m })
  requeued m w = record { logs = h.logs; drafts = h.drafts; queues = w }

  put :
      (q : List QueuedMessage)
      → IsTidy (record s { message_queues = put_queue k q s.message_queues })
  put q = requeued _ (put_queue-Every k q s.message_queues h.queues)

  found-IsTidy :
      (f : List QueuedMessage → AgentsState) (o : Option (List QueuedMessage))
      → ((q : List QueuedMessage) → get k s.message_queues ≡ some q → IsTidy (f q))
      → get k s.message_queues ≡ o
      → IsTidy (elim o as (λ o. AgentsState) [ none ↦ s | some q ↦ f q ])
  found-IsTidy f none g e = h
  found-IsTidy f (some q) g e = g q e

  enqueue_message-IsTidy : (text : Units) → IsTidy (enqueue_message s k text)
  unfolding enqueue_message
  enqueue_message-IsTidy text = elim (Bool-cases (is_empty (trim text))) [
    | inl t ↦ rw t h
    | inr t ↦ rw t (record {
      logs = h.logs;
      drafts = h.drafts;
      queues =
          set-Every IsWaiting k _ s.message_queues
            (λ e. omega (arith, length-append (queue_of s k) (added ∷ []), e)) h.queues;
    })
  ]
    where
      added : QueuedMessage
      added = record { id = suc s.queue_seq; text = trim text }

  split_head-IsTidy : (q : List QueuedMessage) → IsTidy (split_head s k q).1
  split_head-IsTidy [] = h
  split_head-IsTidy (x ∷ xs) = put xs

  reorder_queued-IsTidy : (from to : ℕ) → IsTidy (reorder_queued s k from to)
  unfolding reorder_queued
  reorder_queued-IsTidy from to =
      found-IsTidy _ (get k s.message_queues) (λ q e. by_range (outside q) q e) refl
    where
      outside : List QueuedMessage → Bool
      outside q = from == to || (leb (length q) from || leb (length q) to)

      by_range :
          (b : Bool) (q : List QueuedMessage)
          → get k s.message_queues ≡ some q
          → IsTidy (
              if◌then◌else◌ {A = AgentsState} b s
                (record s { message_queues = set k (move from to q) s.message_queues }))
      by_range true q e = h
      by_range false q e = requeued _ (
          set-Every IsWaiting k (move from to q) s.message_queues
            (move-IsWaiting from to q (h.queues k q e)) h.queues)

  queue_op-IsTidy : (x : QueueOp) → IsTidy (queue_op s k x).1
  unfolding dequeue_message remove_queued edit_queued take_id
  queue_op-IsTidy (enqueues text) = enqueue_message-IsTidy text
  queue_op-IsTidy dequeues = split_head-IsTidy (queue_of s k)
  queue_op-IsTidy (removes item) = found-IsTidy _ (get k s.message_queues) (λ q e. put _) refl
  queue_op-IsTidy (reorders from to) = reorder_queued-IsTidy from to
  queue_op-IsTidy elsewhere = record { logs = h.logs; drafts = h.drafts; queues = h.queues }
  queue_op-IsTidy (edits item text) = found-IsTidy _ (get k s.message_queues) (λ q e. put _) refl

-- What the workspace does to these parts of the state.
pub data Edit : Type 0 where
  appends saves_draft : String → Units → Edit
  clears_draft : String → Edit
  queues_up : String → QueueOp → Edit

abbrev pub edit : AgentsState → Edit → AgentsState
edit s (appends k text) = append_prompt s k text
edit s (saves_draft k body) = save_draft s k body
edit s (clears_draft k) = clear_draft s k
edit s (queues_up k x) = (queue_op s k x).1

-- What the browser keeps stays small: appending a prompt, saving and clearing a draft and each
-- operation on a queue keep it that a session's log has at most a hundred prompts, that a draft has at
-- most ten thousand code units and is not blank, and that a session with nothing queued has no entry.
pub edit-IsTidy : (s : AgentsState) (x : Edit) → IsTidy s → IsTidy (edit s x)
unfolding clear_draft
edit-IsTidy s (appends k text) h = append_prompt-IsTidy s k text h
edit-IsTidy s (saves_draft k body) h = save_draft-IsTidy s k body h
edit-IsTidy s (clears_draft k) h = record {
  logs = h.logs;
  drafts = delete-Every IsDraft k s.draft_bodies h.drafts;
  queues = h.queues;
}
edit-IsTidy s (queues_up k x) h = queue_op-IsTidy s k h x
