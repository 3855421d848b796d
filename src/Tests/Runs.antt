-- ===== src/Tests/Runs.antt =====
-- Witnesses for sessions and tickets.
use capisco.Prelude.{
  suc, length, ◌≢◌, ℕ, ◌+◌, ◌&&◌, leb, if◌then◌else◌, List, In, inl, ◌≡◌, refl, false, Option, none,
  some, [], ◌∷◌, String, string_eq, nat_eq,
}
use capisco.Prelude.Dict.{get}
use capisco.Prelude.Text.{code_units, trim, is_blank, concat, decimal}
use capisco.Prelude.Effect.{ok, err, state}
use capisco.Broker.Contract.{GrantAxis}
use capisco.Broker.Chokepoint.Trace.{init}
use capisco.Sessions.{
  TranscriptBlock, message, SessionNode, SessionRecord, Store, CreateInput, SessionStatus,
  zero_telemetry, index_text, empty_store, branch_id, session_id, create, resume, retry_as_branch,
  copy, already_exists,
}
use capisco.Sessions.Tree.{Kept, retry_as_branch-Kept, append_all, create-append-resume}
use capisco.Sessions.Copies.{copy_replaces}
use capisco.Sessions.Search.{SessionSearchHit, snippet_of, search, search_iff}
use capisco.Lifecycle.{
  Options, World, Ticket, review, status_request, write_status, start_ticket, WorktreeEntry,
}
use capisco.Lifecycle.Writeback.{Accounted, IsCleared, write_status-Accounted}
use capisco.Lifecycle.Launch.{start_ticket_launches}
use capisco.Tests.{engine, answer}

abbrev hello : TranscriptBlock
hello = message "b1" "hello"

abbrev node : SessionNode
node = record { id = "b1"; parent_id = none; block = hello; children = []; branch_label = none }

abbrev recorded : String → SessionRecord
recorded id = record {
  session = record {
    id = id;
    model = "Opus 4.8";
    status = SessionStatus.idle;
    title = "chat";
    telemetry = zero_telemetry;
    worktree_path = none;
    copied_from = none;
    seq = 1;
  };
  blocks = hello ∷ [];
  tree = record { nodes = ("b1", node) ∷ []; roots = "b1" ∷ []; active_leaf = "b1" };
}

-- A store in which a session stands under the id that is minted next.
abbrev store : Store
store = record {
  sessions = ("mine", recorded "mine") ∷ ("sess-6", recorded "sess-6") ∷ [];
  seq = 5;
}

abbrev input : Option String → CreateInput
input id = record {
  id = id;
  model = "Opus 4.8";
  title = "chat";
  status = none;
  worktree_path = none;
}

mine_there : get "mine" store.sessions ≡ some (recorded "mine")
unfolding get
mine_there = refl

seventh_free : get (session_id (suc (suc store.seq))) store.sessions ≡ none
unfolding get concat decimal
seventh_free = refl

node_there : get "b1" (recorded "mine").tree.nodes ≡ some node
unfolding get
node_there = refl

branch_free : get (branch_id "mine" 6) (recorded "mine").tree.nodes ≡ none
unfolding get concat decimal
branch_free = refl

new_free : get "new" store.sessions ≡ none
unfolding get
new_free = refl

retry_as_branch-Kept_example :
    (r' : SessionRecord) × (get "mine" (state (retry_as_branch store "mine" "b1" none)).sessions
      ≡ some r')
    × ((k : String) (n : SessionNode)
        → get k (recorded "mine").tree.nodes ≡ some n
        → (n' : SessionNode) × (get k r'.tree.nodes ≡ some n') × Kept n n')
    × (r'.blocks ≡ (recorded "mine").blocks)
    × ((n : SessionNode) × (get (branch_id "mine" 6) r'.tree.nodes ≡ some n)
        × (n.block ≡ node.block)
        × (n.parent_id ≡ some "b1")
        × (r'.tree.active_leaf ≡ branch_id "mine" 6))
retry_as_branch-Kept_example =
    retry_as_branch-Kept store "mine" "b1" none (recorded "mine") node mine_there node_there
      branch_free

create-append-resume_example :
    let s' = append_all (state (create store (input (some "new")))) "new" (hello ∷ []) in
    (r : SessionRecord) × (resume s' "new" ≡ ok r s') × (r.blocks ≡ hello ∷ [])
create-append-resume_example =
    create-append-resume store (input (some "new")) (hello ∷ []) "new" refl new_free

abbrev lower_ascii : List ℕ → List ℕ
lower_ascii [] = []
lower_ascii (c ∷ cs) = (if leb 65 c && leb c 90 then c + 32 else c) ∷ lower_ascii cs

-- The hit of ` HEL`.
abbrev found : SessionSearchHit
found = record {
  session_id = "mine";
  block_id = "b1";
  title = "chat";
  snippet = code_units "hello";
}

search_iff_example : In found (search lower_ascii store (code_units " HEL"))
unfolding trim is_blank snippet_of index_text
search_iff_example = (search_iff lower_ascii store (code_units " HEL") found).1 (
  λ e. absurd (cc e),
  (recorded "mine", inl refl, (hello, inl refl, (([], code_units "lo", refl), refl))),
)

copy_replaces_example :
    let taken = session_id (suc (suc store.seq)) in
    (x c : SessionRecord) × (s₁ s₂ : Store) × (create store (input (some taken)) ≡ ok x.session s₁)
    × (resume s₁ taken ≡ ok x s₁)
    × (copy s₁ "mine" none ≡ ok c.session s₂)
    × (resume s₂ taken ≡ ok c s₂)
    × (c.session.copied_from ≡ some "mine")
    × (c.blocks ≡ (recorded "mine").blocks)
    × (length s₂.sessions ≡ length s₁.sessions)
    × ((k : String) → taken ≢ k → get k s₂.sessions ≡ get k s₁.sessions)
    × (create s₁ (input none) ≡ err (already_exists taken) (record s₁ { seq = suc s₁.seq }))
copy_replaces_example =
    copy_replaces store (input (some (session_id (suc (suc store.seq))))) (input none) "mine" none
      (recorded "mine") refl refl mine_there seventh_free

abbrev ticket : Ticket
ticket = record { id = "T-1"; title = "Fix it" }

abbrev entry : WorktreeEntry
entry = record { path = "/repo/.worktrees/T-1"; session_id = "sess-1" }

-- A lifecycle whose human answers for the session.
abbrev options : Options
options = record {
  backend = "jira";
  get_ticket = λ id. some ticket;
  create_worktree = λ path branch id. some entry;
  worktree_path = λ id. concat ("/repo/.worktrees/" ∷ id ∷ []);
  branch_name = λ id. concat ("ticket/" ∷ id ∷ []);
  model = "lifecycle/stub";
  resolve = λ b r t target. (answer GrantAxis.session, b);
  perform_status_write = λ write. none;
}

abbrev world : World
world = record { broker = init engine []; store = empty_store; performed = [] }

write_status-Accounted_example :
    Accounted
      (IsCleared options world (some ticket) review)
      none
      (status_request options (some ticket) review false)
      (record { ticket_id = "T-1"; target_status = review })
      []
      empty_store
      (write_status options world (some ticket) review)
write_status-Accounted_example = write_status-Accounted options world (some ticket) review

first_free : get (session_id 1) empty_store.sessions ≡ none
unfolding get
first_free = refl

start_ticket_launches_example :
    (r : SessionRecord) × (get
        (session_id 1)
        (state (start_ticket options world "T-1")).store.sessions
      ≡ some r)
    × (r.session.status ≡ SessionStatus.running)
    × (r.session.worktree_path ≡ some entry.path)
    × (r.blocks ≡ [])
start_ticket_launches_example =
    start_ticket_launches options world "T-1" ticket entry refl first_free refl
