-- ===== src/Sessions.antt =====
-- app/sidecar/session/in-memory-session-store.ts and app/src/contracts/session-store.ts. A block
-- carries the fields that the store reads; the others are copied along with it.
pub mod Tree
pub mod Copies
pub mod Search
use capisco.Prelude.{
  ℕ, suc, ◌+◌, ◌-◌, Bool, true, false, ◌||◌, Option, none, some, List, [], ◌∷◌, ◌++◌, map, String,
  if◌then◌else◌, get_or, leb, min, length, string_eq, ◌==◌,
}
use capisco.Prelude.Dict.{Dict, get, set, has}
use capisco.Prelude.Text.{is_empty, decimal, concat, includes}
use capisco.Prelude.Effect.{Run, ok, err}

pub data TranscriptBlock : Type 0 where
  message : String → String → TranscriptBlock
  tool permission : String → String → String → TranscriptBlock

-- `block.block.id`
abbrev pub block_id : TranscriptBlock → String
block_id (message id body) = id
block_id (tool id kind target) = id
block_id (permission id command label) = id

unfoldable pub index_text : TranscriptBlock → String
index_text (message id body) = body
index_text (tool id kind target) = concat (kind ∷ " " ∷ target ∷ [])
index_text (permission id command label) = concat (command ∷ " " ∷ label ∷ [])

pub data SessionStatus : Type 0 where
  running idle waiting error done : SessionStatus

pub record Telemetry : Type 0 where
  pub tokens_in : ℕ
  pub tokens_out : ℕ
  pub runtime_ms : ℕ

pub record StoredSession : Type 0 where
  pub id : String
  pub model : String
  pub status : SessionStatus
  pub title : String
  pub telemetry : Telemetry
  pub worktree_path : Option String
  pub copied_from : Option String
  pub seq : ℕ

pub record SessionNode : Type 0 where
  pub id : String
  pub parent_id : Option String
  pub block : TranscriptBlock
  pub children : List String
  pub branch_label : Option String

pub record SessionTree : Type 0 where
  pub nodes : Dict String SessionNode
  pub roots : List String
  pub active_leaf : String

pub record SessionRecord : Type 0 where
  pub session : StoredSession
  pub blocks : List TranscriptBlock
  pub tree : SessionTree

pub record Store : Type 0 where
  pub sessions : Dict String SessionRecord
  pub seq : ℕ

pub data StoreError : Type 0 where
  unknown_session already_exists unknown_node : String → StoreError

abbrev pub zero_telemetry : Telemetry
zero_telemetry = record { tokens_in = 0; tokens_out = 0; runtime_ms = 0 }

abbrev pub empty_store : Store
empty_store = record { sessions = []; seq = 0 }

pub record CreateInput : Type 0 where
  pub id : Option String
  pub model : String
  pub title : String
  pub status : Option SessionStatus
  pub worktree_path : Option String

abbrev pub session_id : ℕ → String
session_id seq = concat ("sess-" ∷ decimal seq ∷ [])

abbrev pub new_session : CreateInput → String → ℕ → StoredSession
new_session input id seq = record {
  id = id;
  model = input.model;
  status = get_or input.status idle;
  title = input.title;
  telemetry = zero_telemetry;
  worktree_path = input.worktree_path;
  copied_from = none;
  seq = seq;
}

-- A clash of ids throws after the counter has moved.
unfoldable pub create : Store → CreateInput → Run Store StoreError StoredSession
create s input =
    let seq = suc s.seq in
    let id = get_or input.id (session_id seq) in
    let session = new_session input id seq in
    if has id s.sessions
    then err (already_exists id) (record s { seq = seq })
    else ok session (record {
      sessions =
          set id
            (record {
              session = session;
              blocks = [];
              tree = record { nodes = []; roots = []; active_leaf = "" };
            })
            s.sessions;
      seq = seq;
    })

-- Stable insertion by `seq`, for `sort((a, b) => a.seq - b.seq)`.
unfoldable pub insert_by_seq : SessionRecord → List SessionRecord → List SessionRecord
insert_by_seq r [] = r ∷ []
insert_by_seq r (x ∷ xs) =
    if leb r.session.seq x.session.seq then r ∷ x ∷ xs else x ∷ insert_by_seq r xs

unfoldable pub sort_by_seq : List SessionRecord → List SessionRecord
sort_by_seq [] = []
sort_by_seq (r ∷ rs) = insert_by_seq r (sort_by_seq rs)

abbrev pub ordered : Store → List SessionRecord
ordered s = sort_by_seq (map (λ e. e.1) s.sessions)

unfoldable pub list : Store → List StoredSession
unfolding sort_by_seq insert_by_seq
list s = map (λ r. r.session) (ordered s)

unfoldable pub find_session : Store → String → Option StoredSession
find_session s id = elim (get id s.sessions) [ none ↦ none | some r ↦ some r.session ]

-- `#require`, and then the rest of a method on the record.
abbrev pub require :
    {A : Type 0}
    → Store
    → String
    → (SessionRecord → Run Store StoreError A)
    → Run Store StoreError A
require s id next = elim (get id s.sessions) [ none ↦ err (unknown_session id) s | some r ↦ next r ]

abbrev pub put_record : Store → String → SessionRecord → Store
put_record s id r = record s { sessions = set id r s.sessions }

abbrev pub adopt : SessionNode → String → SessionNode
adopt n child = record n { children = n.children ++ child ∷ [] }

-- `rec.tree.activeLeaf || null`
abbrev leaf_of : SessionTree → Option String
leaf_of t = if is_empty t.active_leaf then none else some t.active_leaf

abbrev chain_node : SessionTree → TranscriptBlock → SessionNode
chain_node t block = record {
  id = block_id block;
  parent_id = leaf_of t;
  block = block;
  children = [];
  branch_label = none;
}

-- The new node is in the map before its parent is looked up.
abbrev hang :
    Dict String SessionNode
    → List String
    → Option String
    → String
    → Dict String SessionNode × List String
hang nodes roots none id = (nodes, roots ++ id ∷ [])
hang nodes roots (some prev) id = elim (get prev nodes) [
  | none ↦ (nodes, roots ++ id ∷ [])
  | some parent ↦ (set prev (adopt parent id) nodes, roots)
]

unfoldable pub extend_tree : SessionTree → TranscriptBlock → SessionTree
extend_tree t block =
    let id = block_id block in
    let hung = hang (set id (chain_node t block) t.nodes) t.roots (leaf_of t) id in
    record { nodes = hung.0; roots = hung.1; active_leaf = id }

unfoldable pub append : Store → String → TranscriptBlock → Run Store StoreError String
append s id block = require s id (λ r. ok (block_id block) (
    put_record s id
      (record r { blocks = r.blocks ++ block ∷ []; tree = extend_tree r.tree block })))

pub record Patch : Type 0 where
  pub status : Option SessionStatus
  pub telemetry : Option Telemetry
  pub title : Option String
  pub worktree_path : Option String

abbrev or_keep : Option String → Option String → Option String
or_keep none old = old
or_keep (some p) old = some p

unfoldable pub apply_patch : StoredSession → Patch → StoredSession
apply_patch x patch = record x {
  status = get_or patch.status x.status;
  telemetry = get_or patch.telemetry x.telemetry;
  title = get_or patch.title x.title;
  worktree_path = or_keep patch.worktree_path x.worktree_path;
}

unfoldable pub update : Store → String → Patch → Run Store StoreError (Unit {0})
update s id patch =
    require s id (λ r. ok tt (put_record s id (record r { session = apply_patch r.session patch })))

unfoldable pub resume : Store → String → Run Store StoreError SessionRecord
resume s id = require s id (λ r. ok r s)

abbrev pub branch_id : String → ℕ → String
branch_id session_id n = concat (session_id ∷ "-b" ∷ decimal n ∷ [])

abbrev branch_node : String → String → SessionNode → Option String → SessionNode
branch_node new_id node_id parent label = record {
  id = new_id;
  parent_id = some node_id;
  block = parent.block;
  children = [];
  branch_label =
      some (get_or label (concat ("retry " ∷ decimal (length parent.children + 1) ∷ [])));
}

-- The parent object is the one that was read before the new node is stored: where the new id is the
-- parent's own, the parent is no longer in the tree.
unfoldable pub graft : SessionTree → String → String → SessionNode → Option String → SessionTree
graft t new_id node_id parent label =
    let grown = set new_id (branch_node new_id node_id parent label) t.nodes in
    record t {
      nodes = if new_id == node_id then grown else set node_id (adopt parent new_id) grown;
      active_leaf = new_id;
    }

unfoldable pub retry_as_branch :
    Store → String → String → Option String → Run Store StoreError String
retry_as_branch s id node_id label = require s id (λ r. elim (get node_id r.tree.nodes) [
  | none ↦ err (unknown_node node_id) s
  | some parent ↦
      let new_id = branch_id id (suc s.seq) in
      ok new_id (record {
        sessions = set id (record r { tree = graft r.tree new_id node_id parent label }) s.sessions;
        seq = suc s.seq;
      })
])

abbrev pub copy_of : SessionRecord → String → ℕ → Option String → SessionRecord
copy_of r source seq title = record r {
  session = record (r.session) {
    id = session_id seq;
    title = get_or title (concat (r.session.title ∷ " (copy)" ∷ []));
    copied_from = some source;
    seq = seq;
  };
}

unfoldable pub copy : Store → String → Option String → Run Store StoreError StoredSession
copy s id title = require s id (λ r.
    let seq = suc s.seq in
    let c = copy_of r id seq title in
    ok c.session (record { sessions = set (session_id seq) c s.sessions; seq = seq }))
