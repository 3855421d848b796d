-- ===== src/Sessions/Tree.antt =====
-- The transcript and its tree: app/sidecar/session/in-memory-session-store.ts.
use capisco.Prelude.{
  suc, ◌≡◌, ◌≢◌, refl, inl, inr, Option, none, some, List, [], ◌∷◌, ◌++◌, String, arith, Extends,
  subst, if◌then◌else◌, Bool-cases, get_or, ◌==◌, string_eq, ==_iff, ap, sym, ◌∙◌,
}
use capisco.Prelude.Dict.{get, set, has, get-set, get-set-same, get-set-other, get-differs}
use capisco.Prelude.Effect.{Run, ok, state}
use mathlib.Core.List.{append-nil, append_assoc}
use capisco.Sessions.{
  TranscriptBlock, block_id, SessionNode, SessionTree, SessionRecord, StoredSession, Store,
  StoreError, CreateInput, session_id, branch_id, adopt, create, append, resume, extend_tree, graft,
  retry_as_branch, require, put_record, new_session, branch_node,
}

-- A node after a retry: the same content under the same parent, perhaps with more children.
pub record Kept (n n' : SessionNode) : Type 0 where
  pub block : n'.block ≡ n.block
  pub parent : n'.parent_id ≡ n.parent_id
  pub label : n'.branch_label ≡ n.branch_label
  pub children : Extends n.children n'.children

-- A graft of a new id changes the entries of the new node and of its parent.
get-graft :
    (t : SessionTree) (new node : String) (parent : SessionNode) (label : Option String)
    → new ≢ node
    → (k : String)
    → get k (graft t new node parent label).nodes ≡ (
        if node == k
        then some (adopt parent new)
        else get k (set new (branch_node new node parent label) t.nodes))
unfolding graft
get-graft t new node parent label ne k =
    let grown = set new (branch_node new node parent label) t.nodes in
    ground (arith, get-set node k (adopt parent new) grown, ==_iff new node, ne)

graft-new :
    (t : SessionTree) (new node : String) (parent : SessionNode) (label : Option String)
    → new ≢ node
    → get new (graft t new node parent label).nodes ≡ some (branch_node new node parent label)
graft-new t new node parent label ne =
    let n = branch_node new node parent label in
    ground (
      arith,
      get-graft t new node parent label ne new,
      ==_iff node new,
      ne,
      get-set-same new n t.nodes,
    )

graft-leaf :
    (t : SessionTree) (new node : String) (parent : SessionNode) (label : Option String)
    → (graft t new node parent label).active_leaf ≡ new
unfolding graft
graft-leaf t new node parent label = refl

some-injective : {a b : SessionNode} → some a ≡ some b → a ≡ b
some-injective {a} {b} e = cc e

adopt-Kept : (parent n : SessionNode) (new : String) → parent ≡ n → Kept n (adopt parent new)
adopt-Kept parent n new e =
    subst (λ x. Kept x (adopt parent new)) e
      (record { block = refl; parent = refl; label = refl; children = (new ∷ [], refl) })

graft-Kept :
    (t : SessionTree) (new node : String) (parent : SessionNode) (label : Option String)
    → get node t.nodes ≡ some parent
    → get new t.nodes ≡ none
    → (k : String) (n : SessionNode) → get k t.nodes ≡ some n
    → (n' : SessionNode) × (get k (graft t new node parent label).nodes ≡ some n') × Kept n n'
graft-Kept t new node parent label p f k n h =
    let g =
      get-set-other new k (branch_node new node parent label) t.nodes
        (get-differs k new n t.nodes h f) in
    let m = get-graft t new node parent label (get-differs node new parent t.nodes p f) k in
    elim (Bool-cases (node == k)) [
      | inl e ↦ (
        adopt parent new,
        cc (rw e at m),
        adopt-Kept parent n new (some-injective (cc (p, h, (==_iff node k).0 e))),
      )
      | inr e ↦ (
        n,
        cc (rw e at m, g, h),
        record {
          block = refl;
          parent = refl;
          label = refl;
          children = ([], sym (append-nil n.children));
        },
      )
    ]

pub require-ok :
    {A : Type 0} (s : Store) (id : String) (next : SessionRecord → Run Store StoreError A)
    (r : SessionRecord)
    → get id s.sessions ≡ some r
    → require s id next ≡ next r
require-ok s id next r h = rw (h, require) refl

found :
    {A : Type 0} (fail : A) (use_it : SessionNode → A) (o : Option SessionNode) (n : SessionNode)
    → o ≡ some n
    → elim o as (λ o. A) [ none ↦ fail | some m ↦ use_it m ] ≡ use_it n
found fail use_it o n h = rw h refl

retry_as_branch-ok :
    (s : Store) (id node : String) (label : Option String) (r : SessionRecord)
    (parent : SessionNode)
    → get id s.sessions ≡ some r
    → get node r.tree.nodes ≡ some parent
    → retry_as_branch s id node label
      ≡ ok (branch_id id (suc s.seq)) (record {
        sessions =
            set id
              (record r { tree = graft r.tree (branch_id id (suc s.seq)) node parent label })
              s.sessions;
        seq = suc s.seq;
      })
unfolding retry_as_branch
retry_as_branch-ok s id node label r parent p q =
    require-ok s id _ r p ∙ found _ _ (get node r.tree.nodes) parent q

-- A retry never overwrites: where the minted id is new to the session's tree, every node that was
-- there keeps its block, its parent and its children in order, the blocks of the transcript are
-- untouched, and the new node carries the retried block under the retried node and is the active leaf.
pub retry_as_branch-Kept :
    (s : Store) (id node : String) (label : Option String) (r : SessionRecord)
    (parent : SessionNode)
    → get id s.sessions ≡ some r
    → get node r.tree.nodes ≡ some parent
    → get (branch_id id (suc s.seq)) r.tree.nodes ≡ none
    → (r' : SessionRecord) × (get id (state (retry_as_branch s id node label)).sessions ≡ some r')
      × ((k : String) (n : SessionNode)
          → get k r.tree.nodes ≡ some n
          → (n' : SessionNode) × (get k r'.tree.nodes ≡ some n') × Kept n n')
      × (r'.blocks ≡ r.blocks)
      × ((n : SessionNode) × (get (branch_id id (suc s.seq)) r'.tree.nodes ≡ some n)
          × (n.block ≡ parent.block)
          × (n.parent_id ≡ some node)
          × (r'.tree.active_leaf ≡ branch_id id (suc s.seq)))
retry_as_branch-Kept s id node label r parent p q f =
    let new = branch_id id (suc s.seq) in
    let t' = graft r.tree new node parent label in
    let ne = get-differs node new parent r.tree.nodes q f in
    (
      record r { tree = t' },
      ap (λ (x : Run Store StoreError String). get id (state x).sessions)
            (retry_as_branch-ok s id node label r parent p q)
          ∙ get-set-same id (record r { tree = t' }) s.sessions,
      graft-Kept r.tree new node parent label q f,
      refl,
      (
        branch_node new node parent label,
        graft-new r.tree new node parent label ne,
        refl,
        refl,
        graft-leaf r.tree new node parent label,
      ),
    )

-- The transcript of a run: its blocks, appended one after the other.
abbrev pub append_all : Store → String → List TranscriptBlock → Store
append_all s id [] = s
append_all s id (b ∷ bs) = append_all (state (append s id b)) id bs

append-ok :
    (s : Store) (id : String) (b : TranscriptBlock) (r : SessionRecord)
    → get id s.sessions ≡ some r
    → append s id b
      ≡ ok
          (block_id b)
          (put_record s id (record r { blocks = r.blocks ++ b ∷ []; tree = extend_tree r.tree b }))
unfolding append
append-ok s id b r h = require-ok s id _ r h

append_lem :
    (s : Store) (id : String) (b : TranscriptBlock) (r : SessionRecord)
    → get id s.sessions ≡ some r
    → (r' : SessionRecord) × (get id (state (append s id b)).sessions ≡ some r')
      × (r'.blocks ≡ r.blocks ++ b ∷ [])
      × (r'.tree.active_leaf ≡ block_id b)
unfolding extend_tree
append_lem s id b r h =
    let r' = record r { blocks = r.blocks ++ b ∷ []; tree = extend_tree r.tree b } in
    (
      r',
      ap (λ (x : Run Store StoreError String). get id (state x).sessions) (append-ok s id b r h)
          ∙ get-set-same id r' s.sessions,
      refl,
      refl,
    )

append_all-blocks :
    (s : Store) (id : String) (bs : List TranscriptBlock) (r : SessionRecord)
    → get id s.sessions ≡ some r
    → (r' : SessionRecord) × (get id (append_all s id bs).sessions ≡ some r')
      × (r'.blocks ≡ r.blocks ++ bs)
append_all-blocks s id [] r h = (r, h, sym (append-nil r.blocks))
append_all-blocks s id (b ∷ bs) r h =
    let (r₁, h₁, e₁, _) = append_lem s id b r h in
    let (r₂, h₂, e₂) = append_all-blocks (state (append s id b)) id bs r₁ h₁ in
    (r₂, h₂, e₂ ∙ ap (λ l. l ++ bs) e₁ ∙ append_assoc r.blocks (b ∷ []) bs)

abbrev pub created : Store → CreateInput → String → SessionRecord
created s input id = record {
  session = new_session input id (suc s.seq);
  blocks = [];
  tree = record { nodes = []; roots = []; active_leaf = "" };
}

pub create-runs :
    (s : Store) (input : CreateInput)
    → let id = get_or input.id (session_id (suc s.seq)) in
      get id s.sessions ≡ none
      → create s input
        ≡ ok
            (created s input id).session
            (record { sessions = set id (created s input id) s.sessions; seq = suc s.seq })
unfolding create
create-runs s input f = rw (f, has) refl

create-ok :
    (s : Store) (input : CreateInput)
    → let id = get_or input.id (session_id (suc s.seq)) in
      get id s.sessions ≡ none
      → get id (state (create s input)).sessions ≡ some (created s input id)
create-ok s input f =
    let id = get_or input.id (session_id (suc s.seq)) in
    ap (λ (x : Run Store StoreError StoredSession). get id (state x).sessions)
      (create-runs s input f)
    ∙ get-set-same id (created s input id) s.sessions

-- A transcript is resumed as it was recorded: after a session is created under an id that is free,
-- and blocks are appended to it, a resume returns exactly these blocks in their order, and leaves the
-- store as it is.
pub create-append-resume :
    (s : Store) (input : CreateInput) (bs : List TranscriptBlock) (id : String)
    → id ≡ get_or input.id (session_id (suc s.seq))
    → get id s.sessions ≡ none
    → let s' = append_all (state (create s input)) id bs in
      (r : SessionRecord) × (resume s' id ≡ ok r s') × (r.blocks ≡ bs)
unfolding resume
create-append-resume s input bs id e f =
    let (r, h, b) = append_all-blocks (state (create s input)) id bs (created s input id) (
      subst (λ i. get i (state (create s input)).sessions ≡ some (created s input i)) (sym e)
        (create-ok s input (subst (λ i. get i s.sessions ≡ none) e f))) in
    (r, require-ok (append_all (state (create s input)) id bs) id _ r h, b)
