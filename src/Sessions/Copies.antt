-- ===== src/Sessions/Copies.antt =====
-- Copies of a session: `copy` of app/sidecar/session/in-memory-session-store.ts beside its `create`.
use capisco.Prelude.{
  length, Bool-cases, ◌==◌, [], ◌∷◌, suc, ◌≡◌, ◌≢◌, refl, string_eq, Option-cases, inl, inr, Option,
  none, some, String, get_or, ap, ◌∙◌,
}
use capisco.Prelude.Dict.{Dict, get-differs, get, set, has, get-set-same, get-set-other}
use capisco.Prelude.Effect.{Run, ok, err, state}
use capisco.Sessions.{
  SessionRecord, StoredSession, Store, StoreError, CreateInput, already_exists, session_id, require,
  create, copy, copy_of, append, resume, new_session, TranscriptBlock,
}

copied : Store → SessionRecord → String → Option String → Run Store StoreError StoredSession
copied s r id title =
    let c = copy_of r id (suc s.seq) title in
    ok c.session (record { sessions = set (session_id (suc s.seq)) c s.sessions; seq = suc s.seq })

copy-ok :
    (s : Store) (id : String) (title : Option String) (r : SessionRecord)
    → get id s.sessions ≡ some r
    → copy s id title ≡ copied s r id title
unfolding copy copied
copy-ok s id title r h = rw (h, require) refl

copy-get :
    (s : Store) (id : String) (title : Option String) (r : SessionRecord) (k : String)
    → get id s.sessions ≡ some r
    → get k (state (copy s id title)).sessions
      ≡ get k (set (session_id (suc s.seq)) (copy_of r id (suc s.seq) title) s.sessions)
unfolding copied
copy-get s id title r k h =
    ap (λ (x : Run Store StoreError StoredSession). get k (state x).sessions)
      (copy-ok s id title r h)

append-other :
    (s : Store) (id k : String) (b : TranscriptBlock)
    → id ≢ k
    → get k (state (append s id b)).sessions ≡ get k s.sessions
unfolding append
append-other s id k b ne = elim (Option-cases (get id s.sessions)) [
  | inl e ↦ rw (e, state) refl
  | inr (r, e) ↦ rw (e, state) (get-set-other id k _ s.sessions ne)
]

-- A copy has the transcript and the tree of its source, names the source in `copied_from`, and stands
-- under the minted id; a session under any other id is left as it is, so that where the minted id is
-- not the source's own, what is appended to the copy afterwards does not change the source.
pub copy-Independent :
    (s : Store) (id : String) (title : Option String) (r : SessionRecord)
    → get id s.sessions ≡ some r
    → let new = session_id (suc s.seq) in
      let s' = state (copy s id title) in
      ((c : SessionRecord) × (get new s'.sessions ≡ some c)
        × (c.blocks ≡ r.blocks)
        × (c.tree ≡ r.tree)
        × (c.session.copied_from ≡ some id))
      × ((k : String) → new ≢ k → get k s'.sessions ≡ get k s.sessions)
      × (new ≢ id → (b : TranscriptBlock) → get id (state (append s' new b)).sessions ≡ some r)
copy-Independent s id title r h =
    let new = session_id (suc s.seq) in
    let c = copy_of r id (suc s.seq) title in
    let kept = λ (k : String) (ne : new ≢ k).
      copy-get s id title r k h ∙ get-set-other new k c s.sessions ne in
    (
      (c, copy-get s id title r new h ∙ get-set-same new c s.sessions, refl, refl, refl),
      kept,
      λ ne b. append-other (state (copy s id title)) new id b ne ∙ kept id ne ∙ h,
    )

create_refuses :
    (s : Store) (input : CreateInput) (id : String) (x : SessionRecord)
    → get_or input.id (session_id (suc s.seq)) ≡ id
    → get id s.sessions ≡ some x
    → create s input ≡ err (already_exists id) (record s { seq = suc s.seq })
unfolding create
create_refuses s input id x e t = rw (e, t, has) refl

set-length :
    (k : String) (v w : SessionRecord) (m : Dict String SessionRecord)
    → get k m ≡ some w
    → length (set k v m) ≡ length m
unfolding get set
set-length k v w [] h = absurd (cc h)
set-length k v w ((j, x) ∷ m) h = elim (Bool-cases (j == k)) [
  | inl t ↦ rw t refl
  | inr t ↦ rw t (ap suc (set-length k v w m (rw t at h)))
]

resume-ok :
    (s : Store) (id : String) (r : SessionRecord)
    → get id s.sessions ≡ some r
    → resume s id ≡ ok r s
unfolding resume
resume-ok s id r h = rw (h, require) refl

create-named :
    (s : Store) (input : CreateInput) (id : String)
    → input.id ≡ some id
    → get id s.sessions ≡ none
    → (x : SessionRecord) × (create s input
        ≡ ok x.session (record { sessions = set id x s.sessions; seq = suc s.seq }))
unfolding create
create-named s input id n f = (
  record {
    session = new_session input id (suc s.seq);
    blocks = [];
    tree = record { nodes = []; roots = []; active_leaf = "" };
  },
  rw (n, f, has, get_or) refl,
)

-- A copy can destroy a session. In any store that has the session `id`, create a session by name under
-- the free id that the counter mints after the next one: it is resumed as created. Then copy `id`. The
-- copy returns without an error, and afterwards there are as many sessions as before it; the created
-- id now resumes the copy, with the blocks of `id`, and every other session is as it was. Where `copy`
-- did this, `create` without a name would have refused.
pub copy_replaces :
    (s : Store) (named unnamed : CreateInput) (id : String) (title : Option String)
    (r : SessionRecord)
    → named.id ≡ some (session_id (suc (suc s.seq)))
    → unnamed.id ≡ none
    → get id s.sessions ≡ some r
    → get (session_id (suc (suc s.seq))) s.sessions ≡ none
    → let taken = session_id (suc (suc s.seq)) in
      (x c : SessionRecord) × (s₁ s₂ : Store) × (create s named ≡ ok x.session s₁)
      × (resume s₁ taken ≡ ok x s₁)
      × (copy s₁ id title ≡ ok c.session s₂)
      × (resume s₂ taken ≡ ok c s₂)
      × (c.session.copied_from ≡ some id)
      × (c.blocks ≡ r.blocks)
      × (length s₂.sessions ≡ length s₁.sessions)
      × ((k : String) → taken ≢ k → get k s₂.sessions ≡ get k s₁.sessions)
      × (create s₁ unnamed ≡ err (already_exists taken) (record s₁ { seq = suc s₁.seq }))
unfolding copied
copy_replaces s named unnamed id title r n u h f =
    let taken = session_id (suc (suc s.seq)) in
    let (x, made) = create-named s named taken n f in
    let s₁ : Store = record { sessions = set taken x s.sessions; seq = suc s.seq } in
    let c = copy_of r id (suc (suc s.seq)) title in
    let s₂ : Store = record { sessions = set taken c s₁.sessions; seq = suc (suc s.seq) } in
    let there = get-set-same taken x s.sessions in
    let source =
      get-set-other taken id x s.sessions (λ e. get-differs id taken r s.sessions h f e) ∙ h in
    (
      x,
      c,
      s₁,
      s₂,
      made,
      resume-ok s₁ taken x there,
      copy-ok s₁ id title r source,
      resume-ok s₂ taken c (get-set-same taken c s₁.sessions),
      refl,
      refl,
      set-length taken c x s₁.sessions there,
      λ k ne. get-set-other taken k c s₁.sessions ne,
      create_refuses s₁ unnamed taken x (ap (λ o. get_or o taken) u) there,
    )
