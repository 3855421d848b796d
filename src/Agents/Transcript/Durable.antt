-- ===== src/Agents/Transcript/Durable.antt =====
-- The session that a run of app/sidecar/acp/acp-session.ts leaves in the store.
use capisco.Prelude.{
  ◌≡◌, refl, some, List, [], ◌∷◌, ◌++◌, String, ap, subst, sym, ◌∙◌, string_eq, inl, inr,
  Bool-cases,
}
use mathlib.Core.List.{append-nil, append_assoc}
use capisco.Prelude.Dict.{Dict, get, get-set-same}
use capisco.Prelude.Effect.{Run, ok}
use capisco.Prelude.Text.{is_empty}
use capisco.Sessions.{
  TranscriptBlock, message, Store, StoreError, SessionRecord, Patch, append, update, apply_patch,
}
use capisco.Sessions.Tree.{require-ok}
use capisco.Agents.Transcript.{
  SessionEvent, AgentNotification, Live, session_update, status_patch, telemetry_patch, stored,
  apply_event, buffer_token, flush_each, begin_notification,
}
use capisco.Agents.Transcript.Assembly.{direct, buffered, flushed}

-- The store has the session with these blocks.
pub record Stores (id : String) (bs : List TranscriptBlock) (s : Store) : Type 0 where
  pub session : SessionRecord
  pub found : get id s.sessions ≡ some session
  pub blocks : session.blocks ≡ bs

append-Stores :
    (s : Store) (id : String) (bs : List TranscriptBlock) (b : TranscriptBlock)
    → Stores id bs s
    → (x : String) × (s' : Store) × (append s id b ≡ ok x s') × Stores id (bs ++ b ∷ []) s'
unfolding append
append-Stores s id bs b v = (
  _,
  _,
  require-ok s id _ v.session v.found,
  record {
    session = _;
    found = get-set-same id _ s.sessions;
    blocks = ap (λ xs. xs ++ b ∷ []) v.blocks;
  },
)

pub update-Stores :
    (s : Store) (id : String) (bs : List TranscriptBlock) (p : Patch)
    → Stores id bs s
    → (s' : Store) × (update s id p ≡ ok tt s')
      × ((r : SessionRecord) × (get id s'.sessions ≡ some r)
          × (r.blocks ≡ bs)
          × (x : SessionRecord) × (r.session ≡ apply_patch x.session p))
unfolding update
update-Stores s id bs p v = (
  _,
  require-ok s id _ v.session v.found,
  (_, get-set-same id _ s.sessions, v.blocks, v.session, refl),
)

pub flush_each-Stores :
    (s : Store) (id : String) (bs : List TranscriptBlock) (m : Dict String String)
    → Stores id bs s
    → (s' : Store) × (flush_each id s m ≡ ok tt s') × Stores id (bs ++ flushed m) s'
unfolding flush_each flushed
flush_each-Stores s id bs [] v = (s, refl, subst (λ xs. Stores id xs s) (sym (append-nil bs)) v)
flush_each-Stores s id bs ((k, text) ∷ m) v = elim (Bool-cases (is_empty text)) [
  | inl t ↦ let (s1, h, v1) = flush_each-Stores s id bs m v in (s1, rw (t, flush_each) h, rw t v1)
  | inr t ↦
      let (x, s1, h, v1) = append-Stores s id bs (message k text) v in
      let (s2, h2, v2) = flush_each-Stores s1 id (bs ++ message k text ∷ []) m v1 in
      (
        s2,
        rw (t, flush_each) (rw h h2),
        rw t (subst (λ xs. Stores id xs s2) (append_assoc bs (message k text ∷ []) (flushed m)) v2),
      )
]

-- What a run has made of the session so far.
pub record Saw (id : String) (bs : List TranscriptBlock) (buf : Dict String String) (v : Live)
    : Type 0 where
  pub stores : Stores id bs v.store
  pub buffer : v.token_buf ≡ buf

abbrev pub note : SessionEvent → AgentNotification
note e = record { method = session_update; event = e }

handled :
    (id : String) (v v1 : Live) (e : SessionEvent)
    → apply_event id v e ≡ ok tt v1
    → begin_notification id v (note e) ≡ ok tt (record v1 { waiting = v1.waiting ++ e ∷ [] })
unfolding begin_notification
handled id v v1 e h = rw h refl

-- The event is applied, and its handler waits.
abbrev pub Applied :
    String → List TranscriptBlock → Dict String String → Live → SessionEvent → Type 0
Applied id bs buf v e =
    (v' : Live) × (begin_notification id v (note e) ≡ ok tt v')
    × Saw id bs buf v'
    × (v'.waiting ≡ v.waiting ++ e ∷ [])
    × (v'.emitted ≡ v.emitted)

-- An event that writes to the store.
stored-Applied :
    {A : Type 0} (id : String) (bs bs' : List TranscriptBlock) (buf : Dict String String) (v : Live)
    (e : SessionEvent) (x : Run Store StoreError A) (a : A) (s : Store)
    → apply_event id v e ≡ stored v x
    → x ≡ ok a s
    → Stores id bs' s
    → Saw id bs buf v
    → Applied id bs' buf v e
stored-Applied id bs bs' buf v e x a s h k v' w = (
  _,
  handled id v (record v { store = s }) e (h ∙ ap (stored v) k),
  record { stores = v'; buffer = w.buffer },
  refl,
  refl,
)

updated-Applied :
    (id : String) (bs : List TranscriptBlock) (buf : Dict String String) (v : Live)
    (e : SessionEvent) (p : Patch)
    → apply_event id v e ≡ stored v (update v.store id p)
    → Saw id bs buf v
    → Applied id (bs ++ []) buf v e
updated-Applied id bs buf v e p h w =
    let (s, k, (r, f, b, _, _)) = update-Stores v.store id bs p w.stores in
    stored-Applied id bs (bs ++ []) buf v e (update v.store id p) tt s h k
      (record { session = r; found = f; blocks = b ∙ sym (append-nil bs) }) w

appended-Applied :
    (id : String) (bs : List TranscriptBlock) (buf : Dict String String) (v : Live)
    (e : SessionEvent) (b : TranscriptBlock)
    → apply_event id v e ≡ stored v (append v.store id b)
    → Saw id bs buf v
    → Applied id (bs ++ b ∷ []) buf v e
appended-Applied id bs buf v e b h w =
    let (x, s, k, v') = append-Stores v.store id bs b w.stores in
    stored-Applied id bs (bs ++ b ∷ []) buf v e (append v.store id b) x s h k v' w

buffered-Applied :
    (id : String) (bs : List TranscriptBlock) (buf buf' : Dict String String) (v : Live)
    (e : SessionEvent)
    → apply_event id v e ≡ ok tt (record v { token_buf = buf' })
    → Saw id bs buf v
    → Applied id (bs ++ []) buf' v e
buffered-Applied id bs buf buf' v e h w = (
  _,
  handled id v (record v { token_buf = buf' }) e h,
  record {
    stores = subst (λ xs. Stores id xs v.store) (sym (append-nil bs)) w.stores;
    buffer = refl;
  },
  refl,
  refl,
)

pub event-Applied :
    (id : String) (bs : List TranscriptBlock) (buf : Dict String String) (v : Live)
    (e : SessionEvent)
    → Saw id bs buf v
    → Applied id (bs ++ direct (e ∷ [])) (buffered buf (e ∷ [])) v e
unfolding apply_event direct buffered
event-Applied id bs buf v (SessionEvent.token m delta) w =
    subst (λ b. Applied id (bs ++ []) (buffer_token m delta b) v (SessionEvent.token m delta))
      w.buffer
      (buffered-Applied id bs buf (buffer_token m delta v.token_buf) v (SessionEvent.token m delta)
        refl w)
event-Applied id bs buf v (SessionEvent.status x) w =
    updated-Applied id bs buf v (SessionEvent.status x) (status_patch x) refl w
event-Applied id bs buf v (SessionEvent.tool a b c) w =
    appended-Applied id bs buf v (SessionEvent.tool a b c) (TranscriptBlock.tool a b c) refl w
event-Applied id bs buf v (SessionEvent.permission a b c) w =
    appended-Applied id bs buf v (SessionEvent.permission a b c) (TranscriptBlock.permission a b c)
      refl w
event-Applied id bs buf v (SessionEvent.telemetry x) w =
    updated-Applied id bs buf v (SessionEvent.telemetry x) (telemetry_patch x) refl w
event-Applied id bs buf v SessionEvent.done w =
    subst (λ b. Applied id (bs ++ []) b v SessionEvent.done) w.buffer
      (buffered-Applied id bs buf v.token_buf v SessionEvent.done refl w)

pub direct-cons :
    (e : SessionEvent) (es : List SessionEvent) → direct (e ∷ es) ≡ direct (e ∷ []) ++ direct es
unfolding direct
direct-cons (SessionEvent.token m delta) es = refl
direct-cons (SessionEvent.status x) es = refl
direct-cons (SessionEvent.tool a b c) es = refl
direct-cons (SessionEvent.permission a b c) es = refl
direct-cons (SessionEvent.telemetry x) es = refl
direct-cons SessionEvent.done es = refl

pub buffered-cons :
    (m : Dict String String) (e : SessionEvent) (es : List SessionEvent)
    → buffered m (e ∷ es) ≡ buffered (buffered m (e ∷ [])) es
unfolding buffered
buffered-cons m (SessionEvent.token k delta) es = refl
buffered-cons m (SessionEvent.status x) es = refl
buffered-cons m (SessionEvent.tool a b c) es = refl
buffered-cons m (SessionEvent.permission a b c) es = refl
buffered-cons m (SessionEvent.telemetry x) es = refl
buffered-cons m SessionEvent.done es = refl
