-- ===== src/Lifecycle/Launch.antt =====
-- The local side of a ticket's run, in app/sidecar/task-forge/ticket-lifecycle.ts.
use capisco.Prelude.{
  Option, inl, inr, suc, ◌≡◌, refl, none, some, [], ◌∷◌, String, string_eq, ap, ◌∙◌,
}
use capisco.Prelude.Dict.{get, set, get-set-same}
use capisco.Prelude.Text.{concat}
use capisco.Prelude.Effect.{Run, ok, err, state, after_ok, after_some}
use capisco.Broker.Contract.{CapabilityRequest}
use capisco.Sessions.{
  Store, SessionRecord, SessionStatus, session_id, create, update, apply_patch, Patch, CreateInput,
}
use capisco.Lifecycle.{
  Ticket, StatusWriteOutcome, written, gated, Write, World, LifecycleError, Options, WorktreeEntry,
  write_status, push_progress, couple, start_ticket, TicketStartResult, progress, with_store,
}
use capisco.Lifecycle.Writeback.{Accounted, write_status-Accounted}
use capisco.Sessions.Tree.{created, create-runs, require-ok}

abbrev start_input : Options → Ticket → CreateInput
start_input o ticket = record {
  id = none;
  model = o.model;
  title = concat (ticket.id ∷ " " ∷ ticket.title ∷ []);
  status = some SessionStatus.running;
  worktree_path = none;
}

abbrev coupling : WorktreeEntry → Patch
coupling entry = record {
  status = none;
  telemetry = none;
  title = none;
  worktree_path = some entry.path;
}

abbrev coupled : SessionRecord → WorktreeEntry → SessionRecord
coupled r entry = record r { session = apply_patch r.session (coupling entry) }

push_progress-store :
    (o : Options) (w : World) (ticket : Ticket) (id : String) (entry : WorktreeEntry)
    → (state (push_progress o w ticket id entry)).store ≡ w.store
unfolding push_progress
push_progress-store o w ticket id entry =
    kept _ _ _ _ (write_status o w (some ticket) progress)
      (write_status-Accounted o w (some ticket) progress)
  where
    kept :
        (C : Type 0) (throws : Option String) (r : CapabilityRequest) (wr : Write)
        (x : Run World LifecycleError StatusWriteOutcome)
        → Accounted C throws r wr w.performed w.store x
        → (state (elim x as (λ x. Run World LifecycleError TicketStartResult) [
          | err x w' ↦ err x w'
          | ok outcome w' ↦
              ok
                (record {
                  ticket = ticket;
                  session_id = id;
                  worktree = entry;
                  target_status = progress;
                  status_write = outcome;
                })
                w'
        ])).store
          ≡ w.store
    kept C throws r wr (err x w') a = a.sessions
    kept C throws r wr (ok written w') a = a.2.sessions
    kept C throws r wr (ok gated w') (inl a) = a.sessions
    kept C throws r wr (ok gated w') (inr a) = a.2.sessions

-- What is in the store once the session is created and coupled to its worktree.
start_ticket-push_progress :
    (o : Options) (w : World) (asked : String) (ticket : Ticket) (entry : WorktreeEntry)
    → let id = session_id (suc w.store.seq) in
      o.get_ticket asked ≡ some ticket
      → get id w.store.sessions ≡ none
      → o.create_worktree (o.worktree_path asked) (o.branch_name asked) id ≡ some entry
      → let r = created w.store (start_input o ticket) id in
        start_ticket o w asked
        ≡ push_progress o
            (with_store w (record {
              sessions = set id (coupled r entry) (set id r w.store.sessions);
              seq = suc w.store.seq;
            }))
            ticket
            id
            entry
unfolding start_ticket couple update
start_ticket-push_progress o w asked ticket entry g f t =
    let id = session_id (suc w.store.seq) in
    let r = created w.store (start_input o ticket) id in
    after_some _ _ (o.get_ticket asked) ticket g
    ∙ after_ok _ _ (create w.store (start_input o ticket)) _ _
        (create-runs w.store (start_input o ticket) f)
    ∙ after_some _ _ (o.create_worktree (o.worktree_path asked) (o.branch_name asked) id) entry t
    ∙ after_ok _ _ (update _ id (coupling entry)) tt _
        (require-ok _ id _ r (get-set-same id r w.store.sessions))

-- The local run comes up whatever the broker and the human do with the status: where the ticket is
-- known, the id that the store mints is free and the worktree is made, the session stands in the
-- store afterwards as running and coupled to the path of the worktree, with an empty transcript, also
-- when the status write is gated or throws.
pub start_ticket_launches :
    (o : Options) (w : World) (asked : String) (ticket : Ticket) (entry : WorktreeEntry)
    → let id = session_id (suc w.store.seq) in
      o.get_ticket asked ≡ some ticket
      → get id w.store.sessions ≡ none
      → o.create_worktree (o.worktree_path asked) (o.branch_name asked) id ≡ some entry
      → (r : SessionRecord) × (get id (state (start_ticket o w asked)).store.sessions ≡ some r)
        × (r.session.status ≡ SessionStatus.running)
        × (r.session.worktree_path ≡ some entry.path)
        × (r.blocks ≡ [])
unfolding apply_patch
start_ticket_launches o w asked ticket entry g f t =
    let id = session_id (suc w.store.seq) in
    let r = created w.store (start_input o ticket) id in
    let s = set id r w.store.sessions in
    let w' =
      with_store w (record { sessions = set id (coupled r entry) s; seq = suc w.store.seq }) in
    (
      coupled r entry,
      ap (λ (x : Run World LifecycleError TicketStartResult). get id (state x).store.sessions)
            (start_ticket-push_progress o w asked ticket entry g f t)
          ∙ ap (λ (x : Store). get id x.sessions) (push_progress-store o w' ticket id entry)
          ∙ get-set-same id (coupled r entry) s,
      refl,
      refl,
      refl,
    )
