-- ===== src/Tests/Store.antt =====
-- Witnesses for the workspaces' store: two prompts queued for one session.
use capisco.Prelude.{◌≡◌, refl, true, false, List, [], ◌∷◌, String, string_eq, any, ◌==◌}
use capisco.Prelude.Dict.{get}
use capisco.AgentsStore.{
  StoreOpts, AgentsState, create_agents_store, create_session, close_session, open_sessions, new_id,
}
use capisco.AgentsStore.Queue.{
  QueueOp, enqueues, dequeues, reorders, edits, removes, elsewhere, queue_of,
}
use capisco.AgentsStore.Fifo.{run_queues}
use capisco.AgentsStore.Order.{Behaves, run_queues-refines}
use capisco.AgentsStore.Tidy.{IsTidy, appends, edit, edit-IsTidy}
use capisco.AgentsStore.Ids.{create_session-hidden}

abbrev opts : StoreOpts
opts = record {
  base = [];
  default_model = 79 ∷ [];
  default_backend = "stub";
  new_session_title = 78 ∷ [];
}

abbrev store : AgentsState
store = create_agents_store opts

abbrev operations : List (String × QueueOp)
operations =
    ("s1", enqueues (65 ∷ []))
    ∷ ("s1", enqueues (32 ∷ 66 ∷ []))
    ∷ ("s2", enqueues (32 ∷ []))
    ∷ ("s1", elsewhere)
    ∷ ("s1", enqueues (67 ∷ []))
    ∷ ("s1", reorders 0 1)
    ∷ ("s1", edits 1 (68 ∷ []))
    ∷ ("s1", removes 2)
    ∷ ("s1", dequeues)
    ∷ []

nothing_queued : (j : String) → queue_of store j ≡ []
unfolding create_agents_store get
nothing_queued j = refl

no_ids : store.queue_seq ≡ 0
unfolding create_agents_store
no_ids = refl

run_queues-refines_example : Behaves 0 (λ j. []) operations (run_queues store operations)
run_queues-refines_example = run_queues-refines store 0 (λ j. []) operations no_ids nothing_queued

store-IsTidy : IsTidy store
unfolding create_agents_store get
store-IsTidy = record {
  logs = λ k v h. absurd (cc h);
  drafts = λ k v h. absurd (cc h);
  queues = λ k v h. absurd (cc h);
}

edit-IsTidy_example : IsTidy (edit store (appends "s1" (65 ∷ [])))
edit-IsTidy_example = edit-IsTidy store (appends "s1" (65 ∷ [])) store-IsTidy

create_session-hidden_example :
    let c =
      create_session opts
        (close_session opts (create_session opts store (79 ∷ [])) (new_id store))
        (83 ∷ []) in
    (c.active_id ≡ new_id store)
    × (any (λ x. x.id == new_id store) c.extra ≡ true)
    × (any (λ x. x.id == new_id store) (open_sessions opts c) ≡ false)
unfolding create_agents_store
create_session-hidden_example = create_session-hidden opts store (79 ∷ []) (83 ∷ []) tt
