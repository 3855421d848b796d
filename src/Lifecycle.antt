-- ===== src/Lifecycle.antt =====
-- app/sidecar/task-forge/ticket-lifecycle.ts. The ticket and worktree providers, the factories for
-- paths and branches and the resolver are parameters; the resolver's answer is awaited, so the
-- broker may be another one after it. The calls of performStatusWrite are logged in `performed`; what
-- it throws is a parameter.
pub mod Writeback
pub mod Launch
use capisco.Prelude.{ℕ, Bool, true, false, Option, none, some, List, [], ◌∷◌, ◌++◌, String, get_or}
use capisco.Prelude.Text.{concat}
use capisco.Prelude.Effect.{Run, ok, err}
use capisco.Broker.Contract.{
  Principal, PrincipalKind, CapabilityKind, CapabilityRequest, BrokerOutcome, GrantAxis,
  PermissionDecision, BrokerDecision,
}
use capisco.Broker.Chokepoint
use capisco.Broker.Chokepoint.{Broker, BrokerError}
use capisco.Sessions
use capisco.Sessions.{Store, StoreError, CreateInput, Patch, SessionStatus}

pub data TicketStatus : Type 0 where
  backlog todo progress review testing done : TicketStatus

abbrev status_name : TicketStatus → String
status_name backlog = "backlog"
status_name todo = "todo"
status_name progress = "progress"
status_name review = "review"
status_name testing = "testing"
status_name done = "done"

pub record Ticket : Type 0 where
  pub id : String
  pub title : String

pub data StatusWriteOutcome : Type 0 where
  written gated : StatusWriteOutcome

pub record WorktreeEntry : Type 0 where
  pub path : String
  pub session_id : String

-- The argument of performStatusWrite.
pub record Write : Type 0 where
  pub ticket_id : String
  pub target_status : TicketStatus

pub record World : Type 0 where
  pub broker : Broker
  pub store : Store
  pub performed : List Write

pub data LifecycleError : Type 0 where
  unknown_ticket worktree_failed : String → LifecycleError
  store_failed : StoreError → LifecycleError
  broker_failed : BrokerError → LifecycleError

abbrev pub automation : Principal
automation = record { id = "lifecycle"; kind = PrincipalKind.agent; label = "Ticket lifecycle" }

abbrev pub human : Principal
human = record { id = "human"; kind = PrincipalKind.human; label = "You" }

pub record TicketStartResult : Type 0 where
  pub ticket : Ticket
  pub session_id : String
  pub worktree : WorktreeEntry
  pub target_status : TicketStatus
  pub status_write : StatusWriteOutcome

pub record TicketFinishResult : Type 0 where
  pub ticket_id : String
  pub session_id : String
  pub target_status : TicketStatus
  pub status_write : StatusWriteOutcome

-- The options of the lifecycle.
pub record Options : Type 0 where
  pub backend : String
  pub get_ticket : String → Option Ticket
  pub create_worktree : String → String → String → Option WorktreeEntry
  pub worktree_path : String → String
  pub branch_name : String → String
  pub model : String
  pub resolve :
      Broker → CapabilityRequest → Option Ticket → TicketStatus → PermissionDecision × Broker
  pub perform_status_write : Write → Option String

-- `ticket?.id ?? "(unknown)"`
abbrev pub ticket_id : Option Ticket → String
ticket_id none = "(unknown)"
ticket_id (some t) = t.id

unfoldable pub status_request : Options → Option Ticket → TicketStatus → Bool → CapabilityRequest
status_request o ticket target from_untrusted = record {
  kind = CapabilityKind.external_write;
  target =
      concat (o.backend ∷ ":ticket:" ∷ ticket_id ticket ∷ ":status=" ∷ status_name target ∷ []);
  command = none;
  credential_ref = none;
  from_untrusted = from_untrusted;
  task_id = none;
  canonical_target = none;
}

abbrev pub with_broker : World → Broker → World
with_broker w b = record w { broker = b }

-- `catch { return "gated" }` around the callback.
abbrev pub caught : Option String → StatusWriteOutcome
caught none = written
caught (some thrown) = gated

-- The grant is executed: the callback calls performStatusWrite. A throw of the broker and one of the
-- callback are caught; the callback runs after the broker has logged the execution.
unfoldable pub perform :
    Options → World → CapabilityRequest → Write → Option ℕ → StatusWriteOutcome × World
perform o w request write grant = elim (Chokepoint.admit w.broker human request none grant) [
  | err x b ↦ (gated, with_broker w b)
  | ok _ b ↦ (
    caught (o.perform_status_write write),
    record w { broker = b; performed = w.performed ++ write ∷ [] },
  )
]

-- After the human's answer was recorded: the human's own authorization, and the write.
unfoldable pub write_as_human :
    Options → World → CapabilityRequest → Write → Run World LifecycleError StatusWriteOutcome
write_as_human o w request write = elim (Chokepoint.authorize w.broker human request none) [
  | err x b ↦ err (broker_failed x) (with_broker w b)
  | ok d b ↦ elim d.outcome [
    | BrokerOutcome.allow ↦
        ok (perform o (with_broker w b) request write d.grant).0
          (perform o (with_broker w b) request write d.grant).1
    | _ ↦ ok gated (with_broker w b)
  ]
]

-- The human's answer.
unfoldable pub answered :
    Options
    → World
    → Option Ticket
    → TicketStatus
    → PermissionDecision
    → GrantAxis
    → Run World LifecycleError StatusWriteOutcome
answered o w ticket target d GrantAxis.deny =
    elim (Chokepoint.resolve w.broker (status_request o ticket target true) d none) [
      | err x b ↦ err (broker_failed x) (with_broker w b)
      | ok _ b ↦ ok gated (with_broker w b)
    ]
answered o w ticket target d _ =
    elim (Chokepoint.resolve w.broker (status_request o ticket target false) d none) [
      | err x b ↦ err (broker_failed x) (with_broker w b)
      | ok _ b ↦
          write_as_human o (with_broker w b) (status_request o ticket target false)
            (record { ticket_id = ticket_id ticket; target_status = target })
    ]

unfoldable pub write_status :
    Options → World → Option Ticket → TicketStatus → Run World LifecycleError StatusWriteOutcome
write_status o w ticket target =
    elim (Chokepoint.authorize w.broker automation (status_request o ticket target true) none) [
      | err x b ↦ err (broker_failed x) (with_broker w b)
      | ok d b ↦ elim d.outcome [
        | BrokerOutcome.ask ↦
            let asked = o.resolve b (status_request o ticket target true) ticket target in
            answered o (with_broker w asked.1) ticket target asked.0 asked.0.axis
        | _ ↦ ok gated (with_broker w b)
      ]
    ]

abbrev pub with_store : World → Store → World
with_store w s = record w { store = s }

-- Once the local run is up.
unfoldable pub push_progress :
    Options → World → Ticket → String → WorktreeEntry → Run World LifecycleError TicketStartResult
push_progress o w ticket id entry = elim (write_status o w (some ticket) progress) [
  | err x w' ↦ err x w'
  | ok outcome w' ↦
      ok
        (record {
          ticket = ticket;
          session_id = id;
          worktree = entry;
          target_status = progress;
          status_write = outcome;
        })
        w'
]

-- The worktree, the coupling on the session, and the status.
unfoldable pub couple :
    Options → World → String → Ticket → String → Run World LifecycleError TicketStartResult
couple o w asked ticket id =
    elim (o.create_worktree (o.worktree_path asked) (o.branch_name asked) id) [
      | none ↦ err (worktree_failed (o.worktree_path asked)) w
      | some entry ↦
          elim (Sessions.update w.store id (record {
            status = none;
            telemetry = none;
            title = none;
            worktree_path = some entry.path;
          })) [
            | err x s ↦ err (store_failed x) (with_store w s)
            | ok _ s ↦ push_progress o (with_store w s) ticket id entry
          ]
    ]

unfoldable pub start_ticket : Options → World → String → Run World LifecycleError TicketStartResult
start_ticket o w asked = elim (o.get_ticket asked) [
  | none ↦ err (unknown_ticket asked) w
  | some ticket ↦
      elim (Sessions.create w.store (record {
        id = none;
        model = o.model;
        title = concat (ticket.id ∷ " " ∷ ticket.title ∷ []);
        status = some SessionStatus.running;
        worktree_path = none;
      })) [
        | err x s ↦ err (store_failed x) (with_store w s)
        | ok stored s ↦ couple o (with_store w s) asked ticket stored.id
      ]
]

unfoldable pub finish_ticket :
    Options → World → String → String → Run World LifecycleError TicketFinishResult
finish_ticket o w asked id =
    elim (Sessions.update w.store id (record {
      status = some SessionStatus.done;
      telemetry = none;
      title = none;
      worktree_path = none;
    })) [
      | err x s ↦ err (store_failed x) (with_store w s)
      | ok _ s ↦ elim (write_status o (with_store w s) (o.get_ticket asked) review) [
        | err x w' ↦ err x w'
        | ok outcome w' ↦
            ok
              (record {
                ticket_id = asked;
                session_id = id;
                target_status = review;
                status_write = outcome;
              })
              w'
      ]
    ]
