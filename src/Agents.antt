-- ===== src/Agents.antt =====
-- The broker seam of an agent session: `#onAgentRequest` of app/sidecar/acp/acp-session.ts. The
-- human's answer is the parameter `human`: with the decision it gives the broker as it is when the
-- decision comes, since other requests are served meanwhile. `perform` gives what the action throws.
pub mod Mediation
pub mod Steps
pub mod Approval
pub mod Transcript
pub mod Watchdog
use capisco.Prelude.{
  Bool, false, ◌||◌, Option, none, some, List, [], ◌∷◌, ◌++◌, String, ◌==◌, not, string_eq,
  if◌then◌else◌, ℕ,
}
use capisco.Prelude.Effect.{Run, ok, err}
use capisco.Broker.Contract.{
  Principal, PrincipalKind, CapabilityKind, CapabilityRequest, BrokerOutcome, GrantAxis,
  PermissionDecision, BrokerDecision, WriteEscape, Reason,
}
use capisco.Broker.Chokepoint.{Broker, BrokerError, authorize, resolve, execute}

pub record AcpToolCall : Type 0 where
  pub call_id : String
  pub kind : CapabilityKind
  pub target : String
  pub title : String
  pub command : Option String
  pub credential_ref : Option String

pub record AcpPermissionRequest : Type 0 where
  pub call : AcpToolCall
  pub from_untrusted : Bool

pub record AgentRequest : Type 0 where
  pub method : String
  pub params : AcpPermissionRequest

pub data AnswerReason : Type 0 where
  policy_denied : Reason → AnswerReason
  human_denied gate_not_cleared authorized_and_executed : AnswerReason
  broker_threw : BrokerError → AnswerReason
  action_threw : String → AnswerReason

-- `{ outcome: "allow" | "deny", reason }`
pub data Answer : Type 0 where
  allowed refused : AnswerReason → Answer

pub data SeamError : Type 0 where
  unsupported : String → SeamError
  broker_failed : BrokerError → SeamError

-- What the resolver is told beside the request.
pub record Context : Type 0 where
  pub from_untrusted : Bool
  pub principal : Principal
  pub session_id : String

pub record AcpSession : Type 0 where
  pub principal : Principal
  pub untrusted : Bool
  pub session_id : String
  pub human : CapabilityRequest → Context → Broker → PermissionDecision × Broker
  pub write_escape : CapabilityRequest → Option WriteEscape
  pub perform : AcpToolCall → Option String

-- The broker, and the actions that were performed.
pub record World : Type 0 where
  pub broker : Broker
  pub performed : List AcpToolCall

abbrev pub request_permission : String
request_permission = "session/request_permission"

abbrev pub human_principal : Principal
human_principal = record { id = "human"; kind = PrincipalKind.human; label = "You" }

unfoldable pub capability_request : AcpSession → AcpPermissionRequest → CapabilityRequest
capability_request s q = record {
  kind = q.call.kind;
  target = q.call.target;
  command = q.call.command;
  credential_ref = q.call.credential_ref;
  from_untrusted = s.untrusted || q.from_untrusted;
  task_id = none;
  canonical_target = none;
}

unfoldable pub trusted_request : CapabilityRequest → CapabilityRequest
trusted_request r = record {
  kind = r.kind;
  target = r.target;
  command = r.command;
  credential_ref = r.credential_ref;
  from_untrusted = false;
  task_id = none;
  canonical_target = none;
}

abbrev pub with_broker : World → Broker → World
with_broker w b = record w { broker = b }

abbrev pub answered : Option String → Answer
answered none = allowed authorized_and_executed
answered (some thrown) = refused (action_threw thrown)

-- Step 3, with the `catch` around it.
unfoldable pub execute_call :
    AcpSession
    → World
    → AcpToolCall
    → Principal
    → CapabilityRequest
    → Option ℕ
    → Run World SeamError Answer
execute_call s w call p r grant =
    elim (execute w.broker p r (λ b. ok (s.perform call) b) (s.write_escape r) grant) [
      | err x b ↦ ok (refused (broker_threw x)) (with_broker w b)
      | ok thrown b ↦
          ok (answered thrown) (record { broker = b; performed = w.performed ++ call ∷ [] })
    ]

-- The second `authorize`, on the human's authority.
unfoldable pub execute_for_human :
    AcpSession → World → AcpToolCall → CapabilityRequest → Run World SeamError Answer
execute_for_human s w call r = elim (authorize w.broker human_principal r none) [
  | err x b ↦ err (broker_failed x) (with_broker w b)
  | ok d b ↦ elim d.outcome [
    | BrokerOutcome.allow ↦ execute_call s (with_broker w b) call human_principal r d.grant
    | _ ↦ ok (refused gate_not_cleared) (with_broker w b)
  ]
]

unfoldable pub after_human :
    AcpSession
    → World
    → AcpToolCall
    → CapabilityRequest
    → PermissionDecision
    → Run World SeamError Answer
after_human s w call r decision = elim (resolve w.broker r decision none) [
  | err x b ↦ err (broker_failed x) (with_broker w b)
  | ok _ b ↦ elim decision.axis [
    | GrantAxis.deny ↦ ok (refused human_denied) (with_broker w b)
    | _ ↦ execute_for_human s (with_broker w b) call (trusted_request r)
  ]
]

unfoldable pub context_of : AcpSession → CapabilityRequest → Context
context_of s r = record {
  from_untrusted = r.from_untrusted;
  principal = s.principal;
  session_id = s.session_id;
}

unfoldable pub ask_human :
    AcpSession → World → AcpToolCall → CapabilityRequest → Run World SeamError Answer
ask_human s w call r =
    after_human s (with_broker w (s.human r (context_of s r) w.broker).1) call r
      (s.human r (context_of s r) w.broker).0

unfoldable pub by_decision :
    AcpSession
    → World
    → AcpToolCall
    → CapabilityRequest
    → BrokerDecision
    → Run World SeamError Answer
by_decision s w call r d = elim d.outcome [
  | BrokerOutcome.deny ↦ ok (refused (policy_denied d.reason)) w
  | BrokerOutcome.allow ↦ execute_call s w call s.principal r d.grant
  | BrokerOutcome.ask ↦ ask_human s w call r
]

unfoldable pub on_agent_request : AcpSession → World → AgentRequest → Run World SeamError Answer
on_agent_request s w req =
    if not (req.method == request_permission)
    then err (unsupported req.method) w
    else elim (authorize w.broker s.principal (capability_request s req.params) none) [
      | err x b ↦ err (broker_failed x) (with_broker w b)
      | ok d b ↦ by_decision s (with_broker w b) req.params.call (capability_request s req.params) d
    ]
