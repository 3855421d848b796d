-- ===== src/Tests.antt =====
-- Concrete inputs for the theorems: a project whose allowlist lets an agent run its tests and a human
-- write to its databases.
pub mod Decisions
pub mod Histories
pub mod Runs
pub mod Processes
pub mod Wires
pub mod Seam
pub mod Peers
pub mod Store
use capisco.Prelude.{Option, none, some, List, [], ◌∷◌, String, Bool, true, false, ℕ}
use capisco.Broker.Contract.{
  Principal, PrincipalKind, CapabilityKind, CapabilityRequest, BrokerOutcome, GrantAxis,
  PermissionDecision, AllowlistRule, ScopedGrant, natural,
}
use capisco.Broker.Policy.{Host, Engine, Scoped, scoped, grant_key}

abbrev pub host : Host
host = record { case_insensitive = false; nfc = λ s. s; to_lower = λ s. s; sep = "/" }

abbrev pub rule : CapabilityKind → String → AllowlistRule
rule kind pattern = record { kind = kind; pattern = pattern; verdict = BrokerOutcome.allow }

abbrev pub engine : Engine
engine = record {
  host = host;
  rules = rule CapabilityKind.shell "npm test*" ∷ rule CapabilityKind.db_write "*" ∷ [];
  project_key = "capisco";
  grants = [];
  consumable = [];
  request_seq = 0;
}

abbrev pub agent : Principal
agent = record { id = "agent-1"; kind = PrincipalKind.agent; label = "Agent" }

abbrev pub request :
    CapabilityKind → String → Option String → Bool → Option String → CapabilityRequest
request kind target command from_untrusted task = record {
  kind = kind;
  target = target;
  command = command;
  credential_ref = none;
  from_untrusted = from_untrusted;
  task_id = task;
  canonical_target = some target;
}

abbrev pub shell_request : CapabilityRequest
shell_request = request CapabilityKind.shell "npm test" none false (some "task-1")

abbrev pub push : CapabilityRequest
push = request CapabilityKind.external_write "push" none true none

abbrev pub prod_write : CapabilityRequest
prod_write = request CapabilityKind.db_write "prod" (some "DELETE") false none

abbrev pub file_request : CapabilityRequest
file_request = request CapabilityKind.file_write "/repo/a" none false (some "task-1")

abbrev pub answer : GrantAxis → PermissionDecision
answer axis = record {
  axis = axis;
  scope = none;
  scoped_grant = some (record { path_prefix = "/repo"; max_actions = natural 2 });
}

abbrev pub scoped_grant : Scoped
scoped_grant = record { task_id = "task-1"; path_prefix = "/repo"; remaining = 2 }

-- The engine once a scoped grant is persisted.
abbrev pub granted_engine : Engine
granted_engine = record engine {
  rules = [];
  grants = (grant_key engine CapabilityKind.file_write none, scoped scoped_grant) ∷ [];
}
