-- ===== src/Broker/Chokepoint.antt =====
-- app/sidecar/broker/capability-broker.ts. The broker's state is a record; the policy engine, the
-- vault and the audit log are those that its constructor makes by default. `JSON.stringify` of a flat
-- array is injective, so a fingerprint is the array. The grant `grant-n` is written `n`: a forged
-- handle is a number that was never minted.
pub mod Gate
pub mod Change
pub mod Invariant
pub mod Trace
pub mod Execution
pub mod Decided
use capisco.Prelude.{
  ℕ, suc, ◌≡◌, ◌↔◌, Bool, true, false, ◌&&◌, ◌||◌, not, Option, none, some, List, [], ◌∷◌, String,
  if◌then◌else◌, get_or, is_some, Eq, ◌==◌, string_eq, bool_eq, nat_eq, list_eq, arith, ==_iff,
}
use capisco.Prelude.Dict.{Dict, get, set, delete, contains, add, remove}
use capisco.Prelude.Text.{present}
use capisco.Prelude.Effect.{Run, ok, err}
use capisco.Broker.Contract.{
  Principal, PrincipalKind, principal_name, CapabilityKind, db_write, kind_name, kind_eq,
  CapabilityRequest, CapabilityScope, BrokerOutcome, GrantAxis, PermissionDecision, BrokerDecision,
  WriteEscape, Reason,
}
use capisco.Broker.Policy.{Engine, PolicyError}
use capisco.Broker.Policy
use capisco.Broker.Vault.{Vault, VaultError}
use capisco.Broker.Vault
use capisco.Broker.Audit.{
  AuditLog, AuditError, Entry, AuditEntry, AuditOutcome, decided, executed, vault_write_proposed,
  record_entry, is_rtk_filtered, rtk_option,
}

pub data Json : Type 0 where
  str : String → Json
  flag : Bool → Json

abbrev pub json_beq : Json → Json → Bool
json_beq (str s) (str t) = s == t
json_beq (flag a) (flag b) = a == b
json_beq _ _ = false

pub json_beq_iff : (a b : Json) → (json_beq a b ≡ true) ↔ (a ≡ b)
json_beq_iff (str s) (str t) = ground (arith, ==_iff s t)
json_beq_iff (str s) (flag b) = ground arith
json_beq_iff (flag a) (str t) = ground arith
json_beq_iff (flag a) (flag b) = ground (arith, ==_iff a b)

instance abbrev pub json_eq : Eq Json
json_eq = record { beq = json_beq; beq_iff = json_beq_iff }

abbrev pub Fingerprint : Type 0
Fingerprint = List Json

pub record Broker : Type 0 where
  pub policy : Engine
  pub vault : Vault
  pub audit : AuditLog
  pub prod_datasources : List String
  pub grants : Dict ℕ Fingerprint
  pub grants_by_task : Dict String (List ℕ)
  pub grant_seq : ℕ
  pub used_escapes : List String

pub data BrokerError : Type 0 where
  rtk_filtered not_authorized escape_required escape_datasource escape_command : BrokerError
  escape_consumed not_approved : BrokerError
  audit_failed : AuditError → BrokerError
  policy_failed : PolicyError → BrokerError
  vault_failed : VaultError → BrokerError

unfoldable pub request_fingerprint : Principal → CapabilityRequest → Fingerprint
request_fingerprint principal request =
    str (principal_name principal.kind)
    ∷ str principal.id
    ∷ str (kind_name request.kind)
    ∷ str request.target
    ∷ str (get_or request.command "")
    ∷ str (get_or request.credential_ref "")
    ∷ flag request.from_untrusted
    ∷ str (get_or request.task_id "")
    ∷ []

abbrev pub entry_of : Principal → CapabilityRequest → AuditOutcome → Reason → Entry
entry_of principal request outcome reason = record {
  principal_id = principal.id;
  principal_kind = principal.kind;
  capability = request.kind;
  target = request.target;
  credential_ref = request.credential_ref;
  outcome = outcome;
  from_untrusted = request.from_untrusted;
  reason = reason;
}

-- `this.audit.record(…)`; a throw of the log is a throw of the broker.
abbrev audited :
    {A : Type 0} → Broker → Entry → (Broker → Run Broker BrokerError A) → Run Broker BrokerError A
audited b e next = elim (record_entry b.audit e) [
  | err x log ↦ err (audit_failed x) b
  | ok recorded log ↦ next (record b { audit = log })
]

unfoldable pub index_grant : Dict String (List ℕ) → Option String → ℕ → Dict String (List ℕ)
index_grant m task id =
    if present task then set (get_or task "") (add id (get_or (get (get_or task "") m) [])) m else m

unfoldable pub mint : Broker → Principal → CapabilityRequest → Broker
mint b principal request = record b {
  grants = set (suc b.grant_seq) (request_fingerprint principal request) b.grants;
  grants_by_task = index_grant b.grants_by_task request.task_id (suc b.grant_seq);
  grant_seq = suc b.grant_seq;
}

unfoldable pub granted :
    Broker → Principal → CapabilityRequest → BrokerDecision → Run Broker BrokerError BrokerDecision
granted b principal request decision = elim decision.outcome [
  | BrokerOutcome.allow ↦
      ok (record decision { grant = some (suc b.grant_seq) }) (mint b principal request)
  | _ ↦ ok decision b
]

unfoldable pub authorize :
    Broker
    → Principal
    → CapabilityRequest
    → Option CapabilityScope
    → Run Broker BrokerError BrokerDecision
authorize b principal request scope =
    if is_rtk_filtered request.target
      || (rtk_option request.command || rtk_option request.credential_ref)
    then err rtk_filtered b
    else let decision = (Policy.decide b.policy request scope).0 in
      audited (record b { policy = (Policy.decide b.policy request scope).1 })
        (entry_of principal request (decided decision.outcome) decision.reason)
        (λ b'. granted b' principal request decision)

unfoldable pub resolve :
    Broker
    → CapabilityRequest
    → PermissionDecision
    → Option CapabilityScope
    → Run Broker BrokerError GrantAxis
resolve b request decision scope = elim (Policy.resolve b.policy request decision scope) [
  | ok axis e ↦ ok axis (record b { policy = e })
  | err x e ↦ err (policy_failed x) (record b { policy = e })
]

-- `this.#grants.get(grant.id) === fingerprint`
abbrev holds_grant : Option Fingerprint → Fingerprint → Bool
holds_grant none f = false
holds_grant (some g) f = g == f

unfoldable pub unindex_grant : Dict String (List ℕ) → Option String → ℕ → Dict String (List ℕ)
unindex_grant m task id =
    if present task
    then elim (get (get_or task "") m) [
      | none ↦ m
      | some ids ↦ set (get_or task "") (remove id ids) m
    ]
    else m

unfoldable pub consume : Broker → CapabilityRequest → ℕ → Broker
consume b request id = record b {
  grants = delete id b.grants;
  grants_by_task = unindex_grant b.grants_by_task request.task_id id;
}

-- The production write invariant.
unfoldable pub ride_escape :
    Broker → CapabilityRequest → Option WriteEscape → Run Broker BrokerError (Unit {0})
ride_escape b request none = err escape_required b
ride_escape b request (some escape) =
    if not (escape.datasource == request.target)
    then err escape_datasource b
    else if not (present request.command) || not (escape.command == get_or request.command "")
    then err escape_command b
    else if contains escape.id b.used_escapes
    then err escape_consumed b
    else ok tt (record b { used_escapes = add escape.id b.used_escapes })

unfoldable pub is_prod_write : Broker → CapabilityRequest → Bool
is_prod_write b request =
    request.kind == CapabilityKind.db_write && contains request.target b.prod_datasources

unfoldable pub guard_prod :
    Broker → CapabilityRequest → Option WriteEscape → Run Broker BrokerError (Unit {0})
guard_prod b request escape =
    if is_prod_write b request then ride_escape b request escape else ok tt b

unfoldable pub record_execution :
    Broker → Principal → CapabilityRequest → Run Broker BrokerError (Unit {0})
record_execution b principal request =
    audited b (entry_of principal request executed Reason.authorized_execution) (λ b'. ok tt b')

-- All of `execute` before the callback runs.
unfoldable pub admit :
    Broker
    → Principal
    → CapabilityRequest
    → Option WriteEscape
    → Option ℕ
    → Run Broker BrokerError (Unit {0})
admit b principal request escape none = err not_authorized b
admit b principal request escape (some id) =
    if holds_grant (get id b.grants) (request_fingerprint principal request)
    then elim (guard_prod (consume b request id) request escape) [
      | err x b' ↦ err x b'
      | ok _ b' ↦ record_execution b' principal request
    ]
    else err not_authorized b

-- The callback may call the broker again.
unfoldable pub execute :
    {T : Type 0}
    → Broker
    → Principal
    → CapabilityRequest
    → (Broker → Run Broker BrokerError T)
    → Option WriteEscape
    → Option ℕ
    → Run Broker BrokerError T
execute b principal request run escape grant = elim (admit b principal request escape grant) [
  | err x b' ↦ err x b'
  | ok _ b' ↦ run b'
]

-- What `ctx.withSecret` gives the callback.
unfoldable pub with_secret :
    {R : Type 0} → Broker → String → (String → R) → Run Broker BrokerError R
with_secret b ref use_value = elim (Vault.inject b.vault ref use_value) [
  | none ↦ err (vault_failed VaultError.unknown_reference) b
  | some r ↦ ok r b
]

pub record Proposal : Type 0 where
  pub ref : String
  pub reason : String
  pub approved : Bool

unfoldable pub propose_vault_write : Broker → String → String → Run Broker BrokerError Proposal
propose_vault_write b ref reason =
    audited b
      (record {
        principal_id = "broker";
        principal_kind = PrincipalKind.agent;
        capability = CapabilityKind.secret_read;
        target = ref;
        credential_ref = some ref;
        outcome = vault_write_proposed;
        from_untrusted = false;
        reason = Reason.vault_write reason;
      })
      (λ b'. ok (record { ref = ref; reason = reason; approved = false }) b')

unfoldable pub commit_vault_write : Broker → Proposal → String → Run Broker BrokerError (Unit {0})
commit_vault_write b proposal value =
    if not proposal.approved
    then err not_approved b
    else elim (Vault.put b.vault proposal.ref value) [
      | err x v ↦ err (vault_failed x) b
      | ok _ v ↦ ok tt (record b { vault = v })
    ]

unfoldable pub delete_all : List ℕ → Dict ℕ Fingerprint → Dict ℕ Fingerprint
delete_all [] m = m
delete_all (id ∷ ids) m = delete_all ids (delete id m)

unfoldable pub revoke_task : Broker → String → Broker
revoke_task b task =
    let b' = record b { policy = Policy.revoke_task b.policy task } in
    elim (get task b.grants_by_task) [
      | none ↦ b'
      | some ids ↦ record b' {
        grants = delete_all ids b.grants;
        grants_by_task = delete task b.grants_by_task;
      }
    ]
