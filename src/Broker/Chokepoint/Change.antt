-- ===== src/Broker/Chokepoint/Change.antt =====
-- The calls of app/sidecar/broker/capability-broker.ts as steps, and what one step can change.
use capisco.Prelude.{
  ℕ, suc, ◌≡◌, refl, ◌⊎◌, inl, inr, Bool, not, ◌||◌, Option, none, some, List, [], ◌∷◌, ◌++◌,
  String, arith, Bool-cases, Option-cases, get_or, ◌==◌, string_eq, nat_eq, list_eq, ap, subst,
}
use capisco.Prelude.Dict.{get, set, delete, contains, add}
use capisco.Prelude.Effect.{Run, ok, err, state}
use capisco.Prelude.Text.{present}
use capisco.Broker.Contract.{
  Principal, CapabilityRequest, CapabilityScope, BrokerOutcome, PermissionDecision, BrokerDecision,
  WriteEscape, Reason, GrantAxis,
}
use capisco.Broker.Policy
use capisco.Broker.Vault.{Vault, VaultError}
use capisco.Broker.Vault
use capisco.Broker.Audit.{
  is_rtk_filtered, rtk_option, AuditLog, AuditEntry, AuditError, Entry, executed, decided,
  record_entry, record_entry-ok,
}
use capisco.Broker.Chokepoint.{holds_grant}
use capisco.Broker.Chokepoint.{
  Broker, BrokerError, json_eq, request_fingerprint, entry_of, index_grant, unindex_grant, mint,
  granted, authorize, resolve, consume, ride_escape, is_prod_write, guard_prod, record_execution,
  admit, Proposal, propose_vault_write, commit_vault_write, delete_all, revoke_task,
}

-- A callback that calls the broker again makes calls that come after its own.
pub data Call : Type 0 where
  authorizes : Principal → CapabilityRequest → Option CapabilityScope → Call
  resolves : CapabilityRequest → PermissionDecision → Option CapabilityScope → Call
  executes : Principal → CapabilityRequest → Option WriteEscape → Option ℕ → Call
  proposes : String → String → Call
  commits : Proposal → String → Call
  revokes : String → Call

unfoldable pub step : Broker → Call → Broker
step b (authorizes p r s) = state (authorize b p r s)
step b (resolves r d s) = state (resolve b r d s)
step b (executes p r escape grant) = state (admit b p r escape grant)
step b (proposes ref reason) = state (propose_vault_write b ref reason)
step b (commits proposal value) = state (commit_vault_write b proposal value)
step b (revokes task) = revoke_task b task

unfoldable pub run : Broker → List Call → Broker
run b [] = b
run b (c ∷ cs) = run (step b c) cs

-- The log as it was, or with one entry more.
abbrev pub Appends : AuditLog → AuditLog → Type 0
Appends log log' =
    (log' ≡ log)
    ⊎ ((e : Entry) × (log' ≡ record {
      entries = log.entries ++ record { seq = suc log.seq; entry = e } ∷ [];
      seq = suc log.seq;
    }))

pub data Change (b b' : Broker) : Type 0 where
  quiet :
      Appends b.audit b'.audit
      → b'.grants ≡ b.grants
      → b'.grants_by_task ≡ b.grants_by_task
      → b'.grant_seq ≡ b.grant_seq
      → b'.used_escapes ≡ b.used_escapes
      → Change b b'
  minted :
      (p : Principal) (r : CapabilityRequest) (reason : Reason)
      → b'.audit ≡ record {
        entries =
            b.audit.entries
            ++ record {
              seq = suc b.audit.seq;
              entry = entry_of p r (decided BrokerOutcome.allow) reason;
            }
              ∷ [];
        seq = suc b.audit.seq;
      }
      → b'.grants ≡ set (suc b.grant_seq) (request_fingerprint p r) b.grants
      → b'.grants_by_task ≡ index_grant b.grants_by_task r.task_id (suc b.grant_seq)
      → b'.grant_seq ≡ suc b.grant_seq
      → b'.used_escapes ≡ b.used_escapes
      → Change b b'
  consumed :
      (r : CapabilityRequest) (id : ℕ)
      → Appends b.audit b'.audit
      → b'.grants ≡ delete id b.grants
      → b'.grants_by_task ≡ unindex_grant b.grants_by_task r.task_id id
      → b'.grant_seq ≡ b.grant_seq
      → (b'.used_escapes ≡ b.used_escapes)
        ⊎ ((w : String) × (b'.used_escapes ≡ add w b.used_escapes))
      → Change b b'
  revoked :
      (task : String) (ids : List ℕ)
      → b'.audit ≡ b.audit
      → get task b.grants_by_task ≡ some ids
      → b'.grants ≡ delete_all ids b.grants
      → b'.grants_by_task ≡ delete task b.grants_by_task
      → b'.grant_seq ≡ b.grant_seq
      → b'.used_escapes ≡ b.used_escapes
      → Change b b'

unchanged : (b : Broker) → Change b b
unchanged b = quiet (inl refl) refl refl refl refl

granted-Change :
    (b : Broker) (c : Broker) (p : Principal) (r : CapabilityRequest) (d : BrokerDecision)
    (o : BrokerOutcome) (reason : Reason)
    → d.outcome ≡ o
    → c ≡ record b {
      policy = c.policy;
      audit = record {
        entries =
            b.audit.entries
            ++ record { seq = suc b.audit.seq; entry = entry_of p r (decided o) reason } ∷ [];
        seq = suc b.audit.seq;
      };
    }
    → Change b (state (granted c p r d))
unfolding granted mint
granted-Change b c p r d BrokerOutcome.allow reason q e =
    rw q
      (minted p r reason (ground arith) (ground arith) (ground arith) (ground arith) (ground arith))
granted-Change b c p r d BrokerOutcome.deny reason q e = rw q (
    quiet (inr (entry_of p r (decided BrokerOutcome.deny) reason, ground arith)) (ground arith)
      (ground arith) (ground arith) (ground arith))
granted-Change b c p r d BrokerOutcome.ask reason q e = rw q (
    quiet (inr (entry_of p r (decided BrokerOutcome.ask) reason, ground arith)) (ground arith)
      (ground arith) (ground arith) (ground arith))

audited-Change :
    (b : Broker) (policy : Policy.Engine) (p : Principal) (r : CapabilityRequest)
    (d : BrokerDecision) (o : Run AuditLog AuditError AuditEntry)
    → record_entry b.audit (entry_of p r (decided d.outcome) d.reason) ≡ o
    → Change b (
        state (elim o [
          | err x log ↦ err (BrokerError.audit_failed x) (record b { policy = policy })
          | ok _ log ↦ granted (record b { policy = policy; audit = log }) p r d
        ]))
audited-Change b policy p r d (err x log) h = quiet (inl refl) refl refl refl refl
audited-Change b policy p r d (ok x log) h =
    let (q, l) = record_entry-ok b.audit _ x log h in
    granted-Change b (record b { policy = policy; audit = log }) p r d d.outcome d.reason refl
      (ground arith)

authorize-Change :
    (b : Broker) (p : Principal) (r : CapabilityRequest) (s : Option CapabilityScope)
    → Change b (state (authorize b p r s))
unfolding authorize
authorize-Change b p r s = elim (Bool-cases t) [
  | inl h ↦ rw h (unchanged b)
  | inr h ↦
      rw h
        (audited-Change b (Policy.decide b.policy r s).1 p r (Policy.decide b.policy r s).0 _ refl)
]
  where
    t : Bool
    t = is_rtk_filtered r.target || (rtk_option r.command || rtk_option r.credential_ref)

record_execution-Change :
    (b : Broker) (p : Principal) (r : CapabilityRequest)
    → (Appends b.audit (state (record_execution b p r)).audit)
      × (state (record_execution b p r)
          ≡ record b { audit = (state (record_execution b p r)).audit })
unfolding record_execution
record_execution-Change b p r = recorded (record_entry b.audit e) refl
  where
    e : Entry
    e = entry_of p r executed Reason.authorized_execution

    after : Run AuditLog AuditError AuditEntry → Run Broker BrokerError (Unit {0})
    after o = elim o [
      | err x log ↦ err (BrokerError.audit_failed x) b
      | ok _ log ↦ ok tt (record b { audit = log })
    ]

    recorded :
        (o : Run AuditLog AuditError AuditEntry)
        → record_entry b.audit e ≡ o
        → (Appends b.audit (state (after o)).audit)
          × (state (after o) ≡ record b { audit = (state (after o)).audit })
    recorded (err x log) h = (inl refl, refl)
    recorded (ok x log) h =
        let (q, l) = record_entry-ok b.audit e x log h in (inr (e, ground arith), refl)

ride_escape_used :
    (b : Broker) (r : CapabilityRequest) (escape : Option WriteEscape)
    → (state (ride_escape b r escape) ≡ b)
      ⊎ ((w : String) × (state (ride_escape b r escape)
            ≡ record b { used_escapes = add w b.used_escapes }))
unfolding ride_escape
ride_escape_used b r none = inl refl
ride_escape_used b r (some w) = elim (Bool-cases (w.datasource == r.target)) [
  | inr d ↦ rw d (inl refl)
  | inl d ↦ elim (Bool-cases (not (present r.command) || not (w.command == get_or r.command ""))) [
    | inl c ↦ rw (d, c) (inl refl)
    | inr c ↦ elim (Bool-cases (contains w.id b.used_escapes)) [
      | inl f ↦ rw (d, c, f) (inl refl)
      | inr f ↦ rw (d, c, f) (inr (w.id, refl))
    ]
  ]
]

guard_prod_used :
    (b : Broker) (r : CapabilityRequest) (escape : Option WriteEscape)
    → (state (guard_prod b r escape) ≡ b)
      ⊎ ((w : String) × (state (guard_prod b r escape)
            ≡ record b { used_escapes = add w b.used_escapes }))
unfolding guard_prod
guard_prod_used b r escape = elim (Bool-cases (is_prod_write b r)) [
  | inl t ↦ rw t (ride_escape_used b r escape)
  | inr t ↦ rw t (inl refl)
]

consume-Change :
    (b c : Broker) (r : CapabilityRequest) (id : ℕ)
    → Appends b.audit c.audit
    → ((d : Broker) × (((d ≡ consume b r id)
            ⊎ ((w : String) × (d
                  ≡ record (consume b r id) { used_escapes = add w b.used_escapes })))
          × (c ≡ record d { audit = c.audit })))
    → Change b c
unfolding consume
consume-Change b c r id a (d, (inl e, f)) =
    consumed r id a (ground arith) (ground arith) (ground arith) (inl (ground arith))
consume-Change b c r id a (d, (inr (w, e), f)) =
    consumed r id a (ground arith) (ground arith) (ground arith) (inr (w, ground arith))

consume_audit :
    (b c : Broker) (r : CapabilityRequest) (id : ℕ)
    → ((c ≡ consume b r id)
        ⊎ ((w : String) × (c ≡ record (consume b r id) { used_escapes = add w b.used_escapes })))
    → c.audit ≡ b.audit
unfolding consume
consume_audit b c r id (inl e) = ap (λ d. d.audit) e
consume_audit b c r id (inr (w, e)) = ap (λ d. d.audit) e

guarded-Change :
    (b : Broker) (p : Principal) (r : CapabilityRequest) (id : ℕ) (escape : Option WriteEscape)
    (o : Run Broker BrokerError (Unit {0}))
    → guard_prod (consume b r id) r escape ≡ o
    → Change b (state (elim o [ err x c ↦ err x c | ok _ c ↦ record_execution c p r ]))
unfolding consume
guarded-Change b p r id escape o h = by_result o h (guard_prod_used (consume b r id) r escape)
  where
    by_result :
        (o : Run Broker BrokerError (Unit {0}))
        → guard_prod (consume b r id) r escape ≡ o
        → ((state (guard_prod (consume b r id) r escape) ≡ consume b r id)
            ⊎ ((w : String) × (state (guard_prod (consume b r id) r escape)
                  ≡ record (consume b r id) {
                    used_escapes = add w (consume b r id).used_escapes;
                  })))
        → Change b (state (elim o [ err x c ↦ err x c | ok _ c ↦ record_execution c p r ]))
    by_result (err x c) q u =
        let v = rw q at u in consume-Change b c r id (inl (consume_audit b c r id v)) (c, (v, refl))
    by_result (ok v c) q u =
        let (a, f) = record_execution-Change c p r in
        let w = rw q at u in
        consume-Change b (state (record_execution c p r)) r id
          (subst (λ l. Appends l (state (record_execution c p r)).audit) (consume_audit b c r id w)
            a)
          (c, (w, f))

admit-Change :
    (b : Broker) (p : Principal) (r : CapabilityRequest) (escape : Option WriteEscape)
    (grant : Option ℕ)
    → Change b (state (admit b p r escape grant))
unfolding admit
admit-Change b p r escape none = unchanged b
admit-Change b p r escape (some id) = elim (Bool-cases held) [
  | inl h ↦ rw h (guarded-Change b p r id escape _ refl)
  | inr h ↦ rw h (unchanged b)
]
  where
    held : Bool
    held = holds_grant (get id b.grants) (request_fingerprint p r)

logged-Change :
    {A : Type 0} (b : Broker) (e : Entry) (a : A) (o : Run AuditLog AuditError AuditEntry)
    → record_entry b.audit e ≡ o
    → Change b (
        state {A = A} (elim o [
          | err x log ↦ err (BrokerError.audit_failed x) b
          | ok _ log ↦ ok a (record b { audit = log })
        ]))
logged-Change b e a (err x log) h = unchanged b
logged-Change b e a (ok x log) h =
    let (q, l) = record_entry-ok b.audit e x log h in
    quiet (inr (e, ground arith)) refl refl refl refl

propose-Change :
    (b : Broker) (ref reason : String) → Change b (state (propose_vault_write b ref reason))
unfolding propose_vault_write
propose-Change b ref reason = logged-Change b _ _ _ refl

resolve-Change :
    (b : Broker) (o : Run Policy.Engine Policy.PolicyError GrantAxis)
    → Change b (
        state {A = GrantAxis} (elim o [
          | ok axis e ↦ ok axis (record b { policy = e })
          | err x e ↦ err (BrokerError.policy_failed x) (record b { policy = e })
        ]))
resolve-Change b (ok axis e) = quiet (inl refl) refl refl refl refl
resolve-Change b (err x e) = quiet (inl refl) refl refl refl refl

commit-Change :
    (b : Broker) (proposal : Proposal) (value : String)
    → Change b (state (commit_vault_write b proposal value))
unfolding commit_vault_write
commit-Change b proposal value = elim (Bool-cases proposal.approved) [
  | inr h ↦ rw h (unchanged b)
  | inl h ↦ rw h (by_put (Vault.put b.vault proposal.ref value))
]
  where
    by_put :
        (o : Run Vault VaultError (Unit {0}))
        → Change b (
            state {A = Unit {0}} (elim o [
              | err x v ↦ err (BrokerError.vault_failed x) b
              | ok _ v ↦ ok tt (record b { vault = v })
            ]))
    by_put (err x v) = unchanged b
    by_put (ok u v) = quiet (inl refl) refl refl refl refl

revoke-Change : (b : Broker) (task : String) → Change b (revoke_task b task)
unfolding revoke_task
revoke-Change b task = elim (Option-cases (get task b.grants_by_task)) [
  | inl h ↦ rw (h, revoke_task) (quiet (inl refl) refl refl refl refl)
  | inr (ids, h) ↦ rw (h, revoke_task) (revoked task ids refl h refl refl refl refl)
]

-- Every call changes the broker's grants, index, log and used escapes in one of four ways.
pub step-Change : (b : Broker) (c : Call) → Change b (step b c)
unfolding step resolve
step-Change b (authorizes p r s) = authorize-Change b p r s
step-Change b (resolves r d s) = resolve-Change b (Policy.resolve b.policy r d s)
step-Change b (executes p r escape grant) = admit-Change b p r escape grant
step-Change b (proposes ref reason) = propose-Change b ref reason
step-Change b (commits proposal value) = commit-Change b proposal value
step-Change b (revokes task) = revoke-Change b task
