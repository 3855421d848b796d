-- ===== src/Broker/Chokepoint/Execution.antt =====
-- What `authorize` of app/sidecar/broker/capability-broker.ts allows, its `execute` runs.
use capisco.Prelude.{
  suc, ◌≡◌, refl, ◌||◌, Bool, false, Option, some, [], ◌∷◌, ◌++◌, nat_eq, list_eq, arith,
  Bool-cases, inl, inr, ==_refl,
}
use capisco.Prelude.Dict.{get-set-same}
use capisco.Prelude.Effect.{Run, ok, err, after_ok}
use capisco.Broker.Contract.{
  Principal, CapabilityRequest, CapabilityScope, BrokerOutcome, BrokerDecision, WriteEscape, Reason,
}
use capisco.Broker.Policy
use capisco.Broker.Audit.{
  AuditLog, AuditEntry, AuditError, Entry, decided, executed, record_entry, is_rtk_filtered,
  rtk_option,
}
use capisco.Broker.Chokepoint.{
  Broker, BrokerError, json_eq, entry_of, request_fingerprint, authorize, granted, mint, admit,
  consume, guard_prod, is_prod_write, record_execution, audit_failed,
}

-- Whether an entry is recorded hangs on its reference, target and capability alone.
pub record_entry-again :
    (log log' : AuditLog) (e e' : Entry) (x : AuditEntry) (l : AuditLog)
    → e'.credential_ref ≡ e.credential_ref
    → e'.target ≡ e.target
    → e'.capability ≡ e.capability
    → record_entry log e ≡ ok x l
    → (x' : AuditEntry) × (l' : AuditLog) × (record_entry log' e' ≡ ok x' l')
unfolding record_entry
record_entry-again log log' e e' x l c t k h =
    let x' : AuditEntry = record { seq = suc log'.seq; entry = e' } in
    (
      x',
      record { entries = log'.entries ++ x' ∷ []; seq = suc log'.seq },
      rw (c, t, k) (ground arith),
    )

ran : Broker → Principal → CapabilityRequest → AuditLog → Broker
ran b p r l = record (consume (mint b p r) r (suc b.grant_seq)) { audit = l }

minted_runs :
    (b : Broker) (p : Principal) (r : CapabilityRequest) (escape : Option WriteEscape)
    (x : AuditEntry) (l : AuditLog)
    → is_prod_write b r ≡ false
    → record_entry b.audit (entry_of p r executed Reason.authorized_execution) ≡ ok x l
    → admit (mint b p r) p r escape (some (suc b.grant_seq)) ≡ ok tt (ran b p r l)
unfolding mint admit guard_prod consume record_execution is_prod_write ran
minted_runs b p r escape x l n h =
    rw
      (
        get-set-same (suc b.grant_seq) (request_fingerprint p r) b.grants,
        ==_refl (request_fingerprint p r),
        n,
      )
      (after_ok _ _ (record_entry b.audit (entry_of p r executed Reason.authorized_execution)) x l
        h)

granted-allow :
    (b : Broker) (p : Principal) (r : CapabilityRequest) (e d : BrokerDecision) (b' : Broker)
    → granted b p r e ≡ ok d b'
    → d.outcome ≡ BrokerOutcome.allow
    → (d.grant ≡ some (suc b.grant_seq)) × (b' ≡ mint b p r)
unfolding granted
granted-allow b p r e d b' h a = by_outcome e.outcome refl h
  where
    by_outcome :
        (o : BrokerOutcome)
        → e.outcome ≡ o
        → ◌≡◌ {A = Run Broker BrokerError BrokerDecision}
            (elim o [
              | BrokerOutcome.allow ↦ ok (record e { grant = some (suc b.grant_seq) }) (mint b p r)
              | _ ↦ ok e b
            ])
            (ok d b')
        → (d.grant ≡ some (suc b.grant_seq)) × (b' ≡ mint b p r)
    by_outcome BrokerOutcome.allow q k = (cc (k), cc (k))
    by_outcome BrokerOutcome.deny q k = absurd (ground arith)
    by_outcome BrokerOutcome.ask q k = absurd (ground arith)

-- What is allowed can be executed: where `authorize` allows a request that is no write to a production
-- datasource, an `execute` of this request by this principal with the grant that came with the
-- decision starts the callback.
pub authorize-admit :
    (b : Broker) (p : Principal) (r : CapabilityRequest) (s : Option CapabilityScope)
    (escape : Option WriteEscape) (d : BrokerDecision) (b' : Broker)
    → authorize b p r s ≡ ok d b'
    → d.outcome ≡ BrokerOutcome.allow
    → is_prod_write b r ≡ false
    → (c : Broker) × (admit b' p r escape d.grant ≡ ok tt c)
unfolding authorize is_prod_write
authorize-admit b p r s escape d b' h a n = elim (Bool-cases rtk) [
  | inl t ↦ absurd (cc (rw t at h))
  | inr t ↦
      recorded (record_entry b.audit (entry_of p r (decided e.outcome) e.reason)) refl (rw t at h)
]
  where
    rtk : Bool
    rtk = is_rtk_filtered r.target || (rtk_option r.command || rtk_option r.credential_ref)

    e : BrokerDecision
    e = (Policy.decide b.policy r s).0

    w : Broker
    w = record b { policy = (Policy.decide b.policy r s).1 }

    recorded :
        (o : Run AuditLog AuditError AuditEntry)
        → record_entry b.audit (entry_of p r (decided e.outcome) e.reason) ≡ o
        → ◌≡◌ {A = Run Broker BrokerError BrokerDecision}
            (elim o [
              | err x log ↦ err (audit_failed x) w
              | ok y log ↦ granted (record w { audit = log }) p r e
            ])
            (ok d b')
        → (c : Broker) × (admit b' p r escape d.grant ≡ ok tt c)
    recorded (err x log) q k = absurd (cc (k))
    recorded (ok y log) q k =
        let (g, m) = granted-allow (record w { audit = log }) p r e d b' k a in
        let (x, l, again) =
          record_entry-again b.audit log (entry_of p r (decided e.outcome) e.reason)
            (entry_of p r executed Reason.authorized_execution) y log refl refl refl q in
        (
          ran (record w { audit = log }) p r l,
          rw (g, m) (minted_runs (record w { audit = log }) p r escape x l n again),
        )
