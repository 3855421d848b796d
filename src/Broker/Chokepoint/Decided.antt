-- ===== src/Broker/Chokepoint/Decided.antt =====
-- What an `authorize` of app/sidecar/broker/capability-broker.ts that does not throw has decided.
use capisco.Prelude.{◌≡◌, refl, suc, ◌||◌, Bool, false, Option, some, Bool-cases, inl, inr, ◌∙◌}
use capisco.Prelude.Effect.{Run, ok, err, after_ok}
use capisco.Broker.Contract.{
  Principal, CapabilityRequest, CapabilityScope, BrokerOutcome, BrokerDecision,
}
use capisco.Broker.Policy
use capisco.Broker.Audit.{
  AuditLog, AuditEntry, AuditError, decided, record_entry, is_rtk_filtered, rtk_option,
}
use capisco.Broker.Chokepoint.{
  Broker, BrokerError, entry_of, authorize, granted, mint, audit_failed,
}
use capisco.Broker.Chokepoint.Execution.{record_entry-again}

abbrev pub filtered : CapabilityRequest → Bool
filtered r = is_rtk_filtered r.target || (rtk_option r.command || rtk_option r.credential_ref)

granted-outcome :
    (b : Broker) (p : Principal) (r : CapabilityRequest) (e : BrokerDecision)
    → (d : BrokerDecision) × (b' : Broker) × (granted b p r e ≡ ok d b')
      × (d.outcome ≡ e.outcome)
      × (b'.policy ≡ b.policy)
      × (b'.prod_datasources ≡ b.prod_datasources)
unfolding granted mint
granted-outcome b p r e = by_outcome e.outcome refl
  where
    by_outcome :
        (o : BrokerOutcome)
        → e.outcome ≡ o
        → (d : BrokerDecision) × (b' : Broker) × (◌≡◌ {A = Run Broker BrokerError BrokerDecision}
            (elim o [
              | BrokerOutcome.allow ↦ ok (record e { grant = some (suc b.grant_seq) }) (mint b p r)
              | _ ↦ ok e b
            ])
            (ok d b'))
          × (d.outcome ≡ e.outcome)
          × (b'.policy ≡ b.policy)
          × (b'.prod_datasources ≡ b.prod_datasources)
    by_outcome BrokerOutcome.allow q =
        (record e { grant = some (suc b.grant_seq) }, mint b p r, refl, refl, refl, refl)
    by_outcome BrokerOutcome.deny q = (e, b, refl, refl, refl, refl)
    by_outcome BrokerOutcome.ask q = (e, b, refl, refl, refl, refl)

pub record Decided (b : Broker) (p : Principal) (r : CapabilityRequest) (s : Option CapabilityScope)
    (d : BrokerDecision) (b' : Broker) : Type 0 where
  pub plain : filtered r ≡ false
  pub entry : AuditEntry
  pub log : AuditLog
  pub recorded :
      record_entry b.audit (
        entry_of p r
          (decided (Policy.decide b.policy r s).0.outcome)
          (Policy.decide b.policy r s).0.reason)
      ≡ ok entry log
  pub outcome : d.outcome ≡ (Policy.decide b.policy r s).0.outcome
  pub policy : b'.policy ≡ (Policy.decide b.policy r s).1
  pub datasources : b'.prod_datasources ≡ b.prod_datasources

pub authorize-Decided :
    (b : Broker) (p : Principal) (r : CapabilityRequest) (s : Option CapabilityScope)
    (d : BrokerDecision) (b' : Broker)
    → authorize b p r s ≡ ok d b'
    → Decided b p r s d b'
unfolding authorize
authorize-Decided b p r s d b' h = elim (Bool-cases (filtered r)) [
  | inl t ↦ absurd (cc (rw t at h))
  | inr t ↦
      by_record (record_entry b.audit (entry_of p r (decided e.outcome) e.reason)) refl (rw t at h)
        t
]
  where
    e : BrokerDecision
    e = (Policy.decide b.policy r s).0

    w : Broker
    w = record b { policy = (Policy.decide b.policy r s).1 }

    by_record :
        (o : Run AuditLog AuditError AuditEntry)
        → record_entry b.audit (entry_of p r (decided e.outcome) e.reason) ≡ o
        → ◌≡◌ {A = Run Broker BrokerError BrokerDecision}
            (elim o [
              | err x log ↦ err (audit_failed x) w
              | ok y log ↦ granted (record w { audit = log }) p r e
            ])
            (ok d b')
        → filtered r ≡ false
        → Decided b p r s d b'
    by_record (err x log) q k t = absurd (cc k)
    by_record (ok y log) q k t =
        let (d1, b1, g, o, pol, ds) = granted-outcome (record w { audit = log }) p r e in
        record {
          plain = t;
          entry = y;
          log = log;
          recorded = q;
          outcome = cc (g, k, o);
          policy = cc (g, k, pol);
          datasources = cc (g, k, ds);
        }

authorize-granted :
    (c : Broker) (q : Principal) (r : CapabilityRequest) (s : Option CapabilityScope)
    (x : AuditEntry) (l : AuditLog)
    → filtered r ≡ false
    → record_entry c.audit (
        entry_of q r
          (decided (Policy.decide c.policy r s).0.outcome)
          (Policy.decide c.policy r s).0.reason)
      ≡ ok x l
    → authorize c q r s
      ≡ granted
          (record c { policy = (Policy.decide c.policy r s).1; audit = l })
          q
          r
          (Policy.decide c.policy r s).0
unfolding authorize
authorize-granted c q r s x l f h = rw f (after_ok _ _ (record_entry c.audit _) x l h)

-- The broker accepts the same access again, whoever asks and whatever it has become.
pub authorize-again :
    (b c : Broker) (p q : Principal) (r r' : CapabilityRequest) (s s' : Option CapabilityScope)
    (d : BrokerDecision) (b' : Broker)
    → Decided b p r s d b'
    → r'.kind ≡ r.kind
    → r'.target ≡ r.target
    → r'.command ≡ r.command
    → r'.credential_ref ≡ r.credential_ref
    → (d' : BrokerDecision) × (c' : Broker) × (authorize c q r' s' ≡ ok d' c')
authorize-again b c p q r r' s s' d b' v k t m f =
    let e : BrokerDecision = (Policy.decide c.policy r' s').0 in
    let (x, l, again) =
      record_entry-again b.audit c.audit
        (entry_of p r (decided (Policy.decide b.policy r s).0.outcome)
          (Policy.decide b.policy r s).0.reason)
        (entry_of q r' (decided e.outcome) e.reason) v.entry v.log f t k v.recorded in
    let (d', c', g, _, _, _) =
      granted-outcome (record c { policy = (Policy.decide c.policy r' s').1; audit = l }) q r' e in
    (d', c', authorize-granted c q r' s' x l (same ∙ v.plain) again ∙ g)
  where
    same : filtered r' ≡ filtered r
    same = rw (t, m, f) refl
