-- ===== src/Broker/Policy/Vetted.antt =====
-- How app/sidecar/broker/policy-engine.ts decides once a human vouches for a request.
use capisco.Prelude.{
  ◌≡◌, refl, inl, inr, false, Option, none, some, string_eq, list_eq, Bool-cases, ℕ,
}
use capisco.Prelude.Dict.{get, contains}
use capisco.Broker.Contract.{CapabilityRequest, BrokerOutcome, AllowlistRule}
use capisco.Broker.Policy.{
  Engine, scope_matches, is_untrusted_egress, decide, decide_persisted, consult, by_verdict,
  find_rule, consumable_key, grant_key, PersistedGrant, scoped, denied, session,
}

module _ (e : Engine) (n : ℕ) (r : CapabilityRequest) where
  counted : Engine
  counted = record e { request_seq = n }

  vetted : CapabilityRequest
  vetted = record r { from_untrusted = false }

  consult-vetted : (consult counted vetted none).0.outcome ≡ (consult e r none).0.outcome
  unfolding counted vetted consult
  consult-vetted = by_rule (find_rule e.rules r.kind r.target) refl
    where
      same_verdict :
          (rule : AllowlistRule) (v : BrokerOutcome)
          → (by_verdict counted vetted none rule v).0.outcome
            ≡ (by_verdict e r none rule v).0.outcome
      same_verdict rule BrokerOutcome.allow = refl
      same_verdict rule BrokerOutcome.deny = refl
      same_verdict rule BrokerOutcome.ask = refl

      by_rule :
          (o : Option AllowlistRule)
          → find_rule e.rules r.kind r.target ≡ o
          → (consult counted vetted none).0.outcome ≡ (consult e r none).0.outcome
      by_rule none h = rw (h, consult) refl
      by_rule (some rule) h = rw (h, consult) (same_verdict rule rule.verdict)

  persisted-vetted :
      (o : Option PersistedGrant)
      → (decide_persisted counted vetted none o).0.outcome ≡ (decide_persisted e r none o).0.outcome
  unfolding decide_persisted scope_matches counted vetted
  persisted-vetted none = consult-vetted
  persisted-vetted (some denied) = refl
  persisted-vetted (some session) = refl
  persisted-vetted (some (scoped g)) = elim (Bool-cases (scope_matches e.host g r)) [
    | inl m ↦ rw m refl
    | inr m ↦ rw m consult-vetted
  ]

  -- The engine decides alike when only the untrusted mark of a request changes, which is no egress.
  pub decide-vetted :
      is_untrusted_egress r ≡ false
      → (decide (record e { request_seq = n }) (record r { from_untrusted = false }) none).0.outcome
        ≡ (decide e r none).0.outcome
  unfolding decide is_untrusted_egress consumable_key grant_key counted vetted
  decide-vetted h = elim (Bool-cases (contains (consumable_key e r none) e.consumable)) [
    | inl c ↦ rw (h, c) refl
    | inr c ↦ rw (h, c) (persisted-vetted (get (grant_key e r.kind none) e.grants))
  ]
