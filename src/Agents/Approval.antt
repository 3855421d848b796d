-- ===== src/Agents/Approval.antt =====
-- What the human's answer does to a request of the agent: app/sidecar/acp/acp-session.ts.
use capisco.Prelude.{
  ◌≡◌, ◌≢◌, ◌⊎◌, refl, inl, inr, true, false, ◌||◌, Option, none, ◌∷◌, [], ◌++◌, string_eq, list_eq,
  arith, ap, subst, sym, ◌∙◌, ℕ,
}
use capisco.Prelude.Effect.{ok, state}
use capisco.Broker.Contract.{
  Principal, CapabilityRequest, BrokerOutcome, GrantAxis, BrokerDecision, PermissionDecision,
}
use capisco.Broker.Policy.{
  Engine, scope_matches, is_egress, is_untrusted_egress, decide, decide_persisted, consult,
  find_rule, consumable_key, grant_key, bound_scope, Scoped, scoped, denied, session,
  PersistedGrant,
}
use capisco.Broker.Policy.Vetted.{decide-vetted}
use capisco.Broker.Policy.Issue.{resolve_untrusted_lem, resolve-decide}
use capisco.Broker.Chokepoint.Execution.{authorize-admit}
use capisco.Broker.Policy.Gate.{decide_egress, decide_refused}
use capisco.Broker.Chokepoint.{Broker, authorize, resolve, is_prod_write}
use capisco.Broker.Chokepoint.Decided.{Decided, authorize-Decided, authorize-again}
use capisco.Agents.{
  AcpToolCall, AgentRequest, AcpSession, World, human_principal, capability_request,
  trusted_request, with_broker, refused, gate_not_cleared, context_of, on_agent_request, ask_human,
  execute_for_human, request_permission, answered,
}
use capisco.Agents.Steps.{
  on_agent_request_step, by_decision_ask, after_human_step, execute_for_human_allow,
  execute_for_human_ask, execute_call_admitted,
}
use capisco.Broker.Policy
use capisco.Agents.Mediation.{
  is_allowed, Fate, kept, ran, Cleared, by_policy, by_human, on_agent_request-Fate,
}

untrusted_asks :
    (b : Broker) (s : AcpSession) (r : CapabilityRequest) (d : BrokerDecision) (b' : Broker)
    → authorize b s.principal r none ≡ ok d b'
    → r.from_untrusted ≡ true
    → is_egress r.kind ≡ true
    → d.outcome ≡ BrokerOutcome.ask
untrusted_asks b s r d b' h u k =
    (authorize-Decided b s.principal r none d b' h).outcome ∙ (decide_egress b.policy r none u k).0

-- An agent cannot lower its taint: in an untrusted session, an egress call that the human denies is
-- not performed and not answered by `allow`, whatever the agent says of `fromUntrusted` and whatever
-- the rules and the grants of the broker are.
pub on_agent_request_denied :
    (s : AcpSession) (w : World) (req : AgentRequest)
    → s.untrusted ≡ true
    → is_egress req.params.call.kind ≡ true
    → (let r = capability_request s req.params in
        (b : Broker) → (s.human r (context_of s r) b).0.axis ≡ GrantAxis.deny)
    → ((state (on_agent_request s w req)).performed ≡ w.performed)
      × (is_allowed (on_agent_request s w req) ≡ false)
unfolding capability_request
on_agent_request_denied s w req u k deny = by_fate (on_agent_request-Fate s w req)
  where
    tainted : (capability_request s req.params).from_untrusted ≡ true
    tainted = rw u refl

    impossible :
        (p : Principal) (r : CapabilityRequest) (g : Option ℕ) (b : Broker)
        → Cleared s w.broker (capability_request s req.params) p r g b
        → ⊥
    impossible _ _ _ _ (by_policy d b1 h a) =
        absurd
          (cc (untrusted_asks w.broker s (capability_request s req.params) d b1 h tainted k, a))
    impossible _ _ _ _ (by_human d d' b1 b2 b3 axis h q ne res a o) = ne (deny b1)

    by_fate :
        Fate s w.performed req.params.call
          (Cleared s w.broker (capability_request s req.params))
          (on_agent_request s w req)
        → ((state (on_agent_request s w req)).performed ≡ w.performed)
          × (is_allowed (on_agent_request s w req) ≡ false)
    by_fate (kept same refusal) = (same, refusal)
    by_fate (ran p r g b b' c a x) = absurd (impossible p r g b c)

-- A human's request that the engine allows is authorized, admitted and performed.
vetted_runs :
    (s : AcpSession) (w : World) (call : AcpToolCall) (r : CapabilityRequest) (b b' : Broker)
    (d : BrokerDecision)
    → Decided b s.principal r none d b'
    → (decide w.broker.policy (trusted_request r) none).0.outcome ≡ BrokerOutcome.allow
    → is_prod_write w.broker (trusted_request r) ≡ false
    → (c : Broker) × (execute_for_human s w call (trusted_request r)
        ≡ ok
            (answered (s.perform call))
            (record { broker = c; performed = w.performed ++ call ∷ [] }))
unfolding trusted_request
vetted_runs s w call r b b' d v a n =
    let t : CapabilityRequest = trusted_request r in
    let (d', b3, g) =
      authorize-again b w.broker s.principal human_principal r t none none d b' v refl refl refl
        refl in
    let allowed = (authorize-Decided w.broker human_principal t none d' b3 g).outcome ∙ a in
    let (c, h) =
      authorize-admit w.broker human_principal t none (s.write_escape t) d' b3 g allowed n in
    (
      c,
      execute_for_human_allow s w call t d' b3 g allowed
          ∙ execute_call_admitted s (with_broker w b3) call t human_principal d'.grant c h,
    )

module _ (s : AcpSession) (w : World) (req : AgentRequest) (d : BrokerDecision) (b : Broker) where
  abbrev requested : CapabilityRequest
  requested = capability_request s req.params

  abbrev reply : PermissionDecision × Broker
  reply = s.human requested (context_of s requested) b

  -- What a human approves is done: an untrusted egress call of the agent, which the broker has put to
  -- the human, is performed exactly once and answered by `allow` (or by what the action throws) when
  -- the human answers `once` or `session`, whatever has become of the broker meanwhile, unless it is a
  -- write to a production datasource.
  pub on_agent_request_approved :
      req.method ≡ request_permission
      → (s.untrusted || req.params.from_untrusted) ≡ true
      → is_egress req.params.call.kind ≡ true
      → authorize w.broker s.principal (capability_request s req.params) none ≡ ok d b
      → (let r = capability_request s req.params in
          let (a, c) = s.human r (context_of s r) b in
          ((a.axis ≡ GrantAxis.once) ⊎ (a.axis ≡ GrantAxis.session)) × (is_prod_write c r ≡ false))
      → (c : Broker) × (on_agent_request s w req
          ≡ ok
              (answered (s.perform req.params.call))
              (record { broker = c; performed = w.performed ++ req.params.call ∷ [] }))
  unfolding capability_request trusted_request is_untrusted_egress is_prod_write ask_human resolve
  on_agent_request_approved m u k h (x, n) =
      elim (resolve_untrusted_lem reply.1.policy requested reply.0 none egress) [
        | inl (deny, _) ↦ absurd (not_deny x deny)
        | inr (_, res) ↦
            let (c, run) =
              vetted_runs s (with_broker w c2) req.params.call requested w.broker b d
                (authorize-Decided w.broker s.principal requested none d b h)
                (subst
                  (λ z.
                    (decide c2.policy (trusted_request requested) z).0.outcome
                    ≡ BrokerOutcome.allow)
                  (unbound x)
                  (resolve-decide reply.1.policy requested reply.0 none egress (not_deny x)).0)
                n in
            (
              c,
              on_agent_request_step s w req d b m h
                  ∙ by_decision_ask s (with_broker w b) req.params.call requested d
                      (untrusted_asks w.broker s requested d b h u k)
                  ∙ after_human_step s (with_broker w reply.1) req.params.call requested reply.0
                      GrantAxis.once c2 (not_deny x) (rw (res, resolve) refl)
                  ∙ run,
            )
      ]
    where
      egress : is_untrusted_egress requested ≡ true
      egress = rw (u, k) refl

      c2 : Broker
      c2 = record reply.1 { policy = state (Policy.resolve reply.1.policy requested reply.0 none) }

      not_deny :
          (reply.0.axis ≡ GrantAxis.once) ⊎ (reply.0.axis ≡ GrantAxis.session)
          → reply.0.axis ≢ GrantAxis.deny
      not_deny x e = ground arith

      unbound :
          (reply.0.axis ≡ GrantAxis.once) ⊎ (reply.0.axis ≡ GrantAxis.session)
          → bound_scope reply.0 none ≡ none
      unbound (inl e) = rw (e, bound_scope) refl
      unbound (inr e) = rw (e, bound_scope) refl

  -- Outside untrusted egress the answer `once` does not clear the call: where the broker has put a
  -- request to the human that is no egress of an untrusted session, and nothing else happens to the
  -- broker meanwhile, the answer `once` leaves the call unperformed and the agent is refused.
  pub on_agent_request_once :
      req.method ≡ request_permission
      → is_untrusted_egress (capability_request s req.params) ≡ false
      → authorize w.broker s.principal (capability_request s req.params) none ≡ ok d b
      → d.outcome ≡ BrokerOutcome.ask
      → (let r = capability_request s req.params in
          ((s.human r (context_of s r) b).0.axis ≡ GrantAxis.once)
          × ((s.human r (context_of s r) b).1 ≡ b))
      → (c : Broker) × (on_agent_request s w req ≡ ok (refused gate_not_cleared) (with_broker w c))
  unfolding capability_request trusted_request ask_human resolve Policy.resolve
      Policy.resolve_trusted
  on_agent_request_once m u h a (once, still) =
      let v = authorize-Decided w.broker s.principal requested none d b h in
      let (d', b3, g) =
        authorize-again w.broker reply.1 s.principal human_principal requested
          (trusted_request requested) none none d b v refl refl refl refl in
      let v' = authorize-Decided reply.1 human_principal (trusted_request requested) none d' b3 g in
      let (n, counted) = decide_refused w.broker.policy requested none (asks v) in
      (
        b3,
        on_agent_request_step s w req d b m h
            ∙ by_decision_ask s (with_broker w b) req.params.call requested d a
            ∙ after_human_step s (with_broker w reply.1) req.params.call requested reply.0
                GrantAxis.once reply.1 (λ e. ground arith) keeps
            ∙ execute_for_human_ask s (with_broker w reply.1) req.params.call
                (trusted_request requested) d' b3 g
                (v'.outcome
                  ∙ ap (λ e. (decide e (trusted_request requested) none).0.outcome)
                      (ap (λ (x : Broker). x.policy) still ∙ v.policy ∙ counted)
                  ∙ decide-vetted w.broker.policy n requested u
                  ∙ sym v.outcome
                  ∙ a),
      )
    where
      keeps : resolve reply.1 requested reply.0 none ≡ ok GrantAxis.once reply.1
      keeps = rw (u, resolve, Policy.resolve) (rw once refl)

      asks :
          Decided w.broker s.principal requested none d b
          → (decide w.broker.policy requested none).0.outcome ≢ BrokerOutcome.allow
      asks v e = ground (arith, v.outcome, a, e)
