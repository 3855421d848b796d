-- ===== src/Agents/Steps.antt =====
-- One step of `#onAgentRequest` of app/sidecar/acp/acp-session.ts at a time, each under the outcome of
-- the call that it makes.
use capisco.Prelude.{◌≡◌, ◌≢◌, refl, Option, none, string_eq, ◌++◌, ◌∷◌, [], ℕ}
use capisco.Prelude.Effect.{Run, ok}
use capisco.Broker.Contract.{
  Principal, CapabilityRequest, BrokerOutcome, GrantAxis, PermissionDecision, BrokerDecision,
}
use capisco.Broker.Chokepoint.{Broker, authorize, resolve, execute, admit}
use capisco.Agents.{
  AcpToolCall, AgentRequest, Answer, SeamError, AcpSession, World, request_permission, refused,
  human_principal, capability_request, trusted_request, with_broker, answered, gate_not_cleared,
  execute_call, execute_for_human, after_human, ask_human, by_decision, on_agent_request,
  human_denied,
}

pub on_agent_request_step :
    (s : AcpSession) (w : World) (req : AgentRequest) (d : BrokerDecision) (b : Broker)
    → req.method ≡ request_permission
    → authorize w.broker s.principal (capability_request s req.params) none ≡ ok d b
    → on_agent_request s w req
      ≡ by_decision s (with_broker w b) req.params.call (capability_request s req.params) d
unfolding on_agent_request
on_agent_request_step s w req d b m h = rw (m, h) refl

module _ (s : AcpSession) (w : World) (call : AcpToolCall) (r : CapabilityRequest) where
  pub by_decision_ask :
      (d : BrokerDecision)
      → d.outcome ≡ BrokerOutcome.ask
      → by_decision s w call r d ≡ ask_human s w call r
  unfolding by_decision
  by_decision_ask d h = rw h refl

  pub after_human_step :
      (a : PermissionDecision) (axis : GrantAxis) (b : Broker)
      → a.axis ≢ GrantAxis.deny
      → resolve w.broker r a none ≡ ok axis b
      → after_human s w call r a ≡ execute_for_human s (with_broker w b) call (trusted_request r)
  unfolding after_human
  after_human_step a axis b n h = rw (h, after_human) (by_axis a.axis n)
    where
      by_axis :
          (x : GrantAxis)
          → x ≢ GrantAxis.deny
          → ◌≡◌ {A = Run World SeamError Answer}
              (elim x [
                | GrantAxis.deny ↦ ok (refused human_denied) (with_broker w b)
                | _ ↦ execute_for_human s (with_broker w b) call (trusted_request r)
              ])
              (execute_for_human s (with_broker w b) call (trusted_request r))
      by_axis GrantAxis.deny n = absurd (n refl)
      by_axis GrantAxis.once n = refl
      by_axis GrantAxis.session n = refl
      by_axis GrantAxis.scoped n = refl

  pub execute_for_human_allow :
      (d : BrokerDecision) (b : Broker)
      → authorize w.broker human_principal r none ≡ ok d b
      → d.outcome ≡ BrokerOutcome.allow
      → execute_for_human s w call r
        ≡ execute_call s (with_broker w b) call human_principal r d.grant
  unfolding execute_for_human
  execute_for_human_allow d b h a = rw (h, execute_for_human) (rw (a, execute_for_human) refl)

  pub execute_for_human_ask :
      (d : BrokerDecision) (b : Broker)
      → authorize w.broker human_principal r none ≡ ok d b
      → d.outcome ≡ BrokerOutcome.ask
      → execute_for_human s w call r ≡ ok (refused gate_not_cleared) (with_broker w b)
  unfolding execute_for_human
  execute_for_human_ask d b h a = rw (h, execute_for_human) (rw (a, execute_for_human) refl)

  pub execute_call_admitted :
      (p : Principal) (g : Option ℕ) (b : Broker)
      → admit w.broker p r (s.write_escape r) g ≡ ok tt b
      → execute_call s w call p r g
        ≡ ok
            (answered (s.perform call))
            (record { broker = b; performed = w.performed ++ call ∷ [] })
  unfolding execute_call execute
  execute_call_admitted p g b h = rw (h, execute_call, execute) refl
