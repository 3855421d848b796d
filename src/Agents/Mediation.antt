-- ===== src/Agents/Mediation.antt =====
-- No action without the broker: what `#onAgentRequest` of app/sidecar/acp/acp-session.ts performs.
use capisco.Prelude.{
  ℕ, ◌≡◌, ◌≢◌, refl, inl, inr, Bool, true, false, not, Option, none, List, [], ◌∷◌, ◌++◌, ◌==◌,
  string_eq, arith, Bool-cases,
}
use capisco.Prelude.Effect.{Run, ok, err, state}
use capisco.Broker.Contract.{
  Principal, CapabilityRequest, BrokerOutcome, GrantAxis, PermissionDecision, BrokerDecision,
}
use capisco.Broker.Chokepoint.{Broker, BrokerError, authorize, resolve, execute, admit}
use capisco.Agents.{
  AcpToolCall, AgentRequest, Answer, allowed, refused, SeamError, AcpSession, World,
  request_permission, human_principal, capability_request, trusted_request, with_broker,
  execute_call, execute_for_human, after_human, context_of, ask_human, by_decision,
  on_agent_request, policy_denied, human_denied, gate_not_cleared, broker_failed,
}

abbrev pub is_allowed : Run World SeamError Answer → Bool
is_allowed (ok (allowed r) w) = true
is_allowed (ok (refused r) w) = false
is_allowed (err x w) = false

-- How a request of the agent comes to be executed, from the broker `b`: the policy allows it, or it
-- asks, a human does not deny, and the broker allows it on the human's authority. The last argument is
-- the broker in which it is executed.
pub data Cleared (s : AcpSession) (b : Broker) (r : CapabilityRequest)
    : Principal → CapabilityRequest → Option ℕ → Broker → Type 0 where
  by_policy :
      (d : BrokerDecision) (b1 : Broker)
      → authorize b s.principal r none ≡ ok d b1
      → d.outcome ≡ BrokerOutcome.allow
      → Cleared s b r s.principal r d.grant b1
  by_human :
      (d d' : BrokerDecision) (b1 b2 b3 : Broker) (axis : GrantAxis)
      → authorize b s.principal r none ≡ ok d b1
      → d.outcome ≡ BrokerOutcome.ask
      → (s.human r (context_of s r) b1).0.axis ≢ GrantAxis.deny
      → resolve (s.human r (context_of s r) b1).1 r (s.human r (context_of s r) b1).0 none
        ≡ ok axis b2
      → authorize b2 human_principal (trusted_request r) none ≡ ok d' b3
      → d'.outcome ≡ BrokerOutcome.allow
      → Cleared s b r human_principal (trusted_request r) d'.grant b3

abbrev pub Way : Type 1
Way = Principal → CapabilityRequest → Option ℕ → Broker → Type 0

-- What a request leaves: nothing was performed and the answer is no `allow`, or this one call was
-- performed, cleared in this way and admitted by the chokepoint.
pub data Fate (s : AcpSession) (log : List AcpToolCall) (call : AcpToolCall) (W : Way)
    (x : Run World SeamError Answer) : Type 0 where
  kept : (state x).performed ≡ log → is_allowed x ≡ false → Fate s log call W x
  ran :
      (p : Principal) (r : CapabilityRequest) (g : Option ℕ) (b b' : Broker)
      → W p r g b
      → admit b p r (s.write_escape r) g ≡ ok tt b'
      → state x ≡ record { broker = b'; performed = log ++ call ∷ [] }
      → Fate s log call W x

module _ (s : AcpSession) (call : AcpToolCall) (W : Way) where
  execute_call-Fate :
      (w : World) (p : Principal) (r : CapabilityRequest) (g : Option ℕ)
      → W p r g w.broker
      → Fate s w.performed call W (execute_call s w call p r g)
  unfolding execute_call execute
  execute_call-Fate w p r g c = by_admit (admit w.broker p r (s.write_escape r) g) refl
    where
      by_admit :
          (o : Run Broker BrokerError (Unit {0}))
          → admit w.broker p r (s.write_escape r) g ≡ o
          → Fate s w.performed call W (execute_call s w call p r g)
      by_admit (err x b) h = kept (rw (h, state) refl) (rw (h, is_allowed) refl)
      by_admit (ok u b) h = ran p r g w.broker b c h (rw (h, state) refl)

  allowed_by_human :
      (w : World) (r : CapabilityRequest) (d : BrokerDecision) (b : Broker) (o : BrokerOutcome)
      → (o ≡ BrokerOutcome.allow → W human_principal r d.grant b)
      → Fate s w.performed call W (elim o as (λ o. Run World SeamError Answer) [
        | BrokerOutcome.allow ↦ execute_call s (with_broker w b) call human_principal r d.grant
        | _ ↦ ok (refused gate_not_cleared) (with_broker w b)
      ])
  allowed_by_human w r d b BrokerOutcome.allow c =
      execute_call-Fate (with_broker w b) human_principal r d.grant (c refl)
  allowed_by_human w r d b BrokerOutcome.deny c = kept refl refl
  allowed_by_human w r d b BrokerOutcome.ask c = kept refl refl

  execute_for_human-Fate :
      (w : World) (r : CapabilityRequest)
      → ((d : BrokerDecision) (b : Broker)
          → authorize w.broker human_principal r none ≡ ok d b
          → d.outcome ≡ BrokerOutcome.allow
          → W human_principal r d.grant b)
      → Fate s w.performed call W (execute_for_human s w call r)
  unfolding execute_for_human
  execute_for_human-Fate w r c = by_authorize (authorize w.broker human_principal r none) refl
    where
      by_authorize :
          (o : Run Broker BrokerError BrokerDecision)
          → authorize w.broker human_principal r none ≡ o
          → Fate s w.performed call W (elim o as (λ o. Run World SeamError Answer) [
            | err x b ↦ err (broker_failed x) (with_broker w b)
            | ok d b ↦ elim d.outcome [
              | BrokerOutcome.allow ↦
                  execute_call s (with_broker w b) call human_principal r d.grant
              | _ ↦ ok (refused gate_not_cleared) (with_broker w b)
            ]
          ])
      by_authorize (err x b) h = kept refl refl
      by_authorize (ok d b) h = allowed_by_human w r d b d.outcome (c d b h)

  by_axis :
      (w : World) (r : CapabilityRequest) (axis : GrantAxis)
      → (axis ≢ GrantAxis.deny → Fate s w.performed call W (execute_for_human s w call r))
      → Fate s w.performed call W (elim axis as (λ o. Run World SeamError Answer) [
        | GrantAxis.deny ↦ ok (refused human_denied) w
        | _ ↦ execute_for_human s w call r
      ])
  by_axis w r GrantAxis.deny c = kept refl refl
  by_axis w r GrantAxis.once c = c (λ e. absurd (ground arith))
  by_axis w r GrantAxis.session c = c (λ e. absurd (ground arith))
  by_axis w r GrantAxis.scoped c = c (λ e. absurd (ground arith))

  after_human-Fate :
      (w : World) (r : CapabilityRequest) (decision : PermissionDecision)
      → ((d : BrokerDecision) (b2 b : Broker) (axis : GrantAxis)
          → decision.axis ≢ GrantAxis.deny
          → resolve w.broker r decision none ≡ ok axis b2
          → authorize b2 human_principal (trusted_request r) none ≡ ok d b
          → d.outcome ≡ BrokerOutcome.allow
          → W human_principal (trusted_request r) d.grant b)
      → Fate s w.performed call W (after_human s w call r decision)
  unfolding after_human
  after_human-Fate w r decision c = by_resolve (resolve w.broker r decision none) refl
    where
      by_resolve :
          (o : Run Broker BrokerError GrantAxis)
          → resolve w.broker r decision none ≡ o
          → Fate s w.performed call W (elim o as (λ o. Run World SeamError Answer) [
            | err x b ↦ err (broker_failed x) (with_broker w b)
            | ok _ b ↦ elim decision.axis [
              | GrantAxis.deny ↦ ok (refused human_denied) (with_broker w b)
              | _ ↦ execute_for_human s (with_broker w b) call (trusted_request r)
            ]
          ])
      by_resolve (err x b) h = kept refl refl
      by_resolve (ok axis b) h = by_axis (with_broker w b) (trusted_request r) decision.axis (λ ne.
          execute_for_human-Fate (with_broker w b) (trusted_request r)
            (λ d b3 a o. c d b b3 axis ne h a o))

  by_decision-Fate :
      (w : World) (r : CapabilityRequest) (d : BrokerDecision) (o : BrokerOutcome)
      → (o ≡ BrokerOutcome.allow → W s.principal r d.grant w.broker)
      → (o ≡ BrokerOutcome.ask → Fate s w.performed call W (ask_human s w call r))
      → Fate s w.performed call W (elim o as (λ o. Run World SeamError Answer) [
        | BrokerOutcome.deny ↦ ok (refused (policy_denied d.reason)) w
        | BrokerOutcome.allow ↦ execute_call s w call s.principal r d.grant
        | BrokerOutcome.ask ↦ ask_human s w call r
      ])
  by_decision-Fate w r d BrokerOutcome.allow a k =
      execute_call-Fate w s.principal r d.grant (a refl)
  by_decision-Fate w r d BrokerOutcome.deny a k = kept refl refl
  by_decision-Fate w r d BrokerOutcome.ask a k = k refl

module _ (s : AcpSession) (w : World) (req : AgentRequest) where
  abbrev asked_for : CapabilityRequest
  asked_for = capability_request s req.params

  authorized-Fate :
      (o : Run Broker BrokerError BrokerDecision)
      → authorize w.broker s.principal asked_for none ≡ o
      → Fate s w.performed req.params.call
          (Cleared s w.broker asked_for)
          (elim o as (λ o. Run World SeamError Answer) [
            | err x b ↦ err (broker_failed x) (with_broker w b)
            | ok d b ↦ by_decision s (with_broker w b) req.params.call asked_for d
          ])
  unfolding by_decision ask_human
  authorized-Fate (err x b) h = kept refl refl
  authorized-Fate (ok d b) h =
      by_decision-Fate s req.params.call (Cleared s w.broker asked_for) (with_broker w b) asked_for
        d d.outcome (by_policy d b h)
        (λ q.
          after_human-Fate s req.params.call (Cleared s w.broker asked_for)
            (with_broker w (s.human asked_for (context_of s asked_for) b).1) asked_for
            (s.human asked_for (context_of s asked_for) b).0
            (λ d' b2 b3 axis ne res a o. by_human d d' b b2 b3 axis h q ne res a o))

  -- No action of an agent without the broker: whatever the agent asks, whatever the human answers and
  -- whatever happens to the broker while the human thinks, the handler performs nothing and does not
  -- answer `allow`, or it performs this one call, once. Then the policy allowed the agent's request, or
  -- it asked, the human did not deny, and the broker allowed the human's request; and the chokepoint
  -- admitted the call with the grant of that decision.
  pub on_agent_request-Fate :
      Fate s w.performed req.params.call
        (Cleared s w.broker (capability_request s req.params))
        (on_agent_request s w req)
  unfolding on_agent_request
  on_agent_request-Fate = elim (Bool-cases (not (req.method == request_permission))) [
    | inl t ↦ rw t (kept refl refl)
    | inr t ↦ rw t (authorized-Fate (authorize w.broker s.principal asked_for none) refl)
  ]
