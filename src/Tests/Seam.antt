-- ===== src/Tests/Seam.antt =====
-- Witnesses for the agent session: an agent that wants to push, and one that wants to read a file.
use capisco.Prelude.{
  ◌≡◌, map, refl, inl, true, false, none, some, List, [], ◌∷◌, ◌++◌, string_eq, list_eq, nat_eq,
}
use capisco.Prelude.Dict.{get, set, contains}
use capisco.Prelude.Effect.{Run, ok, err, state}
use capisco.Prelude.Text.{ends_with, drop_last, includes}
use capisco.Broker.Contract.{
  CapabilityKind, GrantAxis, BrokerOutcome, BrokerDecision, Reason, kind_name, kind_eq,
  principal_name,
}
use capisco.Broker.Audit.{is_rtk_filtered, looks_like_secret_value, record_entry}
use capisco.Broker.Policy
use capisco.Broker.Policy.{
  is_untrusted_egress, is_egress, decide_persisted, consult, find_rule, matches, grant_key,
  consumable_key, build_request,
}
use capisco.Broker.Chokepoint.{Broker, BrokerError, authorize, granted, is_prod_write}
use capisco.Broker.Chokepoint.Trace.{init}
use capisco.Sessions.{SessionRecord, SessionStatus, zero_telemetry, append, update}
use capisco.Agents.{
  AcpToolCall, AgentRequest, AcpSession, World, request_permission, refused, answered,
  gate_not_cleared, capability_request, on_agent_request, with_broker,
}
use capisco.Agents.Mediation.{is_allowed, Fate, Cleared, on_agent_request-Fate}
use capisco.Agents.Approval.{
  on_agent_request_denied, on_agent_request_approved, on_agent_request_once,
}
use capisco.Agents.Transcript.{
  SessionEvent, Live, Turn, arrives, resumes, run_turns, take_turn, take_at, begin_notification,
  resume_notification, apply_event, finish, flush_agent_message, flush_each, buffer_token,
}
use capisco.Agents.Transcript.Assembly.{direct, messages_of, message_ids, text_of}
use capisco.Agents.Transcript.Durable.{note}
use capisco.Agents.Transcript.Reply.{Finished}
use capisco.Agents.Transcript.Turns.{Rearranges, run_turns-Finished}
use capisco.Tests.{engine, agent, answer}

abbrev agent_session : GrantAxis → AcpSession
agent_session axis = record {
  principal = agent;
  untrusted = true;
  session_id = "sess-1";
  human = λ r c b. (answer axis, b);
  write_escape = λ r. none;
  perform = λ call. none;
}

abbrev tool_call : CapabilityKind → AcpToolCall
tool_call kind = record {
  call_id = "call-1";
  kind = kind;
  target = "push";
  title = "Push";
  command = none;
  credential_ref = none;
}

-- The agent says that its request is trusted.
abbrev asks : CapabilityKind → AgentRequest
asks kind = record {
  method = request_permission;
  params = record { call = tool_call kind; from_untrusted = false };
}

abbrev world : World
world = record { broker = init engine []; performed = [] }

on_agent_request-Fate_example :
    Fate
      (agent_session GrantAxis.once)
      []
      (tool_call CapabilityKind.external_write)
      (Cleared (agent_session GrantAxis.once) world.broker (
        capability_request
          (agent_session GrantAxis.once)
          (asks CapabilityKind.external_write).params))
      (on_agent_request (agent_session GrantAxis.once) world (asks CapabilityKind.external_write))
on_agent_request-Fate_example =
    on_agent_request-Fate (agent_session GrantAxis.once) world (asks CapabilityKind.external_write)

write_is_egress : is_egress CapabilityKind.external_write ≡ true
unfolding is_egress
write_is_egress = refl

on_agent_request_denied_example :
    let x =
      on_agent_request (agent_session GrantAxis.deny) world (asks CapabilityKind.external_write) in
    ((state x).performed ≡ []) × (is_allowed x ≡ false)
on_agent_request_denied_example =
    on_agent_request_denied (agent_session GrantAxis.deny) world
      (asks CapabilityKind.external_write) refl write_is_egress (λ b. refl)

abbrev none_decided : BrokerDecision
none_decided = record {
  outcome = BrokerOutcome.deny;
  request = none;
  reason = Reason.untrusted_egress;
  grant = none;
}

abbrev decision_of : Run Broker BrokerError BrokerDecision → BrokerDecision
decision_of (ok d b) = d
decision_of (err x b) = none_decided

abbrev authorized : CapabilityKind → Run Broker BrokerError BrokerDecision
authorized kind =
    authorize world.broker agent
      (capability_request (agent_session GrantAxis.once) (asks kind).params) none

write_authorized :
    authorized CapabilityKind.external_write
    ≡ ok
        (decision_of (authorized CapabilityKind.external_write))
        (state (authorized CapabilityKind.external_write))
unfolding init authorize granted record_entry is_rtk_filtered looks_like_secret_value kind_name
    principal_name Policy.decide is_untrusted_egress is_egress includes capability_request
    build_request
write_authorized = refl

write_is_no_prod :
    is_prod_write (state (authorized CapabilityKind.external_write)) (
      capability_request (agent_session GrantAxis.once) (asks CapabilityKind.external_write).params)
    ≡ false
unfolding is_prod_write capability_request kind_name
write_is_no_prod = refl

on_agent_request_approved_example :
    (c : Broker) × (on_agent_request
        (agent_session GrantAxis.once)
        world
        (asks CapabilityKind.external_write)
      ≡ ok
          (answered none)
          (record { broker = c; performed = tool_call CapabilityKind.external_write ∷ [] }))
on_agent_request_approved_example =
    on_agent_request_approved (agent_session GrantAxis.once) world
      (asks CapabilityKind.external_write) (decision_of (authorized CapabilityKind.external_write))
      (state (authorized CapabilityKind.external_write)) refl refl write_is_egress write_authorized
      (inl refl, write_is_no_prod)

read_is_no_egress :
    is_untrusted_egress
      (capability_request (agent_session GrantAxis.once) (asks CapabilityKind.file_read).params)
    ≡ false
unfolding is_untrusted_egress is_egress capability_request
read_is_no_egress = refl

read_authorized :
    authorized CapabilityKind.file_read
    ≡ ok
        (decision_of (authorized CapabilityKind.file_read))
        (state (authorized CapabilityKind.file_read))
unfolding init authorize granted record_entry is_rtk_filtered looks_like_secret_value kind_name
    principal_name Policy.decide is_untrusted_egress is_egress includes capability_request
    build_request decide_persisted consult find_rule matches grant_key consumable_key get contains
    ends_with drop_last
read_authorized = refl

read_is_asked : (decision_of (authorized CapabilityKind.file_read)).outcome ≡ BrokerOutcome.ask
unfolding init authorize granted record_entry is_rtk_filtered looks_like_secret_value kind_name
    principal_name Policy.decide is_untrusted_egress is_egress includes capability_request
    build_request decide_persisted consult find_rule matches grant_key consumable_key get contains
    ends_with drop_last
read_is_asked = refl

on_agent_request_once_example :
    (c : Broker) × (on_agent_request
        (agent_session GrantAxis.once)
        world
        (asks CapabilityKind.file_read)
      ≡ ok (refused gate_not_cleared) (with_broker world c))
on_agent_request_once_example =
    on_agent_request_once (agent_session GrantAxis.once) world (asks CapabilityKind.file_read)
      (decision_of (authorized CapabilityKind.file_read))
      (state (authorized CapabilityKind.file_read)) refl read_is_no_egress read_authorized
      read_is_asked (refl, refl)

abbrev kept_session : SessionRecord
kept_session = record {
  session = record {
    id = "sess-1";
    model = "m";
    status = SessionStatus.running;
    title = "t";
    telemetry = zero_telemetry;
    worktree_path = none;
    copied_from = none;
    seq = 1;
  };
  blocks = [];
  tree = record { nodes = []; roots = []; active_leaf = "" };
}

abbrev live : Live
live = record {
  store = record { sessions = ("sess-1", kept_session) ∷ []; seq = 1 };
  token_buf = [];
  waiting = [];
  emitted = [];
  finished = false;
}

abbrev events : List SessionEvent
events =
    SessionEvent.token "m1" "Hel"
    ∷ SessionEvent.tool "t1" "read" "a.ts"
    ∷ SessionEvent.token "m2" "Bye"
    ∷ SessionEvent.token "m1" "lo"
    ∷ []

session_there : get "sess-1" live.store.sessions ≡ some kept_session
unfolding get
session_there = refl

-- The handler of the first event goes on last.
abbrev turns : List Turn
turns =
    map (λ e. arrives (note e)) (events ++ SessionEvent.done ∷ [])
    ++ map (λ e. resumes 1) events
    ++ resumes 0 ∷ []

nobody_waits : (run_turns "sess-1" live turns).waiting ≡ []
unfolding run_turns take_turn begin_notification resume_notification apply_event take_at append
    update get set finish flush_agent_message flush_each buffer_token
nobody_waits = refl

run_turns-Finished_example :
    let v' = run_turns "sess-1" live turns in
    Finished "sess-1"
      (([] ++ direct events) ++ messages_of (message_ids [] events) (λ k. text_of k events))
      v'
    × ((heard : List SessionEvent) × (v'.emitted ≡ [] ++ heard)
        × Rearranges heard (events ++ SessionEvent.done ∷ []))
run_turns-Finished_example =
    run_turns-Finished "sess-1" live kept_session events turns session_there refl refl
      (refl, (refl, (refl, (refl, tt)))) refl nobody_waits
