-- ===== src/Tests/Histories.antt =====
-- Witnesses for the broker.
use capisco.Prelude.{
  ℕ, ◌≡◌, ◌≢◌, ◌≤◌, refl, true, false, none, some, List, [], ◌∷◌, string_eq, nat_eq, arith, Extends,
}
use capisco.Prelude.Dict.{get, set, delete, add, contains}
use capisco.Prelude.Effect.{ok, err, state}
use capisco.Prelude.Text.{ends_with, drop_last, includes}
use capisco.Broker.Contract.{kind_name, kind_eq, principal_name, WriteEscape}
use capisco.Broker.Policy
use capisco.Broker.Policy.{
  is_untrusted_egress, is_egress, grant_key, consumable_key, decide_persisted, consult, find_rule,
  matches,
}
use capisco.Broker.Audit.{is_rtk_filtered, looks_like_secret_value, record_entry}
use capisco.Broker.Chokepoint.{
  Broker, BrokerError, authorize, granted, mint, index_grant, unindex_grant, admit, consume,
  guard_prod, is_prod_write, ride_escape, record_execution, request_fingerprint, revoke_task,
}
use capisco.Broker.Chokepoint.Change.{Call, authorizes, executes, step, run}
use capisco.Broker.Chokepoint.Gate.{Admitted, admit-Admitted}
use capisco.Broker.Chokepoint.Invariant.{IsSound, step-IsSound}
use capisco.Broker.Chokepoint.Trace.{
  init, init-IsSound, run-IsSound, Authorized, admit-Authorized, run-Extends, admit_once,
  revoke_task-admit, escape_once,
}
use capisco.Broker.Chokepoint.Execution.{authorize-admit}
use capisco.Broker.Contract.{BrokerDecision, Reason, BrokerOutcome, CapabilityKind}
use capisco.Tests.{rule, engine, agent, shell_request, prod_write}

abbrev calls : List Call
calls = authorizes agent shell_request none ∷ authorizes agent prod_write none ∷ []

-- The broker after both requests were authorized: the handles are 1 and 2.
abbrev broker : Broker
broker = run (init engine ("prod" ∷ [])) calls

abbrev escape : WriteEscape
escape = record { id = "escape-1"; datasource = "prod"; command = "DELETE" }

abbrev after_shell : Broker
after_shell = state (admit broker agent shell_request none (some 1))

abbrev after_write : Broker
after_write = state (admit broker agent prod_write (some escape) (some 2))

broker-IsSound : IsSound broker
broker-IsSound = run-IsSound (init engine ("prod" ∷ [])) calls (init-IsSound engine ("prod" ∷ []))

shell_admitted : admit broker agent shell_request none (some 1) ≡ ok tt after_shell
unfolding init run step authorize granted mint index_grant record_entry is_rtk_filtered
    looks_like_secret_value admit consume unindex_grant guard_prod is_prod_write ride_escape
    record_execution request_fingerprint kind_name principal_name Policy.decide is_untrusted_egress
    is_egress decide_persisted consult find_rule matches grant_key consumable_key get set delete add
    contains ends_with drop_last includes
shell_admitted = refl

write_admitted : admit broker agent prod_write (some escape) (some 2) ≡ ok tt after_write
unfolding init run step authorize granted mint index_grant record_entry is_rtk_filtered
    looks_like_secret_value admit consume unindex_grant guard_prod is_prod_write ride_escape
    record_execution request_fingerprint kind_name principal_name Policy.decide is_untrusted_egress
    is_egress decide_persisted consult find_rule matches grant_key consumable_key get set delete add
    contains ends_with drop_last includes
write_admitted = refl

admit-Admitted_example :
    (id : ℕ) × (some 1 ≡ some id) × Admitted broker agent shell_request none id after_shell
admit-Admitted_example =
    admit-Admitted broker agent shell_request none (some 1) tt after_shell shell_admitted

admit-Authorized_example : Authorized broker.audit.entries agent shell_request
admit-Authorized_example =
    admit-Authorized engine ("prod" ∷ []) calls agent shell_request none (some 1) tt after_shell
      shell_admitted

admit_once_example :
    admit (run after_shell calls) agent shell_request none (some 1)
    ≡ err BrokerError.not_authorized (run after_shell calls)
admit_once_example =
    admit_once broker agent shell_request none 1 tt after_shell calls agent shell_request none
      broker-IsSound shell_admitted

one_minted : 1 ≤ broker.grant_seq
unfolding init run step authorize granted mint index_grant record_entry is_rtk_filtered
    looks_like_secret_value admit consume unindex_grant guard_prod is_prod_write ride_escape
    record_execution request_fingerprint kind_name principal_name Policy.decide is_untrusted_egress
    is_egress decide_persisted consult find_rule matches grant_key consumable_key get set delete add
    contains ends_with drop_last includes
one_minted = omega arith

revoke_task-admit_example :
    admit (run (revoke_task broker "task-1") calls) agent shell_request none (some 1)
    ≢ ok tt after_shell
revoke_task-admit_example =
    revoke_task-admit broker "task-1" 1 calls agent shell_request none tt after_shell refl
      broker-IsSound one_minted refl

is_prod : is_prod_write broker prod_write ≡ true
unfolding init run step authorize granted mint index_grant record_entry is_rtk_filtered
    looks_like_secret_value admit consume unindex_grant guard_prod is_prod_write ride_escape
    record_execution request_fingerprint kind_name principal_name Policy.decide is_untrusted_egress
    is_egress decide_persisted consult find_rule matches grant_key consumable_key get set delete add
    contains ends_with drop_last includes
is_prod = refl

is_still_prod : is_prod_write (run after_write calls) prod_write ≡ true
unfolding init run step authorize granted mint index_grant record_entry is_rtk_filtered
    looks_like_secret_value admit consume unindex_grant guard_prod is_prod_write ride_escape
    record_execution request_fingerprint kind_name principal_name Policy.decide is_untrusted_egress
    is_egress decide_persisted consult find_rule matches grant_key consumable_key get set delete add
    contains ends_with drop_last includes
is_still_prod = refl

escape_once_example :
    admit (run after_write calls) agent prod_write (some escape) (some 4) ≢ ok tt after_write
escape_once_example =
    escape_once broker agent agent prod_write prod_write escape escape (some 2) (some 4) tt tt
      after_write after_write calls write_admitted is_prod is_still_prod refl

run-Extends_example : Extends broker.audit.entries (run broker calls).audit.entries
run-Extends_example = run-Extends broker calls

step-IsSound_example : IsSound (step broker (executes agent shell_request none (some 1)))
step-IsSound_example =
    step-IsSound broker (executes agent shell_request none (some 1)) broker-IsSound

abbrev allowed : BrokerDecision
allowed = record {
  outcome = BrokerOutcome.allow;
  request = none;
  reason = Reason.allowlist (rule CapabilityKind.shell "npm test*");
  grant = some 1;
}

abbrev started : Broker
started = init engine ("prod" ∷ [])

shell_authorized :
    authorize started agent shell_request none
    ≡ ok allowed (state (authorize started agent shell_request none))
unfolding init run step authorize granted mint index_grant record_entry is_rtk_filtered
    looks_like_secret_value admit consume unindex_grant guard_prod is_prod_write ride_escape
    record_execution request_fingerprint kind_name principal_name Policy.decide is_untrusted_egress
    is_egress decide_persisted consult find_rule matches grant_key consumable_key get set delete add
    contains ends_with drop_last includes
shell_authorized = refl

shell_is_no_write : is_prod_write started shell_request ≡ false
unfolding init run step authorize granted mint index_grant record_entry is_rtk_filtered
    looks_like_secret_value admit consume unindex_grant guard_prod is_prod_write ride_escape
    record_execution request_fingerprint kind_name principal_name Policy.decide is_untrusted_egress
    is_egress decide_persisted consult find_rule matches grant_key consumable_key get set delete add
    contains ends_with drop_last includes
shell_is_no_write = refl

authorize-admit_example :
    (c : Broker) × (admit
        (state (authorize started agent shell_request none))
        agent
        shell_request
        none
        (some 1)
      ≡ ok tt c)
authorize-admit_example =
    authorize-admit started agent shell_request none none allowed
      (state (authorize started agent shell_request none)) shell_authorized refl shell_is_no_write
