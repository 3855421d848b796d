-- ===== src/Tests/Decisions.antt =====
-- Witnesses for the policy engine.
use capisco.Prelude.{◌≡◌, ◌≢◌, ◌≤◌, refl, ◌↔◌, true, false, none, [], ◌∷◌, string_eq, list_eq}
use capisco.Prelude.Dict.{get, contains}
use capisco.Prelude.Effect.{state}
use capisco.Prelude.Text.{ends_with, drop_last}
use capisco.Broker.Contract.{kind_name, kind_eq, BrokerOutcome, GrantAxis}
use capisco.Broker.Policy.{
  Engine, decide, resolve, is_untrusted_egress, is_egress, grant_key, consumable_key, scope_matches,
  bound_scope, decide_persisted, consult, find_rule, matches,
}
use capisco.Broker.Policy.Gate.{Acts, Asks, decide_untrusted, decide-Clears, Clears}
use capisco.Broker.Policy.Scope.{Covers, scope_matches_iff}
use capisco.Broker.Policy.Budget.{count_allowed, count_allowed-le-budget, Holds}
use capisco.Broker.Policy.Issue.{resolve-decide}
use capisco.Broker.Policy.Validity.{
  IsValid, resolve-IsValid, use_engine, decides, use_engine-IsValid,
}
use capisco.Tests.{
  host, engine, shell_request, push, file_request, answer, scoped_grant, granted_engine,
}

push-untrusted : is_untrusted_egress push ≡ true
unfolding is_untrusted_egress is_egress
push-untrusted = refl

push-egress : is_egress push.kind ≡ true
unfolding is_egress
push-egress = refl

decide_untrusted_example :
    ((e : Engine) → Asks e push none) ↔ ((push.from_untrusted ≡ true) × Acts push.kind)
decide_untrusted_example = decide_untrusted engine push none

shell_allowed : (decide engine shell_request none).0.outcome ≡ BrokerOutcome.allow
unfolding decide is_untrusted_egress is_egress contains decide_persisted get consult find_rule
    matches kind_name ends_with drop_last
shell_allowed = refl

decide-Clears_example :
    (is_untrusted_egress shell_request ≡ false)
    × Clears engine shell_request none (decide engine shell_request none).1
decide-Clears_example = decide-Clears engine shell_request none shell_allowed

file_asked : (decide engine file_request none).0.outcome ≢ BrokerOutcome.allow
unfolding decide is_untrusted_egress is_egress contains decide_persisted get consult find_rule
    matches kind_name ends_with drop_last
file_asked h = cc

scope_matches_iff_example :
    (scope_matches host scoped_grant file_request ≡ true) ↔ Covers host scoped_grant file_request
scope_matches_iff_example = scope_matches_iff host scoped_grant file_request

granted-Holds : Holds granted_engine none 2
unfolding get grant_key kind_name
granted-Holds = record {
  asks = tt;
  single = refl;
  grant = scoped_grant;
  here = refl;
  budget = refl;
}

count_allowed-le-budget_example :
    count_allowed granted_engine (file_request ∷ file_request ∷ file_request ∷ []) none ≤ 2
count_allowed-le-budget_example =
    count_allowed-le-budget granted_engine none 2 (file_request ∷ file_request ∷ file_request ∷ [])
      granted-Holds (refl, (refl, (refl, tt)))

resolve-decide_example :
    let d = answer GrantAxis.session in
    let e' = state (resolve engine push d none) in
    let vetted = record push { from_untrusted = false } in
    let after = decide e' vetted (bound_scope d none) in
    (after.0.outcome ≡ BrokerOutcome.allow)
    × (contains (consumable_key after.1 vetted (bound_scope d none)) after.1.consumable ≡ false)
    × (after.1.grants ≡ engine.grants)
resolve-decide_example =
    resolve-decide engine push (answer GrantAxis.session) none push-untrusted (λ h. cc h)

file_trusted : is_untrusted_egress file_request ≡ false
unfolding is_untrusted_egress
file_trusted = refl

engine-IsValid : IsValid engine
unfolding get
engine-IsValid = record { distinct = tt; issued = λ k g h. absurd (cc) }

-- The engine after the human issued a scoped grant.
abbrev issued_engine : Engine
issued_engine = state (resolve engine file_request (answer GrantAxis.scoped) none)

issued-IsValid : IsValid issued_engine
issued-IsValid = resolve-IsValid engine file_request (answer GrantAxis.scoped) none engine-IsValid

use_engine-IsValid_example : IsValid (use_engine issued_engine (decides file_request none))
use_engine-IsValid_example =
    use_engine-IsValid issued_engine (decides file_request none) issued-IsValid
