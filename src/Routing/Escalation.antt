-- ===== src/Routing/Escalation.antt =====
-- app/sidecar/model-routing/escalation.ts. The runs and the quality gate are seams of the source:
-- parameters here, which see the number of the attempt and so may answer each call differently.
use capisco.Prelude.{
  ℕ, zero, suc, Bool, true, false, not, ◌||◌, Option, none, some, List, [], ◌∷◌, map, String,
  if◌then◌else◌, any, length, ltb,
}
use capisco.Prelude.Text.{is_empty, decimal, join, concat}
use capisco.Routing.{RoutingDecision, SessionOrigin, tier_less_than}
use capisco.Routing.Live.{LiveRouter, decide, escalate_decision, model_for}
use mathlib.Core.List.{flat_map}

pub data Severity : Type 0 where
  error warning info : Severity

pub record Diagnostic : Type 0 where
  pub tool : String
  pub file : String
  pub line : Option ℕ
  pub severity : Severity
  pub rule : Option String
  pub message : String

pub record QualityVerdict : Type 0 where
  pub failed : Bool
  pub diagnostics : List Diagnostic

pub record Attempt : Type 0 where
  pub attempt : ℕ
  pub decision : RoutingDecision
  pub model : String
  pub session_id : String
  pub verdict : QualityVerdict
  pub prompt : String

pub record Outcome : Type 0 where
  pub last : Attempt
  pub escalated : Bool
  pub attempts : List Attempt

abbrev severity_name : Severity → String
severity_name error = "error"
severity_name warning = "warning"
severity_name info = "info"

-- `d.line ? `:${d.line}` : ""`
abbrev line_suffix : Option ℕ → String
line_suffix none = ""
line_suffix (some zero) = ""
line_suffix (some (suc n)) = concat (":" ∷ decimal (suc n) ∷ [])

abbrev rule_suffix : Option String → String
rule_suffix none = ""
rule_suffix (some r) = if is_empty r then "" else concat (" [" ∷ r ∷ "]" ∷ [])

abbrev describe : Diagnostic → String
describe d = concat (
    "- "
    ∷ d.tool
    ∷ " "
    ∷ severity_name d.severity
    ∷ rule_suffix d.rule
    ∷ " at "
    ∷ (if is_empty d.file then "(run)" else concat (d.file ∷ line_suffix d.line ∷ []))
    ∷ ": "
    ∷ d.message
    ∷ [])

unfoldable pub build_escalation_prompt : String → List Diagnostic → String
build_escalation_prompt original [] = original
build_escalation_prompt original (d ∷ ds) = concat (
    original
    ∷ "\n\n"
    ∷ "A smaller model attempted this and the quality gate failed. "
    ∷ "Fix these grounded errors:\n"
    ∷ join "\n" (map describe (d ∷ ds))
    ∷ [])

abbrev is_error : Diagnostic → Bool
is_error d = elim d.severity [ error ↦ true | _ ↦ false ]

abbrev errors : List Diagnostic → List Diagnostic
errors [] = []
errors (d ∷ ds) = if is_error d then d ∷ errors ds else errors ds

pub record RunResult : Type 0 where
  pub ok : Bool
  pub diagnostics : List Diagnostic

unfoldable pub verdict_from_results : List RunResult → QualityVerdict
verdict_from_results results =
    let all = flat_map (λ (r : RunResult). r.diagnostics) results in
    record {
      failed = any (λ (r : RunResult). not r.ok) results || any is_error all;
      diagnostics = errors all;
    }

module _ (router : LiveRouter) (prompt : String) (run_session : String → String → ℕ → String)
    (gate : String → String → ℕ → QualityVerdict) where
  -- One pass: the run at the decided tier, and its verdict.
  unfoldable pub pass : RoutingDecision → String → ℕ → Attempt
  pass decision run_prompt attempt =
      let model = model_for router decision.tier in
      let session = run_session model run_prompt attempt in
      record {
        attempt = attempt;
        decision = decision;
        model = model;
        session_id = session;
        verdict = gate session model attempt;
        prompt = run_prompt;
      }

  -- The loop from a decision on, `none` if the fuel runs out.
  unfoldable pub escalation_loop : ℕ → RoutingDecision → String → ℕ → Option (List Attempt)
  escalation_loop zero decision run_prompt attempt = none
  escalation_loop (suc fuel) decision run_prompt attempt =
      let here = pass decision run_prompt attempt in
      let escalated = escalate_decision router decision true in
      let rest =
        escalation_loop fuel escalated (build_escalation_prompt prompt here.verdict.diagnostics)
          (suc attempt) in
      if not here.verdict.failed
      then some (here ∷ [])
      else if not (tier_less_than decision.tier escalated.tier)
      then some (here ∷ [])
      else elim rest [ none ↦ none | some later ↦ some (here ∷ later) ]

  abbrev pub last_of : Attempt → List Attempt → Attempt
  last_of a [] = a
  last_of a (b ∷ rest) = last_of b rest

  unfoldable pub run_with_escalation : SessionOrigin → Option Outcome
  run_with_escalation origin = elim (escalation_loop 3 (decide router origin) prompt 0) [
    | none ↦ none
    | some [] ↦ none
    | some (a ∷ rest) ↦ some (record {
      last = last_of a rest;
      escalated = ltb 1 (length (a ∷ rest));
      attempts = a ∷ rest;
    })
  ]
