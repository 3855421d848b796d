-- ===== src/Routing.antt =====
-- app/src/lib/model-routing/router.ts and app/src/contracts/model-routing.ts: from the origin of a
-- session to a model tier.
pub mod Live
pub mod Escalation
pub mod Tiers
pub mod Ceiling
use capisco.Prelude.{
  ℕ, suc, ◌+◌, ◌≡◌, Bool, true, false, Option, none, some, String, if◌then◌else◌, ltb, min, ◌==◌,
  nat_eq,
}

pub data ModelTier : Type 0 where
  small mid large : ModelTier

pub data OriginKind : Type 0 where
  roadmap_step subagent todo free_conversation architecture broker_decision ai_review : OriginKind
  untrusted_egress : OriginKind

pub data StepCategory : Type 0 where
  mechanical test_writing doc analysis design : StepCategory

pub data SubagentType : Type 0 where
  test_writer fixer summarizer searcher reviewer : SubagentType

pub record SessionOrigin : Type 0 where
  pub kind : OriginKind
  pub step_category : Option StepCategory
  pub subagent_type : Option SubagentType

pub data RoutingReason : Type 0 where
  blocklist_never_downgrade not_routed_default_tier mechanical_small analysis_mid : RoutingReason
  escalated_on_quality : RoutingReason

pub record RoutingDecision : Type 0 where
  pub tier : ModelTier
  pub blocklisted : Bool
  pub reason : RoutingReason

pub record TierMap : Type 0 where
  pub small_model : String
  pub mid_model : String
  pub large_model : String

-- The place of a tier in `TIER_ORDER`.
abbrev pub tier_index : ModelTier → ℕ
tier_index small = 0
tier_index mid = 1
tier_index large = 2

-- `TIER_ORDER[i]`, for an index in range.
abbrev tier_at : ℕ → ModelTier
tier_at ℕ.zero = small
tier_at (suc ℕ.zero) = mid
tier_at (suc (suc n)) = large

abbrev pub default_tier : ModelTier
default_tier = large

abbrev is_reviewer : Option SubagentType → Bool
is_reviewer (some reviewer) = true
is_reviewer _ = false

abbrev blocklisted_kind : OriginKind → Option SubagentType → Bool
blocklisted_kind broker_decision s = true
blocklisted_kind ai_review s = true
blocklisted_kind untrusted_egress s = true
blocklisted_kind subagent s = is_reviewer s
blocklisted_kind _ s = false

unfoldable pub is_blocklisted : SessionOrigin → Bool
is_blocklisted origin = blocklisted_kind origin.kind origin.subagent_type

abbrev pub decision : ModelTier → Bool → RoutingReason → RoutingDecision
decision tier blocklisted reason = record {
  tier = tier;
  blocklisted = blocklisted;
  reason = reason;
}

abbrev step_tier : Option StepCategory → RoutingDecision
step_tier (some analysis) = decision mid false analysis_mid
step_tier (some design) = decision large false not_routed_default_tier
step_tier _ = decision small false mechanical_small

abbrev route_kind : OriginKind → Option StepCategory → RoutingDecision
route_kind roadmap_step category = step_tier category
route_kind subagent category = decision small false mechanical_small
route_kind todo category = decision small false mechanical_small
route_kind _ category = decision default_tier false not_routed_default_tier

unfoldable pub route_origin : SessionOrigin → RoutingDecision
route_origin origin =
    if is_blocklisted origin
    then decision large true blocklist_never_downgrade
    else route_kind origin.kind origin.step_category

-- `TIER_ORDER[Math.min(i + 1, TIER_ORDER.length - 1)]`
unfoldable pub escalate : ModelTier → ModelTier
escalate tier = tier_at (min (tier_index tier + 1) 2)

unfoldable pub escalate_on_quality : RoutingDecision → Bool → RoutingDecision
escalate_on_quality current quality_failed =
    let next = escalate current.tier in
    if quality_failed
    then if tier_index next == tier_index current.tier
      then current
      else decision next current.blocklisted escalated_on_quality
    else current

unfoldable pub resolve_model : ModelTier → TierMap → String
resolve_model small map = map.small_model
resolve_model mid map = map.mid_model
resolve_model large map = map.large_model

unfoldable pub tier_less_than : ModelTier → ModelTier → Bool
tier_less_than a b = ltb (tier_index a) (tier_index b)
