-- ===== src/Routing/Live.antt =====
-- app/sidecar/model-routing/live-router.ts: the router with its toggle.
use capisco.Prelude.{Bool, true, false, Option, String, if◌then◌else◌, get_or}
use capisco.Routing.{
  ModelTier, large, SessionOrigin, RoutingDecision, TierMap, blocklist_never_downgrade,
  not_routed_default_tier, default_tier, is_blocklisted, decision, route_origin,
  escalate_on_quality, resolve_model,
}

pub record LiveRouter : Type 0 where
  pub enabled : Bool
  pub tier_map : TierMap

pub record ResolvedSpawn : Type 0 where
  pub model : String
  pub decision : RoutingDecision
  pub routing_enabled : Bool

abbrev pub default_tier_map : TierMap
default_tier_map = record {
  small_model = "Haiku 4.8";
  mid_model = "Sonnet 4.8";
  large_model = "Opus 4.8";
}

unfoldable pub create : Option Bool → Option TierMap → LiveRouter
create enabled map = record {
  enabled = get_or enabled false;
  tier_map = get_or map default_tier_map;
}

unfoldable pub set_enabled : LiveRouter → Bool → LiveRouter
set_enabled r enabled = record r { enabled = enabled }

unfoldable pub decide : LiveRouter → SessionOrigin → RoutingDecision
decide r origin =
    if is_blocklisted origin
    then decision large true blocklist_never_downgrade
    else if r.enabled
    then route_origin origin
    else decision default_tier false not_routed_default_tier

unfoldable pub resolve_spawn : LiveRouter → SessionOrigin → ResolvedSpawn
resolve_spawn r origin = record {
  model = resolve_model (decide r origin).tier r.tier_map;
  decision = decide r origin;
  routing_enabled = r.enabled;
}

unfoldable pub escalate_decision : LiveRouter → RoutingDecision → Bool → RoutingDecision
escalate_decision r current quality_failed = escalate_on_quality current quality_failed

unfoldable pub model_for : LiveRouter → ModelTier → String
model_for r tier = resolve_model tier r.tier_map
