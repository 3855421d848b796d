-- ===== src/Routing/Tiers.antt =====
-- Which origins get which tier, and what escalation does to a tier.
use capisco.Prelude.{◌+◌, ◌≡◌, ◌≢◌, refl, Bool, true, false, Option, none, some, arith, nat_eq}
use capisco.Routing.{
  ModelTier, small, mid, large, SessionOrigin, OriginKind, StepCategory, SubagentType,
  RoutingDecision, tier_index, is_blocklisted, route_origin, escalate, escalate_on_quality,
}
use capisco.Routing.Live.{LiveRouter, decide}

-- The origins whose work is a judgement.
pub data IsJudgement (o : SessionOrigin) : Type 0 where
  broker : o.kind ≡ OriginKind.broker_decision → IsJudgement o
  review : o.kind ≡ OriginKind.ai_review → IsJudgement o
  untrusted : o.kind ≡ OriginKind.untrusted_egress → IsJudgement o
  reviewer :
      o.kind ≡ OriginKind.subagent → o.subagent_type ≡ some SubagentType.reviewer → IsJudgement o

-- A judgement keeps the strongest tier whatever the toggle says: no setting of the router sends a
-- broker decision, an AI review, an untrusted egress or a reviewer subagent to a smaller model.
pub decide_judgement :
    (r : LiveRouter) (o : SessionOrigin)
    → IsJudgement o
    → ((decide r o).tier ≡ large) × ((decide r o).blocklisted ≡ true)
unfolding decide is_blocklisted
decide_judgement r o (broker h) = ground arith
decide_judgement r o (review h) = ground arith
decide_judgement r o (untrusted h) = ground arith
decide_judgement r o (reviewer h k) = ground arith

-- The work that may run on a smaller model than the strongest.
pub data IsRouted (o : SessionOrigin) (t : ModelTier) : Type 0 where
  analysis :
      o.kind ≡ OriginKind.roadmap_step
      → o.step_category ≡ some StepCategory.analysis
      → t ≡ mid
      → IsRouted o t
  step :
      o.kind ≡ OriginKind.roadmap_step
      → o.step_category ≢ some StepCategory.analysis
      → o.step_category ≢ some StepCategory.design
      → t ≡ small
      → IsRouted o t
  subagent :
      o.kind ≡ OriginKind.subagent
      → o.subagent_type ≢ some SubagentType.reviewer
      → t ≡ small
      → IsRouted o t
  todo : o.kind ≡ OriginKind.todo → t ≡ small → IsRouted o t

step_routed :
    (r : LiveRouter) (o : SessionOrigin) (c : Option StepCategory)
    → o.kind ≡ OriginKind.roadmap_step
    → o.step_category ≡ c
    → (decide r o).tier ≢ large
    → IsRouted o (decide r o).tier
unfolding decide is_blocklisted route_origin
step_routed r o none p q h = step p (ground arith) (ground arith) (ground arith)
step_routed r o (some StepCategory.analysis) p q h = analysis p q (ground arith)
step_routed r o (some StepCategory.design) p q h = absurd (h (ground arith))
step_routed r o (some _) p q h = step p (ground arith) (ground arith) (ground arith)

routed :
    (r : LiveRouter) (o : SessionOrigin) (k : OriginKind)
    → o.kind ≡ k
    → (decide r o).tier ≢ large
    → IsRouted o (decide r o).tier
unfolding decide is_blocklisted route_origin
routed r o OriginKind.roadmap_step p h = step_routed r o o.step_category p refl h
routed r o OriginKind.subagent p h = subagent p (λ q. h (ground arith)) (ground arith)
routed r o OriginKind.todo p h = todo p (ground arith)
routed r o _ p h = absurd (h (ground arith))

enabled_routed : (r : LiveRouter) (o : SessionOrigin) → (decide r o).tier ≢ large → r.enabled ≡ true
unfolding decide
enabled_routed r o h = ground arith

-- A session starts below the strongest tier only with the toggle on, and only for a roadmap step that
-- is not design, a subagent that is no reviewer, or a to-do: analysis steps at `mid`, the rest at
-- `small`.
pub decide_routed :
    (r : LiveRouter) (o : SessionOrigin)
    → (decide r o).tier ≢ large
    → (r.enabled ≡ true) × IsRouted o (decide r o).tier
decide_routed r o h = (enabled_routed r o h, routed r o o.kind refl h)

-- A failed gate moves a decision up exactly one tier, unless it is at the ceiling, where the decision
-- stays as it is; a passed gate changes nothing; the blocklist mark is kept.
pub escalate_on_quality_lem :
    (d : RoutingDecision) (failed : Bool)
    → ((escalate_on_quality d failed).blocklisted ≡ d.blocklisted)
      × ((failed ≡ false → escalate_on_quality d failed ≡ d)
          × ((d.tier ≡ large → escalate_on_quality d failed ≡ d)
              × (failed ≡ true
                  → d.tier ≢ large
                  → tier_index (escalate_on_quality d failed).tier ≡ tier_index d.tier + 1)))
unfolding escalate_on_quality escalate
escalate_on_quality_lem d failed = by_tier d.tier refl
  where
    by_tier :
        (t : ModelTier)
        → d.tier ≡ t
        → ((escalate_on_quality d failed).blocklisted ≡ d.blocklisted)
          × ((failed ≡ false → escalate_on_quality d failed ≡ d)
              × ((d.tier ≡ large → escalate_on_quality d failed ≡ d)
                  × (failed ≡ true
                      → d.tier ≢ large
                      → tier_index (escalate_on_quality d failed).tier ≡ tier_index d.tier + 1)))
    by_tier small h = ground arith
    by_tier mid h = ground arith
    by_tier large h = ground arith
