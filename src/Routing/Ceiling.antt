-- ===== src/Routing/Ceiling.antt =====
-- The escalation loop of app/sidecar/model-routing/escalation.ts ends, and how.
use capisco.Prelude.{
  ℕ, zero, suc, ◌+◌, ◌≤◌, ◌<◌, ◌≡◌, refl, ◌⊎◌, inl, inr, true, false, some, List, [], ◌∷◌, String,
  arith, Bool-cases, length, ltb,
}
use capisco.Routing.{
  ModelTier, small, mid, large, RoutingDecision, SessionOrigin, tier_index, tier_less_than,
  escalate, escalate_on_quality,
}
use capisco.Routing.Live.{LiveRouter, decide, escalate_decision}
use capisco.Routing.Escalation.{
  QualityVerdict, Attempt, Outcome, pass, escalation_loop, run_with_escalation,
  build_escalation_prompt, last_of,
}

tier_index-lt : (t : ModelTier) → tier_index t < 3
tier_index-lt small = omega arith
tier_index-lt mid = omega arith
tier_index-lt large = omega arith

climbs_tier :
    (t : ModelTier)
    → tier_less_than t (escalate t) ≡ true
    → tier_index (escalate t) ≡ tier_index t + 1
unfolding escalate tier_less_than
climbs_tier small h = refl
climbs_tier mid h = refl
climbs_tier large h = cc

ceiling_tier : (t : ModelTier) → tier_less_than t (escalate t) ≡ false → t ≡ large
unfolding escalate tier_less_than
ceiling_tier small h = cc
ceiling_tier mid h = cc
ceiling_tier large h = refl

escalated_tier :
    (d : RoutingDecision) (t : ModelTier)
    → d.tier ≡ t
    → (escalate_on_quality d true).tier ≡ escalate t
unfolding escalate_on_quality escalate
escalated_tier d small h = ground arith
escalated_tier d mid h = ground arith
escalated_tier d large h = ground arith

module _ (router : LiveRouter) (prompt : String) (run_session : String → String → ℕ → String)
    (gate : String → String → ℕ → QualityVerdict) where
  -- The attempts from a decision on: the last one passed the gate or ran at the ceiling; each one
  -- before it failed the gate, and the next ran one tier higher, with the failing diagnostics in its
  -- prompt.
  pub data Chain : RoutingDecision → String → ℕ → List Attempt → Type 0 where
    settled :
        (d : RoutingDecision) (p : String) (n : ℕ)
        → ((pass router prompt run_session gate d p n).verdict.failed ≡ false) ⊎ (d.tier ≡ large)
        → Chain d p n (pass router prompt run_session gate d p n ∷ [])
    escalated :
        (d d' : RoutingDecision) (p : String) (n : ℕ) (rest : List Attempt)
        → (pass router prompt run_session gate d p n).verdict.failed ≡ true
        → tier_index d'.tier ≡ tier_index d.tier + 1
        → Chain d'
            (build_escalation_prompt prompt
              (pass router prompt run_session gate d p n).verdict.diagnostics)
            (suc n)
            rest
        → Chain d p n (pass router prompt run_session gate d p n ∷ rest)

  climbs :
      (d : RoutingDecision)
      → tier_less_than d.tier (escalate_decision router d true).tier ≡ true
      → tier_index (escalate_decision router d true).tier ≡ tier_index d.tier + 1
  unfolding escalate_decision
  climbs d h =
      let same = escalated_tier d d.tier refl in rw same (climbs_tier d.tier (rw same at h))

  at_ceiling :
      (d : RoutingDecision)
      → tier_less_than d.tier (escalate_decision router d true).tier ≡ false
      → d.tier ≡ large
  unfolding escalate_decision
  at_ceiling d h = let same = escalated_tier d d.tier refl in ceiling_tier d.tier (rw same at h)

  Chain-ne-nil : {d : RoutingDecision} {p : String} {n : ℕ} → Chain d p n [] → ⊥
  Chain-ne-nil c = Chain_nonempty c refl
    where
      Chain_nonempty :
          {d : RoutingDecision} {p : String} {n : ℕ} {xs : List Attempt}
          → Chain d p n xs
          → xs ≡ []
          → ⊥
      Chain_nonempty (settled d p n h) e = cc
      Chain_nonempty (escalated d d' p n rest r t c) e = cc

  loop_settles :
      (fuel : ℕ) (d : RoutingDecision) (p : String) (n : ℕ)
      → 3 ≤ fuel + tier_index d.tier
      → (xs : List Attempt) × (escalation_loop router prompt run_session gate fuel d p n ≡ some xs)
        × Chain d p n xs
        × (length xs + tier_index d.tier ≤ 3)
  unfolding escalation_loop
  loop_settles zero d p n h = absurd (ground (arith, tier_index-lt d.tier))
  loop_settles (suc fuel) d p n h = elim (Bool-cases here.verdict.failed) [
    | inr green ↦
        (here ∷ [], rw green, settled d p n (inl green), ground (arith, tier_index-lt d.tier))
    | inl red ↦ elim (Bool-cases (tier_less_than d.tier up.tier)) [
      | inr top ↦ (
        here ∷ [],
        rw (red, top),
        settled d p n (inr (at_ceiling d top)),
        ground (arith, tier_index-lt d.tier),
      )
      | inl more ↦
          let climbed = climbs d more in
          let (xs, e, c, l) =
            loop_settles fuel up (build_escalation_prompt prompt here.verdict.diagnostics) (suc n)
              (omega (arith, climbed)) in
          (
            here ∷ xs,
            simp (red, more, e),
            escalated d up p n xs red climbed c,
            omega (arith, climbed),
          )
    ]
  ]
    where
      here : Attempt
      here = pass router prompt run_session gate d p n

      up : RoutingDecision
      up = escalate_decision router d true

  -- The escalation of a run always ends, in at most three attempts: fuel for three passes is enough
  -- from every origin. The outcome is that of the last attempt of a chain that starts at the origin's
  -- decision and the given prompt, and it says that it escalated exactly if there was a second attempt.
  pub run_with_escalation_settles :
      (origin : SessionOrigin)
      → (o : Outcome) × (run_with_escalation router prompt run_session gate origin ≡ some o)
        × Chain (decide router origin) prompt 0 o.attempts
        × (length o.attempts + tier_index (decide router origin).tier ≤ 3)
        × (o.escalated ≡ ltb 1 (length o.attempts))
        × ((a : Attempt) × (rest : List Attempt) × (o.attempts ≡ a ∷ rest)
            × (o.last ≡ last_of router prompt run_session gate a rest))
  unfolding run_with_escalation
  run_with_escalation_settles origin =
      by_attempts (loop_settles 3 (decide router origin) prompt 0 (omega arith))
    where
      by_attempts :
          ((xs : List Attempt) × (escalation_loop router prompt run_session gate 3
                (decide router origin)
                prompt
                0
              ≡ some xs)
            × Chain (decide router origin) prompt 0 xs
            × (length xs + tier_index (decide router origin).tier ≤ 3))
          → (o : Outcome) × (run_with_escalation router prompt run_session gate origin ≡ some o)
            × Chain (decide router origin) prompt 0 o.attempts
            × (length o.attempts + tier_index (decide router origin).tier ≤ 3)
            × (o.escalated ≡ ltb 1 (length o.attempts))
            × ((a : Attempt) × (rest : List Attempt) × (o.attempts ≡ a ∷ rest)
                × (o.last ≡ last_of router prompt run_session gate a rest))
      by_attempts ([], e, c, l) = absurd (Chain-ne-nil c)
      by_attempts (a ∷ rest, e, c, l) = (
        record {
          last = last_of router prompt run_session gate a rest;
          escalated = ltb 1 (length (a ∷ rest));
          attempts = a ∷ rest;
        },
        rw (e, run_with_escalation),
        c,
        l,
        refl,
        (a, rest, refl, refl),
      )
