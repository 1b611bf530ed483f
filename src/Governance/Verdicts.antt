-- ===== src/Governance/Verdicts.antt =====
-- What a verdict of `evaluate_outbound` of trpc_service/governance.py lets out.
use trpc_agent_service_douzh.Prelude.{
  ◌≤◌, String, List, [], ◌∷◌, none, some, Bool, true, false, ◌&&◌, str_eq, if◌then◌else◌, ◌≡◌, ◌≢◌,
  refl, arith, inl, inr, Bool-cases, Option-cases, not,
}
use trpc_agent_service_douzh.Prelude.Json.{Fields, str}
use trpc_agent_service_douzh.Governance.Rules.{
  DataClassification, public, internal, confidential, restricted, rank, highest_classification,
  GovernanceRules, DecisionType, allow, mask,
}
use trpc_agent_service_douzh.Governance.Outbound.{
  Text, blocked, scan_messages, GovernanceDecision, evaluate_outbound, mask_outbound, apply_masks,
  ceiling_denial, needs_approval_above, rewrite, content_of, set_field,
}
use trpc_agent_service_douzh.Governance.Screening.{highest-two}

-- The decisions after which the content leaves the platform.
abbrev pub releases : DecisionType → Bool
releases allow = true
releases mask = true
releases _ = false

ceiling-none :
    (rules : GovernanceRules) (c : DataClassification) (private_endpoint : Bool)
    → ceiling_denial rules c private_endpoint ≡ none
    → (c ≢ restricted → rank c ≤ rank rules.max_outbound_classification)
      × (c ≡ restricted
          → (rules.allow_restricted_to_private_endpoints ≡ true) × (private_endpoint ≡ true))
ceiling-none rules public p h = (λ e. ground (arith, h), λ e. absurd (ground (arith, e)))
ceiling-none rules internal p h = (λ e. ground (arith, h), λ e. absurd (ground (arith, e)))
ceiling-none rules confidential p h = (λ e. ground (arith, h), λ e. absurd (ground (arith, e)))
ceiling-none rules restricted p h =
    (λ e. absurd (e refl), λ e. (ground (arith, h), ground (arith, h)))

module _ (text : Text) (rules : GovernanceRules) (messages : List Fields)
    (declared : DataClassification) (private_endpoint : Bool) where
  abbrev effective : DataClassification
  effective =
      highest_classification
        (some declared ∷ some (scan_messages text messages).detected_classification ∷ [])

  mask_outbound-effective :
      (c : DataClassification) (d : GovernanceDecision)
      → mask_outbound text rules messages c ≡ some d
      → d.effective_classification ≡ c
  unfolding mask_outbound
  mask_outbound-effective c d h = elim (Option-cases (apply_masks text rules messages)) [
    | inl raised ↦ absurd (ground (arith, raised, h))
    | inr (none, e) ↦ ground (arith, e, h)
    | inr (some masked, e) ↦ ground (arith, e, h)
  ]

  -- The tests that a request has passed when its content is released.
  released-path :
      (d : GovernanceDecision)
      → evaluate_outbound text rules messages declared private_endpoint ≡ some d
      → releases d.decision ≡ true
      → (rules.secret_detection_enabled && blocked (scan_messages text messages) ≡ false)
        × (ceiling_denial rules effective private_endpoint ≡ none)
        × (needs_approval_above rules effective ≡ false)
        × (mask_outbound text rules messages effective ≡ some d)
  unfolding evaluate_outbound
  released-path d h out =
      let found = rules.secret_detection_enabled && blocked (scan_messages text messages) in
      elim (Bool-cases found) [
        | inl secret ↦ absurd (ground (arith, secret, h, out))
        | inr clean ↦ elim (Option-cases (ceiling_denial rules effective private_endpoint)) [
          | inr (reason, e) ↦ absurd (ground (arith, clean, e, h, out))
          | inl within ↦ elim (Bool-cases (needs_approval_above rules effective)) [
            | inl due ↦ absurd (ground (arith, clean, within, due, h, out))
            | inr free ↦ (clean, within, free, ground (arith, clean, within, free, h))
          ]
        ]
      ]

  -- A request that is allowed or masked is within the policy: no secret was found unless the policy
  -- has turned that off; its effective classification is at least the declared and the detected one,
  -- and is within the policy's ceiling, or is RESTRICTED, for a private endpoint that the policy
  -- admits; and no approval was due.
  pub released_within_policy :
      (d : GovernanceDecision)
      → evaluate_outbound text rules messages declared private_endpoint ≡ some d
      → releases d.decision ≡ true
      → (rules.secret_detection_enabled && blocked (scan_messages text messages) ≡ false)
        × (rank declared ≤ rank d.effective_classification)
        × (rank (scan_messages text messages).detected_classification
            ≤ rank d.effective_classification)
        × (d.effective_classification ≢ restricted
            → rank d.effective_classification ≤ rank rules.max_outbound_classification)
        × (d.effective_classification ≡ restricted
            → (rules.allow_restricted_to_private_endpoints ≡ true) × (private_endpoint ≡ true))
        × (needs_approval_above rules d.effective_classification ≡ false)
  released_within_policy d h out =
      let (clean, within, free, masked) = released-path d h out in
      let same = mask_outbound-effective effective d masked in
      let (low, high) =
        highest-two declared (scan_messages text messages).detected_classification in
      let ceiling = ceiling-none rules effective private_endpoint within in
      rw same (clean, low, high, ceiling.0, ceiling.1, free)

-- A message after masking.
abbrev pub masked_message : Text → List (String × (String → String → String)) → Fields → Fields
masked_message text compiled message =
    let content = content_of text message in
    let rewritten = rewrite text compiled content in
    if str_eq rewritten content then message else set_field "content" (str rewritten) message

-- Whether some pattern changes a message's content.
abbrev pub changes : Text → List (String × (String → String → String)) → Fields → Bool
changes text compiled message =
    let content = content_of text message in not (str_eq (rewrite text compiled content) content)
