-- ===== src/Governance/Outbound.antt =====
-- `scan_messages`, `_apply_masks` and `evaluate_outbound` of trpc_service/governance.py. Regular
-- expressions, `json.dumps` and `str` are parameters; `compile` has no answer where `re.compile`
-- raises, and then the caller raises.
use trpc_agent_service_douzh.Prelude.{
  String, List, [], ◌∷◌, ◌++◌, Option, none, some, Bool, true, false, not, ◌&&◌, leb, str_eq,
  if◌then◌else◌,
}
use trpc_agent_service_douzh.Prelude.Json.{Json, Fields, str, end, field, get_field}
use trpc_agent_service_douzh.Governance.Rules.{
  DataClassification, public, restricted, rank, highest_classification, DetectionRule,
  secret_detection_rules, dlp_rules, MaskPattern, GovernanceRules, DecisionType, allow, deny, mask,
  needs_approval,
}

pub record Text : Type 0 where
  -- `rule.pattern.search` of the rule with a name.
  pub search : String → String → Bool
  -- `json.dumps(message, ensure_ascii=False, default=str)`
  pub dumps : Fields → String
  -- `str` of a value.
  pub show : Json → String
  -- `re.compile(regex).sub`, of the replacement and the content.
  pub compile : String → Option (String → String → String)

pub record ContentScanResult : Type 0 where
  pub detected_secrets : List String
  pub detected_classification : DataClassification

abbrev pub blocked : ContentScanResult → Bool
blocked scan = elim scan.detected_secrets [ [] ↦ false | _ ∷ _ ↦ true ]

-- Why a decision was taken, the `reason` without its wording.
pub data Reason : Type 0 where
  secret_detected : List String → Reason
  restricted_data exceeds_ceiling exceeds_approval_free masks_applied within_policy : Reason

pub record GovernanceDecision : Type 0 where
  pub decision : DecisionType
  pub effective_classification : DataClassification
  pub reason : Reason
  pub masked_messages : Option (List Fields)

-- `message[key] = value` on a copy: the key keeps its place.
abbrev pub set_field : String → Json → Fields → Fields
set_field key value end = field key value end
set_field key value (field k v rest) =
    if str_eq k key then field k value rest else field k v (set_field key value rest)

abbrev pub needs_approval_above : GovernanceRules → DataClassification → Bool
needs_approval_above rules effective = elim rules.require_approval_above [
  | none ↦ false
  | some ceiling ↦ not (leb (rank effective) (rank ceiling))
]

-- The test before the ceilings: RESTRICTED has its own gate.
abbrev pub ceiling_denial : GovernanceRules → DataClassification → Bool → Option Reason
ceiling_denial rules restricted private_endpoint =
    if rules.allow_restricted_to_private_endpoints && private_endpoint
    then none
    else some restricted_data
ceiling_denial rules effective private_endpoint =
    if leb (rank effective) (rank rules.max_outbound_classification)
    then none
    else some exceeds_ceiling

module _ (text : Text) where
  -- The names of the secret rules that find something.
  unfoldable pub secrets_in : List DetectionRule → String → List String
  secrets_in [] content = []
  secrets_in (rule ∷ rules) content =
      let rest = secrets_in rules content in
      if text.search rule.name content then rule.name ∷ rest else rest

  -- The loop over the rules that raise the classification.
  unfoldable pub raised_by : List DetectionRule → String → DataClassification → DataClassification
  raised_by [] content detected = detected
  raised_by (rule ∷ rules) content detected = elim rule.classification [
    | none ↦ raised_by rules content detected
    | some classification ↦ raised_by rules content (
        if text.search rule.name content
        then highest_classification (some detected ∷ some classification ∷ [])
        else detected)
  ]

  -- The loop over the messages.
  unfoldable pub scan_from : List Fields → List String → DataClassification → ContentScanResult
  scan_from [] secrets detected = record {
    detected_secrets = secrets;
    detected_classification = detected;
  }
  scan_from (message ∷ messages) secrets detected =
      let content = text.dumps message in
      scan_from messages (secrets ++ secrets_in secret_detection_rules content)
        (raised_by dlp_rules content detected)

  unfoldable pub scan_messages : List Fields → ContentScanResult
  scan_messages messages = scan_from messages [] public

  -- `[(pattern, re.compile(pattern.regex)) for pattern in rules.mask_patterns]`
  unfoldable pub compile_all :
      List MaskPattern → Option (List (String × (String → String → String)))
  compile_all [] = some []
  compile_all (pattern ∷ patterns) = elim (text.compile pattern.regex) [
    | none ↦ none
    | some sub ↦ elim (compile_all patterns) [
      | none ↦ none
      | some rest ↦ some ((pattern.replacement, sub) ∷ rest)
    ]
  ]

  -- The loop over the compiled patterns.
  abbrev pub rewrite : List (String × (String → String → String)) → String → String
  rewrite [] content = content
  rewrite ((replacement, sub) ∷ compiled) content = rewrite compiled (sub replacement content)

  -- `str(message.get("content", ""))`
  abbrev pub content_of : Fields → String
  content_of message = elim (get_field "content" message) [
    | none ↦ ""
    | some value ↦ text.show value
  ]

  -- The loop over the messages: none while no message has changed.
  unfoldable pub mask_messages :
      List (String × (String → String → String)) → List Fields → Option (List Fields)
  mask_messages compiled [] = none
  mask_messages compiled (message ∷ messages) =
      let content = content_of message in
      let rewritten = rewrite compiled content in
      let rest = mask_messages compiled messages in
      if str_eq rewritten content
      then elim rest [ none ↦ none | some masked ↦ some (message ∷ masked) ]
      else some (
          set_field "content" (str rewritten) message
          ∷ elim rest [ none ↦ messages | some masked ↦ masked ])

  unfoldable pub apply_masks : GovernanceRules → List Fields → Option (Option (List Fields))
  apply_masks rules messages = elim rules.mask_patterns [
    | [] ↦ some none
    | _ ∷ _ ↦ elim (compile_all rules.mask_patterns) [
      | none ↦ none
      | some compiled ↦ some (mask_messages compiled messages)
    ]
  ]

  abbrev decide : DecisionType → DataClassification → Reason → Option GovernanceDecision
  decide decision effective reason = some (record {
    decision = decision;
    effective_classification = effective;
    reason = reason;
    masked_messages = none;
  })

  -- What is left to do for a request within the ceilings.
  unfoldable pub mask_outbound :
      GovernanceRules → List Fields → DataClassification → Option GovernanceDecision
  mask_outbound rules messages effective = elim (apply_masks rules messages) [
    | none ↦ none
    | some none ↦ decide allow effective within_policy
    | some (some masked) ↦ some (record {
      decision = mask;
      effective_classification = effective;
      reason = masks_applied;
      masked_messages = some masked;
    })
  ]

  unfoldable pub evaluate_outbound :
      GovernanceRules → List Fields → DataClassification → Bool → Option GovernanceDecision
  evaluate_outbound rules messages declared private_endpoint =
      let scan = scan_messages messages in
      let effective =
        highest_classification (some declared ∷ some scan.detected_classification ∷ []) in
      if rules.secret_detection_enabled && blocked scan
      then decide deny effective (secret_detected scan.detected_secrets)
      else elim (ceiling_denial rules effective private_endpoint) [
        | some reason ↦ decide deny effective reason
        | none ↦
            if needs_approval_above rules effective
            then decide needs_approval effective exceeds_approval_free
            else mask_outbound rules messages effective
      ]
