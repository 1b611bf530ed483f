-- ===== src/Governance/Tests.antt =====
-- Verdicts of trpc_service/governance.py on two messages, and the theorems at inputs of them. The
-- patterns find exactly their own names, and a mask replaces the text "card".
use trpc_agent_service_douzh.Prelude.{
  ◌≤◌, String, List, [], ◌∷◌, none, some, true, false, ◌&&◌, str_eq, if◌then◌else◌, ◌≡◌, ◌≢◌, refl,
  All,
}
use trpc_agent_service_douzh.Prelude.Json.{Json, Fields, str, end, field, get_field}
use trpc_agent_service_douzh.Governance.Rules.{
  public, internal, confidential, restricted, rank, highest_from, highest_classification,
  GovernanceRules, mask,
}
use trpc_agent_service_douzh.Governance.Outbound.{
  Text, blocked, scan_messages, scan_from, secrets_in, raised_by, compile_all, mask_messages,
  apply_masks, mask_outbound, GovernanceDecision, evaluate_outbound, needs_approval_above,
  masks_applied,
}
use trpc_agent_service_douzh.Governance.Screening.{Screens, scan_messages_lem}
use trpc_agent_service_douzh.Governance.Verdicts.{released_within_policy}

abbrev shown : Json → String
shown (str s) = s
shown _ = "?"

abbrev content : Fields → String
content message = elim (get_field "content" message) [ none ↦ "" | some value ↦ shown value ]

abbrev text : Text
text = record {
  search = λ name found. str_eq name found;
  dumps = content;
  show = shown;
  compile = λ regex. some (λ replacement found. if str_eq found regex then replacement else found);
}

abbrev message : String → Fields
message s = field "content" (str s) end

abbrev messages : List Fields
messages = message "card" ∷ message "mainland-phone-number" ∷ []

abbrev rules : GovernanceRules
rules = record {
  max_outbound_classification = confidential;
  allow_restricted_to_private_endpoints = false;
  require_approval_above = none;
  secret_detection_enabled = true;
  mask_patterns = record { name = "cards"; regex = "card"; replacement = "****" } ∷ [];
}

abbrev verdict : GovernanceDecision
verdict = record {
  decision = mask;
  effective_classification = internal;
  reason = masks_applied;
  masked_messages = some (message "****" ∷ message "mainland-phone-number" ∷ []);
}

program : Unit {0}
unfolding highest_from highest_classification scan_messages scan_from secrets_in raised_by
    compile_all mask_messages apply_masks mask_outbound evaluate_outbound
program = tt

evaluate_outbound-masked : evaluate_outbound text rules messages public false ≡ some verdict
unfolding program
evaluate_outbound-masked = refl

scan_messages_lem_example : All (Screens text (scan_messages text messages)) messages
scan_messages_lem_example = scan_messages_lem text messages

released_within_policy_example :
    (rules.secret_detection_enabled && blocked (scan_messages text messages) ≡ false)
    × (0 ≤ 1)
    × (rank (scan_messages text messages).detected_classification ≤ 1)
    × (internal ≢ restricted → 1 ≤ 2)
    × (internal ≡ restricted → (false ≡ true) × (false ≡ true))
    × (needs_approval_above rules internal ≡ false)
released_within_policy_example =
    released_within_policy text rules messages public false verdict evaluate_outbound-masked refl

abbrev compiled : List (String × (String → String → String))
compiled = ("****", λ replacement found. if str_eq found "card" then replacement else found) ∷ []
