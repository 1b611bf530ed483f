-- ===== src/Policies/Tests.antt =====
-- Two versions of trpc_service/policy_bundles.py, and the theorems at them. The stand-in of the
-- serialization keeps the ceiling of the rules, and that of the HMAC puts the key before the text.
use trpc_agent_service_douzh.Prelude.{
  ◌<◌, ◌≤◌, String, ◌<>◌, char_count, List, [], ◌∷◌, Option, none, some, true, false, str_eq,
  if◌then◌else◌, ◌≡◌, refl, arith,
}
use trpc_agent_service_douzh.Prelude.Action.{ok, err}
use trpc_agent_service_douzh.Prelude.Json.{Json, Fields, str, obj, field, end}
use trpc_agent_service_douzh.Governance.Rules.{
  DataClassification, internal, confidential, GovernanceRules,
}
use trpc_agent_service_douzh.Policies.Signing.{
  value_of, Library, compile_bundle, sign_bundle, verify_bundle, canary_bucket,
}
use trpc_agent_service_douzh.Policies.Bundles.{
  BundleRow, active, canary, draft, unavailable, is_active, next_version, first_of, insert_version,
  create_version, activation, activate, open_row, resolve,
}
use trpc_agent_service_douzh.Policies.Activation.{IsKeyed}
use trpc_agent_service_douzh.Policies.Governing.{activate_governs, canary_shares, canary_of_active}
use trpc_agent_service_douzh.Policies.History.{
  Call, create_call, activate_call, IsPlaced, history, history-IsPlaced,
}

abbrev rules_with : DataClassification → GovernanceRules
rules_with ceiling = record {
  max_outbound_classification = ceiling;
  allow_restricted_to_private_endpoints = false;
  require_approval_above = none;
  secret_detection_enabled = true;
  mask_patterns = [];
}

abbrev validate : Json → Option GovernanceRules
validate (str s) = some (rules_with (if str_eq s "INTERNAL" then internal else confidential))
validate _ = none

abbrev text_of : Json → String
text_of (str s) = s
text_of _ = ""

abbrev first_text : Fields → String
first_text (field key value rest) = text_of value
first_text end = ""

abbrev dumps : Json → String
dumps (obj fields) = first_text fields
dumps _ = ""

abbrev library : Library
library = record {
  model_dump = λ rules. str (value_of rules.max_outbound_classification);
  model_validate = validate;
  dumps = dumps;
  hmac_sha256 = λ key text. key <> text;
  digest_number = char_count;
}

program : Unit {0}
unfolding compile_bundle sign_bundle verify_bundle canary_bucket next_version first_of
    insert_version create_version activation activate open_row resolve
program = tt

abbrev calls : List Call
calls =
    create_call (rules_with internal) "ann"
    ∷ create_call (rules_with confidential) "ann"
    ∷ activate_call 10 1 0
    ∷ []

abbrev stable : BundleRow
stable = record {
  version = 1;
  rules = str "INTERNAL";
  bundle = compile_bundle (rules_with internal) 1;
  signature = "kINTERNAL";
  status = active;
  canary_percentage = 0;
  created_by = "ann";
  activated_at = some 10;
}

abbrev newer : BundleRow
newer = record {
  version = 2;
  rules = str "CONFIDENTIAL";
  bundle = compile_bundle (rules_with confidential) 2;
  signature = "kCONFIDENTIAL";
  status = draft;
  canary_percentage = 0;
  created_by = "ann";
  activated_at = none;
}

history-calls : history library "k" calls [] ≡ stable ∷ newer ∷ []
unfolding program
history-calls = refl

abbrev shared : List BundleRow
shared = (activate library "k" 20 2 30 (stable ∷ newer ∷ [])).1

abbrev replaced : List BundleRow
replaced = (activate library "k" 20 2 0 (stable ∷ newer ∷ [])).1

abbrev broken : List BundleRow
broken = (activate library "k" 20 1 30 (stable ∷ newer ∷ [])).1

activate-shared : activate library "k" 20 2 30 (stable ∷ newer ∷ []) ≡ (
  ok (record newer { status = canary; canary_percentage = 30; activated_at = some 20 }),
  shared,
)
unfolding program
activate-shared = refl

activate-replaced :
    activate library "k" 20 2 0 (stable ∷ newer ∷ [])
    ≡ (ok (record newer { status = active; activated_at = some 20 }), replaced)
unfolding program
activate-replaced = refl

activate-broken : activate library "k" 20 1 30 (stable ∷ newer ∷ []) ≡ (
  ok (record stable { status = canary; canary_percentage = 30; activated_at = some 20 }),
  broken,
)
unfolding program
activate-broken = refl

first_of-stable : first_of is_active (stable ∷ newer ∷ []) ≡ some stable
unfolding first_of
first_of-stable = refl

keyed : IsKeyed (stable ∷ newer ∷ [])
keyed = ((omega arith, tt), (tt, tt))

activate_governs_example :
    (rules : GovernanceRules) × (validate (str "CONFIDENTIAL") ≡ some rules)
    × ((key : String)
        → resolve library "k" key replaced
          ≡ (ok (some (record { version = 2; rules = rules; canary = false })), replaced))
activate_governs_example =
    activate_governs library "k" 20 2 (stable ∷ newer ∷ []) replaced
      (record newer { status = active; activated_at = some 20 }) keyed activate-replaced

canary_shares_example :
    (rules : GovernanceRules) × (validate (str "CONFIDENTIAL") ≡ some rules)
    × ((key : String)
        → canary_bucket library key < 30
        → resolve library "k" key shared
          ≡ (ok (some (record { version = 2; rules = rules; canary = true })), shared))
    × ((key : String)
        → 30 ≤ canary_bucket library key
        → resolve library "k" key shared ≡ open_row library "k" false stable shared)
canary_shares_example =
    canary_shares library "k" 20 2 30 (stable ∷ newer ∷ []) shared
      (record newer { status = canary; canary_percentage = 30; activated_at = some 20 }) newer
      stable keyed (omega arith) refl refl first_of-stable activate-shared

canary_of_active_example : resolve library "k" "session" broken ≡ (err unavailable, broken)
canary_of_active_example =
    canary_of_active library "k" 20 1 30 (stable ∷ newer ∷ []) broken
      (record stable { status = canary; canary_percentage = 30; activated_at = some 20 }) stable
      keyed (omega arith) refl (λ e. refl, (λ e. cc, tt)) activate-broken "session"

history-IsPlaced_example : IsPlaced (history library "k" calls [])
history-IsPlaced_example = history-IsPlaced library "k" calls

abbrev drafts : List BundleRow
drafts = record stable { status = draft; activated_at = none } ∷ newer ∷ []
