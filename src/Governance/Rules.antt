-- ===== src/Governance/Rules.antt =====
-- The classifications and the rules of trpc_service/governance.py. A detection rule stands for its
-- compiled pattern by its name.
use trpc_agent_service_douzh.Prelude.{
  ℕ, String, List, [], ◌∷◌, Option, none, some, Bool, leb, if◌then◌else◌,
}

pub data DataClassification : Type 0 where
  public internal confidential restricted : DataClassification

-- `CLASSIFICATION_ORDER.index`
abbrev pub rank : DataClassification → ℕ
rank public = 0
rank internal = 1
rank confidential = 2
rank restricted = 3

-- The loop of `highest_classification`: `highest` is the highest one so far.
unfoldable pub highest_from :
    DataClassification → List (Option DataClassification) → DataClassification
highest_from highest [] = highest
highest_from highest (none ∷ candidates) = highest_from highest candidates
highest_from highest (some value ∷ candidates) =
    highest_from (if leb (rank value) (rank highest) then highest else value) candidates

unfoldable pub highest_classification : List (Option DataClassification) → DataClassification
highest_classification = highest_from public

pub record DetectionRule : Type 0 where
  pub name : String
  pub classification : Option DataClassification

abbrev secret_rule : String → DetectionRule
secret_rule name = record { name = name; classification = none }

abbrev pub secret_detection_rules : List DetectionRule
secret_detection_rules =
    secret_rule "private-key-block"
    ∷ secret_rule "aws-access-key"
    ∷ secret_rule "assigned-api-key"
    ∷ secret_rule "credential-assignment"
    ∷ []

abbrev pub dlp_rules : List DetectionRule
dlp_rules =
    record { name = "mainland-id-number"; classification = some confidential }
    ∷ record { name = "payment-card-number"; classification = some confidential }
    ∷ record { name = "mainland-phone-number"; classification = some internal }
    ∷ []

pub record MaskPattern : Type 0 where
  pub name : String
  pub regex : String
  pub replacement : String

pub record GovernanceRules : Type 0 where
  pub max_outbound_classification : DataClassification
  pub allow_restricted_to_private_endpoints : Bool
  pub require_approval_above : Option DataClassification
  pub secret_detection_enabled : Bool
  pub mask_patterns : List MaskPattern

pub data DecisionType : Type 0 where
  allow deny mask needs_approval : DecisionType
