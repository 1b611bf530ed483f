-- ===== src/Policies/Signing.antt =====
-- compile_bundle, sign_bundle, verify_bundle and canary_bucket of trpc_service/governance.py. HMAC,
-- SHA-256, `json.dumps` with sorted keys and pydantic are parameters.
use trpc_agent_service_douzh.Prelude.{
  ℕ, ◌%◌, String, List, [], ◌∷◌, Option, none, some, Bool, str_eq,
}
use trpc_agent_service_douzh.Prelude.Int.{pos}
use trpc_agent_service_douzh.Prelude.Json.{
  Json, null, bool, num, str, arr, obj, Items, nil, cons, end, field,
}
use trpc_agent_service_douzh.Governance.Rules.{
  DataClassification, public, internal, confidential, restricted, MaskPattern, GovernanceRules,
}

abbrev pub value_of : DataClassification → String
value_of public = "PUBLIC"
value_of internal = "INTERNAL"
value_of confidential = "CONFIDENTIAL"
value_of restricted = "RESTRICTED"

-- `pattern.model_dump()`
abbrev pattern_json : MaskPattern → Json
pattern_json pattern = obj (
    field "name" (str pattern.name)
      (field "regex" (str pattern.regex) (field "replacement" (str pattern.replacement) end)))

abbrev patterns_json : List MaskPattern → Items
patterns_json [] = nil
patterns_json (pattern ∷ patterns) = cons (pattern_json pattern) (patterns_json patterns)

abbrev approval_json : Option DataClassification → Json
approval_json none = null
approval_json (some c) = str (value_of c)

unfoldable pub compile_bundle : GovernanceRules → ℕ → Json
compile_bundle rules version =
    let governance =
      field "max_outbound_classification" (str (value_of rules.max_outbound_classification)) (
        field "allow_restricted_to_private_endpoints"
          (bool rules.allow_restricted_to_private_endpoints)
          (field "require_approval_above" (approval_json rules.require_approval_above) (
            field "secret_detection_enabled" (bool rules.secret_detection_enabled)
              (field "mask_patterns" (arr (patterns_json rules.mask_patterns)) end)))) in
    obj (field "version" (num (pos version)) (field "governance" (obj governance) end))

pub record Library : Type 0 where
  -- `rules.model_dump(mode="json")`, and `GovernanceRules.model_validate` where it does not raise.
  pub model_dump : GovernanceRules → Json
  pub model_validate : Json → Option GovernanceRules
  pub dumps : Json → String
  -- `hmac.new(key, message, sha256).hexdigest()`
  pub hmac_sha256 : String → String → String
  -- The first eight bytes of a SHA-256, a number in big endian.
  pub digest_number : String → ℕ

module _ (library : Library) where
  unfoldable pub sign_bundle : GovernanceRules → ℕ → String → String
  sign_bundle rules version signing_key = library.hmac_sha256 signing_key (
      library.dumps (
        obj (
          field "rules" (library.model_dump rules) (
            field "version" (num (pos version))
              (field "bundle" (compile_bundle rules version) end)))))

  unfoldable pub verify_bundle : GovernanceRules → ℕ → String → String → Bool
  verify_bundle rules version signature signing_key =
      str_eq (sign_bundle rules version signing_key) signature

  unfoldable pub canary_bucket : String → ℕ
  canary_bucket decision_key = library.digest_number decision_key % 100
