-- ===== src/ToolRuntime/Registry.antt =====
-- ToolRegistry and validate_params of trpc_service/tool/registry.py. The properties of a schema are an
-- object or absent, as check_schema_shape has checked at the registration; each property, its type and
-- the required keys are any JSON value.
use trpc_agent_service_douzh.Prelude.{
  ℕ, String, List, [], ◌∷◌, Option, none, some, Bool, true, false, not, ◌&&◌, ◌||◌, leb, ◌==◌,
  str_eq, if◌then◌else◌, is_some, exists, find, ◌≡◌, ◌⊎◌, refl, inl, inr,
}
use trpc_agent_service_douzh.Prelude.Action.{Result, ok, err}
use trpc_agent_service_douzh.Prelude.Json.{
  Json, null, bool, num, str, arr, obj, Items, nil, cons, Fields, end, field, get_field, characters,
  keys,
}
use trpc_agent_service_douzh.Governance.Rules.{DataClassification}
use trpc_agent_service_douzh.Approvals.Store.{ToolSideEffect, read_only, idempotent_write}

pub data ToolSource : Type 0 where
  declared mcp : ToolSource

pub record ToolDefinition : Type 0 where
  pub tenant_id : String
  pub name : String
  pub version : ℕ
  pub description : String
  pub side_effect : ToolSideEffect
  pub input_schema : Fields
  pub output_schema : Fields
  pub scopes : List String
  pub timeout_seconds : ℕ
  pub cost_per_call_micros : ℕ
  pub data_classification : DataClassification
  pub supports_idempotency : Bool
  pub source : ToolSource
  pub mcp_server : Option String

abbrev pub has_key : String → String → ℕ → ToolDefinition → Bool
has_key tenant_id name version d =
    str_eq d.tenant_id tenant_id && str_eq d.name name && d.version == version

-- The first of the newest versions of a tenant's tool.
unfoldable pub latest : String → String → List ToolDefinition → Option ToolDefinition
latest tenant_id name [] = none
latest tenant_id name (d ∷ ds) =
    let rest = latest tenant_id name ds in
    if str_eq d.tenant_id tenant_id && str_eq d.name name
    then elim rest [
      | none ↦ some d
      | some other ↦ some (if leb other.version d.version then d else other)
    ]
    else rest

-- The definitions stand in the order of their registration.
unfoldable pub resolve : List ToolDefinition → String → String → Option ℕ → Option ToolDefinition
resolve definitions tenant_id name none = latest tenant_id name definitions
resolve definitions tenant_id name (some version) =
    find (has_key tenant_id name version) definitions

unfoldable pub has_name : List ToolDefinition → String → Bool
has_name definitions name = exists (λ (d : ToolDefinition). str_eq d.name name) definitions

-- AUTO_EXECUTABLE_SIDE_EFFECTS
abbrev pub is_auto_executable : ToolSideEffect → Bool
is_auto_executable read_only = true
is_auto_executable idempotent_write = true
is_auto_executable _ = false

abbrev pub fields_of : Option Json → Fields
fields_of (some (obj fields)) = fields
fields_of _ = end

-- What validate_params raises: TOOL_PARAMS_INVALID, or an exception of Python's own, a TypeError or an
-- AttributeError, on a schema that has another shape than it reads.
pub data ParamsError : Type 0 where
  params_invalid python_error : ParamsError

abbrev pub Checked : Type 0
Checked = Result ParamsError Unit

abbrev pub all_known : Fields → Fields → Bool
all_known properties end = true
all_known properties (field key value rest) =
    is_some (get_field key properties) && all_known properties rest

-- `key not in params`, for a key of any type: a list or an object is not hashable.
abbrev pub has_key_of : Json → Fields → Checked
has_key_of (str key) params = if is_some (get_field key params) then ok tt else err params_invalid
has_key_of (arr items) params = err python_error
has_key_of (obj fields) params = err python_error
has_key_of _ params = err params_invalid

abbrev pub has_items : Items → Fields → Checked
has_items nil params = ok tt
has_items (cons key rest) params = elim (has_key_of key params) [
  | ok checked ↦ has_items rest params
  | err error ↦ err error
]

-- `for key in schema.get("required", [])`
abbrev pub has_required : Option Json → Fields → Checked
has_required none params = ok tt
has_required (some (arr items)) params = has_items items params
has_required (some (obj fields)) params = has_items (keys fields) params
has_required (some (str text)) params = has_items (characters text) params
has_required (some _) params = err python_error

-- `_JSON_TYPES`, with `object` for another name.
abbrev pub is_instance : String → Json → Bool
is_instance expected (str s) = not (
    str_eq expected "number"
    || str_eq expected "integer"
    || str_eq expected "boolean"
    || str_eq expected "array"
    || str_eq expected "object")
is_instance expected (bool b) = str_eq expected "boolean"
is_instance expected (num n) = not (
    str_eq expected "string"
    || str_eq expected "boolean"
    || str_eq expected "array"
    || str_eq expected "object")
is_instance expected (arr items) = not (
    str_eq expected "string"
    || str_eq expected "number"
    || str_eq expected "integer"
    || str_eq expected "boolean"
    || str_eq expected "object")
is_instance expected (obj fields) = not (
    str_eq expected "string"
    || str_eq expected "number"
    || str_eq expected "integer"
    || str_eq expected "boolean"
    || str_eq expected "array")
is_instance expected null = not (
    str_eq expected "string"
    || str_eq expected "number"
    || str_eq expected "integer"
    || str_eq expected "boolean"
    || str_eq expected "array"
    || str_eq expected "object")

abbrev pub check : Bool → Checked
check true = ok tt
check false = err params_invalid

-- The value against the `type` of its property. Only a Boolean is looked at before the type is looked
-- up in `_JSON_TYPES`, where a list or an object is not hashable.
abbrev pub fits_type : Option Json → Json → Checked
fits_type none value = ok tt
fits_type (some null) value = ok tt
fits_type (some (str expected)) value = check (is_instance expected value)
fits_type (some _) (bool b) = err params_invalid
fits_type (some (arr items)) value = err python_error
fits_type (some (obj fields)) value = err python_error
fits_type (some _) value = ok tt

-- `properties.get(key, {}).get("type")`: only an object has a `get`.
abbrev pub fits_property : Option Json → Json → Checked
fits_property none value = ok tt
fits_property (some (obj property)) value = fits_type (get_field "type" property) value
fits_property (some _) value = err python_error

abbrev pub all_fit : Fields → Fields → Checked
all_fit properties end = ok tt
all_fit properties (field key value rest) = elim (fits_property (get_field key properties) value) [
  | ok checked ↦ all_fit properties rest
  | err error ↦ err error
]

unfoldable pub validate_params : ToolDefinition → Fields → Result ParamsError Fields
validate_params d params =
    let properties = fields_of (get_field "properties" d.input_schema) in
    if all_known properties params
    then elim (has_required (get_field "required" d.input_schema) params) [
      | err error ↦ err error
      | ok checked ↦ elim (all_fit properties params) [
        | err error ↦ err error
        | ok checked ↦ ok params
      ]
    ]
    else err params_invalid

pub checked_cases :
    (c : Result ParamsError Fields)
    → (c ≡ err params_invalid) ⊎ (c ≡ err python_error) ⊎ ((params : Fields) × (c ≡ ok params))
checked_cases (err params_invalid) = inl refl
checked_cases (err python_error) = inr (inl refl)
checked_cases (ok params) = inr (inr (params, refl))
