-- ===== src/ExecutionBus/Envelope.antt =====
-- ExecutionEnvelope of trpc_service/execution_bus.py and its CloudEvents form. `str` on a JSON value
-- that is not a text is a parameter, as is SHA-256.
pub mod Roundtrip
use trpc_agent_service_douzh.Prelude.{
  ℕ, ◌%◌, max, String, ◌<>◌, List, [], ◌∷◌, Option, none, some, Bool, true, false, not, ◌&&◌, ◌==◌,
  str_eq, if◌then◌else◌, is_some, exists, select,
}
use trpc_agent_service_douzh.Prelude.Action.{Result, ok, err}
use trpc_agent_service_douzh.Prelude.Json.{
  Json, null, bool, num, str, arr, obj, Fields, end, field, get_field,
}

pub record ExecutionEnvelope : Type 0 where
  pub message_id : String
  pub source : String
  pub event_type : String
  pub partition_key : String
  pub time : String
  pub tenant_id : String
  pub data_schema : String
  pub «data» : Fields
  pub causation_id : Option String
  pub correlation_id : Option String
  pub data_classification : Option String
  pub trace_parent : Option String

-- The ValueErrors of `from_dict`, of a decoded record and of a partition count.
pub data EnvelopeError : Type 0 where
  specversion_unsupported : EnvelopeError
  fields_missing : List String → EnvelopeError
  data_not_object record_null record_not_object : EnvelopeError
  -- With the class of the exception that `json.loads` raises.
  record_not_json : (error_type : String) → EnvelopeError

abbrev pub optional : String → Option String → Fields → Fields
optional key none rest = rest
optional key (some value) rest = field key (str value) rest

unfoldable pub to_dict : ExecutionEnvelope → Fields
to_dict e = field "specversion" (str "1.0") (
    field "id" (str e.message_id) (
      field "source" (str e.source) (
        field "type" (str e.event_type) (
          field "time" (str e.time) (
            field "partitionkey" (str e.partition_key) (
              field "tenantid" (str e.tenant_id) (
                field "dataschema" (str e.data_schema) (
                  field "datacontenttype" (str "application/json") (
                    field "data" (obj e.«data») (
                      optional "causationid" e.causation_id (
                        optional "correlationid" e.correlation_id (
                          optional "dataclassification" e.data_classification
                            (optional "traceparent" e.trace_parent end)))))))))))))

abbrev pub required_envelope_fields : List String
required_envelope_fields =
    "id" ∷ "source" ∷ "type" ∷ "time" ∷ "partitionkey" ∷ "tenantid" ∷ "dataschema" ∷ "data" ∷ []

unfoldable pub missing_fields : Fields → List String
missing_fields payload =
    select (λ (key : String). not (is_some (get_field key payload))) required_envelope_fields

abbrev pub is_supported : Option Json → Bool
is_supported (some (str version)) = str_eq version "1.0"
is_supported _ = false

module _ (to_str : Json → String) where
  -- `str(value)`
  abbrev pub text_of : Json → String
  text_of (str s) = s
  text_of value = to_str value

  -- `str(payload[key])`, of a key that is there.
  abbrev pub required_str : String → Fields → String
  required_str key payload = elim (get_field key payload) [ none ↦ "" | some value ↦ text_of value ]

  abbrev pub not_null : Json → Option String
  not_null null = none
  not_null value = some (text_of value)

  unfoldable pub optional_str : String → Fields → Option String
  optional_str key payload = elim (get_field key payload) [
    | none ↦ none
    | some value ↦ not_null value
  ]

  unfoldable pub envelope_of : Fields → Fields → ExecutionEnvelope
  envelope_of payload body = record {
    message_id = required_str "id" payload;
    source = required_str "source" payload;
    event_type = required_str "type" payload;
    partition_key = required_str "partitionkey" payload;
    time = required_str "time" payload;
    tenant_id = required_str "tenantid" payload;
    data_schema = required_str "dataschema" payload;
    «data» = body;
    causation_id = optional_str "causationid" payload;
    correlation_id = optional_str "correlationid" payload;
    data_classification = optional_str "dataclassification" payload;
    trace_parent = optional_str "traceparent" payload;
  }

  unfoldable pub from_dict : Fields → Result EnvelopeError ExecutionEnvelope
  from_dict payload =
      if is_supported (get_field "specversion" payload)
      then elim (missing_fields payload) [
        | key ∷ keys ↦ err (fields_missing (key ∷ keys))
        | [] ↦ elim (get_field "data" payload) [
          | some (obj body) ↦ ok (envelope_of payload body)
          | _ ↦ err data_not_object
        ]
      ]
      else err specversion_unsupported

abbrev pub route_of : Option Json → Option Json → String → String
route_of (some (str tenant_id)) (some (str session_id)) key = (tenant_id <> "\u{1f}") <> session_id
route_of _ _ key = key

-- What `partition_of` hashes.
unfoldable pub route : ExecutionEnvelope → String
route e =
    route_of (get_field "tenant_id" e.«data») (get_field "session_id" e.«data») e.partition_key

-- `_stable_bucket`, for a count that is not negative; the digest is the first eight bytes of SHA-256.
unfoldable pub stable_bucket : (digest_number : String → ℕ) → String → ℕ → ℕ
stable_bucket digest_number key partition_count = digest_number key % max partition_count 1

unfoldable pub partition_of : (digest_number : String → ℕ) → ExecutionEnvelope → ℕ → ℕ
partition_of digest_number e partition_count = stable_bucket digest_number (route e) partition_count
