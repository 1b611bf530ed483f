-- ===== src/ExecutionBus/Envelope/Roundtrip.antt =====
-- The CloudEvents form of an envelope is read back.
use trpc_agent_service_douzh.Prelude.{
  String, [], Option, none, some, false, str_eq, str_eq_refl, ◌≡◌, refl, ◌∙◌, arith,
}
use trpc_agent_service_douzh.Prelude.Action.{ok}
use trpc_agent_service_douzh.Prelude.Json.{Json, str, obj, Fields, end, get_field}
use trpc_agent_service_douzh.ExecutionBus.Envelope.{
  ExecutionEnvelope, optional, to_dict, missing_fields, optional_str, envelope_of, from_dict,
}

optional-other :
    (key other : String) (value : Option String) (rest : Fields)
    → str_eq other key ≡ false
    → get_field key (optional other value rest) ≡ get_field key rest
optional-other key other none rest h = refl
optional-other key other (some value) rest h = ground (arith, h)

module _ (to_str : Json → String) where
  optional-own :
      (key : String) (value : Option String) (rest payload : Fields)
      → get_field key rest ≡ none
      → get_field key payload ≡ get_field key (optional key value rest)
      → optional_str to_str key payload ≡ value
  unfolding optional_str
  optional-own key none rest payload h same = ground (arith, h, same)
  optional-own key (some value) rest payload h same = ground (arith, same, str_eq_refl key)

  -- What the lookups of an envelope's form answer.
  read_optionals :
      (e : ExecutionEnvelope) (payload : Fields)
      → ((key : String) → get_field key payload ≡ get_field key (to_dict e))
      → (optional_str to_str "causationid" payload ≡ e.causation_id)
        × (optional_str to_str "correlationid" payload ≡ e.correlation_id)
        × (optional_str to_str "dataclassification" payload ≡ e.data_classification)
        × (optional_str to_str "traceparent" payload ≡ e.trace_parent)
  unfolding to_dict
  read_optionals e payload same =
      let d4 = optional "traceparent" e.trace_parent end in
      let d3 = optional "dataclassification" e.data_classification d4 in
      let d2 = optional "correlationid" e.correlation_id d3 in
      let no_correlation : get_field "correlationid" d3 ≡ none =
        optional-other "correlationid" "dataclassification" e.data_classification d4 refl
        ∙ optional-other "correlationid" "traceparent" e.trace_parent end refl in
      let no_causation : get_field "causationid" d2 ≡ none =
        optional-other "causationid" "correlationid" e.correlation_id d3 refl
        ∙ (optional-other "causationid" "dataclassification" e.data_classification d4 refl
            ∙ optional-other "causationid" "traceparent" e.trace_parent end refl) in
      (
        optional-own "causationid" e.causation_id d2 payload no_causation (same "causationid"),
        optional-own "correlationid" e.correlation_id d3 payload no_correlation (
            same "correlationid"
            ∙ optional-other "correlationid" "causationid" e.causation_id d2 refl),
        optional-own "dataclassification" e.data_classification d4 payload
            (optional-other "dataclassification" "traceparent" e.trace_parent end refl)
            (same "dataclassification"
              ∙ (optional-other "dataclassification" "causationid" e.causation_id d2 refl
                  ∙ optional-other "dataclassification" "correlationid" e.correlation_id d3 refl)),
        optional-own "traceparent" e.trace_parent end payload refl (
            same "traceparent"
            ∙ (optional-other "traceparent" "causationid" e.causation_id d2 refl
                ∙ (optional-other "traceparent" "correlationid" e.correlation_id d3 refl
                    ∙ optional-other "traceparent" "dataclassification" e.data_classification d4
                        refl))),
      )

  -- An envelope's CloudEvents form, with the keys in any order, is read back as the envelope.
  pub from_dict-to_dict :
      (e : ExecutionEnvelope) (payload : Fields)
      → ((key : String) → get_field key payload ≡ get_field key (to_dict e))
      → from_dict to_str payload ≡ ok e
  unfolding to_dict from_dict missing_fields envelope_of
  from_dict-to_dict e payload same =
      let (causation, correlation, classification, trace) = read_optionals e payload same in
      let version : get_field "specversion" payload ≡ some (str "1.0") = same "specversion" in
      let id : get_field "id" payload ≡ some (str e.message_id) = same "id" in
      let source : get_field "source" payload ≡ some (str e.source) = same "source" in
      let type : get_field "type" payload ≡ some (str e.event_type) = same "type" in
      let time : get_field "time" payload ≡ some (str e.time) = same "time" in
      let key : get_field "partitionkey" payload ≡ some (str e.partition_key) =
        same "partitionkey" in
      let tenant : get_field "tenantid" payload ≡ some (str e.tenant_id) = same "tenantid" in
      let schema : get_field "dataschema" payload ≡ some (str e.data_schema) = same "dataschema" in
      let body : get_field "data" payload ≡ some (obj e.«data») = same "data" in
      let read : envelope_of to_str payload e.«data» ≡ e = ground (
        arith, id, source, type, time, key, tenant, schema, causation, correlation, classification,
        trace,
      ) in
      let whole : missing_fields payload ≡ [] =
        ground (arith, id, source, type, time, key, tenant, schema, body) in
      ground (arith, version, whole, body, read)
