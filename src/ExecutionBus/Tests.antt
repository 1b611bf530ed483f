-- ===== src/ExecutionBus/Tests.antt =====
-- Runs of the execution bus (trpc_service/execution_bus.py), and its theorems at them.
use trpc_agent_service_douzh.Prelude.{
  ◌<>◌, ℕ, suc, ◌+◌, ◌≤◌, min, String, char_count, List, [], ◌∷◌, ◌++◌, Option, none, some, true,
  false, not, ◌==◌, str_eq, select, ◌≡◌, ◌⊎◌, refl, arith,
}
use trpc_agent_service_douzh.Prelude.Action.{Result, ok, err}
use trpc_agent_service_douzh.Prelude.Json.{Json, str, obj, Fields, end, field}
use trpc_agent_service_douzh.ExecutionBus.Envelope.{
  ExecutionEnvelope, fields_missing, to_dict, missing_fields, optional_str, envelope_of, from_dict,
  route, stable_bucket, partition_of,
}
use trpc_agent_service_douzh.ExecutionBus.Envelope.Roundtrip.{from_dict-to_dict}
use trpc_agent_service_douzh.ExecutionBus.Partitions.{
  InMemoryExecutionBus, new_bus, append_at, publish, pending_count, next_envelope, drop_next,
  ExecutionConsumer, deliver_once, drain,
}
use trpc_agent_service_douzh.ExecutionBus.Partitions.Order.{all_pending, is_routed}
use trpc_agent_service_douzh.ExecutionBus.Partitions.Drains.{drain_lem}
use trpc_agent_service_douzh.ExecutionBus.Partitions.Sequence.{
  BusCall, publish_call, deliver_call, run, delivered_in_order,
}
use trpc_agent_service_douzh.ExecutionBus.Consumer.{
  TopicPartition, ConsumerRecord, handled, commit, seek, KafkaExecutionConsumer, HandlerEnd,
  returned, Clients, commit_record, handle_failure, decode, process_record, process_once,
}
use trpc_agent_service_douzh.ExecutionBus.Consumer.Commits.{
  IsCovered, Round, consume, consume-IsCovered,
}
use trpc_agent_service_douzh.ExecutionBus.Dispatcher.{
  OutboxRecord, pending_status, Outbox, insert_row, in_order, limit_to, next_batch, envelope_for,
  publish_rows, dispatch_pending,
}
use trpc_agent_service_douzh.ExecutionBus.Dispatcher.Batches.{IsKeyed}
use trpc_agent_service_douzh.ExecutionBus.Dispatcher.Marks.{waiting, sends_of, carries}
use trpc_agent_service_douzh.ExecutionBus.Dispatcher.Delivery.{
  Dispatch, dispatch_all, sent_at_least_once, dispatch_sends_batch,
}

program : Unit {0}
unfolding stable_bucket partition_of route new_bus append_at publish pending_count next_envelope
    drop_next deliver_once drain commit_record handle_failure decode process_record process_once
    from_dict missing_fields envelope_of optional_str to_dict insert_row in_order limit_to
    next_batch envelope_for publish_rows dispatch_pending
program = tt

abbrev envelope : String → String → Fields → ExecutionEnvelope
envelope message_id key body = record {
  message_id = message_id;
  source = "trpc-agent-platform://agent-gateway";
  event_type = "platform.agent-execution.requested.v1";
  partition_key = key;
  time = "2026-01-01T00:00:00+00:00";
  tenant_id = "t";
  data_schema = "requested.schema.json";
  «data» = body;
  causation_id = none;
  correlation_id = some "c";
  data_classification = none;
  trace_parent = some "00-1";
}

abbrev first : ExecutionEnvelope
first = envelope "m1" "a" end

abbrev second : ExecutionEnvelope
second = envelope "m2" "b" (field "tenant_id" (str "t") (field "session_id" (str "ss") end))

abbrev third : ExecutionEnvelope
third = envelope "m3" "a" end

abbrev no_text : Json → String
no_text value = "None"

from_dict_incomplete :
    from_dict no_text (field "specversion" (str "1.0") (field "id" (str "m") end))
    ≡ err (
        fields_missing
          ("source" ∷ "type" ∷ "time" ∷ "partitionkey" ∷ "tenantid" ∷ "dataschema" ∷ "data" ∷ []))
unfolding program
from_dict_incomplete = refl

from_dict-to_dict_example : from_dict no_text (to_dict first) ≡ ok first
from_dict-to_dict_example = from_dict-to_dict no_text first (to_dict first) (λ key. refl)

-- Partitions by the length of a route.
abbrev filled : InMemoryExecutionBus
filled = publish char_count third (publish char_count second (publish char_count first (new_bus 2)))

-- A consumer that counts, and fails on one message.
abbrev fails_on : String → ExecutionConsumer ℕ
fails_on message_id e n = (not (str_eq e.message_id message_id), n + 1)

abbrev counts : Option (ℕ × InMemoryExecutionBus × ℕ) → Option (ℕ × ℕ × ℕ)
counts none = none
counts (some (delivered, bus, calls)) = some (delivered, pending_count bus, calls)

drain_until_failure : counts (drain (fails_on "m3") 4 filled 0) ≡ some (2, 1, 3)
unfolding program
drain_until_failure = refl

drain_lem_example :
    (delivered : ℕ) × (bus' : InMemoryExecutionBus) × (s' : ℕ) × (drain
        (fails_on "m3")
        (suc (pending_count filled))
        filled
        0
      ≡ some (delivered, bus', s'))
    × (delivered + pending_count bus' ≡ pending_count filled)
    × ((pending_count bus' ≡ 0)
        ⊎ ((e : ExecutionEnvelope) × (before : ℕ) × (next_envelope bus'.partitions ≡ some e)
            × (fails_on "m3" e before ≡ (false, s'))))
drain_lem_example = drain_lem (fails_on "m3") filled 0

abbrev bus_calls : List BusCall
bus_calls =
    publish_call first
    ∷ publish_call second
    ∷ deliver_call true
    ∷ publish_call third
    ∷ deliver_call false
    ∷ deliver_call true
    ∷ []

delivered_in_order_example :
    let (bus, done) = run char_count bus_calls (new_bus 2, []) in
    select (is_routed "a") done ++ select (is_routed "a") (all_pending bus.partitions)
    ≡ select (is_routed "a") bus.published
delivered_in_order_example = delivered_in_order char_count 2 bus_calls "a"

in_order_of_route :
    let (bus, done) = run char_count bus_calls (new_bus 2, []) in
    (select (is_routed "a") done ≡ first ∷ []) × (all_pending bus.partitions ≡ third ∷ [])
unfolding program
in_order_of_route = (refl, refl)

abbrev at : TopicPartition
at = record { topic = "requests"; partition = 3 }

abbrev broken : ConsumerRecord
broken = record { offset = 7; value = some "{" }

abbrev well_formed : ConsumerRecord
well_formed = record { offset = 8; value = some "{...}" }

abbrev loads : String → Result String Json
loads text = elim (str_eq text "{...}") [
  | true ↦ ok (obj (to_dict first))
  | false ↦ err "JSONDecodeError"
]

abbrev encode : String → String
encode text = text <> "="

abbrev returns : ExecutionEnvelope → HandlerEnd
returns e = returned

abbrev reliable : Clients
reliable = record { commits = true; sends = true }

abbrev consumer : KafkaExecutionConsumer
consumer = record {
  dead_letters = true;
  max_delivery_attempts = 3;
  failure_attempts = λ tp offset. 0;
  calls = [];
}

abbrev rounds : List (Round loads encode no_text)
rounds =
    record { handler = returns; clients = reliable; batches = (at, broken ∷ []) ∷ [] }
    ∷ record {
      handler = returns;
      clients = reliable;
      batches = (at, []) ∷ (at, well_formed ∷ []) ∷ [];
    }
    ∷ []

consumed_calls :
    (consume loads encode no_text rounds consumer).calls
    ≡ seek at 7 ∷ handled at 8 first ∷ commit at 9 ∷ []
unfolding program
consumed_calls = refl

consume-IsCovered_example : IsCovered none (consume loads encode no_text rounds consumer).calls
consume-IsCovered_example = consume-IsCovered loads encode no_text rounds consumer refl

abbrev waiting_record : ℕ → ℕ → String → OutboxRecord
waiting_record id created_at message_id = record {
  id = id;
  tenant_id = "t";
  message_id = message_id;
  source = "s";
  event_type = "e";
  partition_key = "a";
  causation_id = none;
  correlation_id = none;
  data_classification = none;
  payload = end;
  status = pending_status;
  attempts = 0;
  created_at = created_at;
  published_at = none;
}

abbrev outbox : Outbox
outbox = record {
  table = waiting_record 1 30 "m3" ∷ waiting_record 2 10 "m1" ∷ waiting_record 3 20 "m2" ∷ [];
  sent = [];
}

outbox-IsKeyed : IsKeyed outbox.table
outbox-IsKeyed =
    ((λ e. omega (arith, e), (λ e. omega (arith, e), tt)), ((λ e. omega (arith, e), tt), (tt, tt)))

abbrev clock : ℕ → String
clock now = "2026"

abbrev messages : List ExecutionEnvelope → List String
messages [] = []
messages (e ∷ es) = e.message_id ∷ messages es

oldest_first :
    let (counted, o) = dispatch_pending clock 40 (λ e. true) (λ row. false) 2 outbox in
    (counted ≡ ok 2) × (messages o.sent ≡ "m1" ∷ "m2" ∷ []) × (waiting (λ row. true) o.table ≡ 1)
unfolding program
oldest_first = (refl, refl, refl)

abbrev dispatches : List Dispatch
dispatches =
    record {
      now = 40;
      batch_size = 3;
      accepts = λ e. not (str_eq e.message_id "m2");
      locked = λ row. false;
    }
    ∷ record { now = 50; batch_size = 3; accepts = λ e. true; locked = λ row. row.id == 3 }
    ∷ []

sent_at_least_once_example :
    sends_of "m1" outbox.sent + waiting (carries "m1") outbox.table
    ≤ sends_of "m1" (dispatch_all clock dispatches outbox).sent
      + waiting (carries "m1") (dispatch_all clock dispatches outbox).table
sent_at_least_once_example = sent_at_least_once clock dispatches outbox "m1" outbox-IsKeyed

sent_again : messages (dispatch_all clock dispatches outbox).sent ≡ "m1" ∷ "m1" ∷ "m3" ∷ []
unfolding program
sent_again = refl

dispatch_sends_batch_example :
    let (counted, o') = dispatch_pending clock 40 (λ e. true) (λ row. false) 2 outbox in
    (counted ≡ ok (min 2 (waiting (λ row. true) outbox.table)))
    × (waiting (λ row. true) o'.table + min 2 (waiting (λ row. true) outbox.table)
        ≡ waiting (λ row. true) outbox.table)
    × ((m : String)
        → sends_of m o'.sent + waiting (carries m) o'.table
          ≡ sends_of m outbox.sent + waiting (carries m) outbox.table)
dispatch_sends_batch_example = dispatch_sends_batch clock 40 2 outbox outbox-IsKeyed
