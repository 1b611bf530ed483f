-- ===== src/ExecutionBus/Consumer.antt =====
-- KafkaExecutionConsumer of trpc_service/execution_bus.py: `process_once` with the calls that it makes
-- of the handler and of the Kafka clients, in their order. Whether these return is an argument, and
-- `json.loads`, which answers with the class of its exception, and `base64.b64encode` are parameters;
-- a record's bytes are written as a text.
pub mod DeadLetters
pub mod Commits
use trpc_agent_service_douzh.Prelude.{
  ℕ, suc, ◌+◌, String, List, [], ◌∷◌, ◌++◌, Option, none, some, Bool, true, false, ◌&&◌, leb, ◌==◌,
  str_eq, if◌then◌else◌,
}
use trpc_agent_service_douzh.Prelude.Action.{Result, ok, err}
use trpc_agent_service_douzh.Prelude.Json.{Json, null, bool, num, str, arr, obj}
use trpc_agent_service_douzh.ExecutionBus.Envelope.{
  ExecutionEnvelope, EnvelopeError, record_null, record_not_json, record_not_object, from_dict,
}

pub record TopicPartition : Type 0 where
  pub topic : String
  pub partition : ℕ

pub record ConsumerRecord : Type 0 where
  pub offset : ℕ
  pub value : Option String

-- The payload of `_publish_dead_letter`.
pub record DeadLetter : Type 0 where
  pub source : TopicPartition
  pub source_offset : ℕ
  pub attempts : ℕ
  pub error_type : String
  pub payload_base64 : String

-- The calls that returned, of the handler and of the clients.
pub data ClientCall : Type 0 where
  handled : TopicPartition → (offset : ℕ) → ExecutionEnvelope → ClientCall
  commit : TopicPartition → (offset : ℕ) → ClientCall
  seek : TopicPartition → (offset : ℕ) → ClientCall
  send_dead_letter : DeadLetter → ClientCall

pub record KafkaExecutionConsumer : Type 0 where
  -- Whether a dead-letter producer is configured.
  pub dead_letters : Bool
  pub max_delivery_attempts : ℕ
  -- `_failure_attempts.get(key, 0)`
  pub failure_attempts : TopicPartition → ℕ → ℕ
  pub calls : List ClientCall

-- How a handler ends: it returns, is cancelled, or raises an error with the name of its class.
pub data HandlerEnd : Type 0 where
  returned cancelled : HandlerEnd
  raised : String → HandlerEnd

pub data Processed : Type 0 where
  -- True, False, CancelledError, and any other exception.
  one_processed nothing_received was_cancelled failed : Processed

-- Whether the clients return from a commit and from a dead letter.
pub record Clients : Type 0 where
  pub commits : Bool
  pub sends : Bool

abbrev pub same_partition : TopicPartition → TopicPartition → Bool
same_partition a b = str_eq a.topic b.topic && (a.partition == b.partition)

abbrev pub set_attempts : TopicPartition → ℕ → ℕ → KafkaExecutionConsumer → KafkaExecutionConsumer
set_attempts tp offset attempts c = record c {
  failure_attempts = λ tp' offset'.
      if same_partition tp' tp && (offset' == offset)
      then attempts
      else c.failure_attempts tp' offset';
}

abbrev pub called : ClientCall → KafkaExecutionConsumer → KafkaExecutionConsumer
called call c = record c { calls = c.calls ++ (call ∷ []) }

-- `value or b""`
abbrev pub bytes_of : Option String → String
bytes_of none = ""
bytes_of (some value) = value

abbrev pub letter_of :
    (b64encode : String → String)
    → TopicPartition
    → ConsumerRecord
    → (attempts : ℕ) → (error_type : String) → DeadLetter
letter_of b64encode tp r attempts error_type = record {
  source = tp;
  source_offset = r.offset;
  attempts = attempts;
  error_type = error_type;
  payload_base64 = b64encode (bytes_of r.value);
}

-- A commit, and `_failure_attempts.pop(key, None)` where it returned.
unfoldable pub commit_record :
    Clients → TopicPartition → ℕ → KafkaExecutionConsumer → Processed × KafkaExecutionConsumer
commit_record clients tp offset c =
    if clients.commits
    then (one_processed, set_attempts tp offset 0 (called (commit tp (offset + 1)) c))
    else (failed, c)

-- The `except Exception` of `process_once`.
unfoldable pub handle_failure :
    (b64encode : String → String)
    → Clients
    → TopicPartition
    → ConsumerRecord
    → (error_type : String) → KafkaExecutionConsumer
    → Processed × KafkaExecutionConsumer
handle_failure b64encode clients tp r error_type c =
    let attempts = c.failure_attempts tp r.offset + 1 in
    let counted = set_attempts tp r.offset attempts c in
    if c.dead_letters && leb c.max_delivery_attempts attempts
    then if clients.sends
      then commit_record clients tp r.offset
          (called (send_dead_letter (letter_of b64encode tp r attempts error_type)) counted)
      else (failed, called (seek tp r.offset) counted)
    else (failed, called (seek tp r.offset) counted)

module _ (loads : String → Result String Json) (b64encode : String → String)
    (to_str : Json → String) where
  unfoldable pub decode : Option String → Result EnvelopeError ExecutionEnvelope
  decode none = err record_null
  decode (some value) = elim (loads value) [
    | err error_type ↦ err (record_not_json error_type)
    | ok (obj payload) ↦ from_dict to_str payload
    | ok _ ↦ err record_not_object
  ]

  -- The class of the exception that `_decode` raises.
  abbrev pub class_of : EnvelopeError → String
  class_of (record_not_json error_type) = error_type
  class_of _ = "ValueError"

  module _ (handler : ExecutionEnvelope → HandlerEnd) (clients : Clients) where
    unfoldable pub process_record :
        TopicPartition
        → ConsumerRecord
        → KafkaExecutionConsumer
        → Processed × KafkaExecutionConsumer
    process_record tp r c = elim (decode r.value) [
      | err error ↦ handle_failure b64encode clients tp r (class_of error) c
      | ok e ↦ elim (handler e) [
        | returned ↦ commit_record clients tp r.offset (called (handled tp r.offset e) c)
        | cancelled ↦ (was_cancelled, called (seek tp r.offset) c)
        | raised error_type ↦ handle_failure b64encode clients tp r error_type c
      ]
    ]

    unfoldable pub process_once :
        (batches : List (TopicPartition × List ConsumerRecord))
        → KafkaExecutionConsumer
        → Processed × KafkaExecutionConsumer
    process_once [] c = (nothing_received, c)
    process_once ((tp, []) ∷ batches) c = process_once batches c
    process_once ((tp, r ∷ records) ∷ batches) c = process_record tp r c
