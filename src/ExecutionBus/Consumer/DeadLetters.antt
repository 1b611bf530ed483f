-- ===== src/ExecutionBus/Consumer/DeadLetters.antt =====
-- A record that always fails, in `process_once` of trpc_service/execution_bus.py.
use trpc_agent_service_douzh.Prelude.{ℕ, zero, suc, String, List, [], ◌∷◌}
use trpc_agent_service_douzh.Prelude.Action.{Result}
use trpc_agent_service_douzh.Prelude.Json.{Json}
use trpc_agent_service_douzh.ExecutionBus.Envelope.{ExecutionEnvelope}
use trpc_agent_service_douzh.ExecutionBus.Consumer.{
  TopicPartition, ConsumerRecord, ClientCall, KafkaExecutionConsumer, HandlerEnd, Clients,
  process_once,
}

abbrev pub times : ℕ → ClientCall → List ClientCall
times zero call = []
times (suc n) call = call ∷ times n call

module _ (loads : String → Result String Json) (b64encode : String → String)
    (to_str : Json → String) where
  module _ (handler : ExecutionEnvelope → HandlerEnd) (clients : Clients) where
    module _ (tp : TopicPartition) (r : ConsumerRecord) where
      -- The record is delivered again and again.
      abbrev pub deliver : ℕ → KafkaExecutionConsumer → KafkaExecutionConsumer
      deliver zero c = c
      deliver (suc n) c =
          deliver n (process_once loads b64encode to_str handler clients ((tp, r ∷ []) ∷ []) c).1
