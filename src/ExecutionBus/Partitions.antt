-- ===== src/ExecutionBus/Partitions.antt =====
-- InMemoryExecutionBus of trpc_service/execution_bus.py. A consumer is a function that answers whether
-- it returned, with a state of its own; it does not publish to the bus that it is called from.
pub mod Order
pub mod Sequence
pub mod Drains
use trpc_agent_service_douzh.Prelude.{
  ℕ, zero, suc, ◌+◌, max, String, List, [], ◌∷◌, ◌++◌, Option, none, some, Bool, true, false,
  str_eq, if◌then◌else◌, length, select,
}
use trpc_agent_service_douzh.ExecutionBus.Envelope.{ExecutionEnvelope, partition_of}

pub record InMemoryExecutionBus : Type 0 where
  pub partitions : List (List ExecutionEnvelope)
  pub deliveries : String → ℕ
  pub published : List ExecutionEnvelope

abbrev pub empty_partitions : ℕ → List (List ExecutionEnvelope)
empty_partitions zero = []
empty_partitions (suc n) = [] ∷ empty_partitions n

-- `__init__`
unfoldable pub new_bus : (partition_count : ℕ) → InMemoryExecutionBus
new_bus partition_count = record {
  partitions = empty_partitions (max partition_count 1);
  deliveries = λ message_id. 0;
  published = [];
}

-- `partitions[index].append(envelope)`, for an index in range.
unfoldable pub append_at :
    ℕ → ExecutionEnvelope → List (List ExecutionEnvelope) → List (List ExecutionEnvelope)
append_at index e [] = []
append_at zero e (p ∷ ps) = (p ++ (e ∷ [])) ∷ ps
append_at (suc index) e (p ∷ ps) = p ∷ append_at index e ps

unfoldable pub publish :
    (digest_number : String → ℕ) → ExecutionEnvelope → InMemoryExecutionBus → InMemoryExecutionBus
publish digest_number e bus = record bus {
  published = bus.published ++ (e ∷ []);
  partitions = append_at (partition_of digest_number e (length bus.partitions)) e bus.partitions;
}

abbrev pub count_all : List (List ExecutionEnvelope) → ℕ
count_all [] = 0
count_all (p ∷ ps) = length p + count_all ps

unfoldable pub pending_count : InMemoryExecutionBus → ℕ
pending_count bus = count_all bus.partitions

-- The head of the first partition that is not empty, and the partitions without it.
unfoldable pub next_envelope : List (List ExecutionEnvelope) → Option ExecutionEnvelope
next_envelope [] = none
next_envelope ([] ∷ ps) = next_envelope ps
next_envelope ((e ∷ p) ∷ ps) = some e

unfoldable pub drop_next : List (List ExecutionEnvelope) → List (List ExecutionEnvelope)
drop_next [] = []
drop_next ([] ∷ ps) = [] ∷ drop_next ps
drop_next ((e ∷ p) ∷ ps) = p ∷ ps

abbrev pub count_delivery : ExecutionEnvelope → InMemoryExecutionBus → InMemoryExecutionBus
count_delivery e bus = record bus {
  deliveries = λ message_id.
      if str_eq message_id e.message_id
      then bus.deliveries message_id + 1
      else bus.deliveries message_id;
}

abbrev pub ExecutionConsumer : Type 0 → Type 0
ExecutionConsumer S = ExecutionEnvelope → S → Bool × S

module _ {S : Type 0} (consumer : ExecutionConsumer S) where
  abbrev pub acknowledge : Bool → InMemoryExecutionBus → InMemoryExecutionBus
  acknowledge true bus = record bus { partitions = drop_next bus.partitions }
  acknowledge false bus = bus

  unfoldable pub deliver_once : InMemoryExecutionBus → S → Bool × InMemoryExecutionBus × S
  deliver_once bus s = elim (next_envelope bus.partitions) [
    | none ↦ (false, bus, s)
    | some e ↦
        let (returned, s') = consumer e s in
        (returned, acknowledge returned (count_delivery e bus), s')
  ]

  -- The number of the envelopes delivered; none where the fuel runs out.
  unfoldable pub drain :
      (fuel : ℕ) → InMemoryExecutionBus → S → Option (ℕ × InMemoryExecutionBus × S)
  drain zero bus s = none
  drain (suc fuel) bus s =
      let (more, bus', s') = deliver_once bus s in
      let rest = drain fuel bus' s' in
      if more
      then elim rest [
        | none ↦ none
        | some (delivered, bus'', s'') ↦ some (delivered + 1, bus'', s'')
      ]
      else some (0, bus', s')
