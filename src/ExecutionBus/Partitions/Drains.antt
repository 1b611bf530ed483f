-- ===== src/ExecutionBus/Partitions/Drains.antt =====
-- How a drain of the in-memory bus of trpc_service/execution_bus.py ends.
use trpc_agent_service_douzh.Prelude.{
  ℕ, zero, suc, ◌+◌, ◌<◌, List, [], ◌∷◌, none, some, true, false, ◌≡◌, ◌⊎◌, refl, arith, inl, inr,
  Bool-cases, Option-cases,
}
use trpc_agent_service_douzh.ExecutionBus.Envelope.{ExecutionEnvelope}
use trpc_agent_service_douzh.ExecutionBus.Partitions.{
  InMemoryExecutionBus, count_all, pending_count, next_envelope, drop_next, count_delivery,
  ExecutionConsumer, acknowledge, deliver_once, drain,
}

next-count :
    (ps : List (List ExecutionEnvelope)) (e : ExecutionEnvelope)
    → next_envelope ps ≡ some e
    → count_all ps ≡ suc (count_all (drop_next ps))
unfolding next_envelope drop_next
next-count [] e h = absurd (ground (arith, h))
next-count ([] ∷ ps) e h = ground (arith, next-count ps e h)
next-count ((x ∷ p) ∷ ps) e h = ground arith

next-none : (ps : List (List ExecutionEnvelope)) → next_envelope ps ≡ none → count_all ps ≡ 0
unfolding next_envelope
next-none [] h = refl
next-none ([] ∷ ps) h = omega (arith, next-none ps h)
next-none ((x ∷ p) ∷ ps) h = absurd (ground (arith, h))

module _ {S : Type 0} (consumer : ExecutionConsumer S) where
  -- How a drain that delivered n envelopes ended: without an envelope, or in front of one on which the
  -- consumer failed.
  record Drained (bus : InMemoryExecutionBus) (s : S) (fuel : ℕ) : Type 0 where
    delivered : ℕ
    bus' : InMemoryExecutionBus
    s' : S
    ends : drain consumer fuel bus s ≡ some (delivered, bus', s')
    counted : delivered + pending_count bus' ≡ pending_count bus
    why :
        (pending_count bus' ≡ 0)
        ⊎ ((e : ExecutionEnvelope) × (before : S) × (next_envelope bus'.partitions ≡ some e)
            × (consumer e before ≡ (false, s')))

  drain_enough :
      (fuel : ℕ) (bus : InMemoryExecutionBus) (s : S)
      → pending_count bus < fuel
      → Drained bus s fuel
  unfolding drain deliver_once pending_count
  drain_enough zero bus s h = absurd (omega (arith, h))
  drain_enough (suc fuel) bus s h = elim (Option-cases (next_envelope bus.partitions)) [
    | inl idle ↦ record {
      delivered = 0;
      bus' = bus;
      s' = s;
      ends = ground (arith, idle);
      counted = omega arith;
      why = inl (next-none bus.partitions idle);
    }
    | inr (e, head) ↦ elim (Bool-cases (consumer e s).0) [
      | inr failed ↦ record {
        delivered = 0;
        bus' = count_delivery e bus;
        s' = (consumer e s).1;
        ends = ground (arith, head, failed);
        counted = omega arith;
        why = inr (e, s, head, ground (arith, failed));
      }
      | inl returned ↦
          let fewer = next-count bus.partitions e head in
          let after = acknowledge consumer true (count_delivery e bus) in
          let rest = drain_enough fuel after (consumer e s).1 (omega (arith, h, fewer)) in
          record {
            delivered = rest.delivered + 1;
            bus' = rest.bus';
            s' = rest.s';
            ends = ground (arith, head, returned, rest.ends);
            counted = omega (arith, rest.counted, fewer);
            why = rest.why;
          }
    ]
  ]

  -- A drain ends after at most one delivery for each pending envelope: without any left, or in front of
  -- one on which the consumer has failed; it counts what it has delivered.
  pub drain_lem :
      (bus : InMemoryExecutionBus) (s : S)
      → (delivered : ℕ) × (bus' : InMemoryExecutionBus) × (s' : S) × (drain consumer
            (suc (pending_count bus))
            bus
            s
          ≡ some (delivered, bus', s'))
        × (delivered + pending_count bus' ≡ pending_count bus)
        × ((pending_count bus' ≡ 0)
            ⊎ ((e : ExecutionEnvelope) × (before : S) × (next_envelope bus'.partitions ≡ some e)
                × (consumer e before ≡ (false, s'))))
  drain_lem bus s =
      let d = drain_enough (suc (pending_count bus)) bus s (omega arith) in
      (d.delivered, d.bus', d.s', d.ends, d.counted, d.why)
