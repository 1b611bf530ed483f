-- ===== src/ExecutionBus/Partitions/Sequence.antt =====
-- Histories of publications and deliveries of the in-memory bus of trpc_service/execution_bus.py.
use trpc_agent_service_douzh.Prelude.{
  append_assoc, ℕ, zero, suc, ◌<◌, ◌≤◌, max, String, List, [], ◌∷◌, ◌++◌, Bool, if◌then◌else◌,
  length, select, ◌≡◌, refl, arith, inl, inr, Bool-cases, Option-cases,
}
use trpc_agent_service_douzh.ExecutionBus.Envelope.{
  ExecutionEnvelope, route, stable_bucket, partition_of,
}
use trpc_agent_service_douzh.ExecutionBus.Partitions.{
  InMemoryExecutionBus, empty_partitions, new_bus, append_at, publish, next_envelope, drop_next,
  count_delivery, ExecutionConsumer, deliver_once,
}
use trpc_agent_service_douzh.ExecutionBus.Partitions.Order.{
  select-append, all_pending, is_routed, bucket_lt, next-pending, drop_next-length,
  append_at-length, IsRouted, IsRouted-empty, IsRouted-drop_next, IsRouted-append_at,
  append_at-pending,
}

-- A publication, or a delivery to a consumer that returns or raises.
pub data BusCall : Type 0 where
  publish_call : ExecutionEnvelope → BusCall
  deliver_call : (returns : Bool) → BusCall

-- A consumer that keeps what it has returned for.
abbrev pub recording : Bool → ExecutionConsumer (List ExecutionEnvelope)
recording returns e handled = (returns, if returns then handled ++ (e ∷ []) else handled)

empty-length : (n : ℕ) → length (empty_partitions n) ≡ n
empty-length zero = refl
empty-length (suc n) = ground (arith, empty-length n)

empty-pending : (n : ℕ) → all_pending (empty_partitions n) ≡ []
empty-pending zero = refl
empty-pending (suc n) = ground (arith, empty-pending n)

module _ (digest_number : String → ℕ) where
  in_range :
      (n : ℕ) (e : ExecutionEnvelope)
      → 1 ≤ n
      → (size : ℕ) → size ≡ n
      → partition_of digest_number e n < size
  unfolding partition_of stable_bucket
  in_range n e positive size same = rw same (bucket_lt (digest_number (route e)) n positive)

  abbrev pub Seen : Type 0
  Seen = InMemoryExecutionBus × List ExecutionEnvelope

  abbrev pub step : BusCall → Seen → Seen
  step (publish_call e) (bus, handled) = (publish digest_number e bus, handled)
  step (deliver_call returns) (bus, handled) =
      let d = deliver_once (recording returns) bus handled in (d.1, d.2)

  abbrev pub run : List BusCall → Seen → Seen
  run [] seen = seen
  run (call ∷ calls) seen = run calls (step call seen)

  record IsOrdered (n : ℕ) (seen : Seen) : Type 0 where
    positive : 1 ≤ n
    size : length seen.0.partitions ≡ n
    routed : IsRouted digest_number n 0 seen.0.partitions
    order :
        (r : String)
        → select (is_routed r) seen.1 ++ select (is_routed r) (all_pending seen.0.partitions)
          ≡ select (is_routed r) seen.0.published

  step-IsOrdered :
      (n : ℕ) (call : BusCall) (seen : Seen) → IsOrdered n seen → IsOrdered n (step call seen)
  unfolding publish deliver_once
  step-IsOrdered n (publish_call e) (bus, handled) o =
      let ps = bus.partitions in
      let k = partition_of digest_number e n in
      let after : InMemoryExecutionBus = record bus {
        published = bus.published ++ (e ∷ []);
        partitions = append_at k e ps;
      } in
      let placed : publish digest_number e bus ≡ after = ground (arith, o.size) in
      let within : k < length ps = in_range n e o.positive (length ps) o.size in
      rw placed (record {
        positive = o.positive;
        size = ground (arith, append_at-length k e ps, o.size);
        routed = IsRouted-append_at digest_number n k 0 e ps (omega arith) o.routed;
        order = λ r. ground (
          arith,
          append_at-pending digest_number n r k 0 e ps (omega arith) within o.routed,
          select-append (is_routed r) bus.published (e ∷ []),
          o.order r,
          append_assoc (select (is_routed r) handled) (select (is_routed r) (all_pending ps))
              (select (is_routed r) (e ∷ [])),
        );
      })
  step-IsOrdered n (deliver_call returns) (bus, handled) o =
      elim (Option-cases (next_envelope bus.partitions)) [
        | inl idle ↦
            let same : step (deliver_call returns) (bus, handled) ≡ (bus, handled) =
              ground (arith, idle) in
            rw same o
        | inr (e, head) ↦ elim (Bool-cases returns) [
          | inr failed ↦
              let same : step (deliver_call returns) (bus, handled)
                  ≡ (count_delivery e bus, handled) =
                ground (arith, head, failed) in
              rw same (record {
                positive = o.positive;
                size = o.size;
                routed = o.routed;
                order = o.order;
              })
          | inl returned ↦
              let after : InMemoryExecutionBus = record (count_delivery e bus) {
                partitions = drop_next bus.partitions;
              } in
              let done : step (deliver_call returns) (bus, handled) ≡ (after, handled ++ (e ∷ [])) =
                ground (arith, head, returned) in
              rw done (record {
                positive = o.positive;
                size = ground (arith, drop_next-length bus.partitions, o.size);
                routed = IsRouted-drop_next digest_number n 0 bus.partitions o.routed;
                order = λ r. ground (
                  arith,
                  next-pending bus.partitions e head,
                  select-append (is_routed r) handled (e ∷ []),
                  o.order r,
                  append_assoc (select (is_routed r) handled) (select (is_routed r) (e ∷ []))
                      (select (is_routed r) (all_pending (drop_next bus.partitions))),
                  select-append (is_routed r) (e ∷ []) (all_pending (drop_next bus.partitions)),
                );
              })
        ]
      ]

  run-IsOrdered :
      (n : ℕ) (calls : List BusCall) (seen : Seen) → IsOrdered n seen → IsOrdered n (run calls seen)
  run-IsOrdered n [] seen o = o
  run-IsOrdered n (call ∷ calls) seen o =
      run-IsOrdered n calls (step call seen) (step-IsOrdered n call seen o)

  -- On a new bus of any number of partitions, after any publications and deliveries, failed ones
  -- included, the envelopes of a route that were handled and then those that are pending are the
  -- published ones in their order: none is lost, handled twice or overtaken.
  pub delivered_in_order :
      (count : ℕ) (calls : List BusCall) (r : String)
      → let (bus, handled) = run calls (new_bus count, []) in
        select (is_routed r) handled ++ select (is_routed r) (all_pending bus.partitions)
        ≡ select (is_routed r) bus.published
  unfolding new_bus
  delivered_in_order count calls r =
      let n = max count 1 in
      let start : IsOrdered n (new_bus count, []) = record {
        positive = omega arith;
        size = empty-length n;
        routed = IsRouted-empty digest_number n n 0;
        order = λ r. ground (arith, empty-pending n);
      } in
      (run-IsOrdered n calls (new_bus count, []) start).order r
