-- ===== src/ExecutionBus/Partitions/Order.antt =====
-- What the in-memory bus of trpc_service/execution_bus.py keeps of the order of its envelopes.
use trpc_agent_service_douzh.Prelude.{
  append_assoc, append-nil, ℕ, zero, suc, ◌+◌, ◌%◌, ◌<◌, ◌≤◌, max, String, List, [], ◌∷◌, ◌++◌,
  some, Bool, str_eq, str_eq_iff, length, select, All, All-snoc, ◌≡◌, refl, arith, inl, inr,
  Bool-cases,
}
use trpc_agent_service_douzh.ExecutionBus.Envelope.{
  ExecutionEnvelope, route, stable_bucket, partition_of,
}
use trpc_agent_service_douzh.ExecutionBus.Partitions.{
  empty_partitions, append_at, next_envelope, drop_next,
}

module _ {A : Type 0} (p : A → Bool) where
  pub select-append : (xs ys : List A) → select p (xs ++ ys) ≡ select p xs ++ select p ys
  select-append [] ys = refl
  select-append (x ∷ xs) ys = ground (arith, select-append xs ys)

abbrev pub all_pending : List (List ExecutionEnvelope) → List ExecutionEnvelope
all_pending [] = []
all_pending (p ∷ ps) = p ++ all_pending ps

abbrev pub is_routed : String → ExecutionEnvelope → Bool
is_routed r e = str_eq (route e) r

pub bucket_lt : (m n : ℕ) → 1 ≤ n → m % max n 1 < n
bucket_lt m n h = ground arith

pub next-pending :
    (ps : List (List ExecutionEnvelope)) (e : ExecutionEnvelope)
    → next_envelope ps ≡ some e
    → all_pending ps ≡ e ∷ all_pending (drop_next ps)
unfolding next_envelope drop_next
next-pending [] e h = absurd (ground (arith, h))
next-pending ([] ∷ ps) e h = next-pending ps e h
next-pending ((x ∷ p) ∷ ps) e h = ground (arith, h)

pub drop_next-length : (ps : List (List ExecutionEnvelope)) → length (drop_next ps) ≡ length ps
unfolding drop_next
drop_next-length [] = refl
drop_next-length ([] ∷ ps) = ground (arith, drop_next-length ps)
drop_next-length ((x ∷ p) ∷ ps) = refl

pub append_at-length :
    (i : ℕ) (e : ExecutionEnvelope) (ps : List (List ExecutionEnvelope))
    → length (append_at i e ps) ≡ length ps
unfolding append_at
append_at-length i e [] = refl
append_at-length zero e (p ∷ ps) = refl
append_at-length (suc i) e (p ∷ ps) = ground (arith, append_at-length i e ps)

module _ (digest_number : String → ℕ) (n : ℕ) where
  abbrev bucket : String → ℕ
  bucket r = digest_number r % max n 1

  -- Every partition, from an index on, has only envelopes that hash to its index.
  abbrev pub IsRouted : ℕ → List (List ExecutionEnvelope) → Type 0
  IsRouted i [] = Unit
  IsRouted i (p ∷ ps) =
      All (λ (e : ExecutionEnvelope). partition_of digest_number e n ≡ i) p × IsRouted (i + 1) ps

  pub IsRouted-empty : (k i : ℕ) → IsRouted i (empty_partitions k)
  IsRouted-empty zero i = tt
  IsRouted-empty (suc k) i = (tt, IsRouted-empty k (i + 1))

  pub IsRouted-drop_next :
      (i : ℕ) (ps : List (List ExecutionEnvelope)) → IsRouted i ps → IsRouted i (drop_next ps)
  unfolding drop_next
  IsRouted-drop_next i [] h = tt
  IsRouted-drop_next i ([] ∷ ps) h = (tt, IsRouted-drop_next (i + 1) ps h.1)
  IsRouted-drop_next i ((x ∷ p) ∷ ps) h = (h.0.1, h.1)

  pub IsRouted-append_at :
      (k i : ℕ) (e : ExecutionEnvelope) (ps : List (List ExecutionEnvelope))
      → partition_of digest_number e n ≡ k + i
      → IsRouted i ps
      → IsRouted i (append_at k e ps)
  unfolding append_at
  IsRouted-append_at k i e [] own h = tt
  IsRouted-append_at zero i e (p ∷ ps) own h = (
    All-snoc (λ (e : ExecutionEnvelope). partition_of digest_number e n ≡ i) p e h.0
        (omega (arith, own)),
    h.1,
  )
  IsRouted-append_at (suc k) i e (p ∷ ps) own h =
      (h.0, IsRouted-append_at k (i + 1) e ps (omega (arith, own)) h.1)

  -- A partition of another index has nothing of a route.
  other_partition :
      (r : String) (j : ℕ) (p : List ExecutionEnvelope)
      → All (λ (e : ExecutionEnvelope). partition_of digest_number e n ≡ j) p
      → bucket r < j
      → select (is_routed r) p ≡ []
  unfolding partition_of stable_bucket
  other_partition r j [] h low = refl
  other_partition r j (e ∷ p) h low = elim (Bool-cases (is_routed r e)) [
    | inl own ↦
        let same : route e ≡ r = (str_eq_iff (route e) r).0 own in
        absurd (omega (arith, rw same at h.0, low))
    | inr other ↦ ground (arith, other, other_partition r j p h.1 low)
  ]

  later_partitions :
      (r : String) (j : ℕ) (ps : List (List ExecutionEnvelope))
      → IsRouted j ps
      → bucket r < j
      → select (is_routed r) (all_pending ps) ≡ []
  later_partitions r j [] h low = refl
  later_partitions r j (p ∷ ps) h low = ground (
    arith,
    select-append (is_routed r) p (all_pending ps),
    other_partition r j p h.0 low,
    later_partitions r (j + 1) ps h.1 (omega (arith, low)),
  )

  pub append_at-pending :
      (r : String) (k i : ℕ) (e : ExecutionEnvelope) (ps : List (List ExecutionEnvelope))
      → partition_of digest_number e n ≡ k + i
      → k < length ps
      → IsRouted i ps
      → select (is_routed r) (all_pending (append_at k e ps))
        ≡ select (is_routed r) (all_pending ps) ++ select (is_routed r) (e ∷ [])
  unfolding append_at partition_of stable_bucket
  append_at-pending r k i e [] own low h = absurd (omega (arith, low))
  append_at-pending r zero i e (p ∷ ps) own low h =
      let split = select-append (is_routed r) (p ++ (e ∷ [])) (all_pending ps) in
      let inner = select-append (is_routed r) p (e ∷ []) in
      let whole = select-append (is_routed r) p (all_pending ps) in
      elim (Bool-cases (is_routed r e)) [
        | inl routed ↦
            let same : route e ≡ r = (str_eq_iff (route e) r).0 routed in
            let rest = later_partitions r (i + 1) ps h.1 (omega (arith, rw same at own)) in
            let sp = select (is_routed r) p in
            ground
              (arith, split, inner, whole, rest, append-nil sp, append-nil (sp ++ (e ∷ [])), routed)
        | inr other ↦
            let sp = select (is_routed r) p in
            ground (
              arith,
              split,
              inner,
              whole,
              append-nil sp,
              append-nil (sp ++ select (is_routed r) (all_pending ps)),
              other,
            )
      ]
  append_at-pending r (suc k) i e (p ∷ ps) own low h =
      let rest = append_at-pending r k (i + 1) e ps (omega (arith, own)) (omega (arith, low)) h.1 in
      let sp = select (is_routed r) p in
      ground (
        arith,
        select-append (is_routed r) p (all_pending (append_at k e ps)),
        select-append (is_routed r) p (all_pending ps),
        rest,
        append_assoc sp (select (is_routed r) (all_pending ps)) (select (is_routed r) (e ∷ [])),
      )
