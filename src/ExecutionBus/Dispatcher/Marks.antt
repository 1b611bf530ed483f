-- ===== src/ExecutionBus/Dispatcher/Marks.antt =====
-- What marking a record of the Outbox of trpc_service/execution_bus.py leaves in its table.
use trpc_agent_service_douzh.Prelude.{
  ℕ, ◌+◌, String, List, [], ◌∷◌, ◌++◌, some, Bool, ◌&&◌, str_eq, if◌then◌else◌, find, update_where,
  count_where, All, ◌≡◌, ◌≢◌, refl, ap, arith, inl, inr, Bool-cases,
}
use trpc_agent_service_douzh.ExecutionBus.Envelope.{ExecutionEnvelope}
use trpc_agent_service_douzh.ExecutionBus.Dispatcher.{OutboxRecord, is_pending, has_id, mark, marks}
use trpc_agent_service_douzh.ExecutionBus.Dispatcher.Batches.{IsKeyed, Waits}

-- How many of the rows that wait meet a test, and how many of the envelopes have a message id.
abbrev pub waiting : (OutboxRecord → Bool) → List OutboxRecord → ℕ
waiting test table = count_where (λ (row : OutboxRecord). is_pending row && test row) table

abbrev pub sends_of : String → List ExecutionEnvelope → ℕ
sends_of message_id sent =
    count_where (λ (e : ExecutionEnvelope). str_eq e.message_id message_id) sent

abbrev pub carries : String → OutboxRecord → Bool
carries message_id row = str_eq row.message_id message_id

pub sends-snoc :
    (m : String) (sent : List ExecutionEnvelope) (e : ExecutionEnvelope)
    → sends_of m (sent ++ (e ∷ [])) ≡ sends_of m sent + (if str_eq e.message_id m then 1 else 0)
sends-snoc m [] e = ground arith
sends-snoc m (x ∷ sent) e = ground (arith, sends-snoc m sent e)

module _ (now id : ℕ) where
  abbrev marked : List OutboxRecord → List OutboxRecord
  marked table = update_where (marks id) (mark now) table

  marked-absent :
      (test : OutboxRecord → Bool) (table : List OutboxRecord)
      → All (λ (x : OutboxRecord). x.id ≢ id) table
      → waiting test (marked table) ≡ waiting test table
  marked-absent test [] h = refl
  marked-absent test (x ∷ table) h = ground (arith, h.0, marked-absent test table h.1)

  pub marked-find :
      (other : ℕ) (row : OutboxRecord) (table : List OutboxRecord)
      → other ≢ id
      → find (has_id other) table ≡ some row
      → find (has_id other) (marked table) ≡ some row
  marked-find other row [] d h = absurd (ground (arith, h))
  marked-find other row (x ∷ table) d h = elim (Bool-cases (has_id other x)) [
    | inl here ↦ ground (arith, d, h, here)
    | inr there ↦
        let rest = marked-find other row table d (ground (arith, h, there)) in
        ground (arith, there, rest)
  ]

  marked-others :
      (other : ℕ) (table : List OutboxRecord)
      → All (λ (x : OutboxRecord). x.id ≢ other) table
      → All (λ (x : OutboxRecord). x.id ≢ other) (marked table)
  marked-others other [] h = tt
  marked-others other (x ∷ table) h = (λ e. h.0 (ground (arith, e)), marked-others other table h.1)

  pub marked-IsKeyed : (table : List OutboxRecord) → IsKeyed table → IsKeyed (marked table)
  marked-IsKeyed [] k = tt
  marked-IsKeyed (x ∷ table) k =
      (marked-own x.id _ table (ground arith) k.0, marked-IsKeyed table k.1)
    where
      marked-own :
          (w w' : ℕ) (rows : List OutboxRecord)
          → w' ≡ w
          → All (λ (y : OutboxRecord). y.id ≢ w) rows
          → All (λ (y : OutboxRecord). y.id ≢ w') (marked rows)
      marked-own w w' rows same h = rw same (marked-others w rows h)

pub marked-waiting :
    (now : ℕ) (row : OutboxRecord) (test : OutboxRecord → Bool) (table : List OutboxRecord)
    → IsKeyed table
    → Waits table row
    → waiting test (marked now row.id table) + (if test row then 1 else 0) ≡ waiting test table
marked-waiting now row test [] k w = absurd (ground (arith, w.0))
marked-waiting now row test (x ∷ table) k w = elim (Bool-cases (has_id row.id x)) [
  | inl here ↦
      let own : x ≡ row = ground (arith, here, w.0) in
      let same : x.id ≡ row.id = ground (arith, here) in
      let rest = marked-absent now row.id test table (rw same at k.0) in
      ground (arith, here, rest, ap is_pending own, ap test own, w.1)
  | inr there ↦
      let rest = marked-waiting now row test table k.1 (ground (arith, there, w.0), w.1) in
      ground (arith, there, rest)
]
