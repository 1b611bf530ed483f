-- ===== src/ExecutionBus/Dispatcher/Delivery.antt =====
-- What dispatches of trpc_service/execution_bus.py leave in the Outbox and send.
use trpc_agent_service_douzh.Prelude.{
  ℕ, ◌+◌, ◌≤◌, min, String, List, [], ◌∷◌, ◌++◌, Bool, true, false, length, update_where, All, ◌≡◌,
  ◌≢◌, refl, arith, inl, inr, Bool-cases,
}
use trpc_agent_service_douzh.Prelude.Action.{Result, ok, err, Action-cases}
use trpc_agent_service_douzh.ExecutionBus.Envelope.{ExecutionEnvelope}
use trpc_agent_service_douzh.ExecutionBus.Dispatcher.{
  OutboxRecord, DispatchError, publish_failed, Outbox, next_batch, envelope_for, mark, marks,
  publish_rows, dispatch_pending,
}
use trpc_agent_service_douzh.ExecutionBus.Dispatcher.Batches.{
  IsKeyed, Waits, next_batch-IsKeyed, next_batch-Waits, next_batch-length,
}
use trpc_agent_service_douzh.ExecutionBus.Dispatcher.Marks.{
  waiting, sends_of, carries, sends-snoc, marked-find, marked-IsKeyed, marked-waiting,
}

module _ (isoformat : ℕ → String) (now : ℕ) (accepts : ExecutionEnvelope → Bool) where
  -- What the loop over a batch has done.
  record Loop (rows : List OutboxRecord) (o : Outbox) (done : Result DispatchError ℕ × Outbox)
      : Type 0 where
    keyed : IsKeyed done.1.table
    kept :
        (m : String)
        → sends_of m done.1.sent + waiting (carries m) done.1.table
          ≡ sends_of m o.sent + waiting (carries m) o.table
    grows : (m : String) → sends_of m o.sent ≤ sends_of m done.1.sent
    counted :
        (n : ℕ)
        → done.0 ≡ ok n
        → (n ≡ length rows)
          × (waiting (λ row. true) done.1.table + n ≡ waiting (λ row. true) o.table)
    succeeds : ((e : ExecutionEnvelope) → accepts e ≡ true) → done.0 ≡ ok (length rows)

  still_waiting :
      (row : OutboxRecord) (table rows : List OutboxRecord)
      → All (λ (x : OutboxRecord). x.id ≢ row.id) rows
      → All (Waits table) rows
      → All (Waits (update_where (marks row.id) (mark now) table)) rows
  still_waiting row table [] other w = tt
  still_waiting row table (x ∷ rows) other w = (
    (marked-find now row.id x.id x table other.0 w.0.0, w.0.1),
    still_waiting row table rows other.1 w.1,
  )

  unfoldable after_one : OutboxRecord → Outbox → Outbox
  after_one row o = record {
    table = update_where (marks row.id) (mark now) o.table;
    sent = o.sent ++ (envelope_for isoformat row ∷ []);
  }

  -- A row that was accepted, and then the rest.
  accepted-Loop :
      (row : OutboxRecord) (rows : List OutboxRecord) (o : Outbox)
      → accepts (envelope_for isoformat row) ≡ true
      → IsKeyed o.table
      → Waits o.table row
      → (rest : Result DispatchError ℕ × Outbox)
      → publish_rows isoformat now accepts rows (after_one row o) ≡ rest
      → Loop rows (after_one row o) rest
      → Loop (row ∷ rows) o (publish_rows isoformat now accepts (row ∷ rows) o)
  unfolding publish_rows after_one envelope_for
  accepted-Loop row rows o accepted k w (err error, o₂) same l =
      let step : publish_rows isoformat now accepts (row ∷ rows) o ≡ (err error, o₂) =
        ground (arith, accepted, same) in
      let one = λ (m : String). sends-snoc m o.sent (envelope_for isoformat row) in
      rw step (record {
        keyed = l.keyed;
        kept = λ m. ground (arith, l.kept m, one m, marked-waiting now row (carries m) o.table k w);
        grows = λ m. ground (arith, l.grows m, one m);
        counted = λ n h. absurd (ground (arith, h));
        succeeds = λ all. absurd (ground (arith, l.succeeds all));
      })
  accepted-Loop row rows o accepted k w (ok n, o₂) same l =
      let step : publish_rows isoformat now accepts (row ∷ rows) o ≡ (ok (n + 1), o₂) =
        ground (arith, accepted, same) in
      let one = λ (m : String). sends-snoc m o.sent (envelope_for isoformat row) in
      let (size, less) = l.counted n refl in
      rw step (record {
        keyed = l.keyed;
        kept = λ m. ground (arith, l.kept m, one m, marked-waiting now row (carries m) o.table k w);
        grows = λ m. ground (arith, l.grows m, one m);
        counted = λ n' h. (
          ground (arith, h, size),
          ground (arith, h, less, marked-waiting now row (λ row. true) o.table k w),
        );
        succeeds = λ all. ground (arith, l.succeeds all);
      })

  rows-Loop :
      (rows : List OutboxRecord) (o : Outbox)
      → IsKeyed rows
      → IsKeyed o.table
      → All (Waits o.table) rows
      → Loop rows o (publish_rows isoformat now accepts rows o)
  unfolding publish_rows after_one
  rows-Loop [] o batch k w = record {
    keyed = k;
    kept = λ m. refl;
    grows = λ m. omega arith;
    counted = λ n h. (ground (arith, h), ground (arith, h));
    succeeds = λ all. refl;
  }
  rows-Loop (row ∷ rows) o batch k w = elim (Bool-cases (accepts (envelope_for isoformat row))) [
    | inr refused ↦
        let step : publish_rows isoformat now accepts (row ∷ rows) o ≡ (err publish_failed, o) =
          ground (arith, refused) in
        rw step (record {
          keyed = k;
          kept = λ m. refl;
          grows = λ m. omega arith;
          counted = λ n h. absurd (ground (arith, h));
          succeeds = λ all. absurd (ground (arith, refused, all (envelope_for isoformat row)));
        })
    | inl accepted ↦
        let o₁ = after_one row o in
        let rest =
          rows-Loop rows o₁ batch.1 (marked-IsKeyed now row.id o.table k)
            (still_waiting row o.table rows batch.0 w.1) in
        accepted-Loop row rows o accepted k w.0 (publish_rows isoformat now accepts rows o₁) refl
          rest
  ]

-- One call of `dispatch_pending`, with the time, the bus and the rows that others have locked.
pub record Dispatch : Type 0 where
  pub now : ℕ
  pub batch_size : ℕ
  pub accepts : ExecutionEnvelope → Bool
  pub locked : OutboxRecord → Bool

module _ (isoformat : ℕ → String) where
  abbrev pub dispatched : Dispatch → Outbox → Result DispatchError ℕ × Outbox
  dispatched d o = dispatch_pending isoformat d.now d.accepts d.locked d.batch_size o

  abbrev pub dispatch_all : List Dispatch → Outbox → Outbox
  dispatch_all [] o = o
  dispatch_all (d ∷ ds) o = dispatch_all ds (dispatched d o).1

  batch-Loop :
      (d : Dispatch) (o : Outbox)
      → IsKeyed o.table
      → let batch = next_batch d.locked d.batch_size o.table in
        Loop isoformat d.now d.accepts batch o (publish_rows isoformat d.now d.accepts batch o)
  batch-Loop d o k =
      rows-Loop isoformat d.now d.accepts (next_batch d.locked d.batch_size o.table) o
        (next_batch-IsKeyed d.locked d.batch_size o.table k) k
        (next_batch-Waits d.locked d.batch_size o.table k)

  dispatch-keeps :
      (d : Dispatch) (o : Outbox)
      → IsKeyed o.table
      → IsKeyed (dispatched d o).1.table
        × ((m : String)
            → sends_of m o.sent + waiting (carries m) o.table
              ≤ sends_of m (dispatched d o).1.sent + waiting (carries m) (dispatched d o).1.table)
  unfolding dispatch_pending
  dispatch-keeps d o k =
      let run =
        publish_rows isoformat d.now d.accepts (next_batch d.locked d.batch_size o.table) o in
      let l = batch-Loop d o k in
      elim (Action-cases run) [
        | inl (n, e) ↦
            let step : dispatched d o ≡ (ok n, run.1) = ground (arith, e) in
            rw step (l.keyed, λ m. omega (arith, l.kept m))
        | inr (error, e) ↦
            let step : dispatched d o ≡ (err error, record run.1 { table = o.table }) =
              ground (arith, e) in
            rw step (k, λ m. omega (arith, l.grows m))
      ]

  -- Whatever dispatches run on records of different identifiers, failed ones and ones that skip locked
  -- rows included, the sends of a message and its records that wait never become fewer together: a
  -- record that does not wait any more was sent at least once.
  pub sent_at_least_once :
      (ds : List Dispatch) (o : Outbox) (m : String)
      → IsKeyed o.table
      → sends_of m o.sent + waiting (carries m) o.table
        ≤ sends_of m (dispatch_all ds o).sent + waiting (carries m) (dispatch_all ds o).table
  sent_at_least_once [] o m k = omega arith
  sent_at_least_once (d ∷ ds) o m k =
      let (keyed, kept) = dispatch-keeps d o k in
      omega (arith, kept m, sent_at_least_once ds (dispatched d o).1 m keyed)

  -- On records of different identifiers, with a bus that accepts every envelope and no locked row, a
  -- dispatch sends a full batch, or all that wait where these are fewer: so many records wait no more,
  -- and each message is sent once for each of its records that waits no more.
  pub dispatch_sends_batch :
      (now batch_size : ℕ) (o : Outbox)
      → IsKeyed o.table
      → let (counted, o') =
          dispatch_pending isoformat now (λ e. true) (λ row. false) batch_size o in
        (counted ≡ ok (min batch_size (waiting (λ row. true) o.table)))
        × (waiting (λ row. true) o'.table + min batch_size (waiting (λ row. true) o.table)
            ≡ waiting (λ row. true) o.table)
        × ((m : String)
            → sends_of m o'.sent + waiting (carries m) o'.table
              ≡ sends_of m o.sent + waiting (carries m) o.table)
  unfolding dispatch_pending
  dispatch_sends_batch now batch_size o k =
      let d : Dispatch = record {
        now = now;
        batch_size = batch_size;
        accepts = λ e. true;
        locked = λ row. false;
      } in
      let batch = next_batch d.locked batch_size o.table in
      let run = publish_rows isoformat now d.accepts batch o in
      let l = batch-Loop d o k in
      let n = length batch in
      let size : n ≡ min batch_size (waiting (λ row. true) o.table) =
        next_batch-length d.locked batch_size o.table in
      let done = l.succeeds (λ e. refl) in
      let less = (l.counted n done).1 in
      let step : dispatched d o ≡ (ok n, run.1) = ground (arith, done) in
      rw step (ground (arith, size), omega (arith, less, size), l.kept)
