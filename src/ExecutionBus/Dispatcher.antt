-- ===== src/ExecutionBus/Dispatcher.antt =====
-- OutboxDispatcher of trpc_service/execution_bus.py, over platform.outbox_record and a bus that keeps
-- what was published to it. Which rows another dispatcher has locked, and for which envelopes `publish`
-- returns, are arguments; `isoformat` is a parameter.
pub mod Batches
pub mod Marks
pub mod Delivery
use trpc_agent_service_douzh.Prelude.{
  ℕ, zero, suc, ◌+◌, String, ◌<>◌, List, [], ◌∷◌, ◌++◌, Option, none, some, Bool, true, false, not,
  ◌&&◌, ◌||◌, ltb, leb, ◌==◌, if◌then◌else◌, select, update_where,
}
use trpc_agent_service_douzh.Prelude.Action.{Result, ok, err}
use trpc_agent_service_douzh.Prelude.Json.{Json, null, bool, num, str, arr, obj, Fields, get_field}
use trpc_agent_service_douzh.ExecutionBus.Envelope.{ExecutionEnvelope}

-- The column `status`, with a suffix that tells it from the bus's own words.
pub data RecordStatus : Type 0 where
  pending_status published_status : RecordStatus

pub record OutboxRecord : Type 0 where
  pub id : ℕ
  pub tenant_id : String
  pub message_id : String
  pub source : String
  pub event_type : String
  pub partition_key : String
  pub causation_id : Option String
  pub correlation_id : Option String
  pub data_classification : Option String
  pub payload : Fields
  pub status : RecordStatus
  pub attempts : ℕ
  pub created_at : ℕ
  pub published_at : Option ℕ

pub data DispatchError : Type 0 where
  publish_failed : DispatchError

pub record Outbox : Type 0 where
  pub table : List OutboxRecord
  pub sent : List ExecutionEnvelope

abbrev pub is_pending : OutboxRecord → Bool
is_pending row = elim row.status [ pending_status ↦ true | published_status ↦ false ]

abbrev pub has_id : ℕ → OutboxRecord → Bool
has_id id row = row.id == id

-- ORDER BY created_at,id
abbrev pub is_before : OutboxRecord → OutboxRecord → Bool
is_before a b = ltb a.created_at b.created_at || (a.created_at == b.created_at) && leb a.id b.id

unfoldable pub insert_row : OutboxRecord → List OutboxRecord → List OutboxRecord
insert_row row [] = row ∷ []
insert_row row (x ∷ xs) =
    let rest = insert_row row xs in if is_before row x then row ∷ x ∷ xs else x ∷ rest

unfoldable pub in_order : List OutboxRecord → List OutboxRecord
in_order [] = []
in_order (row ∷ rows) = insert_row row (in_order rows)

-- LIMIT
unfoldable pub limit_to : ℕ → List OutboxRecord → List OutboxRecord
limit_to zero rows = []
limit_to (suc n) [] = []
limit_to (suc n) (row ∷ rows) = row ∷ limit_to n rows

-- The rows that the SELECT answers, FOR UPDATE SKIP LOCKED.
unfoldable pub next_batch :
    (locked : OutboxRecord → Bool) → (batch_size : ℕ) → List OutboxRecord → List OutboxRecord
next_batch locked batch_size table =
    limit_to batch_size
      (in_order (select (λ (row : OutboxRecord). is_pending row && not (locked row)) table))

abbrev pub text_in : Option Json → Option String
text_in (some (str s)) = some s
text_in _ = none

unfoldable pub envelope_for : (isoformat : ℕ → String) → OutboxRecord → ExecutionEnvelope
envelope_for isoformat row = record {
  message_id = row.message_id;
  source = row.source;
  event_type = row.event_type;
  partition_key = row.partition_key;
  time = isoformat row.created_at;
  tenant_id = row.tenant_id;
  data_schema = row.event_type <> ".schema.json";
  «data» = row.payload;
  causation_id = row.causation_id;
  correlation_id = row.correlation_id;
  data_classification = row.data_classification;
  trace_parent = text_in (get_field "trace_parent" row.payload);
}

abbrev pub mark : (now : ℕ) → OutboxRecord → OutboxRecord
mark now row = record row {
  status = published_status;
  published_at = some now;
  attempts = row.attempts + 1;
}

abbrev pub marks : ℕ → OutboxRecord → Bool
marks id row = has_id id row && is_pending row

module _ (isoformat : ℕ → String) (now : ℕ) (accepts : ExecutionEnvelope → Bool) where
  -- The loop of `dispatch_pending`.
  unfoldable pub publish_rows : List OutboxRecord → Outbox → Result DispatchError ℕ × Outbox
  publish_rows [] o = (ok 0, o)
  publish_rows (row ∷ rows) o =
      let e = envelope_for isoformat row in
      let (counted, o') = publish_rows rows (record {
        table = update_where (marks row.id) (mark now) o.table;
        sent = o.sent ++ (e ∷ []);
      }) in
      if accepts e
      then elim counted [ err error ↦ (err error, o') | ok published ↦ (ok (published + 1), o') ]
      else (err publish_failed, o)

  -- A raised error rolls the table back, and not the bus.
  unfoldable pub dispatch_pending :
      (locked : OutboxRecord → Bool) → (batch_size : ℕ) → Outbox → Result DispatchError ℕ × Outbox
  dispatch_pending locked batch_size o =
      let (counted, o') = publish_rows (next_batch locked batch_size o.table) o in
      elim counted [
        | ok published ↦ (ok published, o')
        | err error ↦ (err error, record o' { table = o.table })
      ]
