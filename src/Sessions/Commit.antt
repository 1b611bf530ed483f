-- ===== src/Sessions/Commit.antt =====
-- commit_session_events of trpc_service/sessions.py, inside the caller's transaction. The kind of an
-- event, and the key of its row, meet the constraints of tenant.session_event.
pub mod Rows
pub mod Effects
use Prim.Native.String as Text
use Prim.Native.String.{String}
use Prim.Native.Char.{code}
use trpc_agent_service_douzh.Prelude.{
  ℕ, zero, suc, ◌+◌, ◌<>◌, List, [], ◌∷◌, ◌++◌, map, Option, none, some, Bool, true, false, not,
  ◌&&◌, ◌||◌, leb, ◌==◌, str_eq, if◌then◌else◌, length, exists,
}
use trpc_agent_service_douzh.Prelude.Action.{
  Action, ok, err, pure, raise_if, gets, or_raise, modify, ◌>>=◌, ◌>>◌,
}
use trpc_agent_service_douzh.Sessions.Schema.{
  LeaseRow, EventRow, ExecutionStatus, succeeded, CommittedPayload, OutboxRow, Db, Error,
  value_error, session_not_found, lease_invalid, execution_not_found, version_conflict,
  integrity_error, SessionEvent, put, in_range,
}
use trpc_agent_service_douzh.Sessions.Lease.{lock_session_version}

abbrev is_upper : ℕ → Bool
is_upper c = leb b'A' c && leb c b'Z'

abbrev is_kind_char : ℕ → Bool
is_kind_char c = is_upper c || (leb b'0' c && leb c b'9') || (c == b'_')

-- [A-Z0-9_]{0,n}
kind_tail : ℕ → String → Bool
kind_tail n Text.[] = true
kind_tail zero (Text.◌∷◌ c s) = false
kind_tail (suc n) (Text.◌∷◌ c s) = is_kind_char (code c) && kind_tail n s

-- CHECK (kind ~ '^[A-Z][A-Z0-9_]{0,63}$')
unfoldable pub kind_ok : String → Bool
unfolding kind_tail
kind_ok Text.[] = false
kind_ok (Text.◌∷◌ c s) = is_upper (code c) && kind_tail 63 s

-- PRIMARY KEY (tenant_id, session_id, sequence)
abbrev pub same_key : String → ℕ → EventRow → Bool
same_key session_id sequence row = str_eq row.session_id session_id && (row.sequence == sequence)

unfoldable pub insert_event : EventRow → Action Db Error Unit
unfolding kind_ok
insert_event row db =
    if not (kind_ok row.kind) || exists (same_key row.session_id row.sequence) db.events
    then (err integrity_error, db)
    else (ok tt, record db { events = db.events ++ (row ∷ []) })

-- The `executemany` over `enumerate(events, start=1)`: `sequence` is the next number.
unfoldable pub insert_events : String → ℕ → ℕ → List SessionEvent → Action Db Error Unit
insert_events session_id execution_id sequence [] = pure tt
insert_events session_id execution_id sequence (event ∷ events) = do
  insert_event (record {
    session_id = session_id;
    sequence = sequence;
    execution_id = execution_id;
    kind = event.kind;
    payload = event.payload;
  })
  insert_events session_id execution_id (sequence + 1) events

-- `SELECT owner_id, fencing_token, expires_at <= now()` and the test on what it returned.
unfoldable pub lease_valid : ℕ → String → ℕ → Option LeaseRow → Bool
lease_valid now owner_id fencing_token none = false
lease_valid now owner_id fencing_token (some lease) =
    str_eq lease.owner_id owner_id
    && (lease.fencing_token == fencing_token)
    && not (leb lease.expires_at now)

-- UPDATE tenant.agent_session SET version
abbrev pub set_version : ℕ → String → ℕ → Db → Db
set_version now session_id version db = elim (db.sessions session_id) [
  | none ↦ db
  | some row ↦ record db {
    sessions = put session_id (record row { version = version; updated_at = now }) db.sessions;
  }
]

abbrev pub worker_source : String
worker_source = "trpc-agent-platform://agent-worker"

abbrev pub session_events_committed_event : String
session_events_committed_event = "platform.session.events.committed.v1"

-- execution_bus.session_partition_key
abbrev pub session_partition_key : String → String → String
session_partition_key tenant_id session_id = tenant_id <> (":" <> session_id)

-- CHECK (data_classification IN (…)), which a missing one meets.
abbrev pub classification_ok : Option String → Bool
classification_ok none = true
classification_ok (some text) =
    str_eq text "PUBLIC"
    || str_eq text "INTERNAL"
    || str_eq text "CONFIDENTIAL"
    || str_eq text "RESTRICTED"

abbrev pub causation_ok : Option String → Bool
causation_ok none = true
causation_ok (some text) = in_range 1 256 (Text.count text)

-- The CHECKs of platform.outbox_record on what varies: a source, an event type and a payload of this
-- module meet theirs, and so do identifiers as texts.
abbrev pub outbox_ok : OutboxRow → Bool
outbox_ok row =
    in_range 1 600 (Text.count row.partition_key)
    && causation_ok row.causation_id
    && classification_ok row.data_classification

-- UNIQUE (tenant_id, message_id)
abbrev pub has_message : ℕ → OutboxRow → Bool
has_message message_id row = row.message_id == message_id

-- execution_bus.insert_outbox_record
unfoldable pub insert_outbox_record : OutboxRow → Action Db Error Unit
insert_outbox_record row db =
    if not (outbox_ok row) || exists (has_message row.message_id) db.outbox
    then (err integrity_error, db)
    else (ok tt, record db { outbox = db.outbox ++ (row ∷ []) })

-- The arguments of one commit.
pub record Commit : Type 0 where
  pub tenant_id : String
  pub session_id : String
  pub owner_id : String
  pub fencing_token : ℕ
  pub expected_version : ℕ
  pub execution_id : ℕ
  pub idempotency_key : String
  pub events : List SessionEvent
  pub data_classification : Option String
  -- `uuid7()`
  pub message_id : ℕ

abbrev pub committed_record : Commit → OutboxRow
committed_record c = record {
  message_id = c.message_id;
  source = worker_source;
  event_type = session_events_committed_event;
  partition_key = session_partition_key c.tenant_id c.session_id;
  payload = record {
    tenant_id = c.tenant_id;
    session_id = c.session_id;
    execution_id = c.execution_id;
    from_version = c.expected_version;
    to_version = c.expected_version + length c.events;
    event_kinds = map (λ (e : SessionEvent). e.kind) c.events;
  };
  causation_id = some c.idempotency_key;
  correlation_id = some c.execution_id;
  data_classification = c.data_classification;
}

-- The writes, after every check has passed.
unfoldable pub write_commit : ℕ → Commit → Action Db Error (Option ℕ)
unfolding insert_outbox_record
write_commit now c = do
  insert_events c.session_id c.execution_id (c.expected_version + 1) c.events
  modify (set_version now c.session_id (c.expected_version + length c.events))
  insert_outbox_record (committed_record c)
  pure (some (c.expected_version + length c.events))

-- The checks behind the idempotency key, in order, and the writes.
unfoldable pub commit_open : ℕ → Commit → Action Db Error (Option ℕ)
unfolding lease_valid lock_session_version
commit_open now c = do
  lease ← gets (λ db. db.leases c.session_id)
  raise_if (not (lease_valid now c.owner_id c.fencing_token lease)) lease_invalid
  found ← lock_session_version c.session_id
  version ← or_raise found session_not_found
  raise_if (not (version == c.expected_version)) version_conflict
  write_commit now c

unfoldable pub commit_session_events : ℕ → Commit → Action Db Error (Option ℕ)
unfolding commit_open
commit_session_events now c db = elim c.events [
  | [] ↦ (err value_error, db)
  | _ ∷ _ ↦ elim (db.executions c.idempotency_key) [
    | none ↦ (err execution_not_found, db)
    | some succeeded ↦ (ok none, db)
    | some _ ↦ commit_open now c db
  ]
]
