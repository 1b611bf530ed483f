-- ===== src/Sessions/Schema.antt =====
-- The tables of migrations/versions/0010_execution_bus_sessions.sql that trpc_service/sessions.py
-- reads and writes, as one tenant's slice, and its errors.
use trpc_agent_service_douzh.Prelude.{
  ℕ, String, List, Option, some, Bool, ◌&&◌, leb, str_eq, if◌then◌else◌,
}
use trpc_agent_service_douzh.Prelude.Json.{Fields}

-- tenant.session_lease, tenant.agent_session, tenant.session_event
pub record LeaseRow : Type 0 where
  pub owner_id : String
  pub fencing_token : ℕ
  pub expires_at : ℕ
  pub renewed_at : ℕ

pub record SessionRow : Type 0 where
  pub application_id : ℕ
  pub version : ℕ
  pub updated_at : ℕ

pub record EventRow : Type 0 where
  pub session_id : String
  pub sequence : ℕ
  pub execution_id : ℕ
  pub kind : String
  pub payload : Fields

-- The column `status` of tenant.agent_execution.
pub data ExecutionStatus : Type 0 where
  pending succeeded failed : ExecutionStatus

-- The payload of the Outbox record that `commit_session_events` writes.
pub record CommittedPayload : Type 0 where
  pub tenant_id : String
  pub session_id : String
  pub execution_id : ℕ
  pub from_version : ℕ
  pub to_version : ℕ
  pub event_kinds : List String

-- platform.outbox_record
pub record OutboxRow : Type 0 where
  pub message_id : ℕ
  pub source : String
  pub event_type : String
  pub partition_key : String
  pub payload : CommittedPayload
  pub causation_id : Option String
  pub correlation_id : Option ℕ
  pub data_classification : Option String

-- Rows by their keys; `executions` is unique by message_id, and lists stand in insertion order.
pub record Db : Type 0 where
  pub sessions : String → Option SessionRow
  pub leases : String → Option LeaseRow
  pub executions : String → Option ExecutionStatus
  pub events : List EventRow
  pub outbox : List OutboxRow

pub data Error : Type 0 where
  value_error : Error
  lease_held : Option String → Error
  session_not_found lease_invalid execution_not_found version_conflict : Error
  -- A constraint of a table refuses the statement.
  integrity_error : Error

pub record LeaseGrant : Type 0 where
  pub fencing_token : ℕ
  pub session_version : ℕ

pub record SessionEvent : Type 0 where
  pub kind : String
  pub payload : Fields

abbrev pub put {ℓ} : {V : Type ℓ} → String → V → (String → Option V) → String → Option V
put k v table j = if str_eq k j then some v else table j

abbrev pub in_range : ℕ → ℕ → ℕ → Bool
in_range lo hi n = leb lo n && leb n hi

abbrev pub max_session_id_length : ℕ
max_session_id_length = 512

abbrev pub max_owner_id_length : ℕ
max_owner_id_length = 256
