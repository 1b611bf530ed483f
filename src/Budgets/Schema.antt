-- ===== src/Budgets/Schema.antt =====
-- The tables of migrations/versions/0011_budgets_cost_ledger.sql as one tenant's slice, and the
-- values that trpc_service/budgets.py passes around. Money is in micros. `uuid7` is a supply of
-- identifiers, each given once; a moment is what the service's clock returns.
use trpc_agent_service_douzh.Prelude.{
  ℕ, ◌+◌, String, List, Option, some, Bool, ◌&&◌, ◌==◌, str_eq, if◌then◌else◌,
}
use trpc_agent_service_douzh.Prelude.Int.{ℤ, pos}
use trpc_agent_service_douzh.Prelude.Action.{Action, ok}

pub data Scope : Type 0 where
  tenant_monthly agent_daily execution : Scope

pub data UnknownPolicy : Type 0 where
  fail_closed contingency : UnknownPolicy

-- The answers of `evaluate_level` but None, the last two of which are alert levels.
pub data Decision : Type 0 where
  reject warning_70 critical_90 : Decision

pub data EntryType : Type 0 where
  reserve_entry settle_entry release_entry reject_entry adjust_entry : EntryType

pub record BudgetRow : Type 0 where
  pub id : ℕ
  pub scope : Scope
  pub application_id : Option ℕ
  pub limit_micros : ℕ
  pub contingency_micros : ℕ
  pub unknown_policy : UnknownPolicy

pub record PeriodState : Type 0 where
  pub reserved_micros : ℕ
  pub consumed_micros : ℕ
  pub allowance_micros : ℤ
  pub contingency_reserved_micros : ℕ
  pub version : ℕ

pub record LedgerRow : Type 0 where
  pub id : ℕ
  pub budget_id : ℕ
  pub period_key : String
  pub application_id : Option ℕ
  pub execution_id : Option String
  pub entry_type : EntryType
  pub amount_micros : ℕ
  pub reserve_id : ℕ
  pub contingency : Bool
  pub reason : String
  pub actor : String
  pub price_version : Option ℕ

pub record AlertRow : Type 0 where
  pub budget_id : ℕ
  pub period_key : String
  pub level : Decision
  pub used_micros : ℕ
  pub limit_micros : ℕ

-- `budgets` stands in the order created_at, id; `next_id` is where the supply of `uuid7` is.
pub record Db : Type 0 where
  pub budgets : List BudgetRow
  pub states : ℕ → String → Option PeriodState
  pub ledger : List LedgerRow
  pub alerts : List AlertRow
  pub next_id : ℕ

pub data Error : Type 0 where
  budget_exceeded : Error
  -- BUDGET_STATE_UNKNOWN and EXECUTION_BUDGET_UNEVALUABLE
  state_unknown unevaluable : Error
  value_error lookup_error : Error
  -- SQLAlchemyError: a constraint refuses the statement, or the connection is lost.
  database_error : Error

pub record BudgetCommand : Type 0 where
  pub application_id : Option ℕ
  pub execution_id : Option String
  pub estimated_micros : ℕ
  pub price_version : Option ℕ

pub record BudgetReservation : Type 0 where
  pub budget_id : ℕ
  pub scope : Scope
  pub period_key : String
  pub amount_micros : ℕ
  pub ledger_entry_id : ℕ
  pub contingency : Bool

pub record BudgetReservationBundle : Type 0 where
  pub command : BudgetCommand
  pub entries : List BudgetReservation
  pub alerts : List (Scope × Decision)

pub record Level : Type 0 where
  pub budget_id : ℕ
  pub scope : Scope
  pub period_key : String
  pub limit_micros : ℕ
  pub contingency_micros : ℕ
  pub unknown_policy : UnknownPolicy

abbrev pub uuid7 : Action Db Error ℕ
uuid7 db = (ok db.next_id, record db { next_id = db.next_id + 1 })

-- The row that `_ensure_state_row` inserts.
abbrev pub default_state : PeriodState
default_state = record {
  reserved_micros = 0;
  consumed_micros = 0;
  allowance_micros = pos 0;
  contingency_reserved_micros = 0;
  version = 1;
}

abbrev pub put_state :
    ℕ → String → PeriodState → (ℕ → String → Option PeriodState) → ℕ → String → Option PeriodState
put_state b p row states b' p' = if (b == b') && str_eq p p' then some row else states b' p'
