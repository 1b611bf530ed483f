-- ===== src/Budgets/Ledger.antt =====
-- The statements that trpc_service/budgets.py issues: the state row of a period and its updates, the
-- append to the immutable cost ledger and the one-time alert. A CHECK that fails, and an insertion of
-- an alert with a limit of zero does, raises a database error. Period keys have 1 to 64 characters.
use trpc_agent_service_douzh.Prelude.{
  char_count, not, ℕ, ◌+◌, ◌-◌, String, [], ◌∷◌, ◌++◌, Option, none, some, Bool, true, false, ◌&&◌,
  leb, ◌==◌, str_eq, if◌then◌else◌, exists,
}
use trpc_agent_service_douzh.Prelude.Int.{ℤ, ◌+ℤ◌}
use trpc_agent_service_douzh.Prelude.Action.{Action, ok, err, modify}
use trpc_agent_service_douzh.Budgets.Schema.{
  Decision, reject, warning_70, critical_90, EntryType, reserve_entry, settle_entry, release_entry,
  reject_entry, adjust_entry, PeriodState, LedgerRow, AlertRow, Db, Error, database_error,
  BudgetCommand, default_state, put_state,
}

-- INSERT … ON CONFLICT DO NOTHING
unfoldable pub ensure_state_row : ℕ → String → Action Db Error Unit
ensure_state_row budget_id period_key = modify λ db. elim (db.states budget_id period_key) [
  | some _ ↦ db
  | none ↦ record db { states = put_state budget_id period_key default_state db.states }
]

-- UPDATE … WHERE tenant_id, budget_id, period_key: no row, no change. A function that returns none
-- breaks a CHECK of the table.
unfoldable pub update_state : ℕ → String → (PeriodState → Option PeriodState) → Action Db Error Unit
update_state budget_id period_key f db = elim (db.states budget_id period_key) [
  | none ↦ (ok tt, db)
  | some row ↦ elim (f row) [
    | none ↦ (err database_error, db)
    | some row' ↦ (ok tt, record db { states = put_state budget_id period_key row' db.states })
  ]
]

-- reserved_micros - amount, which CHECK (reserved_micros >= 0) bounds.
abbrev pub unreserve : ℕ → PeriodState → Option PeriodState
unreserve amount row =
    if leb amount row.reserved_micros
    then some
        (record row { reserved_micros = row.reserved_micros - amount; version = row.version + 1 })
    else none

abbrev pub consume : ℕ → ℕ → PeriodState → Option PeriodState
consume amount charged row =
    if leb amount row.reserved_micros
    then some (record row {
      reserved_micros = row.reserved_micros - amount;
      consumed_micros = row.consumed_micros + charged;
      version = row.version + 1;
    })
    else none

abbrev pub allow : ℤ → PeriodState → Option PeriodState
allow delta row =
    some
      (record row { allowance_micros = row.allowance_micros +ℤ delta; version = row.version + 1 })

abbrev pub same_type : EntryType → EntryType → Bool
same_type reserve_entry reserve_entry = true
same_type settle_entry settle_entry = true
same_type release_entry release_entry = true
same_type reject_entry reject_entry = true
same_type adjust_entry adjust_entry = true
same_type _ _ = false

-- The unique index cost_ledger_entry_unique.
abbrev pub same_entry : ℕ → String → ℕ → EntryType → LedgerRow → Bool
same_entry budget_id period_key reserve_id entry_type row =
    (row.budget_id == budget_id)
    && str_eq row.period_key period_key
    && (row.reserve_id == reserve_id)
    && same_type row.entry_type entry_type

abbrev pub ledger_row :
    BudgetCommand
    → (id budget_id : ℕ) (period_key : String) → EntryType
    → (amount_micros reserve_id : ℕ) (contingency : Bool) (reason actor : String) → LedgerRow
ledger_row command id budget_id period_key entry_type amount reserve_id contingency reason actor =
    record {
      id = id;
      budget_id = budget_id;
      period_key = period_key;
      application_id = command.application_id;
      execution_id = command.execution_id;
      entry_type = entry_type;
      amount_micros = amount;
      reserve_id = reserve_id;
      contingency = contingency;
      reason = reason;
      actor = actor;
      price_version = command.price_version;
    }

-- CHECK (length(reason) <= 500) and CHECK (length(actor) BETWEEN 1 AND 256)
abbrev pub texts_ok : String → String → Bool
texts_ok reason actor =
    leb (char_count reason) 500 && (leb 1 (char_count actor) && leb (char_count actor) 256)

-- INSERT … ON CONFLICT DO NOTHING RETURNING id; true when the row is new. Its id is a `uuid7`. The
-- CHECKs come before the conflict.
unfoldable pub append_ledger :
    BudgetCommand
    → (budget_id : ℕ) (period_key : String) → EntryType
    → (amount_micros reserve_id : ℕ) (contingency : Bool) (reason actor : String)
    → Action Db Error Bool
append_ledger command budget_id period_key entry_type amount reserve_id contingency reason actor
      db =
    let row =
      ledger_row command db.next_id budget_id period_key entry_type amount reserve_id contingency
        reason actor in
    if not (texts_ok reason actor)
    then (err database_error, record db { next_id = db.next_id + 1 })
    else if exists (same_entry budget_id period_key reserve_id entry_type) db.ledger
    then (ok false, record db { next_id = db.next_id + 1 })
    else (ok true, record db { ledger = db.ledger ++ (row ∷ []); next_id = db.next_id + 1 })

abbrev pub same_level : Decision → Decision → Bool
same_level warning_70 warning_70 = true
same_level critical_90 critical_90 = true
same_level reject reject = true
same_level _ _ = false

-- The primary key of tenant.budget_alert.
abbrev pub same_alert : ℕ → String → Decision → AlertRow → Bool
same_alert budget_id period_key level row =
    (row.budget_id == budget_id) && str_eq row.period_key period_key && same_level row.level level

-- INSERT … ON CONFLICT DO NOTHING RETURNING level, under CHECK (limit_micros > 0).
unfoldable pub insert_alert : AlertRow → Action Db Error Bool
insert_alert row db =
    if row.limit_micros == 0
    then (err database_error, db)
    else if exists (same_alert row.budget_id row.period_key row.level) db.alerts
    then (ok false, db)
    else (ok true, record db { alerts = db.alerts ++ (row ∷ []) })
