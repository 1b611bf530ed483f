-- ===== src/Budgets/Reserve.antt =====
-- `BudgetService.reserve` of trpc_service/budgets.py, up to the end of its transaction.
pub mod Account
pub mod Levels
pub mod Loop
pub mod Limits
use trpc_agent_service_douzh.Prelude.{
  ℕ, ◌+◌, String, List, [], ◌∷◌, ◌++◌, Option, none, some, Bool, true, false, leb, if◌then◌else◌,
}
use trpc_agent_service_douzh.Prelude.Int.{ℤ, pos, ◌+ℤ◌, leb_ℤ}
use trpc_agent_service_douzh.Prelude.Action.{
  Action, ok, pure, raise, gets, transaction, ◌>>=◌, ◌>>◌,
}
use trpc_agent_service_douzh.Budgets.Schema.{
  Scope, Decision, reject, reserve_entry, reject_entry, release_entry, PeriodState, AlertRow, Db,
  Error, budget_exceeded, BudgetCommand, BudgetReservation, BudgetReservationBundle, Level, uuid7,
  default_state, put_state,
}
use trpc_agent_service_douzh.Budgets.Pricing.{evaluate_level}
use trpc_agent_service_douzh.Budgets.Levels.{Calendar, applicable_levels}
use trpc_agent_service_douzh.Budgets.Ledger.{
  ensure_state_row, update_state, unreserve, append_ledger, insert_alert,
}

-- SELECT … FOR UPDATE, after the row has been ensured.
abbrev pub state_or_default : Option PeriodState → PeriodState
state_or_default none = default_state
state_or_default (some row) = row

abbrev pub effective_limit : Level → PeriodState → ℤ
effective_limit level state = pos level.limit_micros +ℤ state.allowance_micros

abbrev pub used_after : PeriodState → ℕ → ℕ
used_after state amount = state.reserved_micros + state.consumed_micros + amount

-- The conditional UPDATE … RETURNING version, which returns no row beyond the limit.
unfoldable pub try_reserve : Level → ℕ → ℤ → Action Db Error (Option ℕ)
try_reserve level amount limit db = elim (db.states level.budget_id level.period_key) [
  | none ↦ (ok none, db)
  | some row ↦
      if leb_ℤ (pos (used_after row amount)) limit
      then (
        ok (some (row.version + 1)),
        record db {
          states =
              put_state level.budget_id level.period_key
                (record row {
                  reserved_micros = row.reserved_micros + amount;
                  version = row.version + 1;
                })
                db.states;
        },
      )
      else (ok none, db)
]

-- The alert of a decision, recorded once for a budget, a period and a level.
unfoldable pub raise_alert : Level → ℕ → Option Decision → Action Db Error (List (Scope × Decision))
raise_alert level used none = pure []
raise_alert level used (some decision) = do
  inserted ← insert_alert (record {
    budget_id = level.budget_id;
    period_key = level.period_key;
    level = decision;
    used_micros = used;
    limit_micros = level.limit_micros;
  })
  pure (if inserted then (level.scope, decision) ∷ [] else [])

-- What `_reserve_level` does once the conditional update has gone through.
unfoldable pub secure_level :
    BudgetCommand
    → Level
    → ℕ
    → Option Decision
    → Action Db Error (Option (BudgetReservation × List (Scope × Decision)))
secure_level command level used decision = do
  entry_id ← uuid7
  append_ledger command level.budget_id level.period_key reserve_entry command.estimated_micros
      entry_id false "" "system"
  alerts ← raise_alert level used decision
  pure (
      some (
        record {
          budget_id = level.budget_id;
          scope = level.scope;
          period_key = level.period_key;
          amount_micros = command.estimated_micros;
          ledger_entry_id = entry_id;
          contingency = false;
        },
        alerts,
      ))

-- The conditional update, after the decision on the locked state.
unfoldable pub attempt_level :
    BudgetCommand
    → Level
    → PeriodState
    → Option Decision
    → Action Db Error (Option (BudgetReservation × List (Scope × Decision)))
attempt_level command level state decision = do
  updated ← try_reserve level command.estimated_micros (effective_limit level state)
  elim updated [
    | none ↦ pure none
    | some _ ↦ secure_level command level (used_after state command.estimated_micros) decision
  ]

abbrev pub decide_level :
    BudgetCommand
    → Level
    → PeriodState
    → Option Decision
    → Action Db Error (Option (BudgetReservation × List (Scope × Decision)))
decide_level command level state (some reject) = pure none
decide_level command level state decision = attempt_level command level state decision

unfoldable pub reserve_level :
    BudgetCommand → Level → Action Db Error (Option (BudgetReservation × List (Scope × Decision)))
reserve_level command level = do
  ensure_state_row level.budget_id level.period_key
  state ← gets (λ db. state_or_default (db.states level.budget_id level.period_key))
  decide_level command level state
      (evaluate_level (used_after state command.estimated_micros) (effective_limit level state))

-- The loop over the levels: what was secured, the alerts, and the level that stopped it.
pub record Secured : Type 0 where
  pub entries : List BudgetReservation
  pub alerts : List (Scope × Decision)
  pub rejected : Option Level

unfoldable pub reserve_levels :
    BudgetCommand
    → List Level
    → List BudgetReservation
    → List (Scope × Decision)
    → Action Db Error Secured
reserve_levels command [] entries alerts =
    pure (record { entries = entries; alerts = alerts; rejected = none })
reserve_levels command (level ∷ levels) entries alerts = do
  result ← reserve_level command level
  elim result [
    | none ↦ pure (record { entries = entries; alerts = alerts; rejected = some level })
    | some (entry, level_alerts) ↦
        reserve_levels command levels (entries ++ (entry ∷ [])) (alerts ++ level_alerts)
  ]

-- `_compensate_level`, for each secured entry.
unfoldable pub compensate_level : BudgetCommand → BudgetReservation → Action Db Error Bool
compensate_level command entry = do
  update_state entry.budget_id entry.period_key (unreserve entry.amount_micros)
  append_ledger command entry.budget_id entry.period_key release_entry entry.amount_micros
      entry.ledger_entry_id entry.contingency "rejected downstream" "system"

unfoldable pub compensate : BudgetCommand → List BudgetReservation → Action Db Error Unit
compensate command [] = pure tt
compensate command (entry ∷ entries) = do compensate_level command entry; compensate command entries

-- The end of the transaction: a bundle, or the evidence of the rejection. `true` says rejected.
unfoldable pub conclude : BudgetCommand → Secured → Action Db Error (BudgetReservationBundle × Bool)
conclude command secured = elim secured.rejected [
  | none ↦
      pure (record { command = command; entries = secured.entries; alerts = secured.alerts }, false)
  | some level ↦ do
    compensate command secured.entries
    reject_id ← uuid7
    append_ledger command level.budget_id level.period_key reject_entry command.estimated_micros
        reject_id false "limit exhausted" "system"
    pure (record { command = command; entries = []; alerts = [] }, true)
]

unfoldable pub reserve_transaction :
    Calendar → ℕ → BudgetCommand → Action Db Error (BudgetReservationBundle × Bool)
reserve_transaction calendar moment command = transaction (do
  levels ← applicable_levels calendar moment command
  secured ← reserve_levels command levels [] []
  conclude command secured)
