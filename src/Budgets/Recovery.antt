-- ===== src/Budgets/Recovery.antt =====
-- `reserve` of BudgetService in trpc_service/budgets.py with the database that may fail, and
-- `_apply_unknown_policy`, which draws on the contingency allowance when the outcome is unknown.
pub mod Draws
use trpc_agent_service_douzh.Prelude.{
  ℕ, ◌+◌, List, [], ◌∷◌, ◌++◌, Option, none, some, Bool, true, false, ◌&&◌, not, leb, ◌==◌, min,
  select, if◌then◌else◌,
}
use trpc_agent_service_douzh.Prelude.Action.{Action, ok, err, pure, raise, transaction, ◌>>=◌, ◌>>◌}
use trpc_agent_service_douzh.Budgets.Schema.{
  UnknownPolicy, contingency, fail_closed, reserve_entry, Db, Error, budget_exceeded, state_unknown,
  database_error, BudgetCommand, BudgetReservation, BudgetReservationBundle, Level, uuid7,
  put_state,
}
use trpc_agent_service_douzh.Budgets.Levels.{Calendar, applicable_levels}
use trpc_agent_service_douzh.Budgets.Ledger.{append_ledger}
use trpc_agent_service_douzh.Budgets.Reserve.{reserve_transaction}

-- How the database answers a transaction: as it should, or with an error, after it has lost the
-- writes or after it has committed them.
pub data Outcome : Type 0 where
  answered lost committed_unseen : Outcome

abbrev pub observed : {A : Type 0} → Outcome → Action Db Error A → Action Db Error A
observed answered m db = m db
observed lost m db = (err database_error, db)
observed committed_unseen m db = (err database_error, (m db).1)

abbrev is_contingency : UnknownPolicy → Bool
is_contingency contingency = true
is_contingency fail_closed = false

-- The levels that may draw on a contingency allowance.
abbrev pub contingent : List Level → List Level
contingent =
    select
      λ (level : Level). is_contingency level.unknown_policy && not (level.contingency_micros == 0)

-- The conditional UPDATE of contingency_reserved_micros.
unfoldable pub try_draw : Level → ℕ → Action Db Error Bool
try_draw level amount db = elim (db.states level.budget_id level.period_key) [
  | none ↦ (ok false, db)
  | some row ↦
      if leb (row.contingency_reserved_micros + amount) level.contingency_micros
      then (
        ok true,
        record db {
          states =
              put_state level.budget_id level.period_key
                (record row {
                  contingency_reserved_micros = row.contingency_reserved_micros + amount;
                  version = row.version + 1;
                })
                db.states;
        },
      )
      else (ok false, db)
]

abbrev pub contingency_entry : Level → ℕ → ℕ → BudgetReservation
contingency_entry level amount entry_id = record {
  budget_id = level.budget_id;
  scope = level.scope;
  period_key = level.period_key;
  amount_micros = amount;
  ledger_entry_id = entry_id;
  contingency = true;
}

-- The loop over the contingent levels; a level that cannot cover its draw ends it with None, inside
-- the transaction.
unfoldable pub draw_levels :
    BudgetCommand
    → List Level
    → List BudgetReservation
    → Action Db Error (Option (List BudgetReservation))
draw_levels command [] entries = pure (some entries)
draw_levels command (level ∷ levels) entries =
    let amount = min command.estimated_micros level.contingency_micros in
    do
      reserved ← try_draw level amount
      elim reserved [
        | false ↦ pure none
        | true ↦ do
          entry_id ← uuid7
          append_ledger command level.budget_id level.period_key reserve_entry amount entry_id true
              "contingency allowance after unknown budget state" "system"
          draw_levels command levels (entries ++ (contingency_entry level amount entry_id ∷ []))
      ]

unfoldable pub draw_contingency :
    BudgetCommand → List Level → Action Db Error (Option BudgetReservationBundle)
draw_contingency command [] = pure none
draw_contingency command (level ∷ levels) = do
  drawn ← draw_levels command (level ∷ levels) []
  elim drawn [
    | none ↦ pure none
    | some entries ↦ pure (some (record { command = command; entries = entries; alerts = [] }))
  ]

-- `except SQLAlchemyError: return None`
abbrev or_none : {A : Type 0} → Action Db Error (Option A) → Action Db Error (Option A)
or_none m db =
    let (r, db') = m db in elim r [ err database_error ↦ (ok none, db') | other ↦ (other, db') ]

unfoldable pub apply_unknown_policy :
    Calendar → ℕ → BudgetCommand → Outcome → Action Db Error (Option BudgetReservationBundle)
apply_unknown_policy calendar moment command outcome = or_none (
    observed outcome (
      transaction (do
        levels ← applicable_levels calendar moment command
        draw_contingency command (contingent levels))))

-- What `reserve` does with the end of its transaction: it raises after the evidence of a rejection
-- has been committed, and asks the policy for unknown outcomes after a database error.
unfoldable pub reserve :
    Calendar
    → ℕ
    → BudgetCommand
    → (outcome recovery : Outcome) → Action Db Error BudgetReservationBundle
reserve calendar moment command outcome recovery db =
    let (r, db') = observed outcome (reserve_transaction calendar moment command) db in
    elim r [
      | ok (bundle, true) ↦ (err budget_exceeded, db')
      | ok (bundle, false) ↦ (ok bundle, db')
      | err database_error ↦
          (do
            recovered ← apply_unknown_policy calendar moment command recovery
            elim recovered [ some bundle ↦ pure bundle | none ↦ raise state_unknown ])
            db'
      | err e ↦ (err e, db')
    ]
