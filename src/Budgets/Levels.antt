-- ===== src/Budgets/Levels.antt =====
-- Which budgets apply to a command: `period_key_for` and `_applicable_levels` of
-- trpc_service/budgets.py. The periods of a moment, `strftime` in UTC, are a parameter.
use trpc_agent_service_douzh.Prelude.{
  ℕ, String, List, [], ◌∷◌, Option, none, some, Bool, true, false, ◌==◌, if◌then◌else◌, char_count,
  is_none, ◌||◌,
}
use trpc_agent_service_douzh.Prelude.Action.{Action, pure, raise, gets, ◌>>=◌}
pub mod Rows
use trpc_agent_service_douzh.Budgets.Schema.{
  Scope, tenant_monthly, agent_daily, execution, BudgetRow, Db, Error, unevaluable, value_error,
  BudgetCommand, Level,
}

-- `f"{moment:%Y-%m}"` and `f"{moment:%Y-%m-%d}"` in UTC, of what the clock returns.
pub record Calendar : Type 0 where
  pub monthly_period_key : ℕ → String
  pub daily_period_key : ℕ → String

abbrev pub same_application : Option ℕ → Option ℕ → Bool
same_application none none = true
same_application (some a) (some b) = a == b
same_application _ _ = false

-- What one row of tenant.budget does in the loop: it is skipped, it makes the loop raise, or it
-- applies.
pub data Fit : Type 0 where
  skip refuse apply : Fit

abbrev pub fit : Scope → Option ℕ → BudgetCommand → Fit
fit tenant_monthly application_id command = apply
fit agent_daily application_id command =
    if same_application application_id command.application_id then apply else skip
fit execution application_id command = elim command.execution_id [
  | none ↦ refuse
  | some _ ↦
      if is_none application_id || same_application application_id command.application_id
      then apply
      else skip
]

-- An execution budget wants an execution id that is not empty.
unfoldable pub period_key_for : Calendar → Scope → ℕ → Option String → Action Db Error String
period_key_for calendar tenant_monthly moment execution_id =
    pure (calendar.monthly_period_key moment)
period_key_for calendar agent_daily moment execution_id = pure (calendar.daily_period_key moment)
period_key_for calendar execution moment none = raise value_error
period_key_for calendar execution moment (some id) =
    if char_count id == 0 then raise value_error else pure id

abbrev pub level_of : BudgetRow → String → Level
level_of row period_key = record {
  budget_id = row.id;
  scope = row.scope;
  period_key = period_key;
  limit_micros = row.limit_micros;
  contingency_micros = row.contingency_micros;
  unknown_policy = row.unknown_policy;
}

-- The loop over the rows.
unfoldable pub levels_from :
    Calendar → ℕ → BudgetCommand → List BudgetRow → Action Db Error (List Level)
levels_from calendar moment command [] = pure []
levels_from calendar moment command (row ∷ rows) =
    let rest = levels_from calendar moment command rows in
    elim (fit row.scope row.application_id command) [
      | skip ↦ rest
      | refuse ↦ raise unevaluable
      | apply ↦ do
        period_key ← period_key_for calendar row.scope moment command.execution_id
        levels ← rest
        pure (level_of row period_key ∷ levels)
    ]

unfoldable pub applicable_levels : Calendar → ℕ → BudgetCommand → Action Db Error (List Level)
applicable_levels calendar moment command = do
  rows ← gets (λ db. db.budgets)
  levels_from calendar moment command rows
