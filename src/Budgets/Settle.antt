-- ===== src/Budgets/Settle.antt =====
-- `settle`, `release` and `adjust` of BudgetService in trpc_service/budgets.py.
pub mod Closing
pub mod Loops
pub mod Compensation
use trpc_agent_service_douzh.Prelude.{
  ℕ, String, List, [], ◌∷◌, Option, none, some, Bool, true, false, ◌==◌, if◌then◌else◌, find,
}
use trpc_agent_service_douzh.Prelude.Int.{ℤ, pos_part}
use trpc_agent_service_douzh.Prelude.Action.{
  Action, pure, raise, gets, or_raise, transaction, ◌>>=◌, ◌>>◌,
}
use trpc_agent_service_douzh.Budgets.Schema.{
  Scope, execution, settle_entry, release_entry, adjust_entry, BudgetRow, Db, Error, value_error,
  lookup_error, BudgetCommand, BudgetReservation, BudgetReservationBundle, uuid7,
}
use trpc_agent_service_douzh.Budgets.Levels.{Calendar, period_key_for}
use trpc_agent_service_douzh.Budgets.Ledger.{
  ensure_state_row, update_state, unreserve, consume, allow, append_ledger,
}

abbrev pub charge : Option ℕ → BudgetReservation → ℕ
charge none entry = entry.amount_micros
charge (some actual) entry = actual

-- One round of the loop of `settle`: a replayed row leaves the period alone.
unfoldable pub settle_one : Option ℕ → BudgetCommand → BudgetReservation → Action Db Error Unit
settle_one actual command entry = do
  inserted ←
      append_ledger command entry.budget_id entry.period_key settle_entry (charge actual entry)
        entry.ledger_entry_id entry.contingency "" "system"
  if inserted
      then update_state entry.budget_id entry.period_key
          (consume entry.amount_micros (charge actual entry))
      else pure tt

unfoldable pub settle_entries :
    Option ℕ → BudgetCommand → List BudgetReservation → Action Db Error Unit
settle_entries actual command [] = pure tt
settle_entries actual command (entry ∷ entries) = do
  settle_one actual command entry
  settle_entries actual command entries

unfoldable pub settle : BudgetReservationBundle → Option ℕ → Action Db Error Unit
settle bundle actual = transaction (settle_entries actual bundle.command bundle.entries)

unfoldable pub release_one : String → BudgetCommand → BudgetReservation → Action Db Error Unit
release_one reason command entry = do
  inserted ←
      append_ledger command entry.budget_id entry.period_key release_entry entry.amount_micros
        entry.ledger_entry_id entry.contingency reason "system"
  if inserted
      then update_state entry.budget_id entry.period_key (unreserve entry.amount_micros)
      else pure tt

unfoldable pub release_entries :
    String → BudgetCommand → List BudgetReservation → Action Db Error Unit
release_entries reason command [] = pure tt
release_entries reason command (entry ∷ entries) = do
  release_one reason command entry
  release_entries reason command entries

unfoldable pub release : BudgetReservationBundle → String → Action Db Error Unit
release bundle reason = transaction (release_entries reason bundle.command bundle.entries)

abbrev is_execution : Scope → Bool
is_execution execution = true
is_execution _ = false

-- The command that `adjust` records.
abbrev adjust_command : BudgetRow → BudgetCommand
adjust_command row = record {
  application_id = row.application_id;
  execution_id = none;
  estimated_micros = 0;
  price_version = none;
}

-- `describe` writes the reason with its delta, `f"{reason} (delta {delta_micros})"`.
unfoldable pub adjust :
    Calendar
    → (String → ℤ → String)
    → (moment budget_id : ℕ) → ℤ
    → (reason actor : String) → Action Db Error Unit
adjust calendar describe moment budget_id delta reason actor = transaction (do
  found ← gets (λ db. find (λ (row : BudgetRow). row.id == budget_id) db.budgets)
  row ← or_raise found lookup_error
  if is_execution row.scope then raise value_error else pure tt
  period_key ← period_key_for calendar row.scope moment none
  ensure_state_row budget_id period_key
  update_state budget_id period_key (allow delta)
  reserve_id ← uuid7
  append_ledger (adjust_command row) budget_id period_key adjust_entry (pos_part delta) reserve_id
      false (describe reason delta) actor
  pure tt)
