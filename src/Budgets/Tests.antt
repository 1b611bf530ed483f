-- ===== src/Budgets/Tests.antt =====
-- Runs of trpc_service/budgets.py on a tenant with two budgets, and the theorems at inputs of it.
use trpc_agent_service_douzh.Prelude.{
  ℕ, String, List, [], ◌∷◌, none, some, Bool, true, false, ◌≡◌, refl, arith, ◌+◌, ◌≤◌, All,
}
use trpc_agent_service_douzh.Prelude.Int.{◌+ℤ◌}
use trpc_agent_service_douzh.Prelude.Action.{ok, err}
use trpc_agent_service_douzh.Budgets.Schema.{
  Scope, tenant_monthly, agent_daily, fail_closed, contingency, BudgetRow, Db, BudgetCommand,
  BudgetReservation, BudgetReservationBundle, Level, default_state, database_error, put_state,
}
use trpc_agent_service_douzh.Budgets.Pricing.{evaluate_level, estimate_cost_micros}
use trpc_agent_service_douzh.Budgets.Levels.{
  Calendar, level_of, period_key_for, levels_from, applicable_levels,
}
use trpc_agent_service_douzh.Budgets.Levels.Rows.{HaveIds}
use trpc_agent_service_douzh.Budgets.Ledger.{
  ensure_state_row, update_state, append_ledger, insert_alert,
}
use trpc_agent_service_douzh.Budgets.Reserve.{
  try_reserve, raise_alert, secure_level, attempt_level, reserve_level, reserve_levels,
  compensate_level, compensate, conclude, reserve_transaction,
}
use trpc_agent_service_douzh.Budgets.Reserve.Account.{account}
use trpc_agent_service_douzh.Budgets.Reserve.Limits.{IsWithin}
use trpc_agent_service_douzh.Budgets.Reserve.Loop.{IsHeld}
use trpc_agent_service_douzh.Budgets.Settle.{
  settle_one, settle_entries, settle, release_one, release_entries, release,
}
use trpc_agent_service_douzh.Budgets.Settle.Loops.{charged}
use trpc_agent_service_douzh.Budgets.Recovery.{
  try_draw, draw_levels, draw_contingency, apply_unknown_policy, reserve, lost, answered,
}
use trpc_agent_service_douzh.Budgets.Recovery.Draws.{draw_levels-IsKept}
use trpc_agent_service_douzh.Budgets.Reservations.{
  reserve-IsWithin_limits, reserve_rejected, release_undoes_reserve,
}
use trpc_agent_service_douzh.Budgets.Reservations.Transaction.{SameAccounts}
use trpc_agent_service_douzh.Budgets.Settlement.{settle_charges}
use trpc_agent_service_douzh.Budgets.Settlement.Replay.{settle_replay}

-- What the runs compute through.
program : Unit {0}
unfolding evaluate_level estimate_cost_micros period_key_for levels_from applicable_levels
    ensure_state_row update_state append_ledger insert_alert try_reserve raise_alert secure_level
    attempt_level reserve_level reserve_levels compensate_level compensate conclude
    reserve_transaction settle_one settle_entries settle release_one release_entries release
    try_draw draw_levels draw_contingency apply_unknown_policy reserve ◌+ℤ◌
program = tt

abbrev calendar : Calendar
calendar = record { monthly_period_key = λ _. "2026-01"; daily_period_key = λ _. "2026-01-02" }

abbrev monthly : BudgetRow
monthly = record {
  id = 1;
  scope = tenant_monthly;
  application_id = none;
  limit_micros = 1000;
  contingency_micros = 50;
  unknown_policy = contingency;
}

abbrev daily : BudgetRow
daily = record {
  id = 2;
  scope = agent_daily;
  application_id = some 7;
  limit_micros = 100;
  contingency_micros = 0;
  unknown_policy = fail_closed;
}

abbrev start : Db
start = record {
  budgets = monthly ∷ daily ∷ [];
  states = λ _ _. none;
  ledger = [];
  alerts = [];
  next_id = 10;
}

abbrev command : ℕ → BudgetCommand
command cost = record {
  application_id = some 7;
  execution_id = none;
  estimated_micros = cost;
  price_version = none;
}

abbrev entry : ℕ → Scope → String → ℕ → Bool → BudgetReservation
entry b scope p id drawn = record {
  budget_id = b;
  scope = scope;
  period_key = p;
  amount_micros = 40;
  ledger_entry_id = id;
  contingency = drawn;
}

abbrev bundle : BudgetReservationBundle
bundle = record {
  command = command 40;
  entries =
      entry 1 tenant_monthly "2026-01" 10 false ∷ entry 2 agent_daily "2026-01-02" 12 false ∷ [];
  alerts = [];
}

-- An estimate that the daily budget refuses, after the monthly one secured it.
abbrev refused : BudgetReservationBundle
refused = record { command = command 400; entries = []; alerts = [] }

abbrev reserved : Db
reserved = (reserve_transaction calendar 5 (command 40) start).1

abbrev after_rejection : Db
after_rejection = (reserve_transaction calendar 5 (command 400) start).1

abbrev settled : Db
settled = (settle bundle (some 33) reserved).1

-- The monthly budget alone, after the database lost the transaction.
abbrev monthly_only : Db
monthly_only = record start {
  budgets = monthly ∷ [];
  states = put_state 1 "2026-01" default_state start.states;
}

abbrev recovered : Db
recovered = (reserve calendar 5 (command 40) lost answered monthly_only).1

have_ids : HaveIds start.budgets
have_ids = ((omega arith, tt), (tt, tt))

reserve-bundle : reserve_transaction calendar 5 (command 40) start ≡ (ok (bundle, false), reserved)
unfolding program
reserve-bundle = refl

reserve_refused :
    reserve_transaction calendar 5 (command 400) start ≡ (ok (refused, true), after_rejection)
unfolding program
reserve_refused = refl

settle-bundle : settle bundle (some 33) reserved ≡ (ok tt, settled)
unfolding program
settle-bundle = refl

consumed_settled : (account settled 2 "2026-01-02").consumed_micros ≡ 33
unfolding program
consumed_settled = refl

recovered_bundle :
    (reserve calendar 5 (command 40) lost answered monthly_only).0
    ≡ ok (record {
      command = command 40;
      entries = entry 1 tenant_monthly "2026-01" 10 true ∷ [];
      alerts = [];
    })
unfolding program
recovered_bundle = refl

recovered_unsettled :
    settle
      (record {
        command = command 40;
        entries = entry 1 tenant_monthly "2026-01" 10 true ∷ [];
        alerts = [];
      })
      (some 33)
      recovered
    ≡ (err database_error, recovered)
unfolding program
recovered_unsettled = refl

reserve-IsWithin_limits_example :
    (levels : List Level) × (applicable_levels calendar 5 (command 40) start ≡ (ok levels, start))
    × All (IsWithin reserved) levels
    × IsHeld (command 40) start bundle.entries reserved
    × (bundle.command ≡ command 40)
reserve-IsWithin_limits_example =
    reserve-IsWithin_limits calendar 5 (command 40) start reserved bundle have_ids tt reserve-bundle

reserve_rejected_example : (refused.entries ≡ []) × SameAccounts start after_rejection
reserve_rejected_example =
    reserve_rejected calendar 5 (command 400) start after_rejection refused tt reserve_refused

release_undoes_reserve_example :
    ((release bundle "cancelled" reserved).0 ≡ ok tt)
    × SameAccounts start (release bundle "cancelled" reserved).1
release_undoes_reserve_example =
    release_undoes_reserve calendar 5 (command 40) start reserved bundle "cancelled" have_ids tt
      reserve-bundle (omega arith)

settle_charges_example :
    ((settle bundle (some 33) reserved).0 ≡ ok tt)
    × ((b : ℕ) (p : String)
        → ((account (settle bundle (some 33) reserved).1 b p).reserved_micros
            ≡ (account start b p).reserved_micros)
          × ((account (settle bundle (some 33) reserved).1 b p).consumed_micros
              ≡ (account start b p).consumed_micros + charged (some 33) b p bundle.entries))
settle_charges_example =
    settle_charges calendar 5 (command 40) start reserved bundle (some 33) have_ids tt (omega arith)
      reserve-bundle

settle_replay_example :
    ((settle bundle none settled).0 ≡ ok tt)
    × ((settle bundle none settled).1.states ≡ settled.states)
    × ((settle bundle none settled).1.ledger ≡ settled.ledger)
settle_replay_example = settle_replay bundle (some 33) none reserved settled settle-bundle

abbrev drawn : Db
drawn = record start {
  states =
      put_state 1 "2026-01" (record default_state { contingency_reserved_micros = 40 })
        start.states;
}

abbrev monthly_level : Level
monthly_level = level_of monthly "2026-01"

draw_levels-IsKept_example :
    let db = (draw_levels (command 40) (monthly_level ∷ monthly_level ∷ []) [] monthly_only).1 in
    (0 ≤ 50 → (account db 1 "2026-01").contingency_reserved_micros ≤ 50)
    × ((account db 1 "2026-01").reserved_micros ≡ 0)
    × ((account db 1 "2026-01").consumed_micros ≡ 0)
draw_levels-IsKept_example =
    draw_levels-IsKept 50 1 "2026-01" (command 40) (monthly_level ∷ monthly_level ∷ []) []
      monthly_only (λ e. omega arith, (λ e. omega arith, tt))
