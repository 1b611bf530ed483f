-- ===== src/Budgets/Settle/Compensation.antt =====
-- The compensation of a rejected `reserve` of trpc_service/budgets.py.
use trpc_agent_service_douzh.Prelude.{◌≤◌, List, [], ◌∷◌, ◌≡◌, refl, arith, Bool}
use trpc_agent_service_douzh.Prelude.Action.{ok}
use trpc_agent_service_douzh.Budgets.Schema.{Db, BudgetCommand, BudgetReservation, release_entry}
use trpc_agent_service_douzh.Budgets.Ledger.{update_state, unreserve}
use trpc_agent_service_douzh.Budgets.Reserve.{compensate_level, compensate}
use trpc_agent_service_douzh.Budgets.Reserve.Account.{
  account, append_ledger-total, append_ledger-frame,
}
use trpc_agent_service_douzh.Budgets.Settle.Closing.{update-unreserve}
use trpc_agent_service_douzh.Budgets.Settle.Loops.{IsDone, Covers, Covers-head}

compensate_level-IsDone :
    (command : BudgetCommand) (e : BudgetReservation) (db : Db)
    → e.amount_micros ≤ (account db e.budget_id e.period_key).reserved_micros
    → (added : Bool) × (compensate_level command e db
        ≡ (ok added, (compensate_level command e db).1))
      × IsDone (e ∷ []) (λ b p. 0) db (compensate_level command e db).1
unfolding compensate_level
compensate_level-IsDone command e db enough =
    let m = update_state e.budget_id e.period_key (unreserve e.amount_micros) db in
    let (done, ledger, moved) =
      update-unreserve e.budget_id e.period_key e.amount_micros db enough in
    let (added, e₁) =
      append_ledger-total command e.budget_id e.period_key release_entry e.amount_micros
        e.ledger_entry_id e.contingency "rejected downstream" "system" m.1 refl in
    let frame =
      append_ledger-frame command e.budget_id e.period_key release_entry e.amount_micros
        e.ledger_entry_id e.contingency "rejected downstream" "system" m.1 in
    let last : (compensate_level command e db).1.states ≡ m.1.states =
      ground (arith, done, frame.0) in
    (
      added,
      ground (arith, done, e₁),
      record {
        reserved = λ b p. ground (arith, last, (moved b p).0);
        consumed = λ b p. ground (arith, last, (moved b p).1);
        allowance = λ b p. ground (arith, last, (moved b p).2);
        drawn = λ b p. ground (arith, last, (moved b p).3);
      },
    )

pub compensate-IsDone :
    (command : BudgetCommand) (entries : List BudgetReservation) (db : Db)
    → Covers db entries
    → (compensate command entries db ≡ (ok tt, (compensate command entries db).1))
      × IsDone entries (λ b p. 0) db (compensate command entries db).1
unfolding compensate
compensate-IsDone command [] db c = (
  refl,
  record {
    reserved = λ b p. omega arith;
    consumed = λ b p. omega arith;
    allowance = λ b p. refl;
    drawn = λ b p. refl;
  },
)
compensate-IsDone command (e ∷ entries) db c =
    let (added, done, s) = compensate_level-IsDone command e db (Covers-head e entries db c) in
    let db₁ : Db = (compensate_level command e db).1 in
    let (rest, r) =
      compensate-IsDone command entries db₁ (λ b p. omega (arith, c b p, s.reserved b p)) in
    let step : compensate command (e ∷ entries) db ≡ compensate command entries db₁ =
      ground (arith, done) in
    rw step (
      rest,
      record {
        reserved = λ b p. omega (arith, r.reserved b p, s.reserved b p);
        consumed = λ b p. ground (arith, r.consumed b p, s.consumed b p);
        allowance = λ b p. ground (arith, r.allowance b p, s.allowance b p);
        drawn = λ b p. ground (arith, r.drawn b p, s.drawn b p);
      },
    )
