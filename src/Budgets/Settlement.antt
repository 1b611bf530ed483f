-- ===== src/Budgets/Settlement.antt =====
-- What `settle` of trpc_service/budgets.py charges.
pub mod Replay
use mathlib.Core.List.{append_assoc}
use trpc_agent_service_douzh.Prelude.{
  ℕ, ◌+◌, ◌-◌, ◌≤◌, ◌<◌, String, List, [], ◌∷◌, ◌++◌, Option, none, some, Bool, true, false, ◌||◌,
  ◌≡◌, refl, arith, All, inl, inr, Option-cases, Bool-cases, sym, ◌∙◌, exists, leb, leb→le,
  str_eq_refl,
}
use trpc_agent_service_douzh.Prelude.Action.{
  Result, ok, err, transaction, ◌>>=◌, ◌>>◌, Action-cases,
}
use trpc_agent_service_douzh.Budgets.Schema.{
  PeriodState, LedgerRow, Db, Error, BudgetCommand, BudgetReservation, BudgetReservationBundle,
  settle_entry, EntryType, Scope, Decision, database_error,
}
use trpc_agent_service_douzh.Budgets.Levels.{Calendar}
use trpc_agent_service_douzh.Budgets.Levels.Rows.{HaveIds}
use trpc_agent_service_douzh.Budgets.Ledger.{
  update_state, append_ledger, consume, same_entry, ledger_row,
}
use trpc_agent_service_douzh.Budgets.Reserve.{reserve_transaction}
use trpc_agent_service_douzh.Budgets.Reserve.Account.{account, IsOpenFrom, is_key}
use trpc_agent_service_douzh.Budgets.Settle.{charge, settle, settle_one, settle_entries}
use trpc_agent_service_douzh.Budgets.Settle.Loops.{charged, settle_entries-IsDone}
use trpc_agent_service_douzh.Budgets.Settle.Closing.{append_new}
use trpc_agent_service_douzh.Budgets.Reservations.{reserve-IsWithin_limits}

positive :
    (n : ℕ) (entries : List BudgetReservation)
    → 1 ≤ n
    → All (λ (e : BudgetReservation). e.amount_micros ≡ n) entries
    → All (λ (e : BudgetReservation). 1 ≤ e.amount_micros) entries
positive n [] h all = tt
positive n (e ∷ entries) h all = (omega (arith, all.0), positive n entries h all.1)

-- Where budgets have different identifiers and the ledger closes only reservations made so far, a
-- granted reservation of a positive estimate can always be settled: no account holds any of it
-- afterwards, and each has consumed the actual cost of each entry, or the estimate where no actual
-- cost is known.
pub settle_charges :
    (calendar : Calendar) (moment : ℕ) (command : BudgetCommand) (db db' : Db)
    (bundle : BudgetReservationBundle) (actual : Option ℕ)
    → HaveIds db.budgets
    → IsOpenFrom db.next_id db.ledger
    → 1 ≤ command.estimated_micros
    → reserve_transaction calendar moment command db ≡ (ok (bundle, false), db')
    → ((settle bundle actual db').0 ≡ ok tt)
      × ((b : ℕ) (p : String)
          → ((account (settle bundle actual db').1 b p).reserved_micros
              ≡ (account db b p).reserved_micros)
            × ((account (settle bundle actual db').1 b p).consumed_micros
                ≡ (account db b p).consumed_micros + charged actual b p bundle.entries))
unfolding settle
settle_charges calendar moment command db db' bundle actual ids o some_cost h =
    let (levels, found, within, moved, own) =
      reserve-IsWithin_limits calendar moment command db db' bundle ids o h in
    let (done, s) =
      settle_entries-IsDone actual bundle.command bundle.entries db.next_id db'.next_id db'
        moved.open_from moved.ids (λ b p. omega (arith, moved.reserved b p))
        (positive command.estimated_micros bundle.entries some_cost moved.amounts) in
    rw (done, transaction)
      (
        refl,
        λ b p. (
          omega (arith, s.reserved b p, moved.reserved b p),
          omega (arith, s.consumed b p, moved.consumed b p),
        ),
      )
