-- ===== src/Budgets/Reservations.antt =====
-- The life of a reservation in trpc_service/budgets.py: `reserve` within the limits, or a rejection
-- that leaves the accounts alone; then `settle` or `release`.
pub mod Transaction
use trpc_agent_service_douzh.Prelude.{
  char_count, ℕ, ◌+◌, ◌≤◌, String, List, [], ◌∷◌, Option, none, some, Bool, true, false, ◌≡◌, refl,
  arith, All, inl, inr, Option-cases, sym, ◌∙◌,
}
use trpc_agent_service_douzh.Prelude.Action.{
  Result, ok, err, transaction, ◌>>=◌, ◌>>◌, Action-cases,
}
use trpc_agent_service_douzh.Budgets.Schema.{
  PeriodState, Db, Error, BudgetCommand, BudgetReservation, BudgetReservationBundle, Level,
  release_entry, reject_entry,
}
use trpc_agent_service_douzh.Budgets.Levels.{Calendar, applicable_levels}
use trpc_agent_service_douzh.Budgets.Levels.Rows.{HaveIds, IsKept, applicable_levels-IsKept}
use trpc_agent_service_douzh.Budgets.Ledger.{update_state, append_ledger, unreserve}
use trpc_agent_service_douzh.Budgets.Reserve.{
  Secured, reserve_levels, compensate_level, compensate, conclude, reserve_transaction,
}
use trpc_agent_service_douzh.Budgets.Reserve.Account.{
  account, IsOpenFrom, append_ledger-total, append_ledger-frame,
}
use trpc_agent_service_douzh.Budgets.Reserve.Loop.{held, Ids, IsHeld, reserve_levels-IsHeld}
use trpc_agent_service_douzh.Budgets.Reserve.Limits.{IsWithin, reserve_levels-IsWithin}
use trpc_agent_service_douzh.Budgets.Settle.{settle, release, settle_entries, release_entries}
use trpc_agent_service_douzh.Budgets.Settle.Loops.{
  charged, IsDone, Covers, release_entries-IsDone, settle_entries-IsDone,
}
use trpc_agent_service_douzh.Budgets.Settle.Compensation.{compensate-IsDone}
use trpc_agent_service_douzh.Budgets.Reservations.Transaction.{
  IsHeld-start, Parts, reserve_transaction-Parts, conclude-kept, conclude-rejected, SameAccounts,
}

-- Where budgets have different identifiers and the ledger closes only reservations made so far, a
-- granted reservation leaves every level that applies within its hard limit, and has moved the accounts
-- by exactly what its entries hold: the estimate under a fresh identifier for each.
pub reserve-IsWithin_limits :
    (calendar : Calendar) (moment : ℕ) (command : BudgetCommand) (db db' : Db)
    (bundle : BudgetReservationBundle)
    → HaveIds db.budgets
    → IsOpenFrom db.next_id db.ledger
    → reserve_transaction calendar moment command db ≡ (ok (bundle, false), db')
    → (levels : List Level) × (applicable_levels calendar moment command db ≡ (ok levels, db))
      × All (IsWithin db') levels
      × IsHeld command db bundle.entries db'
      × (bundle.command ≡ command)
reserve-IsWithin_limits calendar moment command db db' bundle ids o h =
    let t = reserve_transaction-Parts calendar moment command db db' (bundle, false) h in
    let kept =
      applicable_levels-IsKept calendar moment command db t.after_levels t.levels t.found in
    let (going, all, last) = conclude-kept command t.secured t.middle db' bundle t.ended in
    let looped : reserve_levels command t.levels [] [] db ≡ (ok t.secured, t.middle) =
      rw kept.same at t.looped in
    let moved =
      reserve_levels-IsHeld command t.levels db db t.middle [] [] t.secured
        (IsHeld-start command db o) looped in
    (
      t.levels,
      rw kept.same at t.found,
      rw last (
          reserve_levels-IsWithin command t.levels db t.middle [] [] t.secured (kept.distinct ids)
            looped going),
      rw (last, all) moved,
      rw all,
    )

-- Where the ledger closes only reservations made so far, a rejected reservation holds nothing and leaves
-- every account as it was.
pub reserve_rejected :
    (calendar : Calendar) (moment : ℕ) (command : BudgetCommand) (db db' : Db)
    (bundle : BudgetReservationBundle)
    → IsOpenFrom db.next_id db.ledger
    → reserve_transaction calendar moment command db ≡ (ok (bundle, true), db')
    → (bundle.entries ≡ []) × SameAccounts db db'
reserve_rejected calendar moment command db db' bundle o h =
    let t = reserve_transaction-Parts calendar moment command db db' (bundle, true) h in
    let kept =
      applicable_levels-IsKept calendar moment command db t.after_levels t.levels t.found in
    let looped : reserve_levels command t.levels [] [] db ≡ (ok t.secured, t.middle) =
      rw kept.same at t.looped in
    let moved =
      reserve_levels-IsHeld command t.levels db db t.middle [] [] t.secured
        (IsHeld-start command db o) looped in
    conclude-rejected command t.secured db t.middle db' bundle moved t.ended

-- Where budgets have different identifiers and the ledger closes only reservations made so far, a
-- granted reservation can always be released with a reason of at most 500 characters, and then every
-- account is as it was before it.
pub release_undoes_reserve :
    (calendar : Calendar) (moment : ℕ) (command : BudgetCommand) (db db' : Db)
    (bundle : BudgetReservationBundle) (reason : String)
    → HaveIds db.budgets
    → IsOpenFrom db.next_id db.ledger
    → reserve_transaction calendar moment command db ≡ (ok (bundle, false), db')
    → char_count reason ≤ 500
    → ((release bundle reason db').0 ≡ ok tt) × SameAccounts db (release bundle reason db').1
unfolding release
release_undoes_reserve calendar moment command db db' bundle reason ids o h short =
    let (levels, found, within, moved, own) =
      reserve-IsWithin_limits calendar moment command db db' bundle ids o h in
    let (done, s) =
      release_entries-IsDone reason bundle.command bundle.entries db.next_id db'.next_id db'
        moved.open_from moved.ids (λ b p. omega (arith, moved.reserved b p)) short in
    rw (done, transaction)
      (
        refl,
        λ b p. (
          omega (arith, s.reserved b p, moved.reserved b p),
          omega (arith, s.consumed b p, moved.consumed b p),
          s.allowance b p ∙ moved.allowance b p,
          s.drawn b p ∙ moved.drawn b p,
        ),
      )
