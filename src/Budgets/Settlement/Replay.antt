-- ===== src/Budgets/Settlement/Replay.antt =====
-- A second `settle` of trpc_service/budgets.py for the same bundle.
use trpc_agent_service_douzh.Prelude.{
  ℕ, ◌+◌, String, List, [], ◌∷◌, ◌++◌, Option, Bool, true, false, ◌≡◌, refl, arith, All, inl, inr,
  Option-cases, Bool-cases, exists, str_eq_refl,
}
use trpc_agent_service_douzh.Prelude.Action.{ok, Action-cases}
use trpc_agent_service_douzh.Budgets.Schema.{
  PeriodState, LedgerRow, Db, BudgetCommand, BudgetReservation, BudgetReservationBundle,
  settle_entry,
}
use trpc_agent_service_douzh.Budgets.Ledger.{update_state, consume, same_entry, ledger_row}
use trpc_agent_service_douzh.Budgets.Settle.Closing.{append_old, append_new}
use trpc_agent_service_douzh.Budgets.Settle.{charge, settle, settle_one, settle_entries}

-- The ledger has the settlement of an entry.
abbrev IsSettled : Db → BudgetReservation → Type 0
IsSettled db e =
    exists (same_entry e.budget_id e.period_key e.ledger_entry_id settle_entry) db.ledger ≡ true

exists-append :
    (q : LedgerRow → Bool) (xs ys : List LedgerRow)
    → exists q xs ≡ true
    → exists q (xs ++ ys) ≡ true
exists-append q [] ys h = cc
exists-append q (x ∷ xs) ys h = ground (arith, exists-append q xs ys)

exists-last :
    (q : LedgerRow → Bool) (xs : List LedgerRow) (x : LedgerRow)
    → q x ≡ true
    → exists q (xs ++ (x ∷ [])) ≡ true
exists-last q [] x h = ground arith
exists-last q (y ∷ xs) x h = ground (arith, exists-last q xs x h)

update_state-ledger :
    (b : ℕ) (p : String) (f : PeriodState → Option PeriodState) (db : Db)
    → (update_state b p f db).1.ledger ≡ db.ledger
unfolding update_state
update_state-ledger b p f db = elim (Option-cases (db.states b p)) [
  | inl absent ↦ ground (arith, absent)
  | inr (row, e) ↦ elim (Option-cases (f row)) [
    | inl broken ↦ ground (arith, e, broken)
    | inr (row', e₁) ↦ ground (arith, e, e₁)
  ]
]

module _ (actual : Option ℕ) (command : BudgetCommand) (e : BudgetReservation) (db : Db) where
  abbrev row : LedgerRow
  row =
      ledger_row command db.next_id e.budget_id e.period_key settle_entry (charge actual e)
        e.ledger_entry_id e.contingency "" "system"

  -- A settlement that the ledger has only takes an identifier.
  pub settle_one-settled :
      IsSettled db e
      → settle_one actual command e db ≡ (ok tt, record db { next_id = db.next_id + 1 })
  unfolding settle_one
  settle_one-settled h =
      let old =
        append_old command e.budget_id e.period_key settle_entry (charge actual e) e.ledger_entry_id
          e.contingency "" "system" db refl h in
      ground (arith, old)

  settle_one-ledger :
      exists (same_entry e.budget_id e.period_key e.ledger_entry_id settle_entry) db.ledger ≡ false
      → (settle_one actual command e db).1.ledger ≡ db.ledger ++ (row ∷ [])
  unfolding settle_one
  settle_one-ledger absent =
      let fresh =
        append_new command e.budget_id e.period_key settle_entry (charge actual e) e.ledger_entry_id
          e.contingency "" "system" db refl absent in
      let noted : Db = record db { ledger = db.ledger ++ (row ∷ []); next_id = db.next_id + 1 } in
      let step : settle_one actual command e db
          ≡ update_state e.budget_id e.period_key (consume e.amount_micros (charge actual e))
              noted =
        ground (arith, fresh) in
      rw step (
        update_state-ledger e.budget_id e.period_key (consume e.amount_micros (charge actual e))
          noted)

  pub settle_one-IsSettled : IsSettled (settle_one actual command e db).1 e
  settle_one-IsSettled =
      let q = same_entry e.budget_id e.period_key e.ledger_entry_id settle_entry in
      elim (Bool-cases (exists q db.ledger)) [
        | inl present ↦ rw (settle_one-settled present) present
        | inr absent ↦
            rw (settle_one-ledger absent)
              (exists-last q db.ledger row (ground (arith, str_eq_refl e.period_key)))
      ]

  pub settle_one-keeps :
      (j : BudgetReservation) → IsSettled db j → IsSettled (settle_one actual command e db).1 j
  settle_one-keeps j h =
      let q = same_entry e.budget_id e.period_key e.ledger_entry_id settle_entry in
      elim (Bool-cases (exists q db.ledger)) [
        | inl present ↦ rw (settle_one-settled present) h
        | inr absent ↦ rw (settle_one-ledger absent) (
            exists-append (same_entry j.budget_id j.period_key j.ledger_entry_id settle_entry)
              db.ledger (row ∷ []) h)
      ]

settle_entries-keeps :
    (actual : Option ℕ) (command : BudgetCommand) (entries : List BudgetReservation) (db : Db)
    (j : BudgetReservation)
    → IsSettled db j
    → IsSettled (settle_entries actual command entries db).1 j
unfolding settle_entries
settle_entries-keeps actual command [] db j h = h
settle_entries-keeps actual command (e ∷ entries) db j h =
    let kept = settle_one-keeps actual command e db j h in
    elim (Action-cases (settle_one actual command e db)) [
      | inl (u, e₁) ↦ ground (
        arith,
        e₁,
        kept,
        settle_entries-keeps actual command entries (settle_one actual command e db).1 j kept,
      )
      | inr (problem, e₁) ↦ ground (arith, e₁, kept)
    ]

settle_entries-IsSettled :
    (actual : Option ℕ) (command : BudgetCommand) (entries : List BudgetReservation) (db db' : Db)
    → settle_entries actual command entries db ≡ (ok tt, db')
    → All (IsSettled db') entries
unfolding settle_entries
settle_entries-IsSettled actual command [] db db' h = tt
settle_entries-IsSettled actual command (e ∷ entries) db db' h =
    elim (Action-cases (settle_one actual command e db)) [
      | inl (u, e₁) ↦
          let db₁ : Db = (settle_one actual command e db).1 in
          let rest : settle_entries actual command entries db₁ ≡ (ok tt, db') =
            ground (arith, e₁, h) in
          let first =
            settle_entries-keeps actual command entries db₁ e
              (settle_one-IsSettled actual command e db) in
          (
            ground (arith, first, rest),
            settle_entries-IsSettled actual command entries db₁ db' rest,
          )
      | inr (problem, e₁) ↦ absurd (ground (arith, e₁, h))
    ]

settle_entries-settled :
    (actual : Option ℕ) (command : BudgetCommand) (entries : List BudgetReservation) (db : Db)
    → All (IsSettled db) entries
    → ((settle_entries actual command entries db).0 ≡ ok tt)
      × ((settle_entries actual command entries db).1.states ≡ db.states)
      × ((settle_entries actual command entries db).1.ledger ≡ db.ledger)
unfolding settle_entries
settle_entries-settled actual command [] db all = (refl, refl, refl)
settle_entries-settled actual command (e ∷ entries) db all =
    let step : settle_entries actual command (e ∷ entries) db
        ≡ settle_entries actual command entries (record db { next_id = db.next_id + 1 }) =
      ground (arith, settle_one-settled actual command e db all.0) in
    rw step
      (settle_entries-settled actual command entries (record db { next_id = db.next_id + 1 }) all.1)

-- Settling a settled bundle again, with any actual cost, succeeds and changes neither an account nor
-- the ledger.
pub settle_replay :
    (bundle : BudgetReservationBundle) (actual again : Option ℕ) (db db' : Db)
    → settle bundle actual db ≡ (ok tt, db')
    → ((settle bundle again db').0 ≡ ok tt)
      × ((settle bundle again db').1.states ≡ db'.states)
      × ((settle bundle again db').1.ledger ≡ db'.ledger)
unfolding settle
settle_replay bundle actual again db db' h =
    let first : settle_entries actual bundle.command bundle.entries db ≡ (ok tt, db') =
      elim (Action-cases (settle_entries actual bundle.command bundle.entries db)) [
        | inl (u, e) ↦ ground (arith, e, h)
        | inr (problem, e) ↦ absurd (ground (arith, e, h))
      ] in
    let (done, states, ledger) =
      settle_entries-settled again bundle.command bundle.entries db'
        (settle_entries-IsSettled actual bundle.command bundle.entries db db' first) in
    (ground (arith, done), ground (arith, done, states), ground (arith, done, ledger))
