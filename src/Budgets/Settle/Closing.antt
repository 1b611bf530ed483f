-- ===== src/Budgets/Settle/Closing.antt =====
-- What the loops of `settle` and `release` of trpc_service/budgets.py do to the accounts, for entries
-- that no earlier row of the ledger closes.
use trpc_agent_service_douzh.Prelude.{
  char_count, ℕ, ◌+◌, ◌≤◌, String, List, [], ◌∷◌, ◌++◌, Option, Bool, true, false, str_eq_iff,
  if◌then◌else◌, ◌≡◌, refl, inl, inr, Option-cases, arith, exists,
}
use trpc_agent_service_douzh.Prelude.Action.{ok}
use trpc_agent_service_douzh.Budgets.Schema.{
  EntryType, settle_entry, release_entry, LedgerRow, Db, BudgetCommand, BudgetReservation,
}
use trpc_agent_service_douzh.Budgets.Ledger.{
  update_state, append_ledger, texts_ok, unreserve, consume, same_entry, same_type, ledger_row,
}
use trpc_agent_service_douzh.Budgets.Settle.{charge, settle_one, release_one}
use trpc_agent_service_douzh.Budgets.Reserve.Account.{
  account, is_key, is_closing, IsOpenFrom, IsOpenFrom-snoc,
}

same_type-closing :
    (a t : EntryType) → same_type a t ≡ true → is_closing t ≡ true → is_closing a ≡ true
same_type-closing a t e c = ground arith

-- An open ledger has no closing row for a later reservation.
exists-same_entry :
    (b : ℕ) (p : String) (id : ℕ) (t : EntryType) (n : ℕ) (rows : List LedgerRow)
    → is_closing t ≡ true
    → IsOpenFrom n rows
    → n ≤ id
    → exists (same_entry b p id t) rows ≡ false
exists-same_entry b p id t n [] c h le = refl
exists-same_entry b p id t n (row ∷ rows) c h le =
    ground
      (arith, h.0, same_type-closing row.entry_type t, exists-same_entry b p id t n rows c h.1 le)

IsOpenFrom-le : (n m : ℕ) (rows : List LedgerRow) → n ≤ m → IsOpenFrom n rows → IsOpenFrom m rows
IsOpenFrom-le n m [] le h = tt
IsOpenFrom-le n m (row ∷ rows) le h = (λ c. omega (arith, h.0 c), IsOpenFrom-le n m rows le h.1)

pub append_old :
    (c : BudgetCommand) (b : ℕ) (p : String) (t : EntryType) (amount id : ℕ) (contingency : Bool)
    (reason actor : String) (db : Db)
    → texts_ok reason actor ≡ true
    → exists (same_entry b p id t) db.ledger ≡ true
    → append_ledger c b p t amount id contingency reason actor db
      ≡ (ok false, record db { next_id = db.next_id + 1 })
unfolding append_ledger
append_old c b p t amount id contingency reason actor db fits e = ground (arith, fits, e)

pub append_new :
    (c : BudgetCommand) (b : ℕ) (p : String) (t : EntryType) (amount id : ℕ) (contingency : Bool)
    (reason actor : String) (db : Db)
    → texts_ok reason actor ≡ true
    → exists (same_entry b p id t) db.ledger ≡ false
    → append_ledger c b p t amount id contingency reason actor db ≡ (
      ok true,
      record db {
        ledger =
            db.ledger ++ (ledger_row c db.next_id b p t amount id contingency reason actor ∷ []);
        next_id = db.next_id + 1;
      },
    )
unfolding append_ledger
append_new c b p t amount id contingency reason actor db fits e = ground (arith, fits, e)

-- What a step of either loop does to the accounts: `amount` of the entry's account is no longer
-- reserved, and `charged` of it is consumed.
pub record IsClosed (e : BudgetReservation) (charged : ℕ) (db db' : Db) : Type 0 where
  pub reserved :
      (b : ℕ) (p : String)
      → (account db' b p).reserved_micros
          + (if is_key e.budget_id e.period_key b p then e.amount_micros else 0)
        ≡ (account db b p).reserved_micros
  pub consumed :
      (b : ℕ) (p : String)
      → (account db' b p).consumed_micros
        ≡ (account db b p).consumed_micros
          + (if is_key e.budget_id e.period_key b p then charged else 0)
  pub allowance :
      (b : ℕ) (p : String) → (account db' b p).allowance_micros ≡ (account db b p).allowance_micros
  pub drawn :
      (b : ℕ) (p : String)
      → (account db' b p).contingency_reserved_micros ≡ (account db b p).contingency_reserved_micros
  pub open_from : IsOpenFrom (e.ledger_entry_id + 1) db'.ledger

pub update-unreserve :
    (b : ℕ) (p : String) (amount : ℕ) (db : Db)
    → amount ≤ (account db b p).reserved_micros
    → let m = update_state b p (unreserve amount) db in
      (m ≡ (ok tt, m.1))
      × (m.1.ledger ≡ db.ledger)
      × ((b' : ℕ) (p' : String)
          → ((account m.1 b' p').reserved_micros + (if is_key b p b' p' then amount else 0)
              ≡ (account db b' p').reserved_micros)
            × ((account m.1 b' p').consumed_micros ≡ (account db b' p').consumed_micros)
            × ((account m.1 b' p').allowance_micros ≡ (account db b' p').allowance_micros)
            × ((account m.1 b' p').contingency_reserved_micros
                ≡ (account db b' p').contingency_reserved_micros))
unfolding update_state
update-unreserve b p amount db h = elim (Option-cases (db.states b p)) [
  | inl absent ↦ (
    ground (arith, absent),
    ground (arith, absent),
    λ b' p'. ground (arith, absent, str_eq_iff p p'),
  )
  | inr (row, e) ↦
      (ground (arith, e), ground (arith, e), λ b' p'. ground (arith, e, str_eq_iff p p'))
]

update-consume :
    (b : ℕ) (p : String) (amount charged : ℕ) (db : Db)
    → amount ≤ (account db b p).reserved_micros
    → 1 ≤ amount
    → let m = update_state b p (consume amount charged) db in
      (m ≡ (ok tt, m.1))
      × (m.1.ledger ≡ db.ledger)
      × ((b' : ℕ) (p' : String)
          → ((account m.1 b' p').reserved_micros + (if is_key b p b' p' then amount else 0)
              ≡ (account db b' p').reserved_micros)
            × ((account m.1 b' p').consumed_micros
                ≡ (account db b' p').consumed_micros + (if is_key b p b' p' then charged else 0))
            × ((account m.1 b' p').allowance_micros ≡ (account db b' p').allowance_micros)
            × ((account m.1 b' p').contingency_reserved_micros
                ≡ (account db b' p').contingency_reserved_micros))
unfolding update_state
update-consume b p amount charged db h some_amount = elim (Option-cases (db.states b p)) [
  | inl absent ↦ absurd (ground (arith, absent))
  | inr (row, e) ↦
      (ground (arith, e), ground (arith, e), λ b' p'. ground (arith, e, str_eq_iff p p'))
]

module _ (command : BudgetCommand) (e : BudgetReservation) (n : ℕ) (db : Db)
    (open_n : IsOpenFrom n db.ledger) (le : n ≤ e.ledger_entry_id)
    (enough : e.amount_micros ≤ (account db e.budget_id e.period_key).reserved_micros) where
  -- The tables after the row of the ledger.
  abbrev noted : EntryType → ℕ → String → Db
  noted t amount reason = record db {
    ledger =
        db.ledger
        ++ (ledger_row command db.next_id e.budget_id e.period_key t amount e.ledger_entry_id
              e.contingency reason "system"
            ∷ []);
    next_id = db.next_id + 1;
  }

  noted-IsOpenFrom :
      (t : EntryType) (amount : ℕ) (reason : String)
      → IsOpenFrom (e.ledger_entry_id + 1) (noted t amount reason).ledger
  noted-IsOpenFrom t amount reason =
      IsOpenFrom-snoc (e.ledger_entry_id + 1) db.ledger _
        (IsOpenFrom-le n (e.ledger_entry_id + 1) db.ledger (omega arith) open_n) (λ _. omega arith)

  pub release_one-IsClosed :
      (reason : String)
      → char_count reason ≤ 500
      → (release_one reason command e db ≡ (ok tt, (release_one reason command e db).1))
        × IsClosed e 0 db (release_one reason command e db).1
  unfolding release_one
  release_one-IsClosed reason short =
      let absent =
        exists-same_entry e.budget_id e.period_key e.ledger_entry_id release_entry n db.ledger refl
          open_n le in
      let fresh =
        append_new command e.budget_id e.period_key release_entry e.amount_micros e.ledger_entry_id
          e.contingency reason "system" db (ground (arith, short)) absent in
      let (done, ledger, moved) =
        update-unreserve e.budget_id e.period_key e.amount_micros
          (noted release_entry e.amount_micros reason) enough in
      let next = noted release_entry e.amount_micros reason in
      let step : release_one reason command e db
          ≡ update_state e.budget_id e.period_key (unreserve e.amount_micros) next =
        ground (arith, fresh) in
      rw step (
        done,
        record {
          reserved = λ b p. (moved b p).0;
          consumed = λ b p. ground (arith, (moved b p).1);
          allowance = λ b p. (moved b p).2;
          drawn = λ b p. (moved b p).3;
          open_from = rw ledger (noted-IsOpenFrom release_entry e.amount_micros reason);
        },
      )

  pub settle_one-IsClosed :
      (actual : Option ℕ)
      → 1 ≤ e.amount_micros
      → (settle_one actual command e db ≡ (ok tt, (settle_one actual command e db).1))
        × IsClosed e (charge actual e) db (settle_one actual command e db).1
  unfolding settle_one
  settle_one-IsClosed actual some_amount =
      let charged = charge actual e in
      let absent =
        exists-same_entry e.budget_id e.period_key e.ledger_entry_id settle_entry n db.ledger refl
          open_n le in
      let fresh =
        append_new command e.budget_id e.period_key settle_entry charged e.ledger_entry_id
          e.contingency "" "system" db refl absent in
      let next = noted settle_entry charged "" in
      let (done, ledger, moved) =
        update-consume e.budget_id e.period_key e.amount_micros charged next enough some_amount in
      let step : settle_one actual command e db
          ≡ update_state e.budget_id e.period_key (consume e.amount_micros charged) next =
        ground (arith, fresh) in
      rw step (
        done,
        record {
          reserved = λ b p. (moved b p).0;
          consumed = λ b p. (moved b p).1;
          allowance = λ b p. (moved b p).2;
          drawn = λ b p. (moved b p).3;
          open_from = rw ledger (noted-IsOpenFrom settle_entry charged "");
        },
      )
