-- ===== src/Budgets/Settle/Loops.antt =====
-- The loops of `settle` and `release` of trpc_service/budgets.py over a bundle's entries.
use trpc_agent_service_douzh.Prelude.{
  char_count, ℕ, ◌+◌, ◌≤◌, String, List, [], ◌∷◌, Option, if◌then◌else◌, ◌≡◌, refl, arith, All,
  str_eq_refl,
}
use trpc_agent_service_douzh.Prelude.Action.{ok}
use trpc_agent_service_douzh.Budgets.Schema.{Db, BudgetCommand, BudgetReservation}
use trpc_agent_service_douzh.Budgets.Settle.{
  charge, settle_one, settle_entries, release_one, release_entries,
}
use trpc_agent_service_douzh.Budgets.Reserve.Account.{account, is_key, IsOpenFrom}
use trpc_agent_service_douzh.Budgets.Reserve.Loop.{held, Ids}
use trpc_agent_service_douzh.Budgets.Settle.Closing.{
  IsClosed, release_one-IsClosed, settle_one-IsClosed,
}

-- What a settlement charges to a budget in a period.
abbrev pub charged : Option ℕ → ℕ → String → List BudgetReservation → ℕ
charged actual b p [] = 0
charged actual b p (e ∷ entries) =
    (if is_key e.budget_id e.period_key b p then charge actual e else 0)
    + charged actual b p entries

-- The accounts before and after a loop.
pub record IsDone (entries : List BudgetReservation) (cost : ℕ → String → ℕ) (db db' : Db)
    : Type 0 where
  pub reserved :
      (b : ℕ) (p : String)
      → (account db' b p).reserved_micros + held b p entries ≡ (account db b p).reserved_micros
  pub consumed :
      (b : ℕ) (p : String)
      → (account db' b p).consumed_micros ≡ (account db b p).consumed_micros + cost b p
  pub allowance :
      (b : ℕ) (p : String) → (account db' b p).allowance_micros ≡ (account db b p).allowance_micros
  pub drawn :
      (b : ℕ) (p : String)
      → (account db' b p).contingency_reserved_micros ≡ (account db b p).contingency_reserved_micros

-- The accounts can give back what the entries hold.
abbrev pub Covers : Db → List BudgetReservation → Type 0
Covers db entries = (b : ℕ) (p : String) → held b p entries ≤ (account db b p).reserved_micros

pub Covers-head :
    (e : BudgetReservation) (entries : List BudgetReservation) (db : Db)
    → Covers db (e ∷ entries)
    → e.amount_micros ≤ (account db e.budget_id e.period_key).reserved_micros
Covers-head e entries db c = ground (arith, c e.budget_id e.period_key, str_eq_refl e.period_key)

Covers-tail :
    (e : BudgetReservation) (entries : List BudgetReservation) (cost : ℕ) (db db' : Db)
    → Covers db (e ∷ entries)
    → IsClosed e cost db db'
    → Covers db' entries
Covers-tail e entries cost db db' c s b p = omega (arith, c b p, s.reserved b p)

pub release_entries-IsDone :
    (reason : String) (command : BudgetCommand) (entries : List BudgetReservation) (n m : ℕ)
    (db : Db)
    → IsOpenFrom n db.ledger
    → Ids n entries m
    → Covers db entries
    → char_count reason ≤ 500
    → (release_entries reason command entries db
        ≡ (ok tt, (release_entries reason command entries db).1))
      × IsDone entries (λ b p. 0) db (release_entries reason command entries db).1
unfolding release_entries
release_entries-IsDone reason command [] n m db o ids c short = (
  refl,
  record {
    reserved = λ b p. omega arith;
    consumed = λ b p. omega arith;
    allowance = λ b p. refl;
    drawn = λ b p. refl;
  },
)
release_entries-IsDone reason command (e ∷ entries) n m db o ids c short =
    let (done, s) =
      release_one-IsClosed command e n db o ids.0 (Covers-head e entries db c) reason short in
    let db₁ : Db = (release_one reason command e db).1 in
    let (rest, r) =
      release_entries-IsDone reason command entries (e.ledger_entry_id + 1) m db₁ s.open_from ids.1
        (Covers-tail e entries 0 db db₁ c s) short in
    let step : release_entries reason command (e ∷ entries) db
        ≡ release_entries reason command entries db₁ =
      ground (arith, done) in
    rw step (
      rest,
      record {
        reserved = λ b p. omega (arith, r.reserved b p, s.reserved b p);
        consumed = λ b p. ground (arith, r.consumed b p, s.consumed b p);
        allowance = λ b p. ground (arith, r.allowance b p, s.allowance b p);
        drawn = λ b p. ground (arith, r.drawn b p, s.drawn b p);
      },
    )

pub settle_entries-IsDone :
    (actual : Option ℕ) (command : BudgetCommand) (entries : List BudgetReservation) (n m : ℕ)
    (db : Db)
    → IsOpenFrom n db.ledger
    → Ids n entries m
    → Covers db entries
    → All (λ (e : BudgetReservation). 1 ≤ e.amount_micros) entries
    → (settle_entries actual command entries db
        ≡ (ok tt, (settle_entries actual command entries db).1))
      × IsDone entries
          (λ b p. charged actual b p entries)
          db
          (settle_entries actual command entries db).1
unfolding settle_entries
settle_entries-IsDone actual command [] n m db o ids c pos = (
  refl,
  record {
    reserved = λ b p. omega arith;
    consumed = λ b p. omega arith;
    allowance = λ b p. refl;
    drawn = λ b p. refl;
  },
)
settle_entries-IsDone actual command (e ∷ entries) n m db o ids c pos =
    let (done, s) =
      settle_one-IsClosed command e n db o ids.0 (Covers-head e entries db c) actual pos.0 in
    let db₁ : Db = (settle_one actual command e db).1 in
    let (rest, r) =
      settle_entries-IsDone actual command entries (e.ledger_entry_id + 1) m db₁ s.open_from ids.1
        (Covers-tail e entries (charge actual e) db db₁ c s) pos.1 in
    let step : settle_entries actual command (e ∷ entries) db
        ≡ settle_entries actual command entries db₁ =
      ground (arith, done) in
    rw step (
      rest,
      record {
        reserved = λ b p. omega (arith, r.reserved b p, s.reserved b p);
        consumed = λ b p. omega (arith, r.consumed b p, s.consumed b p);
        allowance = λ b p. ground (arith, r.allowance b p, s.allowance b p);
        drawn = λ b p. ground (arith, r.drawn b p, s.drawn b p);
      },
    )
