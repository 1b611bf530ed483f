-- ===== src/Budgets/Reserve/Levels.antt =====
-- What `_reserve_level` of trpc_service/budgets.py does: an account within its limit, moved by the
-- estimate, or nothing.
use trpc_agent_service_douzh.Prelude.{
  ℕ, ◌+◌, ◌<◌, String, List, Option, none, some, str_eq_iff, if◌then◌else◌, ◌≡◌, refl, inl, inr,
  Bool-cases, Option-cases, ◌⊎◌, ap, ◌∙◌, arith,
}
use trpc_agent_service_douzh.Prelude.Int.{ℤ, pos, ◌≤ℤ◌, leb_ℤ}
use trpc_agent_service_douzh.Prelude.Action.{ok, ◌>>=◌, ◌>>◌}
use trpc_agent_service_douzh.Budgets.Schema.{
  Scope, Decision, PeriodState, Db, BudgetCommand, BudgetReservation, Level,
}
use trpc_agent_service_douzh.Budgets.Pricing.{evaluate_level}
use trpc_agent_service_douzh.Budgets.Ledger.{ensure_state_row}
use trpc_agent_service_douzh.Budgets.Reserve.{
  state_or_default, effective_limit, used_after, try_reserve, secure_level, attempt_level,
  decide_level, reserve_level,
}
use trpc_agent_service_douzh.Budgets.Reserve.Account.{
  account, is_key, ensure-account, ensure-total, entry_of, IsOpenFrom, secure_level-ok,
}

-- The account once the estimate has been reserved.
abbrev pub bump : ℕ → PeriodState → PeriodState
bump amount state = record state {
  reserved_micros = state.reserved_micros + amount;
  version = state.version + 1;
}

-- A level that was reserved: within its limit, one account moved by the estimate, and one entry.
pub record IsReserved (command : BudgetCommand) (level : Level) (db : Db)
    (r : BudgetReservation × List (Scope × Decision)) (db' : Db) : Type 0 where
  pub entry : r.0 ≡ entry_of command level db.next_id
  pub within :
      pos (used_after (account db level.budget_id level.period_key) command.estimated_micros)
      ≤ℤ effective_limit level (account db level.budget_id level.period_key)
  pub accounts :
      (b : ℕ) (p : String)
      → account db' b p ≡ (
          if is_key level.budget_id level.period_key b p
          then bump command.estimated_micros (account db b p)
          else account db b p)
  pub later : db.next_id < db'.next_id
  pub open_from : (n : ℕ) → IsOpenFrom n db.ledger → IsOpenFrom n db'.ledger

try_reserve-cases :
    (level : Level) (amount : ℕ) (limit : ℤ) (db : Db)
    → (try_reserve level amount limit db ≡ (ok none, db))
      ⊎ ((version : ℕ) × (try_reserve level amount limit db
            ≡ (ok (some version), (try_reserve level amount limit db).1))
          × (pos (used_after (account db level.budget_id level.period_key) amount) ≤ℤ limit)
          × ((try_reserve level amount limit db).1.ledger ≡ db.ledger)
          × ((try_reserve level amount limit db).1.next_id ≡ db.next_id)
          × ((b : ℕ) (p : String)
              → account (try_reserve level amount limit db).1 b p ≡ (
                  if is_key level.budget_id level.period_key b p
                  then bump amount (account db b p)
                  else account db b p)))
unfolding try_reserve
try_reserve-cases level amount limit db =
    elim (Option-cases (db.states level.budget_id level.period_key)) [
      | inl absent ↦ inl (ground (arith, absent))
      | inr (row, e) ↦ elim (Bool-cases (leb_ℤ (pos (used_after row amount)) limit)) [
        | inl fits ↦ inr (
          row.version + 1,
          ground (arith, e, fits),
          ground (arith, e, fits),
          ground (arith, e, fits),
          ground (arith, e, fits),
          λ b p. ground (arith, e, fits, str_eq_iff level.period_key p),
        )
        | inr over ↦ inl (ground (arith, e, over))
      ]
    ]

-- What `_reserve_level` did, by what it returned.
abbrev pub Reserves :
    BudgetCommand → Level → Db → Option (BudgetReservation × List (Scope × Decision)) → Db → Type 0
Reserves command level db none db' =
    ((b : ℕ) (p : String) → account db' b p ≡ account db b p)
    × (db'.ledger ≡ db.ledger)
    × (db'.next_id ≡ db.next_id)
Reserves command level db (some r) db' = IsReserved command level db r db'

Reserves-self :
    (command : BudgetCommand) (level : Level) (db : Db) → Reserves command level db none db
Reserves-self command level db = (λ b p. refl, refl, refl)

attempt_level-Reserves :
    (command : BudgetCommand) (level : Level) (d : Option Decision) (db db' : Db)
    (r : Option (BudgetReservation × List (Scope × Decision)))
    → attempt_level command level (account db level.budget_id level.period_key) d db ≡ (ok r, db')
    → Reserves command level db r db'
unfolding attempt_level
attempt_level-Reserves command level d db db' r h =
    let state = account db level.budget_id level.period_key in
    let limit = effective_limit level state in
    let amount = command.estimated_micros in
    let m = try_reserve level amount limit db in
    elim (try_reserve-cases level amount limit db) [
      | inl e ↦
          let same : db' ≡ db = ground (arith, e) in
          let nothing : r ≡ none = ground (arith, e) in
          rw (same, nothing) (Reserves-self command level db)
      | inr (v, e, fits, ledger, next, moved) ↦
          let ended : secure_level command level (used_after state amount) d m.1 ≡ (ok r, db') =
            ground (arith, e) in
          let s = secure_level-ok command level (used_after state amount) d m.1 db' r ended in
          rw s.entry.1 (record {
            entry = ground (arith, next);
            within = fits;
            accounts = λ b p.
                ap (λ (t : ℕ → String → Option PeriodState). state_or_default (t b p)) s.states
                ∙ moved b p;
            later = omega (arith, s.later, next);
            open_from = λ n o. s.open_from n (rw ledger o);
          })
    ]

decide_level-Reserves :
    (command : BudgetCommand) (level : Level) (d : Option Decision) (db db' : Db)
    (r : Option (BudgetReservation × List (Scope × Decision)))
    → decide_level command level (account db level.budget_id level.period_key) d db ≡ (ok r, db')
    → Reserves command level db r db'
decide_level-Reserves command level (some Decision.reject) db db' r h =
    let same : db' ≡ db = ground arith in
    let nothing : r ≡ none = ground arith in rw (same, nothing) (Reserves-self command level db)
decide_level-Reserves command level d db db' r h = attempt_level-Reserves command level d db db' r h

-- Only the accounts, the ledger and the supply of identifiers of the tables before matter.
Reserves-from :
    (command : BudgetCommand) (level : Level) (db₁ db db' : Db)
    (r : Option (BudgetReservation × List (Scope × Decision)))
    → ((b : ℕ) (p : String) → account db₁ b p ≡ account db b p)
    → (db₁.ledger ≡ db.ledger)
    → (db₁.next_id ≡ db.next_id)
    → Reserves command level db₁ r db'
    → Reserves command level db r db'
Reserves-from command level db₁ db db' none same ledger next h =
    (λ b p. h.0 b p ∙ same b p, h.1 ∙ ledger, h.2 ∙ next)
Reserves-from command level db₁ db db' (some r) same ledger next h = record {
  entry = rw (← next) h.entry;
  within = rw (← (same level.budget_id level.period_key)) h.within;
  accounts = λ b p. rw (← (same b p)) (h.accounts b p);
  later = rw (← next) h.later;
  open_from = λ n o. h.open_from n (rw ledger o);
}

-- A level is reserved within its limit, moving its account by the estimate and no other account, or
-- no account moves.
pub reserve_level-Reserves :
    (command : BudgetCommand) (level : Level) (db db' : Db)
    (r : Option (BudgetReservation × List (Scope × Decision)))
    → reserve_level command level db ≡ (ok r, db')
    → Reserves command level db r db'
unfolding reserve_level
reserve_level-Reserves command level db db' r h =
    let db₁ : Db = (ensure_state_row level.budget_id level.period_key db).1 in
    let (e, ledger, next) = ensure-total level.budget_id level.period_key db in
    let state = account db₁ level.budget_id level.period_key in
    let used = used_after state command.estimated_micros in
    let d = evaluate_level used (effective_limit level state) in
    Reserves-from command level db₁ db db' r (ensure-account level.budget_id level.period_key db)
      ledger next (decide_level-Reserves command level d db₁ db' r (rw (e, ◌>>◌, ◌>>=◌) at h))
