-- ===== src/Budgets/Reserve/Account.antt =====
-- What `_reserve_level` and `_compensate_level` of trpc_service/budgets.py do to the account of a
-- budget in a period. A row that is not there yet counts as the row that would be inserted.
use trpc_agent_service_douzh.Prelude.{
  ℕ, ◌+◌, ◌<◌, String, List, [], ◌∷◌, ◌++◌, Option, none, some, Bool, not, true, false, ◌&&◌, ◌==◌,
  exists, str_eq, str_eq_iff, ◌≡◌, refl, inl, inr, Bool-cases, arith,
}
use trpc_agent_service_douzh.Prelude.Action.{ok, ◌>>=◌, Action-cases}
use trpc_agent_service_douzh.Budgets.Schema.{
  Scope, Decision, EntryType, reserve_entry, settle_entry, release_entry, PeriodState, LedgerRow,
  AlertRow, Db, BudgetCommand, BudgetReservation, Level,
}
use trpc_agent_service_douzh.Budgets.Ledger.{
  ensure_state_row, insert_alert, append_ledger, texts_ok, same_entry, ledger_row,
}
use trpc_agent_service_douzh.Budgets.Reserve.{state_or_default, raise_alert, secure_level}

abbrev pub account : Db → ℕ → String → PeriodState
account db b p = state_or_default (db.states b p)

abbrev pub is_key : ℕ → String → ℕ → String → Bool
is_key b p b' p' = (b == b') && str_eq p p'

pub ensure-account :
    (b : ℕ) (p : String) (db : Db) (b' : ℕ) (p' : String)
    → account (ensure_state_row b p db).1 b' p' ≡ account db b' p'
unfolding ensure_state_row
ensure-account b p db b' p' = ground (arith, str_eq_iff p p')

pub ensure-total :
    (b : ℕ) (p : String) (db : Db)
    → (ensure_state_row b p db ≡ (ok tt, (ensure_state_row b p db).1))
      × ((ensure_state_row b p db).1.ledger ≡ db.ledger)
      × ((ensure_state_row b p db).1.next_id ≡ db.next_id)
unfolding ensure_state_row
ensure-total b p db = ground arith

insert_alert-frame :
    (row : AlertRow) (db : Db)
    → ((insert_alert row db).1.states ≡ db.states)
      × ((insert_alert row db).1.ledger ≡ db.ledger)
      × ((insert_alert row db).1.next_id ≡ db.next_id)
unfolding insert_alert
insert_alert-frame row db = ground arith

raise_alert-frame :
    (l : Level) (used : ℕ) (d : Option Decision) (db : Db)
    → ((raise_alert l used d db).1.states ≡ db.states)
      × ((raise_alert l used d db).1.ledger ≡ db.ledger)
      × ((raise_alert l used d db).1.next_id ≡ db.next_id)
unfolding raise_alert
raise_alert-frame l used none db = (refl, refl, refl)
raise_alert-frame l used (some d) db =
    let row : AlertRow = record {
      budget_id = l.budget_id;
      period_key = l.period_key;
      level = d;
      used_micros = used;
      limit_micros = l.limit_micros;
    } in
    elim (Action-cases (insert_alert row db)) [
      | inl (a, e) ↦ rw (e, ◌>>=◌) (insert_alert-frame row db)
      | inr (x, e) ↦ rw (e, ◌>>=◌) (insert_alert-frame row db)
    ]

abbrev pub entry_of : BudgetCommand → Level → ℕ → BudgetReservation
entry_of command level entry_id = record {
  budget_id = level.budget_id;
  scope = level.scope;
  period_key = level.period_key;
  amount_micros = command.estimated_micros;
  ledger_entry_id = entry_id;
  contingency = false;
}

-- Settlements and releases in the ledger are of reservations before the identifier `n`.
abbrev pub is_closing : EntryType → Bool
is_closing settle_entry = true
is_closing release_entry = true
is_closing _ = false

abbrev pub IsOpenFrom : ℕ → List LedgerRow → Type 0
IsOpenFrom n [] = Unit
IsOpenFrom n (row ∷ rows) =
    (is_closing row.entry_type ≡ true → row.reserve_id < n) × IsOpenFrom n rows

pub append_ledger-total :
    (c : BudgetCommand) (b : ℕ) (p : String) (t : EntryType) (amount id : ℕ) (contingency : Bool)
    (reason actor : String) (db : Db)
    → texts_ok reason actor ≡ true
    → (added : Bool) × (append_ledger c b p t amount id contingency reason actor db
        ≡ (ok added, (append_ledger c b p t amount id contingency reason actor db).1))
unfolding append_ledger
append_ledger-total c b p t amount id contingency reason actor db fits =
    (not (exists (same_entry b p id t) db.ledger), ground (arith, fits))

pub append_ledger-frame :
    (c : BudgetCommand) (b : ℕ) (p : String) (t : EntryType) (amount id : ℕ) (contingency : Bool)
    (reason actor : String) (db : Db)
    → ((append_ledger c b p t amount id contingency reason actor db).1.states ≡ db.states)
      × ((append_ledger c b p t amount id contingency reason actor db).1.next_id ≡ db.next_id + 1)
unfolding append_ledger
append_ledger-frame c b p t amount id contingency reason actor db = ground arith

pub IsOpenFrom-snoc :
    (n : ℕ) (rows : List LedgerRow) (row : LedgerRow)
    → IsOpenFrom n rows
    → (is_closing row.entry_type ≡ true → row.reserve_id < n)
    → IsOpenFrom n (rows ++ (row ∷ []))
IsOpenFrom-snoc n [] row h r = (r, tt)
IsOpenFrom-snoc n (x ∷ rows) row h r = (h.0, IsOpenFrom-snoc n rows row h.1 r)

pub append_ledger-IsOpenFrom :
    (c : BudgetCommand) (b : ℕ) (p : String) (t : EntryType) (amount id : ℕ) (contingency : Bool)
    (reason actor : String) (db : Db) (n : ℕ)
    → IsOpenFrom n db.ledger
    → (is_closing t ≡ true → id < n)
    → IsOpenFrom n (append_ledger c b p t amount id contingency reason actor db).1.ledger
unfolding append_ledger
append_ledger-IsOpenFrom c b p t amount id contingency reason actor db n h r =
    let more =
      IsOpenFrom-snoc n db.ledger (ledger_row c db.next_id b p t amount id contingency reason actor)
        h r in
    elim (Bool-cases (texts_ok reason actor)) [
      | inr unfit ↦ rw unfit h
      | inl fits ↦ elim (Bool-cases (exists (same_entry b p id t) db.ledger)) [
        | inl old ↦ rw (fits, old) h
        | inr new ↦ rw (fits, new) more
      ]
    ]

-- What securing a level leaves: an entry under the next identifier, the same states, and a ledger
-- in which nothing more is closed.
pub record IsSecured (command : BudgetCommand) (level : Level) (db : Db)
    (r : Option (BudgetReservation × List (Scope × Decision))) (db' : Db) : Type 0 where
  pub entry :
      (alerts : List (Scope × Decision)) × (r ≡ some (entry_of command level db.next_id, alerts))
  pub states : db'.states ≡ db.states
  pub later : db.next_id < db'.next_id
  pub open_from : (n : ℕ) → IsOpenFrom n db.ledger → IsOpenFrom n db'.ledger

pub secure_level-ok :
    (command : BudgetCommand) (level : Level) (used : ℕ) (d : Option Decision) (db db' : Db)
    (r : Option (BudgetReservation × List (Scope × Decision)))
    → secure_level command level used d db ≡ (ok r, db')
    → IsSecured command level db r db'
unfolding secure_level
secure_level-ok command level used d db db' r h =
    let db₁ : Db = record db { next_id = db.next_id + 1 } in
    let m =
      append_ledger command level.budget_id level.period_key reserve_entry command.estimated_micros
        db.next_id false "" "system" db₁ in
    let (added, e₁) =
      append_ledger-total command level.budget_id level.period_key reserve_entry
        command.estimated_micros db.next_id false "" "system" db₁ refl in
    let frame =
      append_ledger-frame command level.budget_id level.period_key reserve_entry
        command.estimated_micros db.next_id false "" "system" db₁ in
    let quiet = raise_alert-frame level used d m.1 in
    elim (Action-cases (raise_alert level used d m.1)) [
      | inl (alerts, e₂) ↦ record {
        entry = (alerts, ground (arith, e₁, e₂));
        states = ground (arith, e₁, e₂, frame.0, quiet.0);
        later = ground (arith, e₁, e₂, frame.1, quiet.2);
        open_from = λ n open_n.
            let same : db'.ledger ≡ m.1.ledger = ground (arith, e₁, e₂, quiet.1) in
            rw same (
              append_ledger-IsOpenFrom command level.budget_id level.period_key reserve_entry
                command.estimated_micros db.next_id false "" "system" db₁ n open_n (λ e. cc));
      }
      | inr (x, e₂) ↦ absurd (ground (arith, e₁, e₂))
    ]
