-- ===== src/Budgets/Reserve/Loop.antt =====
-- The loop of `reserve` of trpc_service/budgets.py over the levels that apply.
use trpc_agent_service_douzh.Prelude.{
  ℕ, ◌+◌, ◌≤◌, ◌<◌, String, List, [], ◌∷◌, ◌++◌, none, some, if◌then◌else◌, ◌≡◌, refl, inl, inr,
  arith, All, All-snoc,
}
use trpc_agent_service_douzh.Prelude.Action.{ok, Action-cases}
use trpc_agent_service_douzh.Budgets.Schema.{
  Scope, Decision, Db, BudgetCommand, BudgetReservation, Level,
}
use trpc_agent_service_douzh.Budgets.Reserve.{reserve_level, Secured, reserve_levels}
use trpc_agent_service_douzh.Budgets.Reserve.Account.{account, is_key, entry_of, IsOpenFrom}
use trpc_agent_service_douzh.Budgets.Reserve.Levels.{IsReserved, Reserves, reserve_level-Reserves}

-- What the reservations hold of a budget in a period.
abbrev pub held : ℕ → String → List BudgetReservation → ℕ
held b p [] = 0
held b p (e ∷ entries) =
    (if is_key e.budget_id e.period_key b p then e.amount_micros else 0) + held b p entries

pub held-snoc :
    (b : ℕ) (p : String) (entries : List BudgetReservation) (e : BudgetReservation)
    → held b p (entries ++ (e ∷ []))
      ≡ held b p entries + (if is_key e.budget_id e.period_key b p then e.amount_micros else 0)
held-snoc b p [] e = omega arith
held-snoc b p (x ∷ entries) e = omega (arith, held-snoc b p entries e)

-- The entries' identifiers grow from `n` on and stay below `m`.
abbrev pub Ids : ℕ → List BudgetReservation → ℕ → Type 0
Ids n [] m = n ≤ m
Ids n (e ∷ entries) m = (n ≤ e.ledger_entry_id) × Ids (e.ledger_entry_id + 1) entries m

Ids-snoc :
    (n : ℕ) (entries : List BudgetReservation) (m m' : ℕ) (e : BudgetReservation)
    → Ids n entries m
    → m ≤ e.ledger_entry_id
    → e.ledger_entry_id < m'
    → Ids n (entries ++ (e ∷ [])) m'
Ids-snoc n [] m m' e h le lt = (omega arith, omega arith)
Ids-snoc n (x ∷ entries) m m' e h le lt =
    (h.0, Ids-snoc (x.ledger_entry_id + 1) entries m m' e h.1 le lt)

Ids-le : (n : ℕ) (entries : List BudgetReservation) (m : ℕ) → Ids n entries m → n ≤ m
Ids-le n [] m h = h
Ids-le n (e ∷ entries) m h = omega (arith, Ids-le (e.ledger_entry_id + 1) entries m h.1, h.0)

-- Between the start of the transaction and a round of the loop: the accounts have moved by what the
-- entries hold, and by nothing else.
pub record IsHeld (command : BudgetCommand) (start : Db) (entries : List BudgetReservation)
    (db : Db) : Type 0 where
  pub reserved :
      (b : ℕ) (p : String)
      → (account db b p).reserved_micros ≡ (account start b p).reserved_micros + held b p entries
  pub consumed :
      (b : ℕ) (p : String) → (account db b p).consumed_micros ≡ (account start b p).consumed_micros
  pub allowance :
      (b : ℕ) (p : String)
      → (account db b p).allowance_micros ≡ (account start b p).allowance_micros
  pub drawn :
      (b : ℕ) (p : String)
      → (account db b p).contingency_reserved_micros
        ≡ (account start b p).contingency_reserved_micros
  pub ids : Ids start.next_id entries db.next_id
  pub open_from : IsOpenFrom start.next_id db.ledger
  pub amounts : All (λ (e : BudgetReservation). e.amount_micros ≡ command.estimated_micros) entries

IsHeld-snoc :
    (command : BudgetCommand) (level : Level) (start db db' : Db) (entries : List BudgetReservation)
    (r : BudgetReservation × List (Scope × Decision))
    → IsHeld command start entries db
    → IsReserved command level db r db'
    → IsHeld command start (entries ++ (r.0 ∷ [])) db'
IsHeld-snoc command level start db db' entries r h s = rw s.entry (
    let e = entry_of command level db.next_id in
    record {
      reserved = λ b p. ground (arith, h.reserved b p, s.accounts b p, held-snoc b p entries e);
      consumed = λ b p. ground (arith, h.consumed b p, s.accounts b p);
      allowance = λ b p. ground (arith, h.allowance b p, s.accounts b p);
      drawn = λ b p. ground (arith, h.drawn b p, s.accounts b p);
      ids = Ids-snoc start.next_id entries db.next_id db'.next_id e h.ids (omega arith) s.later;
      open_from = s.open_from start.next_id h.open_from;
      amounts = All-snoc _ entries e h.amounts refl;
    })

IsHeld-same :
    (command : BudgetCommand) (level : Level) (start db db' : Db) (entries : List BudgetReservation)
    → IsHeld command start entries db
    → Reserves command level db none db'
    → IsHeld command start entries db'
IsHeld-same command level start db db' entries h s = record {
  reserved = λ b p. ground (arith, h.reserved b p, s.0 b p);
  consumed = λ b p. ground (arith, h.consumed b p, s.0 b p);
  allowance = λ b p. ground (arith, h.allowance b p, s.0 b p);
  drawn = λ b p. ground (arith, h.drawn b p, s.0 b p);
  ids = rw s.2 h.ids;
  open_from = rw s.1 h.open_from;
  amounts = h.amounts;
}

pub reserve_levels-IsHeld :
    (command : BudgetCommand) (levels : List Level) (start db db' : Db)
    (entries : List BudgetReservation) (alerts : List (Scope × Decision)) (secured : Secured)
    → IsHeld command start entries db
    → reserve_levels command levels entries alerts db ≡ (ok secured, db')
    → IsHeld command start secured.entries db'
unfolding reserve_levels
reserve_levels-IsHeld command [] start db db' entries alerts secured h e = ground (arith, h)
reserve_levels-IsHeld command (level ∷ levels) start db db' entries alerts secured h e =
    let m = reserve_level command level db in
    elim (Action-cases m) [
      | inl (none, e₁) ↦
          let s = reserve_level-Reserves command level db m.1 none e₁ in
          let kept = IsHeld-same command level start db m.1 entries h s in
          let last : db' ≡ m.1 = ground (arith, e₁) in
          let all : secured.entries ≡ entries = ground (arith, e₁) in rw (last, all) kept
      | inl (some (entry, found), e₁) ↦
          let s = reserve_level-Reserves command level db m.1 (some (entry, found)) e₁ in
          reserve_levels-IsHeld command levels start m.1 db' (entries ++ (entry ∷ []))
            (alerts ++ found) secured
            (IsHeld-snoc command level start db m.1 entries (entry, found) h s) (ground (arith, e₁))
      | inr (x, e₁) ↦ absurd (ground (arith, e₁))
    ]
