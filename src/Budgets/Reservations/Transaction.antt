-- ===== src/Budgets/Reservations/Transaction.antt =====
-- The parts of a transaction of `reserve` in trpc_service/budgets.py that came to its end.
use trpc_agent_service_douzh.Prelude.{
  ℕ, ◌+◌, String, List, [], none, Bool, true, false, ◌≡◌, refl, arith, inl, inr, Option-cases,
}
use trpc_agent_service_douzh.Prelude.Action.{ok, Action-cases}
use trpc_agent_service_douzh.Budgets.Schema.{
  Db, BudgetCommand, BudgetReservationBundle, Level, reject_entry,
}
use trpc_agent_service_douzh.Budgets.Levels.{Calendar, applicable_levels}
use trpc_agent_service_douzh.Budgets.Reserve.{
  Secured, reserve_levels, compensate, conclude, reserve_transaction,
}
use trpc_agent_service_douzh.Budgets.Reserve.Account.{
  account, IsOpenFrom, append_ledger-total, append_ledger-frame,
}
use trpc_agent_service_douzh.Budgets.Reserve.Loop.{IsHeld}
use trpc_agent_service_douzh.Budgets.Settle.Compensation.{compensate-IsDone}

pub IsHeld-start :
    (command : BudgetCommand) (db : Db) → IsOpenFrom db.next_id db.ledger → IsHeld command db [] db
IsHeld-start command db o = record {
  reserved = λ b p. omega arith;
  consumed = λ b p. refl;
  allowance = λ b p. refl;
  drawn = λ b p. refl;
  ids = omega arith;
  open_from = o;
  amounts = tt;
}

-- The parts of a transaction that came to its end.
pub record Parts (calendar : Calendar) (moment : ℕ) (command : BudgetCommand) (db : Db)
    (a : BudgetReservationBundle × Bool) (db' : Db) : Type 0 where
  pub levels : List Level
  pub secured : Secured
  pub after_levels : Db
  pub middle : Db
  pub found : applicable_levels calendar moment command db ≡ (ok levels, after_levels)
  pub looped : reserve_levels command levels [] [] after_levels ≡ (ok secured, middle)
  pub ended : conclude command secured middle ≡ (ok a, db')

pub reserve_transaction-Parts :
    (calendar : Calendar) (moment : ℕ) (command : BudgetCommand) (db db' : Db)
    (a : BudgetReservationBundle × Bool)
    → reserve_transaction calendar moment command db ≡ (ok a, db')
    → Parts calendar moment command db a db'
unfolding reserve_transaction
reserve_transaction-Parts calendar moment command db db' a h =
    let l = applicable_levels calendar moment command db in
    elim (Action-cases l) [
      | inl (levels, e) ↦
          let r = reserve_levels command levels [] [] l.1 in
          elim (Action-cases r) [
            | inl (secured, e₁) ↦
                let c = conclude command secured r.1 in
                elim (Action-cases c) [
                  | inl (a', e₂) ↦ record {
                    levels = levels;
                    secured = secured;
                    after_levels = l.1;
                    middle = r.1;
                    found = e;
                    looped = e₁;
                    ended = ground (arith, e, e₁, e₂);
                  }
                  | inr (x, e₂) ↦ absurd (ground (arith, e, e₁, e₂))
                ]
            | inr (x, e₁) ↦ absurd (ground (arith, e, e₁))
          ]
      | inr (x, e) ↦ absurd (ground (arith, e))
    ]

pub conclude-kept :
    (command : BudgetCommand) (secured : Secured) (db db' : Db) (bundle : BudgetReservationBundle)
    → conclude command secured db ≡ (ok (bundle, false), db')
    → (secured.rejected ≡ none)
      × (bundle ≡ record { command = command; entries = secured.entries; alerts = secured.alerts })
      × (db' ≡ db)
unfolding conclude
conclude-kept command secured db db' bundle h = elim (Option-cases secured.rejected) [
  | inl going ↦ (going, ground (arith, going), ground (arith, going))
  | inr (level, e) ↦
      let m = compensate command secured.entries db in
      elim (Action-cases m) [
        | inl (tt, e₁) ↦
            let (added, e₂) =
              append_ledger-total command level.budget_id level.period_key reject_entry
                command.estimated_micros m.1.next_id false "limit exhausted" "system"
                (record m.1 { next_id = m.1.next_id + 1 }) refl in
            absurd (ground (arith, e, e₁, e₂))
        | inr (x, e₁) ↦ absurd (ground (arith, e, e₁))
      ]
]

-- What every account holds is what it held.
abbrev pub SameAccounts : Db → Db → Type 0
SameAccounts db db' =
    (b : ℕ) (p : String)
    → ((account db' b p).reserved_micros ≡ (account db b p).reserved_micros)
      × ((account db' b p).consumed_micros ≡ (account db b p).consumed_micros)
      × ((account db' b p).allowance_micros ≡ (account db b p).allowance_micros)
      × ((account db' b p).contingency_reserved_micros
          ≡ (account db b p).contingency_reserved_micros)

pub conclude-rejected :
    (command : BudgetCommand) (secured : Secured) (start db db' : Db)
    (bundle : BudgetReservationBundle)
    → IsHeld command start secured.entries db
    → conclude command secured db ≡ (ok (bundle, true), db')
    → (bundle.entries ≡ []) × SameAccounts start db'
unfolding conclude
conclude-rejected command secured start db db' bundle held_by h =
    elim (Option-cases secured.rejected) [
      | inl going ↦ absurd (ground (arith, going))
      | inr (level, e) ↦
          let m = compensate command secured.entries db in
          let (e₁, s) =
            compensate-IsDone command secured.entries db
              (λ b p. omega (arith, held_by.reserved b p)) in
          let db₁ : Db = record m.1 { next_id = m.1.next_id + 1 } in
          let (added, e₂) =
            append_ledger-total command level.budget_id level.period_key reject_entry
              command.estimated_micros m.1.next_id false "limit exhausted" "system" db₁ refl in
          let frame =
            append_ledger-frame command level.budget_id level.period_key reject_entry
              command.estimated_micros m.1.next_id false "limit exhausted" "system" db₁ in
          let last : db'.states ≡ m.1.states = ground (arith, e, e₁, e₂, frame.0) in
          (
            ground (arith, e, e₁, e₂),
            λ b p. (
              ground (arith, last, s.reserved b p, held_by.reserved b p),
              ground (arith, last, s.consumed b p, held_by.consumed b p),
              ground (arith, last, s.allowance b p, held_by.allowance b p),
              ground (arith, last, s.drawn b p, held_by.drawn b p),
            ),
          )
    ]
