-- ===== src/Budgets/Levels/Rows.antt =====
-- What the loop of `_applicable_levels` of trpc_service/budgets.py keeps of the rows: it writes
-- nothing, and the levels of different budgets are of different budgets.
use trpc_agent_service_douzh.Prelude.{
  ℕ, List, [], ◌∷◌, Option, none, some, ◌≡◌, ◌≢◌, ◌⊎◌, inl, inr, refl, arith, All, String,
}
use trpc_agent_service_douzh.Prelude.Action.{ok, Action-cases}
use trpc_agent_service_douzh.Budgets.Schema.{
  BudgetRow, Db, BudgetCommand, Level, Scope, tenant_monthly, agent_daily, execution,
}
use trpc_agent_service_douzh.Budgets.Levels.{
  Calendar, skip, refuse, apply, fit, period_key_for, levels_from, applicable_levels, Fit, level_of,
}

Fit-cases : (f : Fit) → (f ≡ skip) ⊎ ((f ≡ refuse) ⊎ (f ≡ apply))
Fit-cases skip = inl refl
Fit-cases refuse = inr (inl refl)
Fit-cases apply = inr (inr refl)

period_key_for-writes_nothing :
    (calendar : Calendar) (scope : Scope) (moment : ℕ) (id : Option String) (db : Db)
    → (period_key_for calendar scope moment id db).1 ≡ db
unfolding period_key_for
period_key_for-writes_nothing calendar tenant_monthly moment id db = refl
period_key_for-writes_nothing calendar agent_daily moment id db = refl
period_key_for-writes_nothing calendar execution moment none db = refl
period_key_for-writes_nothing calendar execution moment (some id) db = ground arith

-- Budgets have different identifiers: the primary key of tenant.budget.
abbrev pub RowsAvoid : ℕ → List BudgetRow → Type 0
RowsAvoid b = All (λ (row : BudgetRow). row.id ≢ b)

abbrev pub HaveIds : List BudgetRow → Type 0
HaveIds [] = Unit
HaveIds (row ∷ rows) = RowsAvoid row.id rows × HaveIds rows

abbrev pub Avoids : ℕ → List Level → Type 0
Avoids b = All (λ (level : Level). level.budget_id ≢ b)

abbrev pub IsDistinct : List Level → Type 0
IsDistinct [] = Unit
IsDistinct (level ∷ levels) = Avoids level.budget_id levels × IsDistinct levels

pub record IsKept (rows : List BudgetRow) (db : Db) (levels : List Level) (db' : Db) : Type 0 where
  pub same : db' ≡ db
  pub avoids : (b : ℕ) → RowsAvoid b rows → Avoids b levels
  pub distinct : HaveIds rows → IsDistinct levels

levels_from-IsKept :
    (calendar : Calendar) (moment : ℕ) (command : BudgetCommand) (rows : List BudgetRow)
    (db db' : Db) (levels : List Level)
    → levels_from calendar moment command rows db ≡ (ok levels, db')
    → IsKept rows db levels db'
unfolding levels_from
levels_from-IsKept calendar moment command [] db db' levels h =
    let e : levels ≡ [] = ground arith in
    rw e (record { same = ground arith; avoids = λ b _. tt; distinct = λ _. tt })
levels_from-IsKept calendar moment command (row ∷ rows) db db' levels h =
    elim (Fit-cases (fit row.scope row.application_id command)) [
      | inl skipped ↦
          let k =
            levels_from-IsKept calendar moment command rows db db' levels
              (ground (arith, skipped)) in
          record { same = k.same; avoids = λ b a. k.avoids b a.1; distinct = λ d. k.distinct d.1 }
      | inr (inl refused) ↦ absurd (ground (arith, refused))
      | inr (inr applied) ↦
          let k = period_key_for calendar row.scope moment command.execution_id db in
          let quiet =
            period_key_for-writes_nothing calendar row.scope moment command.execution_id db in
          let rest = levels_from calendar moment command rows db in
          elim (Action-cases k) [
            | inl (key, e) ↦ elim (Action-cases rest) [
              | inl (found, e₁) ↦
                  let s = levels_from-IsKept calendar moment command rows db rest.1 found e₁ in
                  let all : levels ≡ level_of row key ∷ found =
                    ground (arith, applied, e, quiet, e₁) in
                  let last : db' ≡ rest.1 = ground (arith, applied, e, quiet, e₁) in
                  rw (all, last)
                    (record {
                      same = s.same;
                      avoids = λ b a. (a.0, s.avoids b a.1);
                      distinct = λ d. (s.avoids row.id d.0, s.distinct d.1);
                    })
              | inr (x, e₁) ↦ absurd (ground (arith, applied, e, quiet, e₁))
            ]
            | inr (x, e) ↦ absurd (ground (arith, applied, e))
          ]
    ]

pub applicable_levels-IsKept :
    (calendar : Calendar) (moment : ℕ) (command : BudgetCommand) (db db' : Db) (levels : List Level)
    → applicable_levels calendar moment command db ≡ (ok levels, db')
    → IsKept db.budgets db levels db'
unfolding applicable_levels
applicable_levels-IsKept calendar moment command db db' levels h =
    levels_from-IsKept calendar moment command db.budgets db db' levels h
