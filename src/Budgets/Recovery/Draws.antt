-- ===== src/Budgets/Recovery/Draws.antt =====
-- What the draws of `_apply_unknown_policy` in trpc_service/budgets.py do to the accounts.
use trpc_agent_service_douzh.Prelude.{
  ℕ, ◌+◌, ◌≤◌, String, List, [], ◌∷◌, ◌++◌, Bool, true, false, leb, min, str_eq_iff, ◌≡◌, refl,
  arith, All, inl, inr, Bool-cases, Option-cases,
}
use trpc_agent_service_douzh.Prelude.Action.{ok}
use trpc_agent_service_douzh.Budgets.Schema.{
  reserve_entry, Db, BudgetCommand, BudgetReservation, Level,
}
use trpc_agent_service_douzh.Budgets.Ledger.{append_ledger}
use trpc_agent_service_douzh.Budgets.Reserve.Account.{
  account, is_key, append_ledger-total, append_ledger-frame,
}
use trpc_agent_service_douzh.Budgets.Recovery.{try_draw, contingency_entry, draw_levels}

-- The allowances of the levels of a budget in a period are at most `cap`.
abbrev pub Capped : ℕ → ℕ → String → Level → Type 0
Capped cap b p level =
    is_key level.budget_id level.period_key b p ≡ true → level.contingency_micros ≤ cap

module _ (cap b : ℕ) (p : String) where
  -- What holds before a draw holds after it.
  abbrev pub IsKept : Db → Db → Type 0
  IsKept db db' =
      ((account db b p).contingency_reserved_micros ≤ cap
        → (account db' b p).contingency_reserved_micros ≤ cap)
      × ((account db' b p).reserved_micros ≡ (account db b p).reserved_micros)
      × ((account db' b p).consumed_micros ≡ (account db b p).consumed_micros)

  try_draw-IsKept :
      (level : Level) (amount : ℕ) (db : Db)
      → Capped cap b p level
      → (drawn : Bool) × (try_draw level amount db ≡ (ok drawn, (try_draw level amount db).1))
        × IsKept db (try_draw level amount db).1
  unfolding try_draw
  try_draw-IsKept level amount db capped =
      elim (Option-cases (db.states level.budget_id level.period_key)) [
        | inl absent ↦ (
          false,
          ground (arith, absent),
          (λ h. ground (arith, absent, h), ground (arith, absent), ground (arith, absent)),
        )
        | inr (row, e) ↦ (
          leb (row.contingency_reserved_micros + amount) level.contingency_micros,
          ground (arith, e),
          (
            λ h. ground (arith, e, h, capped, str_eq_iff level.period_key p),
            ground (arith, e, str_eq_iff level.period_key p),
            ground (arith, e, str_eq_iff level.period_key p),
          ),
        )
      ]

  -- Draws on the contingency allowances of any levels, whether all are covered or not, keep what an
  -- account has drawn within a cap on the allowances of its levels, if it was, and change neither what
  -- the account has reserved nor what it consumed.
  pub draw_levels-IsKept :
      (command : BudgetCommand) (levels : List Level) (entries : List BudgetReservation) (db : Db)
      → All (Capped cap b p) levels
      → IsKept db (draw_levels command levels entries db).1
  unfolding draw_levels
  draw_levels-IsKept command [] entries db all = (λ h. h, refl, refl)
  draw_levels-IsKept command (level ∷ levels) entries db all =
      let amount = min command.estimated_micros level.contingency_micros in
      let (drawn, e, kept) = try_draw-IsKept level amount db all.0 in
      let db₁ : Db = (try_draw level amount db).1 in
      let db₂ : Db = record db₁ { next_id = db₁.next_id + 1 } in
      let m =
        append_ledger command level.budget_id level.period_key reserve_entry amount db₁.next_id true
          "contingency allowance after unknown budget state" "system" db₂ in
      let (added, e₁) =
        append_ledger-total command level.budget_id level.period_key reserve_entry amount
          db₁.next_id true "contingency allowance after unknown budget state" "system" db₂ refl in
      let frame =
        append_ledger-frame command level.budget_id level.period_key reserve_entry amount
          db₁.next_id true "contingency allowance after unknown budget state" "system" db₂ in
      let next = entries ++ (contingency_entry level amount db₁.next_id ∷ []) in
      let rest = draw_levels-IsKept command levels next m.1 all.1 in
      elim (Bool-cases drawn) [
        | inr short ↦
            let stop : (draw_levels command (level ∷ levels) entries db).1 ≡ db₁ =
              ground (arith, e, short) in
            rw stop kept
        | inl covered ↦
            let step : (draw_levels command (level ∷ levels) entries db).1
                ≡ (draw_levels command levels next m.1).1 =
              ground (arith, e, covered, e₁) in
            rw step (
              λ h. rest.0 (ground (arith, kept.0 h, frame.0)),
              ground (arith, rest.1, kept.1, frame.0),
              ground (arith, rest.2, kept.2, frame.0),
            )
      ]
