-- ===== src/Budgets/Reserve/Limits.antt =====
-- The hard limit: what the loop of `reserve` of trpc_service/budgets.py leaves in the accounts of
-- the levels that it secured.
use trpc_agent_service_douzh.Prelude.{
  ℕ, ◌+◌, String, List, [], ◌∷◌, ◌++◌, none, some, str_eq_refl, ◌≡◌, inl, inr, ◌∙◌, arith, All,
}
use trpc_agent_service_douzh.Prelude.Int.{pos, ◌≤ℤ◌}
use trpc_agent_service_douzh.Prelude.Action.{ok, Action-cases}
use trpc_agent_service_douzh.Budgets.Schema.{
  Scope, Decision, Db, BudgetCommand, BudgetReservation, Level,
}
use trpc_agent_service_douzh.Budgets.Levels.Rows.{Avoids, IsDistinct}
use trpc_agent_service_douzh.Budgets.Reserve.{
  effective_limit, reserve_level, Secured, reserve_levels,
}
use trpc_agent_service_douzh.Budgets.Reserve.Account.{account}
use trpc_agent_service_douzh.Budgets.Reserve.Levels.{IsReserved, bump, reserve_level-Reserves}

-- The account of a level is within the level's limit.
abbrev pub IsWithin : Db → Level → Type 0
IsWithin db level =
    let state = account db level.budget_id level.period_key in
    pos (state.reserved_micros + state.consumed_micros) ≤ℤ effective_limit level state

IsReserved-IsWithin :
    (command : BudgetCommand) (level : Level) (db db' : Db)
    (r : BudgetReservation × List (Scope × Decision))
    → IsReserved command level db r db'
    → IsWithin db' level
IsReserved-IsWithin command level db db' r s =
    let b = level.budget_id in
    let p = level.period_key in
    let moved : account db' b p ≡ bump command.estimated_micros (account db b p) =
      ground (arith, s.accounts b p, str_eq_refl p) in
    rw moved (omega (arith, s.within))

-- The loop leaves the accounts of budgets that no level is of alone.
reserve_levels-frame :
    (command : BudgetCommand) (levels : List Level) (db db' : Db) (entries : List BudgetReservation)
    (alerts : List (Scope × Decision)) (secured : Secured) (b : ℕ) (p : String)
    → Avoids b levels
    → reserve_levels command levels entries alerts db ≡ (ok secured, db')
    → account db' b p ≡ account db b p
unfolding reserve_levels
reserve_levels-frame command [] db db' entries alerts secured b p av e = ground arith
reserve_levels-frame command (level ∷ levels) db db' entries alerts secured b p av e =
    let m = reserve_level command level db in
    elim (Action-cases m) [
      | inl (none, e₁) ↦
          let s = reserve_level-Reserves command level db m.1 none e₁ in ground (arith, e₁, s.0 b p)
      | inl (some (entry, found), e₁) ↦
          let s = reserve_level-Reserves command level db m.1 (some (entry, found)) e₁ in
          let still : account m.1 b p ≡ account db b p = ground (arith, s.accounts b p, av.0) in
          reserve_levels-frame command levels m.1 db' (entries ++ (entry ∷ [])) (alerts ++ found)
            secured b p av.1 (ground (arith, e₁))
          ∙ still
      | inr (x, e₁) ↦ absurd (ground (arith, e₁))
    ]

-- A loop that no level has stopped leaves every level within its limit.
pub reserve_levels-IsWithin :
    (command : BudgetCommand) (levels : List Level) (db db' : Db) (entries : List BudgetReservation)
    (alerts : List (Scope × Decision)) (secured : Secured)
    → IsDistinct levels
    → reserve_levels command levels entries alerts db ≡ (ok secured, db')
    → secured.rejected ≡ none
    → All (IsWithin db') levels
unfolding reserve_levels
reserve_levels-IsWithin command [] db db' entries alerts secured d e r = tt
reserve_levels-IsWithin command (level ∷ levels) db db' entries alerts secured d e r =
    let m = reserve_level command level db in
    elim (Action-cases m) [
      | inl (none, e₁) ↦ absurd (ground (arith, e₁))
      | inl (some (entry, found), e₁) ↦
          let s = reserve_level-Reserves command level db m.1 (some (entry, found)) e₁ in
          let rest : reserve_levels command levels (entries ++ (entry ∷ [])) (alerts ++ found) m.1
              ≡ (ok secured, db') =
            ground (arith, e₁) in
          let still =
            reserve_levels-frame command levels m.1 db' (entries ++ (entry ∷ [])) (alerts ++ found)
              secured level.budget_id level.period_key d.0 rest in
          (
            rw still (IsReserved-IsWithin command level db m.1 (entry, found) s),
            reserve_levels-IsWithin command levels m.1 db' (entries ++ (entry ∷ []))
                (alerts ++ found) secured d.1 rest r,
          )
      | inr (x, e₁) ↦ absurd (ground (arith, e₁))
    ]
