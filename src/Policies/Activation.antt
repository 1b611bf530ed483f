-- ===== src/Policies/Activation.antt =====
-- What an activation leaves in the table of trpc_service/policy_bundles.py.
use trpc_agent_service_douzh.Prelude.{
  ℕ, ◌≤◌, String, List, [], ◌∷◌, none, some, true, false, leb, find, update_where, All, ◌≡◌, ◌≢◌,
  refl, arith, inl, inr, Bool-cases, Option-cases,
}
use trpc_agent_service_douzh.Prelude.Action.{ok}
use trpc_agent_service_douzh.Governance.Rules.{GovernanceRules}
use trpc_agent_service_douzh.Policies.Signing.{Library, verify_bundle}
use trpc_agent_service_douzh.Policies.Bundles.{
  active, canary, BundleRow, is_active, is_canary, has_version, first_of, retire, place, displaced,
  status_for, activation, activate,
}

-- The primary key of tenant.policy_bundle.
abbrev pub IsKeyed : List BundleRow → Type 0
IsKeyed [] = Unit
IsKeyed (row ∷ rows) = All (λ (other : BundleRow). other.version ≢ row.version) rows × IsKeyed rows

-- The rows after an activation.
abbrev pub activated : (now v p : ℕ) → List BundleRow → List BundleRow
activated now v p rows =
    update_where (has_version v) (place now (status_for p) p)
      (update_where (displaced p v) retire rows)

pub find-absent :
    (v : ℕ) (rows : List BundleRow)
    → All (λ (other : BundleRow). other.version ≢ v) rows
    → find (has_version v) rows ≡ none
find-absent v [] h = refl
find-absent v (row ∷ rows) h = ground (arith, h.0, find-absent v rows h.1)

pub find-version :
    (v : ℕ) (rows : List BundleRow) (row : BundleRow)
    → find (has_version v) rows ≡ some row
    → row.version ≡ v
find-version v [] row h = ground (arith, h)
find-version v (x ∷ rows) row h = ground (arith, h, find-version v rows row)

module _ (now v : ℕ) where
  pub stable-none :
      (rows : List BundleRow)
      → find (has_version v) rows ≡ none
      → (first_of is_active (activated now v 0 rows) ≡ none)
        × (first_of is_canary (activated now v 0 rows) ≡ none)
  unfolding first_of
  stable-none [] h = (refl, refl)
  stable-none (row ∷ rows) h =
      let rest = stable-none rows (ground (arith, h)) in
      (ground (arith, h, rest.0), ground (arith, h, rest.1))

  pub stable-some :
      (rows : List BundleRow) (row : BundleRow)
      → IsKeyed rows
      → find (has_version v) rows ≡ some row
      → (first_of is_active (activated now v 0 rows) ≡ some (place now active 0 row))
        × (first_of is_canary (activated now v 0 rows) ≡ none)
  unfolding first_of
  stable-some [] row k h = absurd (ground (arith, h))
  stable-some (x ∷ rows) row k h = elim (Bool-cases (has_version v x)) [
    | inl here ↦
        let own : x.version ≡ v = ground (arith, here) in
        let absent : find (has_version v) rows ≡ none =
          rw own at (find-absent x.version rows k.0) in
        let rest = stable-none rows absent in
        (ground (arith, here, h, rest.0), ground (arith, here, h, rest.1))
    | inr there ↦
        let rest = stable-some rows row k.1 (ground (arith, there, h)) in
        (ground (arith, there, rest.0), ground (arith, there, rest.1))
  ]

  pub canary-none :
      (p : ℕ) (rows : List BundleRow)
      → 1 ≤ p
      → find (has_version v) rows ≡ none
      → (first_of is_active (activated now v p rows) ≡ first_of is_active rows)
        × (first_of is_canary (activated now v p rows) ≡ none)
  unfolding first_of
  canary-none p [] pos h = (refl, refl)
  canary-none p (row ∷ rows) pos h =
      let rest = canary-none p rows pos (ground (arith, h)) in
      (ground (arith, h, pos, rest.0), ground (arith, h, pos, rest.1))

  pub canary-stable :
      (p : ℕ) (rows : List BundleRow) (row : BundleRow)
      → 1 ≤ p
      → IsKeyed rows
      → find (has_version v) rows ≡ some row
      → is_active row ≡ false
      → first_of is_active (activated now v p rows) ≡ first_of is_active rows
  unfolding first_of
  canary-stable p [] row pos k h idle = absurd (ground (arith, h))
  canary-stable p (x ∷ rows) row pos k h idle = elim (Bool-cases (has_version v x)) [
    | inl here ↦
        let own : x.version ≡ v = ground (arith, here) in
        let absent : find (has_version v) rows ≡ none =
          rw own at (find-absent x.version rows k.0) in
        ground (arith, here, h, pos, idle, (canary-none p rows pos absent).0)
    | inr there ↦
        ground (arith, there, pos, canary-stable p rows row pos k.1 (ground (arith, there, h)) idle)
  ]

  pub canary-placed :
      (p : ℕ) (rows : List BundleRow) (row : BundleRow)
      → 1 ≤ p
      → IsKeyed rows
      → find (has_version v) rows ≡ some row
      → first_of is_canary (activated now v p rows) ≡ some (place now canary p row)
  unfolding first_of
  canary-placed p [] row pos k h = absurd (ground (arith, h))
  canary-placed p (x ∷ rows) row pos k h = elim (Bool-cases (has_version v x)) [
    | inl here ↦
        let own : x.version ≡ v = ground (arith, here) in
        let absent : find (has_version v) rows ≡ none =
          rw own at (find-absent x.version rows k.0) in
        ground (arith, here, h, pos, (canary-none p rows pos absent).1)
    | inr there ↦
        ground (arith, there, pos, canary-placed p rows row pos k.1 (ground (arith, there, h)))
  ]

  pub active-gone :
      (p : ℕ) (rows : List BundleRow)
      → 1 ≤ p
      → All (λ (row : BundleRow). is_active row ≡ true → row.version ≡ v) rows
      → first_of is_active (activated now v p rows) ≡ none
  unfolding first_of
  active-gone p [] pos h = refl
  active-gone p (row ∷ rows) pos h = ground (arith, pos, h.0, active-gone p rows pos h.1)

module _ (library : Library) (signing_key : String) (now v p : ℕ) where
  -- The parts of an activation that has succeeded.
  pub record Activated (rows : List BundleRow) (row : BundleRow) (rows' : List BundleRow)
      : Type 0 where
    pub before : BundleRow
    pub rules : GovernanceRules
    pub found : find (has_version v) rows ≡ some before
    pub read : library.model_validate before.rules ≡ some rules
    pub signed : verify_bundle library rules v before.signature signing_key ≡ true
    pub small : p ≤ 100
    pub placed : row ≡ place now (status_for p) p before
    pub after : rows' ≡ activated now v p rows

  pub activate-Activated :
      (rows rows' : List BundleRow) (row : BundleRow)
      → activate library signing_key now v p rows ≡ (ok row, rows')
      → Activated rows row rows'
  unfolding activate activation
  activate-Activated rows rows' row h = elim (Option-cases (find (has_version v) rows)) [
    | inl missing ↦ absurd (ground (arith, missing, h))
    | inr (before, e) ↦ elim (Option-cases (library.model_validate before.rules)) [
      | inl bad ↦ absurd (ground (arith, e, bad, h))
      | inr (rules, e₁) ↦
          elim (Bool-cases (verify_bundle library rules v before.signature signing_key)) [
            | inr forged ↦ absurd (ground (arith, e, e₁, forged, h))
            | inl signed ↦ elim (Bool-cases (leb p 100)) [
              | inr large ↦ absurd (ground (arith, e, e₁, signed, large, h))
              | inl small ↦ record {
                before = before;
                rules = rules;
                found = e;
                read = e₁;
                signed = signed;
                small = ground (arith, small);
                placed = ground (arith, e, e₁, signed, small, h);
                after = ground (arith, e, e₁, signed, small, h);
              }
            ]
          ]
    ]
  ]
