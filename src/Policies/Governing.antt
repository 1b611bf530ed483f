-- ===== src/Policies/Governing.antt =====
-- Which version governs after an activation of trpc_service/policy_bundles.py.
use trpc_agent_service_douzh.Prelude.{
  ℕ, ◌≤◌, ◌<◌, String, List, some, Bool, true, false, find, All, ◌≡◌, arith,
}
use trpc_agent_service_douzh.Prelude.Action.{ok, err}
use trpc_agent_service_douzh.Governance.Rules.{GovernanceRules}
use trpc_agent_service_douzh.Policies.Signing.{Library, verify_bundle, canary_bucket}
use trpc_agent_service_douzh.Policies.Bundles.{
  unavailable, active, canary, BundleRow, is_active, has_version, first_of, place, activate,
  open_row, resolve,
}
use trpc_agent_service_douzh.Policies.Activation.{
  IsKeyed, find-version, stable-some, canary-stable, canary-placed, active-gone, activate-Activated,
}

module _ (library : Library) (signing_key : String) where
  open_row-signed :
      (used : Bool) (row : BundleRow) (rules : GovernanceRules) (rows : List BundleRow)
      → library.model_validate row.rules ≡ some rules
      → verify_bundle library rules row.version row.signature signing_key ≡ true
      → open_row library signing_key used row rows
        ≡ (ok (some (record { version = row.version; rules = rules; canary = used })), rows)
  unfolding open_row
  open_row-signed used row rules rows read signed = ground (arith, read, signed)

  -- Where the versions differ, after a version has been activated for all, an older one again or a
  -- canary included, it governs every decision with its own rules.
  pub activate_governs :
      (now v : ℕ) (rows rows' : List BundleRow) (row : BundleRow)
      → IsKeyed rows
      → activate library signing_key now v 0 rows ≡ (ok row, rows')
      → (rules : GovernanceRules) × (library.model_validate row.rules ≡ some rules)
        × ((key : String)
            → resolve library signing_key key rows'
              ≡ (ok (some (record { version = v; rules = rules; canary = false })), rows'))
  unfolding resolve
  activate_governs now v rows rows' row keyed h =
      let a = activate-Activated library signing_key now v 0 rows rows' row h in
      let (stable, no_canary) = stable-some now v rows a.before keyed a.found in
      let own = find-version v rows a.before a.found in
      let opened =
        open_row-signed false (place now active 0 a.before) a.rules rows' a.read
          (rw own a.signed) in
      (
        a.rules,
        ground (arith, a.placed, a.read),
        λ key. ground (arith, a.after, stable, no_canary, opened, own),
      )

  -- Where the versions differ, after a version other than the stable one has become the canary for a
  -- share of the decisions, it governs those whose bucket is below the share with its own rules, and
  -- the stable version is opened for all others.
  pub canary_shares :
      (now v p : ℕ) (rows rows' : List BundleRow) (row before stable : BundleRow)
      → IsKeyed rows
      → 1 ≤ p
      → find (has_version v) rows ≡ some before
      → is_active before ≡ false
      → first_of is_active rows ≡ some stable
      → activate library signing_key now v p rows ≡ (ok row, rows')
      → (rules : GovernanceRules) × (library.model_validate row.rules ≡ some rules)
        × ((key : String)
            → canary_bucket library key < p
            → resolve library signing_key key rows'
              ≡ (ok (some (record { version = v; rules = rules; canary = true })), rows'))
        × ((key : String)
            → p ≤ canary_bucket library key
            → resolve library signing_key key rows'
              ≡ open_row library signing_key false stable rows')
  unfolding resolve
  canary_shares now v p rows rows' row before stable keyed pos found idle governing h =
      let a = activate-Activated library signing_key now v p rows rows' row h in
      let same : a.before ≡ before = ground (arith, a.found, found) in
      let was_stable = canary-stable now v p rows before pos keyed found idle in
      let placed = canary-placed now v p rows before pos keyed found in
      let own = find-version v rows before found in
      let opened =
        open_row-signed true (place now canary p before) a.rules rows' (rw same at a.read)
          (rw own (rw same at a.signed)) in
      (
        a.rules,
        ground (arith, a.placed, a.read),
        λ key below.
            ground (arith, a.after, was_stable, governing, placed, pos, below, opened, own),
        λ key above. ground (arith, a.after, was_stable, governing, placed, pos, above),
      )

  -- Making the only active version the canary leaves no stable one: from then on every decision fails
  -- as unavailable.
  pub canary_of_active :
      (now v p : ℕ) (rows rows' : List BundleRow) (row before : BundleRow)
      → IsKeyed rows
      → 1 ≤ p
      → find (has_version v) rows ≡ some before
      → All (λ (other : BundleRow). is_active other ≡ true → other.version ≡ v) rows
      → activate library signing_key now v p rows ≡ (ok row, rows')
      → (key : String) → resolve library signing_key key rows' ≡ (err unavailable, rows')
  unfolding resolve
  canary_of_active now v p rows rows' row before keyed pos found only h key =
      let a = activate-Activated library signing_key now v p rows rows' row h in
      let gone = active-gone now v p rows pos only in
      let placed = canary-placed now v p rows before pos keyed found in
      ground (arith, a.after, gone, placed)
