-- ===== src/Policies/History.antt =====
-- Histories of versions and activations of trpc_service/policy_bundles.py, whose calls run one after
-- another.
use trpc_agent_service_douzh.Prelude.{
  ℕ, ◌+◌, ◌≤◌, ◌<◌, String, List, [], ◌∷◌, ◌++◌, none, Bool, false, ltb, if◌then◌else◌, find,
  exists, count_where, max_of, All, All-snoc, ◌≡◌, ◌≢◌, refl, arith, inl, inr, Bool-cases,
}
use trpc_agent_service_douzh.Prelude.Action.{err, transaction-fails, Action-cases}
use trpc_agent_service_douzh.Governance.Rules.{GovernanceRules}
use trpc_agent_service_douzh.Policies.Signing.{Library, compile_bundle, sign_bundle}
use trpc_agent_service_douzh.Policies.Bundles.{
  PolicyBundleError, draft, BundleRow, is_active, is_canary, has_version, next_version,
  insert_version, create_version, activation, activate,
}
use trpc_agent_service_douzh.Policies.Activation.{
  IsKeyed, activated, activate-Activated, find-absent,
}

-- Different versions, at most one of which is stable and at most one the canary.
pub record IsPlaced (rows : List BundleRow) : Type 0 where
  pub keyed : IsKeyed rows
  pub one_active : count_where is_active rows ≤ 1
  pub one_canary : count_where is_canary rows ≤ 1

module _ (now v p : ℕ) where
  activated-versions :
      (w w' : ℕ) (rows : List BundleRow)
      → w' ≡ w
      → All (λ (other : BundleRow). other.version ≢ w) rows
      → All (λ (other : BundleRow). other.version ≢ w') (activated now v p rows)
  activated-versions w w' [] same h = tt
  activated-versions w w' (row ∷ rows) same h =
      (λ e. h.0 (ground (arith, e, same)), activated-versions w w' rows same h.1)

  activated-IsKeyed : (rows : List BundleRow) → IsKeyed rows → IsKeyed (activated now v p rows)
  activated-IsKeyed [] k = tt
  activated-IsKeyed (row ∷ rows) k =
      (activated-versions row.version _ rows (ground arith) k.0, activated-IsKeyed rows k.1)

  -- Without the version, a stable activation leaves nothing in place, and a canary's no canary.
  activated-absent :
      (rows : List BundleRow)
      → find (has_version v) rows ≡ none
      → (count_where is_active (activated now v p rows)
          ≤ (if ltb 0 p then count_where is_active rows else 0))
        × (count_where is_canary (activated now v p rows) ≤ 0)
  activated-absent [] h = (ground arith, omega arith)
  activated-absent (row ∷ rows) h =
      let rest = activated-absent rows (ground (arith, h)) in
      (ground (arith, h, rest.0), ground (arith, h, rest.1))

  activated-one :
      (rows : List BundleRow)
      → IsKeyed rows
      → (count_where is_active (activated now v p rows)
          ≤ (if ltb 0 p then count_where is_active rows else 1))
        × (count_where is_canary (activated now v p rows) ≤ 1)
  activated-one [] k = (ground arith, omega arith)
  activated-one (row ∷ rows) k = elim (Bool-cases (has_version v row)) [
    | inl here ↦
        let own : row.version ≡ v = ground (arith, here) in
        let absent : find (has_version v) rows ≡ none =
          rw own at (find-absent row.version rows k.0) in
        let rest = activated-absent rows absent in
        (ground (arith, here, rest.0), ground (arith, here, rest.1))
    | inr there ↦
        let rest = activated-one rows k.1 in
        (ground (arith, there, rest.0), ground (arith, there, rest.1))
  ]

count-snoc :
    (test : BundleRow → Bool) (rows : List BundleRow) (row : BundleRow)
    → test row ≡ false
    → count_where test (rows ++ (row ∷ [])) ≡ count_where test rows
count-snoc test [] row e = ground (arith, e)
count-snoc test (x ∷ rows) row e = ground (arith, count-snoc test rows row e)

below_max :
    (rows : List BundleRow) (n : ℕ)
    → max_of (λ (row : BundleRow). row.version) rows < n
    → (exists (has_version n) rows ≡ false) × All (λ (other : BundleRow). n ≢ other.version) rows
below_max [] n h = (refl, tt)
below_max (row ∷ rows) n h =
    let (fresh, rest) = below_max rows n (omega (arith, h)) in
    (ground (arith, h, fresh), (λ e. omega (arith, h, e), rest))

snoc-IsKeyed :
    (rows : List BundleRow) (row : BundleRow)
    → IsKeyed rows
    → All (λ (other : BundleRow). row.version ≢ other.version) rows
    → IsKeyed (rows ++ (row ∷ []))
snoc-IsKeyed [] row k h = (tt, tt)
snoc-IsKeyed (x ∷ rows) row k h = (
  All-snoc (λ (other : BundleRow). other.version ≢ x.version) rows row k.0 h.0,
  snoc-IsKeyed rows row k.1 h.1,
)

-- A version that is created, or activated at a moment for a percentage of the decisions.
pub data Call : Type 0 where
  create_call : GovernanceRules → (actor : String) → Call
  activate_call : (now version percentage : ℕ) → Call

module _ (library : Library) (signing_key : String) where
  abbrev pub perform : Call → List BundleRow → List BundleRow
  perform (create_call rules actor) rows = (create_version library signing_key rules actor rows).1
  perform (activate_call now version percentage) rows =
      (activate library signing_key now version percentage rows).1

  abbrev pub history : List Call → List BundleRow → List BundleRow
  history [] rows = rows
  history (call ∷ calls) rows = history calls (perform call rows)

  activate-fails :
      (now v p : ℕ) (rows : List BundleRow) (e : PolicyBundleError)
      → (activate library signing_key now v p rows).0 ≡ err e
      → (activate library signing_key now v p rows).1 ≡ rows
  unfolding activate
  activate-fails now v p rows e h =
      transaction-fails (activation library signing_key now v p) rows e h

  perform-IsPlaced :
      (call : Call) (rows : List BundleRow) → IsPlaced rows → IsPlaced (perform call rows)
  unfolding create_version next_version insert_version
  perform-IsPlaced (create_call rules actor) rows placed =
      let n = max_of (λ (row : BundleRow). row.version) rows + 1 in
      let (fresh, other) = below_max rows n (omega arith) in
      let row : BundleRow = record {
        version = n;
        rules = library.model_dump rules;
        bundle = compile_bundle rules n;
        signature = sign_bundle library rules n signing_key;
        status = draft;
        canary_percentage = 0;
        created_by = actor;
        activated_at = none;
      } in
      let step : (create_version library signing_key rules actor rows).1 ≡ rows ++ (row ∷ []) =
        ground (arith, fresh) in
      rw step (record {
        keyed = snoc-IsKeyed rows row placed.keyed other;
        one_active = ground (arith, count-snoc is_active rows row refl, placed.one_active);
        one_canary = ground (arith, count-snoc is_canary rows row refl, placed.one_canary);
      })
  perform-IsPlaced (activate_call now v p) rows placed =
      let m = activate library signing_key now v p rows in
      elim (Action-cases m) [
        | inr (e, failed) ↦ rw (activate-fails now v p rows e (ground (arith, failed))) placed
        | inl (row, done) ↦
            let a = activate-Activated library signing_key now v p rows m.1 row done in
            let (actives, canaries) = activated-one now v p rows placed.keyed in
            rw (a.after) (record {
              keyed = activated-IsKeyed now v p rows placed.keyed;
              one_active = ground (arith, actives, placed.one_active);
              one_canary = canaries;
            })
      ]

  history_keeps :
      (calls : List Call) (rows : List BundleRow) → IsPlaced rows → IsPlaced (history calls rows)
  history_keeps [] rows placed = placed
  history_keeps (call ∷ calls) rows placed =
      history_keeps calls (perform call rows) (perform-IsPlaced call rows placed)

  -- From a table without versions, any creations and activations, one after another and none while
  -- another runs, leave different versions, of which at most one is active and at most one a canary.
  pub history-IsPlaced : (calls : List Call) → IsPlaced (history calls [])
  history-IsPlaced calls =
      history_keeps calls []
        (record { keyed = tt; one_active = omega arith; one_canary = omega arith })
