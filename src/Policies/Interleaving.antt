-- ===== src/Policies/Interleaving.antt =====
-- Two activations of trpc_service/policy_bundles.py at once. The transaction of `activate` is READ
-- COMMITTED and locks the row of its own version only, so where neither version is in place, nothing
-- makes the second transaction wait until the first has placed its version.
use trpc_agent_service_douzh.Prelude.{ℕ, List, update_where}
use trpc_agent_service_douzh.Policies.Bundles.{
  BundleRow, active, has_version, displaced, retire, place,
}

-- The two UPDATE statements of an activation for all.
abbrev pub retire_others : ℕ → List BundleRow → List BundleRow
retire_others v = update_where (displaced 0 v) retire

abbrev pub place_version : (now v : ℕ) → List BundleRow → List BundleRow
place_version now v = update_where (has_version v) (place now active 0)

-- Both retire what they find in place before either places its version.
unfoldable pub interleaved : (now a b : ℕ) → List BundleRow → List BundleRow
interleaved now a b rows =
    place_version now b (place_version now a (retire_others b (retire_others a rows)))
