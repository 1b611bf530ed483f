-- ===== src/StorageMigrations/Executor.antt =====
-- `backfill` and `catch_up` of StorageMigrationExecutor in trpc_service/storage_migration.py. The pairs
-- that the adapter factory answers, which is a Protocol, are memory adapters of trpc_service/storage.py.
-- The dict of watermarks has the pairs' indices for keys.
pub mod Copies
use trpc_agent_service_douzh.Prelude.{
  ℕ, ◌+◌, String, List, [], ◌∷◌, Option, none, some, Bool, not, ◌==◌, if◌then◌else◌, length,
}
use trpc_agent_service_douzh.Prelude.Action.{Result, ok, err}
use trpc_agent_service_douzh.Storage.Memory.{Memory, snapshot_tenant, changes_since, apply_changes}

pub data ExecutorError : Type 0 where
  adapters_unavailable checkpoint_invalid key_error : ExecutorError

pub record Pair : Type 0 where
  pub source : Memory
  pub target : Memory

abbrev pub Watermarks : Type 0
Watermarks = List (ℕ × ℕ)

abbrev pub watermark_of : ℕ → Watermarks → Option ℕ
watermark_of index [] = none
watermark_of index ((i, w) ∷ rest) = if i == index then some w else watermark_of index rest

-- The loop of `backfill` from an index on.
unfoldable pub backfill_from : String → ℕ → List Pair → Watermarks × List Pair
backfill_from tenant index [] = ([], [])
backfill_from tenant index (pair ∷ pairs) =
    let (watermark, snapshot) = snapshot_tenant tenant pair.source in
    let copied = record pair { target = apply_changes tenant snapshot pair.target } in
    let (watermarks, rest) = backfill_from tenant (index + 1) pairs in
    ((index, watermark) ∷ watermarks, copied ∷ rest)

unfoldable pub backfill : String → List Pair → Result ExecutorError Watermarks × List Pair
backfill tenant [] = (err adapters_unavailable, [])
backfill tenant (pair ∷ pairs) =
    let (watermarks, copied) = backfill_from tenant 0 (pair ∷ pairs) in (ok watermarks, copied)

-- The loop of `catch_up` from an index on.
unfoldable pub catch_up_from :
    String → Watermarks → ℕ → List Pair → Result ExecutorError Watermarks × List Pair
catch_up_from tenant watermarks index [] = (ok [], [])
catch_up_from tenant watermarks index (pair ∷ pairs) =
    let rest = catch_up_from tenant watermarks (index + 1) pairs in
    elim (watermark_of index watermarks) [
      | none ↦ (err key_error, pair ∷ pairs)
      | some since ↦
          let (watermark, changes) = changes_since tenant since pair.source in
          let copied = record pair { target = apply_changes tenant changes pair.target } in
          elim rest.0 [
            | err error ↦ (err error, copied ∷ rest.1)
            | ok updated ↦ (ok ((index, watermark) ∷ updated), copied ∷ rest.1)
          ]
    ]

unfoldable pub catch_up :
    String → Watermarks → List Pair → Result ExecutorError Watermarks × List Pair
catch_up tenant watermarks pairs =
    if length pairs == length watermarks
    then catch_up_from tenant watermarks 0 pairs
    else (err checkpoint_invalid, pairs)
