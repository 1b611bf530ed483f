-- ===== src/StorageMigrations/Tests.antt =====
-- Runs of the migrations of trpc_service/storage_migration.py, and the theorems at inputs of them.
use trpc_agent_service_douzh.Prelude.{All, ◌≤◌, List, [], ◌∷◌, none, some, ◌≡◌, refl, arith}
use trpc_agent_service_douzh.Prelude.Action.{ok}
use trpc_agent_service_douzh.StorageMigrations.Machine.{
  StorageMigrationState, prepared, completed, start_backfill, backfill_complete, catch_up_complete,
  validate, switch, complete, fail, ValidationEvidence, Machine, is_valid, transition, create,
  advance, business_write_profile_id,
}
use trpc_agent_service_douzh.StorageMigrations.Evidence.{PairAnswer}
use trpc_agent_service_douzh.Storage.Memory.{Memory, new_memory, put, get, get_object, set_object}
use trpc_agent_service_douzh.Storage.Memory.Feed.{Write, put_write, erase_write}
use trpc_agent_service_douzh.StorageMigrations.Executor.{Pair, Watermarks, backfill}
use trpc_agent_service_douzh.StorageMigrations.Executor.Copies.{
  IsFresh, Mirrors, rounds, migration_copies,
}
use trpc_agent_service_douzh.StorageMigrations.Runs.{
  Call, run, accepted_calls, switch_after_validation, moves_bound,
}

abbrev evidence : ValidationEvidence
evidence = record {
  source_count = 3;
  target_count = 3;
  source_digest = "ab";
  target_digest = "ab";
  source_version = 9;
  target_version = 9;
  vector_recall = 9007199254740992;
}

abbrev migration : StorageMigrationState → Machine
migration state = record { source_profile_id = "old"; target_profile_id = "new"; state = state }

-- The copy, and a switch that nothing has validated.
abbrev unvalidated : List Call
unvalidated =
    (start_backfill, none)
    ∷ (backfill_complete, none)
    ∷ (catch_up_complete, none)
    ∷ (validate, none)
    ∷ (switch, none)
    ∷ []

abbrev whole : List Call
whole =
    (start_backfill, none)
    ∷ (backfill_complete, none)
    ∷ (catch_up_complete, none)
    ∷ (validate, some evidence)
    ∷ (switch, none)
    ∷ (fail, none)
    ∷ (complete, none)
    ∷ []

run-whole : run whole (migration prepared) ≡ migration completed
unfolding advance transition is_valid
run-whole = refl

accepted_calls-whole : accepted_calls whole (migration prepared) ≡ 6
unfolding advance transition is_valid
accepted_calls-whole = refl

made : create "old" "new" prepared ≡ ok (migration prepared)
unfolding create
made = refl

switch_after_validation_example :
    business_write_profile_id (run unvalidated (migration prepared)) ≡ some "old"
switch_after_validation_example =
    switch_after_validation "old" "new" (migration prepared) unvalidated made refl

moves_bound_example : accepted_calls whole (migration prepared) ≤ 9
moves_bound_example = moves_bound whole (migration prepared)

abbrev pair : PairAnswer
pair = record {
  source_count = 3;
  source_digest = "ab";
  source_version = 9;
  target_count = 3;
  target_digest = "ab";
  target_version = 41;
  recall = 9007199254740992;
}

abbrev source : Memory
source = put "t" "b" "2" (put "u" "a" "9" (put "t" "a" "1" new_memory))

abbrev stores : Pair
stores = record { source = source; target = put "u" "z" "0" new_memory }

-- A round that deletes everything and writes one object again, and a round without writes.
abbrev two_rounds : List (List (List Write))
two_rounds = ((erase_write "t" ∷ put_write "t" "a" "3" ∷ []) ∷ []) ∷ [] ∷ []

stores-IsFresh : IsFresh "t" stores
unfolding put get get_object set_object
stores-IsFresh =
    (((refl, (refl, (refl, tt))), (omega arith, (omega arith, (omega arith, tt)))), λ k. refl)

migration_copies_example :
    (d d' : Watermarks) × ((backfill "t" (stores ∷ [])).0 ≡ ok d)
    × (rounds "t" two_rounds d (backfill "t" (stores ∷ [])).1
        ≡ (ok d', (rounds "t" two_rounds d (backfill "t" (stores ∷ [])).1).1))
    × All (Mirrors "t") (rounds "t" two_rounds d (backfill "t" (stores ∷ [])).1).1
migration_copies_example = migration_copies "t" stores [] two_rounds (stores-IsFresh, tt)
