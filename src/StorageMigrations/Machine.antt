-- ===== src/StorageMigrations/Machine.antt =====
-- StorageMigrationStateMachine of trpc_service/storage_migration.py. A recall is in units of 2 ^ -53,
-- rounded down, in which the double 0.95 is a whole number.
use trpc_agent_service_douzh.Prelude.{
  ℕ, String, Option, none, some, Bool, true, false, not, ◌&&◌, ◌==◌, leb, str_eq, if◌then◌else◌,
}
use trpc_agent_service_douzh.Prelude.Action.{Result, Action, ok, err}

pub data StorageMigrationState : Type 0 where
  prepared backfilling catching_up validating ready_to_switch observing : StorageMigrationState
  rolling_back rollback_catching_up rollback_validating : StorageMigrationState
  completed rolled_back failed : StorageMigrationState

pub data MigrationOperation : Type 0 where
  start_backfill backfill_complete catch_up_complete validate switch : MigrationOperation
  complete start_rollback rollback_backfill_complete : MigrationOperation
  rollback_catch_up_complete rollback_validate fail : MigrationOperation

pub data StorageMigrationError : Type 0 where
  identical_profiles invalid_transition validation_failed : StorageMigrationError
  adapters_unavailable : StorageMigrationError

pub record ValidationEvidence : Type 0 where
  pub source_count : ℕ
  pub target_count : ℕ
  pub source_digest : String
  pub target_digest : String
  pub source_version : ℕ
  pub target_version : ℕ
  pub vector_recall : ℕ

-- 0.95
abbrev pub minimum_vector_recall : ℕ
minimum_vector_recall = 8556839292003942

unfoldable pub is_valid : ValidationEvidence → Bool
is_valid evidence =
    (evidence.source_count == evidence.target_count)
    && str_eq evidence.source_digest evidence.target_digest
    && (evidence.source_version == evidence.target_version)
    && leb minimum_vector_recall evidence.vector_recall

-- _TRANSITIONS
unfoldable pub transition :
    StorageMigrationState → MigrationOperation → Option StorageMigrationState
transition prepared start_backfill = some backfilling
transition backfilling backfill_complete = some catching_up
transition catching_up catch_up_complete = some validating
transition validating validate = some ready_to_switch
transition ready_to_switch switch = some observing
transition observing complete = some completed
transition observing start_rollback = some rolling_back
transition rolling_back rollback_backfill_complete = some rollback_catching_up
transition rollback_catching_up rollback_catch_up_complete = some rollback_validating
transition rollback_validating rollback_validate = some rolled_back
transition _ _ = none

pub record Machine : Type 0 where
  pub source_profile_id : String
  pub target_profile_id : String
  pub state : StorageMigrationState

-- `__init__`, whose state is PREPARED for a new migration
unfoldable pub create :
    String → String → StorageMigrationState → Result StorageMigrationError Machine
create source target state =
    if str_eq source target
    then err identical_profiles
    else ok (record { source_profile_id = source; target_profile_id = target; state = state })

unfoldable pub business_write_profile_id : Machine → Option String
business_write_profile_id m = elim m.state [
  | rolling_back ↦ none
  | rollback_catching_up ↦ none
  | rollback_validating ↦ none
  | observing ↦ some m.target_profile_id
  | completed ↦ some m.target_profile_id
  | _ ↦ some m.source_profile_id
]

unfoldable pub source_is_authoritative : Machine → Bool
source_is_authoritative m = elim (business_write_profile_id m) [
  | none ↦ false
  | some profile ↦ str_eq profile m.source_profile_id
]

abbrev pub may_fail : StorageMigrationState → Bool
may_fail prepared = true
may_fail backfilling = true
may_fail catching_up = true
may_fail validating = true
may_fail ready_to_switch = true
may_fail _ = false

abbrev pub is_fail : MigrationOperation → Bool
is_fail fail = true
is_fail _ = false

abbrev pub is_validate : MigrationOperation → Bool
is_validate validate = true
is_validate _ = false

abbrev pub has_valid : Option ValidationEvidence → Bool
has_valid none = false
has_valid (some evidence) = is_valid evidence

unfoldable pub advance :
    MigrationOperation
    → Option ValidationEvidence
    → Action Machine StorageMigrationError StorageMigrationState
advance operation validation m =
    if is_fail operation && may_fail m.state
    then (ok failed, record m { state = failed })
    else elim (transition m.state operation) [
      | none ↦ (err invalid_transition, m)
      | some next ↦
          if is_validate operation && not (has_valid validation)
          then (err validation_failed, m)
          else (ok next, record m { state = next })
    ]
