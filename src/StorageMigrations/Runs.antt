-- ===== src/StorageMigrations/Runs.antt =====
-- Runs of the state machine of trpc_service/storage_migration.py: any calls of `advance`, the refused
-- ones included.
use trpc_agent_service_douzh.Prelude.{
  ℕ, ◌+◌, ◌≤◌, String, List, [], ◌∷◌, Option, none, some, Bool, true, false, ◌&&◌, exists, ◌≡◌, ◌≢◌,
  ◌⊎◌, refl, arith, str_eq_iff, str_eq_refl,
}
use trpc_agent_service_douzh.Prelude.Action.{Result, ok, err}
use trpc_agent_service_douzh.StorageMigrations.Machine.{
  StorageMigrationError, StorageMigrationState, prepared, backfilling, catching_up, validating,
  ready_to_switch, observing, rolling_back, rollback_catching_up, rollback_validating, completed,
  rolled_back, failed, MigrationOperation, ValidationEvidence, Machine, transition, is_validate,
  has_valid, advance, business_write_profile_id, create, source_is_authoritative,
}

abbrev pub Call : Type 0
Call = MigrationOperation × Option ValidationEvidence

abbrev pub run : List Call → Machine → Machine
run [] m = m
run ((operation, validation) ∷ calls) m = run calls (advance operation validation m).1

-- A call that can pass the gate.
abbrev pub validates : Call → Bool
validates call = is_validate call.0 && has_valid call.1

-- The states that lie behind the gate.
abbrev is_validated : StorageMigrationState → Bool
is_validated prepared = false
is_validated backfilling = false
is_validated catching_up = false
is_validated validating = false
is_validated failed = false
is_validated _ = true

advance-gate :
    (operation : MigrationOperation) (validation : Option ValidationEvidence) (m : Machine)
    → is_validated m.state ≡ false
    → validates (operation, validation) ≡ false
    → is_validated (advance operation validation m).1.state ≡ false
unfolding advance transition
advance-gate operation validation m before quiet = ground arith

run-gate :
    (calls : List Call) (m : Machine)
    → is_validated m.state ≡ false
    → exists validates calls ≡ false
    → is_validated (run calls m).state ≡ false
run-gate [] m before quiet = before
run-gate ((operation, validation) ∷ calls) m before quiet =
    run-gate calls (advance operation validation m).1
      (advance-gate operation validation m before (ground arith)) (ground arith)

run-profiles :
    (calls : List Call) (m : Machine)
    → ((run calls m).source_profile_id ≡ m.source_profile_id)
      × ((run calls m).target_profile_id ≡ m.target_profile_id)
unfolding advance
run-profiles [] m = (refl, refl)
run-profiles ((operation, validation) ∷ calls) m =
    let rest = run-profiles calls (advance operation validation m).1 in
    (ground (arith, rest.0), ground (arith, rest.1))

writes-gate :
    (m : Machine)
    → is_validated m.state ≡ false
    → business_write_profile_id m ≡ some m.source_profile_id
unfolding business_write_profile_id
writes-gate m before = ground arith

-- A new migration writes to its source profile through any calls none of which is a VALIDATE with
-- valid evidence.
pub switch_after_validation :
    (source target : String) (m : Machine) (calls : List Call)
    → create source target prepared ≡ ok m
    → exists validates calls ≡ false
    → business_write_profile_id (run calls m) ≡ some source
unfolding create
switch_after_validation source target m calls h quiet =
    let made : m
        ≡ record { source_profile_id = source; target_profile_id = target; state = prepared } =
      ground (arith, h) in
    let before : is_validated (run calls m).state ≡ false =
      run-gate calls m (ground (arith, made)) quiet in
    ground (arith, made, writes-gate (run calls m) before, run-profiles calls m)

-- How far a state is from PREPARED, by the longest way.
abbrev stage : StorageMigrationState → ℕ
stage prepared = 0
stage backfilling = 1
stage catching_up = 2
stage validating = 3
stage ready_to_switch = 4
stage observing = 5
stage completed = 6
stage rolling_back = 6
stage rollback_catching_up = 7
stage rollback_validating = 8
stage rolled_back = 9
stage failed = 9

-- A call that moves the migration.
abbrev accepted : Result StorageMigrationError StorageMigrationState → ℕ
accepted (ok _) = 1
accepted (err _) = 0

abbrev pub accepted_calls : List Call → Machine → ℕ
accepted_calls [] m = 0
accepted_calls ((operation, validation) ∷ calls) m =
    accepted (advance operation validation m).0
    + accepted_calls calls (advance operation validation m).1

advance-stage :
    (operation : MigrationOperation) (validation : Option ValidationEvidence) (m : Machine)
    → stage m.state + accepted (advance operation validation m).0
      ≤ stage (advance operation validation m).1.state
unfolding advance transition
advance-stage operation validation m = ground arith

stage_bound : (s : StorageMigrationState) → stage s ≤ 9
stage_bound s = ground arith

run-stage :
    (calls : List Call) (m : Machine)
    → stage m.state + accepted_calls calls m ≤ stage (run calls m).state
run-stage [] m = omega arith
run-stage ((operation, validation) ∷ calls) m = omega (
  arith,
  advance-stage operation validation m,
  run-stage calls (advance operation validation m).1,
)

-- A migration moves at most nine times, whatever is called and however often.
pub moves_bound : (calls : List Call) (m : Machine) → accepted_calls calls m ≤ 9
moves_bound calls m = omega (arith, run-stage calls m, stage_bound (run calls m).state)

abbrev pub is_final : StorageMigrationState → Bool
is_final completed = true
is_final rolled_back = true
is_final failed = true
is_final _ = false

-- COMPLETED, ROLLED_BACK and FAILED are final: no calls move the machine any more, and a rolled back
-- or failed migration writes to the source, a completed one to the target.
final_stays :
    (calls : List Call) (m : Machine)
    → is_final m.state ≡ true
    → (run calls m ≡ m)
      × ((m.state ≡ completed) → business_write_profile_id m ≡ some m.target_profile_id)
      × (m.state ≢ completed → business_write_profile_id m ≡ some m.source_profile_id)
unfolding advance transition business_write_profile_id
final_stays [] m final = (refl, λ e. ground arith, λ e. ground arith)
final_stays ((operation, validation) ∷ calls) m final =
    let stay : (advance operation validation m).1 ≡ m = ground arith in
    let rest = final_stays calls m final in (ground (arith, stay, rest.0), rest.1, rest.2)

abbrev pub IsRollingBack : StorageMigrationState → Type 0
IsRollingBack state =
    (state ≡ rolling_back) ⊎ ((state ≡ rollback_catching_up) ⊎ (state ≡ rollback_validating))

-- A migration of two different profiles has no profile for business writes exactly while it rolls back;
-- otherwise that is the source, which then is authoritative, or the target, and then it is not.
write_profile_lem :
    (m : Machine)
    → m.source_profile_id ≢ m.target_profile_id
    → (IsRollingBack m.state → business_write_profile_id m ≡ none)
      × (business_write_profile_id m ≡ none → IsRollingBack m.state)
      × (((business_write_profile_id m ≡ none) × (source_is_authoritative m ≡ false))
          ⊎ (((business_write_profile_id m ≡ some m.source_profile_id)
                × (source_is_authoritative m ≡ true))
              ⊎ ((business_write_profile_id m ≡ some m.target_profile_id)
                  × (source_is_authoritative m ≡ false))))
unfolding business_write_profile_id source_is_authoritative
write_profile_lem m distinct = (
  λ rolling. ground (arith, rolling),
  λ stopped. ground (arith, stopped),
  ground (
    arith,
    distinct,
    str_eq_iff m.target_profile_id m.source_profile_id,
    str_eq_refl m.source_profile_id,
  ),
)
