-- ===== src/ToolRuntime/Contract.antt =====
-- _execute_with_contract of trpc_service/tool/executor.py. What the backend does on the first, second
-- and later attempts is an argument; a wait between them is not modelled.
pub mod Attempts
use trpc_agent_service_douzh.Prelude.{
  ℕ, zero, suc, ◌+◌, max, String, Option, none, some, Bool, true, false, not, ◌&&◌, ◌||◌, ltb,
  str_eq, if◌then◌else◌, is_some,
}
use trpc_agent_service_douzh.Prelude.Json.{Fields}
use trpc_agent_service_douzh.Approvals.Store.{ToolSideEffect, read_only, idempotent_write}

pub data ToolInvocationStatus : Type 0 where
  succeeded failed outcome_unknown blocked : ToolInvocationStatus

pub record ToolBackendResult : Type 0 where
  pub is_ok : Bool
  pub result : Option Fields
  pub error_code : Option String
  pub transient : Bool

-- How a call of the backend ends: with a result, with TimeoutError, or with another exception, which
-- is uncertain where it is a ConnectionError or an IncompleteReadError (`_is_uncertain`).
pub data BackendEnd : Type 0 where
  finished : ToolBackendResult → BackendEnd
  timed_out : BackendEnd
  unavailable : (uncertain : Bool) → BackendEnd

pub record Execution : Type 0 where
  pub status : ToolInvocationStatus
  pub error_code : Option String
  pub result : Option Fields
  pub attempts : ℕ

abbrev pub is_read_only : ToolSideEffect → Bool
is_read_only read_only = true
is_read_only _ = false

abbrev pub is_idempotent_write : ToolSideEffect → Bool
is_idempotent_write idempotent_write = true
is_idempotent_write _ = false

abbrev pub ended : ToolInvocationStatus → Option String → ℕ → Execution
ended status error_code attempts = record {
  status = status;
  error_code = error_code;
  result = none;
  attempts = attempts;
}

-- `_write_outcome`
unfoldable pub write_outcome : ToolSideEffect → String → ℕ → Execution
write_outcome side_effect error_code attempts =
    if is_read_only side_effect
    then ended failed (some error_code) attempts
    else ended outcome_unknown (some error_code) attempts

-- `outcome.error_code or "TOOL_FAILED"`
abbrev pub error_of : Option String → String
error_of none = "TOOL_FAILED"
error_of (some code) = if str_eq code "" then "TOOL_FAILED" else code

abbrev pub may_retry : ToolSideEffect → (supports_idempotency : Bool) → Option String → Bool
may_retry side_effect supports_idempotency idempotency_key =
    is_read_only side_effect
    || is_idempotent_write side_effect && supports_idempotency && is_some idempotency_key

module _ (side_effect : ToolSideEffect) (backend : ℕ → BackendEnd) (can_retry : Bool) where
  -- The while loop, with the attempts that are left.
  unfoldable pub attempt_from : (left attempts : ℕ) → (last_error : Option String) → Execution
  attempt_from zero attempts last_error = ended failed last_error attempts
  attempt_from (suc left) attempts last_error =
      let tried = attempts + 1 in
      let again = can_retry && ltb 0 left in
      elim (backend tried) [
        | timed_out ↦
            let rest = attempt_from left tried (some "TOOL_TIMEOUT") in
            if again then rest else write_outcome side_effect "TOOL_TIMEOUT" tried
        | unavailable uncertain ↦
            let rest = attempt_from left tried (some "TOOL_BACKEND_UNAVAILABLE") in
            if again
            then rest
            else if uncertain && not (is_read_only side_effect)
            then ended outcome_unknown (some "TOOL_BACKEND_UNAVAILABLE") tried
            else ended failed (some "TOOL_BACKEND_UNAVAILABLE") tried
        | finished outcome ↦
            let error = error_of outcome.error_code in
            let rest = attempt_from left tried (some error) in
            if outcome.is_ok
            then record {
              status = succeeded;
              error_code = none;
              result = outcome.result;
              attempts = tried;
            }
            else if outcome.transient && again
            then rest
            else if outcome.transient && not can_retry
            then ended outcome_unknown (some error) tried
            else ended failed (some error) tried
      ]

unfoldable pub execute_with_contract :
    (max_read_attempts : ℕ)
    → ToolSideEffect
    → (supports_idempotency : Bool) → (idempotency_key : Option String) → (ℕ → BackendEnd)
    → Execution
execute_with_contract max_read_attempts side_effect supports_idempotency idempotency_key backend =
    let can_retry = may_retry side_effect supports_idempotency idempotency_key in
    attempt_from side_effect backend can_retry (if can_retry then max 1 max_read_attempts else 1) 0
      none
