-- ===== src/ToolRuntime/Tests.antt =====
-- Invocations of a tool (trpc_service/tool/executor.py), and the theorems at them.
use trpc_agent_service_douzh.Prelude.{
  ℕ, ◌≤◌, ◌<◌, max, List, [], ◌∷◌, Option, none, some, true, false, ◌==◌, if◌then◌else◌, ◌≡◌, ◌⊎◌,
  refl,
}
use trpc_agent_service_douzh.Prelude.Action.{ok, err}
use trpc_agent_service_douzh.Prelude.Json.{str, obj, arr, nil, cons, Fields, end, field}
use trpc_agent_service_douzh.Governance.Rules.{internal}
use trpc_agent_service_douzh.Approvals.Store.{
  read_only, idempotent_write, high_risk, approved, ApprovalRequest, find_from, find_open, lookup,
  transition, upsert,
}
use trpc_agent_service_douzh.Approvals.Service.{
  get, consume, find_live, find_approved, find_pending, create,
}
use trpc_agent_service_douzh.ToolRuntime.Contract.{
  BackendEnd, finished, timed_out, unavailable, succeeded, outcome_unknown, Execution, may_retry,
  write_outcome, attempt_from, execute_with_contract,
}
use trpc_agent_service_douzh.ToolRuntime.Contract.Attempts.{
  is_transient, is_success, has_succeeded, execute_with_contract_lem,
}
use trpc_agent_service_douzh.ToolRuntime.Registry.{
  ToolDefinition, declared, latest, resolve, has_name, validate_params,
}
use trpc_agent_service_douzh.ToolRuntime.Gate.{
  ToolState, approval_required, await_approval, take_grant, record_blocked, gate_write_side_effect,
}
use trpc_agent_service_douzh.ToolRuntime.Invocation.{
  Invocation, ToolInvocationResult, Service, is_subset, effective_scopes, find_replay, record_of,
  execute, replay_or_execute, pass_gate, run_governed, invoke,
}
use trpc_agent_service_douzh.ToolRuntime.Invocation.Executions.{Passes, Appends, invoke_executes}
use trpc_agent_service_douzh.ToolRuntime.Invocation.Refusals.{Refused, Unreadable, invoke-Refused}

program : Unit {0}
unfolding find_from find_open lookup transition upsert get consume find_live find_approved
    find_pending create write_outcome attempt_from execute_with_contract latest resolve has_name
    validate_params await_approval take_grant record_blocked gate_write_side_effect find_replay
    execute replay_or_execute pass_gate run_governed invoke
program = tt

abbrev done : BackendEnd
done = finished (record { is_ok = true; result = some end; error_code = none; transient = false })

-- It fails twice, and then works.
abbrev flaky : ℕ → BackendEnd
flaky attempt = if attempt == 1 then timed_out else if attempt == 2 then unavailable true else done

read_retries : (execute_with_contract 3 read_only false none flaky).status ≡ succeeded
unfolding program
read_retries = refl

write_unknown : (execute_with_contract 3 idempotent_write true none flaky).status ≡ outcome_unknown
unfolding program
write_unknown = refl

execute_with_contract_lem_example :
    let e = execute_with_contract 3 read_only false none flaky in
    (1 ≤ e.attempts)
    × (e.attempts ≤ (if may_retry read_only false none then max 1 3 else 1))
    × ((k : ℕ) → 1 ≤ k → k < e.attempts → is_transient (flaky k) ≡ true)
    × (has_succeeded e.status ≡ is_success (flaky e.attempts))
execute_with_contract_lem_example = execute_with_contract_lem 3 read_only false none flaky

abbrev schema : Fields
schema = field "type" (str "object") (
    field "properties" (obj (field "to" (obj (field "type" (str "string") end)) end))
      (field "required" (arr (cons (str "to") nil)) end))

abbrev wire : ToolDefinition
wire = record {
  tenant_id = "t";
  name = "wire";
  version = 2;
  description = "A transfer";
  side_effect = high_risk;
  input_schema = schema;
  output_schema = schema;
  scopes = "pay" ∷ [];
  timeout_seconds = 30;
  cost_per_call_micros = 5;
  data_classification = internal;
  supports_idempotency = false;
  source = declared;
  mcp_server = none;
}

abbrev service : Service
service = record {
  definitions = wire ∷ [];
  backend = λ d params attempt. done;
  max_read_attempts = 3;
  approvals_ttl = 60;
  has_approvals = true;
  canonical_params_hash = λ params. "h";
}

abbrev params : Fields
params = field "to" (str "bob") end

abbrev invocation : Invocation
invocation = record {
  tenant_id = "t";
  tool_name = "wire";
  params = params;
  scopes = none;
  requested_by = "alice";
  idempotency_key = some "k";
  mode = "conversation";
  version = none;
  execution_id = none;
  session_id = none;
  release_id = some "r";
  policy_version = none;
  finds_at = 10;
  consumes_at = 11;
  waits_at = 12;
  creates_at = 13;
}

abbrev grant : ApprovalRequest
grant = record {
  approval_id = 0;
  tenant_id = "t";
  release_id = "r";
  tool_name = "wire";
  tool_version = 2;
  params_hash = "h";
  params = params;
  side_effect = high_risk;
  requested_by = "alice";
  requester_role = "AGENT_RUNNER";
  policy_version = "p";
  status = approved;
  requested_at = 0;
  expires_at = 60;
  decided_by = some "carol";
  decided_at = some 5;
}

abbrev state_with : (ℕ → Option ApprovalRequest) → List ℕ → ToolState
state_with requests order = record {
  approvals = record { requests = requests; order = order; next_id = 1 };
  records = [];
  next_call = 7;
}

abbrev granted : ToolState
granted = state_with (λ id. if id == 0 then some grant else none) (0 ∷ [])

abbrev ungranted : ToolState
ungranted = state_with (λ id. none) []

abbrev execution : Execution
execution = record { status = succeeded; error_code = none; result = some end; attempts = 1 }

abbrev answer : ToolInvocationResult
answer = record {
  status = succeeded;
  row = record_of invocation wire params "h" execution 7;
  replayed = false;
  error_code = none;
}

invoke-granted :
    invoke service invocation granted ≡ (ok answer, (invoke service invocation granted).1)
unfolding program
invoke-granted = refl

invoke_executes_example :
    (d : ToolDefinition) × (params : Fields) × (s₁ : ToolState) × (resolve
        (wire ∷ [])
        "t"
        "wire"
        none
      ≡ some d)
    × (is_subset d.scopes (effective_scopes d none) ≡ true)
    × (validate_params d (field "to" (str "bob") end) ≡ ok params)
    × Passes service invocation d params granted s₁
    × Appends service invocation d params s₁ (invoke service invocation granted).1 answer
invoke_executes_example =
    invoke_executes service invocation granted (invoke service invocation granted).1 answer refl
      invoke-granted

-- A grant is used once, though the same key replays afterwards.
invoke_again :
    (invoke service invocation (invoke service invocation granted).1).0 ≡ err (approval_required 1)
unfolding program
invoke_again = refl

invoke-ungranted :
    invoke service invocation ungranted
    ≡ (err (approval_required 1), (invoke service invocation ungranted).1)
unfolding program
invoke-ungranted = refl

invoke-Refused_example :
    Refused (approval_required 1) ungranted (invoke service invocation ungranted).1
    ⊎ (Unreadable service invocation (approval_required 1)
        × ((invoke service invocation ungranted).1 ≡ ungranted))
invoke-Refused_example =
    invoke-Refused service invocation ungranted (invoke service invocation ungranted).1
      (approval_required 1) invoke-ungranted
