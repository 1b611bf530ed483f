-- ===== src/ToolRuntime/Gate.antt =====
-- _gate_write_side_effect of trpc_service/tool/executor.py over the approvals of Approvals/Service.
-- `canonical_params_hash`, a SHA-256 of `json.dumps`, is a parameter; `uuid4` is a supply.
pub mod Grants
use trpc_agent_service_douzh.Prelude.{
  ℕ, ◌+◌, String, List, [], ◌∷◌, ◌++◌, Option, none, some, Bool, true, false, not, ◌&&◌, str_eq,
  if◌then◌else◌,
}
use trpc_agent_service_douzh.Prelude.Action.{Action, Result, ok, err, pure, ◌>>=◌, ◌>>◌}
use trpc_agent_service_douzh.Prelude.Json.{Fields}
use trpc_agent_service_douzh.Governance.Rules.{DataClassification}
use trpc_agent_service_douzh.Approvals.Store.{
  ToolSideEffect, ApprovalError, ApprovalRequest, Store, Intent,
}
use trpc_agent_service_douzh.Approvals.Service.{
  is_high_risk, Draft, create, consume, find_approved, find_pending,
}
use trpc_agent_service_douzh.ToolRuntime.Contract.{ToolInvocationStatus, blocked}
use trpc_agent_service_douzh.ToolRuntime.Registry.{ToolDefinition}

pub record ToolInvocationRecord : Type 0 where
  pub call_id : ℕ
  pub tenant_id : String
  pub tool_name : String
  pub tool_version : Option ℕ
  pub side_effect : Option ToolSideEffect
  pub params : Fields
  pub params_hash : String
  pub idempotency_key : Option String
  pub status : ToolInvocationStatus
  pub attempts : ℕ
  pub cost_micros : ℕ
  pub requested_by : String
  pub execution_id : Option String
  pub session_id : Option String
  pub release_id : Option String
  pub error_code : Option String
  pub result : Option Fields
  pub data_classification : Option DataClassification

pub data ToolInvocationError : Type 0 where
  invocation_error : (code : String) → ToolInvocationError
  -- With the id of the approval that the call waits for.
  approval_required : (approval_id : ℕ) → ToolInvocationError
  approval_error : ApprovalError → ToolInvocationError
  -- An exception of Python's own, which a malformed schema raises.
  schema_error : ToolInvocationError

-- The approvals, the records of the tool-call store in their order, and the supply of call ids.
pub record ToolState : Type 0 where
  pub approvals : Store
  pub records : List ToolInvocationRecord
  pub next_call : ℕ

-- A call of the approval service.
abbrev pub on_approvals :
    {A : Type 0} → Action Store ApprovalError A → Action ToolState ToolInvocationError A
on_approvals call s =
    let (answer, approvals) = call s.approvals in
    elim answer [
      | ok a ↦ (ok a, record s { approvals = approvals })
      | err error ↦ (err (approval_error error), record s { approvals = approvals })
    ]

-- `text or default`
abbrev pub text_or : Option String → String → String
text_or none default_ = default_
text_or (some text) default_ = if str_eq text "" then default_ else text

-- The arguments of the gate, with the clock's readings of its calls.
pub record Call : Type 0 where
  pub definition : ToolDefinition
  pub params : Fields
  pub params_hash : String
  pub mode : String
  pub requested_by : String
  pub release_id : Option String
  pub policy_version : Option String
  pub finds_at : ℕ
  pub consumes_at : ℕ
  pub waits_at : ℕ
  pub creates_at : ℕ

abbrev pub intent_of : Call → Intent
intent_of c = record {
  tool_name = c.definition.name;
  tool_version = c.definition.version;
  params_hash = c.params_hash;
  requested_by = c.requested_by;
}

abbrev pub draft_of : Call → Draft
draft_of c = record {
  tenant_id = c.definition.tenant_id;
  release_id = text_or c.release_id "unknown";
  intent = intent_of c;
  params = c.params;
  side_effect = c.definition.side_effect;
  requester_role = "AGENT_RUNNER";
  policy_version = text_or c.policy_version "unspecified";
}

-- Without a live grant: the id of the request that waits, or of a new one.
unfoldable pub await_approval : (ttl : ℕ) → Call → Action ToolState ToolInvocationError (Option ℕ)
await_approval ttl c = do
  waiting ← on_approvals (find_pending c.waits_at c.definition.tenant_id (intent_of c))
  elim waiting [
    | some request ↦ pure (some request.approval_id)
    | none ↦ do
      created ← on_approvals (create ttl c.creates_at (draft_of c))
      pure (some created.approval_id)
  ]

-- With an approval service: a grant is consumed, and else the call waits for one.
unfoldable pub take_grant : (ttl : ℕ) → Call → Action ToolState ToolInvocationError (Option ℕ)
take_grant ttl c = do
  granted ← on_approvals (find_approved c.finds_at c.definition.tenant_id (intent_of c))
  elim granted [
    | none ↦ await_approval ttl c
    | some grant ↦ do
      on_approvals (
          consume c.consumes_at c.definition.tenant_id grant.approval_id (intent_of c)
            (text_or c.release_id "unknown"))
      pure none
  ]

-- The arguments of `_record_blocked`.
pub record BlockedCall : Type 0 where
  pub tenant_id : String
  pub tool_name : String
  pub params : Fields
  pub requested_by : String
  pub error_code : String
  pub tool_version : Option ℕ
  pub side_effect : Option ToolSideEffect
  pub execution_id : Option String
  pub session_id : Option String
  pub release_id : Option String

abbrev pub gate_blocked : Call → BlockedCall
gate_blocked c = record {
  tenant_id = c.definition.tenant_id;
  tool_name = c.definition.name;
  params = c.params;
  requested_by = c.requested_by;
  error_code = "TOOL_AUTO_EXECUTION_BLOCKED";
  tool_version = some c.definition.version;
  side_effect = some c.definition.side_effect;
  execution_id = none;
  session_id = none;
  release_id = none;
}

module _ (canonical_params_hash : Fields → String) where
  unfoldable pub record_blocked : BlockedCall → ToolState → ToolState
  record_blocked b s =
      let row : ToolInvocationRecord = record {
        call_id = s.next_call;
        tenant_id = b.tenant_id;
        tool_name = b.tool_name;
        tool_version = b.tool_version;
        side_effect = b.side_effect;
        params = b.params;
        params_hash = canonical_params_hash b.params;
        idempotency_key = none;
        status = blocked;
        attempts = 0;
        cost_micros = 0;
        requested_by = b.requested_by;
        execution_id = b.execution_id;
        session_id = b.session_id;
        release_id = b.release_id;
        error_code = some b.error_code;
        result = none;
        data_classification = none;
      } in
      record s { records = s.records ++ (row ∷ []); next_call = s.next_call + 1 }

  unfoldable pub gate_write_side_effect :
      (ttl : ℕ) → (has_approvals : Bool) → Call → Action ToolState ToolInvocationError (Option ℕ)
  gate_write_side_effect ttl false c s =
      if not (str_eq c.mode "conversation") && not (is_high_risk c.definition.side_effect)
      then (ok none, s)
      else (err (invocation_error "TOOL_AUTO_EXECUTION_BLOCKED"), record_blocked (gate_blocked c) s)
  gate_write_side_effect ttl true c s = take_grant ttl c s
