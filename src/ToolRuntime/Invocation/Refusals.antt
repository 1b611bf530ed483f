-- ===== src/ToolRuntime/Invocation/Refusals.antt =====
-- The records of refused invocations of trpc_service/tool/executor.py.
use trpc_agent_service_douzh.Prelude.{
  ℕ, [], ◌∷◌, ◌++◌, Option, none, some, Bool, true, false, str_eq, ◌≡◌, ◌⊎◌, refl, ◌∙◌,
  if◌then◌else◌, arith, inl, inr, Bool-cases, Option-cases,
}
use trpc_agent_service_douzh.Approvals.Store.{ApprovalError}
use trpc_agent_service_douzh.Prelude.Action.{Result, ok, err, Action-cases}
use trpc_agent_service_douzh.Prelude.Json.{Fields}
use trpc_agent_service_douzh.Approvals.Service.{find_approved, find_pending, consume, create}
use trpc_agent_service_douzh.ToolRuntime.Contract.{blocked}
use trpc_agent_service_douzh.ToolRuntime.Registry.{
  ToolDefinition, resolve, has_name, is_auto_executable, python_error, validate_params,
  checked_cases,
}
use trpc_agent_service_douzh.ToolRuntime.Gate.{
  ToolInvocationRecord, ToolInvocationError, approval_error, schema_error, ToolState, text_or,
  intent_of, draft_of, Call, await_approval, take_grant, record_blocked, BlockedCall, gate_blocked,
  gate_write_side_effect,
}
use trpc_agent_service_douzh.ToolRuntime.Invocation.{
  Invocation, Service, is_subset, effective_scopes, gate_call, find_replay, blocked_of, hash,
  execute, replay_or_execute, pass_gate, run_governed, invoke,
}

-- How a refusal ends: an error of the approvals leaves no record, and any other one leaves one record
-- more, of a blocked call.
abbrev pub Refused : ToolInvocationError → ToolState → ToolState → Type 0
Refused error s s' =
    ((x : ApprovalError) × (error ≡ approval_error x) × (s'.records ≡ s.records))
    ⊎ ((row : ToolInvocationRecord) × (s'.records ≡ s.records ++ (row ∷ []))
        × (row.status ≡ blocked)
        × (row.attempts ≡ 0))

-- A call of the approvals writes no record, and fails with an error of theirs only.
abbrev IsSilent : {A : Type 0} → ToolState → Result ToolInvocationError A × ToolState → Type 0
IsSilent s (done, s') =
    (s'.records ≡ s.records)
    × ((error : ToolInvocationError)
        → done ≡ err error
        → (x : ApprovalError) × (error ≡ approval_error x))

await_approval-IsSilent : (ttl : ℕ) (c : Call) (s : ToolState) → IsSilent s (await_approval ttl c s)
unfolding await_approval
await_approval-IsSilent ttl c s =
    let found = find_pending c.waits_at c.definition.tenant_id (intent_of c) s.approvals in
    elim (Action-cases found) [
      | inr (x, e) ↦ (ground (arith, e), λ error h. (x, ground (arith, e, h)))
      | inl (some request, e) ↦ (ground (arith, e), λ error h. absurd (ground (arith, e, h)))
      | inl (none, e) ↦ elim (Action-cases (create ttl c.creates_at (draft_of c) found.1)) [
        | inr (x, e₁) ↦ (ground (arith, e, e₁), λ error h. (x, ground (arith, e, e₁, h)))
        | inl (created, e₁) ↦ (ground (arith, e, e₁), λ error h. absurd (ground (arith, e, e₁, h)))
      ]
    ]

take_grant-IsSilent : (ttl : ℕ) (c : Call) (s : ToolState) → IsSilent s (take_grant ttl c s)
unfolding take_grant
take_grant-IsSilent ttl c s =
    let tenant = c.definition.tenant_id in
    let found = find_approved c.finds_at tenant (intent_of c) s.approvals in
    elim (Action-cases found) [
      | inr (x, e) ↦ (ground (arith, e), λ error h. (x, ground (arith, e, h)))
      | inl (none, e) ↦
          let s₁ : ToolState = record s { approvals = found.1 } in
          let (quiet, named) = await_approval-IsSilent ttl c s₁ in
          let step : take_grant ttl c s ≡ await_approval ttl c s₁ = ground (arith, e) in
          rw step (quiet, named)
      | inl (some grant, e) ↦
          elim (Action-cases (
            consume c.consumes_at tenant grant.approval_id (intent_of c)
              (text_or c.release_id "unknown") found.1)) [
                | inr (x, e₁) ↦ (ground (arith, e, e₁), λ error h. (x, ground (arith, e, e₁, h)))
                | inl (r, e₁) ↦
                    (ground (arith, e, e₁), λ error h. absurd (ground (arith, e, e₁, h)))
              ]
    ]

module _ (service : Service) where
  block-Refused :
      (b : BlockedCall) (error : ToolInvocationError) (s s' : ToolState)
      → s' ≡ record_blocked (hash service) b s
      → Refused error s s'
  unfolding record_blocked
  block-Refused b error s s' same = rw same (inr (_, refl, refl, refl))

  gate-Refused :
      (c : Call) (s s' : ToolState) (error : ToolInvocationError) (has_approvals : Bool)
      → gate_write_side_effect (hash service) service.approvals_ttl has_approvals c s
        ≡ (err error, s')
      → Refused error s s'
  unfolding gate_write_side_effect
  gate-Refused c s s' error true h =
      let (quiet, named) = take_grant-IsSilent service.approvals_ttl c s in
      let (x, own) = named error (ground (arith, h)) in inl (x, own, ground (arith, h, quiet))
  gate-Refused c s s' error false h = block-Refused (gate_blocked c) error s s' (ground (arith, h))

  pass_gate-Refused :
      (i : Invocation) (d : ToolDefinition) (params : Fields) (s s' : ToolState)
      (error : ToolInvocationError)
      → pass_gate service i d params s ≡ (err error, s')
      → Refused error s s'
  unfolding pass_gate
  pass_gate-Refused i d params s s' error h = elim (Bool-cases (is_auto_executable d.side_effect)) [
    | inl auto ↦ absurd (ground (arith, auto, h))
    | inr gated ↦
        gate-Refused (gate_call i d params (hash service params)) s s' error service.has_approvals
          (ground (arith, gated, h))
  ]

  -- A gate that answers has written no record.
  pass_gate-silent :
      (i : Invocation) (d : ToolDefinition) (params : Fields) (s s' : ToolState)
      (waiting : Option ℕ)
      → pass_gate service i d params s ≡ (ok waiting, s')
      → s'.records ≡ s.records
  unfolding pass_gate gate_write_side_effect
  pass_gate-silent i d params s s' waiting h =
      let c = gate_call i d params (hash service params) in
      let (quiet, named) = take_grant-IsSilent service.approvals_ttl c s in
      elim (Bool-cases service.has_approvals) [
        | inl some_service ↦ ground (arith, h, quiet, some_service)
        | inr without ↦ ground (arith, h, without)
      ]

  conflict-Refused :
      (i : Invocation) (d : ToolDefinition) (params : Fields) (s s' : ToolState)
      (error : ToolInvocationError)
      → replay_or_execute service i d params s ≡ (err error, s')
      → Refused error s s'
  unfolding replay_or_execute execute
  conflict-Refused i d params s s' error h = elim (Option-cases i.idempotency_key) [
    | inl e ↦ absurd (ground (arith, e, h))
    | inr (key, e) ↦ elim (Option-cases (find_replay i.tenant_id key s.records)) [
      | inl e₁ ↦ absurd (ground (arith, e, e₁, h))
      | inr (row, e₁) ↦ elim (Bool-cases (str_eq row.params_hash (hash service params))) [
        | inl same ↦ absurd (ground (arith, e, e₁, same, h))
        | inr other ↦
            block-Refused (blocked_of i (some d) params "TOOL_IDEMPOTENCY_CONFLICT") error s s'
              (ground (arith, e, e₁, other, h))
      ]
    ]
  ]

  after_gate :
      (error : ToolInvocationError) (s s₁ s' : ToolState)
      → s₁.records ≡ s.records
      → Refused error s₁ s'
      → Refused error s s'
  after_gate error s s₁ s' same (inl (x, own, quiet)) = inl (x, own, quiet ∙ same)
  after_gate error s s₁ s' same (inr (row, added, status, attempts)) =
      inr (row, ground (arith, added, same), status, attempts)

  run_governed-Refused :
      (i : Invocation) (d : ToolDefinition) (params : Fields) (s s' : ToolState)
      (error : ToolInvocationError)
      → run_governed service i d params s ≡ (err error, s')
      → Refused error s s'
  unfolding run_governed
  run_governed-Refused i d params s s' error h =
      elim (Action-cases (pass_gate service i d params s)) [
        | inr (x, e) ↦ pass_gate-Refused i d params s s' error (ground (arith, e, h))
        | inl (some id, e) ↦
            let s₁ = (pass_gate service i d params s).1 in
            after_gate error s s₁ s' (pass_gate-silent i d params s s₁ (some id) e) (
              block-Refused (blocked_of i (some d) params "TOOL_APPROVAL_REQUIRED") error s₁ s'
                (ground (arith, e, h)))
        | inl (none, e) ↦
            let s₁ = (pass_gate service i d params s).1 in
            after_gate error s s₁ s' (pass_gate-silent i d params s s₁ none e)
              (conflict-Refused i d params s₁ s' error (ground (arith, e, h)))
      ]

  -- The parameters are checked against a schema that has another shape than the check reads.
  abbrev pub Unreadable : Invocation → ToolInvocationError → Type 0
  Unreadable i error =
      (error ≡ schema_error)
      × ((d : ToolDefinition) × (resolve service.definitions i.tenant_id i.tool_name i.version
            ≡ some d)
          × (validate_params d i.params ≡ err python_error))

  -- An invocation that is refused, whatever refuses it, has one record more, of a blocked call without
  -- an attempt; only an error that the approvals raise leaves no record, and an exception of Python's
  -- own, when the tool's input schema has another shape than the check of the parameters reads.
  pub invoke-Refused :
      (i : Invocation) (s s' : ToolState) (error : ToolInvocationError)
      → invoke service i s ≡ (err error, s')
      → Refused error s s' ⊎ (Unreadable i error × (s' ≡ s))
  unfolding invoke
  invoke-Refused i s s' error h =
      elim (Option-cases (resolve service.definitions i.tenant_id i.tool_name i.version)) [
        | inl e ↦
            let code =
              if has_name service.definitions i.tool_name
              then "TOOL_TENANT_DENIED"
              else "TOOL_NOT_FOUND" in
            inl (block-Refused (blocked_of i none i.params code) error s s' (ground (arith, e, h)))
        | inr (d, e) ↦ elim (Bool-cases (is_subset d.scopes (effective_scopes d i.scopes))) [
          | inr e₁ ↦ inl (
              block-Refused (blocked_of i (some d) i.params "TOOL_SCOPE_DENIED") error s s'
                (ground (arith, e, e₁, h)))
          | inl e₁ ↦ elim (checked_cases (validate_params d i.params)) [
            | inl e₂ ↦ inl (
                block-Refused (blocked_of i (some d) i.params "TOOL_PARAMS_INVALID") error s s'
                  (ground (arith, e, e₁, e₂, h)))
            | inr (inl e₂) ↦
                inr ((ground (arith, e, e₁, e₂, h), (d, e, e₂)), ground (arith, e, e₁, e₂, h))
            | inr (inr (params, e₂)) ↦
                inl (run_governed-Refused i d params s s' error (ground (arith, e, e₁, e₂, h)))
          ]
        ]
      ]
