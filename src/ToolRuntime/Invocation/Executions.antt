-- ===== src/ToolRuntime/Invocation/Executions.antt =====
-- What stands between an invocation of trpc_service/tool/executor.py and its backend.
use trpc_agent_service_douzh.Prelude.{
  ◌+◌, [], ◌∷◌, ◌++◌, none, some, true, false, str_eq, ◌≡◌, ◌⊎◌, arith, inl, inr, Bool-cases,
  Option-cases,
}
use trpc_agent_service_douzh.Prelude.Action.{ok, Action-cases}
use trpc_agent_service_douzh.Prelude.Json.{Fields}
use trpc_agent_service_douzh.Approvals.Service.{is_high_risk}
use trpc_agent_service_douzh.ToolRuntime.Contract.{execute_with_contract}
use trpc_agent_service_douzh.ToolRuntime.Registry.{
  ToolDefinition, resolve, is_auto_executable, validate_params, checked_cases,
}
use trpc_agent_service_douzh.ToolRuntime.Gate.{ToolState}
use trpc_agent_service_douzh.ToolRuntime.Gate.Grants.{Consumes, gate_write_side_effect_lem}
use trpc_agent_service_douzh.ToolRuntime.Invocation.{
  Invocation, ToolInvocationResult, Service, is_subset, effective_scopes, gate_call, find_replay,
  record_of, hash, execute, replay_or_execute, pass_gate, run_governed, invoke,
}

module _ (service : Service) where
  -- What let the call pass, and the state behind the gate.
  abbrev pub Passes : Invocation → ToolDefinition → Fields → ToolState → ToolState → Type 0
  Passes i d params s s₁ =
      ((is_auto_executable d.side_effect ≡ true) × (s₁ ≡ s))
      ⊎ (((service.has_approvals ≡ false)
            × (str_eq i.mode "conversation" ≡ false)
            × (is_high_risk d.side_effect ≡ false)
            × (s₁ ≡ s))
          ⊎ Consumes (gate_call i d params (hash service params)) s s₁)

  pass_gate-Passes :
      (i : Invocation) (d : ToolDefinition) (params : Fields) (s s₁ : ToolState)
      → pass_gate service i d params s ≡ (ok none, s₁)
      → Passes i d params s s₁
  unfolding pass_gate
  pass_gate-Passes i d params s s₁ h = elim (Bool-cases (is_auto_executable d.side_effect)) [
    | inl auto ↦ inl (auto, ground (arith, auto, h))
    | inr gated ↦ inr (
        gate_write_side_effect_lem (hash service) service.approvals_ttl service.has_approvals
          (gate_call i d params (hash service params)) s s₁ (ground (arith, gated, h)))
  ]

  -- The record of an execution is appended to the state behind the gate.
  abbrev pub Appends :
      Invocation → ToolDefinition → Fields → ToolState → ToolState → ToolInvocationResult → Type 0
  Appends i d params s₁ s' r =
      let e =
        execute_with_contract service.max_read_attempts d.side_effect d.supports_idempotency
          i.idempotency_key (service.backend d params) in
      (r.row ≡ record_of i d params (hash service params) e s₁.next_call)
      × (r.status ≡ e.status)
      × (s' ≡ record s₁ { records = s₁.records ++ (r.row ∷ []); next_call = s₁.next_call + 1 })

  execute-Appends :
      (i : Invocation) (d : ToolDefinition) (params : Fields) (s₁ s' : ToolState)
      (r : ToolInvocationResult)
      → r.replayed ≡ false
      → replay_or_execute service i d params s₁ ≡ (ok r, s')
      → Appends i d params s₁ s' r
  unfolding replay_or_execute execute
  execute-Appends i d params s₁ s' r fresh h = elim (Option-cases i.idempotency_key) [
    | inl e ↦ (ground (arith, e, h), ground (arith, e, h), ground (arith, e, h))
    | inr (key, e) ↦ elim (Option-cases (find_replay i.tenant_id key s₁.records)) [
      | inl e₁ ↦ (ground (arith, e, e₁, h), ground (arith, e, e₁, h), ground (arith, e, e₁, h))
      | inr (row, e₁) ↦ elim (Bool-cases (str_eq row.params_hash (hash service params))) [
        | inl same ↦ absurd (ground (arith, e, e₁, same, h, fresh))
        | inr other ↦ absurd (ground (arith, e, e₁, other, h))
      ]
    ]
  ]

  run_governed-Appends :
      (i : Invocation) (d : ToolDefinition) (params : Fields) (s s' : ToolState)
      (r : ToolInvocationResult)
      → r.replayed ≡ false
      → run_governed service i d params s ≡ (ok r, s')
      → (s₁ : ToolState) × Passes i d params s s₁ × Appends i d params s₁ s' r
  unfolding run_governed
  run_governed-Appends i d params s s' r fresh h =
      elim (Action-cases (pass_gate service i d params s)) [
        | inr (error, e) ↦ absurd (ground (arith, e, h))
        | inl (some id, e) ↦ absurd (ground (arith, e, h))
        | inl (none, e) ↦
            let s₁ = (pass_gate service i d params s).1 in
            (
              s₁,
              pass_gate-Passes i d params s s₁ e,
              execute-Appends i d params s₁ s' r fresh (ground (arith, e, h)),
            )
      ]

  -- An invocation that returns without a replay has resolved a tool of its tenant, had its scopes and
  -- valid parameters; the tool is read-only or an idempotent write, or it passed the gate, alone or by
  -- consuming an approval; the call ran under the retry contract, and its end is the one new record.
  pub invoke_executes :
      (i : Invocation) (s s' : ToolState) (r : ToolInvocationResult)
      → r.replayed ≡ false
      → invoke service i s ≡ (ok r, s')
      → (d : ToolDefinition) × (params : Fields) × (s₁ : ToolState) × (resolve service.definitions
            i.tenant_id i.tool_name i.version
          ≡ some d)
        × (is_subset d.scopes (effective_scopes d i.scopes) ≡ true)
        × (validate_params d i.params ≡ ok params)
        × Passes i d params s s₁
        × Appends i d params s₁ s' r
  unfolding invoke
  invoke_executes i s s' r fresh h =
      elim (Option-cases (resolve service.definitions i.tenant_id i.tool_name i.version)) [
        | inl e ↦ absurd (ground (arith, e, h))
        | inr (d, e) ↦ elim (Bool-cases (is_subset d.scopes (effective_scopes d i.scopes))) [
          | inr e₁ ↦ absurd (ground (arith, e, e₁, h))
          | inl e₁ ↦ elim (checked_cases (validate_params d i.params)) [
            | inl e₂ ↦ absurd (ground (arith, e, e₁, e₂, h))
            | inr (inl e₂) ↦ absurd (ground (arith, e, e₁, e₂, h))
            | inr (inr (params, e₂)) ↦
                let (s₁, passes, appends) =
                  run_governed-Appends i d params s s' r fresh (ground (arith, e, e₁, e₂, h)) in
                (d, params, s₁, e, e₁, e₂, passes, appends)
          ]
        ]
      ]
