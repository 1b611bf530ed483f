-- ===== src/ToolRuntime/Gate/Grants.antt =====
-- What lets a write pass the gate of trpc_service/tool/executor.py.
use trpc_agent_service_douzh.Prelude.{
  ℕ, ◌<◌, String, none, some, Bool, true, false, ◌&&◌, str_eq, leb, ◌≡◌, ◌⊎◌, refl, arith, inl, inr,
  Bool-cases, Option-cases,
}
use trpc_agent_service_douzh.Prelude.Action.{ok, Action-cases}
use trpc_agent_service_douzh.Prelude.Json.{Fields}
use trpc_agent_service_douzh.Approvals.Store.{
  approved, consumed, ApprovalRequest, Store, Intent, has_intent, find_open,
}
use trpc_agent_service_douzh.Approvals.Service.{
  is_high_risk, consume, find_live, find_approved, find_pending, create,
}
use trpc_agent_service_douzh.Approvals.Decisions.{moved_to, with_request, consume_lem}
use trpc_agent_service_douzh.ToolRuntime.Gate.{
  ToolState, text_or, Call, intent_of, draft_of, await_approval, take_grant, gate_write_side_effect,
}

found_unchanged :
    (now : ℕ) (tenant_id : String) (intent : Intent) (store store' : Store) (r : ApprovalRequest)
    → find_approved now tenant_id intent store ≡ (ok (some r), store')
    → store' ≡ store
unfolding find_approved find_live
found_unchanged now tenant_id intent store store' r h =
    elim (Option-cases (find_open tenant_id intent approved store)) [
      | inl missing ↦ absurd (ground (arith, missing, h))
      | inr (x, e) ↦ elim (Bool-cases (leb x.expires_at now)) [
        | inl late ↦ absurd (ground (arith, e, late, h))
        | inr live ↦ ground (arith, e, live, h)
      ]
    ]

await_approval-waits :
    (ttl : ℕ) (c : Call) (s s' : ToolState) → await_approval ttl c s ≡ (ok none, s') → ⊥
unfolding await_approval
await_approval-waits ttl c s s' h =
    elim (Action-cases (find_pending c.waits_at c.definition.tenant_id (intent_of c) s.approvals)) [
      | inr (error, e) ↦ ground (arith, e, h)
      | inl (some request, e) ↦ ground (arith, e, h)
      | inl (none, e) ↦
          let store =
            (find_pending c.waits_at c.definition.tenant_id (intent_of c) s.approvals).1 in
          elim (Action-cases (create ttl c.creates_at (draft_of c) store)) [
            | inr (error, e₁) ↦ ground (arith, e, e₁, h)
            | inl (created, e₁) ↦ ground (arith, e, e₁, h)
          ]
    ]

-- A grant that was consumed, and what is left of the state.
abbrev pub Consumes : Call → ToolState → ToolState → Type 0
Consumes c s s' =
    (id : ℕ) × (r : ApprovalRequest) × (s.approvals.requests id ≡ some r)
    × (r.status ≡ approved)
    × (c.consumes_at < r.expires_at)
    × (r.tenant_id ≡ c.definition.tenant_id)
    × ((has_intent (intent_of c) r && str_eq r.release_id (text_or c.release_id "unknown")) ≡ true)
    × (s' ≡ record s { approvals = with_request id (moved_to consumed r) s.approvals })

take_grant-Consumes :
    (ttl : ℕ) (c : Call) (s s' : ToolState) → take_grant ttl c s ≡ (ok none, s') → Consumes c s s'
unfolding take_grant
take_grant-Consumes ttl c s s' h =
    let tenant = c.definition.tenant_id in
    let release = text_or c.release_id "unknown" in
    let found = find_approved c.finds_at tenant (intent_of c) s.approvals in
    elim (Action-cases found) [
      | inr (error, e) ↦ absurd (ground (arith, e, h))
      | inl (none, e) ↦
          absurd (
            await_approval-waits ttl c (record s { approvals = found.1 }) s' (ground (arith, e, h)))
      | inl (some grant, e) ↦
          let same = found_unchanged c.finds_at tenant (intent_of c) s.approvals found.1 grant e in
          elim (Action-cases
            (consume c.consumes_at tenant grant.approval_id (intent_of c) release s.approvals)) [
              | inr (error, e₁) ↦ absurd (ground (arith, e, same, e₁, h))
              | inl (r', e₁) ↦
                  let after =
                    (consume c.consumes_at tenant grant.approval_id (intent_of c) release
                      s.approvals).1 in
                  let (r, stored, status, live, mine, bound, moved, left) =
                    consume_lem c.consumes_at tenant grant.approval_id (intent_of c) release
                      s.approvals after r' e₁ in
                  (
                    grant.approval_id,
                    r,
                    stored,
                    status,
                    live,
                    mine,
                    bound,
                    ground (arith, e, same, e₁, h, moved, left),
                  )
            ]
    ]

-- A write that needs an approval passes the gate only in two ways: without an approval service,
-- outside of conversations and not as a high-risk one, which changes nothing; or by consuming an
-- approval that was granted to its tenant, tool, version, parameters, requester and release and has
-- not expired, which changes nothing else.
pub gate_write_side_effect_lem :
    (canonical_params_hash : Fields → String) (ttl : ℕ) (has_approvals : Bool) (c : Call)
    (s s' : ToolState)
    → gate_write_side_effect canonical_params_hash ttl has_approvals c s ≡ (ok none, s')
    → ((has_approvals ≡ false)
        × (str_eq c.mode "conversation" ≡ false)
        × (is_high_risk c.definition.side_effect ≡ false)
        × (s' ≡ s))
      ⊎ Consumes c s s'
unfolding gate_write_side_effect
gate_write_side_effect_lem canonical_params_hash ttl false c s s' h =
    inl (refl, ground (arith, h), ground (arith, h), ground (arith, h))
gate_write_side_effect_lem canonical_params_hash ttl true c s s' h =
    inr (take_grant-Consumes ttl c s s' h)
