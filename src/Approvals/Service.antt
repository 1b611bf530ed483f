-- ===== src/Approvals/Service.antt =====
-- ApprovalService of trpc_service/tool/approvals.py over the memory store.
use trpc_agent_service_douzh.Prelude.{
  ℕ, ◌+◌, String, List, [], ◌∷◌, Option, none, some, Bool, true, false, not, ◌&&◌, ◌||◌, leb,
  str_eq, if◌then◌else◌,
}
use trpc_agent_service_douzh.Prelude.Action.{Action, ok, err, raise, raise_if, ◌>>=◌, ◌>>◌}
use trpc_agent_service_douzh.Prelude.Json.{Fields}
use trpc_agent_service_douzh.Approvals.Store.{
  ToolSideEffect, high_risk, ApprovalStatus, pending, approved, denied, expired, consumed,
  ApprovalError, not_found, has_expired, already_decided, self_denied, role_required, not_approved,
  binding_mismatch, ApprovalRequest, Store, is_one_of, same_status, upsert, lookup, transition,
  Intent, has_intent, find_open,
}

pub data ApprovalDecision : Type 0 where
  approve deny : ApprovalDecision

-- APPROVER_ROLES and SELF_SERVICE_ROLES
abbrev pub is_approver_role : String → Bool
is_approver_role role = str_eq role "TENANT_ADMIN"

abbrev pub is_self_service_role : String → Bool
is_self_service_role role = str_eq role "TENANT_ADMIN" || str_eq role "AGENT_DEVELOPER"

-- The arguments of `create`.
pub record Draft : Type 0 where
  pub tenant_id : String
  pub release_id : String
  pub intent : Intent
  pub params : Fields
  pub side_effect : ToolSideEffect
  pub requester_role : String
  pub policy_version : String

abbrev pub drafted : (ttl now id : ℕ) → Draft → ApprovalRequest
drafted ttl now id draft = record {
  approval_id = id;
  tenant_id = draft.tenant_id;
  release_id = draft.release_id;
  tool_name = draft.intent.tool_name;
  tool_version = draft.intent.tool_version;
  params_hash = draft.intent.params_hash;
  params = draft.params;
  side_effect = draft.side_effect;
  requested_by = draft.intent.requested_by;
  requester_role = draft.requester_role;
  policy_version = draft.policy_version;
  status = pending;
  requested_at = now;
  expires_at = now + ttl;
  decided_by = none;
  decided_at = none;
}

unfoldable pub create : (ttl now : ℕ) → Draft → Action Store ApprovalError ApprovalRequest
unfolding upsert
create ttl now draft store =
    let request = drafted ttl now store.next_id draft in
    (ok request, upsert request (record store { next_id = store.next_id + 1 }))

abbrev pub open_statuses : List ApprovalStatus
open_statuses = pending ∷ approved ∷ []

unfoldable pub get : (now : ℕ) → String → ℕ → Action Store ApprovalError ApprovalRequest
unfolding lookup transition
get now tenant_id approval_id store = elim (lookup tenant_id approval_id store) [
  | none ↦ (err not_found, store)
  | some request ↦
      let (moved, store') =
        transition tenant_id approval_id open_statuses expired none none store in
      if is_one_of open_statuses request.status && leb request.expires_at now
      then elim moved [ none ↦ (ok request, store') | some gone ↦ (ok gone, store') ]
      else (ok request, store)
]

abbrev pub is_high_risk : ToolSideEffect → Bool
is_high_risk high_risk = true
is_high_risk _ = false

-- Separation of duties: the error that refuses who decides, where there is one.
abbrev pub refusal : ApprovalRequest → (decided_by decided_by_role : String) → Option ApprovalError
refusal request decided_by role =
    if is_high_risk request.side_effect
    then if str_eq decided_by request.requested_by
      then some self_denied
      else if is_approver_role role
      then none
      else some role_required
    else if is_self_service_role role || is_approver_role role
    then none
    else some role_required

abbrev pub decided_status : ApprovalDecision → ApprovalStatus
decided_status approve = approved
decided_status deny = denied

-- A CAS that fails raises.
abbrev pub swap :
    String
    → ℕ
    → ApprovalStatus
    → ApprovalStatus
    → Option String
    → Option ℕ
    → ApprovalError
    → Action Store ApprovalError ApprovalRequest
swap tenant_id approval_id before after decided_by decided_at error store =
    let (moved, store') =
      transition tenant_id approval_id (before ∷ []) after decided_by decided_at store in
    elim moved [ none ↦ (err error, store') | some request ↦ (ok request, store') ]

-- `now` and `decided_at` are the clock's two readings.
unfoldable pub decide :
    (now decided_at : ℕ)
    → String
    → ℕ
    → ApprovalDecision
    → (decided_by decided_by_role : String) → Action Store ApprovalError ApprovalRequest
unfolding transition
decide now decided_at tenant_id approval_id decision decided_by role = do
  request ← get now tenant_id approval_id
  raise_if (same_status request.status expired) has_expired
  raise_if (not (same_status request.status pending)) already_decided
  elim (refusal request decided_by role) [
    | some error ↦ raise error
    | none ↦
        swap tenant_id approval_id pending (decided_status decision) (some decided_by)
          (some decided_at) already_decided
  ]

unfoldable pub consume :
    (now : ℕ)
    → String
    → ℕ
    → Intent
    → (release_id : String) → Action Store ApprovalError ApprovalRequest
unfolding transition
consume now tenant_id approval_id intent release_id = do
  request ← get now tenant_id approval_id
  raise_if (same_status request.status expired) has_expired
  raise_if (not (same_status request.status approved)) not_approved
  raise_if (not (has_intent intent request && str_eq request.release_id release_id))
      binding_mismatch
  swap tenant_id approval_id approved consumed none none not_approved

-- `find_approved` and `find_pending`, which differ in the status they look for.
unfoldable pub find_live :
    ApprovalStatus
    → (now : ℕ) → String
    → Intent
    → Action Store ApprovalError (Option ApprovalRequest)
unfolding find_open upsert
find_live status now tenant_id intent store = elim (find_open tenant_id intent status store) [
  | none ↦ (ok none, store)
  | some request ↦
      if leb request.expires_at now
      then (ok none, upsert (record request { status = expired }) store)
      else (ok (some request), store)
]

unfoldable pub find_approved :
    (now : ℕ) → String → Intent → Action Store ApprovalError (Option ApprovalRequest)
unfolding find_live
find_approved = find_live approved

unfoldable pub find_pending :
    (now : ℕ) → String → Intent → Action Store ApprovalError (Option ApprovalRequest)
unfolding find_live
find_pending = find_live pending
