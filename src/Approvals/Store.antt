-- ===== src/Approvals/Store.antt =====
-- ApprovalRequest and MemoryApprovalStore of trpc_service/tool/approvals.py. A moment is what the
-- clock returns; `uuid4` is a supply of identifiers, each given once.
use trpc_agent_service_douzh.Prelude.{
  ℕ, String, List, [], ◌∷◌, ◌++◌, Option, none, some, Bool, true, false, ◌&&◌, ◌||◌, ◌==◌, str_eq,
  if◌then◌else◌, is_none,
}
use trpc_agent_service_douzh.Prelude.Json.{Fields}

pub data ToolSideEffect : Type 0 where
  read_only idempotent_write non_idempotent_write high_risk : ToolSideEffect

pub data ApprovalStatus : Type 0 where
  pending approved denied expired consumed : ApprovalStatus

pub data ApprovalError : Type 0 where
  not_found has_expired already_decided self_denied role_required : ApprovalError
  not_approved binding_mismatch : ApprovalError

pub record ApprovalRequest : Type 0 where
  pub approval_id : ℕ
  pub tenant_id : String
  pub release_id : String
  pub tool_name : String
  pub tool_version : ℕ
  pub params_hash : String
  pub params : Fields
  pub side_effect : ToolSideEffect
  pub requested_by : String
  pub requester_role : String
  pub policy_version : String
  pub status : ApprovalStatus
  pub requested_at : ℕ
  pub expires_at : ℕ
  pub decided_by : Option String
  pub decided_at : Option ℕ

-- The dict of requests, with its keys in the order of their insertion, and the supply of `uuid4`.
pub record Store : Type 0 where
  pub requests : ℕ → Option ApprovalRequest
  pub order : List ℕ
  pub next_id : ℕ

abbrev pub same_status : ApprovalStatus → ApprovalStatus → Bool
same_status pending pending = true
same_status approved approved = true
same_status denied denied = true
same_status expired expired = true
same_status consumed consumed = true
same_status _ _ = false

abbrev pub is_one_of : List ApprovalStatus → ApprovalStatus → Bool
is_one_of [] status = false
is_one_of (s ∷ statuses) status = same_status status s || is_one_of statuses status

abbrev pub put : ℕ → ApprovalRequest → (ℕ → Option ApprovalRequest) → ℕ → Option ApprovalRequest
put id request requests id' = if id == id' then some request else requests id'

abbrev or_else : {A : Type 0} → Option A → Option A → Option A
or_else none old = old
or_else (some new) old = some new

-- The copy that a transition stores.
abbrev pub transitioned :
    ApprovalStatus → Option String → Option ℕ → ApprovalRequest → ApprovalRequest
transitioned to_status decided_by decided_at request = record request {
  status = to_status;
  decided_by = or_else decided_by request.decided_by;
  decided_at = or_else decided_at request.decided_at;
}

-- `upsert`
unfoldable pub upsert : ApprovalRequest → Store → Store
upsert request store = record store {
  requests = put request.approval_id request store.requests;
  order =
      if is_none (store.requests request.approval_id)
      then store.order ++ (request.approval_id ∷ [])
      else store.order;
}

-- `get`
unfoldable pub lookup : String → ℕ → Store → Option ApprovalRequest
lookup tenant_id approval_id store = elim (store.requests approval_id) [
  | none ↦ none
  | some request ↦ if str_eq request.tenant_id tenant_id then some request else none
]

-- `transition`, the compare and swap; no request where the state moved.
unfoldable pub transition :
    String
    → ℕ
    → List ApprovalStatus
    → ApprovalStatus
    → Option String
    → Option ℕ
    → Store
    → Option ApprovalRequest × Store
unfolding lookup
transition tenant_id approval_id from_statuses to_status decided_by decided_at store =
    elim (lookup tenant_id approval_id store) [
      | none ↦ (none, store)
      | some request ↦
          let moved = transitioned to_status decided_by decided_at request in
          if is_one_of from_statuses request.status
          then (some moved, record store { requests = put approval_id moved store.requests })
          else (none, store)
    ]

-- The intent that an approval pins.
pub record Intent : Type 0 where
  pub tool_name : String
  pub tool_version : ℕ
  pub params_hash : String
  pub requested_by : String

abbrev pub has_intent : Intent → ApprovalRequest → Bool
has_intent intent request =
    str_eq request.tool_name intent.tool_name
    && (request.tool_version == intent.tool_version)
    && str_eq request.params_hash intent.params_hash
    && str_eq request.requested_by intent.requested_by

-- The loop of `find_open` over the requests in their order.
unfoldable pub find_from :
    List ℕ → String → Intent → ApprovalStatus → Store → Option ApprovalRequest
find_from [] tenant_id intent status store = none
find_from (id ∷ ids) tenant_id intent status store =
    let rest = find_from ids tenant_id intent status store in
    elim (store.requests id) [
      | none ↦ rest
      | some request ↦
          if str_eq request.tenant_id tenant_id
            && has_intent intent request
            && same_status request.status status
          then some request
          else rest
    ]

unfoldable pub find_open : String → Intent → ApprovalStatus → Store → Option ApprovalRequest
find_open tenant_id intent status store = find_from store.order tenant_id intent status store
