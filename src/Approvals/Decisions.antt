-- ===== src/Approvals/Decisions.antt =====
-- What `get`, `decide` and `consume` of trpc_service/tool/approvals.py take and leave.
use trpc_agent_service_douzh.Prelude.{
  ℕ, ◌<◌, String, Option, none, some, true, false, ◌&&◌, leb, str_eq, str_eq_iff, str_eq_refl, ◌≡◌,
  ◌≢◌, inl, inr, arith, Bool-cases, Option-cases,
}
use trpc_agent_service_douzh.Prelude.Action.{ok, err}
use trpc_agent_service_douzh.Approvals.Store.{
  high_risk, ApprovalStatus, pending, approved, expired, consumed, ApprovalError, not_found,
  ApprovalRequest, Store, transitioned, is_one_of, same_status, put, lookup, transition, Intent,
  has_intent, already_decided, not_approved,
}
use trpc_agent_service_douzh.Approvals.Service.{
  ApprovalDecision, is_self_service_role, open_statuses, get, refusal, decided_status, swap, decide,
  consume,
}

pub same_status-eq : (s t : ApprovalStatus) → same_status s t ≡ true → s ≡ t
same_status-eq s t e = ground arith

abbrev pub moved_to : ApprovalStatus → ApprovalRequest → ApprovalRequest
moved_to status request = record request { status = status }

abbrev pub with_request : ℕ → ApprovalRequest → Store → Store
with_request id request store = record store { requests = put id request store.requests }

-- The ways of `get`: no request, one as it is stored, or one that has just expired.
pub data Got (now : ℕ) (tenant_id : String) (id : ℕ) (store : Store) : Type 0 where
  absent : get now tenant_id id store ≡ (err not_found, store) → Got now tenant_id id store
  live :
      (r : ApprovalRequest)
      → store.requests id ≡ some r
      → str_eq r.tenant_id tenant_id ≡ true
      → is_one_of open_statuses r.status && leb r.expires_at now ≡ false
      → get now tenant_id id store ≡ (ok r, store)
      → Got now tenant_id id store
  gone :
      (r : ApprovalRequest)
      → store.requests id ≡ some r
      → is_one_of open_statuses r.status ≡ true
      → get now tenant_id id store
        ≡ (ok (moved_to expired r), with_request id (moved_to expired r) store)
      → Got now tenant_id id store

pub get-Got : (now : ℕ) (tenant_id : String) (id : ℕ) (store : Store) → Got now tenant_id id store
unfolding get lookup transition
get-Got now tenant_id id store = elim (Option-cases (store.requests id)) [
  | inl missing ↦ absent (ground (arith, missing))
  | inr (r, e) ↦ elim (Bool-cases (str_eq r.tenant_id tenant_id)) [
    | inr other ↦ absent (ground (arith, e, other))
    | inl mine ↦ elim (Bool-cases (is_one_of open_statuses r.status && leb r.expires_at now)) [
      | inr fresh ↦ live r e mine fresh (ground (arith, e, mine, fresh))
      | inl late ↦ gone r e (ground (arith, late)) (ground (arith, e, mine, late))
    ]
  ]
]

same_status_refl : (s : ApprovalStatus) → same_status s s ≡ true
same_status_refl s = ground arith

pub swap-works :
    (tenant_id : String) (id : ℕ) (before after : ApprovalStatus) (by : Option String)
    (moment : Option ℕ) (error : ApprovalError) (store : Store) (r : ApprovalRequest)
    → store.requests id ≡ some r
    → str_eq r.tenant_id tenant_id ≡ true
    → r.status ≡ before
    → swap tenant_id id before after by moment error store ≡ (
      ok (transitioned after by moment r),
      with_request id (transitioned after by moment r) store,
    )
unfolding transition lookup
swap-works tenant_id id before after by moment error store r e mine status =
    ground (arith, e, mine, status, same_status_refl before)

-- A request is consumed only while it is stored as approved, before its expiry and for the tenant,
-- intent and release that it pins; it is then stored as consumed and nothing else changes.
pub consume_lem :
    (now : ℕ) (tenant_id : String) (id : ℕ) (intent : Intent) (release_id : String)
    (store store' : Store) (r' : ApprovalRequest)
    → consume now tenant_id id intent release_id store ≡ (ok r', store')
    → (r : ApprovalRequest) × (store.requests id ≡ some r)
      × (r.status ≡ approved)
      × (now < r.expires_at)
      × (r.tenant_id ≡ tenant_id)
      × (has_intent intent r && str_eq r.release_id release_id ≡ true)
      × (r' ≡ moved_to consumed r)
      × (store' ≡ with_request id r' store)
unfolding consume
consume_lem now tenant_id id intent release_id store store' r' h =
    elim (get-Got now tenant_id id store) [
      | absent e ↦ absurd (ground (arith, e, h))
      | gone r e is_open e₁ ↦ absurd (ground (arith, e₁, h))
      | live r e mine fresh e₁ ↦ elim (Bool-cases (same_status r.status approved)) [
        | inr other ↦ absurd (ground (arith, e₁, other, h))
        | inl status ↦ elim (Bool-cases (has_intent intent r && str_eq r.release_id release_id)) [
          | inr unbound ↦ absurd (ground (arith, e₁, status, unbound, h))
          | inl bound ↦
              let is_approved : r.status ≡ approved = same_status-eq r.status approved status in
              let swapped =
                swap-works tenant_id id approved consumed none none not_approved store r e mine
                  is_approved in
              let done : consume now tenant_id id intent release_id store
                  ≡ (ok (moved_to consumed r), with_request id (moved_to consumed r) store) =
                ground (arith, e₁, is_approved, bound, swapped) in
              (
                r,
                e,
                is_approved,
                ground (arith, fresh, is_approved),
                ground (arith, mine, str_eq_iff r.tenant_id tenant_id),
                bound,
                ground (arith, done, h),
                ground (arith, done, h),
              )
        ]
      ]
    ]

-- A request is decided only while it is pending and before its expiry, and keeps its intent. A
-- high-risk one is decided by another than who asked for it, a tenant administrator; any one is
-- decided by a tenant administrator or an agent developer.
pub decide_lem :
    (now decided_at : ℕ) (tenant_id : String) (id : ℕ) (decision : ApprovalDecision)
    (decided_by role : String) (store store' : Store) (r' : ApprovalRequest)
    → decide now decided_at tenant_id id decision decided_by role store ≡ (ok r', store')
    → (r : ApprovalRequest) × (store.requests id ≡ some r)
      × (r.status ≡ pending)
      × (now < r.expires_at)
      × (r.tenant_id ≡ tenant_id)
      × (r.side_effect ≡ high_risk → (decided_by ≢ r.requested_by) × (role ≡ "TENANT_ADMIN"))
      × (is_self_service_role role ≡ true)
      × (r' ≡ transitioned (decided_status decision) (some decided_by) (some decided_at) r)
      × (store' ≡ with_request id r' store)
unfolding decide
decide_lem now decided_at tenant_id id decision decided_by role store store' r' h =
    elim (get-Got now tenant_id id store) [
      | absent e ↦ absurd (ground (arith, e, h))
      | gone r e is_open e₁ ↦ absurd (ground (arith, e₁, h))
      | live r e mine fresh e₁ ↦ elim (Bool-cases (same_status r.status pending)) [
        | inr other ↦ absurd (ground (arith, e₁, other, h))
        | inl status ↦ elim (Option-cases (refusal r decided_by role)) [
          | inr (error, refused) ↦ absurd (ground (arith, e₁, status, refused, h))
          | inl admitted ↦
              let is_pending : r.status ≡ pending = same_status-eq r.status pending status in
              let moved =
                transitioned (decided_status decision) (some decided_by) (some decided_at) r in
              let swapped =
                swap-works tenant_id id pending (decided_status decision) (some decided_by)
                  (some decided_at) already_decided store r e mine is_pending in
              let done : decide now decided_at tenant_id id decision decided_by role store
                  ≡ (ok moved, with_request id moved store) =
                ground (arith, e₁, is_pending, admitted, swapped) in
              (
                r,
                e,
                is_pending,
                ground (arith, fresh, is_pending),
                ground (arith, mine, str_eq_iff r.tenant_id tenant_id),
                λ risky. (
                  ground (
                    arith,
                    admitted,
                    risky,
                    str_eq_iff decided_by r.requested_by,
                    str_eq_refl decided_by,
                  ),
                  ground (arith, admitted, risky, str_eq_iff role "TENANT_ADMIN"),
                ),
                ground (arith, admitted),
                ground (arith, done, h),
                ground (arith, done, h),
              )
        ]
      ]
    ]
