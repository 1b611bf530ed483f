-- ===== src/Approvals/Moves.antt =====
-- What each call of ApprovalService in trpc_service/tool/approvals.py may do to the store.
use trpc_agent_service_douzh.Prelude.{
  ℕ, ◌+◌, ◌<◌, String, List, [], ◌∷◌, none, some, true, ◌&&◌, ◌==◌, leb, str_eq, ◌≡◌, ◌≢◌, inl, inr,
  refl, arith, Bool-cases, Option-cases,
}
use trpc_agent_service_douzh.Approvals.Store.{
  ApprovalStatus, pending, approved, expired, consumed, not_approved, ApprovalRequest, Store,
  is_one_of, same_status, put, upsert, Intent, has_intent, find_from, find_open, transitioned,
  already_decided,
}
use trpc_agent_service_douzh.Approvals.Service.{
  ApprovalDecision, Draft, drafted, create, open_statuses, get, refusal, decided_status, decide,
  consume, find_live,
}
use trpc_agent_service_douzh.Approvals.Decisions.{
  moved_to, absent, live, gone, get-Got, swap-works, same_status-eq,
}

-- Each request is stored under its identifier, which the supply has given already.
abbrev pub IsKeyed : Store → Type 0
IsKeyed store =
    (id : ℕ) (r : ApprovalRequest)
    → store.requests id ≡ some r
    → (r.approval_id ≡ id) × (id < store.next_id)

-- A request is stored as consumed.
abbrev pub IsUsed : ℕ → Store → Type 0
IsUsed id store = (r : ApprovalRequest) × (store.requests id ≡ some r) × (r.status ≡ consumed)

-- What a call may do to the store: nothing, a move of an open request, or an addition.
pub data Moves (s s' : Store) : Type 0 where
  stays : s'.requests ≡ s.requests → s'.next_id ≡ s.next_id → Moves s s'
  moves :
      (id : ℕ) (r r' : ApprovalRequest)
      → s.requests id ≡ some r
      → (r.status ≢ consumed)
      → r'.approval_id ≡ r.approval_id
      → s'.requests ≡ put id r' s.requests
      → s'.next_id ≡ s.next_id
      → Moves s s'
  adds :
      (r : ApprovalRequest)
      → r.approval_id ≡ s.next_id
      → s'.requests ≡ put s.next_id r s.requests
      → s'.next_id ≡ s.next_id + 1
      → Moves s s'

pub Moves-IsKeyed : (s s' : Store) → Moves s s' → IsKeyed s → IsKeyed s'
Moves-IsKeyed s s' (stays same next) keyed id r e =
    let old = keyed id r (ground (arith, same, e)) in ground (arith, old, next)
Moves-IsKeyed s s' (moves i x x' found unused same_id put_it next) keyed id r e =
    let (own, given) = keyed i x found in
    let e₁ : put i x' s.requests id ≡ some r = ground (arith, put_it, e) in
    elim (Bool-cases (i == id)) [
      | inl here ↦ (ground (arith, here, e₁, own, same_id), ground (arith, here, given, next))
      | inr there ↦
          let old = keyed id r (ground (arith, there, e₁)) in (old.0, ground (arith, old, next))
    ]
Moves-IsKeyed s s' (adds x own put_it next) keyed id r e =
    let e₁ : put s.next_id x s.requests id ≡ some r = ground (arith, put_it, e) in
    elim (Bool-cases (s.next_id == id)) [
      | inl here ↦ (ground (arith, here, e₁, own), ground (arith, here, next))
      | inr there ↦
          let old = keyed id r (ground (arith, there, e₁)) in (old.0, ground (arith, old, next))
    ]

pub Moves-IsUsed : (s s' : Store) (id : ℕ) → Moves s s' → IsKeyed s → IsUsed id s → IsUsed id s'
Moves-IsUsed s s' id (stays same next) keyed (r, e, used) = (r, ground (arith, same, e), used)
Moves-IsUsed s s' id (moves i x x' found unused same_id put_it next) keyed (r, e, used) =
    elim (Bool-cases (i == id)) [
      | inl here ↦ absurd (unused (ground (arith, here, found, e, used)))
      | inr there ↦ (r, ground (arith, put_it, there, e), used)
    ]
Moves-IsUsed s s' id (adds x own put_it next) keyed (r, e, used) =
    let old = keyed id r e in (r, ground (arith, put_it, e, old), used)

is_open-unused : (s : ApprovalStatus) → is_one_of open_statuses s ≡ true → s ≢ consumed
is_open-unused s is_open e = ground (arith, is_open, e)

pub get-Moves :
    (now : ℕ) (tenant_id : String) (id : ℕ) (store : Store)
    → Moves store (get now tenant_id id store).1
get-Moves now tenant_id id store = elim (get-Got now tenant_id id store) [
  | absent e ↦ stays (ground (arith, e)) (ground (arith, e))
  | live r e mine fresh e₁ ↦ stays (ground (arith, e₁)) (ground (arith, e₁))
  | gone r e is_open e₁ ↦
      moves id r (moved_to expired r) e (is_open-unused r.status is_open) refl (ground (arith, e₁))
        (ground (arith, e₁))
]

pub decide-Moves :
    (now at : ℕ) (tenant_id : String) (id : ℕ) (decision : ApprovalDecision) (by role : String)
    (store : Store)
    → Moves store (decide now at tenant_id id decision by role store).1
unfolding decide
decide-Moves now at tenant_id id decision by role store = elim (get-Got now tenant_id id store) [
  | absent e ↦ stays (ground (arith, e)) (ground (arith, e))
  | gone r e is_open e₁ ↦
      moves id r (moved_to expired r) e (is_open-unused r.status is_open) refl (ground (arith, e₁))
        (ground (arith, e₁))
  | live r e mine fresh e₁ ↦ elim (Bool-cases (same_status r.status pending)) [
    | inr other ↦ stays (ground (arith, e₁, other)) (ground (arith, e₁, other))
    | inl status ↦ elim (Option-cases (refusal r by role)) [
      | inr (error, refused) ↦
          stays (ground (arith, e₁, status, refused)) (ground (arith, e₁, status, refused))
      | inl admitted ↦
          let is_pending = same_status-eq r.status pending status in
          let swapped =
            swap-works tenant_id id pending (decided_status decision) (some by) (some at)
              already_decided store r e mine is_pending in
          moves id r (transitioned (decided_status decision) (some by) (some at) r) e
            (λ used. ground (arith, used, is_pending)) refl
            (ground (arith, e₁, is_pending, admitted, swapped))
            (ground (arith, e₁, is_pending, admitted, swapped))
    ]
  ]
]

pub consume-Moves :
    (now : ℕ) (tenant_id : String) (id : ℕ) (intent : Intent) (release_id : String) (store : Store)
    → Moves store (consume now tenant_id id intent release_id store).1
unfolding consume
consume-Moves now tenant_id id intent release_id store = elim (get-Got now tenant_id id store) [
  | absent e ↦ stays (ground (arith, e)) (ground (arith, e))
  | gone r e is_open e₁ ↦
      moves id r (moved_to expired r) e (is_open-unused r.status is_open) refl (ground (arith, e₁))
        (ground (arith, e₁))
  | live r e mine fresh e₁ ↦ elim (Bool-cases (same_status r.status approved)) [
    | inr other ↦ stays (ground (arith, e₁, other)) (ground (arith, e₁, other))
    | inl status ↦ elim (Bool-cases (has_intent intent r && str_eq r.release_id release_id)) [
      | inr unbound ↦
          stays (ground (arith, e₁, status, unbound)) (ground (arith, e₁, status, unbound))
      | inl bound ↦
          let is_approved = same_status-eq r.status approved status in
          let swapped =
            swap-works tenant_id id approved consumed none none not_approved store r e mine
              is_approved in
          moves id r (moved_to consumed r) e (λ used. ground (arith, used, is_approved)) refl
            (ground (arith, e₁, is_approved, bound, swapped))
            (ground (arith, e₁, is_approved, bound, swapped))
    ]
  ]
]

pub create-Moves :
    (ttl now : ℕ) (draft : Draft) (store : Store) → Moves store (create ttl now draft store).1
unfolding create upsert
create-Moves ttl now draft store = adds (drafted ttl now store.next_id draft) refl refl refl

find_from-stored :
    (ids : List ℕ) (tenant_id : String) (intent : Intent) (status : ApprovalStatus) (store : Store)
    (r : ApprovalRequest)
    → find_from ids tenant_id intent status store ≡ some r
    → (id : ℕ) × (store.requests id ≡ some r) × (same_status r.status status ≡ true)
unfolding find_from
find_from-stored [] tenant_id intent status store r h = absurd (ground (arith, h))
find_from-stored (i ∷ ids) tenant_id intent status store r h =
    elim (Option-cases (store.requests i)) [
      | inl missing ↦
          find_from-stored ids tenant_id intent status store r (ground (arith, missing, h))
      | inr (x, e) ↦
          let fits =
            str_eq x.tenant_id tenant_id && has_intent intent x && same_status x.status status in
          elim (Bool-cases fits) [
            | inl fit ↦ (i, ground (arith, e, fit, h), ground (arith, e, fit, h))
            | inr unfit ↦
                find_from-stored ids tenant_id intent status store r (ground (arith, e, unfit, h))
          ]
    ]

pub find_live-Moves :
    (status : ApprovalStatus) (now : ℕ) (tenant_id : String) (intent : Intent) (store : Store)
    → status ≢ consumed
    → IsKeyed store
    → Moves store (find_live status now tenant_id intent store).1
unfolding find_live find_open upsert
find_live-Moves status now tenant_id intent store unused keyed =
    elim (Option-cases (find_from store.order tenant_id intent status store)) [
      | inl missing ↦ stays (ground (arith, missing)) (ground (arith, missing))
      | inr (r, e) ↦ elim (Bool-cases (leb r.expires_at now)) [
        | inr fresh ↦ stays (ground (arith, e, fresh)) (ground (arith, e, fresh))
        | inl late ↦
            let (id, stored, same) =
              find_from-stored store.order tenant_id intent status store r e in
            let own : r.approval_id ≡ id = (keyed id r stored).0 in
            moves id r (moved_to expired r) stored
              (λ used. unused (ground (arith, used, same_status-eq r.status status same))) refl
              (ground (arith, e, late, own)) (ground (arith, e, late))
      ]
    ]
