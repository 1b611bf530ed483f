-- ===== src/Approvals/Tests.antt =====
-- Runs of trpc_service/tool/approvals.py on one high-risk request, and the theorems at inputs of it.
use trpc_agent_service_douzh.Prelude.{
  String, ◌<◌, List, [], ◌∷◌, none, some, true, ◌==◌, inl, inr, Bool-cases, ◌≡◌, ◌≢◌, refl, arith,
}
use trpc_agent_service_douzh.Prelude.Action.{ok, err}
use trpc_agent_service_douzh.Prelude.Json.{end}
use trpc_agent_service_douzh.Approvals.Store.{
  high_risk, pending, approved, consumed, self_denied, has_expired, ApprovalRequest, Store,
  transitioned, Intent, find_from,
}
use trpc_agent_service_douzh.Approvals.Service.{
  approve, Draft, drafted, create, get, decide, is_self_service_role, consume, find_live,
  find_approved,
}
use trpc_agent_service_douzh.Approvals.Decisions.{moved_to, with_request, decide_lem}
use trpc_agent_service_douzh.Approvals.Moves.{IsKeyed}
use trpc_agent_service_douzh.Approvals.History.{
  Call, get_call, find_approved_call, history, consumed_once,
}

abbrev empty : Store
empty = record { requests = λ _. none; order = []; next_id = 1 }

abbrev intent : Intent
intent = record { tool_name = "wire"; tool_version = 2; params_hash = "h"; requested_by = "alice" }

abbrev draft : Draft
draft = record {
  tenant_id = "t";
  release_id = "r";
  intent = intent;
  params = end;
  side_effect = high_risk;
  requester_role = "AGENT_DEVELOPER";
  policy_version = "p1";
}

abbrev request : ApprovalRequest
request = drafted 900 100 1 draft

abbrev granted : ApprovalRequest
granted = transitioned approved (some "bob") (some 201) request

abbrev asked : Store
asked = (create 900 100 draft empty).1

abbrev agreed : Store
agreed = with_request 1 granted asked

abbrev used : Store
used = with_request 1 (moved_to consumed granted) agreed

create-asked : create 900 100 draft empty ≡ (ok request, asked)
unfolding create
create-asked = refl

decide_self : decide 200 201 "t" 1 approve "alice" "TENANT_ADMIN" asked ≡ (err self_denied, asked)
unfolding decide get create
decide_self = refl

decide-agreed : decide 200 201 "t" 1 approve "bob" "TENANT_ADMIN" asked ≡ (ok granted, agreed)
unfolding decide get create
decide-agreed = refl

consume-late : (consume 1000 "t" 1 intent "r" agreed).0 ≡ err has_expired
unfolding consume get
consume-late = refl

consume-used : consume 300 "t" 1 intent "r" agreed ≡ (ok (moved_to consumed granted), used)
unfolding consume get
consume-used = refl

find_approved-agreed : find_approved 300 "t" intent agreed ≡ (ok (some granted), agreed)
unfolding find_approved find_live find_from create
find_approved-agreed = refl

agreed-IsKeyed : IsKeyed agreed
unfolding create
agreed-IsKeyed id r e = elim (Bool-cases (1 == id)) [
  | inl here ↦ (ground (arith, here, e), ground (arith, here))
  | inr there ↦ absurd (ground (arith, there, e))
]

abbrev calls : List Call
calls = find_approved_call 310 "t" intent ∷ get_call 320 "t" 1 ∷ []

decide_lem_example :
    (r : ApprovalRequest) × (asked.requests 1 ≡ some r)
    × (r.status ≡ pending)
    × (200 < r.expires_at)
    × (r.tenant_id ≡ "t")
    × (r.side_effect ≡ high_risk
        → ("bob" ≢ r.requested_by) × (◌≡◌ {A = String} "TENANT_ADMIN" "TENANT_ADMIN"))
    × (is_self_service_role "TENANT_ADMIN" ≡ true)
    × (granted ≡ transitioned approved (some "bob") (some 201) r)
    × (agreed ≡ with_request 1 granted asked)
decide_lem_example =
    decide_lem 200 201 "t" 1 approve "bob" "TENANT_ADMIN" asked agreed granted decide-agreed

consumed_once_example : (consume 330 "t" 1 intent "r" (history calls used)).0 ≢ ok granted
consumed_once_example =
    consumed_once 300 330 "t" "t" 1 intent intent "r" "r" agreed used (moved_to consumed granted)
      granted calls agreed-IsKeyed consume-used
