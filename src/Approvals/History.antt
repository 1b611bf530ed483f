-- ===== src/Approvals/History.antt =====
-- Histories of calls of ApprovalService in trpc_service/tool/approvals.py.
use trpc_agent_service_douzh.Prelude.{ℕ, String, List, [], ◌∷◌, ◌≡◌, ◌≢◌, arith}
use trpc_agent_service_douzh.Prelude.Action.{ok}
use trpc_agent_service_douzh.Approvals.Store.{pending, approved, ApprovalRequest, Store, Intent}
use trpc_agent_service_douzh.Approvals.Service.{
  ApprovalDecision, Draft, create, get, decide, consume, find_approved, find_pending,
}
use trpc_agent_service_douzh.Approvals.Decisions.{consume_lem}
use trpc_agent_service_douzh.Approvals.Moves.{
  IsKeyed, IsUsed, Moves, moves, Moves-IsKeyed, Moves-IsUsed, get-Moves, decide-Moves,
  consume-Moves, create-Moves, find_live-Moves,
}

pub data Call : Type 0 where
  create_call : (ttl now : ℕ) → Draft → Call
  get_call : (now : ℕ) → String → ℕ → Call
  decide_call :
      (now decided_at : ℕ) → String → ℕ → ApprovalDecision → (decided_by role : String) → Call
  consume_call : (now : ℕ) → String → ℕ → Intent → (release_id : String) → Call
  find_approved_call find_pending_call : (now : ℕ) → String → Intent → Call

abbrev pub perform : Call → Store → Store
perform (create_call ttl now draft) store = (create ttl now draft store).1
perform (get_call now tenant_id id) store = (get now tenant_id id store).1
perform (decide_call now at tenant_id id decision by role) store =
    (decide now at tenant_id id decision by role store).1
perform (consume_call now tenant_id id intent release_id) store =
    (consume now tenant_id id intent release_id store).1
perform (find_approved_call now tenant_id intent) store =
    (find_approved now tenant_id intent store).1
perform (find_pending_call now tenant_id intent) store = (find_pending now tenant_id intent store).1

abbrev pub history : List Call → Store → Store
history [] store = store
history (call ∷ calls) store = history calls (perform call store)

perform-Moves : (call : Call) (store : Store) → IsKeyed store → Moves store (perform call store)
unfolding find_approved find_pending
perform-Moves (create_call ttl now draft) store keyed = create-Moves ttl now draft store
perform-Moves (get_call now tenant_id id) store keyed = get-Moves now tenant_id id store
perform-Moves (decide_call now at tenant_id id decision by role) store keyed =
    decide-Moves now at tenant_id id decision by role store
perform-Moves (consume_call now tenant_id id intent release_id) store keyed =
    consume-Moves now tenant_id id intent release_id store
perform-Moves (find_approved_call now tenant_id intent) store keyed =
    find_live-Moves approved now tenant_id intent store (λ e. ground (arith, e)) keyed
perform-Moves (find_pending_call now tenant_id intent) store keyed =
    find_live-Moves pending now tenant_id intent store (λ e. ground (arith, e)) keyed

history-IsUsed :
    (calls : List Call) (store : Store) (id : ℕ)
    → IsKeyed store
    → IsUsed id store
    → IsUsed id (history calls store)
history-IsUsed [] store id keyed used = used
history-IsUsed (call ∷ calls) store id keyed used =
    let step = perform-Moves call store keyed in
    history-IsUsed calls (perform call store) id
      (Moves-IsKeyed store (perform call store) step keyed)
      (Moves-IsUsed store (perform call store) id step keyed used)

-- An approval is consumed once: in a store that has each request under an identifier that was given
-- before, after a `consume` has returned it, whatever is called in between, no `consume` of it returns
-- a request again.
pub consumed_once :
    (now later : ℕ) (tenant_id tenant_id' : String) (id : ℕ) (intent intent' : Intent)
    (release_id release_id' : String) (store store' : Store) (r r' : ApprovalRequest)
    (calls : List Call)
    → IsKeyed store
    → consume now tenant_id id intent release_id store ≡ (ok r, store')
    → (consume later tenant_id' id intent' release_id' (history calls store')).0 ≢ ok r'
consumed_once now later tenant_id tenant_id' id intent intent' release_id release_id' store store' r
      r' calls keyed h again =
    let (x, stored, status, fresh, own, bound, e, e') =
      consume_lem now tenant_id id intent release_id store store' r h in
    let moved : Moves store store' =
      moves id x r stored (λ used. ground (arith, used, status)) (ground (arith, e))
        (ground (arith, e')) (ground (arith, e')) in
    let used : IsUsed id store' = (r, ground (arith, e'), ground (arith, e)) in
    let (y, stored', used') =
      history-IsUsed calls store' id (Moves-IsKeyed store store' moved keyed) used in
    let last = history calls store' in
    let m = consume later tenant_id' id intent' release_id' last in
    let (z, stored_z, status_z, fresh_z, own_z, bound_z, e_z, e_z') =
      consume_lem later tenant_id' id intent' release_id' last m.1 r' (ground (arith, again)) in
    ground (arith, stored', stored_z, used', status_z)
