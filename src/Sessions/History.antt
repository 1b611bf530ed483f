-- ===== src/Sessions/History.antt =====
-- Histories of the Session tables: every call of trpc_service/sessions.py by any caller, each in its
-- transaction, and the status that a worker records for an Agent Execution.
use trpc_agent_service_douzh.Prelude.{
  ℕ, ◌≤◌, ◌<◌, String, List, [], ◌∷◌, Option, none, some, ◌≡◌, ◌≢◌, ◌⊎◌, ap, ◌∙◌, arith, inl, inr,
}
use trpc_agent_service_douzh.Prelude.Action.{ok, transaction, Action-cases}
use trpc_agent_service_douzh.Sessions.Schema.{LeaseRow, ExecutionStatus, Db, LeaseGrant, put}
use trpc_agent_service_douzh.Sessions.Lease.{acquire, renew, release, create_session_if_missing}
use trpc_agent_service_douzh.Sessions.Lease.Fencing.{
  last_token, acquire_granted, acquire-token_le, renew-token_eq, release-token_eq, create-leases_eq,
}
use trpc_agent_service_douzh.Sessions.Commit.{lease_valid, Commit, commit_session_events}
use trpc_agent_service_douzh.Sessions.Commit.Effects.{
  Admitted, after_commit, commit_written, commit_fails_closed,
}

pub data Call : Type 0 where
  create : (now application_id : ℕ) (session_id : String) → Call
  acquire_lease : (lease_ttl now : ℕ) (session_id owner_id : String) → Call
  renew_lease : (lease_ttl now : ℕ) (session_id owner_id : String) (token : ℕ) → Call
  release_lease : (now : ℕ) (session_id owner_id : String) → Call
  commit : (now : ℕ) → Commit → Call
  record_status : String → ExecutionStatus → Call

-- The tables after one call in its own transaction.
unfoldable pub perform : Call → Db → Db
perform (create now app s) db = (create_session_if_missing now app s db).1
perform (acquire_lease ttl now s owner) db = (acquire ttl now s owner db).1
perform (renew_lease ttl now s owner token) db = (renew ttl now s owner token db).1
perform (release_lease now s owner) db = (release now s owner db).1
perform (commit now c) db = (transaction (commit_session_events now c) db).1
perform (record_status key status) db = record db { executions = put key status db.executions }

unfoldable pub history : List Call → Db → Db
history [] db = db
history (call ∷ calls) db = history calls (perform call db)

after_commit-leases_eq :
    (now : ℕ) (c : Commit) (db : Db) → (after_commit now c db).leases ≡ db.leases
after_commit-leases_eq now c db = ground arith

-- A commit's transaction leaves the tables alone, or was admitted and wrote what it had to.
pub commit-cases :
    (now : ℕ) (c : Commit) (db : Db)
    → (perform (commit now c) db ≡ db)
      ⊎ (Admitted now c db × (perform (commit now c) db ≡ after_commit now c db))
unfolding perform
commit-cases now c db = elim (Action-cases (commit_session_events now c db)) [
  | inl (none, e) ↦ inl (ground (arith, e, commit_fails_closed now c db))
  | inl (some v, e) ↦
      let done = commit_written now c db _ v e in inr (done.0, ground (arith, e, done.2))
  | inr (x, e) ↦ inl (ground (arith, e))
]

commit-leases_eq : (now : ℕ) (c : Commit) (db : Db) → (perform (commit now c) db).leases ≡ db.leases
commit-leases_eq now c db = elim (commit-cases now c db) [
  | inl same ↦ ap (λ (d : Db). d.leases) same
  | inr (_, wrote) ↦ ap (λ (d : Db). d.leases) wrote ∙ after_commit-leases_eq now c db
]

perform-token_le :
    (call : Call) (db : Db) (s : String)
    → last_token (db.leases s) ≤ last_token ((perform call db).leases s)
unfolding perform
perform-token_le (create now app j) db s = ground (arith, create-leases_eq now app j db)
perform-token_le (acquire_lease ttl now j owner) db s = acquire-token_le ttl now j owner db s
perform-token_le (renew_lease ttl now j owner token) db s =
    omega (arith, renew-token_eq ttl now j owner token db s)
perform-token_le (release_lease now j owner) db s = omega (arith, release-token_eq now j owner db s)
perform-token_le (commit now c) db s =
    omega
      (arith, ap (λ (t : String → Option LeaseRow). last_token (t s)) (commit-leases_eq now c db))
perform-token_le (record_status key status) db s = omega arith

history-token_le :
    (calls : List Call) (db : Db) (s : String)
    → last_token (db.leases s) ≤ last_token ((history calls db).leases s)
unfolding history
history-token_le [] db s = omega arith
history-token_le (call ∷ calls) db s =
    omega (arith, perform-token_le call db s, history-token_le calls (perform call db) s)

pair_eq : {A B : Type 0} (m : A × B) {a : A} → m.0 ≡ a → m ≡ (a, m.1)
pair_eq m e = rw e

-- A lease that is valid for a token holds that token.
valid_token :
    (now : ℕ) (c : Commit) (db : Db)
    → Admitted now c db
    → ¬ (c.fencing_token < last_token (db.leases c.session_id))
unfolding lease_valid
valid_token now c db admitted older = ground (arith, admitted.leased)

-- Once an owner has acquired a Session, a commit under an older token never returns a version and
-- changes nothing, whatever calls anyone has made in between.
pub fenced_forever :
    (lease_ttl now : ℕ) (owner_id : String) (db db' : Db) (grant : LeaseGrant) (calls : List Call)
    (later : ℕ) (c : Commit)
    → acquire lease_ttl now c.session_id owner_id db ≡ (ok grant, db')
    → c.fencing_token < grant.fencing_token
    → ((version : ℕ) → (commit_session_events later c (history calls db')).0 ≢ ok (some version))
      × (perform (commit later c) (history calls db') ≡ history calls db')
fenced_forever lease_ttl now owner_id db db' grant calls later c h old = (
  λ version e. refused (commit_written later c (history calls db') _ version (pair_eq _ e)).0,
  elim (commit-cases later c (history calls db')) [
    | inl same ↦ same
    | inr (admitted, _) ↦ absurd (refused admitted)
  ],
)
  where
    issued : last_token (db'.leases c.session_id) ≡ grant.fencing_token
    issued = ap last_token (acquire_granted lease_ttl now c.session_id owner_id db db' grant h).1

    refused : ¬ Admitted later c (history calls db')
    refused admitted =
        valid_token later c (history calls db') admitted
          (omega (arith, old, issued, history-token_le calls db' c.session_id))
