-- ===== src/Sessions/Lease.antt =====
-- SessionLeaseManager and create_session_if_missing of trpc_service/sessions.py. `now` is the
-- transaction's `now()` and `lease_ttl` the time to live, both in microseconds.
pub mod Fencing
use trpc_agent_service_douzh.Prelude.{
  ℕ, ◌+◌, String, char_count, Option, none, some, not, ◌&&◌, ◌||◌, leb, ◌==◌, str_eq, if◌then◌else◌,
}
use trpc_agent_service_douzh.Prelude.Action.{
  Action, ok, err, pure, raise, raise_if, gets, or_raise, modify, transaction, ◌>>=◌, ◌>>◌,
}
use trpc_agent_service_douzh.Sessions.Schema.{
  LeaseRow, SessionRow, Db, Error, value_error, lease_held, session_not_found, lease_invalid,
  integrity_error, LeaseGrant, put, in_range, max_session_id_length, max_owner_id_length,
}

unfoldable pub create_session_if_missing : ℕ → ℕ → String → Action Db Error Unit
create_session_if_missing now application_id session_id = do
  raise_if (not (in_range 1 max_session_id_length (char_count session_id))) value_error
  modify λ db. elim (db.sessions session_id) [
    | some _ ↦ db
    | none ↦
        let row : SessionRow = record {
          application_id = application_id;
          version = 0;
          updated_at = now;
        } in
        record db { sessions = put session_id row db.sessions }
  ]

-- SELECT version … FOR UPDATE
unfoldable pub lock_session_version : String → Action Db Error (Option ℕ)
lock_session_version session_id =
    gets λ db. elim (db.sessions session_id) [ none ↦ none | some row ↦ some row.version ]

-- INSERT … ON CONFLICT DO UPDATE … WHERE … RETURNING fencing_token. The insert meets the foreign
-- key to agent_session.
unfoldable pub upsert_lease : ℕ → ℕ → String → String → Action Db Error (Option ℕ)
upsert_lease lease_ttl now session_id owner_id db = elim (db.leases session_id) [
  | none ↦ elim (db.sessions session_id) [
    | none ↦ (err integrity_error, db)
    | some _ ↦
        let row : LeaseRow = record {
          owner_id = owner_id;
          fencing_token = 1;
          expires_at = now + lease_ttl;
          renewed_at = now;
        } in
        (ok (some 1), record db { leases = put session_id row db.leases })
  ]
  | some lease ↦
      if leb lease.expires_at now || str_eq lease.owner_id owner_id
      then (
        ok (some (lease.fencing_token + 1)),
        record db {
          leases =
              put session_id
                (record {
                  owner_id = owner_id;
                  fencing_token = lease.fencing_token + 1;
                  expires_at = now + lease_ttl;
                  renewed_at = now;
                })
                db.leases;
        },
      )
      else (ok none, db)
]

-- `SELECT owner_id`, read when the lease was not granted.
abbrev lease_holder : String → Action Db Error (Option String)
lease_holder session_id =
    gets λ db. elim (db.leases session_id) [ none ↦ none | some lease ↦ some lease.owner_id ]

-- What `acquire` does with the token that the upsert returned.
unfoldable pub grant_lease : String → Option ℕ → Action Db Error LeaseGrant
unfolding lock_session_version
grant_lease session_id none = do holder ← lease_holder session_id; raise (lease_held holder)
grant_lease session_id (some token) = do
  found ← lock_session_version session_id
  version ← or_raise found session_not_found
  pure (record { fencing_token = token; session_version = version })

-- `SessionLeaseManager.acquire`
unfoldable pub acquire : ℕ → ℕ → String → String → Action Db Error LeaseGrant
unfolding upsert_lease grant_lease
acquire lease_ttl now session_id owner_id = do
  raise_if (not (in_range 1 max_owner_id_length (char_count owner_id))) value_error
  transaction
      (do token ← upsert_lease lease_ttl now session_id owner_id; grant_lease session_id token)

-- `SessionLeaseManager.renew`
unfoldable pub renew : ℕ → ℕ → String → String → ℕ → Action Db Error Unit
renew lease_ttl now session_id owner_id fencing_token db = elim (db.leases session_id) [
  | none ↦ (err lease_invalid, db)
  | some lease ↦
      if str_eq lease.owner_id owner_id
        && (lease.fencing_token == fencing_token)
        && not (leb lease.expires_at now)
      then (
        ok tt,
        record db {
          leases =
              put session_id (record lease { expires_at = now + lease_ttl; renewed_at = now })
                db.leases;
        },
      )
      else (err lease_invalid, db)
]

-- `SessionLeaseManager.release`: the row is expired, not deleted.
unfoldable pub release : ℕ → String → String → Action Db Error Unit
release now session_id owner_id = modify λ db. elim (db.leases session_id) [
  | none ↦ db
  | some lease ↦
      if str_eq lease.owner_id owner_id
      then record db { leases = put session_id (record lease { expires_at = now }) db.leases }
      else db
]
