-- ===== src/Sessions/Lease/Fencing.antt =====
-- What `acquire`, `renew` and `release` of trpc_service/sessions.py do to the fencing tokens.
use trpc_agent_service_douzh.Prelude.{
  ℕ, ◌+◌, ◌≤◌, ◌<◌, String, char_count, Option, none, some, true, ◌≡◌, ◌≢◌, ap, arith, str_eq_iff,
  str_eq_refl, Option-cases, inl, inr,
}
use trpc_agent_service_douzh.Prelude.Action.{ok, err}
use trpc_agent_service_douzh.Sessions.Schema.{
  LeaseRow, SessionRow, Db, lease_held, LeaseGrant, in_range, max_owner_id_length,
}
use trpc_agent_service_douzh.Sessions.Lease.{acquire, renew, release, create_session_if_missing}

-- The last token that a Session issued; 0 before the first.
abbrev pub last_token : Option LeaseRow → ℕ
last_token none = 0
last_token (some lease) = lease.fencing_token

abbrev pub version_of : Option SessionRow → Option ℕ
version_of none = none
version_of (some row) = some row.version

-- A granted lease carries the next token of its Session, stands in the table for its owner until
-- the time to live has passed, and reports the stored Session version.
pub acquire_granted :
    (lease_ttl now : ℕ) (session_id owner_id : String) (db db' : Db) (grant : LeaseGrant)
    → acquire lease_ttl now session_id owner_id db ≡ (ok grant, db')
    → (grant.fencing_token ≡ last_token (db.leases session_id) + 1)
      × (db'.leases session_id
          ≡ some (record {
            owner_id = owner_id;
            fencing_token = grant.fencing_token;
            expires_at = now + lease_ttl;
            renewed_at = now;
          }))
      × (version_of (db.sessions session_id) ≡ some grant.session_version)
unfolding acquire
acquire_granted lease_ttl now session_id owner_id db db' grant h =
    ground (arith, str_eq_refl session_id)

-- A lease that another owner holds and that has not expired is not stolen: the caller learns the
-- holder, and nothing is written.
pub acquire_never_steals :
    (lease_ttl now : ℕ) (session_id owner_id : String) (db : Db) (lease : LeaseRow)
    → in_range 1 max_owner_id_length (char_count owner_id) ≡ true
    → db.leases session_id ≡ some lease
    → lease.owner_id ≢ owner_id
    → now < lease.expires_at
    → acquire lease_ttl now session_id owner_id db ≡ (err (lease_held (some lease.owner_id)), db)
unfolding acquire
acquire_never_steals lease_ttl now session_id owner_id db lease valid held other live =
    ground (arith, str_eq_iff lease.owner_id owner_id)

-- Only `acquire` moves a token, and it moves none back, whatever the call returned.
pub acquire-token_le :
    (lease_ttl now : ℕ) (session_id owner_id : String) (db : Db) (j : String)
    → last_token (db.leases j)
      ≤ last_token ((acquire lease_ttl now session_id owner_id db).1.leases j)
unfolding acquire
acquire-token_le lease_ttl now session_id owner_id db j = ground (arith, str_eq_iff session_id j)

pub renew-token_eq :
    (lease_ttl now : ℕ) (session_id owner_id : String) (token : ℕ) (db : Db) (j : String)
    → last_token ((renew lease_ttl now session_id owner_id token db).1.leases j)
      ≡ last_token (db.leases j)
unfolding renew
renew-token_eq lease_ttl now session_id owner_id token db j =
    ground (arith, str_eq_iff session_id j)

pub release-token_eq :
    (now : ℕ) (session_id owner_id : String) (db : Db) (j : String)
    → last_token ((release now session_id owner_id db).1.leases j) ≡ last_token (db.leases j)
unfolding release
release-token_eq now session_id owner_id db j = ground (arith, str_eq_iff session_id j)

pub create-leases_eq :
    (now application_id : ℕ) (session_id : String) (db : Db)
    → (create_session_if_missing now application_id session_id db).1.leases ≡ db.leases
unfolding create_session_if_missing
create-leases_eq now application_id session_id db = ground arith

renewed :
    (lease_ttl now : ℕ) (session_id owner_id : String) (token : ℕ) (db db' : Db)
    → renew lease_ttl now session_id owner_id token db ≡ (ok tt, db')
    → db'.leases session_id
      ≡ some (record {
        owner_id = owner_id;
        fencing_token = token;
        expires_at = now + lease_ttl;
        renewed_at = now;
      })
unfolding renew
renewed lease_ttl now session_id owner_id token db db' h =
    elim (Option-cases (db.leases session_id)) [
      | inl absent ↦ ground arith
      | inr (lease, e) ↦ ground (arith, str_eq_refl session_id, str_eq_iff lease.owner_id owner_id)
    ]

-- A renewed lease keeps its owner and its token, and until the new time to live has passed every
-- other owner's `acquire` is refused and writes nothing.
renew_holds_off :
    (lease_ttl now : ℕ) (session_id owner_id : String) (token : ℕ) (db db' : Db)
    (other_ttl later : ℕ) (other : String)
    → renew lease_ttl now session_id owner_id token db ≡ (ok tt, db')
    → in_range 1 max_owner_id_length (char_count other) ≡ true
    → owner_id ≢ other
    → later < now + lease_ttl
    → (last_token (db'.leases session_id) ≡ token)
      × (acquire other_ttl later session_id other db' ≡ (err (lease_held (some owner_id)), db'))
renew_holds_off lease_ttl now session_id owner_id token db db' other_ttl later other h valid ne
      live =
    let e = renewed lease_ttl now session_id owner_id token db db' h in
    (ap last_token e, acquire_never_steals other_ttl later session_id other db' _ valid e ne live)

-- Once its owner has released a lease, any owner acquires the Session at once, with the next token.
release_then_acquire :
    (t lease_ttl now : ℕ) (session_id owner_id other : String) (db : Db) (lease : LeaseRow)
    (session : SessionRow)
    → db.leases session_id ≡ some lease
    → lease.owner_id ≡ owner_id
    → db.sessions session_id ≡ some session
    → in_range 1 max_owner_id_length (char_count other) ≡ true
    → t ≤ now
    → (acquire lease_ttl now session_id other (release t session_id owner_id db).1).0
      ≡ ok (record { fencing_token = lease.fencing_token + 1; session_version = session.version })
unfolding acquire release
release_then_acquire t lease_ttl now session_id owner_id other db lease session held own known valid
      le =
    ground (arith, str_eq_refl session_id, str_eq_iff lease.owner_id owner_id)
