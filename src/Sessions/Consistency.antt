-- ===== src/Sessions/Consistency.antt =====
-- The invariant of the Session tables under trpc_service/sessions.py: logs without gaps, and leases
-- that stand for Sessions.
use mathlib.Core.List.{append-nil}
use trpc_agent_service_douzh.Prelude.{
  ℕ, ◌+◌, String, List, [], ◌∷◌, ◌++◌, Option, none, some, ◌≡◌, ◌≢◌, ◌∙◌, arith, str_eq, str_eq_iff,
  str_eq_refl, Bool-cases, inl, inr, length,
}
use trpc_agent_service_douzh.Prelude.Action.{err}
use trpc_agent_service_douzh.Sessions.Schema.{SessionRow, Db, session_not_found}
use trpc_agent_service_douzh.Sessions.Lease.{acquire, renew, release, create_session_if_missing}
use trpc_agent_service_douzh.Sessions.Commit.{Commit}
use trpc_agent_service_douzh.Sessions.Commit.Rows.{
  numbered, IsLog, sequences-append, sequences-numbered, sequences-numbered_other,
  range_from-append,
}
use trpc_agent_service_douzh.Sessions.Commit.Effects.{Admitted, after_commit}
use trpc_agent_service_douzh.Sessions.History.{
  Call, create, acquire_lease, renew_lease, release_lease, commit, record_status, perform, history,
  commit-cases,
}

abbrev pub version_or_zero : Option SessionRow → ℕ
version_or_zero none = 0
version_or_zero (some row) = row.version

-- Every Session's log holds the numbers from 1 to the Session's version, and a lease stands only for
-- a Session that is there.
pub record IsConsistent (db : Db) : Type 0 where
  pub log : (s : String) → IsLog s (version_or_zero (db.sessions s)) db.events
  pub known : (s : String) → db.sessions s ≡ none → db.leases s ≡ none

module _ (now : ℕ) (c : Commit) (db : Db) (admitted : Admitted now c db) where
  events_after :
      (after_commit now c db).events
      ≡ db.events ++ numbered c.session_id c.execution_id (c.expected_version + 1) c.events
  events_after = ground arith

  version_before : version_or_zero (db.sessions c.session_id) ≡ c.expected_version
  version_before = ground (arith, admitted.current)

  version_after :
      version_or_zero ((after_commit now c db).sessions c.session_id)
      ≡ c.expected_version + length c.events
  version_after = ground (arith, admitted.current, str_eq_refl c.session_id)

  version_other :
      (s : String) → c.session_id ≢ s → (after_commit now c db).sessions s ≡ db.sessions s
  version_other s ne = ground (arith, str_eq_iff c.session_id s)

  leases_after : (after_commit now c db).leases ≡ db.leases
  leases_after = ground arith

  IsLog-after_self :
      IsLog c.session_id (version_or_zero (db.sessions c.session_id)) db.events
      → IsLog c.session_id
          (version_or_zero ((after_commit now c db).sessions c.session_id))
          (after_commit now c db).events
  IsLog-after_self log =
      let v = c.expected_version in
      let s = c.session_id in
      rw (version_after, events_after)
        (sequences-append s db.events (numbered s c.execution_id (v + 1) c.events)
          ∙ rw (sequences-numbered s c.execution_id (v + 1) c.events, log, version_before)
              (let e : v + 1 ≡ 1 + v = omega arith in
                rw e (range_from-append 1 v (length c.events))))

  IsLog-after_other :
      (s : String)
      → c.session_id ≢ s
      → IsLog s (version_or_zero (db.sessions s)) db.events
      → IsLog s
          (version_or_zero ((after_commit now c db).sessions s))
          (after_commit now c db).events
  IsLog-after_other s ne log =
      rw (version_other s ne, events_after)
        (sequences-append s db.events
            (numbered c.session_id c.execution_id (c.expected_version + 1) c.events)
          ∙ rw
              (
                sequences-numbered_other s c.session_id c.execution_id (c.expected_version + 1)
                    c.events ne,
                append-nil,
              )
              log)

create-IsConsistent :
    (now app : ℕ) (j : String) (db : Db)
    → IsConsistent db
    → IsConsistent (create_session_if_missing now app j db).1
unfolding create_session_if_missing
create-IsConsistent now app j db valid = record {
  log = λ s. ground (arith, valid.log s, str_eq_iff j s);
  known = λ s. ground (arith, valid.known s, str_eq_iff j s);
}

acquire-IsConsistent :
    (ttl now : ℕ) (j owner : String) (db : Db)
    → IsConsistent db
    → IsConsistent (acquire ttl now j owner db).1
unfolding acquire
acquire-IsConsistent ttl now j owner db valid = record {
  log = λ s. ground (arith, valid.log s);
  known = λ s. ground (arith, valid.known s, valid.known j, str_eq_iff j s);
}

renew-IsConsistent :
    (ttl now : ℕ) (j owner : String) (token : ℕ) (db : Db)
    → IsConsistent db
    → IsConsistent (renew ttl now j owner token db).1
unfolding renew
renew-IsConsistent ttl now j owner token db valid = record {
  log = λ s. ground (arith, valid.log s);
  known = λ s. ground (arith, valid.known s, valid.known j, str_eq_iff j s);
}

release-IsConsistent :
    (now : ℕ) (j owner : String) (db : Db)
    → IsConsistent db
    → IsConsistent (release now j owner db).1
unfolding release
release-IsConsistent now j owner db valid = record {
  log = λ s. ground (arith, valid.log s);
  known = λ s. ground (arith, valid.known s, valid.known j, str_eq_iff j s);
}

after_commit-IsConsistent :
    (now : ℕ) (c : Commit) (db : Db)
    → Admitted now c db
    → IsConsistent db
    → IsConsistent (after_commit now c db)
after_commit-IsConsistent now c db admitted valid = record {
  log = λ s. elim (Bool-cases (str_eq c.session_id s)) [
    | inl same ↦
        rw (← ((str_eq_iff c.session_id s).0 same))
          (IsLog-after_self now c db admitted (valid.log c.session_id))
    | inr other ↦
        IsLog-after_other now c db admitted s (λ e. cc (other, (str_eq_iff c.session_id s).1 e))
          (valid.log s)
  ];
  known = λ s. ground (arith, valid.known s, str_eq_iff c.session_id s, admitted.current);
}

-- Every call keeps the tables consistent.
perform-IsConsistent : (call : Call) (db : Db) → IsConsistent db → IsConsistent (perform call db)
unfolding perform
perform-IsConsistent (create now app j) db valid = create-IsConsistent now app j db valid
perform-IsConsistent (acquire_lease ttl now j owner) db valid =
    acquire-IsConsistent ttl now j owner db valid
perform-IsConsistent (renew_lease ttl now j owner token) db valid =
    renew-IsConsistent ttl now j owner token db valid
perform-IsConsistent (release_lease now j owner) db valid =
    release-IsConsistent now j owner db valid
perform-IsConsistent (commit now c) db valid = elim (commit-cases now c db) [
  | inl same ↦ rw same valid
  | inr (admitted, wrote) ↦ rw wrote (after_commit-IsConsistent now c db admitted valid)
]
perform-IsConsistent (record_status key status) db valid = record {
  log = valid.log;
  known = valid.known;
}

-- Whatever calls are made on consistent tables, in whatever order and whether they succeed or raise,
-- every Session's log stays the numbers from 1 to its version, and no lease stands without a Session.
pub history-IsConsistent :
    (calls : List Call) (db : Db) → IsConsistent db → IsConsistent (history calls db)
unfolding history
history-IsConsistent [] db valid = valid
history-IsConsistent (call ∷ calls) db valid =
    history-IsConsistent calls (perform call db) (perform-IsConsistent call db valid)

-- On consistent tables `acquire` does not raise SESSION_NOT_FOUND: for a Session that is not there
-- the insertion of the lease already meets the foreign key.
pub acquire-ne-session_not_found :
    (ttl now : ℕ) (j owner : String) (db : Db)
    → IsConsistent db
    → (acquire ttl now j owner db).0 ≢ err session_not_found
unfolding acquire
acquire-ne-session_not_found ttl now j owner db valid = ground (arith, valid.known j)
