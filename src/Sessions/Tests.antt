-- ===== src/Sessions/Tests.antt =====
-- Runs of trpc_service/sessions.py on a small history, and the theorems at inputs of it.
use trpc_agent_service_douzh.Prelude.{
  ℕ, ◌+◌, ◌++◌, String, [], ◌∷◌, none, some, ◌≡◌, ◌≢◌, refl, str_ne, arith,
}
use trpc_agent_service_douzh.Prelude.Action.{ok, err}
use trpc_agent_service_douzh.Prelude.Json.{end}
use trpc_agent_service_douzh.Sessions.Schema.{
  LeaseRow, SessionRow, pending, Db, lease_held, lease_invalid, LeaseGrant, SessionEvent, put,
}
use trpc_agent_service_douzh.Sessions.Lease.{acquire, renew, create_session_if_missing}
use trpc_agent_service_douzh.Sessions.Lease.Fencing.{acquire_never_steals}
use trpc_agent_service_douzh.Sessions.Commit.{
  Commit, commit_session_events, write_commit, insert_events, insert_event, insert_outbox_record,
  lease_valid, kind_ok,
}
use trpc_agent_service_douzh.Sessions.Commit.Rows.{numbered}
use trpc_agent_service_douzh.Sessions.Commit.Effects.{
  Admitted, after_commit, commit_effects, commit_fails_closed, commit_succeeds,
}
use trpc_agent_service_douzh.Sessions.History.{
  create, acquire_lease, release_lease, commit, perform, history, fenced_forever,
}
use trpc_agent_service_douzh.Sessions.Consistency.{IsConsistent, history-IsConsistent}

abbrev empty : Db
empty = record {
  sessions = λ _. none;
  leases = λ _. none;
  executions = put "m1" pending (λ _. none);
  events = [];
  outbox = [];
}

abbrev session : SessionRow
session = record { application_id = 7; version = 0; updated_at = 10 }

abbrev created : Db
created = record empty { sessions = put "s" session empty.sessions }

abbrev lease_of : String → ℕ → LeaseRow
lease_of owner token = record {
  owner_id = owner;
  fencing_token = token;
  expires_at = 50;
  renewed_at = 20;
}

abbrev leased : Db
leased = record created { leases = put "s" (lease_of "w1" 1) created.leases }

abbrev taken : Db
taken = record leased {
  leases =
      put "s" (record { owner_id = "w2"; fencing_token = 2; expires_at = 90; renewed_at = 60 })
        leased.leases;
}

abbrev grant : ℕ → LeaseGrant
grant token = record { fencing_token = token; session_version = 0 }

abbrev message : SessionEvent
message = record { kind = "USER_MESSAGE"; payload = end }

abbrev first_commit : Commit
first_commit = record {
  tenant_id = "t";
  session_id = "s";
  owner_id = "w1";
  fencing_token = 1;
  expected_version = 0;
  execution_id = 3;
  idempotency_key = "m1";
  events = message ∷ message ∷ [];
  data_classification = none;
  message_id = 4;
}

create-empty : create_session_if_missing 10 7 "s" empty ≡ (ok tt, created)
unfolding create_session_if_missing
create-empty = refl

acquire-created : acquire 30 20 "s" "w1" created ≡ (ok (grant 1), leased)
unfolding acquire
acquire-created = refl

-- The holder learns of a late commit by its error.
commit-taken : commit_session_events 70 first_commit taken ≡ (err lease_invalid, taken)
unfolding commit_session_events
commit-taken = refl

commit-leased :
    commit_session_events 30 first_commit leased
    ≡ (ok (some 2), after_commit 30 first_commit leased)
unfolding commit_session_events write_commit insert_events insert_event insert_outbox_record
commit-leased = refl

acquire-leased : acquire 30 60 "s" "w2" leased ≡ (ok (grant 2), taken)
unfolding acquire
acquire-leased = refl

acquire_never_steals_example :
    acquire 30 40 "s" "w2" leased ≡ (err (lease_held (some "w1")), leased)
acquire_never_steals_example =
    acquire_never_steals 30 40 "s" "w2" leased (lease_of "w1" 1) refl refl (str_ne "w1" "w2" refl)
      (omega arith)

renew-leased : renew 100 40 "s" "w1" 1 leased ≡ (
  ok tt,
  record leased {
    leases =
        put "s"
          (record { owner_id = "w1"; fencing_token = 1; expires_at = 140; renewed_at = 40 })
          leased.leases;
  },
)
unfolding renew
renew-leased = refl

commit_effects_example :
    let db' = after_commit 30 first_commit leased in
    (row : SessionRow) × Admitted 30 first_commit leased
    × (leased.sessions "s" ≡ some row)
    × (2 ≡ row.version + 2)
    × (db'.sessions "s"
        ≡ some (record { application_id = row.application_id; version = 2; updated_at = 30 }))
    × ((s : String) → "s" ≢ s → db'.sessions s ≡ leased.sessions s)
    × (db'.events ≡ leased.events ++ numbered "s" 3 (row.version + 1) (message ∷ message ∷ []))
    × (db'.outbox
        ≡ leased.outbox
          ++ (record {
            message_id = 4;
            source = "trpc-agent-platform://agent-worker";
            event_type = "platform.session.events.committed.v1";
            partition_key = "t:s";
            payload = record {
              tenant_id = "t";
              session_id = "s";
              execution_id = 3;
              from_version = row.version;
              to_version = 2;
              event_kinds = "USER_MESSAGE" ∷ "USER_MESSAGE" ∷ [];
            };
            causation_id = some "m1";
            correlation_id = some 3;
            data_classification = none;
          }
              ∷ []))
    × (db'.leases ≡ leased.leases)
    × (db'.executions ≡ leased.executions)
commit_effects_example =
    commit_effects 30 first_commit leased (after_commit 30 first_commit leased) 2 commit-leased

commit_fails_closed_example : (commit_session_events 70 first_commit taken).1 ≡ taken
unfolding commit_session_events
commit_fails_closed_example = commit_fails_closed 70 first_commit taken (λ e. cc) (λ e. cc)

commit_succeeds_example : (commit_session_events 30 first_commit leased).0 ≡ ok (some 2)
unfolding lease_valid kind_ok
commit_succeeds_example =
    commit_succeeds 30 first_commit leased pending (λ e. cc) refl (λ e. cc)
      (record { leased = refl; current = refl }) refl (refl, (refl, tt)) (omega arith) (omega arith)
      (omega arith) refl refl

-- `w1` is fenced after `w2` has taken over, also once `w2` has released the lease.
fenced_forever_example :
    let later = history (release_lease 65 "s" "w2" ∷ []) taken in
    ((version : ℕ) → (commit_session_events 70 first_commit later).0 ≢ ok (some version))
    × (perform (commit 70 first_commit) later ≡ later)
fenced_forever_example =
    fenced_forever 30 60 "w2" leased taken (grant 2) (release_lease 65 "s" "w2" ∷ []) 70
      first_commit acquire-leased (omega arith)

empty-IsConsistent : IsConsistent empty
empty-IsConsistent = record { log = λ s. refl; known = λ s _. refl }

history-IsConsistent_example :
    IsConsistent
      (history (create 10 7 "s" ∷ acquire_lease 30 20 "s" "w1" ∷ commit 30 first_commit ∷ []) empty)
history-IsConsistent_example =
    history-IsConsistent
      (create 10 7 "s" ∷ acquire_lease 30 20 "s" "w1" ∷ commit 30 first_commit ∷ []) empty
      empty-IsConsistent
