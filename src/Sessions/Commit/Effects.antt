-- ===== src/Sessions/Commit/Effects.antt =====
-- What commit_session_events of trpc_service/sessions.py writes, and when it writes nothing.
use text.Mathlib.TextLemmas.{length-append}
use trpc_agent_service_douzh.Prelude.{
  String, map, ◌<>◌, char_count, exists, ◌≤◌, Option-cases, sym, str_eq_iff, str_eq_refl, false, ℕ,
  ◌+◌, [], ◌∷◌, ◌++◌, Option, some, true, length, ◌≡◌, ◌≢◌, ◌⊎◌, arith, inl, inr,
}
use trpc_agent_service_douzh.Prelude.Action.{Result, ok, err, Action-cases}
use trpc_agent_service_douzh.Sessions.Schema.{
  SessionRow, SessionEvent, ExecutionStatus, succeeded, Db, Error, integrity_error,
}
use trpc_agent_service_douzh.Sessions.Lease.Fencing.{version_of}
use trpc_agent_service_douzh.Sessions.Commit.{
  classification_ok, outbox_ok, has_message, session_partition_key, insert_events, committed_record,
  set_version, lease_valid, Commit, write_commit, commit_open, commit_session_events,
}
use trpc_agent_service_douzh.Sessions.Commit.Rows.{
  numbered, IsLog, KindsOk, insert_events-eq, insert_events-err, insert_events-total,
}

-- The tables after a commit.
abbrev pub after_commit : ℕ → Commit → Db → Db
after_commit now c db =
    let to_version = c.expected_version + length c.events in
    let logged : Db = record db {
      events = db.events ++ numbered c.session_id c.execution_id (c.expected_version + 1) c.events;
    } in
    let moved = set_version now c.session_id to_version logged in
    record moved { outbox = moved.outbox ++ (committed_record c ∷ []) }

write_commit-eq :
    (now : ℕ) (c : Commit) (db db' : Db) (r : Option ℕ)
    → write_commit now c db ≡ (ok r, db')
    → (r ≡ some (c.expected_version + length c.events)) × (db' ≡ after_commit now c db)
unfolding write_commit
write_commit-eq now c db db' r h =
    let first = c.expected_version + 1 in
    let m : Result Error Unit × Db = insert_events c.session_id c.execution_id first c.events db in
    elim (Action-cases m) [
      | inl (tt, e) ↦
          ground (arith, h, e, insert_events-eq c.session_id c.execution_id first c.events db m.1 e)
      | inr (x, e) ↦ ground (arith, e)
    ]

-- The facts that a commit was let through on.
pub record Admitted (now : ℕ) (c : Commit) (db : Db) : Type 0 where
  pub leased : lease_valid now c.owner_id c.fencing_token (db.leases c.session_id) ≡ true
  pub current : version_of (db.sessions c.session_id) ≡ some c.expected_version

commit_open-ok :
    (now : ℕ) (c : Commit) (db db' : Db) (r : Option ℕ)
    → commit_open now c db ≡ (ok r, db')
    → Admitted now c db × (write_commit now c db ≡ (ok r, db'))
unfolding commit_open
commit_open-ok now c db db' r h = ground arith

write_commit-cases :
    (now : ℕ) (c : Commit) (db : Db)
    → ((write_commit now c db).0 ≡ err integrity_error)
      ⊎ ((write_commit now c db).0 ≡ ok (some (c.expected_version + length c.events)))
unfolding write_commit
write_commit-cases now c db =
    let first = c.expected_version + 1 in
    let m : Result Error Unit × Db = insert_events c.session_id c.execution_id first c.events db in
    elim (Action-cases m) [
      | inl (tt, e) ↦ ground (arith, e)
      | inr (x, e) ↦
          ground (arith, e, insert_events-err c.session_id c.execution_id first c.events db m.1 x e)
    ]

pub commit_written :
    (now : ℕ) (c : Commit) (db db' : Db) (version : ℕ)
    → commit_session_events now c db ≡ (ok (some version), db')
    → Admitted now c db
      × (version ≡ c.expected_version + length c.events)
      × (db' ≡ after_commit now c db)
unfolding commit_session_events
commit_written now c db db' version h =
    grind (
      arith,
      commit_open-ok now c db db' (some version),
      write_commit-eq now c db db' (some version),
    )

-- A commit that returns a new version was let through on a live lease of the caller with its own
-- token and on the Session version that it expected. It appends the events under the next sequence
-- numbers, moves the Session to the version behind them, which is the one it returns, and enqueues one
-- Outbox record for that range, with the kinds of the events and the commit's key and Execution; the
-- other Sessions and tables stay.
pub commit_effects :
    (now : ℕ) (c : Commit) (db db' : Db) (version : ℕ)
    → commit_session_events now c db ≡ (ok (some version), db')
    → (row : SessionRow) × Admitted now c db
      × (db.sessions c.session_id ≡ some row)
      × (version ≡ row.version + length c.events)
      × (db'.sessions c.session_id
          ≡ some
              (record { application_id = row.application_id; version = version; updated_at = now }))
      × ((s : String) → c.session_id ≢ s → db'.sessions s ≡ db.sessions s)
      × (db'.events ≡ db.events ++ numbered c.session_id c.execution_id (row.version + 1) c.events)
      × (db'.outbox
          ≡ db.outbox
            ++ (record {
              message_id = c.message_id;
              source = "trpc-agent-platform://agent-worker";
              event_type = "platform.session.events.committed.v1";
              partition_key = c.tenant_id <> (":" <> c.session_id);
              payload = record {
                tenant_id = c.tenant_id;
                session_id = c.session_id;
                execution_id = c.execution_id;
                from_version = row.version;
                to_version = version;
                event_kinds = map (λ (e : SessionEvent). e.kind) c.events;
              };
              causation_id = some c.idempotency_key;
              correlation_id = some c.execution_id;
              data_classification = c.data_classification;
            }
                ∷ []))
      × (db'.leases ≡ db.leases)
      × (db'.executions ≡ db.executions)
commit_effects now c db db' version h =
    let (admitted, returned, written) = commit_written now c db db' version h in
    elim (Option-cases (db.sessions c.session_id)) [
      | inl missing ↦ absurd (ground (arith, missing, admitted.current))
      | inr (row, e) ↦
          let current : c.expected_version ≡ row.version = ground (arith, e, admitted.current) in
          let to : c.expected_version + length c.events ≡ version = sym returned in
          (
            row,
            admitted,
            e,
            ground (arith, returned, current),
            ground (arith, written, e, to, str_eq_refl c.session_id),
            λ s other. ground (arith, written, e, other, str_eq_iff c.session_id s),
            ground (arith, written, e, current),
            ground (arith, written, e, current, to),
            ground (arith, written, e),
            ground (arith, written, e),
          )
    ]

-- A commit that raises for a reason of its own, and not for a constraint of a table, has written
-- nothing, and so has one that returns no version.
pub commit_fails_closed :
    (now : ℕ) (c : Commit) (db : Db)
    → (commit_session_events now c db).0 ≢ err integrity_error
    → (commit_session_events now c db).0 ≢ ok (some (c.expected_version + length c.events))
    → (commit_session_events now c db).1 ≡ db
unfolding commit_session_events commit_open
commit_fails_closed now c db own unwritten = grind (arith, write_commit-cases now c db)

partition_positive : (t s : String) → 1 ≤ char_count (session_partition_key t s)
partition_positive t s = omega (arith, length-append t (":" <> s), length-append ":" s)

write_commit-total :
    (now : ℕ) (c : Commit) (db : Db)
    → IsLog c.session_id c.expected_version db.events
    → KindsOk c.events
    → outbox_ok (committed_record c) ≡ true
    → exists (has_message c.message_id) db.outbox ≡ false
    → (write_commit now c db).0 ≡ ok (some (c.expected_version + length c.events))
unfolding write_commit
write_commit-total now c db log kinds fits fresh =
    let first = c.expected_version + 1 in
    let m : Result Error Unit × Db = insert_events c.session_id c.execution_id first c.events db in
    let e : m ≡ (ok tt, m.1) = ground (
      arith,
      insert_events-total c.session_id c.execution_id c.expected_version c.events db log kinds,
    ) in
    let written = insert_events-eq c.session_id c.execution_id first c.events db m.1 e in
    ground (arith, e, written, fits, fresh)

-- On a Session whose log has no gaps, a first commit of one or more well-named events by the holder
-- of the live lease, at the current version, returns the version behind its events, where its Outbox
-- record has a new message id and meets the table's CHECKs: a partition key of at most 600 characters,
-- an idempotency key of 1 to 256, and a known classification or none.
pub commit_succeeds :
    (now : ℕ) (c : Commit) (db : Db) (status : ExecutionStatus)
    → c.events ≢ []
    → db.executions c.idempotency_key ≡ some status
    → status ≢ succeeded
    → Admitted now c db
    → IsLog c.session_id c.expected_version db.events
    → KindsOk c.events
    → char_count (session_partition_key c.tenant_id c.session_id) ≤ 600
    → 1 ≤ char_count c.idempotency_key
    → char_count c.idempotency_key ≤ 256
    → classification_ok c.data_classification ≡ true
    → exists (has_message c.message_id) db.outbox ≡ false
    → (commit_session_events now c db).0 ≡ ok (some (c.expected_version + length c.events))
unfolding commit_session_events commit_open
commit_succeeds now c db status some_events known open_status admitted log kinds partition key key'
      classified fresh =
    let some_key = partition_positive c.tenant_id c.session_id in
    let fits : outbox_ok (committed_record c) ≡ true =
      ground (arith, some_key, partition, key, key', classified) in
    ground
      (arith, admitted.leased, admitted.current, write_commit-total now c db log kinds fits fresh)
