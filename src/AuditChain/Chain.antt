-- ===== src/AuditChain/Chain.antt =====
-- trpc_service/audit_chain/chain.py for one tenant, and the row that `insert_audit` of
-- trpc_service/admin_api/audit.py stores with what it returns. SHA-256 and `json.dumps` are
-- parameters.
use trpc_agent_service_douzh.Prelude.{
  ℕ, ◌+◌, String, ◌<>◌, List, [], ◌∷◌, ◌++◌, Option, none, some, ◌&&◌, str_eq, if◌then◌else◌,
}
use trpc_agent_service_douzh.Prelude.Json.{Fields}

-- The field set that is hashed, but for the details; `occurred_at` is in microseconds.
pub record Fingerprint : Type 0 where
  pub id : String
  pub occurred_at : ℕ
  pub actor : String
  pub auth_method : String
  pub action : String
  pub decision : String
  pub target_type : Option String
  pub target_id : Option String
  pub details : Fields

pub record AuditEvent : Type 0 where
  pub event : Fingerprint
  pub chain_index : ℕ
  pub event_hash : String
  pub prev_event_hash : String

pub record ChainState : Type 0 where
  pub last_index : ℕ
  pub last_hash : String

-- The row of platform.audit_chain_state, and the events in the order of their index.
pub record Log : Type 0 where
  pub state : Option ChainState
  pub events : List AuditEvent

abbrev pub genesis_hash : String
genesis_hash = "0000000000000000000000000000000000000000000000000000000000000000"

pub data Verdict : Type 0 where
  valid : (events : ℕ) (chain_head : String) → Verdict
  broken : (broken_at_index : ℕ) (expected_prev stored_prev : String) → Verdict

-- The row of the state, which is inserted where it is missing.
abbrev pub head_of : Option ChainState → ChainState
head_of none = record { last_index = 0; last_hash = genesis_hash }
head_of (some state) = state

module _ (sha256 : String → String) (canonical_event_json : Fingerprint → String) where
  unfoldable pub event_hash_of : Fingerprint → String
  event_hash_of event = sha256 (canonical_event_json event)

  unfoldable pub chain_hash : String → String → String
  chain_hash previous_hash current_event_hash =
      sha256 (previous_hash <> (":" <> current_event_hash))

  unfoldable pub append_to_chain : Fingerprint → Log → (ℕ × String × String) × Log
  append_to_chain event log =
      let state = head_of log.state in
      let current = event_hash_of event in
      (
        (state.last_index + 1, current, state.last_hash),
        record log {
          state = some (record {
            last_index = state.last_index + 1;
            last_hash = chain_hash state.last_hash current;
          });
        },
      )

  -- `insert_audit` with a tenant.
  unfoldable pub insert_audit : Fingerprint → Log → Log
  insert_audit event log =
      let ((index, current, previous), log') = append_to_chain event log in
      record log' {
        events =
            log'.events
            ++ (record {
              event = event;
              chain_index = index;
              event_hash = current;
              prev_event_hash = previous;
            }
                ∷ []);
      }

  -- The loop over the rows.
  unfoldable pub verify_from : String → ℕ → List AuditEvent → Verdict
  verify_from previous count [] = valid count previous
  verify_from previous count (row ∷ rows) =
      let recomputed = event_hash_of row.event in
      let rest = verify_from (chain_hash previous recomputed) (count + 1) rows in
      if str_eq recomputed row.event_hash && str_eq previous row.prev_event_hash
      then rest
      else broken row.chain_index previous row.prev_event_hash

  unfoldable pub verify_tenant_chain : Log → Verdict
  verify_tenant_chain log = verify_from genesis_hash 0 log.events
