-- ===== src/AuditChain/Tests.antt =====
-- A chain of two events of trpc_service/audit_chain/chain.py, and the theorems at it. The hash and the
-- serialization are stand-ins that tell the two events apart.
use text.Mathlib.TextLemmas.{append_cancel_left}
use trpc_agent_service_douzh.Prelude.{String, ◌<>◌, [], ◌∷◌, ◌++◌, none, ◌≡◌, ◌≢◌, refl, str_ne}
use trpc_agent_service_douzh.Prelude.Json.{end}
use trpc_agent_service_douzh.AuditChain.Chain.{
  Fingerprint, AuditEvent, Log, valid, genesis_hash, event_hash_of, chain_hash, append_to_chain,
  insert_audit, verify_from, verify_tenant_chain,
}
use trpc_agent_service_douzh.AuditChain.Appends.{
  insert_all, IsSound, insert_all-IsSound, changed_event_is_found,
}

abbrev sha256 : String → String
sha256 text = text

abbrev canonical : Fingerprint → String
canonical event = event.id <> event.actor

abbrev event : String → String → Fingerprint
event id actor = record {
  id = id;
  occurred_at = 5;
  actor = actor;
  auth_method = "OIDC";
  action = "release.publish";
  decision = "ALLOW";
  target_type = none;
  target_id = none;
  details = end;
}

abbrev empty : Log
empty = record { state = none; events = [] }

abbrev first : AuditEvent
first = record {
  event = event "1" "alice";
  chain_index = 1;
  event_hash = "1alice";
  prev_event_hash = genesis_hash;
}

abbrev second : AuditEvent
second = record {
  event = event "2" "bob";
  chain_index = 2;
  event_hash = "2bob";
  prev_event_hash = genesis_hash <> ":1alice";
}

abbrev head : String
head = genesis_hash <> ":1alice:2bob"

insert_all-events :
    (insert_all sha256 canonical (event "1" "alice" ∷ event "2" "bob" ∷ []) empty).events
    ≡ first ∷ second ∷ []
unfolding insert_audit append_to_chain event_hash_of chain_hash
insert_all-events = refl

verify-both :
    verify_tenant_chain sha256 canonical (record { state = none; events = first ∷ second ∷ [] })
    ≡ valid 2 head
unfolding verify_tenant_chain verify_from event_hash_of chain_hash
verify-both = refl

verify_from-both :
    verify_from sha256 canonical genesis_hash 0 ((first ∷ []) ++ (second ∷ [])) ≡ valid 2 head
unfolding verify_from event_hash_of chain_hash
verify_from-both = refl

empty-IsSound : IsSound sha256 canonical empty
unfolding verify_tenant_chain verify_from
empty-IsSound = (refl, refl)

other_hash :
    event_hash_of sha256 canonical (event "1" "eve")
    ≢ event_hash_of sha256 canonical (event "1" "alice")
unfolding event_hash_of
other_hash = str_ne "1eve" "1alice" refl

-- The stand-in of the chain's hash does not collide.
without_collision :
    (p : String)
    → chain_hash sha256 canonical p (event_hash_of sha256 canonical (event "1" "eve"))
      ≡ chain_hash sha256 canonical p (event_hash_of sha256 canonical (event "1" "alice"))
    → event_hash_of sha256 canonical (event "1" "eve")
      ≡ event_hash_of sha256 canonical (event "1" "alice")
unfolding chain_hash
without_collision p e = append_cancel_left ":" _ _ (append_cancel_left p _ _ e)

insert_all-IsSound_example :
    IsSound sha256 canonical
      (insert_all sha256 canonical (event "1" "alice" ∷ event "2" "bob" ∷ []) empty)
insert_all-IsSound_example =
    insert_all-IsSound sha256 canonical (event "1" "alice" ∷ event "2" "bob" ∷ []) empty
      empty-IsSound

-- The first row with another actor, and with its hash rewritten.
abbrev forged : AuditEvent
forged = record first { event = event "1" "eve"; event_hash = "1eve" }

changed_event_is_found_example :
    verify_tenant_chain sha256 canonical (record { state = none; events = forged ∷ second ∷ [] })
    ≢ valid 2 head
changed_event_is_found_example =
    changed_event_is_found sha256 canonical none [] [] first forged second 2 2 head head
      without_collision verify-both other_hash
