-- ===== src/AuditChain/Appends.antt =====
-- What `verify_tenant_chain` of trpc_service/audit_chain/chain.py says of a chain that was appended to,
-- and of one that was changed.
use trpc_agent_service_douzh.Prelude.{
  ℕ, ◌+◌, String, List, [], ◌∷◌, ◌++◌, Option, ◌&&◌, str_eq, str_eq_iff, str_eq_refl, length,
  length-append, ◌∙◌, sym, ◌≡◌, ◌≢◌, refl, arith, inl, inr, Bool-cases,
}
use trpc_agent_service_douzh.AuditChain.Chain.{
  Fingerprint, AuditEvent, ChainState, Log, genesis_hash, valid, head_of, event_hash_of, chain_hash,
  append_to_chain, insert_audit, verify_from, verify_tenant_chain,
}

module _ (sha256 : String → String) (canonical_event_json : Fingerprint → String) where
  abbrev pub insert_all : List Fingerprint → Log → Log
  insert_all [] log = log
  insert_all (event ∷ events) log =
      insert_all events (insert_audit sha256 canonical_event_json event log)

  -- The head of the chain is what the events hash to, and its index is their number.
  abbrev pub IsSound : Log → Type 0
  IsSound log =
      (verify_tenant_chain sha256 canonical_event_json log
        ≡ valid (head_of log.state).last_index (head_of log.state).last_hash)
      × ((head_of log.state).last_index ≡ length log.events)

  verify_from-snoc :
      (previous : String) (count n : ℕ) (head : String) (rows : List AuditEvent) (row : AuditEvent)
      → verify_from sha256 canonical_event_json previous count rows ≡ valid n head
      → row.event_hash ≡ event_hash_of sha256 canonical_event_json row.event
      → row.prev_event_hash ≡ head
      → verify_from sha256 canonical_event_json previous count (rows ++ (row ∷ []))
        ≡ valid (n + 1) (chain_hash sha256 canonical_event_json head row.event_hash)
  unfolding verify_from
  verify_from-snoc previous count n head [] row h own prev =
      ground (arith, h, own, prev, str_eq_refl row.event_hash, str_eq_refl head)
  verify_from-snoc previous count n head (x ∷ rows) row h own prev =
      let recomputed = event_hash_of sha256 canonical_event_json x.event in
      elim (Bool-cases (str_eq recomputed x.event_hash && str_eq previous x.prev_event_hash)) [
        | inr bad ↦ absurd (ground (arith, h, bad))
        | inl good ↦
            let rest =
              verify_from-snoc (chain_hash sha256 canonical_event_json previous recomputed)
                (count + 1) n head rows row (ground (arith, good, h)) own prev in
            ground (arith, good, rest)
      ]

  insert_audit-IsSound :
      (event : Fingerprint) (log : Log)
      → IsSound log
      → IsSound (insert_audit sha256 canonical_event_json event log)
  unfolding insert_audit append_to_chain verify_tenant_chain
  insert_audit-IsSound event log (holds, count) =
      let state = head_of log.state in
      let row : AuditEvent = record {
        event = event;
        chain_index = state.last_index + 1;
        event_hash = event_hash_of sha256 canonical_event_json event;
        prev_event_hash = state.last_hash;
      } in
      (
        verify_from-snoc genesis_hash 0 state.last_index state.last_hash log.events row holds refl
            refl,
        omega (arith, count, length-append log.events (row ∷ [])),
      )

  -- Writing events, however many, keeps a log sound: its chain verifies, with as many events as are
  -- stored and with the head that the next event will be chained to.
  pub insert_all-IsSound :
      (events : List Fingerprint) (log : Log) → IsSound log → IsSound (insert_all events log)
  insert_all-IsSound [] log sound = sound
  insert_all-IsSound (event ∷ events) log sound =
      insert_all-IsSound events (insert_audit sha256 canonical_event_json event log)
        (insert_audit-IsSound event log sound)

  -- The link from a row to the next one.
  verify_from-link :
      (previous : String) (count n : ℕ) (head : String) (row next : AuditEvent)
      (later : List AuditEvent)
      → verify_from sha256 canonical_event_json previous count (row ∷ next ∷ later) ≡ valid n head
      → next.prev_event_hash
        ≡ chain_hash sha256 canonical_event_json previous
            (event_hash_of sha256 canonical_event_json row.event)
  unfolding verify_from
  verify_from-link previous count n head row next later h =
      let recomputed = event_hash_of sha256 canonical_event_json row.event in
      let reached = chain_hash sha256 canonical_event_json previous recomputed in
      ground (arith, h, str_eq_iff reached next.prev_event_hash)

  -- The links of two chains that differ in one row.
  changed_link :
      (previous : String) (count n n' : ℕ) (head head' : String) (earlier later : List AuditEvent)
      (row row' next : AuditEvent)
      → verify_from sha256 canonical_event_json previous count (earlier ++ (row ∷ next ∷ later))
        ≡ valid n head
      → verify_from sha256 canonical_event_json previous count (earlier ++ (row' ∷ next ∷ later))
        ≡ valid n' head'
      → (p : String) × (chain_hash sha256 canonical_event_json p
            (event_hash_of sha256 canonical_event_json row.event)
          ≡ chain_hash sha256 canonical_event_json p
              (event_hash_of sha256 canonical_event_json row'.event))
  unfolding verify_from
  changed_link previous count n n' head head' [] later row row' next h h' = (
    previous,
    sym (verify_from-link previous count n head row next later h)
        ∙ verify_from-link previous count n' head' row' next later h',
  )
  changed_link previous count n n' head head' (x ∷ earlier) later row row' next h h' =
      let recomputed = event_hash_of sha256 canonical_event_json x.event in
      elim (Bool-cases (str_eq recomputed x.event_hash && str_eq previous x.prev_event_hash)) [
        | inr bad ↦ absurd (ground (arith, h, bad))
        | inl good ↦
            changed_link (chain_hash sha256 canonical_event_json previous recomputed) (count + 1) n
              n' head head' earlier later row row' next (ground (arith, good, h))
              (ground (arith, good, h'))
      ]

  -- A log that verifies does not verify any more once a stored row that is not the last is replaced by
  -- one of an event with another hash, whatever hashes the new row is stored with, where the hash that
  -- links the rows does not collide on the hashes of the two events.
  pub changed_event_is_found :
      (state : Option ChainState) (earlier later : List AuditEvent) (row row' next : AuditEvent)
      (n n' : ℕ) (head head' : String)
      → ((p : String)
          → chain_hash sha256 canonical_event_json p
              (event_hash_of sha256 canonical_event_json row'.event)
            ≡ chain_hash sha256 canonical_event_json p
                (event_hash_of sha256 canonical_event_json row.event)
          → event_hash_of sha256 canonical_event_json row'.event
            ≡ event_hash_of sha256 canonical_event_json row.event)
      → verify_tenant_chain sha256 canonical_event_json
          (record { state = state; events = earlier ++ (row ∷ next ∷ later) })
        ≡ valid n head
      → event_hash_of sha256 canonical_event_json row'.event
        ≢ event_hash_of sha256 canonical_event_json row.event
      → verify_tenant_chain sha256 canonical_event_json
          (record { state = state; events = earlier ++ (row' ∷ next ∷ later) })
        ≢ valid n' head'
  unfolding verify_tenant_chain
  changed_event_is_found state earlier later row row' next n n' head head' injective h other again =
      let (p, same) =
        changed_link genesis_hash 0 n n' head head' earlier later row row' next h again in
      other (injective p (sym same))

  -- Of rows that verify, every beginning verifies: the verdict does not see that the newest events are
  -- gone.
  beginning_verifies :
      (previous : String) (count n : ℕ) (head : String) (earlier later : List AuditEvent)
      → verify_from sha256 canonical_event_json previous count (earlier ++ later) ≡ valid n head
      → (n' : ℕ) × (head' : String) × (verify_from sha256 canonical_event_json previous count
            earlier
          ≡ valid n' head')
  unfolding verify_from
  beginning_verifies previous count n head [] later h = (count, previous, refl)
  beginning_verifies previous count n head (x ∷ earlier) later h =
      let recomputed = event_hash_of sha256 canonical_event_json x.event in
      elim (Bool-cases (str_eq recomputed x.event_hash && str_eq previous x.prev_event_hash)) [
        | inr bad ↦ absurd (ground (arith, h, bad))
        | inl good ↦
            let (n', head', rest) =
              beginning_verifies (chain_hash sha256 canonical_event_json previous recomputed)
                (count + 1) n head earlier later (ground (arith, good, h)) in
            (n', head', ground (arith, good, rest))
      ]
