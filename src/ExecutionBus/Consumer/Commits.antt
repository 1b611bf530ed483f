-- ===== src/ExecutionBus/Consumer/Commits.antt =====
-- What `process_once` of trpc_service/execution_bus.py commits.
use trpc_agent_service_douzh.Prelude.{
  ℕ, ◌+◌, String, List, [], ◌∷◌, ◌++◌, append_assoc, append-nil, Option, none, some, ◌&&◌, leb, ◌≡◌,
  refl, sym, arith, inl, inr, Bool-cases,
}
use trpc_agent_service_douzh.Prelude.Action.{Result, ok, Result-cases}
use trpc_agent_service_douzh.Prelude.Json.{Json}
use trpc_agent_service_douzh.ExecutionBus.Envelope.{ExecutionEnvelope}
use trpc_agent_service_douzh.ExecutionBus.Consumer.{
  TopicPartition, ConsumerRecord, letter_of, ClientCall, handled, commit, seek, send_dead_letter,
  KafkaExecutionConsumer, HandlerEnd, returned, cancelled, raised, Clients, set_attempts, called,
  commit_record, handle_failure, decode, class_of, process_record, process_once,
}

-- The call before a commit is the handler's, or of a dead letter, of the record right before the offset.
abbrev pub Covers : Option ClientCall → TopicPartition → ℕ → Type 0
Covers (some (handled tp' o e)) tp offset = (tp' ≡ tp) × (o + 1 ≡ offset)
Covers (some (send_dead_letter letter)) tp offset =
    (letter.source ≡ tp) × (letter.source_offset + 1 ≡ offset)
Covers _ tp offset = ⊥

abbrev pub IsCovered : Option ClientCall → List ClientCall → Type 0
IsCovered last [] = Unit
IsCovered last (commit tp offset ∷ calls) =
    Covers last tp offset × IsCovered (some (commit tp offset)) calls
IsCovered last (call ∷ calls) = IsCovered (some call) calls

abbrev IsBlock : List ClientCall → Type 0
IsBlock calls = (last : Option ClientCall) → IsCovered last calls

append-IsCovered :
    (last : Option ClientCall) (xs ys : List ClientCall)
    → IsCovered last xs
    → IsBlock ys
    → IsCovered last (xs ++ ys)
append-IsCovered last [] ys h block = block last
append-IsCovered last (handled tp o e ∷ xs) ys h block =
    append-IsCovered (some (handled tp o e)) xs ys h block
append-IsCovered last (commit tp o ∷ xs) ys h block =
    (h.0, append-IsCovered (some (commit tp o)) xs ys h.1 block)
append-IsCovered last (seek tp o ∷ xs) ys h block =
    append-IsCovered (some (seek tp o)) xs ys h block
append-IsCovered last (send_dead_letter l ∷ xs) ys h block =
    append-IsCovered (some (send_dead_letter l)) xs ys h block

-- The calls that a step has added.
record Adds (c c' : KafkaExecutionConsumer) : Type 0 where
  block : List ClientCall
  added : c'.calls ≡ c.calls ++ block
  fits : IsBlock block

commit-Adds :
    (clients : Clients) (tp : TopicPartition) (offset : ℕ) (call : ClientCall)
    (c c' : KafkaExecutionConsumer)
    → c'.calls ≡ c.calls ++ (call ∷ [])
    → IsBlock (call ∷ [])
    → ((last : Option ClientCall) → IsCovered last (call ∷ commit tp (offset + 1) ∷ []))
    → Adds c (commit_record clients tp offset c').1
unfolding commit_record
commit-Adds clients tp offset call c c' same alone both = elim (Bool-cases clients.commits) [
  | inl done ↦ record {
    block = call ∷ commit tp (offset + 1) ∷ [];
    added =
        ground (arith, done, same, append_assoc c.calls (call ∷ []) (commit tp (offset + 1) ∷ []));
    fits = both;
  }
  | inr broken ↦ record { block = call ∷ []; added = ground (arith, broken, same); fits = alone }
]

failure-Adds :
    (b64encode : String → String) (clients : Clients) (tp : TopicPartition) (r : ConsumerRecord)
    (error_type : String) (c : KafkaExecutionConsumer)
    → Adds c (handle_failure b64encode clients tp r error_type c).1
unfolding handle_failure
failure-Adds b64encode clients tp r error_type c =
    let attempts = c.failure_attempts tp r.offset + 1 in
    let letter = letter_of b64encode tp r attempts error_type in
    let counted = set_attempts tp r.offset attempts c in
    elim (Bool-cases (c.dead_letters && leb c.max_delivery_attempts attempts)) [
      | inr few ↦ record {
        block = seek tp r.offset ∷ [];
        added = ground (arith, few);
        fits = λ last. tt;
      }
      | inl enough ↦ elim (Bool-cases clients.sends) [
        | inr unsent ↦ record {
          block = seek tp r.offset ∷ [];
          added = ground (arith, enough, unsent);
          fits = λ last. tt;
        }
        | inl sent ↦
            let whole : handle_failure b64encode clients tp r error_type c
                ≡ commit_record clients tp r.offset (called (send_dead_letter letter) counted) =
              ground (arith, enough, sent) in
            rw whole (
              commit-Adds clients tp r.offset (send_dead_letter letter) c
                (called (send_dead_letter letter) counted) refl (λ last. tt)
                (λ last. ((refl, refl), tt)))
      ]
    ]

module _ (loads : String → Result String Json) (b64encode : String → String)
    (to_str : Json → String) where
  -- One call of `process_once`, with what it meets.
  pub record Round : Type 0 where
    pub handler : ExecutionEnvelope → HandlerEnd
    pub clients : Clients
    pub batches : List (TopicPartition × List ConsumerRecord)

  -- By how the decoding and the handler end.
  ended-Adds :
      (handler : ExecutionEnvelope → HandlerEnd) (clients : Clients) (tp : TopicPartition)
      (r : ConsumerRecord) (c : KafkaExecutionConsumer) (e : ExecutionEnvelope) (end : HandlerEnd)
      → decode loads b64encode to_str r.value ≡ ok e
      → handler e ≡ end
      → Adds c (process_record loads b64encode to_str handler clients tp r c).1
  unfolding process_record
  ended-Adds handler clients tp r c e returned read ends =
      let step : process_record loads b64encode to_str handler clients tp r c
          ≡ commit_record clients tp r.offset (called (handled tp r.offset e) c) =
        ground (arith, read, ends) in
      rw step (
        commit-Adds clients tp r.offset (handled tp r.offset e) c (called (handled tp r.offset e) c)
          refl (λ last. tt) (λ last. ((refl, refl), tt)))
  ended-Adds handler clients tp r c e cancelled read ends = record {
    block = seek tp r.offset ∷ [];
    added = ground (arith, read, ends);
    fits = λ last. tt;
  }
  ended-Adds handler clients tp r c e (raised error_type) read ends =
      let step : process_record loads b64encode to_str handler clients tp r c
          ≡ handle_failure b64encode clients tp r error_type c =
        ground (arith, read, ends) in
      rw step (failure-Adds b64encode clients tp r error_type c)

  process_record-Adds :
      (handler : ExecutionEnvelope → HandlerEnd) (clients : Clients) (tp : TopicPartition)
      (r : ConsumerRecord) (c : KafkaExecutionConsumer)
      → Adds c (process_record loads b64encode to_str handler clients tp r c).1
  unfolding process_record
  process_record-Adds handler clients tp r c =
      elim (Result-cases (decode loads b64encode to_str r.value)) [
        | inr (error, unread) ↦
            let step : process_record loads b64encode to_str handler clients tp r c
                ≡ handle_failure b64encode clients tp r (class_of loads b64encode to_str error) c =
              ground (arith, unread) in
            rw step (failure-Adds b64encode clients tp r (class_of loads b64encode to_str error) c)
        | inl (e, read) ↦ ended-Adds handler clients tp r c e (handler e) read refl
      ]

  process_once-Adds :
      (handler : ExecutionEnvelope → HandlerEnd) (clients : Clients)
      (batches : List (TopicPartition × List ConsumerRecord)) (c : KafkaExecutionConsumer)
      → Adds c (process_once loads b64encode to_str handler clients batches c).1
  unfolding process_once
  process_once-Adds handler clients [] c = record {
    block = [];
    added = sym (append-nil c.calls);
    fits = λ last. tt;
  }
  process_once-Adds handler clients ((tp, []) ∷ batches) c =
      process_once-Adds handler clients batches c
  process_once-Adds handler clients ((tp, r ∷ records) ∷ batches) c =
      process_record-Adds handler clients tp r c

  abbrev pub consume : List Round → KafkaExecutionConsumer → KafkaExecutionConsumer
  consume [] c = c
  consume (round ∷ rounds) c =
      consume rounds
        (process_once loads b64encode to_str round.handler round.clients round.batches c).1

  consume_keeps :
      (rounds : List Round) (c : KafkaExecutionConsumer)
      → IsCovered none c.calls
      → IsCovered none (consume rounds c).calls
  consume_keeps [] c h = h
  consume_keeps (round ∷ rounds) c h =
      let a = process_once-Adds round.handler round.clients round.batches c in
      consume_keeps rounds _ (rw (a.added) (append-IsCovered none c.calls a.block h a.fits))

  -- Whatever a consumer without calls yet receives, and however its handlers and clients end, every
  -- commit comes right after the handler has returned for the record before the committed offset, or
  -- after that record was sent to the dead letters.
  pub consume-IsCovered :
      (rounds : List Round) (c : KafkaExecutionConsumer)
      → c.calls ≡ []
      → IsCovered none (consume rounds c).calls
  consume-IsCovered rounds c h = consume_keeps rounds c (rw h tt)
