-- ===== src/Sessions/Commit/Rows.antt =====
-- The rows that the `executemany` of commit_session_events inserts, and the sequence numbers of a
-- Session's log.
use mathlib.Core.List.{append_assoc, append-nil}
use trpc_agent_service_douzh.Prelude.{
  ℕ, zero, suc, ◌+◌, ◌<◌, String, List, [], ◌∷◌, ◌++◌, map, Bool, true, false, ◌||◌, ◌==◌, str_eq,
  str_eq_iff, str_eq_refl, length, select, exists, All, ◌≡◌, ◌≢◌, refl, ap, ◌∙◌, arith,
}
use trpc_agent_service_douzh.Prelude.Action.{ok, err}
use trpc_agent_service_douzh.Sessions.Schema.{EventRow, Db, Error, integrity_error, SessionEvent}
use trpc_agent_service_douzh.Sessions.Commit.{same_key, kind_ok, insert_event, insert_events}

-- One row for each event, numbered upwards from `n`.
abbrev pub numbered : String → ℕ → ℕ → List SessionEvent → List EventRow
numbered session_id execution_id n [] = []
numbered session_id execution_id n (event ∷ events) =
    record {
      session_id = session_id;
      sequence = n;
      execution_id = execution_id;
      kind = event.kind;
      payload = event.payload;
    }
    ∷ numbered session_id execution_id (n + 1) events

abbrev pub of_session : String → EventRow → Bool
of_session session_id row = str_eq row.session_id session_id

-- The sequence numbers of a Session's events, in the order of insertion.
abbrev pub sequences : String → List EventRow → List ℕ
sequences session_id rows = map (λ (r : EventRow). r.sequence) (select (of_session session_id) rows)

-- n, n + 1, …, `k` of them.
abbrev pub range_from : ℕ → ℕ → List ℕ
range_from n zero = []
range_from n (suc k) = n ∷ range_from (n + 1) k

pub range_from-snoc : (n k : ℕ) → range_from n k ++ ((n + k) ∷ []) ≡ range_from n (suc k)
range_from-snoc n zero = ground arith
range_from-snoc n (suc k) = ground (arith, range_from-snoc (n + 1) k)

pub sequences-append :
    (s : String) (xs ys : List EventRow) → sequences s (xs ++ ys) ≡ sequences s xs ++ sequences s ys
sequences-append s [] ys = refl
sequences-append s (x ∷ xs) ys = ground (arith, sequences-append s xs ys)

elem : ℕ → List ℕ → Bool
elem n [] = false
elem n (x ∷ xs) = (x == n) || elem n xs

exists-same_key :
    (s : String) (n : ℕ) (rows : List EventRow)
    → exists (same_key s n) rows ≡ elem n (sequences s rows)
unfolding elem
exists-same_key s n [] = refl
exists-same_key s n (r ∷ rows) = ground (arith, exists-same_key s n rows)

elem-range_from : (n m k : ℕ) → n + k < m + 1 → elem m (range_from n k) ≡ false
unfolding elem
elem-range_from n m zero h = refl
elem-range_from n m (suc k) h = ground (arith, elem-range_from (n + 1) m k)

-- A Session's log holds the numbers 1 to `v`, in order.
abbrev pub IsLog : String → ℕ → List EventRow → Type 0
IsLog s v rows = sequences s rows ≡ range_from 1 v

-- The next number is free.
pub next_free :
    (s : String) (v : ℕ) (rows : List EventRow)
    → IsLog s v rows
    → exists (same_key s (v + 1)) rows ≡ false
next_free s v rows h =
    exists-same_key s (v + 1) rows ∙ (rw h (elem-range_from 1 (v + 1) v (omega arith)))

pub IsLog-snoc :
    (v : ℕ) (rows : List EventRow) (row : EventRow)
    → IsLog row.session_id v rows
    → row.sequence ≡ v + 1
    → IsLog row.session_id (v + 1) (rows ++ (row ∷ []))
IsLog-snoc v rows row h e = ground (
  arith,
  sequences-append row.session_id rows (row ∷ []),
  str_eq_refl row.session_id,
  range_from-snoc 1 v,
)

-- A successful insertion appends exactly the numbered rows, and changes no other table.
pub insert_events-eq :
    (s : String) (x n : ℕ) (events : List SessionEvent) (db db' : Db)
    → insert_events s x n events db ≡ (ok tt, db')
    → db' ≡ record db { events = db.events ++ numbered s x n events }
unfolding insert_events insert_event
insert_events-eq s x n [] db db' h = ground (arith, append-nil db.events)
insert_events-eq s x n (event ∷ events) db db' h =
    let row : EventRow = record {
      session_id = s;
      sequence = n;
      execution_id = x;
      kind = event.kind;
      payload = event.payload;
    } in
    ground (
      arith,
      insert_events-eq s x (n + 1) events (record db { events = db.events ++ (row ∷ []) }) db',
      append_assoc db.events (row ∷ []) (numbered s x (n + 1) events),
    )

pub insert_events-err :
    (s : String) (x n : ℕ) (events : List SessionEvent) (db db' : Db) (e : Error)
    → insert_events s x n events db ≡ (err e, db')
    → e ≡ integrity_error
unfolding insert_events insert_event
insert_events-err s x n [] db db' e h = cc
insert_events-err s x n (event ∷ events) db db' e h =
    let row : EventRow = record {
      session_id = s;
      sequence = n;
      execution_id = x;
      kind = event.kind;
      payload = event.payload;
    } in
    ground (
      arith,
      insert_events-err s x (n + 1) events (record db { events = db.events ++ (row ∷ []) }) db' e,
    )

-- Every kind meets the constraint of the table.
abbrev pub KindsOk : List SessionEvent → Type 0
KindsOk = All (λ (e : SessionEvent). kind_ok e.kind ≡ true)

-- Above a log without gaps the insertion succeeds, and the log stays one without gaps.
pub insert_events-total :
    (s : String) (x v : ℕ) (events : List SessionEvent) (db : Db)
    → IsLog s v db.events
    → KindsOk events
    → (insert_events s x (v + 1) events db).0 ≡ ok tt
unfolding insert_events insert_event
insert_events-total s x v [] db log kinds = refl
insert_events-total s x v (event ∷ events) db log kinds =
    let row : EventRow = record {
      session_id = s;
      sequence = v + 1;
      execution_id = x;
      kind = event.kind;
      payload = event.payload;
    } in
    let rest =
      insert_events-total s x (v + 1) events (record db { events = db.events ++ (row ∷ []) })
        (IsLog-snoc v db.events row log refl) kinds.1 in
    let free = next_free s v db.events log in ground (arith, kinds.0, free, rest)

pub sequences-numbered :
    (s : String) (x n : ℕ) (events : List SessionEvent)
    → sequences s (numbered s x n events) ≡ range_from n (length events)
sequences-numbered s x n [] = refl
sequences-numbered s x n (event ∷ events) =
    ground (arith, str_eq_refl s, sequences-numbered s x (n + 1) events)

pub sequences-numbered_other :
    (j s : String) (x n : ℕ) (events : List SessionEvent)
    → s ≢ j
    → sequences j (numbered s x n events) ≡ []
sequences-numbered_other j s x n [] ne = refl
sequences-numbered_other j s x n (event ∷ events) ne =
    ground (arith, str_eq_iff s j, sequences-numbered_other j s x (n + 1) events ne)

pub range_from-append : (n a b : ℕ) → range_from n a ++ range_from (n + a) b ≡ range_from n (a + b)
range_from-append n zero b = ground arith
range_from-append n (suc a) b =
    let e : n + suc a ≡ n + 1 + a = omega arith in
    let f : suc a + b ≡ suc (a + b) = omega arith in
    rw (e, f) (ap (λ t. n ∷ t) (range_from-append (n + 1) a b))
