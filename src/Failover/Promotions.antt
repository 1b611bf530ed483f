-- ===== src/Failover/Promotions.antt =====
-- Histories of registrations and promotions of trpc_service/failover.py.
use trpc_agent_service_douzh.Prelude.{
  char_count, ℕ, ◌+◌, ◌≤◌, ◌<◌, String, List, [], ◌∷◌, ◌++◌, none, some, true, false, if◌then◌else◌,
  find, exists, count_where, update_where, max_of, All, ◌≡◌, inl, inr, refl, arith, Bool-cases,
}
use trpc_agent_service_douzh.Prelude.Action.{ok, err}
use trpc_agent_service_douzh.Failover.Lease.{
  integrity_error, lease_ok, already_primary, LeaseState, is_live, register_standby, fence,
  promoted, promote, current_primary, holds, standby,
}

abbrev fenced_rows : ℕ → List LeaseState → List LeaseState
fenced_rows now_db rows = update_where is_live (fence now_db) rows

exists-fenced :
    (now_db : ℕ) (rows : List LeaseState) → exists is_live (fenced_rows now_db rows) ≡ false
exists-fenced now_db [] = refl
exists-fenced now_db (row ∷ rows) = ground (arith, exists-fenced now_db rows)

max_of-fenced :
    (now_db : ℕ) (rows : List LeaseState)
    → max_of (λ (row : LeaseState). row.fencing_token) (fenced_rows now_db rows)
      ≡ max_of (λ (row : LeaseState). row.fencing_token) rows
max_of-fenced now_db [] = refl
max_of-fenced now_db (row ∷ rows) = ground (arith, max_of-fenced now_db rows)

find-snoc :
    (rows : List LeaseState) (row : LeaseState)
    → exists is_live rows ≡ false
    → is_live row ≡ true
    → find is_live (rows ++ (row ∷ [])) ≡ some row
find-snoc [] row h live = ground (arith, live)
find-snoc (x ∷ rows) row h live = ground (arith, h, find-snoc rows row (ground (arith, h)) live)

exists-count : (rows : List LeaseState) → exists is_live rows ≡ false → count_where is_live rows ≡ 0
exists-count [] h = refl
exists-count (row ∷ rows) h = ground (arith, h, exists-count rows (ground (arith, h)))

count-snoc :
    (rows : List LeaseState) (row : LeaseState)
    → count_where is_live (rows ++ (row ∷ []))
      ≡ count_where is_live rows + (if is_live row then 1 else 0)
count-snoc [] row = ground arith
count-snoc (x ∷ rows) row = ground (arith, count-snoc rows row)

All-below :
    (rows : List LeaseState) (n : ℕ)
    → max_of (λ (row : LeaseState). row.fencing_token) rows < n
    → All (λ (row : LeaseState). row.fencing_token < n) rows
All-below [] n h = tt
All-below (row ∷ rows) n h = (omega (arith, h), All-below rows n (omega (arith, h)))

module _ (ttl now now_db : ℕ) (region operator : String) (rows : List LeaseState) where
  -- The row that a promotion inserts.
  abbrev pub winner : LeaseState
  winner =
      promoted ttl now now_db (max_of (λ (row : LeaseState). row.fencing_token) rows + 1) region
        operator

  promote-wins :
      lease_ok winner ≡ true
      → holds region (find is_live rows) ≡ false
      → promote ttl now now_db region operator rows
        ≡ (ok winner, fenced_rows now_db rows ++ (winner ∷ []))
  unfolding promote
  promote-wins fits other =
      ground (arith, fits, other, exists-fenced now_db rows, max_of-fenced now_db rows)

  pub promote_lem :
      (holds region (current_primary rows) ≡ false
        → 1 ≤ char_count region
        → char_count region ≤ 64
        → 1 ≤ char_count operator
        → char_count operator ≤ 256
        → now_db < now + ttl
        → ((promote ttl now now_db region operator rows).0 ≡ ok winner)
          × (current_primary (promote ttl now now_db region operator rows).1 ≡ some winner)
          × (count_where is_live (promote ttl now now_db region operator rows).1 ≡ 1)
          × All (λ (row : LeaseState). row.fencing_token < winner.fencing_token) rows)
      × (holds region (current_primary rows) ≡ false
          → lease_ok winner ≡ false
          → promote ttl now now_db region operator rows ≡ (err integrity_error, rows))
      × (holds region (current_primary rows) ≡ true
          → promote ttl now now_db region operator rows ≡ (err already_primary, rows))
  unfolding current_primary promote
  promote_lem = (
    λ other r r' o o' later.
        let fits : lease_ok winner ≡ true = ground (arith, r, r', o, o', later) in
        let wins = promote-wins fits other in
        let fenced = fenced_rows now_db rows in
        let absent = exists-fenced now_db rows in
        (
          ground (arith, wins),
          ground (arith, wins, find-snoc fenced winner absent refl),
          ground (arith, wins, count-snoc fenced winner, exists-count fenced absent),
          All-below rows winner.fencing_token (omega arith),
        ),
    λ other unfit. ground (arith, other, unfit, max_of-fenced now_db rows),
    λ own. ground (arith, own),
  )

  -- At most one live primary is left, however the promotion ends.
  promote-single :
      count_where is_live rows ≤ 1
      → count_where is_live (promote ttl now now_db region operator rows).1 ≤ 1
  unfolding current_primary
  promote-single one =
      let (wins, unfit, refused) = promote_lem in
      elim (Bool-cases (holds region (current_primary rows))) [
        | inl own ↦ ground (arith, refused own, one)
        | inr other ↦ elim (Bool-cases (lease_ok winner)) [
          | inr bad ↦ ground (arith, unfit other bad, one)
          | inl fits ↦
              let done = promote-wins fits other in
              let fenced = fenced_rows now_db rows in
              ground (
                arith,
                done,
                count-snoc fenced winner,
                exists-count fenced (exists-fenced now_db rows),
              )
        ]
      ]

-- A registration or a promotion.
pub data Call : Type 0 where
  register_call promote_call : (ttl now now_db : ℕ) (region operator : String) → Call

abbrev pub perform : Call → List LeaseState → List LeaseState
perform (register_call ttl now now_db region operator) rows =
    (register_standby ttl now now_db region operator rows).1
perform (promote_call ttl now now_db region operator) rows =
    (promote ttl now now_db region operator rows).1

abbrev pub history : List Call → List LeaseState → List LeaseState
history [] rows = rows
history (call ∷ calls) rows = history calls (perform call rows)

perform-single :
    (call : Call) (rows : List LeaseState)
    → count_where is_live rows ≤ 1
    → count_where is_live (perform call rows) ≤ 1
unfolding register_standby
perform-single (register_call ttl now now_db region operator) rows one =
    let row : LeaseState = record {
      region = region;
      role = standby;
      fencing_token = 0;
      acquired_at = now_db;
      expires_at = now + ttl;
      released_at = none;
      operator = operator;
    } in
    ground (arith, one, count-snoc rows row)
perform-single (promote_call ttl now now_db region operator) rows one =
    promote-single ttl now now_db region operator rows one

-- Two primaries are never live at once: from rows of which at most one is a live primary, any
-- registrations and promotions leave at most one.
pub history_single_primary :
    (calls : List Call) (rows : List LeaseState)
    → count_where is_live rows ≤ 1
    → count_where is_live (history calls rows) ≤ 1
history_single_primary [] rows one = one
history_single_primary (call ∷ calls) rows one =
    history_single_primary calls (perform call rows) (perform-single call rows one)
