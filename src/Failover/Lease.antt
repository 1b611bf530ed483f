-- ===== src/Failover/Lease.antt =====
-- FailoverLeaseManager of trpc_service/failover.py. A moment is what a clock returns: `now` the
-- program's and `now_db` the database's.
use trpc_agent_service_douzh.Prelude.{
  char_count, leb, ltb, not, ◌||◌, ℕ, ◌+◌, String, List, [], ◌∷◌, ◌++◌, Option, none, some, Bool,
  true, false, ◌&&◌, is_none, str_eq, if◌then◌else◌, find, exists, update_where, max_of,
}
use trpc_agent_service_douzh.Prelude.Action.{
  Action, ok, err, raise_if, gets, modify, transaction, ◌>>=◌, ◌>>◌,
}

pub data FailoverRole : Type 0 where
  primary standby failing_over failing_back fenced : FailoverRole

pub data FailoverError : Type 0 where
  already_primary integrity_error : FailoverError

-- A row of platform.failover_lease.
pub record LeaseState : Type 0 where
  pub region : String
  pub role : FailoverRole
  pub fencing_token : ℕ
  pub acquired_at : ℕ
  pub expires_at : ℕ
  pub released_at : Option ℕ
  pub operator : String

abbrev pub is_primary : FailoverRole → Bool
is_primary primary = true
is_primary _ = false

-- role = 'PRIMARY' AND released_at IS NULL
abbrev pub is_live : LeaseState → Bool
is_live row = is_primary row.role && is_none row.released_at

-- CHECK (length(region) BETWEEN 1 AND 64), CHECK (length(operator) BETWEEN 1 AND 256) and
-- CHECK (expires_at > acquired_at); a token is at least 0.
abbrev pub lease_ok : LeaseState → Bool
lease_ok row =
    leb 1 (char_count row.region)
    && leb (char_count row.region) 64
    && (leb 1 (char_count row.operator) && leb (char_count row.operator) 256)
    && ltb row.acquired_at row.expires_at

-- The insertion, under the CHECKs and the unique index failover_lease_single_active.
unfoldable pub insert_lease : LeaseState → Action (List LeaseState) FailoverError LeaseState
insert_lease row rows =
    if not (lease_ok row) || is_live row && exists is_live rows
    then (err integrity_error, rows)
    else (ok row, rows ++ (row ∷ []))

unfoldable pub register_standby :
    (ttl now now_db : ℕ) (region operator : String)
    → Action (List LeaseState) FailoverError LeaseState
unfolding insert_lease
register_standby ttl now now_db region operator = insert_lease (record {
  region = region;
  role = standby;
  fencing_token = 0;
  acquired_at = now_db;
  expires_at = now + ttl;
  released_at = none;
  operator = operator;
})

-- UPDATE … SET role='FENCED', released_at=now()
abbrev pub fence : ℕ → LeaseState → LeaseState
fence now_db row = record row { role = fenced; released_at = some now_db }

abbrev pub promoted : (ttl now now_db token : ℕ) (region operator : String) → LeaseState
promoted ttl now now_db token region operator = record {
  region = region;
  role = primary;
  fencing_token = token;
  acquired_at = now_db;
  expires_at = now + ttl;
  released_at = none;
  operator = operator;
}

-- The region of a row that was found.
abbrev pub holds : String → Option LeaseState → Bool
holds region none = false
holds region (some row) = str_eq row.region region

unfoldable pub promote :
    (ttl now now_db : ℕ) (region operator : String)
    → Action (List LeaseState) FailoverError LeaseState
unfolding insert_lease
promote ttl now now_db region operator = transaction (do
  current ← gets (find is_live)
  raise_if (holds region current) already_primary
  modify (update_where is_live (fence now_db))
  token ← gets (λ rows. max_of (λ (row : LeaseState). row.fencing_token) rows + 1)
  insert_lease (promoted ttl now now_db token region operator))

unfoldable pub current_primary : List LeaseState → Option LeaseState
current_primary = find is_live
