-- ===== src/Failover/Tests.antt =====
-- A failover of trpc_service/failover.py from one region to another, and the theorems at it.
use trpc_agent_service_douzh.Prelude.{◌≤◌, List, [], ◌∷◌, ◌≡◌, refl, arith, count_where}
use trpc_agent_service_douzh.Prelude.Action.{ok, err}
use trpc_agent_service_douzh.Failover.Lease.{integrity_error, LeaseState, is_live, promote}
use trpc_agent_service_douzh.Failover.Promotions.{
  winner, Call, register_call, promote_call, history, history_single_primary,
}

abbrev calls : List Call
calls =
    promote_call 60 100 101 "east" "op"
    ∷ register_call 60 110 111 "west" "op"
    ∷ promote_call 60 200 201 "west" "op"
    ∷ []

-- The rows before the failover.
abbrev rows : List LeaseState
rows = winner 60 100 101 "east" "op" [] ∷ []

promote-east : promote 60 100 101 "east" "op" [] ≡ (ok (winner 60 100 101 "east" "op" []), rows)
unfolding promote
promote-east = refl

history_single_primary_example : count_where is_live (history calls rows) ≤ 1
history_single_primary_example = history_single_primary calls rows (omega arith)

-- A lease that would end before the database's clock is refused by the table.
promote-unfit : (promote 60 100 200 "west" "op" rows).0 ≡ err integrity_error
unfolding promote
promote-unfit = refl
