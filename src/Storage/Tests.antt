-- ===== src/Storage/Tests.antt =====
-- Runs of the adapters of trpc_service/storage.py, and the theorems at inputs of them.
use trpc_agent_service_douzh.Prelude.{
  ◌==◌, if◌then◌else◌, List, [], ◌∷◌, none, some, true, false, ◌≡◌, refl,
}
use trpc_agent_service_douzh.Prelude.Action.{ok, err}
use trpc_agent_service_douzh.Storage.Memory.{
  Memory, new_memory, get_object, set_object, put, get, without, deletions, erase_tenant,
  verify_tenant_erased,
}
use trpc_agent_service_douzh.Storage.Redis.{
  new_redis, put_through, get_through, erase_through, verify_through, Operation, put_call, get_call,
  erase_call, verify_call, clear_call, done, found, erased, verified, answers_redis, answers_memory,
}
use trpc_agent_service_douzh.Storage.Redis.Refinement.{redis_refines}
use trpc_agent_service_douzh.Storage.Deletion.{
  AdapterKind, StorageAdapter, sql, redis, vector, object_store, new_coordinator, erase_all,
  verify_all, erase_everywhere, deletion_unverified,
}
use trpc_agent_service_douzh.Storage.Deletion.Backends.{
  Backend, Stores, memory_adapter, redis_adapter, adapters_of,
}

program : Unit {0}
unfolding get_object set_object put get without deletions erase_tenant verify_tenant_erased
    new_redis put_through get_through erase_through verify_through erase_all verify_all
    erase_everywhere new_coordinator
program = tt

abbrev filled : Memory
filled = put "t" "b" "2" (put "u" "a" "9" (put "t" "a" "1" new_memory))

abbrev operations : List Operation
operations =
    get_call "t" "a"
    ∷ put_call "t" "a" "3"
    ∷ clear_call
    ∷ get_call "t" "a"
    ∷ erase_call "t"
    ∷ get_call "t" "a"
    ∷ verify_call "t"
    ∷ verify_call "u"
    ∷ []

answers_redis-operations :
    answers_redis operations (record { authority = filled; cache = [] })
    ≡ found (some "1")
      ∷ done
      ∷ done
      ∷ found (some "3")
      ∷ erased 2
      ∷ found none
      ∷ verified true
      ∷ verified false
      ∷ []
unfolding program
answers_redis-operations = refl

new_redis-filled : new_redis true filled ≡ ok (record { authority = filled; cache = [] })
unfolding program
new_redis-filled = refl

redis_refines_example :
    answers_redis operations (record { authority = filled; cache = [] })
    ≡ answers_memory operations filled
redis_refines_example =
    redis_refines filled (record { authority = filled; cache = [] }) operations new_redis-filled

-- The cache has the first memory as its authority, which is an adapter too.
abbrev backends : List (AdapterKind × Backend)
backends =
    (sql, memory_adapter 0)
    ∷ (redis, redis_adapter 0 0)
    ∷ (vector, memory_adapter 1)
    ∷ (object_store, memory_adapter 2)
    ∷ []

abbrev stores : Stores
stores = record {
  memories =
      λ i. if i == 0 then filled else if i == 1 then put "t" "v" "0" new_memory else new_memory;
  caches = λ i.
      record { tenant = "u"; key = "a"; value = "9" }
      ∷ record { tenant = "t"; key = "b"; value = "2" }
      ∷ [];
}

new_coordinator_complete : new_coordinator (adapters_of backends) ≡ ok (adapters_of backends)
unfolding program
new_coordinator_complete = refl

erase_everywhere-stores :
    (erase_everywhere "t" false (adapters_of backends) stores).0
    ≡ ok (record {
      tenant_id = "t";
      deleted_by_backend = (sql, 2) ∷ (redis, 1) ∷ (vector, 1) ∷ (object_store, 0) ∷ [];
      verified = true;
    })
unfolding program
erase_everywhere-stores = refl

-- An adapter that keeps what it should erase.
abbrev keeping : StorageAdapter Memory
keeping = record { erase_tenant = λ tenant m. (0, m); verify_tenant_erased = verify_tenant_erased }

erase_everywhere-keeping :
    (erase_everywhere "t" false ((sql, keeping) ∷ []) filled).0 ≡ err deletion_unverified
unfolding program
erase_everywhere-keeping = refl
