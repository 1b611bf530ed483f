-- ===== src/Storage/Deletion/Backends.antt =====
-- The adapters of trpc_service/storage.py as a deletion coordinator calls them: _NamespacedMemoryAdapter and
-- its subclasses, and RedisCacheAdapter over one of them. An adapter is named by the memory it stores in,
-- and a cache by its own objects and the memory of its authority, so two adapters may share a memory.
use trpc_agent_service_douzh.Prelude.{ℕ, List, [], ◌∷◌, ◌==◌, if◌then◌else◌}
use trpc_agent_service_douzh.Storage.Memory.{
  StoredObject, Memory, erase_tenant, verify_tenant_erased,
}
use trpc_agent_service_douzh.Storage.Redis.{Redis, erase_through, verify_through}
use trpc_agent_service_douzh.Storage.Deletion.{AdapterKind, StorageAdapter, Adapters}

-- The memories and the caches, by number.
pub record Stores : Type 0 where
  pub memories : ℕ → Memory
  pub caches : ℕ → List StoredObject

pub data Backend : Type 0 where
  memory_adapter : (memory : ℕ) → Backend
  redis_adapter : (cache authority : ℕ) → Backend

-- `f` with another value at `i`.
abbrev pub set_at : {A : Type 0} → ℕ → A → (ℕ → A) → ℕ → A
set_at i a f j = if j == i then a else f j

abbrev pub redis_at : ℕ → ℕ → Stores → Redis
redis_at cache authority s = record { authority = s.memories authority; cache = s.caches cache }

abbrev pub adapter_of : Backend → StorageAdapter Stores
adapter_of (memory_adapter memory) = record {
  erase_tenant = λ tenant s.
      let (deleted, erased) = erase_tenant tenant (s.memories memory) in
      (deleted, record s { memories = set_at memory erased s.memories });
  verify_tenant_erased = λ tenant s. verify_tenant_erased tenant (s.memories memory);
}
adapter_of (redis_adapter cache authority) = record {
  erase_tenant = λ tenant s.
      let (deleted, erased) = erase_through tenant (redis_at cache authority s) in
      (
        deleted,
        record {
          memories = set_at authority erased.authority s.memories;
          caches = set_at cache erased.cache s.caches;
        },
      );
  verify_tenant_erased = λ tenant s. verify_through tenant (redis_at cache authority s);
}

abbrev pub adapters_of : List (AdapterKind × Backend) → Adapters Stores
adapters_of [] = []
adapters_of ((kind, backend) ∷ backends) = (kind, adapter_of backend) ∷ adapters_of backends
