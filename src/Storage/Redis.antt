-- ===== src/Storage/Redis.antt =====
-- RedisCacheAdapter of trpc_service/storage.py over a memory adapter that it owns.
pub mod Refinement
use trpc_agent_service_douzh.Prelude.{
  ℕ, String, List, [], ◌∷◌, Option, none, some, Bool, true, false, not, ◌&&◌, exists, count_where,
  max,
}
use trpc_agent_service_douzh.Prelude.Action.{Result, ok, err}
use trpc_agent_service_douzh.Storage.Memory.{
  StoredObject, Memory, is_of, get_object, set_object, get, put, without, erase_tenant,
  verify_tenant_erased,
}

pub data StorageProfileError : Type 0 where
  redis_authority_required : StorageProfileError

pub record Redis : Type 0 where
  pub authority : Memory
  pub cache : List StoredObject

-- `__init__`, for an authority that is one or is a cache itself.
unfoldable pub new_redis : (authoritative : Bool) → Memory → Result StorageProfileError Redis
new_redis true authority = ok (record { authority = authority; cache = [] })
new_redis false authority = err redis_authority_required

unfoldable pub put_through : String → String → String → Redis → Redis
put_through tenant key value r = record {
  authority = put tenant key value r.authority;
  cache = set_object tenant key value r.cache;
}

unfoldable pub get_through : String → String → Redis → Option String × Redis
get_through tenant key r = elim (get_object tenant key r.cache) [
  | some cached ↦ (some cached, r)
  | none ↦ elim (get tenant key r.authority) [
    | none ↦ (none, r)
    | some value ↦ (some value, record r { cache = set_object tenant key value r.cache })
  ]
]

unfoldable pub erase_through : String → Redis → ℕ × Redis
erase_through tenant r =
    let (deleted, authority) = erase_tenant tenant r.authority in
    (
      max (count_where (is_of tenant) r.cache) deleted,
      record { authority = authority; cache = without tenant r.cache },
    )

abbrev pub clear_cache : Redis → Redis
clear_cache r = record r { cache = [] }

unfoldable pub verify_through : String → Redis → Bool
verify_through tenant r =
    not (exists (is_of tenant) r.cache) && verify_tenant_erased tenant r.authority

-- A call of an adapter, and its answer.
pub data Operation : Type 0 where
  put_call : (tenant key value : String) → Operation
  get_call : (tenant key : String) → Operation
  erase_call verify_call : (tenant : String) → Operation
  -- Of the cache only.
  clear_call : Operation

pub data Answer : Type 0 where
  done : Answer
  found : Option String → Answer
  erased : ℕ → Answer
  verified : Bool → Answer

abbrev pub perform_redis : Operation → Redis → Answer × Redis
perform_redis (put_call tenant key value) r = (done, put_through tenant key value r)
perform_redis (get_call tenant key) r =
    (found (get_through tenant key r).0, (get_through tenant key r).1)
perform_redis (erase_call tenant) r =
    (erased (erase_through tenant r).0, (erase_through tenant r).1)
perform_redis (verify_call tenant) r = (verified (verify_through tenant r), r)
perform_redis clear_call r = (done, clear_cache r)

abbrev pub perform_memory : Operation → Memory → Answer × Memory
perform_memory (put_call tenant key value) m = (done, put tenant key value m)
perform_memory (get_call tenant key) m = (found (get tenant key m), m)
perform_memory (erase_call tenant) m = (erased (erase_tenant tenant m).0, (erase_tenant tenant m).1)
perform_memory (verify_call tenant) m = (verified (verify_tenant_erased tenant m), m)
perform_memory clear_call m = (done, m)

abbrev pub answers_redis : List Operation → Redis → List Answer
answers_redis [] r = []
answers_redis (op ∷ ops) r = (perform_redis op r).0 ∷ answers_redis ops (perform_redis op r).1

abbrev pub answers_memory : List Operation → Memory → List Answer
answers_memory [] m = []
answers_memory (op ∷ ops) m = (perform_memory op m).0 ∷ answers_memory ops (perform_memory op m).1
