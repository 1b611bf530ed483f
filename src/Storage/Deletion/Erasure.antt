-- ===== src/Storage/Deletion/Erasure.antt =====
-- What an erasure of trpc_service/storage.py leaves.
use trpc_agent_service_douzh.Prelude.{
  ℕ, String, List, [], ◌∷◌, none, Bool, false, ◌&&◌, ◌||◌, ◌==◌, max, count_where, str_eq,
  if◌then◌else◌, ◌≡◌,
}
use trpc_agent_service_douzh.Storage.Memory.{StoredObject, Memory, is_of, get_object}
use trpc_agent_service_douzh.Storage.Redis.{Redis}
use trpc_agent_service_douzh.Storage.Deletion.{AdapterKind}
use trpc_agent_service_douzh.Storage.Deletion.Backends.{
  Stores, Backend, memory_adapter, redis_adapter,
}

abbrev pub has : ℕ → List ℕ → Bool
has i [] = false
has i (j ∷ js) = i == j || has i js

-- The memories and the caches that a list of adapters erases, added to those erased before.
abbrev pub memories_after : List (AdapterKind × Backend) → List ℕ → List ℕ
memories_after [] ms = ms
memories_after ((kind, memory_adapter m) ∷ bs) ms = memories_after bs (m ∷ ms)
memories_after ((kind, redis_adapter c m) ∷ bs) ms = memories_after bs (m ∷ ms)

abbrev pub caches_after : List (AdapterKind × Backend) → List ℕ → List ℕ
caches_after [] cs = cs
caches_after ((kind, memory_adapter m) ∷ bs) cs = caches_after bs cs
caches_after ((kind, redis_adapter c m) ∷ bs) cs = caches_after bs (c ∷ cs)

-- How many objects of the tenant a list of objects has left: none, once it was erased.
abbrev pub left : String → Bool → List StoredObject → ℕ
left t erased os = if erased then 0 else count_where (is_of t) os

-- How many objects of the tenant each adapter has at its turn; a cache has those of its own or of its
-- authority, whichever are more.
abbrev pub counts :
    String → List (AdapterKind × Backend) → (ms cs : List ℕ) → Stores → List (AdapterKind × ℕ)
counts t [] ms cs s = []
counts t ((kind, memory_adapter m) ∷ bs) ms cs s =
    (kind, left t (has m ms) (s.memories m).objects) ∷ counts t bs (m ∷ ms) cs s
counts t ((kind, redis_adapter c m) ∷ bs) ms cs s =
    (kind, max (left t (has c cs) (s.caches c)) (left t (has m ms) (s.memories m).objects))
    ∷ counts t bs (m ∷ ms) (c ∷ cs) s

-- Objects before and after: if erased, nothing of the tenant is left, and all else is as it was.
pub record IsSwept (t : String) (erased : Bool) (os os' : List StoredObject) : Type 0 where
  pub objects :
      (t' k : String)
      → get_object t' k os' ≡ (if erased && str_eq t' t then none else get_object t' k os)
  pub count : count_where (is_of t) os' ≡ left t erased os

-- Stores before and after the erasure of some memories and caches.
pub record AreSwept (t : String) (ms cs : List ℕ) (s s' : Stores) : Type 0 where
  pub memories : (i : ℕ) → IsSwept t (has i ms) (s.memories i).objects (s'.memories i).objects
  pub caches : (i : ℕ) → IsSwept t (has i cs) (s.caches i) (s'.caches i)
