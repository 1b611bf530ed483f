-- ===== src/Storage/Memory.antt =====
-- _NamespacedMemoryAdapter of trpc_service/storage.py. A stored value is bytes, written as a text.
pub mod Dict
pub mod Feed
use trpc_agent_service_douzh.Prelude.{
  ℕ, ◌+◌, ◌<◌, String, List, [], ◌∷◌, ◌++◌, map, Option, none, some, Bool, not, ◌&&◌, ltb, str_eq,
  if◌then◌else◌, select, exists, length,
}

-- An item of the dict `_objects`.
pub record StoredObject : Type 0 where
  pub tenant : String
  pub key : String
  pub value : String

-- An item of the change feed; no value says deleted.
pub record Change : Type 0 where
  pub sequence : ℕ
  pub tenant : String
  pub key : String
  pub value : Option String

pub record Memory : Type 0 where
  pub objects : List StoredObject
  pub watermark : ℕ
  pub changes : List Change

abbrev pub new_memory : Memory
new_memory = record { objects = []; watermark = 0; changes = [] }

abbrev pub is_at : String → String → StoredObject → Bool
is_at tenant key o = str_eq o.tenant tenant && str_eq o.key key

-- `_objects.get((tenant, key))`
unfoldable pub get_object : String → String → List StoredObject → Option String
get_object tenant key [] = none
get_object tenant key (o ∷ os) =
    let rest = get_object tenant key os in if is_at tenant key o then some o.value else rest

-- `_objects[(tenant, key)] = value`: a key that is there keeps its place.
unfoldable pub set_object : String → String → String → List StoredObject → List StoredObject
set_object tenant key value [] = record { tenant = tenant; key = key; value = value } ∷ []
set_object tenant key value (o ∷ os) =
    let rest = set_object tenant key value os in
    if is_at tenant key o then record o { value = value } ∷ os else o ∷ rest

-- `_objects.pop((tenant, key), None)`
unfoldable pub pop_object : String → String → List StoredObject → List StoredObject
pop_object tenant key [] = []
pop_object tenant key (o ∷ os) =
    let rest = pop_object tenant key os in if is_at tenant key o then rest else o ∷ rest

abbrev pub is_of : String → StoredObject → Bool
is_of tenant o = str_eq o.tenant tenant

unfoldable pub put : String → String → String → Memory → Memory
put tenant key value m = record {
  objects = set_object tenant key value m.objects;
  watermark = m.watermark + 1;
  changes =
      m.changes
      ++ (record { sequence = m.watermark + 1; tenant = tenant; key = key; value = some value }
          ∷ []);
}

unfoldable pub get : String → String → Memory → Option String
get tenant key m = get_object tenant key m.objects

unfoldable pub without : String → List StoredObject → List StoredObject
without tenant [] = []
without tenant (o ∷ os) = let rest = without tenant os in if is_of tenant o then rest else o ∷ rest

unfoldable pub deletions : ℕ → String → List StoredObject → List Change
deletions sequence tenant [] = []
deletions sequence tenant (o ∷ os) =
    let rest = deletions sequence tenant os in
    if is_of tenant o
    then record { sequence = sequence; tenant = tenant; key = o.key; value = none } ∷ rest
    else rest

-- The number of the objects that it deletes, with the memory after it.
unfoldable pub erase_tenant : String → Memory → ℕ × Memory
erase_tenant tenant m =
    let deleted = deletions (m.watermark + 1) tenant m.objects in
    (
      length deleted,
      record {
        objects = without tenant m.objects;
        watermark = m.watermark + 1;
        changes = m.changes ++ deleted;
      },
    )

unfoldable pub verify_tenant_erased : String → Memory → Bool
verify_tenant_erased tenant m = not (exists (is_of tenant) m.objects)

-- The changes with which the migration adapters work: a key, and a value or a deletion.
abbrev pub Delta : Type 0
Delta = String × Option String

unfoldable pub items_of : String → List StoredObject → List Delta
items_of tenant [] = []
items_of tenant (o ∷ os) =
    let rest = items_of tenant os in if is_of tenant o then (o.key, some o.value) ∷ rest else rest

-- `list(snapshot.items())` of `snapshot_tenant`, with the watermark.
unfoldable pub snapshot_tenant : String → Memory → ℕ × List Delta
snapshot_tenant tenant m = (m.watermark, items_of tenant m.objects)

unfoldable pub deltas_since : String → ℕ → List Change → List Delta
deltas_since tenant watermark [] = []
deltas_since tenant watermark (c ∷ cs) =
    let rest = deltas_since tenant watermark cs in
    if str_eq c.tenant tenant && ltb watermark c.sequence then (c.key, c.value) ∷ rest else rest

unfoldable pub changes_since : String → ℕ → Memory → ℕ × List Delta
changes_since tenant watermark m = (m.watermark, deltas_since tenant watermark m.changes)

unfoldable pub apply_deltas : String → List Delta → List StoredObject → List StoredObject
apply_deltas tenant [] os = os
apply_deltas tenant ((key, none) ∷ deltas) os =
    apply_deltas tenant deltas (pop_object tenant key os)
apply_deltas tenant ((key, some value) ∷ deltas) os =
    apply_deltas tenant deltas (set_object tenant key value os)

-- It changes neither the watermark nor the feed.
unfoldable pub apply_changes : String → List Delta → Memory → Memory
apply_changes tenant deltas m = record m { objects = apply_deltas tenant deltas m.objects }
