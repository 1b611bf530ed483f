-- ===== src/Prelude/Json.antt =====
-- JSON values: what a `dict[str, Any]` holds before `json.dumps` and a jsonb column after it.
use Prim.Native.String.{String, [], ◌∷◌}
use mathlib.Core.Bool.{Bool}
use mathlib.Core.Option.{Option, none, some}
use trpc_agent_service_douzh.Prelude.Tests.{str_eq, if◌then◌else◌}
use trpc_agent_service_douzh.Prelude.Int.{ℤ}

mutual
  pub data Json : Type 0 where
    null : Json
    bool : Bool → Json
    num : ℤ → Json
    str : String → Json
    arr : Items → Json
    obj : Fields → Json

  pub data Items : Type 0 where
    nil : Items
    cons : Json → Items → Items

  pub data Fields : Type 0 where
    end : Fields
    field : String → Json → Fields → Fields

-- `fields.get(key)`
abbrev pub get_field : String → Fields → Option Json
get_field key end = none
get_field key (field k v rest) = if str_eq k key then some v else get_field key rest

-- What `for x in text` reads.
abbrev pub characters : String → Items
characters [] = nil
characters (c ∷ cs) = cons (str (c ∷ [])) (characters cs)

-- What `for x in fields` reads.
abbrev pub keys : Fields → Items
keys end = nil
keys (field k v rest) = cons (str k) (keys rest)
