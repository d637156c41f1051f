-- ===== src/Prelude/JsonValues.antt =====
-- JSON values, which the program stores in JSONB columns and passes between agents.
use Prim.Native.Nat.{ℕ}
use Prim.Native.String.{String}
use mathlib.Core.Bool.{Bool}
use mathlib.Core.Option.{Option, none, some}
use mathlib.Core.List.{List, [], ◌∷◌}
use draftly_agent_backend.Prelude.Tests.{◌==◌, string_eq, if◌then◌else◌}

-- `number` holds the text of a number that is no natural number.
mutual
  pub data Json : Type 0 where
    null : Json
    bool : Bool → Json
    int : ℕ → Json
    number : String → Json
    str : String → Json
    array : Items → Json
    object : Fields → Json

  pub data Items : Type 0 where
    nil : Items
    cons : Json → Items → Items

  pub data Fields : Type 0 where
    end : Fields
    field : String → Json → Fields → Fields

-- `fields.get(key)`: the first binding of a key.
abbrev pub get_field : String → Fields → Option Json
get_field key end = none
get_field key (field k v rest) = if key == k then some v else get_field key rest

abbrev pub items : List Json → Items
items [] = nil
items (x ∷ xs) = cons x (items xs)

abbrev pub texts : List String → Items
texts [] = nil
texts (x ∷ xs) = cons (str x) (texts xs)
