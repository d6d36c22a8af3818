-- ===== src/Json.antt =====
-- JSON values as Go holds them in `any`, and `encoding/json` as the program calls it.
use route_planner.Prelude.{ℕ, String, Bool, Option, List, [], ◌∷◌, if◌then◌else◌}
use route_planner.Prelude.Text.{str_eq}
use route_planner.Effects.{Outcome}

mutual
  pub data Json : Type 0 where
    null : Json
    boolean : Bool → Json
    number : ℕ → Json
    text : String → Json
    array : Items → Json
    object : Fields → Json

  pub data Items : Type 0 where
    nil : Items
    cons : Json → Items → Items

  -- A `map[string]any`.
  pub data Fields : Type 0 where
    end : Fields
    field : String → Json → Fields → Fields

abbrev pub items : List Json → Items
items [] = nil
items (j ∷ js) = cons j (items js)

-- `m[key] = value`
unfoldable pub set_field : String → Json → Fields → Fields
set_field key value end = field key value end
set_field key value (field k v rest) =
    if str_eq k key then field k value rest else field k v (set_field key value rest)

-- `m[key]`
unfoldable pub get_field : String → Fields → Option Json
get_field key end = Option.none
get_field key (field k v rest) = if str_eq k key then Option.some v else get_field key rest

-- The two calls of the package: `Unmarshal` into a map, which is nil (`none`) if the text is the
-- JSON `null`, and `Marshal`.
pub record JsonCodec : Type 0 where
  pub unmarshal_map : String → Outcome (Option Fields)
  pub marshal : Json → Outcome String
