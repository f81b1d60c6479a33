-- ===== src/Json.antt =====
-- JSON values as `JSON.parse` returns them, and the two functions between values and bytes.
use flare_hack.Prelude.{Bool, Option, none, some, ℤ, if◌then◌else◌, Text, Bytes, ◌===◌}

-- A finite `number` is an integer count of 2^-1074, a unit of which every double is a multiple;
-- `infinite` is what JSON.parse makes of a literal out of range.
pub data JsNumber : Type 0 where
  finite : ℤ → JsNumber
  infinite : JsNumber

-- `end` and `field` list the members of an object; a repeated name has been resolved by the parser.
mutual
  pub data Json : Type 0 where
    null : Json
    boolean : Bool → Json
    number : JsNumber → Json
    string : Text → Json
    array : Items → Json
    object : Fields → Json

  pub data Items : Type 0 where
    nil : Items
    cons : Json → Items → Items

  pub data Fields : Type 0 where
    end : Fields
    field : Text → Json → Fields → Fields

-- `object[name]`, `none` where it is undefined
unfoldable pub get_field : Text → Fields → Option Json
get_field name end = none
get_field name (field k v rest) = if k === name then some v else get_field name rest

-- `JSON.parse(Buffer.from(bytes).toString("utf-8"))`, `none` where it throws, and
-- `Buffer.from(JSON.stringify(value), "utf-8")`.
pub record JsonCodec : Type 0 where
  pub parse : Bytes → Option Json
  pub print : Json → Bytes
