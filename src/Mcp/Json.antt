-- ===== src/Mcp/Json.antt =====
-- What the MCP server uses of serde_json's values.
use plasmite.Prelude.{ℕ, ◌^◌, Bool, Option, none, some, String, ltb, if◌then◌else◌}
use text.Mathlib.Text.{◌==◌ as str_eq}

-- `negative n` is the integer -(n + 1).
pub data Number : Type 0 where
  unsigned negative : ℕ → Number
  float : Number

mutual
  pub data Value : Type 0 where
    null : Value
    bool : Bool → Value
    number : Number → Value
    string : String → Value
    array : Items → Value
    object : Fields → Value

  pub data Items : Type 0 where
    nil : Items
    cons : Value → Items → Items

  pub data Fields : Type 0 where
    end : Fields
    field : String → Value → Fields → Fields

-- `map.get(key)`
abbrev pub get : String → Fields → Option Value
get key end = none
get key (field name value rest) =
    let found = get key rest in if str_eq name key then some value else found

-- `value.as_str()`
abbrev pub as_str : Option Value → Option String
as_str (some (string text)) = some text
as_str (some null) = none
as_str (some (bool b)) = none
as_str (some (number n)) = none
as_str (some (array items)) = none
as_str (some (object fields)) = none
as_str none = none

-- `number.as_i64()`, which keeps the number.
unfoldable pub as_i64 : Number → Option Number
as_i64 (unsigned n) = if ltb n (2 ^ 63) then some (unsigned n) else none
as_i64 (negative n) = some (negative n)
as_i64 float = none
