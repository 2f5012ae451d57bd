-- ===== src/Json.antt =====
-- `serde_json::Value`. An object is the list of its fields in the order of iteration.
use simplecc.Base.{ℕ, String, Bool}

-- An integer of a number, or the text of any other number.
pub data Number : Type 0 where
  natural : ℕ → Number
  negative : ℕ → Number
  decimal : String → Number

mutual
  pub data Json : Type 0 where
    null : Json
    boolean : Bool → Json
    number : Number → Json
    string : String → Json
    array : Items → Json
    object : Fields → Json

  pub data Items : Type 0 where
    nil : Items
    cons : Json → Items → Items

  pub data Fields : Type 0 where
    end : Fields
    field : String → Json → Fields → Fields
