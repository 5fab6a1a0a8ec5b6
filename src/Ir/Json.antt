-- ===== src/Ir/Json.antt =====
-- serde_json's `Value`, as far as the crates take it apart: the six constructors, and look-up of a
-- text field of an object. A number is kept as serde_json documents it: an unsigned integer, a
-- negative integer (-(n + 1) for `neg_int n`) or a finite float, here by its bit pattern.
use pointlock.Prelude.{ℕ, String, Bool, Option, none, some, if◌then◌else◌, str_eq}

pub data Number : Type 0 where
  pos_int : ℕ → Number
  neg_int : ℕ → Number
  float : ℕ → Number

mutual
  pub data Value : Type 0 where
    null : Value
    bool : Bool → Value
    number : Number → Value
    string : String → Value
    array : Items → Value
    object : Fields → Value

  pub data Items : Type 0 where
    end_items : Items
    item : Value → Items → Items

  pub data Fields : Type 0 where
    end_fields : Fields
    field : String → Value → Fields → Fields

-- `map.get(key)` of an object's fields.
abbrev pub get_field : String → Fields → Option Value
get_field key Fields.end_fields = none
get_field key (Fields.field name value rest) =
    if str_eq name key then some value else get_field key rest

-- `value.get(key)`, which is `None` unless the value is an object.
abbrev pub get : String → Value → Option Value
get key (Value.object fields) = get_field key fields
get key _ = none

-- `Value::as_str`.
abbrev pub as_str : Value → Option String
as_str (Value.string text) = some text
as_str _ = none

-- `value.get(key).and_then(Value::as_str)`.
abbrev pub get_str : String → Value → Option String
get_str key value = elim (get key value) [ none ↦ none | some inner ↦ as_str inner ]
