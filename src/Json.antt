-- ===== src/Json.antt =====
-- The JSON values that the program exchanges with serde_json: the constructors that it matches on,
-- and the accessors that it calls. An object is the list of its members; serde_json keeps them
-- sorted by key and never twice under one key.
use netwhy.Prelude.{ℕ, Bool, String, Option, none, some, List, [], ◌∷◌, str_eq, if◌then◌else◌}

-- A number: an unsigned integer, or any other number, known by an index.
pub data Number : Type 0 where
  unsigned other : ℕ → Number

mutual
  pub data Value : Type 0 where
    null : Value
    bool : Bool → Value
    number : Number → Value
    string : String → Value
    array : Items → Value
    object : Members → Value

  pub data Items : Type 0 where
    nil : Items
    item : Value → Items → Items

  pub data Members : Type 0 where
    end : Members
    member : String → Value → Members → Members

abbrev pub items : Items → List Value
items nil = []
items (item v vs) = v ∷ items vs

-- `Map::keys`
abbrev pub keys : Members → List String
keys end = []
keys (member k v ms) = k ∷ keys ms

-- `Map::get`
unfoldable pub get : String → Members → Option Value
get key end = none
get key (member k v ms) = if str_eq key k then some v else get key ms

-- `Value::get` of a field
unfoldable pub field : String → Value → Option Value
unfolding get
field key (object ms) = get key ms
field key _ = none

-- `Value::as_str`
abbrev pub as_str : Value → Option String
as_str (string s) = some s
as_str _ = none

-- `Value::as_u64`
abbrev pub as_u64 : Value → Option ℕ
as_u64 (number (unsigned n)) = some n
as_u64 _ = none

-- `Value::as_object`
abbrev pub as_object : Value → Option Members
as_object (object ms) = some ms
as_object _ = none

-- `Value::as_array`
abbrev pub as_array : Value → Option Items
as_array (array vs) = some vs
as_array _ = none
