-- ===== src/Json.antt =====
-- `serde_json::Value`, as the program reads it: its constructors, `Value::get` by key and by index,
-- and the `as_…` accessors. Parsing and printing of JSON text are parameters where they are used.
use scout_audit.Base.{
  ℕ, zero, suc, String, Bool, Option, none, some, List, [], ◌∷◌, ◌==◌, if◌then◌else◌,
}

-- A float is kept as the text that prints it: the program never computes with one.
pub data Number : Type 0 where
  pos_int neg_int : ℕ → Number
  float : String → Number

mutual
  pub data Value : Type 0 where
    null : Value
    bool : Bool → Value
    number : Number → Value
    string : String → Value
    array : Items → Value
    object : Fields → Value

  pub data Items : Type 0 where
    nil : Items
    cons : Value → Items → Items

  pub data Fields : Type 0 where
    end : Fields
    field : String → Value → Fields → Fields

abbrev pub field? : Fields → String → Option Value
field? end k = none
field? (field j v fs) k = if j == k then some v else field? fs k

abbrev pub item? : Items → ℕ → Option Value
item? nil i = none
item? (cons v vs) zero = some v
item? (cons v vs) (suc i) = item? vs i

-- `v.get("key")`
abbrev pub get : Value → String → Option Value
get (object fs) k = field? fs k
get _ k = none

-- `v.get(i)`
abbrev pub at : Value → ℕ → Option Value
at (array vs) i = item? vs i
at _ i = none

abbrev pub as_str : Value → Option String
as_str (string s) = some s
as_str _ = none

abbrev pub as_u64 : Value → Option ℕ
as_u64 (number (pos_int n)) = some n
as_u64 _ = none

abbrev pub items : Items → List Value
items nil = []
items (cons v vs) = v ∷ items vs

abbrev pub from_items : List Value → Items
from_items [] = nil
from_items (v ∷ vs) = cons v (from_items vs)

-- The two functions of the `serde_json` crate on JSON text.
pub record Serde : Type 0 where
  pub to_string : Value → String
  pub from_str : String → Option Value
