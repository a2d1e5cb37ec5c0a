-- ===== src/Json.antt =====
-- Python's JSON values as `json.loads` returns them: a dict keeps the order in which its keys were
-- first written. `float` carries the literal, which no code here inspects.
use pyre_check.Base.{
  String, ◌≡◌, Bool, true, false, List, [], ◌∷◌, arith, ◌==◌, eq_iff, if◌then◌else◌, ℤ, Option,
  some, none,
}

mutual
  pub data Json : Type 0 where
    null : Json
    bool : Bool → Json
    int : ℤ → Json
    float : String → Json
    string : String → Json
    array : Items → Json
    dict : Fields → Json

  pub data Items : Type 0 where
    nil : Items
    cons : Json → Items → Items

  pub data Fields : Type 0 where
    end : Fields
    field : String → Json → Fields → Fields

-- What passes `isinstance(value, int)`: a Boolean does too.
pub data PythonInt : Type 0 where
  number : ℤ → PythonInt
  truth : Bool → PythonInt

-- `json.get(name)`: a missing key reads as `None`, which is what a JSON null is too.
unfoldable pub get : String → Fields → Json
get name end = null
get name (field key value rest) = if key == name then value else get name rest

-- `name in json`
unfoldable pub contains : String → Fields → Bool
contains name end = false
contains name (field key value rest) = if key == name then true else contains name rest

-- `json.pop(name, None)` leaves the other keys.
unfoldable pub remove : String → Fields → Fields
remove name end = end
remove name (field key value rest) =
    let others = remove name rest in if key == name then others else field key value others

unfoldable pub keys : Fields → List String
keys end = []
keys (field key value rest) = key ∷ keys rest

unfoldable pub elements : Items → List Json
elements nil = []
elements (cons x xs) = x ∷ elements xs

-- Removing one key leaves what is read at every other key.
pub get-remove :
    (name other : String) (json : Fields)
    → get other (remove name json) ≡ (if name == other then null else get other json)
unfolding get remove
get-remove name other end = ground arith
get-remove name other (field key value rest) =
    ground (arith, get-remove name other rest, eq_iff key name, eq_iff key other, eq_iff name other)

pub contains-remove :
    (name other : String) (json : Fields)
    → contains other (remove name json) ≡ (if name == other then false else contains other json)
unfolding contains remove
contains-remove name other end = ground arith
contains-remove name other (field key value rest) =
    ground
      (arith, contains-remove name other rest, eq_iff key name, eq_iff key other, eq_iff name other)

-- `isinstance(value, bool)`, `isinstance(value, int)` and `isinstance(value, str)`, with the value.
abbrev pub as_bool? : Json → Option Bool
as_bool? (bool b) = some b
as_bool? _ = none

abbrev pub as_int? : Json → Option PythonInt
as_int? (int n) = some (number n)
as_int? (bool b) = some (truth b)
as_int? _ = none

abbrev pub as_string? : Json → Option String
as_string? (string s) = some s
as_string? _ = none

abbrev pub as_array? : Json → Option Items
as_array? (array xs) = some xs
as_array? _ = none
