-- ===== src/Stubs/Printed.antt =====
-- The text of a stub. `dequalify` stands for dequalify_and_fix_pathlike.
use Prim.Native.String
use Prim.Native.Char.{code}
use pyre_check.PathLib.{prepend}
use pyre_check.SourceDatabase.{last_name}
use pyre_check.Query.Defines.{join_names}
use pyre_check.Stubs.{Parameter, FunctionStub, FieldStub, field_stub, function_stub, Stub, has_text}
use pyre_check.Base.{List, [], ◌∷◌, Option, some, none, String, eqb, if◌then◌else◌, map}

-- `name.split(".")`
unfoldable pub split_dots : String → List String
unfolding prepend
split_dots String.[] = String.[] ∷ []
split_dots (String.◌∷◌ c s) =
    let rest = split_dots s in if eqb (code c) b'.' then String.[] ∷ rest else prepend c rest

-- `_get_name`
unfoldable pub get_name : String → String
unfolding split_dots last_name
get_name name = last_name (split_dots name)

-- A text that may be None, where it is known to be one.
text_of : Option String → String
text_of none = ""
text_of (some text) = text

unfoldable pub get_decorator_string : List String → String
get_decorator_string [] = ""
get_decorator_string (decorator ∷ decorators) =
    String.◌++◌ "@" (String.◌++◌ decorator (String.◌++◌ "\n" (get_decorator_string decorators)))

module _ (dequalify : String → String) where
  unfoldable pub get_annotation : Option String → String
  unfolding has_text text_of
  get_annotation actual =
      if has_text actual then String.◌++◌ " -> " (dequalify (text_of actual)) else ""

  unfoldable pub parameter_string : Parameter → String
  unfolding has_text text_of
  parameter_string p =
      let value = if has_text p.value then String.◌++◌ " = " (text_of p.value) else "" in
      let typed =
        String.◌++◌ p.name (String.◌++◌ ": " (String.◌++◌ (dequalify (text_of p.type)) value)) in
      if has_text p.type
      then typed
      else if has_text p.value
      then String.◌++◌ p.name (String.◌++◌ "=" (text_of p.value))
      else p.name

  unfoldable pub get_parameter_string : List Parameter → String
  unfolding parameter_string join_names
  get_parameter_string parameters = join_names ", " (map parameter_string parameters)

  unfoldable pub function_to_string : FunctionStub → String
  unfolding get_decorator_string get_name get_parameter_string get_annotation
  function_to_string f = String.◌++◌ (get_decorator_string f.decorators) (
      String.◌++◌ (if f.is_async then "async " else "") (
        String.◌++◌ "def " (
          String.◌++◌ (get_name f.name) (
            String.◌++◌ "(" (
              String.◌++◌ (get_parameter_string f.parameters)
                (String.◌++◌ ")" (String.◌++◌ (get_annotation f.actual) ": ...")))))))

  unfoldable pub field_to_string : FieldStub → String
  unfolding get_name
  field_to_string f =
      String.◌++◌ (get_name f.name) (String.◌++◌ ": " (String.◌++◌ (dequalify f.actual) " = ..."))

  unfoldable pub to_string : Stub → String
  unfolding function_to_string field_to_string
  to_string s = elim s.stub [
    | field_stub f ↦ field_to_string f
    | function_stub f ↦ function_to_string f
  ]
