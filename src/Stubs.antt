-- ===== src/Stubs.antt =====
-- The stubs that `pyre infer` makes of the annotations that it inferred (client/commands/infer.py).
-- `dequalify` stands for dequalify_and_fix_pathlike, which libcst does a part of.
pub mod Joins
pub mod Groups
pub mod Joined
pub mod Filled
pub mod Annotations
pub mod Files
pub mod Printed
use Prim.Native.String
use pyre_check.Base.{
  List, [], ◌∷◌, ◌++◌, Option, some, none, Result, ok, err, ◌>>=◌, Bool, true, false, not, ◌&&◌,
  ◌||◌, String, ◌==◌, if◌then◌else◌, all, keep, map_ok,
}

pub record Parameter : Type 0 where
  pub name : String
  pub type : Option String
  pub value : Option String

pub record FunctionStub : Type 0 where
  pub name : String
  pub actual : Option String
  pub parameters : List Parameter
  pub decorators : List String
  pub is_async : Bool

pub record FieldStub : Type 0 where
  pub name : String
  pub actual : String

pub data AnyStub : Type 0 where
  field_stub : FieldStub → AnyStub
  function_stub : FunctionStub → AnyStub

-- A stub of an inference that has one, with the class that it is in.
pub record Stub : Type 0 where
  pub path : String
  pub parent : Option String
  pub stub : AnyStub

-- "Tried to join incompatible stubs", AttributeError and IndexError.
pub data StubError : Type 0 where
  incompatible attribute_error index_error : StubError

-- A text that is there and not empty.
unfoldable pub has_text : Option String → Bool
has_text none = false
has_text (some text) = not (text == "")

unfoldable pub is_field : Stub → Bool
is_field s = elim s.stub [ field_stub f ↦ true | function_stub f ↦ false ]

unfoldable pub is_function : Stub → Bool
unfolding is_field has_text
is_function s = not (is_field s) && not (has_text s.parent)

unfoldable pub is_method : Stub → Bool
unfolding is_field has_text
is_method s = not (is_field s) && has_text s.parent

-- FunctionStub.is_complete
unfoldable pub is_complete_function : FunctionStub → Bool
unfolding has_text
is_complete_function f =
    has_text f.actual && all (λ (p : Parameter). p.name == "self" || has_text p.type) f.parameters

unfoldable pub is_complete : Stub → Bool
unfolding is_complete_function
is_complete s = elim s.stub [ field_stub f ↦ true | function_stub f ↦ is_complete_function f ]

-- What stands unless it is empty and the other is not.
unfoldable pub text_or : Option String → Option String → Option String
unfolding has_text
text_or text other = if not (has_text text) && has_text other then other else text

unfoldable pub join_parameters : List Parameter → List Parameter → List Parameter
unfolding text_or
join_parameters (p ∷ parameters) (other ∷ others) =
    record p { type = text_or p.type other.type } ∷ join_parameters parameters others
join_parameters parameters others = parameters

unfoldable pub joined_function : FunctionStub → FunctionStub → FunctionStub
unfolding text_or join_parameters
joined_function f other = record f {
  actual = text_or f.actual other.actual;
  parameters = join_parameters f.parameters other.parameters;
}

-- FunctionStub.join_with: a function stub has no attribute `parent`, which is read when the names differ.
unfoldable pub join_functions : FunctionStub → FunctionStub → Result StubError FunctionStub
unfolding joined_function
join_functions f other =
    if f.name == other.name then ok (joined_function f other) else err attribute_error

unfoldable pub join_with : Stub → Stub → Result StubError Stub
unfolding join_functions
join_with s other = elim s.stub [
  | field_stub f ↦ err incompatible
  | function_stub f ↦ elim other.stub [
    | field_stub g ↦ err incompatible
    | function_stub g ↦
        join_functions f g >>= λ joined. ok (record s { stub = function_stub joined })
  ]
]

unfoldable pub stub_name : Stub → String
stub_name s = elim s.stub [ field_stub f ↦ f.name | function_stub f ↦ f.name ]

abbrev pub Key : Type 0
Key = Option String × String

unfoldable pub key_of : Stub → Key
unfolding stub_name
key_of s = (s.parent, stub_name s)

unfoldable pub same_key : Key → Key → Bool
same_key (none, name) (none, other) = name == other
same_key (some parent, name) (some above, other) = (parent == above) && (name == other)
same_key _ _ = false

-- `stub_map[key].append(stub)`
unfoldable pub append_stub : Key → Stub → List (Key × List Stub) → List (Key × List Stub)
unfolding same_key
append_stub key stub [] = (key, stub ∷ []) ∷ []
append_stub key stub (group ∷ groups) =
    let later = append_stub key stub groups in
    if same_key group.0 key then (group.0, group.1 ++ (stub ∷ [])) ∷ groups else group ∷ later

unfoldable pub group_stubs : List Stub → List (Key × List Stub) → List (Key × List Stub)
unfolding append_stub is_field key_of
group_stubs [] groups = groups
group_stubs (stub ∷ stubs) groups =
    group_stubs stubs (if is_field stub then groups else append_stub (key_of stub) stub groups)

unfoldable pub join_all : Stub → List Stub → Result StubError Stub
unfolding join_with
join_all stub [] = ok stub
join_all stub (other ∷ others) = join_with stub other >>= λ joined. join_all joined others

unfoldable pub join_group : List Stub → Result StubError Stub
unfolding join_all
join_group [] = err index_error
join_group (stub ∷ stubs) = join_all stub stubs

unfoldable pub join_stubs : List Stub → Result StubError (List Stub)
unfolding group_stubs join_group is_field
join_stubs stubs =
    map_ok (λ (group : Key × List Stub). join_group group.1) (group_stubs stubs []) >>= λ joined.
    ok (keep is_field stubs ++ joined)
