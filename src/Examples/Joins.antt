-- ===== src/Examples/Joins.antt =====
-- Function stubs of one name on concrete inputs.
use pyre_check.Stubs.{Stub, field_stub, function_stub, join_stubs, join_all}
use pyre_check.Stubs.Joins.{has_key}
use pyre_check.Stubs.Annotations.{annotation_of, first_text, join_all_annotation}
use pyre_check.Stubs.Printed.{to_string}
use pyre_check.Base.{map_ok, [], ◌∷◌, some, none, ok, ◌≡◌, refl, map, false, true}

abbrev without_return : Stub
without_return = record {
  path = "a.py";
  parent = none;
  stub = function_stub record {
    name = "a.f";
    actual = none;
    parameters = record { name = "x"; type = some "int"; value = none } ∷ [];
    decorators = [];
    is_async = false;
  };
}

abbrev without_parameter : Stub
without_parameter = record {
  path = "a.py";
  parent = none;
  stub = function_stub record {
    name = "a.f";
    actual = some "str";
    parameters = record { name = "x"; type = none; value = none } ∷ [];
    decorators = [];
    is_async = false;
  };
}

abbrev field : Stub
field = record {
  path = "a.py";
  parent = none;
  stub = field_stub record { name = "a.y"; actual = "int" };
}

abbrev complete : Stub
complete = record {
  path = "a.py";
  parent = none;
  stub = function_stub record {
    name = "a.f";
    actual = some "str";
    parameters = record { name = "x"; type = some "int"; value = none } ∷ [];
    decorators = [];
    is_async = false;
  };
}

join_test :
    join_stubs (without_return ∷ field ∷ without_parameter ∷ []) ≡ ok (field ∷ complete ∷ [])
unfolding join_stubs map_ok
join_test = refl

printed_test : to_string (λ annotation. annotation) complete ≡ "def f(x: int) -> str: ..."
unfolding to_string
printed_test = refl

own_key_test : has_key (none, "a.f") without_return ≡ true
unfolding has_key
own_key_test = refl

other_key_test : has_key (none, "a.f") without_parameter ≡ true
unfolding has_key
other_key_test = refl

join_all_annotation_example :
    (j : Stub) × (join_all without_return (without_parameter ∷ []) ≡ ok j)
    × (annotation_of j
        ≡ first_text (annotation_of without_return) (map annotation_of (without_parameter ∷ [])))
join_all_annotation_example =
    join_all_annotation (none, "a.f") without_return (without_parameter ∷ []) own_key_test
      (other_key_test, tt)
