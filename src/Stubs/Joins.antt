-- ===== src/Stubs/Joins.antt =====
-- The joining of function stubs of one class and name.
use pyre_check.Stubs.{
  Stub, AnyStub, field_stub, function_stub, FunctionStub, Key, key_of, stub_name, same_key,
  is_field, join_functions, join_with, joined_function, join_all,
}
use pyre_check.Base.{
  List, [], ◌∷◌, Option, some, none, ok, ◌>>=◌, Bool, true, not, ◌&&◌, String, ◌≡◌, refl, ◌∙◌, ap,
  ap₂, sym, arith, eq_iff, All, ◌↔◌,
}

-- A function stub of the class and name.
unfoldable pub has_key : Key → Stub → Bool
unfolding is_field same_key key_of
has_key key s = not (is_field s) && same_key (key_of s) key

pub same_key_iff : (key other : Key) → (same_key key other ≡ true) ↔ (key ≡ other)
unfolding same_key
same_key_iff (none, name) (none, other) = (
  λ h. ap (λ n. (none, n)) ((eq_iff name other).0 h),
  λ h. (eq_iff name other).1 (ap (λ (k : Key). k.1) h),
)
same_key_iff (some parent, name) (some above, other) = (
  λ h.
      ap₂ (λ p n. (some p, n)) ((eq_iff parent above).0 (ground arith))
        ((eq_iff name other).0 (ground arith)),
  λ h.
      let parents : some parent ≡ some above = ap (λ (k : Key). k.0) h in
      let names : name ≡ other = ap (λ (k : Key). k.1) h in
      let first = (eq_iff parent above).1 (cc (parents)) in
      let second = (eq_iff name other).1 names in rw first second,
)
same_key_iff (some parent, name) (none, other) =
    (λ h. cc (h), λ h. let parents : some parent ≡ none = ap (λ (k : Key). k.0) h in cc (parents))
same_key_iff (none, name) (some above, other) =
    (λ h. cc (h), λ h. let parents : none ≡ some above = ap (λ (k : Key). k.0) h in cc (parents))

-- The first stub with the annotations of the second where it has none.
unfoldable pub merged : Stub → Stub → Stub
unfolding joined_function
merged s other = elim s.stub [
  | field_stub f ↦ s
  | function_stub f ↦ elim other.stub [
    | field_stub g ↦ s
    | function_stub g ↦ record s { stub = function_stub (joined_function f g) }
  ]
]

unfoldable pub merged_all : Stub → List Stub → Stub
unfolding merged
merged_all s [] = s
merged_all s (other ∷ others) = merged_all (merged s other) others

abbrev function_of : String → Option String → FunctionStub → Stub
function_of path parent f = record { path = path; parent = parent; stub = function_stub f }

join_with-function_of :
    (path above : String) (parent other_parent : Option String) (f g : FunctionStub)
    → f.name ≡ g.name
    → join_with (function_of path parent f) (function_of above other_parent g)
      ≡ ok (merged (function_of path parent f) (function_of above other_parent g))
unfolding join_with join_functions merged
join_with-function_of path above parent other_parent f g same =
    rw ((eq_iff f.name g.name).1 same) refl

same_names :
    (key : Key) (path above : String) (parent other_parent : Option String) (f g : FunctionStub)
    → has_key key (function_of path parent f) ≡ true
    → has_key key (function_of above other_parent g) ≡ true
    → f.name ≡ g.name
unfolding has_key is_field key_of stub_name
same_names key path above parent other_parent f g h k =
    ap (λ (k : Key). k.1)
      ((same_key_iff (parent, f.name) key).0 h
        ∙ sym ((same_key_iff (other_parent, g.name) key).0 k))

join_with-parts :
    (key : Key) (s other : Stub) (a b : AnyStub)
    → has_key key (record s { stub = a }) ≡ true
    → has_key key (record other { stub = b }) ≡ true
    → join_with (record s { stub = a }) (record other { stub = b })
      ≡ ok (merged (record s { stub = a }) (record other { stub = b }))
unfolding has_key is_field
join_with-parts key s other (field_stub f) b h k = cc (h)
join_with-parts key s other (function_stub f) (field_stub g) h k = cc (k)
join_with-parts key s other (function_stub f) (function_stub g) h k =
    join_with-function_of s.path other.path s.parent other.parent f g
      (same_names key s.path other.path s.parent other.parent f g h k)

join_with-merged :
    (key : Key) (s other : Stub)
    → has_key key s ≡ true
    → has_key key other ≡ true
    → join_with s other ≡ ok (merged s other)
join_with-merged key s other h k = join_with-parts key s other s.stub other.stub h k

has_key-parts :
    (key : Key) (s other : Stub) (a b : AnyStub)
    → has_key key (merged (record s { stub = a }) (record other { stub = b }))
      ≡ has_key key (record s { stub = a })
unfolding has_key merged is_field key_of stub_name joined_function
has_key-parts key s other (field_stub f) b = refl
has_key-parts key s other (function_stub f) (field_stub g) = refl
has_key-parts key s other (function_stub f) (function_stub g) = refl

pub has_key-merged : (key : Key) (s other : Stub) → has_key key (merged s other) ≡ has_key key s
has_key-merged key s other = has_key-parts key s other s.stub other.stub

pub join_all-merged_all :
    (key : Key) (s : Stub) (others : List Stub)
    → has_key key s ≡ true
    → All (λ t. has_key key t ≡ true) others
    → join_all s others ≡ ok (merged_all s others)
unfolding join_all merged_all
join_all-merged_all key s [] h k = refl
join_all-merged_all key s (other ∷ others) h (here, later) =
    ap (λ r. r >>= λ joined. join_all joined others) (join_with-merged key s other h here)
    ∙ join_all-merged_all key (merged s other) others (has_key-merged key s other ∙ h) later

pub has_key-merged_all :
    (key : Key) (s : Stub) (others : List Stub) → has_key key (merged_all s others) ≡ has_key key s
unfolding merged_all
has_key-merged_all key s [] = refl
has_key-merged_all key s (other ∷ others) =
    has_key-merged_all key (merged s other) others ∙ has_key-merged key s other
