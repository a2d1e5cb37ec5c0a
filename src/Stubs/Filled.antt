-- ===== src/Stubs/Filled.antt =====
-- What the stub has that function stubs of one class and name are joined to: the first stub, but for
-- the annotations that it lacks (client/commands/infer.py).
use pyre_check.Stubs.{
  Stub, AnyStub, field_stub, function_stub, Key, is_field, joined_function, join_parameters,
  text_or, has_text, Parameter,
}
use pyre_check.Stubs.Joins.{has_key, merged, merged_all, has_key-merged}
use pyre_check.Stubs.Annotations.{
  annotation_of, first_text, first_text-text_or, annotation_of-merged_all,
}
use pyre_check.Base.{
  [], ◌∷◌, List, refl, ◌≡◌, none, Option, true, arith, String, ap, inl, inr, All, length, map, ℕ,
  suc, ◌<◌, ◌∙◌, zero, Bool-cases, sym,
}

-- A stub without its annotations.
unfoldable pub unannotated : Stub → Stub
unannotated s = elim s.stub [
  | field_stub f ↦ s
  | function_stub f ↦ record s {
    stub = function_stub (record f {
      actual = none;
      parameters = map (λ (p : Parameter). record p { type = none }) f.parameters;
    });
  }
]

unfoldable pub parameters_of : Stub → List Parameter
parameters_of s = elim s.stub [ field_stub f ↦ [] | function_stub f ↦ f.parameters ]

-- The annotation of the parameter at a place; that of a place with no parameter is none.
unfoldable pub type_at : ℕ → List Parameter → Option String
type_at i [] = none
type_at zero (p ∷ parameters) = p.type
type_at (suc i) (p ∷ parameters) = type_at i parameters

-- `joined` is the first stub but for its annotations, each of which is the first that is there and not
-- empty, in the order of the stubs, at the same place.
pub record IsJoined (s : Stub) (others : List Stub) (joined : Stub) : Type 0 where
  pub same : unannotated joined ≡ unannotated s
  pub returned : annotation_of joined ≡ first_text (annotation_of s) (map annotation_of others)
  pub types :
      (i : ℕ)
      → i < length (parameters_of s)
      → type_at i (parameters_of joined)
        ≡ first_text (type_at i (parameters_of s)) (map (λ t. type_at i (parameters_of t)) others)

unannotated-join_parameters :
    (parameters others : List Parameter)
    → map (λ (p : Parameter). record p { type = none }) (join_parameters parameters others)
      ≡ map (λ (p : Parameter). record p { type = none }) parameters
unfolding join_parameters
unannotated-join_parameters [] others = refl
unannotated-join_parameters (p ∷ parameters) [] = refl
unannotated-join_parameters (p ∷ parameters) (other ∷ others) =
    ap (◌∷◌ (record p { type = none })) (unannotated-join_parameters parameters others)

text_or-none : (text : Option String) → text_or text none ≡ text
unfolding text_or
text_or-none text = elim (Bool-cases (has_text text)) [ inl h ↦ rw h refl | inr h ↦ rw h refl ]

type_at-join_parameters :
    (i : ℕ) (parameters others : List Parameter)
    → i < length parameters
    → type_at i (join_parameters parameters others)
      ≡ text_or (type_at i parameters) (type_at i others)
unfolding join_parameters type_at text_or has_text
type_at-join_parameters i [] others h = elim h [ ]
type_at-join_parameters zero (p ∷ parameters) [] h = sym (text_or-none p.type)
type_at-join_parameters (suc i) (p ∷ parameters) [] h = sym (text_or-none (type_at i parameters))
type_at-join_parameters zero (p ∷ parameters) (other ∷ others) h = refl
type_at-join_parameters (suc i) (p ∷ parameters) (other ∷ others) h =
    type_at-join_parameters i parameters others (omega arith)

length-join_parameters :
    (parameters others : List Parameter)
    → length (join_parameters parameters others) ≡ length parameters
unfolding join_parameters
length-join_parameters [] others = refl
length-join_parameters (p ∷ parameters) [] = refl
length-join_parameters (p ∷ parameters) (other ∷ others) =
    ap suc (length-join_parameters parameters others)

-- One more stub.
record Fills (s other m : Stub) : Type 0 where
  same : unannotated m ≡ unannotated s
  count : length (parameters_of m) ≡ length (parameters_of s)
  types :
      (i : ℕ)
      → i < length (parameters_of s)
      → type_at i (parameters_of m)
        ≡ text_or (type_at i (parameters_of s)) (type_at i (parameters_of other))

merged-parts :
    (key : Key) (s other : Stub) (a b : AnyStub)
    → has_key key (record s { stub = a }) ≡ true
    → has_key key (record other { stub = b }) ≡ true
    → Fills
        (record s { stub = a })
        (record other { stub = b })
        (merged (record s { stub = a }) (record other { stub = b }))
unfolding has_key is_field merged joined_function unannotated parameters_of
merged-parts key s other (field_stub f) b h k = cc (h)
merged-parts key s other (function_stub f) (field_stub g) h k = cc (k)
merged-parts key s other (function_stub f) (function_stub g) h k = record {
  same =
      ap
        (λ parameters. record s {
          stub = function_stub (record f { actual = none; parameters = parameters });
        })
        (unannotated-join_parameters f.parameters g.parameters);
  count = length-join_parameters f.parameters g.parameters;
  types = λ i. type_at-join_parameters i f.parameters g.parameters;
}

pub merged_all-IsJoined :
    (key : Key) (s : Stub) (others : List Stub)
    → has_key key s ≡ true
    → All (λ t. has_key key t ≡ true) others
    → IsJoined s others (merged_all s others)
unfolding merged_all first_text
merged_all-IsJoined key s [] h k = record { same = refl; returned = refl; types = λ i below. refl }
merged_all-IsJoined key s (other ∷ others) h (here, later) =
    let m = merged s other in
    let rest = merged_all-IsJoined key m others (has_key-merged key s other ∙ h) later in
    let fills = merged-parts key s other s.stub other.stub h here in
    record {
      same = rest.same ∙ fills.same;
      returned = annotation_of-merged_all key s (other ∷ others) h (here, later);
      types = λ i below.
          rest.types i (omega (arith, fills.count, below))
          ∙ ap (λ a. first_text a (map (λ t. type_at i (parameters_of t)) others))
              (fills.types i below)
          ∙ first_text-text_or (type_at i (parameters_of s)) (type_at i (parameters_of other))
              (map (λ t. type_at i (parameters_of t)) others);
    }
