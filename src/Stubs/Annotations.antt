-- ===== src/Stubs/Annotations.antt =====
-- The return annotation of function stubs that are joined.
use pyre_check.Stubs.{
  Stub, AnyStub, field_stub, function_stub, Key, is_field, join_all, joined_function, text_or,
  has_text,
}
use pyre_check.Stubs.Joins.{has_key, merged, merged_all, join_all-merged_all, has_key-merged}
use pyre_check.Base.{
  List, [], ◌∷◌, Option, none, ok, true, String, if◌then◌else◌, map, ◌≡◌, refl, ◌∙◌, ap, Bool-cases,
  inl, inr, All,
}

-- The return annotation of a stub; that of a field is none.
unfoldable pub annotation_of : Stub → Option String
annotation_of s = elim s.stub [ field_stub f ↦ none | function_stub f ↦ f.actual ]

-- The first annotation that is there and not empty, or else the one in front.
unfoldable pub first_text : Option String → List (Option String) → Option String
unfolding has_text
first_text text [] = text
first_text text (other ∷ others) =
    let later = first_text text others in
    if has_text text then text else if has_text other then other else later

first_text-has_text :
    (text : Option String) (others : List (Option String))
    → has_text text ≡ true
    → first_text text others ≡ text
unfolding first_text
first_text-has_text text [] h = refl
first_text-has_text text (other ∷ others) h = rw h refl

pub first_text-text_or :
    (text other : Option String) (others : List (Option String))
    → first_text (text_or text other) others ≡ first_text text (other ∷ others)
unfolding first_text text_or
first_text-text_or text other others = elim (Bool-cases (has_text text)) [
  | inl h ↦ rw h (first_text-has_text text others h)
  | inr h ↦ elim (Bool-cases (has_text other)) [
    | inl k ↦ rw h (rw k (first_text-has_text other others k))
    | inr k ↦ rw h (rw k refl)
  ]
]

annotation_of-parts :
    (key : Key) (s other : Stub) (a b : AnyStub)
    → has_key key (record s { stub = a }) ≡ true
    → has_key key (record other { stub = b }) ≡ true
    → annotation_of (merged (record s { stub = a }) (record other { stub = b }))
      ≡ text_or (annotation_of (record s { stub = a })) (annotation_of (record other { stub = b }))
unfolding has_key is_field annotation_of merged joined_function
annotation_of-parts key s other (field_stub f) b h k = cc (h)
annotation_of-parts key s other (function_stub f) (field_stub g) h k = cc (k)
annotation_of-parts key s other (function_stub f) (function_stub g) h k = refl

pub annotation_of-merged_all :
    (key : Key) (s : Stub) (others : List Stub)
    → has_key key s ≡ true
    → All (λ t. has_key key t ≡ true) others
    → annotation_of (merged_all s others) ≡ first_text (annotation_of s) (map annotation_of others)
unfolding merged_all first_text
annotation_of-merged_all key s [] h k = refl
annotation_of-merged_all key s (other ∷ others) h (here, later) =
    annotation_of-merged_all key (merged s other) others (has_key-merged key s other ∙ h) later
    ∙ ap (λ a. first_text a (map annotation_of others))
        (annotation_of-parts key s other s.stub other.stub h here)
    ∙ first_text-text_or (annotation_of s) (annotation_of other) (map annotation_of others)

-- Function stubs of one class and name are joined without an error, and the stub that they are joined
-- to has the first of their return annotations that is there and not empty, in their order, or what
-- the first stub has where there is none.
pub join_all_annotation :
    (key : Key) (s : Stub) (others : List Stub)
    → has_key key s ≡ true
    → All (λ t. has_key key t ≡ true) others
    → (joined : Stub) × (join_all s others ≡ ok joined)
      × (annotation_of joined ≡ first_text (annotation_of s) (map annotation_of others))
join_all_annotation key s others h k = (
  merged_all s others,
  join_all-merged_all key s others h k,
  annotation_of-merged_all key s others h k,
)
