-- ===== src/Errors/Answers.antt =====
-- About the answers of the Pyre server (client/commands/v2/incremental.py and persistent.py).
use pyre_check.Errors.{
  Error, error_from_json, errors_of, is_tag, as_invalid_response, Read,
  parse_type_error_response_json,
}
use pyre_check.Base.{
  List, refl, ◌≡◌, true, arith, ap, ok, err, inl, inr, ◌↔◌, eq_iff, map_ok, Bool-cases, subst,
}
use pyre_check.Json.{Json, Items, string, array, elements, cons}

is_tag_iff : (tag : Json) → (is_tag tag ≡ true) ↔ (tag ≡ string "TypeErrors")
unfolding is_tag
is_tag_iff (string s) = ground (arith, eq_iff s "TypeErrors")
is_tag_iff _ = ground arith

read_errors :
    (r : Read (List Error)) (errors : List Error)
    → (as_invalid_response r ≡ ok errors) ↔ (r ≡ ok errors)
unfolding as_invalid_response
read_errors (ok a) errors = (λ h. cc, λ h. cc)
read_errors (err e) errors = (λ h. cc, λ h. cc)

-- A list of the errors that a JSON list holds.
abbrev pub HoldsErrors : Json → List Error → Type 0
HoldsErrors json errors =
    (items : Items) × (json ≡ array items) × (map_ok error_from_json (elements items) ≡ ok errors)

errors_of_iff :
    (json : Json) (errors : List Error) → (errors_of json ≡ ok errors) ↔ HoldsErrors json errors
unfolding errors_of
errors_of_iff (array items) errors =
    let inner = read_errors (map_ok error_from_json (elements items)) errors in
    (
      λ h. (items, refl, inner.0 h),
      λ h.
          let (others, e, read) = h in
          let same : others ≡ items = cc (e) in inner.1 (rw same at read),
    )
errors_of_iff _ errors = (λ h. cc, λ h. let (items, e, read) = h in cc)

-- An answer of the server is accepted with some errors exactly when it is a list of at least two
-- values, of which the first is "TypeErrors" and the second a list whose values are all read as
-- errors, which are those.
pub parse_type_error_response_json_iff :
    (json : Json) (errors : List Error)
    → (parse_type_error_response_json json ≡ ok errors) ↔ (
        (errors_json : Json) × (rest : Items) × (json
          ≡ array (cons (string "TypeErrors") (cons errors_json rest)))
        × HoldsErrors errors_json errors)
unfolding parse_type_error_response_json
parse_type_error_response_json_iff (array (cons tag (cons errors_json rest))) errors =
    elim (Bool-cases (is_tag tag)) [
      | inl e ↦
          let tagged = (is_tag_iff tag).0 e in
          rw e (
            λ h. (
              errors_json,
              rest,
              ap (λ t. array (cons t (cons errors_json rest))) tagged,
              (errors_of_iff errors_json errors).0 h,
            ),
            λ h.
                let (others, more, same, holds) = h in
                let is_json : others ≡ errors_json = cc (same) in
                (errors_of_iff errors_json errors).1
                  (subst (λ j. HoldsErrors j errors) is_json holds),
          )
      | inr e ↦ rw e (
        λ h. cc,
        λ h.
            let (others, more, same, holds) = h in
            let tagged : tag ≡ string "TypeErrors" = cc (same) in cc (e, (is_tag_iff tag).1 tagged),
      )
    ]
parse_type_error_response_json_iff _ errors = (λ h. cc, λ h. let (j, rest, e, holds) = h in cc)
