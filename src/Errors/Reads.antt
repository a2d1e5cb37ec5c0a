-- ===== src/Errors/Reads.antt =====
-- About the JSON of errors (client/error.py).
use pyre_check.Errors.{
  Error, error_from_json, error_to_json, error_of_fields, model_error_of_fields, to_path, item,
  model_error_to_json, item_or, ModelVerificationError, model_error_from_json,
}
use pyre_check.Base.{◌≡◌, ok, subst, >>=-eq-ok}
use pyre_check.Json.{Fields, Json, get, contains, string, dict}
use pyre_check.PathLib.{PurePath, path, path_text}
use pyre_check.PathLib.RoundTrip.{path-path_text-path}

error_of_fields-error_to_json :
    (e : Error) → path (path_text e.file) ≡ e.file → error_of_fields (error_to_json e) ≡ ok e
unfolding error_of_fields error_to_json item item_or to_path get contains
error_of_fields-error_to_json e h = rw h

model_error_of_fields-model_error_to_json :
    (e : ModelVerificationError)
    → path (path_text e.file) ≡ e.file
    → model_error_of_fields (model_error_to_json e) ≡ ok e
unfolding model_error_of_fields model_error_to_json item to_path get contains
model_error_of_fields-model_error_to_json e h = rw h

-- The path of a value that was read is a path that is read back from its text.
to_path-rereads : (json : Json) (p : PurePath) → to_path json ≡ ok p → path (path_text p) ≡ p
unfolding to_path
to_path-rereads (string s) p h =
    let same : path s ≡ p = cc in subst (λ q. path (path_text q) ≡ q) same (path-path_text-path s)
to_path-rereads _ p h = cc

error_of_fields-rereads :
    (json : Fields) (e : Error) → error_of_fields json ≡ ok e → path (path_text e.file) ≡ e.file
unfolding error_of_fields
error_of_fields-rereads json e h =
    let (line, _, h₁) = >>=-eq-ok (item "line" json) _ h in
    let (column, _, h₂) = >>=-eq-ok (item "column" json) _ h₁ in
    let (stop_line, _, h₃) = >>=-eq-ok (item "stop_line" json) _ h₂ in
    let (stop_column, _, h₄) = >>=-eq-ok (item "stop_column" json) _ h₃ in
    let (text, _, h₅) = >>=-eq-ok (item "path" json) _ h₄ in
    let (p, is_path, h₆) = >>=-eq-ok (to_path text) _ h₅ in
    let (code, _, h₇) = >>=-eq-ok (item "code" json) _ h₆ in
    let (name, _, h₈) = >>=-eq-ok (item "name" json) _ h₇ in
    let (description, _, h₉) = >>=-eq-ok (item "description" json) _ h₈ in
    let same : p ≡ e.file = cc (h₉) in
    subst (λ q. path (path_text q) ≡ q) same (to_path-rereads text p is_path)

model_error_of_fields-rereads :
    (json : Fields) (e : ModelVerificationError)
    → model_error_of_fields json ≡ ok e
    → path (path_text e.file) ≡ e.file
unfolding model_error_of_fields
model_error_of_fields-rereads json e h =
    let (line, _, h₁) = >>=-eq-ok (item "line" json) _ h in
    let (column, _, h₂) = >>=-eq-ok (item "column" json) _ h₁ in
    let (text, _, h₃) = >>=-eq-ok (item "path" json) _ h₂ in
    let (p, is_path, h₄) = >>=-eq-ok (to_path text) _ h₃ in
    let (description, _, h₅) = >>=-eq-ok (item "description" json) _ h₄ in
    let same : p ≡ e.file = cc (h₅) in
    subst (λ q. path (path_text q) ≡ q) same (to_path-rereads text p is_path)

-- An error that was read from a document is read back from the JSON that it is written as.
pub error_from_json-error_to_json :
    (json : Json) (e : Error)
    → error_from_json json ≡ ok e
    → error_from_json (dict (error_to_json e)) ≡ ok e
unfolding error_from_json
error_from_json-error_to_json (dict json) e h =
    error_of_fields-error_to_json e (error_of_fields-rereads json e h)
error_from_json-error_to_json _ e h = cc

-- The same of model verification errors, whose code may be missing.
pub model_error_from_json-model_error_to_json :
    (json : Json) (e : ModelVerificationError)
    → model_error_from_json json ≡ ok e
    → model_error_from_json (dict (model_error_to_json e)) ≡ ok e
unfolding model_error_from_json
model_error_from_json-model_error_to_json (dict json) e h =
    model_error_of_fields-model_error_to_json e (model_error_of_fields-rereads json e h)
model_error_from_json-model_error_to_json _ e h = cc
