-- ===== src/Errors.antt =====
-- client/error.py, and the answers of the Pyre server that carry type errors
-- (client/commands/v2/incremental.py and persistent.py). The fields of an error are what the document
-- holds: the code tests the type of none but the path, which must be a text.
pub mod Reads
pub mod Answers
use pyre_check.Base.{
  [], ◌∷◌, ◌++◌, List, refl, ◌≡◌, some, none, Option, true, false, Bool, arith, String, ◌==◌, ap,
  ok, err, Result, inl, inr, ◌>>=◌, ◌>>◌, if◌then◌else◌, map_ok,
}
use pyre_check.Json.{
  cons, null, array, string, dict, Fields, Json, array, dict, field, get, string, contains, null,
  elements, end,
}
use pyre_check.PathLib.{PurePath, path, path_text}

-- ErrorParsingFailure by its cause: KeyError, TypeError or JSONDecodeError.
pub data ParsingFailure : Type 0 where
  missing_field : String → ParsingFailure
  type_mismatch undecodable : ParsingFailure

abbrev pub Read {ℓ} : Type ℓ → Type ℓ
Read A = Result ParsingFailure A

pub record Error : Type 0 where
  pub line : Json
  pub column : Json
  pub stop_line : Json
  pub stop_column : Json
  pub file : PurePath
  pub code : Json
  pub name : Json
  pub description : Json
  pub long_description : Json
  pub concise_description : Json

-- `json[key]`
unfoldable pub item : String → Fields → Read Json
item key json = if contains key json then ok (get key json) else err (missing_field key)

-- `json.get(key, default)`
unfoldable pub item_or : String → Json → Fields → Json
item_or key default json = if contains key json then get key json else default

-- `Path(value)`
unfoldable pub to_path : Json → Read PurePath
to_path (string s) = ok (path s)
to_path _ = err type_mismatch

unfoldable pub error_of_fields : Fields → Read Error
error_of_fields json = do
  line ← item "line" json
  column ← item "column" json
  stop_line ← item "stop_line" json
  stop_column ← item "stop_column" json
  file_text ← item "path" json
  file ← to_path file_text
  code ← item "code" json
  name ← item "name" json
  description ← item "description" json
  ok (record {
    line = line;
    column = column;
    stop_line = stop_line;
    stop_column = stop_column;
    file = file;
    code = code;
    name = name;
    description = description;
    long_description = item_or "long_description" (string "") json;
    concise_description = item_or "concise_description" (string "") json;
  })

-- What is no dict cannot be indexed by a text.
unfoldable pub error_from_json : Json → Read Error
error_from_json (dict json) = error_of_fields json
error_from_json _ = err type_mismatch

unfoldable pub error_to_json : Error → Fields
error_to_json e = field "line" e.line (
    field "column" e.column (
      field "stop_line" e.stop_line (
        field "stop_column" e.stop_column (
          field "path" (string (path_text e.file)) (
            field "code" e.code (
              field "name" e.name (
                field "description" e.description (
                  field "long_description" e.long_description
                    (field "concise_description" e.concise_description end)))))))))

pub record ModelVerificationError : Type 0 where
  pub line : Json
  pub column : Json
  pub file : PurePath
  pub description : Json
  pub code : Json

unfoldable pub model_error_of_fields : Fields → Read ModelVerificationError
model_error_of_fields json = do
  line ← item "line" json
  column ← item "column" json
  file_text ← item "path" json
  file ← to_path file_text
  description ← item "description" json
  ok (record {
    line = line;
    column = column;
    file = file;
    description = description;
    code = get "code" json;
  })

unfoldable pub model_error_from_json : Json → Read ModelVerificationError
model_error_from_json (dict json) = model_error_of_fields json
model_error_from_json _ = err type_mismatch

unfoldable pub model_error_to_json : ModelVerificationError → Fields
model_error_to_json e = field "line" e.line (
    field "column" e.column (
      field "path" (string (path_text e.file))
        (field "description" e.description (field "code" e.code end))))

decoded : {A : Type 0} → (Json → Read A) → Option Json → Read A
decoded from_json none = err undecodable
decoded from_json (some json) = from_json json

module _ (loads : String → Option Json) where
  unfoldable pub error_from_string : String → Read Error
  unfolding decoded
  error_from_string text = decoded error_from_json (loads text)

  unfoldable pub model_error_from_string : String → Read ModelVerificationError
  unfolding decoded
  model_error_from_string text = decoded model_error_from_json (loads text)

-- InvalidServerResponse by its cause.
pub data InvalidServerResponse : Type 0 where
  unexpected_answer undecodable_answer : InvalidServerResponse
  unexpected_error : ParsingFailure → InvalidServerResponse

abbrev pub Answer {ℓ} : Type ℓ → Type ℓ
Answer A = Result InvalidServerResponse A

as_invalid_response : {A : Type 0} → Read A → Answer A
as_invalid_response (ok a) = ok a
as_invalid_response (err e) = err (unexpected_error e)

-- The list of errors behind the tag.
errors_of : Json → Answer (List Error)
unfolding as_invalid_response
errors_of (array items) = as_invalid_response (map_ok error_from_json (elements items))
errors_of _ = err unexpected_answer

-- `response_json[0] == "TypeErrors"`
is_tag : Json → Bool
is_tag (string s) = s == "TypeErrors"
is_tag _ = false

unfoldable pub parse_type_error_response_json : Json → Answer (List Error)
unfolding errors_of is_tag
parse_type_error_response_json (array (cons tag (cons errors_json rest))) =
    if is_tag tag then errors_of errors_json else err unexpected_answer
parse_type_error_response_json _ = err unexpected_answer

pub record SubscriptionResponse : Type 0 where
  pub name : Json
  pub body : List Error

subscription_of : Json → Json → Answer SubscriptionResponse
subscription_of null body = err unexpected_answer
subscription_of name null = err unexpected_answer
subscription_of name body = do
  errors ← parse_type_error_response_json body
  ok (record { name = name; body = errors })

subscription_of_document : Json → Answer SubscriptionResponse
unfolding subscription_of
subscription_of_document (dict json) = subscription_of (get "name" json) (get "body" json)
subscription_of_document _ = err unexpected_answer

decoded_answer : {A : Type 0} → (Json → Answer A) → Option Json → Answer A
decoded_answer from_json none = err undecodable_answer
decoded_answer from_json (some json) = from_json json

module _ (loads : String → Option Json) where
  unfoldable pub parse_type_error_response : String → Answer (List Error)
  unfolding decoded_answer
  parse_type_error_response text = decoded_answer parse_type_error_response_json (loads text)

  unfoldable pub parse_subscription_response : String → Answer SubscriptionResponse
  unfolding decoded_answer subscription_of_document
  parse_subscription_response text = decoded_answer subscription_of_document (loads text)
