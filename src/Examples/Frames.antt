-- ===== src/Examples/Frames.antt =====
-- Frames on concrete bytes.
use pyre_check.Base.{
  [], ◌++◌, refl, ◌≡◌, some, pos, ok, err, Option, String, if◌then◌else◌, ◌==◌, none, ◌∷◌,
}
use pyre_check.Texts.{
  codes, decimal, parse_int, ends_with, split_once, strip, same_bytes, digits_value, Bytes,
}
use pyre_check.Transport.{
  framed, read_payload, read_headers, read_lines, get_content_length, line_end, value_error, raised,
  read_json_rpc,
}
use pyre_check.Json.{Json, Fields, dict, get, null}
use pyre_check.Transport.Conversation.{read_all, write_all, read_all-write_all}
use pyre_check.Transport.Truncated.{read_json_rpc_truncated}
use pyre_check.JsonRpc.{Request, request_json, name, rpc, parse_error, unbound_local_error}

decimal_test : decimal 1205 ≡ codes "1205"
unfolding decimal
decimal_test = refl

parse_test : parse_int (codes "1_205") ≡ some (pos 1205)
unfolding parse_int
parse_test = refl

two_frames :
    read_payload (framed (codes "{}") ++ framed (codes "[1]"))
    ≡ (ok (codes "{}"), framed (codes "[1]"))
unfolding read_payload framed read_headers read_lines ends_with get_content_length split_once strip
    parse_int decimal same_bytes digits_value
two_frames = refl

other_headers_test :
    read_payload (
      codes "X-Y: 1"
      ++ (line_end ++ (codes "CONTENT-length:  2 " ++ (line_end ++ (line_end ++ codes "abc")))))
    ≡ (ok (codes "ab"), codes "c")
unfolding read_payload framed read_headers read_lines ends_with get_content_length split_once strip
    parse_int decimal same_bytes digits_value
other_headers_test = refl

no_headers_test :
    read_payload (line_end ++ codes "abc") ≡ (err (raised unbound_local_error), codes "abc")
unfolding read_payload framed read_headers read_lines ends_with get_content_length split_once strip
    parse_int decimal same_bytes digits_value
no_headers_test = refl

negative_test :
    read_payload (codes "Content-Length: -1" ++ (line_end ++ (line_end ++ codes "abc")))
    ≡ (err value_error, codes "abc")
unfolding read_payload framed read_headers read_lines ends_with get_content_length split_once strip
    parse_int decimal same_bytes digits_value
negative_test = refl

truncated_test :
    read_payload (codes "Content-Length: 4" ++ (line_end ++ (line_end ++ codes "abc")))
    ≡ (err (raised (rpc parse_error)), [])
unfolding read_payload framed read_headers read_lines ends_with get_content_length split_once strip
    parse_int decimal same_bytes digits_value
truncated_test = refl

abbrev exit_request : Request
exit_request = record { method = "exit"; id = none; parameters = none }

abbrev shutdown_request : Request
shutdown_request = record { method = "shutdown"; id = some (name "1"); parameters = none }

abbrev dumped : Fields → Bytes
dumped json = elim (get "id" json) [ null ↦ codes "[]" | _ ↦ codes "{}" ]

abbrev decoded_text : Bytes → Option String
decoded_text bytes = if same_bytes bytes (codes "[]") then some "[]" else some "{}"

abbrev loaded : String → Option Json
loaded text = some (dict (request_json (if text == "[]" then exit_request else shutdown_request)))

read_all-write_all_example :
    read_all loaded decoded_text dumped 2
      (write_all loaded decoded_text dumped [] (exit_request ∷ shutdown_request ∷ []))
    ≡ (ok exit_request ∷ ok shutdown_request ∷ [], [])
unfolding request_json get same_bytes
read_all-write_all_example =
    read_all-write_all loaded decoded_text dumped (exit_request ∷ shutdown_request ∷ [])
      (("[]", refl, refl), (("{}", refl, refl), tt))

read_json_rpc_truncated_example :
    (read_json_rpc loaded decoded_text
      (codes "Content-Length: 2" ++ (line_end ++ (line_end ++ codes "[")))).0
    ≡ err (raised (rpc parse_error))
unfolding framed decimal
read_json_rpc_truncated_example =
    read_json_rpc_truncated loaded decoded_text (codes "[]")
      (codes "Content-Length: 2" ++ (line_end ++ (line_end ++ codes "["))) (codes "]") refl
      (λ p. cc)
