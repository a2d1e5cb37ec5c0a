-- ===== src/Transport.antt =====
-- The framing of JSON-RPC messages: language_server_protocol.py and async_server_connection.py of
-- client/commands/v2. A reader is the bytes that it has not read yet, `_data[_cursor:]` of
-- MemoryBytesReader; the header is taken to be ASCII, where decoding it changes nothing. `decode` is
-- the decoding of a payload from UTF-8, or None for UnicodeDecodeError, a ValueError.
pub mod Frames
pub mod Truncated
pub mod Conversation
use pyre_check.Base.{
  [], ◌∷◌, ◌++◌, List, some, none, Option, true, false, Bool, String, if◌then◌else◌, leb, ℕ, zero,
  suc, ℤ, pos, negsuc, ok, err, Result, take, length,
}
use pyre_check.Texts.{
  Bytes, codes, same_bytes, ends_with, drop, strip, lower, split_once, parse_int, decimal,
}
use pyre_check.JsonRpc.{
  Request, Exception, rpc, unbound_local_error, parse_error, request_from_string,
}
use pyre_check.Json.{Json, Fields}

-- b"\r\n"
abbrev pub line_end : Bytes
line_end = 13 ∷ 10 ∷ []

-- The bytes up to the first end of the separator and those behind it, or IncompleteReadError, with
-- nothing left. `result` is what was read already.
unfoldable pub read_until : Bytes → Bytes → Bytes → Option Bytes × Bytes
read_until separator result [] = (none, [])
read_until separator result (byte ∷ rest) =
    let later = read_until separator (result ++ (byte ∷ [])) rest in
    if ends_with separator (result ++ (byte ∷ []))
    then (some (result ++ (byte ∷ [])), rest)
    else later

unfoldable pub read_exactly : ℕ → Bytes → Option Bytes × Bytes
read_exactly count bytes =
    if leb count (length bytes) then (some (take count bytes), drop count bytes) else (none, [])

-- The lines before an empty one; IncompleteReadError; or a loop that has run out of rounds.
pub data Headers : Type 0 where
  headers : List Bytes → Headers
  incomplete unfinished : Headers

with_header : Bytes → Headers × Bytes → Headers × Bytes
with_header header (headers later, left) = (headers (header ∷ later), left)
with_header header (other, left) = (other, left)

header_read : Option Bytes × Bytes → Headers × Bytes → Headers × Bytes
unfolding with_header
header_read (none, left) later = (incomplete, left)
header_read (some header, left) later =
    if same_bytes header line_end then (headers [], left) else with_header header later

-- The loop of _read_headers. Each round reads at least a byte.
unfoldable pub read_lines : ℕ → Bytes → Headers × Bytes
unfolding header_read read_until
read_lines zero bytes = (unfinished, bytes)
read_lines (suc fuel) bytes =
    let line = read_until line_end [] bytes in
    let later = read_lines fuel line.1 in header_read line later

unfoldable pub read_headers : Bytes → Headers × Bytes
read_headers bytes = read_lines (suc (length bytes)) bytes

-- What reading a message raises; `out_of_rounds` stands for a loop that goes on.
pub data ReadError : Type 0 where
  raised : Exception → ReadError
  value_error out_of_rounds : ReadError

-- The length of the payload, from a header's parts, or None for a header of another name.
length_of : Bytes × Option Bytes → Option (Option ℤ)
length_of (name, none) = none
length_of (name, some value) =
    if same_bytes (lower (strip name)) (codes "content-length")
    then some (parse_int (lower (strip value)))
    else none

length_found : Option (Option ℤ) → Result ReadError ℤ → Result ReadError ℤ
length_found none later = later
length_found (some none) later = err (raised (rpc parse_error))
length_found (some (some n)) later = ok n

-- `parts` of the last header is in the exception's text.
length_in : List Bytes → Result ReadError ℤ
unfolding length_of length_found
length_in [] = err (raised (rpc parse_error))
length_in (header ∷ later) = length_found (length_of (split_once b':' header)) (length_in later)

-- Without a header, `parts` is unbound.
unfoldable pub get_content_length : List Bytes → Result ReadError ℤ
unfolding length_in
get_content_length [] = err (raised unbound_local_error)
get_content_length (header ∷ later) = length_in (header ∷ later)

or_parse_error : Option Bytes × Bytes → Result ReadError Bytes × Bytes
or_parse_error (none, left) = (err (raised (rpc parse_error)), left)
or_parse_error (some payload, left) = (ok payload, left)

-- `readexactly` of asyncio, behind the StreamBytesReader that the server reads from, refuses a negative
-- count with ValueError; for other counts it does what MemoryBytesReader does, which `read_exactly`
-- is. MemoryBytesReader itself moves its cursor back for a negative count, which is not modelled.
payload_of : Result ReadError ℤ → Bytes → Result ReadError Bytes × Bytes
unfolding or_parse_error read_exactly
payload_of (err e) bytes = (err e, bytes)
payload_of (ok (pos n)) bytes = or_parse_error (read_exactly n bytes)
payload_of (ok (negsuc n)) bytes = (err value_error, bytes)

payload_behind : Headers × Bytes → Result ReadError Bytes × Bytes
unfolding payload_of
payload_behind (headers lines, left) = payload_of (get_content_length lines) left
payload_behind (incomplete, left) = (err (raised (rpc parse_error)), left)
payload_behind (unfinished, left) = (err out_of_rounds, left)

-- read_json_rpc up to the payload.
unfoldable pub read_payload : Bytes → Result ReadError Bytes × Bytes
unfolding payload_behind
read_payload bytes = payload_behind (read_headers bytes)

module _ (loads : String → Option Json) (decode : Bytes → Option String) where
  decoded : Option String → Result ReadError Request
  decoded none = err value_error
  decoded (some text) = elim (request_from_string loads text) [
    | ok request ↦ ok request
    | err e ↦ err (raised e)
  ]

  unfoldable pub request_of : Result ReadError Bytes → Result ReadError Request
  unfolding decoded
  request_of (err e) = err e
  request_of (ok payload) = decoded (decode payload)

  unfoldable pub read_json_rpc : Bytes → Result ReadError Request × Bytes
  unfolding request_of
  read_json_rpc bytes = let payload = read_payload bytes in (request_of payload.0, payload.1)

-- The header names the number of the payload's characters, which are bytes: `dumps` is json.dumps,
-- whose text is ASCII.
unfoldable pub framed : Bytes → Bytes
framed payload =
    codes "Content-Length: " ++ (decimal (length payload) ++ (line_end ++ (line_end ++ payload)))

unfoldable pub write_json_rpc : (Fields → Bytes) → Bytes → Fields → Bytes
write_json_rpc dumps channel json = channel ++ framed (dumps json)
