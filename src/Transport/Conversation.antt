-- ===== src/Transport/Conversation.antt =====
-- Messages that are written one after another, and read one after another
-- (client/commands/v2/language_server_protocol.py).
use pyre_check.Base.{
  refl, sym, some, Option, ap, [], ◌∷◌, ◌++◌, ◌≡◌, All, append_assoc, append-nil, ℕ, zero, suc, ◌∙◌,
  ok, Result, length, List, String, map,
}
use pyre_check.Json.{Json, dict, Fields}
use pyre_check.JsonRpc.{Request, request_json, request_from_string}
use pyre_check.JsonRpc.Requests.{request_from_json-request_json}
use pyre_check.Texts.{Bytes}
use pyre_check.Transport.Frames.{read_payload-framed}
use pyre_check.Transport.{framed, write_json_rpc, read_json_rpc, request_of, decoded, ReadError}

module _ (loads : String → Option Json) (decode : Bytes → Option String)
    (dumps : Fields → Bytes) where
  -- What `json.dumps` writes for the request, `json.loads` reads back.
  abbrev pub IsReadBack : Request → Type 0
  IsReadBack r =
      (text : String) × (decode (dumps (request_json r)) ≡ some text)
      × (loads text ≡ some (dict (request_json r)))

  -- The channel behind the requests that are written to it.
  unfoldable pub write_all : Bytes → List Request → Bytes
  unfolding write_json_rpc
  write_all channel [] = channel
  write_all channel (r ∷ rs) = write_all (write_json_rpc dumps channel (request_json r)) rs

  write_all-append :
      (channel : Bytes) (rs : List Request) → write_all channel rs ≡ channel ++ write_all [] rs
  unfolding write_all write_json_rpc
  write_all-append channel [] = sym (append-nil channel)
  write_all-append channel (r ∷ rs) =
      let frame = framed (dumps (request_json r)) in
      write_all-append (channel ++ frame) rs
      ∙ append_assoc channel frame (write_all [] rs)
      ∙ ap (λ c. channel ++ c) (sym (write_all-append frame rs))

  -- The results of a number of reads, and what is left.
  unfoldable pub read_all : ℕ → Bytes → List (Result ReadError Request) × Bytes
  read_all zero bytes = ([], bytes)
  read_all (suc n) bytes =
      let one = read_json_rpc loads decode bytes in
      let later = read_all n one.1 in (one.0 ∷ later.0, later.1)

  request_from_string-written :
      (r : Request) (text : String)
      → loads text ≡ some (dict (request_json r))
      → request_from_string loads text ≡ ok r
  unfolding request_from_string
  request_from_string-written r text parses = rw parses (request_from_json-request_json r)

  read_json_rpc-framed :
      (r : Request) (rest : Bytes)
      → IsReadBack r
      → read_json_rpc loads decode (framed (dumps (request_json r)) ++ rest) ≡ (ok r, rest)
  unfolding read_json_rpc request_of decoded
  read_json_rpc-framed r rest (text, decodes, parses) =
      rw
        (
          read_payload-framed (dumps (request_json r)) rest,
          decodes,
          decoded,
          request_from_string-written r text parses,
        )
        refl

  -- Requests that are written one after another are read as they were, in their order, with nothing
  -- left, where `json.loads` reads back what `json.dumps` writes for them.
  pub read_all-write_all :
      (rs : List Request)
      → All IsReadBack rs
      → read_all (length rs) (write_all [] rs) ≡ (map ok rs, [])
  unfolding read_all write_all write_json_rpc
  read_all-write_all [] h = refl
  read_all-write_all (r ∷ rs) h =
      let frame = framed (dumps (request_json r)) in
      rw
        (
          write_all-append frame rs,
          read_json_rpc-framed r (write_all [] rs) h.0,
          read_all-write_all rs h.1,
        )
        refl
