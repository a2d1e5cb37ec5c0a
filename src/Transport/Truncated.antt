-- ===== src/Transport/Truncated.antt =====
-- About readers that end early, and the loop of _read_headers
-- (client/commands/v2/language_server_protocol.py).
use pyre_check.Base.{
  refl, some, none, Option, ap, [], ◌∷◌, ◌++◌, ◌≡◌, arith, ℕ, zero, suc, ◌≤◌, ◌<◌, inl, inr,
  Bool-cases, length, List, ◌≢◌, false, err, Result, leb, sym, ◌∙◌, append-nil, String,
}
use pyre_check.Texts.{Bytes, same_bytes, ends_with, codes, decimal}
use pyre_check.Json.{Json}
use pyre_check.Transport.{
  read_json_rpc, request_of, read_until, read_lines, read_headers, header_read, with_header,
  headers, incomplete, unfinished, line_end, Headers, or_parse_error, payload_behind, read_payload,
  framed, payload_of, read_exactly, raised, ReadError,
}
use pyre_check.JsonRpc.{rpc, parse_error}
use pyre_check.Transport.Frames.{get_content_length-header, length-append, read_headers-framed}

-- What was found before the end of the reader is found whatever follows.
read_until-append :
    (separator result front more line left : Bytes)
    → read_until separator result front ≡ (some line, left)
    → read_until separator result (front ++ more) ≡ (some line, left ++ more)
unfolding read_until
read_until-append separator result [] more line left h = cc (h)
read_until-append separator result (b ∷ front) more line left h =
    elim (Bool-cases (ends_with separator (result ++ (b ∷ [])))) [
      | inl e ↦ let g = rw e at h in rw e (cc (g))
      | inr e ↦
          let g = rw e at h in
          rw e (read_until-append separator (result ++ (b ∷ [])) front more line left g)
    ]

read_until-shorter :
    (separator result bytes line left : Bytes)
    → read_until separator result bytes ≡ (some line, left)
    → length left < length bytes
unfolding read_until
read_until-shorter separator result [] line left h = cc (h)
read_until-shorter separator result (b ∷ bytes) line left h =
    elim (Bool-cases (ends_with separator (result ++ (b ∷ [])))) [
      | inl e ↦
          let g = rw e at h in
          let same : bytes ≡ left = cc (g) in omega (arith, ap (length {A = ℕ}) same)
      | inr e ↦
          let g = rw e at h in
          omega (arith, read_until-shorter separator (result ++ (b ∷ [])) bytes line left g)
    ]

with_header-finishes :
    (line : Bytes) (later : Headers × Bytes)
    → later.0 ≢ unfinished
    → (with_header line later).0 ≢ unfinished
unfolding with_header
with_header-finishes line (headers hs, left) h = λ p. cc
with_header-finishes line (incomplete, left) h = h
with_header-finishes line (unfinished, left) h = h

header_read-finishes :
    (line left : Bytes) (later : Headers × Bytes)
    → later.0 ≢ unfinished
    → (header_read (some line, left) later).0 ≢ unfinished
unfolding header_read
header_read-finishes line left later h = elim (Bool-cases (same_bytes line line_end)) [
  | inl e ↦ rw e (λ p. cc)
  | inr e ↦ rw e (with_header-finishes line later h)
]

read_lines-finishes :
    (fuel : ℕ) (bytes : Bytes) → length bytes < fuel → (read_lines fuel bytes).0 ≢ unfinished
unfolding read_lines header_read
read_lines-finishes zero bytes h = λ p. elim h [ ]
read_lines-finishes (suc fuel) bytes h =
    by_line (read_until line_end [] bytes) refl (λ left k. read_lines-finishes fuel left k)
  where
    by_line :
        (line : Option Bytes × Bytes)
        → read_until line_end [] bytes ≡ line
        → ((left : Bytes) → length left < fuel → (read_lines fuel left).0 ≢ unfinished)
        → (header_read line (read_lines fuel line.1)).0 ≢ unfinished
    by_line (none, left) e later = λ p. cc
    by_line (some line, left) e later =
        header_read-finishes line left (read_lines fuel left)
          (later left (omega (arith, h, read_until-shorter line_end [] bytes line left e)))

-- Reading the headers of a message ends: there are rounds enough.
pub read_headers_finishes : (bytes : Bytes) → (read_headers bytes).0 ≢ unfinished
unfolding read_headers
read_headers_finishes bytes = read_lines-finishes (suc (length bytes)) bytes (omega arith)

with_header-append :
    (line : Bytes) (now then_ : Headers × Bytes) (more : Bytes) (hs : List Bytes) (left : Bytes)
    → ((ls : List Bytes) → now ≡ (headers ls, left) → then_ ≡ (headers ls, left ++ more))
    → with_header line now ≡ (headers hs, left)
    → with_header line then_ ≡ (headers hs, left ++ more)
unfolding with_header
with_header-append line (headers ls, l) then_ more hs left keeps h =
    let same : ◌≡◌ {A = Headers × Bytes} (headers ls, l) (headers ls, left) = cc (h) in
    rw (keeps ls same) (cc (h))
with_header-append line (incomplete, l) then_ more hs left keeps h = cc (h)
with_header-append line (unfinished, l) then_ more hs left keeps h = cc (h)

header_read-append :
    (line l : Bytes) (now then_ : Headers × Bytes) (more : Bytes) (hs : List Bytes) (left : Bytes)
    → ((ls : List Bytes) → now ≡ (headers ls, left) → then_ ≡ (headers ls, left ++ more))
    → header_read (some line, l) now ≡ (headers hs, left)
    → header_read (some line, l ++ more) then_ ≡ (headers hs, left ++ more)
unfolding header_read
header_read-append line l now then_ more hs left keeps h =
    elim (Bool-cases (same_bytes line line_end)) [
      | inl e ↦ let g = rw e at h in rw e (cc (g))
      | inr e ↦ let g = rw e at h in rw e (with_header-append line now then_ more hs left keeps g)
    ]

-- Headers that were read are read whatever follows.
read_lines-append :
    (fuel fuel' : ℕ) (front more : Bytes) (hs : List Bytes) (left : Bytes)
    → fuel ≤ fuel'
    → read_lines fuel front ≡ (headers hs, left)
    → read_lines fuel' (front ++ more) ≡ (headers hs, left ++ more)
unfolding read_lines header_read
read_lines-append zero fuel' front more hs left k h = cc (h)
read_lines-append (suc fuel) zero front more hs left k h = elim k [ ]
read_lines-append (suc fuel) (suc fuel') front more hs left k h =
    by_line (read_until line_end [] front) refl
      (λ l ls. read_lines-append fuel fuel' l more ls left (omega arith)) h
  where
    by_line :
        (line : Option Bytes × Bytes)
        → read_until line_end [] front ≡ line
        → ((l : Bytes) (ls : List Bytes)
            → read_lines fuel l ≡ (headers ls, left)
            → read_lines fuel' (l ++ more) ≡ (headers ls, left ++ more))
        → header_read line (read_lines fuel line.1) ≡ (headers hs, left)
        → header_read
            (read_until line_end [] (front ++ more))
            (read_lines fuel' (read_until line_end [] (front ++ more)).1)
          ≡ (headers hs, left ++ more)
    by_line (none, l) e keeps g = cc (g)
    by_line (some line, l) e keeps g = rw (read_until-append line_end [] front more line l e) (
        header_read-append line l (read_lines fuel l) (read_lines fuel' (l ++ more)) more hs left
          (keeps l) g)

read_headers-append :
    (front more : Bytes) (hs : List Bytes) (left : Bytes)
    → read_headers front ≡ (headers hs, left)
    → read_headers (front ++ more) ≡ (headers hs, left ++ more)
unfolding read_headers
read_headers-append front more hs left h =
    read_lines-append (suc (length front)) (suc (length (front ++ more))) front more hs left
      (omega (arith, length-append front more)) h

read_exactly-short :
    (n : ℕ) (bytes : Bytes)
    → length bytes < n
    → or_parse_error (read_exactly n bytes) ≡ (err (raised (rpc parse_error)), [])
unfolding or_parse_error read_exactly
read_exactly-short n bytes h =
    let short : leb n (length bytes) ≡ false = ground (arith, h) in rw short refl

behind-short :
    (payload left more : Bytes) (hs : List Bytes)
    → more ≢ []
    → ◌≡◌ {A = Headers × Bytes}
        (headers hs, left ++ more)
        (
          headers ((codes "Content-Length: " ++ (decimal (length payload) ++ line_end)) ∷ []),
          payload ++ [],
        )
    → (payload_behind (headers hs, left)).0 ≡ err (raised (rpc parse_error))
unfolding payload_behind payload_of
behind-short payload left [] hs h e = absurd (h refl)
behind-short payload left (b ∷ more) hs h e =
    let header = codes "Content-Length: " ++ (decimal (length payload) ++ line_end) in
    let lines : hs ≡ header ∷ [] = cc (e) in
    let rest : left ++ (b ∷ more) ≡ payload ++ [] = cc (e) in
    let lengths = ap (length {A = ℕ}) rest in
    rw (lines, get_content_length-header (length payload))
      (ap (λ (r : Result ReadError Bytes × Bytes). r.0)
        (read_exactly-short (length payload) left
          (omega (arith, lengths, length-append left (b ∷ more), length-append payload []))))

read_payload_truncated :
    (payload front back : Bytes)
    → front ++ back ≡ framed payload
    → back ≢ []
    → (read_payload front).0 ≡ err (raised (rpc parse_error))
unfolding read_payload
read_payload_truncated payload front back split more = by_headers (read_headers front) refl
  where
    by_headers :
        (found : Headers × Bytes)
        → read_headers front ≡ found
        → (payload_behind found).0 ≡ err (raised (rpc parse_error))
    by_headers (headers hs, left) e = behind-short payload left back hs more (
        sym (read_headers-append front back hs left e)
        ∙ ap read_headers (split ∙ sym (append-nil (framed payload)))
        ∙ read_headers-framed payload [])
    by_headers (incomplete, left) e = refl
    by_headers (unfinished, left) e =
        absurd (read_headers_finishes front (ap (λ (r : Headers × Bytes). r.0) e))

-- Of a frame that is cut off anywhere, reading raises ParseError.
pub read_json_rpc_truncated :
    (loads : String → Option Json) (decode : Bytes → Option String) (payload front back : Bytes)
    → front ++ back ≡ framed payload
    → back ≢ []
    → (read_json_rpc loads decode front).0 ≡ err (raised (rpc parse_error))
unfolding read_json_rpc request_of
read_json_rpc_truncated loads decode payload front back split more =
    rw (read_payload_truncated payload front back split more) refl
