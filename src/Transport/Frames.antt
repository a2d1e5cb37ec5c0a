-- ===== src/Transport/Frames.antt =====
-- About framed messages that are read (client/commands/v2/language_server_protocol.py).
use pyre_check.Base.{
  refl, some, pos, ap, [], ◌∷◌, ◌++◌, ◌≡◌, true, false, arith, All, append_assoc, ℕ, suc, ◌+◌, leb,
  eqb, ok, length, take,
}
use pyre_check.Texts.{Bytes, codes, decimal, strip, split_once, same_bytes, ends_with, drop}
use pyre_check.Texts.Numbers.{parse_int-decimal, IsDigit, decimal-IsDigit}
use pyre_check.Transport.{
  read_until, read_exactly, read_lines, read_headers, header_read, with_header, headers, line_end,
  get_content_length, length_in, length_of, length_found, payload_of, payload_behind, read_payload,
  framed, or_parse_error,
}

-- No byte ends a line.
abbrev pub NoLineFeed : Bytes → Type 0
NoLineFeed = All (λ c. eqb c 10 ≡ false)

NoLineFeed-append : (xs ys : Bytes) → NoLineFeed xs → NoLineFeed ys → NoLineFeed (xs ++ ys)
NoLineFeed-append [] ys h k = k
NoLineFeed-append (x ∷ xs) ys h k = (h.0, NoLineFeed-append xs ys h.1 k)

digits-NoLineFeed : (ds : Bytes) → All IsDigit ds → NoLineFeed ds
digits-NoLineFeed [] h = tt
digits-NoLineFeed (d ∷ ds) h = (ground (arith, h.0), digits-NoLineFeed ds h.1)

ends_with-false : (xs : Bytes) → NoLineFeed xs → ends_with line_end xs ≡ false
unfolding ends_with same_bytes
ends_with-false [] h = refl
ends_with-false (x ∷ []) h = ground arith
ends_with-false (x ∷ y ∷ ys) h = rw (h.1.0, ends_with-false (y ∷ ys) h.1) (ground arith)

ends_with-line_end : (xs : Bytes) → ends_with line_end (xs ++ line_end) ≡ true
unfolding ends_with same_bytes
ends_with-line_end [] = refl
ends_with-line_end (x ∷ xs) = rw (ends_with-line_end xs) (ground arith)

-- A line is read to its end.
read_until-line :
    (result line rest : Bytes)
    → NoLineFeed result
    → NoLineFeed line
    → read_until line_end result (line ++ (13 ∷ 10 ∷ rest))
      ≡ (some (result ++ (line ++ line_end)), rest)
unfolding read_until
read_until-line result [] rest h k =
    rw
      (
        ends_with-false (result ++ (13 ∷ [])) (NoLineFeed-append result (13 ∷ []) h (refl, tt)),
        append_assoc result (13 ∷ []) (10 ∷ []),
        ends_with-line_end result,
      )
      refl
read_until-line result (c ∷ line) rest h k =
    let more = NoLineFeed-append result (c ∷ []) h (k.0, tt) in
    rw
      (
        ends_with-false (result ++ (c ∷ [])) more,
        read_until-line (result ++ (c ∷ [])) line rest more k.1,
        append_assoc result (c ∷ []) (line ++ line_end),
      )
      refl

-- One header and an empty line are read as that header.
read_lines-header :
    (fuel : ℕ) (line tail : Bytes)
    → NoLineFeed line
    → same_bytes (line ++ line_end) line_end ≡ false
    → read_lines (suc (suc fuel)) (line ++ (13 ∷ 10 ∷ 13 ∷ 10 ∷ tail))
      ≡ (headers ((line ++ line_end) ∷ []), tail)
unfolding read_lines header_read with_header same_bytes
read_lines-header fuel line tail h e =
    rw (read_until-line [] line (13 ∷ 10 ∷ tail) tt h, e, read_until-line [] [] tail tt tt) refl

take-append : (xs ys : Bytes) → take (length xs) (xs ++ ys) ≡ xs
take-append [] ys = refl
take-append (x ∷ xs) ys = ap (◌∷◌ x) (take-append xs ys)

drop-append : (xs ys : Bytes) → drop (length xs) (xs ++ ys) ≡ ys
drop-append [] ys = refl
drop-append (x ∷ xs) ys = drop-append xs ys

pub length-append : (xs ys : Bytes) → length (xs ++ ys) ≡ length xs + length ys
length-append [] ys = omega arith
length-append (x ∷ xs) ys = omega (arith, length-append xs ys)

read_exactly-append : (xs ys : Bytes) → read_exactly (length xs) (xs ++ ys) ≡ (some xs, ys)
unfolding read_exactly
read_exactly-append xs ys =
    let enough : leb (length xs) (length (xs ++ ys)) ≡ true =
      rw (length-append xs ys) (ground arith) in
    rw (enough, take-append xs ys, drop-append xs ys) refl

pub get_content_length-header :
    (n : ℕ)
    → get_content_length ((codes "Content-Length: " ++ (decimal n ++ line_end)) ∷ []) ≡ ok (pos n)
unfolding get_content_length length_in length_of length_found split_once strip same_bytes
get_content_length-header n = rw (parse_int-decimal n) refl

-- The bytes of a frame and what follows it, as a line, an empty line and the rest.
framed-lines :
    (payload rest : Bytes)
    → framed payload ++ rest
      ≡ (codes "Content-Length: " ++ decimal (length payload))
        ++ (13 ∷ 10 ∷ 13 ∷ 10 ∷ (payload ++ rest))
unfolding framed
framed-lines payload rest =
    let number = decimal (length payload) in
    rw
      (
        append_assoc (codes "Content-Length: ") (number ++ (13 ∷ 10 ∷ 13 ∷ 10 ∷ payload)) rest,
        append_assoc number (13 ∷ 10 ∷ 13 ∷ 10 ∷ payload) rest,
        append_assoc (codes "Content-Length: ") number (13 ∷ 10 ∷ 13 ∷ 10 ∷ (payload ++ rest)),
      )
      refl

pub read_headers-framed :
    (payload rest : Bytes)
    → read_headers (framed payload ++ rest) ≡ (
      headers ((codes "Content-Length: " ++ (decimal (length payload) ++ line_end)) ∷ []),
      payload ++ rest,
    )
unfolding read_headers same_bytes
read_headers-framed payload rest =
    let number = decimal (length payload) in
    let line = codes "Content-Length: " ++ number in
    rw (framed-lines payload rest) (
      read_lines-header _ line (payload ++ rest)
        (NoLineFeed-append (codes "Content-Length: ") number (all_letters)
          (digits-NoLineFeed number (decimal-IsDigit (length payload))))
        refl)
  where
    all_letters : NoLineFeed (codes "Content-Length: ")
    all_letters = ground arith

-- A framed payload is read whole, and what follows the frame is left.
pub read_payload-framed :
    (payload rest : Bytes) → read_payload (framed payload ++ rest) ≡ (ok payload, rest)
unfolding read_payload payload_behind payload_of or_parse_error
read_payload-framed payload rest =
    rw
      (
        read_headers-framed payload rest,
        get_content_length-header (length payload),
        read_exactly-append payload rest,
      )
      refl
