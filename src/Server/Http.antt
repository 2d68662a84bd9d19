-- ===== src/Server/Http.antt =====
-- HTTP messages (server/src/server/http_server.cpp, 4676-4770 and 4878-4905). A socket is a list of
-- the pieces that recv returns; where the list ends, or a piece is empty, recv returns 0 or -1.
pub mod Decimal
pub mod Find
pub mod Lines
pub mod Reading
pub mod Fields
pub mod Request
pub mod Cut
use codex_local_qwen27b.Base.{
  ℕ, zero, suc, ◌+◌, ◌-◌, ◌*◌, Bool, true, false, not, ◌&&◌, ◌||◌, Option, none, some, List, [],
  ◌∷◌, ◌++◌, Bytes, codes, ◌==◌, ltb, leb, if◌then◌else◌, length, is_empty, take, drop, find,
  get_elem?,
}
use codex_local_qwen27b.Server.Http.Decimal.{decimal, digits_value}
use mathlib.Core.List.{map}

pub record HttpRequest : Type 0 where
  pub method : Bytes
  pub path : Bytes
  pub query : Bytes
  pub body : Bytes

abbrev pub crlf : Bytes
crlf = b'\r' ∷ b'\n' ∷ []

abbrev pub crlf_blank : Bytes
crlf_blank = b'\r' ∷ b'\n' ∷ b'\r' ∷ b'\n' ∷ []

abbrev pub lf_blank : Bytes
lf_blank = b'\n' ∷ b'\n' ∷ []

-- The position behind a blank line of CRLF, or else of LF.
abbrev pub end_of : Option ℕ → Option ℕ → Option ℕ
end_of (some i) o = some (i + 4)
end_of none (some i) = some (i + 2)
end_of none none = none

-- 4702-4717: the position behind the first blank line, `\r\n\r\n` before `\n\n`.
unfoldable pub head_end : Bytes → Option ℕ
head_end buf = end_of (find buf crlf_blank) (find buf lf_blank)

-- The position, the bytes read so far and the pieces that are left.
pub record Head : Type 0 where
  pub head_size : ℕ
  pub buffer : Bytes
  pub pieces : List Bytes

-- Where the head has ended the loop ends.
abbrev pub head_or : Option ℕ → Bytes → List Bytes → Option Head → Option Head
head_or (some h) buf pieces rest = some (record { head_size = h; buffer = buf; pieces = pieces })
head_or none buf pieces rest = rest

-- 4696-4719; the buffer has no blank line yet.
unfoldable pub read_head : List Bytes → Bytes → Option Head
unfolding head_end
read_head [] buf = none
read_head (piece ∷ pieces) buf =
    let rest = read_head pieces (buf ++ piece) in
    if not (ltb (length buf) 65536) || is_empty piece
    then none
    else head_or (head_end (buf ++ piece)) (buf ++ piece) pieces rest

-- if (!s.empty() && s.back() == '\r') s.pop_back();
unfoldable pub drop_cr : Bytes → Bytes
drop_cr [] = []
drop_cr (c ∷ []) = if c == b'\r' then [] else c ∷ []
drop_cr (c ∷ d ∷ ds) = c ∷ drop_cr (d ∷ ds)

-- 4735-4741
unfoldable pub split_query : Bytes → Bytes × Bytes
split_query target = elim (find target (codes "?")) [
  | some q ↦ (take q target, drop (q + 1) target)
  | none ↦ (target, [])
]

-- 4728-4741: the method, the path and the query.
unfoldable pub request_line : Bytes → Option (Bytes × Bytes × Bytes)
unfolding split_query
request_line line = elim (find line (codes " ")) [
  | none ↦ none
  | some sp1 ↦ elim (find (drop (sp1 + 1) line) (codes " ")) [
    | none ↦ none
    | some n ↦
        let target = split_query (take n (drop (sp1 + 1) line)) in
        some (take sp1 line, target.0, target.1)
  ]
]

-- ::tolower, in the C locale
unfoldable pub to_lower : ℕ → ℕ
to_lower c = if leb b'A' c && leb c b'Z' then c + 32 else c

-- isspace, in the C locale
abbrev pub is_space : ℕ → Bool
is_space c = c == b' ' || (leb 9 c && leb c 13)

-- strtol with base 10: whether a minus sign stands before the digits, and their value. A value above
-- LONG_MAX, which strtol cuts to LONG_MAX, is above the limit of 4759 either way.
unfoldable pub strtol : Bytes → Bool × ℕ
strtol [] = (false, 0)
strtol (c ∷ cs) =
    let rest = strtol cs in
    if is_space c
    then rest
    else if c == b'-'
    then (true, digits_value 0 cs)
    else if c == b'+'
    then (false, digits_value 0 cs)
    else (false, digits_value 0 (c ∷ cs))

abbrev pub content_length_key : Bytes
content_length_key = codes "content-length:"

unfoldable pub drop_spaces : Bytes → Bytes
drop_spaces [] = []
drop_spaces (c ∷ cs) = let rest = drop_spaces cs in if c == b' ' then rest else c ∷ cs

-- 4744-4757
unfoldable pub content_length : Bytes → Bool × ℕ
unfolding drop_spaces strtol to_lower
content_length headers = elim (find (map to_lower headers) content_length_key) [
  | none ↦ (false, 0)
  | some p ↦ strtol (drop_spaces (drop (p + 15) headers))
]

abbrev pub max_content_length : ℕ
max_content_length = 67108864

-- 4759: a negative length, or one above 64 MiB
unfoldable pub bad_length : Bool × ℕ → Bool
bad_length (negative, n) = (negative && ltb 0 n) || ltb max_content_length n

-- 4762-4766
unfoldable pub read_body : ℕ → List Bytes → Bytes → Option Bytes
read_body size [] buf = if ltb (length buf) size then none else some buf
read_body size (piece ∷ pieces) buf =
    let rest = read_body size pieces (buf ++ piece) in
    if ltb (length buf) size then (if is_empty piece then none else rest) else some buf

-- 4759-4769, for a Content-Length.
unfoldable pub receive_body : Head → Bytes × Bytes × Bytes → Bool × ℕ → Option HttpRequest
unfolding bad_length read_body
receive_body h (m, p, q) length_field =
    if bad_length length_field
    then none
    else elim (read_body (h.head_size + length_field.1) h.pieces h.buffer) [
      | none ↦ none
      | some buf ↦ some (record {
        method = m;
        path = p;
        query = q;
        body = take length_field.1 (drop h.head_size buf);
      })
    ]

-- 4743-4769; the header block is the first `head_size` bytes.
unfoldable pub finish_request : Head → Option (Bytes × Bytes × Bytes) → Option HttpRequest
unfolding content_length receive_body
finish_request h none = none
finish_request h (some words) = receive_body h words (content_length (take h.head_size h.buffer))

-- 4721-4769
unfoldable pub parse_head : Head → Option HttpRequest
unfolding request_line finish_request drop_cr
parse_head h = elim (find h.buffer (codes "\n")) [
  | none ↦ none
  | some line_end ↦ finish_request h (request_line (drop_cr (take line_end h.buffer)))
]

unfoldable pub read_http_request : List Bytes → Option HttpRequest
unfolding read_head parse_head
read_http_request pieces = elim (read_head pieces []) [ none ↦ none | some h ↦ parse_head h ]

-- 4881-4891
unfoldable pub reason_phrase : ℕ → Bytes
reason_phrase status =
    if status == 204
    then codes "No Content"
    else if status == 400
    then codes "Bad Request"
    else if status == 404
    then codes "Not Found"
    else if status == 405
    then codes "Method Not Allowed"
    else if status == 413
    then codes "Payload Too Large"
    else if status == 500
    then codes "Internal Server Error"
    else if status == 503
    then codes "Service Unavailable"
    else codes "OK"

-- 4892-4904
unfoldable pub format_http_response : Bool → ℕ → Bytes → Bytes → Bytes
unfolding reason_phrase decimal
format_http_response enable_cors status content_type body =
    (codes "HTTP/1.1 " ++ (decimal status ++ (codes " " ++ (reason_phrase status ++ crlf))))
    ++ ((if enable_cors
          then codes "Access-Control-Allow-Origin: *\r\n"
            ++ (codes "Access-Control-Allow-Methods: GET, POST, OPTIONS\r\n"
                ++ codes "Access-Control-Allow-Headers: *\r\n")
          else [])
        ++ ((if is_empty content_type then [] else codes "Content-Type: " ++ (content_type ++ crlf))
            ++ ((codes "Content-Length: " ++ (decimal (length body) ++ crlf))
                ++ (codes "Connection: close\r\n\r\n" ++ body))))
