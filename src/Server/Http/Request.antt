-- ===== src/Server/Http/Request.antt =====
-- A request as a client writes it, and what read_http_request (4676-4770) makes of it.
use codex_local_qwen27b.Base.{
  ℕ, ◌+◌, ◌≤◌, ◌≡◌, sym, ap, ◌∙◌, true, false, Option, some, List, [], ◌∷◌, ◌++◌, append_assoc,
  Bytes, codes, arith, length, find, take, drop, length-append, take-length-append,
  drop-length-append,
}
use codex_local_qwen27b.Server.Http.{
  HttpRequest, crlf, crlf_blank, Head, receive_body, finish_request, parse_head, read_http_request,
  max_content_length, content_length, request_line, drop_cr, bad_length,
}
use codex_local_qwen27b.Server.Http.Decimal.{decimal}
use codex_local_qwen27b.Server.Http.Find.{has_no}
use codex_local_qwen27b.Server.Http.Lines.{
  lines_then, lines_then-append, lines_then_lines, AllLines, find-crlf_blank,
}
use codex_local_qwen27b.Server.Http.Fields.{
  find-lf_blank, find-line_end, first_line, target, query_or_empty, split_query-target,
  request_line_words, NoneHasKey, content_length-field,
}
use codex_local_qwen27b.Server.Http.Reading.{
  concat, NoneEmpty, beginning, IsHead, read_head-HeadRead, read_body-BodyRead,
}

-- A request: the header fields before and after Content-Length are whole lines.
pub record Message : Type 0 where
  pub method : Bytes
  pub path : Bytes
  pub query : Option Bytes
  pub version : Bytes
  pub fields_before : List Bytes
  pub fields_after : List Bytes
  pub body : Bytes

abbrev pub start_line : Message → Bytes
start_line m = m.method ++ b' ' ∷ (target m.path m.query ++ b' ' ∷ m.version)

abbrev pub length_field : ℕ → Bytes
length_field n = codes "Content-Length:" ++ (b' ' ∷ decimal n)

abbrev pub header_lines : Message → List Bytes
header_lines m = m.fields_before ++ length_field (length m.body) ∷ m.fields_after

abbrev pub head_text : Message → Bytes
head_text m = lines_then (start_line m ∷ header_lines m) crlf

abbrev pub message_text : Message → Bytes
message_text m = head_text m ++ m.body

abbrev pub to_request : Message → HttpRequest
to_request m = record {
  method = m.method;
  path = m.path;
  query = query_or_empty m.query;
  body = m.body;
}

-- The words have no separator, the lines neither CR nor LF, no line before the field has its key,
-- and the sizes are within the limits.
pub record WellFormed (m : Message) : Type 0 where
  pub method_word : has_no b' ' m.method ≡ true
  pub target_word : has_no b' ' (target m.path m.query) ≡ true
  pub path_part : has_no b'?' m.path ≡ true
  pub all_lines : AllLines (start_line m ∷ header_lines m)
  pub no_other_length : NoneHasKey (start_line m ∷ m.fields_before)
  pub head_fits : length (head_text m) ≤ 65536
  pub body_fits : length m.body ≤ max_content_length

blank_line :
    (m : Message) (t : Bytes) (i : ℕ)
    → WellFormed m
    → i + 4 ≡ length (head_text m)
    → find (lines_then (start_line m ∷ header_lines m) (crlf ++ t)) crlf_blank ≡ some i
blank_line m t i w n =
    let (j, e, k) = find-crlf_blank (start_line m) (header_lines m) t w.all_lines in
    e ∙ ap some (omega (arith, k, n))

pub head_text-IsHead : (m : Message) → WellFormed m → (i : ℕ) × IsHead (head_text m) i
head_text-IsHead m w =
    let (i, e, n) = find-crlf_blank (start_line m) (header_lines m) [] w.all_lines in
    (
      i,
      record {
        blank = λ t.
            ap (λ z. find z crlf_blank) (lines_then-append (start_line m ∷ header_lines m) crlf t)
            ∙ blank_line m t i w n;
        ends = n;
        no_lf_blank = find-lf_blank (start_line m) (header_lines m) w.all_lines;
        fits = w.head_fits;
      },
    )

head_length : (m : Message) → WellFormed m → content_length (head_text m) ≡ (false, length m.body)
head_length m w =
    ap content_length (
      lines_then_lines (start_line m ∷ m.fields_before)
        (length_field (length m.body) ∷ m.fields_after) crlf)
    ∙ content_length-field (start_line m ∷ m.fields_before) (length m.body)
        (b'\n' ∷ lines_then m.fields_after crlf) w.no_other_length

-- The first line of a head is found and cut, whatever follows the head.
pub start_found :
    (m : Message) (u : Bytes)
    → WellFormed m
    → find (head_text m ++ u) (codes "\n") ≡ some (length (start_line m) + 1)
start_found m u w =
    ap (λ z. find z (codes "\n")) (lines_then-append (start_line m ∷ header_lines m) crlf u)
    ∙ find-line_end (start_line m) (lines_then (header_lines m) (crlf ++ u)) w.all_lines.0

start_cut :
    (m : Message) (u : Bytes)
    → drop_cr (take (length (start_line m) + 1) (head_text m ++ u)) ≡ start_line m
start_cut m u =
    ap (λ z. drop_cr (take (length (start_line m) + 1) z))
      (lines_then-append (start_line m ∷ header_lines m) crlf u)
    ∙ first_line (start_line m) (b'\n' ∷ lines_then (header_lines m) (crlf ++ u))

pub start_words :
    (m : Message) (u : Bytes)
    → WellFormed m
    → request_line (drop_cr (take (length (start_line m) + 1) (head_text m ++ u)))
      ≡ some (m.method, m.path, query_or_empty m.query)
start_words m u w =
    ap request_line (start_cut m u)
    ∙ request_line_words m.method (target m.path m.query) m.version w.method_word w.target_word
    ∙ ap (λ z. some (m.method, z.0, z.1)) (split_query-target m.path m.query w.path_part)

pub good_length : (n : ℕ) → n ≤ max_content_length → bad_length (false, n) ≡ false
unfolding bad_length
good_length n l = ground arith

-- The body is cut from what the loop of the body leaves.
body_cut :
    (m : Message) (extra read unread : Bytes)
    → read ++ unread ≡ message_text m ++ extra
    → length (head_text m) + length m.body ≤ length read
    → take (length m.body) (drop (length (head_text m)) read) ≡ m.body
body_cut m extra read unread e l =
    let (u, q) =
      beginning (message_text m) extra read unread (sym e)
        (omega (arith, length-append (head_text m) m.body)) in
    ap (λ z. take (length m.body) (drop (length (head_text m)) z))
      (q ∙ append_assoc (head_text m) m.body u)
    ∙ ap (take (length m.body)) (drop-length-append (head_text m) (m.body ++ u))
    ∙ take-length-append m.body u

-- Behind the request line, once the loop of the head is done.
receive_body-to_request :
    (m : Message) (extra u : Bytes) (later : List Bytes)
    → WellFormed m
    → NoneEmpty later
    → (head_text m ++ u) ++ concat later ≡ message_text m ++ extra
    → receive_body
        (record { head_size = length (head_text m); buffer = head_text m ++ u; pieces = later })
        (m.method, m.path, query_or_empty m.query)
        (false, length m.body)
      ≡ some (to_request m)
unfolding receive_body
receive_body-to_request m extra u later w n e =
    let r =
      read_body-BodyRead later (length (head_text m) + length m.body) (head_text m ++ u)
        (message_text m ++ extra) n e
        (omega (arith, length-append (head_text m) m.body, length-append (message_text m) extra)) in
    rw (receive_body, good_length (length m.body) w.body_fits, r.outcome)
      (ap
        (λ z.
          some
            (record { method = m.method; path = m.path; query = query_or_empty m.query; body = z }))
        (body_cut m extra r.read r.unread r.all_bytes r.enough))

pub head_field :
    (m : Message) (u : Bytes)
    → WellFormed m
    → content_length (take (length (head_text m)) (head_text m ++ u)) ≡ (false, length m.body)
head_field m u w = ap content_length (take-length-append (head_text m) u) ∙ head_length m w

parse_head-to_request :
    (m : Message) (extra u : Bytes) (later : List Bytes)
    → WellFormed m
    → NoneEmpty later
    → (head_text m ++ u) ++ concat later ≡ message_text m ++ extra
    → parse_head
        (record { head_size = length (head_text m); buffer = head_text m ++ u; pieces = later })
      ≡ some (to_request m)
unfolding parse_head finish_request
parse_head-to_request m extra u later w n e =
    let h : Head = record {
      head_size = length (head_text m);
      buffer = head_text m ++ u;
      pieces = later;
    } in
    rw (parse_head, start_found m u w)
      (ap (finish_request h) (start_words m u w)
        ∙ ap (receive_body h (m.method, m.path, query_or_empty m.query)) (head_field m u w)
        ∙ receive_body-to_request m extra u later w n e)

-- A well-formed request is read back: the method, the path, the query and the body come out as they
-- were written, in whatever pieces the text arrives and whatever follows the request.
pub read_http_request_roundtrip :
    (m : Message) (pieces : List Bytes) (extra : Bytes)
    → WellFormed m
    → NoneEmpty pieces
    → concat pieces ≡ message_text m ++ extra
    → read_http_request pieces ≡ some (to_request m)
unfolding read_http_request
read_http_request_roundtrip m pieces extra w n e =
    let (i, h) = head_text-IsHead m w in
    let r =
      read_head-HeadRead pieces [] (head_text m) (m.body ++ extra) i h n
        (e ∙ append_assoc (head_text m) m.body extra) (omega (arith, h.ends)) in
    let (u, q) =
      beginning (head_text m) (m.body ++ extra) r.before (concat r.later) (sym r.all_bytes)
        r.whole_head in
    rw (read_http_request, r.outcome, q)
      (parse_head-to_request m extra u r.later w r.no_empty (
        ap (λ z. z ++ concat r.later) (sym q)
        ∙ r.all_bytes
        ∙ sym (append_assoc (head_text m) m.body extra)))
