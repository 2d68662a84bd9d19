-- ===== src/Tests/Http.antt =====
-- HTTP messages (server/src/server/http_server.cpp) at concrete inputs.
use codex_local_qwen27b.Base.{
  ◌≡◌, refl, false, none, some, List, [], ◌∷◌, ◌++◌, Bytes, codes, arith, all, find, starts_with,
  take, drop,
}
use codex_local_qwen27b.Server.Http.{
  read_head, head_end, read_body, split_query, request_line, to_lower, drop_spaces, strtol,
  content_length, bad_length, drop_cr, receive_body, finish_request, parse_head, read_http_request,
  reason_phrase, format_http_response,
}
use codex_local_qwen27b.Server.Http.Decimal.{decimal, digits, digits_value}
use codex_local_qwen27b.Server.Http.Cut.{read_http_request_cut}
use codex_local_qwen27b.Server.Http.Request.{
  Message, message_text, to_request, WellFormed, read_http_request_roundtrip,
}

abbrev post_chat : Message
post_chat = record {
  method = codes "POST";
  path = codes "/v1/chat";
  query = some (codes "a=b");
  version = codes "HTTP/1.1";
  fields_before = codes "Host: x" ∷ [];
  fields_after = codes "Accept: */*" ∷ [];
  body = codes "{}";
}

post_chat-WellFormed : WellFormed post_chat
unfolding all find starts_with to_lower decimal digits
post_chat-WellFormed = record {
  method_word = refl;
  target_word = refl;
  path_part = refl;
  all_lines = (
    record { not_empty = refl; no_cr = refl; no_lf = refl },
    (
      record { not_empty = refl; no_cr = refl; no_lf = refl },
      (
        record { not_empty = refl; no_cr = refl; no_lf = refl },
        (record { not_empty = refl; no_cr = refl; no_lf = refl }, tt),
      ),
    ),
  );
  no_other_length = (refl, (refl, tt));
  head_fits = omega arith;
  body_fits = omega arith;
}

-- The text comes in two pieces, the cut inside of the blank line, and more bytes follow.
abbrev pieces : List Bytes
pieces = take 69 (message_text post_chat) ∷ (drop 69 (message_text post_chat) ++ codes "next") ∷ []

read_example : read_http_request pieces ≡ some (to_request post_chat)
unfolding decimal digits
read_example =
    read_http_request_roundtrip post_chat pieces (codes "next") post_chat-WellFormed
      (refl, (refl, tt)) refl

-- A stream that ends in the middle of the body is refused.
cut_body : read_http_request (codes "GET / HTTP/1.1\r\nContent-Length: 3\r\n\r\nab" ∷ []) ≡ none
unfolding find starts_with to_lower decimal digits digits_value read_head head_end read_body
    split_query request_line drop_spaces strtol content_length bad_length drop_cr receive_body
    finish_request parse_head read_http_request reason_phrase format_http_response
cut_body = refl

-- Any field whose name ends in "content-length:" sets the length.
other_field :
    read_http_request (codes "GET / HTTP/1.1\r\nX-Content-Length: 2\r\n\r\nab" ∷ [])
    ≡ some (record { method = codes "GET"; path = codes "/"; query = []; body = codes "ab" })
unfolding find starts_with to_lower decimal digits digits_value read_head head_end read_body
    split_query request_line drop_spaces strtol content_length bad_length drop_cr receive_body
    finish_request parse_head read_http_request reason_phrase format_http_response
other_field = refl

response :
    format_http_response false 404 [] (codes "{}")
    ≡ codes "HTTP/1.1 404 Not Found\r\nContent-Length: 2\r\nConnection: close\r\n\r\n{}"
unfolding find starts_with to_lower decimal digits digits_value read_head head_end read_body
    split_query request_line drop_spaces strtol content_length bad_length drop_cr receive_body
    finish_request parse_head read_http_request reason_phrase format_http_response
response = refl

cut_example : read_http_request (take 60 (message_text post_chat) ∷ []) ≡ none
unfolding decimal digits
cut_example =
    read_http_request_cut post_chat (take 60 (message_text post_chat) ∷ [])
      (drop 60 (message_text post_chat)) post_chat-WellFormed (refl, tt) refl refl
