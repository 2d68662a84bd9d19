-- ===== src/Server/Http/Cut.antt =====
-- A request whose bytes end too early (the `return false` behind recv in read_http_request, 4699 and
-- 4764).
use codex_local_qwen27b.Base.{
  ℕ, ◌+◌, ◌<◌, ◌≡◌, refl, sym, ap, ◌∙◌, true, false, none, List, [], ◌∷◌, ◌++◌, append_assoc, Bytes,
  arith, ltb, if_both, length, is_empty, length-append, inl, inr, Bool-cases,
}
use codex_local_qwen27b.Server.Http.{
  Head, head_or, read_head, read_body, receive_body, finish_request, parse_head, read_http_request,
}
use codex_local_qwen27b.Server.Http.Fields.{query_or_empty}
use codex_local_qwen27b.Server.Http.Reading.{
  concat, NoneEmpty, beginning, IsHead, not_yet, receives, read_head-HeadRead,
}
use codex_local_qwen27b.Server.Http.Request.{
  Message, head_text, message_text, WellFormed, head_text-IsHead, start_found, start_words,
  good_length, head_field,
}

-- While the head is not whole the loop goes on, and the end of the bytes ends it without a head.
read_head_short :
    (ps : List Bytes) (xs head rest t : Bytes) (i : ℕ)
    → IsHead head i
    → NoneEmpty ps
    → (xs ++ concat ps) ++ rest ≡ head ++ t
    → length (xs ++ concat ps) < length head
    → read_head ps xs ≡ none
unfolding read_head
read_head_short [] xs head rest t i h n e l = refl
read_head_short (p ∷ ps) xs head rest t i h n e l =
    let sizes = length-append xs (p ++ concat ps) in
    let same = append_assoc xs p (concat ps) in
    receives p ps xs n.0 (omega (arith, l, sizes, h.fits))
    ∙ ap (λ z. head_or z (xs ++ p) ps (read_head ps (xs ++ p)))
        (not_yet head (xs ++ p) (concat ps ++ rest) t i h
          (sym (append_assoc (xs ++ p) (concat ps) rest) ∙ ap (λ z. z ++ rest) same ∙ e)
          (omega (arith, l, ap length same, length-append (xs ++ p) (concat ps))))
    ∙ read_head_short ps (xs ++ p) head rest t i h n.1 (ap (λ z. z ++ rest) same ∙ e)
        (omega (arith, l, ap length same))

read_body_short :
    (ps : List Bytes) (size : ℕ) (xs : Bytes)
    → length (xs ++ concat ps) < size
    → read_body size ps xs ≡ none
unfolding read_body
read_body_short [] size xs l = ground (arith, l, length-append xs [])
read_body_short (p ∷ ps) size xs l =
    let waits : ltb (length xs) size ≡ true =
      ground (arith, l, length-append xs (p ++ concat ps)) in
    rw
      (
        read_body,
        waits,
        read_body_short ps size (xs ++ p)
            (omega (arith, l, ap length (append_assoc xs p (concat ps)))),
      )
      (if_both (λ z. z ≡ none) (is_empty p) refl refl)

-- A whole head and a part of the body.
receive_body_short :
    (m : Message) (h : Head)
    → WellFormed m
    → h.head_size ≡ length (head_text m)
    → length (h.buffer ++ concat h.pieces) < length (head_text m) + length m.body
    → receive_body h (m.method, m.path, query_or_empty m.query) (false, length m.body) ≡ none
unfolding receive_body
receive_body_short m h w e l =
    rw
      (
        receive_body,
        good_length (length m.body) w.body_fits,
        read_body_short h.pieces (h.head_size + length m.body) h.buffer (omega (arith, e, l)),
      )
      refl

not_empty : (xs : Bytes) → is_empty xs ≡ false → 0 < length xs
not_empty [] e = cc
not_empty (x ∷ xs) e = omega arith

parse_head_short :
    (m : Message) (v : Bytes) (later : List Bytes)
    → WellFormed m
    → length ((head_text m ++ v) ++ concat later) < length (head_text m) + length m.body
    → parse_head
        (record { head_size = length (head_text m); buffer = head_text m ++ v; pieces = later })
      ≡ none
unfolding parse_head finish_request
parse_head_short m v later w l =
    let h : Head = record {
      head_size = length (head_text m);
      buffer = head_text m ++ v;
      pieces = later;
    } in
    rw (parse_head, start_found m v w)
      (ap (finish_request h) (start_words m v w)
        ∙ ap (receive_body h (m.method, m.path, query_or_empty m.query)) (head_field m v w)
        ∙ receive_body_short m h w refl l)

whole_head :
    (m : Message) (pieces : List Bytes) (u : Bytes)
    → WellFormed m
    → NoneEmpty pieces
    → concat pieces ≡ head_text m ++ u
    → length (concat pieces) < length (head_text m) + length m.body
    → read_http_request pieces ≡ none
unfolding read_http_request
whole_head m pieces u w n e l =
    let (i, h) = head_text-IsHead m w in
    let r = read_head-HeadRead pieces [] (head_text m) u i h n e (omega (arith, h.ends)) in
    let (v, q) =
      beginning (head_text m) u r.before (concat r.later) (sym r.all_bytes) r.whole_head in
    rw (read_http_request, r.outcome, q)
      (parse_head_short m v r.later w (
        omega
          (arith, l, ap length e, ap length (ap (λ z. z ++ concat r.later) (sym q) ∙ r.all_bytes))))

-- A request that breaks off before its last byte is refused, wherever it breaks off and in whatever
-- pieces it arrived.
pub read_http_request_cut :
    (m : Message) (pieces : List Bytes) (rest : Bytes)
    → WellFormed m
    → NoneEmpty pieces
    → is_empty rest ≡ false
    → concat pieces ++ rest ≡ message_text m
    → read_http_request pieces ≡ none
unfolding read_http_request
read_http_request_cut m pieces rest w n r e =
    let (i, h) = head_text-IsHead m w in
    let missing : 0 < length rest = not_empty rest r in
    let sizes = length-append (concat pieces) rest in
    elim (Bool-cases (ltb (length (concat pieces)) (length (head_text m)))) [
      | inl b ↦
          rw
            (
              read_http_request,
              read_head_short pieces [] (head_text m) rest m.body i h n e (ground (arith, b)),
            )
            refl
      | inr b ↦
          let (u, q) =
            beginning (head_text m) m.body (concat pieces) rest (sym e) (ground (arith, b)) in
          whole_head m pieces u w n q
            (omega (arith, missing, sizes, ap length e, length-append (head_text m) m.body))
    ]
