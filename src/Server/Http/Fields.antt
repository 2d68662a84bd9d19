-- ===== src/Server/Http/Fields.antt =====
-- The request line and the field Content-Length as they are read from header lines (4722-4759).
use codex_local_qwen27b.Base.{
  ℕ, suc, ◌+◌, ◌≡◌, refl, sym, ap, ◌∙◌, true, false, Option, none, some, List, [], ◌∷◌, ◌++◌,
  append_assoc, Bytes, codes, arith, all, length, find, starts_with, suc?, take, drop,
  length-append, take-length-append, drop-length-append,
}
use codex_local_qwen27b.Server.Http.{
  crlf, lf_blank, split_query, request_line, to_lower, content_length_key, drop_spaces, strtol,
  content_length, drop_cr,
}
use codex_local_qwen27b.Server.Http.Decimal.{
  digits_value, decimal, StartsDigit, decimal-StartsDigit, value-decimal,
}
use codex_local_qwen27b.Server.Http.Find.{shift, has_no, find-append, find-none_of, find-across}
use codex_local_qwen27b.Server.Http.Lines.{lines_then, lines_then-append, IsLine, AllLines}
use mathlib.Core.List.{map, map-append}

line_start :
    (m rest : Bytes)
    → IsLine m
    → find (b'\n' ∷ m ++ rest) lf_blank ≡ suc? (find (m ++ rest) lf_blank)
unfolding find starts_with all
line_start [] rest h = absurd (ground (arith, h.not_empty))
line_start (c ∷ cs) rest h = ground (arith, h.no_lf)

no_lf_behind : (ls : List Bytes) → AllLines ls → find (b'\n' ∷ lines_then ls crlf) lf_blank ≡ none
unfolding find starts_with
no_lf_behind [] h = refl
no_lf_behind (m ∷ ms) h =
    line_start m (b'\r' ∷ b'\n' ∷ lines_then ms crlf) h.0
    ∙ ap suc? (find-append m b'\n' (b'\n' ∷ []) (b'\r' ∷ b'\n' ∷ lines_then ms crlf) h.0.no_lf)
    ∙ ap (λ o. suc? (shift (length m) (suc? o))) (no_lf_behind ms h.1)

-- No LF blank line stands in a head.
pub find-lf_blank :
    (l : Bytes) (ls : List Bytes)
    → AllLines (l ∷ ls)
    → find (lines_then (l ∷ ls) crlf) lf_blank ≡ none
unfolding find starts_with
find-lf_blank l ls h =
    find-append l b'\n' (b'\n' ∷ []) (b'\r' ∷ b'\n' ∷ lines_then ls crlf) h.0.no_lf
    ∙ ap (λ o. shift (length l) (suc? o)) (no_lf_behind ls h.1)

-- Where the first line ends, and what it is.
pub find-line_end :
    (l rest : Bytes)
    → IsLine l
    → find (l ++ b'\r' ∷ b'\n' ∷ rest) (codes "\n") ≡ some (length l + 1)
unfolding find starts_with
find-line_end l rest h = find-append l b'\n' [] (b'\r' ∷ b'\n' ∷ rest) h.no_lf

take_line : (l rest : Bytes) → take (suc (length l)) (l ++ b'\r' ∷ rest) ≡ l ++ b'\r' ∷ []
take_line [] rest = refl
take_line (c ∷ cs) rest = ap (◌∷◌ c) (take_line cs rest)

drop_cr_line : (l : Bytes) → drop_cr (l ++ b'\r' ∷ []) ≡ l
unfolding drop_cr
drop_cr_line [] = refl
drop_cr_line (c ∷ []) = refl
drop_cr_line (c ∷ d ∷ ds) = ap (◌∷◌ c) (drop_cr_line (d ∷ ds))

pub first_line : (l rest : Bytes) → drop_cr (take (length l + 1) (l ++ b'\r' ∷ rest)) ≡ l
first_line l rest =
    ap (λ n. drop_cr (take n (l ++ b'\r' ∷ rest))) {y = suc (length l)} (omega arith)
    ∙ ap drop_cr (take_line l rest)
    ∙ drop_cr_line l

drop-suc : (l rest : Bytes) (c : ℕ) → drop (suc (length l)) (l ++ c ∷ rest) ≡ rest
drop-suc [] rest c = refl
drop-suc (x ∷ xs) rest c = drop-suc xs rest c

pub drop_next : (l rest : Bytes) (c : ℕ) → drop (length l + 1) (l ++ c ∷ rest) ≡ rest
drop_next l rest c =
    ap (λ n. drop n (l ++ c ∷ rest)) {y = suc (length l)} (omega arith) ∙ drop-suc l rest c

-- A separator behind bytes that have none.
pub find_separator :
    (xs ys : Bytes) (c : ℕ) → has_no c xs ≡ true → find (xs ++ c ∷ ys) (c ∷ []) ≡ some (length xs)
unfolding find starts_with
find_separator xs ys c h = find-append xs c [] (c ∷ ys) h ∙ ground arith

-- The target of a request: a path, and a query behind `?` if there is one.
abbrev pub target : Bytes → Option Bytes → Bytes
target path none = path
target path (some query) = path ++ b'?' ∷ query

abbrev pub query_or_empty : Option Bytes → Bytes
query_or_empty none = []
query_or_empty (some query) = query

pub split_query-target :
    (path : Bytes) (query : Option Bytes)
    → has_no b'?' path ≡ true
    → split_query (target path query) ≡ (path, query_or_empty query)
unfolding split_query
split_query-target path none h = rw (split_query, find-none_of path b'?' [] h) refl
split_query-target path (some q) h =
    rw
      (
        split_query,
        find_separator path q b'?' h,
        take-length-append path (b'?' ∷ q),
        drop_next path q b'?',
      )
      refl

-- The three words of a request line.
pub request_line_words :
    (method url version : Bytes)
    → has_no b' ' method ≡ true
    → has_no b' ' url ≡ true
    → request_line (method ++ b' ' ∷ (url ++ b' ' ∷ version))
      ≡ some (method, (split_query url).0, (split_query url).1)
unfolding request_line
request_line_words m u v h k =
    rw
      (
        request_line,
        find_separator m (u ++ b' ' ∷ v) b' ' h,
        drop_next m (u ++ b' ' ∷ v) b' ',
        find_separator u v b' ' k,
        drop_next m (u ++ b' ' ∷ v) b' ',
        take-length-append m (b' ' ∷ (u ++ b' ' ∷ v)),
        take-length-append u (b' ' ∷ v),
      )
      refl

length-lower : (l : Bytes) → length (map to_lower l) ≡ length l
length-lower [] = refl
length-lower (c ∷ cs) = ap suc (length-lower cs)

-- No line has the key, in any case of its letters.
abbrev pub NoneHasKey : List Bytes → Type 0
NoneHasKey [] = Unit
NoneHasKey (l ∷ ls) = (find (map to_lower l) content_length_key ≡ none) × NoneHasKey ls

field_position :
    (ls : List Bytes) (rest : Bytes)
    → NoneHasKey ls
    → find (map to_lower (lines_then ls (codes "Content-Length:" ++ rest))) content_length_key
      ≡ some (length (lines_then ls []))
unfolding find starts_with to_lower all
field_position [] rest h = refl
field_position (l ∷ ls) rest h =
    let behind = lines_then ls (codes "Content-Length:" ++ rest) in
    ap (λ z. find z content_length_key) (map-append to_lower l (b'\r' ∷ b'\n' ∷ behind))
    ∙ find-across (map to_lower l) (b'\n' ∷ map to_lower behind) content_length_key b'\r' refl h.0
    ∙ ap (λ o. shift (suc (length (map to_lower l))) (suc? o)) (field_position ls rest h.1)
    ∙ ap some (omega (arith, length-lower l, length-append l (b'\r' ∷ b'\n' ∷ lines_then ls [])))

drop_past :
    (ls : List Bytes) (xs rest : Bytes)
    → drop (length (lines_then ls []) + length xs) (lines_then ls (xs ++ rest)) ≡ rest
drop_past ls xs rest =
    ap (drop _)
      (sym (lines_then-append ls [] (xs ++ rest)) ∙ sym (append_assoc (lines_then ls []) xs rest))
    ∙ ap (λ n. drop n ((lines_then ls [] ++ xs) ++ rest))
        (sym (length-append (lines_then ls []) xs))
    ∙ drop-length-append (lines_then ls [] ++ xs) rest

strtol-digits :
    (xs ys : Bytes)
    → StartsDigit xs
    → strtol (drop_spaces (xs ++ ys)) ≡ (false, digits_value 0 (xs ++ ys))
unfolding drop_spaces strtol
strtol-digits [] ys h = absurd h
strtol-digits (c ∷ cs) ys h = ground (arith, h)

value_of_field :
    (n : ℕ) (rest : Bytes) → strtol (drop_spaces (b' ' ∷ decimal n ++ b'\r' ∷ rest)) ≡ (false, n)
unfolding drop_spaces strtol
value_of_field n rest =
    strtol-digits (decimal n) (b'\r' ∷ rest) (decimal-StartsDigit n)
    ∙ ap (λ v. (false, v)) (value-decimal n b'\r' rest refl)

-- The field's value is read.
pub content_length-field :
    (ls : List Bytes) (n : ℕ) (rest : Bytes)
    → NoneHasKey ls
    → content_length (lines_then ls (codes "Content-Length:" ++ (b' ' ∷ decimal n ++ b'\r' ∷ rest)))
      ≡ (false, n)
unfolding content_length
content_length-field ls n rest h =
    rw
      (
        content_length,
        field_position ls (b' ' ∷ decimal n ++ b'\r' ∷ rest) h,
        drop_past ls (codes "Content-Length:") (b' ' ∷ decimal n ++ b'\r' ∷ rest),
      )
      (value_of_field n rest)
