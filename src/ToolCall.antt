-- ===== src/ToolCall.antt =====
-- The text of tool calls (server/src/server/tool_parser.cpp): spans of removed text, matching braces,
-- malformed objects, and the arguments of a function signature.
pub mod Braces
pub mod Malformed
pub mod Signature
pub mod Schema
pub mod Cleaned
use codex_local_qwen27b.Base.{
  ℕ, zero, suc, ◌+◌, ◌-◌, Bool, true, false, not, ◌&&◌, ◌||◌, Option, none, some, List, [], ◌∷◌,
  ◌++◌, Bytes, codes, ◌==◌, ltb, leb, if◌then◌else◌, any, all, length, is_empty, take, drop,
  get_elem?, find, starts_with, is_ws, drop_leading, count_while, is_some,
}

pub record Span : Type 0 where
  pub start : ℕ
  pub end : ℕ

-- 324-329
unfoldable pub overlaps : List Span → ℕ → Bool
overlaps spans pos = any (λ s. leb s.start pos && ltb pos s.end) spans

-- 341-362
unfoldable pub include_following_tool_call_close : Bytes → ℕ → Bytes → ℕ
include_following_tool_call_close text pos fn_name =
    let behind = drop_leading is_ws (drop pos text) in
    let close_pos = length text - length behind in
    let tool_close = codes "</" ++ (fn_name ++ codes ">") in
    if starts_with (codes "</tool_call>") behind
    then close_pos + 12
    else if not (is_empty fn_name) && starts_with tool_close behind
    then close_pos + length tool_close
    else pos

-- Where the scan of balanced_braces_end stands: outside of strings, in a string that the quote `q`
-- has opened, or behind a backslash in it.
pub data BraceMode : Type 0 where
  outside : BraceMode
  inside : (q : ℕ) → BraceMode
  escaped : (q : ℕ) → BraceMode

pub record BraceScan : Type 0 where
  pub depth : ℕ
  pub mode : BraceMode

-- One byte: the scan goes on, the brace is closed, or a closer has no opener.
pub data BraceStep : Type 0 where
  goes_on : (s : BraceScan) → BraceStep
  closed : BraceStep
  broken : BraceStep

abbrev pub is_quote : ℕ → Bool
is_quote c = c == b'"' || c == b'\'' || c == b'`'

abbrev pub is_opener : ℕ → Bool
is_opener c = c == b'{' || c == b'['

abbrev pub is_closer : ℕ → Bool
is_closer c = c == b'}' || c == b']'

-- 483-490
unfoldable pub outside_step : ℕ → ℕ → BraceStep
outside_step c d =
    if is_quote c
    then goes_on (record { depth = d; mode = inside c })
    else if is_opener c
    then goes_on (record { depth = suc d; mode = outside })
    else if is_closer c
    then (if d == 0
        then broken
        else if d == 1 && c == b'}'
        then closed
        else goes_on (record { depth = d - 1; mode = outside }))
    else goes_on (record { depth = d; mode = outside })

-- 476-490; a backslash that ends the text leaves the string open either way.
unfoldable pub brace_step : ℕ → BraceScan → BraceStep
unfolding outside_step
brace_step c s = elim s.mode [
  | outside ↦ outside_step c s.depth
  | inside q ↦
      if c == b'\\'
      then goes_on (record { depth = s.depth; mode = escaped q })
      else if c == q
      then goes_on (record { depth = s.depth; mode = outside })
      else goes_on (record { depth = s.depth; mode = inside q })
  | escaped q ↦ goes_on (record { depth = s.depth; mode = inside q })
]

-- From position `i` on.
unfoldable pub braces_end : Bytes → ℕ → BraceScan → Option ℕ
unfolding brace_step
braces_end [] i s = none
braces_end (c ∷ cs) i s = elim (brace_step c s) [
  | goes_on t ↦ braces_end cs (suc i) t
  | closed ↦ some (suc i)
  | broken ↦ none
]

-- 473-493
unfoldable pub balanced_braces_end : Bytes → ℕ → Option ℕ
unfolding braces_end
balanced_braces_end text start =
    braces_end (drop start text) start (record { depth = 0; mode = outside })

-- 514-527: what stands behind the quote that closes a string. A backslash that ends the text is not
-- followed by the quote either way.
unfoldable pub after_quote : ℕ → Bool → Bytes → Option Bytes
after_quote q behind_backslash [] = none
after_quote q true (c ∷ cs) = after_quote q false cs
after_quote q false (c ∷ cs) = elim (c == b'\\') [
  | true ↦ after_quote q true cs
  | false ↦ elim (c == q) [ true ↦ some cs | false ↦ after_quote q false cs ]
]

abbrev pub is_ident_start : ℕ → Bool
is_ident_start c = (leb b'a' c && leb c b'z') || (leb b'A' c && leb c b'Z') || c == b'_'

abbrev pub is_ident_continue : ℕ → Bool
is_ident_continue c = is_ident_start c || (leb b'0' c && leb c b'9') || c == b'.' || c == b'-'

-- 512-539: behind the key, which is a string or an identifier.
unfoldable pub after_key : Bytes → Option Bytes
unfolding after_quote drop_leading
after_key [] = none
after_key (c ∷ cs) =
    if is_quote c
    then after_quote c false cs
    else if is_ident_start c
    then some (drop_leading is_ident_continue (c ∷ cs))
    else none

abbrev pub starts_with_colon : Bytes → Bool
starts_with_colon [] = false
starts_with_colon (c ∷ cs) = c == b':'

-- 508-542, on the bytes between the braces.
unfoldable pub has_key : Bytes → Bool
unfolding after_key drop_leading
has_key inner = elim (after_key (drop_leading is_ws inner)) [
  | none ↦ false
  | some behind ↦ starts_with_colon (drop_leading is_ws behind)
]

abbrev pub is_byte : ℕ → Option ℕ → Bool
is_byte b none = false
is_byte b (some c) = c == b

-- 498-543
unfoldable pub looks_like_malformed_json_object : Bytes → Bool
unfolding balanced_braces_end has_key
looks_like_malformed_json_object text =
    if ltb (length text) 2
      || not (is_byte b'{' (get_elem? text 0))
      || not (is_byte b'}' (get_elem? text (length text - 1)))
      || not (is_byte (length text) (balanced_braces_end text 0))
    then false
    else has_key (take (length text - 2) (drop 1 text))
