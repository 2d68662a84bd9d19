-- ===== src/Sse/ThinkClose.antt =====
-- find_top_level_think_close (sse_emitter.cpp, 672-771): the first `</think>` that stands outside
-- quotes and outside tool tags that are still open.
pub mod Found
use codex_local_qwen27b.Base.{
  ℕ, zero, suc, ◌+◌, ◌-◌, Bool, false, not, ◌&&◌, ◌||◌, Option, none, some, List, [], ◌∷◌, Bytes,
  codes, ◌==◌, ltb, leb, if◌then◌else◌, length, is_empty, take, drop, get_elem?, any, bytes_eq,
  starts_with, find, find_first, is_ws, drop_leading, drop_trailing,
}
use codex_local_qwen27b.Sse.Toolkit.{Toolkit}
use codex_local_qwen27b.Sse.Token.{think_close}

-- The variables of the loop; the head of `open_tags` is the vector's back.
pub record Scan : Type 0 where
  pub pos : ℕ
  pub in_single_quote : Bool
  pub in_double_quote : Bool
  pub open_tags : List Bytes

-- 677-680
unfoldable pub is_word_char : ℕ → Bool
is_word_char c =
    (leb b'a' c && leb c b'z')
    || (leb b'A' c && leb c b'Z')
    || (leb b'0' c && leb c b'9')
    || c == b'_'

unfoldable pub is_word_at : Bytes → ℕ → Bool
is_word_at buf i = elim (get_elem? buf i) [ none ↦ false | some c ↦ is_word_char c ]

-- 709-711
unfoldable pub apostrophe_in_word : Bytes → ℕ → Bool
unfolding is_word_char is_word_at
apostrophe_in_word buf i = ltb 0 i && is_word_at buf (i - 1) && is_word_at buf (i + 1)

-- The UTF-8 bytes of "｜DSML｜"
abbrev pub dsml : Bytes
dsml = 0xEF ∷ 0xBD ∷ 0x9C ∷ b'D' ∷ b'S' ∷ b'M' ∷ b'L' ∷ 0xEF ∷ 0xBD ∷ 0x9C ∷ []

-- 684-689
abbrev pub tool_tags : List Bytes
tool_tags =
    codes "tool_call"
    ∷ codes "tool_calls"
    ∷ codes "function_call"
    ∷ codes "function_calls"
    ∷ codes "function"
    ∷ codes "invoke"
    ∷ codes "parameter"
    ∷ codes "param"
    ∷ codes "arguments"
    ∷ codes "params"
    ∷ codes "tool_code"
    ∷ codes "funcname"
    ∷ []

-- 741-746: the vector is cut at the last entry of this name, if there is one.
unfoldable pub cut_tags : Bytes → List Bytes → Option (List Bytes)
cut_tags name [] = none
cut_tags name (t ∷ ts) = if bytes_eq t name then some ts else cut_tags name ts

unfoldable pub close_tag : Bytes → List Bytes → List Bytes
unfolding cut_tags
close_tag name ts = elim (cut_tags name ts) [ none ↦ ts | some rest ↦ rest ]

-- 756-757: up to white space or `=`
abbrev pub ends_name : ℕ → Bool
ends_name c = is_ws c || c == b'='

unfoldable pub tag_name_of : Bytes → Bytes
tag_name_of tag = elim (find_first ends_name tag) [ none ↦ tag | some j ↦ take j tag ]

unfoldable pub ends_with_slash : Bytes → Bool
ends_with_slash [] = false
ends_with_slash (c ∷ []) = c == b'/'
ends_with_slash (c ∷ d ∷ ds) = ends_with_slash (d ∷ ds)

-- What one round of the loop does.
pub data ScanStep : Type 0 where
  found : ScanStep
  go_on : Scan → ScanStep

module _ (k : Toolkit) where
  -- 682-701
  unfoldable pub is_tool_tag : Bytes → Bool
  is_tool_tag name =
      starts_with dsml name || any (bytes_eq name) tool_tags || k.is_declared_name name

  -- 752-765, for the text behind the `<`
  unfoldable pub scan_open_tag : Bytes → Scan → ScanStep
  unfolding is_tool_tag tag_name_of ends_with_slash
  scan_open_tag t s = elim (find t (codes ">")) [
    | none ↦ go_on (record s { pos = s.pos + 1 })
    | some j ↦ go_on (record s {
      pos = s.pos + 1 + j + 1;
      open_tags =
          if is_tool_tag (tag_name_of (take j t))
            && not (is_empty (take j t))
            && not (ends_with_slash (take j t))
          then tag_name_of (take j t) ∷ s.open_tags
          else s.open_tags;
    })
  ]

  -- 733-750, for the text behind the `<`
  unfoldable pub scan_tag : Bytes → Scan → ScanStep
  unfolding close_tag scan_open_tag
  scan_tag [] s = scan_open_tag [] s
  scan_tag (c ∷ u) s =
      if c == b'/'
      then elim (find u (codes ">")) [
        | none ↦ scan_open_tag (c ∷ u) s
        | some j ↦ go_on (record s {
          pos = s.pos + 2 + j + 1;
          open_tags = close_tag (drop_trailing is_ws (drop_leading is_ws (take j u))) s.open_tags;
        })
      ]
      else scan_open_tag (c ∷ u) s

  -- 704-767, at the byte `c` with the text `t` behind it
  unfoldable pub scan_byte : Bytes → ℕ → Bytes → Scan → ScanStep
  unfolding apostrophe_in_word scan_tag
  scan_byte buf c t s =
      if c == b'\\' && not (is_empty t)
      then go_on (record s { pos = s.pos + 2 })
      else if c == b'\'' && not s.in_double_quote
      then go_on (record s {
        pos = s.pos + 1;
        in_single_quote =
            if apostrophe_in_word buf s.pos then s.in_single_quote else not s.in_single_quote;
      })
      else if c == b'"' && not s.in_single_quote
      then go_on (record s { pos = s.pos + 1; in_double_quote = not s.in_double_quote })
      else if not s.in_single_quote && not s.in_double_quote && c == b'<'
      then (if starts_with think_close (c ∷ t) && is_empty s.open_tags then found else scan_tag t s)
      else go_on (record s { pos = s.pos + 1 })

  -- The loop; `none` means that the fuel ran out, `some none` is npos.
  unfoldable pub scan : ℕ → Bytes → Scan → Option (Option ℕ)
  scan zero buf s = none
  scan (suc fuel) buf s = elim (drop s.pos buf) [
    | [] ↦ some none
    | c ∷ t ↦ elim (scan_byte buf c t s) [ found ↦ some (some s.pos) | go_on s' ↦ scan fuel buf s' ]
  ]

  abbrev pub scan_start : Scan
  scan_start = record { pos = 0; in_single_quote = false; in_double_quote = false; open_tags = [] }

  unfoldable pub find_top_level_think_close : Bytes → Option ℕ
  find_top_level_think_close buf = elim (scan (suc (length buf)) buf scan_start) [
    | none ↦ none
    | some r ↦ r
  ]
