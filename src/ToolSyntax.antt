-- ===== src/ToolSyntax.antt =====
-- The start of a tool call in streamed text (server/src/server/tool_parser.cpp, 56-177).
pub mod Dead
pub mod Sound
pub mod Holdback
use mathlib.Core.List.{reverse}
use codex_local_qwen27b.Base.{
  ℕ, zero, suc, ◌+◌, ◌-◌, max, Bool, true, false, not, ◌&&◌, ◌||◌, Option, none, some, List, [],
  ◌∷◌, ◌++◌, Bytes, codes, ◌==◌, ltb, leb, if◌then◌else◌, length, is_empty, take, get_elem?, any,
  all, starts_with, count_while,
}
use codex_local_qwen27b.Json.{JsonLibrary}
use codex_local_qwen27b.Sse.Content.{is_ident}
use codex_local_qwen27b.Sse.ThinkClose.{dsml}

-- The openers of 56-67, without the null byte of `sizeof`.
abbrev pub fixed_openers : List Bytes
fixed_openers =
    codes "<tool_call>"
    ∷ codes "<tool_calls>"
    ∷ (b'<' ∷ dsml)
    ∷ codes "<invoke"
    ∷ codes "<function_call>"
    ∷ codes "<function_calls>"
    ∷ codes "<function="
    ∷ codes "<function>"
    ∷ codes "<function "
    ∷ codes "<funcname>"
    ∷ codes "<tool_code>"
    ∷ codes "<parameter name="
    ∷ []

abbrev pub arg_key_open : Bytes
arg_key_open = codes "<arg_key>"

-- 74-76
unfoldable pub is_alpha_or_underscore : ℕ → Bool
is_alpha_or_underscore c = (leb b'a' c && leb c b'z') || (leb b'A' c && leb c b'Z') || c == b'_'

unfoldable pub is_name_byte : ℕ → Bool
unfolding is_alpha_or_underscore
is_name_byte c = is_alpha_or_underscore c || (leb b'0' c && leb c b'9') || c == b'.' || c == b'-'

unfoldable pub valid_tool_name : Bytes → Bool
unfolding is_name_byte
valid_tool_name [] = false
valid_tool_name (c ∷ cs) =
    leb (length (c ∷ cs)) 64 && is_alpha_or_underscore c && all is_name_byte (c ∷ cs)

-- 135, 149: the start of the run of name bytes that ends at `i`.
unfoldable pub ident_start : Bytes → ℕ → ℕ
ident_start text i = i - count_while is_ident i (reverse (take i text))

-- 129-140: a name right before `<arg_key>`; `rest` is the text from `i` on.
unfoldable pub arg_key_start : Bytes → ℕ → Bytes → Option ℕ
unfolding ident_start
arg_key_start text i rest =
    if starts_with arg_key_open rest && ltb (ident_start text i) i
    then some (ident_start text i)
    else none

-- idx == 0 || text[idx - 1] == '\n'
unfoldable pub at_line_start : Bytes → ℕ → Bool
at_line_start text zero = true
at_line_start text (suc i) = elim (get_elem? text i) [ none ↦ false | some c ↦ c == b'\n' ]

-- 143-154
unfoldable pub line_start : Bytes → ℕ → Option ℕ
unfolding at_line_start
line_start text i =
    if at_line_start text i && ltb (ident_start text i) i then some (ident_start text i) else none

abbrev pub or_else : Option ℕ → Option ℕ → Option ℕ
or_else none b = b
or_else (some a) b = some a

module _ (J : JsonLibrary) where
  open J use {Json, is_array, elements, is_object, contains, at, value}

  -- 88-89
  abbrev pub function_of : Json → Json
  function_of tool =
      if is_object tool && contains tool (codes "function")
      then at tool (codes "function")
      else tool

  unfoldable pub declared_tool_name : Json → Bytes
  declared_tool_name tool =
      let name =
        if is_object (function_of tool) then value (function_of tool) (codes "name") else [] in
      if valid_tool_name name then name else []

  -- 99-102, for one tool
  unfoldable pub opens_tool : Bytes → Json → Bool
  opens_tool rest tool =
      not (is_empty (declared_tool_name tool))
      && starts_with (b'<' ∷ (declared_tool_name tool ++ codes ">")) rest

  unfoldable pub declared_tool_open_at : Bytes → Json → Bool
  unfolding opens_tool
  declared_tool_open_at rest tools = is_array tools && any (opens_tool rest) (elements tools)

  -- 111-125
  unfoldable pub opener_at : Bytes → Json → Bool
  opener_at rest tools =
      any (λ o. starts_with o rest) fixed_openers || declared_tool_open_at rest tools

  -- 111-154: the body of the loop, at a `<` in position `i` with the text `rest` from there on
  unfoldable pub syntax_at : Bytes → Json → ℕ → Bytes → Option ℕ
  syntax_at text tools i rest =
      if opener_at rest tools
      then some i
      else or_else (arg_key_start text i rest) (line_start text i)

  -- 109-157: each `<` in turn
  unfoldable pub find_syntax_from : Bytes → Json → ℕ → Bytes → Option ℕ
  find_syntax_from text tools i [] = none
  find_syntax_from text tools i (c ∷ cs) =
      or_else (if c == b'<' then syntax_at text tools i (c ∷ cs) else none)
        (find_syntax_from text tools (suc i) cs)

  unfoldable pub find_tool_syntax_start : Bytes → Json → Option ℕ
  find_tool_syntax_start text tools = find_syntax_from text tools 0 text

  -- 169-175
  unfoldable pub max_name_holdback : ℕ → List Json → ℕ
  max_name_holdback holdback [] = holdback
  max_name_holdback holdback (tool ∷ tools) =
      max_name_holdback
        (if is_empty (declared_tool_name tool)
          then holdback
          else max holdback (length (declared_tool_name tool) + 1))
        tools

  -- 161-176; `sizeof(X) - 2` is the length of `X` less one.
  unfoldable pub tool_syntax_holdback : Json → ℕ
  tool_syntax_holdback tools =
      let holdback = max 21 (
        max (length (codes "<parameter name=") - 1) (
          max (length (codes "<function_calls>") - 1) (
            max (length (codes "<function_call>") - 1) (
              max (length (codes "<tool_calls>") - 1)
                (max (length (codes "<tool_call>") - 1) (length (codes "<function>") - 1)))))) in
      if is_array tools then max_name_holdback holdback (elements tools) else holdback
