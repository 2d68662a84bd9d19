-- ===== src/Sse/Reasoning.antt =====
-- The TOOL_BUFFER and REASONING branches of the loop of emit_token (sse_emitter.cpp, 375-455). One
-- round of the `while (true)` returns the new state and whether the code reaches `continue`.
use codex_local_qwen27b.Base.{
  ℕ, ◌+◌, ◌-◌, max, Bool, true, false, not, ◌&&◌, ◌||◌, Option, none, some, [], ◌++◌, Bytes, codes,
  ◌==◌, ltb, if◌then◌else◌, length, take, drop, is_some, starts_with, find, find_first, not_ws,
  count_while,
}
use codex_local_qwen27b.Sse.Toolkit.{Toolkit}
use codex_local_qwen27b.Sse.Token.{
  content, tool_buffer, think_open, think_close, Emitter, add_reasoning,
}
use codex_local_qwen27b.Sse.Wire.{close_responses_reasoning_item}

abbrev pub function_calls_close : Bytes
function_calls_close = codes "</function_calls>"

-- 385-391: the token that carries the content after `</think>`, or the one after it.
unfoldable pub first_after_think : Bytes → ℕ → ℕ
first_after_think after count = if is_some (find_first not_ws after) then count - 1 else count

-- 378-393, on `full = tool_buffer_ + window_`
unfoldable pub content_start_in : Bytes → ℕ → Option ℕ
unfolding first_after_think
content_start_in full count = elim (find full function_calls_close) [
  | none ↦ none
  | some fc ↦ elim (find (drop (fc + length function_calls_close) full) think_close) [
    | none ↦ none
    | some i ↦ some (first_after_think (drop (fc + length function_calls_close + i + 8) full) count)
  ]
]

-- 375-398
unfoldable pub buffer_tool : Emitter → Emitter
unfolding content_start_in
buffer_tool s = record s {
  first_content_token_index =
      if s.tool_from_reasoning && not (is_some s.first_content_token_index)
      then content_start_in (s.tool_buffer ++ s.window) s.emit_token_count
      else s.first_content_token_index;
  tool_buffer = s.tool_buffer ++ s.window;
  window = [];
}

-- 407
abbrev pub is_prefix_ws : ℕ → Bool
is_prefix_ws c = c == b'\n' || c == b' ' || c == b'\r'

-- 404-414, on the three tests: the prefix was checked, the window is too short, it has `<think>`.
unfoldable pub strip_on : Bool → Bool → Bool → ℕ → Emitter → Option Emitter
strip_on true waits opens ws s = some s
strip_on false true opens ws s = none
strip_on false false true ws s =
    some (record s { window = drop (ws + 7) s.window; checked_think_prefix = true })
strip_on false false false ws s = some (record s { checked_think_prefix = true })

-- `none` is the `break` that waits for more.
unfoldable pub strip_think_prefix : Emitter → Option Emitter
strip_think_prefix s =
    let ws = count_while is_prefix_ws (length s.window) s.window in
    strip_on s.checked_think_prefix (ltb (length s.window) (ws + 7))
      (starts_with think_open (drop ws s.window)) ws s

-- 422-428
unfoldable pub close_think : ℕ → Emitter → Emitter
close_think i s =
    let s' = add_reasoning (take i s.window) s in
    (record s' { window = drop (i + 8) s.window; mode = content })

-- 432-441
unfoldable pub tool_in_reasoning : ℕ → Emitter → Emitter
tool_in_reasoning i s =
    let s' = add_reasoning (take i s.window) s in
    (record s' {
      wire = close_responses_reasoning_item s'.reasoning_text s'.wire;
      tool_buffer = drop i s.window;
      tool_from_reasoning = true;
      window = [];
      mode = tool_buffer;
    })

module _ (k : Toolkit) where
  -- 445, 510
  unfoldable pub holdback : Emitter → ℕ
  holdback s = max k.tool_syntax_holdback s.stop_holdback

  -- 446-447: the length of the prefix that is safe to send
  unfoldable pub safe_cut : Emitter → ℕ
  unfolding holdback
  safe_cut s =
      if ltb (holdback s) (length s.window)
      then k.utf8_safe_len s.window (length s.window - holdback s)
      else 0

  -- 446-453
  unfoldable pub flush_reasoning : Emitter → Emitter
  flush_reasoning s =
      let cut = safe_cut s in
      if cut == 0
      then s
      else (let s' = add_reasoning (take cut s.window) s in
          record s' { window = drop cut s.window })

  -- 418, 462
  unfoldable pub tool_hit : Bytes → Option ℕ
  tool_hit window = if k.has_request_tools then k.find_tool_syntax_start window else none

  -- 421-454, on the positions of `</think>` and of the tool syntax
  unfoldable pub reasoning_hit : Option ℕ → Option ℕ → Emitter → Emitter × Bool
  reasoning_hit (some i) none s = (close_think i s, true)
  reasoning_hit (some i) (some t) s =
      if ltb i t then (close_think i s, true) else (tool_in_reasoning t s, true)
  reasoning_hit none (some t) s = (tool_in_reasoning t s, true)
  reasoning_hit none none s = (flush_reasoning s, false)

  -- 400-455
  unfoldable pub reasoning_round : Emitter → Emitter × Bool
  reasoning_round s = elim (strip_think_prefix s) [
    | none ↦ (s, false)
    | some s' ↦ reasoning_hit (find s'.window think_close) (tool_hit s'.window) s'
  ]
