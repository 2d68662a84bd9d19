-- ===== src/Sse/Finish.antt =====
-- emit_finish (sse_emitter.cpp, 775-1197), up to the finish reason. `Sse.Final` has the calls' events
-- and the final events of each format. The log lines of 850-871 and 1009-1014 are left out.
use mathlib.Core.List.{map}
use codex_local_qwen27b.Base.{
  ℕ, ◌+◌, ◌-◌, Bool, true, false, not, ◌&&◌, Option, none, some, List, [], ◌∷◌, ◌++◌, Bytes, leb,
  if◌then◌else◌, is_empty, take, drop, is_some, find, find_first, not_ws, is_ws, drop_leading,
  drop_trailing,
}
use codex_local_qwen27b.Sse.Event.{FinishReason, ToolCall}
use codex_local_qwen27b.Sse.Final.{emit_tool_calls, emit_final}
use codex_local_qwen27b.Sse.Start.{tool_call_open, tool_call_close}
use codex_local_qwen27b.Sse.ThinkClose.{find_top_level_think_close}
use codex_local_qwen27b.Sse.Timings.{GenTimings}
use codex_local_qwen27b.Sse.Token.{
  StreamMode, reasoning, content, tool_buffer, think_close, Emitter, add_reasoning, add_content,
}
use codex_local_qwen27b.Sse.Toolkit.{Toolkit}
use codex_local_qwen27b.Sse.Wire.{close_responses_reasoning_item}

-- 783-788
unfoldable pub flush_utf8_tail : (Bytes → Bytes) → Emitter → Emitter
flush_utf8_tail sanitize s = if is_empty s.utf8_tail then s else (record s {
  utf8_tail = [];
  accumulated_raw = s.accumulated_raw ++ sanitize s.utf8_tail;
  window = s.window ++ sanitize s.utf8_tail;
})

abbrev pub is_reasoning : StreamMode → Bool
is_reasoning reasoning = true
is_reasoning _ = false

abbrev pub is_tool_buffer : StreamMode → Bool
is_tool_buffer tool_buffer = true
is_tool_buffer _ = false

-- 888, 1022: max(0, emit_token_count_ - 1)
abbrev pub last_token : Emitter → ℕ
last_token s = s.emit_token_count - 1

-- 886-888, 1021-1023: keeps an index that is set.
abbrev pub index_or : ℕ → Option ℕ → Option ℕ
index_or i none = some i
index_or i (some j) = some j

-- 882-896: the text before and behind `</think>`
unfoldable pub split_cleaned : Bytes → ℕ → Emitter → Emitter
split_cleaned cleaned i s =
    let after = drop (i + 8) cleaned in
    let s' : Emitter = record s {
      first_content_token_index =
          index_or (if is_empty after then s.emit_token_count else last_token s)
            s.first_content_token_index;
    } in
    add_content after (add_reasoning (take i cleaned) s')

-- 881-904
unfoldable pub add_cleaned : Bytes → Emitter → Emitter
add_cleaned cleaned s = elim (find cleaned think_close) [
  | some i ↦ split_cleaned cleaned i s
  | none ↦ if s.tool_from_reasoning then add_reasoning cleaned s else add_content cleaned s
]

-- 874-878
unfoldable pub remember : Emitter → Emitter
remember s =
    if s.has_tool_memory
    then (record s {
      remembered = s.remembered ++ (map (λ t. t.id) s.tool_calls, s.accumulated_raw) ∷ [];
    })
    else s

-- 1018-1027: the text behind a top-level `</think>`
unfoldable pub add_after_think : Option ℕ → Emitter → Emitter
add_after_think none s = s
add_after_think (some i) s =
    let after = drop (i + 8) s.tool_buffer in
    if is_empty after
    then s
    else add_content after (record s {
      first_content_token_index = index_or (last_token s) s.first_content_token_index;
    })

module _ (k : Toolkit) where
  -- 800-827: the candidate name, if the content so far is white space and a tool has it
  unfoldable pub zero_arg_name : Emitter → Option Bytes
  zero_arg_name s =
      let candidate = drop_trailing is_ws (drop_leading is_ws s.window) in
      if k.has_request_tools
        && not (is_some (find_first not_ws s.accumulated_content))
        && not (is_empty candidate)
        && k.is_declared_name candidate
      then some candidate
      else none

  unfoldable pub flush_content_window : Emitter → Emitter
  flush_content_window s = elim (zero_arg_name s) [
    | some name ↦ record s {
      tool_buffer = tool_call_open ++ name ++ tool_call_close;
      mode = tool_buffer;
    }
    | none ↦ add_content s.window s
  ]

  -- 791-834
  unfoldable pub flush_in : StreamMode → Emitter → Emitter
  flush_in reasoning s = add_reasoning s.window s
  flush_in content s = if is_empty s.window then s else flush_content_window s
  flush_in tool_buffer s = record s { tool_buffer = s.tool_buffer ++ s.window }

  -- 791-841
  unfoldable pub flush_window : Emitter → Emitter
  unfolding flush_in
  flush_window s =
      let s' = flush_in s.mode s in
      (record s' { window = []; wire = close_responses_reasoning_item s'.reasoning_text s'.wire })

  -- 873-1002, when calls were parsed
  unfoldable pub deliver_calls : Bytes → Emitter → Emitter
  unfolding remember
  deliver_calls cleaned s =
      let s' = add_cleaned cleaned (remember s) in
      (record s' {
        finish_reason = FinishReason.tool_calls;
        wire = emit_tool_calls k.is_custom_tool s'.tool_calls s'.wire;
      })

  -- 1016-1028
  unfoldable pub suppress_buffer : Emitter → Emitter
  unfolding add_after_think
  suppress_buffer s =
      if s.tool_from_reasoning
      then add_after_think (find_top_level_think_close k s.tool_buffer) s
      else s

  -- 849-1029, on the parsed calls
  unfoldable pub deliver : Bytes → List ToolCall → Emitter → Emitter
  deliver cleaned [] s =
      if s.tool_buffer_fallback_to_content then add_content s.tool_buffer s else suppress_buffer s
  deliver cleaned (t ∷ ts) s = deliver_calls cleaned s

  -- 844-1030
  unfoldable pub parse_buffer : Emitter → Emitter
  parse_buffer s =
      let parsed = k.parse_tool_calls s.tool_buffer in
      let s' : Emitter = record s { finish_reason = FinishReason.stop } in
      if is_tool_buffer s.mode && not (is_empty s.tool_buffer)
      then deliver parsed.cleaned_text parsed.tool_calls
          (record s' { tool_calls = parsed.tool_calls })
      else s'

  -- 1032-1036: `none` is a negative cap.
  unfoldable pub reaches_cap : ℕ → Option ℕ → Bool
  reaches_cap completion_tokens none = false
  reaches_cap completion_tokens (some cap) = leb cap completion_tokens

  unfoldable pub is_stop : FinishReason → Bool
  is_stop FinishReason.stop = true
  is_stop _ = false

  unfoldable pub set_finish_reason : ℕ → Option ℕ → Bool → Emitter → Emitter
  unfolding reaches_cap is_stop
  set_finish_reason completion_tokens generation_cap ended_on_eos s =
      if is_stop s.finish_reason
        && not s.stop_hit
        && not ended_on_eos
        && reaches_cap completion_tokens generation_cap
      then (record s { finish_reason = FinishReason.length })
      else s

  -- 779-1036
  unfoldable pub before_final : ℕ → Option ℕ → Bool → Emitter → Emitter
  before_final completion_tokens generation_cap ended_on_eos s =
      set_finish_reason completion_tokens generation_cap ended_on_eos
        (parse_buffer (flush_window (flush_utf8_tail k.utf8_sanitize s)))

  unfoldable pub emit_finish : ℕ → Option GenTimings → Option ℕ → Bool → Emitter → Emitter
  emit_finish completion_tokens timings generation_cap ended_on_eos s =
      emit_final k.is_custom_tool completion_tokens timings
        (before_final completion_tokens generation_cap ended_on_eos s)
