-- ===== src/Sse/Final.antt =====
-- The events of emit_finish (sse_emitter.cpp): the tool calls (909-1002) and what closes each
-- format's stream (1039-1194).
use mathlib.Core.List.{map}
use codex_local_qwen27b.Base.{
  ℕ, ◌+◌, Bool, true, false, Option, none, some, List, [], ◌∷◌, ◌++◌, Bytes, if◌then◌else◌, drop,
}
use codex_local_qwen27b.Sse.Event.{
  ApiFormat, openai_chat, anthropic, responses, other, Kind, closed, ToolCall, tool_use_block,
  input_json_delta, Item, reasoning_item, custom_tool_call_item, function_call_item, message_item,
  FinishReason, StopReason, end_turn, max_tokens, tool_use, Usage, Event, tool_calls_delta,
  finish_chunk, usage_chunk, done, block_start, block_delta, block_stop, message_delta,
  message_stop, custom_input_delta, custom_input_done, arguments_delta, arguments_done,
  output_text_done, content_part_done, output_item_done, response_completed,
}
use codex_local_qwen27b.Sse.Timings.{GenTimings, build_timings_json}
use codex_local_qwen27b.Sse.Token.{Emitter}
use codex_local_qwen27b.Sse.Wire.{Wire, push_back}

abbrev pub append : List Event → Wire → Wire
append es w = record w { sent = w.sent ++ es }

abbrev pub is_closed : Kind → Bool
is_closed closed = true
is_closed _ = false

-- 937-941, 1071-1075
unfoldable pub close_block : Wire → Wire
close_block w =
    if is_closed w.active_kind
    then w
    else (record w { active_kind = closed; sent = w.sent ++ block_stop w.block_index ∷ [] })

-- 957-963
unfoldable pub arguments_block : ℕ → Bytes → List Event
arguments_block index [] = []
arguments_block index (c ∷ cs) = block_delta index (input_json_delta (c ∷ cs)) ∷ []

-- 944-966: the block of one call
unfoldable pub call_block : ℕ → ToolCall → List Event
unfolding arguments_block
call_block index t =
    block_start index (tool_use_block t.id t.name)
    ∷ (arguments_block index t.arguments ++ block_stop index ∷ [])

-- 942-967
unfoldable pub tool_use_blocks : List ToolCall → Wire → Wire
tool_use_blocks [] w = w
tool_use_blocks (t ∷ ts) w =
    tool_use_blocks ts
      (append (call_block (w.block_index + 1) t) (record w { block_index = w.block_index + 1 }))

-- 971-999
unfoldable pub call_events : (Bytes → Bool) → ℕ → List ToolCall → List Event
call_events is_custom index [] = []
call_events is_custom index (t ∷ ts) =
    (if is_custom t.name
      then custom_input_delta index t ∷ custom_input_done index t ∷ []
      else arguments_delta index t ∷ arguments_done index t ∷ [])
    ++ call_events is_custom index ts

-- The `switch` of 909-1002 for each format.
unfoldable pub calls_in : ApiFormat → (Bytes → Bool) → List ToolCall → Wire → Wire
calls_in openai_chat is_custom ts w = push_back (tool_calls_delta ts) w
calls_in anthropic is_custom ts w = tool_use_blocks ts (close_block w)
calls_in responses is_custom ts w = append (call_events is_custom w.responses_output_index ts) w
calls_in other is_custom ts w = w

unfoldable pub emit_tool_calls : (Bytes → Bool) → List ToolCall → Wire → Wire
emit_tool_calls is_custom ts w = calls_in w.format is_custom ts w

-- 1079-1081
unfoldable pub stop_reason : List ToolCall → FinishReason → StopReason
stop_reason (t ∷ ts) fr = tool_use
stop_reason [] FinishReason.length = max_tokens
stop_reason [] _ = end_turn

abbrev pub call_item : (Bytes → Bool) → ToolCall → Item
call_item is_custom t = if is_custom t.name then custom_tool_call_item t else function_call_item t

-- 1118-1124
unfoldable pub reasoning_items : Bytes → Bytes → List Item
reasoning_items id [] = []
reasoning_items id (c ∷ cs) = reasoning_item id (c ∷ cs) ∷ []

-- 1125-1154
unfoldable pub answer_items : (Bytes → Bool) → List ToolCall → Bool → Bytes → Bytes → List Item
answer_items is_custom (t ∷ ts) msg_open id content = map (call_item is_custom) (t ∷ ts)
answer_items is_custom [] msg_open id content =
    if msg_open then message_item id content ∷ [] else []

-- 1117-1154
unfoldable pub final_output : (Bytes → Bool) → Emitter → List Item
unfolding reasoning_items answer_items
final_output is_custom s =
    reasoning_items s.reasoning_item_id s.reasoning_text
    ++ answer_items is_custom s.tool_calls s.responses_msg_item_open s.msg_item_id
        s.accumulated_content

-- 1160-1168: the items from position `i` on
unfoldable pub items_done : ℕ → List Item → List Event
items_done i [] = []
items_done i (x ∷ xs) = output_item_done i x ∷ items_done (i + 1) xs

-- 1102-1113
unfoldable pub message_done : Emitter → List Event
message_done s =
    if s.responses_msg_item_open
    then output_text_done s.msg_item_id s.responses_output_index s.accumulated_content
      ∷ content_part_done s.msg_item_id s.responses_output_index s.accumulated_content
      ∷ []
    else []

-- 1161
abbrev pub base : Bytes → ℕ
base [] = 0
base (c ∷ cs) = 1

abbrev pub usage_of : Emitter → ℕ → Option GenTimings → Usage
usage_of s completion_tokens timings = record {
  prompt_tokens = s.prompt_tokens;
  completion_tokens = completion_tokens;
  timings = elim timings [ none ↦ none | some t ↦ some (build_timings_json t completion_tokens) ];
}

-- The `switch` of 1039-1194 for each format, and its events.
unfoldable pub final_in : ApiFormat → (Bytes → Bool) → Usage → Emitter → Wire
final_in openai_chat is_custom usage s =
    append (finish_chunk s.finish_reason ∷ usage_chunk usage ∷ done ∷ []) s.wire
final_in anthropic is_custom usage s =
    append (message_delta (stop_reason s.tool_calls s.finish_reason) usage ∷ message_stop ∷ [])
      (close_block s.wire)
final_in responses is_custom usage s =
    append
      (message_done s
        ++ items_done (base s.reasoning_text)
            (drop (base s.reasoning_text) (final_output is_custom s))
        ++ response_completed (final_output is_custom s) s.accumulated_content usage ∷ [])
      s.wire
final_in other is_custom usage s = push_back done s.wire

unfoldable pub emit_final : (Bytes → Bool) → ℕ → Option GenTimings → Emitter → Emitter
emit_final is_custom completion_tokens timings s = record s {
  wire = final_in s.format is_custom (usage_of s completion_tokens timings) s;
}
