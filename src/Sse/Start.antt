-- ===== src/Sse/Start.antt =====
-- The constructor (sse_emitter.cpp, 106-131), emit_start (195-273) and
-- suppress_undeclared_tool_protocol_token (133-152).
use codex_local_qwen27b.Base.{
  ℕ, ◌+◌, max, Bool, true, false, not, none, List, [], ◌∷◌, Bytes, codes, if◌then◌else◌, length,
  any, bytes_eq,
}
use codex_local_qwen27b.Sse.Event.{
  ApiFormat, openai_chat, anthropic, responses, other, thinking, text, FinishReason, role_delta,
  message_start, block_start, response_created,
}
use codex_local_qwen27b.Sse.Toolkit.{Toolkit}
use codex_local_qwen27b.Sse.Token.{reasoning, content, Emitter}
use codex_local_qwen27b.Sse.Wire.{Wire, push_back, block_of, open_message_item}

-- 127-130
unfoldable pub max_length : List Bytes → ℕ
max_length [] = 0
max_length (s ∷ ss) = max (length s) (max_length ss)

-- The arguments of the constructor, and the static counter of `gen_item_id` at the call.
pub record Request : Type 0 where
  pub format : ApiFormat
  pub prompt_tokens : ℕ
  pub has_tool_memory : Bool
  pub stop_sequences : List Bytes
  pub started_in_thinking : Bool
  pub gen_item_id : ℕ → Bytes
  pub next_item : ℕ

abbrev pub new_wire : Request → Wire
new_wire r = record {
  format = r.format;
  block_index = 0;
  active_kind = if r.started_in_thinking then thinking else text;
  responses_reasoning_open = false;
  responses_msg_item_open = false;
  responses_output_index = 0;
  reasoning_item_id = [];
  msg_item_id = r.gen_item_id r.next_item;
  gen_item_id = r.gen_item_id;
  next_item = r.next_item + 1;
  sent = [];
}

unfoldable pub new_emitter : Request → Emitter
unfolding max_length
new_emitter r = record {
  wire = new_wire r;
  prompt_tokens = r.prompt_tokens;
  mode = if r.started_in_thinking then reasoning else content;
  tool_from_reasoning = false;
  suppress_undeclared_tool_protocol = false;
  window = [];
  utf8_tail = [];
  tool_buffer = [];
  tool_buffer_fallback_to_content = false;
  accumulated_content = [];
  accumulated_raw = [];
  reasoning_text = [];
  tool_calls = [];
  checked_think_prefix = false;
  first_content_token_index = none;
  emit_token_count = 0;
  stop_sequences = r.stop_sequences;
  stop_holdback = max_length r.stop_sequences;
  stop_hit = false;
  finish_reason = FinishReason.stop;
  started_in_thinking = r.started_in_thinking;
  has_tool_memory = r.has_tool_memory;
  remembered = [];
}

-- The `switch` of emit_start.
unfoldable pub start_in : ApiFormat → ℕ → Bool → Wire → Wire
start_in openai_chat prompt thinking_first w = push_back role_delta w
start_in anthropic prompt thinking_first w =
    push_back (block_start w.block_index (block_of w.active_kind))
      (push_back (message_start prompt) w)
start_in responses prompt thinking_first w =
    let w' = push_back response_created w in if thinking_first then w' else open_message_item w'
start_in other prompt thinking_first w = w

unfoldable pub emit_start : Emitter → Emitter
unfolding start_in
emit_start s = record s { wire = start_in s.format s.prompt_tokens s.started_in_thinking s.wire }

abbrev pub stray_tokens : List Bytes
stray_tokens =
    codes "</tool_call>"
    ∷ codes "<arg_key>"
    ∷ codes "</arg_key>"
    ∷ codes "<arg_value>"
    ∷ codes "</arg_value>"
    ∷ []

abbrev pub tool_call_open : Bytes
tool_call_open = codes "<tool_call>"

abbrev pub tool_call_close : Bytes
tool_call_close = codes "</tool_call>"

-- The answer, and the emitter with `suppress_undeclared_tool_protocol_` as the call leaves it.
unfoldable pub suppress_undeclared_tool_protocol_token : Toolkit → Bytes → Emitter → Bool × Emitter
suppress_undeclared_tool_protocol_token k raw s =
    if k.has_request_tools
    then (false, s)
    else if bytes_eq raw tool_call_open
    then (true, record s { suppress_undeclared_tool_protocol = true })
    else if s.suppress_undeclared_tool_protocol
    then (true, record s { suppress_undeclared_tool_protocol = not (bytes_eq raw tool_call_close) })
    else (any (bytes_eq raw) stray_tokens, s)
