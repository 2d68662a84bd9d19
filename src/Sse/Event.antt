-- ===== src/Sse/Event.antt =====
-- What the emitter sends (server/src/server/sse_emitter.cpp): one constructor for each JSON literal
-- that the code hands to `format_openai_delta`, `format_anthropic_event`, `format_responses_event`,
-- `sse_event` or `sse_data`, with the fields of the literal that vary.
use codex_local_qwen27b.Base.{ℕ, Bool, List, Option, Bytes}

-- The enum of api_types.h; `other` stands for the formats that take the `default` branches.
pub data ApiFormat : Type 0 where
  openai_chat anthropic responses other : ApiFormat

-- `active_kind_`: "thinking", "text" or "".
pub data Kind : Type 0 where
  thinking text closed : Kind

pub record ToolCall : Type 0 where
  pub id : Bytes
  pub name : Bytes
  pub arguments : Bytes
  pub namespace : Bytes

-- The members of the `timings` object; the rounded times are in tenths.
pub record TimingsJson : Type 0 where
  pub prefill_ms : ℕ
  pub decode_ms : ℕ
  pub decode_tokens_per_sec : ℕ
  pub cache_hit : Bool
  pub cached_prefix_tokens : ℕ
  pub prefilled_tokens : ℕ
  pub effective_prompt_tokens : ℕ
  pub agent_turn_cache_hit : Bool

-- `content_block` of content_block_start.
pub data Block : Type 0 where
  thinking_block text_block : Block
  tool_use_block : Bytes → Bytes → Block

-- `delta` of content_block_delta.
pub data BlockDelta : Type 0 where
  text_delta thinking_delta input_json_delta : Bytes → BlockDelta

-- The finished items of a Responses answer, in `final_output`.
pub data Item : Type 0 where
  reasoning_item : (id summary : Bytes) → Item
  custom_tool_call_item function_call_item : ToolCall → Item
  message_item : (id content : Bytes) → Item

-- `finish_reason_`: "stop", "tool_calls" or "length".
pub data FinishReason : Type 0 where
  stop tool_calls length : FinishReason

-- `stop_reason` of message_delta.
pub data StopReason : Type 0 where
  end_turn max_tokens tool_use : StopReason

pub record Usage : Type 0 where
  pub prompt_tokens : ℕ
  pub completion_tokens : ℕ
  pub timings : Option TimingsJson

pub data Event : Type 0 where
  -- OpenAI chat completions
  role_delta : Event
  content_delta reasoning_delta : Bytes → Event
  tool_calls_delta : List ToolCall → Event
  finish_chunk : (reason : FinishReason) → Event
  usage_chunk : Usage → Event
  done : Event
  -- Anthropic messages
  message_start : (prompt_tokens : ℕ) → Event
  block_start : (index : ℕ) → Block → Event
  block_delta : (index : ℕ) → BlockDelta → Event
  block_stop : (index : ℕ) → Event
  message_delta : (stop_reason : StopReason) → Usage → Event
  message_stop : Event
  -- OpenAI responses
  response_created : Event
  message_added : (output_index : ℕ) (id : Bytes) → Event
  content_part_added : (id : Bytes) (output_index : ℕ) → Event
  output_text_delta : (id : Bytes) (output_index : ℕ) (delta : Bytes) → Event
  reasoning_added : (output_index : ℕ) (id : Bytes) → Event
  summary_part_added : (id : Bytes) (output_index : ℕ) → Event
  summary_text_delta : (id : Bytes) (output_index : ℕ) (delta : Bytes) → Event
  summary_text_done : (id : Bytes) (output_index : ℕ) (summary : Bytes) → Event
  summary_part_done : (id : Bytes) (output_index : ℕ) (summary : Bytes) → Event
  custom_input_delta custom_input_done : (output_index : ℕ) → ToolCall → Event
  arguments_delta arguments_done : (output_index : ℕ) → ToolCall → Event
  output_text_done : (id : Bytes) (output_index : ℕ) (content : Bytes) → Event
  content_part_done : (id : Bytes) (output_index : ℕ) (content : Bytes) → Event
  output_item_done : (output_index : ℕ) → Item → Event
  response_completed : (output : List Item) (output_text : Bytes) → Usage → Event
