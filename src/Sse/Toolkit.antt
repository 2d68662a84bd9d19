-- ===== src/Sse/Toolkit.antt =====
-- What the emitter calls of tool_parser.cpp, utf8_utils.h and the request's tool declarations.
-- `Tools` fills the members that tool_parser.cpp and sse_emitter.cpp implement.
use codex_local_qwen27b.Base.{ℕ, Bool, List, Option, Bytes}
use codex_local_qwen27b.Sse.Event.{ToolCall}

-- ToolParseResult of tool_parser.h.
pub record ToolParseResult : Type 0 where
  pub cleaned_text : Bytes
  pub tool_calls : List ToolCall

pub record Toolkit : Type 0 where
  -- has_request_tools(tools_)
  pub has_request_tools : Bool
  -- find_tool_syntax_start(text, tools_, pos): `pos` if it returns true
  pub find_tool_syntax_start : Bytes → Option ℕ
  -- tool_syntax_holdback(tools_)
  pub tool_syntax_holdback : ℕ
  -- some declared tool has this name, at the top level of `tools_`
  pub is_declared_name : Bytes → Bool
  -- is_custom_tool(tools_, name)
  pub is_custom_tool : Bytes → Bool
  -- parse_tool_calls(text, tools_)
  pub parse_tool_calls : Bytes → ToolParseResult
  -- utf8_safe_len(text, n) and utf8_sanitize(text) of utf8_utils.h
  pub utf8_safe_len : Bytes → ℕ → ℕ
  pub utf8_sanitize : Bytes → Bytes
