-- ===== src/Tests/Opened.antt =====
-- Opens the whole emitter, for the tests that run it.
use codex_local_qwen27b.Base.{ℕ}
use codex_local_qwen27b.Sse.Utf8Tail.{
  is_continuation, sequence_length, split_at_lead, byte_before, split_utf8_tail,
}
use codex_local_qwen27b.Sse.Token.{
  add_reasoning, add_content, count_token, take_piece, best_stop, stop_reasoning_delta,
  add_before_stop, stop_at,
}
use codex_local_qwen27b.Sse.Reasoning.{
  first_after_think, content_start_in, buffer_tool, strip_on, strip_think_prefix, close_think,
  tool_in_reasoning, holdback, safe_cut, flush_reasoning, tool_hit, reasoning_hit, reasoning_round,
}
use codex_local_qwen27b.Sse.Content.{
  first_hit, take_hit, buffer_bare_json, is_ident, hold_name, starts_with_brace,
  starts_with_potential_bare_json_tool, content_cut, flush_content, content_hit, content_round,
}
use codex_local_qwen27b.Sse.Loop.{
  round_in, round, loop, run_loop, stop_in, process_window, emit_token, emit_tokens,
}
use codex_local_qwen27b.Sse.Start.{
  max_length, new_emitter, start_in, emit_start, suppress_undeclared_tool_protocol_token,
}
use codex_local_qwen27b.Sse.Final.{
  close_block, arguments_block, call_block, tool_use_blocks, call_events, calls_in, emit_tool_calls,
  stop_reason, reasoning_items, answer_items, final_output, items_done, message_done, final_in,
  emit_final,
}
use codex_local_qwen27b.Sse.Finish.{
  flush_utf8_tail, split_cleaned, add_cleaned, remember, add_after_think, zero_arg_name,
  flush_content_window, flush_in, flush_window, deliver_calls, suppress_buffer, deliver,
  parse_buffer, reaches_cap, is_stop, set_finish_reason, before_final, emit_finish,
}
use codex_local_qwen27b.Sse.ThinkClose.{
  is_word_char, is_word_at, apostrophe_in_word, cut_tags, close_tag, tag_name_of, ends_with_slash,
  is_tool_tag, scan_open_tag, scan_tag, scan_byte, scan, find_top_level_think_close,
}
use codex_local_qwen27b.Sse.Session.{streamed, session}
use codex_local_qwen27b.Sse.Wire.{
  switch_block, close_responses_reasoning_item, open_message_item, open_reasoning_item,
  content_delta_in, emit_content_delta, reasoning_delta_in, emit_reasoning_delta,
}
use codex_local_qwen27b.Base.{
  bytes_eq, starts_with, find, find_first, drop_trailing, drop_leading, count_while, any, all,
}
use codex_local_qwen27b.Sse.Timings.{round1, build_timings_json}
use codex_local_qwen27b.ToolSyntax.{
  is_alpha_or_underscore, is_name_byte, valid_tool_name, ident_start, arg_key_start, at_line_start,
  line_start, declared_tool_name, opens_tool, declared_tool_open_at, opener_at, syntax_at,
  find_syntax_from, find_tool_syntax_start, max_name_holdback, tool_syntax_holdback,
}
use codex_local_qwen27b.ToolTable.{
  has_name, is_namespace, allows, tool_allowed, namespace_in, find_tool_namespace,
}

-- A proof that unfolds this name computes with everything on the line.
unfoldable pub emitter_opened : ℕ
unfolding is_continuation sequence_length split_at_lead byte_before split_utf8_tail add_reasoning
    add_content count_token take_piece best_stop stop_reasoning_delta add_before_stop stop_at
    first_after_think content_start_in buffer_tool strip_on strip_think_prefix close_think
    tool_in_reasoning holdback safe_cut flush_reasoning tool_hit reasoning_hit reasoning_round
    first_hit take_hit buffer_bare_json is_ident hold_name starts_with_brace
    starts_with_potential_bare_json_tool content_cut flush_content content_hit content_round
    round_in round loop run_loop stop_in process_window emit_token emit_tokens max_length
    new_emitter start_in emit_start suppress_undeclared_tool_protocol_token close_block
    arguments_block call_block tool_use_blocks call_events calls_in emit_tool_calls stop_reason
    reasoning_items answer_items final_output items_done message_done final_in emit_final
    flush_utf8_tail split_cleaned add_cleaned remember add_after_think zero_arg_name
    flush_content_window flush_in flush_window deliver_calls suppress_buffer deliver parse_buffer
    reaches_cap is_stop set_finish_reason before_final emit_finish is_word_char is_word_at
    apostrophe_in_word cut_tags close_tag tag_name_of ends_with_slash is_tool_tag scan_open_tag
    scan_tag scan_byte scan find_top_level_think_close streamed session switch_block
    close_responses_reasoning_item open_message_item open_reasoning_item content_delta_in
    emit_content_delta reasoning_delta_in emit_reasoning_delta bytes_eq starts_with find find_first
    drop_trailing drop_leading count_while any all round1 build_timings_json
emitter_opened = 0

-- Opens the search for a tool call and the tables of declared names.
unfoldable pub tools_opened : ℕ
unfolding is_alpha_or_underscore is_name_byte valid_tool_name ident_start arg_key_start
    at_line_start line_start declared_tool_name opens_tool declared_tool_open_at opener_at syntax_at
    find_syntax_from find_tool_syntax_start max_name_holdback tool_syntax_holdback has_name
    is_namespace allows tool_allowed namespace_in find_tool_namespace is_ident count_while
    starts_with bytes_eq any all
tools_opened = 0
