-- ===== src/Tests/Sse.antt =====
-- The emitter (server/src/server/sse_emitter.cpp) at concrete inputs.
use codex_local_qwen27b.Base.{
  ℕ, ◌≡◌, refl, Bool, true, false, none, some, List, [], ◌∷◌, Bytes, codes,
}
use codex_local_qwen27b.Tests.Opened.{emitter_opened}
use codex_local_qwen27b.Sse.Blocks.{fresh, ended, follow}
use codex_local_qwen27b.Sse.Blocks.Session.{session-ended, session-ended_strict}
use codex_local_qwen27b.Sse.Event.{ApiFormat, openai_chat, anthropic, responses}
use codex_local_qwen27b.Sse.Session.{Finish, session}
use codex_local_qwen27b.Sse.Start.{Request}
use codex_local_qwen27b.Sse.Toolkit.{Toolkit}
use codex_local_qwen27b.Sse.View.Finish.{session-content_of, session-reasoning_of}
use codex_local_qwen27b.Sse.View.Wire.{content_of, reasoning_of}
use codex_local_qwen27b.Base.{starts_with, drop, arith, ◌≤◌}
use codex_local_qwen27b.Sse.Loop.{loop, loop_fuel, emit_tokens}
use codex_local_qwen27b.Sse.Loop.Counts.{CountsFit}
use codex_local_qwen27b.Sse.Loop.Ends.{loop_ends}
use codex_local_qwen27b.Sse.Loop.Stop.{FirstStop, best_stop-FirstStop}
use codex_local_qwen27b.Sse.Start.{new_emitter}
use codex_local_qwen27b.Sse.Token.{Emitter, content, best_stop}
use codex_local_qwen27b.Sse.Utf8Tail.{split_utf8_tail}
use codex_local_qwen27b.Sse.Session.Reason.{Agrees, session-Agrees}

-- A request without tools, over ASCII text.
abbrev pub plain : Toolkit
plain = record {
  has_request_tools = false;
  find_tool_syntax_start = λ t. none;
  tool_syntax_holdback = 0;
  is_declared_name = λ n. false;
  is_custom_tool = λ n. false;
  parse_tool_calls = λ t. record { cleaned_text = t; tool_calls = [] };
  utf8_safe_len = λ t n. n;
  utf8_sanitize = λ t. t;
}

abbrev pub request : ApiFormat → List Bytes → Bool → Request
request f stops thinking_first = record {
  format = f;
  prompt_tokens = 5;
  has_tool_memory = false;
  stop_sequences = stops;
  started_in_thinking = thinking_first;
  gen_item_id = λ n. n ∷ [];
  next_item = 0;
}

abbrev at_end : Finish
at_end = record {
  completion_tokens = 3;
  timings = none;
  generation_cap = none;
  ended_on_eos = true;
}

abbrev thinking_pieces : List Bytes
thinking_pieces = codes "<think>a" ∷ codes "b</think>" ∷ codes "cd" ∷ []

thinking_answer :
    (session plain (request openai_chat [] false) thinking_pieces at_end).accumulated_content
    ≡ codes "cd"
unfolding emitter_opened
thinking_answer = refl

content_example :
    content_of (session plain (request responses [] false) thinking_pieces at_end).wire.sent
    ≡ (session plain (request responses [] false) thinking_pieces at_end).accumulated_content
content_example = session-content_of plain (request responses [] false) thinking_pieces at_end tt

reasoning_example :
    reasoning_of (session plain (request anthropic [] false) thinking_pieces at_end).wire.sent
    ≡ (session plain (request anthropic [] false) thinking_pieces at_end).reasoning_text
reasoning_example =
    session-reasoning_of plain (request anthropic [] false) thinking_pieces at_end tt

ended_example :
    follow false
      (some fresh)
      (session plain (request anthropic (codes "!" ∷ []) false) thinking_pieces at_end).wire.sent
    ≡ some ended
ended_example =
    session-ended plain (request anthropic (codes "!" ∷ []) false) thinking_pieces at_end refl

ended_strict_example :
    follow true
      (some fresh)
      (session plain (request anthropic [] true) thinking_pieces at_end).wire.sent
    ≡ some ended
ended_strict_example =
    session-ended_strict plain (request anthropic [] true) thinking_pieces at_end refl refl

-- A stop sequence in the reasoning that follows `<think>` in an answer: the text block is open, and
-- takes a thinking delta.
stop_in_reasoning : List Bytes
stop_in_reasoning = codes "<think>" ∷ codes "ab!" ∷ []

strict_needs_no_stop :
    follow true
      (some fresh)
      (session plain (request anthropic (codes "!" ∷ []) false) stop_in_reasoning at_end).wire.sent
    ≡ none
unfolding emitter_opened stop_in_reasoning
strict_needs_no_stop = refl

-- The emitter of a request, after some calls of emit_token.
abbrev after : List Bytes → Emitter
after pieces = emit_tokens plain pieces (new_emitter (request openai_chat (codes "!" ∷ []) false))

loop_ends_example :
    (t : Emitter) × (loop plain (loop_fuel plain (after thinking_pieces)) (after thinking_pieces)
      ≡ some t)
loop_ends_example = loop_ends plain (after thinking_pieces)

abbrev two_stops : List Bytes
two_stops = codes "c!" ∷ codes "b" ∷ []

cut_at_b : best_stop (codes "abc!") two_stops ≡ some 1
unfolding emitter_opened
cut_at_b = refl

b_at_cut : starts_with (codes "b") (drop 1 (codes "abc!")) ≡ true
unfolding starts_with
b_at_cut = refl

stop_first_example :
    (i : ℕ) × (best_stop (codes "abc!") two_stops ≡ some i)
    × (i ≤ 1)
    × FirstStop (codes "abc!") two_stops i
stop_first_example =
    best_stop-FirstStop (codes "abc!") two_stops 1 1 (codes "b") refl (omega arith) b_at_cut

-- An emitter in CONTENT whose window holds "abc!".
abbrev answering : Emitter
answering = record (new_emitter (request openai_chat two_stops false)) { window = codes "abc!" }

in_content : answering.mode ≡ content
unfolding new_emitter
in_content = refl

starts_unset : CountsFit answering
unfolding new_emitter
starts_unset = tt

-- The first two bytes of a code point of three wait.
tail_waits : split_utf8_tail (97 ∷ 0xE2 ∷ 0x82 ∷ []) ≡ (97 ∷ [], 0xE2 ∷ 0x82 ∷ [])
unfolding emitter_opened
tail_waits = refl

reason_example : Agrees (session plain (request responses [] true) thinking_pieces at_end)
reason_example = session-Agrees plain (request responses [] true) thinking_pieces at_end
