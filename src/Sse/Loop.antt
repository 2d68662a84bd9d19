-- ===== src/Sse/Loop.antt =====
-- emit_token (sse_emitter.cpp, 277-540). The `while (true)` takes fuel; `Sse.Loop.Ends` shows that
-- `loop_fuel` is enough, from the invariant that a round that goes on shortens the window or
-- enters TOOL_BUFFER.
pub mod Invariant
pub mod Ends
pub mod Stop
pub mod Counts
use codex_local_qwen27b.Base.{
  ℕ, zero, suc, Bool, true, false, Option, none, some, List, [], ◌∷◌, Bytes, if◌then◌else◌, length,
}
use codex_local_qwen27b.Sse.Toolkit.{Toolkit}
use codex_local_qwen27b.Sse.Reasoning.{buffer_tool, reasoning_round}
use codex_local_qwen27b.Sse.Content.{content_round}
use codex_local_qwen27b.Sse.Token.{
  StreamMode, reasoning, content, tool_buffer, Emitter, count_token, take_piece, best_stop, stop_at,
}

module _ (k : Toolkit) where
  -- One round: `true` is `continue`.
  unfoldable pub round_in : StreamMode → Emitter → Emitter × Bool
  round_in tool_buffer s = (buffer_tool s, false)
  round_in reasoning s = reasoning_round k s
  round_in content s = content_round k s

  unfoldable pub round : Emitter → Emitter × Bool
  unfolding round_in
  round s = round_in s.mode s

  -- The state where the loop breaks; `none` means that the fuel ran out.
  unfoldable pub loop : ℕ → Emitter → Option Emitter
  loop zero s = none
  loop (suc fuel) s =
      let (s', again) = round s in elim again [ true ↦ loop fuel s' | false ↦ some s' ]

  abbrev pub loop_fuel : Emitter → ℕ
  loop_fuel s = suc (suc (length s.window))

  abbrev pub or_else : Emitter → Option Emitter → Emitter
  or_else s none = s
  or_else s (some s') = s'

  unfoldable pub run_loop : Emitter → Emitter
  run_loop s = or_else s (loop (loop_fuel s) s)

  -- 337: no stop sequence is looked for in TOOL_BUFFER.
  unfoldable pub stop_in : StreamMode → Emitter → Option ℕ
  stop_in tool_buffer s = none
  stop_in _ s = best_stop s.window s.stop_sequences

  -- 336-540, after the piece has been taken
  unfoldable pub process_window : Emitter → Emitter
  unfolding stop_in
  process_window s = elim (stop_in s.mode s) [ none ↦ run_loop s | some best ↦ stop_at best s ]

  unfoldable pub emit_token : Bytes → Emitter → Emitter
  emit_token raw s =
      if s.stop_hit then s else process_window (take_piece k.utf8_sanitize raw (count_token raw s))

  -- The calls of one request, in order.
  unfoldable pub emit_tokens : List Bytes → Emitter → Emitter
  emit_tokens [] s = s
  emit_tokens (raw ∷ pieces) s = emit_tokens pieces (emit_token raw s)
