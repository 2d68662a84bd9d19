-- ===== src/Sse/Carry/Finish.antt =====
-- emit_finish keeps a relation that is carried, up to its last events.
use codex_local_qwen27b.Base.{
  ℕ, Bool, not, ◌&&◌, is_empty, Option, none, some, List, [], ◌∷◌, ◌++◌, Bytes, if_both, take, find,
  if◌then◌else◌,
}
use codex_local_qwen27b.Sse.Event.{ToolCall}
use codex_local_qwen27b.Sse.Final.{emit_tool_calls}
use codex_local_qwen27b.Sse.Finish.{
  is_tool_buffer, before_final, flush_utf8_tail, split_cleaned, add_cleaned, remember,
  add_after_think, flush_content_window, zero_arg_name, flush_in, flush_window, deliver_calls,
  suppress_buffer, deliver, parse_buffer, set_finish_reason,
}
use codex_local_qwen27b.Sse.Start.{tool_call_open, tool_call_close}
use codex_local_qwen27b.Sse.ThinkClose.{find_top_level_think_close}
use codex_local_qwen27b.Sse.Token.{
  StreamMode, reasoning, content, tool_buffer, Emitter, think_close, add_content, add_reasoning,
}
use codex_local_qwen27b.Sse.Toolkit.{Toolkit}
use codex_local_qwen27b.Sse.Carry.{IsCarried, Carries}
use codex_local_qwen27b.Sse.Carry.Token.{add_content-Carries, add_reasoning-Carries}
use codex_local_qwen27b.Sse.Wire.{Wire}

module _ {ℓ} {seqs : List Bytes} {W : Wire → Bytes → Bytes → Type ℓ}
    (carried : IsCarried seqs W) where
  abbrev C : Emitter → Type ℓ
  C = Carries seqs W

  split_cleaned-Carries : (c : Bytes) (i : ℕ) (s : Emitter) → C s → C (split_cleaned c i s)
  unfolding split_cleaned
  split_cleaned-Carries c i s h =
      add_content-Carries carried _ _ (add_reasoning-Carries carried (take i c) _ h)

  add_cleaned-Carries : (c : Bytes) (s : Emitter) → C s → C (add_cleaned c s)
  unfolding add_cleaned
  add_cleaned-Carries c s h = go (find c think_close)
    where
      go :
          (o : Option ℕ)
          → C (elim o [
            | some i ↦ split_cleaned c i s
            | none ↦ if s.tool_from_reasoning then add_reasoning c s else add_content c s
          ])
      go (some i) = split_cleaned-Carries c i s h
      go none =
          if_both C s.tool_from_reasoning (add_reasoning-Carries carried c s h)
            (add_content-Carries carried c s h)

  add_after_think-Carries : (o : Option ℕ) (s : Emitter) → C s → C (add_after_think o s)
  unfolding add_after_think
  add_after_think-Carries none s h = h
  add_after_think-Carries (some i) s h = if_both C _ h (add_content-Carries carried _ _ h)

  remember-Carries : (s : Emitter) → C s → C (remember s)
  unfolding remember
  remember-Carries s h = if_both C s.has_tool_memory h h

  module _ (k : Toolkit) where
    flush_content_window-Carries : (s : Emitter) → C s → C (flush_content_window k s)
    unfolding flush_content_window
    flush_content_window-Carries s h = go (zero_arg_name k s)
      where
        go :
            (o : Option Bytes)
            → C (elim o [
              | some name ↦ record s {
                tool_buffer = tool_call_open ++ name ++ tool_call_close;
                mode = tool_buffer;
              }
              | none ↦ add_content s.window s
            ])
        go (some name) = h
        go none = add_content-Carries carried s.window s h

    flush_in-Carries : (m : StreamMode) (s : Emitter) → C s → C (flush_in k m s)
    unfolding flush_in
    flush_in-Carries reasoning s h = add_reasoning-Carries carried s.window s h
    flush_in-Carries content s h = if_both C _ h (flush_content_window-Carries s h)
    flush_in-Carries tool_buffer s h = h

    flush_window-Carries : (s : Emitter) → C s → C (flush_window k s)
    unfolding flush_window
    flush_window-Carries s h =
        let h' = flush_in-Carries s.mode s h in (h'.0, carried.carry_close h'.1)

    flush_utf8_tail-Carries : (f : Bytes → Bytes) (s : Emitter) → C s → C (flush_utf8_tail f s)
    unfolding flush_utf8_tail
    flush_utf8_tail-Carries f s h = if_both C _ h h

    suppress_buffer-Carries : (s : Emitter) → C s → C (suppress_buffer k s)
    unfolding suppress_buffer
    suppress_buffer-Carries s h =
        if_both C s.tool_from_reasoning
          (add_after_think-Carries (find_top_level_think_close k s.tool_buffer) s h) h

    -- What is kept when tool calls were parsed is up to the format's events for them.
    module _ {V : Wire → Bytes → Bytes → Type ℓ}
        (relax : (w : Wire) (a t : Bytes) → W w a t → V w a t)
        (calls : (ts : List ToolCall) (w : Wire) (a t : Bytes)
          → W w a t
          → V (emit_tool_calls k.is_custom_tool ts w) a t) where
      deliver-Carries :
          (c : Bytes) (ts : List ToolCall) (s : Emitter) → C s → Carries seqs V (deliver k c ts s)
      unfolding deliver deliver_calls
      deliver-Carries c [] s h =
          let h' : C (deliver k c [] s) =
            if_both C s.tool_buffer_fallback_to_content
              (add_content-Carries carried s.tool_buffer s h) (suppress_buffer-Carries s h) in
          (h'.0, relax _ _ _ h'.1)
      deliver-Carries c (t ∷ ts) s h =
          let h' = add_cleaned-Carries c _ (remember-Carries s h) in (h'.0, calls _ _ _ _ h'.1)

      parse_buffer-Carries : (s : Emitter) → C s → Carries seqs V (parse_buffer k s)
      unfolding parse_buffer
      parse_buffer-Carries s h =
          if_both (Carries seqs V) (is_tool_buffer s.mode && not (is_empty s.tool_buffer))
            (deliver-Carries _ _ _ h) (h.0, relax _ _ _ h.1)

      -- The state when the final events are sent.
      pub before_final-Carries :
          (n : ℕ) (limit : Option ℕ) (eos : Bool) (s : Emitter)
          → C s
          → Carries seqs V (before_final k n limit eos s)
      unfolding before_final set_finish_reason
      before_final-Carries n limit eos s h =
          let h' =
            parse_buffer-Carries _ (flush_window-Carries _ (flush_utf8_tail-Carries _ s h)) in
          if_both (Carries seqs V) _ h' h'
