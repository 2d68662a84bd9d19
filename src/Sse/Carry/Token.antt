-- ===== src/Sse/Carry/Token.antt =====
-- emit_token keeps a relation that is carried.
use codex_local_qwen27b.Base.{
  ℕ, ◌≡◌, sym, ap, ◌∙◌, some, List, [], ◌∷◌, Bytes, if_both, take, ◌==◌, ltb,
}
use codex_local_qwen27b.Sse.Content.{
  take_hit, HitType, think_tag, think_close_tag, tool_syntax, flush_content, buffer_bare_json,
  content_cut,
}
use codex_local_qwen27b.Sse.Loop.Invariant.{IsKept}
use codex_local_qwen27b.Sse.Reasoning.{
  buffer_tool, close_think, tool_in_reasoning, flush_reasoning, safe_cut,
}
use codex_local_qwen27b.Sse.Token.{
  StreamMode, reasoning, content, tool_buffer, Emitter, add_reasoning, add_content, count_token,
  take_piece, stop_at, add_before_stop, best_stop,
}
use codex_local_qwen27b.Sse.Toolkit.{Toolkit}
use codex_local_qwen27b.Sse.Carry.{IsCarried, Carries}
use codex_local_qwen27b.Sse.Wire.{Wire}

module _ {ℓ} {seqs : List Bytes} {W : Wire → Bytes → Bytes → Type ℓ}
    (carried : IsCarried seqs W) where
  abbrev C : Emitter → Type ℓ
  C = Carries seqs W

  pub add_content-Carries : (t : Bytes) (s : Emitter) → C s → C (add_content t s)
  unfolding add_content
  add_content-Carries t s h = (h.0, carried.carry_content t h.1)

  pub add_reasoning-Carries : (t : Bytes) (s : Emitter) → C s → C (add_reasoning t s)
  unfolding add_reasoning
  add_reasoning-Carries t s h = (h.0, carried.carry_reasoning t h.1)

  add_before_stop-Carries :
      (m : StreamMode) (pre : Bytes) (i : ℕ) (s : Emitter)
      → best_stop s.window s.stop_sequences ≡ some i
      → C s
      → C (add_before_stop m pre s)
  unfolding add_before_stop
  add_before_stop-Carries reasoning [] i s e h = h
  add_before_stop-Carries content [] i s e h = h
  add_before_stop-Carries tool_buffer [] i s e h = h
  add_before_stop-Carries reasoning (c ∷ cs) i s e h =
      (h.0, carried.carry_stop s.window i c cs (ap (best_stop s.window) (sym h.0) ∙ e) h.1)
  add_before_stop-Carries content (c ∷ cs) i s e h = add_content-Carries (c ∷ cs) s h
  add_before_stop-Carries tool_buffer (c ∷ cs) i s e h = add_content-Carries (c ∷ cs) s h

  stop_at-Carries :
      (i : ℕ) (s : Emitter) → best_stop s.window s.stop_sequences ≡ some i → C s → C (stop_at i s)
  unfolding stop_at
  stop_at-Carries i s e h = add_before_stop-Carries s.mode (take i s.window) i s e h

  close_think-Carries : (i : ℕ) (s : Emitter) → C s → C (close_think i s)
  unfolding close_think
  close_think-Carries i s h = add_reasoning-Carries (take i s.window) s h

  tool_in_reasoning-Carries : (i : ℕ) (s : Emitter) → C s → C (tool_in_reasoning i s)
  unfolding tool_in_reasoning
  tool_in_reasoning-Carries i s h =
      let h' = add_reasoning-Carries (take i s.window) s h in (h'.0, carried.carry_close h'.1)

  take_hit-Carries : (t : HitType) (p : ℕ) (s : Emitter) → C s → C (take_hit t p s)
  unfolding take_hit
  take_hit-Carries think_tag p s h = add_content-Carries (take p s.window) s h
  take_hit-Carries think_close_tag p s h = add_content-Carries (take p s.window) s h
  take_hit-Carries tool_syntax p s h = add_content-Carries (take p s.window) s h

  module _ (k : Toolkit) where
    flush_reasoning-Carries : (s : Emitter) → C s → C (flush_reasoning k s)
    unfolding flush_reasoning
    flush_reasoning-Carries s h =
        if_both C (safe_cut k s == 0) h (add_reasoning-Carries (take (safe_cut k s) s.window) s h)

    flush_content-Carries : (s : Emitter) → C s → C (flush_content k s)
    unfolding flush_content
    flush_content-Carries s h =
        if_both C (ltb 0 (content_cut k s))
          (add_content-Carries (take (content_cut k s) s.window) s h) h

    pub emit_token-IsKept : IsKept k C
    unfolding take_piece count_token buffer_bare_json buffer_tool
    emit_token-IsKept = record {
      by_window = record {
        by_strip = λ w s h. h;
        by_checked = λ s h. h;
        by_close_think = close_think-Carries;
        by_tool_in_reasoning = tool_in_reasoning-Carries;
        by_flush_reasoning = flush_reasoning-Carries;
        by_hit = take_hit-Carries;
        by_bare_json = λ s h. h;
        by_flush_content = flush_content-Carries;
        by_buffer_tool = λ s h. h;
        by_stop = stop_at-Carries;
      };
      by_piece = λ raw s h. h;
    }
