-- ===== src/Sse/Loop/Counts.antt =====
-- The two token counters (sse_emitter.cpp, 297-304, 376-394, 886-888 and 1021-1023).
use codex_local_qwen27b.Base.{
  ℕ, ◌+◌, ◌≤◌, ◌≡◌, ◌∙◌, refl, Bool, true, false, not, ◌&&◌, Option, none, some, List, [], ◌∷◌,
  ◌++◌, arith, Bytes, if◌then◌else◌, if_both, if_cases, is_some, find, ◌==◌, ltb,
}
use codex_local_qwen27b.Sse.Content.{
  take_hit, HitType, think_tag, think_close_tag, tool_syntax, flush_content, buffer_bare_json,
  content_cut,
}
use codex_local_qwen27b.Sse.Loop.{emit_token, emit_tokens}
use codex_local_qwen27b.Sse.Loop.Invariant.{
  KeepsWindow, IsKept, process_window-keeps, emit_tokens-keeps,
}
use codex_local_qwen27b.Sse.Reasoning.{
  first_after_think, content_start_in, buffer_tool, close_think, tool_in_reasoning, flush_reasoning,
  safe_cut,
}
use codex_local_qwen27b.Sse.Token.{
  StreamMode, reasoning, content, tool_buffer, think_open, Emitter, add_reasoning, add_content,
  add_before_stop, stop_at, count_token, take_piece,
}
use codex_local_qwen27b.Sse.Toolkit.{Toolkit}

-- `first_content_token_index_` is -1 or at most the number of calls.
abbrev pub IndexFits : Option ℕ → ℕ → Type 0
IndexFits none count = Unit
IndexFits (some i) count = i ≤ count

abbrev pub CountsFit : Emitter → Type 0
CountsFit s = IndexFits s.first_content_token_index s.emit_token_count

content_start_in-fits : (full : Bytes) (count : ℕ) → IndexFits (content_start_in full count) count
unfolding content_start_in first_after_think
content_start_in-fits full count = ground arith

buffer_tool-CountsFit : (s : Emitter) → CountsFit s → CountsFit (buffer_tool s)
unfolding buffer_tool
buffer_tool-CountsFit s h =
    if_both (λ o. IndexFits o s.emit_token_count)
      (s.tool_from_reasoning && not (is_some s.first_content_token_index))
      (content_start_in-fits (s.tool_buffer ++ s.window) s.emit_token_count) h

-- The index that count_token leaves.
index_after :
    (o : Option ℕ) (m : StreamMode) (found : Bool) (count : ℕ)
    → IndexFits o count
    → IndexFits
        (elim o [
          | some i ↦ some i
          | none ↦ elim m [ content ↦ if found then none else some count | _ ↦ none ]
        ])
        (count + 1)
index_after o m found count h = ground arith

take_piece-CountsFit :
    (f : Bytes → Bytes) (raw : Bytes) (s : Emitter)
    → CountsFit s
    → CountsFit (take_piece f raw (count_token raw s))
unfolding take_piece count_token
take_piece-CountsFit f raw s h =
    index_after s.first_content_token_index s.mode (is_some (find raw think_open))
      s.emit_token_count h

take_hit-CountsFit : (t : HitType) (p : ℕ) (s : Emitter) → CountsFit s → CountsFit (take_hit t p s)
unfolding take_hit add_content
take_hit-CountsFit think_tag p s h = h
take_hit-CountsFit think_close_tag p s h = h
take_hit-CountsFit tool_syntax p s h = h

before_stop-CountsFit :
    (m : StreamMode) (pre : Bytes) (s : Emitter) → CountsFit s → CountsFit (add_before_stop m pre s)
unfolding add_before_stop add_content
before_stop-CountsFit reasoning [] s h = h
before_stop-CountsFit content [] s h = h
before_stop-CountsFit tool_buffer [] s h = h
before_stop-CountsFit reasoning (c ∷ cs) s h = h
before_stop-CountsFit content (c ∷ cs) s h = h
before_stop-CountsFit tool_buffer (c ∷ cs) s h = h

module _ (k : Toolkit) where
  flush_reasoning-CountsFit : (s : Emitter) → CountsFit s → CountsFit (flush_reasoning k s)
  unfolding flush_reasoning add_reasoning
  flush_reasoning-CountsFit s h = if_both CountsFit (safe_cut k s == 0) {x = s} h h

  flush_content-CountsFit : (s : Emitter) → CountsFit s → CountsFit (flush_content k s)
  unfolding flush_content add_content
  flush_content-CountsFit s h = if_both CountsFit (ltb 0 (content_cut k s)) {y = s} h h

  pub counts-IsKept : IsKept k CountsFit
  unfolding close_think tool_in_reasoning add_reasoning buffer_bare_json stop_at
  counts-IsKept = record {
    by_window = record {
      by_strip = λ w s h. h;
      by_checked = λ s h. h;
      by_close_think = λ i s h. h;
      by_tool_in_reasoning = λ i s h. h;
      by_flush_reasoning = flush_reasoning-CountsFit;
      by_hit = take_hit-CountsFit;
      by_bare_json = λ s h. h;
      by_flush_content = flush_content-CountsFit;
      by_buffer_tool = buffer_tool-CountsFit;
      by_stop = λ i s e h. before_stop-CountsFit s.mode _ s h;
    };
    by_piece = take_piece-CountsFit k.utf8_sanitize;
  }

  -- Behind the intake of the piece, the number of calls stays.
  abbrev CountIs : ℕ → Emitter → Type 0
  CountIs n s = s.emit_token_count ≡ n

  before_stop-count :
      (m : StreamMode) (pre : Bytes) (s : Emitter)
      → (add_before_stop m pre s).emit_token_count ≡ s.emit_token_count
  unfolding add_before_stop add_content
  before_stop-count m pre s = ground arith

  take_hit-count :
      (t : HitType) (p : ℕ) (s : Emitter) → (take_hit t p s).emit_token_count ≡ s.emit_token_count
  unfolding take_hit add_content
  take_hit-count t p s = ground arith

  count-KeepsWindow : (n : ℕ) → KeepsWindow k (CountIs n)
  unfolding close_think tool_in_reasoning add_reasoning buffer_bare_json stop_at flush_reasoning
      flush_content add_content buffer_tool
  count-KeepsWindow n = record {
    by_strip = λ w s h. h;
    by_checked = λ s h. h;
    by_close_think = λ i s h. h;
    by_tool_in_reasoning = λ i s h. h;
    by_flush_reasoning = λ s h. if_both (CountIs n) (safe_cut k s == 0) {x = s} h h;
    by_hit = λ t p s h. take_hit-count t p s ∙ h;
    by_bare_json = λ s h. h;
    by_flush_content = λ s h. if_both (CountIs n) (ltb 0 (content_cut k s)) {y = s} h h;
    by_buffer_tool = λ s h. h;
    by_stop = λ i s e h. before_stop-count s.mode _ s ∙ h;
  }

  -- A call on an emitter that has not stopped is counted once.
  pub emit_token-counts :
      (raw : Bytes) (s : Emitter)
      → s.stop_hit ≡ false
      → (emit_token k raw s).emit_token_count ≡ s.emit_token_count + 1
  unfolding emit_token take_piece count_token
  emit_token-counts raw s e =
      if_cases (CountIs (s.emit_token_count + 1)) s.stop_hit (λ t. absurd (cc))
        (λ t.
          process_window-keeps (count-KeepsWindow (s.emit_token_count + 1))
            (take_piece k.utf8_sanitize raw (count_token raw s)) refl)

  -- A call on an emitter that has stopped is not counted.
  pub emit_token-stopped :
      (raw : Bytes) (s : Emitter)
      → s.stop_hit ≡ true
      → (emit_token k raw s).emit_token_count ≡ s.emit_token_count
  unfolding emit_token
  emit_token-stopped raw s e =
      if_cases (CountIs s.emit_token_count) s.stop_hit (λ t. refl) (λ t. absurd (cc))

  -- After any calls of emit_token, `first_content_token_index_` is unset or at most
  -- `emit_token_count_`, if it was so before.
  pub emit_tokens-CountsFit :
      (pieces : List Bytes) (s : Emitter) → CountsFit s → CountsFit (emit_tokens k pieces s)
  emit_tokens-CountsFit = emit_tokens-keeps counts-IsKept
