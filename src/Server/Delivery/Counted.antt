-- ===== src/Server/Delivery/Counted.antt =====
-- The end of a response keeps the token counters (server/src/server/sse_emitter.cpp, emit_finish).
use codex_local_qwen27b.Base.{
  ℕ, ◌+◌, ◌≤◌, ◌≡◌, Bool, not, ◌&&◌, Option, none, some, List, [], ◌∷◌, ◌++◌, Bytes, arith, find,
  drop, if◌then◌else◌, is_empty, if_both,
}
use codex_local_qwen27b.Sse.Event.{ToolCall}
use codex_local_qwen27b.Sse.Final.{emit_final}
use codex_local_qwen27b.Sse.Finish.{
  flush_utf8_tail, split_cleaned, add_cleaned, remember, add_after_think, zero_arg_name,
  flush_content_window, flush_in, flush_window, deliver_calls, suppress_buffer, deliver,
  parse_buffer, reaches_cap, is_stop, set_finish_reason, before_final, emit_finish, is_tool_buffer,
  last_token, index_or,
}
use codex_local_qwen27b.Sse.Loop.Counts.{IndexFits, CountsFit}
use codex_local_qwen27b.Sse.Start.{tool_call_open, tool_call_close}
use codex_local_qwen27b.Sse.ThinkClose.{find_top_level_think_close}
use codex_local_qwen27b.Sse.Timings.{GenTimings}
use codex_local_qwen27b.Sse.Token.{
  StreamMode, reasoning, content, tool_buffer, Emitter, think_close, add_content, add_reasoning,
}
use codex_local_qwen27b.Sse.Toolkit.{Toolkit}

index_or-fits :
    (o : Option ℕ) (i count : ℕ) → IndexFits o count → i ≤ count → IndexFits (index_or i o) count
index_or-fits none i count h l = l
index_or-fits (some j) i count h l = h

-- So many calls, and the index fits them.
abbrev pub Fits : ℕ → Emitter → Type 0
Fits n s = CountsFit s × (s.emit_token_count ≡ n)

module _ (n : ℕ) where
  abbrev Fit : Emitter → Type 0
  Fit s = Fits n s

  flush_utf8_tail-Fits : (f : Bytes → Bytes) (s : Emitter) → Fit s → Fit (flush_utf8_tail f s)
  unfolding flush_utf8_tail
  flush_utf8_tail-Fits f s h = if_both Fit (is_empty s.utf8_tail) {x = s} h h

  split_cleaned-Fits :
      (cleaned : Bytes) (i : ℕ) (s : Emitter) → Fit s → Fit (split_cleaned cleaned i s)
  unfolding split_cleaned add_content add_reasoning
  split_cleaned-Fits cleaned i s h = (
    index_or-fits s.first_content_token_index _ s.emit_token_count h.0 (
        if_both (λ z. z ≤ s.emit_token_count) (is_empty (drop (i + 8) cleaned)) (omega arith)
          (omega arith)),
    h.1,
  )

  add_cleaned_at-Fits :
      (o : Option ℕ) (cleaned : Bytes) (s : Emitter)
      → Fit s
      → Fit (elim o [
        | some i ↦ split_cleaned cleaned i s
        | none ↦ if s.tool_from_reasoning then add_reasoning cleaned s else add_content cleaned s
      ])
  unfolding add_content add_reasoning
  add_cleaned_at-Fits (some i) cleaned s h = split_cleaned-Fits cleaned i s h
  add_cleaned_at-Fits none cleaned s h =
      if_both Fit s.tool_from_reasoning {x = add_reasoning cleaned s} {y = add_content cleaned s} h
        h

  remember-Fits : (s : Emitter) → Fit s → Fit (remember s)
  unfolding remember
  remember-Fits s h = if_both Fit s.has_tool_memory {y = s} h h

  add_after_think-Fits : (o : Option ℕ) (s : Emitter) → Fit s → Fit (add_after_think o s)
  unfolding add_after_think add_content
  add_after_think-Fits none s h = h
  add_after_think-Fits (some i) s h =
      if_both Fit (is_empty (drop (i + 8) s.tool_buffer)) {x = s} h (
        index_or-fits s.first_content_token_index (last_token s) s.emit_token_count h.0
            (omega arith),
        h.1,
      )

  module _ (k : Toolkit) where
    content_window-Fits :
        (o : Option Bytes) (s : Emitter)
        → Fit s
        → Fit (elim o [
          | some name ↦ record s {
            tool_buffer = tool_call_open ++ name ++ tool_call_close;
            mode = tool_buffer;
          }
          | none ↦ add_content s.window s
        ])
    unfolding add_content
    content_window-Fits (some name) s h = h
    content_window-Fits none s h = h

    flush_in-Fits : (m : StreamMode) (s : Emitter) → Fit s → Fit (flush_in k m s)
    unfolding flush_in flush_content_window add_reasoning
    flush_in-Fits reasoning s h = h
    flush_in-Fits content s h =
        if_both Fit (is_empty s.window) {x = s} {y = flush_content_window k s} h
          (content_window-Fits (zero_arg_name k s) s h)
    flush_in-Fits tool_buffer s h = h

    deliver-Fits :
        (cleaned : Bytes) (ts : List ToolCall) (s : Emitter) → Fit s → Fit (deliver k cleaned ts s)
    unfolding deliver deliver_calls suppress_buffer add_content add_cleaned
    deliver-Fits cleaned [] s h =
        if_both Fit s.tool_buffer_fallback_to_content {x = add_content s.tool_buffer s}
          {y = suppress_buffer k s} h
          (if_both Fit s.tool_from_reasoning {y = s}
            (add_after_think-Fits (find_top_level_think_close k s.tool_buffer) s h) h)
    deliver-Fits cleaned (t ∷ ts) s h =
        add_cleaned_at-Fits (find cleaned think_close) cleaned (remember s) (remember-Fits s h)

    parse_buffer-Fits : (s : Emitter) → Fit s → Fit (parse_buffer k s)
    unfolding parse_buffer
    parse_buffer-Fits s h =
        if_both Fit (is_tool_buffer s.mode && not (is_empty s.tool_buffer)) (deliver-Fits _ _ _ h) h

    set_finish_reason-Fits :
        (n : ℕ) (limit : Option ℕ) (eos : Bool) (s : Emitter)
        → Fit s
        → Fit (set_finish_reason k n limit eos s)
    unfolding set_finish_reason
    set_finish_reason-Fits n limit eos s h =
        if_both Fit
          (is_stop k s.finish_reason && not s.stop_hit && not eos && reaches_cap k n limit) {y = s}
          h h

    pub emit_finish-Fits :
        (n : ℕ) (timings : Option GenTimings) (limit : Option ℕ) (eos : Bool) (s : Emitter)
        → Fit s
        → Fit (emit_finish k n timings limit eos s)
    unfolding emit_finish emit_final before_final flush_window
    emit_finish-Fits n timings limit eos s h =
        let flushed = flush_utf8_tail k.utf8_sanitize s in
        set_finish_reason-Fits n limit eos (parse_buffer k (flush_window k flushed)) (
          parse_buffer-Fits (flush_window k flushed)
            (flush_in-Fits flushed.mode flushed (flush_utf8_tail-Fits k.utf8_sanitize s h)))
