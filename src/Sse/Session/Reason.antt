-- ===== src/Sse/Session/Reason.antt =====
-- The finish reason of a request (sse_emitter.cpp, 843-1036).
use codex_local_qwen27b.Base.{
  ℕ, ◌+◌, ◌≡◌, arith, refl, sym, ap, ◌∙◌, Bool, true, false, not, ◌&&◌, Option, none, some, List,
  [], ◌∷◌, ◌++◌, Bytes, find, drop, if◌then◌else◌, is_empty, if_both, if_cases, ltb, ◌==◌,
}
use codex_local_qwen27b.Sse.Content.{
  take_hit, HitType, think_tag, think_close_tag, tool_syntax, flush_content, buffer_bare_json,
  content_cut,
}
use codex_local_qwen27b.Sse.Event.{ToolCall, FinishReason}
use codex_local_qwen27b.Sse.Final.{emit_final}
use codex_local_qwen27b.Sse.Finish.{
  flush_utf8_tail, split_cleaned, add_cleaned, remember, add_after_think, zero_arg_name,
  flush_content_window, flush_in, flush_window, deliver_calls, suppress_buffer, deliver,
  parse_buffer, reaches_cap, is_stop, set_finish_reason, before_final, emit_finish, is_tool_buffer,
}
use codex_local_qwen27b.Sse.Loop.Invariant.{IsKept, emit_tokens-keeps}
use codex_local_qwen27b.Sse.Reasoning.{
  buffer_tool, close_think, tool_in_reasoning, flush_reasoning, safe_cut,
}
use codex_local_qwen27b.Sse.Session.{Finish, session, streamed}
use codex_local_qwen27b.Sse.Start.{
  Request, new_emitter, emit_start, tool_call_open, tool_call_close,
}
use codex_local_qwen27b.Sse.ThinkClose.{find_top_level_think_close}
use codex_local_qwen27b.Sse.Token.{
  StreamMode, reasoning, content, tool_buffer, Emitter, think_close, add_content, add_reasoning,
  add_before_stop, stop_at, count_token, take_piece,
}
use codex_local_qwen27b.Sse.Toolkit.{Toolkit}

abbrev pub is_call : FinishReason → Bool
is_call FinishReason.tool_calls = true
is_call _ = false

-- The reason is `tool_calls` if and only if there are calls.
abbrev pub Agrees : Emitter → Type 0
Agrees s = is_call s.finish_reason ≡ not (is_empty s.tool_calls)

-- No call has been parsed yet.
abbrev NoCalls : Emitter → Type 0
NoCalls s = s.tool_calls ≡ []

take_hit-NoCalls : (t : HitType) (p : ℕ) (s : Emitter) → NoCalls s → NoCalls (take_hit t p s)
unfolding take_hit add_content
take_hit-NoCalls think_tag p s h = h
take_hit-NoCalls think_close_tag p s h = h
take_hit-NoCalls tool_syntax p s h = h

before_stop-NoCalls :
    (m : StreamMode) (pre : Bytes) (s : Emitter) → NoCalls s → NoCalls (add_before_stop m pre s)
unfolding add_before_stop add_content
before_stop-NoCalls reasoning [] s h = h
before_stop-NoCalls content [] s h = h
before_stop-NoCalls tool_buffer [] s h = h
before_stop-NoCalls reasoning (c ∷ cs) s h = h
before_stop-NoCalls content (c ∷ cs) s h = h
before_stop-NoCalls tool_buffer (c ∷ cs) s h = h

-- What add_cleaned and remember leave alone.
record SameCalls (s s' : Emitter) : Type 0 where
  same_calls : s'.tool_calls ≡ s.tool_calls
  same_reason : s'.finish_reason ≡ s.finish_reason

abbrev same : {s : Emitter} → SameCalls s s
same = record { same_calls = refl; same_reason = refl }

remember-SameCalls : (s : Emitter) → SameCalls s (remember s)
unfolding remember
remember-SameCalls s =
    if_both (SameCalls s) s.has_tool_memory {y = s}
      (record { same_calls = refl; same_reason = refl })
      (record { same_calls = refl; same_reason = refl })

add_cleaned_at-SameCalls :
    (o : Option ℕ) (cleaned : Bytes) (s : Emitter)
    → SameCalls s (elim o [
      | some i ↦ split_cleaned cleaned i s
      | none ↦ if s.tool_from_reasoning then add_reasoning cleaned s else add_content cleaned s
    ])
unfolding split_cleaned add_content add_reasoning
add_cleaned_at-SameCalls (some i) cleaned s = record { same_calls = refl; same_reason = refl }
add_cleaned_at-SameCalls none cleaned s =
    if_both (SameCalls s) s.tool_from_reasoning {x = add_reasoning cleaned s}
      {y = add_content cleaned s} (record { same_calls = refl; same_reason = refl })
      (record { same_calls = refl; same_reason = refl })

add_after_think-SameCalls : (o : Option ℕ) (s : Emitter) → SameCalls s (add_after_think o s)
unfolding add_after_think add_content
add_after_think-SameCalls none s = record { same_calls = refl; same_reason = refl }
add_after_think-SameCalls (some i) s =
    if_both (SameCalls s) (is_empty (drop (i + 8) s.tool_buffer)) {x = s}
      (record { same_calls = refl; same_reason = refl })
      (record { same_calls = refl; same_reason = refl })

Agrees-SameCalls : (s s' : Emitter) → SameCalls s s' → Agrees s → Agrees s'
Agrees-SameCalls s s' e h =
    ap is_call e.same_reason ∙ h ∙ sym (ap (λ ts. not (is_empty ts)) e.same_calls)

stop_no_call :
    (k : Toolkit) (r : FinishReason) → is_stop k r ≡ true → is_call FinishReason.length ≡ is_call r
unfolding is_stop
stop_no_call k FinishReason.stop e = refl
stop_no_call k FinishReason.length e = refl
stop_no_call k FinishReason.tool_calls e = cc

module _ (k : Toolkit) where
  NoCalls-IsKept : IsKept k NoCalls
  unfolding close_think tool_in_reasoning add_reasoning add_content buffer_bare_json stop_at
      flush_reasoning flush_content buffer_tool take_piece count_token
  NoCalls-IsKept = record {
    by_window = record {
      by_strip = λ w s h. h;
      by_checked = λ s h. h;
      by_close_think = λ i s h. h;
      by_tool_in_reasoning = λ i s h. h;
      by_flush_reasoning = λ s h. if_both NoCalls (safe_cut k s == 0) {x = s} h h;
      by_hit = take_hit-NoCalls;
      by_bare_json = λ s h. h;
      by_flush_content = λ s h. if_both NoCalls (ltb 0 (content_cut k s)) {y = s} h h;
      by_buffer_tool = λ s h. h;
      by_stop = λ i s e h. before_stop-NoCalls s.mode _ s h;
    };
    by_piece = λ raw s h. h;
  }

  flush_utf8_tail-NoCalls : (s : Emitter) → NoCalls s → NoCalls (flush_utf8_tail k.utf8_sanitize s)
  unfolding flush_utf8_tail
  flush_utf8_tail-NoCalls s h = if_both NoCalls (is_empty s.utf8_tail) {x = s} h h

  content_window-NoCalls :
      (o : Option Bytes) (s : Emitter)
      → NoCalls s
      → NoCalls (elim o [
        | some name ↦ record s {
          tool_buffer = tool_call_open ++ name ++ tool_call_close;
          mode = tool_buffer;
        }
        | none ↦ add_content s.window s
      ])
  unfolding add_content
  content_window-NoCalls (some name) s h = h
  content_window-NoCalls none s h = h

  flush_in-NoCalls : (m : StreamMode) (s : Emitter) → NoCalls s → NoCalls (flush_in k m s)
  unfolding flush_in flush_content_window add_reasoning
  flush_in-NoCalls reasoning s h = h
  flush_in-NoCalls content s h =
      if_both NoCalls (is_empty s.window) {x = s} {y = flush_content_window k s} h
        (content_window-NoCalls (zero_arg_name k s) s h)
  flush_in-NoCalls tool_buffer s h = h

  deliver-Agrees :
      (cleaned : Bytes) (ts : List ToolCall) (s : Emitter)
      → s.tool_calls ≡ ts
      → is_call s.finish_reason ≡ false
      → Agrees (deliver k cleaned ts s)
  unfolding deliver deliver_calls suppress_buffer add_content add_cleaned
  deliver-Agrees cleaned [] s e f =
      let h : Agrees s = f ∙ sym (ap (λ ts. not (is_empty ts)) e) in
      if_both Agrees s.tool_buffer_fallback_to_content {x = add_content s.tool_buffer s}
        {y = suppress_buffer k s} h
        (if_both Agrees s.tool_from_reasoning {y = s}
          (Agrees-SameCalls s _
            (add_after_think-SameCalls (find_top_level_think_close k s.tool_buffer) s) h)
          h)
  deliver-Agrees cleaned (t ∷ ts) s e f = sym (
      ap (λ us. not (is_empty us))
        ((add_cleaned_at-SameCalls (find cleaned think_close) cleaned (remember s)).same_calls
          ∙ (remember-SameCalls s).same_calls
          ∙ e))

  parse_buffer-Agrees : (s : Emitter) → NoCalls s → Agrees (parse_buffer k s)
  unfolding parse_buffer
  parse_buffer-Agrees s h =
      if_both Agrees (is_tool_buffer s.mode && not (is_empty s.tool_buffer))
        {y = record s { finish_reason = FinishReason.stop }} (deliver-Agrees _ _ _ refl refl)
        (sym (ap (λ ts. not (is_empty ts)) h))

  set_finish_reason-Agrees :
      (n : ℕ) (limit : Option ℕ) (eos : Bool) (s : Emitter)
      → Agrees s
      → Agrees (set_finish_reason k n limit eos s)
  unfolding set_finish_reason is_stop
  set_finish_reason-Agrees n limit eos s h =
      if_cases Agrees
        (is_stop k s.finish_reason && not s.stop_hit && not eos && reaches_cap k n limit) {y = s}
        (λ e. stop_no_call k s.finish_reason (ground (arith, e)) ∙ h) (λ e. h)

  -- When a request has been served, the finish reason is `tool_calls` if and only if calls were
  -- parsed, whatever the format, the request, the pieces and the tools.
  pub session-Agrees :
      (r : Request) (pieces : List Bytes) (f : Finish) → Agrees (session k r pieces f)
  unfolding session streamed emit_start new_emitter emit_finish emit_final before_final flush_window
  session-Agrees r pieces f =
      let s = streamed k r pieces in
      let h : NoCalls s =
        emit_tokens-keeps NoCalls-IsKept pieces (emit_start (new_emitter r)) refl in
      let flushed = flush_utf8_tail k.utf8_sanitize s in
      set_finish_reason-Agrees f.completion_tokens f.generation_cap f.ended_on_eos
        (parse_buffer k (flush_window k flushed))
        (parse_buffer-Agrees (flush_window k flushed)
          (flush_in-NoCalls flushed.mode flushed (flush_utf8_tail-NoCalls s h)))
