-- ===== src/Sse/Token.antt =====
-- `SseEmitter` and emit_token (sse_emitter.cpp, 106-131 and 277-540). `tools_` and what is called
-- on it stand in the section's `Toolkit`; they do not change while a request is served.
use codex_local_qwen27b.Base.{
  ℕ, ◌+◌, Bool, true, Option, none, some, List, [], ◌∷◌, ◌++◌, Bytes, codes, ltb, if◌then◌else◌,
  take, is_some, find,
}
use codex_local_qwen27b.Sse.Event.{
  ApiFormat, FinishReason, openai_chat, anthropic, ToolCall, reasoning_delta, thinking_delta,
  block_delta,
}
use codex_local_qwen27b.Sse.Utf8Tail.{split_utf8_tail}
use codex_local_qwen27b.Sse.Wire.{Wire, push_back, emit_content_delta, emit_reasoning_delta}

pub data StreamMode : Type 0 where
  reasoning content tool_buffer : StreamMode

abbrev pub think_open : Bytes
think_open = codes "<think>"

abbrev pub think_close : Bytes
think_close = codes "</think>"

pub record Emitter : Type 0 where
  pub wire : Wire
  pub open wire use *
  pub prompt_tokens : ℕ
  pub mode : StreamMode
  pub tool_from_reasoning : Bool
  pub suppress_undeclared_tool_protocol : Bool
  pub window : Bytes
  pub utf8_tail : Bytes
  pub tool_buffer : Bytes
  pub tool_buffer_fallback_to_content : Bool
  pub accumulated_content : Bytes
  pub accumulated_raw : Bytes
  pub reasoning_text : Bytes
  pub tool_calls : List ToolCall
  pub checked_think_prefix : Bool
  -- `none` is -1
  pub first_content_token_index : Option ℕ
  pub emit_token_count : ℕ
  pub stop_sequences : List Bytes
  pub stop_holdback : ℕ
  pub stop_hit : Bool
  pub finish_reason : FinishReason
  pub started_in_thinking : Bool
  -- Whether `tool_memory_` is set, and the calls of `remember` that were made on it.
  pub has_tool_memory : Bool
  pub remembered : List (List Bytes × Bytes)

-- The pairs of assignment and delta that the code makes on each path.
-- reasoning_text_ += t; emit_reasoning_delta(out, t);
unfoldable pub add_reasoning : Bytes → Emitter → Emitter
add_reasoning t s = record s {
  reasoning_text = s.reasoning_text ++ t;
  wire = emit_reasoning_delta t s.wire;
}

-- accumulated_content_ += t; emit_content_delta(out, t);
unfoldable pub add_content : Bytes → Emitter → Emitter
add_content t s = record s {
  accumulated_content = s.accumulated_content ++ t;
  wire = emit_content_delta s.reasoning_text t s.wire;
}

-- 297-304: the first call that finds CONTENT, and whose piece has no `<think>`.
unfoldable pub count_token : Bytes → Emitter → Emitter
count_token raw s = record s {
  first_content_token_index = elim s.first_content_token_index [
    | some i ↦ some i
    | none ↦ elim s.mode [
      | content ↦ if is_some (find raw think_open) then none else some s.emit_token_count
      | _ ↦ none
    ]
  ];
  emit_token_count = s.emit_token_count + 1;
}

-- 310-334
unfoldable pub take_piece : (Bytes → Bytes) → Bytes → Emitter → Emitter
take_piece sanitize raw s =
    let (kept, tail) = split_utf8_tail (s.utf8_tail ++ raw) in
    (record s {
      utf8_tail = tail;
      accumulated_raw = s.accumulated_raw ++ sanitize kept;
      window = s.window ++ sanitize kept;
    })

-- The smaller of two positions, where `none` is `npos`.
abbrev pub earlier : Option ℕ → Option ℕ → Option ℕ
earlier none q = q
earlier (some p) none = some p
earlier (some p) (some q) = if ltb q p then some q else some p

-- 338-344
unfoldable pub best_stop : Bytes → List Bytes → Option ℕ
best_stop window [] = none
best_stop window (seq ∷ seqs) = earlier (find window seq) (best_stop window seqs)

-- 349-362: the delta before a stop sequence in REASONING; Responses sends none.
unfoldable pub stop_reasoning_delta : ApiFormat → Bytes → Wire → Wire
stop_reasoning_delta openai_chat pre w = push_back (reasoning_delta pre) w
stop_reasoning_delta anthropic pre w = push_back (block_delta w.block_index (thinking_delta pre)) w
stop_reasoning_delta _ pre w = w

unfoldable pub add_before_stop : StreamMode → Bytes → Emitter → Emitter
add_before_stop m [] s = s
add_before_stop reasoning (c ∷ cs) s = record s {
  reasoning_text = s.reasoning_text ++ c ∷ cs;
  wire = stop_reasoning_delta s.format (c ∷ cs) s.wire;
}
add_before_stop _ (c ∷ cs) s = add_content (c ∷ cs) s

-- 345-370
unfoldable pub stop_at : ℕ → Emitter → Emitter
unfolding add_before_stop stop_reasoning_delta
stop_at best s =
    let s' = add_before_stop s.mode (take best s.window) s in
    (record s' { window = []; stop_hit = true })
