-- ===== src/Server/Delivery.antt =====
-- The delivery of generated tokens to the emitter (http_server.cpp, 2517-2604 and 4178-4203). The
-- tokenizer is an argument. A stream's chunks are the events that a call adds to the emitter's log.
pub mod Same
mod Counted
pub mod Usage
use codex_local_qwen27b.Base.{
  ℕ, zero, suc, ◌+◌, ◌-◌, Bool, true, false, not, ◌&&◌, ◌||◌, Option, none, some, List, [], ◌∷◌,
  ◌++◌, Bytes, codes, ◌==◌, leb, if◌then◌else◌, length, is_empty, get_elem?, any, drop, bytes_eq,
  starts_with,
}
use codex_local_qwen27b.Server.Heartbeat.{Job, stop_job_stream}
use codex_local_qwen27b.Sse.Event.{Event}
use codex_local_qwen27b.Sse.Finish.{emit_finish}
use codex_local_qwen27b.Sse.Loop.{emit_token}
use codex_local_qwen27b.Sse.Start.{suppress_undeclared_tool_protocol_token}
use codex_local_qwen27b.Sse.Token.{Emitter}
use codex_local_qwen27b.Sse.Toolkit.{Toolkit}

-- The calls of the tokenizer. An id that the vocabulary has not is `none`.
pub record Tokenizer : Type 0 where
  pub eos_id : Option ℕ
  pub eos_chat_id : Option ℕ
  pub raw_token : ℕ → Bytes
  pub token_text : ℕ → Bytes

pub data TokenDelivery : Type 0 where
  k_skip k_think_tag k_text : TokenDelivery

abbrev pub is_id : ℕ → Option ℕ → Bool
is_id token none = false
is_id token (some id) = token == id

-- 2551-2553
abbrev pub tool_markers : List Bytes
tool_markers =
    codes "<tool_call>"
    ∷ codes "</tool_call>"
    ∷ codes "<arg_key>"
    ∷ codes "</arg_key>"
    ∷ codes "<arg_value>"
    ∷ codes "</arg_value>"
    ∷ []

abbrev pub byte_is : Bytes → ℕ → ℕ → Bool
byte_is raw i c = elim (get_elem? raw i) [ none ↦ false | some b ↦ b == c ]

-- 2560-2566: `<|…`, and `<…>` that is no byte fallback `<0x..>`
unfoldable pub is_control : Bytes → Bool
is_control raw =
    (leb 2 (length raw) && byte_is raw 0 b'<' && byte_is raw 1 b'|')
    || (leb 2 (length raw)
        && byte_is raw 0 b'<'
        && byte_is raw (length raw - 1) b'>'
        && not (length raw == 6 && byte_is raw 1 b'0' && byte_is raw 2 b'x'))

-- 2541-2569
unfoldable pub classify_raw : Bytes → Bytes → TokenDelivery × Bytes
unfolding is_control
classify_raw raw plain =
    if bytes_eq raw (codes "<|channel>") || bytes_eq raw (codes "<think>")
    then (k_think_tag, codes "<think>")
    else if bytes_eq raw (codes "<channel|>") || bytes_eq raw (codes "</think>")
    then (k_think_tag, codes "</think>\n")
    else if any (bytes_eq raw) tool_markers
    then (k_text, raw)
    else if is_control raw
    then (k_skip, [])
    else (k_text, plain)

-- 2591-2594: the token counts of a finished response
pub record CompletionTokenCounts : Type 0 where
  pub total : ℕ
  pub reasoning_tokens : ℕ
  pub content_tokens : ℕ

-- 2601-2602: `first_content` is `none` for -1.
unfoldable pub split_counts : ℕ → Option ℕ → ℕ → CompletionTokenCounts
split_counts total none emitted = record {
  total = total;
  reasoning_tokens = emitted;
  content_tokens = 0;
}
split_counts total (some first_content) emitted = record {
  total = total;
  reasoning_tokens = first_content;
  content_tokens = emitted - first_content;
}

-- What deliver_generation_token changes; `send_buffer` holds the rest of a cut comment or an event.
pub data Chunk : Type 0 where
  comment_rest : Bytes → Chunk
  frame : Event → Chunk

pub record Delivery : Type 0 where
  pub emitter : Emitter
  pub completion_tokens : ℕ
  pub job : Job
  pub send_buffer : List Chunk

abbrev pub frames : List Event → List Chunk
frames [] = []
frames (e ∷ es) = frame e ∷ frames es

-- `delivery == kThinkTag || !stop_hit()`
abbrev pub goes_on : TokenDelivery → Emitter → Bool
goes_on k_think_tag s = true
goes_on _ s = not s.stop_hit

module _ (T : Tokenizer) (k : Toolkit) where
  -- The classification, the text, and the emitter as suppress_undeclared_tool_protocol_token
  -- leaves it.
  unfoldable pub classify_generated_token : ℕ → Emitter → (TokenDelivery × Bytes) × Emitter
  unfolding classify_raw
  classify_generated_token token s =
      if is_id token T.eos_id || is_id token T.eos_chat_id
      then ((k_skip, []), s)
      else let asked = suppress_undeclared_tool_protocol_token k (T.raw_token token) s in
        if asked.0
        then ((k_skip, []), asked.1)
        else (classify_raw (T.raw_token token) (T.token_text token), asked.1)

  -- 2579-2589: one token; the flag is false at the `break`.
  unfoldable pub feed_token : TokenDelivery × Bytes → Emitter → Bool × Emitter
  feed_token (k_skip, t) s = (true, s)
  feed_token (k_think_tag, t) s = (true, emit_token k t s)
  feed_token (k_text, t) s = (not (emit_token k t s).stop_hit, emit_token k t s)

  unfoldable pub feed_tokens : List ℕ → Emitter → Emitter
  unfolding feed_token classify_generated_token
  feed_tokens [] s = s
  feed_tokens (token ∷ tokens) s =
      let asked = classify_generated_token token s in
      let fed = feed_token asked.0 asked.1 in
      let rest = feed_tokens tokens fed.1 in if fed.0 then rest else fed.1

  unfoldable pub feed_non_streaming_tokens : List ℕ → Emitter → CompletionTokenCounts × Emitter
  unfolding feed_tokens split_counts
  feed_non_streaming_tokens tokens s =
      let done = emit_finish k (length tokens) none none false (feed_tokens tokens s) in
      (split_counts (length tokens) done.first_content_token_index done.emit_token_count, done)

  -- 4195-4202: the chunks of a streamed call
  unfoldable pub send_chunks : Bool → List Event → Delivery → Delivery
  send_chunks false chunks d = d
  send_chunks true [] d = d
  send_chunks true (e ∷ es) d =
      let stopped = stop_job_stream true d.job in
      record d {
        job = stopped.0;
        send_buffer =
            (d.send_buffer ++ (if is_empty stopped.1 then [] else comment_rest stopped.1 ∷ []))
            ++ frames (e ∷ es);
      }

  -- 4186-4203, on the classification; the flag is what the call returns.
  unfoldable pub deliver_classified : Bool → TokenDelivery × Bytes → Delivery → Bool × Delivery
  unfolding send_chunks
  deliver_classified stream (k_skip, t) d = (true, d)
  deliver_classified stream (kind, t) d =
      if is_empty t && stream
      then (true, d)
      else let s = emit_token k t d.emitter in
        (
          goes_on kind s,
          send_chunks stream (drop (length d.emitter.wire.sent) s.wire.sent)
              (record d { emitter = s }),
        )

  unfoldable pub deliver_generation_token : Bool → ℕ → Delivery → Bool × Delivery
  unfolding deliver_classified classify_generated_token
  deliver_generation_token stream token d =
      let asked = classify_generated_token token d.emitter in
      deliver_classified stream asked.0
        (record d { emitter = asked.1; completion_tokens = d.completion_tokens + 1 })
