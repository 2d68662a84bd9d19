-- ===== src/Sse/Blocks/Session.antt =====
-- A whole Anthropic request is a stream that its client accepts.
use codex_local_qwen27b.Base.{
  ℕ, ◌+◌, ◌≡◌, refl, ap, ◌∙◌, ◌⊎◌, inl, inr, Bool, true, false, none, some, List, [], ◌∷◌, arith,
  Bytes, if_cases,
}
use codex_local_qwen27b.Sse.Blocks.{fresh, idle, opened, ended, follow}
use codex_local_qwen27b.Sse.Blocks.Wire.{
  At, At-append, IsOpen, push_delta-IsOpen, emit_content_delta-IsOpen, emit_reasoning_delta-IsOpen,
  close_item-IsOpen,
}
use codex_local_qwen27b.Sse.Carry.{IsCarried}
use codex_local_qwen27b.Sse.Carry.Finish.{before_final-Carries}
use codex_local_qwen27b.Sse.Carry.Token.{emit_token-IsKept}
use codex_local_qwen27b.Sse.Event.{
  ApiFormat, openai_chat, anthropic, responses, other, Kind, thinking, text, closed, ToolCall,
  Usage, thinking_delta, block_stop,
}
use codex_local_qwen27b.Sse.Final.{
  is_closed, close_block, call_block, tool_use_blocks, calls_in, final_in, emit_tool_calls,
  emit_final,
}
use codex_local_qwen27b.Sse.Finish.{emit_finish}
use codex_local_qwen27b.Sse.Loop.Invariant.{emit_tokens-keeps}
use codex_local_qwen27b.Sse.Session.{Finish, session, streamed}
use codex_local_qwen27b.Sse.Start.{Request, new_wire, new_emitter, start_in, emit_start}
use codex_local_qwen27b.Sse.Token.{Emitter, best_stop, stop_reasoning_delta}
use codex_local_qwen27b.Sse.Toolkit.{Toolkit}
use codex_local_qwen27b.Sse.Wire.{Wire, same_kind, block_of}

module _ (strict : Bool) where
  -- No block is open, and the next one is number `block_index + 1`.
  record IsShut (w : Wire) : Type 0 where
    is_anthropic : w.format ≡ anthropic
    shut_kind : w.active_kind ≡ closed
    at_next : At strict w (idle (w.block_index + 1))

  -- Before the final events a block may be open or not.
  abbrev IsReady : Wire → Type 0
  IsReady w = IsOpen strict w ⊎ IsShut w

  kind_shut : (k : Kind) → is_closed k ≡ true → same_kind k closed ≡ true
  kind_shut thinking e = cc
  kind_shut text e = cc
  kind_shut closed e = refl

  stop_step :
      (n : ℕ) (b : Kind)
      → follow strict (some (opened n (block_of b))) (block_stop n ∷ []) ≡ some (idle (n + 1))
  stop_step n b = ground arith

  close_open-IsShut : (w : Wire) → IsOpen strict w → IsShut (close_block w)
  unfolding close_block
  close_open-IsShut w h =
      if_cases IsShut (is_closed w.active_kind)
        (λ e. absurd (ground (arith, h.some_kind, kind_shut w.active_kind e)))
        (λ e. record {
          is_anthropic = h.is_anthropic;
          shut_kind = refl;
          at_next = At-append strict w _ h.at_block ∙ stop_step w.block_index w.active_kind;
        })

  close_closed-IsShut : (w : Wire) → IsShut w → IsShut (close_block w)
  unfolding close_block
  close_closed-IsShut w h =
      if_cases IsShut (is_closed w.active_kind) (λ e. h) (λ e. absurd (ground (arith, h.shut_kind)))

  close_block-IsShut : (w : Wire) → IsReady w → IsShut (close_block w)
  close_block-IsShut w (inl h) = close_open-IsShut w h
  close_block-IsShut w (inr h) = close_closed-IsShut w h

  call_block_step :
      (n : ℕ) (id name arguments namespace : Bytes)
      → follow strict (some (idle n)) (
          call_block n
            (record { id = id; name = name; arguments = arguments; namespace = namespace }))
        ≡ some (idle (n + 1))
  unfolding call_block
  call_block_step n id name [] namespace = ground arith
  call_block_step n id name (c ∷ cs) namespace = ground arith

  tool_use_blocks-IsShut :
      (ts : List ToolCall) (w : Wire) → IsShut w → IsShut (tool_use_blocks ts w)
  unfolding tool_use_blocks
  tool_use_blocks-IsShut [] w h = h
  tool_use_blocks-IsShut (t ∷ ts) w h = tool_use_blocks-IsShut ts _ (record {
    is_anthropic = h.is_anthropic;
    shut_kind = h.shut_kind;
    at_next =
        At-append strict w _ h.at_next
        ∙ call_block_step (w.block_index + 1) t.id t.name t.arguments t.namespace;
  })

  calls_in-IsShut :
      (f : ApiFormat) (is_custom : Bytes → Bool) (ts : List ToolCall) (w : Wire)
      → f ≡ anthropic
      → IsOpen strict w
      → IsShut (calls_in f is_custom ts w)
  unfolding calls_in
  calls_in-IsShut anthropic is_custom ts w e h = tool_use_blocks-IsShut ts _ (close_open-IsShut w h)
  calls_in-IsShut openai_chat is_custom ts w e h = cc
  calls_in-IsShut responses is_custom ts w e h = cc
  calls_in-IsShut other is_custom ts w e h = cc

  Ready_format : (w : Wire) → IsReady w → w.format ≡ anthropic
  Ready_format w (inl h) = h.is_anthropic
  Ready_format w (inr h) = h.is_anthropic

  final_in-ended :
      (f : ApiFormat) (is_custom : Bytes → Bool) (u : Usage) (s : Emitter)
      → f ≡ anthropic
      → IsReady s.wire
      → At strict (final_in f is_custom u s) ended
  unfolding final_in
  final_in-ended anthropic is_custom u s e h =
      At-append strict (close_block s.wire) _ (close_block-IsShut s.wire h).at_next
  final_in-ended openai_chat is_custom u s e h = cc
  final_in-ended responses is_custom u s e h = cc
  final_in-ended other is_custom u s e h = cc

  start_in-IsOpen :
      (f : ApiFormat) (n : ℕ) (b : Bool) (r : Request)
      → f ≡ anthropic
      → r.format ≡ anthropic
      → IsOpen strict (start_in f n b (new_wire r))
  unfolding start_in
  start_in-IsOpen anthropic n b r q e = record {
    is_anthropic = e;
    no_item = refl;
    some_kind =
        if_cases (λ k. same_kind k closed ≡ false) r.started_in_thinking (λ p. refl) (λ p. refl);
    at_block = refl;
  }
  start_in-IsOpen openai_chat n b r q e = cc
  start_in-IsOpen responses n b r q e = cc
  start_in-IsOpen other n b r q e = cc

  -- What is needed of a stop sequence in REASONING.
  abbrev StopsWell : List Bytes → Type 0
  StopsWell seqs =
      (window : Bytes) (i : ℕ) (c : ℕ) (cs : Bytes) (w : Wire)
      → best_stop window seqs ≡ some i
      → IsOpen strict w
      → IsOpen strict (stop_reasoning_delta w.format (c ∷ cs) w)

  module _ (k : Toolkit) (r : Request) (stops : StopsWell r.stop_sequences) where
    carried : IsCarried r.stop_sequences (λ w a t. IsOpen strict w)
    carried = record {
      carry_content = λ x {w} {a} {t} h. emit_content_delta-IsOpen strict t x w h;
      carry_reasoning = λ x {w} {a} {t} h. emit_reasoning_delta-IsOpen strict x w h;
      carry_close = λ {w} {a} {t} h. close_item-IsOpen strict t w h;
      carry_stop = λ window i c cs {w} {a} {t} e h. stops window i c cs w e h;
    }

    session_ends :
        (pieces : List Bytes) (f : Finish)
        → r.format ≡ anthropic
        → At strict (session k r pieces f).wire ended
    unfolding session streamed emit_start new_emitter emit_finish emit_final emit_tool_calls
    session_ends pieces f e =
        let started : IsOpen strict (emit_start (new_emitter r)).wire =
          start_in-IsOpen r.format r.prompt_tokens r.started_in_thinking r e e in
        let token_h = emit_tokens-keeps (emit_token-IsKept carried k) pieces _ (refl, started) in
        let finished =
          before_final-Carries carried k {V = λ w a t. IsReady w} (λ w a t q. inl q)
            (λ ts w a t q. inr (calls_in-IsShut w.format k.is_custom_tool ts w q.is_anthropic q))
            f.completion_tokens f.generation_cap f.ended_on_eos (streamed k r pieces) token_h in
        final_in-ended _ _ _ _ (Ready_format _ finished.1) finished.1

loose_stop :
    (f : ApiFormat) (c : ℕ) (cs : Bytes) (w : Wire)
    → f ≡ anthropic
    → IsOpen false w
    → IsOpen false (stop_reasoning_delta f (c ∷ cs) w)
unfolding stop_reasoning_delta
loose_stop anthropic c cs w e h = push_delta-IsOpen false w (thinking_delta (c ∷ cs)) refl h
loose_stop openai_chat c cs w e h = cc
loose_stop responses c cs w e h = cc
loose_stop other c cs w e h = cc

-- In the Anthropic format, whatever the request, the pieces and the tools, the events of a request
-- are message_start, then blocks numbered 0, 1, 2, … that are each started, filled by deltas of
-- their own number and stopped before the next starts, then message_delta and message_stop.
pub session-ended :
    (k : Toolkit) (r : Request) (pieces : List Bytes) (f : Finish)
    → r.format ≡ anthropic
    → follow false (some fresh) (session k r pieces f).wire.sent ≡ some ended
session-ended k r pieces f e =
    session_ends false k r (λ window i c cs w p h. loose_stop w.format c cs w h.is_anthropic h)
      pieces f e

no_stop : (window : Bytes) → best_stop window [] ≡ none
unfolding best_stop
no_stop window = refl

-- In the Anthropic format, if the request has no stop sequence, the events of a request follow the
-- same protocol of blocks, and every delta is of its block's type: thinking in a thinking block,
-- text in a text block, JSON in a tool_use block.
pub session-ended_strict :
    (k : Toolkit) (r : Request) (pieces : List Bytes) (f : Finish)
    → r.format ≡ anthropic
    → r.stop_sequences ≡ []
    → follow true (some fresh) (session k r pieces f).wire.sent ≡ some ended
session-ended_strict k r pieces f e q =
    session_ends true k r
      (λ window i c cs w p h. absurd (ground (arith, no_stop window, ap (best_stop window) q)))
      pieces f e
