-- ===== src/Sse/View/Finish.antt =====
-- emit_finish delivers what it accumulates, and so does a whole request.
use codex_local_qwen27b.Base.{ℕ, ◌+◌, ◌≡◌, refl, ◌∙◌, Bool, List, [], ◌∷◌, ◌++◌, Bytes, if_both}
use codex_local_qwen27b.Sse.Event.{
  ApiFormat, openai_chat, anthropic, responses, other, ToolCall, Usage, Event, Item, block_stop,
}
use codex_local_qwen27b.Sse.Final.{
  append, close_block, arguments_block, call_block, tool_use_blocks, call_events, calls_in,
  emit_tool_calls, message_done, items_done, final_in, emit_final,
}
use codex_local_qwen27b.Sse.Finish.{emit_finish}
use codex_local_qwen27b.Sse.Loop.Invariant.{emit_tokens-keeps}
use codex_local_qwen27b.Sse.Carry.Token.{emit_token-IsKept}
use codex_local_qwen27b.Sse.Carry.Finish.{before_final-Carries}
use codex_local_qwen27b.Sse.Session.{Finish, session, streamed}
use codex_local_qwen27b.Sse.Start.{Request, new_wire, new_emitter, start_in, emit_start}
use codex_local_qwen27b.Sse.Token.{Emitter}
use codex_local_qwen27b.Sse.Toolkit.{Toolkit}
use codex_local_qwen27b.Sse.View.Token.{Delivers, Holds-silent, Holds-IsCarried}
use codex_local_qwen27b.Sse.View.Wire.{
  content_of, reasoning_of, collect-append, content_in, reasoning_in, Streams, Chats, Adds,
  Adds-append, Adds-refl, Adds-trans, open_message_item-Adds,
}
use codex_local_qwen27b.Sse.Wire.{Wire}

-- Events with no text of the answer or of the reasoning.
record IsSilent (es : List Event) : Type 0 where
  no_content : content_of es ≡ []
  no_reasoning : reasoning_of es ≡ []

IsSilent-append : {xs ys : List Event} → IsSilent xs → IsSilent ys → IsSilent (xs ++ ys)
IsSilent-append {xs} {ys} a b = record {
  no_content = collect-append content_in xs ys ∙ simp (a.no_content, b.no_content);
  no_reasoning = collect-append reasoning_in xs ys ∙ simp (a.no_reasoning, b.no_reasoning);
}

append-Adds : (w : Wire) (es : List Event) → IsSilent es → Adds w (append es w) [] []
append-Adds w es q = rw (q.no_content, q.no_reasoning) at (Adds-append w (append es w) es refl refl)

abbrev silent : {es : List Event} → content_of es ≡ [] → reasoning_of es ≡ [] → IsSilent es
silent p q = record { no_content = p; no_reasoning = q }

arguments_block-IsSilent : (i : ℕ) (a : Bytes) → IsSilent (arguments_block i a)
unfolding arguments_block
arguments_block-IsSilent i [] = silent refl refl
arguments_block-IsSilent i (c ∷ cs) = silent refl refl

call_block-IsSilent : (i : ℕ) (t : ToolCall) → IsSilent (call_block i t)
unfolding call_block
call_block-IsSilent i t =
    let rest =
      IsSilent-append (arguments_block-IsSilent i t.arguments)
        (silent {es = block_stop i ∷ []} refl refl) in
    silent rest.no_content rest.no_reasoning

close_block-Adds : (w : Wire) → Adds w (close_block w) [] []
unfolding close_block
close_block-Adds w = if_both (λ z. Adds w z [] []) _ (Adds-refl w) (Adds-append w _ _ refl refl)

tool_use_blocks-Adds : (ts : List ToolCall) (w : Wire) → Adds w (tool_use_blocks ts w) [] []
unfolding tool_use_blocks
tool_use_blocks-Adds [] w = Adds-refl w
tool_use_blocks-Adds (t ∷ ts) w =
    Adds-trans
      (Adds-same
        (append-Adds (record w { block_index = w.block_index + 1 }) _ (call_block-IsSilent _ t)))
      (tool_use_blocks-Adds ts _)
  where
    Adds-same : {i : ℕ} {v : Wire} → Adds (record w { block_index = i }) v [] [] → Adds w v [] []
    Adds-same a = record {
      same_format = a.same_format;
      adds_content = a.adds_content;
      adds_reasoning = a.adds_reasoning;
    }

call_events-IsSilent :
    (is_custom : Bytes → Bool) (i : ℕ) (ts : List ToolCall) → IsSilent (call_events is_custom i ts)
unfolding call_events
call_events-IsSilent is_custom i [] = silent refl refl
call_events-IsSilent is_custom i (t ∷ ts) =
    IsSilent-append (if_both IsSilent (is_custom t.name) (silent refl refl) (silent refl refl))
      (call_events-IsSilent is_custom i ts)

calls_in-Adds :
    (f : ApiFormat) (is_custom : Bytes → Bool) (ts : List ToolCall) (w : Wire)
    → Adds w (calls_in f is_custom ts w) [] []
unfolding calls_in
calls_in-Adds openai_chat is_custom ts w = append-Adds w _ (silent refl refl)
calls_in-Adds anthropic is_custom ts w = Adds-trans (close_block-Adds w) (tool_use_blocks-Adds ts _)
calls_in-Adds responses is_custom ts w = append-Adds w _ (call_events-IsSilent is_custom _ ts)
calls_in-Adds other is_custom ts w = Adds-refl w

items_done-IsSilent : (i : ℕ) (xs : List Item) → IsSilent (items_done i xs)
unfolding items_done
items_done-IsSilent i [] = silent refl refl
items_done-IsSilent i (x ∷ xs) =
    let rest = items_done-IsSilent (i + 1) xs in silent rest.no_content rest.no_reasoning

message_done-IsSilent : (s : Emitter) → IsSilent (message_done s)
unfolding message_done
message_done-IsSilent s =
    if_both IsSilent s.responses_msg_item_open (silent refl refl) (silent refl refl)

final_in-Adds :
    (f : ApiFormat) (is_custom : Bytes → Bool) (u : Usage) (s : Emitter)
    → Adds s.wire (final_in f is_custom u s) [] []
unfolding final_in
final_in-Adds openai_chat is_custom u s = append-Adds s.wire _ (silent refl refl)
final_in-Adds anthropic is_custom u s =
    Adds-trans (close_block-Adds s.wire) (append-Adds _ _ (silent refl refl))
final_in-Adds responses is_custom u s = append-Adds s.wire _ (
    IsSilent-append (IsSilent-append (message_done-IsSilent s) (items_done-IsSilent _ _))
      (silent refl refl))
final_in-Adds other is_custom u s = append-Adds s.wire _ (silent refl refl)

start_in-Adds : (f : ApiFormat) (n : ℕ) (b : Bool) (w : Wire) → Adds w (start_in f n b w) [] []
unfolding start_in
start_in-Adds openai_chat n b w = append-Adds w _ (silent refl refl)
start_in-Adds anthropic n b w =
    Adds-trans (append-Adds w _ (silent refl refl)) (append-Adds _ _ (silent refl refl))
start_in-Adds responses n b w =
    if_both (λ z. Adds w z [] []) b (append-Adds w _ (silent refl refl))
      (Adds-trans (append-Adds w _ (silent refl refl)) (open_message_item-Adds _))
start_in-Adds other n b w = Adds-refl w

-- When a request has been served, the deltas that were sent hold what the emitter accumulated.
session-Delivers :
    (k : Toolkit) (r : Request) (pieces : List Bytes) (f : Finish)
    → Streams r.format
    → Delivers r.format (session k r pieces f)
unfolding session streamed emit_start new_emitter emit_finish emit_final emit_tool_calls
session-Delivers k r pieces f h =
    let started =
      Holds-silent
        (record {
          has_format = refl;
          streams = h;
          holds_content = refl;
          holds_reasoning = λ q. refl;
        })
        (start_in-Adds r.format r.prompt_tokens r.started_in_thinking (new_wire r)) in
    let streamed_h =
      emit_tokens-keeps (emit_token-IsKept (Holds-IsCarried r.format r.stop_sequences) k) pieces
        (emit_start (new_emitter r)) (refl, started) in
    let finished =
      before_final-Carries (Holds-IsCarried r.format r.stop_sequences) k (λ w a t q. q)
        (λ ts w a t q. Holds-silent q (calls_in-Adds w.format k.is_custom_tool ts w))
        f.completion_tokens f.generation_cap f.ended_on_eos (streamed k r pieces) streamed_h in
    Holds-silent finished.1 (final_in-Adds _ _ _ _)

-- In every format that streams (OpenAI chat, Anthropic, Responses), whatever the request, the pieces
-- and the tools: when a request has been served, the answer deltas that were sent, in their order,
-- hold exactly `accumulated_content_`.
pub session-content_of :
    (k : Toolkit) (r : Request) (pieces : List Bytes) (f : Finish)
    → Streams r.format
    → content_of (session k r pieces f).wire.sent ≡ (session k r pieces f).accumulated_content
session-content_of k r pieces f h = (session-Delivers k r pieces f h).holds_content

Chats-Streams : (f : ApiFormat) → Chats f → Streams f
Chats-Streams openai_chat h = tt
Chats-Streams anthropic h = tt
Chats-Streams responses h = tt
Chats-Streams other h = h

-- In the OpenAI chat and Anthropic formats, whatever the request, the pieces and the tools: when a
-- request has been served, the reasoning deltas that were sent, in their order, hold exactly
-- `reasoning_text_`.
pub session-reasoning_of :
    (k : Toolkit) (r : Request) (pieces : List Bytes) (f : Finish)
    → Chats r.format
    → reasoning_of (session k r pieces f).wire.sent ≡ (session k r pieces f).reasoning_text
session-reasoning_of k r pieces f h =
    (session-Delivers k r pieces f (Chats-Streams r.format h)).holds_reasoning h
