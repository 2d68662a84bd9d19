-- ===== src/Sse/Wire.antt =====
-- The part of `SseEmitter` that the delta functions read and write (sse_emitter.cpp, 542-668):
-- the open Anthropic block, the open Responses items, and the events sent so far. The vector `out`
-- of a call is what it adds at the end of `sent`.
use codex_local_qwen27b.Base.{ℕ, ◌+◌, Bool, true, false, List, [], ◌∷◌, ◌++◌, Bytes, if◌then◌else◌}
use codex_local_qwen27b.Sse.Event.{
  ApiFormat, openai_chat, anthropic, responses, other, Kind, thinking, text, closed, Block,
  thinking_block, text_block, text_delta, thinking_delta, reasoning_item, Event, content_delta,
  reasoning_delta, block_start, block_delta, block_stop, message_added, content_part_added,
  output_text_delta, reasoning_added, summary_part_added, summary_text_delta, summary_text_done,
  summary_part_done, output_item_done,
}

pub record Wire : Type 0 where
  pub format : ApiFormat
  pub block_index : ℕ
  pub active_kind : Kind
  pub responses_reasoning_open : Bool
  pub responses_msg_item_open : Bool
  pub responses_output_index : ℕ
  pub reasoning_item_id : Bytes
  pub msg_item_id : Bytes
  -- The values of the static counter of `gen_item_id`, as ids.
  pub gen_item_id : ℕ → Bytes
  pub next_item : ℕ
  pub sent : List Event

-- out.push_back(e)
abbrev pub push_back : Event → Wire → Wire
push_back e w = record w { sent = w.sent ++ e ∷ [] }

abbrev pub same_kind : Kind → Kind → Bool
same_kind thinking thinking = true
same_kind text text = true
same_kind closed closed = true
same_kind _ _ = false

abbrev pub block_of : Kind → Block
block_of thinking = thinking_block
block_of _ = text_block

-- `if (active_kind_ != k)`: close the block that is open and open one of kind `k`.
unfoldable pub switch_block : Kind → Wire → Wire
switch_block k w = if same_kind w.active_kind k then w else (record w {
  block_index = w.block_index + 1;
  active_kind = k;
  sent = w.sent ++ block_stop w.block_index ∷ block_start (w.block_index + 1) (block_of k) ∷ [];
})

-- `summary` is `reasoning_text_`.
unfoldable pub close_responses_reasoning_item : Bytes → Wire → Wire
close_responses_reasoning_item summary w =
    if w.responses_reasoning_open
    then (record w {
      sent =
          w.sent
          ++ summary_text_done w.reasoning_item_id w.responses_output_index summary
            ∷ summary_part_done w.reasoning_item_id w.responses_output_index summary
            ∷ output_item_done w.responses_output_index (reasoning_item w.reasoning_item_id summary)
            ∷ [];
      responses_reasoning_open = false;
      responses_output_index = w.responses_output_index + 1;
    })
    else w

unfoldable pub open_message_item : Wire → Wire
open_message_item w = if w.responses_msg_item_open then w else (record w {
  sent =
      w.sent
      ++ message_added w.responses_output_index w.msg_item_id
        ∷ content_part_added w.msg_item_id w.responses_output_index
        ∷ [];
  responses_msg_item_open = true;
})

unfoldable pub open_reasoning_item : Wire → Wire
open_reasoning_item w = if w.responses_reasoning_open then w else (record w {
  reasoning_item_id = w.gen_item_id w.next_item;
  next_item = w.next_item + 1;
  sent =
      w.sent
      ++ reasoning_added w.responses_output_index (w.gen_item_id w.next_item)
        ∷ summary_part_added (w.gen_item_id w.next_item) w.responses_output_index
        ∷ [];
  responses_reasoning_open = true;
})

-- The `case` of emit_content_delta for each format.
unfoldable pub content_delta_in : ApiFormat → Bytes → Bytes → Wire → Wire
content_delta_in openai_chat summary t w = push_back (content_delta t) w
content_delta_in anthropic summary t w =
    let w' = switch_block text w in push_back (block_delta w'.block_index (text_delta t)) w'
content_delta_in responses summary t w =
    let w' = open_message_item (close_responses_reasoning_item summary w) in
    push_back (output_text_delta w'.msg_item_id w'.responses_output_index t) w'
content_delta_in other summary t w = w

-- emit_content_delta; `summary` is `reasoning_text_` at the call.
unfoldable pub emit_content_delta : Bytes → Bytes → Wire → Wire
emit_content_delta summary [] w = w
emit_content_delta summary (c ∷ cs) w = content_delta_in w.format summary (c ∷ cs) w

-- The `case` of emit_reasoning_delta for each format.
unfoldable pub reasoning_delta_in : ApiFormat → Bytes → Wire → Wire
reasoning_delta_in openai_chat t w = push_back (reasoning_delta t) w
reasoning_delta_in anthropic t w =
    let w' = switch_block thinking w in push_back (block_delta w'.block_index (thinking_delta t)) w'
reasoning_delta_in responses t w =
    let w' = open_reasoning_item w in
    push_back (summary_text_delta w'.reasoning_item_id w'.responses_output_index t) w'
reasoning_delta_in other t w = w

unfoldable pub emit_reasoning_delta : Bytes → Wire → Wire
emit_reasoning_delta [] w = w
emit_reasoning_delta (c ∷ cs) w = reasoning_delta_in w.format (c ∷ cs) w
