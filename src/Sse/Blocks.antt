-- ===== src/Sse/Blocks.antt =====
-- The Anthropic stream as its client reads it: message_start, content blocks that are numbered from
-- 0 and never nest, each with its deltas, then message_delta and message_stop.
pub mod Wire
pub mod Session
use codex_local_qwen27b.Base.{
  ℕ, ◌+◌, Bool, true, false, not, ◌&&◌, ◌||◌, Option, none, some, List, [], ◌∷◌, ◌==◌,
  if◌then◌else◌,
}
use codex_local_qwen27b.Sse.Event.{
  Block, thinking_block, text_block, tool_use_block, BlockDelta, text_delta, thinking_delta,
  input_json_delta, Event, message_start, block_start, block_delta, block_stop, message_delta,
  message_stop,
}

-- `idle n`: no block is open, and the next one is number `n`.
pub data Stream : Type 0 where
  fresh : Stream
  idle : ℕ → Stream
  opened : ℕ → Block → Stream
  finishing ended : Stream

-- The deltas that a block of this type takes.
abbrev pub fits : Block → BlockDelta → Bool
fits thinking_block (thinking_delta t) = true
fits text_block (text_delta t) = true
fits (tool_use_block i n) (input_json_delta t) = true
fits _ _ = false

-- The client's state after an event; `none` is a protocol error. A strict client checks the type
-- of a delta against its block.
abbrev pub step : Bool → Stream → Event → Option Stream
step strict fresh (message_start p) = some (idle 0)
step strict (idle n) (block_start m b) = if m == n then some (opened n b) else none
step strict (idle n) (message_delta r u) = some finishing
step strict (opened n b) (block_delta m d) =
    if m == n && (not strict || fits b d) then some (opened n b) else none
step strict (opened n b) (block_stop m) = if m == n then some (idle (n + 1)) else none
step strict finishing message_stop = some ended
step strict _ _ = none

abbrev pub follow : Bool → Option Stream → List Event → Option Stream
follow strict none es = none
follow strict (some s) [] = some s
follow strict (some s) (e ∷ es) = follow strict (step strict s e) es
