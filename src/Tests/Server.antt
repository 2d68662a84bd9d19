-- ===== src/Tests/Server.antt =====
-- The server's streams, queue and prompts (server/src/server/http_server.cpp) at concrete inputs.
use codex_local_qwen27b.Base.{
  ◌≤◌, ℕ, ◌+◌, ◌≡◌, refl, true, false, none, some, List, [], ◌∷◌, arith, Bytes, codes, take,
  if◌then◌else◌, ◌==◌,
}
use codex_local_qwen27b.Server.Delivery.{
  Tokenizer, Delivery, feed_tokens, feed_non_streaming_tokens,
}
use codex_local_qwen27b.Server.Delivery.Same.{deliver_all, deliver_all-feed_tokens}
use codex_local_qwen27b.Server.Delivery.Usage.{processed_tokens, feed-counts_sum}
use codex_local_qwen27b.Server.Heartbeat.{
  sse_heartbeat, SendResult, accepted, interrupted, would_block, all_sent, Job, done_step,
  done_scan, sse_chunk_has_done, send_loop, try_send_sse_heartbeat, send_frame, send_behind,
  send_job_bytes, after_heartbeat, maybe_send_job_heartbeat,
}
use codex_local_qwen27b.Server.Heartbeat.Whole.{
  nothing, Aligned, Keeps, maybe_send_job_heartbeat-Keeps, send_job_bytes-Aligned,
}
use codex_local_qwen27b.Base.{drop, starts_with}
use codex_local_qwen27b.Server.Queue.{JobQueue, enqueue, try_dequeue}
use codex_local_qwen27b.Server.Queue.Fifo.{Queues, enqueue-Queues, try_dequeue-Queues}
use codex_local_qwen27b.Server.Prompt.{prompt_ends_in_open_think}
use codex_local_qwen27b.Server.Prompt.{tokens_contain_recent_sequence, sequence_ends_in}
use codex_local_qwen27b.Base.{zero, suc}
use codex_local_qwen27b.Sse.Event.{openai_chat}
use codex_local_qwen27b.Sse.Start.{new_emitter}
use codex_local_qwen27b.Sse.Token.{Emitter}
use codex_local_qwen27b.Tests.Opened.{emitter_opened}
use codex_local_qwen27b.Tests.Sse.{plain, request}

-- A stream that has sent four bytes of a comment.
abbrev cut_job : Job
cut_job = record {
  stream_ready = true;
  heartbeat_offset = 4;
  client_disconnected = false;
  last_stream_write = 0;
  received = take 4 sse_heartbeat;
}

cut_job-Aligned : Aligned [] cut_job
cut_job-Aligned = record { done = []; whole = nothing; is_received = refl; bounded = omega arith }

-- The socket takes three bytes more and then none.
abbrev short_write : List SendResult
short_write = interrupted ∷ accepted 3 ∷ would_block ∷ []

abbrev ticked_job : Job
ticked_job = record cut_job { heartbeat_offset = 7; received = take 7 sse_heartbeat }

tick : maybe_send_job_heartbeat short_write 3 false cut_job ≡ some ticked_job
unfolding maybe_send_job_heartbeat try_send_sse_heartbeat send_loop after_heartbeat
tick = refl

tick_example : Keeps [] ticked_job
tick_example =
    maybe_send_job_heartbeat-Keeps [] short_write 3 false cut_job ticked_job cut_job-Aligned tick

frame_is_sent : (send_job_bytes all_sent all_sent 4 (codes "data: x") cut_job).0 ≡ true
unfolding send_job_bytes send_behind send_frame
frame_is_sent = refl

frame_example :
    Aligned (codes "data: x" ∷ []) (send_job_bytes all_sent all_sent 4 (codes "data: x") cut_job).1
    × ((send_job_bytes all_sent all_sent 4 (codes "data: x") cut_job).1.heartbeat_offset ≡ 0)
frame_example =
    send_job_bytes-Aligned [] (codes "data: x") all_sent all_sent 4 cut_job cut_job-Aligned
      frame_is_sent

chunk_is_done : sse_chunk_has_done (codes "data: [DO") (codes "NE]\n\n") ≡ (true, [])
unfolding sse_chunk_has_done done_scan done_step emitter_opened
chunk_is_done = refl

-- The job 7 waits.
abbrev one_waits : JobQueue
one_waits = record {
  queue_head = some 7;
  queue_tail = some 7;
  next = λ i. none;
  stopping = false;
  returned = λ i. false;
}

one_waits-Queues : Queues one_waits (7 ∷ [])
one_waits-Queues = record { linked = (refl, refl); ends = refl; distinct = (tt, tt) }

enqueue_example : Queues (enqueue 2 one_waits) (7 ∷ 2 ∷ [])
enqueue_example = enqueue-Queues 2 one_waits (7 ∷ []) refl (refl, tt) one_waits-Queues

dequeue_example :
    ((try_dequeue (enqueue 2 one_waits)).0 ≡ some 7)
    × Queues (try_dequeue (enqueue 2 one_waits)).1 (2 ∷ [])
dequeue_example = try_dequeue-Queues 7 (enqueue 2 one_waits) (2 ∷ []) enqueue_example

-- The tokens 0 to 3 are `<think>`, a word, `</think>` and a control token; 9 ends the answer.
sample_raw : ℕ → Bytes
sample_raw n =
    if n == 0
    then codes "<think>"
    else if n == 2
    then codes "</think>"
    else if n == 3
    then codes "<|im_start|>"
    else codes "word"

abbrev tokenizer : Tokenizer
tokenizer = record {
  eos_id = some 9;
  eos_chat_id = none;
  raw_token = sample_raw;
  token_text = sample_raw;
}

abbrev tokens : List ℕ
tokens = 0 ∷ 1 ∷ 2 ∷ 3 ∷ 1 ∷ 9 ∷ []

abbrev emitter : Emitter
emitter = new_emitter (request openai_chat [] false)

counts_sum_example :
    ((feed_non_streaming_tokens tokenizer plain tokens emitter).0.reasoning_tokens
        + (feed_non_streaming_tokens tokenizer plain tokens emitter).0.content_tokens
      ≡ processed_tokens tokenizer plain tokens emitter)
    × (processed_tokens tokenizer plain tokens emitter
        ≤ (feed_non_streaming_tokens tokenizer plain tokens emitter).0.total)
unfolding new_emitter
counts_sum_example = feed-counts_sum tokenizer plain tokens emitter refl refl

abbrev delivery : Delivery
delivery = record { emitter = emitter; completion_tokens = 0; job = cut_job; send_buffer = [] }

same_example :
    (deliver_all tokenizer plain tokens delivery).emitter
    ≡ feed_tokens tokenizer plain tokens delivery.emitter
same_example = deliver_all-feed_tokens tokenizer plain tokens delivery

open_think : prompt_ends_in_open_think (codes "user <think> \n") ≡ true
unfolding prompt_ends_in_open_think emitter_opened
open_think = refl

abbrev recent_tokens : List ℕ
recent_tokens = 1 ∷ 2 ∷ 3 ∷ 4 ∷ []

recent_found : tokens_contain_recent_sequence recent_tokens (2 ∷ 3 ∷ []) 1 ≡ true
unfolding tokens_contain_recent_sequence sequence_ends_in emitter_opened
recent_found = refl

recent_stands : starts_with (2 ∷ 3 ∷ []) (drop 1 recent_tokens) ≡ true
unfolding starts_with
recent_stands = refl

-- One byte at a time.
abbrev slow_script : ℕ → List SendResult
slow_script zero = []
slow_script (suc n) = interrupted ∷ accepted 1 ∷ slow_script n

window_stands : starts_with (2 ∷ 3 ∷ []) (drop 3 (take 5 (1 ∷ 2 ∷ 3 ∷ 2 ∷ 3 ∷ 4 ∷ []))) ≡ true
unfolding starts_with
window_stands = refl
