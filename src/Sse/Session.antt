-- ===== src/Sse/Session.antt =====
-- The calls that a request makes on its emitter, in their order (http_server.cpp: emit_start, then
-- emit_token for each piece of text, then emit_finish).
pub mod Reason
use codex_local_qwen27b.Base.{ℕ, Bool, Option, List, Bytes}
use codex_local_qwen27b.Sse.Finish.{emit_finish}
use codex_local_qwen27b.Sse.Loop.{emit_tokens}
use codex_local_qwen27b.Sse.Start.{Request, new_emitter, emit_start}
use codex_local_qwen27b.Sse.Timings.{GenTimings}
use codex_local_qwen27b.Sse.Token.{Emitter}
use codex_local_qwen27b.Sse.Toolkit.{Toolkit}

-- The arguments of emit_finish.
pub record Finish : Type 0 where
  pub completion_tokens : ℕ
  pub timings : Option GenTimings
  pub generation_cap : Option ℕ
  pub ended_on_eos : Bool

unfoldable pub streamed : Toolkit → Request → List Bytes → Emitter
streamed k r pieces = emit_tokens k pieces (emit_start (new_emitter r))

unfoldable pub session : Toolkit → Request → List Bytes → Finish → Emitter
unfolding streamed
session k r pieces f =
    emit_finish k f.completion_tokens f.timings f.generation_cap f.ended_on_eos
      (streamed k r pieces)
