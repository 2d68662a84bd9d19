-- ===== src/Sse/Timings.antt =====
-- build_timings_json (sse_emitter.cpp, 83-102). The `double` seconds of `GenTimings` are counts of
-- nanoseconds here, and `round1` gives tenths.
use codex_local_qwen27b.Base.{ℕ, ◌+◌, ◌*◌, ◌/◌, Bool, ◌==◌, if◌then◌else◌}
use codex_local_qwen27b.Sse.Event.{TimingsJson}

pub record GenTimings : Type 0 where
  pub prefill_ns : ℕ
  pub decode_ns : ℕ
  pub cache_hit : Bool
  pub cached_prefix_tokens : ℕ
  pub prefilled_tokens : ℕ
  pub effective_prompt_tokens : ℕ
  pub agent_turn_cache_hit : Bool

-- round1 of the quotient a / b, in tenths: half goes up.
unfoldable pub round1 : ℕ → ℕ → ℕ
round1 a b = (20 * a + b) / (2 * b)

unfoldable pub build_timings_json : GenTimings → ℕ → TimingsJson
unfolding round1
build_timings_json t completion_tokens = record {
  prefill_ms = round1 t.prefill_ns 1000000;
  decode_ms = round1 t.decode_ns 1000000;
  decode_tokens_per_sec =
      if t.decode_ns == 0 then 0 else round1 (completion_tokens * 1000000000) t.decode_ns;
  cache_hit = t.cache_hit;
  cached_prefix_tokens = t.cached_prefix_tokens;
  prefilled_tokens = t.prefilled_tokens;
  effective_prompt_tokens = t.effective_prompt_tokens;
  agent_turn_cache_hit = t.agent_turn_cache_hit;
}
