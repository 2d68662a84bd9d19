-- ===== src/Server/Delivery/Usage.antt =====
-- The split of a response's tokens between reasoning and content.
use codex_local_qwen27b.Base.{
  ℕ, suc, ◌+◌, ◌≤◌, ◌≡◌, refl, Bool, true, false, not, ◌||◌, Option, none, some, List, [], ◌∷◌,
  Bytes, arith, if◌then◌else◌, if_both, if_cases, ap, ◌∙◌, inl, inr, Bool-cases, any, length,
  bytes_eq,
}
use mathlib.Core.Path.{subst}
use codex_local_qwen27b.Server.Delivery.{
  Tokenizer, TokenDelivery, k_skip, k_think_tag, k_text, split_counts, classify_generated_token,
  feed_token, feed_tokens, feed_non_streaming_tokens, is_id,
}
use codex_local_qwen27b.Sse.Loop.{emit_token}
use codex_local_qwen27b.Sse.Loop.Counts.{
  IndexFits, counts-IsKept, emit_token-counts, emit_token-stopped,
}
use codex_local_qwen27b.Sse.Loop.Invariant.{emit_token-keeps}
use codex_local_qwen27b.Sse.Start.{
  suppress_undeclared_tool_protocol_token, stray_tokens, tool_call_open, tool_call_close,
}
use codex_local_qwen27b.Sse.Token.{Emitter}
use codex_local_qwen27b.Sse.Toolkit.{Toolkit}
use codex_local_qwen27b.Server.Delivery.Counted.{Fits, emit_finish-Fits}

module _ (T : Tokenizer) (k : Toolkit) where
  asked-Fits :
      (n : ℕ) (raw : Bytes) (s : Emitter)
      → Fits n s
      → Fits n (suppress_undeclared_tool_protocol_token k raw s).1
  unfolding suppress_undeclared_tool_protocol_token
  asked-Fits n raw s h =
      if_both (λ (p : Bool × Emitter). Fits n p.1) k.has_request_tools {x = (false, s)} h
        (if_both (λ (p : Bool × Emitter). Fits n p.1) (bytes_eq raw tool_call_open)
          {x = (true, record s { suppress_undeclared_tool_protocol = true })} h
          (if_both (λ (p : Bool × Emitter). Fits n p.1) s.suppress_undeclared_tool_protocol
            {x = (
              true,
              record s { suppress_undeclared_tool_protocol = not (bytes_eq raw tool_call_close) },
            )}
            {y = (any (bytes_eq raw) stray_tokens, s)} h h))

  classify-Fits :
      (n token : ℕ) (s : Emitter) → Fits n s → Fits n (classify_generated_token T k token s).1
  unfolding classify_generated_token
  classify-Fits n token s h =
      if_both (λ (p : (TokenDelivery × Bytes) × Emitter). Fits n p.1)
        (is_id token T.eos_id || is_id token T.eos_chat_id) {x = ((k_skip, []), s)} h
        (if_both (λ (p : (TokenDelivery × Bytes) × Emitter). Fits n p.1)
          (suppress_undeclared_tool_protocol_token k (T.raw_token token) s).0
          (asked-Fits n (T.raw_token token) s h) (asked-Fits n (T.raw_token token) s h))

  -- Whether a call of emit_token processes its text: it does so until a stop sequence is hit.
  abbrev processed : TokenDelivery → Emitter → ℕ
  processed k_skip s = 0
  processed _ s = if s.stop_hit then 0 else 1

  -- How many tokens the loop hands to an emitter that processes them.
  unfoldable pub processed_tokens : List ℕ → Emitter → ℕ
  processed_tokens [] s = 0
  processed_tokens (token ∷ tokens) s =
      let asked = classify_generated_token T k token s in
      let fed = feed_token T k asked.0 asked.1 in
      let rest = processed_tokens tokens fed.1 in
      processed asked.0.0 asked.1 + (if fed.0 then rest else 0)

  emit_token-count :
      (raw : Bytes) (s : Emitter)
      → (emit_token k raw s).emit_token_count ≡ s.emit_token_count + (if s.stop_hit then 0 else 1)
  emit_token-count raw s =
      if_cases (λ z. (emit_token k raw s).emit_token_count ≡ s.emit_token_count + z) s.stop_hit
        (λ e. emit_token-stopped k raw s e ∙ omega arith) (λ e. emit_token-counts k raw s e)

  emit_token-Fits :
      (n : ℕ) (raw : Bytes) (s : Emitter)
      → Fits n s
      → Fits (n + (if s.stop_hit then 0 else 1)) (emit_token k raw s)
  emit_token-Fits n raw s h = (
    emit_token-keeps (counts-IsKept k) raw s h.0,
    emit_token-count raw s ∙ ap (λ m. m + (if s.stop_hit then 0 else 1)) h.1,
  )

  feed_token-Fits :
      (n : ℕ) (kind : TokenDelivery) (t : Bytes) (s : Emitter)
      → Fits n s
      → Fits (n + processed kind s) (feed_token T k (kind, t) s).1
  unfolding feed_token
  feed_token-Fits n k_skip t s h = (h.0, omega (arith, h.1))
  feed_token-Fits n k_think_tag t s h = emit_token-Fits n t s h
  feed_token-Fits n k_text t s h = emit_token-Fits n t s h

  feed_tokens-Fits :
      (n : ℕ) (tokens : List ℕ) (s : Emitter)
      → Fits n s
      → Fits (n + processed_tokens tokens s) (feed_tokens T k tokens s)
  unfolding feed_tokens processed_tokens
  feed_tokens-Fits n [] s h = (h.0, omega (arith, h.1))
  feed_tokens-Fits n (token ∷ tokens) s h =
      let asked = classify_generated_token T k token s in
      let fed = feed_token T k asked.0 asked.1 in
      let m = processed asked.0.0 asked.1 in
      let fits = feed_token-Fits n asked.0.0 asked.0.1 asked.1 (classify-Fits n token s h) in
      elim (Bool-cases fed.0) [
        | inl e ↦
            let r = feed_tokens-Fits (n + m) tokens fed.1 fits in rw e (r.0, omega (arith, r.1))
        | inr e ↦ rw e (fits.0, omega (arith, fits.1))
      ]

  split_counts-sum :
      (total : ℕ) (o : Option ℕ) (emitted : ℕ)
      → IndexFits o emitted
      → (split_counts total o emitted).reasoning_tokens
          + (split_counts total o emitted).content_tokens
        ≡ emitted
  unfolding split_counts
  split_counts-sum total none emitted h = omega arith
  split_counts-sum total (some i) emitted h = omega (arith, h)

  split_counts-total :
      (total : ℕ) (o : Option ℕ) (emitted : ℕ) → total ≡ (split_counts total o emitted).total
  unfolding split_counts
  split_counts-total total none emitted = refl
  split_counts-total total (some i) emitted = refl

  processed-le : (kind : TokenDelivery) (s : Emitter) → processed kind s ≤ 1
  processed-le kind s = ground arith

  processed_tokens-le : (tokens : List ℕ) (s : Emitter) → processed_tokens tokens s ≤ length tokens
  unfolding processed_tokens
  processed_tokens-le [] s = omega arith
  processed_tokens-le (token ∷ tokens) s =
      let asked = classify_generated_token T k token s in
      let fed = feed_token T k asked.0 asked.1 in
      let first = processed-le asked.0.0 asked.1 in
      let others = processed_tokens-le tokens fed.1 in
      if_both (λ rest. processed asked.0.0 asked.1 + rest ≤ suc (length tokens)) fed.0 (omega arith)
        (omega arith)

  -- Whatever the tokens, the tokenizer and the tools, for an emitter that has counted no call yet: the
  -- reasoning tokens and the content tokens that feed_non_streaming_tokens reports add up to the number
  -- of tokens that were handed to emit_token, skipped ones left out, while no stop sequence had been
  -- hit; and so to the total at most.
  pub feed-counts_sum :
      (tokens : List ℕ) (s : Emitter)
      → s.emit_token_count ≡ 0
      → s.first_content_token_index ≡ none
      → ((feed_non_streaming_tokens T k tokens s).0.reasoning_tokens
            + (feed_non_streaming_tokens T k tokens s).0.content_tokens
          ≡ processed_tokens tokens s)
        × (processed_tokens tokens s ≤ (feed_non_streaming_tokens T k tokens s).0.total)
  unfolding feed_non_streaming_tokens
  feed-counts_sum tokens s z o =
      let fits = feed_tokens-Fits 0 tokens s (ground (arith, o), z) in
      let done =
        emit_finish-Fits (0 + processed_tokens tokens s) k (length tokens) none none false
          (feed_tokens T k tokens s) fits in
      (
        split_counts-sum _ _ _ done.0 ∙ done.1 ∙ omega arith,
        subst (λ m. processed_tokens tokens s ≤ m) (split_counts-total (length tokens) _ _)
            (processed_tokens-le tokens s),
      )
