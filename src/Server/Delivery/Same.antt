-- ===== src/Server/Delivery/Same.antt =====
-- The two paths of delivery leave the emitter in the same state.
use codex_local_qwen27b.Base.{
  ℕ, ◌+◌, ◌≡◌, refl, ap, ◌∙◌, Bool, true, false, List, [], ◌∷◌, Bytes, if◌then◌else◌,
}
use codex_local_qwen27b.Server.Delivery.{
  Tokenizer, TokenDelivery, k_skip, k_think_tag, k_text, Delivery, classify_generated_token,
  feed_token, feed_tokens, send_chunks, deliver_classified, deliver_generation_token,
}
use codex_local_qwen27b.Sse.Token.{Emitter}
use codex_local_qwen27b.Sse.Toolkit.{Toolkit}

module _ (T : Tokenizer) (k : Toolkit) where
  -- The tokens one by one, until a call returns false.
  pub deliver_all : List ℕ → Delivery → Delivery
  deliver_all [] d = d
  deliver_all (token ∷ tokens) d =
      let next = deliver_generation_token T k false token d in
      let rest = deliver_all tokens next.1 in if next.0 then rest else next.1

  same_step :
      (c : TokenDelivery × Bytes) (d : Delivery)
      → ((deliver_classified T k false c d).0 ≡ (feed_token T k c d.emitter).0)
        × ((deliver_classified T k false c d).1.emitter ≡ (feed_token T k c d.emitter).1)
  unfolding deliver_classified feed_token send_chunks
  same_step (k_skip, t) d = (refl, refl)
  same_step (k_think_tag, []) d = (refl, refl)
  same_step (k_text, []) d = (refl, refl)
  same_step (k_think_tag, c ∷ cs) d = (refl, refl)
  same_step (k_text, c ∷ cs) d = (refl, refl)

  same_rest :
      (tokens : List ℕ) (p : Bool × Delivery) (q : Bool × Emitter)
      → p.0 ≡ q.0
      → p.1.emitter ≡ q.1
      → (deliver_all tokens p.1).emitter ≡ feed_tokens T k tokens p.1.emitter
      → (if p.0 then deliver_all tokens p.1 else p.1).emitter
        ≡ (if q.0 then feed_tokens T k tokens q.1 else q.1)
  same_rest tokens (true, d) (true, s) e f h = h ∙ ap (feed_tokens T k tokens) f
  same_rest tokens (false, d) (false, s) e f h = f
  same_rest tokens (true, d) (false, s) e f h = cc
  same_rest tokens (false, d) (true, s) e f h = cc

  -- For a request that is not streamed, deliver_generation_token, called for the tokens in turn
  -- until it returns false, leaves the emitter as the replay of feed_non_streaming_tokens does.
  pub deliver_all-feed_tokens :
      (tokens : List ℕ) (d : Delivery)
      → (deliver_all tokens d).emitter ≡ feed_tokens T k tokens d.emitter
  unfolding deliver_all feed_tokens deliver_generation_token
  deliver_all-feed_tokens [] d = refl
  deliver_all-feed_tokens (token ∷ tokens) d =
      let asked = classify_generated_token T k token d.emitter in
      let counted = record d { emitter = asked.1; completion_tokens = d.completion_tokens + 1 } in
      let same = same_step asked.0 counted in
      same_rest tokens (deliver_generation_token T k false token d) (feed_token T k asked.0 asked.1)
        same.0 same.1
        (deliver_all-feed_tokens tokens (deliver_generation_token T k false token d).1)
