-- ===== src/Sse/Carry.antt =====
-- The rules for what a request keeps between the wire and the texts that the emitter accumulates:
-- a relation that each of the four ways to send a delta keeps is kept by emit_token, and by
-- emit_finish up to its last events.
pub mod Token
pub mod Finish
use codex_local_qwen27b.Base.{ℕ, ◌≡◌, Option, some, List, [], ◌∷◌, ◌++◌, Bytes}
use codex_local_qwen27b.Sse.Token.{Emitter, best_stop, stop_reasoning_delta}
use codex_local_qwen27b.Sse.Wire.{
  Wire, close_responses_reasoning_item, emit_content_delta, emit_reasoning_delta,
}

-- `W w a t`: the wire against the answer `a` and the reasoning `t`, for an emitter with these stop
-- sequences.
pub record IsCarried {ℓ} (seqs : List Bytes) (W : Wire → Bytes → Bytes → Type ℓ) : Type ℓ where
  pub carry_content :
      (x : Bytes) {w : Wire} {a t : Bytes} → W w a t → W (emit_content_delta t x w) (a ++ x) t
  pub carry_reasoning :
      (x : Bytes) {w : Wire} {a t : Bytes} → W w a t → W (emit_reasoning_delta x w) a (t ++ x)
  pub carry_close : {w : Wire} {a t : Bytes} → W w a t → W (close_responses_reasoning_item t w) a t
  pub carry_stop :
      (window : Bytes) (i : ℕ) (c : ℕ) (cs : Bytes) {w : Wire} {a t : Bytes}
      → best_stop window seqs ≡ some i
      → W w a t
      → W (stop_reasoning_delta w.format (c ∷ cs) w) a (t ++ c ∷ cs)

abbrev pub Carries {ℓ} : List Bytes → (Wire → Bytes → Bytes → Type ℓ) → Emitter → Type ℓ
Carries seqs W s = (s.stop_sequences ≡ seqs) × W s.wire s.accumulated_content s.reasoning_text
