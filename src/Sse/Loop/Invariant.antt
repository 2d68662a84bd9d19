-- ===== src/Sse/Loop/Invariant.antt =====
-- The rule for what every call of emit_token keeps: a predicate is kept on each path that assigns
-- to the state.
use codex_local_qwen27b.Base.{
  ℕ, zero, suc, ◌≡◌, refl, Bool, true, false, Option, none, some, List, [], ◌∷◌, Bytes, if_both,
  ltb, find,
}
use codex_local_qwen27b.Sse.Content.{
  HitType, take_hit, buffer_bare_json, flush_content, content_hit, content_round,
}
use codex_local_qwen27b.Sse.Loop.{
  round_in, round, loop, run_loop, stop_in, process_window, emit_token, emit_tokens, or_else,
  loop_fuel,
}
use codex_local_qwen27b.Sse.Reasoning.{
  buffer_tool, strip_on, strip_think_prefix, close_think, tool_in_reasoning, flush_reasoning,
  tool_hit, reasoning_hit, reasoning_round,
}
use codex_local_qwen27b.Sse.Token.{
  StreamMode, reasoning, content, tool_buffer, think_close, Emitter, count_token, take_piece,
  best_stop, stop_at,
}
use codex_local_qwen27b.Sse.Toolkit.{Toolkit}

-- A predicate that every path behind the intake of a piece keeps, one field for each place where it
-- assigns.
pub record KeepsWindow {ℓ} (k : Toolkit) (P : Emitter → Type ℓ) : Type ℓ where
  pub by_strip :
      (w : Bytes) (s : Emitter) → P s → P (record s { window = w; checked_think_prefix = true })
  pub by_checked : (s : Emitter) → P s → P (record s { checked_think_prefix = true })
  pub by_close_think : (i : ℕ) (s : Emitter) → P s → P (close_think i s)
  pub by_tool_in_reasoning : (i : ℕ) (s : Emitter) → P s → P (tool_in_reasoning i s)
  pub by_flush_reasoning : (s : Emitter) → P s → P (flush_reasoning k s)
  pub by_hit : (t : HitType) (i : ℕ) (s : Emitter) → P s → P (take_hit t i s)
  pub by_bare_json : (s : Emitter) → P s → P (buffer_bare_json s)
  pub by_flush_content : (s : Emitter) → P s → P (flush_content k s)
  pub by_buffer_tool : (s : Emitter) → P s → P (buffer_tool s)
  pub by_stop :
      (i : ℕ) (s : Emitter) → best_stop s.window s.stop_sequences ≡ some i → P s → P (stop_at i s)

-- And the intake of the piece keeps it.
pub record IsKept {ℓ} (k : Toolkit) (P : Emitter → Type ℓ) : Type ℓ where
  pub by_window : KeepsWindow k P
  pub by_piece :
      (raw : Bytes) (s : Emitter) → P s → P (take_piece k.utf8_sanitize raw (count_token raw s))

module _ {ℓ} {k : Toolkit} {P : Emitter → Type ℓ} (keeps : KeepsWindow k P) where
  WhereSome : Option Emitter → Type ℓ
  WhereSome none = Unit
  WhereSome (some s) = P s

  abbrev OfState : Emitter × Bool → Type ℓ
  OfState p = P p.0

  strip_on_inv : (b c d : Bool) (ws : ℕ) (s : Emitter) → P s → WhereSome (strip_on b c d ws s)
  unfolding WhereSome strip_on
  strip_on_inv true c d ws s h = h
  strip_on_inv false true d ws s h = tt
  strip_on_inv false false true ws s h = keeps.by_strip _ s h
  strip_on_inv false false false ws s h = keeps.by_checked s h

  strip_inv : (s : Emitter) → P s → WhereSome (strip_think_prefix s)
  unfolding strip_think_prefix
  strip_inv s h = strip_on_inv _ _ _ _ s h

  reasoning_hit_inv : (i t : Option ℕ) (s : Emitter) → P s → OfState (reasoning_hit k i t s)
  unfolding reasoning_hit
  reasoning_hit_inv (some i) none s h = keeps.by_close_think i s h
  reasoning_hit_inv (some i) (some t) s h =
      if_both OfState (ltb i t) (keeps.by_close_think i s h) (keeps.by_tool_in_reasoning t s h)
  reasoning_hit_inv none (some t) s h = keeps.by_tool_in_reasoning t s h
  reasoning_hit_inv none none s h = keeps.by_flush_reasoning s h

  after_strip :
      (o : Option Emitter) (s : Emitter)
      → P s
      → WhereSome o
      → OfState (elim o [
        | none ↦ (s, false)
        | some s' ↦ reasoning_hit k (find s'.window think_close) (tool_hit k s'.window) s'
      ])
  unfolding WhereSome
  after_strip none s h w = h
  after_strip (some s') s h w = reasoning_hit_inv _ _ s' w

  content_hit_inv : (o : Option (ℕ × HitType)) (s : Emitter) → P s → OfState (content_hit k o s)
  unfolding content_hit
  content_hit_inv (some (p, t)) s h = keeps.by_hit t p s h
  content_hit_inv none s h = if_both OfState _ (keeps.by_bare_json s h) (keeps.by_flush_content s h)

  round_inv : (m : StreamMode) (s : Emitter) → P s → OfState (round_in k m s)
  unfolding round_in reasoning_round content_round
  round_inv tool_buffer s h = keeps.by_buffer_tool s h
  round_inv reasoning s h = after_strip (strip_think_prefix s) s h (strip_inv s h)
  round_inv content s h = content_hit_inv _ s h

  after_round :
      (fuel : ℕ) (p : Emitter × Bool)
      → OfState p
      → ((s : Emitter) → P s → WhereSome (loop k fuel s))
      → WhereSome (elim p.1 [ true ↦ loop k fuel p.0 | false ↦ some p.0 ])
  unfolding WhereSome
  after_round fuel (s, true) h rest = rest s h
  after_round fuel (s, false) h rest = h

  loop_inv : (fuel : ℕ) (s : Emitter) → P s → WhereSome (loop k fuel s)
  unfolding loop round WhereSome
  loop_inv zero s h = tt
  loop_inv (suc fuel) s h = after_round fuel (round k s) (round_inv s.mode s h) (loop_inv fuel)

  or_else_inv : (s : Emitter) (o : Option Emitter) → P s → WhereSome o → P (or_else k s o)
  unfolding WhereSome
  or_else_inv s none h w = h
  or_else_inv s (some t) h w = w

  run_loop_inv : (s : Emitter) → P s → P (run_loop k s)
  unfolding run_loop
  run_loop_inv s h = or_else_inv s (loop k (loop_fuel k s) s) h (loop_inv (loop_fuel k s) s h)

  stop_in_inv :
      (m : StreamMode) (s : Emitter) (i : ℕ) → stop_in k m s ≡ some i → P s → P (stop_at i s)
  unfolding stop_in
  stop_in_inv tool_buffer s i e h = cc
  stop_in_inv reasoning s i e h = keeps.by_stop i s e h
  stop_in_inv content s i e h = keeps.by_stop i s e h

  process_inv :
      (o : Option ℕ) (s : Emitter)
      → stop_in k s.mode s ≡ o
      → P s
      → P (elim o [ none ↦ run_loop k s | some best ↦ stop_at best s ])
  process_inv none s e h = run_loop_inv s h
  process_inv (some best) s e h = stop_in_inv s.mode s best e h

  pub process_window-keeps : (s : Emitter) → P s → P (process_window k s)
  unfolding process_window
  process_window-keeps s h = process_inv (stop_in k s.mode s) s refl h

module _ {ℓ} {k : Toolkit} {P : Emitter → Type ℓ} (keeps : IsKept k P) where
  pub emit_token-keeps : (raw : Bytes) (s : Emitter) → P s → P (emit_token k raw s)
  unfolding emit_token
  emit_token-keeps raw s h =
      if_both P s.stop_hit h (process_window-keeps keeps.by_window _ (keeps.by_piece raw s h))

  -- So does a run of calls.
  pub emit_tokens-keeps : (pieces : List Bytes) (s : Emitter) → P s → P (emit_tokens k pieces s)
  unfolding emit_tokens
  emit_tokens-keeps [] s h = h
  emit_tokens-keeps (raw ∷ pieces) s h = emit_tokens-keeps pieces _ (emit_token-keeps raw s h)
