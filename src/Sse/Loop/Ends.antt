-- ===== src/Sse/Loop/Ends.antt =====
-- The loop of emit_token ends, and how much fuel is enough.
use codex_local_qwen27b.Base.{
  ℕ, zero, suc, ◌+◌, ◌≤◌, ◌<◌, ◌≡◌, refl, ◌⊎◌, inl, inr, Bool, true, false, Option, none, some, [],
  ◌∷◌, arith, Bytes, ltb, if_both, find, length, length-drop, drop, starts_with,
}
use codex_local_qwen27b.Sse.Content.{
  HitType, think_tag, think_close_tag, tool_syntax, first_hit, take_hit, buffer_bare_json,
  content_hit, content_round, flush_content,
}
use codex_local_qwen27b.Sse.Loop.{round_in, round, loop, loop_fuel}
use codex_local_qwen27b.Sse.Reasoning.{
  strip_on, strip_think_prefix, close_think, tool_in_reasoning, tool_hit, reasoning_hit,
  reasoning_round,
}
use codex_local_qwen27b.Sse.Token.{
  StreamMode, reasoning, content, tool_buffer, think_open, think_close, Emitter, add_reasoning,
  add_content,
}
use codex_local_qwen27b.Sse.Toolkit.{Toolkit}

-- TOOL_BUFFER breaks at once; in the other modes a round that goes on takes bytes off the window.
abbrev measure_in : StreamMode → ℕ → ℕ
measure_in tool_buffer n = 0
measure_in reasoning n = suc n
measure_in content n = suc n

abbrev measure : Emitter → ℕ
measure s = measure_in s.mode (length s.window)

measure_in-le : (m : StreamMode) (n : ℕ) → measure_in m n ≤ suc n
measure_in-le tool_buffer n = omega arith
measure_in-le reasoning n = omega arith
measure_in-le content n = omega arith

-- If the round goes on, the measure falls below `n`.
abbrev FallsBelow : ℕ → Emitter × Bool → Type 0
FallsBelow n p = p.1 ≡ true → measure p.0 < n

find-drop :
    (w p : Bytes) (i j : ℕ)
    → starts_with p [] ≡ false
    → find w p ≡ some i
    → length (drop (i + suc j) w) < length w
unfolding find
find-drop [] p i j h e = ground arith
find-drop (c ∷ cs) p i j h e = omega (arith, length-drop (i + suc j) (c ∷ cs))

open_not_empty : starts_with think_open [] ≡ false
unfolding starts_with
open_not_empty = refl

close_not_empty : starts_with think_close [] ≡ false
unfolding starts_with
close_not_empty = refl

module _ (k : Toolkit) where
  reasoning_hit-falls :
      (i t : Option ℕ) (s : Emitter) (n : ℕ)
      → find s.window think_close ≡ i
      → length s.window < n
      → FallsBelow n (reasoning_hit k i t s)
  unfolding reasoning_hit close_think tool_in_reasoning add_reasoning
  reasoning_hit-falls (some i) none s n e h =
      λ r. omega (arith, find-drop s.window think_close i 7 close_not_empty e)
  reasoning_hit-falls (some i) (some t) s n e h =
      if_both (FallsBelow n) (ltb i t)
        (λ r. omega (arith, find-drop s.window think_close i 7 close_not_empty e))
        (λ r. omega arith)
  reasoning_hit-falls none (some t) s n e h = λ r. omega arith
  reasoning_hit-falls none none s n e h = λ r. cc

  -- What strip_think_prefix leaves is no longer than what it finds.
  NoLonger : ℕ → Option Emitter → Type 0
  NoLonger n none = Unit
  NoLonger n (some s) = length s.window ≤ n

  strip_on-NoLonger :
      (b c d : Bool) (ws : ℕ) (s : Emitter) → NoLonger (length s.window) (strip_on b c d ws s)
  unfolding strip_on NoLonger
  strip_on-NoLonger true c d ws s = omega arith
  strip_on-NoLonger false true d ws s = tt
  strip_on-NoLonger false false true ws s = omega (arith, length-drop (ws + 7) s.window)
  strip_on-NoLonger false false false ws s = omega arith

  after_strip :
      (o : Option Emitter) (s : Emitter) (n : ℕ)
      → NoLonger n o
      → FallsBelow (suc n) (elim o [
        | none ↦ (s, false)
        | some s' ↦ reasoning_hit k (find s'.window think_close) (tool_hit k s'.window) s'
      ])
  unfolding NoLonger
  after_strip none s n h = λ r. cc
  after_strip (some s') s n h = reasoning_hit-falls _ _ s' (suc n) refl (omega arith)

  take_hit-falls :
      (t : HitType) (p : ℕ) (s : Emitter)
      → s.mode ≡ content
      → (t ≡ tool_syntax) ⊎ (length (drop (p + 7) s.window) < length s.window)
      → measure (take_hit t p s) < suc (length s.window)
  unfolding take_hit add_content
  take_hit-falls think_tag p s m (inl e) = cc
  take_hit-falls think_tag p s m (inr h) = omega arith
  take_hit-falls think_close_tag p s m (inl e) = cc
  take_hit-falls think_close_tag p s m (inr h) = omega (
    arith,
    measure_in-le s.mode (length (drop (p + 8) s.window)),
    length-drop (p + 8) s.window,
    length-drop (p + 7) s.window,
  )
  take_hit-falls tool_syntax p s m h = omega arith

  -- A tag is found in a window that is not empty.
  hit_in_window :
      (w : Bytes) (tool : Option ℕ) (p : ℕ) (t : HitType)
      → first_hit (find w think_open) (find w think_close) tool ≡ some (p, t)
      → (t ≡ tool_syntax) ⊎ (length (drop (p + 7) w) < length w)
  unfolding first_hit find starts_with
  hit_in_window [] none p t e = cc
  hit_in_window [] (some q) p t e = inl (ground arith)
  hit_in_window (c ∷ cs) tool p t e = inr (omega (arith, length-drop (p + 7) (c ∷ cs)))

  content_hit-falls :
      (o : Option (ℕ × HitType)) (s : Emitter)
      → s.mode ≡ content
      → ((p : ℕ) (t : HitType)
          → o ≡ some (p, t)
          → (t ≡ tool_syntax) ⊎ (length (drop (p + 7) s.window) < length s.window))
      → FallsBelow (suc (length s.window)) (content_hit k o s)
  unfolding content_hit buffer_bare_json
  content_hit-falls (some (p, t)) s m h = λ r. take_hit-falls t p s m (h p t refl)
  content_hit-falls none s m h =
      if_both (FallsBelow (suc (length s.window))) _ {x = (buffer_bare_json s, true)}
        {y = (flush_content k s, false)} (λ r. omega arith) (λ r. cc)

  strip : (s : Emitter) → NoLonger (length s.window) (strip_think_prefix s)
  unfolding strip_think_prefix
  strip s = strip_on-NoLonger _ _ _ _ s

  round_in-falls :
      (m : StreamMode) (s : Emitter)
      → s.mode ≡ m
      → FallsBelow (measure_in m (length s.window)) (round_in k m s)
  unfolding round_in reasoning_round content_round
  round_in-falls tool_buffer s e = λ r. cc
  round_in-falls reasoning s e = after_strip (strip_think_prefix s) s (length s.window) (strip s)
  round_in-falls content s e =
      content_hit-falls
        (first_hit (find s.window think_open) (find s.window think_close) (tool_hit k s.window)) s e
        (hit_in_window s.window (tool_hit k s.window))

  -- A round that reaches `continue` lowers the measure.
  round-falls : (s : Emitter) → FallsBelow (measure s) (round k s)
  unfolding round
  round-falls s = round_in-falls s.mode s refl

  Ends : Option Emitter → Type 0
  Ends o = (t : Emitter) × (o ≡ some t)

  after_round :
      (fuel : ℕ) (p : Emitter × Bool) (n : ℕ)
      → FallsBelow n p
      → n < suc fuel
      → ((s : Emitter) → measure s < fuel → Ends (loop k fuel s))
      → Ends (elim p.1 [ true ↦ loop k fuel p.0 | false ↦ some p.0 ])
  unfolding Ends
  after_round fuel (s, true) n h f rest = rest s (omega (arith, h refl))
  after_round fuel (s, false) n h f rest = (s, refl)

  loop-Ends : (fuel : ℕ) (s : Emitter) → measure s < fuel → Ends (loop k fuel s)
  unfolding loop
  loop-Ends zero s h = absurd (omega arith)
  loop-Ends (suc fuel) s h =
      after_round fuel (round k s) (measure s) (round-falls s) h (loop-Ends fuel)

  -- With the fuel that emit_token gives, the loop always reaches its `break`.
  pub loop_ends : (s : Emitter) → (t : Emitter) × (loop k (loop_fuel k s) s ≡ some t)
  unfolding Ends
  loop_ends s = loop-Ends (loop_fuel k s) s (omega (arith, measure_in-le s.mode (length s.window)))
