-- ===== src/Sse/Loop/Stop.antt =====
-- Where a stop sequence cuts the text (sse_emitter.cpp, 336-371).
use codex_local_qwen27b.Base.{
  ℕ, zero, suc, ◌≤◌, ◌<◌, ◌≡◌, refl, sym, true, false, Option, none, some, List, [], ◌∷◌, ◌++◌,
  append-nil, ◌⊎◌, arith, Bytes, length, take, drop, get_elem?, starts_with, find, find-AtFirst,
  find-none, Option-cases, inl, inr,
}
use mathlib.Core.Option.{some-injective}
use mathlib.Core.Path.{subst}
use native.Mathlib.Decide.{dec_lt}
use codex_local_qwen27b.Sse.Toolkit.{Toolkit}
use codex_local_qwen27b.Sse.Loop.{emit_token}
use codex_local_qwen27b.Sse.Token.{
  StreamMode, reasoning, content, tool_buffer, Emitter, best_stop, earlier, add_before_stop,
  add_content, stop_at,
}

-- A position before a limit; `none` is no limit.
abbrev pub Before : ℕ → Option ℕ → Type 0
Before j none = Unit
Before j (some i) = j < i

-- One of the sequences stands at `i`.
pub record StopAt (w : Bytes) (seqs : List Bytes) (i : ℕ) : Type 0 where
  pub which : ℕ
  pub seq : Bytes
  pub declared : get_elem? seqs which ≡ some seq
  pub stands : starts_with seq (drop i w) ≡ true

-- None of the sequences stands before the limit.
abbrev pub ClearBefore : Bytes → List Bytes → Option ℕ → Type 0
ClearBefore w seqs limit =
    (n : ℕ) (p : Bytes) (j : ℕ)
    → get_elem? seqs n ≡ some p
    → Before j limit
    → j ≤ length w
    → starts_with p (drop j w) ≡ false

earlier-left : (j : ℕ) (a b : Option ℕ) → Before j (earlier a b) → Before j a
earlier-left j none b h = tt
earlier-left j (some p) none h = h
earlier-left j (some p) (some q) h = ground arith

earlier-right : (j : ℕ) (a b : Option ℕ) → Before j (earlier a b) → Before j b
earlier-right j a none h = tt
earlier-right j none (some q) h = h
earlier-right j (some p) (some q) h = ground arith

earlier-cases : (a b : Option ℕ) (i : ℕ) → earlier a b ≡ some i → (a ≡ some i) ⊎ (b ≡ some i)
earlier-cases none b i e = inr e
earlier-cases (some p) none i e = inl e
earlier-cases (some p) (some q) i e = ground arith

clear_of_find :
    (w p : Bytes) (o : Option ℕ) (j : ℕ)
    → find w p ≡ o
    → Before j o
    → j ≤ length w
    → starts_with p (drop j w) ≡ false
clear_of_find w p none j e b h = find-none w p j e h
clear_of_find w p (some i) j e b h = (find-AtFirst w p i e).is_first j b

best_stop-ClearBefore : (w : Bytes) (seqs : List Bytes) → ClearBefore w seqs (best_stop w seqs)
unfolding best_stop
best_stop-ClearBefore w [] n p j e b h = cc
best_stop-ClearBefore w (seq ∷ seqs) zero p j e b h =
    subst (λ q. starts_with q (drop j w) ≡ false) (some-injective _ _ e)
      (clear_of_find w seq (find w seq) j refl (earlier-left j _ (best_stop w seqs) b) h)
best_stop-ClearBefore w (seq ∷ seqs) (suc n) p j e b h =
    best_stop-ClearBefore w seqs n p j e (earlier-right j (find w seq) _ b) h

StopAt-cons :
    {w seq : Bytes} {seqs : List Bytes} {i : ℕ} → StopAt w seqs i → StopAt w (seq ∷ seqs) i
StopAt-cons h = record {
  which = suc h.which;
  seq = h.seq;
  declared = h.declared;
  stands = h.stands;
}

-- The text is cut where a declared stop sequence stands.
pub best_stop-StopAt :
    (w : Bytes) (seqs : List Bytes) (i : ℕ) → best_stop w seqs ≡ some i → StopAt w seqs i
unfolding best_stop
best_stop-StopAt w [] i e = cc
best_stop-StopAt w (seq ∷ seqs) i e = elim (earlier-cases (find w seq) (best_stop w seqs) i e) [
  | inl q ↦ record {
    which = 0;
    seq = seq;
    declared = refl;
    stands = (find-AtFirst w seq i q).stands;
  }
  | inr q ↦ StopAt-cons (best_stop-StopAt w seqs i q)
]

not_before : (i j : ℕ) → (j < i → ⊥) → i ≤ j
not_before i j h = elim (dec_lt j i) [ yes a ↦ absurd (h a) | no a ↦ omega arith ]

clear_cut :
    (w : Bytes) (seqs : List Bytes) (n j : ℕ) (p : Bytes) (o : Option ℕ)
    → get_elem? seqs n ≡ some p
    → j ≤ length w
    → starts_with p (drop j w) ≡ true
    → best_stop w seqs ≡ o
    → Before j o
    → ⊥
clear_cut w seqs n j p o e l h q b =
    let clear = best_stop-ClearBefore w seqs n p j e (subst (Before j) (sym q) b) l in cc

-- The first place where a declared sequence stands: one stands there, and none before.
pub record FirstStop (w : Bytes) (seqs : List Bytes) (i : ℕ) : Type 0 where
  pub here : StopAt w seqs i
  pub none_before :
      (n : ℕ) (p : Bytes) (j : ℕ)
      → get_elem? seqs n ≡ some p
      → j < i
      → starts_with p (drop j w) ≡ false

-- Where a declared sequence stands in the window, the text is cut at the first place where one stands,
-- whichever of the sequences it is: at that position or before it, at a position where a declared
-- sequence stands, and no declared sequence stands at any position before.
pub best_stop-FirstStop :
    (w : Bytes) (seqs : List Bytes) (n j : ℕ) (p : Bytes)
    → get_elem? seqs n ≡ some p
    → j ≤ length w
    → starts_with p (drop j w) ≡ true
    → (i : ℕ) × (best_stop w seqs ≡ some i) × (i ≤ j) × FirstStop w seqs i
best_stop-FirstStop w seqs n j p e l h = elim (Option-cases (best_stop w seqs)) [
  | inl q ↦ absurd (clear_cut w seqs n j p none e l h q tt)
  | inr (i, q) ↦
      let within = not_before i j (clear_cut w seqs n j p (some i) e l h q) in
      (
        i,
        q,
        within,
        record {
          here = best_stop-StopAt w seqs i q;
          none_before = λ m r t d b.
              best_stop-ClearBefore w seqs m r t d (subst (Before t) (sym q) b) (omega arith);
        },
      )
]

abbrev AnswerIs : Emitter → Bytes → Bytes → Type 0
AnswerIs s answer thoughts = (s.accumulated_content ≡ answer) × (s.reasoning_text ≡ thoughts)

before_in_content :
    (m : StreamMode) (pre : Bytes) (s : Emitter)
    → m ≡ content
    → AnswerIs (add_before_stop m pre s) (s.accumulated_content ++ pre) s.reasoning_text
unfolding add_before_stop add_content
before_in_content content [] s e = (sym (append-nil s.accumulated_content), refl)
before_in_content content (c ∷ cs) s e = (refl, refl)
before_in_content reasoning pre s e = cc
before_in_content tool_buffer pre s e = cc

-- In CONTENT the answer grows by exactly the text before the cut and the reasoning stays; the
-- window is dropped and the emitter stops, so that later calls of emit_token change nothing.
pub stop_at-content :
    (k : Toolkit) (i : ℕ) (s : Emitter) (raw : Bytes)
    → s.mode ≡ content
    → ((stop_at i s).accumulated_content ≡ s.accumulated_content ++ take i s.window)
      × ((stop_at i s).reasoning_text ≡ s.reasoning_text)
      × ((stop_at i s).window ≡ [])
      × (emit_token k raw (stop_at i s) ≡ stop_at i s)
unfolding stop_at emit_token
stop_at-content k i s raw e =
    let h = before_in_content s.mode (take i s.window) s e in (h.0, h.1, refl, refl)
