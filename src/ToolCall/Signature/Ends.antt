-- ===== src/ToolCall/Signature/Ends.antt =====
-- The loop of parse_function_sig_args (1052-1112) ends on every text.
use codex_local_qwen27b.Base.{
  ℕ, zero, suc, ◌+◌, ◌≤◌, ◌<◌, ◌≡◌, ◌≢◌, ◌⊎◌, refl, Bool, true, false, ◌||◌, [], ◌∷◌, Bytes, codes,
  arith, ◌==◌, if_both, length, length-drop, is_empty, take, drop, find, drop_leading,
  drop_trailing, Option-cases, inl, inr,
}
use mathlib.Core.Path.{subst}
use codex_local_qwen27b.ToolCall.Signature.{
  SigValue, Assignment, is_separator, is_blank, quoted_value, raw_depth, raw_split, sig_value,
  SigStep, ended, malformed, assigned, value_step, key_step, sig_step, SigResult, parsed, rejected,
  exhausted, prepend, sig_loop, parse_function_sig_args,
}

drop_leading-le : (p : ℕ → Bool) (xs : Bytes) → length (drop_leading p xs) ≤ length xs
unfolding drop_leading
drop_leading-le p [] = omega arith
drop_leading-le p (x ∷ xs) = ground (arith, drop_leading-le p xs)

quoted_value-le :
    (q : ℕ) (escaped : Bool) (xs : Bytes) → length (quoted_value q escaped xs).1 ≤ length xs
unfolding quoted_value
quoted_value-le q false [] = omega arith
quoted_value-le q true [] = omega arith
quoted_value-le q true (c ∷ cs) = omega (arith, quoted_value-le q false cs)
quoted_value-le q false (c ∷ cs) =
    ground (arith, quoted_value-le q false cs, quoted_value-le q true cs)

raw_split-le : (depth : ℕ) (xs : Bytes) → length (raw_split depth xs).1 ≤ length xs
unfolding raw_split
raw_split-le depth [] = omega arith
raw_split-le depth (c ∷ cs) = elim (Option-cases (raw_depth c depth)) [
  | inl e ↦ rw (raw_split, e) (omega arith)
  | inr (d, e) ↦ rw (raw_split, e) (omega (arith, raw_split-le d cs))
]

-- The rest that a pass leaves has less than `n` bytes.
abbrev LeavesLess : ℕ → SigStep → Type 0
LeavesLess n (assigned a rest) = length rest < n
LeavesLess n _ = Unit

sig_value-le : (c : ℕ) (cs : Bytes) → length (sig_value c cs).1 ≤ suc (length cs)
unfolding sig_value
sig_value-le c cs =
    if_both (λ (z : SigValue × Bytes). length z.1 ≤ suc (length cs)) (c == b'"' || c == b'\'')
      (omega (arith, quoted_value-le c false cs)) (omega (arith, raw_split-le 0 (c ∷ cs)))

value_step-LeavesLess : (key xs : Bytes) (n : ℕ) → length xs < n → LeavesLess n (value_step key xs)
unfolding value_step
value_step-LeavesLess key [] n l = tt
value_step-LeavesLess key (c ∷ cs) n l =
    if_both (LeavesLess n) (is_empty key) tt (omega (arith, l, sig_value-le c cs))

key_step-LeavesLess : (xs : Bytes) → LeavesLess (length xs) (key_step xs)
unfolding key_step
key_step-LeavesLess [] = tt
key_step-LeavesLess (c ∷ cs) = elim (Option-cases (find (c ∷ cs) (codes "="))) [
  | inl e ↦ rw (key_step, e) tt
  | inr (eq, e) ↦
      rw (key_step, e)
        (value_step-LeavesLess (drop_trailing is_blank (take eq (c ∷ cs)))
          (drop_leading is_blank (drop (eq + 1) (c ∷ cs))) (length (c ∷ cs))
          (omega (
            arith,
            drop_leading-le is_blank (drop (eq + 1) (c ∷ cs)),
            length-drop (eq + 1) (c ∷ cs),
          )))
]

LeavesLess-le : (m n : ℕ) (s : SigStep) → m ≤ n → LeavesLess m s → LeavesLess n s
LeavesLess-le m n ended l h = tt
LeavesLess-le m n malformed l h = tt
LeavesLess-le m n (assigned a rest) l h = omega (arith, l, h)

sig_step-LeavesLess : (text : Bytes) → LeavesLess (length text) (sig_step text)
unfolding sig_step
sig_step-LeavesLess xs =
    LeavesLess-le _ _ _ (drop_leading-le is_separator xs)
      (key_step-LeavesLess (drop_leading is_separator xs))

abbrev Ends : SigResult → Type 0
Ends exhausted = ⊥
Ends _ = Unit

prepend-Ends : (a : Assignment) (r : SigResult) → Ends r → Ends (prepend a r)
prepend-Ends a (parsed later) h = tt
prepend-Ends a rejected h = tt
prepend-Ends a exhausted h = h

SigStep-cases :
    (s : SigStep)
    → (s ≡ ended) ⊎ ((s ≡ malformed) ⊎ ((a : Assignment) × (rest : Bytes) × (s ≡ assigned a rest)))
SigStep-cases ended = inl refl
SigStep-cases malformed = inr (inl refl)
SigStep-cases (assigned a rest) = inr (inr (a, rest, refl))

sig_loop-Ends : (fuel : ℕ) (xs : Bytes) → length xs < fuel → Ends (sig_loop fuel xs)
unfolding sig_loop
sig_loop-Ends zero xs l = absurd (omega arith)
sig_loop-Ends (suc fuel) xs l = elim (SigStep-cases (sig_step xs)) [
  | inl e ↦ rw (sig_loop, e) tt
  | inr (inl e) ↦ rw (sig_loop, e) tt
  | inr (inr (a, rest, e)) ↦
      let less = subst (LeavesLess (length xs)) e (sig_step-LeavesLess xs) in
      rw (sig_loop, e)
        (prepend-Ends a (sig_loop fuel rest) (sig_loop-Ends fuel rest (omega (arith, l, less))))
]

-- The loop ends on every text: the fuel that parse_function_sig_args gives it is never used up.
pub parse_function_sig_args_ends : (arg_text : Bytes) → parse_function_sig_args arg_text ≢ exhausted
unfolding parse_function_sig_args
parse_function_sig_args_ends xs e = subst Ends e (sig_loop-Ends (suc (length xs)) xs (omega arith))
