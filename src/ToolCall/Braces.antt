-- ===== src/ToolCall/Braces.antt =====
-- Which brace balanced_braces_end finds (473-493): the one that closes the first, in a text where
-- braces, brackets and strings nest.
use codex_local_qwen27b.Base.{
  ℕ, suc, ◌+◌, ◌≡◌, refl, ap, ◌∙◌, Bool, true, not, ◌&&◌, ◌||◌, some, List, [], ◌∷◌, ◌++◌, Bytes,
  arith, ◌==◌, all, length, length-append, drop-length-append,
}
use codex_local_qwen27b.ToolCall.{
  BraceMode, outside, inside, escaped, BraceScan, goes_on, is_quote, is_opener, is_closer,
  outside_step, brace_step, braces_end, balanced_braces_end,
}

-- A byte of a string literal: as it is, or behind a backslash.
pub data Literal : Type 0 where
  as_is : (c : ℕ) → Literal
  behind_backslash : (c : ℕ) → Literal

-- What may stand between braces: bytes, strings with their quote, and groups in braces or brackets.
pub data Items : Type 0 where
  done : Items
  byte : (c : ℕ) (rest : Items) → Items
  quoted : (q : ℕ) (body : List Literal) (rest : Items) → Items
  braces : (inner rest : Items) → Items
  brackets : (inner rest : Items) → Items

abbrev pub literal_text : List Literal → Bytes → Bytes
literal_text [] k = k
literal_text (as_is c ∷ ls) k = c ∷ literal_text ls k
literal_text (behind_backslash c ∷ ls) k = b'\\' ∷ c ∷ literal_text ls k

-- The items as text, and then `k`.
abbrev pub items_text : Items → Bytes → Bytes
items_text done k = k
items_text (byte c rest) k = c ∷ items_text rest k
items_text (quoted q body rest) k = q ∷ literal_text body (q ∷ items_text rest k)
items_text (braces inner rest) k = b'{' ∷ items_text inner (b'}' ∷ items_text rest k)
items_text (brackets inner rest) k = b'[' ∷ items_text inner (b']' ∷ items_text rest k)

-- Bytes between strings are no quotes and no braces; in a string the quote and the backslash stand
-- behind a backslash.
abbrev pub fits_literal : ℕ → Literal → Bool
fits_literal q (as_is c) = not (c == b'\\') && not (c == q)
fits_literal q (behind_backslash c) = true

abbrev pub well_nested : Items → Bool
well_nested done = true
well_nested (byte c rest) = not (is_quote c || is_opener c || is_closer c) && well_nested rest
well_nested (quoted q body rest) = is_quote q && all (fits_literal q) body && well_nested rest
well_nested (braces inner rest) = well_nested inner && well_nested rest
well_nested (brackets inner rest) = well_nested inner && well_nested rest

abbrev scan_at : ℕ → BraceMode → BraceScan
scan_at d m = record { depth = d; mode = m }

moves :
    (c : ℕ) (cs : Bytes) (i : ℕ) (s t : BraceScan)
    → brace_step c s ≡ goes_on t
    → braces_end (c ∷ cs) i s ≡ braces_end cs (suc i) t
unfolding braces_end
moves c cs i s t e = rw (braces_end, e) refl

-- A string literal is skipped.
skips_literal :
    (ls : List Literal) (q d i : ℕ) (k : Bytes)
    → all (fits_literal q) ls ≡ true
    → braces_end (literal_text ls k) i (scan_at d (inside q))
      ≡ braces_end k (i + length (literal_text ls [])) (scan_at d (inside q))
unfolding brace_step all
skips_literal [] q d i k h = ap (λ n. braces_end k n (scan_at d (inside q))) (omega arith)
skips_literal (as_is c ∷ ls) q d i k h =
    moves c (literal_text ls k) i (scan_at d (inside q)) (scan_at d (inside q)) (ground (arith, h))
    ∙ skips_literal ls q d (suc i) k (ground (arith, h))
    ∙ ap (λ n. braces_end k n (scan_at d (inside q))) (omega arith)
skips_literal (behind_backslash c ∷ ls) q d i k h =
    moves b'\\' (c ∷ literal_text ls k) i (scan_at d (inside q)) (scan_at d (escaped q)) refl
    ∙ moves c (literal_text ls k) (suc i) (scan_at d (escaped q)) (scan_at d (inside q)) refl
    ∙ skips_literal ls q d (suc (suc i)) k (ground (arith, h))
    ∙ ap (λ n. braces_end k n (scan_at d (inside q))) (omega arith)

literal_text-append :
    (ls : List Literal) (xs ys : Bytes) → literal_text ls (xs ++ ys) ≡ literal_text ls xs ++ ys
literal_text-append [] xs ys = refl
literal_text-append (as_is c ∷ ls) xs ys = ap (◌∷◌ c) (literal_text-append ls xs ys)
literal_text-append (behind_backslash c ∷ ls) xs ys =
    ap (λ z. b'\\' ∷ c ∷ z) (literal_text-append ls xs ys)

pub items_text-append :
    (t : Items) (xs ys : Bytes) → items_text t (xs ++ ys) ≡ items_text t xs ++ ys
items_text-append done xs ys = refl
items_text-append (byte c rest) xs ys = ap (◌∷◌ c) (items_text-append rest xs ys)
items_text-append (quoted q body rest) xs ys =
    ap (λ z. q ∷ literal_text body (q ∷ z)) (items_text-append rest xs ys)
    ∙ ap (◌∷◌ q) (literal_text-append body (q ∷ items_text rest xs) ys)
items_text-append (braces inner rest) xs ys =
    ap (λ z. b'{' ∷ items_text inner (b'}' ∷ z)) (items_text-append rest xs ys)
    ∙ ap (◌∷◌ b'{') (items_text-append inner (b'}' ∷ items_text rest xs) ys)
items_text-append (brackets inner rest) xs ys =
    ap (λ z. b'[' ∷ items_text inner (b']' ∷ z)) (items_text-append rest xs ys)
    ∙ ap (◌∷◌ b'[') (items_text-append inner (b']' ∷ items_text rest xs) ys)

pub length-literal_text :
    (ls : List Literal) (k : Bytes)
    → length (literal_text ls k) ≡ length (literal_text ls []) + length k
length-literal_text ls k =
    ap length (literal_text-append ls [] k) ∙ length-append (literal_text ls []) k

pub length-items_text :
    (t : Items) (k : Bytes) → length (items_text t k) ≡ length (items_text t []) + length k
length-items_text t k = ap length (items_text-append t [] k) ∙ length-append (items_text t []) k

-- Inside of a brace, nested items are skipped.
skips_items :
    (t : Items) (d i : ℕ) (k : Bytes)
    → well_nested t ≡ true
    → braces_end (items_text t k) i (scan_at (suc d) outside)
      ≡ braces_end k (i + length (items_text t [])) (scan_at (suc d) outside)
unfolding brace_step outside_step all
skips_items done d i k h = ap (λ n. braces_end k n (scan_at (suc d) outside)) (omega arith)
skips_items (byte c rest) d i k h =
    moves c (items_text rest k) i (scan_at (suc d) outside) (scan_at (suc d) outside)
      (ground (arith, h))
    ∙ skips_items rest d (suc i) k (ground (arith, h))
    ∙ ap (λ n. braces_end k n (scan_at (suc d) outside)) (omega arith)
skips_items (quoted q body rest) d i k h =
    moves q (literal_text body (q ∷ items_text rest k)) i (scan_at (suc d) outside)
      (scan_at (suc d) (inside q)) (ground (arith, h))
    ∙ skips_literal body q (suc d) (suc i) (q ∷ items_text rest k) (ground (arith, h))
    ∙ moves q (items_text rest k) (suc i + length (literal_text body []))
        (scan_at (suc d) (inside q)) (scan_at (suc d) outside) (ground (arith, h))
    ∙ skips_items rest d _ k (ground (arith, h))
    ∙ ap (λ n. braces_end k n (scan_at (suc d) outside))
        (omega (arith, length-literal_text body (q ∷ items_text rest [])))
skips_items (braces inner rest) d i k h =
    moves b'{' (items_text inner (b'}' ∷ items_text rest k)) i (scan_at (suc d) outside)
      (scan_at (suc (suc d)) outside) refl
    ∙ skips_items inner (suc d) (suc i) (b'}' ∷ items_text rest k) (ground (arith, h))
    ∙ moves b'}' (items_text rest k) (suc i + length (items_text inner []))
        (scan_at (suc (suc d)) outside) (scan_at (suc d) outside) (ground arith)
    ∙ skips_items rest d _ k (ground (arith, h))
    ∙ ap (λ n. braces_end k n (scan_at (suc d) outside))
        (omega (arith, length-items_text inner (b'}' ∷ items_text rest [])))
skips_items (brackets inner rest) d i k h =
    moves b'[' (items_text inner (b']' ∷ items_text rest k)) i (scan_at (suc d) outside)
      (scan_at (suc (suc d)) outside) refl
    ∙ skips_items inner (suc d) (suc i) (b']' ∷ items_text rest k) (ground (arith, h))
    ∙ moves b']' (items_text rest k) (suc i + length (items_text inner []))
        (scan_at (suc (suc d)) outside) (scan_at (suc d) outside) (ground arith)
    ∙ skips_items rest d _ k (ground (arith, h))
    ∙ ap (λ n. braces_end k n (scan_at (suc d) outside))
        (omega (arith, length-items_text inner (b']' ∷ items_text rest [])))

-- A well nested object is found whole, wherever it starts and whatever follows: the position behind
-- its closing brace.
pub balanced_braces_end-items :
    (before : Bytes) (t : Items) (rest : Bytes)
    → well_nested t ≡ true
    → balanced_braces_end (before ++ b'{' ∷ items_text t (b'}' ∷ rest)) (length before)
      ≡ some (length before + length (items_text t []) + 2)
unfolding balanced_braces_end braces_end brace_step outside_step
balanced_braces_end-items before t rest h =
    ap (λ z. braces_end z (length before) (scan_at 0 outside))
      (drop-length-append before (b'{' ∷ items_text t (b'}' ∷ rest)))
    ∙ skips_items t 0 (suc (length before)) (b'}' ∷ rest) h
    ∙ ap some (omega arith)
