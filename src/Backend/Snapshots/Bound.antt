-- ===== src/Backend/Snapshots/Bound.antt =====
-- Vectors whose entries a loop fills, as the one over the tensors does (1058-1072).
use codex_local_qwen27b.Base.{
  ℕ, zero, suc, ◌<◌, ◌≡◌, refl, ap, ◌∙◌, Bool, true, false, ◌&&◌, ◌||◌, Option, none, some, is_some,
  List, [], ◌∷◌, arith, length, all, any, ◌==◌,
}
use codex_local_qwen27b.Backend.Snapshots.{set, nulls}

-- p holds below n.
unfoldable pub all_below : ℕ → (ℕ → Bool) → Bool
all_below zero p = true
all_below (suc n) p = p 0 && all_below n (λ i. p (suc i))

-- The entry is there, and filled.
filled : {T : Type 0} → List (Option T) → ℕ → Bool
filled [] i = false
filled (x ∷ xs) zero = is_some x
filled (x ∷ xs) (suc i) = filled xs i

abbrev pub is_at : ℕ → Option ℕ → Bool
is_at i none = false
is_at i (some j) = i == j

-- An entry is written, if there is an index.
abbrev pub write : {T : Type 0} → Option ℕ → T → List (Option T) → List (Option T)
write none t xs = xs
write (some j) t xs = set xs j (some t)

all-filled :
    {T : Type 0} (xs : List (Option T)) → all is_some xs ≡ all_below (length xs) (filled xs)
unfolding all all_below filled
all-filled [] = refl
all-filled (x ∷ xs) = ap (λ b. is_some x && b) (all-filled xs)

filled-nulls : (T : Type 0) (n i : ℕ) → filled (nulls {T = T} n) i ≡ false
unfolding filled
filled-nulls T zero i = refl
filled-nulls T (suc n) zero = refl
filled-nulls T (suc n) (suc i) = filled-nulls T n i

length-nulls : (T : Type 0) (n : ℕ) → length (nulls {T = T} n) ≡ n
length-nulls T zero = refl
length-nulls T (suc n) = ap suc (length-nulls T n)

length-set :
    {T : Type 0} (xs : List (Option T)) (j : ℕ) (v : Option T) → length (set xs j v) ≡ length xs
length-set [] j v = refl
length-set (x ∷ xs) zero v = refl
length-set (x ∷ xs) (suc j) v = ap suc (length-set xs j v)

length-write :
    {T : Type 0} (o : Option ℕ) (t : T) (xs : List (Option T)) → length (write o t xs) ≡ length xs
length-write none t xs = refl
length-write (some j) t xs = length-set xs j (some t)

filled-set :
    {T : Type 0} (xs : List (Option T)) (j i : ℕ) (t : T)
    → i < length xs
    → filled (set xs j (some t)) i ≡ ((i == j) || filled xs i)
unfolding filled
filled-set [] j i t h = absurd (omega arith)
filled-set (x ∷ xs) zero zero t h = ground arith
filled-set (x ∷ xs) zero (suc i) t h = ground arith
filled-set (x ∷ xs) (suc j) zero t h = ground arith
filled-set (x ∷ xs) (suc j) (suc i) t h = ground (arith, filled-set xs j i t)

filled-write :
    {T : Type 0} (o : Option ℕ) (t : T) (xs : List (Option T)) (i : ℕ)
    → i < length xs
    → filled (write o t xs) i ≡ (is_at i o || filled xs i)
filled-write none t xs i h = refl
filled-write (some j) t xs i h = filled-set xs j i t h

all_below-ext :
    (n : ℕ) (p q : ℕ → Bool) → ((i : ℕ) → i < n → p i ≡ q i) → all_below n p ≡ all_below n q
unfolding all_below
all_below-ext zero p q h = refl
all_below-ext (suc n) p q h =
    let e = h 0 (omega arith) in
    let r = all_below-ext n (λ i. p (suc i)) (λ i. q (suc i)) (λ i l. h (suc i) (omega arith)) in
    rw (e, r) refl

pub or_shift : (a b c : Bool) → (a || (b || c)) ≡ ((b || a) || c)
or_shift a b c = ground arith

pub or_none : (a b : Bool) → b ≡ false → (a || b) ≡ a
or_none a b e = ground (arith, e)

module _ {T : Type 0} (place : T → Option ℕ) where
  -- Every tensor is written where it belongs.
  unfoldable pub write_all : List T → List (Option T) → List (Option T)
  write_all [] xs = xs
  write_all (t ∷ ts) xs = write_all ts (write (place t) t xs)

  filled-write_all :
      (ts : List T) (xs : List (Option T)) (i : ℕ)
      → i < length xs
      → filled (write_all ts xs) i ≡ (any (λ t. is_at i (place t)) ts || filled xs i)
  unfolding write_all any
  filled-write_all [] xs i h = refl
  filled-write_all (t ∷ ts) xs i h = ground (
    arith,
    filled-write_all ts (write (place t) t xs) i,
    filled-write (place t) t xs i h,
    length-write (place t) t xs,
  )

  length-write_all : (ts : List T) (xs : List (Option T)) → length (write_all ts xs) ≡ length xs
  unfolding write_all
  length-write_all [] xs = refl
  length-write_all (t ∷ ts) xs =
      length-write_all ts (write (place t) t xs) ∙ length-write (place t) t xs

  -- All entries are filled if and only if each index has a tensor.
  pub all-write_all :
      (n : ℕ) (ts : List T)
      → all is_some (write_all ts (nulls n)) ≡ all_below n (λ i. any (λ t. is_at i (place t)) ts)
  all-write_all n ts =
      let l = length-write_all ts (nulls n) ∙ length-nulls T n in
      all-filled (write_all ts (nulls n))
      ∙ ap (λ m. all_below m (filled (write_all ts (nulls n)))) l
      ∙ all_below-ext n (filled (write_all ts (nulls n))) (λ i. any (λ t. is_at i (place t)) ts)
          (λ i h.
            filled-write_all ts (nulls n) i (omega (arith, length-nulls T n))
            ∙ or_none (any (λ t. is_at i (place t)) ts) _ (filled-nulls T n i))
