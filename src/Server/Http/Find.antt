-- ===== src/Server/Http/Find.antt =====
-- Where `find` finds a pattern in a text that is made of parts, or that is cut.
use codex_local_qwen27b.Base.{
  ℕ, zero, suc, ◌+◌, ◌≤◌, ◌<◌, ◌≡◌, refl, ap, Bool, true, not, Option, none, some, [], ◌∷◌, ◌++◌,
  Bytes, arith, ◌==◌, all, length, find, starts_with, suc?, inl, inr, Bool-cases,
}

-- A position that is counted from behind `n` bytes.
abbrev pub shift : ℕ → Option ℕ → Option ℕ
shift n none = none
shift n (some i) = some (n + i)

shift_zero : (o : Option ℕ) → o ≡ shift 0 o
shift_zero none = refl
shift_zero (some i) = ap some (omega arith)

suc?-shift : (n : ℕ) (o : Option ℕ) → suc? (shift n o) ≡ shift (suc n) o
suc?-shift n none = refl
suc?-shift n (some i) = ap some (omega arith)

abbrev pub has_no : ℕ → Bytes → Bool
has_no c = all (λ b. not (c == b))

-- Bytes that are not the pattern's first are skipped.
pub find-append :
    (xs : Bytes) (p : ℕ) (ps ys : Bytes)
    → has_no p xs ≡ true
    → find (xs ++ ys) (p ∷ ps) ≡ shift (length xs) (find ys (p ∷ ps))
unfolding find starts_with all
find-append [] p ps ys h = shift_zero (find ys (p ∷ ps))
find-append (x ∷ xs) p ps ys h =
    ground (arith, find-append xs p ps ys, suc?-shift (length xs) (find ys (p ∷ ps)))

pub find-none_of : (xs : Bytes) (p : ℕ) (ps : Bytes) → has_no p xs ≡ true → find xs (p ∷ ps) ≡ none
unfolding find starts_with all
find-none_of [] p ps h = refl
find-none_of (x ∷ xs) p ps h = ground (arith, find-none_of xs p ps)

-- A pattern without the byte `c` does not reach across it.
starts_with-across :
    (p xs ys : Bytes) (c : ℕ)
    → all (λ b. not (b == c)) p ≡ true
    → starts_with p (xs ++ c ∷ ys) ≡ starts_with p xs
unfolding starts_with all
starts_with-across [] xs ys c h = refl
starts_with-across (q ∷ qs) [] ys c h = ground arith
starts_with-across (q ∷ qs) (x ∷ xs) ys c h = ground (arith, starts_with-across qs xs ys c)

pub find-across :
    (xs ys p : Bytes) (c : ℕ)
    → all (λ b. not (b == c)) p ≡ true
    → find xs p ≡ none
    → find (xs ++ c ∷ ys) p ≡ shift (suc (length xs)) (find ys p)
unfolding find
find-across [] ys p c h e =
    ground (arith, starts_with-across p [] ys c h, suc?-shift 0 (find ys p), shift_zero (find ys p))
find-across (x ∷ xs) ys p c h e = ground (
  arith,
  starts_with-across p (x ∷ xs) ys c h,
  find-across xs ys p c h,
  suc?-shift (suc (length xs)) (find ys p),
)

starts_with-append : (p xs ys : Bytes) → starts_with p xs ≡ true → starts_with p (xs ++ ys) ≡ true
unfolding starts_with
starts_with-append [] xs ys h = refl
starts_with-append (q ∷ qs) [] ys h = cc
starts_with-append (q ∷ qs) (x ∷ xs) ys h = ground (arith, starts_with-append qs xs ys)

starts_with_cut :
    (p xs ys : Bytes)
    → starts_with p (xs ++ ys) ≡ true
    → length p ≤ length xs
    → starts_with p xs ≡ true
unfolding starts_with
starts_with_cut [] xs ys h l = refl
starts_with_cut (q ∷ qs) [] ys h l = absurd (omega arith)
starts_with_cut (q ∷ qs) (x ∷ xs) ys h l = ground (arith, starts_with_cut qs xs ys)

starts_with-le : (p xs : Bytes) → starts_with p xs ≡ true → length p ≤ length xs
unfolding starts_with
starts_with-le [] xs h = omega arith
starts_with-le (q ∷ qs) [] h = cc
starts_with-le (q ∷ qs) (x ∷ xs) h = ground (arith, starts_with-le qs xs)

suc?-some : (o : Option ℕ) (i : ℕ) → suc? o ≡ some (suc i) → o ≡ some i
suc?-some none i e = cc
suc?-some (some j) i e = cc

find_short : (xs p : Bytes) → length xs < length p → find xs p ≡ none
unfolding find starts_with
find_short [] [] l = absurd (omega arith)
find_short [] (q ∷ qs) l = refl
find_short (x ∷ xs) p l = elim (Bool-cases (starts_with p (x ∷ xs))) [
  | inl h ↦ absurd (omega (arith, starts_with-le p (x ∷ xs) h))
  | inr h ↦ rw (h, find_short xs p (omega arith)) refl
]

-- What is not in a text is in no beginning of it.
pub find_prefix-none : (xs ys p : Bytes) → find (xs ++ ys) p ≡ none → find xs p ≡ none
unfolding find starts_with
find_prefix-none [] [] p e = e
find_prefix-none [] (y ∷ ys) [] e = cc
find_prefix-none [] (y ∷ ys) (q ∷ qs) e = refl
find_prefix-none (x ∷ xs) ys p e =
    ground (arith, starts_with-append p (x ∷ xs) ys, find_prefix-none xs ys p)

first_empty : (ys : Bytes) (i : ℕ) → find ys [] ≡ some (suc i) → find [] [] ≡ none
unfolding find starts_with
first_empty [] i e = cc
first_empty (y ∷ ys) i e = cc

-- A pattern that ends behind the cut is not found before it.
pub find_prefix_before :
    (xs ys p : Bytes) (i : ℕ)
    → find (xs ++ ys) p ≡ some i
    → length xs < i + length p
    → find xs p ≡ none
unfolding find
find_prefix_before xs ys p zero e l = find_short xs p (omega arith)
find_prefix_before [] ys [] (suc i) e l = first_empty ys i e
find_prefix_before [] ys (q ∷ qs) (suc i) e l = find_short [] (q ∷ qs) (omega arith)
find_prefix_before (x ∷ xs) ys p (suc i) e l = ground (
  arith,
  starts_with-append p (x ∷ xs) ys,
  suc?-some (find (xs ++ ys) p) i,
  find_prefix_before xs ys p i,
)
