-- ===== src/Base/Search.antt =====
-- What `find` finds: the first place where the pattern stands.
use Prim.Native.Nat.{ℕ, zero, suc, ◌≤◌, ◌<◌}
use mathlib.Core.Path.{◌≡◌, refl, subst}
use mathlib.Core.Bool.{true, false}
use mathlib.Core.List.{[], ◌∷◌}
use mathlib.Core.Option.{Option, none, some, some-injective}
use native.Mathlib.Omega.{arith}
use codex_local_qwen27b.Base.Lists.{length, drop}
use codex_local_qwen27b.Base.Tests.{if_cases}
use codex_local_qwen27b.Base.Text.{Bytes, starts_with, suc?, find}

-- The pattern stands at `i`, and at no earlier position.
pub record FirstAt (w p : Bytes) (i : ℕ) : Type 0 where
  pub stands : starts_with p (drop i w) ≡ true
  pub is_first : (j : ℕ) → j < i → starts_with p (drop j w) ≡ false

abbrev pub AtFirst : Bytes → Bytes → Option ℕ → Type 0
AtFirst w p o = (i : ℕ) → o ≡ some i → FirstAt w p i

FirstAt-zero : (w p : Bytes) → starts_with p w ≡ true → FirstAt w p 0
FirstAt-zero w p e = record { stands = e; is_first = λ j h. absurd (omega arith) }

not_before :
    (c : ℕ) (cs p : Bytes) (i : ℕ)
    → starts_with p (c ∷ cs) ≡ false
    → FirstAt cs p i
    → (j : ℕ) → j < suc i
    → starts_with p (drop j (c ∷ cs)) ≡ false
not_before c cs p i e f zero h = e
not_before c cs p i e f (suc j) h = f.is_first j (omega arith)

suc?-AtFirst :
    (c : ℕ) (cs p : Bytes) (o : Option ℕ)
    → starts_with p (c ∷ cs) ≡ false
    → AtFirst cs p o
    → AtFirst (c ∷ cs) p (suc? o)
suc?-AtFirst c cs p none e h i q = cc
suc?-AtFirst c cs p (some i) e h zero q = absurd (ground arith)
suc?-AtFirst c cs p (some i) e h (suc j) q =
    let f = h j (ground arith) in record { stands = f.stands; is_first = not_before c cs p j e f }

pub find-AtFirst : (w p : Bytes) → AtFirst w p (find w p)
unfolding find
find-AtFirst [] p =
    if_cases (AtFirst [] p) (starts_with p [])
      (λ e i q. subst (FirstAt [] p) (some-injective _ _ q) (FirstAt-zero [] p e)) (λ e i q. cc)
find-AtFirst (c ∷ cs) p =
    if_cases (AtFirst (c ∷ cs) p) (starts_with p (c ∷ cs))
      (λ e i q. subst (FirstAt (c ∷ cs) p) (some-injective _ _ q) (FirstAt-zero (c ∷ cs) p e))
      (λ e. suc?-AtFirst c cs p (find cs p) e (find-AtFirst cs p))

suc?-none : (o : Option ℕ) → suc? o ≡ none → o ≡ none
suc?-none none e = refl
suc?-none (some i) e = cc

-- Where `find` finds nothing, the pattern stands nowhere.
pub find-none :
    (w p : Bytes) (j : ℕ) → find w p ≡ none → j ≤ length w → starts_with p (drop j w) ≡ false
unfolding find
find-none [] p zero e h = ground arith
find-none [] p (suc j) e h = absurd (omega arith)
find-none (c ∷ cs) p zero e h = ground arith
find-none (c ∷ cs) p (suc j) e h =
    if_cases (λ z. z ≡ none → starts_with p (drop j cs) ≡ false) (starts_with p (c ∷ cs))
      (λ t q. cc) (λ t q. find-none cs p j (suc?-none _ q) (omega arith)) e
