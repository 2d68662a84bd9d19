-- ===== src/Server/Http/Decimal.antt =====
-- std::to_string and the digits of strtol: decimal numerals.
use codex_local_qwen27b.Base.{
  ℕ, zero, suc, ◌+◌, ◌-◌, ◌*◌, ◌/◌, ◌%◌, ◌<◌, ◌≡◌, refl, ap, ◌∙◌, Bool, true, false, ◌&&◌, [], ◌∷◌,
  ◌++◌, append_assoc, Bytes, arith, ltb, leb, if◌then◌else◌, all, if_cases,
}

abbrev pub is_digit : ℕ → Bool
is_digit c = leb b'0' c && leb c b'9'

-- The value of the leading digits, behind digits of the value `acc`.
unfoldable pub digits_value : ℕ → Bytes → ℕ
digits_value acc [] = acc
digits_value acc (c ∷ cs) =
    let rest = digits_value (acc * 10 + (c - 48)) cs in if is_digit c then rest else acc

-- The digits of a number below the fuel, the last one first in `n % 10`.
unfoldable pub digits : ℕ → ℕ → Bytes
digits zero n = []
digits (suc fuel) n =
    let rest = digits fuel (n / 10) in
    if ltb n 10 then (n + 48) ∷ [] else rest ++ (n % 10 + 48) ∷ []

-- std::to_string
unfoldable pub decimal : ℕ → Bytes
unfolding digits
decimal n = digits (suc n) n

-- Digits, and then a byte that is none.
digits_value-append :
    (xs : Bytes) (d c : ℕ) (ys : Bytes) (acc : ℕ)
    → all is_digit xs ≡ true
    → d < 10
    → is_digit c ≡ false
    → digits_value acc (xs ++ (d + 48) ∷ c ∷ ys) ≡ digits_value acc (xs ++ c ∷ ys) * 10 + d
unfolding digits_value all
digits_value-append [] d c ys acc h l e = ground arith
digits_value-append (x ∷ xs) d c ys acc h l e =
    ground (arith, digits_value-append xs d c ys (acc * 10 + (x - 48)))

all-append-digit :
    (xs : Bytes) (d : ℕ)
    → all is_digit xs ≡ true
    → d < 10
    → all is_digit (xs ++ (d + 48) ∷ []) ≡ true
unfolding all
all-append-digit [] d h l = ground arith
all-append-digit (x ∷ xs) d h l = ground (arith, all-append-digit xs d)

pub digits-all : (fuel n : ℕ) → all is_digit (digits fuel n) ≡ true
unfolding digits all
digits-all zero n = refl
digits-all (suc fuel) n =
    if_cases (λ z. all is_digit z ≡ true) (ltb n 10) (λ e. ground arith)
      (λ e.
        all-append-digit (digits fuel (n / 10)) (n % 10) (digits-all fuel (n / 10)) (omega arith))

value-digits :
    (fuel n c : ℕ) (ys : Bytes)
    → n < fuel
    → is_digit c ≡ false
    → digits_value 0 (digits fuel n ++ c ∷ ys) ≡ n
unfolding digits all
value-digits zero n c ys l e = absurd (omega arith)
value-digits (suc fuel) n c ys l e =
    if_cases (λ z. digits_value 0 (z ++ c ∷ ys) ≡ n) (ltb n 10)
      (λ h.
        digits_value-append [] n c ys 0 refl (ground arith) e
        ∙ (unfold digits_value in ground arith))
      (λ h.
        ap (digits_value 0) (append_assoc (digits fuel (n / 10)) ((n % 10 + 48) ∷ []) (c ∷ ys))
        ∙ digits_value-append (digits fuel (n / 10)) (n % 10) c ys 0 (digits-all fuel (n / 10))
            (omega arith) e
        ∙ omega (arith, value-digits fuel (n / 10) c ys (ground arith) e))

-- A numeral that ends is read back.
pub value-decimal :
    (n c : ℕ) (ys : Bytes) → is_digit c ≡ false → digits_value 0 (decimal n ++ c ∷ ys) ≡ n
unfolding decimal
value-decimal n c ys e = value-digits (suc n) n c ys (omega arith) e

abbrev pub StartsDigit : Bytes → Type 0
StartsDigit [] = ⊥
StartsDigit (c ∷ cs) = is_digit c ≡ true

first_digit :
    (xs : Bytes) (d : ℕ) → all is_digit xs ≡ true → d < 10 → StartsDigit (xs ++ (d + 48) ∷ [])
unfolding all
first_digit [] d h l = ground arith
first_digit (x ∷ xs) d h l = ground (arith, h)

pub decimal-StartsDigit : (n : ℕ) → StartsDigit (decimal n)
unfolding decimal digits
decimal-StartsDigit n =
    if_cases StartsDigit (ltb n 10) (λ h. ground arith)
      (λ h. first_digit (digits n (n / 10)) (n % 10) (digits-all n (n / 10)) (omega arith))
