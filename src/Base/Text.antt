-- ===== src/Base/Text.antt =====
-- `std::string` as a list of bytes: the searches and cuts that the sources make with it.
use Prim.Native.Char.{code}
use Prim.Native.Nat.{ℕ, zero, suc}
use Prim.Native.String.{String}
use mathlib.Core.Bool.{Bool, true, false, not, ◌&&◌, ◌||◌}
use mathlib.Core.List.{List, [], ◌∷◌}
use mathlib.Core.Option.{Option, none, some}
use codex_local_qwen27b.Base.Tests.{◌==◌, if◌then◌else◌}

abbrev pub Bytes : Type 0
Bytes = List ℕ

-- The bytes of an ASCII literal.
abbrev pub codes : String → Bytes
codes String.[] = []
codes (String.◌∷◌ c s) = code c ∷ codes s

-- a == b
unfoldable pub bytes_eq : Bytes → Bytes → Bool
bytes_eq [] [] = true
bytes_eq [] (d ∷ ds) = false
bytes_eq (c ∷ cs) [] = false
bytes_eq (c ∷ cs) (d ∷ ds) = c == d && bytes_eq cs ds

-- text.compare(0, p.size(), p) == 0
unfoldable pub starts_with : Bytes → Bytes → Bool
starts_with [] text = true
starts_with (c ∷ cs) [] = false
starts_with (c ∷ cs) (d ∷ ds) = c == d && starts_with cs ds

abbrev pub suc? : Option ℕ → Option ℕ
suc? none = none
suc? (some i) = some (suc i)

-- text.find(p): the first position where `p` stands; `none` is `npos`.
unfoldable pub find : Bytes → Bytes → Option ℕ
find [] p = if starts_with p [] then some 0 else none
find (c ∷ cs) p = if starts_with p (c ∷ cs) then some 0 else suc? (find cs p)

-- text.find_first_of and find_first_not_of, for the set of bytes that pass `t`.
unfoldable pub find_first : (ℕ → Bool) → Bytes → Option ℕ
find_first t [] = none
find_first t (c ∷ cs) = if t c then some 0 else suc? (find_first t cs)

-- " \t\r\n"
abbrev pub is_ws : ℕ → Bool
is_ws c = c == b' ' || c == b'\t' || c == b'\r' || c == b'\n'

abbrev pub not_ws : ℕ → Bool
not_ws c = not (is_ws c)

-- The bytes without the trailing run that passes `t`.
unfoldable pub drop_trailing : (ℕ → Bool) → Bytes → Bytes
drop_trailing t [] = []
drop_trailing t (c ∷ cs) = elim (drop_trailing t cs) [
  | [] ↦ if t c then [] else c ∷ []
  | d ∷ ds ↦ c ∷ d ∷ ds
]

-- The bytes from the first that fails `t`.
unfoldable pub drop_leading : (ℕ → Bool) → Bytes → Bytes
drop_leading t [] = []
drop_leading t (c ∷ cs) = let rest = drop_leading t cs in if t c then rest else c ∷ cs

-- How many bytes pass `t`, from the front, `fuel` at most.
unfoldable pub count_while : (ℕ → Bool) → ℕ → Bytes → ℕ
count_while t zero r = 0
count_while t (suc fuel) [] = 0
count_while t (suc fuel) (b ∷ r) = elim (t b) [ true ↦ suc (count_while t fuel r) | false ↦ 0 ]
