-- ===== src/Server/Http/Lines.antt =====
-- Header lines: where a block of them ends, and where a field stands in it.
use codex_local_qwen27b.Base.{
  ℕ, ◌+◌, ◌≡◌, refl, ap, ◌∙◌, true, false, some, List, [], ◌∷◌, ◌++◌, append_assoc, Bytes, arith,
  ◌==◌, all, is_empty, length, find, starts_with, suc?, length-append,
}
use codex_local_qwen27b.Server.Http.{crlf, crlf_blank}
use codex_local_qwen27b.Server.Http.Find.{shift, has_no, find-append}

-- Lines, each ended by CRLF, and then `rest`.
abbrev pub lines_then : List Bytes → Bytes → Bytes
lines_then [] rest = rest
lines_then (l ∷ ls) rest = l ++ b'\r' ∷ b'\n' ∷ lines_then ls rest

-- A line is not empty and has neither CR nor LF.
pub record IsLine (l : Bytes) : Type 0 where
  pub not_empty : is_empty l ≡ false
  pub no_cr : has_no b'\r' l ≡ true
  pub no_lf : has_no b'\n' l ≡ true

abbrev pub AllLines : List Bytes → Type 0
AllLines [] = Unit
AllLines (l ∷ ls) = IsLine l × AllLines ls

pub lines_then-append :
    (ls : List Bytes) (xs ys : Bytes) → lines_then ls xs ++ ys ≡ lines_then ls (xs ++ ys)
lines_then-append [] xs ys = refl
lines_then-append (l ∷ ls) xs ys =
    append_assoc l (b'\r' ∷ b'\n' ∷ lines_then ls xs) ys
    ∙ ap (λ z. l ++ b'\r' ∷ b'\n' ∷ z) (lines_then-append ls xs ys)

pub lines_then_lines :
    (ls ms : List Bytes) (rest : Bytes)
    → lines_then (ls ++ ms) rest ≡ lines_then ls (lines_then ms rest)
lines_then_lines [] ms rest = refl
lines_then_lines (l ∷ ls) ms rest = ap (λ z. l ++ b'\r' ∷ b'\n' ∷ z) (lines_then_lines ls ms rest)

pub AllLines-append : (ls ms : List Bytes) → AllLines ls → AllLines ms → AllLines (ls ++ ms)
AllLines-append [] ms h k = k
AllLines-append (l ∷ ls) ms h k = (h.0, AllLines-append ls ms h.1 k)

-- The text does not start with CR.
abbrev NoCr : Bytes → Type 0
NoCr [] = Unit
NoCr (c ∷ cs) = (b'\r' == c) ≡ false

lines_NoCr : (m : Bytes) (rest : Bytes) → IsLine m → NoCr (m ++ b'\r' ∷ rest)
unfolding all
lines_NoCr [] rest h = absurd (ground (arith, h.not_empty))
lines_NoCr (c ∷ cs) rest h = ground (arith, h.no_cr)

-- Between two lines no blank line starts.
no_blank_at :
    (t : Bytes) → NoCr t → find (b'\r' ∷ b'\n' ∷ t) crlf_blank ≡ suc? (suc? (find t crlf_blank))
unfolding find starts_with
no_blank_at [] h = refl
no_blank_at (c ∷ cs) h = ground arith

-- The blank line behind the last header.
pub find-crlf_blank :
    (l : Bytes) (ls : List Bytes) (rest : Bytes)
    → AllLines (l ∷ ls)
    → (i : ℕ) × (find (lines_then (l ∷ ls) (b'\r' ∷ b'\n' ∷ rest)) crlf_blank ≡ some i)
      × (i + 4 ≡ length (lines_then (l ∷ ls) crlf))
unfolding find starts_with
find-crlf_blank l [] rest h = (
  length l,
  find-append l b'\r' (b'\n' ∷ b'\r' ∷ b'\n' ∷ []) (b'\r' ∷ b'\n' ∷ b'\r' ∷ b'\n' ∷ rest) h.0.no_cr
      ∙ ap some (omega arith),
  omega (arith, length-append l (b'\r' ∷ b'\n' ∷ b'\r' ∷ b'\n' ∷ [])),
)
find-crlf_blank l (m ∷ ms) rest h =
    let (i, e, n) = find-crlf_blank m ms rest h.1 in
    (
      length l + (2 + i),
      find-append l b'\r' (b'\n' ∷ b'\r' ∷ b'\n' ∷ []) _ h.0.no_cr
          ∙ ap (shift (length l)) (
              no_blank_at _ (lines_NoCr m _ h.1.0)
              ∙ ap (λ o. suc? (suc? o)) e
              ∙ ap some (omega arith)),
      omega (arith, n, length-append l (b'\r' ∷ b'\n' ∷ lines_then (m ∷ ms) crlf)),
    )
