-- ===== src/ToolSyntax/Dead.antt =====
-- The test of a line start (tool_parser.cpp, 141-154) never finds a name.
use mathlib.Core.List.{reverse, reverse-append}
use codex_local_qwen27b.Base.{
  ℕ, zero, suc, ◌≡◌, refl, ap, Bool, true, false, ◌&&◌, Option, none, some, [], ◌∷◌, ◌++◌, arith,
  Bytes, ◌==◌, ltb, if◌then◌else◌, if_cases, take, get_elem?, count_while,
}
use codex_local_qwen27b.Json.{JsonLibrary}
use codex_local_qwen27b.Sse.Content.{is_ident}
use codex_local_qwen27b.ToolSyntax.{
  ident_start, arg_key_start, at_line_start, line_start, opener_at, syntax_at, or_else,
}

-- The text up to position i + 1 ends with the byte at i.
take-suc :
    (text : Bytes) (i c : ℕ) → get_elem? text i ≡ some c → take (suc i) text ≡ take i text ++ c ∷ []
take-suc [] i c e = cc
take-suc (x ∷ xs) zero c e = ground arith
take-suc (x ∷ xs) (suc i) c e = ap (◌∷◌ x) (take-suc xs i c e)

newline_no_ident : (c : ℕ) → (c == b'\n') ≡ true → is_ident c ≡ false
unfolding is_ident
newline_no_ident c e = ground arith

count_stops : (fuel c : ℕ) (r : Bytes) → is_ident c ≡ false → count_while is_ident fuel (c ∷ r) ≡ 0
unfolding count_while
count_stops zero c r e = refl
count_stops (suc fuel) c r e = rw (e, count_while)

newline_of :
    (o : Option ℕ)
    → elim o as (λ q. Bool) [ none ↦ false | some c ↦ c == b'\n' ] ≡ true
    → (c : ℕ) × (o ≡ some c) × ((c == b'\n') ≡ true)
newline_of none e = cc
newline_of (some c) e = (c, refl, e)

-- Behind a newline, or at the start, no name byte stands.
no_run : (text : Bytes) (i : ℕ) → at_line_start text i ≡ true → ident_start text i ≡ i
unfolding at_line_start ident_start
no_run text zero e = omega arith
no_run text (suc i) e =
    let (c, p, q) = newline_of (get_elem? text i) e in
    rw (take-suc text i c p, reverse-append (take i text) (c ∷ []))
      (omega (arith, count_stops (suc i) c (reverse (take i text)) (newline_no_ident c q)))

-- The branch for a name at the start of a line finds nothing, whatever the text and the position.
pub line_start-none : (text : Bytes) (i : ℕ) → line_start text i ≡ none
unfolding line_start
line_start-none text i =
    if_cases (λ z. z ≡ none) (at_line_start text i && ltb (ident_start text i) i)
      (λ e. absurd (ground (arith, no_run text i))) (λ e. refl)

or_else-none : (o : Option ℕ) → or_else o none ≡ o
or_else-none none = refl
or_else-none (some i) = refl

-- The test of a line start decides nothing: at a `<` the search reports the position if an opener
-- stands there, and otherwise what the test for a name before `<arg_key>` reports.
pub syntax_at_lem :
    (J : JsonLibrary) (text : Bytes) (tools : J.Json) (i : ℕ) (rest : Bytes)
    → syntax_at J text tools i rest
      ≡ (if opener_at J rest tools then some i else arg_key_start text i rest)
unfolding syntax_at
syntax_at_lem J text tools i rest = simp (line_start-none, or_else-none)
