-- ===== src/ToolSyntax/Sound.antt =====
-- What find_tool_syntax_start finds, and that it misses no opener.
use mathlib.Core.List.{reverse}
use mathlib.Core.Option.{some-injective}
use mathlib.Core.Path.{subst}
use codex_local_qwen27b.Base.{
  &&-eq-true, if_cases, if_both, ℕ, zero, suc, ◌-◌, ◌≤◌, ◌<◌, ◌≡◌, refl, sym, ap, ◌∙◌, Bool, true,
  ◌&&◌, Option, none, some, [], ◌∷◌, arith, Bytes, ◌==◌, ltb, if◌then◌else◌, length, length-drop,
  take, drop, all, starts_with, count_while, Bool-cases, inl, inr,
}
use native.Mathlib.Decide.{ℕ_discrete}
use codex_local_qwen27b.Json.{JsonLibrary}
use codex_local_qwen27b.Sse.Content.{is_ident}
use codex_local_qwen27b.ToolSyntax.{
  arg_key_open, ident_start, arg_key_start, opener_at, syntax_at, or_else, find_syntax_from,
  find_tool_syntax_start,
}
use codex_local_qwen27b.ToolSyntax.Dead.{syntax_at_lem}

pub drop-suc :
    (i : ℕ) (text : Bytes) {c : ℕ} {cs : Bytes} → drop i text ≡ c ∷ cs → drop (suc i) text ≡ cs
drop-suc zero [] e = cc
drop-suc zero (x ∷ xs) e = cc
drop-suc (suc i) [] e = cc
drop-suc (suc i) (x ∷ xs) e = drop-suc i xs e

count_while-all :
    (t : ℕ → Bool) (fuel : ℕ) (r : Bytes) → all t (take (count_while t fuel r) r) ≡ true
unfolding all count_while
count_while-all t zero r = refl
count_while-all t (suc fuel) [] = refl
count_while-all t (suc fuel) (b ∷ r) = elim (Bool-cases (t b)) [
  | inl e ↦ rw (e, count_while) (rw (e, count_while-all t fuel r))
  | inr e ↦ rw (e, count_while)
]

count_while-le : (t : ℕ → Bool) (fuel : ℕ) (r : Bytes) → count_while t fuel r ≤ fuel
unfolding count_while
count_while-le t zero r = omega arith
count_while-le t (suc fuel) [] = omega arith
count_while-le t (suc fuel) (b ∷ r) = elim (Bool-cases (t b)) [
  | inl e ↦ rw (e, count_while) (omega (arith, count_while-le t fuel r))
  | inr e ↦ rw (e, count_while) (omega arith)
]

module _ (J : JsonLibrary) (text : Bytes) (tools : J.Json) where
  -- A tool call may start at `p`: an opener stands there, or a name that ends where `<arg_key>`
  -- stands. The bytes before `i` are listed from the last to the first.
  pub data IsStart (p : ℕ) : Type 0 where
    opener : opener_at J (drop p text) tools ≡ true → IsStart p
    named :
        (i : ℕ)
        → p < i
        → starts_with arg_key_open (drop i text) ≡ true
        → all is_ident (take (i - p) (reverse (take i text))) ≡ true
        → IsStart p

  Finds : Option ℕ → Type 0
  Finds o = (p : ℕ) → o ≡ some p → IsStart p

  Finds-some : (a : ℕ) → IsStart a → Finds (some a)
  unfolding Finds
  Finds-some a h p e = subst IsStart (some-injective _ _ e) h

  Finds-none : Finds none
  unfolding Finds
  Finds-none p e = cc

  Finds-or_else : (a b : Option ℕ) → Finds a → Finds b → Finds (or_else a b)
  unfolding Finds
  Finds-or_else none b h k = k
  Finds-or_else (some a) b h k = h

  arg_key_start-Finds : (i : ℕ) → Finds (arg_key_start text i (drop i text))
  unfolding arg_key_start ident_start
  arg_key_start-Finds i =
      if_cases Finds (starts_with arg_key_open (drop i text) && ltb (ident_start text i) i)
        (λ e. Finds-some (ident_start text i) (named i (ground arith) (&&-eq-true _ _ e).0 (run i)))
        (λ e. Finds-none)
    where
      run : (j : ℕ) → all is_ident (take (j - ident_start text j) (reverse (take j text))) ≡ true
      run j =
          let n = count_while is_ident j (reverse (take j text)) in
          let e : j - (j - n) ≡ n =
            omega (arith, count_while-le is_ident j (reverse (take j text))) in
          rw e (count_while-all is_ident j (reverse (take j text)))

  syntax_at-Finds : (i : ℕ) → Finds (syntax_at J text tools i (drop i text))
  syntax_at-Finds i = rw (syntax_at_lem J text tools i (drop i text)) (
      if_cases Finds (opener_at J (drop i text) tools) (λ e. Finds-some i (opener e))
        (λ e. arg_key_start-Finds i))

  from-Finds :
      (i : ℕ) (rest : Bytes) → drop i text ≡ rest → Finds (find_syntax_from J text tools i rest)
  unfolding find_syntax_from
  from-Finds i [] d = Finds-none
  from-Finds i (c ∷ cs) d =
      Finds-or_else _ _ (if_both Finds (c == b'<') (rw d at (syntax_at-Finds i)) Finds-none)
        (from-Finds (suc i) cs (drop-suc i text d))

  -- Where the search finds a start, an opener stands or a name that `<arg_key>` follows.
  pub find_tool_syntax_start-IsStart :
      (p : ℕ) → find_tool_syntax_start J text tools ≡ some p → IsStart p
  unfolding find_tool_syntax_start Finds
  find_tool_syntax_start-IsStart = from-Finds 0 text refl

  -- The first start that the search reports is at or before `i`.
  abbrev FoundBy : ℕ → Option ℕ → Type 0
  FoundBy i o = (p : ℕ) × (o ≡ some p) × (p ≤ i)

  abbrev Below : ℕ → Option ℕ → Type 0
  Below i o = (p : ℕ) → o ≡ some p → p ≤ i

  Below-some : (i a : ℕ) → a ≤ i → Below i (some a)
  Below-some i a h p e = omega (arith, some-injective _ _ e)

  Below-none : (i : ℕ) → Below i none
  Below-none i p e = cc

  syntax_at-Below : (j : ℕ) (rest : Bytes) → Below j (syntax_at J text tools j rest)
  unfolding arg_key_start ident_start
  syntax_at-Below j rest = rw (syntax_at_lem J text tools j rest) (
      if_cases (Below j) (opener_at J rest tools) (λ e. Below-some j j (omega arith))
        (λ e.
          if_cases (Below j) (starts_with arg_key_open rest && ltb (ident_start text j) j)
            (λ q. Below-some j (ident_start text j) (omega arith)) (λ q. Below-none j)))

  or_else-FoundBy : (i : ℕ) (a b : Option ℕ) → Below i a → FoundBy i b → FoundBy i (or_else a b)
  or_else-FoundBy i none b h k = k
  or_else-FoundBy i (some p) b h k = (p, refl, h p refl)

  or_else-FoundBy_left : (i : ℕ) (a b : Option ℕ) → FoundBy i a → FoundBy i (or_else a b)
  or_else-FoundBy_left i none b (p, e, h) = cc
  or_else-FoundBy_left i (some q) b (p, e, h) = (p, e, h)

  Below-le : (i j : ℕ) (o : Option ℕ) → j ≤ i → Below j o → Below i o
  Below-le i j o h b p e = omega (arith, b p e)

  module _ (i : ℕ) (cs : Bytes) (here : drop i text ≡ b'<' ∷ cs)
      (opens : opener_at J (b'<' ∷ cs) tools ≡ true) where
    found_here : (rest : Bytes) → rest ≡ b'<' ∷ cs → FoundBy i (syntax_at J text tools i rest)
    found_here rest e = rw (syntax_at_lem J text tools i rest, e, opens) (i, refl, omega arith)

    length_left : (j : ℕ) → drop j text ≡ [] → j ≤ i → ⊥
    length_left j d h =
        omega (arith, ap length here, ap length d, length-drop j text, length-drop i text)

    at_position :
        (c : ℕ) (ds : Bytes)
        → c ∷ ds ≡ b'<' ∷ cs
        → FoundBy i (if c == b'<' then syntax_at J text tools i (c ∷ ds) else none)
    at_position c ds e =
        if_cases (FoundBy i) (c == b'<') (λ q. found_here (c ∷ ds) e) (λ q. absurd (ground arith))

    from-FoundBy :
        (j : ℕ) (rest : Bytes)
        → j ≤ i
        → drop j text ≡ rest
        → FoundBy i (find_syntax_from J text tools j rest)
    unfolding find_syntax_from
    from-FoundBy j [] h d = absurd (length_left j d h)
    from-FoundBy j (c ∷ ds) h d = elim (ℕ_discrete j i) [
      | yes e ↦ or_else-FoundBy_left i _ _ (
          subst (λ z. FoundBy i (if c == b'<' then syntax_at J text tools z (c ∷ ds) else none))
            (sym e) (at_position c ds (sym d ∙ ap (λ z. drop z text) e ∙ here)))
      | no ne ↦
          or_else-FoundBy i _ _
            (Below-le i j _ h
              (if_both (Below j) (c == b'<') (syntax_at-Below j (c ∷ ds)) (Below-none j)))
            (from-FoundBy (suc j) ds (omega arith) (drop-suc j text d))
    ]

    -- An opener at `i` is not missed: the search reports a start at or before it.
    pub find_tool_syntax_start-le : FoundBy i (find_tool_syntax_start J text tools)
    unfolding find_tool_syntax_start
    find_tool_syntax_start-le = from-FoundBy 0 text (omega arith) refl
