-- ===== src/ToolSyntax/Holdback.antt =====
-- The holdback is long enough for every opener (tool_parser.cpp, 160-177).
use codex_local_qwen27b.Base.{
  ℕ, zero, suc, ◌+◌, ◌≤◌, max, ◌≡◌, refl, true, false, some, List, [], ◌∷◌, ◌++◌, arith, Bytes,
  codes, if◌then◌else◌, length, length-append, is_empty, get_elem?, all, all-get_elem?, leb,
  if_both,
}
use mathlib.Core.Option.{some-injective}
use codex_local_qwen27b.Json.{JsonLibrary}
use codex_local_qwen27b.ToolSyntax.{
  fixed_openers, declared_tool_name, max_name_holdback, tool_syntax_holdback,
}

fits_base : all (λ o. leb (length o) 22) fixed_openers ≡ true
unfolding all
fits_base = refl

longest_fixed : (o : Bytes) (n : ℕ) → get_elem? fixed_openers n ≡ some o → length o ≤ 22
longest_fixed o n e =
    let fit = all-get_elem? (λ b. leb (length b) 22) fixed_openers n o fits_base e in ground arith

module _ (J : JsonLibrary) where
  le-max_name_holdback : (h : ℕ) (tools : List J.Json) → h ≤ max_name_holdback J h tools
  unfolding max_name_holdback
  le-max_name_holdback h [] = omega arith
  le-max_name_holdback h (t ∷ ts) =
      if_both (λ z. h ≤ max_name_holdback J z ts) (is_empty (declared_tool_name J t))
        (le-max_name_holdback h ts)
        (omega (arith, le-max_name_holdback (max h (length (declared_tool_name J t) + 1)) ts))

  name-le-max_name_holdback :
      (h : ℕ) (tools : List J.Json) (n : ℕ) (t : J.Json)
      → get_elem? tools n ≡ some t
      → is_empty (declared_tool_name J t) ≡ false
      → length (declared_tool_name J t) + 1 ≤ max_name_holdback J h tools
  unfolding max_name_holdback
  name-le-max_name_holdback h [] n t e q = cc
  name-le-max_name_holdback h (x ∷ xs) (suc n) t e q =
      name-le-max_name_holdback
        (if is_empty (declared_tool_name J x)
          then h
          else max h (length (declared_tool_name J x) + 1))
        xs n t e q
  name-le-max_name_holdback h (x ∷ xs) zero t e q =
      rw (some-injective _ _ e, q)
        (omega (arith, le-max_name_holdback (max h (length (declared_tool_name J t) + 1)) xs))

  base_holdback : (tools : J.Json) → 21 ≤ tool_syntax_holdback J tools
  unfolding tool_syntax_holdback
  base_holdback tools =
      if_both (λ z. 21 ≤ z) (J.is_array tools) (le-max_name_holdback 21 (J.elements tools))
        (omega arith)

  -- The text that is held back is never shorter than a built-in opener without its last byte.
  pub fixed-le-holdback :
      (tools : J.Json) (n : ℕ) (o : Bytes)
      → get_elem? fixed_openers n ≡ some o
      → length o ≤ tool_syntax_holdback J tools + 1
  fixed-le-holdback tools n o e = omega (arith, longest_fixed o n e, base_holdback tools)

  -- The text that is held back is never shorter than `<name>` without its last byte, for a tool
  -- that is declared with a valid name.
  pub declared-le-holdback :
      (tools : J.Json) (n : ℕ) (t : J.Json)
      → J.is_array tools ≡ true
      → get_elem? (J.elements tools) n ≡ some t
      → is_empty (declared_tool_name J t) ≡ false
      → length (b'<' ∷ (declared_tool_name J t ++ codes ">")) ≤ tool_syntax_holdback J tools + 1
  unfolding tool_syntax_holdback
  declared-le-holdback tools n t a e q = rw a (
      omega (
        arith,
        length-append (declared_tool_name J t) (codes ">"),
        name-le-max_name_holdback 21 (J.elements tools) n t e q,
      ))
