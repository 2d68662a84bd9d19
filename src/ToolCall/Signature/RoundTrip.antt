-- ===== src/ToolCall/Signature/RoundTrip.antt =====
-- Arguments that are written with quotes are read back.
use codex_local_qwen27b.Base.{
  ℕ, zero, suc, ◌+◌, ◌<◌, ◌≡◌, refl, ap, ◌∙◌, true, false, ◌||◌, List, [], ◌∷◌, ◌++◌, Bytes, arith,
  ◌==◌, all, length, length-append, is_empty, take-length-append, drop, drop_leading, drop_trailing,
}
use codex_local_qwen27b.Server.Http.Find.{has_no}
use codex_local_qwen27b.Server.Http.Fields.{find_separator, drop_next}
use codex_local_qwen27b.ToolCall.Braces.{
  Literal, as_is, behind_backslash, literal_text, length-literal_text, fits_literal,
}
use codex_local_qwen27b.ToolCall.Malformed.{Stops, drop_leading-append}
use codex_local_qwen27b.ToolCall.Signature.{
  string_value, Assignment, is_separator, is_blank, quoted_value, sig_value, assigned, value_step,
  key_step, sig_step, parsed, prepend, sig_loop, parse_function_sig_args,
}
use mathlib.Core.List.{map}

-- One argument, with the separators that stand before it: a key, and a string in quotes.
pub record Argument : Type 0 where
  pub separators : Bytes
  pub key : Bytes
  pub quote : ℕ
  pub body : List Literal

abbrev pub argument_text : Argument → Bytes → Bytes
argument_text a k = a.separators ++ (a.key ++ b'=' ∷ a.quote ∷ literal_text a.body (a.quote ∷ k))

abbrev pub arguments_text : List Argument → Bytes
arguments_text [] = []
arguments_text (a ∷ more) = argument_text a (arguments_text more)

abbrev pub literal_value : Literal → ℕ
literal_value (as_is c) = c
literal_value (behind_backslash c) = c

abbrev pub to_assignment : Argument → Assignment
to_assignment a = record { key = a.key; value = string_value (map literal_value a.body) }

-- A key is a text without `=` that neither starts with a separator nor ends with a space.
pub record IsArgument (a : Argument) : Type 0 where
  pub only_separators : all is_separator a.separators ≡ true
  pub has_key : is_empty a.key ≡ false
  pub key_starts : Stops is_separator a.key
  pub key_ends : drop_trailing is_blank a.key ≡ a.key
  pub no_equals : has_no b'=' a.key ≡ true
  pub is_quoted : (a.quote == b'"' || a.quote == b'\'') ≡ true
  pub body_fits : all (fits_literal a.quote) a.body ≡ true

abbrev pub AllArguments : List Argument → Type 0
AllArguments [] = Unit
AllArguments (a ∷ more) = IsArgument a × AllArguments more

quoted_value-literal :
    (ls : List Literal) (q : ℕ) (k : Bytes)
    → (q == b'\\') ≡ false
    → all (fits_literal q) ls ≡ true
    → quoted_value q false (literal_text ls (q ∷ k)) ≡ (map literal_value ls, k)
unfolding quoted_value all
quoted_value-literal [] q k e h = ground arith
quoted_value-literal (as_is c ∷ ls) q k e h =
    let no_quote : (c == q) ≡ false = ground (arith, h) in
    let no_backslash : (c == b'\\') ≡ false = ground (arith, h) in
    rw (quoted_value, no_quote, no_backslash, quoted_value-literal ls q k e (ground (arith, h)))
      refl
quoted_value-literal (behind_backslash c ∷ ls) q k e h =
    let no_quote : (b'\\' == q) ≡ false = ground (arith, e) in
    rw (quoted_value, no_quote, quoted_value-literal ls q k e (ground (arith, h))) refl

Stops-append :
    (xs : Bytes) (c : ℕ) (ys : Bytes)
    → is_empty xs ≡ false
    → Stops is_separator xs
    → Stops is_separator (xs ++ c ∷ ys)
Stops-append [] c ys e h = cc
Stops-append (x ∷ xs) c ys e h = h

sig_value-argument :
    (a : Argument) (k : Bytes)
    → IsArgument a
    → sig_value a.quote (literal_text a.body (a.quote ∷ k))
      ≡ (string_value (map literal_value a.body), k)
unfolding sig_value
sig_value-argument a k h =
    rw
      (
        sig_value,
        h.is_quoted,
        quoted_value-literal a.body a.quote k (ground (arith, h.is_quoted)) h.body_fits,
      )
      refl

value_step-argument :
    (a : Argument) (k : Bytes)
    → IsArgument a
    → value_step a.key (drop_leading is_blank (a.quote ∷ literal_text a.body (a.quote ∷ k)))
      ≡ assigned (to_assignment a) k
unfolding drop_leading value_step
value_step-argument a k h =
    let no_blank : is_blank a.quote ≡ false = ground (arith, h.is_quoted) in
    rw (no_blank, value_step, h.has_key, sig_value-argument a k h) refl

-- The key ends at the first `=`.
key_step_parts :
    (key behind : Bytes)
    → is_empty key ≡ false
    → has_no b'=' key ≡ true
    → drop_trailing is_blank key ≡ key
    → key_step (key ++ b'=' ∷ behind) ≡ value_step key (drop_leading is_blank behind)
unfolding key_step
key_step_parts [] behind e h t = cc
key_step_parts (c ∷ cs) behind e h t =
    rw (key_step, find_separator (c ∷ cs) behind b'=' h)
      (ap
          (λ z.
            value_step (drop_trailing is_blank z)
              (drop_leading is_blank (drop (length (c ∷ cs) + 1) (c ∷ cs ++ b'=' ∷ behind))))
          (take-length-append (c ∷ cs) (b'=' ∷ behind))
        ∙ ap
            (λ z.
              value_step z
                (drop_leading is_blank (drop (length (c ∷ cs) + 1) (c ∷ cs ++ b'=' ∷ behind))))
            t
        ∙ ap (λ z. value_step (c ∷ cs) (drop_leading is_blank z)) (drop_next (c ∷ cs) behind b'='))

key_step-argument :
    (a : Argument) (k : Bytes)
    → IsArgument a
    → key_step (a.key ++ b'=' ∷ a.quote ∷ literal_text a.body (a.quote ∷ k))
      ≡ assigned (to_assignment a) k
key_step-argument a k h =
    key_step_parts a.key (a.quote ∷ literal_text a.body (a.quote ∷ k)) h.has_key h.no_equals
      h.key_ends
    ∙ value_step-argument a k h

sig_step-argument :
    (a : Argument) (k : Bytes)
    → IsArgument a
    → sig_step (argument_text a k) ≡ assigned (to_assignment a) k
unfolding sig_step
sig_step-argument a k h =
    let behind = a.quote ∷ literal_text a.body (a.quote ∷ k) in
    ap key_step (
      drop_leading-append is_separator a.separators (a.key ++ b'=' ∷ behind) h.only_separators
        (Stops-append a.key b'=' behind h.has_key h.key_starts))
    ∙ key_step-argument a k h

argument-longer : (a : Argument) (k : Bytes) → length k < length (argument_text a k)
argument-longer a k = omega (
  arith,
  length-append a.separators (a.key ++ b'=' ∷ a.quote ∷ literal_text a.body (a.quote ∷ k)),
  length-append a.key (b'=' ∷ a.quote ∷ literal_text a.body (a.quote ∷ k)),
  length-literal_text a.body (a.quote ∷ k),
)

loop-arguments :
    (more : List Argument) (fuel : ℕ)
    → AllArguments more
    → length (arguments_text more) < fuel
    → sig_loop fuel (arguments_text more) ≡ parsed (map to_assignment more)
unfolding sig_loop
loop-arguments more zero h l = absurd (omega arith)
loop-arguments [] (suc fuel) h l = unfold sig_step key_step drop_leading in refl
loop-arguments (a ∷ more) (suc fuel) h l =
    rw (sig_loop, sig_step-argument a (arguments_text more) h.0)
      (ap (prepend (to_assignment a))
        (loop-arguments more fuel h.1 (omega (arith, argument-longer a (arguments_text more)))))

-- Arguments with string values are read back, each key with its value and in their order: the
-- backslashes go, and neither the separators nor the choice of quotes matter.
pub parse_function_sig_args_roundtrip :
    (more : List Argument)
    → AllArguments more
    → parse_function_sig_args (arguments_text more) ≡ parsed (map to_assignment more)
unfolding parse_function_sig_args
parse_function_sig_args_roundtrip more h =
    loop-arguments more (suc (length (arguments_text more))) h (omega arith)
