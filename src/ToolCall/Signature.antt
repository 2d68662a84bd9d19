-- ===== src/ToolCall/Signature.antt =====
-- The arguments of a function signature, `<function=name(k="v", k2=123)>` (parse_function_sig_args,
-- server/src/server/tool_parser.cpp, 1046-1113). The result lists the assignments to `out_args` in
-- their order; a value without quotes stays the text that json::parse is tried on.
pub mod RoundTrip
pub mod Ends
use codex_local_qwen27b.Base.{
  ℕ, zero, suc, ◌+◌, ◌-◌, Bool, true, false, not, ◌&&◌, ◌||◌, Option, none, some, List, [], ◌∷◌,
  ◌++◌, Bytes, codes, ◌==◌, if◌then◌else◌, length, is_empty, take, drop, find, is_ws, drop_leading,
  drop_trailing,
}

pub data SigValue : Type 0 where
  string_value : (s : Bytes) → SigValue
  raw_value : (s : Bytes) → SigValue

-- out_args[key] = value
pub record Assignment : Type 0 where
  pub key : Bytes
  pub value : SigValue

-- 1053-1055
abbrev pub is_separator : ℕ → Bool
is_separator c = is_ws c || c == b','

abbrev pub is_blank : ℕ → Bool
is_blank c = c == b' '

-- 1072-1084: the value behind its opening quote, and what stands behind the closing one. With
-- `escaped` the byte before was a backslash; one that ends the text stands for itself.
unfoldable pub quoted_value : ℕ → Bool → Bytes → Bytes × Bytes
quoted_value q false [] = ([], [])
quoted_value q true [] = (b'\\' ∷ [], [])
quoted_value q true (c ∷ cs) = let (v, rest) = quoted_value q false cs in (c ∷ v, rest)
quoted_value q false (c ∷ cs) = elim (c == q) [
  | true ↦ ([], cs)
  | false ↦ elim (c == b'\\') [
    | true ↦ quoted_value q true cs
    | false ↦ let (v, rest) = quoted_value q false cs in (c ∷ v, rest)
  ]
]

-- 1092-1097: the depth behind a byte of a value without quotes; `none` ends the value.
unfoldable pub raw_depth : ℕ → ℕ → Option ℕ
raw_depth c depth =
    if c == b'(' || c == b'[' || c == b'{'
    then some (suc depth)
    else if c == b')' || c == b']' || c == b'}'
    then (if depth == 0 then none else some (depth - 1))
    else if c == b',' && depth == 0
    then none
    else some depth

-- 1088-1100
unfoldable pub raw_split : ℕ → Bytes → Bytes × Bytes
unfolding raw_depth
raw_split depth [] = ([], [])
raw_split depth (c ∷ cs) = elim (raw_depth c depth) [
  | none ↦ ([], c ∷ cs)
  | some d ↦ let (v, rest) = raw_split d cs in (c ∷ v, rest)
]

-- 1071-1110: a value, from its first byte on.
unfoldable pub sig_value : ℕ → Bytes → SigValue × Bytes
unfolding quoted_value raw_split drop_trailing
sig_value c cs =
    if c == b'"' || c == b'\''
    then (string_value (quoted_value c false cs).0, (quoted_value c false cs).1)
    else (raw_value (drop_trailing is_blank (raw_split 0 (c ∷ cs)).0), (raw_split 0 (c ∷ cs)).1)

-- One pass of the loop: no key is left, the text is malformed, or an assignment and the rest.
pub data SigStep : Type 0 where
  ended : SigStep
  malformed : SigStep
  assigned : (a : Assignment) (rest : Bytes) → SigStep

-- 1067-1110: behind the `=`, with the key.
unfoldable pub value_step : Bytes → Bytes → SigStep
unfolding sig_value
value_step key [] = malformed
value_step key (c ∷ cs) =
    if is_empty key
    then malformed
    else assigned (record { key = key; value = (sig_value c cs).0 }) (sig_value c cs).1

-- 1059-1110: from the key on.
unfoldable pub key_step : Bytes → SigStep
unfolding value_step drop_trailing drop_leading
key_step [] = ended
key_step (c ∷ cs) = elim (find (c ∷ cs) (codes "=")) [
  | none ↦ malformed
  | some eq ↦
      value_step (drop_trailing is_blank (take eq (c ∷ cs)))
        (drop_leading is_blank (drop (eq + 1) (c ∷ cs)))
]

-- 1053-1110
unfoldable pub sig_step : Bytes → SigStep
unfolding key_step drop_leading
sig_step text = key_step (drop_leading is_separator text)

-- The whole loop, on fuel; `exhausted` is no result of the code.
pub data SigResult : Type 0 where
  parsed : (assignments : List Assignment) → SigResult
  rejected : SigResult
  exhausted : SigResult

abbrev pub prepend : Assignment → SigResult → SigResult
prepend a (parsed later) = parsed (a ∷ later)
prepend a rejected = rejected
prepend a exhausted = exhausted

unfoldable pub sig_loop : ℕ → Bytes → SigResult
unfolding sig_step
sig_loop zero text = exhausted
sig_loop (suc fuel) text = elim (sig_step text) [
  | ended ↦ parsed []
  | malformed ↦ rejected
  | assigned a rest ↦ prepend a (sig_loop fuel rest)
]

-- Each pass takes one byte at least.
unfoldable pub parse_function_sig_args : Bytes → SigResult
unfolding sig_loop
parse_function_sig_args arg_text = sig_loop (suc (length arg_text)) arg_text
