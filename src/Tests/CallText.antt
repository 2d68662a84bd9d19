-- ===== src/Tests/CallText.antt =====
-- The text of tool calls (server/src/server/tool_parser.cpp) at concrete inputs.
use codex_local_qwen27b.Base.{
  ◌+◌, ◌≡◌, refl, true, false, some, List, [], ◌∷◌, ◌++◌, codes, all, any, arith, find, starts_with,
  drop_leading, drop_trailing, length,
}
use codex_local_qwen27b.ToolCall.{
  overlaps, include_following_tool_call_close, outside_step, brace_step, braces_end,
  balanced_braces_end, after_quote, after_key, has_key, looks_like_malformed_json_object,
}
use codex_local_qwen27b.ToolCall.Braces.{
  as_is, behind_backslash, Items, done, byte, quoted, brackets, items_text,
  balanced_braces_end-items,
}
use codex_local_qwen27b.ToolCall.Signature.{
  raw_value, parsed, parse_function_sig_args, sig_loop, sig_step, key_step, value_step, sig_value,
  quoted_value, raw_split, raw_depth,
}
use codex_local_qwen27b.ToolCall.Signature.RoundTrip.{
  Argument, arguments_text, to_assignment, parse_function_sig_args_roundtrip,
}
use codex_local_qwen27b.ToolCall.{Span}
use codex_local_qwen27b.ToolCall.Cleaned.{
  cleaned_text, clean_from, trim_text, uncovered, cleaned_text-uncovered,
}
use mathlib.Core.List.{map}

-- {"}": [1]}
abbrev inner : Items
inner = quoted b'"' (as_is b'}' ∷ []) (byte b':' (brackets (byte b'1' done) done))

braces_example :
    balanced_braces_end (codes "x " ++ b'{' ∷ items_text inner (b'}' ∷ codes " y")) 2
    ≡ some (2 + length (items_text inner []) + 2)
unfolding all
braces_example = balanced_braces_end-items (codes "x ") inner (codes " y") refl

-- Braces around prose are no object.
prose : looks_like_malformed_json_object (codes "{see above}") ≡ false
unfolding outside_step brace_step braces_end balanced_braces_end after_quote after_key has_key
    looks_like_malformed_json_object drop_leading
prose = refl

-- a="x\"y", b = 'z', written with either quote
abbrev two_arguments : List Argument
two_arguments =
    record {
      separators = [];
      key = codes "a";
      quote = b'"';
      body = as_is b'x' ∷ behind_backslash b'"' ∷ [];
    }
    ∷ record { separators = codes ", "; key = codes "b"; quote = b'\''; body = as_is b'z' ∷ [] }
    ∷ []

signature_example :
    parse_function_sig_args (arguments_text two_arguments)
    ≡ parsed (map to_assignment two_arguments)
unfolding all drop_trailing
signature_example = parse_function_sig_args_roundtrip two_arguments (
  record {
    only_separators = refl;
    has_key = refl;
    key_starts = refl;
    key_ends = refl;
    no_equals = refl;
    is_quoted = refl;
    body_fits = refl;
  },
  (
    record {
      only_separators = refl;
      has_key = refl;
      key_starts = refl;
      key_ends = refl;
      no_equals = refl;
      is_quoted = refl;
      body_fits = refl;
    },
    tt,
  ),
)

signature_raw :
    parse_function_sig_args (codes "k=[1, 2] , s=x")
    ≡ parsed (
        record { key = codes "k"; value = raw_value (codes "[1, 2]") }
        ∷ record { key = codes "s"; value = raw_value (codes "x") }
        ∷ [])
unfolding parse_function_sig_args sig_loop sig_step key_step value_step sig_value quoted_value
    raw_split raw_depth drop_leading drop_trailing find starts_with
signature_raw = refl

close_taken : include_following_tool_call_close (codes "x \n</tool_call> y") 1 [] ≡ 15
unfolding include_following_tool_call_close drop_leading starts_with
close_taken = refl

span_overlaps : overlaps (record { start = 2; end = 5 } ∷ []) 4 ≡ true
unfolding overlaps any
span_overlaps = refl

-- One call in the middle of a text, and the sort of a list with one element.
abbrev one_removal : List Span
one_removal = record { start = 3; end = 6 } ∷ []

cleaned_example :
    cleaned_text (λ spans. spans) one_removal (codes " ab<x>cd ")
    ≡ trim_text (uncovered one_removal 0 (codes " ab<x>cd "))
cleaned_example =
    cleaned_text-uncovered (λ spans. spans) one_removal (codes " ab<x>cd ") refl
      (omega arith, omega arith, tt)

cleaned : cleaned_text (λ spans. spans) one_removal (codes " ab<x>cd ") ≡ codes "abcd"
unfolding cleaned_text clean_from trim_text drop_leading drop_trailing
cleaned = refl
