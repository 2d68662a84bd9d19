-- ===== src/Tests/Tools.antt =====
-- The tool declarations (server/src/server/tool_parser.cpp, 56-220) at concrete inputs.
use codex_local_qwen27b.Base.{
  ◌≡◌, ◌≢◌, refl, Bool, true, false, some, List, [], ◌∷◌, Bytes, codes, sym, ◌∙◌, is_empty,
  bytes_eq, if◌then◌else◌,
}
use codex_local_qwen27b.Tests.Opened.{tools_opened}
use codex_local_qwen27b.Json.{JsonLibrary}
use codex_local_qwen27b.ToolSyntax.{
  declared_tool_name, arg_key_start, opener_at, syntax_at, find_tool_syntax_start,
}
use codex_local_qwen27b.ToolSyntax.Dead.{syntax_at_lem}
use codex_local_qwen27b.ToolSyntax.Sound.{IsStart, find_tool_syntax_start-IsStart}
use codex_local_qwen27b.ToolTable.{find_tool_namespace}

-- The values of [{"name": "run"}, {"type": "namespace", "name": "math", "tools": [{"name": "add"}]}].
data Sample : Type 0 where
  declarations run_tool math_space math_members add_tool : Sample

abbrev sample_is_array : Sample → Bool
sample_is_array declarations = true
sample_is_array math_members = true
sample_is_array _ = false

abbrev sample_elements : Sample → List Sample
sample_elements declarations = run_tool ∷ math_space ∷ []
sample_elements math_members = add_tool ∷ []
sample_elements _ = []

abbrev sample_is_object : Sample → Bool
sample_is_object run_tool = true
sample_is_object math_space = true
sample_is_object add_tool = true
sample_is_object _ = false

abbrev sample_contains : Sample → Bytes → Bool
sample_contains math_space key = bytes_eq key (codes "tools")
sample_contains _ key = false

abbrev sample_name : Sample → Bytes
sample_name run_tool = codes "run"
sample_name math_space = codes "math"
sample_name add_tool = codes "add"
sample_name _ = []

abbrev sample_type : Sample → Bytes
sample_type math_space = codes "namespace"
sample_type _ = []

abbrev sample_value : Sample → Bytes → Bytes
sample_value s key =
    if bytes_eq key (codes "name")
    then sample_name s
    else if bytes_eq key (codes "type")
    then sample_type s
    else []

abbrev sample : JsonLibrary
sample = record {
  Json = Sample;
  is_array = sample_is_array;
  elements = sample_elements;
  is_object = sample_is_object;
  contains = sample_contains;
  at = λ s key. math_members;
  value = sample_value;
}

found : find_tool_syntax_start sample (codes "ab <run>") declarations ≡ some 3
unfolding tools_opened
found = refl

declared_open : opener_at sample (codes "<run>") declarations ≡ true
unfolding tools_opened
declared_open = refl

find_IsStart_example : IsStart sample (codes "ab <run>") declarations 3
find_IsStart_example = find_tool_syntax_start-IsStart sample (codes "ab <run>") declarations 3 found

run_is_named : declared_tool_name sample run_tool ≡ codes "run"
unfolding tools_opened
run_is_named = refl

declared_is_named : is_empty (declared_tool_name sample run_tool) ≡ false
unfolding tools_opened
declared_is_named = refl

no_line_start_example : syntax_at sample (codes "run\n<x>") declarations 4 (codes "<x>") ≡ (
    if opener_at sample (codes "<x>") declarations
    then some 4
    else arg_key_start (codes "run\n<x>") 4 (codes "<x>"))
no_line_start_example = syntax_at_lem sample (codes "run\n<x>") declarations 4 (codes "<x>")

add_in_math : find_tool_namespace sample declarations (codes "add") ≡ codes "math"
unfolding tools_opened
add_in_math = refl

cons_no_nil : codes "math" ≡ [] → ⊥
cons_no_nil e = cc

has_namespace : find_tool_namespace sample declarations (codes "add") ≢ []
has_namespace e = absurd (cons_no_nil (sym add_in_math ∙ e))
