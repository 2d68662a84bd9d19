-- ===== src/Tests/Schema.antt =====
-- Arguments against a schema (server/src/server/tool_parser.cpp) at a small set of JSON values: one
-- tool `open` whose schema declares and requires the string `path`.
use codex_local_qwen27b.Base.{
  ◌≡◌, refl, Bool, true, false, ◌||◌, none, List, [], ◌∷◌, Bytes, bytes_eq, codes, if◌then◌else◌,
  all, any,
}
use codex_local_qwen27b.Json.{JsonLibrary}
use codex_local_qwen27b.ToolCall.Schema.{
  JsonValues, value_matches_type, value_matches_type_spec, properties_of, required_of,
  additional_forbidden, is_declared, member_fits, no_properties, object_matches_tool_schema,
  single_tool_function, tool_input_schema, call_of, parse_single_tool_arg_object,
}

data Value : Type 0 where
  tool_list : Value
  open_tool : Value
  open_schema : Value
  open_properties : Value
  path_property : Value
  required_list : Value
  text_of : (s : Bytes) → Value
  call_object : Value
  bad_object : Value
  number : Value

abbrev has : Value → Bytes → Bool
has open_tool k = bytes_eq k (codes "name") || bytes_eq k (codes "parameters")
has open_schema k = bytes_eq k (codes "properties") || bytes_eq k (codes "required")
has open_properties k = bytes_eq k (codes "path")
has path_property k = bytes_eq k (codes "type")
has call_object k = bytes_eq k (codes "path")
has bad_object k = bytes_eq k (codes "path")
has _ k = false

abbrev member : Value → Bytes → Value
member open_tool k = if bytes_eq k (codes "name") then text_of (codes "open") else open_schema
member open_schema k = if bytes_eq k (codes "properties") then open_properties else required_list
member open_properties k = path_property
member path_property k = text_of (codes "string")
member call_object k = text_of (codes "a.txt")
member _ k = number

abbrev object : Value → Bool
object tool_list = false
object required_list = false
object (text_of s) = false
object number = false
object _ = true

abbrev items : Value → List Value
items tool_list = open_tool ∷ []
items required_list = text_of (codes "path") ∷ []
items _ = []

abbrev array : Value → Bool
array tool_list = true
array required_list = true
array _ = false

abbrev pairs : Value → List (Bytes × Value)
pairs call_object = (codes "path", text_of (codes "a.txt")) ∷ []
pairs bad_object = (codes "path", number) ∷ []
pairs open_properties = (codes "path", path_property) ∷ []
pairs _ = []

abbrev is_text : Value → Bool
is_text (text_of s) = true
is_text _ = false

abbrev text_in : Value → Bytes
text_in (text_of s) = s
text_in _ = []

abbrev is_num : Value → Bool
is_num number = true
is_num _ = false

abbrev values : JsonLibrary
values = record {
  Json = Value;
  is_array = array;
  elements = items;
  is_object = object;
  contains = has;
  at = member;
  value = λ v k. [];
}

abbrev readers : JsonValues values
readers = record {
  is_string = is_text;
  get_string = text_in;
  is_number_integer = is_num;
  is_number = is_num;
  is_boolean = λ v. false;
  get_bool = λ v. false;
  is_null = λ v. false;
  members = pairs;
  empty_object = number;
  parse = λ s. none;
  dump = λ v. [];
}

-- A path that is no string is refused.
refuses : parse_single_tool_arg_object values readers bad_object tool_list ≡ none
unfolding value_matches_type value_matches_type_spec properties_of required_of additional_forbidden
    is_declared member_fits no_properties object_matches_tool_schema single_tool_function
    tool_input_schema call_of parse_single_tool_arg_object all any bytes_eq
refuses = refl
