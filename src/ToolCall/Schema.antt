-- ===== src/ToolCall/Schema.antt =====
-- Arguments against the schema of a tool (server/src/server/tool_parser.cpp, 859-886 and 942-1040).
pub mod Meets
pub mod Obeys
use codex_local_qwen27b.Base.{
  ℕ, Bool, true, false, not, ◌&&◌, ◌||◌, Option, none, some, is_some, List, [], ◌∷◌, Bytes,
  bytes_eq, codes, if◌then◌else◌, any, all, is_empty, is_ws, drop_leading, drop_trailing,
}
use codex_local_qwen27b.Json.{JsonLibrary}
use codex_local_qwen27b.ToolCall.{looks_like_malformed_json_object}

-- What the sources read of a value besides.
pub record JsonValues (J : JsonLibrary) : Type 1 where
  pub is_string : J.Json → Bool
  pub get_string : J.Json → Bytes
  pub is_number_integer : J.Json → Bool
  pub is_number : J.Json → Bool
  pub is_boolean : J.Json → Bool
  pub get_bool : J.Json → Bool
  pub is_null : J.Json → Bool
  -- The members of an object, in the order of its iterator.
  pub members : J.Json → List (Bytes × J.Json)
  pub empty_object : J.Json
  -- json::parse(text, nullptr, false); `none` is a discarded value.
  pub parse : Bytes → Option J.Json
  pub dump : J.Json → Bytes

module _ (J : JsonLibrary) (V : JsonValues J) where
  -- 960-969
  unfoldable pub value_matches_type : J.Json → Bytes → Bool
  value_matches_type value type =
      if bytes_eq type (codes "string") || bytes_eq type (codes "str")
      then V.is_string value
      else if bytes_eq type (codes "integer") || bytes_eq type (codes "int")
      then V.is_number_integer value
      else if bytes_eq type (codes "number") || bytes_eq type (codes "float")
      then V.is_number value
      else if bytes_eq type (codes "boolean") || bytes_eq type (codes "bool")
      then V.is_boolean value
      else if bytes_eq type (codes "object")
      then J.is_object value
      else if bytes_eq type (codes "array")
      then J.is_array value
      else if bytes_eq type (codes "null")
      then V.is_null value
      else true

  -- 971-982
  unfoldable pub value_matches_type_spec : J.Json → J.Json → Bool
  unfolding value_matches_type
  value_matches_type_spec value spec =
      if V.is_string spec
      then value_matches_type value (V.get_string spec)
      else if J.is_array spec
      then any (λ t. V.is_string t && value_matches_type value (V.get_string t)) (J.elements spec)
      else true

  -- 992-995
  unfoldable pub properties_of : J.Json → Option J.Json
  properties_of schema =
      if J.contains schema (codes "properties") && J.is_object (J.at schema (codes "properties"))
      then some (J.at schema (codes "properties"))
      else none

  -- 998-999: the list that is checked, where there is one.
  unfoldable pub required_of : J.Json → List J.Json
  required_of schema =
      if J.contains schema (codes "required") && J.is_array (J.at schema (codes "required"))
      then J.elements (J.at schema (codes "required"))
      else []

  -- 1007-1010
  unfoldable pub additional_forbidden : J.Json → Bool
  additional_forbidden schema =
      J.contains schema (codes "additionalProperties")
      && V.is_boolean (J.at schema (codes "additionalProperties"))
      && not (V.get_bool (J.at schema (codes "additionalProperties")))

  unfoldable pub is_declared : Option J.Json → Bytes → Bool
  is_declared none key = false
  is_declared (some props) key = J.contains props key

  -- 1013-1025: whether the loop over the members goes on behind a member.
  unfoldable pub member_fits : J.Json → Option J.Json → Bytes × J.Json → Bool
  unfolding additional_forbidden value_matches_type_spec
  member_fits schema none (key, value) = not (additional_forbidden schema)
  member_fits schema (some props) (key, value) =
      if not (J.contains props key)
      then not (additional_forbidden schema)
      else not (J.is_object (J.at props key) && J.contains (J.at props key) (codes "type"))
        || value_matches_type_spec value (J.at (J.at props key) (codes "type"))

  -- props == nullptr || props->empty()
  unfoldable pub no_properties : Option J.Json → Bool
  no_properties none = true
  no_properties (some props) = is_empty (V.members props)

  -- 984-1029
  unfoldable pub object_matches_tool_schema : J.Json → Option J.Json → Bool
  unfolding value_matches_type_spec properties_of required_of is_declared member_fits no_properties
  object_matches_tool_schema obj none = J.is_object obj && not (is_empty (V.members obj))
  object_matches_tool_schema obj (some schema) =
      J.is_object obj
      && (not (J.contains schema (codes "type"))
          || value_matches_type_spec obj (J.at schema (codes "type")))
      && all (λ k. not (V.is_string k) || J.contains obj (V.get_string k)) (required_of schema)
      && all (member_fits schema (properties_of schema)) (V.members obj)
      && (any V.is_string (required_of schema)
          || any (λ m. is_declared (properties_of schema) m.0) (V.members obj)
          || is_empty (V.members obj)
          || no_properties (properties_of schema))

  -- 943-947, on the elements of the array
  unfoldable pub single_of : List J.Json → Option J.Json
  single_of [] = none
  single_of (t ∷ []) =
      if not (J.is_object t)
      then none
      else if J.contains t (codes "function") && J.is_object (J.at t (codes "function"))
      then some (J.at t (codes "function"))
      else some t
  single_of (t ∷ u ∷ more) = none

  -- 942-948
  unfoldable pub single_tool_function : J.Json → Option J.Json
  unfolding single_of
  single_tool_function tools = if not (J.is_array tools) then none else single_of (J.elements tools)

  -- 950-958
  unfoldable pub tool_input_schema : J.Json → Option J.Json
  tool_input_schema fn =
      if J.contains fn (codes "parameters") && J.is_object (J.at fn (codes "parameters"))
      then some (J.at fn (codes "parameters"))
      else if J.contains fn (codes "input_schema") && J.is_object (J.at fn (codes "input_schema"))
      then some (J.at fn (codes "input_schema"))
      else none

  -- 1034-1039: the name and the arguments of the call.
  unfoldable pub call_of : J.Json → Option J.Json → Option (Bytes × J.Json)
  unfolding tool_input_schema object_matches_tool_schema
  call_of obj none = none
  call_of obj (some fn) =
      if not (J.contains fn (codes "name") && V.is_string (J.at fn (codes "name")))
      then none
      else if not (object_matches_tool_schema obj (tool_input_schema fn))
      then none
      else some (V.get_string (J.at fn (codes "name")), obj)

  -- 1031-1040
  unfoldable pub parse_single_tool_arg_object : J.Json → J.Json → Option (Bytes × J.Json)
  unfolding single_tool_function call_of
  parse_single_tool_arg_object obj tools = call_of obj (single_tool_function tools)

  unfoldable pub trim_ws : Bytes → Bytes
  unfolding drop_leading drop_trailing
  trim_ws s = drop_trailing is_ws (drop_leading is_ws s)

  -- 859-886: the arguments and their text.
  unfoldable pub parse_arg_string_or_obj : J.Json → Option (J.Json × Bytes)
  unfolding trim_ws
  parse_arg_string_or_obj val =
      if J.is_object val
      then some (val, V.dump val)
      else if V.is_string val
      then elim (V.parse (V.get_string val)) [
        | some parsed ↦ if J.is_object parsed then some (parsed, V.get_string val) else none
        | none ↦
            if looks_like_malformed_json_object (trim_ws (V.get_string val))
            then some (V.empty_object, V.get_string val)
            else none
      ]
      else none
