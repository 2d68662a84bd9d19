-- ===== src/ToolTable.antt =====
-- What the request's tool declarations say of a name (server/src/server/tool_parser.cpp, 179-220;
-- sse_emitter.cpp, 19-35 and 811-827), and the emitter's interface filled with it.
pub mod Names
use codex_local_qwen27b.Base.{
  ℕ, Bool, true, false, not, ◌&&◌, ◌||◌, Option, List, [], ◌∷◌, Bytes, codes, if◌then◌else◌,
  is_empty, any, bytes_eq,
}
use codex_local_qwen27b.Json.{JsonLibrary}
use codex_local_qwen27b.Sse.Toolkit.{Toolkit, ToolParseResult}
use codex_local_qwen27b.ToolSyntax.{find_tool_syntax_start, tool_syntax_holdback}

module _ (J : JsonLibrary) where
  open J use {Json, is_array, elements, is_object, contains, at, value}

  -- t.contains("function") ? t["function"] : t
  abbrev pub function_member : Json → Json
  function_member t = if contains t (codes "function") then at t (codes "function") else t

  -- fn.is_object() && fn.value("name", "") == name
  unfoldable pub has_name : Bytes → Json → Bool
  has_name name t =
      is_object (function_member t) && bytes_eq (value (function_member t) (codes "name")) name

  -- t.value("type", "") == "namespace" && t.contains("tools") && t["tools"].is_array()
  unfoldable pub is_namespace : Json → Bool
  is_namespace t =
      bytes_eq (value t (codes "type")) (codes "namespace")
      && contains t (codes "tools")
      && is_array (at t (codes "tools"))

  abbrev pub sub_tools : Json → List Json
  sub_tools t = elements (at t (codes "tools"))

  -- 189-197, for one declaration
  unfoldable pub allows : Bytes → Json → Bool
  allows name t = has_name name t || (is_namespace t && any (has_name name) (sub_tools t))

  -- A null value is no array.
  unfoldable pub tool_allowed : Json → Bytes → Bool
  tool_allowed tools name =
      not (is_array tools) || is_empty (elements tools) || any (allows name) (elements tools)

  -- 207-218
  unfoldable pub namespace_in : List Json → Bytes → Bytes
  namespace_in [] name = []
  namespace_in (t ∷ ts) name =
      let rest = namespace_in ts name in
      if is_namespace t && any (has_name name) (sub_tools t) then value t (codes "name") else rest

  unfoldable pub find_tool_namespace : Json → Bytes → Bytes
  find_tool_namespace tools name = if is_array tools then namespace_in (elements tools) name else []

  unfoldable pub has_request_tools : Json → Bool
  has_request_tools tools = is_array tools && not (is_empty (elements tools))

  -- 29-33: the first declaration of this name decides.
  unfoldable pub custom_in : List Json → Bytes → Bool
  custom_in [] name = false
  custom_in (t ∷ ts) name =
      let rest = custom_in ts name in
      if is_object t && bytes_eq (value t (codes "name")) name
      then bytes_eq (value t (codes "type")) (codes "custom")
      else rest

  unfoldable pub is_custom_tool : Json → Bytes → Bool
  is_custom_tool tools name = is_array tools && custom_in (elements tools) name

  -- sse_emitter.cpp, 692-699 and 811-815
  unfoldable pub is_declared_name : Json → Bytes → Bool
  is_declared_name tools name = is_array tools && any (has_name name) (elements tools)

  -- The emitter's calls for a request with these tools. The parser of finished calls and the
  -- functions of utf8_utils.h are arguments.
  unfoldable pub request_toolkit :
      Json → (Bytes → ToolParseResult) → (Bytes → ℕ → ℕ) → (Bytes → Bytes) → Toolkit
  request_toolkit tools parse safe_len sanitize = record {
    has_request_tools = has_request_tools tools;
    find_tool_syntax_start = λ t. find_tool_syntax_start J t tools;
    tool_syntax_holdback = tool_syntax_holdback J tools;
    is_declared_name = is_declared_name tools;
    is_custom_tool = is_custom_tool tools;
    parse_tool_calls = parse;
    utf8_safe_len = safe_len;
    utf8_sanitize = sanitize;
  }
