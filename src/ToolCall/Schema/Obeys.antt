-- ===== src/ToolCall/Schema/Obeys.antt =====
-- What holds of a bare object that has become a call of the only tool (942-958 and 1031-1040), in terms
-- of the JSON values alone.
use codex_local_qwen27b.Base.{◌≡◌, ◌⊎◌, true, false, ◌&&◌, Option, [], ◌∷◌, Bytes, codes, is_empty}
use codex_local_qwen27b.Json.{JsonLibrary}
use codex_local_qwen27b.ToolCall.Schema.{JsonValues, object_matches_tool_schema, tool_input_schema}
use codex_local_qwen27b.ToolCall.Schema.Meets.{ObeysSchema}

module _ (J : JsonLibrary) (V : JsonValues J) where
  -- The schema of a function is its object `parameters`, else its object `input_schema`; without either
  -- any object but the empty one will do.
  pub record ObeysFunction (fn obj : J.Json) : Type 0 where
    pub an_object : J.is_object obj ≡ true
    pub by_parameters :
        J.contains fn (codes "parameters") ≡ true
        → J.is_object (J.at fn (codes "parameters")) ≡ true
        → ObeysSchema J V (J.at fn (codes "parameters")) obj
    pub by_input_schema :
        (J.contains fn (codes "parameters") && J.is_object (J.at fn (codes "parameters"))) ≡ false
        → J.contains fn (codes "input_schema") ≡ true
        → J.is_object (J.at fn (codes "input_schema")) ≡ true
        → ObeysSchema J V (J.at fn (codes "input_schema")) obj
    pub without :
        (J.contains fn (codes "parameters") && J.is_object (J.at fn (codes "parameters"))) ≡ false
        → (J.contains fn (codes "input_schema") && J.is_object (J.at fn (codes "input_schema")))
          ≡ false
        → is_empty (V.members obj) ≡ false

  -- The function of a tool: its member `function`, where that is an object, and else the tool.
  abbrev pub FunctionOf : J.Json → J.Json → Type 0
  FunctionOf tool fn =
      ((J.contains tool (codes "function") ≡ true)
        × (J.is_object (J.at tool (codes "function")) ≡ true)
        × (fn ≡ J.at tool (codes "function")))
      ⊎ (((J.contains tool (codes "function") && J.is_object (J.at tool (codes "function")))
            ≡ false)
          × (fn ≡ tool))

  -- The only tool of a list, and its function.
  pub record OnlyTool (tools fn : J.Json) : Type 0 where
    pub a_list : J.is_array tools ≡ true
    pub tool : J.Json
    pub only : J.elements tools ≡ tool ∷ []
    pub an_object : J.is_object tool ≡ true
    pub function : FunctionOf tool fn

  -- What a call rests on: the function of the only tool, its name and its schema.
  pub record SingleCall (obj tools : J.Json) (name : Bytes) (args : J.Json) : Type 0 where
    pub fn : J.Json
    pub only : OnlyTool tools fn
    pub has_name : J.contains fn (codes "name") ≡ true
    pub is_text : V.is_string (J.at fn (codes "name")) ≡ true
    pub its_name : V.get_string (J.at fn (codes "name")) ≡ name
    pub same_args : obj ≡ args
    pub obeys : ObeysFunction fn obj

  -- The two tests on the function that a call has passed.
  abbrev Passed : J.Json → J.Json → Bytes × J.Json → Type 0
  Passed obj fn call =
      ((J.contains fn (codes "name") && V.is_string (J.at fn (codes "name"))) ≡ true)
      × (object_matches_tool_schema J V obj (tool_input_schema J V fn) ≡ true)
      × ((V.get_string (J.at fn (codes "name")), obj) ≡ call)
