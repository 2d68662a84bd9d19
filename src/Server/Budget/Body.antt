-- ===== src/Server/Budget/Body.antt =====
-- What a body says of its budget (578-597, 1962-1970 and 2147-2189).
use codex_local_qwen27b.Base.{
  Bool, true, not, ◌&&◌, Option, none, some, Bytes, codes, bytes_eq, if◌then◌else◌, ℤ, pos, ltb_ℤ,
}
use codex_local_qwen27b.Json.{JsonLibrary}
use codex_local_qwen27b.ToolCall.Schema.{JsonValues}
use codex_local_qwen27b.Server.Budget.{
  Limits, RequestBudget, Wishes, no_wishes, apply_reasoning_effort, settle,
}

-- get<int>(); `none` if it throws.
pub record JsonIntegers (J : JsonLibrary) : Type 1 where
  pub get_int : J.Json → Option ℤ

module _ (J : JsonLibrary) (V : JsonValues J) (I : JsonIntegers J) where
  -- Whether the object has the member, and it passes the test.
  abbrev pub has : (J.Json → Bool) → J.Json → Bytes → Bool
  has test body key = J.contains body key && test (J.at body key)

  -- 583-586
  unfoldable pub field_or_default : J.Json → Bytes → ℤ → Option ℤ
  field_or_default body key default_max_tokens = elim (I.get_int (J.at body key)) [
    | none ↦ none
    | some value ↦ some (if ltb_ℤ (pos 0) value then value else default_max_tokens)
  ]

  -- 578-597
  unfoldable pub resolve_max_output_tokens : J.Json → ℤ → Option ℤ
  unfolding field_or_default
  resolve_max_output_tokens body default_max_tokens =
      if J.contains body (codes "max_tokens")
      then field_or_default body (codes "max_tokens") default_max_tokens
      else if J.contains body (codes "max_output_tokens")
      then field_or_default body (codes "max_output_tokens") default_max_tokens
      else if J.contains body (codes "max_completion_tokens")
      then field_or_default body (codes "max_completion_tokens") default_max_tokens
      else some default_max_tokens

  -- 1962-1970
  unfoldable pub clamped_max_output : J.Json → Limits → Option ℤ
  unfolding resolve_max_output_tokens
  clamped_max_output body c = elim (resolve_max_output_tokens body c.default_max_tokens) [
    | none ↦ none
    | some m ↦ some (if ltb_ℤ c.default_max_tokens m then c.default_max_tokens else m)
  ]

  -- 2147-2154; `value` throws on a member that is no string.
  unfoldable pub read_reasoning : Limits → J.Json → Wishes → Option Wishes
  unfolding apply_reasoning_effort
  read_reasoning c body w =
      if not (has J.is_object body (codes "reasoning"))
      then some w
      else if not (J.contains (J.at body (codes "reasoning")) (codes "effort"))
      then some (record w { enable_thinking = true })
      else if not (V.is_string (J.at (J.at body (codes "reasoning")) (codes "effort")))
      then none
      else some (
          apply_reasoning_effort c
            (V.get_string (J.at (J.at body (codes "reasoning")) (codes "effort"))) w)

  -- 2155-2158, and 2178-2182 with `chat_template_kwargs` in place of the body
  unfoldable pub read_effort : Limits → J.Json → Wishes → Wishes
  unfolding apply_reasoning_effort
  read_effort c body w =
      if not w.effort_set && has V.is_string body (codes "reasoning_effort")
      then apply_reasoning_effort c (V.get_string (J.at body (codes "reasoning_effort"))) w
      else w

  -- 2161-2165
  unfoldable pub read_type : J.Json → Wishes → Option Wishes
  read_type thinking w =
      if not (J.contains thinking (codes "type"))
      then some w
      else if not (V.is_string (J.at thinking (codes "type")))
      then none
      else let enabled = bytes_eq (V.get_string (J.at thinking (codes "type"))) (codes "enabled") in
        some (record w { enable_thinking = enabled; thinking_opt_in = enabled })

  -- 2166-2169, 2170-2173: the value of the member, or the old one.
  unfoldable pub read_integer : J.Json → Bytes → ℤ → Option ℤ
  read_integer thinking key old =
      if has V.is_number_integer thinking key then I.get_int (J.at thinking key) else some old

  -- 2166-2173
  unfoldable pub read_budgets : J.Json → Wishes → Option Wishes
  unfolding read_integer
  read_budgets thinking w =
      elim (read_integer thinking (codes "budget_tokens") w.request_budget_tokens) [
        | none ↦ none
        | some budget ↦ elim (read_integer thinking (codes "reply_budget") w.request_reply_budget) [
          | none ↦ none
          | some reply ↦
              some (record w { request_budget_tokens = budget; request_reply_budget = reply })
        ]
      ]

  -- 2159-2174
  unfoldable pub read_thinking : J.Json → Wishes → Option Wishes
  unfolding read_type read_budgets
  read_thinking body w =
      if not (has J.is_object body (codes "thinking"))
      then some w
      else elim (read_type (J.at body (codes "thinking")) w) [
        | none ↦ none
        | some w' ↦ read_budgets (J.at body (codes "thinking")) w'
      ]

  -- 2183-2188
  unfoldable pub read_toggles : J.Json → Wishes → Option Wishes
  read_toggles kwargs w =
      let toggled =
        if has V.is_boolean kwargs (codes "thinking")
        then record w { enable_thinking = V.get_bool (J.at kwargs (codes "thinking")) }
        else w in
      if not (J.contains kwargs (codes "enable_thinking"))
      then some toggled
      else if not (V.is_boolean (J.at kwargs (codes "enable_thinking")))
      then none
      else some
          (record toggled { enable_thinking = V.get_bool (J.at kwargs (codes "enable_thinking")) })

  -- 2175-2189
  unfoldable pub read_template_kwargs : Limits → J.Json → Wishes → Option Wishes
  unfolding read_effort read_toggles
  read_template_kwargs c body w =
      if has J.is_object body (codes "chat_template_kwargs")
      then read_toggles (J.at body (codes "chat_template_kwargs"))
          (read_effort c (J.at body (codes "chat_template_kwargs")) w)
      else some w

  -- 2147-2189
  unfoldable pub read_wishes : Limits → J.Json → Option Wishes
  unfolding read_reasoning read_effort read_thinking read_template_kwargs
  read_wishes c body = elim (read_reasoning c body no_wishes) [
    | none ↦ none
    | some w ↦ elim (read_thinking body (read_effort c body w)) [
      | none ↦ none
      | some w' ↦ read_template_kwargs c body w'
    ]
  ]

  -- 2086-2250, for a request whose max_output is set.
  unfoldable pub apply_request_reasoning : Limits → J.Json → ℤ → Option RequestBudget
  unfolding read_wishes settle
  apply_request_reasoning c body max_output = elim (read_wishes c body) [
    | none ↦ none
    | some w ↦ some (settle c max_output w)
  ]

  -- 1962-1970 and 2086-2250, in the order in which a request is parsed.
  unfoldable pub parse_budget : Limits → J.Json → Option RequestBudget
  unfolding clamped_max_output apply_request_reasoning
  parse_budget c body = elim (clamped_max_output body c) [
    | none ↦ none
    | some m ↦ apply_request_reasoning c body m
  ]
