-- ===== src/Server/Budget/Refusal.antt =====
-- The bodies from which no budget is computed.
use codex_local_qwen27b.Base.{
  codes, ◌≡◌, refl, Bool, true, not, ◌&&◌, ◌||◌, Option, is_some, Bytes, arith, if_cases,
  Option-cases, inl, inr, ℤ,
}
use codex_local_qwen27b.Json.{JsonLibrary}
use codex_local_qwen27b.ToolCall.Schema.{JsonValues}
use codex_local_qwen27b.Server.Budget.{Limits, Wishes, no_wishes}
use codex_local_qwen27b.Server.Budget.Body.{
  JsonIntegers, has, read_reasoning, read_effort, read_type, read_integer, read_budgets,
  read_thinking, read_toggles, read_template_kwargs, read_wishes, apply_request_reasoning,
}

module _ (J : JsonLibrary) (V : JsonValues J) (I : JsonIntegers J) where
  -- `get<int>` gives every integer.
  unfoldable pub IntegersRead : Type 0
  IntegersRead = (j : J.Json) → V.is_number_integer j ≡ true → is_some (I.get_int j) ≡ true

  -- Whether the object has the member, of another type.
  abbrev has_other : (J.Json → Bool) → J.Json → Bytes → Bool
  has_other test body key = J.contains body key && not (test (J.at body key))

  -- A member of another type, among the three that are read without a test of their type.
  pub mistyped : J.Json → Bool
  mistyped body =
      (has J V I J.is_object body (codes "reasoning")
        && has_other V.is_string (J.at body (codes "reasoning")) (codes "effort"))
      || (has J V I J.is_object body (codes "thinking")
          && has_other V.is_string (J.at body (codes "thinking")) (codes "type"))
      || (has J V I J.is_object body (codes "chat_template_kwargs")
          && has_other V.is_boolean (J.at body (codes "chat_template_kwargs"))
              (codes "enable_thinking"))

  read_integer-is_some :
      IntegersRead
      → (thinking : J.Json) (key : Bytes) (old : ℤ)
      → is_some (read_integer J V I thinking key old) ≡ true
  unfolding IntegersRead read_integer
  read_integer-is_some all thinking key old =
      if_cases (λ (o : Option ℤ). is_some o ≡ true) (has J V I V.is_number_integer thinking key)
        (λ e. all (J.at thinking key) (ground (arith, e))) (λ e. refl)

  read_budgets-is_some :
      IntegersRead
      → (thinking : J.Json) (w : Wishes) → is_some (read_budgets J V I thinking w) ≡ true
  unfolding read_budgets
  read_budgets-is_some all thinking w = ground (
    arith,
    read_integer-is_some all thinking (codes "budget_tokens") w.request_budget_tokens,
    read_integer-is_some all thinking (codes "reply_budget") w.request_reply_budget,
  )

  read_reasoning-is_some :
      (c : Limits) (body : J.Json) (w : Wishes)
      → is_some (read_reasoning J V I c body w)
        ≡ not (
            has J V I J.is_object body (codes "reasoning")
            && has_other V.is_string (J.at body (codes "reasoning")) (codes "effort"))
  unfolding read_reasoning
  read_reasoning-is_some c body w = ground arith

  read_type-is_some :
      (thinking : J.Json) (w : Wishes)
      → is_some (read_type J V I thinking w) ≡ not (has_other V.is_string thinking (codes "type"))
  unfolding read_type
  read_type-is_some thinking w = ground arith

  read_thinking-is_some :
      IntegersRead
      → (body : J.Json) (w : Wishes)
      → is_some (read_thinking J V I body w)
        ≡ not (
            has J V I J.is_object body (codes "thinking")
            && has_other V.is_string (J.at body (codes "thinking")) (codes "type"))
  unfolding read_thinking
  read_thinking-is_some all body w =
      elim (Option-cases (read_type J V I (J.at body (codes "thinking")) w)) [
        | inl k ↦ ground (arith, k, read_type-is_some (J.at body (codes "thinking")) w)
        | inr (u, k) ↦ ground (
          arith,
          k,
          read_type-is_some (J.at body (codes "thinking")) w,
          read_budgets-is_some all (J.at body (codes "thinking")) u,
        )
      ]

  read_template_kwargs-is_some :
      (c : Limits) (body : J.Json) (w : Wishes)
      → is_some (read_template_kwargs J V I c body w)
        ≡ not (
            has J V I J.is_object body (codes "chat_template_kwargs")
            && has_other V.is_boolean
                (J.at body (codes "chat_template_kwargs"))
                (codes "enable_thinking"))
  unfolding read_template_kwargs read_toggles
  read_template_kwargs-is_some c body w = ground arith

  -- Where `get<int>` gives every integer: the budget of a request is computed if and only if none of the
  -- three members reasoning.effort, thinking.type (texts) and chat_template_kwargs.enable_thinking (a
  -- boolean) is there with another type; no other content of the body refuses it.
  pub apply_request_reasoning-is_some :
      IntegersRead
      → (c : Limits) (body : J.Json) (m : ℤ)
      → is_some (apply_request_reasoning J V I c body m) ≡ not (mistyped body)
  unfolding apply_request_reasoning read_wishes mistyped
  apply_request_reasoning-is_some all c body m =
      elim (Option-cases (read_reasoning J V I c body no_wishes)) [
        | inl k ↦ ground (arith, k, read_reasoning-is_some c body no_wishes)
        | inr (u, k) ↦ elim (Option-cases (read_thinking J V I body (read_effort J V I c body u))) [
          | inl l ↦ ground (
            arith,
            k,
            l,
            read_reasoning-is_some c body no_wishes,
            read_thinking-is_some all body (read_effort J V I c body u),
          )
          | inr (v, l) ↦ ground (
            arith,
            k,
            l,
            read_reasoning-is_some c body no_wishes,
            read_thinking-is_some all body (read_effort J V I c body u),
            read_template_kwargs-is_some c body v,
          )
        ]
      ]
