-- ===== src/Server/Budget/Precedence.antt =====
-- A budget in tokens goes before an effort.
use codex_local_qwen27b.Base.{
  codes, ◌≡◌, refl, sym, ap, ◌∙◌, true, not, ◌&&◌, Option, some, Bytes, bytes_eq, arith, if_both,
  Option-cases, inl, inr, is_empty, ℤ, nonneg, min_ℤ,
}
use mathlib.Core.Path.{subst}
use mathlib.Core.Option.{some-injective}
use codex_local_qwen27b.Json.{JsonLibrary}
use codex_local_qwen27b.ToolCall.Schema.{JsonValues}
use codex_local_qwen27b.Server.Budget.{
  Limits, RequestBudget, Wishes, no_wishes, is_deepseek4, apply_reasoning_effort, default_effort,
  drop_disabled, phase1_cap, settle,
}
use codex_local_qwen27b.Server.Budget.Body.{
  JsonIntegers, has, read_reasoning, read_effort, read_type, read_integer, read_budgets,
  read_thinking, read_toggles, read_template_kwargs, read_wishes, apply_request_reasoning,
}

-- The wishes have this budget.
abbrev Budgeted : ℤ → Wishes → Type 0
Budgeted n w = w.request_budget_tokens ≡ n

module _ (n : ℤ) where
  apply-Budgeted :
      (c : Limits) (e : Bytes) (w : Wishes)
      → Budgeted n w
      → Budgeted n (apply_reasoning_effort c e w)
  unfolding apply_reasoning_effort
  apply-Budgeted c e w h = if_both (Budgeted n) (bytes_eq e (codes "none")) h h

  settled-Budgeted :
      (c : Limits) (w : Wishes) → Budgeted n w → Budgeted n (drop_disabled (default_effort c w))
  unfolding drop_disabled default_effort
  settled-Budgeted c w h =
      let e : Budgeted n (default_effort c w) =
        if_both (Budgeted n)
          (not (w.enable_thinking && is_deepseek4 c && is_empty w.normalized_effort)) h
          (if_both (Budgeted n) w.thinking_opt_in h h) in
      if_both (Budgeted n) (default_effort c w).enable_thinking e e

  -- The cap that a budget gives, whatever the effort.
  settle-budget :
      (c : Limits) (m : ℤ) (w : Wishes)
      → Budgeted n w
      → nonneg n ≡ true
      → (settle c m w).thinking_opt_in ≡ true
      → (settle c m w).per_req_phase1_cap ≡ min_ℤ n c.think_max_tokens
  unfolding settle phase1_cap
  settle-budget c m w h p o = let b = settled-Budgeted c w h in rw (phase1_cap, o, b, p) refl

module _ (J : JsonLibrary) (V : JsonValues J) (I : JsonIntegers J) where
  abbrev Budgets : ℤ → Option Wishes → Type 0
  Budgets n o = (w : Wishes) → o ≡ some w → Budgeted n w

  some-Budgeted : (n : ℤ) (w : Wishes) → Budgeted n w → Budgets n (some w)
  some-Budgeted n w h w' e = subst (Budgeted n) (some-injective _ _ e) h

  read_effort-Budgeted :
      (n : ℤ) (c : Limits) (body : J.Json) (w : Wishes)
      → Budgeted n w
      → Budgeted n (read_effort J V I c body w)
  unfolding read_effort
  read_effort-Budgeted n c body w h =
      if_both (Budgeted n)
        (not w.effort_set && has J V I V.is_string body (codes "reasoning_effort"))
        (apply-Budgeted n c (V.get_string (J.at body (codes "reasoning_effort"))) w h) h

  read_toggles-Budgeted :
      (n : ℤ) (kwargs : J.Json) (w : Wishes)
      → Budgeted n w
      → Budgets n (read_toggles J V I kwargs w)
  unfolding read_toggles
  read_toggles-Budgeted n kwargs w h =
      let toggled =
        if_both (Budgeted n) (has J V I V.is_boolean kwargs (codes "thinking"))
          {x = record w { enable_thinking = V.get_bool (J.at kwargs (codes "thinking")) }} {y = w} h
          h in
      if_both (Budgets n) (not (J.contains kwargs (codes "enable_thinking")))
        (some-Budgeted n _ toggled)
        (if_both (Budgets n) (not (V.is_boolean (J.at kwargs (codes "enable_thinking"))))
          (λ w' e. absurd (cc)) (some-Budgeted n _ toggled))

  read_template_kwargs-Budgeted :
      (n : ℤ) (c : Limits) (body : J.Json) (w : Wishes)
      → Budgeted n w
      → Budgets n (read_template_kwargs J V I c body w)
  unfolding read_template_kwargs
  read_template_kwargs-Budgeted n c body w h =
      if_both (Budgets n) (has J V I J.is_object body (codes "chat_template_kwargs"))
        (read_toggles-Budgeted n (J.at body (codes "chat_template_kwargs")) _
          (read_effort-Budgeted n c (J.at body (codes "chat_template_kwargs")) w h))
        (some-Budgeted n w h)

  -- The body's thinking.budget_tokens is `n`.
  pub record HasBudget (body : J.Json) (n : ℤ) : Type 0 where
    pub has_thinking : has J V I J.is_object body (codes "thinking") ≡ true
    pub has_integer :
        has J V I V.is_number_integer (J.at body (codes "thinking")) (codes "budget_tokens") ≡ true
    pub value_is : I.get_int (J.at (J.at body (codes "thinking")) (codes "budget_tokens")) ≡ some n

  read_budgets-Budgeted :
      (n : ℤ) (body : J.Json) (w : Wishes)
      → HasBudget body n
      → Budgets n (read_budgets J V I (J.at body (codes "thinking")) w)
  unfolding read_budgets read_integer
  read_budgets-Budgeted n body w h w' e =
      elim (Option-cases (
        read_integer J V I (J.at body (codes "thinking")) (codes "reply_budget")
          w.request_reply_budget)) [
            | inl k ↦ absurd (ground (arith, h.has_integer, h.value_is, k))
            | inr (reply, k) ↦
                some-Budgeted n
                  (record w { request_budget_tokens = n; request_reply_budget = reply }) refl w'
                  (sym (rw (read_budgets, read_integer, h.has_integer, h.value_is, k) refl) ∙ e)
          ]

  read_thinking-Budgeted :
      (n : ℤ) (body : J.Json) (w : Wishes)
      → HasBudget body n
      → Budgets n (read_thinking J V I body w)
  unfolding read_thinking
  read_thinking-Budgeted n body w h w' e =
      elim (Option-cases (read_type J V I (J.at body (codes "thinking")) w)) [
        | inl k ↦ absurd (ground (arith, h.has_thinking, k))
        | inr (u, k) ↦
            read_budgets-Budgeted n body u h w'
              (sym (rw (read_thinking, h.has_thinking, k) refl) ∙ e)
      ]

  read_wishes-Budgeted :
      (n : ℤ) (c : Limits) (body : J.Json) → HasBudget body n → Budgets n (read_wishes J V I c body)
  unfolding read_wishes
  read_wishes-Budgeted n c body h w e =
      elim (Option-cases (read_reasoning J V I c body no_wishes)) [
        | inl k ↦ absurd (ground (arith, k))
        | inr (u, k) ↦ elim (Option-cases (read_thinking J V I body (read_effort J V I c body u))) [
          | inl l ↦ absurd (ground (arith, k, l))
          | inr (v, l) ↦
              read_template_kwargs-Budgeted n c body v
                (read_thinking-Budgeted n body (read_effort J V I c body u) h v l) w
                (sym (rw (read_wishes, k, l) refl) ∙ e)
        ]
      ]

  -- Where the body has thinking.budget_tokens, a number `n` that is not negative, and thinking is opted
  -- in to: the cap on the thinking is `n`, clamped to the server's think_max_tokens, whatever efforts
  -- the body names besides and whatever the output.
  pub apply_request_reasoning-budget :
      (c : Limits) (body : J.Json) (m n : ℤ) (r : RequestBudget)
      → HasBudget body n
      → nonneg n ≡ true
      → apply_request_reasoning J V I c body m ≡ some r
      → r.thinking_opt_in ≡ true
      → r.per_req_phase1_cap ≡ min_ℤ n c.think_max_tokens
  unfolding apply_request_reasoning
  apply_request_reasoning-budget c body m n r h p e o =
      elim (Option-cases (read_wishes J V I c body)) [
        | inl k ↦ absurd (ground (arith, k))
        | inr (w, k) ↦
            let s =
              some-injective (settle c m w) r (sym (rw (apply_request_reasoning, k) refl) ∙ e) in
            sym (ap RequestBudget.per_req_phase1_cap s)
            ∙ settle-budget n c m w (read_wishes-Budgeted n c body h w k) p
                (ap RequestBudget.thinking_opt_in s ∙ o)
      ]
