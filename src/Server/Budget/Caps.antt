-- ===== src/Server/Budget/Caps.antt =====
-- The bounds that the budget of a parsed request obeys.
use codex_local_qwen27b.Base.{
  ◌<◌, codes, ◌≡◌, refl, sym, ◌∙◌, ◌⊎◌, inl, inr, false, ◌&&◌, Option, some, [], Bytes, arith,
  if◌then◌else◌, if_both, if_cases, Option-cases, ℤ, pos, minus_one, ◌-ℤ◌, ◌+ℤ◌, ◌≤ℤ◌, pos_part,
  ltb_ℤ, max_ℤ, min_ℤ-le_right, nonneg,
}
use mathlib.Core.Path.{subst}
use mathlib.Core.Option.{some-injective}
use codex_local_qwen27b.Json.{JsonLibrary}
use codex_local_qwen27b.ToolCall.Schema.{JsonValues}
use codex_local_qwen27b.Server.Budget.{
  Limits, RequestBudget, Wishes, default_effort, drop_disabled, phase1_cap, reply_budget, settle,
  thinking_ceiling, effective_reply_budget, generation_cap,
}
use codex_local_qwen27b.Server.Budget.Body.{
  JsonIntegers, field_or_default, resolve_max_output_tokens, clamped_max_output, read_wishes,
  apply_request_reasoning, parse_budget,
}

abbrev pub Positive : ℤ → Type 0
Positive a = 0 < pos_part a

-- What a request gets lies within what the server allows.
pub record BudgetFits (c : Limits) (r : RequestBudget) : Type 0 where
  pub output : r.max_output ≤ℤ c.default_max_tokens
  pub some_output : Positive c.default_max_tokens → Positive r.max_output
  pub generates : generation_cap c r ≤ℤ r.max_output
  pub replies : effective_reply_budget c r ≤ℤ c.hard_limit_reply_budget
  pub thinks :
      (thinking_ceiling c r ≤ℤ c.think_max_tokens)
      ⊎ (thinking_ceiling c r ≤ℤ max_ℤ (pos 0) (r.max_output -ℤ c.hard_limit_reply_budget))
  pub disabled :
      r.thinking_enabled ≡ false
      → (r.thinking_opt_in ≡ false)
        × (r.reasoning_effort ≡ [])
        × (r.per_req_phase1_cap ≡ minus_one)
        × (r.per_req_reply_budget ≡ minus_one)

generation_cap-le : (c : Limits) (r : RequestBudget) → generation_cap c r ≤ℤ r.max_output
unfolding generation_cap
generation_cap-le c r =
    if_both (λ z. z ≤ℤ r.max_output) r.thinking_opt_in
      (min_ℤ-le_right (thinking_ceiling c r +ℤ effective_reply_budget c r) r.max_output)
      (omega arith)

reply-le :
    (c : Limits) (m : ℤ) (w : Wishes)
    → effective_reply_budget c (settle c m w) ≤ℤ c.hard_limit_reply_budget
unfolding effective_reply_budget settle reply_budget
reply-le c m w =
    let w' = drop_disabled (default_effort c w) in
    ground (arith, min_ℤ-le_right w'.request_reply_budget c.hard_limit_reply_budget)

-- The room that the reply reserve leaves is not negative.
abbrev room : Limits → ℤ → ℤ
room c m = max_ℤ (pos 0) (m -ℤ c.hard_limit_reply_budget)

room-nonneg : (c : Limits) (m : ℤ) → pos 0 ≤ℤ room c m
unfolding max_ℤ
room-nonneg c m = ground arith

abbrev Thinks : Limits → ℤ → ℤ → Type 0
Thinks c m z = (z ≤ℤ c.think_max_tokens) ⊎ (z ≤ℤ room c m)

phase1_cap-Thinks : (c : Limits) (m : ℤ) (w : Wishes) → Thinks c m (phase1_cap c m w)
unfolding phase1_cap
phase1_cap-Thinks c m w =
    if_both (Thinks c m) (w.thinking_opt_in && nonneg w.request_budget_tokens)
      (inl (min_ℤ-le_right w.request_budget_tokens c.think_max_tokens))
      (if_both (Thinks c m) (w.thinking_opt_in && w.effort_set)
        (inr (min_ℤ-le_right w.effort_phase1_cap (room c m)))
        (inr (omega (arith, room-nonneg c m))))

ceiling-Thinks : (c : Limits) (m : ℤ) (w : Wishes) → Thinks c m (thinking_ceiling c (settle c m w))
unfolding thinking_ceiling settle
ceiling-Thinks c m w =
    let w' = drop_disabled (default_effort c w) in
    if_both (Thinks c m) (nonneg (phase1_cap c m w')) (phase1_cap-Thinks c m w') (inl (omega arith))

abbrev Off : RequestBudget → Type 0
Off r =
    (r.thinking_opt_in ≡ false)
    × (r.reasoning_effort ≡ [])
    × (r.per_req_phase1_cap ≡ minus_one)
    × (r.per_req_reply_budget ≡ minus_one)

settle-Off :
    (c : Limits) (m : ℤ) (w : Wishes) → (settle c m w).thinking_enabled ≡ false → Off (settle c m w)
unfolding settle drop_disabled phase1_cap reply_budget
settle-Off c m w e = ground arith

-- What the clamp makes of a value.
abbrev Clamped : Limits → ℤ → Type 0
Clamped c m = (m ≤ℤ c.default_max_tokens) × (Positive c.default_max_tokens → Positive m)

clamp-Clamped :
    (c : Limits) (v : ℤ)
    → (Positive c.default_max_tokens → Positive v)
    → Clamped c (if ltb_ℤ c.default_max_tokens v then c.default_max_tokens else v)
clamp-Clamped c v h =
    if_cases (Clamped c) (ltb_ℤ c.default_max_tokens v) (λ e. (omega arith, λ p. p))
      (λ e. (ground (arith, e), h))

module _ (J : JsonLibrary) (V : JsonValues J) (I : JsonIntegers J) where
  -- What a field gives is positive, if the default is.
  abbrev Given : ℤ → Option ℤ → Type 0
  Given d o = (v : ℤ) → o ≡ some v → Positive d → Positive v

  field_or_default-Given :
      (body : J.Json) (key : Bytes) (d : ℤ) → Given d (field_or_default J V I body key d)
  unfolding field_or_default
  field_or_default-Given body key d v e p = elim (Option-cases (I.get_int (J.at body key))) [
    | inl n ↦ absurd (ground (arith, n))
    | inr (x, n) ↦ ground (arith, n)
  ]

  resolve-Given : (body : J.Json) (d : ℤ) → Given d (resolve_max_output_tokens J V I body d)
  unfolding resolve_max_output_tokens
  resolve-Given body d =
      if_both (Given d) (J.contains body (codes "max_tokens"))
        (field_or_default-Given body (codes "max_tokens") d)
        (if_both (Given d) (J.contains body (codes "max_output_tokens"))
          (field_or_default-Given body (codes "max_output_tokens") d)
          (if_both (Given d) (J.contains body (codes "max_completion_tokens"))
            (field_or_default-Given body (codes "max_completion_tokens") d)
            (λ v e p. subst Positive (some-injective _ _ e) p)))

  max_output-Clamped :
      (body : J.Json) (c : Limits) (m : ℤ) → clamped_max_output J V I body c ≡ some m → Clamped c m
  unfolding clamped_max_output
  max_output-Clamped body c m e =
      elim (Option-cases (resolve_max_output_tokens J V I body c.default_max_tokens)) [
        | inl n ↦ absurd (ground (arith, n))
        | inr (v, n) ↦
            subst (Clamped c) (some-injective _ _ (sym (rw (clamped_max_output, n) refl) ∙ e))
              (clamp-Clamped c v (resolve-Given body c.default_max_tokens v n))
      ]

  settle-BudgetFits : (c : Limits) (m : ℤ) (w : Wishes) → Clamped c m → BudgetFits c (settle c m w)
  unfolding settle
  settle-BudgetFits c m w h = record {
    output = h.0;
    some_output = h.1;
    generates = generation_cap-le c (settle c m w);
    replies = reply-le c m w;
    thinks = ceiling-Thinks c m w;
    disabled = settle-Off c m w;
  }

  -- For every body that parses: the request's output stays within the default, and is positive if the
  -- default is; the generation stays within the output; the reply reserve stays within the server's;
  -- the ceiling of thinking stays within the server's, or within what the reserve leaves of the output;
  -- and with thinking disabled there is no opt-in, no effort and no budget.
  pub parse_budget-BudgetFits :
      (c : Limits) (body : J.Json) (r : RequestBudget)
      → parse_budget J V I c body ≡ some r
      → BudgetFits c r
  unfolding parse_budget apply_request_reasoning
  parse_budget-BudgetFits c body r e = elim (Option-cases (clamped_max_output J V I body c)) [
    | inl n ↦ absurd (ground (arith, n))
    | inr (m, n) ↦ elim (Option-cases (read_wishes J V I c body)) [
      | inl k ↦ absurd (ground (arith, n, k))
      | inr (w, k) ↦
          subst (BudgetFits c)
            (some-injective _ _ (sym (rw (parse_budget, n, apply_request_reasoning, k) refl) ∙ e))
            (settle-BudgetFits c m w (max_output-Clamped body c m n))
    ]
  ]
