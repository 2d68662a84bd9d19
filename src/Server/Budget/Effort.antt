-- ===== src/Server/Budget/Effort.antt =====
-- The wishes of a body without a `thinking` object: nothing but an effort asks for thinking.
use codex_local_qwen27b.Base.{
  codes, ◌≡◌, refl, sym, ◌∙◌, Bool, true, false, not, ◌&&◌, Option, none, some, Bytes, bytes_eq,
  ◌||◌, arith, if_both, Option-cases, inl, inr, is_empty, ℤ, pos, minus_one, ◌≤ℤ◌,
}
use mathlib.Core.Path.{subst}
use mathlib.Core.Option.{some-injective}
use codex_local_qwen27b.Json.{JsonLibrary}
use codex_local_qwen27b.ToolCall.Schema.{JsonValues}
use codex_local_qwen27b.Server.Budget.{
  EffortTiers, Limits, Wishes, no_wishes, is_deepseek4, effort_tier, apply_reasoning_effort,
  default_effort, drop_disabled,
}
use codex_local_qwen27b.Server.Budget.Body.{
  JsonIntegers, has, read_reasoning, read_effort, read_thinking, read_toggles, read_template_kwargs,
  read_wishes,
}

abbrev pub AtLeastZero : ℤ → Type 0
AtLeastZero a = pos 0 ≤ℤ a

-- Each tier is a number of tokens.
pub record AreCounts (t : EffortTiers) : Type 0 where
  pub low : pos 0 ≤ℤ t.low
  pub medium : pos 0 ≤ℤ t.medium
  pub high : pos 0 ≤ℤ t.high
  pub x_high : pos 0 ≤ℤ t.x_high
  pub max : pos 0 ≤ℤ t.max

-- Nothing but an effort has asked for thinking.
pub record ByEffort (w : Wishes) : Type 0 where
  pub no_budget : w.request_budget_tokens ≡ minus_one
  pub no_reply : w.request_reply_budget ≡ minus_one
  pub has_tier : w.thinking_opt_in ≡ true → (w.effort_set ≡ true) × AtLeastZero w.effort_phase1_cap

abbrev Tier : ℤ × Bytes → Type 0
Tier t = AtLeastZero t.0

effort_tier-Tier : (c : Limits) (e : Bytes) → AreCounts c.effort_tiers → Tier (effort_tier c e)
unfolding effort_tier
effort_tier-Tier c e t =
    if_both Tier (bytes_eq e (codes "minimal") || bytes_eq e (codes "low")) t.low (
      if_both Tier (bytes_eq e (codes "medium")) t.medium (
        if_both Tier (bytes_eq e (codes "xhigh")) (if_both Tier (is_deepseek4 c) t.high t.x_high) (
          if_both Tier (bytes_eq e (codes "x-high")) t.x_high
            (if_both Tier (bytes_eq e (codes "max")) t.max t.high))))

apply-ByEffort :
    (c : Limits) (e : Bytes) (w : Wishes)
    → AreCounts c.effort_tiers
    → ByEffort w
    → ByEffort (apply_reasoning_effort c e w)
unfolding apply_reasoning_effort
apply-ByEffort c e w t h =
    if_both ByEffort (bytes_eq e (codes "none"))
      (record {
        no_budget = h.no_budget;
        no_reply = h.no_reply;
        has_tier = λ o. (refl, (h.has_tier o).1);
      })
      (record {
        no_budget = h.no_budget;
        no_reply = h.no_reply;
        has_tier = λ o. (refl, effort_tier-Tier c e t);
      })

pub default-ByEffort :
    (c : Limits) (w : Wishes)
    → AreCounts c.effort_tiers
    → ByEffort w
    → ByEffort (default_effort c w)
unfolding default_effort
default-ByEffort c w t h =
    if_both ByEffort (not (w.enable_thinking && is_deepseek4 c && is_empty w.normalized_effort)) h (
      if_both ByEffort w.thinking_opt_in
        (record { no_budget = h.no_budget; no_reply = h.no_reply; has_tier = λ o. (refl, t.high) })
        (record { no_budget = h.no_budget; no_reply = h.no_reply; has_tier = h.has_tier }))

pub drop-ByEffort : (w : Wishes) → ByEffort w → ByEffort (drop_disabled w)
unfolding drop_disabled
drop-ByEffort w h =
    if_both ByEffort w.enable_thinking h
      (record { no_budget = h.no_budget; no_reply = h.no_reply; has_tier = λ o. absurd (cc) })

module _ (J : JsonLibrary) (V : JsonValues J) (I : JsonIntegers J) (c : Limits)
    (t : AreCounts c.effort_tiers) where
  abbrev pub AllByEffort : Option Wishes → Type 0
  AllByEffort o = (w : Wishes) → o ≡ some w → ByEffort w

  some-ByEffort : (w : Wishes) → ByEffort w → AllByEffort (some w)
  some-ByEffort w h w' e = subst ByEffort (some-injective _ _ e) h

  none-ByEffort : AllByEffort none
  none-ByEffort w e = absurd (cc)

  read_reasoning-ByEffort :
      (body : J.Json) (w : Wishes) → ByEffort w → AllByEffort (read_reasoning J V I c body w)
  unfolding read_reasoning
  read_reasoning-ByEffort body w h =
      if_both AllByEffort (not (has J V I J.is_object body (codes "reasoning"))) (some-ByEffort w h)
        (if_both AllByEffort (not (J.contains (J.at body (codes "reasoning")) (codes "effort")))
          (some-ByEffort (record w { enable_thinking = true })
            (record { no_budget = h.no_budget; no_reply = h.no_reply; has_tier = h.has_tier }))
          (if_both AllByEffort
            (not (V.is_string (J.at (J.at body (codes "reasoning")) (codes "effort"))))
            none-ByEffort
            (some-ByEffort _ (
              apply-ByEffort c
                (V.get_string (J.at (J.at body (codes "reasoning")) (codes "effort"))) w t h))))

  read_effort-ByEffort :
      (body : J.Json) (w : Wishes) → ByEffort w → ByEffort (read_effort J V I c body w)
  unfolding read_effort
  read_effort-ByEffort body w h =
      if_both ByEffort (not w.effort_set && has J V I V.is_string body (codes "reasoning_effort"))
        (apply-ByEffort c (V.get_string (J.at body (codes "reasoning_effort"))) w t h) h

  toggle-ByEffort :
      (b : Bool) (w : Wishes) → ByEffort w → ByEffort (record w { enable_thinking = b })
  toggle-ByEffort b w h = record {
    no_budget = h.no_budget;
    no_reply = h.no_reply;
    has_tier = h.has_tier;
  }

  read_toggles-ByEffort :
      (kwargs : J.Json) (w : Wishes) → ByEffort w → AllByEffort (read_toggles J V I kwargs w)
  unfolding read_toggles
  read_toggles-ByEffort kwargs w h =
      let toggled =
        if_both ByEffort (has J V I V.is_boolean kwargs (codes "thinking"))
          (toggle-ByEffort (V.get_bool (J.at kwargs (codes "thinking"))) w h) h in
      if_both AllByEffort (not (J.contains kwargs (codes "enable_thinking")))
        (some-ByEffort _ toggled)
        (if_both AllByEffort (not (V.is_boolean (J.at kwargs (codes "enable_thinking"))))
          none-ByEffort
          (some-ByEffort _
            (toggle-ByEffort (V.get_bool (J.at kwargs (codes "enable_thinking"))) _ toggled)))

  read_template_kwargs-ByEffort :
      (body : J.Json) (w : Wishes) → ByEffort w → AllByEffort (read_template_kwargs J V I c body w)
  unfolding read_template_kwargs
  read_template_kwargs-ByEffort body w h =
      if_both AllByEffort (has J V I J.is_object body (codes "chat_template_kwargs"))
        (read_toggles-ByEffort (J.at body (codes "chat_template_kwargs")) _
          (read_effort-ByEffort (J.at body (codes "chat_template_kwargs")) w h))
        (some-ByEffort w h)

  pub read_wishes-ByEffort :
      (body : J.Json)
      → has J V I J.is_object body (codes "thinking") ≡ false
      → AllByEffort (read_wishes J V I c body)
  unfolding read_wishes read_thinking
  read_wishes-ByEffort body n w e = elim (Option-cases (read_reasoning J V I c body no_wishes)) [
    | inl r ↦ absurd (ground (arith, r))
    | inr (w', r) ↦
        read_template_kwargs-ByEffort body (read_effort J V I c body w')
          (read_effort-ByEffort body w' (
            read_reasoning-ByEffort body no_wishes
              (record { no_budget = refl; no_reply = refl; has_tier = λ o. absurd (cc) }) w' r))
          w (sym (rw (read_wishes, r, read_thinking, n) refl) ∙ e)
  ]
