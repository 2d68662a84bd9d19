-- ===== src/Server/Budget/Reserve.antt =====
-- A request that asks by effort alone keeps the server's reserve for the reply.
use codex_local_qwen27b.Base.{
  codes, ◌≡◌, refl, sym, ap, ◌∙◌, true, false, some, arith, Option-cases, inl, inr, ℤ, pos,
  minus_one, ◌-ℤ◌, ◌+ℤ◌, ◌≤ℤ◌, min_ℤ, max_ℤ, nonneg, +ℤ_parts, -ℤ_parts,
}
use mathlib.Core.Path.{subst}
use mathlib.Core.Option.{some-injective}
use codex_local_qwen27b.Json.{JsonLibrary}
use codex_local_qwen27b.ToolCall.Schema.{JsonValues}
use codex_local_qwen27b.Server.Budget.{
  Limits, RequestBudget, Wishes, default_effort, drop_disabled, phase1_cap, reply_budget, settle,
  thinking_ceiling, effective_reply_budget, generation_cap,
}
use codex_local_qwen27b.Server.Budget.Body.{JsonIntegers, has, read_wishes, apply_request_reasoning}
use codex_local_qwen27b.Server.Budget.Effort.{
  AtLeastZero, AreCounts, ByEffort, default-ByEffort, drop-ByEffort, read_wishes-ByEffort,
}

-- Thinking and the whole reserve fit the output, and the generation gets both.
pub record KeepsReserve (c : Limits) (r : RequestBudget) : Type 0 where
  pub fits : thinking_ceiling c r +ℤ c.hard_limit_reply_budget ≤ℤ r.max_output
  pub gets_both : generation_cap c r ≡ thinking_ceiling c r +ℤ c.hard_limit_reply_budget

-- The smaller of a tier and the room fits before the reserve.
narrowed_fits :
    (tier m h : ℤ)
    → AtLeastZero tier
    → h ≤ℤ m
    → AtLeastZero (min_ℤ tier (max_ℤ (pos 0) (m -ℤ h)))
      × (min_ℤ tier (max_ℤ (pos 0) (m -ℤ h)) +ℤ h ≤ℤ m)
unfolding min_ℤ max_ℤ
narrowed_fits tier m h t l =
    (ground arith, ground (arith, +ℤ_parts (min_ℤ tier (max_ℤ (pos 0) (m -ℤ h))) h, -ℤ_parts m h))

effort_cap :
    (c : Limits) (m : ℤ) (w : Wishes)
    → ByEffort w
    → w.thinking_opt_in ≡ true
    → phase1_cap c m w ≡ min_ℤ w.effort_phase1_cap (max_ℤ (pos 0) (m -ℤ c.hard_limit_reply_budget))
unfolding phase1_cap
effort_cap c m w h o =
    let t = (h.has_tier o).0 in
    let b : nonneg w.request_budget_tokens ≡ false = ap nonneg h.no_budget in rw (o, t, b) refl

no_reply_cap : (c : Limits) (w : Wishes) → ByEffort w → reply_budget c w ≡ minus_one
unfolding reply_budget
no_reply_cap c w h =
    let b : nonneg w.request_reply_budget ≡ false = ap nonneg h.no_reply in ground (arith, b)

within :
    (c : Limits) (r : RequestBudget) (cap : ℤ)
    → r.thinking_opt_in ≡ true
    → r.per_req_phase1_cap ≡ cap
    → AtLeastZero cap
    → r.per_req_reply_budget ≡ minus_one
    → cap +ℤ c.hard_limit_reply_budget ≤ℤ r.max_output
    → KeepsReserve c r
unfolding thinking_ceiling effective_reply_budget generation_cap min_ℤ
within c r cap o e n q l =
    let b : nonneg r.per_req_phase1_cap ≡ true = ground (arith, ap nonneg e) in
    let ceiling : thinking_ceiling c r ≡ cap = ground (arith, b) in
    let reply : effective_reply_budget c r ≡ c.hard_limit_reply_budget =
      ground (arith, ap nonneg q) in
    record {
      fits = rw ceiling l;
      gets_both = rw (generation_cap, o, ceiling, reply) (ground arith);
    }

settle-KeepsReserve :
    (c : Limits) (m : ℤ) (w : Wishes)
    → AreCounts c.effort_tiers
    → ByEffort w
    → (settle c m w).thinking_opt_in ≡ true
    → c.hard_limit_reply_budget ≤ℤ m
    → KeepsReserve c (settle c m w)
unfolding settle
settle-KeepsReserve c m w t h o l =
    let w' = drop_disabled (default_effort c w) in
    let h' = drop-ByEffort (default_effort c w) (default-ByEffort c w t h) in
    let n = narrowed_fits w'.effort_phase1_cap m c.hard_limit_reply_budget (h'.has_tier o).1 l in
    within c (settle c m w)
      (min_ℤ w'.effort_phase1_cap (max_ℤ (pos 0) (m -ℤ c.hard_limit_reply_budget))) o
      (effort_cap c m w' h' o) n.0 (no_reply_cap c w' h') n.1

-- A body with no `thinking` object that opts in to thinking, by an effort: where the tiers are not
-- negative and the reserve for the reply fits the output, the ceiling of thinking and the reserve
-- together fit the output, and the generation may take exactly both.
pub apply_request_reasoning-KeepsReserve :
    (J : JsonLibrary) (V : JsonValues J) (I : JsonIntegers J) (c : Limits) (body : J.Json) (m : ℤ)
    (r : RequestBudget)
    → AreCounts c.effort_tiers
    → c.hard_limit_reply_budget ≤ℤ m
    → has J V I J.is_object body (codes "thinking") ≡ false
    → apply_request_reasoning J V I c body m ≡ some r
    → r.thinking_opt_in ≡ true
    → KeepsReserve c r
unfolding apply_request_reasoning
apply_request_reasoning-KeepsReserve J V I c body m r t l n e o =
    elim (Option-cases (read_wishes J V I c body)) [
      | inl k ↦ absurd (ground (arith, k))
      | inr (w, k) ↦
          let s = some-injective _ _ (sym (rw (apply_request_reasoning, k) refl) ∙ e) in
          subst (KeepsReserve c) s (
            settle-KeepsReserve c m w t (read_wishes-ByEffort J V I c t body n w k)
              (ap RequestBudget.thinking_opt_in s ∙ o) l)
    ]
