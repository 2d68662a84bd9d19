-- ===== src/Server/Budget.antt =====
-- The budget of a request (server/src/server/http_server.cpp, 578-597, 1962-1970, 2086-2250 and
-- 4054-4080): the tokens that it may generate, and how many of them the model may think. Reading a
-- member of another type throws, which gives `none`; the log lines are left out.
pub mod Body
pub mod Caps
pub mod Effort
pub mod Reserve
pub mod Precedence
pub mod Refusal
use codex_local_qwen27b.Base.{
  ℕ, Bool, true, false, not, ◌&&◌, ◌||◌, Option, none, some, List, [], Bytes, codes, bytes_eq,
  if◌then◌else◌, is_empty, ℤ, pos, minus_one, ◌+ℤ◌, ◌-ℤ◌, ltb_ℤ, nonneg, min_ℤ, max_ℤ,
}
use codex_local_qwen27b.Json.{JsonLibrary}
use codex_local_qwen27b.ToolCall.Schema.{JsonValues}

pub record EffortTiers : Type 0 where
  pub low : ℤ
  pub medium : ℤ
  pub high : ℤ
  pub x_high : ℤ
  pub max : ℤ

-- What is read of ServerConfig.
pub record Limits : Type 0 where
  pub arch : Bytes
  pub effort_tiers : EffortTiers
  pub think_max_tokens : ℤ
  pub hard_limit_reply_budget : ℤ
  pub default_max_tokens : ℤ
  pub think_close_token_ids : List ℕ

-- The part of ParsedRequest that the budget is about; -1 is an absent value.
pub record RequestBudget : Type 0 where
  pub max_output : ℤ
  pub thinking_enabled : Bool
  pub thinking_opt_in : Bool
  pub reasoning_effort : Bytes
  pub per_req_phase1_cap : ℤ
  pub per_req_reply_budget : ℤ

-- The locals of apply_request_reasoning, and the opt-in, which it writes on its way.
pub record Wishes : Type 0 where
  pub enable_thinking : Bool
  pub thinking_opt_in : Bool
  pub request_budget_tokens : ℤ
  pub request_reply_budget : ℤ
  pub effort_phase1_cap : ℤ
  pub effort_set : Bool
  pub normalized_effort : Bytes

-- 2092-2101
abbrev pub no_wishes : Wishes
no_wishes = record {
  enable_thinking = false;
  thinking_opt_in = false;
  request_budget_tokens = minus_one;
  request_reply_budget = minus_one;
  effort_phase1_cap = minus_one;
  effort_set = false;
  normalized_effort = [];
}

abbrev pub is_deepseek4 : Limits → Bool
is_deepseek4 c = bytes_eq c.arch (codes "deepseek4")

-- 2111-2138: the tier, and the name of the effort for the model.
unfoldable pub effort_tier : Limits → Bytes → ℤ × Bytes
effort_tier c effort =
    if bytes_eq effort (codes "minimal") || bytes_eq effort (codes "low")
    then (c.effort_tiers.low, codes "low")
    else if bytes_eq effort (codes "medium")
    then (c.effort_tiers.medium, if is_deepseek4 c then codes "high" else codes "medium")
    else if bytes_eq effort (codes "xhigh")
    then (if is_deepseek4 c
        then (c.effort_tiers.high, codes "high")
        else (c.effort_tiers.x_high, codes "x-high"))
    else if bytes_eq effort (codes "x-high")
    then (c.effort_tiers.x_high, if is_deepseek4 c then codes "max" else codes "x-high")
    else if bytes_eq effort (codes "max")
    then (c.effort_tiers.max, codes "max")
    else (c.effort_tiers.high, codes "high")

-- 2103-2145
unfoldable pub apply_reasoning_effort : Limits → Bytes → Wishes → Wishes
unfolding effort_tier
apply_reasoning_effort c effort w =
    if bytes_eq effort (codes "none")
    then record w { enable_thinking = false; normalized_effort = []; effort_set = true }
    else record w {
      effort_phase1_cap = (effort_tier c effort).0;
      normalized_effort = (effort_tier c effort).1;
      effort_set = true;
      enable_thinking = true;
      thinking_opt_in = true;
    }

-- 2193-2200
unfoldable pub default_effort : Limits → Wishes → Wishes
default_effort c w =
    if not (w.enable_thinking && is_deepseek4 c && is_empty w.normalized_effort)
    then w
    else if w.thinking_opt_in
    then record w {
      normalized_effort = codes "high";
      effort_phase1_cap = c.effort_tiers.high;
      effort_set = true;
    }
    else record w { normalized_effort = codes "high" }

-- 2201-2204
unfoldable pub drop_disabled : Wishes → Wishes
drop_disabled w =
    if w.enable_thinking then w else record w { normalized_effort = []; thinking_opt_in = false }

-- 2211-2237
unfoldable pub phase1_cap : Limits → ℤ → Wishes → ℤ
phase1_cap c max_output w =
    if w.thinking_opt_in && nonneg w.request_budget_tokens
    then min_ℤ w.request_budget_tokens c.think_max_tokens
    else if w.thinking_opt_in && w.effort_set
    then min_ℤ w.effort_phase1_cap (max_ℤ (pos 0) (max_output -ℤ c.hard_limit_reply_budget))
    else minus_one

-- 2238-2247
unfoldable pub reply_budget : Limits → Wishes → ℤ
reply_budget c w =
    if w.thinking_opt_in && nonneg w.request_reply_budget
    then min_ℤ w.request_reply_budget c.hard_limit_reply_budget
    else minus_one

-- 2193-2250: what the wishes come to.
unfoldable pub settle : Limits → ℤ → Wishes → RequestBudget
unfolding default_effort drop_disabled phase1_cap reply_budget
settle c max_output wishes =
    let w = drop_disabled (default_effort c wishes) in
    record {
      max_output = max_output;
      thinking_enabled = w.enable_thinking;
      thinking_opt_in = w.thinking_opt_in;
      reasoning_effort = w.normalized_effort;
      per_req_phase1_cap = phase1_cap c max_output w;
      per_req_reply_budget = reply_budget c w;
    }

-- budget_hook
pub record BudgetHook : Type 0 where
  pub close_token_ids : List ℕ
  pub hard_limit_remaining : ℤ

-- 4055-4057
unfoldable pub thinking_ceiling : Limits → RequestBudget → ℤ
thinking_ceiling c r =
    if nonneg r.per_req_phase1_cap then r.per_req_phase1_cap else c.think_max_tokens

-- 4058-4060
unfoldable pub effective_reply_budget : Limits → RequestBudget → ℤ
effective_reply_budget c r =
    if nonneg r.per_req_reply_budget then r.per_req_reply_budget else c.hard_limit_reply_budget

-- 4061-4063
unfoldable pub generation_cap : Limits → RequestBudget → ℤ
unfolding thinking_ceiling effective_reply_budget
generation_cap c r =
    if r.thinking_opt_in
    then min_ℤ (thinking_ceiling c r +ℤ effective_reply_budget c r) r.max_output
    else r.max_output

-- 4075-4080
unfoldable pub budget_hook : Limits → RequestBudget → Option BudgetHook
unfolding effective_reply_budget
budget_hook c r =
    if r.thinking_opt_in
      && not (is_empty c.think_close_token_ids)
      && ltb_ℤ (pos 0) c.hard_limit_reply_budget
    then some (record {
      close_token_ids = c.think_close_token_ids;
      hard_limit_remaining = effective_reply_budget c r;
    })
    else none
