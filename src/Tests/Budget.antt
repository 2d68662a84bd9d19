-- ===== src/Tests/Budget.antt =====
-- Budgets (server/src/server/http_server.cpp) of three bodies: an effort with an output of 900 tokens, a
-- thinking budget beside an effort, and an effort of another type.
use codex_local_qwen27b.Base.{
  ℕ, ◌≡◌, refl, Bool, true, false, not, ◌||◌, Option, none, some, is_some, [], ◌∷◌, Bytes, bytes_eq,
  codes, arith, if◌then◌else◌, ℤ, pos, minus_one, min_ℤ, max_ℤ, ◌-ℤ◌, ◌+ℤ◌,
}
use codex_local_qwen27b.Json.{JsonLibrary}
use codex_local_qwen27b.ToolCall.Schema.{JsonValues}
use codex_local_qwen27b.Server.Budget.{Limits, RequestBudget, generation_cap}
use codex_local_qwen27b.Server.Budget.Body.{JsonIntegers, apply_request_reasoning, parse_budget}
use codex_local_qwen27b.Server.Budget.Caps.{BudgetFits, parse_budget-BudgetFits}
use codex_local_qwen27b.Server.Budget.Reserve.{KeepsReserve, apply_request_reasoning-KeepsReserve}
use codex_local_qwen27b.Server.Budget.Precedence.{apply_request_reasoning-budget}
use codex_local_qwen27b.Server.Budget.Refusal.{
  IntegersRead, mistyped, apply_request_reasoning-is_some,
}

data Value : Type 0 where
  effort_body : Value
  budget_body : Value
  bad_body : Value
  thinking : Value
  reasoning : Value
  text_of : (s : Bytes) → Value
  number : (n : ℕ) → Value

abbrev holds : Value → Bytes → Bool
holds effort_body k = bytes_eq k (codes "max_tokens") || bytes_eq k (codes "reasoning_effort")
holds budget_body k = bytes_eq k (codes "thinking") || bytes_eq k (codes "reasoning_effort")
holds bad_body k = bytes_eq k (codes "reasoning")
holds thinking k = bytes_eq k (codes "type") || bytes_eq k (codes "budget_tokens")
holds reasoning k = bytes_eq k (codes "effort")
holds _ k = false

abbrev member : Value → Bytes → Value
member effort_body k =
    if bytes_eq k (codes "max_tokens") then number 900 else text_of (codes "high")
member budget_body k = if bytes_eq k (codes "thinking") then thinking else text_of (codes "max")
member bad_body k = reasoning
member thinking k = if bytes_eq k (codes "type") then text_of (codes "enabled") else number 700
member _ k = number 3

abbrev object : Value → Bool
object (text_of s) = false
object (number n) = false
object _ = true

abbrev is_text : Value → Bool
is_text (text_of s) = true
is_text _ = false

abbrev text : Value → Bytes
text (text_of s) = s
text _ = []

abbrev is_count : Value → Bool
is_count (number n) = true
is_count _ = false

abbrev count_of : Value → Option ℤ
count_of (number n) = some (pos n)
count_of _ = none

abbrev small_json : JsonLibrary
small_json = record {
  Json = Value;
  is_array = λ j. false;
  elements = λ j. [];
  is_object = object;
  contains = holds;
  at = member;
  value = λ j k. text (member j k);
}

abbrev small_values : JsonValues small_json
small_values = record {
  is_string = is_text;
  get_string = text;
  is_number_integer = is_count;
  is_number = is_count;
  is_boolean = λ j. false;
  get_bool = λ j. false;
  is_null = λ j. false;
  members = λ j. [];
  empty_object = reasoning;
  parse = λ s. none;
  dump = λ j. [];
}

abbrev small_integers : JsonIntegers small_json
small_integers = record { get_int = count_of }

abbrev limits : Limits
limits = record {
  arch = codes "qwen35";
  effort_tiers = record {
    low = pos 256;
    medium = pos 512;
    high = pos 1024;
    x_high = pos 2048;
    max = pos 4096;
  };
  think_max_tokens = pos 600;
  hard_limit_reply_budget = pos 200;
  default_max_tokens = pos 2000;
  think_close_token_ids = 7 ∷ [];
}

abbrev effort_budget : RequestBudget
effort_budget = record {
  max_output = pos 900;
  thinking_enabled = true;
  thinking_opt_in = true;
  reasoning_effort = codes "high";
  per_req_phase1_cap = pos 700;
  per_req_reply_budget = minus_one;
}

-- The tier of 1024 tokens is narrowed to what the reserve leaves of 900.
effort_gives :
    parse_budget small_json small_values small_integers limits effort_body ≡ some effort_budget
unfolding parse_budget bytes_eq min_ℤ max_ℤ ◌-ℤ◌
effort_gives = refl

caps_example : BudgetFits limits effort_budget
caps_example =
    parse_budget-BudgetFits small_json small_values small_integers limits effort_body effort_budget
      effort_gives

effort_reads :
    apply_request_reasoning small_json small_values small_integers limits effort_body (pos 900)
    ≡ some effort_budget
unfolding apply_request_reasoning bytes_eq min_ℤ max_ℤ ◌-ℤ◌
effort_reads = refl

reserve_example : KeepsReserve limits effort_budget
unfolding bytes_eq
reserve_example =
    apply_request_reasoning-KeepsReserve small_json small_values small_integers limits effort_body
      (pos 900) effort_budget
      (record {
        low = omega arith;
        medium = omega arith;
        high = omega arith;
        x_high = omega arith;
        max = omega arith;
      })
      (omega arith) refl effort_reads refl

effort_generates : generation_cap limits effort_budget ≡ pos 900
unfolding generation_cap min_ℤ ◌+ℤ◌
effort_generates = refl

abbrev token_budget : RequestBudget
token_budget = record {
  max_output = pos 2000;
  thinking_enabled = true;
  thinking_opt_in = true;
  reasoning_effort = codes "max";
  per_req_phase1_cap = pos 600;
  per_req_reply_budget = minus_one;
}

budget_reads :
    apply_request_reasoning small_json small_values small_integers limits budget_body (pos 2000)
    ≡ some token_budget
unfolding apply_request_reasoning bytes_eq min_ℤ max_ℤ ◌-ℤ◌
budget_reads = refl

budget_example : token_budget.per_req_phase1_cap ≡ min_ℤ (pos 700) limits.think_max_tokens
unfolding bytes_eq
budget_example =
    apply_request_reasoning-budget small_json small_values small_integers limits budget_body
      (pos 2000) (pos 700) token_budget
      (record { has_thinking = refl; has_integer = refl; value_is = refl }) refl budget_reads refl

integers_read : IntegersRead small_json small_values small_integers
unfolding IntegersRead
integers_read (number n) e = refl
integers_read effort_body e = cc
integers_read budget_body e = cc
integers_read bad_body e = cc
integers_read thinking e = cc
integers_read reasoning e = cc
integers_read (text_of s) e = cc

refusal_example :
    is_some (apply_request_reasoning small_json small_values small_integers limits bad_body (pos 9))
    ≡ not (mistyped small_json small_values small_integers bad_body)
refusal_example =
    apply_request_reasoning-is_some small_json small_values small_integers integers_read limits
      bad_body (pos 9)

bad_body_refused :
    apply_request_reasoning small_json small_values small_integers limits bad_body (pos 9) ≡ none
unfolding apply_request_reasoning bytes_eq
bad_body_refused = refl
