-- ===== src/Server/Prompt.antt =====
-- Tests on prompts and token sequences (http_server.cpp, 198-222, 235-246, 291-300 and 578-597;
-- qwen35_backend.cpp, 67-96). An `int` that the code keeps positive is a number here, and a
-- negative one is not modelled.
pub mod Match
pub mod Recent
use mathlib.Core.List.{reverse}
use codex_local_qwen27b.Base.{
  ℕ, zero, suc, ◌+◌, ◌-◌, min, max, Bool, true, false, not, ◌&&◌, ◌||◌, Option, none, some, List,
  [], ◌∷◌, ◌++◌, Bytes, codes, ◌==◌, ltb, leb, if◌then◌else◌, length, is_empty, take, drop, any,
  get_elem?, bytes_eq, starts_with, drop_trailing, is_ws,
}

-- 235-246
unfoldable pub prompt_ends_in_open_think : Bytes → Bool
prompt_ends_in_open_think prompt =
    let end = length (drop_trailing is_ws prompt) in
    leb 7 end && bytes_eq (take 7 (drop (end - 7) prompt)) (codes "<think>")

-- std::find_end: the last position where the needle stands
unfoldable pub find_end : List ℕ → List ℕ → Option ℕ
find_end [] needle = none
find_end (t ∷ ts) needle =
    let rest = find_end ts needle in
    elim rest [
      | some i ↦ some (suc i)
      | none ↦ if starts_with needle (t ∷ ts) then some 0 else none
    ]

-- The end of the match and its width. The struct is declared in http_server.h, which the repository
-- does not have; the empty one that a search without a match returns is `none`.
pub record PflashQueryWindow : Type 0 where
  pub window_end : ℕ
  pub width : ℕ

-- 213-220: `n` widths are left, the next is `narrowest + n - 1`.
unfoldable pub query_window_loop : List ℕ → List ℕ → ℕ → ℕ → Option PflashQueryWindow
unfolding find_end
query_window_loop prompt query narrowest zero = none
query_window_loop prompt query narrowest (suc n) =
    let rest = query_window_loop prompt query narrowest n in
    elim (find_end prompt (drop (length query - (narrowest + n)) query)) [
      | some i ↦ some (record { window_end = i + (narrowest + n); width = narrowest + n })
      | none ↦ rest
    ]

unfoldable pub find_pflash_query_window : List ℕ → List ℕ → ℕ → ℕ → Option PflashQueryWindow
unfolding query_window_loop
find_pflash_query_window prompt query search_end max_tokens =
    let widest = min max_tokens (length query) in
    let narrowest = min 4 widest in
    if is_empty prompt
      || is_empty query
      || ltb search_end 1
      || ltb (length prompt) search_end
      || ltb max_tokens 1
    then none
    else query_window_loop (take search_end prompt) query narrowest (suc (widest - narrowest))

-- qwen35_backend.cpp, 75-80: the ends from `first_end` on, `n` of them
unfoldable pub sequence_ends_in : List ℕ → List ℕ → ℕ → ℕ → Bool
sequence_ends_in tokens needle first_end zero = false
sequence_ends_in tokens needle first_end (suc n) =
    let rest = sequence_ends_in tokens needle (suc first_end) n in
    starts_with needle (drop (first_end - length needle) tokens) || rest

-- qwen35_backend.cpp, 67-82
unfoldable pub tokens_contain_recent_sequence : List ℕ → List ℕ → ℕ → Bool
unfolding sequence_ends_in
tokens_contain_recent_sequence tokens needle max_trailing =
    let last_end = length tokens in
    let first_end =
      max (length needle)
        (if ltb max_trailing last_end then last_end - max_trailing else length needle) in
    if is_empty needle || ltb last_end (length needle)
    then false
    else sequence_ends_in tokens needle first_end (suc last_end - first_end)

-- qwen35_backend.cpp, 84-96: the last `max_trailing + 1` tokens, from the last on
unfoldable pub tokens_have_recent_any : List ℕ → List ℕ → ℕ → Bool
tokens_have_recent_any tokens candidates max_trailing =
    if is_empty tokens || is_empty candidates
    then false
    else any (λ token. any (λ c. c == token) candidates) (take (suc max_trailing) (reverse tokens))
