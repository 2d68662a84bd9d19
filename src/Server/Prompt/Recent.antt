-- ===== src/Server/Prompt/Recent.antt =====
-- The search for a sequence among the last tokens (qwen35_backend.cpp, 67-82).
use codex_local_qwen27b.Base.{
  ℕ, zero, suc, ◌+◌, ◌-◌, ◌≤◌, ◌<◌, max, ◌≡◌, refl, inl, inr, Bool, true, false, ◌||◌, List, arith,
  ltb, if◌then◌else◌, if_cases, length, drop, is_empty, starts_with, Bool-cases,
}
use native.Mathlib.Decide.{ℕ_discrete}
use codex_local_qwen27b.Server.Prompt.{sequence_ends_in, tokens_contain_recent_sequence}

module _ (tokens needle : List ℕ) where
  -- The needle ends at a position from `low` to `high`.
  pub record EndsBetween (low high : ℕ) : Type 0 where
    pub end : ℕ
    pub from_low : low ≤ end
    pub to_high : end ≤ high
    pub stands : starts_with needle (drop (end - length needle) tokens) ≡ true

  abbrev ends_at : ℕ → Bool
  ends_at e = starts_with needle (drop (e - length needle) tokens)

  ends_in_sound :
      (n first_end : ℕ)
      → sequence_ends_in tokens needle first_end n ≡ true
      → EndsBetween first_end (first_end + n - 1)
  unfolding sequence_ends_in
  ends_in_sound zero first_end e = cc
  ends_in_sound (suc n) first_end e = elim (Bool-cases (ends_at first_end)) [
    | inl h ↦ record { end = first_end; from_low = omega arith; to_high = omega arith; stands = h }
    | inr h ↦
        let rest = ends_in_sound n (suc first_end) (ground (arith, h)) in
        record {
          end = rest.end;
          from_low = omega (arith, rest.from_low);
          to_high = omega (arith, rest.to_high);
          stands = rest.stands;
        }
  ]

  ends_in_complete :
      (n first_end e : ℕ)
      → first_end ≤ e
      → e < first_end + n
      → ends_at e ≡ true
      → sequence_ends_in tokens needle first_end n ≡ true
  unfolding sequence_ends_in
  ends_in_complete zero first_end e l h s = absurd (omega arith)
  ends_in_complete (suc n) first_end e l h s = elim (ℕ_discrete first_end e) [
    | yes q ↦ rw (q, s) refl
    | no q ↦ ground (arith, ends_in_complete n (suc first_end) e (omega arith) (omega arith) s)
  ]

  module _ (max_trailing : ℕ) where
    abbrev first : ℕ
    first =
        max (length needle)
          (if ltb max_trailing (length tokens) then length tokens - max_trailing else length needle)

    -- Where the search answers true, the needle stands among the tokens and ends at most
    -- `max_trailing` tokens before their end.
    pub recent_sequence_sound :
        tokens_contain_recent_sequence tokens needle max_trailing ≡ true
        → EndsBetween (max (length needle) (length tokens - max_trailing)) (length tokens)
    unfolding tokens_contain_recent_sequence
    recent_sequence_sound e =
        elim (Bool-cases (is_empty needle || ltb (length tokens) (length needle))) [
          | inl q ↦ absurd (ground arith)
          | inr q ↦
              let h = ends_in_sound (suc (length tokens) - first) first (ground (arith, q, e)) in
              record {
                end = h.end;
                from_low = ground (arith, h.from_low);
                to_high = ground (arith, h.from_low, h.to_high);
                stands = h.stands;
              }
        ]

    -- A needle that is not empty and ends at most `max_trailing` tokens before the end is found.
    pub recent_sequence_complete :
        (e : ℕ)
        → is_empty needle ≡ false
        → length needle ≤ e
        → e ≤ length tokens
        → length tokens - max_trailing ≤ e
        → starts_with needle (drop (e - length needle) tokens) ≡ true
        → tokens_contain_recent_sequence tokens needle max_trailing ≡ true
    unfolding tokens_contain_recent_sequence
    recent_sequence_complete e ne l h t s =
        if_cases (λ z. z ≡ true) (is_empty needle || ltb (length tokens) (length needle))
          (λ q. absurd (ground arith))
          (λ q.
            ends_in_complete (suc (length tokens) - first) first e (ground arith) (ground arith) s)
