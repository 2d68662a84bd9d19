-- ===== src/Sse/Utf8Tail/Joined.antt =====
-- No byte of a piece is lost when its incomplete code point is held back.
use codex_local_qwen27b.Base.{
  ℕ, ◌-◌, ◌≤◌, ◌≡◌, ◌&&◌, Option, none, some, [], ◌++◌, append-nil, arith, Bytes, ltb, if_cases,
  length, take-append-drop, length-drop,
}
use codex_local_qwen27b.Sse.Utf8Tail.{sequence_length, split_at_lead, split_utf8_tail}

-- The two parts make up the text, and the part that is held back is short.
pub record IsSplit (joined : Bytes) (p : Bytes × Bytes) : Type 0 where
  pub joins : p.0 ++ p.1 ≡ joined
  pub is_short : length p.1 ≤ 3

sequence_length-le : (lead : ℕ) → sequence_length lead ≤ 4
unfolding sequence_length
sequence_length-le lead = ground arith

whole_piece : (joined : Bytes) → IsSplit joined (joined, [])
whole_piece joined = record { joins = append-nil joined; is_short = omega arith }

split_at_lead-IsSplit :
    (joined : Bytes) (i : ℕ) (o : Option ℕ) → IsSplit joined (split_at_lead joined i o)
unfolding split_at_lead
split_at_lead-IsSplit joined i none = whole_piece joined
split_at_lead-IsSplit joined i (some lead) =
    if_cases (IsSplit joined)
      (ltb 0 (sequence_length lead) && ltb (length joined - (i - 1)) (sequence_length lead))
      (λ e. record {
        joins = take-append-drop (i - 1) joined;
        is_short = ground (arith, length-drop (i - 1) joined, sequence_length-le lead);
      })
      (λ e. whole_piece joined)

-- The bytes that a piece passes on and the tail that waits are, in this order, the text that the
-- piece and the earlier tail make, and the tail has at most three bytes.
pub split_utf8_tail-IsSplit : (joined : Bytes) → IsSplit joined (split_utf8_tail joined)
unfolding split_utf8_tail
split_utf8_tail-IsSplit joined = split_at_lead-IsSplit joined _ _
