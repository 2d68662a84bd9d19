-- ===== src/Sse/Utf8Tail.antt =====
-- The incomplete code point at the end of a piece (sse_emitter.cpp, 306-330): it is held back and
-- joined to the next piece.
pub mod Joined
use Prim.Native.Nat.{bit_and}
use mathlib.Core.List.{reverse}
use codex_local_qwen27b.Base.{
  ℕ, zero, suc, ◌-◌, Bool, ◌&&◌, Option, none, some, [], Bytes, ◌==◌, ltb, if◌then◌else◌, length,
  take, drop, get_elem?, count_while,
}

-- (b & 0xC0) == 0x80
unfoldable pub is_continuation : ℕ → Bool
is_continuation b = bit_and b 0xC0 == 0x80

-- The length of the code point that starts with this byte, 0 if none does or it is ASCII.
unfoldable pub sequence_length : ℕ → ℕ
sequence_length lead =
    if bit_and lead 0xE0 == 0xC0
    then 2
    else if bit_and lead 0xF0 == 0xE0
    then 3
    else if bit_and lead 0xF8 == 0xF0
    then 4
    else 0

-- The bytes kept for this piece and the tail that waits, where `i` is the length without the
-- continuation bytes and the byte before them is given.
unfoldable pub split_at_lead : Bytes → ℕ → Option ℕ → Bytes × Bytes
split_at_lead joined i none = (joined, [])
split_at_lead joined i (some lead) =
    if ltb 0 (sequence_length lead) && ltb (length joined - (i - 1)) (sequence_length lead)
    then (take (i - 1) joined, drop (i - 1) joined)
    else (joined, [])

-- joined[i - 1], if i > 0
unfoldable pub byte_before : Bytes → ℕ → Option ℕ
byte_before joined zero = none
byte_before joined (suc i) = get_elem? joined i

unfoldable pub split_utf8_tail : Bytes → Bytes × Bytes
unfolding split_at_lead byte_before
split_utf8_tail joined =
    let i = length joined - count_while is_continuation 3 (reverse joined) in
    split_at_lead joined i (byte_before joined i)
