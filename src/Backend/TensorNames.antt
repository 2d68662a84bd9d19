-- ===== src/Backend/TensorNames.antt =====
-- The names of a snapshot's tensors (server/src/qwen35/qwen35_backend.cpp, 1058-1072).
use codex_local_qwen27b.Base.{
  ℕ, zero, suc, Bool, true, false, ◌&&◌, Option, none, some, [], ◌∷◌, Bytes, codes, starts_with,
  drop, drop_leading, length, is_empty, if◌then◌else◌, ◌==◌, bytes_eq, ℤ, pos, pos_part, ltb_ℤ,
  leb_ℤ, negsuc,
}
use codex_local_qwen27b.Server.Http.{is_space}
use codex_local_qwen27b.Server.Http.Decimal.{is_digit, digits_value}

-- The sign of the numeral that "%d" reads, and its digits.
unfoldable pub signed_digits : Bytes → Bool × Bytes
signed_digits [] = (false, [])
signed_digits (c ∷ cs) =
    if c == b'-' then (true, cs) else if c == b'+' then (false, cs) else (false, c ∷ cs)

abbrev pub starts_digit : Bytes → Bool
starts_digit [] = false
starts_digit (c ∷ cs) = is_digit c

abbrev pub signed : Bool → ℕ → ℤ
signed false n = pos n
signed true zero = pos 0
signed true (suc n) = negsuc n

-- sscanf(text, "<literal>%d", &idx): the index, where it is read.
unfoldable pub scan_index : Bytes → Bytes → Option ℤ
unfolding signed_digits
scan_index literal text =
    let (minus, ds) = signed_digits (drop_leading is_space (drop (length literal) text)) in
    if starts_with literal text && starts_digit ds
    then some (signed minus (digits_value 0 ds))
    else none

-- What a tensor is bound to.
pub data Role : Type 0 where
  cache_k : (idx : ℕ) → Role
  cache_v : (idx : ℕ) → Role
  ssm_state : (idx : ℕ) → Role
  conv_state : (idx : ℕ) → Role
  target_feat : Role
  no_role : Role

-- sscanf(...) == 1 && idx >= 0 && idx < n
unfoldable pub index_below : ℕ → Option ℤ → Option ℕ
index_below n none = none
index_below n (some idx) =
    if leb_ℤ (pos 0) idx && ltb_ℤ idx (pos n) then some (pos_part idx) else none

abbrev pub or_role : Option ℕ → (ℕ → Role) → Role → Role
or_role none role other = other
or_role (some idx) role other = role idx

-- 1059-1071: the branch that a name takes.
unfoldable pub role_of : ℕ → ℕ → Bytes → Role
unfolding scan_index index_below
role_of n_full_attn n_delta text =
    if is_empty text
    then no_role
    else or_role (index_below n_full_attn (scan_index (codes "snap_cache_k_") text)) cache_k (
        or_role (index_below n_full_attn (scan_index (codes "snap_cache_v_") text)) cache_v (
          or_role (index_below n_delta (scan_index (codes "snap_ssm_state_") text)) ssm_state (
            or_role (index_below n_delta (scan_index (codes "snap_conv_state_") text)) conv_state
              (if bytes_eq text (codes "snap_target_feat") then target_feat else no_role))))
