-- ===== src/Tests/Snapshots.antt =====
-- Snapshots of the Qwen 3.5 backend (server/src/qwen35/qwen35_backend.cpp): a model of one attention layer
-- and one other; a context is a list of tensor names.
use codex_local_qwen27b.Base.{
  ◌≡◌, refl, true, false, none, some, List, [], ◌∷◌, Bytes, codes, bytes_eq, all, starts_with,
  drop_leading, ℤ, pos, minus_one, negsuc,
}
use codex_local_qwen27b.Server.Http.Decimal.{digits_value}
use codex_local_qwen27b.Backend.TensorNames.{scan_index}
use codex_local_qwen27b.Backend.Snapshots.{
  PrefixSnapshot, SnapshotOps, SnapshotState, snapshot_adopt, snapshot_ref,
}
use codex_local_qwen27b.Backend.Snapshots.Table.{SlotCall, adopt, call, after, answer, Frees}
use codex_local_qwen27b.Backend.Snapshots.Slots.{Answers, call-Answers}

abbrev Names : Type 0
Names = List Bytes

abbrev empty_snapshot : PrefixSnapshot Names ℤ Bytes
empty_snapshot = record {
  ctx = none;
  buf = none;
  cur_pos = pos 0;
  last_tok = minus_one;
  attn_k_snap = [];
  attn_v_snap = [];
  ssm_state_snap = [];
  conv_state_snap = [];
  target_feat_snap = none;
  kv_k_type = 0;
  max_ctx = pos 0;
  target_feat_cap = pos 0;
}

abbrev small_ops : SnapshotOps ℤ Names ℤ Bytes
small_ops = record {
  snapshot_target_cache = λ cache snap. (false, snap);
  restore_target_cache = λ snap cache. (true, cache);
  free_prefix_snapshot = λ snap. empty_snapshot;
  tensors = λ names. names;
  name = λ t. t;
  cur_pos = λ cache. cache;
  kv_k_type = λ cache. 1;
  max_ctx = λ cache. pos 64;
  target_feat_cap = λ cache. pos 8;
}

abbrev small_state : SnapshotState ℤ Names ℤ Bytes
small_state = record {
  paged_attention = false;
  kvflash_active = false;
  kvflash_tokens = pos 0;
  is_identity = true;
  n_layer = 2;
  full_attention_interval = 2;
  cache = pos 5;
  prefix_snapshots = λ i. empty_snapshot;
}

abbrev names : Names
names =
    codes "snap_target_feat"
    ∷ codes "snap_cache_v_0"
    ∷ codes "snap_cache_k_0"
    ∷ codes "snap_ssm_state_0"
    ∷ codes "snap_conv_state_0"
    ∷ []

small_ops-Frees : Frees small_ops
small_ops-Frees snap = refl

abbrev adoption : SlotCall Names ℤ
adoption = adopt (pos 9) names (some (pos 1)) (pos 5) (pos 7)

slots_example :
    Answers small_ops
      (pos 9)
      (after small_ops adoption small_state (λ j. snapshot_ref small_ops j small_state) (pos 9))
      (call small_ops adoption small_state).1
    × ((call small_ops adoption small_state).0
        ≡ answer small_ops adoption small_state (λ j. snapshot_ref small_ops j small_state))
slots_example = call-Answers small_ops small_ops-Frees adoption (pos 9) small_state

adopts : (snapshot_adopt small_ops (pos 9) names none (pos 5) (pos 7) small_state).0 ≡ true
unfolding snapshot_adopt bytes_eq all starts_with drop_leading digits_value
adopts = refl

-- A context without its feature tensor is refused.
refuses :
    (snapshot_adopt small_ops
      (pos 9)
      (codes "snap_cache_k_0" ∷ [])
      none
      (pos 5)
      (pos 7)
      small_state).0
    ≡ false
unfolding snapshot_adopt bytes_eq all starts_with drop_leading digits_value
refuses = refl

scans : scan_index (codes "snap_cache_k_") (codes "snap_cache_k_-12x") ≡ some (negsuc 11)
unfolding scan_index starts_with drop_leading digits_value
scans = refl
