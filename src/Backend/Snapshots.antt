-- ===== src/Backend/Snapshots.antt =====
-- The snapshots of the target's state (server/src/qwen35/qwen35_backend.cpp, 974-1106). Contexts `C`,
-- buffers `B` and tensors `T` are those of ggml; what is called of ggml and of the target's cache `L`
-- is an interface.
pub mod Bound
pub mod Adopt
pub mod Table
mod Writes
pub mod Slots
use codex_local_qwen27b.Base.{
  ℕ, zero, suc, ◌+◌, ◌-◌, ◌/◌, Bool, true, false, not, ◌&&◌, ◌||◌, Option, none, some, is_some,
  List, [], ◌∷◌, Bytes, codes, starts_with, drop, drop_leading, length, all, is_empty, get_elem?,
  if◌then◌else◌, ltb, ◌==◌, bytes_eq, ℤ, pos, minus_one, pos_part, eqb_ℤ, ltb_ℤ, leb_ℤ, negsuc,
}
use codex_local_qwen27b.Backend.TensorNames.{
  Role, cache_k, cache_v, ssm_state, conv_state, target_feat, no_role, role_of,
}

-- PrefixSnapshot
pub record PrefixSnapshot (C B T : Type 0) : Type 0 where
  pub ctx : Option C
  pub buf : Option B
  pub cur_pos : ℤ
  pub last_tok : ℤ
  pub attn_k_snap : List (Option T)
  pub attn_v_snap : List (Option T)
  pub ssm_state_snap : List (Option T)
  pub conv_state_snap : List (Option T)
  pub target_feat_snap : Option T
  pub kv_k_type : ℕ
  pub max_ctx : ℤ
  pub target_feat_cap : ℤ

-- SnapshotRef, as its default constructor leaves it (`none`) or filled.
pub record SnapshotRef (C B : Type 0) : Type 0 where
  pub ctx : C
  pub buf : Option B
  pub cur_pos : ℤ
  pub last_tok : ℤ

-- What the backend calls.
pub record SnapshotOps (L C B T : Type 0) : Type 0 where
  -- snapshot_target_cache, restore_target_cache, free_prefix_snapshot
  pub snapshot_target_cache : L → PrefixSnapshot C B T → Bool × PrefixSnapshot C B T
  pub restore_target_cache : PrefixSnapshot C B T → L → Bool × L
  pub free_prefix_snapshot : PrefixSnapshot C B T → PrefixSnapshot C B T
  -- The tensors of a context, in the order of ggml_get_first_tensor and ggml_get_next_tensor.
  pub tensors : C → List T
  pub name : T → Bytes
  -- Fields of the target's cache.
  pub cur_pos : L → ℤ
  pub kv_k_type : L → ℕ
  pub max_ctx : L → ℤ
  pub target_feat_cap : L → ℤ

-- The part of the backend that the snapshots touch. `is_identity` is that of the pager.
pub record SnapshotState (L C B T : Type 0) : Type 0 where
  pub paged_attention : Bool
  pub kvflash_active : Bool
  pub kvflash_tokens : ℤ
  pub is_identity : Bool
  pub n_layer : ℕ
  pub full_attention_interval : ℕ
  pub cache : L
  pub prefix_snapshots : ℤ → PrefixSnapshot C B T

-- 294
abbrev pub prefix_slots : ℤ
prefix_slots = pos 64

-- slot < 0 || slot >= PREFIX_SLOTS
unfoldable pub is_outside : ℤ → Bool
is_outside slot = ltb_ℤ slot (pos 0) || leb_ℤ prefix_slots slot

-- A vector with one entry written.
abbrev pub set {ℓ} : {A : Type ℓ} → List A → ℕ → A → List A
set [] i v = []
set (x ∷ xs) zero v = v ∷ xs
set (x ∷ xs) (suc i) v = x ∷ set xs i v

-- assign(n, nullptr)
abbrev pub nulls : {T : Type 0} → ℕ → List (Option T)
nulls zero = []
nulls (suc n) = none ∷ nulls n

module _ {L C B T : Type 0} (ops : SnapshotOps L C B T) where
  -- prefix_snapshots_[slot] is written.
  abbrev pub with_snapshot :
      ℤ → PrefixSnapshot C B T → SnapshotState L C B T → SnapshotState L C B T
  with_snapshot slot snap b = record b {
    prefix_snapshots = λ i. if eqb_ℤ i slot then snap else b.prefix_snapshots i;
  }

  -- 974-1004
  unfoldable pub snapshot_save : ℤ → SnapshotState L C B T → Bool × SnapshotState L C B T
  unfolding is_outside
  snapshot_save slot b =
      let (saved, snap) = ops.snapshot_target_cache b.cache (b.prefix_snapshots slot) in
      if b.paged_attention
      then (false, b)
      else if is_outside slot
      then (false, b)
      else if b.kvflash_active
          && (ltb_ℤ b.kvflash_tokens (ops.cur_pos b.cache) || not b.is_identity)
      then (false, b)
      else (saved, with_snapshot slot snap b)

  -- 1006-1009
  unfoldable pub snapshot_free : ℤ → SnapshotState L C B T → SnapshotState L C B T
  unfolding is_outside
  snapshot_free slot b =
      if is_outside slot
      then b
      else with_snapshot slot (ops.free_prefix_snapshot (b.prefix_snapshots slot)) b

  -- 1011-1014
  unfoldable pub snapshot_used : ℤ → SnapshotState L C B T → Bool
  unfolding is_outside
  snapshot_used slot b = if is_outside slot then false else is_some (b.prefix_snapshots slot).ctx

  -- 1016-1019
  unfoldable pub restore_target_cache_from_snapshot :
      ℤ → SnapshotState L C B T → Bool × SnapshotState L C B T
  unfolding is_outside
  restore_target_cache_from_snapshot slot b =
      let (restored, cache) = ops.restore_target_cache (b.prefix_snapshots slot) b.cache in
      if is_outside slot || not (is_some (b.prefix_snapshots slot).ctx)
      then (false, b)
      else (restored, record b { cache = cache })

  -- 1021-1024
  unfoldable pub snapshot_cur_pos : ℤ → SnapshotState L C B T → ℤ
  unfolding is_outside
  snapshot_cur_pos slot b = if is_outside slot then pos 0 else (b.prefix_snapshots slot).cur_pos

  -- 1029-1035
  unfoldable pub ref_of : PrefixSnapshot C B T → Option (SnapshotRef C B)
  ref_of snap = elim snap.ctx [
    | none ↦ none
    | some ctx ↦
        some
          (record { ctx = ctx; buf = snap.buf; cur_pos = snap.cur_pos; last_tok = snap.last_tok })
  ]

  -- 1026-1036
  unfoldable pub snapshot_ref : ℤ → SnapshotState L C B T → Option (SnapshotRef C B)
  unfolding is_outside ref_of
  snapshot_ref slot b = if is_outside slot then none else ref_of (b.prefix_snapshots slot)

  -- 1059-1071: one tensor is bound.
  unfoldable pub bind_role : Role → T → PrefixSnapshot C B T → PrefixSnapshot C B T
  bind_role (cache_k idx) t snap = record snap { attn_k_snap = set snap.attn_k_snap idx (some t) }
  bind_role (cache_v idx) t snap = record snap { attn_v_snap = set snap.attn_v_snap idx (some t) }
  bind_role (ssm_state idx) t snap = record snap {
    ssm_state_snap = set snap.ssm_state_snap idx (some t);
  }
  bind_role (conv_state idx) t snap = record snap {
    conv_state_snap = set snap.conv_state_snap idx (some t);
  }
  bind_role target_feat t snap = record snap { target_feat_snap = some t }
  bind_role no_role t snap = snap

  -- 1058-1072
  unfoldable pub rebind : ℕ → ℕ → List T → PrefixSnapshot C B T → PrefixSnapshot C B T
  unfolding bind_role role_of
  rebind n_full_attn n_delta [] snap = snap
  rebind n_full_attn n_delta (t ∷ ts) snap =
      rebind n_full_attn n_delta ts (bind_role (role_of n_full_attn n_delta (ops.name t)) t snap)

  -- 1075-1095: every tensor that is needed is there.
  unfoldable pub is_complete : PrefixSnapshot C B T → Bool
  is_complete snap =
      all is_some snap.attn_k_snap
      && all is_some snap.attn_v_snap
      && all is_some snap.ssm_state_snap
      && all is_some snap.conv_state_snap
      && is_some snap.target_feat_snap

  -- 1051-1055
  unfoldable pub unbound : ℕ → ℕ → PrefixSnapshot C B T → PrefixSnapshot C B T
  unbound n_full_attn n_delta snap = record snap {
    attn_k_snap = nulls n_full_attn;
    attn_v_snap = nulls n_full_attn;
    ssm_state_snap = nulls n_delta;
    conv_state_snap = nulls n_delta;
    target_feat_snap = none;
  }

  -- 1077-1079: what a refusal leaves of the tensors.
  unfoldable pub cleared : PrefixSnapshot C B T → PrefixSnapshot C B T
  cleared snap = record snap {
    attn_k_snap = [];
    attn_v_snap = [];
    ssm_state_snap = [];
    conv_state_snap = [];
    target_feat_snap = none;
  }

  -- 1097-1103
  unfoldable pub adopted : C → Option B → ℤ → ℤ → L → PrefixSnapshot C B T → PrefixSnapshot C B T
  adopted ctx buf cur_pos last_tok cache snap = record snap {
    ctx = some ctx;
    buf = buf;
    cur_pos = cur_pos;
    last_tok = last_tok;
    kv_k_type = ops.kv_k_type cache;
    max_ctx = ops.max_ctx cache;
    target_feat_cap = ops.target_feat_cap cache;
  }

  -- 1045-1105, on the freed snapshot of the slot
  unfoldable pub adopt_into :
      C
      → Option B
      → ℤ
      → ℤ
      → SnapshotState L C B T
      → PrefixSnapshot C B T
      → Bool × PrefixSnapshot C B T
  unfolding rebind is_complete unbound cleared adopted
  adopt_into ctx buf cur_pos last_tok b snap =
      let n_full_attn = b.n_layer / b.full_attention_interval in
      let n_delta = b.n_layer - n_full_attn in
      let bound = rebind n_full_attn n_delta (ops.tensors ctx) (unbound n_full_attn n_delta snap) in
      if is_complete bound
      then (true, adopted ctx buf cur_pos last_tok b.cache bound)
      else (false, cleared bound)

  -- 1038-1106
  unfoldable pub snapshot_adopt :
      ℤ → C → Option B → ℤ → ℤ → SnapshotState L C B T → Bool × SnapshotState L C B T
  unfolding is_outside snapshot_free adopt_into
  snapshot_adopt slot ctx buf cur_pos last_tok b =
      let freed = snapshot_free slot b in
      let (done, snap) = adopt_into ctx buf cur_pos last_tok freed (freed.prefix_snapshots slot) in
      if b.paged_attention || is_outside slot
      then (false, b)
      else (done, with_snapshot slot snap freed)
