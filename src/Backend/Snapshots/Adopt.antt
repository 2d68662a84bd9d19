-- ===== src/Backend/Snapshots/Adopt.antt =====
-- When a snapshot is adopted, and what the backend then says of its slot (1038-1106).
use codex_local_qwen27b.Base.{
  ℕ, ◌-◌, ◌/◌, ◌≡◌, refl, ap, sym, ◌∙◌, Bool, true, false, ◌&&◌, ◌||◌, Option, none, some, is_some,
  List, [], ◌∷◌, arith, all, any, if_cases, ℤ,
}
use codex_local_qwen27b.Backend.Snapshots.{
  PrefixSnapshot, SnapshotRef, SnapshotOps, SnapshotState, bind_role, rebind, is_complete, unbound,
  cleared, adopted, adopt_into, ref_of,
}
use codex_local_qwen27b.Backend.TensorNames.{
  Role, cache_k, cache_v, ssm_state, conv_state, target_feat, role_of,
}
use codex_local_qwen27b.Backend.Snapshots.Bound.{
  all_below, is_at, write, write_all, all-write_all, or_none, or_shift,
}

-- The index at which a role stands, in each of the four vectors.
abbrev pub k_index : Role → Option ℕ
k_index (cache_k i) = some i
k_index _ = none

abbrev pub v_index : Role → Option ℕ
v_index (cache_v i) = some i
v_index _ = none

abbrev pub ssm_index : Role → Option ℕ
ssm_index (ssm_state i) = some i
ssm_index _ = none

abbrev pub conv_index : Role → Option ℕ
conv_index (conv_state i) = some i
conv_index _ = none

abbrev pub is_feat : Role → Bool
is_feat target_feat = true
is_feat _ = false

module _ {L C B T : Type 0} (ops : SnapshotOps L C B T) (n_full_attn n_delta : ℕ) where
  abbrev pub role : T → Role
  role t = role_of n_full_attn n_delta (ops.name t)

  -- The loop on one of the vectors: `index` picks its role, and a tensor's binding writes it.
  rebind-vector :
      (vector : PrefixSnapshot C B T → List (Option T)) (index : Role → Option ℕ)
      → ((r : Role) (t : T) (s : PrefixSnapshot C B T)
          → vector (bind_role ops r t s) ≡ write (index r) t (vector s))
      → (ts : List T) (s : PrefixSnapshot C B T)
      → vector (rebind ops n_full_attn n_delta ts s) ≡ write_all (λ t. index (role t)) ts (vector s)
  unfolding rebind write_all
  rebind-vector vector index law [] s = refl
  rebind-vector vector index law (t ∷ ts) s =
      rebind-vector vector index law ts (bind_role ops (role t) t s)
      ∙ ap (write_all (λ t. index (role t)) ts) (law (role t) t s)

  -- bind_role writes each vector by its own index.
  rebind-k :
      (ts : List T) (s : PrefixSnapshot C B T)
      → (rebind ops n_full_attn n_delta ts s).attn_k_snap
        ≡ write_all (λ t. k_index (role t)) ts s.attn_k_snap
  unfolding bind_role
  rebind-k = rebind-vector PrefixSnapshot.attn_k_snap k_index (λ r t s. ground arith)

  rebind-v :
      (ts : List T) (s : PrefixSnapshot C B T)
      → (rebind ops n_full_attn n_delta ts s).attn_v_snap
        ≡ write_all (λ t. v_index (role t)) ts s.attn_v_snap
  unfolding bind_role
  rebind-v = rebind-vector PrefixSnapshot.attn_v_snap v_index (λ r t s. ground arith)

  rebind-ssm :
      (ts : List T) (s : PrefixSnapshot C B T)
      → (rebind ops n_full_attn n_delta ts s).ssm_state_snap
        ≡ write_all (λ t. ssm_index (role t)) ts s.ssm_state_snap
  unfolding bind_role
  rebind-ssm = rebind-vector PrefixSnapshot.ssm_state_snap ssm_index (λ r t s. ground arith)

  rebind-conv :
      (ts : List T) (s : PrefixSnapshot C B T)
      → (rebind ops n_full_attn n_delta ts s).conv_state_snap
        ≡ write_all (λ t. conv_index (role t)) ts s.conv_state_snap
  unfolding bind_role
  rebind-conv = rebind-vector PrefixSnapshot.conv_state_snap conv_index (λ r t s. ground arith)

  bind-feat :
      (r : Role) (t : T) (s : PrefixSnapshot C B T)
      → is_some (bind_role ops r t s).target_feat_snap ≡ (is_feat r || is_some s.target_feat_snap)
  unfolding bind_role
  bind-feat r t s = ground arith

  rebind-feat :
      (ts : List T) (s : PrefixSnapshot C B T)
      → is_some (rebind ops n_full_attn n_delta ts s).target_feat_snap
        ≡ (any (λ t. is_feat (role t)) ts || is_some s.target_feat_snap)
  unfolding rebind any
  rebind-feat [] s = refl
  rebind-feat (t ∷ ts) s =
      rebind-feat ts (bind_role ops (role t) t s)
      ∙ ap (λ b. any (λ u. is_feat (role u)) ts || b) (bind-feat (role t) t s)
      ∙ or_shift (any (λ u. is_feat (role u)) ts) (is_feat (role t)) (is_some s.target_feat_snap)

  -- Each layer has its tensors among these, and there is a feature tensor.
  pub has_all : List T → Bool
  has_all ts =
      all_below n_full_attn (λ i. any (λ t. is_at i (k_index (role t))) ts)
      && all_below n_full_attn (λ i. any (λ t. is_at i (v_index (role t))) ts)
      && all_below n_delta (λ i. any (λ t. is_at i (ssm_index (role t))) ts)
      && all_below n_delta (λ i. any (λ t. is_at i (conv_index (role t))) ts)
      && any (λ t. is_feat (role t)) ts

  rebind-is_complete :
      (ts : List T) (s : PrefixSnapshot C B T)
      → is_complete ops (rebind ops n_full_attn n_delta ts (unbound ops n_full_attn n_delta s))
        ≡ has_all ts
  unfolding is_complete unbound has_all
  rebind-is_complete ts s =
      let u = unbound ops n_full_attn n_delta s in
      let k =
        ap (all is_some) (rebind-k ts u) ∙ all-write_all (λ t. k_index (role t)) n_full_attn ts in
      let v =
        ap (all is_some) (rebind-v ts u) ∙ all-write_all (λ t. v_index (role t)) n_full_attn ts in
      let m =
        ap (all is_some) (rebind-ssm ts u) ∙ all-write_all (λ t. ssm_index (role t)) n_delta ts in
      let c =
        ap (all is_some) (rebind-conv ts u) ∙ all-write_all (λ t. conv_index (role t)) n_delta ts in
      let f = rebind-feat ts u ∙ or_none (any (λ t. is_feat (role t)) ts) false refl in
      rw (k, v, m, c, f) refl

module _ {L C B T : Type 0} (ops : SnapshotOps L C B T) where
  bind-ctx : (r : Role) (t : T) (s : PrefixSnapshot C B T) → (bind_role ops r t s).ctx ≡ s.ctx
  unfolding bind_role
  bind-ctx r t s = ground arith

  rebind-ctx :
      (n m : ℕ) (ts : List T) (s : PrefixSnapshot C B T) → (rebind ops n m ts s).ctx ≡ s.ctx
  unfolding rebind
  rebind-ctx n m [] s = refl
  rebind-ctx n m (t ∷ ts) s =
      rebind-ctx n m ts (bind_role ops (role_of n m (ops.name t)) t s)
      ∙ bind-ctx (role_of n m (ops.name t)) t s

  -- Whether the context has every tensor that the model's layers need.
  unfoldable pub fits_model : C → SnapshotState L C B T → Bool
  fits_model ctx b =
      has_all ops (b.n_layer / b.full_attention_interval)
        (b.n_layer - b.n_layer / b.full_attention_interval) (ops.tensors ctx)

  -- The reference to a snapshot that is adopted if `fits`.
  abbrev pub ref_if : Bool → SnapshotRef C B → Option (SnapshotRef C B)
  ref_if true ref = some ref
  ref_if false ref = none

  abbrev pub Adopts : Bool → SnapshotRef C B → Bool × PrefixSnapshot C B T → Type 0
  Adopts fits ref r = (r.0 ≡ fits) × (ref_of ops r.1 ≡ ref_if fits ref)

  pub adopt_into-Adopts :
      (ctx : C) (buf : Option B) (cur_pos last_tok : ℤ) (b : SnapshotState L C B T)
      (snap : PrefixSnapshot C B T)
      → snap.ctx ≡ none
      → Adopts
          (fits_model ctx b)
          (record { ctx = ctx; buf = buf; cur_pos = cur_pos; last_tok = last_tok })
          (adopt_into ops ctx buf cur_pos last_tok b snap)
  unfolding adopt_into fits_model ref_of adopted cleared unbound
  adopt_into-Adopts ctx buf cur_pos last_tok b snap e =
      let n_full_attn = b.n_layer / b.full_attention_interval in
      let n_delta = b.n_layer - n_full_attn in
      let ts = ops.tensors ctx in
      let bare = unbound ops n_full_attn n_delta snap in
      let bound = rebind ops n_full_attn n_delta ts bare in
      let c = rebind-is_complete ops n_full_attn n_delta ts snap in
      let ref : SnapshotRef C B = record {
        ctx = ctx;
        buf = buf;
        cur_pos = cur_pos;
        last_tok = last_tok;
      } in
      if_cases (Adopts (fits_model ctx b) ref) (is_complete ops bound)
        (λ d. let f = sym d ∙ c in (f, ap (λ z. ref_if z ref) f))
        (λ d.
          let f = sym d ∙ c in
          (f, rw (ref_of, rebind-ctx n_full_attn n_delta ts bare ∙ e) (ap (λ z. ref_if z ref) f)))
