-- ===== src/Server/Cache.antt =====
-- The caches around a generation (server/src/server/http_server.cpp, 3468-3919): which snapshot the
-- request restores, where it saves a new one, and what becomes of that. The backend, PrefixCache and
-- the disk cache are an interface over one outside state; log lines are left out.
pub mod Lookup
pub mod Disk
pub mod Target
pub mod Finalize
pub mod Balance
pub mod Spared
pub mod Restored
pub mod Settled
pub mod Replay
pub mod Replayed
pub mod Kept
use codex_local_qwen27b.Base.{
  ℕ, Bool, true, false, Option, none, some, List, [], ◌∷◌, if◌then◌else◌, ℤ, pos, minus_one, eqb_ℤ,
  ltb_ℤ,
}

abbrev pub Tokens : Type 0
Tokens = List ℕ

-- The calls that give nothing back (of `save`, only a log line depends on the result), and the two
-- that reserve an entry of PrefixCache, where they succeed.
pub data CacheCall : Type 0 where
  snapshot_free : (slot : ℤ) → CacheCall
  prepared_inline : (slot cut : ℤ) → CacheCall
  prepared_full : (slot : ℤ) → CacheCall
  confirm_full_snap : (slot : ℤ) (key : Tokens) (position : ℤ) → CacheCall
  abort_full_snap : (slot : ℤ) → CacheCall
  confirm_inline_snap : (slot cut : ℤ) (prompt : Tokens) → CacheCall
  abort_inline_snap : (slot : ℤ) → CacheCall
  cancel_inline_snap : (slot : ℤ) → CacheCall
  learn_layout : (slot : ℤ) → CacheCall
  save : (slot : ℤ) (prompt : Tokens) → CacheCall
  maybe_store_continued : (slot : ℤ) (all_tokens : Tokens) (position : ℤ) → CacheCall

-- What the backend, PrefixCache and the disk cache do, on an outside state `S`.
pub record Stores (S : Type 0) : Type 0 where
  pub perform : CacheCall → S → S
  pub snapshot_used : ℤ → S → Bool
  pub snapshot_cur_pos : ℤ → S → ℤ
  pub snapshot_save : ℤ → S → Bool × S
  -- generate, for a prompt, without new tokens, saving at a position: whether the result is ok.
  pub generate : Tokens → ℤ → ℤ → S → Bool × S
  -- restore_and_generate from a slot, and release_scratch behind it.
  pub restore_and_generate : ℤ → Tokens → ℤ → ℤ → S → Bool × S
  pub lookup_full : Tokens → S → ℤ × ℤ × S
  pub lookup : Tokens → S → ℤ × ℤ × S
  pub prepare_inline_snap : Tokens → ℤ → Bool → ℤ → ℤ → S → ℤ × ℤ × S
  pub prepare_full_snap : Tokens → S → ℤ × S
  pub disk_disabled : Bool
  pub disk_lookup : Tokens → ℤ → S → Bool × S
  pub cold_prefix_boundary : Tokens → List ℤ → S → ℤ
  pub continued_interval : ℤ
  -- find_all_boundaries, with the chat markers of PrefixCache
  pub find_all_boundaries : Tokens → List ℤ
  -- disk_prefix_cache_fixed_boundary and disk_prefix_cache_auto_boundary
  pub fixed_boundary : ℤ → ℤ → ℤ → ℤ
  pub auto_boundary : Tokens → List Tokens → ℤ → List ℤ → ℤ → ℤ
  pub staging_slot : ℤ

pub data DiskPrefixCacheMode : Type 0 where
  off fixed auto full : DiskPrefixCacheMode

-- HttpServer's own tables, and the calls so far, the newest first.
pub record Caches (S : Type 0) : Type 0 where
  pub outside : S
  pub calls : List CacheCall
  pub slot_tokens : ℤ → Option Tokens
  pub agent_turn_cache_slots : ℤ → Bool
  pub recent_disk_prompts : List Tokens

-- GenerationCacheState
pub record GenerationCacheState : Type 0 where
  pub cache_slot : ℤ
  pub prefix_len : ℤ
  pub using_restore : Bool
  pub disk_hit : Bool
  pub snap_slot : ℤ
  pub snap_cut : ℤ
  pub snap_prepared : Bool
  pub full_snap_slot : ℤ
  pub full_snap_pos : ℤ
  pub full_snap_prepared : Bool
  pub full_snap_key_effective : Bool
  pub mode : DiskPrefixCacheMode
  pub fixed_tokens : ℤ
  pub auto_window : ℤ

-- What is read of the request, of the prepared prompt and of the configuration.
pub record CacheRequest : Type 0 where
  pub prompt_tokens : Tokens
  pub compressed : Bool
  pub flowkv : Bool
  pub full_cache_hit_slot : ℤ
  pub full_cache_hit_len : ℤ
  pub ppp_rewrote : Bool
  pub prefer_tools_boundary : Bool
  pub prefer_inline_snap : Bool
  pub forced_cut : ℤ
  pub policy_mode : DiskPrefixCacheMode
  pub policy_fixed_tokens : ℤ
  pub policy_auto_window : ℤ
  pub policy_compress : Bool
  pub disk_cache_min_tokens : ℤ
  pub disk_cache_cold_max_tokens : ℤ

-- A prompt, as it is served; the request's snapshot (`none`: not written); the caches.
pub record Preparing (S : Type 0) : Type 0 where
  pub effective_prompt : Tokens
  pub cache : GenerationCacheState
  pub request_snap : Option (ℤ × ℤ)
  pub caches : Caches S

-- A table with one entry written.
abbrev pub write_slot {ℓ} : {A : Type ℓ} → (ℤ → A) → ℤ → A → ℤ → A
write_slot table slot value i = if eqb_ℤ i slot then value else table i

module _ {S : Type 0} where
  unfoldable pub act : Stores S → CacheCall → Caches S → Caches S
  act stores call w = record w { outside = stores.perform call w.outside; calls = call ∷ w.calls }

  -- 3915-3919
  unfoldable pub forget_inline_slot_metadata : ℤ → Caches S → Caches S
  forget_inline_slot_metadata slot w = if ltb_ℤ slot (pos 0) then w else record w {
    agent_turn_cache_slots = write_slot w.agent_turn_cache_slots slot false;
    slot_tokens = write_slot w.slot_tokens slot none;
  }
