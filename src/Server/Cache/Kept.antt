-- ===== src/Server/Cache/Kept.antt =====
-- The server's own tables: the slots of agents' turns, the tokens behind the slots, recent prompts.
pub mod Restore
pub mod Target
pub mod End
pub mod Request
use codex_local_qwen27b.Base.{
  ℕ, ◌+◌, ◌≤◌, ◌≡◌, refl, ap, sym, ◌∙◌, Bool, true, false, not, ◌&&◌, ◌||◌, Option, none, some,
  is_some, List, [], arith, ◌∷◌, ◌++◌, minus_one, if◌then◌else◌, if_cases, if_both, Option-cases,
  inl, inr, bytes_eq, length, take, length-take, ℤ, pos, eqb_ℤ, ltb_ℤ, leb_ℤ, apply_if,
}
use codex_local_qwen27b.Server.Cache.{
  Tokens, CacheCall, snapshot_free, prepared_inline, prepared_full, cancel_inline_snap,
  confirm_inline_snap, Stores, Caches, GenerationCacheState, CacheRequest, Preparing, act,
  write_slot, forget_inline_slot_metadata,
}
use codex_local_qwen27b.Server.Cache.Lookup.{
  size, prefix, is_full, fits_prompt, new_cache_state, outside_is, restore_full, lookup_exact,
  lookup_inline, should_clamp_flowkv_disk_cache, system_end, scope_disk, selected_boundary,
  lookup_lengths,
}
use codex_local_qwen27b.Server.Cache.Disk.{
  take_hit, disk_loop, lookup_disk, prefill_to, prefill_scoped, drop_restore, check_restore,
  prefill_cold, logical_length, find_restore, choose_restore,
}
use codex_local_qwen27b.Server.Cache.Target.{
  full_key, prepare_inline, prepare_full, prepare_targets, spare_restore, clear_inline, clear_full,
  choose_target, prepare_generation_cache,
}
use codex_local_qwen27b.Server.Cache.Finalize.{
  Ended, generation_produced_output, is_saved, settle_full, save_inline, confirm_inline,
  settle_inline, free_staging, save_continued, checkpoint, remember_prompt, max_recent_disk_prompts,
  finalize_generation_cache,
}
use codex_local_qwen27b.Server.Cache.Replay.{
  Turn, Source, find_source, keep_replay, replay_into, replay_from, replay_agent_turn,
}

-- The tokens behind every slot of an agent's turn are known, and not too many prompts are kept.
abbrev pub Kept : {S : Type 0} → Caches S → Type 0
Kept w =
    ((i : ℤ) → w.agent_turn_cache_slots i ≡ true → is_some (w.slot_tokens i) ≡ true)
    × (length w.recent_disk_prompts ≤ 256)

module _ {S : Type 0} where
  abbrev pub KeptIn : Preparing S → Type 0
  KeptIn p = Kept p.caches

  pub forget-Kept : (slot : ℤ) (w : Caches S) → Kept w → Kept (forget_inline_slot_metadata slot w)
  unfolding forget_inline_slot_metadata
  forget-Kept slot w k = if_both Kept (ltb_ℤ slot (pos 0)) k (λ i a. ground (arith, k.0 i, a), k.1)

  pub learn-Kept :
      (slot : ℤ) (tokens : Tokens) (w : Caches S)
      → Kept w
      → Kept (record w { slot_tokens = write_slot w.slot_tokens slot (some tokens) })
  learn-Kept slot tokens w k = (λ i a. ground (arith, k.0 i a), k.1)
