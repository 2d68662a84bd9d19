-- ===== src/Server/Cache/Kept/End.antt =====
-- The end of a generation keeps the tables in order (3813-3913).
use codex_local_qwen27b.Base.{
  not, ◌&&◌, arith, ◌∷◌, ◌++◌, if◌then◌else◌, if_both, length-take, leb_ℤ,
}
use codex_local_qwen27b.Server.Cache.{
  Tokens, Stores, Caches, GenerationCacheState, CacheRequest, act,
}
use codex_local_qwen27b.Server.Cache.Lookup.{size, prefix, is_full}
use codex_local_qwen27b.Server.Cache.Finalize.{
  Ended, generation_produced_output, is_saved, settle_full, save_inline, confirm_inline,
  settle_inline, free_staging, save_continued, checkpoint, remember_prompt, max_recent_disk_prompts,
  finalize_generation_cache,
}
use codex_local_qwen27b.Server.Cache.Kept.{Kept, learn-Kept}

module _ {S : Type 0} (stores : Stores S) where
  settle-Kept :
      (req : CacheRequest) (prompt : Tokens) (cache : GenerationCacheState) (e : Ended)
      (w : Caches S)
      → Kept w
      → Kept (settle_inline stores prompt cache e (settle_full stores req prompt cache e w))
  unfolding settle_inline settle_full confirm_inline save_inline act
  settle-Kept req prompt cache e w k =
      let w1 = settle_full stores req prompt cache e w in
      let k1 : Kept w1 =
        if_both Kept (not cache.full_snap_prepared) k (
          if_both Kept (is_saved stores e cache.full_snap_slot cache.full_snap_pos w.outside) k
            k) in
      let learned = learn-Kept cache.snap_slot (prefix cache.snap_cut prompt) w1 k1 in
      if_both Kept (not cache.snap_prepared) k1 (
        if_both Kept (is_saved stores e cache.snap_slot cache.snap_cut w1.outside)
          (if_both Kept stores.disk_disabled learned
            (if_both Kept (is_full cache.mode) learned learned))
          k1)

  remember-Kept :
      (req : CacheRequest) (prompt : Tokens) (w : Caches S)
      → Kept w
      → Kept (remember_prompt stores req prompt w)
  unfolding remember_prompt
  remember-Kept req prompt w k =
      let recent =
        if not req.compressed
        then prompt ∷ w.recent_disk_prompts
        else if req.flowkv
        then req.prompt_tokens ∷ w.recent_disk_prompts
        else w.recent_disk_prompts in
      if_both Kept stores.disk_disabled k
        (k.0, omega (arith, length-take max_recent_disk_prompts recent))

  checkpoint-Kept :
      (prompt : Tokens) (cache : GenerationCacheState) (e : Ended) (w : Caches S)
      → Kept w
      → Kept (checkpoint stores prompt cache e w)
  unfolding checkpoint save_continued act
  checkpoint-Kept prompt cache e w k =
      if_both Kept
        (not stores.disk_disabled
          && is_full cache.mode
          && e.ok
          && generation_produced_output e
          && leb_ℤ stores.continued_interval (size (prompt ++ e.tokens)))
        (if_both Kept (stores.snapshot_save stores.staging_slot w.outside).0 k k) k

  pub finalize-Kept :
      (req : CacheRequest) (prompt : Tokens) (cache : GenerationCacheState) (e : Ended)
      (w : Caches S)
      → Kept w
      → Kept (finalize_generation_cache stores req prompt cache e w)
  unfolding finalize_generation_cache free_staging act
  finalize-Kept req prompt cache e w k =
      let w2 = settle_inline stores prompt cache e (settle_full stores req prompt cache e w) in
      let k2 = settle-Kept req prompt cache e w k in
      let w3 = free_staging stores cache w2 in
      let k3 : Kept w3 = if_both Kept cache.disk_hit k2 k2 in
      remember-Kept req prompt (checkpoint stores prompt cache e w3)
        (checkpoint-Kept prompt cache e w3 k3)
