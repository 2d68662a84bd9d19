-- ===== src/Server/Cache/Finalize.antt =====
-- What becomes of the snapshots when the generation is over (3813-3913).
use codex_local_qwen27b.Base.{
  ℕ, Bool, not, ◌&&◌, some, ◌∷◌, ◌++◌, if◌then◌else◌, take, ℤ, pos, ltb_ℤ, leb_ℤ,
}
use codex_local_qwen27b.Server.Cache.{
  Tokens, snapshot_free, confirm_full_snap, abort_full_snap, confirm_inline_snap, abort_inline_snap,
  learn_layout, save, maybe_store_continued, Stores, Caches, GenerationCacheState, CacheRequest,
  act, write_slot,
}
use codex_local_qwen27b.Server.Cache.Lookup.{is_full, size, prefix}
use codex_local_qwen27b.Server.Cache.Target.{full_key}

-- What is read of the result and of the output.
pub record Ended : Type 0 where
  pub ok : Bool
  pub tokens : Tokens
  pub completion_tokens : ℤ
  pub visible_output_seen : Bool
  pub client_disconnected : Bool

-- 3819-3820
unfoldable pub generation_produced_output : Ended → Bool
generation_produced_output e =
    e.ok && ltb_ℤ (pos 0) e.completion_tokens && e.visible_output_seen && not e.client_disconnected

-- 3909
abbrev pub max_recent_disk_prompts : ℕ
max_recent_disk_prompts = 256

module _ {S : Type 0} where
  -- The test of 3823-3828 and of 3844-3848, for a slot and the position that was asked for.
  unfoldable pub is_saved : Stores S → Ended → ℤ → ℤ → S → Bool
  unfolding generation_produced_output
  is_saved stores e slot asked s =
      generation_produced_output e
      && stores.snapshot_used slot s
      && ltb_ℤ (pos 0) (stores.snapshot_cur_pos slot s)
      && leb_ℤ (stores.snapshot_cur_pos slot s) asked

  -- 3822-3841
  unfoldable pub settle_full :
      Stores S → CacheRequest → Tokens → GenerationCacheState → Ended → Caches S → Caches S
  unfolding is_saved act full_key
  settle_full stores req prompt cache e w =
      let slot = cache.full_snap_slot in
      if not cache.full_snap_prepared
      then w
      else if is_saved stores e slot cache.full_snap_pos w.outside
      then act stores
          (confirm_full_snap slot (full_key req cache prompt)
            (stores.snapshot_cur_pos slot w.outside))
          w
      else act stores (abort_full_snap slot) (act stores (snapshot_free slot) w)

  -- 3860-3865
  unfoldable pub save_inline : Stores S → Tokens → GenerationCacheState → Caches S → Caches S
  unfolding act
  save_inline stores prompt cache w =
      if stores.disk_disabled
      then w
      else if is_full cache.mode
      then act stores (save cache.snap_slot prompt) (act stores (learn_layout cache.snap_slot) w)
      else act stores (learn_layout cache.snap_slot) w

  -- 3852-3865
  unfoldable pub confirm_inline : Stores S → Tokens → GenerationCacheState → Caches S → Caches S
  unfolding act save_inline
  confirm_inline stores prompt cache w =
      let confirmed = act stores (confirm_inline_snap cache.snap_slot cache.snap_cut prompt) w in
      save_inline stores prompt cache (record confirmed {
        slot_tokens =
            write_slot confirmed.slot_tokens cache.snap_slot (some (prefix cache.snap_cut prompt));
      })

  -- 3843-3874
  unfoldable pub settle_inline :
      Stores S → Tokens → GenerationCacheState → Ended → Caches S → Caches S
  unfolding is_saved act confirm_inline
  settle_inline stores prompt cache e w =
      if not cache.snap_prepared
      then w
      else if is_saved stores e cache.snap_slot cache.snap_cut w.outside
      then confirm_inline stores prompt cache w
      else act stores (abort_inline_snap cache.snap_slot)
          (act stores (snapshot_free cache.snap_slot) w)

  -- 3876
  unfoldable pub free_staging : Stores S → GenerationCacheState → Caches S → Caches S
  unfolding act
  free_staging stores cache w =
      if cache.disk_hit then act stores (snapshot_free stores.staging_slot) w else w

  -- 3889-3894
  unfoldable pub save_continued : Stores S → Tokens → ℤ → Caches S → Caches S
  unfolding act
  save_continued stores all_tokens position w =
      let slot = stores.staging_slot in
      let (saved, s) = stores.snapshot_save slot w.outside in
      let after = record w { outside = s } in
      if saved
      then act stores (snapshot_free slot) (
          act stores (maybe_store_continued slot all_tokens position)
            (act stores (learn_layout slot) after))
      else after

  -- 3880-3896
  unfoldable pub checkpoint : Stores S → Tokens → GenerationCacheState → Ended → Caches S → Caches S
  unfolding save_continued generation_produced_output
  checkpoint stores prompt cache e w =
      let all_tokens = prompt ++ e.tokens in
      if not stores.disk_disabled
        && is_full cache.mode
        && e.ok
        && generation_produced_output e
        && leb_ℤ stores.continued_interval (size all_tokens)
      then save_continued stores all_tokens (size all_tokens) w
      else w

  -- 3898-3912
  unfoldable pub remember_prompt : Stores S → CacheRequest → Tokens → Caches S → Caches S
  remember_prompt stores req prompt w =
      if stores.disk_disabled
      then w
      else let recent =
          if not req.compressed
          then prompt ∷ w.recent_disk_prompts
          else if req.flowkv
          then req.prompt_tokens ∷ w.recent_disk_prompts
          else w.recent_disk_prompts in
        record w { recent_disk_prompts = take max_recent_disk_prompts recent }

  -- 3813-3913
  unfoldable pub finalize_generation_cache :
      Stores S → CacheRequest → Tokens → GenerationCacheState → Ended → Caches S → Caches S
  unfolding settle_full settle_inline free_staging checkpoint remember_prompt
  finalize_generation_cache stores req prompt cache e w =
      let settled = settle_inline stores prompt cache e (settle_full stores req prompt cache e w) in
      remember_prompt stores req prompt
        (checkpoint stores prompt cache e (free_staging stores cache settled))
