-- ===== src/Server/Cache/Target.antt =====
-- Where the request's generation saves a snapshot (3730-3791).
use codex_local_qwen27b.Base.{
  true, false, not, ◌&&◌, ◌||◌, some, if◌then◌else◌, ℤ, pos, minus_one, eqb_ℤ, ltb_ℤ, leb_ℤ,
}
use codex_local_qwen27b.Server.Cache.{
  Tokens, snapshot_free, prepared_inline, prepared_full, cancel_inline_snap, Stores, Caches,
  GenerationCacheState, CacheRequest, Preparing, act, forget_inline_slot_metadata,
}
use codex_local_qwen27b.Server.Cache.Lookup.{size, outside_is}
use codex_local_qwen27b.Server.Cache.Disk.{choose_restore}

-- full_key (3749, 3829): the key of a full snapshot.
unfoldable pub full_key : CacheRequest → GenerationCacheState → Tokens → Tokens
full_key req cache prompt = if cache.full_snap_key_effective then prompt else req.prompt_tokens

module _ {S : Type 0} where
  -- 3733-3747
  unfoldable pub prepare_inline : Stores S → CacheRequest → ℤ → Preparing S → Preparing S
  unfolding act
  prepare_inline stores req logical p =
      let source = if p.cache.using_restore then p.cache.cache_slot else minus_one in
      let length = if p.cache.using_restore then logical else pos 0 in
      let (slot, cut, s) =
        stores.prepare_inline_snap p.effective_prompt length req.prefer_tools_boundary
          req.forced_cut source p.caches.outside in
      let after = outside_is s p in
      record after {
        cache = record p.cache { snap_slot = slot; snap_cut = cut };
        caches =
            if leb_ℤ (pos 0) slot
            then act stores (prepared_inline slot cut) after.caches
            else after.caches;
      }

  -- 3748-3758
  unfoldable pub prepare_full : Stores S → CacheRequest → Preparing S → Preparing S
  unfolding act full_key
  prepare_full stores req p =
      let (slot, s) =
        stores.prepare_full_snap (full_key req p.cache p.effective_prompt) p.caches.outside in
      let after = outside_is s p in
      if leb_ℤ (pos 0) slot
      then record after {
        cache = record p.cache {
          full_snap_slot = slot;
          full_snap_pos = size p.effective_prompt;
          full_snap_prepared = true;
        };
        request_snap = some (slot, size p.effective_prompt);
        caches = act stores (prepared_full slot) after.caches;
      }
      else record after { cache = record p.cache { full_snap_slot = slot } }

  -- 3760-3771
  unfoldable pub prepare_targets : Stores S → CacheRequest → ℤ → Preparing S → Preparing S
  unfolding prepare_inline prepare_full
  prepare_targets stores req logical p =
      let first =
        if req.prefer_inline_snap || p.cache.using_restore
        then prepare_inline stores req logical p
        else p in
      let second =
        if not first.cache.using_restore && ltb_ℤ first.cache.snap_slot (pos 0)
        then prepare_full stores req first
        else first in
      if not second.cache.full_snap_prepared && ltb_ℤ second.cache.snap_slot (pos 0)
      then prepare_inline stores req logical second
      else second

  -- 3777-3781
  unfoldable pub spare_restore : Stores S → Preparing S → Preparing S
  unfolding act
  spare_restore stores p =
      if p.cache.using_restore && eqb_ℤ p.cache.snap_slot p.cache.cache_slot
      then record p {
        cache = record p.cache { snap_slot = minus_one; snap_cut = pos 0 };
        caches = act stores (cancel_inline_snap p.cache.snap_slot) p.caches;
      }
      else p

  -- 3782-3788
  unfoldable pub clear_inline : Stores S → Preparing S → Preparing S
  unfolding act forget_inline_slot_metadata
  clear_inline stores p =
      if leb_ℤ (pos 0) p.cache.snap_slot
      then record p {
        cache = record p.cache { snap_prepared = true };
        request_snap = some (p.cache.snap_slot, p.cache.snap_cut);
        caches =
            act stores (snapshot_free p.cache.snap_slot)
              (forget_inline_slot_metadata p.cache.snap_slot p.caches);
      }
      else record p { cache = record p.cache { snap_prepared = false } }

  -- 3789-3791
  unfoldable pub clear_full : Stores S → Preparing S → Preparing S
  unfolding act
  clear_full stores p =
      if p.cache.full_snap_prepared
      then record p { caches = act stores (snapshot_free p.cache.full_snap_slot) p.caches }
      else p

  -- 3730-3791
  unfoldable pub choose_target : Stores S → CacheRequest → ℤ → Preparing S → Preparing S
  unfolding prepare_targets spare_restore clear_inline clear_full
  choose_target stores req logical p =
      clear_full stores
        (clear_inline stores (spare_restore stores (prepare_targets stores req logical p)))

  -- 3468-3791
  unfoldable pub prepare_generation_cache :
      Stores S → CacheRequest → Tokens → Caches S → Preparing S
  unfolding choose_restore choose_target
  prepare_generation_cache stores req prompt w =
      let (logical, p) = choose_restore stores req prompt w in choose_target stores req logical p
