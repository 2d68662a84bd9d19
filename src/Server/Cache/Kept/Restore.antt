-- ===== src/Server/Cache/Kept/Restore.antt =====
-- The search for a restore point keeps the tables in order (3468-3728).
use codex_local_qwen27b.Base.{
  Bool, false, not, ◌&&◌, List, [], ◌∷◌, if◌then◌else◌, if_both, ℤ, pos, ltb_ℤ, leb_ℤ,
}
use codex_local_qwen27b.Server.Cache.{Tokens, Stores, Caches, CacheRequest, Preparing, act}
use codex_local_qwen27b.Server.Cache.Lookup.{
  prefix, is_full, fits_prompt, new_cache_state, outside_is, restore_full, lookup_exact,
  lookup_inline, should_clamp_flowkv_disk_cache, system_end, scope_disk, selected_boundary,
  lookup_lengths,
}
use codex_local_qwen27b.Server.Cache.Disk.{
  take_hit, disk_loop, lookup_disk, prefill_to, prefill_scoped, drop_restore, check_restore,
  prefill_cold, logical_length, find_restore, choose_restore,
}
use codex_local_qwen27b.Server.Cache.Kept.{Kept, KeptIn, forget-Kept}

module _ {S : Type 0} (stores : Stores S) where
  lookup_exact-Kept :
      (req : CacheRequest) (p : Preparing S) → KeptIn p → KeptIn (lookup_exact stores req p)
  unfolding lookup_exact restore_full
  lookup_exact-Kept req p k =
      let key = if req.ppp_rewrote then p.effective_prompt else req.prompt_tokens in
      let found = stores.lookup_full key p.caches.outside in
      if_both KeptIn p.cache.using_restore k
        (if_both KeptIn (leb_ℤ (pos 0) found.0) (if_both KeptIn req.compressed k k) k)

  lookup_inline-Kept : (p : Preparing S) → KeptIn p → KeptIn (lookup_inline stores p)
  unfolding lookup_inline
  lookup_inline-Kept p k = if_both KeptIn p.cache.using_restore k k

  scope_disk-Kept :
      (req : CacheRequest) (p : Preparing S) → KeptIn p → KeptIn (scope_disk stores req p)
  unfolding scope_disk
  scope_disk-Kept req p k =
      if_both KeptIn (should_clamp_flowkv_disk_cache req.flowkv req.policy_compress)
        (if_both KeptIn (leb_ℤ req.disk_cache_min_tokens (system_end stores p.effective_prompt)) k
          k)
        (if_both KeptIn (req.compressed && not req.flowkv && not (is_full p.cache.mode)) k k)

  disk_loop-Kept : (ns : List ℤ) (p : Preparing S) → KeptIn p → KeptIn (disk_loop stores ns p)
  unfolding disk_loop take_hit act
  disk_loop-Kept [] p k = k
  disk_loop-Kept (n ∷ ns) p k =
      let found =
        stores.disk_lookup (prefix n p.effective_prompt) stores.staging_slot p.caches.outside in
      let q = outside_is found.1 p in
      let r = if found.0 then take_hit stores q else (false, q) in
      let hit =
        if_both (λ (r : Bool × Preparing S). KeptIn r.1)
          (fits_prompt (stores.snapshot_cur_pos stores.staging_slot q.caches.outside)
            q.effective_prompt)
          k k in
      let step =
        if_both (λ (r : Bool × Preparing S). KeptIn r.1) found.0 {x = take_hit stores q}
          {y = (false, q)} hit k in
      if_both KeptIn r.0 step (disk_loop-Kept ns r.1 step)

  prefill_to-Kept : (n : ℤ) (p : Preparing S) → KeptIn p → KeptIn (prefill_to stores n p)
  unfolding prefill_to act
  prefill_to-Kept n p k =
      let made =
        stores.generate (prefix n p.effective_prompt) stores.staging_slot n p.caches.outside in
      if_both KeptIn (made.0 && stores.snapshot_used stores.staging_slot made.1) k k

  check_restore-Kept : (p : Preparing S) → KeptIn p → KeptIn (check_restore stores p)
  unfolding check_restore drop_restore act
  check_restore-Kept p k =
      if_both KeptIn p.cache.using_restore
        (if_both KeptIn
          (fits_prompt (stores.snapshot_cur_pos p.cache.cache_slot p.caches.outside)
            p.effective_prompt)
          k (if_both Kept p.cache.disk_hit k (forget-Kept p.cache.cache_slot p.caches k)))
        k

  pub choose_restore-Kept :
      (req : CacheRequest) (prompt : Tokens) (w : Caches S)
      → Kept w
      → KeptIn (choose_restore stores req prompt w).1
  unfolding choose_restore find_restore lookup_disk prefill_scoped prefill_cold new_cache_state
  choose_restore-Kept req prompt w k =
      let p0 = new_cache_state req prompt w in
      let q = scope_disk stores req (lookup_inline stores (lookup_exact stores req p0)) in
      let scoped =
        scope_disk-Kept req (lookup_inline stores (lookup_exact stores req p0))
          (lookup_inline-Kept (lookup_exact stores req p0) (lookup_exact-Kept req p0 k)) in
      let r = lookup_disk stores req q in
      let looked =
        if_both KeptIn (not q.cache.using_restore && not stores.disk_disabled)
          {x = disk_loop stores (lookup_lengths stores req q) q} {y = q}
          (disk_loop-Kept (lookup_lengths stores req q) q scoped) scoped in
      let found =
        if_both KeptIn
          (not r.cache.using_restore
            && not stores.disk_disabled
            && ltb_ℤ (pos 0) (selected_boundary stores req r))
          {x = prefill_to stores (selected_boundary stores req r) r} {y = r}
          (prefill_to-Kept (selected_boundary stores req r) r looked) looked in
      let c = check_restore stores (find_restore stores req p0) in
      let checked = check_restore-Kept (find_restore stores req p0) found in
      let n =
        stores.cold_prefix_boundary c.effective_prompt
          (stores.find_all_boundaries c.effective_prompt) c.caches.outside in
      if_both (λ (r : ℤ × Preparing S). KeptIn r.1)
        (not c.cache.using_restore
          && not stores.disk_disabled
          && is_full c.cache.mode
          && ltb_ℤ (pos 0) n)
        {y = (logical_length (find_restore stores req p0), c)} (prefill_to-Kept n c checked) checked
