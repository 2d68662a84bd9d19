-- ===== src/Server/Cache/Disk.antt =====
-- The disk cache's part in the restore point (3580-3728), and the choice of it as a whole.
use codex_local_qwen27b.Base.{
  Bool, true, false, not, ◌&&◌, List, [], ◌∷◌, if◌then◌else◌, ℤ, pos, minus_one, ltb_ℤ,
}
use codex_local_qwen27b.Server.Cache.{
  Tokens, snapshot_free, learn_layout, save, abort_inline_snap, abort_full_snap, Stores, Caches,
  CacheRequest, Preparing, act, forget_inline_slot_metadata,
}
use codex_local_qwen27b.Server.Cache.Lookup.{
  is_full, prefix, fits_prompt, new_cache_state, outside_is, restore_from, lookup_exact,
  lookup_inline, scope_disk, selected_boundary, lookup_lengths,
}

module _ {S : Type 0} where
  -- 3587-3603: what a hit gives; whether the loop is left.
  unfoldable pub take_hit : Stores S → Preparing S → Bool × Preparing S
  unfolding act
  take_hit stores p =
      let slot = stores.staging_slot in
      let position = stores.snapshot_cur_pos slot p.caches.outside in
      if fits_prompt position p.effective_prompt
      then (true, restore_from slot position true p)
      else (
        false,
        record p {
          cache = record p.cache { cache_slot = slot; prefix_len = position };
          caches = act stores (snapshot_free slot) p.caches;
        },
      )

  -- 3581-3604
  unfoldable pub disk_loop : Stores S → List ℤ → Preparing S → Preparing S
  unfolding take_hit
  disk_loop stores [] p = p
  disk_loop stores (n ∷ ns) p =
      let (found, s) =
        stores.disk_lookup (prefix n p.effective_prompt) stores.staging_slot p.caches.outside in
      let (done, p') =
        if found then take_hit stores (outside_is s p) else (false, outside_is s p) in
      let rest = disk_loop stores ns p' in if done then p' else rest

  -- 3580-3605
  unfoldable pub lookup_disk : Stores S → CacheRequest → Preparing S → Preparing S
  unfolding disk_loop lookup_lengths
  lookup_disk stores req p =
      if not p.cache.using_restore && not stores.disk_disabled
      then disk_loop stores (lookup_lengths stores req p) p
      else p

  -- 3615-3640, and 3698-3726: a prefix is prefilled into the staging slot and saved.
  unfoldable pub prefill_to : Stores S → ℤ → Preparing S → Preparing S
  unfolding act
  prefill_to stores n p =
      let slot = stores.staging_slot in
      let prompt = prefix n p.effective_prompt in
      let (ok, s) = stores.generate prompt slot n p.caches.outside in
      let after = outside_is s p in
      if ok && stores.snapshot_used slot s
      then restore_from slot n true (record after {
        caches = act stores (save slot prompt) (act stores (learn_layout slot) after.caches);
      })
      else record after { caches = act stores (snapshot_free slot) after.caches }

  -- 3609-3641
  unfoldable pub prefill_scoped : Stores S → CacheRequest → Preparing S → Preparing S
  unfolding prefill_to selected_boundary
  prefill_scoped stores req p =
      let n = selected_boundary stores req p in
      if not p.cache.using_restore && not stores.disk_disabled && ltb_ℤ (pos 0) n
      then prefill_to stores n p
      else p

  -- 3663-3678
  unfoldable pub drop_restore : Stores S → Preparing S → Preparing S
  unfolding act forget_inline_slot_metadata
  drop_restore stores p =
      let slot = p.cache.cache_slot in
      record p {
        cache = record p.cache {
          cache_slot = minus_one;
          prefix_len = pos 0;
          using_restore = false;
          disk_hit = false;
        };
        caches =
            if p.cache.disk_hit
            then act stores (snapshot_free stores.staging_slot) p.caches
            else act stores (abort_full_snap slot) (
                act stores (abort_inline_snap slot)
                  (act stores (snapshot_free slot) (forget_inline_slot_metadata slot p.caches)));
      }

  -- 3655-3686
  unfoldable pub check_restore : Stores S → Preparing S → Preparing S
  unfolding drop_restore
  check_restore stores p =
      let position = stores.snapshot_cur_pos p.cache.cache_slot p.caches.outside in
      if p.cache.using_restore
      then (if fits_prompt position p.effective_prompt
          then record p { cache = record p.cache { prefix_len = position } }
          else drop_restore stores p)
      else p

  -- 3652-3654
  unfoldable pub logical_length : Preparing S → ℤ
  logical_length p = if p.cache.using_restore then p.cache.prefix_len else pos 0

  -- 3688-3728, with the logical length that it leaves.
  unfoldable pub prefill_cold : Stores S → ℤ → Preparing S → ℤ × Preparing S
  unfolding prefill_to
  prefill_cold stores logical p =
      let n =
        stores.cold_prefix_boundary p.effective_prompt
          (stores.find_all_boundaries p.effective_prompt) p.caches.outside in
      let p' = prefill_to stores n p in
      if not p.cache.using_restore
        && not stores.disk_disabled
        && is_full p.cache.mode
        && ltb_ℤ (pos 0) n
      then (if p'.cache.using_restore then n else logical, p')
      else (logical, p)

  -- 3475-3641
  unfoldable pub find_restore : Stores S → CacheRequest → Preparing S → Preparing S
  unfolding lookup_exact lookup_inline scope_disk lookup_disk prefill_scoped
  find_restore stores req p =
      let scoped = scope_disk stores req (lookup_inline stores (lookup_exact stores req p)) in
      prefill_scoped stores req (lookup_disk stores req scoped)

  -- 3468-3728
  unfoldable pub choose_restore : Stores S → CacheRequest → Tokens → Caches S → ℤ × Preparing S
  unfolding new_cache_state find_restore logical_length check_restore prefill_cold
  choose_restore stores req prompt w =
      let found = find_restore stores req (new_cache_state req prompt w) in
      prefill_cold stores (logical_length found) (check_restore stores found)
