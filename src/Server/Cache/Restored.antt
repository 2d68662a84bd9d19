-- ===== src/Server/Cache/Restored.antt =====
-- The restore point that a request ends up with (3468-3728).
use codex_local_qwen27b.Base.{
  ◌≡◌, refl, ap, ◌∙◌, Bool, true, false, not, ◌&&◌, List, [], arith, ◌∷◌, if◌then◌else◌, if_cases,
  if_both, ℤ, pos, ltb_ℤ, leb_ℤ,
}
use codex_local_qwen27b.Server.Cache.{Tokens, Stores, Caches, CacheRequest, Preparing}
use codex_local_qwen27b.Server.Cache.Lookup.{
  is_full, prefix, fits_prompt, size, new_cache_state, outside_is, restore_full, lookup_exact,
  lookup_inline, should_clamp_flowkv_disk_cache, system_end, scope_disk, lookup_lengths,
  selected_boundary,
}
use codex_local_qwen27b.Server.Cache.Disk.{
  take_hit, disk_loop, lookup_disk, prefill_to, prefill_scoped, drop_restore, check_restore,
  logical_length, prefill_cold, find_restore, choose_restore,
}
use codex_local_qwen27b.Server.Cache.Balance.{Fresh}

module _ {S : Type 0} (stores : Stores S) (req : CacheRequest)
    (staging : leb_ℤ (pos 0) stores.staging_slot ≡ true) where
  -- No target is chosen yet, and a restore is from a slot.
  pub record Restorable (p : Preparing S) : Type 0 where
    pub fresh : Fresh stores req p
    pub from_slot : p.cache.using_restore ≡ true → leb_ℤ (pos 0) p.cache.cache_slot ≡ true

  -- A change of the restore point alone.
  moved :
      (p q : Preparing S)
      → Restorable p
      → q.cache.snap_slot ≡ p.cache.snap_slot
      → q.cache.full_snap_prepared ≡ p.cache.full_snap_prepared
      → (q.cache.using_restore ≡ true → leb_ℤ (pos 0) q.cache.cache_slot ≡ true)
      → Restorable q
  moved p q h a b v = record {
    fresh = record {
      no_inline = ap (leb_ℤ (pos 0)) a ∙ h.fresh.no_inline;
      no_full = b ∙ h.fresh.no_full;
    };
    from_slot = v;
  }

  new_cache_state-Restorable :
      (prompt : Tokens) (w : Caches S) → Restorable (new_cache_state req prompt w)
  unfolding new_cache_state
  new_cache_state-Restorable prompt w = record {
    fresh = record { no_inline = refl; no_full = refl };
    from_slot = λ t. t;
  }

  lookup_exact-Restorable :
      (p : Preparing S) → Restorable p → Restorable (lookup_exact stores req p)
  unfolding lookup_exact restore_full
  lookup_exact-Restorable p h =
      let key = if req.ppp_rewrote then p.effective_prompt else req.prompt_tokens in
      let found = stores.lookup_full key p.caches.outside in
      let q = outside_is found.2 p in
      if_both Restorable p.cache.using_restore h (
        if_cases Restorable (leb_ℤ (pos 0) found.0)
          (λ e.
            if_both Restorable req.compressed (moved p _ h refl refl (λ t. e))
              (moved p _ h refl refl (λ t. e)))
          (λ e. moved p q h refl refl h.from_slot))

  lookup_inline-Restorable : (p : Preparing S) → Restorable p → Restorable (lookup_inline stores p)
  unfolding lookup_inline
  lookup_inline-Restorable p h =
      if_both Restorable p.cache.using_restore h (moved p _ h refl refl (λ t. t))

  scope_disk-Restorable : (p : Preparing S) → Restorable p → Restorable (scope_disk stores req p)
  unfolding scope_disk
  scope_disk-Restorable p h =
      if_both Restorable (should_clamp_flowkv_disk_cache req.flowkv req.policy_compress)
        (if_both Restorable (leb_ℤ req.disk_cache_min_tokens (system_end stores p.effective_prompt))
          (moved p _ h refl refl h.from_slot) (moved p _ h refl refl h.from_slot))
        (if_both Restorable (req.compressed && not req.flowkv && not (is_full p.cache.mode))
          (moved p _ h refl refl h.from_slot) h)

  take_hit-Restorable : (p : Preparing S) → Restorable p → Restorable (take_hit stores p).1
  unfolding take_hit
  take_hit-Restorable p h =
      if_both (λ (r : Bool × Preparing S). Restorable r.1)
        (fits_prompt (stores.snapshot_cur_pos stores.staging_slot p.caches.outside)
          p.effective_prompt)
        (moved p _ h refl refl (λ t. staging)) (moved p _ h refl refl (λ t. staging))

  disk_loop-Restorable :
      (ns : List ℤ) (p : Preparing S) → Restorable p → Restorable (disk_loop stores ns p)
  unfolding disk_loop
  disk_loop-Restorable [] p h = h
  disk_loop-Restorable (n ∷ ns) p h =
      let found =
        stores.disk_lookup (prefix n p.effective_prompt) stores.staging_slot p.caches.outside in
      let q = outside_is found.1 p in
      let at = moved p q h refl refl h.from_slot in
      let r = if found.0 then take_hit stores q else (false, q) in
      let step =
        if_both (λ (r : Bool × Preparing S). Restorable r.1) found.0 {x = take_hit stores q}
          {y = (false, q)} (take_hit-Restorable q at) at in
      if_both Restorable r.0 step (disk_loop-Restorable ns r.1 step)

  prefill_to-Restorable :
      (n : ℤ) (p : Preparing S) → Restorable p → Restorable (prefill_to stores n p)
  unfolding prefill_to
  prefill_to-Restorable n p h =
      let made =
        stores.generate (prefix n p.effective_prompt) stores.staging_slot n p.caches.outside in
      if_both Restorable (made.0 && stores.snapshot_used stores.staging_slot made.1)
        (moved p _ h refl refl (λ t. staging)) (moved p _ h refl refl h.from_slot)

  find_restore-Restorable :
      (p : Preparing S) → Restorable p → Restorable (find_restore stores req p)
  unfolding find_restore lookup_disk prefill_scoped
  find_restore-Restorable p h =
      let q = scope_disk stores req (lookup_inline stores (lookup_exact stores req p)) in
      let scoped =
        scope_disk-Restorable (lookup_inline stores (lookup_exact stores req p))
          (lookup_inline-Restorable (lookup_exact stores req p) (lookup_exact-Restorable p h)) in
      let looked =
        if_both Restorable (not q.cache.using_restore && not stores.disk_disabled)
          {x = disk_loop stores (lookup_lengths stores req q) q} {y = q}
          (disk_loop-Restorable (lookup_lengths stores req q) q scoped) scoped in
      let r = lookup_disk stores req q in
      if_both Restorable
        (not r.cache.using_restore
          && not stores.disk_disabled
          && ltb_ℤ (pos 0) (selected_boundary stores req r))
        {x = prefill_to stores (selected_boundary stores req r) r} {y = r}
        (prefill_to-Restorable (selected_boundary stores req r) r looked) looked

  -- A restore is from a slot, of a prefix of the prompt that is not empty; no target is chosen yet.
  pub record RestoreFits (p : Preparing S) : Type 0 where
    pub restorable : Restorable p
    pub fits :
        p.cache.using_restore ≡ true → fits_prompt p.cache.prefix_len p.effective_prompt ≡ true

  check_restore-RestoreFits :
      (p : Preparing S) → Restorable p → RestoreFits (check_restore stores p)
  unfolding check_restore drop_restore
  check_restore-RestoreFits p h =
      if_cases RestoreFits p.cache.using_restore
        (λ u.
          if_cases RestoreFits
            (fits_prompt (stores.snapshot_cur_pos p.cache.cache_slot p.caches.outside)
              p.effective_prompt)
            (λ e. record { restorable = moved p _ h refl refl h.from_slot; fits = λ t. e })
            (λ e. record {
              restorable = moved p _ h refl refl (λ t. absurd (cc));
              fits = λ t. absurd (cc);
            }))
        (λ u. record { restorable = h; fits = λ t. absurd (cc) })

  prefill_to-RestoreFits :
      (n : ℤ) (p : Preparing S)
      → fits_prompt n p.effective_prompt ≡ true
      → RestoreFits p
      → RestoreFits (prefill_to stores n p)
  unfolding prefill_to
  prefill_to-RestoreFits n p i h =
      let made =
        stores.generate (prefix n p.effective_prompt) stores.staging_slot n p.caches.outside in
      if_both RestoreFits (made.0 && stores.snapshot_used stores.staging_slot made.1)
        (record { restorable = moved p _ h.restorable refl refl (λ t. staging); fits = λ t. i })
        (record {
          restorable = moved p _ h.restorable refl refl h.restorable.from_slot;
          fits = h.fits;
        })

  prefill_cold-RestoreFits :
      (logical : ℤ) (p : Preparing S)
      → ((prompt : Tokens) (bs : List ℤ) (s : S)
          → leb_ℤ (stores.cold_prefix_boundary prompt bs s) (size prompt) ≡ true)
      → RestoreFits p
      → RestoreFits (prefill_cold stores logical p).1
  unfolding prefill_cold
  prefill_cold-RestoreFits logical p cold h =
      let bs = stores.find_all_boundaries p.effective_prompt in
      let n = stores.cold_prefix_boundary p.effective_prompt bs p.caches.outside in
      if_cases (λ (r : ℤ × Preparing S). RestoreFits r.1)
        (not p.cache.using_restore
          && not stores.disk_disabled
          && is_full p.cache.mode
          && ltb_ℤ (pos 0) n)
        (λ e.
          prefill_to-RestoreFits n p
            (ground (arith, e, cold p.effective_prompt bs p.caches.outside)) h)
        (λ e. h)

  -- Where the staging slot is a slot and the disk cache's cold boundary lies within the prompt, whatever
  -- the caches find and whatever positions the backend names: a request that restores does so from a
  -- slot and takes over a prefix of the prompt it serves, of one token at least and of all its tokens at
  -- most; and no snapshot is chosen for saving yet.
  pub choose_restore-RestoreFits :
      ((prompt : Tokens) (bs : List ℤ) (s : S)
        → leb_ℤ (stores.cold_prefix_boundary prompt bs s) (size prompt) ≡ true)
      → (prompt : Tokens) (w : Caches S) → RestoreFits (choose_restore stores req prompt w).1
  unfolding choose_restore
  choose_restore-RestoreFits cold prompt w =
      let found = find_restore stores req (new_cache_state req prompt w) in
      prefill_cold-RestoreFits (logical_length found) (check_restore stores found) cold (
        check_restore-RestoreFits found (
          find_restore-Restorable (new_cache_state req prompt w)
            (new_cache_state-Restorable prompt w)))
