-- ===== src/Server/Cache/Lookup.antt =====
-- The restore point of a request (3468-3579): the memory caches, and the prefixes that are looked for
-- in the disk cache.
use codex_local_qwen27b.Base.{
  ℕ, zero, suc, Bool, true, false, not, ◌&&◌, none, List, [], ◌∷◌, if◌then◌else◌, is_empty, length,
  take, ℤ, pos, minus_one, pos_part, eqb_ℤ, ltb_ℤ, leb_ℤ,
}
use mathlib.Core.List.{reverse}
use codex_local_qwen27b.Server.Cache.{
  Tokens, Stores, DiskPrefixCacheMode, off, fixed, auto, full, Caches, CacheRequest, Preparing,
}

abbrev pub is_full : DiskPrefixCacheMode → Bool
is_full full = true
is_full off = false
is_full fixed = false
is_full auto = false

abbrev pub is_auto : DiskPrefixCacheMode → Bool
is_auto auto = true
is_auto off = false
is_auto fixed = false
is_auto full = false

-- (int) tokens.size()
abbrev pub size : Tokens → ℤ
size tokens = pos (length tokens)

-- The tokens from begin() to begin() + n.
abbrev pub prefix : ℤ → Tokens → Tokens
prefix n tokens = take (pos_part n) tokens

abbrev pub zeros : ℕ → Tokens
zeros zero = []
zeros (suc n) = 0 ∷ zeros n

-- 0 < position && position <= size
abbrev pub fits_prompt : ℤ → Tokens → Bool
fits_prompt position tokens = ltb_ℤ (pos 0) position && leb_ℤ position (size tokens)

-- 286-289
unfoldable pub should_clamp_flowkv_disk_cache : Bool → Bool → Bool
should_clamp_flowkv_disk_cache flowkv compress = flowkv && compress

-- 3556-3562: the last boundary between the two limits.
unfoldable pub last_cold : CacheRequest → ℤ → List ℤ → ℤ
last_cold req cold [] = cold
last_cold req cold (b ∷ bs) =
    last_cold req
      (if leb_ℤ b req.disk_cache_cold_max_tokens && leb_ℤ req.disk_cache_min_tokens b
        then b
        else cold)
      bs

-- 3571-3577, on the boundaries in reverse order
unfoldable pub usable_boundaries : CacheRequest → Tokens → List ℤ → List ℤ
usable_boundaries req prompt [] = []
usable_boundaries req prompt (b ∷ bs) =
    let rest = usable_boundaries req prompt bs in
    if leb_ℤ req.disk_cache_min_tokens b && leb_ℤ b (size prompt) then b ∷ rest else rest

module _ {S : Type 0} where
  -- 3468-3473
  unfoldable pub new_cache_state : CacheRequest → Tokens → Caches S → Preparing S
  new_cache_state req prompt w = record {
    effective_prompt = prompt;
    cache = record {
      cache_slot = req.full_cache_hit_slot;
      prefix_len = req.full_cache_hit_len;
      using_restore = leb_ℤ (pos 0) req.full_cache_hit_slot;
      disk_hit = false;
      snap_slot = minus_one;
      snap_cut = pos 0;
      snap_prepared = false;
      full_snap_slot = minus_one;
      full_snap_pos = pos 0;
      full_snap_prepared = false;
      full_snap_key_effective = req.ppp_rewrote;
      mode = req.policy_mode;
      fixed_tokens = req.policy_fixed_tokens;
      auto_window = req.policy_auto_window;
    };
    request_snap = none;
    caches = w;
  }

  -- The outside state after a call that gives a result.
  abbrev pub outside_is : S → Preparing S → Preparing S
  outside_is s p = record p { caches = record p.caches { outside = s } }

  -- The cache is restored from a slot.
  abbrev pub restore_from : ℤ → ℤ → Bool → Preparing S → Preparing S
  restore_from slot len from_disk p = record p {
    cache = record p.cache {
      cache_slot = slot;
      prefix_len = len;
      using_restore = true;
      disk_hit = from_disk;
    };
  }

  -- 3482-3488
  unfoldable pub restore_full : CacheRequest → ℤ → ℤ → Preparing S → Preparing S
  restore_full req slot len p =
      let found = restore_from slot len p.cache.disk_hit p in
      if req.compressed then record found { effective_prompt = zeros (pos_part len) } else found

  -- 3475-3490
  unfoldable pub lookup_exact : Stores S → CacheRequest → Preparing S → Preparing S
  unfolding restore_full
  lookup_exact stores req p =
      if p.cache.using_restore
      then p
      else let key = if req.ppp_rewrote then p.effective_prompt else req.prompt_tokens in
        let (slot, len, s) = stores.lookup_full key p.caches.outside in
        if leb_ℤ (pos 0) slot then restore_full req slot len (outside_is s p) else outside_is s p

  -- 3491-3497
  unfoldable pub lookup_inline : Stores S → Preparing S → Preparing S
  lookup_inline stores p =
      if p.cache.using_restore
      then p
      else let (slot, len, s) = stores.lookup p.effective_prompt p.caches.outside in
        record (outside_is s p) {
          cache = record p.cache {
            cache_slot = slot;
            prefix_len = len;
            using_restore = leb_ℤ (pos 0) slot;
          };
        }

  -- 3504-3506
  unfoldable pub system_end : Stores S → Tokens → ℤ
  system_end stores prompt = elim (stores.find_all_boundaries prompt) [ [] ↦ pos 0 | b ∷ bs ↦ b ]

  -- 3501-3522
  unfoldable pub scope_disk : Stores S → CacheRequest → Preparing S → Preparing S
  unfolding should_clamp_flowkv_disk_cache system_end
  scope_disk stores req p =
      let end = system_end stores p.effective_prompt in
      if should_clamp_flowkv_disk_cache req.flowkv req.policy_compress
      then (if leb_ℤ req.disk_cache_min_tokens end
          then record p { cache = record p.cache { mode = fixed; fixed_tokens = end } }
          else record p { cache = record p.cache { mode = off } })
      else if req.compressed && not req.flowkv && not (is_full p.cache.mode)
      then record p { cache = record p.cache { mode = off } }
      else p

  -- 3524-3528
  unfoldable pub safe_boundaries : Stores S → Preparing S → List ℤ
  safe_boundaries stores p =
      if is_auto p.cache.mode then stores.find_all_boundaries p.effective_prompt else []

  -- 3530-3546
  unfoldable pub selected_boundary : Stores S → CacheRequest → Preparing S → ℤ
  unfolding safe_boundaries
  selected_boundary stores req p = elim p.cache.mode [
    | off ↦ pos 0
    | full ↦ pos 0
    | fixed ↦
        stores.fixed_boundary p.cache.fixed_tokens (size p.effective_prompt)
          req.disk_cache_min_tokens
    | auto ↦
        stores.auto_boundary p.effective_prompt p.caches.recent_disk_prompts p.cache.auto_window
          (safe_boundaries stores p) req.disk_cache_min_tokens
  ]

  -- 3551-3567
  unfoldable pub full_lengths : Stores S → CacheRequest → Tokens → List ℤ
  unfolding last_cold
  full_lengths stores req prompt =
      let cold = last_cold req (pos 0) (stores.find_all_boundaries prompt) in
      if ltb_ℤ req.disk_cache_cold_max_tokens (size prompt)
      then (if ltb_ℤ (pos 0) cold && not (eqb_ℤ cold (size prompt))
          then size prompt ∷ cold ∷ []
          else size prompt ∷ [])
      else size prompt ∷ []

  -- 3548-3578
  unfoldable pub lookup_lengths : Stores S → CacheRequest → Preparing S → List ℤ
  unfolding full_lengths selected_boundary safe_boundaries usable_boundaries
  lookup_lengths stores req p =
      if is_full p.cache.mode && not (is_empty p.effective_prompt)
      then full_lengths stores req p.effective_prompt
      else if ltb_ℤ (pos 0) (selected_boundary stores req p)
      then selected_boundary stores req p ∷ []
      else if is_auto p.cache.mode
      then usable_boundaries req p.effective_prompt (reverse (safe_boundaries stores p))
      else []
