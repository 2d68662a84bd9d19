-- ===== src/Server/Cache/Kept/Target.antt =====
-- The choice of a target keeps the tables in order (3730-3791).
use codex_local_qwen27b.Base.{
  not, ◌&&◌, ◌||◌, minus_one, if◌then◌else◌, if_both, ℤ, pos, eqb_ℤ, ltb_ℤ, leb_ℤ,
}
use codex_local_qwen27b.Server.Cache.{Stores, CacheRequest, Preparing, act}
use codex_local_qwen27b.Server.Cache.Target.{
  full_key, prepare_inline, prepare_full, prepare_targets, spare_restore, clear_inline, clear_full,
  choose_target,
}
use codex_local_qwen27b.Server.Cache.Kept.{Kept, KeptIn, forget-Kept}

module _ {S : Type 0} (stores : Stores S) where
  prepare_inline-Kept :
      (req : CacheRequest) (logical : ℤ) (p : Preparing S)
      → KeptIn p
      → KeptIn (prepare_inline stores req logical p)
  unfolding prepare_inline act
  prepare_inline-Kept req logical p k =
      let source = if p.cache.using_restore then p.cache.cache_slot else minus_one in
      let length = if p.cache.using_restore then logical else pos 0 in
      let given =
        stores.prepare_inline_snap p.effective_prompt length req.prefer_tools_boundary
          req.forced_cut source p.caches.outside in
      if_both Kept (leb_ℤ (pos 0) given.0) k k

  prepare_full-Kept :
      (req : CacheRequest) (p : Preparing S) → KeptIn p → KeptIn (prepare_full stores req p)
  unfolding prepare_full act
  prepare_full-Kept req p k =
      let given =
        stores.prepare_full_snap (full_key req p.cache p.effective_prompt) p.caches.outside in
      if_both KeptIn (leb_ℤ (pos 0) given.0) k k

  pub choose_target-Kept :
      (req : CacheRequest) (logical : ℤ) (p : Preparing S)
      → KeptIn p
      → KeptIn (choose_target stores req logical p)
  unfolding choose_target prepare_targets spare_restore clear_inline clear_full act
  choose_target-Kept req logical p k =
      let first =
        if req.prefer_inline_snap || p.cache.using_restore
        then prepare_inline stores req logical p
        else p in
      let k1 =
        if_both KeptIn (req.prefer_inline_snap || p.cache.using_restore)
          {x = prepare_inline stores req logical p} {y = p} (prepare_inline-Kept req logical p k)
          k in
      let second =
        if not first.cache.using_restore && ltb_ℤ first.cache.snap_slot (pos 0)
        then prepare_full stores req first
        else first in
      let k2 =
        if_both KeptIn (not first.cache.using_restore && ltb_ℤ first.cache.snap_slot (pos 0))
          {x = prepare_full stores req first} {y = first} (prepare_full-Kept req first k1) k1 in
      let t = prepare_targets stores req logical p in
      let k3 =
        if_both KeptIn (not second.cache.full_snap_prepared && ltb_ℤ second.cache.snap_slot (pos 0))
          {x = prepare_inline stores req logical second} {y = second}
          (prepare_inline-Kept req logical second k2) k2 in
      let u = spare_restore stores t in
      let k4 : KeptIn u =
        if_both KeptIn (t.cache.using_restore && eqb_ℤ t.cache.snap_slot t.cache.cache_slot) k3
          k3 in
      let v = clear_inline stores u in
      let k5 : KeptIn v =
        if_both KeptIn (leb_ℤ (pos 0) u.cache.snap_slot) (forget-Kept u.cache.snap_slot u.caches k4)
          k4 in
      if_both KeptIn v.cache.full_snap_prepared k5 k5
