-- ===== src/Server/Cache/Kept/Request.antt =====
-- A whole request, with the replay behind it, keeps the tables in order (3468-4046).
use codex_local_qwen27b.Base.{
  Bool, false, not, ◌&&◌, ◌||◌, arith, if◌then◌else◌, if_both, Option-cases, inl, inr, bytes_eq, ℤ,
  pos, eqb_ℤ, ltb_ℤ, leb_ℤ,
}
use codex_local_qwen27b.Server.Cache.{
  Tokens, snapshot_free, prepared_inline, Stores, Caches, GenerationCacheState, CacheRequest, act,
  forget_inline_slot_metadata,
}
use codex_local_qwen27b.Server.Cache.Lookup.{size}
use codex_local_qwen27b.Server.Cache.Disk.{choose_restore}
use codex_local_qwen27b.Server.Cache.Target.{choose_target, prepare_generation_cache}
use codex_local_qwen27b.Server.Cache.Finalize.{Ended, finalize_generation_cache}
use codex_local_qwen27b.Server.Cache.Replay.{
  Turn, Source, find_source, keep_replay, replay_into, replay_from, replay_agent_turn,
}
use codex_local_qwen27b.Server.Cache.Kept.Restore.{choose_restore-Kept}
use codex_local_qwen27b.Server.Cache.Kept.Target.{choose_target-Kept}
use codex_local_qwen27b.Server.Cache.Kept.End.{finalize-Kept}
use codex_local_qwen27b.Server.Cache.Kept.{Kept, forget-Kept}

module _ {S : Type 0} (stores : Stores S) where
  keep_replay-Kept :
      (turn : Tokens) (source : Source) (slot : ℤ) (ok : Bool) (w : Caches S)
      → Kept w
      → Kept (keep_replay stores turn source slot ok w)
  unfolding keep_replay act
  keep_replay-Kept turn source slot ok w k =
      let saved =
        if ok && stores.snapshot_used slot w.outside
        then stores.snapshot_cur_pos slot w.outside
        else pos 0 in
      if_both Kept (ltb_ℤ source.position saved && leb_ℤ saved (size turn))
        (λ i a. ground (arith, k.0 i, a), k.1) k

  replay_into-Kept :
      (turn : Tokens) (source : Source) (slot : ℤ) (w : Caches S)
      → Kept w
      → Kept (replay_into stores turn source slot w)
  unfolding replay_into act
  replay_into-Kept turn source slot w k =
      let cleared = act stores (snapshot_free slot) (forget_inline_slot_metadata slot w) in
      let made = stores.restore_and_generate source.slot turn slot (size turn) cleared.outside in
      if_both Kept (eqb_ℤ slot source.slot) k (
        keep_replay-Kept turn source slot made.0 (record cleared { outside = made.1 })
          (forget-Kept slot w k))

  replay_from-Kept :
      (turn : Tokens) (source : Source) (w : Caches S)
      → Kept w
      → Kept (replay_from stores turn source w)
  unfolding replay_from act
  replay_from-Kept turn source w k =
      let given =
        stores.prepare_inline_snap turn source.position false (size turn) source.slot w.outside in
      let after = record w { outside = given.2 } in
      let pending =
        if leb_ℤ (pos 0) given.0
        then act stores (prepared_inline given.0 given.1) after
        else after in
      let k1 : Kept pending = if_both Kept (leb_ℤ (pos 0) given.0) k k in
      if_both Kept (ltb_ℤ source.slot (pos 0)) k (
        if_both Kept (ltb_ℤ given.0 (pos 0) || not (eqb_ℤ given.1 (size turn))) k1
          (replay_into-Kept turn source given.0 pending k1))

  replay_agent_turn-Kept :
      (t : Turn) (cache : GenerationCacheState) (w : Caches S)
      → Kept w
      → Kept (replay_agent_turn stores t cache w)
  unfolding replay_agent_turn
  replay_agent_turn-Kept t cache w k =
      let off =
        not t.replay_cache
        || not t.agent_turn_cache
        || t.prefix_cache_disabled
        || t.compressed
        || not (bytes_eq t.prepared_tokens t.prompt_tokens) in
      elim (Option-cases t.canonical) [
        | inl n ↦ rw (replay_agent_turn, n) (if_both Kept off k k)
        | inr (turn, n) ↦
            rw (replay_agent_turn, n)
              (if_both Kept off k (
                if_both Kept t.has_pending_jobs k (
                  replay_from-Kept turn (find_source stores t.prepared_tokens turn cache w.outside)
                    w k)))
      ]

  -- A whole request, whatever its generation does to the stores and however it ends, and whatever turn is
  -- replayed behind it, keeps the server's tables in order: for each slot that is marked as an agent's
  -- turn, the tokens behind the slot are known; and at most 256 recent prompts are kept.
  pub request-Kept :
      (req : CacheRequest) (prompt : Tokens) (s : S) (e : Ended) (t : Turn) (w : Caches S)
      → Kept w
      → Kept (
          replay_agent_turn stores t (prepare_generation_cache stores req prompt w).cache (
            finalize_generation_cache stores req
              (prepare_generation_cache stores req prompt w).effective_prompt
              (prepare_generation_cache stores req prompt w).cache
              e
              (record (prepare_generation_cache stores req prompt w).caches { outside = s })))
  unfolding prepare_generation_cache
  request-Kept req prompt s e t w k =
      let p = choose_restore stores req prompt w in
      let q = choose_target stores req p.0 p.1 in
      let after = record q.caches { outside = s } in
      replay_agent_turn-Kept t q.cache
        (finalize_generation_cache stores req q.effective_prompt q.cache e after)
        (finalize-Kept stores req q.effective_prompt q.cache e after
          (choose_target-Kept stores req p.0 p.1 (choose_restore-Kept stores req prompt w k)))
