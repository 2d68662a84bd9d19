-- ===== src/Server/Cache/Replay.antt =====
-- The replay of an agent's turn into a snapshot of its own (291-299 and 3967-4046).
use codex_local_qwen27b.Base.{
  Bool, true, false, not, ◌&&◌, ◌||◌, Option, none, some, if◌then◌else◌, bytes_eq, apply_if, ℤ, pos,
  minus_one, eqb_ℤ, ltb_ℤ, leb_ℤ,
}
use codex_local_qwen27b.Server.Cache.{
  Tokens, snapshot_free, prepared_inline, confirm_inline_snap, abort_inline_snap,
  cancel_inline_snap, Stores, Caches, GenerationCacheState, act, write_slot,
  forget_inline_slot_metadata,
}
use codex_local_qwen27b.Server.Cache.Lookup.{size, prefix}

-- 291-299
unfoldable pub canonical_turn_matches_checkpoint : Tokens → Tokens → ℤ → Bool
canonical_turn_matches_checkpoint prompt completed_turn checkpoint =
    ltb_ℤ (pos 0) checkpoint
    && leb_ℤ checkpoint (size prompt)
    && ltb_ℤ checkpoint (size completed_turn)
    && bytes_eq (prefix checkpoint prompt) (prefix checkpoint completed_turn)

-- What is read of the request and of the configuration. The canonical tokens are those of the rendered
-- turn; `none` if it cannot be rendered.
pub record Turn : Type 0 where
  pub replay_cache : Bool
  pub agent_turn_cache : Bool
  pub prefix_cache_disabled : Bool
  pub compressed : Bool
  pub prompt_tokens : Tokens
  pub prepared_tokens : Tokens
  pub canonical : Option Tokens
  pub has_pending_jobs : Bool

-- source_slot and source_pos
pub record Source : Type 0 where
  pub slot : ℤ
  pub position : ℤ

module _ {S : Type 0} where
  -- 3987-3997
  unfoldable pub consider_source : Stores S → Tokens → Tokens → ℤ → S → Source → Source
  unfolding canonical_turn_matches_checkpoint
  consider_source stores prompt turn slot s source =
      let position = stores.snapshot_cur_pos slot s in
      if ltb_ℤ slot (pos 0) || not (stores.snapshot_used slot s)
      then source
      else if leb_ℤ position source.position
          || not (canonical_turn_matches_checkpoint prompt turn position)
      then source
      else record { slot = slot; position = position }

  -- 3985-3999
  unfoldable pub find_source : Stores S → Tokens → Tokens → GenerationCacheState → S → Source
  unfolding consider_source
  find_source stores prompt turn cache s =
      apply_if cache.snap_prepared (consider_source stores prompt turn cache.snap_slot s) (
        apply_if cache.using_restore (consider_source stores prompt turn cache.cache_slot s)
          (record { slot = minus_one; position = pos 0 }))

  -- 4033-4046
  unfoldable pub keep_replay : Stores S → Tokens → Source → ℤ → Bool → Caches S → Caches S
  unfolding act
  keep_replay stores turn source slot ok w =
      let saved =
        if ok && stores.snapshot_used slot w.outside
        then stores.snapshot_cur_pos slot w.outside
        else pos 0 in
      if ltb_ℤ source.position saved && leb_ℤ saved (size turn)
      then record (act stores (confirm_inline_snap slot saved turn) w) {
        slot_tokens = write_slot w.slot_tokens slot (some (prefix saved turn));
        agent_turn_cache_slots = write_slot w.agent_turn_cache_slots slot true;
      }
      else act stores (abort_inline_snap slot) (act stores (snapshot_free slot) w)

  -- 4013-4046
  unfoldable pub replay_into : Stores S → Tokens → Source → ℤ → Caches S → Caches S
  unfolding act forget_inline_slot_metadata keep_replay
  replay_into stores turn source slot w =
      let cleared = act stores (snapshot_free slot) (forget_inline_slot_metadata slot w) in
      let (ok, s) = stores.restore_and_generate source.slot turn slot (size turn) cleared.outside in
      if eqb_ℤ slot source.slot
      then act stores (cancel_inline_snap slot) w
      else keep_replay stores turn source slot ok (record cleared { outside = s })

  -- 4000-4046
  unfoldable pub replay_from : Stores S → Tokens → Source → Caches S → Caches S
  unfolding act replay_into
  replay_from stores turn source w =
      let (slot, cut, s) =
        stores.prepare_inline_snap turn source.position false (size turn) source.slot w.outside in
      let after = record w { outside = s } in
      let pending =
        if leb_ℤ (pos 0) slot then act stores (prepared_inline slot cut) after else after in
      if ltb_ℤ source.slot (pos 0)
      then w
      else if ltb_ℤ slot (pos 0) || not (eqb_ℤ cut (size turn))
      then pending
      else replay_into stores turn source slot pending

  -- 3967-4046
  unfoldable pub replay_agent_turn : Stores S → Turn → GenerationCacheState → Caches S → Caches S
  unfolding find_source replay_from
  replay_agent_turn stores t cache w =
      if not t.replay_cache
        || not t.agent_turn_cache
        || t.prefix_cache_disabled
        || t.compressed
        || not (bytes_eq t.prepared_tokens t.prompt_tokens)
      then w
      else elim t.canonical [
        | none ↦ w
        | some turn ↦
            if t.has_pending_jobs
            then w
            else replay_from stores turn (find_source stores t.prepared_tokens turn cache w.outside)
                w
      ]
