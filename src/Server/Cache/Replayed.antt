-- ===== src/Server/Cache/Replayed.antt =====
-- What a replay does to the reservations and to the snapshot that it starts from (4000-4046).
use codex_local_qwen27b.Base.{
  ◌+◌, ◌≡◌, ap, Bool, false, not, ◌&&◌, ◌||◌, List, arith, if_cases, ℤ, pos, eqb_ℤ, ltb_ℤ, leb_ℤ,
}
use codex_local_qwen27b.Server.Cache.{
  Tokens, CacheCall, snapshot_free, prepared_inline, Stores, Caches, act,
  forget_inline_slot_metadata,
}
use codex_local_qwen27b.Server.Cache.Lookup.{size}
use codex_local_qwen27b.Server.Cache.Replay.{Source, keep_replay, replay_into, replay_from}
use codex_local_qwen27b.Server.Cache.Balance.{
  total, frees, settles_inline, reserves_inline, reserves_full, settles_full, flag, at_slot,
  no_slot, Opened,
}

module _ {S : Type 0} (stores : Stores S) (turn : Tokens) (source : Source) where
  -- The calls between two logs: the reservations left open, and the source's snapshot not freed.
  pub record Spares (open_inline : ℤ → Bool) (old new : List CacheCall) : Type 0 where
    pub opened : Opened open_inline no_slot old new
    pub source_kept : total (frees source.slot) new ≡ total (frees source.slot) old

  -- At the slot, one reservation more is settled than made.
  record Settled (slot : ℤ) (old new : List CacheCall) : Type 0 where
    one_more :
        (i : ℤ)
        → total (reserves_inline i) new + total (settles_inline i) old + flag (eqb_ℤ slot i)
          ≡ total (reserves_inline i) old + total (settles_inline i) new
    full_same :
        (i : ℤ)
        → total (reserves_full i) new + total (settles_full i) old
          ≡ total (reserves_full i) old + total (settles_full i) new
    source_kept : total (frees source.slot) new ≡ total (frees source.slot) old

  keep_replay-Settled :
      (slot : ℤ) (ok : Bool) (w : Caches S)
      → eqb_ℤ slot source.slot ≡ false
      → Settled slot w.calls (keep_replay stores turn source slot ok w).calls
  unfolding keep_replay act total
  keep_replay-Settled slot ok w n = record {
    one_more = λ i. ground arith;
    full_same = λ i. ground arith;
    source_kept = ground (arith, n);
  }

  forget-calls : (slot : ℤ) (w : Caches S) → (forget_inline_slot_metadata slot w).calls ≡ w.calls
  unfolding forget_inline_slot_metadata
  forget-calls slot w = ground arith

  replay_into-Settled :
      (slot : ℤ) (w : Caches S) → Settled slot w.calls (replay_into stores turn source slot w).calls
  unfolding replay_into act total
  replay_into-Settled slot w =
      let cleared = act stores (snapshot_free slot) (forget_inline_slot_metadata slot w) in
      let made = stores.restore_and_generate source.slot turn slot (size turn) cleared.outside in
      if_cases (λ (v : Caches S). Settled slot w.calls v.calls) (eqb_ℤ slot source.slot)
        (λ e. record {
          one_more = λ i. ground arith;
          full_same = λ i. ground arith;
          source_kept = ground arith;
        })
        (λ e.
          let k = keep_replay-Settled slot made.0 (record cleared { outside = made.1 }) e in
          let f = forget-calls slot w in
          record {
            one_more = λ i. omega (
              arith,
              k.one_more i,
              ap (total (reserves_inline i)) f,
              ap (total (settles_inline i)) f,
            );
            full_same = λ i. omega (
              arith,
              k.full_same i,
              ap (total (reserves_full i)) f,
              ap (total (settles_full i)) f,
            );
            source_kept = ground (arith, k.source_kept, ap (total (frees source.slot)) f, e);
          })

  -- The slot that PrefixCache gives at another position than the turn's end.
  pub misplaced : Caches S → ℤ → Bool
  misplaced w =
      let (slot, cut, s) =
        stores.prepare_inline_snap turn source.position false (size turn) source.slot w.outside in
      at_slot (leb_ℤ (pos 0) slot && not (eqb_ℤ cut (size turn))) slot

  -- From a source that is a slot: the replay never frees the source's snapshot, and it settles the
  -- reservation that it makes, at the slot where it makes it; except where PrefixCache gives a slot at
  -- another position than the end of the turn. Exactly then one inline reservation is left open, at the
  -- slot that was given. At each slot, full reservations stay as they were.
  pub replay_from-Spares :
      (w : Caches S)
      → ltb_ℤ source.slot (pos 0) ≡ false
      → Spares (misplaced w) w.calls (replay_from stores turn source w).calls
  unfolding replay_from misplaced act total
  replay_from-Spares w n =
      let given =
        stores.prepare_inline_snap turn source.position false (size turn) source.slot w.outside in
      let after = record w { outside = given.2 } in
      let reserved = act stores (prepared_inline given.0 given.1) after in
      let Ends = λ (v : Caches S). Spares (misplaced w) w.calls v.calls in
      if_cases Ends (ltb_ℤ source.slot (pos 0)) (λ e. absurd (cc))
        (λ e.
          if_cases Ends (ltb_ℤ given.0 (pos 0) || not (eqb_ℤ given.1 (size turn)))
            (λ e1.
              if_cases Ends (leb_ℤ (pos 0) given.0)
                (λ e2. record {
                  opened = record {
                    inline_open = λ i. ground (arith, e1, e2);
                    full_open = λ i. ground arith;
                  };
                  source_kept = ground arith;
                })
                (λ e2. record {
                  opened = record {
                    inline_open = λ i. ground (arith, e2);
                    full_open = λ i. ground arith;
                  };
                  source_kept = ground arith;
                }))
            (λ e1.
              if_cases (λ (u : Caches S). Ends (replay_into stores turn source given.0 u))
                (leb_ℤ (pos 0) given.0)
                (λ e2.
                  let k = replay_into-Settled given.0 reserved in
                  record {
                    opened = record {
                      inline_open = λ i. ground (arith, e1, k.one_more i);
                      full_open = λ i. ground (arith, k.full_same i);
                    };
                    source_kept = ground (arith, k.source_kept);
                  })
                (λ e2. absurd (ground (arith, e1, e2)))))
