-- ===== src/Server/Cache/Spared.antt =====
-- The target that a request ends up with, and the restore point that the choice spares (3730-3791).
use codex_local_qwen27b.Base.{
  ◌≡◌, refl, ap, sym, ◌∙◌, true, false, ◌&&◌, Option, some, arith, if◌then◌else◌, if_cases, if_both,
  ℤ, pos, eqb_ℤ, leb_ℤ,
}
use codex_local_qwen27b.Server.Cache.{
  Stores, CacheRequest, Preparing, act, forget_inline_slot_metadata,
}
use codex_local_qwen27b.Server.Cache.Target.{
  prepare_targets, spare_restore, clear_inline, clear_full, choose_target,
}
use codex_local_qwen27b.Server.Cache.Balance.{
  total, frees, at_slot, Opened, Fresh, Chosen, prepare_targets-Chosen,
}

module _ {S : Type 0} (stores : Stores S) (req : CacheRequest) where
  -- What the generation is to save, as the cache state says.
  pub asked : Preparing S → Option (ℤ × ℤ) → Option (ℤ × ℤ)
  asked q before =
      if q.cache.snap_prepared
      then some (q.cache.snap_slot, q.cache.snap_cut)
      else if q.cache.full_snap_prepared
      then some (q.cache.full_snap_slot, q.cache.full_snap_pos)
      else before

  pub record Targeted (p q : Preparing S) : Type 0 where
    pub opened :
        Opened
          (at_slot q.cache.snap_prepared q.cache.snap_slot)
          (at_slot q.cache.full_snap_prepared q.cache.full_snap_slot)
          p.caches.calls
          q.caches.calls
    pub at_most_one : (q.cache.snap_prepared && q.cache.full_snap_prepared) ≡ false
    pub asks : q.request_snap ≡ asked q p.request_snap
    pub restore_spared :
        p.cache.using_restore ≡ true
        → total (frees p.cache.cache_slot) q.caches.calls
          ≡ total (frees p.cache.cache_slot) p.caches.calls
    pub same_restore : q.cache.using_restore ≡ p.cache.using_restore
    pub same_slot : q.cache.cache_slot ≡ p.cache.cache_slot

  -- The state between: a reserved slot that is the restore's own is given up.
  record Apart (p q : Preparing S) : Type 0 where
    chosen : Chosen stores req p.caches.calls p q
    apart : q.cache.using_restore ≡ true → eqb_ℤ q.cache.snap_slot q.cache.cache_slot ≡ false

  spare_restore-Apart :
      (p q : Preparing S)
      → (q.cache.using_restore ≡ true → leb_ℤ (pos 0) q.cache.cache_slot ≡ true)
      → Chosen stores req p.caches.calls p q
      → Apart p (spare_restore stores q)
  unfolding spare_restore act total
  spare_restore-Apart p q v h =
      if_cases (Apart p) (q.cache.using_restore && eqb_ℤ q.cache.snap_slot q.cache.cache_slot)
        (λ e.
          let valid = v (ground (arith, e)) in
          record {
            chosen = record {
              holds = record {
                inline_open = λ i. ground (arith, h.holds.inline_open i, e, valid);
                full_open = λ i. ground (arith, h.holds.full_open i);
              };
              one = λ t. refl;
              no_full_restore = h.no_full_restore;
              same_restore = h.same_restore;
              same_slot = h.same_slot;
              asks_full = h.asks_full;
              asks_none = h.asks_none;
              frees_none = λ i. ground (arith, h.frees_none i);
            };
            apart = λ t. ground (arith, valid);
          })
        (λ e. record { chosen = h; apart = λ t. ground (arith, e, t) })

  -- 3783: one slot at most is prepared, and the other fields stand as they were chosen.
  clear_inline-Targeted : (p q : Preparing S) → Apart p q → Targeted p (clear_inline stores q)
  unfolding clear_inline asked act total forget_inline_slot_metadata
  clear_inline-Targeted p q h =
      let c = h.chosen in
      if_cases (Targeted p) (leb_ℤ (pos 0) q.cache.snap_slot)
        (λ e. record {
          opened = record {
            inline_open = λ i. ground (arith, c.holds.inline_open i, e);
            full_open = λ i. ground (arith, c.holds.full_open i);
          };
          at_most_one = ground (arith, c.one, e);
          asks = refl;
          restore_spared = λ t. ground (
            arith,
            c.frees_none p.cache.cache_slot,
            h.apart,
            t,
            c.same_restore,
            ap (eqb_ℤ q.cache.snap_slot) c.same_slot,
          );
          same_restore = c.same_restore;
          same_slot = c.same_slot;
        })
        (λ e. record {
          opened = record {
            inline_open = λ i. ground (arith, c.holds.inline_open i, e);
            full_open = c.holds.full_open;
          };
          at_most_one = refl;
          asks = ground (arith, c.asks_full, c.asks_none);
          restore_spared = λ t. c.frees_none p.cache.cache_slot;
          same_restore = c.same_restore;
          same_slot = c.same_slot;
        })

  clear_full-Targeted :
      (p q : Preparing S)
      → (q.cache.using_restore ≡ true → q.cache.full_snap_prepared ≡ false)
      → Targeted p q
      → Targeted p (clear_full stores q)
  unfolding clear_full asked act total
  clear_full-Targeted p q n h =
      if_cases (Targeted p) q.cache.full_snap_prepared
        (λ e. record {
          opened = record {
            inline_open = λ i. ground (arith, h.opened.inline_open i);
            full_open = λ i. ground (arith, h.opened.full_open i);
          };
          at_most_one = h.at_most_one;
          asks = h.asks;
          restore_spared = λ t. absurd (ground (arith, n, e, t, h.same_restore));
          same_restore = h.same_restore;
          same_slot = h.same_slot;
        })
        (λ e. h)

  clear_inline-restore :
      (q : Preparing S)
      → (q.cache.using_restore ≡ true → q.cache.full_snap_prepared ≡ false)
      → (clear_inline stores q).cache.using_restore ≡ true
      → (clear_inline stores q).cache.full_snap_prepared ≡ false
  unfolding clear_inline
  clear_inline-restore q n =
      if_both
        (λ (z : Preparing S). z.cache.using_restore ≡ true → z.cache.full_snap_prepared ≡ false)
        (leb_ℤ (pos 0) q.cache.snap_slot) n n

  -- For a state in which no target is chosen yet, whose restore point, if it has one, is a slot: after
  -- the choice at most one snapshot, inline or full, is prepared, and the generation is asked for
  -- exactly that one; PrefixCache holds one open reservation more, of its kind and at its slot, if and
  -- only if it is prepared, and none more at other slots; and the choice keeps the restore point and never frees the restored slot.
  pub choose_target-Targeted :
      (logical : ℤ) (p : Preparing S)
      → Fresh stores req p
      → (p.cache.using_restore ≡ true → leb_ℤ (pos 0) p.cache.cache_slot ≡ true)
      → Targeted p (choose_target stores req logical p)
  unfolding choose_target
  choose_target-Targeted logical p f v =
      let t = prepare_targets stores req logical p in
      let c = prepare_targets-Chosen stores req p.caches.calls logical p f (record {
        inline_open = λ i. ground (arith, f.no_inline);
        full_open = λ i. ground (arith, f.no_full);
      }) in
      let a =
        spare_restore-Apart p t (λ u. ap (leb_ℤ (pos 0)) c.same_slot ∙ v (sym c.same_restore ∙ u))
          c in
      let q = spare_restore stores t in
      clear_full-Targeted p (clear_inline stores q)
        (clear_inline-restore q a.chosen.no_full_restore) (clear_inline-Targeted p q a)
