-- ===== src/Server/Cache/Balance.antt =====
-- The reservations in PrefixCache that the choice of a target makes and leaves open (3730-3791).
use codex_local_qwen27b.Base.{
  ℕ, ◌+◌, ◌≡◌, refl, Bool, true, false, not, ◌&&◌, ◌||◌, some, List, [], ◌∷◌, arith, if◌then◌else◌,
  if_cases, if_both, ℤ, pos, eqb_ℤ, ltb_ℤ, leb_ℤ,
}
use codex_local_qwen27b.Server.Cache.{
  CacheCall, snapshot_free, prepared_inline, prepared_full, confirm_full_snap, abort_full_snap,
  confirm_inline_snap, abort_inline_snap, cancel_inline_snap, Stores, CacheRequest, Preparing, act,
}
use codex_local_qwen27b.Server.Cache.Target.{prepare_inline, prepare_full, prepare_targets}

-- How often calls of a kind were made.
unfoldable pub total : (CacheCall → ℕ) → List CacheCall → ℕ
total weight [] = 0
total weight (c ∷ cs) = weight c + total weight cs

abbrev pub flag : Bool → ℕ
flag true = 1
flag false = 0

-- The snapshot of a slot is freed.
abbrev pub frees : ℤ → CacheCall → ℕ
frees i (snapshot_free slot) = flag (eqb_ℤ slot i)
frees i _ = 0

-- The kinds, for a slot: a reservation, and what settles one.
abbrev pub reserves_inline : ℤ → CacheCall → ℕ
reserves_inline i (prepared_inline slot cut) = flag (eqb_ℤ slot i)
reserves_inline i _ = 0

abbrev pub settles_inline : ℤ → CacheCall → ℕ
settles_inline i (confirm_inline_snap slot cut prompt) = flag (eqb_ℤ slot i)
settles_inline i (abort_inline_snap slot) = flag (eqb_ℤ slot i)
settles_inline i (cancel_inline_snap slot) = flag (eqb_ℤ slot i)
settles_inline i _ = 0

abbrev pub reserves_full : ℤ → CacheCall → ℕ
reserves_full i (prepared_full slot) = flag (eqb_ℤ slot i)
reserves_full i _ = 0

abbrev pub settles_full : ℤ → CacheCall → ℕ
settles_full i (confirm_full_snap slot key position) = flag (eqb_ℤ slot i)
settles_full i (abort_full_snap slot) = flag (eqb_ℤ slot i)
settles_full i _ = 0

-- The one slot, where there is one.
abbrev pub at_slot : Bool → ℤ → ℤ → Bool
at_slot held slot i = held && eqb_ℤ slot i

abbrev pub no_slot : ℤ → Bool
no_slot i = false

-- From the calls `old` to the calls `new`, at each slot: whether one more reservation was made than
-- settled, or as many.
pub record Opened (inline full : ℤ → Bool) (old new : List CacheCall) : Type 0 where
  pub inline_open :
      (i : ℤ)
      → total (reserves_inline i) new + total (settles_inline i) old
        ≡ total (reserves_inline i) old + total (settles_inline i) new + flag (inline i)
  pub full_open :
      (i : ℤ)
      → total (reserves_full i) new + total (settles_full i) old
        ≡ total (reserves_full i) old + total (settles_full i) new + flag (full i)

module _ {S : Type 0} (stores : Stores S) (req : CacheRequest) where
  -- The reservations that the cache state stands for.
  abbrev pub Holds : List CacheCall → Preparing S → Type 0
  Holds old p =
      Opened (at_slot (leb_ℤ (pos 0) p.cache.snap_slot) p.cache.snap_slot)
        (at_slot p.cache.full_snap_prepared p.cache.full_snap_slot) old p.caches.calls

  prepare_inline-Holds :
      (old : List CacheCall) (logical : ℤ) (p : Preparing S)
      → leb_ℤ (pos 0) p.cache.snap_slot ≡ false
      → Holds old p
      → Holds old (prepare_inline stores req logical p)
  unfolding prepare_inline total act
  prepare_inline-Holds old logical p n h = record {
    inline_open = λ i. ground (arith, h.inline_open i, n);
    full_open = λ i. ground (arith, h.full_open i);
  }

  prepare_full-Holds :
      (old : List CacheCall) (p : Preparing S)
      → p.cache.full_snap_prepared ≡ false
      → Holds old p
      → Holds old (prepare_full stores req p)
  unfolding prepare_full total act
  prepare_full-Holds old p n h = record {
    inline_open = λ i. ground (arith, h.inline_open i, n);
    full_open = λ i. ground (arith, h.full_open i, n);
  }

  -- The snapshots stand as the request found them: none is chosen yet.
  pub record Fresh (p : Preparing S) : Type 0 where
    pub no_inline : leb_ℤ (pos 0) p.cache.snap_slot ≡ false
    pub no_full : p.cache.full_snap_prepared ≡ false

  -- What the choice makes of a state: the open reservations, one target at most, no full snapshot for
  -- a restored request, and the restore point as it was.
  pub record Chosen (old : List CacheCall) (p q : Preparing S) : Type 0 where
    pub holds : Holds old q
    pub one : q.cache.full_snap_prepared ≡ true → leb_ℤ (pos 0) q.cache.snap_slot ≡ false
    pub no_full_restore : q.cache.using_restore ≡ true → q.cache.full_snap_prepared ≡ false
    pub same_restore : q.cache.using_restore ≡ p.cache.using_restore
    pub same_slot : q.cache.cache_slot ≡ p.cache.cache_slot
    pub asks_full :
        q.cache.full_snap_prepared ≡ true
        → q.request_snap ≡ some (q.cache.full_snap_slot, q.cache.full_snap_pos)
    pub asks_none : q.cache.full_snap_prepared ≡ false → q.request_snap ≡ p.request_snap
    pub frees_none : (i : ℤ) → total (frees i) q.caches.calls ≡ total (frees i) p.caches.calls

  inline-Chosen :
      (old : List CacheCall) (logical : ℤ) (p q : Preparing S)
      → leb_ℤ (pos 0) q.cache.snap_slot ≡ false
      → q.cache.full_snap_prepared ≡ false
      → Chosen old p q
      → Chosen old p (prepare_inline stores req logical q)
  unfolding prepare_inline act total
  inline-Chosen old logical p q n f h = record {
    holds = prepare_inline-Holds old logical q n h.holds;
    one = λ t. absurd (cc);
    no_full_restore = λ t. f;
    same_restore = h.same_restore;
    same_slot = h.same_slot;
    asks_full = λ t. absurd (cc);
    asks_none = h.asks_none;
    frees_none = λ i. ground (arith, h.frees_none i);
  }

  full-Chosen :
      (old : List CacheCall) (p q : Preparing S)
      → q.cache.using_restore ≡ false
      → leb_ℤ (pos 0) q.cache.snap_slot ≡ false
      → q.cache.full_snap_prepared ≡ false
      → Chosen old p q
      → Chosen old p (prepare_full stores req q)
  unfolding prepare_full act total
  full-Chosen old p q r n f h = record {
    holds = prepare_full-Holds old q f h.holds;
    one = λ t. ground (arith, n);
    no_full_restore = λ t. absurd (ground (arith, r, t));
    same_restore = ground (arith, h.same_restore);
    same_slot = ground (arith, h.same_slot);
    asks_full = λ t. ground (arith, t, f);
    asks_none = λ t. ground (arith, t, h.asks_none f);
    frees_none = λ i. ground (arith, h.frees_none i);
  }

  pub prepare_targets-Chosen :
      (old : List CacheCall) (logical : ℤ) (p : Preparing S)
      → Fresh p
      → Holds old p
      → Chosen old p (prepare_targets stores req logical p)
  unfolding prepare_targets
  prepare_targets-Chosen old logical p f h =
      let unchosen : Chosen old p p = record {
        holds = h;
        one = λ t. f.no_inline;
        no_full_restore = λ t. f.no_full;
        same_restore = refl;
        same_slot = refl;
        asks_full = λ t. absurd (ground (arith, f.no_full, t));
        asks_none = λ t. refl;
        frees_none = λ i. refl;
      } in
      let first =
        if req.prefer_inline_snap || p.cache.using_restore
        then prepare_inline stores req logical p
        else p in
      let at_first =
        if_both (λ q. Chosen old p q × (q.cache.full_snap_prepared ≡ false))
          (req.prefer_inline_snap || p.cache.using_restore)
          {x = prepare_inline stores req logical p} {y = p}
          (inline-Chosen old logical p p f.no_inline f.no_full unchosen, f.no_full)
          (unchosen, f.no_full) in
      let second =
        if not first.cache.using_restore && ltb_ℤ first.cache.snap_slot (pos 0)
        then prepare_full stores req first
        else first in
      let at_second =
        if_cases (Chosen old p)
          (not first.cache.using_restore && ltb_ℤ first.cache.snap_slot (pos 0))
          {x = prepare_full stores req first} {y = first}
          (λ e.
            full-Chosen old p first (ground (arith, e)) (ground (arith, e)) at_first.1 at_first.0)
          (λ e. at_first.0) in
      if_cases (Chosen old p)
        (not second.cache.full_snap_prepared && ltb_ℤ second.cache.snap_slot (pos 0))
        {x = prepare_inline stores req logical second} {y = second}
        (λ e. inline-Chosen old logical p second (ground (arith, e)) (ground (arith, e)) at_second)
        (λ e. at_second)
