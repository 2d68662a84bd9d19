-- ===== src/Server/Cache/Settled.antt =====
-- Every reservation of a request is settled when its generation is over (3813-3913).
use codex_local_qwen27b.Base.{
  ℕ, ◌+◌, ◌≡◌, sym, ◌∙◌, Bool, true, false, not, ◌&&◌, ◌||◌, List, arith, ◌∷◌, Bool-cases, inl, inr,
  ℤ, pos, eqb_ℤ, ltb_ℤ, leb_ℤ, if◌then◌else◌,
}
use codex_local_qwen27b.Server.Cache.{
  Tokens, CacheCall, confirm_full_snap, confirm_inline_snap, Stores, Caches, GenerationCacheState,
  CacheRequest, act,
}
use codex_local_qwen27b.Server.Cache.Target.{choose_target, prepare_generation_cache}
use codex_local_qwen27b.Server.Cache.Finalize.{
  Ended, is_saved, settle_full, save_inline, confirm_inline, settle_inline, free_staging,
  save_continued, checkpoint, remember_prompt, finalize_generation_cache,
}
use codex_local_qwen27b.Server.Cache.Balance.{
  total, settles_inline, reserves_inline, reserves_full, settles_full, flag, at_slot, no_slot,
  Opened,
}
use codex_local_qwen27b.Server.Cache.Lookup.{size}
use codex_local_qwen27b.Server.Cache.Disk.{choose_restore}
use codex_local_qwen27b.Server.Cache.Restored.{choose_restore-RestoreFits}
use codex_local_qwen27b.Server.Cache.Spared.{choose_target-Targeted}

abbrev pub confirms_inline : ℤ → CacheCall → ℕ
confirms_inline i (confirm_inline_snap slot cut prompt) = flag (eqb_ℤ slot i)
confirms_inline i _ = 0

abbrev pub confirms_full : ℤ → CacheCall → ℕ
confirms_full i (confirm_full_snap slot key position) = flag (eqb_ℤ slot i)
confirms_full i _ = 0

-- From the calls `old` to the calls `new`, at a slot: whether a reservation of the kind was settled
-- once, or none; whether it was confirmed; and none was made.
pub record SettlesAt (i : ℤ) (inline inline_ok full full_ok : Bool) (old new : List CacheCall)
    : Type 0 where
  pub inline_settled : total (settles_inline i) new ≡ total (settles_inline i) old + flag inline
  pub inline_confirmed :
      total (confirms_inline i) new ≡ total (confirms_inline i) old + flag inline_ok
  pub inline_reserved : total (reserves_inline i) new ≡ total (reserves_inline i) old
  pub full_settled : total (settles_full i) new ≡ total (settles_full i) old + flag full
  pub full_confirmed : total (confirms_full i) new ≡ total (confirms_full i) old + flag full_ok
  pub full_reserved : total (reserves_full i) new ≡ total (reserves_full i) old

abbrev pub Settles : (inline inline_ok full full_ok : ℤ → Bool) (old new : List CacheCall) → Type 0
Settles inline inline_ok full full_ok old new =
    (i : ℤ) → SettlesAt i (inline i) (inline_ok i) (full i) (full_ok i) old new

-- What a snapshot must have to be kept: the generation went well and gave tokens, some of it was seen
-- and the client stayed; and the backend holds the slot at a position from 1 to the one asked for.
unfoldable pub keepable : {S : Type 0} → Stores S → Ended → ℤ → ℤ → S → Bool
keepable stores e slot asked s =
    if not e.ok || e.client_disconnected || not e.visible_output_seen
    then false
    else if leb_ℤ e.completion_tokens (pos 0) || not (stores.snapshot_used slot s)
    then false
    else not (leb_ℤ (stores.snapshot_cur_pos slot s) (pos 0))
      && not (ltb_ℤ asked (stores.snapshot_cur_pos slot s))

is_saved-keepable :
    {S : Type 0} (stores : Stores S) (e : Ended) (slot asked : ℤ) (s : S)
    → is_saved stores e slot asked s ≡ keepable stores e slot asked s
unfolding is_saved keepable
is_saved-keepable stores e slot asked s = ground arith

-- Calls of other kinds.
abbrev Quiet : List CacheCall → List CacheCall → Type 0
Quiet = Settles no_slot no_slot no_slot no_slot

Quiet-refl : (cs : List CacheCall) → Quiet cs cs
Quiet-refl cs = λ i. omega arith

Settles-trans :
    {p q f g : ℤ → Bool} (old mid new : List CacheCall)
    → Settles p q f g old mid
    → Quiet mid new
    → Settles p q f g old new
Settles-trans old mid new h k = λ i. let a = h i in let b = k i in omega arith

Settles-both :
    {p q f g : ℤ → Bool} (old mid new : List CacheCall)
    → Settles no_slot no_slot f g old mid
    → Settles p q no_slot no_slot mid new
    → Settles p q f g old new
Settles-both old mid new h k = λ i. let a = h i in let b = k i in omega arith

module _ {S : Type 0} (stores : Stores S) (req : CacheRequest) (prompt : Tokens)
    (cache : GenerationCacheState) (e : Ended) where
  abbrev inline_saved : S → Bool
  inline_saved s = cache.snap_prepared && keepable stores e cache.snap_slot cache.snap_cut s

  abbrev full_saved : S → Bool
  full_saved s =
      cache.full_snap_prepared && keepable stores e cache.full_snap_slot cache.full_snap_pos s

  settle_full-Settles :
      (w : Caches S)
      → Settles no_slot no_slot
          (at_slot cache.full_snap_prepared cache.full_snap_slot)
          (at_slot (full_saved w.outside) cache.full_snap_slot)
          w.calls
          (settle_full stores req prompt cache e w).calls
  unfolding settle_full act total
  settle_full-Settles w =
      let k = is_saved-keepable stores e cache.full_snap_slot cache.full_snap_pos w.outside in
      λ i. ground (arith, k)

  save_inline-Quiet : (w : Caches S) → Quiet w.calls (save_inline stores prompt cache w).calls
  unfolding save_inline act total
  save_inline-Quiet w = λ i. ground arith

  confirm_inline-Settles :
      (w : Caches S)
      → Settles
          (at_slot true cache.snap_slot)
          (at_slot true cache.snap_slot)
          no_slot
          no_slot
          w.calls
          (confirm_inline stores prompt cache w).calls
  unfolding confirm_inline act total
  confirm_inline-Settles w =
      let call = confirm_inline_snap cache.snap_slot cache.snap_cut prompt in
      Settles-trans w.calls (call ∷ w.calls) (confirm_inline stores prompt cache w).calls
        (λ i. omega arith) (save_inline-Quiet _)

  settle_inline-Settles :
      (w : Caches S)
      → Settles
          (at_slot cache.snap_prepared cache.snap_slot)
          (at_slot (inline_saved w.outside) cache.snap_slot)
          no_slot
          no_slot
          w.calls
          (settle_inline stores prompt cache e w).calls
  unfolding settle_inline act total
  settle_inline-Settles w =
      let k = is_saved-keepable stores e cache.snap_slot cache.snap_cut w.outside in
      elim (Bool-cases cache.snap_prepared) [
        | inl p ↦ elim (Bool-cases (is_saved stores e cache.snap_slot cache.snap_cut w.outside)) [
          | inl s ↦ rw (settle_inline, p, s, sym k ∙ s) (confirm_inline-Settles w)
          | inr s ↦ rw (settle_inline, p, s, sym k ∙ s) (λ i. omega arith)
        ]
        | inr p ↦ rw (settle_inline, p) (Quiet-refl w.calls)
      ]

  free_staging-Quiet : (w : Caches S) → Quiet w.calls (free_staging stores cache w).calls
  unfolding free_staging act total
  free_staging-Quiet w = λ i. ground arith

  checkpoint-Quiet : (w : Caches S) → Quiet w.calls (checkpoint stores prompt cache e w).calls
  unfolding checkpoint save_continued act total
  checkpoint-Quiet w = λ i. ground arith

  remember-calls : (w : Caches S) → (remember_prompt stores req prompt w).calls ≡ w.calls
  unfolding remember_prompt
  remember-calls w = ground arith

  -- At the end of a generation, a prepared snapshot is settled exactly once, at its own slot: by a
  -- confirmation if and only if the generation went well and gave tokens, the client saw output and
  -- stayed, and the backend holds the slot at a position that is positive and not behind the one that
  -- was asked for, and else by an abortion. At no other slot anything is settled or confirmed, nor where
  -- no snapshot is prepared; and no reservation is made. The backend is asked for the full snapshot
  -- first, and for the inline one when the full one is settled.
  pub finalize_generation_cache-Settles :
      (w : Caches S)
      → Settles
          (at_slot cache.snap_prepared cache.snap_slot)
          (at_slot (inline_saved (settle_full stores req prompt cache e w).outside) cache.snap_slot)
          (at_slot cache.full_snap_prepared cache.full_snap_slot)
          (at_slot (full_saved w.outside) cache.full_snap_slot)
          w.calls
          (finalize_generation_cache stores req prompt cache e w).calls
  unfolding finalize_generation_cache
  finalize_generation_cache-Settles w =
      let w1 = settle_full stores req prompt cache e w in
      let w2 = settle_inline stores prompt cache e w1 in
      let w3 = free_staging stores cache w2 in
      let w4 = checkpoint stores prompt cache e w3 in
      rw (remember-calls w4) (
        Settles-trans w.calls w3.calls w4.calls
          (Settles-trans w.calls w2.calls w3.calls
            (Settles-both w.calls w1.calls w2.calls (settle_full-Settles w)
              (settle_inline-Settles w1))
            (free_staging-Quiet w2))
          (checkpoint-Quiet w3))

-- Where the staging slot is a slot and the disk cache's cold boundary lies within the prompt: from the
-- choice of a target to the end of the generation, whatever the generation does to the stores and
-- however it ends, a request settles, at each slot and of each kind, inline and full, as many
-- reservations of PrefixCache as it makes there; none is left open.
pub request-Closed :
    {S : Type 0} (stores : Stores S) (req : CacheRequest)
    → leb_ℤ (pos 0) stores.staging_slot ≡ true
    → ((prompt : Tokens) (bs : List ℤ) (s : S)
        → leb_ℤ (stores.cold_prefix_boundary prompt bs s) (size prompt) ≡ true)
    → (prompt : Tokens) (w : Caches S) (s : S) (e : Ended)
    → Opened no_slot no_slot
        (choose_restore stores req prompt w).1.caches.calls
        (finalize_generation_cache stores req
          (prepare_generation_cache stores req prompt w).effective_prompt
          (prepare_generation_cache stores req prompt w).cache
          e
          (record (prepare_generation_cache stores req prompt w).caches { outside = s })).calls
unfolding prepare_generation_cache
request-Closed stores req staging cold prompt w s e =
    let r = choose_restore-RestoreFits stores req staging cold prompt w in
    let p = choose_restore stores req prompt w in
    let q = choose_target stores req p.0 p.1 in
    let o =
      (choose_target-Targeted stores req p.0 p.1 r.restorable.fresh
        r.restorable.from_slot).opened in
    let h =
      finalize_generation_cache-Settles stores req q.effective_prompt q.cache e
        (record q.caches { outside = s }) in
    record {
      inline_open =
          λ i. omega (arith, o.inline_open i, (h i).inline_settled, (h i).inline_reserved);
      full_open = λ i. omega (arith, o.full_open i, (h i).full_settled, (h i).full_reserved);
    }
