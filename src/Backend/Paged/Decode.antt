-- ===== src/Backend/Paged/Decode.antt =====
-- What prepare_paged_decode_step does to the device's block table (756-806).
use codex_local_qwen27b.Base.{
  ℕ, zero, suc, ◌+◌, ◌/◌, ◌≤◌, ◌<◌, ◌^◌, ◌-◌, ◌≡◌, refl, sym, ap, ◌∙◌, true, false, not, ◌&&◌, ◌||◌,
  some, List, [], ◌∷◌, ◌++◌, arith, ◌==◌, ltb, leb, if_both, if_cases, length, length-append, take,
}
use codex_local_qwen27b.Backend.Paged.{
  PagedKvPool, Paging, write_entry, is_ok, with_pool, DecodeStep, row, refused, aborted, fail_step,
  record_step, append_step, prepare_paged_decode_step,
}
use codex_local_qwen27b.Backend.Paged.Begin.{Uploaded}

length-write_entry : (i x : ℕ) (table : List ℕ) → length (write_entry i x table) ≡ length table
length-write_entry i x [] = refl
length-write_entry zero x (y ∷ ys) = refl
length-write_entry (suc i) x (y ∷ ys) = ap suc (length-write_entry i x ys)

-- An entry behind the first `length xs` is written.
take-write_entry :
    (xs table : List ℕ) (x : ℕ)
    → take (length xs) table ≡ xs
    → length xs < length table
    → take (length (xs ++ x ∷ [])) (write_entry (length xs) x table) ≡ xs ++ x ∷ []
take-write_entry [] [] x e l = absurd (omega arith)
take-write_entry [] (y ∷ ys) x e l = refl
take-write_entry (z ∷ zs) [] x e l = absurd (omega arith)
take-write_entry (z ∷ zs) (y ∷ ys) x e l =
    let here : y ≡ z = cc in
    let behind : take (length zs) ys ≡ zs = cc in
    rw here (ap (◌∷◌ z) (take-write_entry zs ys x behind (omega arith)))

module _ {P H : Type 0} where
  -- What PagedKvPool documents of an append of one token: inside a block the sequence's table stays,
  -- and a token at the start of a block appends that block, at the index of its position.
  pub record AppendsOne (pool : PagedKvPool P H) : Type 0 where
    pub inside :
        (h : H) (p : P)
        → (pool.append h 1 p).1.accepted ≡ true
        → ((pool.append h 1 p).1.last_slot.block_offset == 0) ≡ false
        → pool.sequence h (pool.append h 1 p).0 ≡ pool.sequence h p
    pub fresh :
        (h : H) (p : P)
        → (pool.append h 1 p).1.accepted ≡ true
        → ((pool.append h 1 p).1.last_slot.block_offset == 0) ≡ true
        → pool.sequence h (pool.append h 1 p).0 ≡ (
          (pool.sequence h p).0,
          (pool.sequence h p).1 ++ (pool.append h 1 p).1.last_slot.physical_block ∷ [],
        )
    pub index :
        (h : H) (p : P)
        → (pool.append h 1 p).1.accepted ≡ true
        → ((pool.append h 1 p).1.last_slot.block_offset == 0) ≡ true
        → (pool.append h 1 p).1.last_slot.logical_position / pool.block_size
          ≡ length (pool.sequence h p).1

  -- A step that gives a row leaves the table on the device, and the sequence's length.
  abbrev pub StepOutcome : PagedKvPool P H → ℕ → DecodeStep × Paging P H → Type 0
  StepOutcome pool n (row r, b) = Uploaded pool b × (b.paged_kv_seq_len ≡ n + 1)
  StepOutcome pool n (refused, b) = Unit
  StepOutcome pool n (aborted, b) = Unit

  module _ (pool : PagedKvPool P H) (laws : AppendsOne pool) (h : H) (p : P) (b : Paging P H) where
    -- The table of the device is the pool's before the append.
    record Before : Type 0 where
      status : is_ok (pool.sequence h p).0 ≡ true
      fits : length (pool.sequence h p).1 ≤ length b.paged_block_table
      on_device : take (length (pool.sequence h p).1) b.paged_block_table ≡ (pool.sequence h p).1

    record_step-StepOutcome :
        (n : ℕ)
        → Before
        → (pool.append h 1 p).1.accepted ≡ true
        → (pool.append h 1 p).1.last_slot.logical_position ≡ n
        → StepOutcome pool n (
            record_step pool n
              (pool.append h 1 p).1.last_slot
              (with_pool (some (pool.append h 1 p).0) (some h) b))
    unfolding record_step fail_step
    record_step-StepOutcome n u a e =
        let t = pool.append h 1 p in
        if_cases (StepOutcome pool n) (not (t.1.last_slot.block_offset == 0))
          (λ k.
            let same = laws.inside h p a (ground (arith, k)) in
            (
              record {
                held_pool = t.0;
                held = h;
                has_pool = refl;
                has_sequence = refl;
                no_error = rw same u.status;
                fits = rw same u.fits;
                on_device = rw same u.on_device;
              },
              refl,
            ))
          (λ k.
            if_cases (StepOutcome pool n) (leb (length b.paged_block_table) (n / pool.block_size))
              (λ l. tt)
              (λ l.
                let grown = laws.fresh h p a (ground (arith, k)) in
                let at =
                  ap (λ z. z / pool.block_size) (sym e) ∙ laws.index h p a (ground (arith, k)) in
                (
                  record {
                    held_pool = t.0;
                    held = h;
                    has_pool = refl;
                    has_sequence = refl;
                    no_error = rw grown u.status;
                    fits = rw grown (
                        ground (
                          arith,
                          l,
                          at,
                          length-append (pool.sequence h p).1 (t.1.last_slot.physical_block ∷ []),
                          length-write_entry (n / pool.block_size) t.1.last_slot.physical_block
                              b.paged_block_table,
                        ));
                    on_device =
                        rw (grown, at)
                          (take-write_entry (pool.sequence h p).1 b.paged_block_table
                            t.1.last_slot.physical_block u.on_device (ground (arith, l, at)));
                  },
                  refl,
                )))

    append_step-StepOutcome : (n : ℕ) → Before → StepOutcome pool n (append_step pool n h p b)
    unfolding append_step fail_step
    append_step-StepOutcome n u =
        let t = pool.append h 1 p in
        if_cases (StepOutcome pool n)
          (not t.1.accepted
            || not (t.1.token_count == 1)
            || not (t.1.last_slot.logical_position == n))
          (λ k. tt)
          (λ k.
            if_both (StepOutcome pool n)
              (not (
                ltb t.1.last_slot.physical_token_index (2 ^ 63)
                && ltb n (2 ^ 31 - 1)
                && ltb t.1.last_slot.physical_block (2 ^ 31)))
              tt (record_step-StepOutcome n u (ground (arith, k)) (ground (arith, k))))

  -- When the device's block table begins with the pool's table for the sequence, it does so again after
  -- a decode step that gives a row, and the sequence's length on the device is one past the position.
  pub prepare_paged_decode_step-StepOutcome :
      (pool : PagedKvPool P H) (laws : AppendsOne pool) (n : ℕ) (b : Paging P H)
      → Uploaded pool b
      → StepOutcome pool n (prepare_paged_decode_step pool n b)
  unfolding prepare_paged_decode_step fail_step
  prepare_paged_decode_step-StepOutcome pool laws n b u =
      rw (prepare_paged_decode_step, u.has_pool, u.has_sequence)
        (if_both (StepOutcome pool n) (not b.tensors_present) tt (
          append_step-StepOutcome pool laws u.held u.held_pool b n
            (record { status = u.no_error; fits = u.fits; on_device = u.on_device })))
