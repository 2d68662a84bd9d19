-- ===== src/Backend/Paged/Begin.antt =====
-- What begin_paged_sequence leaves behind (682-754).
use codex_local_qwen27b.Base.{
  ℕ, suc, ◌+◌, ◌≤◌, ◌≡◌, refl, ap, Bool, true, false, not, ◌&&◌, ◌||◌, none, some, List, [], ◌∷◌,
  Bytes, codes, arith, ltb, if_both, if_cases, length, take, Option-cases, inl, inr,
}
use codex_local_qwen27b.Backend.Paged.{
  PagedKvPool, Paging, write_entries, is_ok, with_pool, with_request, with_error,
  end_paged_sequence, fail_begin, upload_table, identity_slot, append_prompt, begin_paged_sequence,
}

take-write_entries :
    (xs table : List ℕ) → length xs ≤ length table → take (length xs) (write_entries xs table) ≡ xs
take-write_entries [] table l = refl
take-write_entries (x ∷ xs) [] l = absurd (omega arith)
take-write_entries (x ∷ xs) (y ∷ ys) l = ap (◌∷◌ x) (take-write_entries xs ys (omega arith))

length-write_entries : (xs table : List ℕ) → length (write_entries xs table) ≡ length table
length-write_entries [] table = refl
length-write_entries (x ∷ xs) [] = refl
length-write_entries (x ∷ xs) (y ∷ ys) = ap suc (length-write_entries xs ys)

module _ {P H : Type 0} where
  -- The device's block table starts with the table that the pool has for the sequence.
  pub record Uploaded (pool : PagedKvPool P H) (b : Paging P H) : Type 0 where
    pub held_pool : P
    pub held : H
    pub has_pool : b.paged_kv_pool ≡ some held_pool
    pub has_sequence : b.paged_sequence ≡ some held
    pub no_error : is_ok (pool.sequence held held_pool).0 ≡ true
    pub fits : length (pool.sequence held held_pool).1 ≤ length b.paged_block_table
    pub on_device :
        take (length (pool.sequence held held_pool).1) b.paged_block_table
        ≡ (pool.sequence held held_pool).1

  -- Success leaves the table on the device, failure leaves no sequence behind.
  abbrev pub BeginOutcome : PagedKvPool P H → Bool × Paging P H → Type 0
  BeginOutcome pool (true, b) = Uploaded pool b
  BeginOutcome pool (false, b) = b.paged_sequence ≡ none

  end-none :
      (pool : PagedKvPool P H) (b : Paging P H) → (end_paged_sequence pool b).paged_sequence ≡ none
  unfolding end_paged_sequence
  end-none pool b = elim (Option-cases b.paged_kv_pool) [
    | inl e ↦ rw (end_paged_sequence, e) refl
    | inr (p, e) ↦ elim (Option-cases b.paged_sequence) [
      | inl f ↦ rw (end_paged_sequence, e, f) refl
      | inr (h, f) ↦ rw (end_paged_sequence, e, f) refl
    ]
  ]

  fail_begin-BeginOutcome :
      (pool : PagedKvPool P H) (message : Bytes) (b : Paging P H)
      → BeginOutcome pool (fail_begin pool message b)
  unfolding fail_begin
  fail_begin-BeginOutcome pool message b = end-none pool (with_error message b)

  upload_table-BeginOutcome :
      (pool : PagedKvPool P H) (h : H) (p : P) (b : Paging P H)
      → b.paged_kv_pool ≡ some p
      → b.paged_sequence ≡ some h
      → BeginOutcome pool (upload_table pool h p b)
  unfolding upload_table
  upload_table-BeginOutcome pool h p b e f =
      if_cases (BeginOutcome pool) (not (is_ok (pool.sequence h p).0))
        (λ k. fail_begin-BeginOutcome pool (codes "paged attention sequence snapshot failed") b)
        (λ k.
          if_cases (BeginOutcome pool)
            (ltb (length b.paged_block_table) (length (pool.sequence h p).1))
            (λ l.
              fail_begin-BeginOutcome pool (codes "paged attention block table capacity exceeded")
                b)
            (λ l. record {
              held_pool = p;
              held = h;
              has_pool = e;
              has_sequence = f;
              no_error = ground (arith, k);
              fits =
                  ground (arith, l, length-write_entries (pool.sequence h p).1 b.paged_block_table);
              on_device =
                  take-write_entries (pool.sequence h p).1 b.paged_block_table (ground (arith, l));
            }))

  append_prompt-BeginOutcome :
      (pool : PagedKvPool P H) (n : ℕ) (h : H) (p : P) (b : Paging P H)
      → BeginOutcome pool (append_prompt pool n h p b)
  unfolding append_prompt
  append_prompt-BeginOutcome pool n h p b =
      let t = pool.append h n p in
      let now = with_pool (some t.0) (some h) b in
      if_both (BeginOutcome pool) (not t.1.accepted)
        (fail_begin-BeginOutcome pool (codes "paged attention prompt allocation failed") now)
        (if_both (BeginOutcome pool)
          (ltb 0 n && (not (identity_slot t.1.first_slot) || not (identity_slot t.1.last_slot)))
          (fail_begin-BeginOutcome pool
            (codes "paged attention prefill allocation is not contiguous") now)
          (upload_table-BeginOutcome pool h t.0 now refl refl))

  -- On a backend with a pool: when the start of a sequence succeeds, the backend holds the sequence and
  -- the device's block table begins with the pool's table for it; when it fails, on any of its five
  -- errors, the backend holds no sequence.
  pub begin_paged_sequence-BeginOutcome :
      (pool : PagedKvPool P H) (n : ℕ) (b : Paging P H) (p : P)
      → b.paged_kv_pool ≡ some p
      → BeginOutcome pool (begin_paged_sequence pool n b)
  unfolding begin_paged_sequence
  begin_paged_sequence-BeginOutcome pool n b p e =
      rw (begin_paged_sequence, e)
        (if_both (BeginOutcome pool)
          (is_ok (pool.acquire (b.paged_request_id + 1) (pool.reset p)).1)
          (append_prompt-BeginOutcome pool n
            (pool.acquire (b.paged_request_id + 1) (pool.reset p)).2
            (pool.acquire (b.paged_request_id + 1) (pool.reset p)).0
            (with_request (b.paged_request_id + 1) b))
          refl)
