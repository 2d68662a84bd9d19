-- ===== src/Backend/Paged.antt =====
-- The paged sequence of a request (server/src/qwen35/qwen35_backend.cpp, 682-819). PagedKvPool is not
-- code of the repository: its operations, on pools `P` and handles `H`, are an interface.
pub mod Begin
pub mod Decode
use codex_local_qwen27b.Base.{
  ℕ, zero, suc, ◌+◌, ◌-◌, ◌/◌, ◌^◌, Bool, true, false, not, ◌&&◌, ◌||◌, Option, none, some, List,
  [], ◌∷◌, ◌++◌, Bytes, codes, ◌==◌, ltb, leb, if◌then◌else◌, length, is_empty, take, drop,
}

-- PagedKvStatus: the two values that the backend names, and the others.
pub data PagedKvStatus : Type 0 where
  ok : PagedKvStatus
  stale_handle : PagedKvStatus
  failed : (code : ℕ) → PagedKvStatus

pub record PagedKvWriteSlot : Type 0 where
  pub logical_position : ℕ
  pub physical_token_index : ℕ
  pub physical_block : ℕ
  pub block_offset : ℕ

-- `accepted` is what the result converts to as a bool.
pub record PagedKvAppendResult : Type 0 where
  pub accepted : Bool
  pub token_count : ℕ
  pub first_slot : PagedKvWriteSlot
  pub last_slot : PagedKvWriteSlot

-- The operations of PagedKvPool that the backend calls.
pub record PagedKvPool (P H : Type 0) : Type 0 where
  pub reset : P → P
  pub acquire : ℕ → P → P × PagedKvStatus × H
  pub append : H → ℕ → P → P × PagedKvAppendResult
  pub sequence : H → P → PagedKvStatus × List ℕ
  pub release : H → P → P × PagedKvStatus
  pub block_size : ℕ

-- The backend's paging state. The device tensors: the block table, all `ne[0]` entries of it, and the
-- length of the sequence; `tensors_present` says that neither is null.
pub record Paging (P H : Type 0) : Type 0 where
  pub paged_kv_pool : Option P
  pub paged_sequence : Option H
  pub paged_request_id : ℕ
  pub tensors_present : Bool
  pub paged_block_table : List ℕ
  pub paged_kv_seq_len : ℕ
  pub last_error : Bytes

-- ggml_backend_tensor_set on the entries of a tensor; the caller has checked that they are in range.
abbrev pub write_entries : List ℕ → List ℕ → List ℕ
write_entries [] table = table
write_entries (x ∷ xs) [] = []
write_entries (x ∷ xs) (y ∷ ys) = x ∷ write_entries xs ys

abbrev pub write_entry : ℕ → ℕ → List ℕ → List ℕ
write_entry i x [] = []
write_entry zero x (y ∷ ys) = x ∷ ys
write_entry (suc i) x (y ∷ ys) = y ∷ write_entry i x ys

abbrev pub is_ok : PagedKvStatus → Bool
is_ok ok = true
is_ok stale_handle = false
is_ok (failed code) = false

abbrev pub identity_slot : PagedKvWriteSlot → Bool
identity_slot s = s.physical_token_index == s.logical_position

-- GGML_ASSERT ends the process.
pub data DecodeStep : Type 0 where
  row : (out_kv_row : ℕ) → DecodeStep
  refused : DecodeStep
  aborted : DecodeStep

module _ {P H : Type 0} where
  abbrev pub with_pool : Option P → Option H → Paging P H → Paging P H
  with_pool p h b = record {
    paged_kv_pool = p;
    paged_sequence = h;
    paged_request_id = b.paged_request_id;
    tensors_present = b.tensors_present;
    paged_block_table = b.paged_block_table;
    paged_kv_seq_len = b.paged_kv_seq_len;
    last_error = b.last_error;
  }

  abbrev pub with_request : ℕ → Paging P H → Paging P H
  with_request id b = record {
    paged_kv_pool = b.paged_kv_pool;
    paged_sequence = b.paged_sequence;
    paged_request_id = id;
    tensors_present = b.tensors_present;
    paged_block_table = b.paged_block_table;
    paged_kv_seq_len = b.paged_kv_seq_len;
    last_error = b.last_error;
  }

  -- set_last_error
  abbrev pub with_error : Bytes → Paging P H → Paging P H
  with_error message b = record {
    paged_kv_pool = b.paged_kv_pool;
    paged_sequence = b.paged_sequence;
    paged_request_id = b.paged_request_id;
    tensors_present = b.tensors_present;
    paged_block_table = b.paged_block_table;
    paged_kv_seq_len = b.paged_kv_seq_len;
    last_error = message;
  }

  abbrev pub with_table : List ℕ → ℕ → Paging P H → Paging P H
  with_table table len b = record {
    paged_kv_pool = b.paged_kv_pool;
    paged_sequence = b.paged_sequence;
    paged_request_id = b.paged_request_id;
    tensors_present = b.tensors_present;
    paged_block_table = table;
    paged_kv_seq_len = len;
    last_error = b.last_error;
  }

  -- 808-819; the status of the release is only logged.
  unfoldable pub end_paged_sequence : PagedKvPool P H → Paging P H → Paging P H
  end_paged_sequence pool b = elim b.paged_kv_pool [
    | none ↦ with_pool none none b
    | some p ↦ elim b.paged_sequence [
      | none ↦ with_pool (some p) none b
      | some h ↦ with_pool (some (pool.release h p).0) none b
    ]
  ]

  -- set_last_error, end_paged_sequence and `return false`
  unfoldable pub fail_begin : PagedKvPool P H → Bytes → Paging P H → Bool × Paging P H
  unfolding end_paged_sequence
  fail_begin pool message b = (false, end_paged_sequence pool (with_error message b))

  -- 724-754: the page table of the prompt goes to the device.
  unfoldable pub upload_table : PagedKvPool P H → H → P → Paging P H → Bool × Paging P H
  unfolding fail_begin
  upload_table pool h p b =
      let (status, table) = pool.sequence h p in
      if not (is_ok status)
      then fail_begin pool (codes "paged attention sequence snapshot failed") b
      else if ltb (length b.paged_block_table) (length table)
      then fail_begin pool (codes "paged attention block table capacity exceeded") b
      else (true, with_table (write_entries table b.paged_block_table) b.paged_kv_seq_len b)

  -- 698-754: the rows of the prompt.
  unfoldable pub append_prompt : PagedKvPool P H → ℕ → H → P → Paging P H → Bool × Paging P H
  unfolding fail_begin upload_table
  append_prompt pool prompt_tokens h p b =
      let appended = pool.append h prompt_tokens p in
      let now = with_pool (some appended.0) (some h) b in
      if not appended.1.accepted
      then fail_begin pool (codes "paged attention prompt allocation failed") now
      else if ltb 0 prompt_tokens
          && (not (identity_slot appended.1.first_slot) || not (identity_slot appended.1.last_slot))
      then fail_begin pool (codes "paged attention prefill allocation is not contiguous") now
      else upload_table pool h appended.0 now

  -- 682-754; PagedKvRequestId is taken as a 64-bit counter.
  unfoldable pub begin_paged_sequence : PagedKvPool P H → ℕ → Paging P H → Bool × Paging P H
  unfolding append_prompt
  begin_paged_sequence pool prompt_tokens b = elim b.paged_kv_pool [
    | none ↦ (false, b)
    | some p ↦
        let request_id = b.paged_request_id + 1 in
        let (p', status, h) = pool.acquire request_id (pool.reset p) in
        if is_ok status
        then append_prompt pool prompt_tokens h p' (with_request request_id b)
        else (false, with_pool (some p') none (with_request request_id b))
  ]

  unfoldable pub fail_step : Bytes → Paging P H → DecodeStep × Paging P H
  fail_step message b = (refused, with_error message b)

  -- 788-805: a fresh block gets its entry, and the length grows.
  unfoldable pub record_step :
      PagedKvPool P H → ℕ → PagedKvWriteSlot → Paging P H → DecodeStep × Paging P H
  unfolding fail_step
  record_step pool logical_position slot b =
      let logical_block = logical_position / pool.block_size in
      if not (slot.block_offset == 0)
      then (row slot.physical_token_index, with_table b.paged_block_table (logical_position + 1) b)
      else if leb (length b.paged_block_table) logical_block
      then fail_step (codes "paged attention block index exceeds table capacity") b
      else (
        row slot.physical_token_index,
        with_table (write_entry logical_block slot.physical_block b.paged_block_table)
            (logical_position + 1) b,
      )

  -- 769-805; the numbers that the messages end with are left out.
  unfoldable pub append_step : PagedKvPool P H → ℕ → H → P → Paging P H → DecodeStep × Paging P H
  unfolding fail_step record_step
  append_step pool logical_position h p b =
      let appended = pool.append h 1 p in
      let now = with_pool (some appended.0) (some h) b in
      let slot = appended.1.last_slot in
      if not appended.1.accepted
        || not (appended.1.token_count == 1)
        || not (slot.logical_position == logical_position)
      then fail_step (codes "paged attention decode allocation failed") now
      else if not (
          ltb slot.physical_token_index (2 ^ 63)
          && ltb logical_position (2 ^ 31 - 1)
          && ltb slot.physical_block (2 ^ 31))
      then (aborted, now)
      else record_step pool logical_position slot now

  -- 756-806
  unfoldable pub prepare_paged_decode_step :
      PagedKvPool P H → ℕ → Paging P H → DecodeStep × Paging P H
  unfolding fail_step append_step
  prepare_paged_decode_step pool logical_position b = elim b.paged_kv_pool [
    | none ↦ fail_step (codes "paged attention decode step is missing paging state") b
    | some p ↦ elim b.paged_sequence [
      | none ↦ fail_step (codes "paged attention decode step is missing paging state") b
      | some h ↦
          if not b.tensors_present
          then fail_step (codes "paged attention decode step is missing paging state") b
          else append_step pool logical_position h p b
    ]
  ]
