-- ===== src/Tests/Paged.antt =====
-- The paged sequence of the Qwen 3.5 backend (server/src/qwen35/qwen35_backend.cpp) at concrete inputs.
use codex_local_qwen27b.Base.{
  ℕ, zero, suc, ◌+◌, ◌-◌, ◌≡◌, refl, ap, ◌∙◌, true, false, none, some, List, [], ◌∷◌, ◌++◌, arith,
  length, length-append,
}
use codex_local_qwen27b.Backend.Paged.{
  ok, PagedKvWriteSlot, PagedKvPool, Paging, begin_paged_sequence, append_prompt, upload_table,
  fail_begin, end_paged_sequence, prepare_paged_decode_step, append_step, record_step, fail_step,
  row,
}
use codex_local_qwen27b.Backend.Paged.Begin.{
  Uploaded, BeginOutcome, begin_paged_sequence-BeginOutcome,
}
use codex_local_qwen27b.Backend.Paged.Decode.{
  AppendsOne, StepOutcome, prepare_paged_decode_step-StepOutcome,
}

-- A pool of one sequence, with blocks of one token that are handed out in order.
abbrev up_to : ℕ → List ℕ
up_to zero = []
up_to (suc n) = up_to n ++ n ∷ []

abbrev slot_at : ℕ → PagedKvWriteSlot
slot_at p = record {
  logical_position = p;
  physical_token_index = p;
  physical_block = p;
  block_offset = 0;
}

abbrev small_pool : PagedKvPool ℕ ℕ
small_pool = record {
  reset = λ p. 0;
  acquire = λ request p. (p, ok, request);
  append = λ h n p. (
    n + p,
    record {
      accepted = true;
      token_count = n;
      first_slot = slot_at p;
      last_slot = slot_at (n + p - 1);
    },
  );
  sequence = λ h p. (ok, up_to p);
  release = λ h p. (p, ok);
  block_size = 1;
}

length-up_to : (n : ℕ) → length (up_to n) ≡ n
length-up_to zero = refl
length-up_to (suc n) = omega (arith, length-append (up_to n) (n ∷ []), length-up_to n)

up_to_next : (p : ℕ) → up_to (1 + p) ≡ up_to p ++ (1 + p - 1) ∷ []
up_to_next p =
    ap up_to {x = 1 + p} {y = suc p} (omega arith)
    ∙ ap (λ z. up_to p ++ z ∷ []) {x = p} {y = 1 + p - 1} (omega arith)

small_pool-AppendsOne : AppendsOne small_pool
small_pool-AppendsOne = record {
  inside = λ h p a o. absurd (ground (arith, o));
  fresh = λ h p a o. ap (λ z. (ok, z)) (up_to_next p);
  index = λ h p a o. omega (arith, length-up_to p);
}

abbrev parked : Paging ℕ ℕ
parked = record {
  paged_kv_pool = some 7;
  paged_sequence = none;
  paged_request_id = 0;
  tensors_present = true;
  paged_block_table = 9 ∷ 9 ∷ 9 ∷ [];
  paged_kv_seq_len = 0;
  last_error = [];
}

begin_example : BeginOutcome small_pool (begin_paged_sequence small_pool 2 parked)
begin_example = begin_paged_sequence-BeginOutcome small_pool 2 parked 7 refl

-- A prompt of four tokens does not fit a table of three entries.
begin_too_long : (begin_paged_sequence small_pool 4 parked).0 ≡ false
unfolding begin_paged_sequence append_prompt upload_table fail_begin end_paged_sequence
begin_too_long = refl

abbrev begun : Paging ℕ ℕ
begun = record {
  paged_kv_pool = some 2;
  paged_sequence = some 1;
  paged_request_id = 1;
  tensors_present = true;
  paged_block_table = 0 ∷ 1 ∷ 9 ∷ [];
  paged_kv_seq_len = 2;
  last_error = [];
}

begin_gives :
    begin_paged_sequence small_pool 2 (record parked { paged_kv_seq_len = 2 }) ≡ (true, begun)
unfolding begin_paged_sequence append_prompt upload_table fail_begin end_paged_sequence
begin_gives = refl

begun-Uploaded : Uploaded small_pool begun
begun-Uploaded = record {
  held_pool = 2;
  held = 1;
  has_pool = refl;
  has_sequence = refl;
  no_error = refl;
  fits = omega arith;
  on_device = refl;
}

step_example : StepOutcome small_pool 2 (prepare_paged_decode_step small_pool 2 begun)
step_example =
    prepare_paged_decode_step-StepOutcome small_pool small_pool-AppendsOne 2 begun begun-Uploaded

step_gives : (prepare_paged_decode_step small_pool 2 begun).0 ≡ row 2
unfolding prepare_paged_decode_step append_step record_step fail_step
step_gives = refl
