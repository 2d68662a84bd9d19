-- ===== src/Backend/Snapshots/Slots.antt =====
-- What the backend's queries say behind a call on a slot (974-1106).
use codex_local_qwen27b.Base.{
  ◌≡◌, refl, ap, ◌∙◌, Bool, not, ◌&&◌, ◌||◌, Option, some, is_some, arith, if_cases, Option-cases,
  inl, inr, ℤ,
}
use codex_local_qwen27b.Backend.Snapshots.{
  SnapshotRef, SnapshotOps, SnapshotState, is_outside, snapshot_save, snapshot_free, snapshot_adopt,
  snapshot_ref, ref_of, snapshot_used, snapshot_cur_pos, restore_target_cache_from_snapshot,
}
use codex_local_qwen27b.Backend.Snapshots.Adopt.{fits_model, adopt_into-Adopts}
use codex_local_qwen27b.Backend.Snapshots.Table.{
  SlotCall, save, free, restore, adopt, call, may_save, after, answer, Frees, refs,
}
use codex_local_qwen27b.Backend.Snapshots.Writes.{free-fits, free-ctx, call-refs}

module _ {L C B T : Type 0} (ops : SnapshotOps L C B T) where
  -- The three queries on one number say the same: a reference, used, and its position; or none.
  pub record Answers (i : ℤ) (ref : Option (SnapshotRef C B)) (b : SnapshotState L C B T)
      : Type 0 where
    pub referred : snapshot_ref ops i b ≡ ref
    pub used : snapshot_used ops i b ≡ is_some ref
    pub position : (r : SnapshotRef C B) → ref ≡ some r → snapshot_cur_pos ops i b ≡ r.cur_pos

  used-ref :
      (i : ℤ) (b : SnapshotState L C B T) → snapshot_used ops i b ≡ is_some (snapshot_ref ops i b)
  unfolding snapshot_used snapshot_ref ref_of
  used-ref i b = elim (Option-cases (b.prefix_snapshots i).ctx) [
    | inl n ↦ ground (arith, n)
    | inr (x, n) ↦ ground (arith, n)
  ]

  position-ref :
      (i : ℤ) (b : SnapshotState L C B T) (r : SnapshotRef C B)
      → snapshot_ref ops i b ≡ some r
      → snapshot_cur_pos ops i b ≡ r.cur_pos
  unfolding snapshot_cur_pos snapshot_ref ref_of
  position-ref i b r e = elim (Option-cases (b.prefix_snapshots i).ctx) [
    | inl n ↦ absurd (ground (arith, n, e))
    | inr (x, n) ↦ ground (arith, n, e)
  ]

  save-answer :
      (slot : ℤ) (b : SnapshotState L C B T)
      → (call ops (save slot) b).0 ≡ answer ops (save slot) b (refs ops b)
  unfolding call answer may_save snapshot_save
  save-answer slot b = ground arith

  restore-answer :
      (slot : ℤ) (b : SnapshotState L C B T)
      → (call ops (restore slot) b).0 ≡ answer ops (restore slot) b (refs ops b)
  unfolding call answer restore_target_cache_from_snapshot snapshot_ref ref_of
  restore-answer slot b = elim (Option-cases (b.prefix_snapshots slot).ctx) [
    | inl n ↦ ground (arith, n)
    | inr (x, n) ↦ ground (arith, n)
  ]

  adopt-answer :
      Frees ops
      → (slot : ℤ) (ctx : C) (buf : Option B) (cur_pos last_tok : ℤ) (b : SnapshotState L C B T)
      → (call ops (adopt slot ctx buf cur_pos last_tok) b).0
        ≡ answer ops (adopt slot ctx buf cur_pos last_tok) b (refs ops b)
  unfolding call answer snapshot_adopt
  adopt-answer f slot ctx buf cur_pos last_tok b =
      let freed = snapshot_free ops slot b in
      let ok = not b.paged_attention && not (is_outside slot) && fits_model ops ctx b in
      if_cases (λ (r : Bool × SnapshotState L C B T). some r.0 ≡ some ok)
        (b.paged_attention || is_outside slot) (λ e. ap some (ground (arith, e)))
        (λ e.
          let r =
            adopt_into-Adopts ops ctx buf cur_pos last_tok freed (freed.prefix_snapshots slot)
              (free-ctx ops f slot b (ground (arith, e))) in
          ap some (r.0 ∙ free-fits ops slot ctx b ∙ ground (arith, e)))

  call-answer :
      Frees ops
      → (c : SlotCall C B) (b : SnapshotState L C B T)
      → (call ops c b).0 ≡ answer ops c b (refs ops b)
  unfolding answer call
  call-answer f (save slot) b = save-answer slot b
  call-answer f (free slot) b = refl
  call-answer f (restore slot) b = restore-answer slot b
  call-answer f (adopt slot ctx buf cur_pos last_tok) b =
      adopt-answer f slot ctx buf cur_pos last_tok b

  -- If free_prefix_snapshot leaves no context: behind a call on any number, the queries snapshot_ref,
  -- snapshot_used and snapshot_cur_pos on every number say what the table of references says where the
  -- call acts on one entry: a save, where it is not refused, writes what was saved; a removal clears; a
  -- restore changes nothing; an adoption on a backend without paging writes the given reference if the
  -- context has all tensors of the model's layers, and else leaves the slot empty. A number that is no
  -- slot is never written. And the call returns what the table says: an adoption returns true if and
  -- only if the backend has no paging, the number is a slot and the context has all these tensors; a
  -- save, what snapshot_target_cache gave, where it is not refused and the number is a slot; a restore,
  -- what restore_target_cache gave, where the table has an entry; each of them else false.
  pub call-Answers :
      Frees ops
      → (c : SlotCall C B) (i : ℤ) (b : SnapshotState L C B T)
      → Answers i (after ops c b (λ j. snapshot_ref ops j b) i) (call ops c b).1
        × ((call ops c b).0 ≡ answer ops c b (λ j. snapshot_ref ops j b))
  call-Answers f c i b =
      let e = call-refs ops f c i b in
      (
        record {
          referred = e;
          used = used-ref i (call ops c b).1 ∙ ap is_some e;
          position = λ r q. position-ref i (call ops c b).1 r (e ∙ q);
        },
        call-answer f c b,
      )
