-- ===== src/Backend/Snapshots/Writes.antt =====
-- What a call on a slot writes: the references behind it (974-1106).
use codex_local_qwen27b.Base.{
  ◌≡◌, refl, ap, sym, ◌∙◌, Bool, true, false, not, ◌&&◌, ◌||◌, Option, none, is_some, arith,
  if◌then◌else◌, if_cases, if_both, Bool-cases, inl, inr, ℤ, eqb_ℤ, ltb_ℤ,
}
use mathlib.Core.Path.{fun_ext}
use codex_local_qwen27b.Backend.Snapshots.{
  PrefixSnapshot, SnapshotRef, SnapshotOps, SnapshotState, adopt_into, is_outside, snapshot_save,
  snapshot_free, snapshot_adopt, snapshot_ref, ref_of, restore_target_cache_from_snapshot,
}
use codex_local_qwen27b.Backend.Snapshots.Adopt.{fits_model, ref_if, adopt_into-Adopts}
use codex_local_qwen27b.Backend.Snapshots.Table.{
  SlotCall, save, free, restore, adopt, call, may_save, Table, replace, after, Frees, refs,
  ref-with_snapshot, replace-outside,
}

module _ {L C B T : Type 0} (ops : SnapshotOps L C B T) where
  -- What the slots show after a result of a call.
  abbrev Shows : ℤ → Option (SnapshotRef C B) → SnapshotState L C B T → Type 0
  Shows i ref b = snapshot_ref ops i b ≡ ref

  after-save :
      (slot i : ℤ) (b : SnapshotState L C B T) (m : Bool)
      → may_save ops b ≡ m
      → after ops (save slot) b (refs ops b) i
        ≡ (if m
              then replace ops slot
                  (ref_of ops (ops.snapshot_target_cache b.cache (b.prefix_snapshots slot)).1)
                  (refs ops b)
              else refs ops b)
            i
  unfolding after
  after-save slot i b m e =
      ap
        (λ z.
          (if z
              then replace ops slot
                  (ref_of ops (ops.snapshot_target_cache b.cache (b.prefix_snapshots slot)).1)
                  (refs ops b)
              else refs ops b)
            i)
        e

  save-refs :
      (slot i : ℤ) (b : SnapshotState L C B T)
      → Shows i (after ops (save slot) b (refs ops b) i) (call ops (save slot) b).1
  unfolding call may_save snapshot_save
  save-refs slot i b =
      let made = ops.snapshot_target_cache b.cache (b.prefix_snapshots slot) in
      let flash =
        b.kvflash_active && (ltb_ℤ b.kvflash_tokens (ops.cur_pos b.cache) || not b.is_identity) in
      let Good = λ (r : Bool × SnapshotState L C B T).
        Shows i (after ops (save slot) b (refs ops b) i) r.1 in
      if_cases Good b.paged_attention (λ p. sym (after-save slot i b false (ground (arith, p))))
        (λ p.
          if_cases Good (is_outside slot)
            (λ o. elim (Bool-cases (may_save ops b)) [
              | inl m ↦ sym (
                  after-save slot i b true m
                  ∙ replace-outside ops slot i (ref_of ops made.1) (refs ops b) o)
              | inr m ↦ sym (after-save slot i b false m)
            ])
            (λ o.
              if_cases Good flash (λ f. sym (after-save slot i b false (ground (arith, p, f))))
                (λ f.
                  ref-with_snapshot ops slot i made.1 b o
                  ∙ sym (after-save slot i b true (ground (arith, p, f))))))

  free-refs :
      Frees ops
      → (slot i : ℤ) (b : SnapshotState L C B T)
      → Shows i (after ops (free slot) b (refs ops b) i) (call ops (free slot) b).1
  unfolding call after snapshot_free ref_of
  free-refs f slot i b =
      let snap = ops.free_prefix_snapshot (b.prefix_snapshots slot) in
      let none_left : ref_of ops snap ≡ none = rw (ref_of, f (b.prefix_snapshots slot)) refl in
      if_cases (Shows i (replace ops slot none (refs ops b) i)) (is_outside slot)
        (λ o. sym (replace-outside ops slot i none (refs ops b) o))
        (λ o.
          ref-with_snapshot ops slot i snap b o
          ∙ ap (λ r. replace ops slot r (refs ops b) i) none_left)

  restore-refs :
      (slot i : ℤ) (b : SnapshotState L C B T)
      → Shows i (after ops (restore slot) b (refs ops b) i) (call ops (restore slot) b).1
  unfolding call after restore_target_cache_from_snapshot snapshot_ref
  restore-refs slot i b =
      if_both (λ (r : Bool × SnapshotState L C B T). Shows i (snapshot_ref ops i b) r.1)
        (is_outside slot || not (is_some (b.prefix_snapshots slot).ctx)) refl refl

  -- A write behind the removal of the old entry.
  replace-replace :
      (slot i : ℤ) (ref : Option (SnapshotRef C B)) (table : Table ops)
      → replace ops slot ref (replace ops slot none table) i ≡ replace ops slot ref table i
  replace-replace slot i ref table = elim (Bool-cases (eqb_ℤ i slot && not (is_outside slot))) [
    | inl e ↦ rw e refl
    | inr e ↦ rw e refl
  ]

  pub free-fits :
      (slot : ℤ) (ctx : C) (b : SnapshotState L C B T)
      → fits_model ops ctx (snapshot_free ops slot b) ≡ fits_model ops ctx b
  unfolding snapshot_free fits_model
  free-fits slot ctx b =
      if_both (λ (r : SnapshotState L C B T). fits_model ops ctx r ≡ fits_model ops ctx b)
        (is_outside slot) refl refl

  pub free-ctx :
      Frees ops
      → (slot : ℤ) (b : SnapshotState L C B T) → is_outside slot ≡ false
      → ((snapshot_free ops slot b).prefix_snapshots slot).ctx ≡ none
  unfolding snapshot_free
  free-ctx f slot b o =
      let snap = ops.free_prefix_snapshot (b.prefix_snapshots slot) in
      if_cases (λ (r : SnapshotState L C B T). (r.prefix_snapshots slot).ctx ≡ none)
        (is_outside slot) (λ e. absurd (cc))
        (λ e.
          if_cases (λ (r : PrefixSnapshot C B T). r.ctx ≡ none) (eqb_ℤ slot slot)
            (λ t. f (b.prefix_snapshots slot)) (λ t. absurd (ground (arith, t))))

  adopt-refs :
      Frees ops
      → (slot i : ℤ) (ctx : C) (buf : Option B) (cur_pos last_tok : ℤ) (b : SnapshotState L C B T)
      → Shows i
          (after ops (adopt slot ctx buf cur_pos last_tok) b (refs ops b) i)
          (call ops (adopt slot ctx buf cur_pos last_tok) b).1
  unfolding call after snapshot_adopt
  adopt-refs f slot i ctx buf cur_pos last_tok b =
      let freed = snapshot_free ops slot b in
      let made = adopt_into ops ctx buf cur_pos last_tok freed (freed.prefix_snapshots slot) in
      let ref : SnapshotRef C B = record {
        ctx = ctx;
        buf = buf;
        cur_pos = cur_pos;
        last_tok = last_tok;
      } in
      let given = ref_if ops (fits_model ops ctx b) ref in
      let entry = λ (m : Bool). (if m then refs ops b else replace ops slot given (refs ops b)) i in
      let Good = λ (r : Bool × SnapshotState L C B T). Shows i (entry b.paged_attention) r.1 in
      if_cases Good (b.paged_attention || is_outside slot)
        (λ e. elim (Bool-cases b.paged_attention) [
          | inl p ↦ sym (ap entry p)
          | inr p ↦
              sym
                (ap entry p ∙ replace-outside ops slot i given (refs ops b) (ground (arith, e, p)))
        ])
        (λ e.
          let o : is_outside slot ≡ false = ground (arith, e) in
          let p : b.paged_attention ≡ false = ground (arith, e) in
          let r =
            adopt_into-Adopts ops ctx buf cur_pos last_tok freed (freed.prefix_snapshots slot)
              (free-ctx f slot b o) in
          let table = λ (j : ℤ). snapshot_ref ops j freed in
          ref-with_snapshot ops slot i made.1 freed o
          ∙ ap (λ z. replace ops slot z table i)
              (r.1 ∙ ap (λ z. ref_if ops z ref) (free-fits slot ctx b))
          ∙ (ap (λ t. replace ops slot given t i) (fun_ext (λ j. free-refs f slot j b))
              ∙ replace-replace slot i given (refs ops b))
          ∙ sym (ap entry p))

  pub call-refs :
      Frees ops
      → (c : SlotCall C B) (i : ℤ) (b : SnapshotState L C B T)
      → snapshot_ref ops i (call ops c b).1 ≡ after ops c b (refs ops b) i
  call-refs f (save slot) i b = save-refs slot i b
  call-refs f (free slot) i b = free-refs f slot i b
  call-refs f (restore slot) i b = restore-refs slot i b
  call-refs f (adopt slot ctx buf cur_pos last_tok) i b =
      adopt-refs f slot i ctx buf cur_pos last_tok b
