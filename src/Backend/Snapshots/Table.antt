-- ===== src/Backend/Snapshots/Table.antt =====
-- The slots of the backend as a table of references (974-1106): the calls, and what each does to it.
use codex_local_qwen27b.Base.{
  ◌≡◌, refl, ◌∙◌, Bool, true, false, not, ◌&&◌, ◌||◌, Option, none, some, is_some, arith,
  if◌then◌else◌, Bool-cases, inl, inr, ℤ, eqb_ℤ, ltb_ℤ,
}
use codex_local_qwen27b.Backend.Snapshots.{
  PrefixSnapshot, SnapshotRef, SnapshotOps, SnapshotState, with_snapshot, is_outside, snapshot_save,
  snapshot_free, snapshot_adopt, snapshot_ref, ref_of, restore_target_cache_from_snapshot,
}
use codex_local_qwen27b.Backend.Snapshots.Adopt.{fits_model, ref_if}

pub data SlotCall (C B : Type 0) : Type 0 where
  save : (slot : ℤ) → SlotCall C B
  free : (slot : ℤ) → SlotCall C B
  restore : (slot : ℤ) → SlotCall C B
  adopt : (slot : ℤ) (ctx : C) (buf : Option B) (cur_pos last_tok : ℤ) → SlotCall C B

module _ {L C B T : Type 0} (ops : SnapshotOps L C B T) where
  -- One call of the backend: what it returns (`none`: nothing), and the state behind it.
  unfoldable pub call : SlotCall C B → SnapshotState L C B T → Option Bool × SnapshotState L C B T
  call (save slot) b = let (ok, b') = snapshot_save ops slot b in (some ok, b')
  call (free slot) b = (none, snapshot_free ops slot b)
  call (restore slot) b =
      let (ok, b') = restore_target_cache_from_snapshot ops slot b in (some ok, b')
  call (adopt slot ctx buf cur_pos last_tok) b =
      let (ok, b') = snapshot_adopt ops slot ctx buf cur_pos last_tok b in (some ok, b')

  -- Whether a save is tried at all.
  unfoldable pub may_save : SnapshotState L C B T → Bool
  may_save b =
      not b.paged_attention
      && not
          (b.kvflash_active && (ltb_ℤ b.kvflash_tokens (ops.cur_pos b.cache) || not b.is_identity))

  abbrev pub Table : Type 0
  Table = ℤ → Option (SnapshotRef C B)

  -- The entry of a slot is replaced; a number that is no slot has no entry.
  abbrev pub replace : ℤ → Option (SnapshotRef C B) → Table → Table
  replace slot ref table i = if eqb_ℤ i slot && not (is_outside slot) then ref else table i

  -- The table behind a call.
  unfoldable pub after : SlotCall C B → SnapshotState L C B T → Table → Table
  after (save slot) b table =
      if may_save b
      then replace slot (ref_of ops (ops.snapshot_target_cache b.cache (b.prefix_snapshots slot)).1)
          table
      else table
  after (free slot) b table = replace slot none table
  after (restore slot) b table = table
  after (adopt slot ctx buf cur_pos last_tok) b table =
      if b.paged_attention
      then table
      else replace slot
          (ref_if ops (fits_model ops ctx b)
            (record { ctx = ctx; buf = buf; cur_pos = cur_pos; last_tok = last_tok }))
          table

  -- What a call returns, where the table says which slots hold a snapshot.
  unfoldable pub answer : SlotCall C B → SnapshotState L C B T → Table → Option Bool
  answer (save slot) b table = some (
      may_save b
      && not (is_outside slot)
      && (ops.snapshot_target_cache b.cache (b.prefix_snapshots slot)).0)
  answer (free slot) b table = none
  answer (restore slot) b table =
      some (is_some (table slot) && (ops.restore_target_cache (b.prefix_snapshots slot) b.cache).0)
  answer (adopt slot ctx buf cur_pos last_tok) b table =
      some (not b.paged_attention && not (is_outside slot) && fits_model ops ctx b)

  -- A slot and a number that equals it are inside together.
  pub same_outside : (i slot : ℤ) → eqb_ℤ i slot ≡ true → is_outside i ≡ is_outside slot
  unfolding is_outside
  same_outside i slot e = ground (arith, e)

  -- The reference behind a write.
  pub ref-with_snapshot :
      (slot i : ℤ) (snap : PrefixSnapshot C B T) (b : SnapshotState L C B T)
      → is_outside slot ≡ false
      → snapshot_ref ops i (with_snapshot ops slot snap b)
        ≡ replace slot (ref_of ops snap) (λ j. snapshot_ref ops j b) i
  unfolding snapshot_ref
  ref-with_snapshot slot i snap b o = elim (Bool-cases (eqb_ℤ i slot)) [
    | inl e ↦ rw (e, o, same_outside i slot e ∙ o) refl
    | inr e ↦ rw e refl
  ]

  -- free_prefix_snapshot leaves no context.
  abbrev pub Frees : Type 0
  Frees = (snap : PrefixSnapshot C B T) → (ops.free_prefix_snapshot snap).ctx ≡ none

  abbrev pub refs : SnapshotState L C B T → Table
  refs b i = snapshot_ref ops i b

  -- A number that is no slot keeps the table.
  pub replace-outside :
      (slot i : ℤ) (ref : Option (SnapshotRef C B)) (table : Table)
      → is_outside slot ≡ true
      → replace slot ref table i ≡ table i
  replace-outside slot i ref table o = ground (arith, o)
