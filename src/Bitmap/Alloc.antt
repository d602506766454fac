-- ===== src/Bitmap/Alloc.antt =====
-- `alloc_aligned` and the methods `alloc` and `free` that both implementations share.
pub mod Blocks
pub mod Scan
pub mod Laws
use svsm.Base.{
  ℕ, zero, suc, ◌+◌, ◌-◌, ◌*◌, ◌^◌, bit_and, Bool, true, false, leb, ltb, ◌==◌, if◌then◌else◌,
  Option, none, some, Run, done, panic, ◌>>=◌, ◌>>◌, assert,
}
use svsm.Bits.{not_bits, highest_bit}
use svsm.Bitmap.Interface.{BitmapAllocator}

module _ {T : Type 0} (ops : BitmapAllocator T) where
  -- `for size_check in offset..(offset + entries)`: how many entries from `offset` on are free,
  -- counted up to the first that is not.
  unfoldable pub count_free : ℕ → T → ℕ → Run ℕ
  count_free zero t offset = done 0
  count_free (suc left) t offset = do
    used ← ops.get t offset
    let rest = count_free left t (offset + 1)
    if used then done 0 else rest >>= λ n. done (n + 1)

  -- The check of the range at an aligned offset that is free: `none` to take it.
  unfoldable pub check_range : T → ℕ → ℕ → ℕ → Run (Option ℕ)
  unfolding count_free
  check_range t entries align offset = do
    assert (leb (offset + entries) ops.capacity)
    free_entries ← count_free entries t offset
    done (if free_entries == entries then none else some (offset + 2 ^ align))

  -- One round of the loop at `offset`: `none` to take the range there, or the next offset.
  unfoldable pub probe : T → ℕ → ℕ → ℕ → Run (Option ℕ)
  unfolding check_range
  probe t entries align offset = do
    let align_mask = 2 ^ align - 1
    free ← ops.next_free t offset
    elim free [
      | none ↦ done (some (offset + 2 ^ align))
      | some offset_free ↦
          if offset_free == offset
          then check_range t entries align offset
          else done (some (bit_and (offset_free - 1) (not_bits 64 align_mask) + 2 ^ align))
    ]

  -- The loop. Each round moves the offset up, so `capacity` rounds are enough (`Alloc.Laws`); running
  -- out of them would show as a panic.
  unfoldable pub alloc_loop : ℕ → T → ℕ → ℕ → ℕ → Run (T × Option ℕ)
  unfolding probe
  alloc_loop zero t entries align offset = panic
  alloc_loop (suc fuel) t entries align offset = elim (leb (offset + entries) ops.capacity) [
    | false ↦ done (t, none)
    | true ↦ probe t entries align offset >>= λ next. elim next [
      | none ↦ ops.set t offset entries true >>= λ t'. done (t', some offset)
      | some offset' ↦ alloc_loop fuel t entries align offset'
    ]
  ]

  -- `capacity().ilog2()`; no bitmap has capacity 0.
  unfoldable pub ilog2 : ℕ → Run ℕ
  unfolding highest_bit
  ilog2 n = elim (highest_bit 64 n) [ none ↦ panic | some k ↦ done k ]

  unfoldable pub alloc : T → ℕ → ℕ → Run (T × Option ℕ)
  unfolding alloc_loop ilog2
  alloc t entries align = ilog2 ops.capacity >>= λ top.
      if leb top align then done (t, none) else alloc_loop (suc ops.capacity) t entries align 0

  unfoldable pub free : T → ℕ → ℕ → Run T
  free t start entries = ops.set t start entries false
