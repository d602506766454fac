-- ===== src/VirtualRange.antt =====
-- kernel/src/mm/virtualrange.rs: a range of virtual pages handed out by a `BitmapAllocator1024`.
-- `Err(SvsmError::Mem)` is `none`. The per-CPU ranges that `VRangeAlloc` takes from are not modelled.
pub mod RoundTrip
mod Tests
use svsm.Base.{ℕ, ◌+◌, ◌*◌, ◌/◌, ◌^◌, Bool, true, false, Option, none, some, Run, done, ◌>>=◌}
use svsm.Util.{page_shift, add_usize}
use svsm.Address.{virt_add, virt_diff}
use svsm.Bitmap.Word.{BitmapAllocator64}
use svsm.Bitmap.Tree
use svsm.Bitmap.Tree.{BitmapAllocatorTree, tree1024, tree_full}
use svsm.Bitmap.Alloc

pub record VirtualRange : Type 0 where
  pub start_virt : ℕ
  pub page_count : ℕ
  pub page_shift : ℕ
  pub bits : BitmapAllocatorTree BitmapAllocator64

abbrev pub new : VirtualRange
new = record { start_virt = 0; page_count = 0; page_shift = page_shift; bits = tree_full }

unfoldable pub init : VirtualRange → ℕ → ℕ → ℕ → Run VirtualRange
init r start_virt page_count page_shift = do
  bits ← tree1024.set r.bits 0 page_count false
  done (record {
    start_virt = start_virt;
    page_count = page_count;
    page_shift = page_shift;
    bits = bits;
  })

-- One more page is reserved, as a guard; the sum wraps.
unfoldable pub alloc : VirtualRange → ℕ → ℕ → Run (VirtualRange × Option ℕ)
alloc r page_count alignment =
    Alloc.alloc tree1024 r.bits (add_usize page_count 1) alignment >>= λ out. done (
      record r { bits = out.0 },
      elim out.1 [
        | none ↦ none
        | some offset ↦ some (virt_add r.start_virt (offset * 2 ^ r.page_shift))
      ],
    )

unfoldable pub free : VirtualRange → ℕ → ℕ → Run VirtualRange
free r vaddr page_count = do
  let offset = virt_diff vaddr r.start_virt / 2 ^ r.page_shift
  bits ← Alloc.free tree1024 r.bits offset (add_usize page_count 1)
  done (record r { bits = bits })

unfoldable pub used_pages : VirtualRange → ℕ
used_pages r = tree1024.used r.bits
