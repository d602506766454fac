-- ===== src/Bitmap/Tests.antt =====
-- Runs of the bitmaps, and the theorems at concrete bitmaps.
use svsm.Base.{ℕ, ◌≤◌, ◌<◌, ◌≡◌, refl, ◌∙◌, Option, none, some, done, arith}
use svsm.Bits.{test_bit, test_bit-low_mask, test_bit-zero, highest_bit}
use svsm.Bitmap.Interface.{Contract}
use svsm.Bitmap.Word.{BitmapAllocator64, word}
use svsm.Bitmap.Word.Laws.{IsValid, row, word_contract}
use svsm.Bitmap.Tree.{tree}
use svsm.Bitmap.Tree.Rows.{tree_row, IsValidTree}
use svsm.Bitmap.Tree.Laws.{tree_contract}
use svsm.Bitmap.Alloc.{alloc}
use svsm.Bitmap.Alloc.Laws.{Allocated, alloc_lem}

tree_contract_example :
    Contract (tree word) (tree_row word row IsValid) (IsValidTree word row IsValid)
tree_contract_example = tree_contract word row IsValid word_contract

-- A bitmap with three entries in use, and one with none.
abbrev three : BitmapAllocator64
three = record { bits = 7 }

abbrev clear : BitmapAllocator64
clear = record { bits = 0 }

alloc_lem_example :
    (6 ≤ 2 → alloc word three 4 2 ≡ done (three, none))
    × (2 < 6
        → (out : BitmapAllocator64 × Option ℕ) × (alloc word three 4 2 ≡ done out)
          × Allocated word row IsValid three 4 2 out)
unfolding highest_bit test_bit
alloc_lem_example =
    alloc_lem word row IsValid word_contract three 4 2 6 (omega arith) (omega arith) (omega arith)
      refl

clear-Allocated : Allocated word row IsValid clear 3 0 (three, some 0)
clear-Allocated = (
  refl,
  omega arith,
  (λ i lo hi. test_bit-zero i),
  (λ b block lt. absurd (omega arith)),
  omega arith,
  λ i hi. test_bit-low_mask 3 i ∙ ground (arith, test_bit-zero i),
)

alloc_run : alloc word three 4 2 ≡ done (record { bits = 0xF7 }, some 4)
unfolding alloc test_bit svsm.Bitmap.Word.next_free svsm.Bits.trailing_ones svsm.Bitmap.Word.get
    svsm.Bitmap.Word.set svsm.Bitmap.Word.range_mask
alloc_run = refl
