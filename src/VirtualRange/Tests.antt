-- ===== src/VirtualRange/Tests.antt =====
-- The theorems at a range of 1024 free pages.
use svsm.Base.{
  ℕ, zero, suc, ◌^◌, ◌<◌, ◌≡◌, inl, refl, ◌∷◌, Option, some, done, arith, get_elem?, replicate,
  eq_of_some, subst, not,
}
use svsm.Bits.{test_bit, test_bit-zero}
use svsm.Bitmap.Word.{BitmapAllocator64, word, new_empty}
use svsm.Bitmap.Tree.{BitmapAllocatorTree, tree_empty}
use svsm.VirtualRange.{VirtualRange, alloc, free}
use svsm.VirtualRange.RoundTrip.{IsValidBits, in_use, Reserved, alloc-Reserved, free-alloc_pages}

abbrev free_range : VirtualRange
free_range = record {
  start_virt = 0x40000000;
  page_count = 1024;
  page_shift = 12;
  bits = tree_empty;
}

replicated : {A : Type 0} (n k : ℕ) (a c : A) → get_elem? (replicate n a) k ≡ some c → a ≡ c
replicated zero k a c e = cc
replicated (suc n) zero a c e = eq_of_some e
replicated (suc n) (suc k) a c e = replicated n k a c e

tree_empty-IsValidBits : IsValidBits tree_empty
unfolding svsm.Bitmap.Word.empty
tree_empty-IsValidBits = record {
  sixteen = refl;
  bits_fit = omega arith;
  children = λ k c e.
      subst (λ b. (b.bits < 2 ^ 64) × (test_bit 0 k ≡ not (word.empty b)))
        (replicated 16 k new_empty c e) (omega arith, test_bit-zero k);
}

alloc-Reserved_example :
    (out : VirtualRange × Option ℕ) × (alloc free_range 3 0 ≡ done out)
    × Reserved free_range 3 0 out
alloc-Reserved_example =
    alloc-Reserved free_range 3 0 tree_empty-IsValidBits (omega arith) (omega arith)

-- The range with its first four pages in use.
abbrev four_used : VirtualRange
four_used = record free_range {
  bits = record { bits = 1; child = record { bits = 15 } ∷ replicate 15 new_empty };
}

alloc_runs : alloc free_range 3 0 ≡ done (four_used, some 0x40000000)
unfolding alloc svsm.Bitmap.Alloc.alloc test_bit svsm.Bitmap.Tree.next_free
    svsm.Bitmap.Word.next_free svsm.Bits.trailing_ones svsm.Bitmap.Tree.get svsm.Bitmap.Word.get
    svsm.Bitmap.Tree.set svsm.Bitmap.Word.set svsm.Bitmap.Word.empty svsm.Bitmap.Word.range_mask
    svsm.Address.virt_add svsm.Address.sign_extend
alloc_runs = refl

free-alloc_pages_example :
    (r : VirtualRange) × (free four_used 0x40000000 3 ≡ done r)
    × IsValidBits r.bits
    × ((i : ℕ) → i < 1024 → in_use r i ≡ in_use free_range i)
free-alloc_pages_example =
    free-alloc_pages free_range four_used 3 0 0x40000000 tree_empty-IsValidBits (inl (omega arith))
      (omega arith) (omega arith) (omega arith) alloc_runs
