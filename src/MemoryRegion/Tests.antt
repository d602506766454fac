-- ===== src/MemoryRegion/Tests.antt =====
-- Runs on small regions, and the theorems at them.
use svsm.Base.{
  ℕ, ◌+◌, ◌-◌, ◌*◌, ◌/◌, ◌≤◌, ◌<◌, ◌≡◌, ◌↔◌, ◌⊎◌, inr, refl, true, ltb, if◌then◌else◌, none, some,
  get_elem?, arith, ◌^◌,
}
use svsm.Util.{regular, bytes}
use svsm.Address.{phys_addr, virt_addr}
use svsm.MemoryRegion.{
  MemoryRegion, len, is_empty, overlap, contiguous, merge, new, checked_new, iter_pages,
}
use svsm.MemoryRegion.Sets.{In, overlap-iff-In, merge-union, checked_new-phys}
use svsm.MemoryRegion.Pages.{virt-IsPlain, iter_pages-covers}

abbrev low : MemoryRegion
low = record { start = 0x1000; end = 0x3000 }

abbrev kernel : MemoryRegion
kernel = record { start = 0xFFFFFF8000000000; end = 0xFFFFFF8000003000 }

abbrev high : MemoryRegion
high = record { start = 0x2000; end = 0x5000 }

overlap-iff-In_example : (overlap low high ≡ true) ↔ ((a : ℕ) × In a low × In a high)
unfolding is_empty
overlap-iff-In_example = overlap-iff-In low high refl refl

merge-union_example : In 0x4000 (merge low high) ↔ (In 0x4000 low ⊎ In 0x4000 high)
unfolding contiguous
merge-union_example = merge-union low high (omega arith) (omega arith) refl 0x4000

checked_new-phys_example :
    ((checked_new phys_addr 0x1000 0x2000 ≡ none) ↔ (2 ^ 64 ≤ 0x1000 + 0x2000))
    × ((r : MemoryRegion)
        → checked_new phys_addr 0x1000 0x2000 ≡ some r
        → (len r ≡ 0x2000)
          × (new phys_addr 0x1000 0x2000 ≡ r)
          × ((a : ℕ) → In a r ↔ ((0x1000 ≤ a) × (a < 0x1000 + 0x2000))))
checked_new-phys_example = checked_new-phys 0x1000 0x2000

iter_pages-covers_example :
    ((i : ℕ)
      → get_elem? (iter_pages virt_addr kernel regular) i ≡ (
          if ltb (kernel.start + i * bytes regular) kernel.end
          then some (kernel.start + i * bytes regular)
          else none))
    × ((a : ℕ)
        → kernel.start ≤ a
        → a < kernel.end
        → (p : ℕ) × (get_elem?
              (iter_pages virt_addr kernel regular)
              ((a - kernel.start) / bytes regular)
            ≡ some p)
          × (p ≤ a)
          × (a < p + bytes regular))
iter_pages-covers_example =
    iter_pages-covers virt_addr kernel regular
      (virt-IsPlain kernel (inr (omega arith, omega arith)))
