-- ===== src/Address/Arith.antt =====
-- Sums, differences, pages and page-table indices of addresses.
use svsm.Base.{ℕ, ◌+◌, ◌-◌, ◌*◌, ◌/◌, ◌%◌, ◌^◌, ◌≤◌, ◌<◌, ◌≡◌, ◌↔◌, refl, ◌∙◌, true, arith}
use svsm.Bits.{bit_and-low_mask}
use svsm.Util.{page_size, sub_usize}
use svsm.Util.Align.{align_down_lem}
use svsm.Address.{
  sign_extend, virt_add, virt_sub, virt_diff, crosses_page, page_offset, pfn, page_align, virt_addr,
  phys_addr, to_pgtbl_idx, addr_align_down,
}
use svsm.Address.Canonical.{IsCanonical, sign_extend-IsCanonical, sign_extend-low, canonical-lt}

virt_diff_lem : (a b : ℕ) → virt_diff a b ≡ (a + 2 ^ 64 - b) % 2 ^ 64 % 2 ^ 48
unfolding virt_diff
virt_diff_lem a b = bit_and-low_mask 48 _

-- For a canonical address and an offset below 2^48, the offset is what the difference gives back
-- after it was added, also where the sum goes round or over the hole between the canonical
-- halves; and subtracting it gives the address.
pub virt_diff-virt_add :
    (a off : ℕ)
    → IsCanonical a
    → off < 2 ^ 48
    → (virt_diff (virt_add a off) a ≡ off) × (virt_sub (virt_add a off) off ≡ a)
unfolding virt_add virt_sub
virt_diff-virt_add a off c h = (
  omega (arith, virt_diff_lem (sign_extend sum) a, extended),
  sign_extend-low (sub_usize (sign_extend sum) off) a (omega arith) (canonical-lt a c) low
      ∙ ((sign_extend-IsCanonical a (canonical-lt a c)).2).1 c,
)
  where
    sum : ℕ
    sum = (a + off) % 2 ^ 64

    extended :
        IsCanonical (sign_extend sum)
        × (sign_extend sum % 2 ^ 48 ≡ sum % 2 ^ 48)
        × ((sign_extend sum ≡ sum) ↔ IsCanonical sum)
    extended = sign_extend-IsCanonical sum (omega arith)

    low : sub_usize (sign_extend sum) off % 2 ^ 48 ≡ a % 2 ^ 48
    low = omega (arith, extended)

-- Two offsets whose sum is below 2^64 may be added to a 64-bit address one after the other or at
-- once.
pub virt_add_assoc :
    (a m n : ℕ) → a < 2 ^ 64 → m + n < 2 ^ 64 → virt_add (virt_add a m) n ≡ virt_add a (m + n)
unfolding virt_add
virt_add_assoc a m n ha h =
    sign_extend-low _ _ (omega arith) (omega arith)
      (omega (arith, sign_extend-IsCanonical ((a + m) % 2 ^ 64) (omega arith)))

-- An access of a positive size that ends within 2^64 crosses a page exactly when it does not fit
-- behind its offset in the page.
pub crosses_page_iff :
    (a size : ℕ)
    → 0 < size
    → a + size ≤ 2 ^ 64
    → (crosses_page a size ≡ true) ↔ (page_size < page_offset a + size)
unfolding crosses_page page_offset
crosses_page_iff a size h fits = ground (arith, bit_and-low_mask 12 a)

-- Page number and offset make up a canonical address; aligning keeps the first and clears the
-- second, and leaves the address canonical.
pub page_align-parts :
    (a : ℕ)
    → IsCanonical a
    → (pfn a * page_size + page_offset a ≡ a)
      × (page_align virt_addr a ≡ pfn a * page_size)
      × (page_align phys_addr a ≡ pfn a * page_size)
      × IsCanonical (page_align virt_addr a)
unfolding pfn page_offset page_align addr_align_down
page_align-parts a c =
    rw (align_down_lem 12 a (omega arith) (canonical-lt a c), bit_and-low_mask 12 a, kept)
      (omega arith, refl, refl, start)
  where
    start : IsCanonical (a / 2 ^ 12 * 2 ^ 12)
    start = ground arith

    kept : sign_extend (a / 2 ^ 12 * 2 ^ 12) ≡ a / 2 ^ 12 * 2 ^ 12
    kept = ((sign_extend-IsCanonical _ (canonical-lt _ start)).2).1 start

-- The four indices and the page offset make up the 48 low bits of an address.
pub to_pgtbl_idx-parts :
    (a : ℕ)
    → to_pgtbl_idx 3 a * 2 ^ 39
        + to_pgtbl_idx 2 a * 2 ^ 30
        + to_pgtbl_idx 1 a * 2 ^ 21
        + to_pgtbl_idx 0 a * 2 ^ 12
        + page_offset a
      ≡ a % 2 ^ 48
unfolding to_pgtbl_idx page_offset
to_pgtbl_idx-parts a = omega (
  arith,
  bit_and-low_mask 9 (a / 2 ^ 12),
  bit_and-low_mask 9 (a / 2 ^ 21),
  bit_and-low_mask 9 (a / 2 ^ 30),
  bit_and-low_mask 9 (a / 2 ^ 39),
  bit_and-low_mask 12 a,
)
