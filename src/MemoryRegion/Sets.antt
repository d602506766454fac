-- ===== src/MemoryRegion/Sets.antt =====
-- The operations on regions as operations on sets of addresses.
use svsm.Base.{
  ℕ, ◌+◌, ◌-◌, ◌^◌, ◌≤◌, ◌<◌, max, ◌≡◌, ◌↔◌, ◌⊎◌, true, false, arith, none, some, done, panic,
}
use svsm.Address.{phys_addr}
use svsm.MemoryRegion.{
  MemoryRegion, len, is_empty, from_addresses, overlap, contiguous, merge, contains,
  contains_region, new, checked_new, expand,
}

-- The addresses of a region.
abbrev pub In : ℕ → MemoryRegion → Type 0
In a r = (r.start ≤ a) × (a < r.end)

-- `contains` is membership, and a region is empty exactly when it has no address.
pub contains-iff-In :
    (r : MemoryRegion)
    → ((a : ℕ) → (contains r a ≡ true) ↔ In a r) × ((is_empty r ≡ true) ↔ ((a : ℕ) → ¬ In a r))
unfolding contains is_empty
contains-iff-In r =
    ((λ a. ground arith), ((λ e a h. ground arith), λ empty. ground (arith, empty r.start)))

-- Of two regions that are not empty, `overlap` tells whether they have an address in common.
pub overlap-iff-In :
    (r s : MemoryRegion)
    → is_empty r ≡ false
    → is_empty s ≡ false
    → (overlap r s ≡ true) ↔ ((a : ℕ) × In a r × In a s)
unfolding overlap is_empty
overlap-iff-In r s hr hs =
    ((λ h. (max r.start s.start, ground arith, ground arith)), λ (a, p, q). ground arith)

-- The merger of two contiguous regions whose ends are not before their starts has the addresses
-- of both and no other.
pub merge-union :
    (r s : MemoryRegion)
    → r.start ≤ r.end
    → s.start ≤ s.end
    → contiguous r s ≡ true
    → (a : ℕ) → In a (merge r s) ↔ (In a r ⊎ In a s)
unfolding merge contiguous
merge-union r s hr hs c a = (ground arith, ground arith)

-- A region contains one that is not empty exactly when it has all its addresses.
pub contains_region-iff-In :
    (r s : MemoryRegion)
    → is_empty s ≡ false
    → (contains_region r s ≡ true) ↔ ((a : ℕ) → In a s → In a r)
unfolding contains_region is_empty
contains_region-iff-In r s hs =
    ((λ h a i. ground arith), λ sub. ground (arith, sub s.start, sub (s.end - 1)))

-- `checked_new` of physical addresses gives the region of `len` bytes from `start`, and fails exactly
-- where its end does not fit 64 bits; `new` gives the same region where it fits.
pub checked_new-phys :
    (start size : ℕ)
    → ((checked_new phys_addr start size ≡ none) ↔ (2 ^ 64 ≤ start + size))
      × ((r : MemoryRegion)
          → checked_new phys_addr start size ≡ some r
          → (len r ≡ size)
            × (new phys_addr start size ≡ r)
            × ((a : ℕ) → In a r ↔ ((start ≤ a) × (a < start + size))))
unfolding checked_new new
checked_new-phys start size = (
  (ground arith, ground arith),
  λ r e. (ground arith, ground arith, λ a. (ground arith, ground arith)),
)

-- On a physical region whose end is not before its start, `expand` adds to the length and
-- contains the old region, where the new end fits 64 bits.
pub expand-phys :
    (r : MemoryRegion) (extra : ℕ)
    → r.start ≤ r.end
    → r.end + extra < 2 ^ 64
    → (len (expand phys_addr r extra) ≡ len r + extra)
      × (contains_region (expand phys_addr r extra) r ≡ true)
unfolding expand new contains_region
expand-phys r extra h fits = ground arith

-- `from_addresses` panics exactly on a reversed pair, so what it returns is well formed.
pub from_addresses_lem :
    (start end : ℕ)
    → ((from_addresses start end ≡ panic) ↔ (end < start))
      × ((r : MemoryRegion)
          → from_addresses start end ≡ done r
          → (r.start ≡ start) × (r.end ≡ end) × (start ≤ end))
unfolding from_addresses
from_addresses_lem start end = ((ground arith, ground arith), λ r e. ground arith)
