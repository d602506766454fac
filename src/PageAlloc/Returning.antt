-- ===== src/PageAlloc/Returning.antt =====
-- Addresses of pages in mm/alloc.rs, and `free_page` on the address that an allocation returned.
use svsm.Base.{
  ℕ, ◌+◌, ◌*◌, ◌%◌, ◌^◌, ◌≤◌, ◌<◌, ◌≡◌, refl, sym, ◌∙◌, ap, subst, inl, inr, true, false, ◌&&◌, ltb,
  leb, some, Run, done, arith,
}
use native.Mathlib.Nat.{one-le-pow}
use svsm.Util.{page_size}
use svsm.Address.{virt_add, phys_add, phys_sub}
use svsm.Address.Canonical.{IsCanonical, sign_extend-IsCanonical}
use svsm.Address.Arith.{virt_diff-virt_add}
use svsm.PageAlloc.{PageInfo, allocated}
use svsm.PageAlloc.Region.{
  HeapMemoryRegion, Result, ok, err, out_of_memory, get_pfn, get_virt_offset, phys_to_virt,
  virt_to_phys,
}
use svsm.PageAlloc.Take.{allocate_pages}
use svsm.PageAlloc.Give.{free_info, free_page}
use svsm.PageAlloc.Lists.{InfoAt, Lists, IsHeap, Owned}
use svsm.PageAlloc.Frame.{read_page_info_lem}
use svsm.PageAlloc.Taking.{SameRegion}
use svsm.PageAlloc.Keeping.{Keeps, KeepsBut}
use svsm.PageAlloc.Total.{total}
use svsm.PageAlloc.Allocating.{allocate_pages_info_lem}
use svsm.PageAlloc.Freeing.{free_page_order_lem}

-- The region lies in the address space: it starts at a canonical address and ends within 2^64, at
-- physical addresses too, and has less than 2^47 bytes.
pub record IsPlaced (r : HeapMemoryRegion) : Type 0 where
  pub canonical : IsCanonical r.start_virt
  pub virt_fits : r.start_virt + r.page_count * page_size ≤ 2 ^ 64
  pub phys_fits : r.start_phys + r.page_count * page_size ≤ 2 ^ 64
  pub size : r.page_count * page_size < 2 ^ 47

get_virt_offset_lem :
    (r : HeapMemoryRegion) (off : ℕ)
    → IsPlaced r
    → off < r.page_count * page_size
    → get_virt_offset r (virt_add r.start_virt off) ≡ some off
unfolding get_virt_offset virt_add
get_virt_offset_lem r off placed h =
    rw ((virt_diff-virt_add r.start_virt off placed.canonical (omega (arith, placed.size))).0, both)
      refl
  where
    above : r.start_virt ≤ virt_add r.start_virt off
    above = ground (
      arith,
      sign_extend-IsCanonical ((r.start_virt + off) % 2 ^ 64) (omega arith),
      placed.size,
      placed.virt_fits,
      placed.canonical,
    )

    both :
        (leb r.start_virt (virt_add r.start_virt off)
          && ltb off (r.page_count * page_size % 2 ^ 64))
        ≡ true
    both = ground (arith, above, placed.size)

-- For an offset into a region that lies in the address space, the physical address at the offset is
-- translated to the virtual one there, and that back to it.
pub virt_to_phys-phys_to_virt :
    (r : HeapMemoryRegion) (off : ℕ)
    → IsPlaced r
    → off < r.page_count * page_size
    → (phys_to_virt r (r.start_phys + off) ≡ some (virt_add r.start_virt off))
      × (virt_to_phys r (virt_add r.start_virt off) ≡ some (r.start_phys + off))
unfolding phys_to_virt virt_to_phys phys_add phys_sub
virt_to_phys-phys_to_virt r off placed h = (
  there,
  rw (get_virt_offset_lem r off placed h, virt_to_phys) (ap some (omega (arith, placed.phys_fits))),
)
  where
    back : phys_sub (r.start_phys + off) r.start_phys ≡ off
    back = omega (arith, placed.phys_fits)

    low : ltb (r.start_phys + off) r.start_phys ≡ false
    low = ground arith

    inside : leb (r.page_count * page_size % 2 ^ 64) off ≡ false
    inside = ground (arith, placed.size)

    there : phys_to_virt r (r.start_phys + off) ≡ some (virt_add r.start_virt off)
    there = rw (low, back, inside) refl

-- The address of a page, and the page at it.
abbrev pub address : HeapMemoryRegion → ℕ → ℕ
address r p = virt_add r.start_virt (p * page_size % 2 ^ 64)

pub get_pfn-address :
    (r : HeapMemoryRegion) (p : ℕ) → IsPlaced r → p < r.page_count → get_pfn r (address r p) ≡ ok p
unfolding get_pfn
get_pfn-address r p placed h =
    rw (get_virt_offset_lem r (p * page_size % 2 ^ 64) placed (omega (arith, placed.size)), get_pfn)
      (ap ok (omega (arith, placed.size)))

pub free_page-step :
    (r : HeapMemoryRegion) (p : ℕ) (pi : PageInfo)
    → IsPlaced r
    → p < r.page_count
    → InfoAt r.page_info p pi
    → free_page r (address r p) ≡ free_info r p pi
unfolding free_page
free_page-step r p pi placed h says =
    rw (get_pfn-address r p placed h, free_page) (rw (read_page_info_lem r p pi h says) refl)

-- Freeing, by its address, an owned block whose first page says that it is allocated with its order,
-- below 6, in a region that satisfies the invariant and lies in the address space: the free returns,
-- the region satisfies the invariant again, its lists have 2^order pages more, and every block that
-- was owned, but for this one, stays owned and keeps the word of its first page.
pub free_page_lem :
    (r : HeapMemoryRegion) (l : Lists) (p o : ℕ)
    → IsHeap r l
    → IsPlaced r
    → Owned r l p o
    → InfoAt r.page_info p (allocated o)
    → o < 6
    → (r' : HeapMemoryRegion) × (l' : Lists) × (free_page r (address r p) ≡ done r')
      × SameRegion r r'
      × IsHeap r' l'
      × (total l' ≡ total l + 2 ^ o)
      × KeepsBut p r l r' l'
unfolding free_info
free_page_lem r l p o heap placed own says ho =
    let (r', l', run, same, heap', sum, keeps) = free_page_order_lem r l p o heap own ho in
    let pos : 1 ≤ 2 ^ o = one-le-pow o 2 (omega arith) in
    (
      r',
      l',
      free_page-step r p (allocated o) placed (omega (arith, own.block.fits)) says ∙ run,
      same,
      heap',
      sum,
      keeps,
    )

still-IsPlaced : (r r' : HeapMemoryRegion) → IsPlaced r → SameRegion r r' → IsPlaced r'
still-IsPlaced r r' placed same = record {
  canonical = subst IsCanonical (sym same.virt) placed.canonical;
  virt_fits = omega (arith, placed.virt_fits, same.virt, same.count);
  phys_fits = omega (arith, placed.phys_fits, same.phys, same.count);
  size = omega (arith, placed.size, same.count);
}

-- What an allocation of an order below 6 returns can be freed, in a region that satisfies the
-- invariant and lies in the address space: freeing the address that it returned returns, the
-- invariant holds again, as many pages are free as before the allocation, and every block that was
-- owned before it stays owned and keeps the word of its first page.
pub free_page-allocate_pages :
    (r r' : HeapMemoryRegion) (l : Lists) (order vaddr : ℕ)
    → IsHeap r l
    → IsPlaced r
    → order < 6
    → allocate_pages r order ≡ done (r', ok vaddr)
    → (r2 : HeapMemoryRegion) × (l2 : Lists) × (free_page r' vaddr ≡ done r2)
      × IsHeap r2 l2
      × (total l2 ≡ total l)
      × Keeps r l r2 l2
unfolding allocate_pages
free_page-allocate_pages r r' l order vaddr heap placed ho runs =
    elim (allocate_pages_info_lem r l order (allocated order) heap ho (omega arith) refl) [
      | inl (fails, empty) ↦ absurd (clash (sym runs ∙ fails))
      | inr (r1, l1, p, run, same, heap1, own1, says, sum, keeps) ↦
          let (region, addr) =
            inj r1 (virt_add r.start_virt (p * page_size % 2 ^ 64)) (sym run ∙ runs) in
          let placed1 = still-IsPlaced r r1 placed same in
          let (r2, l2, run2, same2, heap2, sum2, keeps2) =
            free_page_lem r1 l1 p order heap1 placed1 own1 says ho in
          (
            r2,
            l2,
            rw (sym region, sym addr, sym same.virt) run2,
            heap2,
            omega arith,
            λ q o own.
                let (ne, own_1, at_1) = keeps q o own in
                let (own_2, at_2) = keeps2 q o ne own_1 in (own_2, at_2 ∙ at_1),
          )
    ]
  where
    clash :
        ◌≡◌ {A = Run (HeapMemoryRegion × Result ℕ)}
          (done (r', ok vaddr))
          (done (r, err out_of_memory))
        → ⊥
    clash e = cc

    inj :
        (r1 : HeapMemoryRegion) (v : ℕ)
        → ◌≡◌ {A = Run (HeapMemoryRegion × Result ℕ)} (done (r1, ok v)) (done (r', ok vaddr))
        → (r1 ≡ r') × (v ≡ vaddr)
    inj r1 v e = (cc, cc)
