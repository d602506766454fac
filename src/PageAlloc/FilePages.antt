-- ===== src/PageAlloc/FilePages.antt =====
-- `get_file_page` and `put_file_page` of mm/alloc.rs: the reference count of a file page.
use svsm.Base.{
  ℕ, zero, suc, ◌+◌, ◌-◌, ◌%◌, ◌^◌, ◌<◌, ◌≡◌, refl, ◌∙◌, true, ltb, if◌then◌else◌, done, arith,
}
use svsm.PageAlloc.{file}
use svsm.PageAlloc.Region.{HeapMemoryRegion, ok}
use svsm.PageAlloc.Give.{get_ref, get_file_page, put_ref, put_file_page, free_info, as_file}
use svsm.PageAlloc.Lists.{InfoAt, Lists, IsHeap, Owned}
use svsm.PageAlloc.Frame.{read_page_info_lem}
use svsm.PageAlloc.Taking.{SameRegion}
use svsm.PageAlloc.Total.{total}
use svsm.PageAlloc.Allocating.{own-write}
use svsm.PageAlloc.Freeing.{free_page_order_lem}
use svsm.PageAlloc.Returning.{IsPlaced, address, get_pfn-address, free_page-step}

get-step :
    (r : HeapMemoryRegion) (p n : ℕ)
    → IsPlaced r
    → p < r.page_count
    → InfoAt r.page_info p (file n)
    → get_file_page r (address r p) ≡ get_ref r (address r p) p (as_file (file n))
unfolding get_file_page
get-step r p n placed h says =
    rw (get_pfn-address r p placed h, get_file_page)
      (rw (read_page_info_lem r p (file n) h says) refl)

put-step :
    (r : HeapMemoryRegion) (p n : ℕ)
    → IsPlaced r
    → p < r.page_count
    → InfoAt r.page_info p (file n)
    → put_file_page r (address r p) ≡ put_ref r (address r p) p (as_file (file n))
unfolding put_file_page
put-step r p n placed h says =
    rw (get_pfn-address r p placed h, put_file_page)
      (rw (read_page_info_lem r p (file n) h says) refl)

-- Getting an owned file page, in a region that satisfies the invariant and lies in the address space,
-- whose count is positive and below 2^60 - 1, adds one to its count; the page stays owned and the
-- invariant holds.
pub get_file_page_lem :
    (r : HeapMemoryRegion) (l : Lists) (p n : ℕ)
    → IsHeap r l
    → IsPlaced r
    → Owned r l p 0
    → InfoAt r.page_info p (file n)
    → 0 < n
    → n < 2 ^ 60 - 1
    → (r' : HeapMemoryRegion) × (get_file_page r (address r p) ≡ done (r', ok tt))
      × SameRegion r r'
      × IsHeap r' l
      × Owned r' l p 0
      × InfoAt r'.page_info p (file (n + 1))
unfolding get_ref
get_file_page_lem r l p n heap placed own says pos small =
    let (r', run, same, heap', own', says', keeps) =
      own-write r l p 0 (file (n + 1)) heap own (omega arith) refl in
    let test : ltb 0 n ≡ true = ground arith in
    let next : (n + 1) % 2 ^ 64 ≡ n + 1 = omega arith in
    (
      r',
      get-step r p n placed (omega (arith, own.block.fits)) says ∙ rw (test, next, run) refl,
      same,
      heap',
      own',
      says',
    )

-- Putting an owned file page, in a region that satisfies the invariant and lies in the address space:
-- a count from 2 to 2^60 - 1 goes down by one, and the page stays owned; with the last reference the
-- page is freed, so that one page more is on the lists. The invariant holds in both cases.
pub put_file_page_lem :
    (r : HeapMemoryRegion) (l : Lists) (p n : ℕ)
    → IsHeap r l
    → IsPlaced r
    → Owned r l p 0
    → InfoAt r.page_info p (file (suc n))
    → n < 2 ^ 60 - 1
    → (r' : HeapMemoryRegion) × (l' : Lists) × (put_file_page r (address r p) ≡ done (r', ok tt))
      × IsHeap r' l'
      × (if ltb 0 n
          then (l' ≡ l) × Owned r' l p 0 × InfoAt r'.page_info p (file n)
          else total l' ≡ total l + 1)
unfolding put_ref free_info
put_file_page_lem r l p zero heap placed own says small =
    let (r', l', run, same, heap', sum, keeps) =
      free_page_order_lem r l p 0 heap own (omega arith) in
    let inside : p < r.page_count = omega (arith, own.block.fits) in
    (
      r',
      l',
      put-step r p 1 placed inside says
          ∙ rw (free_page-step r p (file 1) placed inside says, run) refl,
      heap',
      sum,
    )
put_file_page_lem r l p (suc n) heap placed own says small =
    let (r', run, same, heap', own', says', keeps) =
      own-write r l p 0 (file (suc n)) heap own (omega arith) refl in
    let less : suc (suc n) - 1 ≡ suc n = omega arith in
    let test : ltb 0 (suc n) ≡ true = ground arith in
    let test2 : ltb 0 (suc (suc n)) ≡ true = ground arith in
    (
      r',
      l,
      put-step r p (suc (suc n)) placed (omega (arith, own.block.fits)) says
          ∙ rw (test2, less, test, run) refl,
      heap',
      rw test (refl, own', says'),
    )
