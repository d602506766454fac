-- ===== src/PageAlloc/Allocating.antt =====
-- `allocate_pages_info` of mm/alloc.rs: a block of any order below 6, with the information it is
-- allocated for.
use svsm.Base.{
  ℕ, ◌+◌, ◌*◌, ◌%◌, ◌^◌, ◌≤◌, ◌<◌, ◌≡◌, ◌≢◌, refl, ◌∙◌, ap, inl, inr, ◌⊎◌, false, [], length, done,
  arith,
}
use native.Mathlib.Nat.{one-le-pow, suc-mul}
use svsm.Util.{page_size}
use svsm.Address.{virt_add}
use svsm.PageAlloc.{PageInfo, to_mem}
use svsm.PageAlloc.Region.{HeapMemoryRegion, ok, err, out_of_memory, put, write_page_info}
use svsm.PageAlloc.Take.{allocate_pages_info}
use svsm.PageAlloc.RoundTrip.{IsStorable}
use svsm.PageAlloc.Lists.{InfoAt, Lists, IsHeap, Owned, with_list, is_compound}
use svsm.PageAlloc.Frame.{Agree, write_page_info_lem, put_self, Decodes-put}
use svsm.PageAlloc.Heap.{IsHeap-frame}
use svsm.PageAlloc.Taking.{SameRegion, get_next_page_lem}
use svsm.PageAlloc.Giving.{IsBlock-frame}
use svsm.PageAlloc.Keeping.{KeepsBut, keeps-inside}
use svsm.PageAlloc.Total.{total, total-with_list}
use svsm.PageAlloc.Refilling.{taken-keeps, refill_page_list_lem}

-- Writing the head of an owned block leaves it owned.
pub own-write :
    (r : HeapMemoryRegion) (l : Lists) (p o : ℕ) (pg : PageInfo)
    → IsHeap r l
    → Owned r l p o
    → IsStorable pg
    → is_compound pg ≡ false
    → (r' : HeapMemoryRegion) × (write_page_info r p pg ≡ done r')
      × SameRegion r r'
      × IsHeap r' l
      × Owned r' l p o
      × InfoAt r'.page_info p pg
      × KeepsBut p r l r' l
own-write r l p o pg heap own storable is_head =
    let info = put r.page_info p (to_mem pg) in
    let pos : 1 ≤ 2 ^ o = one-le-pow o 2 (omega arith) in
    let agree : Agree r.page_info info p 1 = λ q h. ground arith in
    let says = put_self r.page_info p pg storable in
    (
      record r { page_info = info },
      write_page_info_lem r p pg (omega (arith, own.block.fits)),
      record { count = refl; virt = refl; phys = refl },
      IsHeap-frame r l p o info heap own
          (Decodes-put r.page_info r.page_count p pg heap.decodes storable) (λ q h. ground arith),
      record {
        block =
            IsBlock-frame r.page_info info r.page_count p o p 1 own.block agree
              (λ i hp hi. ground arith);
        head = pg;
        says = says;
        is_head = is_head;
        unlisted = own.unlisted;
      },
      says,
      keeps-inside r _ l l p o own (record { count = refl; virt = refl; phys = refl })
          (λ q h. ground arith) (λ q ne apart none_listed. none_listed),
    )

-- Allocating a block of an order below 6, in a region that satisfies the invariant, for information
-- that fits the word of a page and is not that of a compound page, either fails with `out_of_memory`
-- and leaves the region as it was, as no list of that order or above has a block; or returns the
-- address of the first page of a block that is on no list. The region satisfies the invariant again,
-- the first page of the block has the information, the lists have 2^order pages fewer, and every block
-- that was owned is another one, stays owned and keeps the word of its first page.
pub allocate_pages_info_lem :
    (r : HeapMemoryRegion) (l : Lists) (order : ℕ) (pg : PageInfo)
    → IsHeap r l
    → order < 6
    → IsStorable pg
    → is_compound pg ≡ false
    → ((allocate_pages_info r order pg ≡ done (r, err out_of_memory))
        × ((k : ℕ) → order ≤ k → k < 6 → l k ≡ []))
      ⊎ ((r' : HeapMemoryRegion) × (l' : Lists) × (pfn : ℕ) × (allocate_pages_info r order pg
            ≡ done (r', ok (virt_add r.start_virt (pfn * page_size % 2 ^ 64))))
          × SameRegion r r'
          × IsHeap r' l'
          × Owned r' l' pfn order
          × InfoAt r'.page_info pfn pg
          × (total l' + 2 ^ order ≡ total l)
          × ((q o : ℕ)
              → Owned r l q o
              → (q ≢ pfn) × Owned r' l' q o × (r'.page_info q ≡ r.page_info q)))
unfolding allocate_pages_info
allocate_pages_info_lem r l order pg heap ho storable is_head =
    elim (refill_page_list_lem r l order heap ho) [
      | inl (fails, empty) ↦ inl (rw fails refl, empty)
      | inr (r1, l1, run1, same1, heap1, more, sum1, keeps1) ↦
          let (x, xs, e) = more in
          let (r2, run2, same2, heap2, own2, info2) =
            get_next_page_lem r1 l1 order x xs heap1 ho e in
          let (r3, run3, same3, heap3, own3, says, keeps3) =
            own-write r2 (with_list l1 order xs) x order pg heap2 own2 storable is_head in
          inr (
            r3,
            with_list l1 order xs,
            x,
            rw (run1, run2, run3, same3.virt, same2.virt, same1.virt) refl,
            record {
              count = same3.count ∙ same2.count ∙ same1.count;
              virt = same3.virt ∙ same2.virt ∙ same1.virt;
              phys = same3.phys ∙ same2.phys ∙ same1.phys;
            },
            heap3,
            own3,
            says,
            omega (
              arith,
              total-with_list l1 order xs ho,
              ap (λ ys. length ys * 2 ^ order) e,
              suc-mul (length xs) (2 ^ order),
            ),
            λ q o' own.
                let (own_1, at_1) = keeps1 q o' own in
                let (ne, own_2, at_2) =
                  taken-keeps r1 r2 l1 order x xs ho e same2 info2 q o' own_1 in
                let (own_3, at_3) = keeps3 q o' ne own_2 in (ne, own_3, at_3 ∙ at_2 ∙ at_1),
          )
    ]
