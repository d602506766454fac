-- ===== src/PageAlloc/Giving.antt =====
-- `free_page_raw` of mm/alloc.rs: a free list gains a block.
use svsm.Base.{
  ℕ, zero, suc, ◌+◌, ◌-◌, ◌*◌, ◌/◌, ◌%◌, ◌^◌, ◌≤◌, ◌<◌, ◌≡◌, ◌≢◌, refl, sym, ◌∙◌, ap, subst, inl,
  inr, ◌⊎◌, Bool, true, false, ◌==◌, not, ◌&&◌, ◌||◌, ltb, leb, if◌then◌else◌, Option, none, some,
  List, [], ◌∷◌, length, get_or, get_elem?, Run, done, panic, Bool-cases, arith, tests, ==→≡, ==→≢,
  ≡→==, ◌>>=◌, ◌>>◌, unwrap, assert, length-set, get_or-set_self, get_or-set_ne,
  get_elem?-eq-get_or,
}
use svsm.Base
use native.Mathlib.Nat.{one-le-pow}
use svsm.Util.{add_usize}
use svsm.PageAlloc.{no_page, free, from_mem, to_mem}
use svsm.PageAlloc.Region.{HeapMemoryRegion, put}
use svsm.PageAlloc.Give.{free_page_raw}
use svsm.PageAlloc.Lists.{IsBlock, Lists, IsHeap, Owned, with_list}
use svsm.PageAlloc.Frame.{Agree, write_page_info_lem, put_self, Decodes-put}
use svsm.PageAlloc.Heap.{IsHeap-frame, IsHeap-set, Chain-start}
use svsm.PageAlloc.Taking.{index_lem, add_at_lem, SameRegion}

-- A block is one still if no page of it but the first was written.
pub IsBlock-frame :
    (info info' : ℕ → ℕ) (count p o q n : ℕ)
    → IsBlock info count p o
    → Agree info info' q n
    → ((i : ℕ) → 0 < i → i < 2 ^ o → (leb q (p + i) && ltb (p + i) (q + n)) ≡ false)
    → IsBlock info' count p o
IsBlock-frame info info' count p o q n block agree apart = record {
  aligned = block.aligned;
  fits = block.fits;
  rest = λ i pos lt. ap from_mem (agree (p + i) (apart i pos lt)) ∙ block.rest i pos lt;
}

-- Giving back an owned block of an order below 6 puts it at the head of its list, and writes no word
-- but that of its first page.
pub free_page_raw_lem :
    (r : HeapMemoryRegion) (l : Lists) (p o : ℕ)
    → IsHeap r l
    → Owned r l p o
    → o < 6
    → (r' : HeapMemoryRegion) × (free_page_raw r p o ≡ done r')
      × SameRegion r r'
      × IsHeap r' (with_list l o (p ∷ l o))
      × Agree r.page_info r'.page_info p 1
unfolding free_page_raw
free_page_raw_lem r l p o heap own ho =
    let old_next = get_or r.next_page o 0 in
    let n = add_usize (get_or r.free_pages o 0) 1 in
    let info = put r.page_info p (to_mem (free old_next o)) in
    let rw1 = record r { page_info = info } in
    let pos : 1 ≤ 2 ^ o = one-le-pow o 2 (omega arith) in
    let start = Chain-start r.page_info r.page_count o old_next (l o) (heap.chains o ho) in
    let storable : old_next ≡ no_page ⊎ old_next < 2 ^ 52 - 1 = elim start [
      | inl e ↦ inl e
      | inr lt ↦ inr (omega (arith, heap.small))
    ] in
    let agree : Agree r.page_info info p 1 = λ q h. ground arith in
    let inside : Agree r.page_info info p (2 ^ o) = λ q h. ground arith in
    let heap1 =
      IsHeap-frame r l p o info heap own
        (Decodes-put r.page_info r.page_count p (free old_next o) heap.decodes
          (storable, omega arith))
        inside in
    (
      record rw1 { next_page = Base.set r.next_page o p; free_pages = Base.set r.free_pages o n },
      rw
          (
            index_lem r.next_page o (omega (arith, heap.next_orders)),
            write_page_info_lem r p (free old_next o) (omega (arith, own.block.fits)),
            add_at_lem r.free_pages o 1 (omega (arith, heap.free_orders)),
          )
          refl,
      record { count = refl; virt = refl; phys = refl },
      IsHeap-set rw1 l o p n (p ∷ l o) r.nr_pages heap1 ho heap.nr_orders
          (
            refl,
            IsBlock-frame r.page_info info r.page_count p o p 1 own.block agree
                (λ i hp hi. ground arith),
            own.unlisted o ho,
            (
              old_next,
              put_self r.page_info p (free old_next o) (storable, omega arith),
              heap1.chains o ho,
            ),
          )
          (omega (arith, heap.counted o ho)),
      agree,
    )
