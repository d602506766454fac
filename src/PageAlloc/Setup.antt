-- ===== src/PageAlloc/Setup.antt =====
-- `init_memory` of mm/alloc.rs as a whole: it establishes the invariant.
use svsm.Base.{
  ℕ, zero, suc, ◌+◌, ◌-◌, ◌*◌, ◌%◌, ◌^◌, ◌≤◌, ◌<◌, ◌≡◌, refl, ◌∙◌, ap, inl, inr, ltb, [], length,
  get_or, replicate, get_or-replicate, done, Bool-cases, ltb→lt, arith,
}
use svsm.Util.{page_size, sub_usize}
use svsm.Util.Align.{align_up-least}
use svsm.PageAlloc.{allocated, reserved, from_mem, no_page}
use svsm.PageAlloc.Region.{HeapMemoryRegion}
use svsm.PageAlloc.Give.{write_all, free_initial, init_memory, meta_pages}
use svsm.PageAlloc.Lists.{InfoAt, Lists, IsHeap, Decodes, Owned}
use svsm.PageAlloc.Taking.{SameRegion}
use svsm.PageAlloc.Total.{total}
use svsm.Address.{virt_add}
use svsm.PageAlloc.Initial.{write_all_lem}
use svsm.PageAlloc.Filling.{free_initial_lem}

-- A region before its set-up: no list has a page.
pub record IsBlank (r : HeapMemoryRegion) : Type 0 where
  pub small : r.page_count < 2 ^ 52 - 1
  pub nr_orders : length r.nr_pages ≡ 6
  pub no_next : r.next_page ≡ replicate 6 no_page
  pub none_free : r.free_pages ≡ replicate 6 0

abbrev nothing : Lists
nothing o = []

blank-IsHeap :
    (r : HeapMemoryRegion) → IsBlank r → Decodes r.page_info r.page_count → IsHeap r nothing
blank-IsHeap r blank decodes = record {
  small = blank.small;
  nr_orders = blank.nr_orders;
  next_orders = ap length blank.no_next;
  free_orders = ap length blank.none_free;
  decodes = decodes;
  chains = λ o ho. ap (λ xs. get_or xs o 0) blank.no_next ∙ no_pages o ho;
  counted = λ o ho. ap (λ xs. get_or xs o 0) blank.none_free ∙ zeros o;
}
  where
    no_pages : (o : ℕ) → o < 6 → get_or (replicate 6 no_page) o 0 ≡ no_page
    no_pages zero ho = refl
    no_pages (suc zero) ho = refl
    no_pages (suc (suc zero)) ho = refl
    no_pages (suc (suc (suc zero))) ho = refl
    no_pages (suc (suc (suc (suc zero)))) ho = refl
    no_pages (suc (suc (suc (suc (suc zero))))) ho = refl
    no_pages (suc (suc (suc (suc (suc (suc o)))))) ho = absurd (omega arith)

    zeros : (o : ℕ) → get_or {A = ℕ} (replicate 6 0) o 0 ≡ 0
    zeros o = get_or-replicate 6 o 0

-- The pages that hold the words of the others, which are the last of the region.
meta_pages-le : (count : ℕ) → count < 2 ^ 52 - 1 → meta_pages count ≤ count
meta_pages-le zero h = omega (arith, align_up-least 12 0 (omega arith) (omega arith))
meta_pages-le (suc count) h =
    omega (arith, align_up-least 12 (suc count * 8 % 2 ^ 64) (omega arith) (omega arith))

-- The steps of `init_memory`.
init-run :
    (r r' : HeapMemoryRegion) (alloc_pages used : ℕ) (info1 info2 : ℕ → ℕ)
    → sub_usize r.page_count (meta_pages r.page_count) ≡ alloc_pages
    → (addr : ℕ) → virt_add r.start_virt (alloc_pages * page_size % 2 ^ 64) ≡ addr
    → write_all alloc_pages (record r { metadata_addr = addr }) 0 (allocated 0)
      ≡ done (record r { metadata_addr = addr; page_info = info1 })
    → write_all
        (r.page_count - alloc_pages)
        (record r { metadata_addr = addr; page_info = info1 })
        alloc_pages
        reserved
      ≡ done (record r { metadata_addr = addr; page_info = info2 })
    → free_initial (record r { metadata_addr = addr; page_info = info2 }) used alloc_pages ≡ done r'
    → init_memory r used ≡ done r'
unfolding init_memory
init-run r r' alloc_pages used info1 info2 e addr a w1 w2 f = rw (e, a, w1, w2) f

-- Setting up a region without listed pages, of fewer than 2^52 - 1 pages, of which the given number,
-- at most that of the pages in front of the metadata, is in use already: the region satisfies the
-- invariant, its lists have all other pages in front of the metadata, and each page that is in use is
-- owned.
pub init_memory_lem :
    (r : HeapMemoryRegion) (allocated_pages : ℕ)
    → IsBlank r
    → allocated_pages ≤ r.page_count - meta_pages r.page_count
    → (r' : HeapMemoryRegion) × (l' : Lists) × (init_memory r allocated_pages ≡ done r')
      × SameRegion r r'
      × IsHeap r' l'
      × (total l' + allocated_pages ≡ r.page_count - meta_pages r.page_count)
      × ((q : ℕ) → q < allocated_pages → Owned r' l' q 0)
unfolding total
init_memory_lem r used blank h =
    let (info1, w1, says1, agree1) =
      write_all_lem alloc_pages (record r { metadata_addr = addr }) 0 (allocated 0) (omega arith)
        (omega arith) in
    let (info2, w2, says2, agree2) =
      write_all_lem (r.page_count - alloc_pages)
        (record r { metadata_addr = addr; page_info = info1 }) alloc_pages reserved (omega arith)
        tt in
    let r0 = record r { metadata_addr = addr; page_info = info2 } in
    let at : (q : ℕ) → q < alloc_pages → InfoAt info2 q (allocated 0) =
      λ q hq. ap from_mem (agree2 q (ground arith)) ∙ says1 q (omega arith) (omega arith) in
    let decodes : Decodes info2 r.page_count = λ q hq. elim (Bool-cases (ltb q alloc_pages)) [
      | inl e ↦ (allocated 0, at q (ltb→lt q alloc_pages e))
      | inr e ↦ (reserved, says2 q (ground arith) (omega arith))
    ] in
    let blank0 : IsBlank r0 = record {
      small = blank.small;
      nr_orders = blank.nr_orders;
      no_next = blank.no_next;
      none_free = blank.none_free;
    } in
    let own : (q : ℕ) → q < alloc_pages → Owned r0 nothing q 0 = λ q hq. record {
      block = record {
        aligned = omega arith;
        fits = omega arith;
        rest = λ i hp hi. absurd (omega arith);
      };
      head = allocated 0;
      says = at q hq;
      is_head = refl;
      unlisted = λ o' ho'. refl;
    } in
    let (r', l', run, (same, heap, sum, keeps)) =
      free_initial_lem r0 nothing used alloc_pages (blank-IsHeap r0 blank0 decodes) h (omega arith)
        (λ q lo hi. own q (omega arith)) in
    (
      r',
      l',
      init-run r r' alloc_pages used info1 info2
          (omega (arith, blank.small, meta_pages-le r.page_count blank.small)) addr refl w1 w2 run,
      record { count = same.count; virt = same.virt; phys = same.phys },
      heap,
      omega (arith, sum, none_listed),
      λ q hq. keeps q (ground arith) (own q (omega arith)),
    )
  where
    alloc_pages : ℕ
    alloc_pages = r.page_count - meta_pages r.page_count

    addr : ℕ
    addr = virt_add r.start_virt (alloc_pages * page_size % 2 ^ 64)

    none_listed : total nothing ≡ 0
    none_listed = refl
