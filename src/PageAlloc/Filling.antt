-- ===== src/PageAlloc/Filling.antt =====
-- How `init_memory` of mm/alloc.rs frees the pages that are not in use: whole blocks of the highest
-- order, and the pages around them one by one.
use svsm.Base.{
  ℕ, zero, suc, ◌+◌, ◌-◌, ◌*◌, ◌/◌, ◌%◌, ◌^◌, ◌≤◌, ◌<◌, ◌≡◌, ◌≢◌, refl, sym, ◌∙◌, ap, subst, inl,
  inr, ◌⊎◌, Bool, true, false, ◌==◌, ◌&&◌, ltb, leb, if◌then◌else◌, List, [], ◌∷◌, length, get_or,
  replicate, get_or-replicate, Run, done, Bool-cases, ==→≡, ltb→lt, arith, ◌>>=◌, ◌>>◌, length-set,
}
use svsm.Base
use svsm.Util.{align_up, align_down, sub_usize, add_usize}
use svsm.Util.Align.{align_down-greatest, align_up-least, is_aligned_lem}
use svsm.PageAlloc.Region.{HeapMemoryRegion, add_at}
use svsm.PageAlloc.Give.{free_all, free_blocks, free_initial}
use svsm.PageAlloc.Lists.{Lists, IsHeap, Owned}
use svsm.PageAlloc.Heap.{IsHeap-nr}
use svsm.PageAlloc.Taking.{SameRegion, add_at_lem}
use svsm.PageAlloc.Total.{total}
use svsm.PageAlloc.Initial.{OwnedPages, KeepsOutside, free_all_lem, free_blocks_lem}

own-nr :
    (r : HeapMemoryRegion) (l : Lists) (nr : List ℕ) (q o : ℕ)
    → Owned r l q o
    → Owned (record r { nr_pages = nr }) l q o
own-nr r l nr q o own = record {
  block = own.block;
  head = own.head;
  says = own.says;
  is_head = own.is_head;
  unlisted = own.unlisted;
}

nr-own :
    (r : HeapMemoryRegion) (l : Lists) (nr : List ℕ) (q o : ℕ)
    → Owned (record r { nr_pages = nr }) l q o
    → Owned r l q o
nr-own r l nr q o own = record {
  block = own.block;
  head = own.head;
  says = own.says;
  is_head = own.is_head;
  unlisted = own.unlisted;
}

-- Freeing pages or blocks after an account of them.
abbrev Freed : HeapMemoryRegion → Lists → ℕ → ℕ → ℕ → HeapMemoryRegion → Lists → Type 0
Freed r l lo n count r' l' =
    SameRegion r r' × IsHeap r' l' × (total l' ≡ total l + count) × KeepsOutside lo n r l r' l'

free_all-nr :
    (r : HeapMemoryRegion) (l : Lists) (i n : ℕ) (nr : List ℕ)
    → IsHeap r l
    → length nr ≡ 6
    → OwnedPages r l i n
    → (r' : HeapMemoryRegion) × (l' : Lists) × (free_all n (record r { nr_pages = nr }) i ≡ done r')
      × Freed r l i n n r' l'
free_all-nr r l i n nr heap hn own =
    let (r', l', run, same, heap', sum, keeps) =
      free_all_lem n (record r { nr_pages = nr }) l i (IsHeap-nr r l nr heap hn)
        (λ q lo hi. own-nr r l nr q 0 (own q lo hi)) in
    (
      r',
      l',
      run,
      (
        record { count = same.count; virt = same.virt; phys = same.phys },
        heap',
        sum,
        λ q h own2. keeps q h (own-nr r l nr q 0 own2),
      ),
    )

free_blocks-nr :
    (r : HeapMemoryRegion) (l : Lists) (i n : ℕ) (nr : List ℕ)
    → IsHeap r l
    → length nr ≡ 6
    → OwnedPages r l i (32 * n)
    → i % 32 ≡ 0
    → (r' : HeapMemoryRegion) × (l' : Lists) × (free_blocks n (record r { nr_pages = nr }) i
        ≡ done r')
      × Freed r l i (32 * n) (32 * n) r' l'
free_blocks-nr r l i n nr heap hn own al =
    let (r', l', run, same, heap', sum, keeps) =
      free_blocks_lem n (record r { nr_pages = nr }) l i (IsHeap-nr r l nr heap hn)
        (λ q lo hi. own-nr r l nr q 0 (own q lo hi)) al in
    (
      r',
      l',
      run,
      (
        record { count = same.count; virt = same.virt; phys = same.phys },
        heap',
        sum,
        λ q h own2. keeps q h (own-nr r l nr q 0 own2),
      ),
    )

-- The steps of the case with whole blocks.
blocks-run :
    (r r1 r2 r3 : HeapMemoryRegion) (used alloc_pages first last : ℕ) (nr1 nr2 nr3 : List ℕ)
    → align_up used 32 ≡ first
    → align_down alloc_pages 32 ≡ last
    → ltb first last ≡ true
    → add_at r.nr_pages 5 ((last - first) / 32) ≡ done nr1
    → free_blocks ((last - first) / 32) (record r { nr_pages = nr1 }) first ≡ done r1
    → add_at r1.nr_pages 0 (first - used) ≡ done nr2
    → free_all (first - used) (record r1 { nr_pages = nr2 }) used ≡ done r2
    → add_at r2.nr_pages 0 (alloc_pages - last) ≡ done nr3
    → free_all (alloc_pages - last) (record r2 { nr_pages = nr3 }) last ≡ done r3
    → free_initial r used alloc_pages ≡ done r3
unfolding free_initial
blocks-run r r1 r2 r3 used alloc_pages first last nr1 nr2 nr3 f l large a1 b1 a2 b2 a3 b3 =
    rw (f, l, large, a1, b1, a2, b2, a3) b3

small-run :
    (r r' : HeapMemoryRegion) (used alloc_pages : ℕ)
    → ltb (align_up used 32) (align_down alloc_pages 32) ≡ false
    → free_all
        (alloc_pages - used)
        (record r { nr_pages = Base.set r.nr_pages 0 (sub_usize alloc_pages used) })
        used
      ≡ done r'
    → free_initial r used alloc_pages ≡ done r'
unfolding free_initial
small-run r r' used alloc_pages small run = rw small run

-- The pages from `used` to `alloc_pages` are freed, and no others.
pub free_initial_lem :
    (r : HeapMemoryRegion) (l : Lists) (used alloc_pages : ℕ)
    → IsHeap r l
    → used ≤ alloc_pages
    → alloc_pages ≤ r.page_count
    → OwnedPages r l used (alloc_pages - used)
    → (r' : HeapMemoryRegion) × (l' : Lists) × (free_initial r used alloc_pages ≡ done r')
      × Freed r l used (alloc_pages - used) (alloc_pages - used) r' l'
free_initial_lem r l used alloc_pages heap ordered fits own = elim (Bool-cases (ltb first last)) [
  | inr small ↦
      let (r', l', run, done_all) =
        free_all-nr r l used (alloc_pages - used)
          (Base.set r.nr_pages 0 (sub_usize alloc_pages used)) heap
          (length-set r.nr_pages 0 _ ∙ heap.nr_orders) own in
      (r', l', small-run r r' used alloc_pages small run, done_all)
  | inl large ↦
      let blocks = (last - first) / 32 in
      let nr1 = Base.set r.nr_pages 5 (add_usize (get_or r.nr_pages 5 0) blocks) in
      let (r1, l1, run1, (same1, heap1, sum1, keeps1)) =
        free_blocks-nr r l first blocks nr1 heap (length-set r.nr_pages 5 _ ∙ heap.nr_orders)
          (λ q lo hi. own q (omega (arith, above)) (omega (arith, below, whole large)))
          first_multiple in
      let nr2 = Base.set r1.nr_pages 0 (add_usize (get_or r1.nr_pages 0 0) (first - used)) in
      let (r2, l2, run2, (same2, heap2, sum2, keeps2)) =
        free_all-nr r1 l1 used (first - used) nr2 heap1
          (length-set r1.nr_pages 0 _ ∙ heap1.nr_orders)
          (λ q lo hi.
            keeps1 q (ground arith) (own q lo (omega (arith, below, ltb→lt first last large)))) in
      let nr3 = Base.set r2.nr_pages 0 (add_usize (get_or r2.nr_pages 0 0) (alloc_pages - last)) in
      let (r3, l3, run3, (same3, heap3, sum3, keeps3)) =
        free_all-nr r2 l2 last (alloc_pages - last) nr3 heap2
          (length-set r2.nr_pages 0 _ ∙ heap2.nr_orders)
          (λ q lo hi. keeps2 q (ground (arith, above)) (
            keeps1 q (ground (arith, whole large))
              (own q (omega (arith, above, ltb→lt first last large)) (omega (arith, below))))) in
      (
        r3,
        l3,
        blocks-run r r1 r2 r3 used alloc_pages first last nr1 nr2 nr3 refl refl large
            (add_at_lem r.nr_pages 5 blocks (omega (arith, heap.nr_orders))) run1
            (add_at_lem r1.nr_pages 0 (first - used) (omega (arith, heap1.nr_orders))) run2
            (add_at_lem r2.nr_pages 0 (alloc_pages - last) (omega (arith, heap2.nr_orders))) run3,
        (
          record {
            count = same3.count ∙ same2.count ∙ same1.count;
            virt = same3.virt ∙ same2.virt ∙ same1.virt;
            phys = same3.phys ∙ same2.phys ∙ same1.phys;
          },
          heap3,
          omega (arith, whole large, above, below, ltb→lt first last large),
          λ q h own2. keeps3 q (ground (arith, above, below)) (
              keeps2 q (ground (arith, above, below, ltb→lt first last large))
                (keeps1 q (ground (arith, whole large, above, below)) own2)),
        ),
      )
]
  where
    first : ℕ
    first = align_up used 32

    last : ℕ
    last = align_down alloc_pages 32

    above : used ≤ first
    above = (align_up-least 5 used (omega arith) (omega (arith, heap.small))).1

    below : last ≤ alloc_pages
    below = (align_down-greatest 5 alloc_pages (omega arith) (omega (arith, heap.small))).1

    first_multiple : first % 32 ≡ 0
    first_multiple = ==→≡ _ 0 (
        sym (is_aligned_lem 5 first (omega arith))
        ∙ (align_up-least 5 used (omega arith) (omega (arith, heap.small))).0)

    last_multiple : last % 32 ≡ 0
    last_multiple = ==→≡ _ 0 (
        sym (is_aligned_lem 5 last (omega arith))
        ∙ (align_down-greatest 5 alloc_pages (omega arith) (omega (arith, heap.small))).0)

    whole : ltb first last ≡ true → 32 * ((last - first) / 32) ≡ last - first
    whole h = omega (arith, first_multiple, last_multiple, ltb→lt first last h)
