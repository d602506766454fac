-- ===== src/PageAlloc/Initial.antt =====
-- `init_memory` of mm/alloc.rs: every page is marked, and the free ones are put on the lists.
use svsm.Base.{
  ℕ, zero, suc, ◌+◌, ◌-◌, ◌*◌, ◌%◌, ◌^◌, ◌≤◌, ◌<◌, ◌≡◌, ◌≢◌, refl, ◌∙◌, ap, subst, inl, inr, true,
  false, ◌==◌, ◌&&◌, ltb, leb, List, ◌∷◌, done, Bool-cases, ==→≡, arith,
}
use svsm.PageAlloc.{PageInfo, compound, from_mem, to_mem}
use svsm.PageAlloc.Region.{HeapMemoryRegion, put}
use svsm.PageAlloc.RoundTrip.{IsStorable}
use svsm.PageAlloc.Take.{mark_compound_page}
use svsm.PageAlloc.Give.{write_all, free_all, free_blocks}
use svsm.PageAlloc.Lists.{InfoAt, IsBlock, Lists, IsHeap, Owned, has, with_list}
use svsm.PageAlloc.Frame.{Agree, mark_loop_lem, write_page_info_lem, put_self, Decodes-Agree}
use svsm.PageAlloc.Heap.{IsHeap-keep, listed_apart}
use svsm.PageAlloc.Taking.{SameRegion}
use svsm.PageAlloc.Giving.{free_page_raw_lem}
use svsm.PageAlloc.Keeping.{KeepsBut, own-same, keeps-inside, unlisted-with_list}
use svsm.PageAlloc.Total.{total, total-with_list}
use svsm.PageAlloc.Freeing.{free_page_order_lem}

-- Pages that are owned one by one, from `i` on.
abbrev pub OwnedPages : HeapMemoryRegion → Lists → ℕ → ℕ → Type 0
OwnedPages r l i n = (q : ℕ) → i ≤ q → q < i + n → Owned r l q 0

-- What is owned outside of them stays so.
abbrev pub KeepsOutside : ℕ → ℕ → HeapMemoryRegion → Lists → HeapMemoryRegion → Lists → Type 0
KeepsOutside i n r l r' l' =
    (q : ℕ) → (leb i q && ltb q (i + n)) ≡ false → Owned r l q 0 → Owned r' l' q 0

pub free_all_lem :
    (n : ℕ) (r : HeapMemoryRegion) (l : Lists) (i : ℕ)
    → IsHeap r l
    → OwnedPages r l i n
    → (r' : HeapMemoryRegion) × (l' : Lists) × (free_all n r i ≡ done r')
      × SameRegion r r'
      × IsHeap r' l'
      × (total l' ≡ total l + n)
      × KeepsOutside i n r l r' l'
unfolding free_all
free_all_lem zero r l i heap own = (
  r,
  l,
  refl,
  record { count = refl; virt = refl; phys = refl },
  heap,
  omega arith,
  λ q h own. own,
)
free_all_lem (suc n) r l i heap own =
    let (r1, l1, run1, same1, heap1, sum1, keeps1) =
      free_page_order_lem r l i 0 heap (own i (omega arith) (omega arith)) (omega arith) in
    let (r2, l2, run2, same2, heap2, sum2, keeps2) =
      free_all_lem n r1 l1 (i + 1) heap1
        (λ q lo hi. (keeps1 q 0 (ground arith) (own q (omega arith) (omega arith))).0) in
    (
      r2,
      l2,
      rw run1 run2,
      record {
        count = same2.count ∙ same1.count;
        virt = same2.virt ∙ same1.virt;
        phys = same2.phys ∙ same1.phys;
      },
      heap2,
      omega arith,
      λ q h own. keeps2 q (ground arith) (keeps1 q 0 (ground arith) own).0,
    )

-- A block made of 32 owned pages.
join_lem :
    (r : HeapMemoryRegion) (l : Lists) (i : ℕ)
    → IsHeap r l
    → OwnedPages r l i 32
    → i % 32 ≡ 0
    → (r' : HeapMemoryRegion) × (mark_compound_page r i 5 ≡ done r')
      × SameRegion r r'
      × IsHeap r' l
      × Owned r' l i 5
      × KeepsOutside i 32 r l r' l
unfolding mark_compound_page
join_lem r l i heap own al =
    let last = own (i + 31) (omega arith) (omega arith) in
    let first = own i (omega arith) (omega arith) in
    let (info, run, marks, agree) =
      mark_loop_lem 31 r (i + 1) 5 (omega (arith, last.block.fits)) (omega arith) in
    let block : IsBlock info r.page_count i 5 = record {
      aligned = al;
      fits = omega (arith, last.block.fits);
      rest = λ j hp hj.
          subst (λ x. InfoAt info x (compound 5)) (omega arith) (marks (j - 1) (omega arith));
    } in
    let says : InfoAt info i first.head = ap from_mem (agree i (ground arith)) ∙ first.says in
    let r' = record r { page_info = info } in
    let same : SameRegion r r' = record { count = refl; virt = refl; phys = refl } in
    (
      r',
      run,
      same,
      IsHeap-keep r l info heap
          (Decodes-Agree r.page_info info r.page_count (i + 1) 31 heap.decodes agree
            (λ j h. (compound 5, marks j h)))
          (λ o x j ho hx hj. agree (x + j) (outside o x j ho hx hj)),
      record {
        block = block;
        head = first.head;
        says = says;
        is_head = first.is_head;
        unlisted = first.unlisted;
      },
      λ q h own2.
          (own-same r r' l l q 0 own2 same (λ j hj. agree (q + j) (ground arith)) own2.unlisted).0,
    )
  where
    outside :
        (o x j : ℕ)
        → o < 6
        → has x (l o) ≡ true
        → j < 2 ^ o
        → (leb (i + 1) (x + j) && ltb (x + j) (i + 1 + 31)) ≡ false
    outside o x j ho hx hj = elim (Bool-cases (leb (i + 1) (x + j) && ltb (x + j) (i + 1 + 31))) [
      | inr e ↦ e
      | inl e ↦ absurd (
          ground (
            arith,
            listed_apart r l (x + j) 0 heap (own (x + j) (ground arith) (ground arith)) o x j ho hx
                hj,
          ))
    ]

pub free_blocks_lem :
    (n : ℕ) (r : HeapMemoryRegion) (l : Lists) (i : ℕ)
    → IsHeap r l
    → OwnedPages r l i (32 * n)
    → i % 32 ≡ 0
    → (r' : HeapMemoryRegion) × (l' : Lists) × (free_blocks n r i ≡ done r')
      × SameRegion r r'
      × IsHeap r' l'
      × (total l' ≡ total l + 32 * n)
      × KeepsOutside i (32 * n) r l r' l'
unfolding free_blocks
free_blocks_lem zero r l i heap own al = (
  r,
  l,
  refl,
  record { count = refl; virt = refl; phys = refl },
  heap,
  omega arith,
  λ q h own. own,
)
free_blocks_lem (suc n) r l i heap own al =
    let (r1, run1, same1, heap1, own1, keeps1) =
      join_lem r l i heap (λ q lo hi. own q lo (omega arith)) al in
    let (r2, run2, same2, heap2, agree2) = free_page_raw_lem r1 l i 5 heap1 own1 (omega arith) in
    let l2 = with_list l 5 (i ∷ l 5) in
    let keeps2 : KeepsBut i r1 l r2 l2 =
      keeps-inside r1 r2 l l2 i 5 own1 same2 (λ q h. agree2 q (ground arith))
        (λ q ne apart none_listed o' ho'.
          unlisted-with_list l 5 (i ∷ l 5) q (not_listed q (l 5) ne (none_listed 5 (omega arith)))
            o' (none_listed o' ho')) in
    let (r3, l3, run3, same3, heap3, sum3, keeps3) =
      free_blocks_lem n r2 l2 (i + 32) heap2
        (λ q lo hi.
          (keeps2 q 0 (ground arith)
            (keeps1 q (ground arith) (own q (omega arith) (omega arith)))).0)
        (omega arith) in
    (
      r3,
      l3,
      rw (run1, run2) run3,
      record {
        count = same3.count ∙ same2.count ∙ same1.count;
        virt = same3.virt ∙ same2.virt ∙ same1.virt;
        phys = same3.phys ∙ same2.phys ∙ same1.phys;
      },
      heap3,
      omega (arith, total-with_list l 5 (i ∷ l 5) (omega arith)),
      λ q h own2.
          keeps3 q (ground arith) (keeps2 q 0 (ground arith) (keeps1 q (ground arith) own2)).0,
    )
  where
    not_listed : (q : ℕ) (xs : List ℕ) → q ≢ i → has q xs ≡ false → has q (i ∷ xs) ≡ false
    not_listed q xs ne h = ground arith

-- Every page is written.
pub write_all_lem :
    (n : ℕ) (r : HeapMemoryRegion) (i : ℕ) (pg : PageInfo)
    → i + n ≤ r.page_count
    → IsStorable pg
    → (info : ℕ → ℕ) × (write_all n r i pg ≡ done (record r { page_info = info }))
      × ((q : ℕ) → i ≤ q → q < i + n → InfoAt info q pg)
      × Agree r.page_info info i n
unfolding write_all
write_all_lem zero r i pg fits s = (r.page_info, refl, λ q lo hi. absurd (omega arith), λ q h. refl)
write_all_lem (suc n) r i pg fits s =
    let (info, run, says, agree) =
      write_all_lem n (record r { page_info = put r.page_info i (to_mem pg) }) (i + 1) pg
        (omega arith) s in
    (
      info,
      rw (write_page_info_lem r i pg (omega arith)) run,
      λ q lo hi. elim (Bool-cases (i == q)) [
        | inl e ↦
            subst (λ q. InfoAt info q pg) (==→≡ i q e)
              (ap from_mem (agree i (ground arith)) ∙ put_self r.page_info i pg s)
        | inr e ↦ says q (ground arith) (omega arith)
      ],
      λ q h. agree q (ground arith) ∙ ground arith,
    )
