-- ===== src/PageAlloc/Neighbours.antt =====
-- `try_to_merge_page` of mm/alloc.rs: a block is merged with its neighbour if that is free and of the
-- same order.
use svsm.Base.{
  ℕ, suc, ◌+◌, ◌*◌, ◌^◌, ◌<◌, ◌≡◌, ◌≢◌, refl, sym, ◌∙◌, ap, subst, inl, inr, ◌⊎◌, Bool, true, false,
  ◌==◌, leb, Option, none, some, length, done, Bool-cases, arith, ==→≡, ==→≢,
}
use native.Mathlib.Nat.{suc-mul}
use svsm.PageAlloc.{PageInfo, from_mem}
use svsm.PageAlloc.Region.{
  HeapMemoryRegion, AllocError, invalid_pfn, invalid_page_order, out_of_memory, ok, err, as_free,
  read_page_info, ◌>>?◌,
}
use svsm.PageAlloc.Give.{
  compound_neighbor, merge_pages, merge_free, try_merge_with, try_to_merge_page, free_loop,
  free_page_raw, allocate_pfn,
}
use svsm.PageAlloc.Lists.{Lists, IsHeap, Owned, has, with_list}
use svsm.PageAlloc.Frame.{read_page_info_lem}
use svsm.PageAlloc.Heap.{with_list_self, with_list-ne, Owned-inside}
use svsm.PageAlloc.Taking.{SameRegion}
use svsm.PageAlloc.Total.{total, total-with_list}
use svsm.PageAlloc.Unlinking.{remove, has-remove, length-remove}
use svsm.PageAlloc.Choosing.{allocate_pfn_lem, allocate_pfn-missing}
use svsm.PageAlloc.Merging.{Halves, merge_pages_lem, compound_neighbor_lem, compound_neighbor-high}

-- A block stays owned while other blocks leave a list.
own-kept :
    (r r' : HeapMemoryRegion) (l : Lists) (p q o o' : ℕ)
    → IsHeap r l
    → Owned r l p o
    → SameRegion r r'
    → o' < 6
    → ((y : ℕ) → has y (l o') ≡ false → r'.page_info y ≡ r.page_info y)
    → Owned r' (with_list l o' (remove q (l o'))) p o
own-kept r r' l p q o o' heap own same ho' kept = record {
  block = record {
    aligned = own.block.aligned;
    fits = omega (arith, own.block.fits, same.count);
    rest = λ i hp hi.
        ap from_mem (kept (p + i) (Owned-inside r l p o o' i heap own ho' hi))
        ∙ own.block.rest i hp hi;
  };
  head = own.head;
  says = ap from_mem (kept p (own.unlisted o' ho')) ∙ own.says;
  is_head = own.is_head;
  unlisted = unlisted;
}
  where
    unlisted : (o2 : ℕ) → o2 < 6 → has p (with_list l o' (remove q (l o')) o2) ≡ false
    unlisted o2 h = elim (Bool-cases (o' == o2)) [
      | inl e ↦
          subst (λ o2. has p (with_list l o' (remove q (l o')) o2) ≡ false) (==→≡ o' o2 e)
            (rw (with_list_self l o' (remove q (l o')))
              (has-remove q p (l o') (own.unlisted o' ho')))
      | inr e ↦ rw (with_list-ne l o' o2 (remove q (l o')) (==→≢ o' o2 e)) (own.unlisted o2 h)
    ]

-- A merger: the neighbour leaves its list, and the caller owns both.
abbrev Merged : HeapMemoryRegion → Lists → ℕ → ℕ → Type 0
Merged r l p o =
    (r' : HeapMemoryRegion) × (l' : Lists) × (m : ℕ) × (try_to_merge_page r p o ≡ done (r', ok m))
    × SameRegion r r'
    × IsHeap r' l'
    × Owned r' l' m (suc o)
    × (total l' + 2 ^ o ≡ total l)
    × (o < 5)
    × ((x o' : ℕ)
        → x ≢ p
        → Owned r l x o'
        → (x ≢ m) × Owned r' l' x o' × (r'.page_info x ≡ r.page_info x))

abbrev Unmerged : HeapMemoryRegion → ℕ → ℕ → Type 0
Unmerged r p o = (e : AllocError) × (try_to_merge_page r p o ≡ done (r, err e))

try-fails :
    (r : HeapMemoryRegion) (p o : ℕ) (e : AllocError)
    → compound_neighbor r p o ≡ done (err e)
    → try_to_merge_page r p o ≡ done (r, err e)
unfolding try_to_merge_page try_merge_with
try-fails r p o e h = rw h refl

-- What is owned is no block of a list.
listed_ne :
    (r : HeapMemoryRegion) (l : Lists) (x q o o' : ℕ)
    → Owned r l x o'
    → o < 6
    → has q (l o) ≡ true
    → x ≢ q
listed_ne r l x q o o' own ho listed e =
    clash (sym listed ∙ subst (λ z. has z (l o) ≡ false) e (own.unlisted o ho))
  where
    clash : ◌≡◌ {A = Bool} true false → ⊥
    clash h = ground arith

-- The way to a free neighbour of the same order.
try-step :
    (r : HeapMemoryRegion) (p q o : ℕ) (pi : PageInfo)
    → compound_neighbor r p o ≡ done (ok q)
    → read_page_info r q ≡ done pi
    → try_to_merge_page r p o ≡ merge_free r p q o (as_free pi)
unfolding try_to_merge_page try_merge_with
try-step r p q o pi h h2 = rw (h, h2) refl

merge_step :
    (r : HeapMemoryRegion) (p q o next other : ℕ)
    → (other == o) ≡ true
    → merge_free r p q o (some (next, other)) ≡ (allocate_pfn r q o >>? λ u r. merge_pages r p q o)
unfolding merge_free
merge_step r p q o next other e = rw e refl

merge-other :
    (r : HeapMemoryRegion) (p q o next other : ℕ)
    → (other == o) ≡ false
    → merge_free r p q o (some (next, other)) ≡ done (r, err (invalid_page_order other))
unfolding merge_free
merge-other r p q o next other e = rw e refl

merge-none :
    (r : HeapMemoryRegion) (p q o : ℕ) → merge_free r p q o none ≡ done (r, err (invalid_pfn q))
unfolding merge_free
merge-none r p q o = refl

merge_with :
    (r : HeapMemoryRegion) (l : Lists) (p q o : ℕ) (fi : Option (ℕ × ℕ))
    → IsHeap r l
    → Owned r l p o
    → Halves p q o
    → o < 5
    → try_to_merge_page r p o ≡ merge_free r p q o fi
    → Unmerged r p o ⊎ Merged r l p o
merge_with r l p q o none heap own halves ho step = inl (invalid_pfn q, step ∙ merge-none r p q o)
merge_with r l p q o (some (next, other)) heap own halves ho step = elim (Bool-cases (other == o)) [
  | inr e ↦ inl (invalid_page_order other, step ∙ merge-other r p q o next other e)
  | inl e ↦ elim (Bool-cases (has q (l o))) [
    | inr missing ↦ inl (
      out_of_memory,
      step
          ∙ merge_step r p q o next other e
          ∙ rw (allocate_pfn-missing r l q o heap (omega arith) missing) refl,
    )
    | inl listed ↦
        let (r1, run1, same1, heap1, own1, kept) =
          allocate_pfn_lem r l q o heap (omega arith) listed in
        let l1 = with_list l o (remove q (l o)) in
        let (r2, m, run2, same2, heap2, own2, which, keeps2) =
          merge_pages_lem r1 l1 p q o heap1
            (own-kept r r1 l p q o o heap own same1 (omega arith) kept) own1 halves ho in
        inr (
          r2,
          l1,
          m,
          step ∙ merge_step r p q o next other e ∙ rw (run1, run2) refl,
          record {
            count = same2.count ∙ same1.count;
            virt = same2.virt ∙ same1.virt;
            phys = same2.phys ∙ same1.phys;
          },
          heap2,
          own2,
          omega (
            arith,
            total-with_list l o (remove q (l o)) (omega arith),
            ap (λ n. n * 2 ^ o) (length-remove q (l o) listed),
            suc-mul (length (remove q (l o))) (2 ^ o),
          ),
          ho,
          λ x o' ne own3.
              let ne2 : x ≢ q = listed_ne r l x q o o' own3 (omega arith) listed in
              let own_1 = own-kept r r1 l x q o' o heap own3 same1 (omega arith) kept in
              let (own_2, at_2) = keeps2 x o' ne ne2 own_1 in
              (
                elim which [ inl e ↦ ground arith | inr e ↦ ground arith ],
                own_2,
                at_2 ∙ kept x (own3.unlisted o (omega arith)),
              ),
        )
  ]
]

-- An owned block is merged with its neighbour, or nothing changes.
pub try_to_merge_page_lem :
    (r : HeapMemoryRegion) (l : Lists) (p o : ℕ)
    → IsHeap r l
    → Owned r l p o
    → o < 6
    → Unmerged r p o ⊎ Merged r l p o
try_to_merge_page_lem r l p o heap own ho = elim (Bool-cases (leb 5 o)) [
  | inl e ↦
      inl (invalid_page_order o, try-fails r p o _ (compound_neighbor-high r p o (ground arith)))
  | inr e ↦ elim (compound_neighbor_lem r p o own.block.aligned (ground arith)) [
    | inl (why, fails) ↦ inl (why, try-fails r p o why fails)
    | inr (q, found, halves, inside) ↦
        let (pi, says) = heap.decodes q inside in
        merge_with r l p q o (as_free pi) heap own halves (ground arith)
          (try-step r p q o pi found (read_page_info_lem r q pi inside says))
  ]
]

pub loop-ends :
    (fuel : ℕ) (r : HeapMemoryRegion) (p o : ℕ) (e : AllocError)
    → try_to_merge_page r p o ≡ done (r, err e)
    → free_loop (suc fuel) r p o ≡ free_page_raw r p o
unfolding free_loop
loop-ends fuel r p o e h = rw h refl

pub loop-on :
    (fuel : ℕ) (r r' : HeapMemoryRegion) (p o m : ℕ)
    → try_to_merge_page r p o ≡ done (r', ok m)
    → free_loop (suc fuel) r p o ≡ free_loop fuel r' m (suc o)
unfolding free_loop
loop-on fuel r r' p o m h = rw h (ap (free_loop fuel r' m) (omega arith))
