-- ===== src/PageAlloc/Freeing.antt =====
-- `free_page_order` and `free_page` of mm/alloc.rs: a block is merged with its neighbour as often as
-- that is free, and the result put on its list.
use svsm.Base.{
  ℕ, zero, suc, ◌+◌, ◌^◌, ◌≤◌, ◌<◌, ◌≡◌, ◌≢◌, ◌∙◌, inl, inr, false, List, ◌∷◌, length, done, arith,
}
use native.Mathlib.Nat.{one-le-pow, suc-mul, pow-suc}
use svsm.PageAlloc.Region.{HeapMemoryRegion}
use svsm.PageAlloc.Give.{free_loop, free_page_order}
use svsm.PageAlloc.Lists.{Lists, IsHeap, Owned, has, with_list}
use svsm.PageAlloc.Taking.{SameRegion}
use svsm.PageAlloc.Keeping.{KeepsBut, keeps-inside, unlisted-with_list}
use svsm.PageAlloc.Giving.{free_page_raw_lem}
use svsm.PageAlloc.Total.{total, total-with_list}
use svsm.PageAlloc.Neighbours.{try_to_merge_page_lem, loop-ends, loop-on}

-- The loop of mergers ends, and the block it ends with is on its list.
free_loop_lem :
    (fuel : ℕ) (r : HeapMemoryRegion) (l : Lists) (p o : ℕ)
    → IsHeap r l
    → Owned r l p o
    → o < 6
    → 6 ≤ fuel + o
    → (r' : HeapMemoryRegion) × (l' : Lists) × (free_loop fuel r p o ≡ done r')
      × SameRegion r r'
      × IsHeap r' l'
      × (total l' ≡ total l + 2 ^ o)
      × KeepsBut p r l r' l'
free_loop_lem zero r l p o heap own ho hf = absurd (omega arith)
free_loop_lem (suc fuel) r l p o heap own ho hf = elim (try_to_merge_page_lem r l p o heap own ho) [
  | inl (e, fails) ↦
      let (r', run, same, heap', agree) = free_page_raw_lem r l p o heap own ho in
      let pos : 1 ≤ 2 ^ o = one-le-pow o 2 (omega arith) in
      (
        r',
        with_list l o (p ∷ l o),
        loop-ends fuel r p o e fails ∙ run,
        same,
        heap',
        omega (arith, total-with_list l o (p ∷ l o) ho, suc-mul (length (l o)) (2 ^ o)),
        keeps-inside r r' l _ p o own same (λ q h. agree q (ground arith))
            (λ q ne apart none_listed o' ho'.
              unlisted-with_list l o (p ∷ l o) q (not_listed q (l o) ne (none_listed o ho)) o'
                (none_listed o' ho')),
      )
  | inr (r1, l1, m, merges, same1, heap1, own1, sum1, ho1, keeps1) ↦
      let (r', l', run, same, heap', sum, keeps) =
        free_loop_lem fuel r1 l1 m (suc o) heap1 own1 (omega arith) (omega arith) in
      (
        r',
        l',
        loop-on fuel r r1 p o m merges ∙ run,
        record {
          count = same.count ∙ same1.count;
          virt = same.virt ∙ same1.virt;
          phys = same.phys ∙ same1.phys;
        },
        heap',
        omega (arith, pow-suc 2 o),
        λ x o' ne own2.
            let (ne2, own_1, at_1) = keeps1 x o' ne own2 in
            let (own_2, at_2) = keeps x o' ne2 own_1 in (own_2, at_2 ∙ at_1),
      )
]
  where
    not_listed : (q : ℕ) (xs : List ℕ) → q ≢ p → has q xs ≡ false → has q (p ∷ xs) ≡ false
    not_listed q xs ne h = ground arith

-- Freeing an owned block of an order below 6, in a region that satisfies the invariant, returns: the
-- region satisfies the invariant again, its lists have the 2^order pages of the block more, and every
-- other owned block stays owned and keeps the word of its first page.
pub free_page_order_lem :
    (r : HeapMemoryRegion) (l : Lists) (p o : ℕ)
    → IsHeap r l
    → Owned r l p o
    → o < 6
    → (r' : HeapMemoryRegion) × (l' : Lists) × (free_page_order r p o ≡ done r')
      × SameRegion r r'
      × IsHeap r' l'
      × (total l' ≡ total l + 2 ^ o)
      × KeepsBut p r l r' l'
unfolding free_page_order
free_page_order_lem r l p o heap own ho = free_loop_lem 6 r l p o heap own ho (omega arith)
