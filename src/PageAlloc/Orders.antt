-- ===== src/PageAlloc/Orders.antt =====
-- The search of `refill_page_list` of mm/alloc.rs for the first order that has a free block.
use svsm.Base.{
  ℕ, zero, suc, ◌+◌, ◌≤◌, ◌<◌, ◌≡◌, refl, ◌∙◌, subst, inl, inr, ◌⊎◌, true, false, ◌==◌, none, some,
  List, [], ◌∷◌, length, get_or, Bool-cases, arith, ==→≡, ≡→==, get_elem?-eq-get_or,
}
use native.Mathlib.Nat.{one-le-pow}
use svsm.PageAlloc.{no_page}
use svsm.PageAlloc.Region.{HeapMemoryRegion}
use svsm.PageAlloc.Take.{find_order}
use svsm.PageAlloc.Lists.{Chain, Lists, IsHeap}

abbrev pub NonEmpty : List ℕ → Type 0
NonEmpty xs = (x : ℕ) × (ys : List ℕ) × (xs ≡ x ∷ ys)

-- A list's head says whether it is empty.
pub head-cases :
    (r : HeapMemoryRegion) (l : Lists) (o : ℕ)
    → IsHeap r l
    → o < 6
    → (((get_or r.next_page o 0 == no_page) ≡ true) × (l o ≡ []))
      ⊎ (((get_or r.next_page o 0 == no_page) ≡ false) × NonEmpty (l o))
head-cases r l o heap ho = go (l o) refl (heap.chains o ho)
  where
    go :
        (xs : List ℕ)
        → l o ≡ xs
        → Chain r.page_info r.page_count o (get_or r.next_page o 0) xs
        → (((get_or r.next_page o 0 == no_page) ≡ true) × (l o ≡ []))
          ⊎ (((get_or r.next_page o 0 == no_page) ≡ false)
              × ((x : ℕ) × (ys : List ℕ) × (l o ≡ x ∷ ys)))
    go [] e c = inl (≡→== _ _ c, e)
    go (x ∷ xs) e (head, block, out, more) =
        inr (ground (arith, head, block.fits, heap.small, one-le-pow o 2 (omega arith)), (x, xs, e))

find-skip :
    (next_page : List ℕ) (left o : ℕ)
    → o < length next_page
    → (get_or next_page o 0 == no_page) ≡ true
    → find_order next_page (suc left) o ≡ find_order next_page left (o + 1)
unfolding find_order
find-skip next_page left o h e = ground (arith, get_elem?-eq-get_or next_page o 0 h)

find-stop :
    (next_page : List ℕ) (left o : ℕ)
    → o < length next_page
    → (get_or next_page o 0 == no_page) ≡ false
    → find_order next_page (suc left) o ≡ some o
unfolding find_order
find-stop next_page left o h e = ground (arith, get_elem?-eq-get_or next_page o 0 h)

-- The first order with a free block, or that there is none.
pub find_order_lem :
    (r : HeapMemoryRegion) (l : Lists) (left o : ℕ)
    → IsHeap r l
    → o + left ≤ 6
    → ((find_order r.next_page left o ≡ none) × ((k : ℕ) → o ≤ k → k < o + left → l k ≡ []))
      ⊎ ((k : ℕ) × (find_order r.next_page left o ≡ some k)
          × (o ≤ k)
          × (k < o + left)
          × NonEmpty (l k))
unfolding find_order
find_order_lem r l zero o heap h = inl (refl, λ k p q. absurd (omega arith))
find_order_lem r l (suc left) o heap h = elim (head-cases r l o heap (omega arith)) [
  | inl (test, empty) ↦ elim (find_order_lem r l left (o + 1) heap (omega arith)) [
    | inl (e, all) ↦ inl (
      find-skip r.next_page left o (omega (arith, heap.next_orders)) test ∙ e,
      λ k p q. elim (Bool-cases (o == k)) [
        | inl same ↦ subst (λ k. l k ≡ []) (==→≡ o k same) empty
        | inr ne ↦ all k (ground arith) (omega arith)
      ],
    )
    | inr (k, e, lo, hi, more) ↦ inr (
      k,
      find-skip r.next_page left o (omega (arith, heap.next_orders)) test ∙ e,
      omega arith,
      omega arith,
      more,
    )
  ]
  | inr (test, more) ↦ inr (
    o,
    find-stop r.next_page left o (omega (arith, heap.next_orders)) test,
    omega arith,
    omega arith,
    more,
  )
]
