-- ===== src/PageAlloc/Refilling.antt =====
-- `refill_page_list` of mm/alloc.rs: larger blocks are split until there is one of the order wanted.
use svsm.Base.{
  ℕ, zero, suc, ◌+◌, ◌-◌, ◌*◌, ◌^◌, ◌≤◌, ◌<◌, ◌≡◌, ◌≢◌, refl, ◌∙◌, ap, subst, inl, inr, ◌⊎◌, true,
  false, ◌==◌, ◌&&◌, ltb, leb, none, some, List, [], ◌∷◌, length, get_elem?, done, Bool-cases,
  arith, ==→≡, get_elem?-eq-get_or,
}
use native.Mathlib.Nat.{pow-suc, suc-mul}
use svsm.PageAlloc.{no_page}
use svsm.PageAlloc.Region.{HeapMemoryRegion, ok, err, out_of_memory}
use svsm.PageAlloc.Take.{split_halves, split_page, find_order, split_down, refill_page_list}
use svsm.PageAlloc.Lists.{Lists, IsHeap, Owned, with_list, has}
use svsm.PageAlloc.Heap.{with_list_self}
use svsm.PageAlloc.Taking.{SameRegion, get_next_page_lem}
use svsm.PageAlloc.Splitting.{split_halves_lem}
use svsm.PageAlloc.Keeping.{Keeps, own-same, unlisted-with_list}
use svsm.PageAlloc.Total.{total, total-with_list}
use svsm.PageAlloc.Orders.{NonEmpty, head-cases, find_order_lem}

split_page_lem :
    (r : HeapMemoryRegion) (p n k : ℕ) → k ≡ suc n → n < 5 → split_page r p k ≡ split_halves r p n
unfolding split_page
split_page_lem r p n k e h = rw (in_range, one_less) refl
  where
    in_range : (leb 1 k && ltb k 6) ≡ true
    in_range = ground arith

    one_less : k - 1 ≡ n
    one_less = omega arith

split-total :
    (l : Lists) (k n x y : ℕ) (ys : List ℕ)
    → k ≡ suc n
    → k < 6
    → l k ≡ x ∷ ys
    → total (with_list (with_list l k ys) n (x ∷ y ∷ with_list l k ys n)) ≡ total l
split-total l k n x y ys e h at =
    sums (with_list l k ys) (length (l k)) (2 ^ k) (2 ^ n) (ap length at)
      (ap (λ j. 2 ^ j) e ∙ omega (arith, pow-suc 2 n)) (total-with_list l k ys h)
      (total-with_list (with_list l k ys) n (x ∷ y ∷ with_list l k ys n) (omega arith))
  where
    sums :
        (l1 : Lists) (all big half : ℕ)
        → all ≡ suc (length ys)
        → big ≡ 2 * half
        → total l1 + all * big ≡ total l + length ys * big
        → total (with_list l1 n (x ∷ y ∷ l1 n)) + length (l1 n) * half
          ≡ total l1 + suc (suc (length (l1 n))) * half
        → total (with_list l1 n (x ∷ y ∷ l1 n)) ≡ total l
    sums l1 all big half e d h h1 = omega (
      arith,
      ap (λ a. a * big) e ∙ suc-mul (length ys) big,
      suc-mul (suc (length (l1 n))) half,
      suc-mul (length (l1 n)) half,
    )

-- Taking a block off its list keeps what is owned, which that block is not.
pub taken-keeps :
    (r r' : HeapMemoryRegion) (l : Lists) (o x : ℕ) (xs : List ℕ)
    → o < 6
    → l o ≡ x ∷ xs
    → SameRegion r r'
    → r'.page_info ≡ r.page_info
    → (q o' : ℕ) → Owned r l q o'
    → (q ≢ x) × Owned r' (with_list l o xs) q o' × (r'.page_info q ≡ r.page_info q)
taken-keeps r r' l o x xs ho e same info q o' own =
    let out : has q (x ∷ xs) ≡ false = subst (λ ys. has q ys ≡ false) e (own.unlisted o ho) in
    let (kept, at) =
      own-same r r' l (with_list l o xs) q o' own same (λ i h. ap (λ f. f (q + i)) info)
        (λ o2 h. unlisted-with_list l o xs q (ground arith) o2 (own.unlisted o2 h)) in
    (ground arith, kept, at)

-- Splitting from order `o + left` down leaves a block on list `o`, and loses no page.
split_down_lem :
    (left : ℕ) (r : HeapMemoryRegion) (l : Lists) (o : ℕ)
    → IsHeap r l
    → o + left < 6
    → NonEmpty (l (o + left))
    → (r' : HeapMemoryRegion) × (l' : Lists) × (split_down left r o ≡ done (r', ok tt))
      × SameRegion r r'
      × IsHeap r' l'
      × NonEmpty (l' o)
      × (total l' ≡ total l)
      × Keeps r l r' l'
unfolding split_down
split_down_lem zero r l o heap h more = (
  r,
  l,
  refl,
  record { count = refl; virt = refl; phys = refl },
  heap,
  subst (λ k. NonEmpty (l k)) (omega arith) more,
  refl,
  λ q o' own. (own, refl),
)
split_down_lem (suc left) r l o heap h (x, ys, e) =
    let k = o + suc left in
    let n = o + left in
    let (r1, run1, same1, heap1, own1, info1) = get_next_page_lem r l k x ys heap h e in
    let l1 = with_list l k ys in
    let (r2, run2, same2, heap2, keeps2) =
      split_halves_lem r1 l1 x n heap1 (subst (λ j. Owned r1 l1 x j) (omega arith) own1)
        (omega arith) in
    let xs2 = x ∷ (x + 2 ^ n) ∷ l1 n in
    let l2 = with_list l1 n xs2 in
    let (r3, l3, run3, same3, heap3, more3, sum3, keeps3) =
      split_down_lem left r2 l2 o heap2 (omega arith)
        (x, (x + 2 ^ n) ∷ l1 n, with_list_self l1 n xs2) in
    (
      r3,
      l3,
      rw (run1, split_page_lem r1 x n k (omega arith) (omega arith) ∙ run2) run3,
      record {
        count = same3.count ∙ same2.count ∙ same1.count;
        virt = same3.virt ∙ same2.virt ∙ same1.virt;
        phys = same3.phys ∙ same2.phys ∙ same1.phys;
      },
      heap3,
      more3,
      sum3 ∙ split-total l k n x (x + 2 ^ n) ys (omega arith) h e,
      λ q o' own.
          let (ne, own_1, at_1) = taken-keeps r r1 l k x ys h e same1 info1 q o' own in
          let (own_2, at_2) = keeps2 q o' ne own_1 in
          let (own_3, at_3) = keeps3 q o' own_2 in (own_3, at_3 ∙ at_2 ∙ at_1),
    )

refill-stop :
    (r : HeapMemoryRegion) (o pfn : ℕ)
    → get_elem? r.next_page o ≡ some pfn
    → (pfn == no_page) ≡ false
    → refill_page_list r o ≡ done (r, ok tt)
unfolding refill_page_list
refill-stop r o pfn h e = ground arith

refill-none :
    (r : HeapMemoryRegion) (o pfn : ℕ)
    → get_elem? r.next_page o ≡ some pfn
    → (pfn == no_page) ≡ true
    → find_order r.next_page (6 - (o + 1)) (o + 1) ≡ none
    → refill_page_list r o ≡ done (r, err out_of_memory)
unfolding refill_page_list
refill-none r o pfn h e found = ground arith

refill-some :
    (r : HeapMemoryRegion) (o pfn k : ℕ)
    → get_elem? r.next_page o ≡ some pfn
    → (pfn == no_page) ≡ true
    → find_order r.next_page (6 - (o + 1)) (o + 1) ≡ some k
    → refill_page_list r o ≡ split_down (k - o) r o
unfolding refill_page_list
refill-some r o pfn k h e found = ground arith

-- Refilling the list of an order below 6 either splits until that list has a block and the lists have
-- the same number of pages, or fails, with the region as it was, as all lists from that order on are
-- empty.
pub refill_page_list_lem :
    (r : HeapMemoryRegion) (l : Lists) (o : ℕ)
    → IsHeap r l
    → o < 6
    → ((refill_page_list r o ≡ done (r, err out_of_memory)) × ((k : ℕ) → o ≤ k → k < 6 → l k ≡ []))
      ⊎ ((r' : HeapMemoryRegion) × (l' : Lists) × (refill_page_list r o ≡ done (r', ok tt))
          × SameRegion r r'
          × IsHeap r' l'
          × NonEmpty (l' o)
          × (total l' ≡ total l)
          × Keeps r l r' l')
refill_page_list_lem r l o heap ho =
    let here = get_elem?-eq-get_or r.next_page o 0 (omega (arith, heap.next_orders)) in
    elim (head-cases r l o heap ho) [
      | inr (test, more) ↦ inr (
        r,
        l,
        refill-stop r o _ here test,
        record { count = refl; virt = refl; phys = refl },
        heap,
        more,
        refl,
        λ q o' own. (own, refl),
      )
      | inl (test, empty) ↦ elim (find_order_lem r l (6 - (o + 1)) (o + 1) heap (omega arith)) [
        | inl (none_free, all) ↦ inl (
          refill-none r o _ here test none_free,
          λ k p q. elim (Bool-cases (o == k)) [
            | inl same ↦ subst (λ k. l k ≡ []) (==→≡ o k same) empty
            | inr ne ↦ all k (ground arith) (omega arith)
          ],
        )
        | inr (k, found, lo, hi, more) ↦
            let (r', l', runs, same, heap', more', sum, keeps) =
              split_down_lem (k - o) r l o heap (omega arith)
                (subst (λ j. NonEmpty (l j)) (omega arith) more) in
            inr (r', l', refill-some r o _ k here test found ∙ runs, same, heap', more', sum, keeps)
      ]
    ]
