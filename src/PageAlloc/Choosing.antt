-- ===== src/PageAlloc/Choosing.antt =====
-- `allocate_pfn` of mm/alloc.rs: a given block is taken off its list, wherever it stands on it.
use svsm.Base.{
  ℕ, zero, suc, ◌+◌, ◌-◌, ◌*◌, ◌/◌, ◌%◌, ◌^◌, ◌≤◌, ◌<◌, ◌≡◌, ◌≢◌, refl, sym, ◌∙◌, ap, subst, inl,
  inr, ◌⊎◌, Bool, true, false, ◌==◌, not, ◌&&◌, ◌||◌, ltb, leb, if◌then◌else◌, Option, none, some,
  List, [], ◌∷◌, length, get_or, get_elem?, Run, done, panic, Bool-cases, arith, tests, ==→≡, ==→≢,
  ≡→==, ◌>>=◌, ◌>>◌, unwrap, assert, length-set, get_or-set_self, get_or-set_ne,
  get_elem?-eq-get_or,
}
use svsm.Base
use native.Mathlib.Nat.{one-le-pow}
use svsm.Util.{sub_usize}
use svsm.PageAlloc.{no_page, allocated}
use svsm.PageAlloc.Region.{HeapMemoryRegion, ok, err, out_of_memory}
use svsm.PageAlloc.Give.{allocate_pfn}
use svsm.PageAlloc.Lists.{Chain, Lists, IsHeap, Owned, with_list, has, Chain-frame}
use svsm.PageAlloc.Taking.{index_lem}
use svsm.PageAlloc.Unlinking.{remove, length-remove, one_less}
use svsm.PageAlloc.Walking.{walk_found, walk_missing}
use svsm.PageAlloc.Heap.{IsHeap-write, with_list_self, with_list-ne}
use svsm.PageAlloc.Taking.{SameRegion, get_next_page_lem}
use svsm.PageAlloc.Distinct.{Chain-Distinct, has-remove_self, Chain-length, one_list}

-- A listed block once taken: it is owned, and only words of blocks of its list have changed.
abbrev pub Chosen : HeapMemoryRegion → Lists → ℕ → ℕ → Type 0
Chosen r l q o =
    (r' : HeapMemoryRegion) × (allocate_pfn r q o ≡ done (r', ok tt))
    × SameRegion r r'
    × IsHeap r' (with_list l o (remove q (l o)))
    × Owned r' (with_list l o (remove q (l o))) q o
    × ((y : ℕ) → has y (l o) ≡ false → r'.page_info y ≡ r.page_info y)

-- The block is the first,
choose_first :
    (r : HeapMemoryRegion) (l : Lists) (q o : ℕ) (xs : List ℕ)
    → IsHeap r l
    → o < 6
    → l o ≡ q ∷ xs
    → Chosen r l q o
unfolding allocate_pfn
choose_first r l q o xs heap ho e =
    let (r', run, same, heap', own, info) = get_next_page_lem r l o q xs heap ho e in
    let (head, block, out, rest) =
      subst (Chain r.page_info r.page_count o (get_or r.next_page o 0)) e (heap.chains o ho) in
    let some_page : (q == no_page) ≡ false =
      ground (arith, block.fits, heap.small, one-le-pow o 2 (omega arith)) in
    let same_list : xs ≡ remove q (l o) = sym (ap (remove q) e ∙ removed) in
    (
      r',
      rw (index_lem r.next_page o (omega (arith, heap.next_orders)), head, some_page, self, run)
          refl,
      same,
      subst (λ ys. IsHeap r' (with_list l o ys)) same_list heap',
      subst (λ ys. Owned r' (with_list l o ys) q o) same_list own,
      λ y h. ap (λ f. f y) info,
    )
  where
    self : (q == q) ≡ true
    self = ground arith

    removed : remove q (q ∷ xs) ≡ xs
    removed = ground arith

-- A block that was taken off its list is on none.
remove-unlisted :
    (r : HeapMemoryRegion) (l : Lists) (q o : ℕ)
    → IsHeap r l
    → o < 6
    → has q (l o) ≡ true
    → (o' : ℕ) → o' < 6
    → has q (with_list l o (remove q (l o)) o') ≡ false
remove-unlisted r l q o heap ho hq o' ho' = elim (Bool-cases (o == o')) [
  | inl e ↦
      subst (λ o'. has q (with_list l o (remove q (l o)) o') ≡ false) (==→≡ o o' e)
        (rw (with_list_self l o (remove q (l o))) (
          has-remove_self q (l o) (
            Chain-Distinct r.page_info r.page_count o (get_or r.next_page o 0) (l o)
              (heap.chains o ho))))
  | inr e ↦
      rw (with_list-ne l o o' (remove q (l o)) (==→≢ o o' e)) (elim (Bool-cases (has q (l o'))) [
        | inr f ↦ f
        | inl t ↦ absurd (
            clash (
              subst (λ z. has z (l o) ≡ false) (omega arith)
                (one_list r l o o' q 0 heap ho ho' (==→≢ o o' e) t
                  (one-le-pow o' 2 (omega arith)))))
      ])
]
  where
    clash : has q (l o) ≡ false → ⊥
    clash h = ground arith

set-get_or : (xs : List ℕ) (i d : ℕ) → Base.set xs i (get_or xs i d) ≡ xs
set-get_or [] i d = refl
set-get_or (x ∷ xs) zero d = refl
set-get_or (x ∷ xs) (suc i) d = ap (λ ys. x ∷ ys) (set-get_or xs i d)

-- or it is behind the first.
choose_behind :
    (r : HeapMemoryRegion) (l : Lists) (q o x : ℕ) (xs : List ℕ)
    → IsHeap r l
    → o < 6
    → l o ≡ x ∷ xs
    → (x == q) ≡ false
    → has q xs ≡ true
    → Chosen r l q o
unfolding allocate_pfn
choose_behind r l q o x xs heap ho e ne hq =
    let (head, block, out, rest) =
      subst (Chain r.page_info r.page_count o (get_or r.next_page o 0)) e (heap.chains o ho) in
    let pos : 1 ≤ 2 ^ o = one-le-pow o 2 (omega arith) in
    let chain : Chain r.page_info r.page_count o x (x ∷ xs) = (refl, block, out, rest) in
    let some_page : (x == no_page) ≡ false = ground (arith, block.fits, heap.small) in
    let long = Chain-length r.page_info r.page_count o x (x ∷ xs) chain in
    let (info, run, un) =
      walk_found (suc r.page_count) r x q o xs heap.small ho heap.free_orders heap.decodes chain hq
        (omega arith) in
    let same_list : x ∷ remove q xs ≡ remove q (l o) = sym (ap (remove q) e ∙ kept) in
    let ys = x ∷ remove q xs in
    let count = sub_usize (get_or r.free_pages o 0) 1 in
    let listed : has q (l o) ≡ true = rw e (ground arith) in
    let heap' =
      IsHeap-write r l info o x count ys r.nr_pages heap ho heap.nr_orders un.decodes
        (λ o' ho' diff.
          Chain-frame r.page_info info r.page_count o' (get_or r.next_page o' 0) (l o')
            (heap.chains o' ho')
            (λ y i hy hi. un.agree (y + i) (
              subst (λ zs. has (y + i) zs ≡ false) e
                (one_list r l o o' y i heap ho ho' diff hy hi))))
        un.chain (omega (arith, heap.counted o ho, ap length e, length-remove q xs hq)) in
    let unmoved : Base.set r.next_page o x ≡ r.next_page =
      subst (λ n. Base.set r.next_page o n ≡ r.next_page) head (set-get_or r.next_page o 0) in
    let r' = record r { page_info = info; free_pages = one_less r o } in
    (
      r',
      rw (index_lem r.next_page o (omega (arith, heap.next_orders)), head, some_page, ne) run,
      record { count = refl; virt = refl; phys = refl },
      subst (λ zs. IsHeap r' (with_list l o zs)) same_list
          (subst (λ n. IsHeap (record r' { next_page = n }) (with_list l o ys)) unmoved heap'),
      record {
        block = un.block;
        head = allocated o;
        says = un.says;
        is_head = refl;
        unlisted = remove-unlisted r l q o heap ho listed;
      },
      λ y h. un.agree y (subst (λ zs. has y zs ≡ false) e h),
    )
  where
    kept : remove q (x ∷ xs) ≡ x ∷ remove q xs
    kept = ground arith

-- In a region that satisfies the invariant, asking for a block that is on the list of an order below
-- 6 returns, wherever on the list it stands: the block alone is taken off the list and is owned, the
-- invariant holds again, and only words of pages that are first in a block of that list are changed.
pub allocate_pfn_lem :
    (r : HeapMemoryRegion) (l : Lists) (q o : ℕ)
    → IsHeap r l
    → o < 6
    → has q (l o) ≡ true
    → Chosen r l q o
allocate_pfn_lem r l q o heap ho hq = go (l o) refl hq
  where
    go : (xs : List ℕ) → l o ≡ xs → has q xs ≡ true → Chosen r l q o
    go [] e h = absurd (ground arith)
    go (x ∷ xs) e h = elim (Bool-cases (x == q)) [
      | inl same ↦ choose_first r l q o xs heap ho (e ∙ ap (λ z. z ∷ xs) (==→≡ x q same))
      | inr ne ↦ choose_behind r l q o x xs heap ho e ne (ground arith)
    ]

-- Asking for any other block fails with `out_of_memory` and leaves the region as it was.
pub allocate_pfn-missing :
    (r : HeapMemoryRegion) (l : Lists) (q o : ℕ)
    → IsHeap r l
    → o < 6
    → has q (l o) ≡ false
    → allocate_pfn r q o ≡ done (r, err out_of_memory)
unfolding allocate_pfn
allocate_pfn-missing r l q o heap ho hq = go (l o) (heap.chains o ho) hq
  where
    go :
        (xs : List ℕ)
        → Chain r.page_info r.page_count o (get_or r.next_page o 0) xs
        → has q xs ≡ false
        → allocate_pfn r q o ≡ done (r, err out_of_memory)
    go [] head h = rw (index_lem r.next_page o (omega (arith, heap.next_orders)), head) refl
    go (x ∷ xs) (head, block, out, rest) h =
        let pos : 1 ≤ 2 ^ o = one-le-pow o 2 (omega arith) in
        let some_page : (x == no_page) ≡ false = ground (arith, block.fits, heap.small) in
        let chain : Chain r.page_info r.page_count o x (x ∷ xs) = (refl, block, out, rest) in
        let long = Chain-length r.page_info r.page_count o x (x ∷ xs) chain in
        let ne : (x == q) ≡ false = ground arith in
        rw (index_lem r.next_page o (omega (arith, heap.next_orders)), head, some_page, ne)
          (walk_missing (suc r.page_count) r x q o xs heap.small chain (ground arith) (omega arith))
