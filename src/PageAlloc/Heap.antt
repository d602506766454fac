-- ===== src/PageAlloc/Heap.antt =====
-- The invariant of a heap region under the updates that the functions of mm/alloc.rs make: words
-- written inside a block that was taken, and a free list that gains or loses blocks.
use svsm.Base.{
  ℕ, zero, suc, ◌+◌, ◌-◌, ◌*◌, ◌/◌, ◌%◌, ◌^◌, ◌≤◌, ◌<◌, ◌≡◌, ◌≢◌, refl, sym, ◌∙◌, ap, subst, inl,
  inr, ◌⊎◌, Bool, true, false, ◌==◌, not, ◌&&◌, ◌||◌, ltb, leb, if◌then◌else◌, Option, none, some,
  List, [], ◌∷◌, length, get_or, get_elem?, Run, done, panic, Bool-cases, arith, tests, ==→≡, ==→≢,
  ≡→==, ◌>>=◌, ◌>>◌, unwrap, assert, length-set, get_or-set_self, get_or-set_ne,
  get_elem?-eq-get_or,
}
use svsm.Base
use native.Mathlib.Nat.{one-le-pow}
use svsm.PageAlloc.{no_page, free}
use svsm.PageAlloc.Region.{HeapMemoryRegion}
use svsm.PageAlloc.Lists.{
  Chain, Lists, IsHeap, Decodes, Owned, with_list, has, Chain-IsBlock, Chain-frame, blocks_apart,
}
use svsm.PageAlloc.Frame.{Agree}

-- Where a listed block and an owned one meet.
pub listed_apart :
    (r : HeapMemoryRegion) (l : Lists) (p o : ℕ)
    → IsHeap r l
    → Owned r l p o
    → (o' x i : ℕ) → o' < 6
    → has x (l o') ≡ true
    → i < 2 ^ o'
    → (leb p (x + i) && ltb (x + i) (p + 2 ^ o)) ≡ false
listed_apart r l p o heap own o' x i ho hx hi =
    elim (Bool-cases (leb p (x + i) && ltb (x + i) (p + 2 ^ o))) [
      | inr e ↦ e
      | inl e ↦
          let (block, (next, says)) =
            Chain-IsBlock r.page_info r.page_count o' (get_or r.next_page o' 0) (l o') x
              (heap.chains o' ho) hx in
          let same : p ≡ x =
            blocks_apart r.page_info r.page_count p o x o' own.head (free next o') own.block block
              own.says says own.is_head refl (x + i - p) i (ground arith) hi (ground arith) in
          absurd (clash (sym hx ∙ subst (λ y. has y (l o') ≡ false) same (own.unlisted o' ho)))
    ]
  where
    clash : ◌≡◌ {A = Bool} true false → ⊥
    clash e = ground arith

-- No page of an owned block is listed.
pub Owned-inside :
    (r : HeapMemoryRegion) (l : Lists) (p o o' j : ℕ)
    → IsHeap r l
    → Owned r l p o
    → o' < 6
    → j < 2 ^ o
    → has (p + j) (l o') ≡ false
Owned-inside r l p o o' j heap own ho hj = elim (Bool-cases (has (p + j) (l o'))) [
  | inr e ↦ e
  | inl e ↦ absurd (
      ground
        (arith, listed_apart r l p o heap own o' (p + j) 0 ho e (one-le-pow o' 2 (omega arith))))
]

-- Where a list that is not empty goes on.
pub Chain-start :
    (info : ℕ → ℕ) (count o p : ℕ) (xs : List ℕ)
    → Chain info count o p xs
    → (p ≡ no_page ⊎ p < count)
Chain-start info count o p [] c = inl c
Chain-start info count o p (x ∷ xs) (e, block, out, c) =
    inr (omega (arith, block.fits, one-le-pow o 2 (omega arith)))

-- Writes to pages of no listed block keep the invariant,
pub IsHeap-keep :
    (r : HeapMemoryRegion) (l : Lists) (info : ℕ → ℕ)
    → IsHeap r l
    → Decodes info r.page_count
    → ((o x i : ℕ) → o < 6 → has x (l o) ≡ true → i < 2 ^ o → info (x + i) ≡ r.page_info (x + i))
    → IsHeap (record r { page_info = info }) l
IsHeap-keep r l info heap decodes same = record {
  small = heap.small;
  nr_orders = heap.nr_orders;
  next_orders = heap.next_orders;
  free_orders = heap.free_orders;
  decodes = decodes;
  chains = λ o' ho.
      Chain-frame r.page_info info r.page_count o' (get_or r.next_page o' 0) (l o')
        (heap.chains o' ho) (λ x i hx hi. same o' x i ho hx hi);
  counted = heap.counted;
}

-- and so do writes inside an owned block,
pub IsHeap-frame :
    (r : HeapMemoryRegion) (l : Lists) (p o : ℕ) (info : ℕ → ℕ)
    → IsHeap r l
    → Owned r l p o
    → Decodes info r.page_count
    → Agree r.page_info info p (2 ^ o)
    → IsHeap (record r { page_info = info }) l
IsHeap-frame r l p o info heap own decodes agree =
    IsHeap-keep r l info heap decodes
      (λ o' x i ho hx hi. agree (x + i) (listed_apart r l p o heap own o' x i ho hx hi))

-- and the accounts of the pages that are in use or not.
pub IsHeap-nr :
    (r : HeapMemoryRegion) (l : Lists) (nr : List ℕ)
    → IsHeap r l
    → length nr ≡ 6
    → IsHeap (record r { nr_pages = nr }) l
IsHeap-nr r l nr heap hn = record {
  small = heap.small;
  nr_orders = hn;
  next_orders = heap.next_orders;
  free_orders = heap.free_orders;
  decodes = heap.decodes;
  chains = heap.chains;
  counted = heap.counted;
}

pub with_list_self : (l : Lists) (o : ℕ) (xs : List ℕ) → with_list l o xs o ≡ xs
with_list_self l o xs = ground arith

pub with_list-ne : (l : Lists) (o o' : ℕ) (xs : List ℕ) → o ≢ o' → with_list l o xs o' ≡ l o'
with_list-ne l o o' xs ne = ground arith

-- One list replaced by another that its first page leads through, in words that the others still
-- lead through.
pub IsHeap-write :
    (r : HeapMemoryRegion) (l : Lists) (info : ℕ → ℕ) (o next count : ℕ) (xs nr : List ℕ)
    → IsHeap r l
    → o < 6
    → length nr ≡ 6
    → Decodes info r.page_count
    → ((o' : ℕ) → o' < 6 → o ≢ o' → Chain info r.page_count o' (get_or r.next_page o' 0) (l o'))
    → Chain info r.page_count o next xs
    → count ≡ length xs % 2 ^ 64
    → IsHeap
        (record r {
          page_info = info;
          next_page = Base.set r.next_page o next;
          free_pages = Base.set r.free_pages o count;
          nr_pages = nr;
        })
        (with_list l o xs)
IsHeap-write r l info o next count xs nr heap ho hn decodes others chain counts = record {
  small = heap.small;
  nr_orders = hn;
  next_orders = length-set r.next_page o next ∙ heap.next_orders;
  free_orders = length-set r.free_pages o count ∙ heap.free_orders;
  decodes = decodes;
  chains = chains;
  counted = counted;
}
  where
    chains :
        (o' : ℕ)
        → o' < 6
        → Chain info r.page_count o'
            (get_or (Base.set r.next_page o next) o' 0)
            (with_list l o xs o')
    chains o' ho' = elim (Bool-cases (o == o')) [
      | inl e ↦
          subst
            (λ o'.
              Chain info r.page_count o' (get_or (Base.set r.next_page o next) o' 0)
                (with_list l o xs o'))
            (==→≡ o o' e)
            (rw
              (
                get_or-set_self r.next_page o next 0 (omega (arith, heap.next_orders)),
                with_list_self l o xs,
              )
              chain)
      | inr e ↦
          rw
            (
              get_or-set_ne r.next_page o o' next 0 (==→≢ o o' e),
              with_list-ne l o o' xs (==→≢ o o' e),
            )
            (others o' ho' (==→≢ o o' e))
    ]

    counted :
        (o' : ℕ)
        → o' < 6
        → get_or (Base.set r.free_pages o count) o' 0 ≡ length (with_list l o xs o') % 2 ^ 64
    counted o' ho' = elim (Bool-cases (o == o')) [
      | inl e ↦
          subst
            (λ o'.
              get_or (Base.set r.free_pages o count) o' 0 ≡ length (with_list l o xs o') % 2 ^ 64)
            (==→≡ o o' e)
            (rw
              (
                get_or-set_self r.free_pages o count 0 (omega (arith, heap.free_orders)),
                with_list_self l o xs,
              )
              counts)
      | inr e ↦
          rw
            (
              get_or-set_ne r.free_pages o o' count 0 (==→≢ o o' e),
              with_list-ne l o o' xs (==→≢ o o' e),
            )
            (heap.counted o' ho')
    ]

pub IsHeap-set :
    (r : HeapMemoryRegion) (l : Lists) (o next count : ℕ) (xs nr : List ℕ)
    → IsHeap r l
    → o < 6
    → length nr ≡ 6
    → Chain r.page_info r.page_count o next xs
    → count ≡ length xs % 2 ^ 64
    → IsHeap
        (record r {
          next_page = Base.set r.next_page o next;
          free_pages = Base.set r.free_pages o count;
          nr_pages = nr;
        })
        (with_list l o xs)
IsHeap-set r l o next count xs nr heap ho hn chain counts =
    IsHeap-write r l r.page_info o next count xs nr heap ho hn heap.decodes
      (λ o' ho' ne. heap.chains o' ho') chain counts
