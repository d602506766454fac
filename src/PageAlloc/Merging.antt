-- ===== src/PageAlloc/Merging.antt =====
-- `merge_pages` of mm/alloc.rs: two neighbours that belong to the caller become one block.
use svsm.Base.{
  ℕ, zero, suc, ◌+◌, ◌-◌, ◌*◌, ◌/◌, ◌%◌, ◌^◌, ◌≤◌, ◌<◌, ◌≡◌, ◌≢◌, refl, sym, ◌∙◌, ap, subst, inl,
  inr, ◌⊎◌, Bool, true, false, ◌==◌, not, ◌&&◌, ◌||◌, ltb, leb, if◌then◌else◌, Option, none, some,
  List, [], ◌∷◌, length, get_or, get_elem?, Run, done, panic, Bool-cases, arith, tests, ==→≡, ==→≢,
  ≡→==, ◌>>=◌, ◌>>◌, unwrap, assert, length-set, >>=-eq-done, bit_and, bit_xor, min,
}
use svsm.Base
use native.Mathlib.Nat.{one-le-pow, pow-suc}
use svsm.Bits.{xor_halves, bit_and-low_mask}
use svsm.Util.{add_usize, sub_usize}
use svsm.PageAlloc.{allocated}
use svsm.PageAlloc.Region.{
  HeapMemoryRegion, AllocError, invalid_pfn, invalid_page_order, ok, err, write_page_info,
}
use svsm.PageAlloc.Take.{mark_compound_page}
use svsm.PageAlloc.Give.{merge_pages, compound_neighbor}
use svsm.PageAlloc.Lists.{Lists, IsHeap, Owned, has}
use svsm.PageAlloc.Frame.{mark_block_lem, Decodes-Agree, block-read}
use svsm.PageAlloc.Heap.{IsHeap-keep, IsHeap-nr, listed_apart}
use svsm.PageAlloc.Keeping.{own-same, Owned-apart}
use svsm.PageAlloc.Taking.{sub_at_lem, add_at_lem, SameRegion}

-- The two halves of a block, in any order.
abbrev pub Halves : ℕ → ℕ → ℕ → Type 0
Halves p q o = ((q ≡ p + 2 ^ o) × (p % 2 ^ suc o ≡ 0)) ⊎ ((q + 2 ^ o ≡ p) × (q % 2 ^ suc o ≡ 0))

Halves-facts :
    (p q o count : ℕ)
    → Halves p q o
    → p + 2 ^ o ≤ count
    → q + 2 ^ o ≤ count
    → (min p q % 2 ^ suc o ≡ 0) × (min p q + 2 ^ suc o ≤ count)
Halves-facts p q o count (inl (e, al)) h h2 =
    let first : p ≡ min p q = omega arith in
    (subst (λ m. m % 2 ^ suc o ≡ 0) first al, omega (arith, pow-suc 2 o))
Halves-facts p q o count (inr (e, al)) h h2 =
    let first : q ≡ min p q = omega (arith, one-le-pow o 2 (omega arith)) in
    (subst (λ m. m % 2 ^ suc o ≡ 0) first al, omega (arith, pow-suc 2 o))

-- Merging two owned blocks of an order below 5 that are the halves of a block makes an owned block of
-- the order above, and leaves the free lists alone.
pub merge_pages_lem :
    (r : HeapMemoryRegion) (l : Lists) (p q o : ℕ)
    → IsHeap r l
    → Owned r l p o
    → Owned r l q o
    → Halves p q o
    → o < 5
    → (r' : HeapMemoryRegion) × (m : ℕ) × (merge_pages r p q o ≡ done (r', ok m))
      × SameRegion r r'
      × IsHeap r' l
      × Owned r' l m (suc o)
      × ((m ≡ p) ⊎ (m ≡ q))
      × ((x o' : ℕ)
          → x ≢ p
          → x ≢ q
          → Owned r l x o'
          → Owned r' l x o' × (r'.page_info x ≡ r.page_info x))
unfolding merge_pages
merge_pages_lem r l p q o heap own own2 halves ho =
    let m = min p q in
    let pos : 1 ≤ 2 ^ o = one-le-pow o 2 (omega arith) in
    let double : 2 ^ (o + 1) ≡ 2 ^ o + 2 ^ o =
      ap (λ n. 2 ^ n) plus_one ∙ omega (arith, pow-suc 2 o) in
    let (al, fits) : (m % 2 ^ (o + 1) ≡ 0) × (m + 2 ^ (o + 1) ≤ r.page_count) =
      subst (λ n. (m % 2 ^ n ≡ 0) × (m + 2 ^ n ≤ r.page_count)) (sym plus_one)
        (Halves-facts p q o r.page_count halves own.block.fits own2.block.fits) in
    let test : leb 5 o ≡ false = ground arith in
    let (info, runs, block, says, agree) =
      mark_block_lem r m (o + 1) (allocated (o + 1)) fits al (omega arith) (omega arith) in
    let decodes =
      Decodes-Agree r.page_info info r.page_count m (2 ^ (o + 1)) heap.decodes agree
        (block-read info r.page_count m (o + 1) (allocated (o + 1)) block says) in
    let (r1, wrote, marked) =
      >>=-eq-done (write_page_info r m (allocated (o + 1))) (λ r1. mark_compound_page r1 m (o + 1))
        runs in
    let less = Base.set r.nr_pages o (sub_usize (get_or r.nr_pages o 0) 2) in
    let nr = Base.set less (o + 1) (add_usize (get_or less (o + 1) 0) 1) in
    let less_length : length less ≡ 6 = length-set r.nr_pages o _ ∙ heap.nr_orders in
    let heap' =
      IsHeap-nr (record r { page_info = info }) l nr
        (IsHeap-keep r l info heap decodes (λ o' x i ho' hx hi. agree (x + i) (
          ground (
            arith,
            listed_apart r l p o heap own o' x i ho' hx hi,
            listed_apart r l q o heap own2 o' x i ho' hx hi,
          ))))
        (length-set less (o + 1) _ ∙ less_length) in
    let r' = record r { page_info = info; nr_pages = nr } in
    (
      r',
      m,
      rw
          (
            test,
            wrote,
            marked,
            sub_at_lem r.nr_pages o 2 (omega (arith, heap.nr_orders)),
            add_at_lem less (o + 1) 1 (omega arith),
          )
          refl,
      record { count = refl; virt = refl; phys = refl },
      heap',
      subst (λ n. Owned r' l m n) plus_one
          (record {
            block = block;
            head = allocated (o + 1);
            says = says;
            is_head = refl;
            unlisted = λ o' ho'. lower o' (own.unlisted o' ho') (own2.unlisted o' ho');
          }),
      elim halves [ inl (e, al) ↦ inl (omega arith) | inr (e, al) ↦ inr (omega arith) ],
      λ x o' ne ne2 own3.
          own-same r r' l l x o' own3 (record { count = refl; virt = refl; phys = refl })
            (λ i hi. agree (x + i) (
              ground (
                arith,
                Owned-apart r l p o x o' i own own3 ne hi,
                Owned-apart r l q o x o' i own2 own3 ne2 hi,
              )))
            own3.unlisted,
    )
  where
    plus_one : o + 1 ≡ suc o
    plus_one = omega arith

    lower : (o' : ℕ) → has p (l o') ≡ false → has q (l o') ≡ false → has (min p q) (l o') ≡ false
    lower o' h h2 = elim halves [
      | inl (e, al) ↦ subst (λ m. has m (l o') ≡ false) {x = p} (omega arith) h
      | inr (e, al) ↦ subst (λ m. has m (l o') ≡ false) {x = q} (omega arith) h2
    ]

-- The neighbour of a block of an order below 5 is its other half, where the region has it.
pub compound_neighbor_lem :
    (r : HeapMemoryRegion) (p o : ℕ)
    → p % 2 ^ o ≡ 0
    → o < 5
    → ((e : AllocError) × (compound_neighbor r p o ≡ done (err e)))
      ⊎ ((q : ℕ) × (compound_neighbor r p o ≡ done (ok q)) × Halves p q o × (q < r.page_count))
unfolding compound_neighbor
compound_neighbor_lem r p o al ho =
    let test : leb 5 o ≡ false = ground arith in
    let whole : (bit_and p (2 ^ o - 1) == 0) ≡ true = ≡→== _ _ (bit_and-low_mask o p ∙ al) in
    let q = bit_xor p (2 ^ o) in
    elim (Bool-cases (leb r.page_count q)) [
      | inl e ↦ inl (invalid_pfn q, rw (test, whole, e) refl)
      | inr e ↦ inr (q, rw (test, whole, e) refl, xor_halves o p al, ground arith)
    ]

pub compound_neighbor-high :
    (r : HeapMemoryRegion) (p o : ℕ)
    → 5 ≤ o
    → compound_neighbor r p o ≡ done (err (invalid_page_order o))
unfolding compound_neighbor
compound_neighbor-high r p o h = rw (test) refl
  where
    test : leb 5 o ≡ true
    test = ground arith
