-- ===== src/PageAlloc/Splitting.antt =====
-- `split_page` and `refill_page_list` of mm/alloc.rs: a block becomes two of the order below.
use svsm.Base.{
  ℕ, zero, suc, ◌+◌, ◌-◌, ◌*◌, ◌/◌, ◌%◌, ◌^◌, ◌≤◌, ◌<◌, ◌≡◌, ◌≢◌, refl, sym, ◌∙◌, ap, subst, inl,
  inr, ◌⊎◌, Bool, true, false, ◌==◌, not, ◌&&◌, ◌||◌, ltb, leb, if◌then◌else◌, Option, none, some,
  List, [], ◌∷◌, length, get_or, get_elem?, Run, done, panic, Bool-cases, arith, tests, ==→≡, ==→≢,
  ≡→==, ◌>>=◌, ◌>>◌, unwrap, assert, length-set, get_or-set_self, get_or-set_ne,
  get_elem?-eq-get_or,
}
use svsm.Base
use native.Mathlib.Nat.{one-le-pow, pow-suc, div-add-mod', mul-mod_left, add-mod_right}
use svsm.Util.{add_usize, sub_usize}
use svsm.PageAlloc.{no_page, free, from_mem}
use svsm.PageAlloc.Region.{HeapMemoryRegion, ok}
use svsm.PageAlloc.Take.{split_halves}
use svsm.PageAlloc.Lists.{Lists, IsHeap, Owned, with_list, has}
use svsm.PageAlloc.Frame.{Agree, init_compound_page_lem, Decodes-Agree, block-read}
use svsm.PageAlloc.Heap.{IsHeap-frame, IsHeap-set, Chain-start, Owned-inside}
use svsm.PageAlloc.Taking.{index_lem, add_at_lem, sub_at_lem, SameRegion}
use svsm.PageAlloc.Giving.{IsBlock-frame}
use svsm.PageAlloc.Keeping.{KeepsBut, keeps-inside, unlisted-with_list}

half_aligned : (d p : ℕ) → 0 < d → p % (2 * d) ≡ 0 → (p % d ≡ 0) × ((p + d) % d ≡ 0)
half_aligned d p pos h =
    let whole : p / (2 * d) * 2 * d ≡ p = grind (arith, div-add-mod' p (2 * d)) in
    let al : p % d ≡ 0 = subst (λ x. x % d ≡ 0) whole (mul-mod_left (p / (2 * d) * 2) d) in
    (al, add-mod_right p d ∙ al)

-- Splitting an owned block of an order from 1 to 5 leaves its halves at the head of the list of the
-- order below, the lower first.
pub split_halves_lem :
    (r : HeapMemoryRegion) (l : Lists) (p n : ℕ)
    → IsHeap r l
    → Owned r l p (suc n)
    → n < 5
    → (r' : HeapMemoryRegion) × (split_halves r p n ≡ done (r', ok tt))
      × SameRegion r r'
      × IsHeap r' (with_list l n (p ∷ (p + 2 ^ n) ∷ l n))
      × KeepsBut p r l r' (with_list l n (p ∷ (p + 2 ^ n) ∷ l n))
unfolding split_halves
split_halves_lem r l p n heap own hn =
    let p2 = p + 2 ^ n in
    let next = get_or r.next_page n 0 in
    let pos : 1 ≤ 2 ^ n = one-le-pow n 2 (omega arith) in
    let double : 2 ^ suc n ≡ 2 ^ n + 2 ^ n = omega (arith, pow-suc 2 n) in
    let (al, al2) =
      half_aligned (2 ^ n) p pos (subst (λ d. p % d ≡ 0) (omega arith) own.block.aligned) in
    let start = Chain-start r.page_info r.page_count n next (l n) (heap.chains n (omega arith)) in
    let storable : next ≡ no_page ⊎ next < 2 ^ 52 - 1 = elim start [
      | inl e ↦ inl e
      | inr lt ↦ inr (omega (arith, heap.small))
    ] in
    let (info1, run1, block1, says1, agree1) =
      init_compound_page_lem r p n p2 (omega (arith, own.block.fits)) al (omega arith)
        (inr (omega (arith, own.block.fits, heap.small))) in
    let (info2, run2, block2, says2, agree2) =
      init_compound_page_lem (record r { page_info = info1 }) p2 n next
        (omega (arith, own.block.fits)) al2 (omega arith) storable in
    let decodes1 =
      Decodes-Agree r.page_info info1 r.page_count p (2 ^ n) heap.decodes agree1
        (block-read info1 r.page_count p n (free p2 n) block1 says1) in
    let decodes2 =
      Decodes-Agree info1 info2 r.page_count p2 (2 ^ n) decodes1 agree2
        (block-read info2 r.page_count p2 n (free next n) block2 says2) in
    let agree : Agree r.page_info info2 p (2 ^ suc n) =
      λ q h. agree2 q (ground arith) ∙ agree1 q (ground arith) in
    let heap2 = IsHeap-frame r l p (suc n) info2 heap own decodes2 agree in
    let count = add_usize (get_or r.free_pages n 0) 2 in
    let less = Base.set r.nr_pages (n + 1) (sub_usize (get_or r.nr_pages (n + 1) 0) 1) in
    let nr = Base.set less n (add_usize (get_or less n 0) 2) in
    let less_length : length less ≡ 6 = length-set r.nr_pages (n + 1) _ ∙ heap.nr_orders in
    (
      record r {
        page_info = info2;
        next_page = Base.set r.next_page n p;
        nr_pages = nr;
        free_pages = Base.set r.free_pages n count;
      },
      rw
          (
            index_lem r.next_page n (omega (arith, heap.next_orders)),
            run1,
            run2,
            sub_at_lem r.nr_pages (n + 1) 1 (omega (arith, heap.nr_orders)),
            add_at_lem less n 2 (omega arith),
            add_at_lem r.free_pages n 2 (omega (arith, heap.free_orders)),
          )
          refl,
      record { count = refl; virt = refl; phys = refl },
      IsHeap-set (record r { page_info = info2 }) l n p count (p ∷ p2 ∷ l n) nr heap2 (omega arith)
          (length-set less n _ ∙ less_length)
          (
            refl,
            IsBlock-frame info1 info2 r.page_count p n p2 (2 ^ n) block1 agree2
                (λ i hp hi. ground arith),
            ground (arith, own.unlisted n (omega arith)),
            (
              p2,
              ap from_mem (agree2 p (ground arith)) ∙ says1,
              (
                refl,
                block2,
                Owned-inside r l p (suc n) n (2 ^ n) heap own (omega arith) (omega arith),
                (next, says2, heap2.chains n (omega arith)),
              ),
            ),
          )
          (omega (arith, heap.counted n (omega arith))),
      keeps-inside r _ l _ p (suc n) own (record { count = refl; virt = refl; phys = refl }) agree
          (λ q ne apart none_listed o' ho'.
            unlisted-with_list l n (p ∷ p2 ∷ l n) q
              (not_halves q ne (ground arith) (none_listed n (omega arith))) o'
              (none_listed o' ho')),
    )
  where
    not_halves :
        (q : ℕ)
        → q ≢ p
        → (p + 2 ^ n == q) ≡ false
        → has q (l n) ≡ false
        → has q (p ∷ (p + 2 ^ n) ∷ l n) ≡ false
    not_halves q ne ne2 h = ground arith
