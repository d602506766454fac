-- ===== src/PageAlloc/Distinct.antt =====
-- The free lists of mm/alloc.rs have no page twice and are no longer than their region, which is what
-- bounds the walk of `allocate_pfn`.
use svsm.Base.{
  ℕ, zero, suc, ◌+◌, ◌^◌, ◌≤◌, ◌<◌, ◌≡◌, ◌≢◌, refl, subst, inl, inr, true, false, ◌==◌, List, [],
  ◌∷◌, length, get_or, Bool-cases, arith, ==→≡,
}
use native.Mathlib.Nat.{one-le-pow}
use svsm.PageAlloc.{PageInfo, free}
use svsm.PageAlloc.Region.{HeapMemoryRegion}
use svsm.PageAlloc.Lists.{Chain, Lists, IsHeap, has, Chain-IsBlock, says_one}
use svsm.PageAlloc.Unlinking.{rest-unlisted, remove, has-remove, length-remove}

abbrev Distinct : List ℕ → Type 0
Distinct [] = Unit
Distinct (x ∷ xs) = (has x xs ≡ false) × Distinct xs

pub Chain-Distinct :
    (info : ℕ → ℕ) (count o p : ℕ) (xs : List ℕ) → Chain info count o p xs → Distinct xs
Chain-Distinct info count o p [] chain = tt
Chain-Distinct info count o p (x ∷ xs) (e, block, out, (next, says, rest)) =
    (out, Chain-Distinct info count o next xs rest)

pub has-remove_self : (q : ℕ) (xs : List ℕ) → Distinct xs → has q (remove q xs) ≡ false
has-remove_self q [] d = refl
has-remove_self q (x ∷ xs) (out, d) = elim (Bool-cases (x == q)) [
  | inl e ↦ rw e (subst (λ z. has z xs ≡ false) (==→≡ x q e) out)
  | inr e ↦ rw e (rw e (has-remove_self q xs d))
]

remove-Distinct : (q : ℕ) (xs : List ℕ) → Distinct xs → Distinct (remove q xs)
remove-Distinct q [] d = tt
remove-Distinct q (x ∷ xs) (out, d) = elim (Bool-cases (x == q)) [
  | inl e ↦ rw e d
  | inr e ↦ rw e (has-remove q x xs out, remove-Distinct q xs d)
]

-- Distinct numbers below `n` are at most `n`.
pigeonhole :
    (n : ℕ) (xs : List ℕ) → Distinct xs → ((y : ℕ) → has y xs ≡ true → y < n) → length xs ≤ n
pigeonhole zero [] d below = omega arith
pigeonhole zero (x ∷ xs) d below = absurd (omega (arith, below x (ground arith)))
pigeonhole (suc n) xs d below = elim (Bool-cases (has n xs)) [
  | inl e ↦ omega (
    arith,
    length-remove n xs e,
    pigeonhole n (remove n xs) (remove-Distinct n xs d)
        (λ y h. ground (arith, below y, has-remove n y xs, has-remove_self n xs d)),
  )
  | inr e ↦ omega (arith, pigeonhole n xs d (λ y h. ground (arith, below y)))
]

-- A list is no longer than the region.
pub Chain-length :
    (info : ℕ → ℕ) (count o p : ℕ) (xs : List ℕ) → Chain info count o p xs → length xs ≤ count
Chain-length info count o p xs chain =
    pigeonhole count xs (Chain-Distinct info count o p xs chain) (λ y h.
      omega
        (arith, (Chain-IsBlock info count o p xs y chain h).0.fits, one-le-pow o 2 (omega arith)))

-- A block is on one list only, and no other page of it is listed.
pub one_list :
    (r : HeapMemoryRegion) (l : Lists) (o o' x i : ℕ)
    → IsHeap r l
    → o < 6
    → o' < 6
    → o ≢ o'
    → has x (l o') ≡ true
    → i < 2 ^ o'
    → has (x + i) (l o) ≡ false
one_list r l o o' x zero heap ho ho' ne hx hi = elim (Bool-cases (has (x + 0) (l o))) [
  | inr e ↦ e
  | inl e ↦
      let (b, (next, says)) =
        Chain-IsBlock r.page_info r.page_count o' (get_or r.next_page o' 0) (l o') x
          (heap.chains o' ho') hx in
      let (b2, (next2, says2)) =
        Chain-IsBlock r.page_info r.page_count o (get_or r.next_page o 0) (l o) x (heap.chains o ho)
          (subst (λ z. has z (l o) ≡ true) (omega arith) e) in
      absurd (clash next next2 (says_one r.page_info x (free next2 o) (free next o') says2 says))
]
  where
    clash : (next next2 : ℕ) → ◌≡◌ {A = PageInfo} (free next2 o) (free next o') → ⊥
    clash next next2 e = ne (inj e)
      where
        inj : ◌≡◌ {A = PageInfo} (free next2 o) (free next o') → o ≡ o'
        inj e = cc
one_list r l o o' x (suc i) heap ho ho' ne hx hi =
    rest-unlisted r.page_info r.page_count o o' (get_or r.next_page o 0) x (suc i) (l o)
      (heap.chains o ho)
      (Chain-IsBlock r.page_info r.page_count o' (get_or r.next_page o' 0) (l o') x
        (heap.chains o' ho') hx).0
      (omega arith) hi
