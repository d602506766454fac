-- ===== src/PageAlloc/Keeping.antt =====
-- What belongs to a caller stays as it is while mm/alloc.rs allocates and frees other blocks.
use svsm.Base.{
  ℕ, ◌+◌, ◌-◌, ◌^◌, ◌<◌, ◌≡◌, ◌≢◌, sym, ◌∙◌, ap, subst, inl, inr, false, ◌==◌, ◌&&◌, ltb, leb, List,
  Bool-cases, arith, ==→≡, ==→≢,
}
use native.Mathlib.Nat.{one-le-pow}
use svsm.PageAlloc.{from_mem}
use svsm.PageAlloc.Region.{HeapMemoryRegion}
use svsm.PageAlloc.Lists.{Lists, Owned, with_list, has, blocks_apart}
use svsm.PageAlloc.Frame.{Agree}
use svsm.PageAlloc.Heap.{with_list_self, with_list-ne}
use svsm.PageAlloc.Taking.{SameRegion}

-- Every owned block, or every one but that at `p`, stays owned and keeps its head.
abbrev pub KeepsBut : ℕ → HeapMemoryRegion → Lists → HeapMemoryRegion → Lists → Type 0
KeepsBut p r l r' l' =
    (q o : ℕ) → q ≢ p → Owned r l q o → Owned r' l' q o × (r'.page_info q ≡ r.page_info q)

abbrev pub Keeps : HeapMemoryRegion → Lists → HeapMemoryRegion → Lists → Type 0
Keeps r l r' l' = (q o : ℕ) → Owned r l q o → Owned r' l' q o × (r'.page_info q ≡ r.page_info q)

pub own-same :
    (r r' : HeapMemoryRegion) (l l' : Lists) (q o : ℕ)
    → Owned r l q o
    → SameRegion r r'
    → ((i : ℕ) → i < 2 ^ o → r'.page_info (q + i) ≡ r.page_info (q + i))
    → ((o' : ℕ) → o' < 6 → has q (l' o') ≡ false)
    → Owned r' l' q o × (r'.page_info q ≡ r.page_info q)
own-same r r' l l' q o own same kept unlisted = (
  record {
    block = record {
      aligned = own.block.aligned;
      fits = omega (arith, own.block.fits, same.count);
      rest = λ i hp hi. ap from_mem (kept i hi) ∙ own.block.rest i hp hi;
    };
    head = own.head;
    says = ap from_mem at_head ∙ own.says;
    is_head = own.is_head;
    unlisted = unlisted;
  },
  at_head,
)
  where
    at_head : r'.page_info q ≡ r.page_info q
    at_head =
        subst (λ z. r'.page_info z ≡ r.page_info z) (omega arith)
          (kept 0 (one-le-pow o 2 (omega arith)))

-- Two owned blocks are apart.
pub Owned-apart :
    (r : HeapMemoryRegion) (l : Lists) (p o q o' i : ℕ)
    → Owned r l p o
    → Owned r l q o'
    → q ≢ p
    → i < 2 ^ o'
    → (leb p (q + i) && ltb (q + i) (p + 2 ^ o)) ≡ false
Owned-apart r l p o q o' i own own2 ne hi =
    elim (Bool-cases (leb p (q + i) && ltb (q + i) (p + 2 ^ o))) [
      | inr e ↦ e
      | inl e ↦ absurd (
          ne (
            sym (
              blocks_apart r.page_info r.page_count p o q o' own.head own2.head own.block own2.block
                own.says own2.says own.is_head own2.is_head (q + i - p) i (ground arith) hi
                (ground arith))))
    ]

-- Writes inside an owned block, after which more of its pages may be listed than before.
pub keeps-inside :
    (r r' : HeapMemoryRegion) (l l' : Lists) (p o : ℕ)
    → Owned r l p o
    → SameRegion r r'
    → Agree r.page_info r'.page_info p (2 ^ o)
    → ((q : ℕ)
        → q ≢ p
        → (leb p q && ltb q (p + 2 ^ o)) ≡ false
        → ((o' : ℕ) → o' < 6 → has q (l o') ≡ false)
        → (o' : ℕ) → o' < 6
        → has q (l' o') ≡ false)
    → KeepsBut p r l r' l'
keeps-inside r r' l l' p o own same agree lists q o' ne own2 =
    own-same r r' l l' q o' own2 same
      (λ i hi. agree (q + i) (Owned-apart r l p o q o' i own own2 ne hi))
      (lists q ne
        (subst (λ z. (leb p z && ltb z (p + 2 ^ o)) ≡ false) (omega arith)
          (Owned-apart r l p o q o' 0 own own2 ne (one-le-pow o' 2 (omega arith))))
        own2.unlisted)

-- A list replaced by one with nothing that is owned.
pub unlisted-with_list :
    (l : Lists) (o : ℕ) (xs : List ℕ) (q : ℕ)
    → has q xs ≡ false
    → (o' : ℕ) → has q (l o') ≡ false
    → has q (with_list l o xs o') ≡ false
unlisted-with_list l o xs q h o' h' = elim (Bool-cases (o == o')) [
  | inl e ↦
      subst (λ o'. has q (with_list l o xs o') ≡ false) (==→≡ o o' e) (rw (with_list_self l o xs) h)
  | inr e ↦ rw (with_list-ne l o o' xs (==→≢ o o' e)) h'
]
