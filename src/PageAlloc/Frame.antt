-- ===== src/PageAlloc/Frame.antt =====
-- What the writes to the words of pages leave alone, and the updates of one free list, for the
-- functions of mm/alloc.rs that mark, take and split blocks.
use svsm.Base.{
  ℕ, zero, suc, ◌+◌, ◌-◌, ◌%◌, ◌^◌, ◌≤◌, ◌<◌, ◌≡◌, refl, ◌∙◌, ap, subst, inl, inr, ◌⊎◌, true, false,
  ◌==◌, ◌&&◌, ltb, leb, done, Bool-cases, arith, ==→≡, ◌>>=◌, assert,
}
use native.Mathlib.Nat.{one-le-pow}
use svsm.PageAlloc.{no_page, PageInfo, free, compound, from_mem, to_mem}
use svsm.PageAlloc.Region.{HeapMemoryRegion, write_page_info, read_page_info, put}
use svsm.PageAlloc.Take.{mark_loop, mark_compound_page, init_compound_page}
use svsm.PageAlloc.RoundTrip.{IsStorable, from_mem-to_mem}
use svsm.PageAlloc.Lists.{InfoAt, IsBlock, Decodes}

-- The words are the same but for the `n` pages from `p` on.
abbrev pub Agree : (ℕ → ℕ) → (ℕ → ℕ) → ℕ → ℕ → Type 0
Agree info info' p n = (q : ℕ) → (leb p q && ltb q (p + n)) ≡ false → info' q ≡ info q

pub put_self :
    (info : ℕ → ℕ) (p : ℕ) (pi : PageInfo) → IsStorable pi → InfoAt (put info p (to_mem pi)) p pi
put_self info p pi s = ap from_mem here ∙ (from_mem-to_mem pi s).1
  where
    here : put info p (to_mem pi) p ≡ to_mem pi
    here = ground arith

-- Every word can be read still if those that changed can.
pub Decodes-Agree :
    (info info' : ℕ → ℕ) (count p n : ℕ)
    → Decodes info count
    → Agree info info' p n
    → ((j : ℕ) → j < n → (pi : PageInfo) × InfoAt info' (p + j) pi)
    → Decodes info' count
Decodes-Agree info info' count p n all agree new q h =
    elim (Bool-cases (leb p q && ltb q (p + n))) [
      | inl e ↦
          subst (λ z. (pi : PageInfo) × InfoAt info' z pi) (inside e) (new (q - p) (ground arith))
      | inr e ↦ ((all q h).0, ap from_mem (agree q e) ∙ (all q h).1)
    ]
  where
    inside : (leb p q && ltb q (p + n)) ≡ true → p + (q - p) ≡ q
    inside e = ground arith

pub Decodes-put :
    (info : ℕ → ℕ) (count p : ℕ) (pi : PageInfo)
    → Decodes info count
    → IsStorable pi
    → Decodes (put info p (to_mem pi)) count
Decodes-put info count p pi all s q h = elim (Bool-cases (p == q)) [
  | inl e ↦
      (pi, subst (λ q. InfoAt (put info p (to_mem pi)) q pi) (==→≡ p q e) (put_self info p pi s))
  | inr e ↦ ((all q h).0, ap from_mem (other e) ∙ (all q h).1)
]
  where
    other : (p == q) ≡ false → put info p (to_mem pi) q ≡ info q
    other e = ground arith

pub block-read :
    (info : ℕ → ℕ) (count p o : ℕ) (a : PageInfo)
    → IsBlock info count p o
    → InfoAt info p a
    → (j : ℕ) → j < 2 ^ o
    → (pi : PageInfo) × InfoAt info (p + j) pi
block-read info count p o a block says zero h = (a, subst (λ z. InfoAt info z a) (omega arith) says)
block-read info count p o a block says (suc j) h = (compound o, block.rest (suc j) (omega arith) h)

-- A write within bounds succeeds.
pub write_page_info_lem :
    (r : HeapMemoryRegion) (p : ℕ) (pi : PageInfo)
    → p < r.page_count
    → write_page_info r p pi ≡ done (record r { page_info = put r.page_info p (to_mem pi) })
unfolding write_page_info
write_page_info_lem r p pi h = ground arith

pub read_page_info_lem :
    (r : HeapMemoryRegion) (p : ℕ) (pi : PageInfo)
    → p < r.page_count
    → InfoAt r.page_info p pi
    → read_page_info r p ≡ done pi
unfolding read_page_info
read_page_info_lem r p pi h e = rw (read h) e
  where
    read : p < r.page_count → assert (ltb p r.page_count) ≡ done tt
    read lt = ground arith

pub mark_loop_lem :
    (n : ℕ) (r : HeapMemoryRegion) (p o : ℕ)
    → p + n ≤ r.page_count
    → o < 2 ^ 8
    → (info : ℕ → ℕ) × (mark_loop n r p o ≡ done (record r { page_info = info }))
      × ((i : ℕ) → i < n → InfoAt info (p + i) (compound o))
      × Agree r.page_info info p n
unfolding mark_loop
mark_loop_lem zero r p o fits small = (r.page_info, refl, λ i h. absurd (omega arith), λ q h. refl)
mark_loop_lem (suc n) r p o fits small =
    let (info, runs, marks, agree) =
      mark_loop_lem n (record r { page_info = put r.page_info p (to_mem (compound o)) }) (p + 1) o
        (omega arith) small in
    (
      info,
      rw (write_page_info_lem r p (compound o) (omega arith)) runs,
      λ i h. marked info marks agree i h,
      λ q h. agree q (ground arith) ∙ ground arith,
    )
  where
    marked :
        (info : ℕ → ℕ)
        → ((i : ℕ) → i < n → InfoAt info (p + 1 + i) (compound o))
        → Agree (put r.page_info p (to_mem (compound o))) info (p + 1) n
        → (i : ℕ) → i < suc n
        → InfoAt info (p + i) (compound o)
    marked info marks agree zero h =
        subst (λ x. InfoAt info x (compound o)) (omega arith)
          (ap from_mem (agree p (ground arith)) ∙ put_self r.page_info p (compound o) small)
    marked info marks agree (suc i) h =
        subst (λ x. InfoAt info x (compound o)) (omega arith) (marks i (omega arith))

-- A block is made of any pages within bounds, with any head.
pub mark_block_lem :
    (r : HeapMemoryRegion) (p o : ℕ) (pg : PageInfo)
    → p + 2 ^ o ≤ r.page_count
    → p % 2 ^ o ≡ 0
    → o < 2 ^ 8
    → IsStorable pg
    → (info : ℕ → ℕ) × ((write_page_info r p pg >>= λ r1. mark_compound_page r1 p o)
        ≡ done (record r { page_info = info }))
      × IsBlock info r.page_count p o
      × InfoAt info p pg
      × Agree r.page_info info p (2 ^ o)
unfolding mark_compound_page
mark_block_lem r p o pg fits al small storable =
    let r1 = record r { page_info = put r.page_info p (to_mem pg) } in
    let pos : 1 ≤ 2 ^ o = one-le-pow o 2 (omega arith) in
    let (info, runs, marks, agree) = mark_loop_lem (2 ^ o - 1) r1 (p + 1) o (omega arith) small in
    (
      info,
      rw (write_page_info_lem r p pg (omega arith)) runs,
      record {
        aligned = al;
        fits = fits;
        rest = λ i hp hi.
            subst (λ x. InfoAt info x (compound o)) (omega arith) (marks (i - 1) (omega arith));
      },
      ap from_mem (agree p (ground arith)) ∙ put_self r.page_info p pg storable,
      λ q h. agree q (ground arith) ∙ ground arith,
    )

pub init_compound_page_lem :
    (r : HeapMemoryRegion) (p o next : ℕ)
    → p + 2 ^ o ≤ r.page_count
    → p % 2 ^ o ≡ 0
    → o < 2 ^ 8
    → (next ≡ no_page ⊎ next < 2 ^ 52 - 1)
    → (info : ℕ → ℕ) × (init_compound_page r p o next ≡ done (record r { page_info = info }))
      × IsBlock info r.page_count p o
      × InfoAt info p (free next o)
      × Agree r.page_info info p (2 ^ o)
unfolding init_compound_page
init_compound_page_lem r p o next fits al small storable =
    mark_block_lem r p o (free next o) fits al small (storable, small)
