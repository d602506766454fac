-- ===== src/PageAlloc/Walking.antt =====
-- `allocate_pfn` of mm/alloc.rs: the walk along a free list that takes a given block off it.
use svsm.Base.{
  ℕ, zero, suc, ◌+◌, ◌-◌, ◌^◌, ◌≤◌, ◌<◌, ◌≡◌, refl, sym, ◌∙◌, ap, subst, inl, inr, true, false,
  ◌==◌, List, [], ◌∷◌, length, done, Bool-cases, arith, ==→≡,
}
use native.Mathlib.Nat.{one-le-pow}
use svsm.PageAlloc.{no_page, from_mem}
use svsm.PageAlloc.Region.{HeapMemoryRegion, ok, err, out_of_memory}
use svsm.PageAlloc.Give.{next_free_pfn, unlink, walk}
use svsm.PageAlloc.Lists.{Chain, Decodes, has}
use svsm.PageAlloc.Unlinking.{
  rest-unlisted, remove, has-remove, next_free_pfn_lem, one_less, Unlinked, unlink_lem,
}

-- The three ways in which a round of the walk goes on.
walk-here :
    (fuel : ℕ) (r : HeapMemoryRegion) (old c q o : ℕ)
    → next_free_pfn r old ≡ done c
    → (c == no_page) ≡ false
    → (c == q) ≡ true
    → walk (suc fuel) r old q o ≡ unlink r old c o
unfolding walk
walk-here fuel r old c q o h e f = rw (h, e, f) refl

walk-on :
    (fuel : ℕ) (r : HeapMemoryRegion) (old c q o : ℕ)
    → next_free_pfn r old ≡ done c
    → (c == no_page) ≡ false
    → (c == q) ≡ false
    → walk (suc fuel) r old q o ≡ walk fuel r c q o
unfolding walk
walk-on fuel r old c q o h e f = rw (h, e, f) refl

walk-end :
    (fuel : ℕ) (r : HeapMemoryRegion) (old q o : ℕ)
    → next_free_pfn r old ≡ done no_page
    → walk (suc fuel) r old q o ≡ done (r, err out_of_memory)
unfolding walk
walk-end fuel r old q o h = rw h refl

-- Behind `old`, a list with the block `q` loses it,
pub walk_found :
    (fuel : ℕ) (r : HeapMemoryRegion) (old q o : ℕ) (ys : List ℕ)
    → r.page_count < 2 ^ 52 - 1
    → o < 6
    → length r.free_pages ≡ 6
    → Decodes r.page_info r.page_count
    → Chain r.page_info r.page_count o old (old ∷ ys)
    → has q ys ≡ true
    → length ys ≤ fuel
    → (info : ℕ → ℕ) × (walk fuel r old q o
        ≡ done (record r { page_info = info; free_pages = one_less r o }, ok tt))
      × Unlinked r old q o ys (remove q ys) info
walk_found fuel r old q o [] small ho hl decodes chain hq hf = absurd (ground arith)
walk_found zero r old q o (c ∷ zs) small ho hl decodes chain hq hf = absurd (omega arith)
walk_found (suc fuel) r old q o (c ∷ zs) small ho hl decodes chain hq hf =
    let (e, block, out, (next, says, (e2, block2, out2, rest))) = chain in
    let pos : 1 ≤ 2 ^ o = one-le-pow o 2 (omega arith) in
    let read : next_free_pfn r old ≡ done c =
      next_free_pfn_lem r old next o (omega (arith, block.fits)) says ∙ ap done e2 in
    let some_page : (c == no_page) ≡ false = ground (arith, block2.fits) in
    elim (Bool-cases (c == q)) [
      | inl same ↦
          let (info, runs, un) = unlink_lem r old c o zs small ho hl decodes chain in
          (
            info,
            walk-here fuel r old c q o read some_page same ∙ runs,
            subst (λ l. Unlinked r old q o (c ∷ zs) l info) (removed same)
                (subst (λ q. Unlinked r old q o (c ∷ zs) zs info) (==→≡ c q same) un),
          )
      | inr other ↦
          let (info, runs, un) =
            walk_found fuel r c q o zs small ho hl decodes (refl, block2, out2, rest) (ground arith)
              (omega arith) in
          (
            info,
            walk-on fuel r old c q o read some_page other ∙ runs,
            subst (λ l. Unlinked r old q o (c ∷ zs) l info) (kept other)
                (record {
                  chain = (
                    refl,
                    record {
                      aligned = block.aligned;
                      fits = block.fits;
                      rest = λ i hp hi.
                          ap from_mem (
                            un.agree (old + i) (
                              rest-unlisted r.page_info r.page_count o o c old i (c ∷ zs)
                                (refl, block2, out2, rest) block hp hi))
                          ∙ block.rest i hp hi;
                    },
                    ground (arith, out, has-remove q old zs),
                    (
                      next,
                      ap from_mem (un.agree old out) ∙ says,
                      subst (λ n. Chain info r.page_count o n (c ∷ remove q zs)) (sym e2) un.chain,
                    ),
                  );
                  block = un.block;
                  says = un.says;
                  decodes = un.decodes;
                  agree = λ y h. un.agree y (ground arith);
                }),
          )
    ]
  where
    removed : (c == q) ≡ true → zs ≡ remove q (c ∷ zs)
    removed h = ground arith

    kept : (c == q) ≡ false → c ∷ remove q zs ≡ remove q (c ∷ zs)
    kept h = ground arith

-- and one without it is left as it is, with an error.
pub walk_missing :
    (fuel : ℕ) (r : HeapMemoryRegion) (old q o : ℕ) (ys : List ℕ)
    → r.page_count < 2 ^ 52 - 1
    → Chain r.page_info r.page_count o old (old ∷ ys)
    → has q ys ≡ false
    → length ys < fuel
    → walk fuel r old q o ≡ done (r, err out_of_memory)
walk_missing zero r old q o ys small chain hq hf = absurd (omega arith)
walk_missing (suc fuel) r old q o [] small (e, block, out, (next, says, rest)) hq hf =
    walk-end fuel r old q o (
      next_free_pfn_lem r old next o (omega (arith, block.fits, one-le-pow o 2 (omega arith))) says
      ∙ ap done rest)
walk_missing (suc fuel) r old q o (c ∷ zs) small
      (e, block, out, (next, says, (e2, block2, out2, rest))) hq hf =
    let pos : 1 ≤ 2 ^ o = one-le-pow o 2 (omega arith) in
    let read : next_free_pfn r old ≡ done c =
      next_free_pfn_lem r old next o (omega (arith, block.fits)) says ∙ ap done e2 in
    walk-on fuel r old c q o read (ground (arith, block2.fits)) (ground arith)
    ∙ walk_missing fuel r c q o zs small (refl, block2, out2, rest) (ground arith) (omega arith)
