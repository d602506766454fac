-- ===== src/PageAlloc/Lists.antt =====
-- The invariant of a heap region: the free lists `l`, an order at a time, are chains of free blocks.
-- That two blocks do not overlap follows from the words of their pages.
use native.Mathlib.Nat.{one-le-pow, div-add-mod'}
use svsm.Base.{
  ℕ, zero, suc, ◌+◌, ◌-◌, ◌%◌, ◌^◌, ◌≤◌, ◌<◌, ◌≡◌, sym, ◌∙◌, ap, subst, inl, inr, Bool, true, false,
  ◌==◌, ◌||◌, if◌then◌else◌, List, [], ◌∷◌, length, get_or, Run, done, Bool-cases, arith, ==→≡,
}
use svsm.PageAlloc.{no_page, PageInfo, free, allocated, slab, compound, file, reserved, from_mem}
use svsm.PageAlloc.Region.{HeapMemoryRegion}

-- What the word of page `p` says.
abbrev pub InfoAt : (ℕ → ℕ) → ℕ → PageInfo → Type 0
InfoAt info p pi = from_mem (info p) ≡ done pi

abbrev pub is_compound : PageInfo → Bool
is_compound (compound order) = true
is_compound (free next_page order) = false
is_compound (allocated order) = false
is_compound (slab item_size) = false
is_compound (file ref_count) = false
is_compound reserved = false

-- `2 ^ o` pages of a region of `count` pages, of which all but the first are marked as compound.
pub record IsBlock (info : ℕ → ℕ) (count p o : ℕ) : Type 0 where
  pub aligned : p % 2 ^ o ≡ 0
  pub fits : p + 2 ^ o ≤ count
  pub rest : (i : ℕ) → 0 < i → i < 2 ^ o → InfoAt info (p + i) (compound o)

abbrev pub has : ℕ → List ℕ → Bool
has p [] = false
has p (x ∷ xs) = x == p || has p xs

-- From page `p` on, the next pages lead through the blocks `xs` of order `o`.
abbrev pub Chain : (ℕ → ℕ) → ℕ → ℕ → ℕ → List ℕ → Type 0
Chain info count o p [] = p ≡ no_page
Chain info count o p (x ∷ xs) =
    (p ≡ x)
    × IsBlock info count x o
    × (has x xs ≡ false)
    × ((next : ℕ) × InfoAt info x (free next o) × Chain info count o next xs)

-- The free lists, by order.
abbrev pub Lists : Type 0
Lists = ℕ → List ℕ

abbrev pub with_list : Lists → ℕ → List ℕ → Lists
with_list l o xs o' = if o == o' then xs else l o'

-- Every word of the region can be read.
abbrev pub Decodes : (ℕ → ℕ) → ℕ → Type 0
Decodes info count = (q : ℕ) → q < count → (pi : PageInfo) × InfoAt info q pi

pub record IsHeap (r : HeapMemoryRegion) (l : Lists) : Type 0 where
  pub small : r.page_count < 2 ^ 52 - 1
  pub nr_orders : length r.nr_pages ≡ 6
  pub next_orders : length r.next_page ≡ 6
  pub free_orders : length r.free_pages ≡ 6
  pub decodes : Decodes r.page_info r.page_count
  pub chains : (o : ℕ) → o < 6 → Chain r.page_info r.page_count o (get_or r.next_page o 0) (l o)
  pub counted : (o : ℕ) → o < 6 → get_or r.free_pages o 0 ≡ length (l o) % 2 ^ 64

-- A block that is on no free list, so that it belongs to whoever took it.
pub record Owned (r : HeapMemoryRegion) (l : Lists) (p o : ℕ) : Type 0 where
  pub block : IsBlock r.page_info r.page_count p o
  pub head : PageInfo
  pub says : InfoAt r.page_info p head
  pub is_head : is_compound head ≡ false
  pub unlisted : (o' : ℕ) → o' < 6 → has p (l o') ≡ false

-- What a page says is one thing.
pub says_one : (info : ℕ → ℕ) (p : ℕ) (a b : PageInfo) → InfoAt info p a → InfoAt info p b → a ≡ b
says_one info p a b ha hb = done_inj (sym ha ∙ hb)
  where
    done_inj : ◌≡◌ {A = Run PageInfo} (done a) (done b) → a ≡ b
    done_inj e = cc

pub not_both :
    (info : ℕ → ℕ) (p o : ℕ) (a : PageInfo)
    → InfoAt info p a
    → InfoAt info p (compound o)
    → is_compound a ≡ false
    → ⊥
not_both info p o a ha hc ca =
    clash (sym (ap is_compound (says_one info p a (compound o) ha hc)) ∙ ca)
  where
    clash : ◌≡◌ {A = Bool} true false → ⊥
    clash e = ground arith

same_order :
    (info : ℕ → ℕ) (p o o' : ℕ) → InfoAt info p (compound o) → InfoAt info p (compound o') → o ≡ o'
same_order info p o o' h h' = inj (says_one info p (compound o) (compound o') h h')
  where
    inj : ◌≡◌ {A = PageInfo} (compound o) (compound o') → o ≡ o'
    inj e = cc

same_multiple : (d p q i j : ℕ) → p % d ≡ 0 → q % d ≡ 0 → i < d → j < d → p + i ≡ q + j → p ≡ q
same_multiple d p q i j hp hq hi hj e = grind (arith, div-add-mod' p d, div-add-mod' q d)

-- Blocks whose first pages are not compound overlap only if they start at the same page.
pub blocks_apart :
    (info : ℕ → ℕ) (count p o q o' : ℕ) (a b : PageInfo)
    → IsBlock info count p o
    → IsBlock info count q o'
    → InfoAt info p a
    → InfoAt info q b
    → is_compound a ≡ false
    → is_compound b ≡ false
    → (i j : ℕ) → i < 2 ^ o
    → j < 2 ^ o'
    → p + i ≡ q + j
    → p ≡ q
blocks_apart info count p o q o' a b bp bq ha hb ca cb zero zero hi hj e = omega arith
blocks_apart info count p o q o' a b bp bq ha hb ca cb zero (suc j) hi hj e = absurd (
    not_both info p o' a ha
      (subst (λ x. InfoAt info x (compound o')) (omega arith) (bq.rest (suc j) (omega arith) hj))
      ca)
blocks_apart info count p o q o' a b bp bq ha hb ca cb (suc i) zero hi hj e = absurd (
    not_both info q o b hb
      (subst (λ x. InfoAt info x (compound o)) (omega arith) (bp.rest (suc i) (omega arith) hi)) cb)
blocks_apart info count p o q o' a b bp bq ha hb ca cb (suc i) (suc j) hi hj e =
    let at = bp.rest (suc i) (omega arith) hi in
    let at' = subst (λ x. InfoAt info x (compound o')) (sym e) (bq.rest (suc j) (omega arith) hj) in
    let same : o' ≡ o = sym (same_order info (p + suc i) o o' at at') in
    same_multiple (2 ^ o) p q (suc i) (suc j) bp.aligned
      (subst (λ x. q % 2 ^ x ≡ 0) same bq.aligned) hi (subst (λ x. suc j < 2 ^ x) same hj) e

-- A block on a chain.
pub Chain-IsBlock :
    (info : ℕ → ℕ) (count o p : ℕ) (xs : List ℕ) (x : ℕ)
    → Chain info count o p xs
    → has x xs ≡ true
    → IsBlock info count x o × ((next : ℕ) × InfoAt info x (free next o))
Chain-IsBlock info count o p [] x c h = absurd (ground arith)
Chain-IsBlock info count o p (y ∷ ys) x (e, block, out, (next, says, rest)) h =
    elim (Bool-cases (y == x)) [
      | inl same ↦
          subst (λ y. IsBlock info count y o × ((next : ℕ) × InfoAt info y (free next o)))
            (==→≡ y x same) (block, (next, says))
      | inr other ↦ Chain-IsBlock info count o next ys x rest (ground arith)
    ]

-- A chain stays if the words of its blocks do.
pub Chain-frame :
    (info info' : ℕ → ℕ) (count o p : ℕ) (xs : List ℕ)
    → Chain info count o p xs
    → ((x i : ℕ) → has x xs ≡ true → i < 2 ^ o → info' (x + i) ≡ info (x + i))
    → Chain info' count o p xs
Chain-frame info info' count o p [] c same = c
Chain-frame info info' count o p (x ∷ xs) (e, block, out, (next, says, rest)) same = (
  e,
  record {
    aligned = block.aligned;
    fits = block.fits;
    rest = λ i pos lt. ap from_mem (same x i here lt) ∙ block.rest i pos lt;
  },
  out,
  (
    next,
    ap from_mem head_same ∙ says,
    Chain-frame info info' count o next xs rest (λ y i h. same y i (ground arith)),
  ),
)
  where
    here : has x (x ∷ xs) ≡ true
    here = ground arith

    head_same : info' x ≡ info x
    head_same =
        subst (λ y. info' y ≡ info y) (omega arith) (same x 0 here (one-le-pow o 2 (omega arith)))
