-- ===== src/PageAlloc/Unlinking.antt =====
-- `allocate_pfn` of mm/alloc.rs, at the block that is asked for: it is taken out of the chain.
use svsm.Base.{
  ℕ, zero, suc, ◌+◌, ◌-◌, ◌*◌, ◌/◌, ◌%◌, ◌^◌, ◌≤◌, ◌<◌, ◌≡◌, ◌≢◌, refl, sym, ◌∙◌, ap, subst, inl,
  inr, ◌⊎◌, Bool, true, false, ◌==◌, not, ◌&&◌, ◌||◌, ltb, leb, if◌then◌else◌, Option, none, some,
  List, [], ◌∷◌, length, get_or, get_elem?, Run, done, panic, Bool-cases, arith, tests, ==→≡, ==→≢,
  ≡→==, ◌>>=◌, ◌>>◌, unwrap, assert, length-set, get_or-set_self, get_or-set_ne,
  get_elem?-eq-get_or,
}
use svsm.Base
use native.Mathlib.Nat.{one-le-pow}
use svsm.Util.{sub_usize}
use svsm.PageAlloc.{no_page, PageInfo, free, allocated, compound, from_mem, to_mem}
use svsm.PageAlloc.Region.{HeapMemoryRegion, ok, put}
use svsm.PageAlloc.Give.{next_free_pfn, unlink}
use svsm.PageAlloc.Lists.{
  InfoAt, IsBlock, Chain, Decodes, has, Chain-IsBlock, Chain-frame, is_compound, not_both,
}
use svsm.PageAlloc.Frame.{write_page_info_lem, read_page_info_lem, put_self, Decodes-put}
use svsm.PageAlloc.Heap.{Chain-start}
use svsm.PageAlloc.Taking.{sub_at_lem}

-- A page that is not compound is no page of a block but its first.
pub block-avoid :
    (info : ℕ → ℕ) (count x o y i : ℕ) (a : PageInfo)
    → IsBlock info count x o
    → InfoAt info y a
    → is_compound a ≡ false
    → 0 < i
    → i < 2 ^ o
    → (y == x + i) ≡ false
block-avoid info count x o y i a block says is_head pos lt = elim (Bool-cases (y == x + i)) [
  | inr e ↦ e
  | inl e ↦ absurd (
      not_both info y o a says
        (subst (λ z. InfoAt info z (compound o)) (sym (==→≡ y (x + i) e)) (block.rest i pos lt))
        is_head)
]

-- Nor is it any page of a chain that it is not on.
pub Chain-avoid :
    (info : ℕ → ℕ) (count o p y x i : ℕ) (xs : List ℕ) (a : PageInfo)
    → Chain info count o p xs
    → InfoAt info y a
    → is_compound a ≡ false
    → has y xs ≡ false
    → has x xs ≡ true
    → i < 2 ^ o
    → (y == x + i) ≡ false
Chain-avoid info count o p y x zero xs a chain says is_head out hx hi =
    elim (Bool-cases (y == x + 0)) [
      | inr e ↦ e
      | inl e ↦
          absurd
            (clash (subst (λ z. has z xs ≡ true) (sym (==→≡ y (x + 0) e ∙ omega arith)) hx) out)
    ]
  where
    clash : has y xs ≡ true → has y xs ≡ false → ⊥
    clash p q = ground arith
Chain-avoid info count o p y x (suc i) xs a chain says is_head out hx hi =
    block-avoid info count x o y (suc i) a (Chain-IsBlock info count o p xs x chain hx).0 says
      is_head (omega arith) hi

-- No page of a block but its first is on a chain.
pub rest-unlisted :
    (info : ℕ → ℕ) (count o o' p x i : ℕ) (xs : List ℕ)
    → Chain info count o p xs
    → IsBlock info count x o'
    → 0 < i
    → i < 2 ^ o'
    → has (x + i) xs ≡ false
rest-unlisted info count o o' p x i xs chain block pos lt = elim (Bool-cases (has (x + i) xs)) [
  | inr e ↦ e
  | inl e ↦
      let (b, (next, says)) = Chain-IsBlock info count o p xs (x + i) chain e in
      absurd (not_both info (x + i) o' (free next o) says (block.rest i pos lt) refl)
]

-- A list without the block `q`.
abbrev pub remove : ℕ → List ℕ → List ℕ
remove q [] = []
remove q (x ∷ xs) = if x == q then xs else x ∷ remove q xs

pub has-remove : (q y : ℕ) (xs : List ℕ) → has y xs ≡ false → has y (remove q xs) ≡ false
has-remove q y [] h = refl
has-remove q y (x ∷ xs) h = ground (arith, has-remove q y xs)

pub length-remove : (q : ℕ) (xs : List ℕ) → has q xs ≡ true → suc (length (remove q xs)) ≡ length xs
length-remove q [] h = absurd (ground arith)
length-remove q (x ∷ xs) h = ground (arith, length-remove q xs)

pub next_free_pfn_lem :
    (r : HeapMemoryRegion) (p next o : ℕ)
    → p < r.page_count
    → InfoAt r.page_info p (free next o)
    → next_free_pfn r p ≡ done next
unfolding next_free_pfn
next_free_pfn_lem r p next o lt says = rw (read_page_info_lem r p (free next o) lt says) refl

abbrev pub one_less : HeapMemoryRegion → ℕ → List ℕ
one_less r o = Base.set r.free_pages o (sub_usize (get_or r.free_pages o 0) 1)

-- What the walk makes of the words, behind `old`: the chain goes on without `q`, which says that it
-- is allocated, and only the words of listed pages change.
pub record Unlinked (r : HeapMemoryRegion) (old q o : ℕ) (ys zs : List ℕ) (info : ℕ → ℕ)
    : Type 0 where
  pub chain : Chain info r.page_count o old (old ∷ zs)
  pub block : IsBlock info r.page_count q o
  pub says : InfoAt info q (allocated o)
  pub decodes : Decodes info r.page_count
  pub agree : (y : ℕ) → has y (old ∷ ys) ≡ false → info y ≡ r.page_info y

pub unlink_lem :
    (r : HeapMemoryRegion) (old q o : ℕ) (zs : List ℕ)
    → r.page_count < 2 ^ 52 - 1
    → o < 6
    → length r.free_pages ≡ 6
    → Decodes r.page_info r.page_count
    → Chain r.page_info r.page_count o old (old ∷ q ∷ zs)
    → (info : ℕ → ℕ) × (unlink r old q o
        ≡ done (record r { page_info = info; free_pages = one_less r o }, ok tt))
      × Unlinked r old q o (q ∷ zs) zs info
unfolding unlink
unlink_lem r old q o zs small ho hl decodes
      (e, block, out, (next, says, (e2, block2, out2, (next2, says2, rest)))) =
    let info1 = put r.page_info old (to_mem (free next2 o)) in
    let info = put info1 q (to_mem (allocated o)) in
    let pos : 1 ≤ 2 ^ o = one-le-pow o 2 (omega arith) in
    let old_lt : old < r.page_count = omega (arith, block.fits) in
    let q_lt : q < r.page_count = omega (arith, block2.fits) in
    let storable : next2 ≡ no_page ⊎ next2 < 2 ^ 52 - 1 =
      elim (Chain-start r.page_info r.page_count o next2 zs rest) [
        | inl h ↦ inl h
        | inr lt ↦ inr (omega arith)
      ] in
    let ne : (q == old) ≡ false = ground arith in
    let same : (y : ℕ) → (old == y) ≡ false → (q == y) ≡ false → info y ≡ r.page_info y =
      λ y h k. ground arith in
    (
      info,
      rw
          (
            next_free_pfn_lem r q next2 o q_lt says2,
            write_page_info_lem r old (free next2 o) old_lt,
            write_page_info_lem (record r { page_info = info1 }) q (allocated o) q_lt,
            sub_at_lem r.free_pages o 1 (omega arith),
          )
          refl,
      record {
        chain = (
          refl,
          record {
            aligned = block.aligned;
            fits = block.fits;
            rest = λ i hp hi.
                ap from_mem (
                  same (old + i)
                    (block-avoid r.page_info r.page_count old o old i (free next o) block says refl
                      hp hi)
                    (block-avoid r.page_info r.page_count old o q i (free next2 o) block says2 refl
                      hp hi))
                ∙ block.rest i hp hi;
          },
          ground (arith, out),
          (
            next2,
            ap from_mem (q_apart info1 ne)
                ∙ put_self r.page_info old (free next2 o) (storable, omega arith),
            Chain-frame r.page_info info r.page_count o next2 zs rest (λ x i hx hi.
                same (x + i)
                  (Chain-avoid r.page_info r.page_count o next2 old x i zs (free next o) rest says
                    refl (ground (arith, out)) hx hi)
                  (Chain-avoid r.page_info r.page_count o next2 q x i zs (free next2 o) rest says2
                    refl out2 hx hi)),
          ),
        );
        block = record {
          aligned = block2.aligned;
          fits = block2.fits;
          rest = λ i hp hi.
              ap from_mem (
                same (q + i)
                  (block-avoid r.page_info r.page_count q o old i (free next o) block2 says refl hp
                    hi)
                  (block-avoid r.page_info r.page_count q o q i (free next2 o) block2 says2 refl hp
                    hi))
              ∙ block2.rest i hp hi;
        };
        says = put_self info1 q (allocated o) (omega arith);
        decodes =
            Decodes-put info1 r.page_count q (allocated o)
              (Decodes-put r.page_info r.page_count old (free next2 o) decodes
                (storable, omega arith))
              (omega arith);
        agree = λ y h. same y (ground arith) (ground arith);
      },
    )
  where
    q_apart :
        (info1 : ℕ → ℕ) → (q == old) ≡ false → put info1 q (to_mem (allocated o)) old ≡ info1 old
    q_apart info1 h = ground arith
