-- ===== src/PageAlloc/Taking.antt =====
-- `get_next_page` and `free_page_raw` of mm/alloc.rs: a free list loses its first block, or gains one.
use svsm.Base.{
  ℕ, zero, suc, ◌+◌, ◌-◌, ◌*◌, ◌/◌, ◌%◌, ◌^◌, ◌≤◌, ◌<◌, ◌≡◌, ◌≢◌, refl, sym, ◌∙◌, ap, subst, inl,
  inr, ◌⊎◌, Bool, true, false, ◌==◌, not, ◌&&◌, ◌||◌, ltb, leb, if◌then◌else◌, Option, none, some,
  List, [], ◌∷◌, length, get_or, get_elem?, Run, done, panic, Bool-cases, arith, tests, ==→≡, ==→≢,
  ≡→==, ◌>>=◌, ◌>>◌, unwrap, assert, length-set, get_or-set_self, get_or-set_ne,
  get_elem?-eq-get_or,
}
use svsm.Base
use native.Mathlib.Nat.{one-le-pow}
use svsm.Util.{add_usize, sub_usize}
use svsm.PageAlloc.{no_page, PageInfo, free}
use svsm.PageAlloc.Region.{HeapMemoryRegion, ok, err, out_of_memory, index, add_at, sub_at}
use svsm.PageAlloc.Take.{get_next_page, take_first}
use svsm.PageAlloc.Lists.{
  InfoAt, Chain, Lists, IsHeap, Owned, with_list, has, Chain-IsBlock, says_one,
}
use svsm.PageAlloc.Frame.{read_page_info_lem}
use svsm.PageAlloc.Heap.{IsHeap-set, with_list_self, with_list-ne}

pub index_lem : (xs : List ℕ) (i : ℕ) → i < length xs → index xs i ≡ done (get_or xs i 0)
index_lem xs i h = ap unwrap (get_elem?-eq-get_or xs i 0 h)

pub sub_at_lem :
    (xs : List ℕ) (i n : ℕ)
    → i < length xs
    → sub_at xs i n ≡ done (Base.set xs i (sub_usize (get_or xs i 0) n))
sub_at_lem xs i n h = rw (index_lem xs i h) refl

pub add_at_lem :
    (xs : List ℕ) (i n : ℕ)
    → i < length xs
    → add_at xs i n ≡ done (Base.set xs i (add_usize (get_or xs i 0) n))
add_at_lem xs i n h = rw (index_lem xs i h) refl

-- The region is the same piece of memory.
pub record SameRegion (r r' : HeapMemoryRegion) : Type 0 where
  pub count : r'.page_count ≡ r.page_count
  pub virt : r'.start_virt ≡ r.start_virt
  pub phys : r'.start_phys ≡ r.start_phys

-- An empty list yields nothing.
pub get_next_page-empty :
    (r : HeapMemoryRegion) (l : Lists) (o : ℕ)
    → IsHeap r l
    → o < 6
    → l o ≡ []
    → get_next_page r o ≡ done (r, err out_of_memory)
unfolding get_next_page
get_next_page-empty r l o heap ho e =
    rw
      (
        index_lem r.next_page o (omega (arith, heap.next_orders)),
        subst (Chain r.page_info r.page_count o (get_or r.next_page o 0)) e (heap.chains o ho),
      )
      refl

-- What a successful `get_next_page` leaves.
abbrev pub Taken : HeapMemoryRegion → Lists → ℕ → ℕ → List ℕ → Type 0
Taken r l o x xs =
    (r' : HeapMemoryRegion) × (get_next_page r o ≡ done (r', ok x))
    × SameRegion r r'
    × IsHeap r' (with_list l o xs)
    × Owned r' (with_list l o xs) x o
    × (r'.page_info ≡ r.page_info)

pub get_next_page_lem :
    (r : HeapMemoryRegion) (l : Lists) (o x : ℕ) (xs : List ℕ)
    → IsHeap r l
    → o < 6
    → l o ≡ x ∷ xs
    → Taken r l o x xs
unfolding get_next_page take_first
get_next_page_lem r l o x xs heap ho e =
    let (head, block, out, (next, says, rest)) =
      subst (Chain r.page_info r.page_count o (get_or r.next_page o 0)) e (heap.chains o ho) in
    let pos : 1 ≤ 2 ^ o = one-le-pow o 2 (omega arith) in
    let below : x < r.page_count = omega (arith, block.fits) in
    let n = sub_usize (get_or r.free_pages o 0) 1 in
    let r' = record r {
      next_page = Base.set r.next_page o next;
      free_pages = Base.set r.free_pages o n;
    } in
    let counts : get_or r.free_pages o 0 ≡ suc (length xs) % 2 ^ 64 =
      subst (λ ys. get_or r.free_pages o 0 ≡ length ys % 2 ^ 64) e (heap.counted o ho) in
    let not_none : (x == no_page) ≡ false = ground (arith, heap.small) in
    (
      r',
      rw
          (
            index_lem r.next_page o (omega (arith, heap.next_orders)),
            head,
            not_none,
            read_page_info_lem r x (free next o) below says,
            sub_at_lem r.free_pages o 1 (omega (arith, heap.free_orders)),
          )
          refl,
      record { count = refl; virt = refl; phys = refl },
      IsHeap-set r l o next n xs r.nr_pages heap ho heap.nr_orders rest (omega arith),
      record {
        block = block;
        head = free next o;
        says = says;
        is_head = refl;
        unlisted = unlisted next says out;
      },
      refl,
    )
  where
    clash :
        (o' next next' : ℕ)
        → o ≢ o'
        → InfoAt r.page_info x (free next o)
        → InfoAt r.page_info x (free next' o')
        → ⊥
    clash o' next next' ne h h' =
        ne (inj (says_one r.page_info x (free next o) (free next' o') h h'))
      where
        inj : ◌≡◌ {A = PageInfo} (free next o) (free next' o') → o ≡ o'
        inj e = cc

    unlisted :
        (next : ℕ)
        → InfoAt r.page_info x (free next o)
        → has x xs ≡ false
        → (o' : ℕ) → o' < 6
        → has x (with_list l o xs o') ≡ false
    unlisted next says out o' ho' = elim (Bool-cases (o == o')) [
      | inl e ↦
          subst (λ o'. has x (with_list l o xs o') ≡ false) (==→≡ o o' e)
            (rw (with_list_self l o xs) out)
      | inr e ↦ rw (with_list-ne l o o' xs (==→≢ o o' e)) (elim (Bool-cases (has x (l o'))) [
        | inr f ↦ f
        | inl t ↦
            let (block, (next', says')) =
              Chain-IsBlock r.page_info r.page_count o' (get_or r.next_page o' 0) (l o') x
                (heap.chains o' ho') t in
            absurd (clash o' next next' (==→≢ o o' e) says says')
      ])
    ]
