-- ===== src/Bitmap/Tree/Laws.antt =====
-- A tree keeps the contract of the trait if its children do; so `BitmapAllocator1024` does.
use native.Mathlib.Nat.{div-add-mod', mod-lt, mul-le-mul_right}
use svsm.Base.{
  ℕ, zero, suc, ◌+◌, ◌-◌, ◌*◌, ◌/◌, ◌%◌, ◌≤◌, ◌<◌, ◌≡◌, ◌↔◌, refl, sym, ◌∙◌, ap, Bool, true, false,
  not, ltb, Option, none, some, get_elem?, Run, done, ◌>>=◌, Bool-cases, inl, inr, arith, tests,
  get_elem?-some, lt→ltb, ==→≡, ≡→==,
}
use svsm.Bits.{test_bit, test_bit-zero, test_bit-high, eq_of_test_bit}
use svsm.Bitmap.Interface.{BitmapAllocator, Contract, IsNextFree}
use svsm.Bitmap.Tree.{BitmapAllocatorTree, next_free_loop, next_free, get, empty, tree}
use svsm.Bitmap.Tree.Rows.{tree_row, IsValidTree, row_in, child-lt, child_row}
use svsm.Bitmap.Tree.Write.{set_lem}

-- A first free bit from `m` on is the first from `s` on, if all between is used.
extend :
    (row : ℕ → Bool) (end s m : ℕ) (r : Option ℕ)
    → s ≤ m
    → ((i : ℕ) → s ≤ i → i < m → row i ≡ true)
    → IsNextFree row end m r
    → IsNextFree row end s r
extend row end s m none le used h = λ i lo hi. elim (Bool-cases (ltb i m)) [
  | inl e ↦ used i lo (omega (tests, e))
  | inr e ↦ h i (omega (tests, e)) hi
]
extend row end s m (some j) le used (lo, hi, free, between) = (
  omega arith,
  hi,
  free,
  λ i lo' hi'. elim (Bool-cases (ltb i m)) [
    | inl e ↦ used i lo' (omega (tests, e))
    | inr e ↦ between i (omega (tests, e)) hi'
  ],
)

module _ {T : Type 0} (ops : BitmapAllocator T) (row : T → ℕ → Bool) (IsValid : T → Type 0)
    (law : Contract ops row IsValid) where
  -- `next_free` of the whole, from `next_free` of one child and of the children behind it.
  abbrev Finds : BitmapAllocatorTree T → ℕ → Run (Option ℕ) → Type 0
  Finds t start out =
      (r : Option ℕ) × (out ≡ done r)
      × IsNextFree (tree_row ops row IsValid t) (ops.capacity * 16) start r

  next_free_loop_lem :
      (left : ℕ) (t : BitmapAllocatorTree T) (k offset : ℕ)
      → IsValidTree ops row IsValid t
      → left + k ≡ 16
      → offset < ops.capacity
      → Finds t (k * ops.capacity + offset) (next_free_loop ops left t k offset)
  unfolding next_free_loop
  next_free_loop_lem zero t k offset valid all lt = (
    none,
    refl,
    λ i lo hi.
        absurd (omega (arith, ap (λ (q : ℕ). q * ops.capacity) {x = k} {y = 16} (omega arith))),
  )
  next_free_loop_lem (suc left) t k offset valid all lt =
      let (c, here) = get_elem?-some t.child k (omega (arith, valid.sixteen)) in
      in_first c here (law.next_free_lem c offset (valid.children k c here).0 lt)
        (next_free_loop_lem left t (k + 1) 0 valid (omega arith) law.capacity_pos)
    where
      in_first :
          (c : T)
          → get_elem? t.child k ≡ some c
          → (r : Option ℕ) × (ops.next_free c offset ≡ done r)
            × IsNextFree (row c) ops.capacity offset r
          → Finds t ((k + 1) * ops.capacity + 0) (next_free_loop ops left t (k + 1) 0)
          → Finds t (k * ops.capacity + offset) (next_free_loop ops (suc left) t k offset)
      in_first c here (none, e, used) (r, runs, spec) = (
        r,
        rw (here, e, next_free_loop, ◌>>=◌) runs,
        extend _ _ _ _ r (omega arith)
            (λ i lo hi.
              row_in ops row IsValid t k i c law.capacity_pos here (omega arith) (omega arith)
              ∙ used (i - k * ops.capacity) (omega arith) (omega arith))
            spec,
      )
      in_first c here (some j, e, (lo, hi, free, used)) rest = (
        some (j + k * ops.capacity),
        rw (here, e, next_free_loop, ◌>>=◌),
        (
          omega arith,
          omega (arith, mul-le-mul_right {m = k + 1} {n = 16} ops.capacity (omega arith)),
          row_in ops row IsValid t k (j + k * ops.capacity) c law.capacity_pos here (omega arith)
                (omega arith)
              ∙ ap (row c) {x = j + k * ops.capacity - k * ops.capacity} {y = j} (omega arith)
              ∙ free,
          λ i lo' hi'.
              row_in ops row IsValid t k i c law.capacity_pos here (omega arith) (omega arith)
              ∙ used (i - k * ops.capacity) (omega arith) (omega arith),
        ),
      )

  next_free_lem :
      (t : BitmapAllocatorTree T) (start : ℕ)
      → IsValidTree ops row IsValid t
      → start < ops.capacity * 16
      → Finds t start (next_free ops t start)
  unfolding next_free
  next_free_lem t start valid h =
      let (r, runs, spec) =
        next_free_loop_lem (16 - start / ops.capacity) t (start / ops.capacity)
          (start % ops.capacity) valid
          (omega (arith, child-lt ops.capacity start law.capacity_pos h))
          (mod-lt start law.capacity_pos) in
      (
        r,
        rw (lt→ltb start (ops.capacity * 16) h) runs,
        extend _ _ start _ r (omega (arith, place)) (λ i lo hi. absurd (omega (arith, place))) spec,
      )
    where
      place : start / ops.capacity * ops.capacity + start % ops.capacity ≡ start
      place = div-add-mod' start ops.capacity

  get_lem :
      (t : BitmapAllocatorTree T) (i : ℕ)
      → IsValidTree ops row IsValid t
      → i < ops.capacity * 16
      → get ops t i ≡ done (tree_row ops row IsValid t i)
  unfolding get
  get_lem t i valid h =
      let (c, here) =
        get_elem?-some t.child (i / ops.capacity)
          (omega (arith, valid.sixteen, child-lt ops.capacity i law.capacity_pos h)) in
      rw (lt→ltb i (ops.capacity * 16) h, here)
        (law.get_lem c (i % ops.capacity) (valid.children _ c here).0 (mod-lt i law.capacity_pos))

  -- A child is empty exactly when its range of the row is clear.
  child_clear :
      (t : BitmapAllocatorTree T) (k : ℕ)
      → IsValidTree ops row IsValid t
      → k < 16
      → ((i : ℕ) → i < ops.capacity * 16 → tree_row ops row IsValid t i ≡ false)
      → test_bit t.bits k ≡ false
  child_clear t k valid hk clear =
      let (c, here) = get_elem?-some t.child k (omega (arith, valid.sixteen)) in
      (valid.children k c here).1
      ∙ ap not (
          (law.empty_lem c (valid.children k c here).0).1 (λ j hj.
            ap (row c) {x = j} {y = k * ops.capacity + j - k * ops.capacity} (omega arith)
            ∙ sym (
                row_in ops row IsValid t k (k * ops.capacity + j) c law.capacity_pos here
                  (omega arith) (omega arith))
            ∙ clear (k * ops.capacity + j)
                (omega (arith, mul-le-mul_right {m = k + 1} {n = 16} ops.capacity (omega arith)))))

  empty_lem :
      (t : BitmapAllocatorTree T)
      → IsValidTree ops row IsValid t
      → (empty ops t ≡ true)
        ↔ ((i : ℕ) → i < ops.capacity * 16 → tree_row ops row IsValid t i ≡ false)
  unfolding empty
  empty_lem t valid = (
    (λ e i hi.
        let (c, here) =
          get_elem?-some t.child (i / ops.capacity)
            (omega (arith, valid.sixteen, child-lt ops.capacity i law.capacity_pos hi)) in
        let (valid_c, marked) = valid.children (i / ops.capacity) c here in
        ap (λ o. child_row row o (i % ops.capacity)) here
        ∙ ((law.empty_lem c valid_c).0
              (ground (arith, ==→≡ t.bits 0 e, test_bit-zero (i / ops.capacity), marked)))
            (i % ops.capacity) (mod-lt i law.capacity_pos)),
    λ clear.
        ≡→== t.bits 0 (eq_of_test_bit t.bits 0 (λ k. bit_clear clear k ∙ sym (test_bit-zero k))),
  )
    where
      bit_clear :
          ((i : ℕ) → i < ops.capacity * 16 → tree_row ops row IsValid t i ≡ false)
          → (k : ℕ) → test_bit t.bits k ≡ false
      bit_clear clear k = elim (Bool-cases (ltb k 16)) [
        | inl e ↦ child_clear t k valid (omega (tests, e)) clear
        | inr e ↦ test_bit-high 16 t.bits k valid.bits_fit (omega (tests, e))
      ]

  -- A tree over any bitmap that keeps the contract keeps it: `set`, `next_free`, `get` and `empty`
  -- act on one row of sixteen times as many bits.
  pub tree_contract : Contract (tree ops) (tree_row ops row IsValid) (IsValidTree ops row IsValid)
  tree_contract = record {
    capacity_pos = omega (arith, law.capacity_pos);
    get_lem = get_lem;
    set_lem = λ t start n v valid pos fits.
        let (t', runs, valid', rows) = set_lem ops row IsValid law t start n v valid pos fits in
        (t', runs, valid', λ i hi. rows i);
    next_free_lem = next_free_lem;
    empty_lem = empty_lem;
  }
