-- ===== src/Bitmap/Tree/Write.antt =====
-- `set` on a tree: the loop writes the whole range, one child after the other.
use native.Mathlib.Nat.{div-add-mod', mod-lt}
use svsm.Base.{
  ℕ, zero, suc, ◌+◌, ◌-◌, ◌*◌, ◌/◌, ◌%◌, ◌≤◌, ◌<◌, ◌≡◌, ap, Bool, ltb, if◌then◌else◌, some,
  get_elem?, Run, done, ◌>>=◌, Bool-cases, inl, inr, arith, tests, ≢→==, ≡→==, get_elem?-some,
  le→leb,
}
use svsm.Bitmap.Interface.{BitmapAllocator, Contract, fill}
use svsm.Bitmap.Tree.{BitmapAllocatorTree, set_loop, set}
use svsm.Bitmap.Tree.Rows.{
  tree_row, IsValidTree, replaced, replaced-IsValidTree, replaced-row, child-lt,
}

-- Two neighbouring ranges filled one after the other.
fill-fill :
    (row : ℕ → Bool) (s n m : ℕ) (v : Bool) (i : ℕ)
    → fill (fill row s n v) (s + n) m v i ≡ fill row s (n + m) v i
fill-fill row s n m v i = ground arith

module _ {T : Type 0} (ops : BitmapAllocator T) (row : T → ℕ → Bool) (IsValid : T → Type 0)
    (law : Contract ops row IsValid) where
  -- What writing a range of a tree should give.
  abbrev pub Written : BitmapAllocatorTree T → ℕ → ℕ → Bool → Run (BitmapAllocatorTree T) → Type 0
  Written t start n v r =
      (t' : BitmapAllocatorTree T) × (r ≡ done t')
      × IsValidTree ops row IsValid t'
      × ((i : ℕ) → tree_row ops row IsValid t' i ≡ fill (tree_row ops row IsValid t) start n v i)

  -- The part of the range that falls to one child.
  abbrev part : ℕ → ℕ → ℕ
  part offset remain = if ltb (ops.capacity - offset) remain then ops.capacity - offset else remain

  write_child :
      (t : BitmapAllocatorTree T) (k offset n : ℕ) (v : Bool)
      → IsValidTree ops row IsValid t
      → k < 16
      → 0 < n
      → offset + n ≤ ops.capacity
      → (c c' : T) × (get_elem? t.child k ≡ some c)
        × (ops.set c offset n v ≡ done c')
        × IsValidTree ops row IsValid (replaced ops row IsValid t k c')
        × ((i : ℕ)
            → tree_row ops row IsValid (replaced ops row IsValid t k c') i
              ≡ fill (tree_row ops row IsValid t) (k * ops.capacity + offset) n v i)
  write_child t k offset n v valid hk pos fits =
      let (c, here) = get_elem?-some t.child k (omega (arith, valid.sixteen)) in
      let (c', sets, valid', rows) =
        law.set_lem c offset n v (valid.children k c here).0 pos fits in
      (
        c,
        c',
        here,
        sets,
        replaced-IsValidTree ops row IsValid t k c' hk valid valid',
        λ i.
            replaced-row ops row IsValid t k offset n v c c' i law.capacity_pos hk valid.sixteen
              fits here rows,
      )

  set_loop_lem :
      (left : ℕ) (t : BitmapAllocatorTree T) (k offset remain : ℕ) (v : Bool)
      → IsValidTree ops row IsValid t
      → left + k ≡ 16
      → offset < ops.capacity
      → 0 < remain
      → k * ops.capacity + offset + remain ≤ 16 * ops.capacity
      → Written t (k * ops.capacity + offset) remain v (set_loop ops left t k offset remain v)
  unfolding set_loop
  set_loop_lem zero t k offset remain v valid all lt pos fits =
      absurd (omega (arith, ap (λ (q : ℕ). q * ops.capacity) {x = k} {y = 16} (omega arith)))
  set_loop_lem (suc left) t k offset remain v valid all lt pos fits =
      elim (Bool-cases (ltb (ops.capacity - offset) remain)) [
        | inl more ↦
            let (c, c', here, sets, valid', rows) =
              write_child t k offset (ops.capacity - offset) v valid (omega arith) (omega arith)
                (omega arith) in
            let (t', runs, valid'', rows') =
              set_loop_lem left (replaced ops row IsValid t k c') (k + 1) 0
                (remain - (ops.capacity - offset)) v valid' (omega arith) law.capacity_pos
                (omega (tests, more)) (omega (tests, more)) in
            (
              t',
              rw
                  (
                    more,
                    here,
                    sets,
                    ≢→== (remain - (ops.capacity - offset)) 0 (omega (tests, more)),
                    set_loop,
                    ◌>>=◌,
                  )
                  runs,
              valid'',
              λ i. ground (arith, rows' i, rows i),
            )
        | inr last ↦
            let (c, c', here, sets, valid', rows) =
              write_child t k offset remain v valid (omega arith) pos (omega (tests, last)) in
            (
              replaced ops row IsValid t k c',
              rw (last, here, sets, ≡→== (remain - remain) 0 (omega arith), set_loop, ◌>>=◌),
              valid',
              rows,
            )
      ]

  pub set_lem :
      (t : BitmapAllocatorTree T) (start n : ℕ) (v : Bool)
      → IsValidTree ops row IsValid t
      → 0 < n
      → start + n ≤ ops.capacity * 16
      → Written t start n v (set ops t start n v)
  unfolding set
  set_lem t start n v valid pos fits =
      let (t', runs, valid', rows) =
        set_loop_lem (16 - start / ops.capacity) t (start / ops.capacity) (start % ops.capacity) n v
          valid (omega (arith, child-lt ops.capacity start law.capacity_pos (omega arith)))
          (mod-lt start law.capacity_pos) pos (omega (arith, place)) in
      (
        t',
        rw (le→leb (start + n) (ops.capacity * 16) fits) runs,
        valid',
        λ i. ground (arith, rows i, place),
      )
    where
      place : start / ops.capacity * ops.capacity + start % ops.capacity ≡ start
      place = div-add-mod' start ops.capacity
