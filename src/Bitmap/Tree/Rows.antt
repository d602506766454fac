-- ===== src/Bitmap/Tree/Rows.antt =====
-- A tree as one row of bits: its invariant, and the effect of replacing one child.
use native.Mathlib.Nat.{div-add-mod', mod-lt, mul-le-mul_right}
use native.Mathlib.Decide.{dec_lt}
use svsm.Base.{
  ℕ, zero, suc, ◌+◌, ◌-◌, ◌*◌, ◌/◌, ◌%◌, ◌^◌, ◌≤◌, ◌<◌, bit_and, bit_or, ◌≡◌, ◌≢◌, ◌⊎◌, refl, sym,
  ◌∙◌, ap, subst, Bool, true, false, not, ◌&&◌, leb, ltb, ◌==◌, if◌then◌else◌, Option, none, some,
  List, length, get_elem?, Run, done, Bool-cases, inl, inr, arith, tests, eq_of_some, ==→≡, ==→≢,
  length-set, get_elem?-set_self, get_elem?-set_ne, get_elem?-some,
}
use svsm.Base
use svsm.Bits.{test_bit, test_bit-set_bit, test_bit-clear_bit, bit_or-lt, bit_and-lt, two_pow-lt}
use svsm.Bitmap.Interface.{BitmapAllocator, fill}
use svsm.Bitmap.Tree.{BitmapAllocatorTree, mark_child}

-- The bits of a child that may be out of range.
abbrev pub child_row {ℓ} : {T : Type ℓ} → (T → ℕ → Bool) → Option T → ℕ → Bool
child_row row none j = true
child_row row (some c) j = row c j

-- An index lies in child `k` exactly when it is in its range.
pub in_child : (c i k : ℕ) → 0 < c → k * c ≤ i → i < k * c + c → i / c ≡ k
in_child c i k pos lo hi = elim (dec_lt (i / c) k) [
  | yes p ↦ absurd (
      omega (
        arith,
        div-add-mod' i c,
        mod-lt i pos,
        mul-le-mul_right {m = i / c + 1} {n = k} c (omega arith),
      ))
  | no p ↦ elim (dec_lt k (i / c)) [
    | yes q ↦ absurd (
        omega (
          arith,
          div-add-mod' i c,
          mod-lt i pos,
          mul-le-mul_right {m = k + 1} {n = i / c} c (omega arith),
        ))
    | no q ↦ omega arith
  ]
]

pub not_in_child : (c i k : ℕ) → 0 < c → i / c ≢ k → (i < k * c) ⊎ (k * c + c ≤ i)
not_in_child c i k pos ne = elim (dec_lt i (k * c)) [
  | yes p ↦ inl p
  | no p ↦ elim (dec_lt i (k * c + c)) [
    | yes q ↦ absurd (ne (in_child c i k pos (omega arith) q))
    | no q ↦ inr (omega arith)
  ]
]

pub child-lt : (c i : ℕ) → 0 < c → i < c * 16 → i / c < 16
child-lt c i pos h = elim (dec_lt (i / c) 16) [
  | yes p ↦ p
  | no p ↦
      absurd
        (omega (arith, div-add-mod' i c, mul-le-mul_right {m = 16} {n = i / c} c (omega arith)))
]

module _ {T : Type 0} (ops : BitmapAllocator T) (row : T → ℕ → Bool) (IsValid : T → Type 0) where
  abbrev pub tree_row : BitmapAllocatorTree T → ℕ → Bool
  tree_row t i = child_row row (get_elem? t.child (i / ops.capacity)) (i % ops.capacity)

  -- Sixteen valid children, and a word that tells which are not empty.
  pub record IsValidTree (t : BitmapAllocatorTree T) : Type 0 where
    pub sixteen : length t.child ≡ 16
    pub bits_fit : t.bits < 2 ^ 16
    pub children :
        (k : ℕ) (c : T)
        → get_elem? t.child k ≡ some c
        → IsValid c × (test_bit t.bits k ≡ not (ops.empty c))

  abbrev pub replaced : BitmapAllocatorTree T → ℕ → T → BitmapAllocatorTree T
  replaced t k c = record { bits = mark_child ops t.bits k c; child = Base.set t.child k c }

  test_bit-mark_child :
      (bits k : ℕ) (c : T) (i : ℕ)
      → k < 16
      → bits < 2 ^ 16
      → (mark_child ops bits k c < 2 ^ 16)
        × (test_bit (mark_child ops bits k c) i
            ≡ (if k == i then not (ops.empty c) else test_bit bits i))
  unfolding mark_child
  test_bit-mark_child bits k c i hk hb = elim (Bool-cases (ops.empty c)) [
    | inl e ↦ rw e (bit_and-lt 16 bits _ hb, test_bit-clear_bit 16 bits k i hb hk ∙ ground arith)
    | inr e ↦
        rw e (bit_or-lt 16 bits _ hb (two_pow-lt 16 k hk), test_bit-set_bit bits k i ∙ ground arith)
  ]

  pub replaced-IsValidTree :
      (t : BitmapAllocatorTree T) (k : ℕ) (c : T)
      → k < 16
      → IsValidTree t
      → IsValid c
      → IsValidTree (replaced t k c)
  replaced-IsValidTree t k c hk v vc = record {
    sixteen = length-set t.child k c ∙ v.sixteen;
    bits_fit = (test_bit-mark_child t.bits k c 0 hk v.bits_fit).0;
    children = λ j d here. elim (Bool-cases (k == j)) [
      | inl e ↦
          subst (λ x. IsValid x × (test_bit (mark_child ops t.bits k c) j ≡ not (ops.empty x)))
            (eq_of_some (
              sym (get_elem?-set_self t.child k c (omega (arith, v.sixteen)))
              ∙ ap (get_elem? (Base.set t.child k c)) (==→≡ k j e)
              ∙ here))
            (vc, (test_bit-mark_child t.bits k c j hk v.bits_fit).1 ∙ rw e)
      | inr e ↦
          let old = v.children j d (sym (get_elem?-set_ne t.child k j c (==→≢ k j e)) ∙ here) in
          (old.0, (test_bit-mark_child t.bits k c j hk v.bits_fit).1 ∙ rw e (old.1))
    ];
  }

  -- Writing a range of one child writes that range of the tree's row.
  pub replaced-row :
      (t : BitmapAllocatorTree T) (k offset n : ℕ) (v : Bool) (c c' : T) (i : ℕ)
      → 0 < ops.capacity
      → k < 16
      → length t.child ≡ 16
      → offset + n ≤ ops.capacity
      → get_elem? t.child k ≡ some c
      → ((j : ℕ) → j < ops.capacity → row c' j ≡ fill (row c) offset n v j)
      → tree_row (replaced t k c') i ≡ fill (tree_row t) (k * ops.capacity + offset) n v i
  replaced-row t k offset n v c c' i pos hk len fits here rows =
      elim (Bool-cases (i / ops.capacity == k)) [
        | inl e ↦ written (==→≡ _ k e)
        | inr e ↦ untouched (==→≢ _ k e)
      ]
    where
      place : i / ops.capacity * ops.capacity + i % ops.capacity ≡ i
      place = div-add-mod' i ops.capacity

      written :
          i / ops.capacity ≡ k
          → tree_row (replaced t k c') i ≡ fill (tree_row t) (k * ops.capacity + offset) n v i
      written e =
          ap (λ q. child_row row (get_elem? (Base.set t.child k c') q) (i % ops.capacity)) e
          ∙ ap (λ o. child_row row o (i % ops.capacity))
              (get_elem?-set_self t.child k c' (omega (arith, len)))
          ∙ rows (i % ops.capacity) (mod-lt i pos)
          ∙ ground (arith, old e, at_k e)
        where
          old : i / ops.capacity ≡ k → tree_row t i ≡ row c (i % ops.capacity)
          old e =
              ap (λ q. child_row row (get_elem? t.child q) (i % ops.capacity)) e
              ∙ ap (λ o. child_row row o (i % ops.capacity)) here

          at_k : i / ops.capacity ≡ k → k * ops.capacity + i % ops.capacity ≡ i
          at_k e = ap (λ q. q * ops.capacity + i % ops.capacity) (sym e) ∙ place

      untouched :
          i / ops.capacity ≢ k
          → tree_row (replaced t k c') i ≡ fill (tree_row t) (k * ops.capacity + offset) n v i
      untouched ne =
          ap (λ o. child_row row o (i % ops.capacity))
            (get_elem?-set_ne t.child k (i / ops.capacity) c' (λ e. ne (sym e)))
          ∙ ground (arith, not_in_child ops.capacity i k pos ne)

  -- Inside the range of child `k` the tree's row is the child's.
  pub row_in :
      (t : BitmapAllocatorTree T) (k i : ℕ) (c : T)
      → 0 < ops.capacity
      → get_elem? t.child k ≡ some c
      → k * ops.capacity ≤ i
      → i < k * ops.capacity + ops.capacity
      → tree_row t i ≡ row c (i - k * ops.capacity)
  row_in t k i c pos here lo hi =
      ap (λ q. child_row row (get_elem? t.child q) (i % ops.capacity)) child_k
      ∙ ap (λ o. child_row row o (i % ops.capacity)) here
      ∙ ap (row c) place
    where
      child_k : i / ops.capacity ≡ k
      child_k = in_child ops.capacity i k pos lo hi

      place : i % ops.capacity ≡ i - k * ops.capacity
      place = omega (arith, div-add-mod' i ops.capacity, ap (λ (q : ℕ). q * ops.capacity) child_k)
