-- ===== src/Bitmap/Word/Laws.antt =====
-- `BitmapAllocator64` keeps the contract of the trait.
use native.Mathlib.Nat.{pow-le-pow_right, one-le-pow, pow-suc}
use svsm.Base.{
  ℕ, suc, ◌+◌, ◌-◌, ◌^◌, ◌≤◌, ◌<◌, bit_and, bit_or, ◌≡◌, ◌↔◌, sym, ◌∙◌, ap, Bool, true, false, ◌&&◌,
  ◌||◌, leb, ltb, if◌then◌else◌, Option, none, some, done, Bool-cases, inl, inr, arith, tests, ==→≡,
  ≡→==, lt→ltb, le→leb,
}
use svsm.Bits.{
  not_bits, trailing_ones, test_bit, test_bit-bit_and, test_bit-bit_or, test_bit-not_bits,
  test_bit-low_mask, test_bit-high, test_bit-zero, eq_of_test_bit, lt_of_test_bit, bit_and-two_pow,
  trailing_ones-below, trailing_ones-stops,
}
use svsm.Bitmap.Interface.{Contract, IsNextFree, fill}
use svsm.Bitmap.Word.{BitmapAllocator64, shl64, range_mask, set, next_free, get, empty, word}

abbrev pub IsValid : BitmapAllocator64 → Type 0
IsValid b = b.bits < 2 ^ 64

abbrev pub row : BitmapAllocator64 → ℕ → Bool
row b = test_bit b.bits

one_shl64 : (k : ℕ) → k < 64 → shl64 1 k ≡ 2 ^ k
one_shl64 k h = omega (arith, pow-le-pow_right {n = 2} (omega arith) {i = k} {j = 63} (omega arith))

end_mask_value : (k : ℕ) → k < 64 → shl64 (shl64 1 k - 1) 1 + 1 ≡ 2 ^ suc k - 1
end_mask_value k h = omega (
  arith,
  one_shl64 k h,
  pow-suc 2 k,
  one-le-pow k 2 (omega arith),
  pow-le-pow_right {n = 2} (omega arith) {i = k} {j = 63} (omega arith),
)

-- The mask has the bits of the range and no other.
test_bit-range_mask :
    (start n i : ℕ)
    → 0 < n
    → start + n ≤ 64
    → test_bit (range_mask start n) i ≡ (leb start i && ltb i (start + n))
unfolding range_mask
test_bit-range_mask start n i pos h =
    rw
      (
        one_shl64 start (omega arith),
        end_mask_value (start + n - 1) (omega arith),
        test_bit-bit_and,
        test_bit-low_mask (suc (start + n - 1)) i,
        test_bit-not_bits 64 (2 ^ start - 1) i start_fits,
        test_bit-low_mask start i,
      )
      (ground arith)
  where
    start_fits : 2 ^ start - 1 < 2 ^ 64
    start_fits =
        omega (arith, pow-le-pow_right {n = 2} (omega arith) {i = start} {j = 63} (omega arith))

range_mask-lt : (start n : ℕ) → 0 < n → start + n ≤ 64 → range_mask start n < 2 ^ 64
range_mask-lt start n pos h =
    lt_of_test_bit 64 _ (λ i hi. test_bit-range_mask start n i pos h ∙ ground arith)

not_bits-lt : (x : ℕ) → not_bits 64 x < 2 ^ 64
not_bits-lt x = omega arith

bit_or-lt : (a b : ℕ) → a < 2 ^ 64 → b < 2 ^ 64 → bit_or a b < 2 ^ 64
bit_or-lt a b ha hb = lt_of_test_bit 64 _ (λ i hi.
    test_bit-bit_or a b i ∙ ground (arith, test_bit-high 64 a i ha hi, test_bit-high 64 b i hb hi))

bit_and-lt : (a b : ℕ) → a < 2 ^ 64 → bit_and a b < 2 ^ 64
bit_and-lt a b ha =
    lt_of_test_bit 64 _
      (λ i hi. test_bit-bit_and a b i ∙ ground (arith, test_bit-high 64 a i ha hi))

set_bits : BitmapAllocator64 → ℕ → ℕ → Bool → ℕ
set_bits b start n v =
    if v
    then bit_or b.bits (range_mask start n)
    else bit_and b.bits (not_bits 64 (range_mask start n))

set_returns :
    (b : BitmapAllocator64) (start n : ℕ) (v : Bool)
    → 0 < n
    → start + n ≤ 64
    → set b start n v ≡ done (record { bits = set_bits b start n v })
unfolding set set_bits
set_returns b start n v pos h = rw (lt→ltb 0 n pos, le→leb (start + n) 64 h)

set_bits-lt :
    (b : BitmapAllocator64) (start n : ℕ) (v : Bool)
    → IsValid b
    → 0 < n
    → start + n ≤ 64
    → set_bits b start n v < 2 ^ 64
unfolding set_bits
set_bits-lt b start n true hb pos h = bit_or-lt b.bits _ hb (range_mask-lt start n pos h)
set_bits-lt b start n false hb pos h = bit_and-lt b.bits _ hb

set_bits-fill :
    (b : BitmapAllocator64) (start n : ℕ) (v : Bool) (i : ℕ)
    → 0 < n
    → start + n ≤ 64
    → i < 64
    → test_bit (set_bits b start n v) i ≡ fill (row b) start n v i
unfolding set_bits
set_bits-fill b start n true i pos h hi =
    test_bit-bit_or b.bits _ i ∙ ground (arith, test_bit-range_mask start n i pos h)
set_bits-fill b start n false i pos h hi =
    test_bit-bit_and b.bits _ i
    ∙ ground (
      arith,
      test_bit-range_mask start n i pos h,
      test_bit-not_bits 64 (range_mask start n) i (range_mask-lt start n pos h),
    )

get_bit : (b : BitmapAllocator64) (i : ℕ) → i < 64 → get b i ≡ done (row b i)
unfolding get
get_bit b i h =
    rw (lt→ltb i 64 h, one_shl64 i h, bit_and-two_pow b.bits i) (ground (arith, one-le-pow i 2))

masked_bit :
    (b : BitmapAllocator64) (start i : ℕ)
    → test_bit (bit_or b.bits (2 ^ start - 1)) i ≡ (row b i || ltb i start)
masked_bit b start i =
    test_bit-bit_or b.bits (2 ^ start - 1) i ∙ ap (λ c. row b i || c) (test_bit-low_mask start i)

next_index : BitmapAllocator64 → ℕ → ℕ
next_index b start = trailing_ones 64 (bit_or b.bits (2 ^ start - 1))

next_free_index :
    (b : BitmapAllocator64) (start : ℕ)
    → start < 64
    → next_free b start
      ≡ done (if ltb (next_index b start) 64 then some (next_index b start) else none)
unfolding next_free next_index
next_free_index b start h = rw (lt→ltb start 64 h, one_shl64 start h)

module _ (b : BitmapAllocator64) (start : ℕ) where
  next_index-below : (i : ℕ) → start ≤ i → i < next_index b start → row b i ≡ true
  unfolding next_index
  next_index-below i lo hi =
      ground
        (arith, masked_bit b start i, trailing_ones-below 64 (bit_or b.bits (2 ^ start - 1)) i hi)

  next_index-free :
      next_index b start < 64 → (start ≤ next_index b start) × (row b (next_index b start) ≡ false)
  unfolding next_index
  next_index-free h = ground (
    arith,
    masked_bit b start (next_index b start),
    trailing_ones-stops 64 (bit_or b.bits (2 ^ start - 1)) h,
  )

next_free_bit :
    (b : BitmapAllocator64) (start : ℕ)
    → start < 64
    → (r : Option ℕ) × (next_free b start ≡ done r) × IsNextFree (row b) 64 start r
next_free_bit b start h = elim (Bool-cases (ltb (next_index b start) 64)) [
  | inl e ↦
      let found = next_index-free b start (omega (tests, e)) in
      (
        some (next_index b start),
        next_free_index b start h ∙ rw e,
        (found.0, omega (tests, e), found.1, next_index-below b start),
      )
  | inr e ↦ (
    none,
    next_free_index b start h ∙ rw e,
    λ i lo hi. next_index-below b start i lo (omega (tests, e)),
  )
]

empty_iff :
    (b : BitmapAllocator64) → IsValid b → (empty b ≡ true) ↔ ((i : ℕ) → i < 64 → row b i ≡ false)
unfolding empty
empty_iff b hb = (
  (λ e i hi. ap (λ n. test_bit n i) (==→≡ b.bits 0 e) ∙ test_bit-zero i),
  λ clear. ≡→== b.bits 0 (eq_of_test_bit b.bits 0 (λ i. all_clear clear i ∙ sym (test_bit-zero i))),
)
  where
    all_clear : ((i : ℕ) → i < 64 → row b i ≡ false) → (i : ℕ) → row b i ≡ false
    all_clear clear i = elim (Bool-cases (ltb i 64)) [
      | inl e ↦ clear i (omega (tests, e))
      | inr e ↦ test_bit-high 64 b.bits i hb (omega (tests, e))
    ]

-- One word keeps the contract of the trait: `set`, `next_free`, `get` and `empty` act on a row
-- of 64 bits.
pub word_contract : Contract word row IsValid
word_contract = record {
  capacity_pos = omega arith;
  get_lem = λ b i hb hi. get_bit b i hi;
  set_lem = λ b start n v hb pos h. (
    record { bits = set_bits b start n v },
    set_returns b start n v pos h,
    set_bits-lt b start n v hb pos h,
    λ i hi. set_bits-fill b start n v i pos h hi,
  );
  next_free_lem = λ b start hb h. next_free_bit b start h;
  empty_lem = empty_iff;
}
