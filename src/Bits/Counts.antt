-- ===== src/Bits/Counts.antt =====
-- `count_ones`, `trailing_ones` and `ilog2` of Rust's unsigned integers, over the number of bits.
use svsm.Base.{
  ℕ, zero, suc, ◌+◌, ◌/◌, ◌%◌, ◌≤◌, ◌<◌, ◌≡◌, true, false, arith, ◌==◌, Bool-cases, Option, none,
  some, inl, inr,
}
use svsm.Bits.Step.{test_bit}

-- `count_ones` of a word of `w` bits.
unfoldable pub count_ones : ℕ → ℕ → ℕ
count_ones zero n = 0
count_ones (suc w) n = n % 2 + count_ones w (n / 2)

-- `trailing_ones` of a word of `w` bits.
unfoldable pub trailing_ones : ℕ → ℕ → ℕ
trailing_ones zero n = 0
trailing_ones (suc w) n = elim (n % 2 == 1) [ true ↦ suc (trailing_ones w (n / 2)) | false ↦ 0 ]

-- The index of the highest bit that is set, for a word of `w` bits; `none` at 0.
unfoldable pub highest_bit : ℕ → ℕ → Option ℕ
highest_bit zero n = none
highest_bit (suc w) n = elim (test_bit n w) [ true ↦ some w | false ↦ highest_bit w n ]

pub trailing_ones-le : (w n : ℕ) → trailing_ones w n ≤ w
unfolding trailing_ones
trailing_ones-le zero n = omega arith
trailing_ones-le (suc w) n = ground (arith, trailing_ones-le w (n / 2))

-- All bits below `trailing_ones` are set,
pub trailing_ones-below : (w n i : ℕ) → i < trailing_ones w n → test_bit n i ≡ true
unfolding trailing_ones test_bit
trailing_ones-below zero n i h = absurd (omega arith)
trailing_ones-below (suc w) n zero h = ground arith
trailing_ones-below (suc w) n (suc i) h = ground (arith, trailing_ones-below w (n / 2) i)

-- and the bit at it is not, inside the word.
pub trailing_ones-stops : (w n : ℕ) → trailing_ones w n < w → test_bit n (trailing_ones w n) ≡ false
unfolding trailing_ones test_bit
trailing_ones-stops zero n h = absurd (omega arith)
trailing_ones-stops (suc w) n h = elim (Bool-cases (n % 2 == 1)) [
  | inl e ↦ ground (arith, trailing_ones-stops w (n / 2))
  | inr e ↦ ground arith
]

pub highest_bit-lt : (w n i : ℕ) → highest_bit w n ≡ some i → i < w
unfolding highest_bit
highest_bit-lt zero n i h = cc
highest_bit-lt (suc w) n i h = ground (arith, highest_bit-lt w n i)

pub highest_bit-set : (w n i : ℕ) → highest_bit w n ≡ some i → test_bit n i ≡ true
unfolding highest_bit
highest_bit-set zero n i h = cc
highest_bit-set (suc w) n i h = ground (arith, highest_bit-set w n i)

-- Nothing is set above the highest bit.
pub highest_bit-above :
    (w n i j : ℕ) → highest_bit w n ≡ some i → i < j → j < w → test_bit n j ≡ false
unfolding highest_bit
highest_bit-above zero n i j h lo hi = cc
highest_bit-above (suc w) n i j h lo hi = elim (Bool-cases (j == w)) [
  | inl e ↦ ground (arith, highest_bit-above w n i j)
  | inr e ↦ ground (arith, highest_bit-above w n i j)
]

pub highest_bit-none : (w n i : ℕ) → highest_bit w n ≡ none → i < w → test_bit n i ≡ false
unfolding highest_bit
highest_bit-none zero n i h lt = absurd (omega arith)
highest_bit-none (suc w) n i h lt = elim (Bool-cases (i == w)) [
  | inl e ↦ ground (arith, highest_bit-none w n i)
  | inr e ↦ ground (arith, highest_bit-none w n i)
]
