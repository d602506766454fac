-- ===== src/Bits/Step.antt =====
-- The lowest digit of the native bit operations, and what they do at each bit.
use Prim.Native.Nat.{differ, digits, bitwise, bit_and-bitwise, bit_or-bitwise, bit_xor-bitwise}
use mathlib.Core.Bool.{xor}
use native.Mathlib.Nat.{pow-suc, one-le-pow}
use svsm.Base.{
  ℕ, zero, suc, ◌+◌, ◌-◌, ◌*◌, ◌/◌, ◌%◌, ◌^◌, ◌≤◌, ◌<◌, min, max, bit_and, bit_or, bit_xor, ◌≡◌,
  refl, sym, ◌∙◌, ap, Bool, false, ◌&&◌, ◌||◌, arith, ◌==◌, ltb, ≡→==,
}

module _ (z : ℕ → ℕ) (f : ℕ → ℕ → ℕ) where
  -- Fuel beyond the number itself does not matter.
  digits_enough : (n m a b : ℕ) → a ≤ n → a ≤ m → digits z f n a b ≡ digits z f m a b
  digits_enough zero zero a b p q = refl
  digits_enough zero (suc m) zero b p q = refl
  digits_enough zero (suc m) (suc a) b p q = absurd (omega arith)
  digits_enough (suc n) zero zero b p q = refl
  digits_enough (suc n) zero (suc a) b p q = absurd (omega arith)
  digits_enough (suc n) (suc m) zero b p q = refl
  digits_enough (suc n) (suc m) (suc a) b p q =
      rw (digits_enough n m (suc a / 2) (b / 2) (omega arith) (omega arith))

  bitwise_low :
      (a b : ℕ)
      → bitwise z f (suc a) b ≡ bitwise z f (suc a / 2) (b / 2) * 2 + f (suc a % 2) (b % 2)
  bitwise_low a b =
      omega (arith, digits_enough a (suc a / 2) (suc a / 2) (b / 2) (omega arith) (omega arith))

bit_and_low : (a b : ℕ) → bit_and a b ≡ bit_and (a / 2) (b / 2) * 2 + min (a % 2) (b % 2)
bit_and_low zero b = simp bit_and-bitwise (omega arith)
bit_and_low (suc a) b = simp bit_and-bitwise (bitwise_low (λ y. 0) min a b)

bit_or_low : (a b : ℕ) → bit_or a b ≡ bit_or (a / 2) (b / 2) * 2 + max (a % 2) (b % 2)
bit_or_low zero b = simp bit_or-bitwise (omega arith)
bit_or_low (suc a) b = simp bit_or-bitwise (bitwise_low (λ y. y) max a b)

pub bit_xor_low : (a b : ℕ) → bit_xor a b ≡ bit_xor (a / 2) (b / 2) * 2 + differ (a % 2) (b % 2)
bit_xor_low zero b = simp bit_xor-bitwise (ground arith)
bit_xor_low (suc a) b = simp bit_xor-bitwise (bitwise_low (λ y. y) differ a b)

-- Bit `i` of a number, bit 0 the lowest.
unfoldable pub test_bit : ℕ → ℕ → Bool
test_bit n zero = n % 2 == 1
test_bit n (suc i) = test_bit (n / 2) i

-- Two digits below 2 combine as truth values do.
or_digit : (x y : ℕ) → x < 2 → y < 2 → (max x y == 1) ≡ (x == 1 || y == 1)
or_digit x y p q = ground arith

and_digit : (x y : ℕ) → x < 2 → y < 2 → (min x y == 1) ≡ (x == 1 && y == 1)
and_digit x y p q = ground arith

xor_digit : (x y : ℕ) → x < 2 → y < 2 → (differ x y == 1) ≡ xor (x == 1) (y == 1)
unfolding xor
xor_digit zero zero p q = refl
xor_digit zero (suc zero) p q = refl
xor_digit (suc zero) zero p q = refl
xor_digit (suc zero) (suc zero) p q = refl
xor_digit zero (suc (suc y)) p q = absurd (omega arith)
xor_digit (suc zero) (suc (suc y)) p q = absurd (omega arith)
xor_digit (suc (suc x)) y p q = absurd (omega arith)

differ-lt : (x y : ℕ) → x < 2 → y < 2 → differ x y < 2
differ-lt zero y p q = q
differ-lt (suc x) zero p q = p
differ-lt (suc x) (suc y) p q = differ-lt x y (omega arith) (omega arith)

-- Halves and remainders of a combined number.
bit_or_parts :
    (a b : ℕ) → (bit_or a b / 2 ≡ bit_or (a / 2) (b / 2)) × (bit_or a b % 2 ≡ max (a % 2) (b % 2))
bit_or_parts a b = omega (arith, bit_or_low a b)

bit_and_parts :
    (a b : ℕ)
    → (bit_and a b / 2 ≡ bit_and (a / 2) (b / 2)) × (bit_and a b % 2 ≡ min (a % 2) (b % 2))
bit_and_parts a b = omega (arith, bit_and_low a b)

bit_xor_parts :
    (a b : ℕ)
    → (bit_xor a b / 2 ≡ bit_xor (a / 2) (b / 2)) × (bit_xor a b % 2 ≡ differ (a % 2) (b % 2))
bit_xor_parts a b =
    omega (arith, bit_xor_low a b, differ-lt (a % 2) (b % 2) (omega arith) (omega arith))

pub test_bit-bit_or : (a b i : ℕ) → test_bit (bit_or a b) i ≡ (test_bit a i || test_bit b i)
unfolding test_bit
test_bit-bit_or a b zero =
    rw ((bit_or_parts a b).1) (or_digit (a % 2) (b % 2) (omega arith) (omega arith))
test_bit-bit_or a b (suc i) = rw ((bit_or_parts a b).0) (test_bit-bit_or (a / 2) (b / 2) i)

pub test_bit-bit_and : (a b i : ℕ) → test_bit (bit_and a b) i ≡ (test_bit a i && test_bit b i)
unfolding test_bit
test_bit-bit_and a b zero =
    rw ((bit_and_parts a b).1) (and_digit (a % 2) (b % 2) (omega arith) (omega arith))
test_bit-bit_and a b (suc i) = rw ((bit_and_parts a b).0) (test_bit-bit_and (a / 2) (b / 2) i)

pub test_bit-bit_xor : (a b i : ℕ) → test_bit (bit_xor a b) i ≡ xor (test_bit a i) (test_bit b i)
unfolding test_bit
test_bit-bit_xor a b zero =
    rw ((bit_xor_parts a b).1) (xor_digit (a % 2) (b % 2) (omega arith) (omega arith))
test_bit-bit_xor a b (suc i) = rw ((bit_xor_parts a b).0) (test_bit-bit_xor (a / 2) (b / 2) i)

pub test_bit-zero : (i : ℕ) → test_bit 0 i ≡ false
unfolding test_bit
test_bit-zero zero = refl
test_bit-zero (suc i) = test_bit-zero i

half-double : (k : ℕ) → 2 ^ suc k / 2 ≡ 2 ^ k
half-double k = omega (arith, pow-suc 2 k)

-- `1 << k` has bit `k` and no other.
pub test_bit-two_pow : (k i : ℕ) → test_bit (2 ^ k) i ≡ (k == i)
unfolding test_bit
test_bit-two_pow zero zero = refl
test_bit-two_pow zero (suc i) = rw (test_bit-zero i) (ground arith)
test_bit-two_pow (suc k) zero = ground (arith, pow-suc 2 k)
test_bit-two_pow (suc k) (suc i) = rw (half-double k) (test_bit-two_pow k i ∙ ground arith)

-- A mask of the `k` lowest bits.
pub test_bit-low_mask : (k i : ℕ) → test_bit (2 ^ k - 1) i ≡ ltb i k
unfolding test_bit
test_bit-low_mask zero i = test_bit-zero i ∙ ground arith
test_bit-low_mask (suc k) zero =
    ≡→== _ 1 (omega (arith, pow-suc 2 k, one-le-pow k 2 (omega arith))) ∙ ground arith
test_bit-low_mask (suc k) (suc i) =
    ap (λ n. test_bit n i) half ∙ test_bit-low_mask k i ∙ ground arith
  where
    half : (2 ^ suc k - 1) / 2 ≡ 2 ^ k - 1
    half = omega (arith, pow-suc 2 k, one-le-pow k 2 (omega arith))

low_eq : (x y : ℕ) → x < 2 → y < 2 → (x == 1) ≡ (y == 1) → x ≡ y
low_eq x y p q e = ground arith

same_bits : (n a b : ℕ) → a + b ≤ n → ((i : ℕ) → test_bit a i ≡ test_bit b i) → a ≡ b
unfolding test_bit
same_bits zero a b h same = omega arith
same_bits (suc n) a b h same = omega (
  arith,
  same_bits n (a / 2) (b / 2) (omega arith) (λ i. same (suc i)),
  low_eq (a % 2) (b % 2) (omega arith) (omega arith) (same 0),
)

-- Two numbers with the same bits are equal.
pub eq_of_test_bit : (a b : ℕ) → ((i : ℕ) → test_bit a i ≡ test_bit b i) → a ≡ b
eq_of_test_bit a b same = same_bits (a + b) a b (omega arith) same

-- A number below `2 ^ k` has no bit from `k` on.
pub test_bit-high : (k n i : ℕ) → n < 2 ^ k → k ≤ i → test_bit n i ≡ false
unfolding test_bit
test_bit-high zero n i h le = ap (λ m. test_bit m i) {x = n} {y = 0} (omega arith) ∙ test_bit-zero i
test_bit-high (suc k) n zero h le = absurd (omega arith)
test_bit-high (suc k) n (suc i) h le =
    test_bit-high k (n / 2) i (omega (arith, pow-suc 2 k)) (omega arith)

-- A number with no bit from `k` on is below `2 ^ k`.
pub lt_of_test_bit : (k n : ℕ) → ((i : ℕ) → k ≤ i → test_bit n i ≡ false) → n < 2 ^ k
unfolding test_bit
lt_of_test_bit zero n none_set =
    omega (arith, eq_of_test_bit n 0 (λ i. none_set i (omega arith) ∙ sym (test_bit-zero i)))
lt_of_test_bit (suc k) n none_set =
    omega (arith, pow-suc 2 k, lt_of_test_bit k (n / 2) (λ i h. none_set (suc i) (omega arith)))
