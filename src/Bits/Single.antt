-- ===== src/Bits/Single.antt =====
-- Setting and clearing one bit, and the range of the results.
use svsm.Base.{ℕ, ◌^◌, ◌<◌, bit_and, bit_or, ◌≡◌, ◌∙◌, not, ◌&&◌, ◌||◌, arith, ◌==◌}
use native.Mathlib.Nat.{pow-le-pow_right, pow-suc, one-le-pow}
use svsm.Bits.Step.{test_bit, test_bit-bit_and, test_bit-bit_or, test_bit-two_pow}
use svsm.Bits.Step.{test_bit-high, lt_of_test_bit}
use svsm.Bits.Words.{not_bits, test_bit-not_bits}

pub bit_or-lt : (w a b : ℕ) → a < 2 ^ w → b < 2 ^ w → bit_or a b < 2 ^ w
bit_or-lt w a b ha hb = lt_of_test_bit w _ (λ i hi.
    test_bit-bit_or a b i ∙ ground (arith, test_bit-high w a i ha hi, test_bit-high w b i hb hi))

pub bit_and-lt : (w a b : ℕ) → a < 2 ^ w → bit_and a b < 2 ^ w
bit_and-lt w a b ha =
    lt_of_test_bit w _ (λ i hi. test_bit-bit_and a b i ∙ ground (arith, test_bit-high w a i ha hi))

pub two_pow-lt : (w k : ℕ) → k < w → 2 ^ k < 2 ^ w
two_pow-lt w k h =
    omega
      (arith, pow-le-pow_right {n = 2} (omega arith) h, pow-suc 2 k, one-le-pow k 2 (omega arith))

-- `n | (1 << k)`
pub test_bit-set_bit : (n k i : ℕ) → test_bit (bit_or n (2 ^ k)) i ≡ (k == i || test_bit n i)
test_bit-set_bit n k i = test_bit-bit_or n (2 ^ k) i ∙ ground (arith, test_bit-two_pow k i)

-- `n & !(1 << k)` on a word of `w` bits.
pub test_bit-clear_bit :
    (w n k i : ℕ)
    → n < 2 ^ w
    → k < w
    → test_bit (bit_and n (not_bits w (2 ^ k))) i ≡ (not (k == i) && test_bit n i)
test_bit-clear_bit w n k i hn hk =
    test_bit-bit_and n (not_bits w (2 ^ k)) i
    ∙ ground (
      arith,
      test_bit-not_bits w (2 ^ k) i (two_pow-lt w k hk),
      test_bit-two_pow k i,
      test_bit-high w n i hn,
    )
