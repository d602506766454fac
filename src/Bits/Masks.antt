-- ===== src/Bits/Masks.antt =====
-- Single bits and high masks as arithmetic.
use native.Mathlib.Nat.{one-le-pow, mod-lt, pow-le-pow_right}
use svsm.Base.{
  ℕ, ◌+◌, ◌-◌, ◌*◌, ◌/◌, ◌%◌, ◌^◌, ◌≤◌, ◌<◌, bit_and, bit_or, ◌≡◌, ◌∙◌, ap, sym, ◌&&◌, arith, ◌==◌,
  if◌then◌else◌, Bool-cases, inl, inr,
}
use svsm.Bits.Step.{test_bit, test_bit-bit_and, test_bit-bit_or, test_bit-two_pow, test_bit-zero}
use svsm.Bits.Step.{test_bit-low_mask, test_bit-high, eq_of_test_bit}
use svsm.Bits.Words.{not_bits, test_bit-not_bits, test_bit_fields, test_bit-mod, test_bit-shr}

-- A bit as a quotient.
pub test_bit_value : (n k : ℕ) → test_bit n k ≡ (n / 2 ^ k % 2 == 1)
unfolding test_bit
test_bit_value n k = ap (test_bit n) {x = k} {y = 0 + k} (omega arith) ∙ sym (test_bit-shr k n 0)

-- `n & (1 << k)`
pub bit_and-two_pow : (n k : ℕ) → bit_and n (2 ^ k) ≡ (if test_bit n k then 2 ^ k else 0)
bit_and-two_pow n k = eq_of_test_bit _ _ (λ i. test_bit-bit_and n (2 ^ k) i ∙ one_bit i)
  where
    one_bit :
        (i : ℕ)
        → (test_bit n i && test_bit (2 ^ k) i) ≡ test_bit (if test_bit n k then 2 ^ k else 0) i
    one_bit i = elim (Bool-cases (k == i)) [
      | inl e ↦ ground (arith, test_bit-two_pow k i, test_bit-zero i)
      | inr e ↦ ground (arith, test_bit-two_pow k i, test_bit-zero i)
    ]

-- `n | !(2 ^ k - 1)` sets every bit from `k` on.
pub bit_or-high_mask :
    (w k n : ℕ)
    → n < 2 ^ w
    → k ≤ w
    → bit_or n (not_bits w (2 ^ k - 1)) ≡ (2 ^ (w - k) - 1) * 2 ^ k + n % 2 ^ k
bit_or-high_mask w k n h le = eq_of_test_bit _ _ (λ i.
    rw
      (
        test_bit-bit_or,
        test_bit-not_bits,
        mask_fits,
        test_bit-low_mask,
        test_bit_fields k (2 ^ (w - k) - 1) (n % 2 ^ k) i (mod-lt n (one-le-pow k 2 (omega arith))),
        test_bit-mod,
        test_bit-low_mask,
      )
      (ground (arith, test_bit-high w n i h)))
  where
    mask_fits : 2 ^ k - 1 < 2 ^ w
    mask_fits =
        omega (arith, pow-le-pow_right {n = 2} (omega arith) le, one-le-pow k 2 (omega arith))
