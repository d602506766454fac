-- ===== src/Bits/Words.antt =====
-- Rust's unsigned integers: complement, shifts, rotations of counts, and how they read bit by bit.
use native.Mathlib.Nat.{pow-suc, one-le-pow, mod-lt, div-add-mod', pow-le-pow_right}
use svsm.Base.{
  ℕ, zero, suc, ◌+◌, ◌-◌, ◌*◌, ◌/◌, ◌%◌, ◌^◌, ◌≤◌, ◌<◌, bit_and, bit_or, ◌≡◌, sym, ◌∙◌, ap, ap₂,
  false, not, ◌&&◌, arith, ltb, if◌then◌else◌, le→ltb,
}
use svsm.Bits.Step.{test_bit, test_bit-bit_and, test_bit-bit_or, test_bit-low_mask, test_bit-high}
use svsm.Bits.Step.{eq_of_test_bit, test_bit-zero}

-- `!x` on a word of `w` bits.
abbrev pub not_bits : ℕ → ℕ → ℕ
not_bits w x = 2 ^ w - 1 - x

pub test_bit-not_bits :
    (w x i : ℕ) → x < 2 ^ w → test_bit (not_bits w x) i ≡ (ltb i w && not (test_bit x i))
unfolding test_bit
test_bit-not_bits zero x i h = ap (λ n. test_bit n i) none_left ∙ test_bit-zero i ∙ ground arith
  where
    none_left : not_bits 0 x ≡ 0
    none_left = omega arith
test_bit-not_bits (suc w) x zero h = ground (arith, pow-suc 2 w, one-le-pow w 2)
test_bit-not_bits (suc w) x (suc i) h =
    ap (λ n. test_bit n i) halves
    ∙ test_bit-not_bits w (x / 2) i (omega (arith, pow-suc 2 w))
    ∙ ground arith
  where
    halves : not_bits (suc w) x / 2 ≡ not_bits w (x / 2)
    halves = omega (arith, pow-suc 2 w)

pub mul-pow-suc : (q k : ℕ) → q * 2 ^ suc k ≡ 2 * (q * 2 ^ k)
mul-pow-suc q k = omega (arith, ap (λ (t : ℕ). q * t) (pow-suc 2 k))

-- A number split at bit `k`.
pub test_bit_fields :
    (k q r i : ℕ)
    → r < 2 ^ k
    → test_bit (q * 2 ^ k + r) i ≡ (if ltb i k then test_bit r i else test_bit q (i - k))
unfolding test_bit
test_bit_fields zero q r i h = ap₂ test_bit whole all_up ∙ ground arith
  where
    whole : q * 1 + r ≡ q
    whole = omega arith

    all_up : i ≡ i - 0
    all_up = omega arith
test_bit_fields (suc k) q r zero h = ground (arith, mul-pow-suc q k)
test_bit_fields (suc k) q r (suc i) h =
    ap (λ n. test_bit n i) halves
    ∙ test_bit_fields k q (r / 2) i (omega (arith, pow-suc 2 k))
    ∙ ground arith
  where
    halves : (q * 2 ^ suc k + r) / 2 ≡ q * 2 ^ k + r / 2
    halves = omega (arith, mul-pow-suc q k)

two_pow_pos : (k : ℕ) → 0 < 2 ^ k
two_pow_pos k = one-le-pow k 2 (omega arith)

mod-lt_pow : (n k : ℕ) → n % 2 ^ k < 2 ^ k
mod-lt_pow n k = mod-lt n (two_pow_pos k)

-- The bits of a number from its two parts.
test_bit_parts :
    (k n i : ℕ)
    → test_bit n i ≡ (if ltb i k then test_bit (n % 2 ^ k) i else test_bit (n / 2 ^ k) (i - k))
test_bit_parts k n i =
    ap (λ m. test_bit m i) (sym (div-add-mod' n (2 ^ k)))
    ∙ test_bit_fields k (n / 2 ^ k) (n % 2 ^ k) i (mod-lt_pow n k)

-- `n % 2 ^ k` keeps the low bits.
pub test_bit-mod : (k n i : ℕ) → test_bit (n % 2 ^ k) i ≡ (ltb i k && test_bit n i)
test_bit-mod k n i =
    ground (arith, test_bit_parts k n i, test_bit-high k (n % 2 ^ k) i (mod-lt_pow n k))

-- `n >> k`
pub test_bit-shr : (k n i : ℕ) → test_bit (n / 2 ^ k) i ≡ test_bit n (i + k)
test_bit-shr k n i =
    sym (test_bit_parts k n (i + k) ∙ rw (le→ltb (i + k) k (omega arith)) (ap (test_bit _) up))
  where
    up : i + k - k ≡ i
    up = omega arith

-- `n << k`
pub test_bit-shl :
    (k n i : ℕ) → test_bit (n * 2 ^ k) i ≡ (if ltb i k then false else test_bit n (i - k))
test_bit-shl k n i =
    ap (λ m. test_bit m i) none_low ∙ test_bit_fields k n 0 i (two_pow_pos k) ∙ rw (test_bit-zero i)
  where
    none_low : n * 2 ^ k ≡ n * 2 ^ k + 0
    none_low = omega arith

-- A mask of `k` low bits is the remainder by `2 ^ k`.
pub bit_and-low_mask : (k n : ℕ) → bit_and n (2 ^ k - 1) ≡ n % 2 ^ k
bit_and-low_mask k n =
    eq_of_test_bit _ _ (λ i. rw (test_bit-bit_and, test_bit-low_mask, test_bit-mod) (ground arith))

-- `|` of fields that do not meet is their sum.
pub bit_or-fields : (k q r : ℕ) → r < 2 ^ k → bit_or (q * 2 ^ k) r ≡ q * 2 ^ k + r
bit_or-fields k q r h = eq_of_test_bit _ _ (λ i.
    rw (test_bit-bit_or, test_bit-shl, test_bit_fields k q r i h)
      (ground (arith, test_bit-high k r i h)))

-- `n & !(2 ^ k - 1)` clears the low bits.
pub bit_and-high_mask :
    (w k n : ℕ) → n < 2 ^ w → k ≤ w → bit_and n (not_bits w (2 ^ k - 1)) ≡ n / 2 ^ k * 2 ^ k
bit_and-high_mask w k n h le = eq_of_test_bit _ _ (λ i.
    rw (test_bit-bit_and, test_bit-not_bits, mask_fits, test_bit-low_mask, test_bit-shl)
      (ground (arith, test_bit_parts k n i, test_bit-high w n i h)))
  where
    mask_fits : 2 ^ k - 1 < 2 ^ w
    mask_fits = omega (arith, pow-le-pow_right {n = 2} (omega arith) le, two_pow_pos k)
