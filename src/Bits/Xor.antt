-- ===== src/Bits/Xor.antt =====
-- The two blocks of 2^k that `^ (1 << k)` takes to each other.
use native.Mathlib.Nat.{div-add-mod', mul-mod_left}
use svsm.Base.{
  ℕ, Bool, true, false, Bool-cases, ◌==◌, refl, zero, suc, ◌+◌, ◌*◌, ◌/◌, ◌%◌, ◌^◌, bit_xor, ◌≡◌,
  ◌∙◌, sym, ap, ap₂, subst, inl, inr, ◌⊎◌, arith,
}
use mathlib.Core.Bool.{xor}
use svsm.Bits.Step.{bit_xor_low, test_bit, test_bit-zero, test_bit-bit_xor, eq_of_test_bit}
use svsm.Bits.Words.{mul-pow-suc}

bit_xor-scale : (k a b : ℕ) → bit_xor (a * 2 ^ k) (b * 2 ^ k) ≡ bit_xor a b * 2 ^ k
bit_xor-scale zero a b = ap₂ bit_xor (one a) (one b) ∙ sym (one (bit_xor a b))
  where
    one : (n : ℕ) → n * 2 ^ 0 ≡ n
    one n = omega arith
bit_xor-scale (suc k) a b =
    bit_xor_low (a * 2 ^ suc k) (b * 2 ^ suc k)
    ∙ rw
        (
          half (a * 2 ^ suc k) (a * 2 ^ k) (mul-pow-suc a k),
          half (b * 2 ^ suc k) (b * 2 ^ k) (mul-pow-suc b k),
          even (a * 2 ^ suc k) (a * 2 ^ k) (mul-pow-suc a k),
          even (b * 2 ^ suc k) (b * 2 ^ k) (mul-pow-suc b k),
        )
        (omega (arith, bit_xor-scale k a b, mul-pow-suc (bit_xor a b) k))
  where
    half : (m n : ℕ) → m ≡ 2 * n → m / 2 ≡ n
    half m n e = omega arith

    even : (m n : ℕ) → m ≡ 2 * n → m % 2 ≡ 0
    even m n e = omega arith

xor_zero : (n : ℕ) → bit_xor n 0 ≡ n
unfolding xor
xor_zero n = eq_of_test_bit _ _ (λ i.
    test_bit-bit_xor n 0 i ∙ ap (xor (test_bit n i)) (test_bit-zero i) ∙ none_set (test_bit n i))
  where
    none_set : (b : Bool) → xor b false ≡ b
    none_set false = refl
    none_set true = refl

xor_even : (n : ℕ) → bit_xor (n * 2) 1 ≡ n * 2 + 1
xor_even n = bit_xor_low (n * 2) 1 ∙ rw (half, even) (rw (xor_zero n) refl)
  where
    half : n * 2 / 2 ≡ n
    half = omega arith

    even : n * 2 % 2 ≡ 0
    even = omega arith

xor_odd : (n : ℕ) → bit_xor (n * 2 + 1) 1 ≡ n * 2
xor_odd n = bit_xor_low (n * 2 + 1) 1 ∙ rw (half, odd) (rw (xor_zero n) (omega arith))
  where
    half : (n * 2 + 1) / 2 ≡ n
    half = omega arith

    odd : (n * 2 + 1) % 2 ≡ 1
    odd = omega arith

double_multiple : (k n : ℕ) → n * 2 * 2 ^ k % 2 ^ suc k ≡ 0
double_multiple k n =
    subst (λ m. m % 2 ^ suc k ≡ 0) {x = n * 2 ^ suc k} (omega (arith, mul-pow-suc n k))
      (mul-mod_left n (2 ^ suc k))

-- A multiple of 2^k and its neighbour are the two halves of a multiple of 2^(k + 1).
pub xor_halves :
    (k p : ℕ)
    → p % 2 ^ k ≡ 0
    → ((bit_xor p (2 ^ k) ≡ p + 2 ^ k) × (p % 2 ^ suc k ≡ 0))
      ⊎ ((bit_xor p (2 ^ k) + 2 ^ k ≡ p) × (bit_xor p (2 ^ k) % 2 ^ suc k ≡ 0))
xor_halves k p h = parity (p / 2 ^ k) (omega (arith, div-add-mod' p (2 ^ k)))
  where
    once : (m : ℕ) → m ≡ 1 * m
    once m = omega arith

    scaled : (a : ℕ) → p ≡ a * 2 ^ k → bit_xor p (2 ^ k) ≡ bit_xor a 1 * 2 ^ k
    scaled a e = ap₂ bit_xor e (once (2 ^ k)) ∙ bit_xor-scale k a 1

    parity :
        (a : ℕ)
        → p ≡ a * 2 ^ k
        → ((bit_xor p (2 ^ k) ≡ p + 2 ^ k) × (p % 2 ^ suc k ≡ 0))
          ⊎ ((bit_xor p (2 ^ k) + 2 ^ k ≡ p) × (bit_xor p (2 ^ k) % 2 ^ suc k ≡ 0))
    parity a e = elim (Bool-cases (a % 2 == 0)) [
      | inl z ↦
          let n = a / 2 in
          let same : a ≡ n * 2 = ground arith in
          let value : bit_xor p (2 ^ k) ≡ (n * 2 + 1) * 2 ^ k =
            scaled a e ∙ ap (λ m. m * 2 ^ k) (ap (λ m. bit_xor m 1) same ∙ xor_even n) in
          let at : p ≡ n * 2 * 2 ^ k = e ∙ ap (λ m. m * 2 ^ k) same in
          inl (value ∙ omega arith, subst (λ m. m % 2 ^ suc k ≡ 0) (sym at) (double_multiple k n))
      | inr z ↦
          let n = a / 2 in
          let same : a ≡ n * 2 + 1 = ground arith in
          let value : bit_xor p (2 ^ k) ≡ n * 2 * 2 ^ k =
            scaled a e ∙ ap (λ m. m * 2 ^ k) (ap (λ m. bit_xor m 1) same ∙ xor_odd n) in
          let at : p ≡ (n * 2 + 1) * 2 ^ k = e ∙ ap (λ m. m * 2 ^ k) same in
          inr (omega arith, subst (λ m. m % 2 ^ suc k ≡ 0) (sym value) (double_multiple k n))
    ]
