-- ===== src/Address/Canonical.antt =====
-- `sign_extend` as arithmetic, and the canonical form of a virtual address.
use svsm.Base.{ℕ, ◌+◌, ◌-◌, ◌%◌, ◌^◌, ◌≤◌, ◌<◌, ◌≡◌, ◌↔◌, ◌⊎◌, arith, if◌then◌else◌, ltb}
use svsm.Bits.{bit_and-low_mask, test_bit_value, bit_and-two_pow, bit_or-high_mask}
use svsm.Address.{sign_extend}

-- Bit 47 decides: the bits above it are copies of it.
pub sign_extend_lem :
    (a : ℕ)
    → a < 2 ^ 64
    → sign_extend a
      ≡ (if ltb (a % 2 ^ 48) (2 ^ 47) then a % 2 ^ 47 else 2 ^ 64 - 2 ^ 47 + a % 2 ^ 47)
unfolding sign_extend
sign_extend_lem a h = ground (
  arith,
  bit_and-two_pow a 47,
  test_bit_value a 47,
  bit_or-high_mask 64 47 a h (omega arith),
  bit_and-low_mask 47 a,
)

-- An address is canonical when its 17 highest bits are alike.
abbrev pub IsCanonical : ℕ → Type 0
IsCanonical a = (a < 2 ^ 47) ⊎ ((2 ^ 64 - 2 ^ 47 ≤ a) × (a < 2 ^ 64))

-- `VirtAddr::new` and `from` make a canonical address of any 64-bit number, keep its 48 low
-- bits, and change nothing exactly when the number is canonical.
pub sign_extend-IsCanonical :
    (a : ℕ)
    → a < 2 ^ 64
    → IsCanonical (sign_extend a)
      × (sign_extend a % 2 ^ 48 ≡ a % 2 ^ 48)
      × ((sign_extend a ≡ a) ↔ IsCanonical a)
sign_extend-IsCanonical a h = ground (arith, sign_extend_lem a h)

pub canonical-lt : (a : ℕ) → IsCanonical a → a < 2 ^ 64
canonical-lt a c = omega arith

-- Only the 48 low bits count.
pub sign_extend-low :
    (a b : ℕ) → a < 2 ^ 64 → b < 2 ^ 64 → a % 2 ^ 48 ≡ b % 2 ^ 48 → sign_extend a ≡ sign_extend b
sign_extend-low a b ha hb e = ground (arith, sign_extend_lem a ha, sign_extend_lem b hb)

-- Extending again changes nothing.
pub sign_extend_idem : (a : ℕ) → a < 2 ^ 64 → sign_extend (sign_extend a) ≡ sign_extend a
sign_extend_idem a h =
    ((sign_extend-IsCanonical (sign_extend a) (canonical-lt _ (sign_extend-IsCanonical a h).0)).2).1
      (sign_extend-IsCanonical a h).0
