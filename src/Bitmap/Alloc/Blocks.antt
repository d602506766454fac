-- ===== src/Bitmap/Alloc/Blocks.antt =====
-- Multiples of an alignment.
use native.Mathlib.Nat.{div-add-mod', mod-lt, mul-mod_left, mul-le-mul_right, add-mod_right}
use native.Mathlib.Decide.{dec_lt}
use svsm.Base.{ℕ, ◌+◌, ◌-◌, ◌*◌, ◌/◌, ◌%◌, ◌≤◌, ◌<◌, ◌≡◌, ◌∙◌, arith}

-- Two multiples are at least one step apart.
pub multiples_apart : (a b m : ℕ) → b % a ≡ 0 → m % a ≡ 0 → b < m → b + a ≤ m
multiples_apart a b m hb hm h = elim (dec_lt (b / a) (m / a)) [
  | yes p ↦ omega (
    arith,
    div-add-mod' b a,
    div-add-mod' m a,
    mul-le-mul_right {m = b / a + 1} {n = m / a} a (omega arith),
  )
  | no p ↦ absurd (
      omega (
        arith,
        div-add-mod' b a,
        div-add-mod' m a,
        mul-le-mul_right {m = m / a} {n = b / a} a (omega arith),
      ))
]

pub next_multiple : (a o : ℕ) → o % a ≡ 0 → (o + a) % a ≡ 0
next_multiple a o h = add-mod_right o a ∙ h

-- The step from the multiple below `j - 1` is the first multiple from `j` on.
pub multiple_after :
    (a o j : ℕ)
    → 0 < a
    → o % a ≡ 0
    → o < j
    → let m = (j - 1) / a * a + a in (o < m) × (m % a ≡ 0) × ((b : ℕ) → b % a ≡ 0 → b < m → b < j)
multiple_after a o j pos ho h = (
  omega (arith, div-add-mod' (j - 1) a, mod-lt (j - 1) pos),
  next_multiple a _ (mul-mod_left _ a),
  λ b hb lt. omega (
    arith,
    div-add-mod' (j - 1) a,
    multiples_apart a b ((j - 1) / a * a + a) hb (next_multiple a _ (mul-mod_left _ a)) lt,
  ),
)
