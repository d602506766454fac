-- ===== src/Util/Align.antt =====
-- What the alignment functions compute, at an alignment that is a power of two.
use native.Mathlib.Nat.{
  one-le-pow, pow-le-pow_right, div-add-mod', mod-lt, mul-mod_left, add-mul-div_right, div-eq_of_lt,
  zero-add,
}
use svsm.Base.{
  ℕ, ◌+◌, ◌-◌, ◌*◌, ◌/◌, ◌%◌, ◌^◌, ◌≤◌, ◌<◌, ◌≡◌, ◌↔◌, ◌∙◌, ap, sym, true, arith, ◌==◌, ≡→==, ==→≡,
  max,
}
use svsm.Bits.{bit_and-low_mask, bit_and-high_mask}
use svsm.Util.{align_up, align_down, is_aligned, page_align_up, round_to_pages, page_size}
use svsm.Util.{sub_usize, add_usize, overlap}

-- The mask `align - 1` does not wrap.
mask_value : (k : ℕ) → k < 64 → sub_usize (2 ^ k) 1 ≡ 2 ^ k - 1
mask_value k h = omega (
  arith,
  one-le-pow k 2 (omega arith),
  pow-le-pow_right {n = 2} (omega arith) {i = k} {j = 63} (omega arith),
)

-- Rounding down drops the bits below the alignment.
pub align_down_lem :
    (k addr : ℕ) → k < 64 → addr < 2 ^ 64 → align_down addr (2 ^ k) ≡ addr / 2 ^ k * 2 ^ k
unfolding align_down
align_down_lem k addr h fits = rw (mask_value k h) (bit_and-high_mask 64 k addr fits (omega arith))

-- Rounding up is rounding down at the last byte of the block.
pub align_up_lem :
    (k addr : ℕ)
    → k < 64
    → addr + 2 ^ k ≤ 2 ^ 64
    → align_up addr (2 ^ k) ≡ (addr + (2 ^ k - 1)) / 2 ^ k * 2 ^ k
unfolding align_up
align_up_lem k addr h fits =
    rw (mask_value k h, no_wrap)
      (bit_and-high_mask 64 k (addr + (2 ^ k - 1)) (omega (arith, one-le-pow k 2)) (omega arith))
  where
    no_wrap : add_usize addr (2 ^ k - 1) ≡ addr + (2 ^ k - 1)
    no_wrap = omega (arith, one-le-pow k 2)

pub is_aligned_lem : (k addr : ℕ) → k < 64 → is_aligned addr (2 ^ k) ≡ (addr % 2 ^ k == 0)
unfolding is_aligned
is_aligned_lem k addr h = rw (mask_value k h, bit_and-low_mask k addr)

-- A block's start: below the number by less than the block, and a multiple of it.
block_bounds : (n b : ℕ) → 0 < b → (n / b * b ≤ n) × (n < n / b * b + b)
block_bounds n b h = omega (arith, div-add-mod' n b, mod-lt n h)

aligned_block : (k q : ℕ) → k < 64 → is_aligned (q * 2 ^ k) (2 ^ k) ≡ true
aligned_block k q h = is_aligned_lem k _ h ∙ ≡→== _ 0 (mul-mod_left q (2 ^ k))

-- At an alignment 2^k with k below 64, `align_down` gives the last aligned address that is not
-- above a 64-bit address, and `is_aligned` accepts it.
pub align_down-greatest :
    (k addr : ℕ)
    → k < 64
    → addr < 2 ^ 64
    → (is_aligned (align_down addr (2 ^ k)) (2 ^ k) ≡ true)
      × (align_down addr (2 ^ k) ≤ addr)
      × (addr < align_down addr (2 ^ k) + 2 ^ k)
align_down-greatest k addr h fits = rw (align_down_lem k addr h fits) (
  aligned_block k _ h,
  (block_bounds addr (2 ^ k) (one-le-pow k 2 (omega arith))).0,
  (block_bounds addr (2 ^ k) (one-le-pow k 2 (omega arith))).1,
)

-- At an alignment 2^k with k below 64, where the address plus the alignment is at most 2^64,
-- `align_up` gives the first aligned address that is not below the argument, and `is_aligned`
-- accepts it.
pub align_up-least :
    (k addr : ℕ)
    → k < 64
    → addr + 2 ^ k ≤ 2 ^ 64
    → (is_aligned (align_up addr (2 ^ k)) (2 ^ k) ≡ true)
      × (addr ≤ align_up addr (2 ^ k))
      × (align_up addr (2 ^ k) < addr + 2 ^ k)
align_up-least k addr h fits =
    rw (align_up_lem k addr h fits) (aligned_block k _ h, omega (arith, near), omega (arith, near))
  where
    pos : 0 < 2 ^ k
    pos = one-le-pow k 2 (omega arith)

    near :
        ((addr + (2 ^ k - 1)) / 2 ^ k * 2 ^ k ≤ addr + (2 ^ k - 1))
        × (addr + (2 ^ k - 1) < (addr + (2 ^ k - 1)) / 2 ^ k * 2 ^ k + 2 ^ k)
    near = block_bounds (addr + (2 ^ k - 1)) (2 ^ k) pos

up_of_multiple : (k n : ℕ) → n % 2 ^ k ≡ 0 → (n + (2 ^ k - 1)) / 2 ^ k * 2 ^ k ≡ n
up_of_multiple k n e =
    ap (λ q. q * 2 ^ k)
      (ap (λ m. m / 2 ^ k) split
        ∙ add-mul-div_right (2 ^ k - 1) (n / 2 ^ k) pos
        ∙ ap (λ m. m + n / 2 ^ k) (div-eq_of_lt {n = 2 ^ k - 1} {m = 2 ^ k} (omega (arith, pos)))
        ∙ zero-add (n / 2 ^ k))
    ∙ omega (arith, div-add-mod' n (2 ^ k), e)
  where
    pos : 0 < 2 ^ k
    pos = one-le-pow k 2 (omega arith)

    split : n + (2 ^ k - 1) ≡ 2 ^ k - 1 + n / 2 ^ k * 2 ^ k
    split = omega (arith, div-add-mod' n (2 ^ k), e)

-- At an alignment 2^k with k below 64, where the address plus the alignment is at most 2^64, an
-- address is aligned exactly when neither rounding moves it.
pub is_aligned-iff-fixed :
    (k addr : ℕ)
    → k < 64
    → addr + 2 ^ k ≤ 2 ^ 64
    → ((is_aligned addr (2 ^ k) ≡ true) ↔ (align_down addr (2 ^ k) ≡ addr))
      × ((is_aligned addr (2 ^ k) ≡ true) ↔ (align_up addr (2 ^ k) ≡ addr))
is_aligned-iff-fixed k addr h fits = (
  (
    (λ al. align_down_lem k addr h (omega (arith, pos)) ∙ sym (whole al)),
    λ e. rw e at ((align_down-greatest k addr h (omega (arith, pos))).0),
  ),
  (
    (λ al. align_up_lem k addr h fits ∙ up_of_multiple k addr (rest al)),
    λ e. rw e at ((align_up-least k addr h fits).0),
  ),
)
  where
    pos : 0 < 2 ^ k
    pos = one-le-pow k 2 (omega arith)

    rest : is_aligned addr (2 ^ k) ≡ true → addr % 2 ^ k ≡ 0
    rest al = ==→≡ _ 0 (sym (is_aligned_lem k addr h) ∙ al)

    whole : is_aligned addr (2 ^ k) ≡ true → addr ≡ addr / 2 ^ k * 2 ^ k
    whole al = omega (arith, div-add-mod' addr (2 ^ k), rest al)

-- Where `x` plus a page is at most 2^64, `round_to_pages` is the number of pages that hold `x`
-- bytes.
pub round_to_pages_lem :
    (x : ℕ)
    → x + page_size ≤ 2 ^ 64
    → (x ≤ round_to_pages x * page_size) × (round_to_pages x * page_size < x + page_size)
unfolding round_to_pages page_align_up
round_to_pages_lem x h = omega (arith, align_up_lem 12 x (omega arith) h)

-- For two closed ranges whose ends are not before their starts, `overlap` is a test for a common
-- point.
pub overlap_iff :
    (x1 x2 y1 y2 : ℕ)
    → x1 ≤ x2
    → y1 ≤ y2
    → (overlap x1 x2 y1 y2 ≡ true) ↔ ((n : ℕ) × (x1 ≤ n) × (n ≤ x2) × (y1 ≤ n) × (n ≤ y2))
unfolding overlap
overlap_iff x1 x2 y1 y2 hx hy = (
  (λ h. (max x1 y1, ground arith, ground arith, ground arith, ground arith)),
  λ (n, a, b, c, d). ground arith,
)
