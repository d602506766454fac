-- ===== src/Bitmap/Word.antt =====
-- `BitmapAllocator64`: one word of 64 bits.
pub mod Laws
use svsm.Base.{
  ℕ, ◌+◌, ◌-◌, ◌*◌, ◌%◌, ◌^◌, bit_and, bit_or, Bool, true, false, not, leb, ltb, ◌==◌,
  if◌then◌else◌, Option, none, some, Run, done, panic, ◌>>=◌, ◌>>◌, assert,
}
use svsm.Bits.{not_bits, trailing_ones, count_ones}
use svsm.Bitmap.Interface.{BitmapAllocator}

pub record BitmapAllocator64 : Type 0 where
  pub bits : ℕ

abbrev pub capacity : ℕ
capacity = 64

abbrev pub new_full : BitmapAllocator64
new_full = record { bits = 2 ^ 64 - 1 }

abbrev pub new_empty : BitmapAllocator64
new_empty = record { bits = 0 }

-- `x << k` on `u64`
abbrev pub shl64 : ℕ → ℕ → ℕ
shl64 x k = x * 2 ^ k % 2 ^ 64

-- The mask that `set` builds.
unfoldable pub range_mask : ℕ → ℕ → ℕ
range_mask start entries =
    let start_mask = not_bits 64 (shl64 1 start - 1) in
    let end_mask = shl64 (shl64 1 (start + entries - 1) - 1) 1 + 1 in bit_and start_mask end_mask

unfoldable pub set : BitmapAllocator64 → ℕ → ℕ → Bool → Run BitmapAllocator64
set b start entries value = do
  assert (ltb 0 entries)
  assert (leb (start + entries) capacity)
  let mask = range_mask start entries
  done (record { bits = if value then bit_or b.bits mask else bit_and b.bits (not_bits 64 mask) })

unfoldable pub next_free : BitmapAllocator64 → ℕ → Run (Option ℕ)
next_free b start = do
  assert (ltb start capacity)
  let mask = shl64 1 start - 1
  let idx = trailing_ones 64 (bit_or b.bits mask)
  done (if ltb idx capacity then some idx else none)

unfoldable pub get : BitmapAllocator64 → ℕ → Run Bool
get b offset = do assert (ltb offset capacity); done (not (bit_and b.bits (shl64 1 offset) == 0))

unfoldable pub empty : BitmapAllocator64 → Bool
empty b = b.bits == 0

unfoldable pub used : BitmapAllocator64 → ℕ
used b = count_ones 64 b.bits

abbrev pub word : BitmapAllocator BitmapAllocator64
word = record {
  capacity = capacity;
  set = set;
  next_free = next_free;
  get = get;
  empty = empty;
  used = used;
}
