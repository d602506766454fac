-- ===== src/Util.antt =====
-- kernel/src/utils/util.rs and the page sizes of kernel/src/types.rs. The functions are generic over
-- the integer type; the kernel calls them at `usize`, a word of 64 bits. Sums and differences wrap,
-- as they do in the release build.
pub mod Align
mod Tests
use svsm.Base.{ℕ, ◌+◌, ◌-◌, ◌*◌, ◌/◌, ◌%◌, ◌^◌, bit_and, Bool, leb, ◌&&◌, ◌==◌}
use svsm.Bits.{not_bits}

abbrev pub page_shift : ℕ
page_shift = 12

abbrev pub page_shift_2m : ℕ
page_shift_2m = 21

abbrev pub page_shift_1g : ℕ
page_shift_1g = 30

abbrev pub page_size : ℕ
page_size = 2 ^ page_shift

abbrev pub page_size_2m : ℕ
page_size_2m = 2 ^ page_shift_2m

abbrev pub page_size_1g : ℕ
page_size_1g = 2 ^ page_shift_1g

pub data PageSize : Type 0 where
  regular huge : PageSize

-- `usize::from`
abbrev pub bytes : PageSize → ℕ
bytes regular = page_size
bytes huge = page_size_2m

-- `usize` addition and subtraction.
abbrev pub add_usize : ℕ → ℕ → ℕ
add_usize a b = (a + b) % 2 ^ 64

abbrev pub sub_usize : ℕ → ℕ → ℕ
sub_usize a b = (a + 2 ^ 64 - b) % 2 ^ 64

unfoldable pub align_up : ℕ → ℕ → ℕ
align_up addr align =
    let mask = sub_usize align 1 in bit_and (add_usize addr mask) (not_bits 64 mask)

unfoldable pub align_down : ℕ → ℕ → ℕ
align_down addr align = bit_and addr (not_bits 64 (sub_usize align 1))

unfoldable pub is_aligned : ℕ → ℕ → Bool
is_aligned addr align = bit_and addr (sub_usize align 1) == 0

unfoldable pub page_align_up : ℕ → ℕ
page_align_up x = align_up x page_size

unfoldable pub round_to_pages : ℕ → ℕ
round_to_pages x = page_align_up x / page_size

unfoldable pub page_offset : ℕ → ℕ
page_offset x = bit_and x (page_size - 1)

unfoldable pub overlap : ℕ → ℕ → ℕ → ℕ → Bool
overlap x1 x2 y1 y2 = leb x1 y2 && leb y1 x2
