-- ===== src/Address.antt =====
-- kernel/src/address.rs: physical and virtual addresses over `usize` (64 bits). An address is its
-- inner number; the trait `Address` is the record `AddressKind`, with what the two implementations
-- do differently, and its provided methods are functions over a kind. Pointer conversions and
-- slices are left out. Sums and differences wrap, as they do in the release build.
pub mod Canonical
pub mod Arith
mod Tests
use svsm.Base.{
  ℕ, ◌+◌, ◌-◌, ◌*◌, ◌/◌, ◌%◌, ◌^◌, bit_and, bit_or, Bool, not, leb, ltb, ◌==◌, if◌then◌else◌,
  Option, none, some,
}
use svsm.Bits.{not_bits}
use svsm.Util.{page_size, page_shift, add_usize, sub_usize, align_up, align_down, is_aligned}

abbrev pub sign_bit : ℕ
sign_bit = 47

unfoldable pub sign_extend : ℕ → ℕ
sign_extend addr =
    let mask = 2 ^ sign_bit in
    if bit_and addr mask == mask
    then bit_or addr (not_bits 64 (2 ^ sign_bit - 1))
    else bit_and addr (2 ^ sign_bit - 1)

-- `usize::checked_add`, `checked_sub` and `saturating_add`
abbrev pub checked_add_usize : ℕ → ℕ → Option ℕ
checked_add_usize a b = if ltb (a + b) (2 ^ 64) then some (a + b) else none

abbrev pub checked_sub_usize : ℕ → ℕ → Option ℕ
checked_sub_usize a b = if leb b a then some (a - b) else none

abbrev pub saturating_add_usize : ℕ → ℕ → ℕ
saturating_add_usize a b = if ltb (a + b) (2 ^ 64) then a + b else 2 ^ 64 - 1

abbrev map_option : (ℕ → ℕ) → Option ℕ → Option ℕ
map_option f none = none
map_option f (some a) = some (f a)

-- What an implementation of the trait supplies: `From<InnerAddr>` and the two checked operations.
pub record AddressKind : Type 0 where
  pub from : ℕ → ℕ
  pub checked_add : ℕ → ℕ → Option ℕ
  pub checked_sub : ℕ → ℕ → Option ℕ

-- `PhysAddr` keeps the methods that the trait provides.
abbrev pub phys_addr : AddressKind
phys_addr = record {
  from = λ a. a;
  checked_add = λ a off. map_option (λ n. n) (checked_add_usize a off);
  checked_sub = λ a off. map_option (λ n. n) (checked_sub_usize a off);
}

-- `VirtAddr` sign-extends whatever it is made from.
abbrev pub virt_addr : AddressKind
virt_addr = record {
  from = sign_extend;
  checked_add = λ a off. map_option (λ n. sign_extend (sign_extend n)) (checked_add_usize a off);
  checked_sub = λ a off. map_option (λ n. sign_extend (sign_extend n)) (checked_sub_usize a off);
}

-- The methods that the trait provides.
module _ (kind : AddressKind) where
  unfoldable pub addr_align_up : ℕ → ℕ → ℕ
  addr_align_up a align = kind.from (align_up a align)

  unfoldable pub addr_align_down : ℕ → ℕ → ℕ
  addr_align_down a align = kind.from (align_down a align)

  unfoldable pub page_align_up : ℕ → ℕ
  page_align_up a = addr_align_up a page_size

  unfoldable pub page_align : ℕ → ℕ
  page_align a = addr_align_down a page_size

  unfoldable pub saturating_add : ℕ → ℕ → ℕ
  saturating_add a off = kind.from (saturating_add_usize a off)

unfoldable pub is_null : ℕ → Bool
is_null a = a == 0

unfoldable pub is_page_aligned : ℕ → Bool
is_page_aligned a = is_aligned a page_size

unfoldable pub page_offset : ℕ → ℕ
page_offset a = bit_and a (page_size - 1)

unfoldable pub crosses_page : ℕ → ℕ → Bool
crosses_page start size =
    let x1 = start / page_size in
    let x2 = add_usize start (sub_usize size 1) / page_size in not (x1 == x2)

unfoldable pub pfn : ℕ → ℕ
pfn a = a / 2 ^ page_shift

-- `PhysAddr`: sums and differences.
unfoldable pub phys_add : ℕ → ℕ → ℕ
phys_add a off = add_usize a off

unfoldable pub phys_sub : ℕ → ℕ → ℕ
phys_sub a b = sub_usize a b

-- `VirtAddr`: sums and differences. The difference of two addresses keeps 48 bits.
unfoldable pub virt_add : ℕ → ℕ → ℕ
virt_add a off = sign_extend (add_usize a off)

unfoldable pub virt_sub : ℕ → ℕ → ℕ
virt_sub a off = sign_extend (sub_usize a off)

unfoldable pub virt_diff : ℕ → ℕ → ℕ
virt_diff a b = bit_and (sub_usize a b) (2 ^ (sign_bit + 1) - 1)

-- `to_pgtbl_idx::<L>`
unfoldable pub to_pgtbl_idx : ℕ → ℕ → ℕ
to_pgtbl_idx l a = bit_and (a / 2 ^ (12 + l * 9)) 0x1ff
