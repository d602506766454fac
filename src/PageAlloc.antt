-- ===== src/PageAlloc.antt =====
-- kernel/src/mm/alloc.rs: how the page allocator stores what it knows of a page in 64 bits.
-- `PageStorageType` is that word, as a number; `%` is written where bits leave it. The heap
-- region and its free lists are in `Region`, `Take` and `Give`; the slabs are not modelled.
pub mod RoundTrip
pub mod Region
pub mod Take
pub mod Give
pub mod Lists
pub mod Frame
pub mod Heap
pub mod Taking
pub mod Splitting
pub mod Total
pub mod Orders
pub mod Refilling
pub mod Allocating
pub mod Merging
pub mod Keeping
pub mod Initial
pub mod Filling
pub mod Setup
pub mod Neighbours
pub mod Freeing
pub mod Returning
pub mod FilePages
pub mod Unlinking
pub mod Walking
pub mod Distinct
pub mod Choosing
pub mod Giving
mod Tests
use svsm.Base.{
  ℕ, ◌-◌, ◌*◌, ◌/◌, ◌%◌, ◌^◌, bit_and, bit_or, Bool, ◌==◌, if◌then◌else◌, Option, none, some, Run,
  done, panic,
}
use svsm.Bits.{not_bits}

abbrev pub max_order : ℕ
max_order = 6

-- `usize::MAX`
abbrev pub no_page : ℕ
no_page = 2 ^ 64 - 1

pub data PageType : Type 0 where
  free : PageType
  allocated : PageType
  slab_page : PageType
  compound : PageType
  file : PageType
  reserved : PageType

abbrev pub discriminant : PageType → ℕ
discriminant free = 0
discriminant allocated = 1
discriminant slab_page = 2
discriminant compound = 3
discriminant file = 4
discriminant reserved = 2 ^ 4 - 1

-- `TryFrom<u64>`
unfoldable pub try_from : ℕ → Option PageType
try_from val =
    if val == 0
    then some free
    else (if val == 1
        then some allocated
        else (if val == 2
            then some slab_page
            else (if val == 3
                then some compound
                else (if val == 4
                    then some file
                    else (if val == 2 ^ 4 - 1 then some reserved else none)))))

abbrev pub type_mask : ℕ
type_mask = 2 ^ 4 - 1

-- `!((1 << NEXT_SHIFT) - 1)`
abbrev pub next_mask : ℕ
next_mask = not_bits 64 (2 ^ 12 - 1)

-- `NO_PAGE & NEXT_MASK`
abbrev pub no_next : ℕ
no_next = 2 ^ 64 - 2 ^ 12

abbrev pub order_mask : ℕ
order_mask = 2 ^ 8 - 1

abbrev pub slab_mask : ℕ
slab_mask = 0xFFFF

unfoldable pub encode_order : ℕ → ℕ → ℕ
encode_order mem order = bit_or mem (bit_and order order_mask * 2 ^ 4)

unfoldable pub encode_next : ℕ → ℕ → ℕ
encode_next mem next_page =
    bit_or mem
      (if next_page == no_page then no_next else bit_and (next_page * 2 ^ 12 % 2 ^ 64) next_mask)

unfoldable pub encode_slab : ℕ → ℕ → ℕ
encode_slab mem slab = bit_or mem (bit_and slab slab_mask * 2 ^ 4)

unfoldable pub encode_refcount : ℕ → ℕ → ℕ
encode_refcount mem refcount = bit_or mem (refcount * 2 ^ 4 % 2 ^ 64)

unfoldable pub decode_order : ℕ → ℕ
decode_order mem = bit_and (mem / 2 ^ 4) order_mask

unfoldable pub decode_next : ℕ → ℕ
decode_next mem =
    let next = bit_and mem next_mask in if next == no_next then no_page else next / 2 ^ 12

unfoldable pub decode_slab : ℕ → ℕ
decode_slab mem = bit_and (mem / 2 ^ 4) slab_mask

unfoldable pub decode_refcount : ℕ → ℕ
decode_refcount mem = mem / 2 ^ 4

unfoldable pub page_type : ℕ → Option PageType
page_type mem = try_from (bit_and mem type_mask)

pub data PageInfo : Type 0 where
  free : (next_page order : ℕ) → PageInfo
  allocated : (order : ℕ) → PageInfo
  slab : (item_size : ℕ) → PageInfo
  compound : (order : ℕ) → PageInfo
  file : (ref_count : ℕ) → PageInfo
  reserved : PageInfo

-- `FreeInfo::encode` and `FreeInfo::decode`, and so on for each kind of page.
abbrev pub encode_free : ℕ → ℕ → ℕ
encode_free next_page order = encode_next (encode_order (discriminant free) order) next_page

abbrev pub decode_free : ℕ → PageInfo
decode_free mem = free (decode_next mem) (decode_order mem)

abbrev pub encode_allocated : ℕ → ℕ
encode_allocated order = encode_order (discriminant allocated) order

abbrev pub decode_allocated : ℕ → PageInfo
decode_allocated mem = allocated (decode_order mem)

abbrev pub encode_slab_page : ℕ → ℕ
encode_slab_page item_size = encode_slab (discriminant slab_page) item_size

abbrev pub decode_slab_page : ℕ → PageInfo
decode_slab_page mem = slab (decode_slab mem)

abbrev pub encode_compound : ℕ → ℕ
encode_compound order = encode_order (discriminant compound) order

abbrev pub decode_compound : ℕ → PageInfo
decode_compound mem = compound (decode_order mem)

abbrev pub encode_file : ℕ → ℕ
encode_file ref_count = encode_refcount (discriminant file) ref_count

abbrev pub decode_file : ℕ → PageInfo
decode_file mem = file (decode_refcount mem)

abbrev pub encode_reserved : ℕ
encode_reserved = discriminant reserved

unfoldable pub to_mem : PageInfo → ℕ
to_mem (free next_page order) = encode_free next_page order
to_mem (allocated order) = encode_allocated order
to_mem (slab item_size) = encode_slab_page item_size
to_mem (compound order) = encode_compound order
to_mem (file ref_count) = encode_file ref_count
to_mem reserved = encode_reserved

abbrev pub decode : PageType → ℕ → PageInfo
decode free mem = decode_free mem
decode allocated mem = decode_allocated mem
decode slab_page mem = decode_slab_page mem
decode compound mem = decode_compound mem
decode file mem = decode_file mem
decode reserved mem = reserved

-- An unknown page type is a panic.
abbrev pub decode_as : Option PageType → ℕ → Run PageInfo
decode_as none mem = panic
decode_as (some t) mem = done (decode t mem)

unfoldable pub from_mem : ℕ → Run PageInfo
from_mem mem = decode_as (page_type mem) mem
