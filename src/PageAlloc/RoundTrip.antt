-- ===== src/PageAlloc/RoundTrip.antt =====
-- The stored word of a page gives the page's information back.
use svsm.Base.{
  ℕ, ◌+◌, ◌-◌, ◌*◌, ◌/◌, ◌%◌, ◌^◌, ◌<◌, ◌≡◌, ◌⊎◌, inl, inr, refl, ◌∙◌, ap, ap₂, bit_or, ◌==◌,
  if◌then◌else◌, some, done, Bool-cases, arith, ==→≡,
}
use svsm.Bits.{test_bit-bit_or, eq_of_test_bit, bit_and-low_mask, bit_or-fields, bit_and-high_mask}
use svsm.PageAlloc.{
  no_page, PageType, discriminant, try_from, encode_order, encode_next, encode_slab,
  encode_refcount, decode_order, decode_next, decode_slab, decode_refcount, page_type, PageInfo,
  to_mem, from_mem, decode, decode_as, free, allocated, slab, slab_page, compound, file, reserved,
}

bit_or_comm : (m n : ℕ) → bit_or m n ≡ bit_or n m
bit_or_comm m n =
    eq_of_test_bit _ _ (λ i. test_bit-bit_or m n i ∙ ground (arith, test_bit-bit_or n m i))

-- A field put above a word of `k` bits.
put_field : (k m q : ℕ) → m < 2 ^ k → bit_or m (q * 2 ^ k) ≡ q * 2 ^ k + m
put_field k m q h = bit_or_comm m (q * 2 ^ k) ∙ bit_or-fields k q m h

encode_order_lem : (m order : ℕ) → m < 2 ^ 4 → encode_order m order ≡ order % 2 ^ 8 * 2 ^ 4 + m
unfolding encode_order
encode_order_lem m order h = rw (bit_and-low_mask 8 order) (put_field 4 m (order % 2 ^ 8) h)

encode_slab_lem : (m item : ℕ) → m < 2 ^ 4 → encode_slab m item ≡ item % 2 ^ 16 * 2 ^ 4 + m
unfolding encode_slab
encode_slab_lem m item h = rw (bit_and-low_mask 16 item) (put_field 4 m (item % 2 ^ 16) h)

encode_refcount_lem :
    (m refcount : ℕ)
    → m < 2 ^ 4
    → refcount < 2 ^ 60
    → encode_refcount m refcount ≡ refcount * 2 ^ 4 + m
unfolding encode_refcount
encode_refcount_lem m refcount h lt = ap (bit_or m) (omega arith) ∙ put_field 4 m refcount h

-- The place where the next page is stored.
abbrev next_field : ℕ → ℕ
next_field next_page = if next_page == no_page then 2 ^ 52 - 1 else next_page

encode_next_lem :
    (m next_page : ℕ)
    → m < 2 ^ 12
    → (next_page ≡ no_page ⊎ next_page < 2 ^ 52 - 1)
    → encode_next m next_page ≡ next_field next_page * 2 ^ 12 + m
unfolding encode_next
encode_next_lem m next_page h (inl e) = rw e (put_field 12 m (2 ^ 52 - 1) h)
encode_next_lem m next_page h (inr lt) =
    rw (bit_and-high_mask 64 12 (next_page * 2 ^ 12 % 2 ^ 64) (omega arith) (omega arith))
      (elim (Bool-cases (next_page == no_page)) [
        | inl e ↦ absurd (omega (arith, ==→≡ next_page no_page e))
        | inr e ↦ rw e (ap (bit_or m) shifted ∙ put_field 12 m next_page h)
      ])
  where
    shifted : next_page * 2 ^ 12 % 2 ^ 64 / 2 ^ 12 * 2 ^ 12 ≡ next_page * 2 ^ 12
    shifted = omega arith

-- Decoding is reading the fields.
decode_order_lem : (mem : ℕ) → decode_order mem ≡ mem / 2 ^ 4 % 2 ^ 8
unfolding decode_order
decode_order_lem mem = bit_and-low_mask 8 (mem / 2 ^ 4)

decode_slab_lem : (mem : ℕ) → decode_slab mem ≡ mem / 2 ^ 4 % 2 ^ 16
unfolding decode_slab
decode_slab_lem mem = bit_and-low_mask 16 (mem / 2 ^ 4)

decode_next_lem :
    (mem : ℕ)
    → mem < 2 ^ 64
    → decode_next mem ≡ (if mem / 2 ^ 12 == 2 ^ 52 - 1 then no_page else mem / 2 ^ 12)
unfolding decode_next
decode_next_lem mem lt = rw (bit_and-high_mask 64 12 mem lt (omega arith)) (ground arith)

next_back :
    (next_page low : ℕ)
    → low < 2 ^ 12
    → (next_page ≡ no_page ⊎ next_page < 2 ^ 52 - 1)
    → (if (next_field next_page * 2 ^ 12 + low) / 2 ^ 12 == 2 ^ 52 - 1
        then no_page
        else (next_field next_page * 2 ^ 12 + low) / 2 ^ 12)
      ≡ next_page
next_back next_page low h (inl e) = ground arith
next_back next_page low h (inr lt) = ground arith

refcount_decoded : (mem : ℕ) → decode_refcount mem ≡ mem / 2 ^ 4
unfolding decode_refcount
refcount_decoded mem = refl

page_type_lem : (mem : ℕ) → page_type mem ≡ try_from (mem % 2 ^ 4)
unfolding page_type
page_type_lem mem = ap try_from (bit_and-low_mask 4 mem)

try_from-discriminant : (t : PageType) → try_from (discriminant t) ≡ some t
unfolding try_from
try_from-discriminant free = refl
try_from-discriminant allocated = refl
try_from-discriminant slab_page = refl
try_from-discriminant compound = refl
try_from-discriminant file = refl
try_from-discriminant reserved = refl

-- A word whose low four bits are the discriminant of `t` is decoded as a `t`.
from_mem-of :
    (t : PageType) (mem : ℕ) → mem % 2 ^ 4 ≡ discriminant t → from_mem mem ≡ done (decode t mem)
unfolding from_mem
from_mem-of t mem e =
    ap (λ o. decode_as o mem) (page_type_lem mem ∙ ap try_from e ∙ try_from-discriminant t)

-- The information that fits the fields of the word.
abbrev pub IsStorable : PageInfo → Type 0
IsStorable (free next_page order) = (next_page ≡ no_page ⊎ next_page < 2 ^ 52 - 1) × (order < 2 ^ 8)
IsStorable (allocated order) = order < 2 ^ 8
IsStorable (slab item_size) = item_size < 2 ^ 16
IsStorable (compound order) = order < 2 ^ 8
IsStorable (file ref_count) = ref_count < 2 ^ 60
IsStorable reserved = Unit

-- The information on a page that fits the stored word - an order below 256, a next page that is
-- `NO_PAGE` or an index below 2^52 - 1, an item size below 2^16, a reference count below 2^60 - is
-- stored in 64 bits and read back from them, and reading it does not panic.
pub from_mem-to_mem :
    (info : PageInfo)
    → IsStorable info
    → (to_mem info < 2 ^ 64) × (from_mem (to_mem info) ≡ done info)
unfolding to_mem
from_mem-to_mem (free next_page order) (next, small) =
    let mem = next_field next_page * 2 ^ 12 + (order % 2 ^ 8 * 2 ^ 4 + 0) in
    let lt : mem < 2 ^ 64 = elim next [ inl e ↦ ground arith | inr h ↦ ground arith ] in
    rw
      (
        encode_order_lem 0 order (omega arith),
        encode_next_lem (order % 2 ^ 8 * 2 ^ 4 + 0) next_page (omega arith) next,
      )
      (
        lt,
        from_mem-of free mem (omega arith)
            ∙ ap₂ (λ n o. done (free n o))
                (decode_next_lem mem lt
                  ∙ next_back next_page (order % 2 ^ 8 * 2 ^ 4 + 0) (omega arith) next)
                (decode_order_lem mem ∙ omega arith),
      )
from_mem-to_mem (allocated order) small =
    let mem = order % 2 ^ 8 * 2 ^ 4 + 1 in
    rw (encode_order_lem 1 order (omega arith)) (
      omega arith,
      from_mem-of allocated mem (omega arith)
          ∙ ap (λ o. done (allocated o)) (decode_order_lem mem ∙ omega arith),
    )
from_mem-to_mem (slab item_size) small =
    let mem = item_size % 2 ^ 16 * 2 ^ 4 + 2 in
    rw (encode_slab_lem 2 item_size (omega arith)) (
      omega arith,
      from_mem-of slab_page mem (omega arith)
          ∙ ap (λ o. done (slab o)) (decode_slab_lem mem ∙ omega arith),
    )
from_mem-to_mem (compound order) small =
    let mem = order % 2 ^ 8 * 2 ^ 4 + 3 in
    rw (encode_order_lem 3 order (omega arith)) (
      omega arith,
      from_mem-of compound mem (omega arith)
          ∙ ap (λ o. done (compound o)) (decode_order_lem mem ∙ omega arith),
    )
from_mem-to_mem (file ref_count) small =
    let mem = ref_count * 2 ^ 4 + 4 in
    rw (encode_refcount_lem 4 ref_count (omega arith) small) (
      omega arith,
      from_mem-of file mem (omega arith)
          ∙ ap (λ c. done (file c)) (refcount_decoded mem ∙ omega arith),
    )
from_mem-to_mem reserved small = (omega arith, from_mem-of reserved 15 refl)
