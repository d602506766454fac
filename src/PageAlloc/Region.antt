-- ===== src/PageAlloc/Region.antt =====
-- `HeapMemoryRegion`: its fields, the words at `metadata_addr` as a function of the page number, and
-- the access to them. A panic is `Run.panic`, an `AllocError` is `err`; a method that can fail
-- returns the region with its result. Sums and differences wrap, as they do in the release build.
use svsm.Base.{
  ℕ, ◌+◌, ◌*◌, ◌/◌, ◌%◌, ◌^◌, Bool, true, false, ◌&&◌, ◌==◌, leb, ltb, if◌then◌else◌, Option, none,
  some, List, get_elem?, replicate, Run, done, panic, ◌>>=◌, ◌>>◌, assert, unwrap,
}
use svsm.Base
use svsm.Util.{page_size, add_usize, sub_usize}
use svsm.Address.{virt_add, virt_diff, phys_add, phys_sub}
use svsm.PageAlloc.{
  no_page, PageInfo, free, allocated, slab, compound, file, reserved, to_mem, from_mem,
}

pub data AllocError : Type 0 where
  invalid_page_type : AllocError
  invalid_heap_address : (vaddr : ℕ) → AllocError
  out_of_memory : AllocError
  invalid_page_order : (order : ℕ) → AllocError
  invalid_file_page : (vaddr : ℕ) → AllocError
  invalid_pfn : (pfn : ℕ) → AllocError
  invalid_layout : AllocError

pub data Result (A : Type 0) : Type 0 where
  ok : A → Result A
  err : AllocError → Result A

pub record HeapMemoryRegion : Type 0 where
  pub start_phys : ℕ
  pub start_virt : ℕ
  pub metadata_addr : ℕ
  pub page_count : ℕ
  pub nr_pages : List ℕ
  pub next_page : List ℕ
  pub free_pages : List ℕ
  pub page_info : ℕ → ℕ

-- What a method that can fail does to the region, and `?` after it.
abbrev pub Outcome : Type 0 → Type 0
Outcome A = Run (HeapMemoryRegion × Result A)

abbrev pub continue :
    {A B : Type 0} → HeapMemoryRegion × Result A → (A → HeapMemoryRegion → Outcome B) → Outcome B
continue (r, ok a) f = f a r
continue (r, err e) f = done (r, err e)

infixl 5 ◌>>?◌
abbrev pub ◌>>?◌ : {A B : Type 0} → Outcome A → (A → HeapMemoryRegion → Outcome B) → Outcome B
m >>? f = m >>= λ out. continue out f

abbrev pub new : HeapMemoryRegion
new = record {
  start_phys = 0;
  start_virt = 0;
  metadata_addr = 0;
  page_count = 0;
  nr_pages = replicate 6 0;
  next_page = replicate 6 no_page;
  free_pages = replicate 6 0;
  page_info = λ pfn. 0;
}

-- An index into an array, which panics out of range, and `+=` and `-=` on an entry.
abbrev pub index : List ℕ → ℕ → Run ℕ
index xs i = unwrap (get_elem? xs i)

abbrev pub add_at : List ℕ → ℕ → ℕ → Run (List ℕ)
add_at xs i n = index xs i >>= λ x. done (Base.set xs i (add_usize x n))

abbrev pub sub_at : List ℕ → ℕ → ℕ → Run (List ℕ)
sub_at xs i n = index xs i >>= λ x. done (Base.set xs i (sub_usize x n))

-- The words with that of page `pfn` replaced.
abbrev pub put : (ℕ → ℕ) → ℕ → ℕ → ℕ → ℕ
put info pfn word q = if pfn == q then word else info q

unfoldable pub phys_to_virt : HeapMemoryRegion → ℕ → Option ℕ
phys_to_virt r paddr =
    if ltb paddr r.start_phys
    then none
    else (if leb (r.page_count * page_size % 2 ^ 64) (phys_sub paddr r.start_phys)
        then none
        else some (virt_add r.start_virt (phys_sub paddr r.start_phys)))

unfoldable pub get_virt_offset : HeapMemoryRegion → ℕ → Option ℕ
get_virt_offset r vaddr =
    if leb r.start_virt vaddr
      && ltb (virt_diff vaddr r.start_virt) (r.page_count * page_size % 2 ^ 64)
    then some (virt_diff vaddr r.start_virt)
    else none

unfoldable pub virt_to_phys : HeapMemoryRegion → ℕ → Option ℕ
virt_to_phys r vaddr = elim (get_virt_offset r vaddr) [
  | none ↦ none
  | some offset ↦ some (phys_add r.start_phys offset)
]

unfoldable pub get_pfn : HeapMemoryRegion → ℕ → Result ℕ
get_pfn r vaddr = elim (get_virt_offset r vaddr) [
  | none ↦ err (invalid_heap_address vaddr)
  | some off ↦ ok (off / page_size)
]

abbrev pub check_pfn : HeapMemoryRegion → ℕ → Run (Unit {0})
check_pfn r pfn = assert (ltb pfn r.page_count)

unfoldable pub write_page_info : HeapMemoryRegion → ℕ → PageInfo → Run HeapMemoryRegion
write_page_info r pfn pi = do
  check_pfn r pfn
  done (record r { page_info = put r.page_info pfn (to_mem pi) })

unfoldable pub read_page_info : HeapMemoryRegion → ℕ → Run PageInfo
read_page_info r pfn = do check_pfn r pfn; from_mem (r.page_info pfn)

-- The `let PageInfo::Free(fi) = .. else`: next page and order of a free page.
abbrev pub as_free : PageInfo → Option (ℕ × ℕ)
as_free (free next_page order) = some (next_page, order)
as_free (allocated order) = none
as_free (slab item_size) = none
as_free (compound order) = none
as_free (file ref_count) = none
as_free reserved = none
