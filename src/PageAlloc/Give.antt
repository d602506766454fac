-- ===== src/PageAlloc/Give.antt =====
-- Giving pages back: taking a given page off its list, merging neighbours, freeing, the reference
-- counts of file pages, and the set-up of a region.
use svsm.Base.{
  ℕ, zero, suc, ◌+◌, ◌-◌, ◌*◌, ◌/◌, ◌%◌, ◌^◌, bit_and, bit_xor, min, Bool, true, false, ◌&&◌, ◌==◌,
  not, leb, ltb, if◌then◌else◌, Option, none, some, List, get_elem?, Run, done, panic, ◌>>=◌, ◌>>◌,
  assert, unwrap,
}
use svsm.Base
use svsm.Util.{page_size, align_up, align_down, sub_usize}
use svsm.Address.{virt_add}
use svsm.PageAlloc.{max_order, no_page, PageInfo, free, allocated, slab, compound, file, reserved}
use svsm.PageAlloc.Region.{
  out_of_memory, invalid_page_order, invalid_pfn, invalid_file_page, Result, ok, err,
  HeapMemoryRegion, Outcome, ◌>>?◌, index, add_at, sub_at, write_page_info, read_page_info, as_free,
  get_pfn,
}
use svsm.PageAlloc.Take.{get_next_page, mark_compound_page}

unfoldable pub compound_neighbor : HeapMemoryRegion → ℕ → ℕ → Run (Result ℕ)
compound_neighbor r pfn order =
    if leb (max_order - 1) order then done (err (invalid_page_order order)) else do
      assert (bit_and pfn (2 ^ order - 1) == 0)
      let pfn = bit_xor pfn (2 ^ order)
      done (if leb r.page_count pfn then err (invalid_pfn pfn) else ok pfn)

unfoldable pub merge_pages : HeapMemoryRegion → ℕ → ℕ → ℕ → Outcome ℕ
merge_pages r pfn1 pfn2 order =
    if leb (max_order - 1) order then done (r, err (invalid_page_order order)) else do
      let new_order = order + 1
      let pfn = min pfn1 pfn2
      r ← write_page_info r pfn (allocated new_order)
      r ← mark_compound_page r pfn new_order
      less ← sub_at r.nr_pages order 2
      nr_pages ← add_at less new_order 1
      done (record r { nr_pages = nr_pages }, ok pfn)

unfoldable pub next_free_pfn : HeapMemoryRegion → ℕ → Run ℕ
next_free_pfn r pfn = do page ← read_page_info r pfn; fi ← unwrap (as_free page); done fi.0

-- What the walk does once `current_pfn`, behind `old_pfn`, is the page that is asked for.
unfoldable pub unlink : HeapMemoryRegion → ℕ → ℕ → ℕ → Outcome (Unit {0})
unlink r old_pfn current_pfn order = do
  next_pfn ← next_free_pfn r current_pfn
  r ← write_page_info r old_pfn (free next_pfn order)
  r ← write_page_info r current_pfn (allocated order)
  free_pages ← sub_at r.free_pages order 1
  done (record r { free_pages = free_pages }, ok tt)

-- The walk along the list, on fuel.
unfoldable pub walk : ℕ → HeapMemoryRegion → ℕ → ℕ → ℕ → Outcome (Unit {0})
walk zero r old_pfn pfn order = panic
walk (suc fuel) r old_pfn pfn order = next_free_pfn r old_pfn >>= λ current_pfn.
    if current_pfn == no_page
    then done (r, err out_of_memory)
    else (if current_pfn == pfn
        then unlink r old_pfn current_pfn order
        else walk fuel r current_pfn pfn order)

-- `unwrap` on the result of `get_next_page`.
abbrev pub taken : HeapMemoryRegion × Result ℕ → Outcome (Unit {0})
taken (r, ok pfn) = done (r, ok tt)
taken (r, err e) = panic

-- No list is longer than the region has pages.
unfoldable pub allocate_pfn : HeapMemoryRegion → ℕ → ℕ → Outcome (Unit {0})
allocate_pfn r pfn order = index r.next_page order >>= λ first_pfn.
    if first_pfn == no_page
    then done (r, err out_of_memory)
    else (if first_pfn == pfn
        then get_next_page r order >>= taken
        else walk (suc r.page_count) r first_pfn pfn order)

unfoldable pub free_page_raw : HeapMemoryRegion → ℕ → ℕ → Run HeapMemoryRegion
free_page_raw r pfn order = do
  old_next ← index r.next_page order
  r ← write_page_info r pfn (free old_next order)
  free_pages ← add_at r.free_pages order 1
  done (record r { next_page = Base.set r.next_page order pfn; free_pages = free_pages })

-- The neighbour's page is free: of the same order, it is taken and merged with.
unfoldable pub merge_free : HeapMemoryRegion → ℕ → ℕ → ℕ → Option (ℕ × ℕ) → Outcome ℕ
merge_free r pfn neighbor_pfn order none = done (r, err (invalid_pfn neighbor_pfn))
merge_free r pfn neighbor_pfn order (some (next_page, other)) =
    if other == order
    then (allocate_pfn r neighbor_pfn order >>? λ u r. merge_pages r pfn neighbor_pfn order)
    else done (r, err (invalid_page_order other))

unfoldable pub try_merge_with : HeapMemoryRegion → ℕ → ℕ → Result ℕ → Outcome ℕ
try_merge_with r pfn order (err e) = done (r, err e)
try_merge_with r pfn order (ok neighbor_pfn) = do
  neighbor_page ← read_page_info r neighbor_pfn
  merge_free r pfn neighbor_pfn order (as_free neighbor_page)

unfoldable pub try_to_merge_page : HeapMemoryRegion → ℕ → ℕ → Outcome ℕ
try_to_merge_page r pfn order = do
  neighbor ← compound_neighbor r pfn order
  try_merge_with r pfn order neighbor

-- The `while let`, on fuel: the order rises with each merger.
unfoldable pub free_loop : ℕ → HeapMemoryRegion → ℕ → ℕ → Run HeapMemoryRegion
free_loop zero r pfn order = panic
free_loop (suc fuel) r pfn order = try_to_merge_page r pfn order >>= λ out. elim out.1 [
  | ok new_pfn ↦ free_loop fuel out.0 new_pfn (order + 1)
  | err e ↦ free_page_raw out.0 pfn order
]

unfoldable pub free_page_order : HeapMemoryRegion → ℕ → ℕ → Run HeapMemoryRegion
free_page_order r pfn order = free_loop max_order r pfn order

unfoldable pub free_info : HeapMemoryRegion → ℕ → PageInfo → Run HeapMemoryRegion
free_info r pfn (allocated order) = free_page_order r pfn order
free_info r pfn (slab item_size) = free_page_order r pfn 0
free_info r pfn (file ref_count) = free_page_order r pfn 0
free_info r pfn (free next_page order) = panic
free_info r pfn (compound order) = panic
free_info r pfn reserved = panic

unfoldable pub free_page : HeapMemoryRegion → ℕ → Run HeapMemoryRegion
free_page r vaddr = elim (get_pfn r vaddr) [
  | err e ↦ done r
  | ok pfn ↦ read_page_info r pfn >>= free_info r pfn
]

-- The reference count of a file page.
abbrev pub as_file : PageInfo → Option ℕ
as_file (file ref_count) = some ref_count
as_file (free next_page order) = none
as_file (allocated order) = none
as_file (slab item_size) = none
as_file (compound order) = none
as_file reserved = none

unfoldable pub get_ref : HeapMemoryRegion → ℕ → ℕ → Option ℕ → Outcome (Unit {0})
get_ref r vaddr pfn none = done (r, err (invalid_file_page vaddr))
get_ref r vaddr pfn (some ref_count) = do
  assert (ltb 0 ref_count)
  r ← write_page_info r pfn (file ((ref_count + 1) % 2 ^ 64))
  done (r, ok tt)

unfoldable pub get_file_page : HeapMemoryRegion → ℕ → Outcome (Unit {0})
get_file_page r vaddr = elim (get_pfn r vaddr) [
  | err e ↦ done (r, err e)
  | ok pfn ↦ read_page_info r pfn >>= λ page. get_ref r vaddr pfn (as_file page)
]

unfoldable pub put_ref : HeapMemoryRegion → ℕ → ℕ → Option ℕ → Outcome (Unit {0})
put_ref r vaddr pfn none = done (r, err (invalid_file_page vaddr))
put_ref r vaddr pfn (some ref_count) = do
  assert (ltb 0 ref_count)
  r ←
      (if ltb 0 (ref_count - 1)
        then write_page_info r pfn (file (ref_count - 1))
        else free_page r vaddr)
  done (r, ok tt)

unfoldable pub put_file_page : HeapMemoryRegion → ℕ → Outcome (Unit {0})
put_file_page r vaddr = elim (get_pfn r vaddr) [
  | err e ↦ done (r, err e)
  | ok pfn ↦ read_page_info r pfn >>= λ page. put_ref r vaddr pfn (as_file page)
]

unfoldable pub memory_info : HeapMemoryRegion → List ℕ × List ℕ
memory_info r = (r.nr_pages, r.free_pages)

-- The loops of `init_memory`: the same information for `left` pages from `i` on,
unfoldable pub write_all : ℕ → HeapMemoryRegion → ℕ → PageInfo → Run HeapMemoryRegion
write_all zero r i pg = done r
write_all (suc left) r i pg = do r ← write_page_info r i pg; write_all left r (i + 1) pg

-- `left` pages freed one by one,
unfoldable pub free_all : ℕ → HeapMemoryRegion → ℕ → Run HeapMemoryRegion
free_all zero r i = done r
free_all (suc left) r i = do r ← free_page_order r i 0; free_all left r (i + 1)

-- and `left` blocks of the highest order.
unfoldable pub free_blocks : ℕ → HeapMemoryRegion → ℕ → Run HeapMemoryRegion
free_blocks zero r i = done r
free_blocks (suc left) r i = do
  r ← mark_compound_page r i (max_order - 1)
  r ← free_page_raw r i (max_order - 1)
  free_blocks left r (i + 2 ^ (max_order - 1))

abbrev pub meta_pages : ℕ → ℕ
meta_pages page_count = align_up (page_count * 8 % 2 ^ 64) page_size / page_size

-- The pages from `used` on are freed, those of whole blocks of the highest order at once. The source
-- skips a run of no pages; here it adds 0 to a count and frees nothing.
unfoldable pub free_initial : HeapMemoryRegion → ℕ → ℕ → Run HeapMemoryRegion
free_initial r used alloc_pages =
    let alignment = 2 ^ (max_order - 1) in
    let first_aligned_page = align_up used alignment in
    let last_aligned_page = align_down alloc_pages alignment in
    if ltb first_aligned_page last_aligned_page
    then (do
      let blocks = (last_aligned_page - first_aligned_page) / alignment
      nr_pages ← add_at r.nr_pages (max_order - 1) blocks
      r ← free_blocks blocks (record r { nr_pages = nr_pages }) first_aligned_page
      nr_pages ← add_at r.nr_pages 0 (first_aligned_page - used)
      r ← free_all (first_aligned_page - used) (record r { nr_pages = nr_pages }) used
      nr_pages ← add_at r.nr_pages 0 (alloc_pages - last_aligned_page)
      free_all (alloc_pages - last_aligned_page) (record r { nr_pages = nr_pages })
          last_aligned_page)
    else free_all (alloc_pages - used)
        (record r { nr_pages = Base.set r.nr_pages 0 (sub_usize alloc_pages used) }) used

unfoldable pub init_memory : HeapMemoryRegion → ℕ → Run HeapMemoryRegion
init_memory r allocated_pages = do
  let alloc_pages = sub_usize r.page_count (meta_pages r.page_count)
  let r = record r { metadata_addr = virt_add r.start_virt (alloc_pages * page_size % 2 ^ 64) }
  r ← write_all alloc_pages r 0 (allocated 0)
  r ← write_all (r.page_count - alloc_pages) r alloc_pages reserved
  free_initial r allocated_pages alloc_pages
