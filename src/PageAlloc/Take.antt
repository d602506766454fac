-- ===== src/PageAlloc/Take.antt =====
-- The free lists as allocation uses them: taking the first page, splitting and refilling.
use svsm.Base.{
  ℕ, zero, suc, ◌+◌, ◌-◌, ◌*◌, ◌%◌, ◌^◌, Bool, true, false, ◌&&◌, ◌==◌, not, leb, ltb,
  if◌then◌else◌, Option, none, some, List, get_elem?, Run, done, panic, ◌>>=◌, ◌>>◌, assert, unwrap,
}
use svsm.Base
use svsm.Util.{page_size}
use svsm.Address.{virt_add}
use svsm.PageAlloc.{max_order, no_page, PageInfo, free, allocated, slab, compound, file}
use svsm.PageAlloc.Region.{
  out_of_memory, invalid_page_order, ok, err, HeapMemoryRegion, Outcome, ◌>>?◌, index, add_at,
  sub_at, write_page_info, read_page_info, as_free,
}

-- `next_page[order]` is a page: take it off its list.
unfoldable pub take_first : HeapMemoryRegion → ℕ → ℕ → Outcome ℕ
take_first r pfn order = do
  pg ← read_page_info r pfn
  fi ← unwrap (as_free pg)
  free_pages ← sub_at r.free_pages order 1
  done (record r { next_page = Base.set r.next_page order fi.0; free_pages = free_pages }, ok pfn)

unfoldable pub get_next_page : HeapMemoryRegion → ℕ → Outcome ℕ
get_next_page r order = do
  pfn ← index r.next_page order
  if pfn == no_page then done (r, err out_of_memory) else take_first r pfn order

-- `for i in 1..nr_pages`, from page `pfn` on.
unfoldable pub mark_loop : ℕ → HeapMemoryRegion → ℕ → ℕ → Run HeapMemoryRegion
mark_loop zero r pfn order = done r
mark_loop (suc left) r pfn order = do
  r ← write_page_info r pfn (compound order)
  mark_loop left r (pfn + 1) order

unfoldable pub mark_compound_page : HeapMemoryRegion → ℕ → ℕ → Run HeapMemoryRegion
mark_compound_page r pfn order = mark_loop (2 ^ order - 1) r (pfn + 1) order

unfoldable pub init_compound_page : HeapMemoryRegion → ℕ → ℕ → ℕ → Run HeapMemoryRegion
init_compound_page r pfn order next_pfn = do
  r ← write_page_info r pfn (free next_pfn order)
  mark_compound_page r pfn order

unfoldable pub split_halves : HeapMemoryRegion → ℕ → ℕ → Outcome (Unit {0})
split_halves r pfn new_order = do
  let pfn2 = pfn + 2 ^ new_order
  next_pfn ← index r.next_page new_order
  r ← init_compound_page r pfn new_order pfn2
  r ← init_compound_page r pfn2 new_order next_pfn
  less ← sub_at r.nr_pages (new_order + 1) 1
  nr_pages ← add_at less new_order 2
  free_pages ← add_at r.free_pages new_order 2
  done (
    record r {
      next_page = Base.set r.next_page new_order pfn;
      nr_pages = nr_pages;
      free_pages = free_pages;
    },
    ok tt,
  )

unfoldable pub split_page : HeapMemoryRegion → ℕ → ℕ → Outcome (Unit {0})
split_page r pfn order =
    if leb 1 order && ltb order max_order
    then split_halves r pfn (order - 1)
    else done (r, err (invalid_page_order order))

-- The first order from `order` on, of the next `left`, that has a free page.
unfoldable pub find_order : List ℕ → ℕ → ℕ → Option ℕ
find_order next_page zero order = none
find_order next_page (suc left) order = elim (get_elem? next_page order) [
  | none ↦ none
  | some pfn ↦ if pfn == no_page then find_order next_page left (order + 1) else some order
]

-- The loop that splits at `order + left`, and so on down to `order + 1`.
unfoldable pub split_down : ℕ → HeapMemoryRegion → ℕ → Outcome (Unit {0})
split_down zero r order = done (r, ok tt)
split_down (suc left) r order = get_next_page r (order + suc left) >>? λ pfn r.
    split_page r pfn (order + suc left) >>? λ u r. split_down left r order

unfoldable pub refill_page_list : HeapMemoryRegion → ℕ → Outcome (Unit {0})
refill_page_list r order = elim (get_elem? r.next_page order) [
  | none ↦ done (r, err (invalid_page_order order))
  | some next_page ↦
      if not (next_page == no_page)
      then done (r, ok tt)
      else elim (find_order r.next_page (max_order - (order + 1)) (order + 1)) [
        | none ↦ done (r, err out_of_memory)
        | some refill_order ↦ split_down (refill_order - order) r order
      ]
]

unfoldable pub allocate_pages_info : HeapMemoryRegion → ℕ → PageInfo → Outcome ℕ
allocate_pages_info r order pg = refill_page_list r order >>? λ u r.
    get_next_page r order >>? λ pfn r. write_page_info r pfn pg >>= λ r.
    done (r, ok (virt_add r.start_virt (pfn * page_size % 2 ^ 64)))

unfoldable pub allocate_pages : HeapMemoryRegion → ℕ → Outcome ℕ
allocate_pages r order = allocate_pages_info r order (allocated order)

unfoldable pub allocate_page : HeapMemoryRegion → Outcome ℕ
allocate_page r = allocate_pages r 0

unfoldable pub allocate_slab_page : HeapMemoryRegion → ℕ → Outcome ℕ
allocate_slab_page r item_size = allocate_pages_info r 0 (slab item_size)

unfoldable pub allocate_file_page : HeapMemoryRegion → Outcome ℕ
allocate_file_page r = allocate_pages_info r 0 (file 1)
