-- ===== src/PageAlloc/Tests.antt =====
-- Regions of four pages: one free block of four, or single pages that all say the same.
use svsm.Base.{
  ℕ, zero, suc, ◌+◌, ◌-◌, ◌*◌, ◌%◌, ◌^◌, ◌≤◌, ◌<◌, ◌≡◌, ◌≢◌, refl, subst, inl, inr, ◌⊎◌, ◌==◌,
  if◌then◌else◌, ltb, Run, done, panic, some, [], ◌∷◌, replicate, length, get_or, get_or-replicate,
  arith,
}
use svsm.Address.{virt_add, sign_extend}
use svsm.Util.{page_size, align_up}
use svsm.PageAlloc.{
  page_type, try_from, encode_next, encode_order, decode_next, decode_order, PageInfo, no_page,
  free, allocated, compound, file, to_mem, from_mem,
}
use svsm.PageAlloc.RoundTrip.{IsStorable, from_mem-to_mem}
use svsm.PageAlloc.Region.{
  read_page_info, write_page_info, HeapMemoryRegion, Result, ok, err, out_of_memory, new,
  phys_to_virt, virt_to_phys,
}
use svsm.PageAlloc.Take.{
  refill_page_list, find_order, split_down, get_next_page, take_first, split_page, split_halves,
  init_compound_page, mark_compound_page, mark_loop, allocate_pages, allocate_pages_info,
}
use svsm.PageAlloc.Give.{free_page, put_file_page, init_memory, meta_pages}
use svsm.PageAlloc.Lists.{InfoAt, Chain, Lists, IsHeap, Owned}
use svsm.PageAlloc.Taking.{SameRegion}
use svsm.PageAlloc.Keeping.{Keeps, KeepsBut}
use svsm.PageAlloc.Total.{total}
use svsm.PageAlloc.Choosing.{Chosen, allocate_pfn_lem}
use svsm.PageAlloc.Allocating.{allocate_pages_info_lem}
use svsm.PageAlloc.Returning.{
  IsPlaced, address, free_page_lem, free_page-allocate_pages, virt_to_phys-phys_to_virt,
}
use svsm.PageAlloc.FilePages.{put_file_page_lem}
use svsm.PageAlloc.Setup.{IsBlank, init_memory_lem}

from_mem-to_mem_example :
    (to_mem (free 77 3) < 2 ^ 64) × (from_mem (to_mem (free 77 3)) ≡ done (free 77 3))
from_mem-to_mem_example = from_mem-to_mem (free 77 3) (inr (omega arith), omega arith)

-- One free block of order 2.
abbrev words : ℕ → ℕ
words zero = to_mem (free no_page 2)
words (suc q) = to_mem (compound 2)

abbrev four : HeapMemoryRegion
four = record new {
  start_phys = 0x8000;
  start_virt = 0x100000;
  page_count = 4;
  next_page = no_page ∷ no_page ∷ 0 ∷ no_page ∷ no_page ∷ no_page ∷ [];
  nr_pages = 0 ∷ 0 ∷ 1 ∷ 0 ∷ 0 ∷ 0 ∷ [];
  free_pages = 0 ∷ 0 ∷ 1 ∷ 0 ∷ 0 ∷ 0 ∷ [];
  page_info = words;
}

abbrev four_lists : Lists
four_lists o = if o == 2 then 0 ∷ [] else []

four-tail : (i : ℕ) → 0 < i → InfoAt four.page_info i (compound 2)
four-tail zero h = absurd (omega arith)
four-tail (suc i) h = (from_mem-to_mem (compound 2) (omega arith)).1

four-head : InfoAt four.page_info 0 (free no_page 2)
four-head = (from_mem-to_mem (free no_page 2) (inl refl, omega arith)).1

four-IsHeap : IsHeap four four_lists
four-IsHeap = record {
  small = omega arith;
  nr_orders = refl;
  next_orders = refl;
  free_orders = refl;
  decodes = decodes;
  chains = chains;
  counted = counted;
}
  where
    decodes : (q : ℕ) → q < 4 → (pi : PageInfo) × InfoAt four.page_info q pi
    decodes zero h = (free no_page 2, four-head)
    decodes (suc q) h = (compound 2, four-tail (suc q) (omega arith))

    chains : (o : ℕ) → o < 6 → Chain four.page_info 4 o (get_or four.next_page o 0) (four_lists o)
    chains zero h = refl
    chains (suc zero) h = refl
    chains (suc (suc zero)) h = (
      refl,
      record {
        aligned = refl;
        fits = omega arith;
        rest = λ i pos lt. subst (λ q. InfoAt words q (compound 2)) (omega arith) (four-tail i pos);
      },
      refl,
      (no_page, four-head, refl),
    )
    chains (suc (suc (suc zero))) h = refl
    chains (suc (suc (suc (suc zero)))) h = refl
    chains (suc (suc (suc (suc (suc zero))))) h = refl
    chains (suc (suc (suc (suc (suc (suc o)))))) h = absurd (omega arith)

    counted : (o : ℕ) → o < 6 → get_or four.free_pages o 0 ≡ length (four_lists o) % 2 ^ 64
    counted zero h = refl
    counted (suc zero) h = refl
    counted (suc (suc zero)) h = refl
    counted (suc (suc (suc zero))) h = refl
    counted (suc (suc (suc (suc zero)))) h = refl
    counted (suc (suc (suc (suc (suc zero))))) h = refl
    counted (suc (suc (suc (suc (suc (suc o)))))) h = absurd (omega arith)

four-IsPlaced : IsPlaced four
four-IsPlaced = record {
  canonical = inl (omega arith);
  virt_fits = omega arith;
  phys_fits = omega arith;
  size = omega arith;
}

allocate_pages_info_lem_example :
    ((allocate_pages_info four 1 (allocated 1) ≡ done (four, err out_of_memory))
      × ((k : ℕ) → 1 ≤ k → k < 6 → four_lists k ≡ []))
    ⊎ ((r' : HeapMemoryRegion) × (l' : Lists) × (pfn : ℕ) × (allocate_pages_info four 1
            (allocated 1)
          ≡ done (r', ok (virt_add four.start_virt (pfn * page_size % 2 ^ 64))))
        × SameRegion four r'
        × IsHeap r' l'
        × Owned r' l' pfn 1
        × InfoAt r'.page_info pfn (allocated 1)
        × (total l' + 2 ^ 1 ≡ total four_lists)
        × ((q o : ℕ)
            → Owned four four_lists q o
            → (q ≢ pfn) × Owned r' l' q o × (r'.page_info q ≡ four.page_info q)))
allocate_pages_info_lem_example =
    allocate_pages_info_lem four four_lists 1 (allocated 1) four-IsHeap (omega arith) (omega arith)
      refl

allocate_pfn_lem_example : Chosen four four_lists 0 2
allocate_pfn_lem_example = allocate_pfn_lem four four_lists 0 2 four-IsHeap (omega arith) refl

virt_to_phys-phys_to_virt_example :
    (phys_to_virt four (four.start_phys + 0x1234) ≡ some (virt_add four.start_virt 0x1234))
    × (virt_to_phys four (virt_add four.start_virt 0x1234) ≡ some (four.start_phys + 0x1234))
virt_to_phys-phys_to_virt_example =
    virt_to_phys-phys_to_virt four 0x1234 four-IsPlaced (omega arith)

-- Two pages taken from it.
abbrev region_of : Run (HeapMemoryRegion × Result ℕ) → HeapMemoryRegion
region_of (done (r, out)) = r
region_of panic = four

abbrev two_taken : HeapMemoryRegion
two_taken = region_of (allocate_pages four 1)

free_page-allocate_pages_example :
    (r2 : HeapMemoryRegion) × (l2 : Lists) × (free_page two_taken 0x100000 ≡ done r2)
    × IsHeap r2 l2
    × (total l2 ≡ total four_lists)
    × Keeps four four_lists r2 l2
unfolding allocate_pages allocate_pages_info refill_page_list find_order split_down get_next_page
    take_first read_page_info from_mem page_type try_from to_mem encode_next encode_order split_page
    split_halves init_compound_page write_page_info mark_compound_page mark_loop decode_next
    decode_order virt_add sign_extend
free_page-allocate_pages_example =
    free_page-allocate_pages four two_taken four_lists 1 0x100000 four-IsHeap four-IsPlaced
      (omega arith) refl

-- Four single pages.
abbrev single : PageInfo → HeapMemoryRegion
single pg = record new {
  start_phys = 0x8000;
  start_virt = 0x100000;
  page_count = 4;
  page_info = λ q. to_mem pg;
}

abbrev no_lists : Lists
no_lists o = []

single-IsHeap : (pg : PageInfo) → IsStorable pg → IsHeap (single pg) no_lists
single-IsHeap pg s = record {
  small = omega arith;
  nr_orders = refl;
  next_orders = refl;
  free_orders = refl;
  decodes = λ q h. (pg, (from_mem-to_mem pg s).1);
  chains = chains;
  counted = λ o h. get_or-replicate {A = ℕ} 6 o 0;
}
  where
    chains : (o : ℕ) → o < 6 → get_or (replicate 6 no_page) o 0 ≡ no_page
    chains zero h = refl
    chains (suc zero) h = refl
    chains (suc (suc zero)) h = refl
    chains (suc (suc (suc zero))) h = refl
    chains (suc (suc (suc (suc zero)))) h = refl
    chains (suc (suc (suc (suc (suc zero))))) h = refl
    chains (suc (suc (suc (suc (suc (suc o)))))) h = absurd (omega arith)

single-IsPlaced : (pg : PageInfo) → IsPlaced (single pg)
single-IsPlaced pg = record {
  canonical = inl (omega arith);
  virt_fits = omega arith;
  phys_fits = omega arith;
  size = omega arith;
}

file-Owned : Owned (single (file 2)) no_lists 1 0
file-Owned = record {
  block = record { aligned = refl; fits = omega arith; rest = λ i pos lt. absurd (omega arith) };
  head = file 2;
  says = (from_mem-to_mem (file 2) (omega arith)).1;
  is_head = refl;
  unlisted = λ o h. refl;
}

put_file_page_lem_example :
    (r' : HeapMemoryRegion) × (l' : Lists) × (put_file_page
        (single (file 2))
        (address (single (file 2)) 1)
      ≡ done (r', ok tt))
    × IsHeap r' l'
    × (if ltb 0 1
        then (l' ≡ no_lists) × Owned r' no_lists 1 0 × InfoAt r'.page_info 1 (file 1)
        else total l' ≡ total no_lists + 1)
put_file_page_lem_example =
    put_file_page_lem (single (file 2)) no_lists 1 1 (single-IsHeap (file 2) (omega arith))
      (single-IsPlaced (file 2)) file-Owned ((from_mem-to_mem (file 2) (omega arith)).1)
      (omega arith)

page-Owned : Owned (single (allocated 0)) no_lists 1 0
page-Owned = record {
  block = record { aligned = refl; fits = omega arith; rest = λ i pos lt. absurd (omega arith) };
  head = allocated 0;
  says = (from_mem-to_mem (allocated 0) (omega arith)).1;
  is_head = refl;
  unlisted = λ o h. refl;
}

free_page_lem_example :
    (r' : HeapMemoryRegion) × (l' : Lists) × (free_page
        (single (allocated 0))
        (address (single (allocated 0)) 1)
      ≡ done r')
    × SameRegion (single (allocated 0)) r'
    × IsHeap r' l'
    × (total l' ≡ total no_lists + 2 ^ 0)
    × KeepsBut 1 (single (allocated 0)) no_lists r' l'
free_page_lem_example =
    free_page_lem (single (allocated 0)) no_lists 1 0 (single-IsHeap (allocated 0) (omega arith))
      (single-IsPlaced (allocated 0)) page-Owned ((from_mem-to_mem (allocated 0) (omega arith)).1)
      (omega arith)

-- A region of 100 pages before its set-up.
abbrev blank : HeapMemoryRegion
blank = record new { start_phys = 0x8000; start_virt = 0x100000; page_count = 100 }

blank-IsBlank : IsBlank blank
blank-IsBlank = record { small = omega arith; nr_orders = refl; no_next = refl; none_free = refl }

init_memory_lem_example :
    (r' : HeapMemoryRegion) × (l' : Lists) × (init_memory blank 3 ≡ done r')
    × SameRegion blank r'
    × IsHeap r' l'
    × (total l' + 3 ≡ 100 - meta_pages 100)
    × ((q : ℕ) → q < 3 → Owned r' l' q 0)
unfolding align_up
init_memory_lem_example = init_memory_lem blank 3 blank-IsBlank (omega arith)
