-- ===== src/MemoryRegion.antt =====
-- kernel/src/utils/memory_region.rs: a region of physical or virtual addresses, `start` inside and
-- `end` outside. The type parameter with its `Address` bound is the section's `kind`; a panic is
-- `Run.panic`. The formatting traits are left out.
pub mod Sets
pub mod Pages
mod Tests
use svsm.Base.{
  ℕ, zero, suc, ◌+◌, ◌-◌, min, max, Bool, true, false, ◌&&◌, ltb, leb, ◌==◌, if◌then◌else◌, Option,
  none, some, List, [], ◌∷◌, map, Run, done, panic, ◌>>=◌, ◌>>◌, assert,
}
use svsm.Util.{PageSize, bytes, add_usize}
use svsm.Address.{AddressKind}

pub record MemoryRegion : Type 0 where
  pub start : ℕ
  pub end : ℕ

-- `usize::saturating_sub` is the subtraction of ℕ.
abbrev pub len : MemoryRegion → ℕ
len r = r.end - r.start

unfoldable pub is_empty : MemoryRegion → Bool
is_empty r = len r == 0

-- `assert!(start <= end)`
unfoldable pub from_addresses : ℕ → ℕ → Run MemoryRegion
from_addresses start end = do assert (leb start end); done (record { start = start; end = end })

unfoldable pub overlap : MemoryRegion → MemoryRegion → Bool
overlap r other = ltb r.start other.end && ltb other.start r.end

unfoldable pub contiguous : MemoryRegion → MemoryRegion → Bool
contiguous r other = leb r.start other.end && leb other.start r.end

unfoldable pub merge : MemoryRegion → MemoryRegion → MemoryRegion
merge r other = record { start = min r.start other.start; end = max r.end other.end }

unfoldable pub contains : MemoryRegion → ℕ → Bool
contains r a = leb r.start a && ltb a r.end

unfoldable pub contains_inclusive : MemoryRegion → ℕ → Bool
contains_inclusive r a = leb r.start a && leb a r.end

unfoldable pub contains_region : MemoryRegion → MemoryRegion → Bool
contains_region r other = leb r.start other.start && leb other.end r.end

-- `(lo..hi).step_by(step)`; each round advances by `step`, at least 1, so `hi - lo` rounds suffice.
unfoldable pub step_by : ℕ → ℕ → ℕ → ℕ → List ℕ
step_by zero lo hi step = []
step_by (suc fuel) lo hi step = elim (ltb lo hi) [
  | true ↦ lo ∷ step_by fuel (lo + step) hi step
  | false ↦ []
]

module _ (kind : AddressKind) where
  unfoldable pub new : ℕ → ℕ → MemoryRegion
  new start len = record { start = start; end = kind.from (add_usize start len) }

  unfoldable pub checked_new : ℕ → ℕ → Option MemoryRegion
  checked_new start len = elim (kind.checked_add start len) [
    | none ↦ none
    | some end ↦ some (record { start = start; end = end })
  ]

  unfoldable pub expand : MemoryRegion → ℕ → MemoryRegion
  expand r extra = new r.start (add_usize (len r) extra)

  unfoldable pub iter_pages : MemoryRegion → PageSize → List ℕ
  iter_pages r size = map kind.from (step_by (r.end - r.start) r.start r.end (bytes size))
