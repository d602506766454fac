-- ===== src/Bitmap/Interface.antt =====
-- The trait, and the contract that `alloc_aligned` and the tree rely on: a state is a row of
-- `capacity` bits, of which `set` changes a range.
use svsm.Base.{
  ℕ, ◌+◌, ◌≤◌, ◌<◌, ◌≡◌, ◌↔◌, Bool, true, false, ◌&&◌, leb, ltb, if◌then◌else◌, Option, none, some,
  Run, done,
}

pub record BitmapAllocator (T : Type 0) : Type 0 where
  pub capacity : ℕ
  pub set : T → ℕ → ℕ → Bool → Run T
  pub next_free : T → ℕ → Run (Option ℕ)
  pub get : T → ℕ → Run Bool
  pub empty : T → Bool
  pub used : T → ℕ

-- `r` is the first clear bit of a row from `start` on.
abbrev pub IsNextFree : (ℕ → Bool) → ℕ → ℕ → Option ℕ → Type 0
IsNextFree row cap start none = (i : ℕ) → start ≤ i → i < cap → row i ≡ true
IsNextFree row cap start (some j) =
    (start ≤ j) × (j < cap) × (row j ≡ false) × ((i : ℕ) → start ≤ i → i < j → row i ≡ true)

-- A row with `n` bits from `start` on given the value `v`.
abbrev pub fill : (ℕ → Bool) → ℕ → ℕ → Bool → ℕ → Bool
fill row start n v i = if leb start i && ltb i (start + n) then v else row i

pub record Contract {T : Type 0} (ops : BitmapAllocator T) (row : T → ℕ → Bool)
    (IsValid : T → Type 0) : Type 0 where
  pub capacity_pos : 0 < ops.capacity
  pub get_lem : (t : T) (i : ℕ) → IsValid t → i < ops.capacity → ops.get t i ≡ done (row t i)
  pub set_lem :
      (t : T) (start n : ℕ) (v : Bool)
      → IsValid t
      → 0 < n
      → start + n ≤ ops.capacity
      → (t' : T) × (ops.set t start n v ≡ done t')
        × IsValid t'
        × ((i : ℕ) → i < ops.capacity → row t' i ≡ fill (row t) start n v i)
  pub next_free_lem :
      (t : T) (start : ℕ)
      → IsValid t
      → start < ops.capacity
      → (r : Option ℕ) × (ops.next_free t start ≡ done r) × IsNextFree (row t) ops.capacity start r
  pub empty_lem :
      (t : T) → IsValid t → (ops.empty t ≡ true) ↔ ((i : ℕ) → i < ops.capacity → row t i ≡ false)
