-- ===== src/Bitmap/Alloc/Laws.antt =====
-- `alloc` finds the first aligned free range if there is one, and marks exactly that range.
use svsm.Base.{
  ℕ, zero, suc, ◌+◌, ◌-◌, ◌^◌, ◌≤◌, ◌<◌, ◌≡◌, refl, Bool, true, leb, Option, none, some, done,
  ◌>>=◌, Bool-cases, inl, inr, arith, tests, le→leb, lt→leb,
}
use svsm.Bits.{highest_bit, highest_bit-lt}
use svsm.Bitmap.Interface.{BitmapAllocator, Contract, fill}
use svsm.Bitmap.Alloc.{probe, alloc_loop, alloc, free, ilog2}
use svsm.Bitmap.Alloc.Scan.{IsFreeRun, IsBlock, GoesOn, Probed, probe_lem}

module _ {T : Type 0} (ops : BitmapAllocator T) (row : T → ℕ → Bool) (IsValid : T → Type 0) (t : T)
    (n align : ℕ) where
  -- No block before `o` starts a free range.
  abbrev pub NoneBefore : ℕ → Type 0
  NoneBefore o = (b : ℕ) → IsBlock align b → b < o → b + n ≤ ops.capacity → ¬ IsFreeRun (row t) b n

  -- What an allocation of `n` entries comes to: nothing changes and no aligned range is free, or the
  -- first aligned range that is free becomes used.
  abbrev pub Allocated : T × Option ℕ → Type 0
  Allocated (t', none) =
      (t' ≡ t) × ((b : ℕ) → IsBlock align b → b + n ≤ ops.capacity → ¬ IsFreeRun (row t) b n)
  Allocated (t', some o) =
      IsBlock align o
      × (o + n ≤ ops.capacity)
      × IsFreeRun (row t) o n
      × NoneBefore o
      × IsValid t'
      × ((i : ℕ) → i < ops.capacity → row t' i ≡ fill (row t) o n true i)

module _ {T : Type 0} (ops : BitmapAllocator T) (row : T → ℕ → Bool) (IsValid : T → Type 0)
    (law : Contract ops row IsValid) (t : T) (n align : ℕ) (valid : IsValid t) (pos : 0 < n)
    (small : align < 64) (cap64 : ops.capacity ≤ 2 ^ 63) where
  open law use {set_lem}

  before_next :
      (o o' : ℕ)
      → NoneBefore ops row IsValid t n align o
      → GoesOn ops row IsValid law t valid n align o o'
      → NoneBefore ops row IsValid t n align o'
  before_next o o' before go b hb lt fits free = elim (Bool-cases (leb o b)) [
    | inl e ↦ go.2 b hb (omega (tests, e)) lt fits free
    | inr e ↦ before b hb (omega (tests, e)) fits free
  ]

  -- The loop from `o` with so much fuel returns what an allocation should.
  abbrev Returns : ℕ → ℕ → Type 0
  Returns fuel o =
      (out : T × Option ℕ) × (alloc_loop ops fuel t n align o ≡ done out)
      × Allocated ops row IsValid t n align out

  round :
      (fuel o : ℕ)
      → IsBlock align o
      → o + n ≤ ops.capacity
      → NoneBefore ops row IsValid t n align o
      → ((o' : ℕ)
          → o < o'
          → IsBlock align o'
          → NoneBefore ops row IsValid t n align o'
          → Returns fuel o')
      → (r : Option ℕ) × (probe ops t n align o ≡ done r)
        × Probed ops row IsValid law t valid n align o r
      → Returns (suc fuel) o
  unfolding alloc_loop
  round fuel o block fits before rest (none, runs, unused) =
      let (t', sets, valid', rows) = set_lem t o n true valid pos fits in
      (
        (t', some o),
        rw (le→leb (o + n) ops.capacity fits, runs, sets, alloc_loop),
        (block, fits, unused, before, valid', rows),
      )
  round fuel o block fits before rest (some o', runs, go) =
      let (out, returns, spec) = rest o' go.0 go.1 (before_next o o' before go) in
      (out, rw (le→leb (o + n) ops.capacity fits, runs, alloc_loop) returns, spec)

  alloc_loop_lem :
      (fuel o : ℕ)
      → ops.capacity - o < fuel
      → IsBlock align o
      → NoneBefore ops row IsValid t n align o
      → Returns fuel o
  unfolding alloc_loop
  alloc_loop_lem zero o enough block before = absurd (omega arith)
  alloc_loop_lem (suc fuel) o enough block before = elim (Bool-cases (leb (o + n) ops.capacity)) [
    | inl e ↦
        round fuel o block (omega (tests, e)) before
          (λ o' lt block' before'. alloc_loop_lem fuel o' (omega (tests, e)) block' before')
          (probe_lem ops row IsValid law t valid n align o pos block (omega (tests, e)) small cap64)
    | inr e ↦
        ((t, none), rw (e, alloc_loop), (refl, λ b hb fits. before b hb (omega (tests, e)) fits))
  ]

-- On every valid bitmap of at most 2^63 entries that keeps the contract, for `n` above 0,
-- `alloc` returns: it takes the first aligned range of `n` free entries and marks that range and
-- nothing else, or, if there is none, changes nothing. That is so for an alignment below the
-- logarithm of the capacity; at any other `alloc` refuses and changes nothing.
pub alloc_lem :
    {T : Type 0} (ops : BitmapAllocator T) (row : T → ℕ → Bool) (IsValid : T → Type 0)
    (law : Contract ops row IsValid) (t : T) (n align top : ℕ)
    → IsValid t
    → 0 < n
    → ops.capacity ≤ 2 ^ 63
    → highest_bit 64 ops.capacity ≡ some top
    → (top ≤ align → alloc ops t n align ≡ done (t, none))
      × (align < top
          → (out : T × Option ℕ) × (alloc ops t n align ≡ done out)
            × Allocated ops row IsValid t n align out)
unfolding alloc ilog2
alloc_lem ops row IsValid law t n align top valid pos cap64 log = (
  (λ le. rw (log, le→leb top align le, alloc, ilog2, ◌>>=◌)),
  λ lt.
      let (out, returns, spec) =
        alloc_loop_lem ops row IsValid law t n align valid pos
          (omega (arith, highest_bit-lt 64 ops.capacity top log)) cap64 (suc ops.capacity) 0
          (omega arith) (omega arith) (λ b hb none_left. absurd (omega arith)) in
      (out, rw (log, lt→leb top align lt, alloc, ilog2, ◌>>=◌) returns, spec),
)
