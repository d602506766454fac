-- ===== src/Bitmap/Alloc/Scan.antt =====
-- One round of `alloc_aligned`, over any bitmap that keeps the contract.
use native.Mathlib.Nat.{one-le-pow}
use svsm.Base.{
  ℕ, zero, suc, ◌+◌, ◌-◌, ◌*◌, ◌/◌, ◌%◌, ◌^◌, ◌≤◌, ◌<◌, bit_and, ◌≡◌, refl, ◌∙◌, ap, subst, Bool,
  true, false, ◌==◌, Option, none, some, done, Bool-cases, inl, inr, arith, tests, ==→≡, le→leb,
}
use svsm.Bits.{not_bits, bit_and-high_mask}
use svsm.Bitmap.Interface.{BitmapAllocator, Contract, IsNextFree}
use svsm.Bitmap.Alloc.{count_free, check_range, probe}
use svsm.Bitmap.Alloc.Blocks.{multiples_apart, next_multiple, multiple_after}
use native.Mathlib.Decide.{dec_lt}

-- `n` clear bits from `o` on.
abbrev pub IsFreeRun : (ℕ → Bool) → ℕ → ℕ → Type 0
IsFreeRun row o n = (i : ℕ) → o ≤ i → i < o + n → row i ≡ false

-- An offset that is the start of a block of `2 ^ align` entries.
abbrev pub IsBlock : ℕ → ℕ → Type 0
IsBlock align o = o % 2 ^ align ≡ 0

module _ {T : Type 0} (ops : BitmapAllocator T) (row : T → ℕ → Bool) (IsValid : T → Type 0)
    (law : Contract ops row IsValid) (t : T) (valid : IsValid t) where
  open law use {get_lem, next_free_lem}

  run_step : (n o : ℕ) → row t o ≡ false → IsFreeRun (row t) (o + 1) n → IsFreeRun (row t) o (suc n)
  run_step n o e rest i lo hi = elim (Bool-cases (i == o)) [
    | inl same ↦ ap (row t) (==→≡ i o same) ∙ e
    | inr other ↦ rest i (omega (tests, other)) (omega arith)
  ]

  -- What the inner loop returns: all rounds when the run is free, fewer when it is not.
  pub count_free_lem :
      (n o : ℕ)
      → o + n ≤ ops.capacity
      → (c : ℕ) × (count_free ops n t o ≡ done c)
        × (c ≤ n)
        × (c ≡ n → IsFreeRun (row t) o n)
        × (IsFreeRun (row t) o n → c ≡ n)
  unfolding count_free
  count_free_lem zero o h = (0, refl, omega arith, (λ e i lo hi. absurd (omega arith)), λ f. refl)
  count_free_lem (suc n) o h = elim (Bool-cases (row t o)) [
    | inl e ↦ (
      0,
      rw (get_lem t o valid (omega arith), e),
      omega arith,
      (λ z. absurd (omega arith)),
      λ f. ground (arith, f o),
    )
    | inr e ↦
        let (c, runs, le, all, count) = count_free_lem n (o + 1) (omega arith) in
        (
          c + 1,
          rw (get_lem t o valid (omega arith), e, runs),
          omega arith,
          (λ z i lo hi. run_step n o e (all (omega arith)) i lo hi),
          λ f. omega (arith, count (λ i lo hi. f i (omega arith) (omega arith))),
        )
  ]

  -- Where a round may go on: at a later block, with no free run at the blocks passed over.
  abbrev pub GoesOn : ℕ → ℕ → ℕ → ℕ → Type 0
  GoesOn n align o o' =
      (o < o')
      × IsBlock align o'
      × ((b : ℕ)
          → IsBlock align b
          → o ≤ b
          → b < o'
          → b + n ≤ ops.capacity
          → ¬ IsFreeRun (row t) b n)

  -- What a round finds.
  abbrev pub Probed : ℕ → ℕ → ℕ → Option ℕ → Type 0
  Probed n align o none = IsFreeRun (row t) o n
  Probed n align o (some o') = GoesOn n align o o'

  module _ (n align o : ℕ) (pos : 0 < n) (block : IsBlock align o)
      (fits : o + n ≤ ops.capacity) where
    step_pos : 0 < 2 ^ align
    step_pos = one-le-pow align 2 (omega arith)

    -- A used entry at a block refutes a free run there.
    used_block : (b : ℕ) → row t b ≡ true → ¬ IsFreeRun (row t) b n
    used_block b e free = cc (e, free b (omega arith) (omega arith))

    -- Nothing is free from here on, or the range here is not: go on at the next block.
    next_block : ¬ IsFreeRun (row t) o n → GoesOn n align o (o + 2 ^ align)
    next_block taken = (
      omega (arith, step_pos),
      next_multiple (2 ^ align) o block,
      λ b hb lo hi fits' free. taken (subst (λ k. IsFreeRun (row t) k n) (only b hb lo hi) free),
    )
      where
        only : (b : ℕ) → IsBlock align b → o ≤ b → b < o + 2 ^ align → b ≡ o
        only b hb lo hi = elim (dec_lt o b) [
          | yes p ↦ absurd (omega (arith, multiples_apart (2 ^ align) o b block hb p))
          | no p ↦ omega arith
        ]

    check_range_lem : (r : Option ℕ) × (check_range ops t n align o ≡ done r) × Probed n align o r
    unfolding check_range
    check_range_lem =
        let (c, runs, le, all, count) = count_free_lem n o fits in
        elim (Bool-cases (c == n)) [
          | inl e ↦ (none, rw (le→leb _ _ fits, runs, e), all (==→≡ c n e))
          | inr e ↦ (
            some (o + 2 ^ align),
            rw (le→leb _ _ fits, runs, e),
            next_block (λ free. omega (tests, e, count free)),
          )
        ]

    -- The first free entry lies behind the offset: go on at the first block from it on.
    jump :
        (j : ℕ)
        → align < 64
        → ops.capacity ≤ 2 ^ 63
        → o < j
        → j < ops.capacity
        → ((i : ℕ) → o ≤ i → i < j → row t i ≡ true)
        → GoesOn n align o (bit_and (j - 1) (not_bits 64 (2 ^ align - 1)) + 2 ^ align)
    jump j small cap64 lt hi used =
        rw (bit_and-high_mask 64 align (j - 1) (omega arith) (omega arith))
          (after.0, after.1, λ b hb lo below fits'. used_block b (used b lo (after.2 b hb below)))
      where
        after :
            (o < (j - 1) / 2 ^ align * 2 ^ align + 2 ^ align)
            × IsBlock align ((j - 1) / 2 ^ align * 2 ^ align + 2 ^ align)
            × ((b : ℕ) → IsBlock align b → b < (j - 1) / 2 ^ align * 2 ^ align + 2 ^ align → b < j)
        after = multiple_after (2 ^ align) o j step_pos block lt

    pub probe_lem :
        align < 64
        → ops.capacity ≤ 2 ^ 63
        → (r : Option ℕ) × (probe ops t n align o ≡ done r) × Probed n align o r
    unfolding probe
    probe_lem small cap64 = found (next_free_lem t o valid (omega arith))
      where
        found :
            (r : Option ℕ) × (ops.next_free t o ≡ done r) × IsNextFree (row t) ops.capacity o r
            → (r : Option ℕ) × (probe ops t n align o ≡ done r) × Probed n align o r
        found (none, e, used) = (
          some (o + 2 ^ align),
          rw e,
          next_block (used_block o (used o (omega arith) (omega arith))),
        )
        found (some j, e, (lo, hi, free, used)) = elim (Bool-cases (j == o)) [
          | inl same ↦ let (r, runs, spec) = check_range_lem in (r, rw (e, same) runs, spec)
          | inr other ↦ (
            some (bit_and (j - 1) (not_bits 64 (2 ^ align - 1)) + 2 ^ align),
            rw (e, other),
            jump j small cap64 (omega (tests, other)) hi used,
          )
        ]
