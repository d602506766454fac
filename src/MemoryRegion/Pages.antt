-- ===== src/MemoryRegion/Pages.antt =====
-- The pages that `iter_pages` yields.
use native.Mathlib.Nat.{div-add-mod', mod-lt}
use svsm.Base.{
  ℕ, zero, suc, ◌+◌, ◌-◌, ◌*◌, ◌/◌, ◌%◌, ◌≤◌, ◌<◌, ◌≡◌, refl, ◌∙◌, ltb, Bool-cases, inl, inr, arith,
  lt→ltb, tests, ◌^◌, ◌⊎◌, if◌then◌else◌, List, [], ◌∷◌, map, get_elem?, some, none,
}
use svsm.Util.{PageSize, regular, huge, bytes}
use svsm.Address.{AddressKind, phys_addr, virt_addr}
use svsm.Address.Canonical.{sign_extend-IsCanonical}
use svsm.MemoryRegion.{MemoryRegion, step_by, iter_pages}

-- Item `i` of the loop is there exactly where it lies below the end.
step_by_item :
    (fuel lo hi step i : ℕ)
    → 0 < step
    → hi - lo ≤ fuel
    → get_elem? (step_by fuel lo hi step) i
      ≡ (if ltb (lo + i * step) hi then some (lo + i * step) else none)
unfolding step_by
step_by_item zero lo hi step i pos h = ground arith
step_by_item (suc fuel) lo hi step zero pos h = ground arith
step_by_item (suc fuel) lo hi step (suc i) pos h = elim (Bool-cases (ltb lo hi)) [
  | inl e ↦ ground (arith, shift, step_by_item fuel (lo + step) hi step i)
  | inr e ↦ ground (arith, shift)
]
  where
    shift : lo + suc i * step ≡ lo + step + i * step
    shift = omega arith

get_elem?-map :
    (f : ℕ → ℕ) (xs : List ℕ) (i : ℕ)
    → get_elem? (map f xs) i ≡ elim (get_elem? xs i) [ none ↦ none | some x ↦ some (f x) ]
get_elem?-map f [] i = refl
get_elem?-map f (x ∷ xs) zero = refl
get_elem?-map f (x ∷ xs) (suc i) = get_elem?-map f xs i

iter_pages_item :
    (kind : AddressKind) (r : MemoryRegion) (size : PageSize) (i : ℕ)
    → 0 < bytes size
    → get_elem? (iter_pages kind r size) i ≡ (
        if ltb (r.start + i * bytes size) r.end
        then some (kind.from (r.start + i * bytes size))
        else none)
unfolding iter_pages
iter_pages_item kind r size i pos =
    get_elem?-map kind.from (step_by (r.end - r.start) r.start r.end (bytes size)) i
    ∙ rw (step_by_item (r.end - r.start) r.start r.end (bytes size) i pos (omega arith))
        (ground arith)

bytes-pos : (size : PageSize) → 0 < bytes size
bytes-pos regular = omega arith
bytes-pos huge = omega arith

-- Every number from the start of a region to its end is an address of that kind.
abbrev pub IsPlain : AddressKind → MemoryRegion → Type 0
IsPlain kind r = (a : ℕ) → r.start ≤ a → a < r.end → kind.from a ≡ a

-- Any physical region is such, and a virtual one whose addresses are canonical.
pub phys-IsPlain : (r : MemoryRegion) → IsPlain phys_addr r
phys-IsPlain r a lo hi = refl

pub virt-IsPlain :
    (r : MemoryRegion)
    → (r.end ≤ 2 ^ 47) ⊎ ((2 ^ 64 - 2 ^ 47 ≤ r.start) × (r.end ≤ 2 ^ 64))
    → IsPlain virt_addr r
virt-IsPlain r (inl low) a lo hi =
    ((sign_extend-IsCanonical a (omega arith)).2).1 (inl (omega arith))
virt-IsPlain r (inr (high, fits)) a lo hi =
    ((sign_extend-IsCanonical a (omega arith)).2).1 (inr (omega arith, omega arith))

-- The pages of a region of physical or virtual addresses, of which each number from its start to its
-- end is one: item `i` is the address `i` pages behind the start and there are no items from the end
-- on; the page that holds an address of the region is the item at the quotient.
pub iter_pages-covers :
    (kind : AddressKind) (r : MemoryRegion) (size : PageSize)
    → IsPlain kind r
    → ((i : ℕ)
        → get_elem? (iter_pages kind r size) i ≡ (
            if ltb (r.start + i * bytes size) r.end then some (r.start + i * bytes size) else none))
      × ((a : ℕ)
          → r.start ≤ a
          → a < r.end
          → (p : ℕ) × (get_elem? (iter_pages kind r size) ((a - r.start) / bytes size) ≡ some p)
            × (p ≤ a)
            × (a < p + bytes size))
iter_pages-covers kind r size plain = (
  (λ i. iter_pages_item kind r size i (bytes-pos size) ∙ item i),
  λ a lo hi. (
    r.start + (a - r.start) / bytes size * bytes size,
    iter_pages_item kind r size ((a - r.start) / bytes size) (bytes-pos size)
        ∙ item ((a - r.start) / bytes size)
        ∙ rw (
            lt→ltb (r.start + (a - r.start) / bytes size * bytes size) r.end
              (omega (arith, split a))),
    omega (arith, split a),
    omega (arith, split a, mod-lt (a - r.start) (bytes-pos size)),
  ),
)
  where
    item :
        (i : ℕ)
        → (if ltb (r.start + i * bytes size) r.end
            then some (kind.from (r.start + i * bytes size))
            else none)
          ≡ (if ltb (r.start + i * bytes size) r.end then some (r.start + i * bytes size) else none)
    item i = elim (Bool-cases (ltb (r.start + i * bytes size) r.end)) [
      | inl e ↦ rw (e, plain (r.start + i * bytes size) (omega arith) (omega (tests, e))) refl
      | inr e ↦ rw e refl
    ]

    split :
        (a : ℕ) → (a - r.start) / bytes size * bytes size + (a - r.start) % bytes size ≡ a - r.start
    split a = div-add-mod' (a - r.start) (bytes size)
