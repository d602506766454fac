-- ===== src/VirtualRange/RoundTrip.antt =====
-- What `alloc` hands out, and `free` as its inverse.
use native.Mathlib.Nat.{mul-div_cancel, one-le-pow, pow-le-pow_right, mul-le-mul_right}
use svsm.Base.{
  ℕ, ◌+◌, ◌-◌, ◌*◌, ◌/◌, ◌^◌, ◌≤◌, ◌<◌, ◌≡◌, refl, sym, ◌∙◌, ap, subst, Bool, true, false, Option,
  none, some, Run, done, ◌>>=◌, arith,
}
use svsm.Bits.{highest_bit, test_bit}
use svsm.Util.{add_usize}
use svsm.Address.{virt_add, virt_diff}
use svsm.Address.Canonical.{IsCanonical}
use svsm.Address.Arith.{virt_diff-virt_add}
use svsm.Bitmap.Interface.{Contract, fill}
use svsm.Bitmap.Word.{BitmapAllocator64, word}
use svsm.Bitmap.Word.Laws.{word_contract}
use svsm.Bitmap.Word.Laws
use svsm.Bitmap.Tree.{BitmapAllocatorTree, tree1024}
use svsm.Bitmap.Tree.Rows.{tree_row, IsValidTree}
use svsm.Bitmap.Tree.Laws.{tree_contract}
use svsm.Bitmap.Alloc
use svsm.Bitmap.Alloc.Laws.{Allocated, alloc_lem}
use svsm.VirtualRange.{VirtualRange, alloc, free}

abbrev pub IsValidBits : BitmapAllocatorTree BitmapAllocator64 → Type 0
IsValidBits = IsValidTree word Laws.row Laws.IsValid

-- Whether page `i` of the range is in use.
abbrev pub in_use : VirtualRange → ℕ → Bool
in_use r = tree_row word Laws.row Laws.IsValid r.bits

contract1024 : Contract tree1024 (tree_row word Laws.row Laws.IsValid) IsValidBits
contract1024 = tree_contract word Laws.row Laws.IsValid word_contract

-- What an allocation of `n` pages should leave and return.
abbrev pub Reserved : VirtualRange → ℕ → ℕ → VirtualRange × Option ℕ → Type 0
Reserved r n align (r', none) =
    (r' ≡ r)
    × ((o : ℕ)
        → Alloc.Scan.IsBlock align o
        → o + (n + 1) ≤ 1024
        → ¬ Alloc.Scan.IsFreeRun (in_use r) o (n + 1))
Reserved r n align (r', some v) =
    (o : ℕ) × (v ≡ virt_add r.start_virt (o * 2 ^ r.page_shift))
    × (r' ≡ record r { bits = r'.bits })
    × Alloc.Scan.IsBlock align o
    × (o + (n + 1) ≤ 1024)
    × Alloc.Scan.IsFreeRun (in_use r) o (n + 1)
    × ((b : ℕ)
        → Alloc.Scan.IsBlock align b
        → b < o
        → b + (n + 1) ≤ 1024
        → ¬ Alloc.Scan.IsFreeRun (in_use r) b (n + 1))
    × IsValidBits r'.bits
    × ((i : ℕ) → i < 1024 → in_use r' i ≡ fill (in_use r) o (n + 1) true i)

-- On a range with a valid bitmap, for fewer than 2^64 - 1 pages and an alignment below 10, `alloc`
-- returns: it hands out the address of a free aligned run, one page longer than asked for as a guard,
-- before which there is no such run, and marks exactly that run; or there is no free aligned run of
-- that length and nothing changes.
pub alloc-Reserved :
    (r : VirtualRange) (n align : ℕ)
    → IsValidBits r.bits
    → n < 2 ^ 64 - 1
    → align < 10
    → (out : VirtualRange × Option ℕ) × (alloc r n align ≡ done out) × Reserved r n align out
unfolding alloc highest_bit test_bit
alloc-Reserved r n align valid usize small = taken (
    (alloc_lem tree1024 _ _ contract1024 r.bits (n + 1) align 10 valid (omega arith) (omega arith)
        refl).1
      small)
  where
    guard : add_usize n 1 ≡ n + 1
    guard = omega arith

    taken :
        (out : BitmapAllocatorTree BitmapAllocator64 × Option ℕ) × (Alloc.alloc tree1024 r.bits
              (n + 1)
              align
            ≡ done out)
          × Allocated tree1024
              (tree_row word Laws.row Laws.IsValid)
              IsValidBits
              r.bits
              (n + 1)
              align
              out
        → (out : VirtualRange × Option ℕ) × (alloc r n align ≡ done out) × Reserved r n align out
    taken ((bits, none), runs, (same, full)) = (
      (record r { bits = bits }, none),
      rw (guard, runs, ◌>>=◌),
      (ap (λ b. record r { bits = b }) same, full),
    )
    taken ((bits, some o), runs, (block, fits, free_run, first, valid', rows)) = (
      (record r { bits = bits }, some (virt_add r.start_virt (o * 2 ^ r.page_shift))),
      rw (guard, runs, ◌>>=◌),
      (o, refl, refl, block, fits, free_run, first, valid', rows),
    )

done_inj : {A : Type 0} {x y : A} → Run.done x ≡ Run.done y → x ≡ y
done_inj h = cc

-- The offset that `free` computes from an address that `alloc` made.
offset_back :
    (start o shift : ℕ)
    → IsCanonical start
    → shift ≤ 38
    → o < 1024
    → virt_diff (virt_add start (o * 2 ^ shift)) start / 2 ^ shift ≡ o
offset_back start o shift canonical small fits =
    rw ((virt_diff-virt_add start (o * 2 ^ shift) canonical below).0)
      (mul-div_cancel o (one-le-pow shift 2 (omega arith)))
  where
    below : o * 2 ^ shift < 2 ^ 48
    below = omega (
      arith,
      mul-le-mul_right {m = o} {n = 1023} (2 ^ shift) (omega arith),
      pow-le-pow_right {n = 2} (omega arith) small,
    )

-- On a range with a valid bitmap, a canonical start and a page shift of at most 38, for fewer than
-- 2^64 - 1 pages and an alignment below 10: `free` of what `alloc` handed out returns, and leaves every page as it was
-- before.
pub free-alloc_pages :
    (r r' : VirtualRange) (n align v : ℕ)
    → IsValidBits r.bits
    → IsCanonical r.start_virt
    → r.page_shift ≤ 38
    → n < 2 ^ 64 - 1
    → align < 10
    → alloc r n align ≡ done (r', some v)
    → (r'' : VirtualRange) × (free r' v n ≡ done r'')
      × IsValidBits r''.bits
      × ((i : ℕ) → i < 1024 → in_use r'' i ≡ in_use r i)
unfolding free Alloc.free contract1024
free-alloc_pages r r' n align v valid canonical shift usize small runs =
    let (out, returns, spec) = alloc-Reserved r n align valid usize small in
    give_back (subst (Reserved r n align) (done_inj (sym returns ∙ runs)) spec)
  where
    give_back :
        Reserved r n align (r', some v)
        → (r'' : VirtualRange) × (free r' v n ≡ done r'')
          × IsValidBits r''.bits
          × ((i : ℕ) → i < 1024 → in_use r'' i ≡ in_use r i)
    give_back (o, at, same, block, fits, free_run, first, valid', rows) =
        let (bits, sets, valid'', rows') =
          contract1024.set_lem r'.bits o (n + 1) false valid' (omega arith) fits in
        (
          record r' { bits = bits },
          rw (offset, guard, sets, ◌>>=◌),
          valid'',
          λ i hi. rows' i hi ∙ ground (arith, rows i hi, free_run i),
        )
      where
        guard : add_usize n 1 ≡ n + 1
        guard = omega arith

        offset : virt_diff v r'.start_virt / 2 ^ r'.page_shift ≡ o
        offset =
            ap (λ s. virt_diff v s.start_virt / 2 ^ s.page_shift) same
            ∙ ap (λ a. virt_diff a r.start_virt / 2 ^ r.page_shift) at
            ∙ offset_back r.start_virt o r.page_shift canonical shift (omega arith)
