-- ===== src/Bitmap/Tree.antt =====
-- `BitmapAllocatorTree`: sixteen bitmaps below one word, whose bit `k` tells that child `k` is not
-- empty. Generic in the child, as in the source.
pub mod Rows
pub mod Write
pub mod Laws
use svsm.Base.{
  ℕ, zero, suc, ◌+◌, ◌-◌, ◌*◌, ◌/◌, ◌%◌, ◌^◌, bit_and, bit_or, Bool, true, false, leb, ltb, ◌==◌,
  if◌then◌else◌, Option, none, some, List, [], ◌∷◌, get_elem?, replicate, Run, done, ◌>>=◌, ◌>>◌,
  assert, unwrap,
}
use svsm.Base
use svsm.Bits.{not_bits}
use svsm.Bitmap.Interface.{BitmapAllocator}
use svsm.Bitmap.Word.{BitmapAllocator64, word, new_full, new_empty}

pub record BitmapAllocatorTree (T : Type 0) : Type 0 where
  pub bits : ℕ
  pub child : List T

abbrev pub tree_full : BitmapAllocatorTree BitmapAllocator64
tree_full = record { bits = 2 ^ 16 - 1; child = replicate 16 new_full }

abbrev pub tree_empty : BitmapAllocatorTree BitmapAllocator64
tree_empty = record { bits = 0; child = replicate 16 new_empty }

module _ {T : Type 0} (ops : BitmapAllocator T) where
  abbrev pub capacity : ℕ
  capacity = ops.capacity * 16

  -- The word after child `index` has become `c`.
  unfoldable pub mark_child : ℕ → ℕ → T → ℕ
  mark_child bits index c =
      if ops.empty c then bit_and bits (not_bits 16 (2 ^ index)) else bit_or bits (2 ^ index)

  -- The loop of `set` at child `index`, with `left` children to go.
  unfoldable pub set_loop :
      ℕ → BitmapAllocatorTree T → ℕ → ℕ → ℕ → Bool → Run (BitmapAllocatorTree T)
  unfolding mark_child
  set_loop zero t index offset remain value = done t
  set_loop (suc left) t index offset remain value = do
    let child_size = if ltb (ops.capacity - offset) remain then ops.capacity - offset else remain
    c ← unwrap (get_elem? t.child index)
    c' ← ops.set c offset child_size value
    let t' : BitmapAllocatorTree T = record {
      bits = mark_child t.bits index c';
      child = Base.set t.child index c';
    }
    let rest = set_loop left t' (index + 1) 0 (remain - child_size) value
    if remain - child_size == 0 then done t' else rest

  unfoldable pub set : BitmapAllocatorTree T → ℕ → ℕ → Bool → Run (BitmapAllocatorTree T)
  unfolding set_loop
  set t start entries value = do
    assert (leb (start + entries) capacity)
    set_loop (16 - start / ops.capacity) t (start / ops.capacity) (start % ops.capacity) entries
        value

  -- The loop of `next_free` at child `index`, with `left` children to go.
  unfoldable pub next_free_loop : ℕ → BitmapAllocatorTree T → ℕ → ℕ → Run (Option ℕ)
  next_free_loop zero t index offset = done none
  next_free_loop (suc left) t index offset = do
    c ← unwrap (get_elem? t.child index)
    found ← ops.next_free c offset
    elim found [
      | some next_offset ↦ done (some (next_offset + index * ops.capacity))
      | none ↦ next_free_loop left t (index + 1) 0
    ]

  unfoldable pub next_free : BitmapAllocatorTree T → ℕ → Run (Option ℕ)
  unfolding next_free_loop
  next_free t start = do
    assert (ltb start capacity)
    next_free_loop (16 - start / ops.capacity) t (start / ops.capacity) (start % ops.capacity)

  unfoldable pub get : BitmapAllocatorTree T → ℕ → Run Bool
  get t offset = do
    assert (ltb offset capacity)
    c ← unwrap (get_elem? t.child (offset / ops.capacity))
    ops.get c (offset % ops.capacity)

  unfoldable pub empty : BitmapAllocatorTree T → Bool
  empty t = t.bits == 0

  abbrev used_children : List T → ℕ
  used_children [] = 0
  used_children (c ∷ cs) = ops.used c + used_children cs

  unfoldable pub used : BitmapAllocatorTree T → ℕ
  used t = used_children t.child

  abbrev pub tree : BitmapAllocator (BitmapAllocatorTree T)
  tree = record {
    capacity = capacity;
    set = set;
    next_free = next_free;
    get = get;
    empty = empty;
    used = used;
  }

-- `BitmapAllocator1024`
abbrev pub tree1024 : BitmapAllocator (BitmapAllocatorTree BitmapAllocator64)
tree1024 = tree word
