-- ===== src/Locking/RwWord.antt =====
-- The word of the lock in kernel/src/locking/rwlock.rs: two counts of 32 bits.
use svsm.Base.{ℕ, ◌+◌, ◌*◌, ◌/◌, ◌%◌, ◌^◌, ◌<◌, ◌≡◌, sym, ◌∙◌, ap, ap₂, bit_or, ◌||◌, Bool, arith}
use svsm.Bits.{bit_and-low_mask, bit_or-fields, test_bit, eq_of_test_bit, test_bit-bit_or}
use svsm.Locking.RwLock.{split_val, compose_val}

pub split_val_lem : (val : ℕ) → split_val val ≡ (val % 2 ^ 32, val / 2 ^ 32)
unfolding split_val
split_val_lem val = ap (λ r. (r, val / 2 ^ 32)) (bit_and-low_mask 32 val)

pub compose_val_lem :
    (readers writers : ℕ)
    → readers < 2 ^ 32
    → writers < 2 ^ 32
    → compose_val readers writers ≡ readers + writers * 2 ^ 32
unfolding compose_val
compose_val_lem readers writers hr hw = rw (bit_and-low_mask 32 readers) (
    eq_of_test_bit _ _ (λ i.
      test_bit-bit_or (readers % 2 ^ 32) (writers * 2 ^ 32 % 2 ^ 64) i
      ∙ or_comm (test_bit (readers % 2 ^ 32) i) (test_bit (writers * 2 ^ 32 % 2 ^ 64) i)
      ∙ sym (test_bit-bit_or (writers * 2 ^ 32 % 2 ^ 64) (readers % 2 ^ 32) i))
    ∙ ap₂ bit_or fits small
    ∙ bit_or-fields 32 writers readers hr
    ∙ omega arith)
  where
    fits : writers * 2 ^ 32 % 2 ^ 64 ≡ writers * 2 ^ 32
    fits = omega arith

    small : readers % 2 ^ 32 ≡ readers
    small = omega arith

    or_comm : (a b : Bool) → (a || b) ≡ (b || a)
    or_comm a b = ground arith

-- Two counts below 2^32 are put into the word and taken out of it again.
pub split_val-compose_val :
    (readers writers : ℕ)
    → readers < 2 ^ 32
    → writers < 2 ^ 32
    → split_val (compose_val readers writers) ≡ (readers, writers)
split_val-compose_val readers writers hr hw =
    split_val_lem (compose_val readers writers)
    ∙ rw (compose_val_lem readers writers hr hw) (ap₂ (λ a b. (a, b)) low high)
  where
    low : (readers + writers * 2 ^ 32) % 2 ^ 32 ≡ readers
    low = omega arith

    high : (readers + writers * 2 ^ 32) / 2 ^ 32 ≡ writers
    high = omega arith
