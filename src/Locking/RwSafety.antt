-- ===== src/Locking/RwSafety.antt =====
-- The lock of kernel/src/locking/rwlock.rs: its invariant in every reachable system, and what follows.
use svsm.Base.{ℕ, zero, suc, ◌-◌, ◌^◌, ◌<◌, ◌≡◌, ◌≢◌, refl, sym, ◌∙◌, subst, Bool, false, arith}
use svsm.Locking.Threads.{place, count, count-le}
use svsm.Locking.RwLock.{
  Pc, idle, read_wait, read_swap, reading, write_wait, write_swap, draining, writing, panicked,
  Call, call_lock_read, call_try_lock_read, call_lock_write, call_try_lock_write, System, split_val,
  compose_val, enter, step, advance, split_read, split_write, Reach, start, next, split_reader,
  split_writer,
}
use svsm.Locking.RwWord.{compose_val_lem}
use svsm.Locking.RwInv.{
  is_reader, is_writer, readers, writers, IsFresh, Inv, move, counts, one_reader, two_writers,
}
use svsm.Locking.RwMoves.{bounds, at_drain, at_write, Keeps, quiet, reader_out, writer_out}
use svsm.Locking.RwSteps.{
  read_counts, wait-Keeps, swap_reader-Keeps, try_lock_read-Keeps, swap_writer-Keeps,
  try_lock_write-Keeps, drain-Keeps,
}

enter-Keeps :
    (n : ℕ) (s : System) (i : ℕ) (call : Call)
    → n < 2 ^ 32 - 1
    → Inv n s
    → i < n
    → s.pc i ≡ idle
    → Keeps n s i (enter call s.word)
unfolding enter
enter-Keeps n s i call_lock_read small inv hi at = quiet n s i idle read_wait inv hi at refl refl tt
enter-Keeps n s i call_try_lock_read small inv hi at = try_lock_read-Keeps n s i small inv hi at
enter-Keeps n s i call_lock_write small inv hi at =
    quiet n s i idle write_wait inv hi at refl refl tt
enter-Keeps n s i call_try_lock_write small inv hi at = try_lock_write-Keeps n s i small inv hi at

step-Keeps :
    (n : ℕ) (s : System) (i : ℕ) (call : Call) (p : Pc)
    → n < 2 ^ 32 - 1
    → Inv n s
    → i < n
    → s.pc i ≡ p
    → Keeps n s i (step p call s.word)
unfolding step
step-Keeps n s i call idle small inv hi at = enter-Keeps n s i call small inv hi at
step-Keeps n s i call read_wait small inv hi at =
    wait-Keeps n s i read_wait read_swap (omega arith) inv hi at refl refl (λ v. refl) (λ v. refl)
      (λ v h. h) tt
step-Keeps n s i call (read_swap v) small inv hi at = swap_reader-Keeps n s i v small inv hi at
step-Keeps n s i call reading small inv hi at = reader_out n s i (omega arith) inv hi at
step-Keeps n s i call write_wait small inv hi at =
    wait-Keeps n s i write_wait write_swap (omega arith) inv hi at refl refl (λ v. refl) (λ v. refl)
      (λ v h. h) tt
step-Keeps n s i call (write_swap v) small inv hi at = swap_writer-Keeps n s i v small inv hi at
step-Keeps n s i call draining small inv hi at = drain-Keeps n s i small inv hi at
step-Keeps n s i call writing small inv hi at = writer_out n s i (omega arith) inv hi at
step-Keeps n s i call panicked small inv hi at =
    absurd (subst (IsFresh (readers n s.pc) (writers n s.pc)) at (inv.fresh i))

advance-Inv :
    (n : ℕ) (s : System) (i : ℕ) (call : Call)
    → n < 2 ^ 32 - 1
    → Inv n s
    → i < n
    → Inv n (advance i call s)
unfolding advance
advance-Inv n s i call small inv hi = step-Keeps n s i call (s.pc i) small inv hi refl

split_read-Inv :
    (n : ℕ) (s : System) (i j : ℕ)
    → n < 2 ^ 32 - 1
    → Inv n s
    → i < n
    → j < n
    → s.pc i ≡ reading
    → s.pc j ≡ idle
    → Inv n (split_read j s)
unfolding split_read
split_read-Inv n s i j small inv hi hj at at' =
    let (r, w) = counts n s j idle reading hj at' in
    let (br, bw) = bounds n s (omega arith) in
    let few = count-le is_reader n (place s.pc j reading) in
    let one = one_reader n s i hi at in
    let bit : compose_val 1 0 ≡ 1 = compose_val_lem 1 0 (omega arith) (omega arith) in
    move n s j _ reading inv hj (rw bit (omega (arith, inv.counted))) tt
      (λ k ne hk at2. omega (arith, at_drain n s k inv at2))
      (λ k ne hk at2. absurd (omega (arith, at_write n s k inv at2)))

split_write-Inv :
    (n : ℕ) (s : System) (i j : ℕ)
    → n < 2 ^ 32 - 1
    → Inv n s
    → i < n
    → j < n
    → s.pc i ≡ writing
    → s.pc j ≡ idle
    → Inv n (split_write j s)
unfolding split_write
split_write-Inv n s i j small inv hi hj at at' =
    let (r, w) = counts n s j idle writing hj at' in
    let (br, bw) = bounds n s (omega arith) in
    let few = count-le is_writer n (place s.pc j writing) in
    let none = at_write n s i inv at in
    let bit : compose_val 0 1 ≡ 2 ^ 32 = compose_val_lem 0 1 (omega arith) (omega arith) in
    move n s j _ writing inv hj (rw bit (omega (arith, inv.counted))) (omega arith)
      (λ k ne hk at2. absurd (
        omega (
          arith,
          at_drain n s k inv at2,
          two_writers n s i k writing draining hi hk (apart k at2) at at2 refl refl,
        )))
      (λ k ne hk at2. omega (arith, at_write n s k inv at2))
  where
    clash : ◌≡◌ {A = Pc} writing draining → ⊥
    clash e = cc

    apart : (k : ℕ) → s.pc k ≡ draining → i ≢ k
    apart k at2 e = clash (sym at ∙ subst (λ k. s.pc k ≡ draining) (sym e) at2)

start-Inv : (n : ℕ) → Inv n (record { word = 0; pc = λ i. idle })
unfolding count
start-Inv n = record {
  counted = omega (arith, none is_reader n refl, none is_writer n refl);
  fresh = λ i. tt;
  outside = λ i h. refl;
}
  where
    none : (f : Pc → Bool) (n : ℕ) → f idle ≡ false → count f n (λ i. idle) ≡ 0
    none f zero e = refl
    none f (suc n) e = rw e (omega (arith, none f n e))

pub Reach-Inv : (n : ℕ) (s : System) → n < 2 ^ 32 - 1 → Reach n s → Inv n s
Reach-Inv n s small start = start-Inv n
Reach-Inv n s small (next s0 i call hi r) =
    advance-Inv n s0 i call small (Reach-Inv n s0 small r) hi
Reach-Inv n s small (split_reader s0 i j hi hj at at' r) =
    split_read-Inv n s0 i j small (Reach-Inv n s0 small r) hi hj at at'
Reach-Inv n s small (split_writer s0 i j hi hj at at' r) =
    split_write-Inv n s0 i j small (Reach-Inv n s0 small r) hi hj at at'

-- In every system that steps of fewer than 2^32 - 1 threads lead to: the two halves of the word are
-- the numbers of read guards and of threads with write access or waiting for the readers to leave; no
-- thread writes while another reads; no thread writes while another waits for the readers to leave;
-- and the assertion of `lock_write` has not failed.
pub write_exclusion :
    (n : ℕ) (s : System)
    → n < 2 ^ 32 - 1
    → Reach n s
    → (split_val s.word ≡ (readers n s.pc, writers n s.pc))
      × ((i j : ℕ) → i < n → j < n → s.pc i ≡ writing → s.pc j ≢ reading)
      × ((i j : ℕ) → i < n → j < n → s.pc i ≡ writing → s.pc j ≢ draining)
      × ((i : ℕ) → s.pc i ≢ panicked)
write_exclusion n s small r =
    let inv = Reach-Inv n s small r in
    (
      read_counts n s (omega arith) inv,
      λ i j hi hj at at'. omega (arith, one_reader n s j hj at', at_write n s i inv at),
      λ i j hi hj at at'. omega (
        arith,
        at_drain n s j inv at',
        two_writers n s i j writing draining hi hj (apart i j at at') at at' refl refl,
      ),
      λ i at. subst (IsFresh (readers n s.pc) (writers n s.pc)) at (inv.fresh i),
    )
  where
    clash : ◌≡◌ {A = Pc} writing draining → ⊥
    clash e = cc

    apart : (i j : ℕ) → s.pc i ≡ writing → s.pc j ≡ draining → i ≢ j
    apart i j at at' e = clash (sym at ∙ subst (λ k. s.pc k ≡ draining) (sym e) at')
