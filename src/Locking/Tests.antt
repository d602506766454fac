-- ===== src/Locking/Tests.antt =====
-- Two threads at the ticket lock, a reader at the reader-writer lock.
use svsm.Base.{
  ℕ, zero, suc, ◌+◌, ◌*◌, ◌%◌, ◌≤◌, ◌≡◌, ◌≢◌, ◌<◌, refl, sym, ◌∙◌, ap, Option, none, some, leb,
  ◌==◌, inl, inr, Bool-cases, ==→≡, ==→≢, arith, tests,
}
use svsm.Locking.Threads.{place-other}
use svsm.Locking.SpinInv.{ticket}
use svsm.Locking.SpinLock.{
  critical, call_lock, lock, poll, step, System, advance, Reach, start, next, new, idle,
}
use svsm.Locking.SpinSafety.{mutual_exclusion}
use svsm.Locking.SpinRuns.{Schedule, after, IsFair}
use svsm.Locking.SpinProgress.{lock-Served}
use svsm.Locking.RwLock
use svsm.Locking.RwLock.{split_val, reading, writing, draining, panicked, call_try_lock_read}
use svsm.Locking.RwInv.{readers, writers}
use svsm.Locking.RwSafety.{write_exclusion}

-- Thread 0 takes the lock, and thread 1 waits for it.
abbrev at_start : System
at_start = record { shared = new; pc = λ i. idle }

abbrev contended : System
contended = advance 1 call_lock (advance 0 call_lock (advance 0 call_lock at_start))

contended-Reach : Reach 3 contended
contended-Reach = next 2 _ 1 call_lock (next 1 _ 0 call_lock (next 0 _ 0 call_lock start))

mutual_exclusion_example : (0 ≤ 1) × (contended.pc 1 ≡ critical 1 → ◌≡◌ {A = ℕ} 0 1)
unfolding advance step lock poll
mutual_exclusion_example =
    mutual_exclusion 3 contended 0 1 0 1 (omega arith) contended-Reach refl refl

-- The two threads take steps in turn.
abbrev in_turn : Schedule
in_turn k = (k % 2, call_lock)

others_idle : (k j : ℕ) → 2 ≤ j → (after in_turn k contended).pc j ≡ idle
unfolding after advance
others_idle zero j h = ground arith
others_idle (suc k) j h =
    place-other (after in_turn k contended).pc (k % 2) j _ (omega arith) ∙ others_idle k j h

in_turn-IsFair : IsFair 2 in_turn contended
in_turn-IsFair k j u has = elim (Bool-cases (leb 2 j)) [
  | inl e ↦ absurd (outside (sym (ap ticket (others_idle k j (omega (tests, e)))) ∙ has))
  | inr e ↦ elim (Bool-cases (k % 2 == j)) [
    | inl at ↦ (k, omega arith, omega arith, ==→≡ (k % 2) j at)
    | inr at ↦ (k + 1, omega arith, omega arith, omega (arith, ==→≢ (k % 2) j at, tests, e))
  ]
]
  where
    outside : ◌≡◌ {A = Option ℕ} none (some u) → ⊥
    outside e = cc

lock-Served_example :
    (m : ℕ) × (m ≤ (2 * 1 + 1) * 2) × ((after in_turn m contended).pc 1 ≡ critical 1)
unfolding advance step lock poll
lock-Served_example =
    lock-Served in_turn contended 2 1 3 1 1 (omega arith) contended-Reach in_turn-IsFair refl refl

-- One thread reads.
abbrev read_by_one : RwLock.System
read_by_one = RwLock.advance 0 call_try_lock_read (record { word = 0; pc = λ i. RwLock.idle })

read_by_one-Reach : RwLock.Reach 4 read_by_one
read_by_one-Reach = RwLock.next _ 0 call_try_lock_read (omega arith) RwLock.start

write_exclusion_example :
    (split_val read_by_one.word ≡ (readers 4 read_by_one.pc, writers 4 read_by_one.pc))
    × ((i j : ℕ) → i < 4 → j < 4 → read_by_one.pc i ≡ writing → read_by_one.pc j ≢ reading)
    × ((i j : ℕ) → i < 4 → j < 4 → read_by_one.pc i ≡ writing → read_by_one.pc j ≢ draining)
    × ((i : ℕ) → read_by_one.pc i ≢ panicked)
write_exclusion_example = write_exclusion 4 read_by_one (omega arith) read_by_one-Reach
