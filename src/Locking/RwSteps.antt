-- ===== src/Locking/RwSteps.antt =====
-- The lock of kernel/src/locking/rwlock.rs: each step of its code keeps the invariant.
use svsm.Base.{
  ℕ, ◌+◌, ◌-◌, ◌/◌, ◌%◌, ◌^◌, ◌<◌, ◌≡◌, refl, sym, ◌∙◌, ap, subst, true, false, ◌==◌, inl, inr,
  Bool-cases, ==→≡, ≡→==, arith,
}
use svsm.Locking.Threads.{count-le}
use svsm.Locking.RwLock.{
  Pc, idle, read_wait, read_swap, write_wait, write_swap, draining, writing, System, split_val,
  compose_val, wait_for_writers, compare_exchange, swap_reader, swap_writer, wait_for_readers,
  try_lock_read, try_lock_write,
}
use svsm.Locking.RwWord.{split_val_lem, compose_val_lem}
use svsm.Locking.RwInv.{is_reader, is_writer, readers, writers, IsFresh, Inv}
use svsm.Locking.RwMoves.{bounds, at_drain, Keeps, quiet, reader_in, writer_in}

-- The counts as the code reads them.
pub read_counts :
    (n : ℕ) (s : System)
    → n < 2 ^ 32
    → Inv n s
    → (split_val s.word ≡ (readers n s.pc, writers n s.pc))
read_counts n s small inv =
    let (br, bw) = bounds n s small in
    split_val_lem s.word ∙ rw (inv.counted) (pair _ _ _ _ (omega arith) (omega arith))
  where
    pair : (a b c d : ℕ) → a ≡ c → b ≡ d → ◌≡◌ {A = ℕ × ℕ} (a, b) (c, d)
    pair a b c d e f = cc

pub wait-Keeps :
    (n : ℕ) (s : System) (i : ℕ) (p : Pc) (found : ℕ → Pc)
    → n < 2 ^ 32
    → Inv n s
    → i < n
    → s.pc i ≡ p
    → is_reader p ≡ false
    → is_writer p ≡ false
    → ((v : ℕ) → is_reader (found v) ≡ false)
    → ((v : ℕ) → is_writer (found v) ≡ false)
    → ((v : ℕ) → v / 2 ^ 32 ≡ 0 → IsFresh (readers n s.pc) (writers n s.pc) (found v))
    → IsFresh (readers n s.pc) (writers n s.pc) p
    → Keeps n s i (wait_for_writers s.word found p)
unfolding wait_for_writers
wait-Keeps n s i p found small inv hi at er ew fr fw fresh mine =
    elim (Bool-cases ((split_val s.word).1 == 0)) [
      | inl e ↦ rw e (
          quiet n s i p (found s.word) inv hi at (er ∙ sym (fr s.word)) (ew ∙ sym (fw s.word))
            (fresh s.word (sym (ap (λ v. v.1) (split_val_lem s.word)) ∙ ==→≡ _ 0 e)))
      | inr e ↦ rw e (quiet n s i p p inv hi at refl refl mine)
    ]

none_high :
    (n : ℕ) (s : System)
    → Inv n s
    → n < 2 ^ 32
    → s.word / 2 ^ 32 ≡ 0
    → (writers n s.pc ≡ 0) × (s.word % 2 ^ 32 ≡ readers n s.pc) × (s.word ≡ readers n s.pc)
none_high n s inv small h = let (br, bw) = bounds n s small in omega (arith, inv.counted)

-- The new words of the two exchanges and of the attempts.
one_more :
    (n : ℕ) (s : System) (i : ℕ) (p : Pc)
    → n < 2 ^ 32 - 1
    → Inv n s
    → s.word / 2 ^ 32 ≡ 0
    → compose_val ((split_val s.word).0 + 1) 0 ≡ s.word + 1
one_more n s i p small inv h =
    let (none, low, all) = none_high n s inv (omega arith) h in
    let few = count-le is_reader n s.pc in
    ap (λ v. compose_val (v.0 + 1) 0) (split_val_lem s.word)
    ∙ compose_val_lem (s.word % 2 ^ 32 + 1) 0 (omega arith) (omega arith)
    ∙ omega arith

pub swap_reader-Keeps :
    (n : ℕ) (s : System) (i v : ℕ)
    → n < 2 ^ 32 - 1
    → Inv n s
    → i < n
    → s.pc i ≡ read_swap v
    → Keeps n s i (swap_reader s.word v)
unfolding swap_reader compare_exchange
swap_reader-Keeps n s i v small inv hi at = elim (Bool-cases (s.word == v)) [
  | inl e ↦
      let same = ==→≡ s.word v e in
      let high : s.word / 2 ^ 32 ≡ 0 =
        ap (λ w. w / 2 ^ 32) same
        ∙ subst (IsFresh (readers n s.pc) (writers n s.pc)) at (inv.fresh i) in
      rw (e, sym same)
        (reader_in n s i _ (read_swap v) inv hi at refl refl
          ((none_high n s inv (omega arith) high).0) (one_more n s i (read_swap v) small inv high))
  | inr e ↦ rw e (quiet n s i (read_swap v) read_wait inv hi at refl refl tt)
]

pub try_lock_read-Keeps :
    (n : ℕ) (s : System) (i : ℕ)
    → n < 2 ^ 32 - 1
    → Inv n s
    → i < n
    → s.pc i ≡ idle
    → Keeps n s i (try_lock_read s.word)
unfolding try_lock_read
try_lock_read-Keeps n s i small inv hi at = elim (Bool-cases ((split_val s.word).1 == 0)) [
  | inl e ↦
      let high : s.word / 2 ^ 32 ≡ 0 = sym (ap (λ v. v.1) (split_val_lem s.word)) ∙ ==→≡ _ 0 e in
      rw e (
        reader_in n s i _ idle inv hi at refl refl ((none_high n s inv (omega arith) high).0)
          (one_more n s i idle small inv high))
  | inr e ↦ rw e (quiet n s i idle idle inv hi at refl refl tt)
]

pub swap_writer-Keeps :
    (n : ℕ) (s : System) (i v : ℕ)
    → n < 2 ^ 32 - 1
    → Inv n s
    → i < n
    → s.pc i ≡ write_swap v
    → Keeps n s i (swap_writer s.word v)
unfolding swap_writer compare_exchange
swap_writer-Keeps n s i v small inv hi at = elim (Bool-cases (s.word == v)) [
  | inl e ↦
      let same = ==→≡ s.word v e in
      let high : s.word / 2 ^ 32 ≡ 0 =
        ap (λ w. w / 2 ^ 32) same
        ∙ subst (IsFresh (readers n s.pc) (writers n s.pc)) at (inv.fresh i) in
      let (none, low, all) = none_high n s inv (omega arith) high in
      let few = count-le is_reader n s.pc in
      rw (e, sym same)
        (writer_in n s i _ (write_swap v) draining inv hi at refl refl refl refl none
          (ap (λ v. compose_val v.0 1) (split_val_lem s.word)
            ∙ compose_val_lem (s.word % 2 ^ 32) 1 (omega arith) (omega arith)
            ∙ omega arith)
          refl)
  | inr e ↦ rw e (quiet n s i (write_swap v) write_wait inv hi at refl refl tt)
]

pub try_lock_write-Keeps :
    (n : ℕ) (s : System) (i : ℕ)
    → n < 2 ^ 32 - 1
    → Inv n s
    → i < n
    → s.pc i ≡ idle
    → Keeps n s i (try_lock_write s.word)
unfolding try_lock_write compare_exchange
try_lock_write-Keeps n s i small inv hi at = elim (Bool-cases (s.word == compose_val 0 0)) [
  | inl e ↦
      let zero_word : s.word ≡ 0 = ==→≡ _ _ e ∙ compose_val_lem 0 0 (omega arith) (omega arith) in
      let (none, low, all) = none_high n s inv (omega arith) (omega arith) in
      rw e (
        writer_in n s i _ idle writing inv hi at refl refl refl refl none
          (compose_val_lem 0 1 (omega arith) (omega arith) ∙ omega arith) (omega arith))
  | inr e ↦ rw e (quiet n s i idle idle inv hi at refl refl tt)
]

-- Once the readers are gone, the assertion of `lock_write` holds.
pub drain-Keeps :
    (n : ℕ) (s : System) (i : ℕ)
    → n < 2 ^ 32 - 1
    → Inv n s
    → i < n
    → s.pc i ≡ draining
    → Keeps n s i (wait_for_readers s.word)
unfolding wait_for_readers
drain-Keeps n s i small inv hi at = elim (Bool-cases ((split_val s.word).0 == 0)) [
  | inr e ↦ rw e (quiet n s i draining draining inv hi at refl refl (at_drain n s i inv at))
  | inl e ↦
      let none : s.word % 2 ^ 32 ≡ 0 = sym (ap (λ v. v.0) (split_val_lem s.word)) ∙ ==→≡ _ 0 e in
      let few = count-le is_reader n s.pc in
      let one = at_drain n s i inv at in
      let value : (s.word == compose_val 0 1) ≡ true =
        ≡→== _ _ (omega (arith, inv.counted, compose_val_lem 0 1 (omega arith) (omega arith))) in
      rw (e, value) (quiet n s i draining writing inv hi at refl refl (omega (arith, inv.counted)))
]
