-- ===== src/Locking/RwMoves.antt =====
-- The lock of kernel/src/locking/rwlock.rs: how its guards come and go.
use svsm.Base.{ℕ, ◌+◌, ◌^◌, ◌<◌, ◌≡◌, refl, ◌∙◌, subst, true, false, arith}
use svsm.Locking.Threads.{place, count-le}
use svsm.Locking.RwLock.{
  Pc, idle, reading, draining, writing, System, compose_val, drop_read, drop_write,
}
use svsm.Locking.RwWord.{compose_val_lem}
use svsm.Locking.RwInv.{
  is_reader, is_writer, readers, writers, IsFresh, Inv, move, counts, one_reader, one_writer,
  two_writers,
}

-- Bounds that every count has.
pub bounds :
    (n : ℕ) (s : System) → n < 2 ^ 32 → (readers n s.pc < 2 ^ 32) × (writers n s.pc < 2 ^ 32)
bounds n s h = (omega (arith, count-le is_reader n s.pc), omega (arith, count-le is_writer n s.pc))

pub at_drain : (n : ℕ) (s : System) (j : ℕ) → Inv n s → s.pc j ≡ draining → writers n s.pc ≡ 1
at_drain n s j inv at = subst (IsFresh (readers n s.pc) (writers n s.pc)) at (inv.fresh j)

pub at_write : (n : ℕ) (s : System) (j : ℕ) → Inv n s → s.pc j ≡ writing → readers n s.pc ≡ 0
at_write n s j inv at = subst (IsFresh (readers n s.pc) (writers n s.pc)) at (inv.fresh j)

abbrev pub Keeps : ℕ → System → ℕ → ℕ × Pc → Type 0
Keeps n s i out = Inv n (record { word = out.0; pc = place s.pc i out.1 })

-- A move between places that count alike.
pub quiet :
    (n : ℕ) (s : System) (i : ℕ) (p p' : Pc)
    → Inv n s
    → i < n
    → s.pc i ≡ p
    → is_reader p ≡ is_reader p'
    → is_writer p ≡ is_writer p'
    → IsFresh (readers n s.pc) (writers n s.pc) p'
    → Keeps n s i (s.word, p')
quiet n s i p p' inv hi at er ew fresh =
    let (r, w) = counts n s i p p' hi at in
    let same_r : readers n (place s.pc i p') ≡ readers n s.pc = ground (arith, er) in
    let same_w : writers n (place s.pc i p') ≡ writers n s.pc = ground (arith, ew) in
    move n s i s.word p' inv hi (inv.counted ∙ omega arith) (rw (same_r, same_w) fresh)
      (λ j ne hj at'. same_w ∙ at_drain n s j inv at')
      (λ j ne hj at'. same_r ∙ at_write n s j inv at')

-- A reader comes in while there are no writers,
pub reader_in :
    (n : ℕ) (s : System) (i word : ℕ) (p : Pc)
    → Inv n s
    → i < n
    → s.pc i ≡ p
    → is_reader p ≡ false
    → is_writer p ≡ false
    → writers n s.pc ≡ 0
    → word ≡ s.word + 1
    → Keeps n s i (word, reading)
reader_in n s i word p inv hi at er ew none value =
    let (r, w) = counts n s i p reading hi at in
    move n s i word reading inv hi (ground (arith, er, ew, inv.counted)) tt
      (λ j ne hj at'. absurd (omega (arith, at_drain n s j inv at')))
      (λ j ne hj at'. absurd (omega (arith, one_writer n s j writing hj at' refl)))

-- a writer while there are no writers, and none that thinks it is alone,
pub writer_in :
    (n : ℕ) (s : System) (i word : ℕ) (p p' : Pc)
    → Inv n s
    → i < n
    → s.pc i ≡ p
    → is_reader p ≡ false
    → is_writer p ≡ false
    → is_reader p' ≡ false
    → is_writer p' ≡ true
    → writers n s.pc ≡ 0
    → word ≡ s.word + 2 ^ 32
    → IsFresh (readers n s.pc) 1 p'
    → Keeps n s i (word, p')
writer_in n s i word p p' inv hi at er ew er' ew' none value fresh =
    let (r, w) = counts n s i p p' hi at in
    let same_r : readers n (place s.pc i p') ≡ readers n s.pc = ground (arith, er, er') in
    let one_w : writers n (place s.pc i p') ≡ 1 = ground (arith, ew, ew') in
    move n s i word p' inv hi (omega (arith, inv.counted)) (rw (same_r, one_w) fresh)
      (λ j ne hj at'. one_w) (λ j ne hj at'. same_r ∙ at_write n s j inv at')

-- a reader goes,
pub reader_out :
    (n : ℕ) (s : System) (i : ℕ)
    → n < 2 ^ 32
    → Inv n s
    → i < n
    → s.pc i ≡ reading
    → Keeps n s i (drop_read s.word)
unfolding drop_read
reader_out n s i small inv hi at =
    let (r, w) = counts n s i reading idle hi at in
    let (br, bw) = bounds n s small in
    let one = one_reader n s i hi at in
    let bit : compose_val 1 0 ≡ 1 = compose_val_lem 1 0 (omega arith) (omega arith) in
    move n s i _ idle inv hi (rw bit (omega (arith, inv.counted))) tt
      (λ j ne hj at'. omega (arith, at_drain n s j inv at'))
      (λ j ne hj at'. omega (arith, at_write n s j inv at'))

-- and a writer.
pub writer_out :
    (n : ℕ) (s : System) (i : ℕ)
    → n < 2 ^ 32
    → Inv n s
    → i < n
    → s.pc i ≡ writing
    → Keeps n s i (drop_write s.word)
unfolding drop_write
writer_out n s i small inv hi at =
    let (r, w) = counts n s i writing idle hi at in
    let (br, bw) = bounds n s small in
    let one = one_writer n s i writing hi at refl in
    let bit : compose_val 0 1 ≡ 2 ^ 32 = compose_val_lem 0 1 (omega arith) (omega arith) in
    move n s i _ idle inv hi (rw bit (omega (arith, inv.counted))) tt
      (λ j ne hj at'. absurd (
        omega (
          arith,
          at_drain n s j inv at',
          two_writers n s i j writing draining hi hj ne at at' refl refl,
        )))
      (λ j ne hj at'. omega (arith, at_write n s j inv at'))
