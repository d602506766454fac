-- ===== src/Locking/RwInv.antt =====
-- The lock of kernel/src/locking/rwlock.rs: the word counts the guards, and what each thread may rely
-- on, move by move.
use svsm.Base.{
  ℕ, ◌+◌, ◌*◌, ◌/◌, ◌^◌, ◌≤◌, ◌<◌, ◌≡◌, ◌≢◌, refl, sym, ◌∙◌, ap, subst, Bool, true, false, ◌==◌,
  if◌then◌else◌, inl, inr, leb, Bool-cases, ==→≢, arith,
}
use svsm.Locking.Threads.{place, place-other, count, count-place, count-pos}
use svsm.Locking.RwLock.{
  Pc, idle, read_wait, read_swap, reading, write_wait, write_swap, draining, writing, panicked,
  System,
}

abbrev pub is_reader : Pc → Bool
is_reader idle = false
is_reader read_wait = false
is_reader (read_swap val) = false
is_reader reading = true
is_reader write_wait = false
is_reader (write_swap val) = false
is_reader draining = false
is_reader writing = false
is_reader panicked = false

abbrev pub is_writer : Pc → Bool
is_writer idle = false
is_writer read_wait = false
is_writer (read_swap val) = false
is_writer reading = false
is_writer write_wait = false
is_writer (write_swap val) = false
is_writer draining = true
is_writer writing = true
is_writer panicked = false

abbrev pub readers : ℕ → (ℕ → Pc) → ℕ
readers n pc = count is_reader n pc

abbrev pub writers : ℕ → (ℕ → Pc) → ℕ
writers n pc = count is_writer n pc

-- What a thread's place says of the counts.
abbrev pub IsFresh : ℕ → ℕ → Pc → Type 0
IsFresh r w idle = Unit
IsFresh r w read_wait = Unit
IsFresh r w (read_swap val) = val / 2 ^ 32 ≡ 0
IsFresh r w reading = Unit
IsFresh r w write_wait = Unit
IsFresh r w (write_swap val) = val / 2 ^ 32 ≡ 0
IsFresh r w draining = w ≡ 1
IsFresh r w writing = r ≡ 0
IsFresh r w panicked = ⊥

pub record Inv (n : ℕ) (s : System) : Type 0 where
  pub counted : s.word ≡ readers n s.pc + writers n s.pc * 2 ^ 32
  pub fresh : (i : ℕ) → IsFresh (readers n s.pc) (writers n s.pc) (s.pc i)
  pub outside : (i : ℕ) → n ≤ i → s.pc i ≡ idle

IsFresh-kept :
    (r w r' w' : ℕ) (p : Pc)
    → IsFresh r w p
    → (p ≡ draining → w' ≡ 1)
    → (p ≡ writing → r' ≡ 0)
    → IsFresh r' w' p
IsFresh-kept r w r' w' idle f d x = tt
IsFresh-kept r w r' w' read_wait f d x = tt
IsFresh-kept r w r' w' (read_swap val) f d x = f
IsFresh-kept r w r' w' reading f d x = tt
IsFresh-kept r w r' w' write_wait f d x = tt
IsFresh-kept r w r' w' (write_swap val) f d x = f
IsFresh-kept r w r' w' draining f d x = d refl
IsFresh-kept r w r' w' writing f d x = x refl
IsFresh-kept r w r' w' panicked f d x = f

-- A thread's move keeps the invariant if the new word has the new counts, and if what it and the
-- others rely on holds of them.
pub move :
    (n : ℕ) (s : System) (i word : ℕ) (p : Pc)
    → Inv n s
    → i < n
    → word ≡ readers n (place s.pc i p) + writers n (place s.pc i p) * 2 ^ 32
    → IsFresh (readers n (place s.pc i p)) (writers n (place s.pc i p)) p
    → ((j : ℕ) → i ≢ j → j < n → s.pc j ≡ draining → writers n (place s.pc i p) ≡ 1)
    → ((j : ℕ) → i ≢ j → j < n → s.pc j ≡ writing → readers n (place s.pc i p) ≡ 0)
    → Inv n (record { word = word; pc = place s.pc i p })
move n s i word p inv hi counts mine drains writes = record {
  counted = counts;
  fresh = λ j. elim (Bool-cases (i == j)) [
    | inl e ↦
        subst (IsFresh (readers n (place s.pc i p)) (writers n (place s.pc i p))) (here j e) mine
    | inr e ↦
        subst (IsFresh (readers n (place s.pc i p)) (writers n (place s.pc i p)))
          (sym (place-other s.pc i j p (==→≢ i j e)))
          (IsFresh-kept _ _ _ _ (s.pc j) (inv.fresh j)
            (λ at. drains j (==→≢ i j e) (inside j draining at refl) at)
            (λ at. writes j (==→≢ i j e) (inside j writing at refl) at))
  ];
  outside = λ j h. place-other s.pc i j p (λ e. absurd (omega arith)) ∙ inv.outside j h;
}
  where
    here : (j : ℕ) → (i == j) ≡ true → p ≡ place s.pc i p j
    here j e = ground arith

    inside : (j : ℕ) (q : Pc) → s.pc j ≡ q → is_writer q ≡ true → j < n
    inside j q at w = elim (Bool-cases (leb n j)) [
      | inr e ↦ ground arith
      | inl e ↦ absurd (clash (sym (ap is_writer (sym at ∙ inv.outside j (ground arith))) ∙ w))
    ]
      where
        clash : ◌≡◌ {A = Bool} false true → ⊥
        clash e = ground arith

-- How the counts change.
pub counts :
    (n : ℕ) (s : System) (i : ℕ) (p p' : Pc)
    → i < n
    → s.pc i ≡ p
    → (readers n (place s.pc i p') + (if is_reader p then 1 else 0)
        ≡ readers n s.pc + (if is_reader p' then 1 else 0))
      × (writers n (place s.pc i p') + (if is_writer p then 1 else 0)
          ≡ writers n s.pc + (if is_writer p' then 1 else 0))
counts n s i p p' h at = (
  subst
      (λ q.
        readers n (place s.pc i p') + (if is_reader q then 1 else 0)
        ≡ readers n s.pc + (if is_reader p' then 1 else 0))
      at (count-place is_reader n s.pc i p' h),
  subst
      (λ q.
        writers n (place s.pc i p') + (if is_writer q then 1 else 0)
        ≡ writers n s.pc + (if is_writer p' then 1 else 0))
      at (count-place is_writer n s.pc i p' h),
)

-- A thread that counts.
pub one_reader : (n : ℕ) (s : System) (i : ℕ) → i < n → s.pc i ≡ reading → 1 ≤ readers n s.pc
one_reader n s i h at = count-pos is_reader n s.pc i h (ap is_reader at)

pub one_writer :
    (n : ℕ) (s : System) (i : ℕ) (p : Pc)
    → i < n
    → s.pc i ≡ p
    → is_writer p ≡ true
    → 1 ≤ writers n s.pc
one_writer n s i p h at w = count-pos is_writer n s.pc i h (ap is_writer at ∙ w)

-- Two threads that count.
pub two_writers :
    (n : ℕ) (s : System) (i j : ℕ) (p q : Pc)
    → i < n
    → j < n
    → i ≢ j
    → s.pc i ≡ p
    → s.pc j ≡ q
    → is_writer p ≡ true
    → is_writer q ≡ true
    → 2 ≤ writers n s.pc
two_writers n s i j p q hi hj ne at at' w w' =
    let without = count-place is_writer n s.pc i idle hi in
    let other : 1 ≤ writers n (place s.pc i idle) =
      count-pos is_writer n (place s.pc i idle) j hj
        (ap is_writer (place-other s.pc i j idle ne ∙ at') ∙ w') in
    let mine : is_writer (s.pc i) ≡ true = ap is_writer at ∙ w in ground arith
