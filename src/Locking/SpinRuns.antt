-- ===== src/Locking/SpinRuns.antt =====
-- Runs of the ticket lock of kernel/src/locking/spinlock.rs: what a thread sees until its next step.
use svsm.Base.{
  ℕ, zero, suc, ◌+◌, ◌-◌, ◌%◌, ◌^◌, ◌≤◌, ◌<◌, ◌≡◌, refl, sym, ◌∙◌, ap, subst, some, ◌==◌,
  Bool-cases, inl, inr, ◌⊎◌, ==→≡, ==→≢, ≡→==, arith,
}
use svsm.Locking.Threads.{place_self, place-other}
use svsm.Locking.SpinLock.{
  RawSpinLock, Pc, idle, spin, loaded, trying, critical, Call, call_lock, call_try_lock, lock, poll,
  load_holder, compare_exchange, drop, step, System, advance, Reach, next,
}
use svsm.Locking.SpinInv.{ticket, Inv}
use svsm.Locking.SpinSafety.{Reach-Inv, step-spin, step-loaded, step-trying, step-critical}

-- Which thread takes step `k` of a run, and its call if it is idle.
abbrev pub Schedule : Type 0
Schedule = ℕ → ℕ × Call

-- The system after the first `k` steps.
unfoldable pub after : Schedule → ℕ → System → System
after f zero s = s
after f (suc k) s = advance (f k).0 (f k).1 (after f k s)

-- Within any `w` steps, each thread that waits for the lock or holds it as they begin takes a step.
abbrev pub IsFair : ℕ → Schedule → System → Type 0
IsFair w f s =
    (k j u : ℕ)
    → ticket ((after f k s).pc j) ≡ some u
    → (m : ℕ) × (k ≤ m) × (m < k + w) × ((f m).0 ≡ j)

-- The holder's counter does not go down.
step-holder :
    (call : Call) (l : RawSpinLock) (p : Pc)
    → suc l.holder < 2 ^ 64
    → l.holder ≤ (step call l p).0.holder
unfolding step lock poll load_holder compare_exchange drop
step-holder call_lock l idle h = omega arith
step-holder call_try_lock l idle h = omega arith
step-holder call l (spin t) h =
    subst (λ out. l.holder ≤ out.0.holder) (sym (step-spin call l t)) (ground arith)
step-holder call l (loaded c) h =
    subst (λ out. l.holder ≤ out.0.holder) (sym (step-loaded call l c)) (ground arith)
step-holder call l (trying c) h =
    subst (λ out. l.holder ≤ out.0.holder) (sym (step-trying call l c)) (ground arith)
step-holder call l (critical t) h =
    subst (λ out. l.holder ≤ out.0.holder) (sym (step-critical call l t)) (omega arith)

-- `k` more than `n`, by steps.
abbrev pub ahead : ℕ → ℕ → ℕ
ahead zero n = n
ahead (suc k) n = suc (ahead k n)

pub ahead-sum : (k n : ℕ) → ahead k n ≡ k + n
ahead-sum zero n = omega arith
ahead-sum (suc k) n = omega (arith, ahead-sum k n)

module _ (f : Schedule) (s : System) (n : ℕ) (r : Reach n s) where
  after-Reach : (k : ℕ) → Reach (ahead k n) (after f k s)
  unfolding after
  after-Reach zero = r
  after-Reach (suc k) = next (ahead k n) (after f k s) (f k).0 (f k).1 (after-Reach k)

  pub Inv-at : (k : ℕ) → k + n < 2 ^ 64 → Inv (ahead k n) (after f k s)
  Inv-at k h = Reach-Inv (ahead k n) (after f k s) (omega (arith, ahead-sum k n)) (after-Reach k)

  holder_up :
      (k g : ℕ)
      → suc (g + k + n) < 2 ^ 64
      → (after f k s).shared.holder ≤ (after f (ahead g k) s).shared.holder
  unfolding after advance
  holder_up k zero h = omega arith
  holder_up k (suc g) h =
      let inv = Inv-at (ahead g k) (omega (arith, ahead-sum g k)) in
      omega (
        arith,
        holder_up k g (omega arith),
        step-holder (f (ahead g k)).1 (after f (ahead g k) s).shared
            ((after f (ahead g k) s).pc (f (ahead g k)).0)
            (omega (arith, inv.few, inv.ordered, ahead-sum g k, ahead-sum (ahead g k) n)),
      )

  -- A thread that takes a step at some time has a first one, until which it stays where it is.
  pub waits :
      (j g k : ℕ)
      → (f (ahead g k)).0 ≡ j
      → (m : ℕ) × (k ≤ m)
        × (m ≤ ahead g k)
        × ((f m).0 ≡ j)
        × ((after f m s).pc j ≡ (after f k s).pc j)
  unfolding after advance
  waits j zero k h = (k, omega arith, omega arith, h, refl)
  waits j (suc g) k h = elim (Bool-cases ((f k).0 == j)) [
    | inl e ↦ (k, omega arith, omega (arith, ahead-sum g k), ==→≡ (f k).0 j e, refl)
    | inr e ↦
        let up : ahead g (suc k) ≡ suc (ahead g k) =
          omega (arith, ahead-sum g k, ahead-sum g (suc k)) in
        let (m, lo, hi, at, same) = waits j g (suc k) (ap (λ x. (f x).0) up ∙ h) in
        (
          m,
          omega arith,
          omega (arith, up),
          at,
          same ∙ place-other (after f k s).pc (f k).0 j _ (==→≢ (f k).0 j e),
        )
  ]

  -- One step of a thread that waits.
  step_waiting :
      (k i t : ℕ)
      → (after f k s).pc i ≡ spin t
      → ((after f (suc k) s).pc i ≡ critical t) ⊎ ((after f (suc k) s).pc i ≡ spin t)
  unfolding after advance poll
  step_waiting k i t at = elim (Bool-cases ((f k).0 == i)) [
    | inr e ↦ inr (place-other (after f k s).pc (f k).0 i _ (==→≢ (f k).0 i e) ∙ at)
    | inl e ↦
        let l = (after f k s).shared in
        let here =
          ap (λ p. (step (f k).1 l p).1) (ap (after f k s).pc (==→≡ (f k).0 i e) ∙ at)
          ∙ ap (λ out. out.1) (step-spin (f k).1 l t) in
        elim (Bool-cases (l.holder == t)) [
          | inl g ↦ inl (rw e (here ∙ rw g refl))
          | inr g ↦ inr (rw e (here ∙ rw g refl))
        ]
  ]

  -- A thread that waits has the lock at some time up to a later one, or still waits then.
  stays :
      (i t g k : ℕ)
      → (after f k s).pc i ≡ spin t
      → ((m : ℕ) × (m ≤ ahead g k) × ((after f m s).pc i ≡ critical t))
        ⊎ ((after f (ahead g k) s).pc i ≡ spin t)
  stays i t zero k at = inr at
  stays i t (suc g) k at = elim (stays i t g k at) [
    | inl (m, le, inside) ↦ inl (m, omega arith, inside)
    | inr at' ↦ elim (step_waiting (ahead g k) i t at') [
      | inl inside ↦ inl (suc (ahead g k), omega arith, inside)
      | inr still ↦ inr still
    ]
  ]

  pub gap_to : (k m : ℕ) → k ≤ m → (g : ℕ) × (ahead g k ≡ m)
  gap_to k m h = (m - k, omega (arith, ahead-sum (m - k) k))

  pub stays_until :
      (i t k m : ℕ)
      → k ≤ m
      → (after f k s).pc i ≡ spin t
      → ((x : ℕ) × (x ≤ m) × ((after f x s).pc i ≡ critical t)) ⊎ ((after f m s).pc i ≡ spin t)
  stays_until i t k m h at =
      let (g, e) = gap_to k m h in
      subst
        (λ m.
          ((x : ℕ) × (x ≤ m) × ((after f x s).pc i ≡ critical t)) ⊎ ((after f m s).pc i ≡ spin t))
        e (stays i t g k at)

  -- While the owner of the first ticket has it, the holder's counter stands still.
  pub holder_same :
      (k m j : ℕ)
      → k ≤ m
      → suc (m + n) < 2 ^ 64
      → ticket ((after f m s).pc j) ≡ some (after f k s).shared.holder
      → (after f m s).shared.holder ≡ (after f k s).shared.holder
  holder_same k m j h small has =
      let (g, e) = gap_to k m h in
      let up : (after f k s).shared.holder ≤ (after f m s).shared.holder =
        subst (λ m. (after f k s).shared.holder ≤ (after f m s).shared.holder) e
          (holder_up k g (omega (arith, ahead-sum g k))) in
      omega (arith, up, (Inv-at m (omega arith)).range j _ has)

  -- The step of a known thread.
  stepped : (m j : ℕ) → (f m).0 ≡ j → after f (suc m) s ≡ advance j (f m).1 (after f m s)
  unfolding after
  stepped m j e = ap (λ j. advance j (f m).1 (after f m s)) e

  pub grabs :
      (m i t : ℕ)
      → (f m).0 ≡ i
      → (after f m s).pc i ≡ spin t
      → (after f m s).shared.holder ≡ t
      → (after f (suc m) s).pc i ≡ critical t
  unfolding advance poll
  grabs m i t who at own =
      ap (λ s'. s'.pc i) (stepped m i who)
      ∙ place_self (after f m s).pc i _
      ∙ ap (λ p. (step (f m).1 (after f m s).shared p).1) at
      ∙ ap (λ out. out.1) (step-spin (f m).1 (after f m s).shared t)
      ∙ rw (≡→== _ t own) refl

  pub leaves :
      (m j u : ℕ)
      → (f m).0 ≡ j
      → (after f m s).pc j ≡ critical u
      → (after f (suc m) s).shared.holder ≡ ((after f m s).shared.holder + 1) % 2 ^ 64
  unfolding advance drop
  leaves m j u who at =
      ap (λ s'. s'.shared.holder) (stepped m j who)
      ∙ ap (λ p. (step (f m).1 (after f m s).shared p).0.holder) at
      ∙ ap (λ out. out.0.holder) (step-critical (f m).1 (after f m s).shared u)
