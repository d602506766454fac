-- ===== src/Locking/SpinSafety.antt =====
-- The ticket lock of kernel/src/locking/spinlock.rs: exclusion and order.
use svsm.Base.{
  ℕ, suc, ◌+◌, ◌%◌, ◌^◌, ◌≤◌, ◌<◌, ◌≡◌, refl, sym, ◌∙◌, ap, subst, ◌==◌, some, inl, inr, Bool-cases,
  ==→≡, arith,
}
use svsm.Locking.SpinLock.{
  RawSpinLock, Pc, idle, spin, loaded, trying, critical, Call, call_lock, call_try_lock, lock, poll,
  load_holder, compare_exchange, drop, step, System, advance, Reach, start, next,
}
use svsm.Locking.SpinInv.{ticket, IsFresh, Inv, StepInv, start-Inv, quiet, gain, leave}

abbrev Keeps : ℕ → System → ℕ → RawSpinLock × Pc → Type 0
Keeps n s i out = StepInv n s i out.0 out.1

poll-Keeps :
    (n : ℕ) (s : System) (i t : ℕ) → Inv n s → s.pc i ≡ spin t → Keeps n s i (poll s.shared t)
unfolding poll
poll-Keeps n s i t inv at = elim (Bool-cases (s.shared.holder == t)) [
  | inl e ↦ rw e (quiet n s i (critical t) inv (sym (ap ticket at)) (sym (==→≡ _ t e)))
  | inr e ↦ rw e (quiet n s i (spin t) inv (sym (ap ticket at)) tt)
]

load_holder-Keeps :
    (n : ℕ) (s : System) (i c : ℕ)
    → Inv n s
    → s.pc i ≡ loaded c
    → Keeps n s i (load_holder s.shared c)
unfolding load_holder
load_holder-Keeps n s i c inv at = elim (Bool-cases (c == s.shared.holder)) [
  | inl e ↦ rw e (quiet n s i (trying c) inv (sym (ap ticket at)) (omega (arith, ==→≡ c _ e)))
  | inr e ↦ rw e (quiet n s i idle inv (sym (ap ticket at)) tt)
]

-- The exchange succeeds only while nobody is inside.
compare_exchange-Keeps :
    (n : ℕ) (s : System) (i c : ℕ)
    → suc n < 2 ^ 64
    → Inv n s
    → s.pc i ≡ trying c
    → Keeps n s i (compare_exchange s.shared c)
unfolding compare_exchange
compare_exchange-Keeps n s i c small inv at = elim (Bool-cases (s.shared.current == c)) [
  | inl e ↦
      let same = ==→≡ _ c e in
      let seen : c ≤ s.shared.holder = subst (IsFresh s.shared) at (inv.fresh i) in
      rw e (
        subst (λ k. StepInv n s i (record s.shared { current = (k + 1) % 2 ^ 64 }) (critical c))
          same
          (gain n s i (critical c) small inv (ap ticket at) (ap some (sym same))
            (omega (arith, inv.ordered))))
  | inr e ↦ rw e (quiet n s i idle inv (sym (ap ticket at)) tt)
]

pub step-spin : (call : Call) (l : RawSpinLock) (t : ℕ) → step call l (spin t) ≡ poll l t
unfolding step
step-spin call_lock l t = refl
step-spin call_try_lock l t = refl

pub step-loaded : (call : Call) (l : RawSpinLock) (c : ℕ) → step call l (loaded c) ≡ load_holder l c
unfolding step
step-loaded call_lock l c = refl
step-loaded call_try_lock l c = refl

pub step-trying :
    (call : Call) (l : RawSpinLock) (c : ℕ) → step call l (trying c) ≡ compare_exchange l c
unfolding step
step-trying call_lock l c = refl
step-trying call_try_lock l c = refl

pub step-critical : (call : Call) (l : RawSpinLock) (t : ℕ) → step call l (critical t) ≡ drop l
unfolding step
step-critical call_lock l t = refl
step-critical call_try_lock l t = refl

-- A step of any thread keeps the invariant.
pub advance-Inv :
    (n : ℕ) (i : ℕ) (call : Call) (s : System)
    → suc n < 2 ^ 64
    → Inv n s
    → Inv (suc n) (advance i call s)
unfolding advance step lock drop
advance-Inv n i call s small inv = go call (s.pc i) refl
  where
    go : (call : Call) (p : Pc) → s.pc i ≡ p → Keeps n s i (step call s.shared p)
    go call_lock idle at = gain n s i (spin s.shared.current) small inv (ap ticket at) refl tt
    go call_try_lock idle at = quiet n s i (loaded s.shared.current) inv (sym (ap ticket at)) tt
    go call (spin t) at =
        subst (Keeps n s i) (sym (step-spin call s.shared t)) (poll-Keeps n s i t inv at)
    go call (loaded c) at =
        subst (Keeps n s i) (sym (step-loaded call s.shared c)) (load_holder-Keeps n s i c inv at)
    go call (trying c) at =
        subst (Keeps n s i) (sym (step-trying call s.shared c))
          (compare_exchange-Keeps n s i c small inv at)
    go call (critical t) at =
        subst (Keeps n s i) (sym (step-critical call s.shared t)) (leave n s i t small inv at)

pub Reach-Inv : (n : ℕ) (s : System) → n < 2 ^ 64 → Reach n s → Inv n s
Reach-Inv n s small start = start-Inv
Reach-Inv n s small (next m s0 i call r) =
    advance-Inv m i call s0 small (Reach-Inv m s0 (omega arith) r)

-- In every system that fewer than 2^64 steps of any threads lead to, at most one thread is between
-- the acquisition of the lock and the drop of its guard, and the ticket it has is the least of those
-- that threads have.
pub mutual_exclusion :
    (n : ℕ) (s : System) (i j t u : ℕ)
    → n < 2 ^ 64
    → Reach n s
    → s.pc i ≡ critical t
    → ticket (s.pc j) ≡ some u
    → (t ≤ u) × (s.pc j ≡ critical u → i ≡ j)
mutual_exclusion n s i j t u small r at has =
    let inv = Reach-Inv n s small r in
    let own : t ≡ s.shared.holder = subst (IsFresh s.shared) at (inv.fresh i) in
    (
      omega (arith, inv.range j u has),
      λ at2.
          inv.unique i j t (ap ticket at)
            (has ∙ ap some (subst (IsFresh s.shared) at2 (inv.fresh j) ∙ sym own)),
    )
