-- ===== src/Locking/SpinProgress.antt =====
-- The ticket lock of kernel/src/locking/spinlock.rs: whoever waits is served, in any fair run.
use svsm.Base.{
  ℕ, zero, suc, ◌+◌, ◌*◌, ◌^◌, ◌≤◌, ◌<◌, ◌≡◌, refl, sym, ◌∙◌, ap, subst, Option, none, some, inl,
  inr, arith,
}
use svsm.Locking.SpinLock.{Pc, idle, spin, loaded, trying, critical, System, Reach}
use svsm.Locking.SpinInv.{ticket, IsFresh, some_inj}
use svsm.Locking.SpinRuns.{
  Schedule, after, IsFair, ahead-sum, Inv-at, waits, gap_to, stays_until, holder_same, grabs,
  leaves,
}

no_ticket : (u : ℕ) → ◌≡◌ {A = Option ℕ} none (some u) → ⊥
no_ticket u e = cc

module _ (f : Schedule) (s : System) (n : ℕ) (r : Reach n s) (w : ℕ) (fair : IsFair w f s) where
  -- The next step of a thread that waits f s n r or is inside.
  turn :
      (k j u : ℕ)
      → ticket ((after f k s).pc j) ≡ some u
      → (m : ℕ) × (k ≤ m) × (m < k + w) × ((f m).0 ≡ j) × ((after f m s).pc j ≡ (after f k s).pc j)
  turn k j u has =
      let (m, lo, hi, who) = fair k j u has in
      let (g, e) = gap_to f s n r k m lo in
      let (m', lo', hi', who', same) = waits f s n r j g k (ap (λ x. (f x).0) e ∙ who) in
      (m', lo', omega arith, who', same)

  -- The steps that are enough with `d` tickets ahead.
  abbrev budget : ℕ → ℕ
  budget zero = w
  budget (suc d) = w + w + budget d

  abbrev Gets : ℕ → ℕ → ℕ → Type 0
  Gets i t most = (m : ℕ) × (m ≤ most) × ((after f m s).pc i ≡ critical t)

  -- The thread inside leaves f s n r at its next step, and one ticket fewer is ahead.
  after_leave :
      (d k i t j u : ℕ)
      → k + w + budget d + n < 2 ^ 64
      → (after f k s).pc i ≡ spin t
      → t ≡ (after f k s).shared.holder + suc d
      → (after f k s).pc j ≡ critical u
      → ((m : ℕ)
          → m ≤ k + w
          → (after f m s).pc i ≡ spin t
          → t ≡ (after f m s).shared.holder + d
          → Gets i t (m + budget d))
      → Gets i t (k + w + budget d)
  after_leave d k i t j u small at gap inside rec =
      let (m, lo, hi, who, same) = turn k j u (ap ticket inside) in
      let inside' = same ∙ inside in
      let inv = Inv-at f s n r k (omega arith) in
      let own : u ≡ (after f k s).shared.holder =
        subst (IsFresh (after f k s).shared) inside (inv.fresh j) in
      let still = holder_same f s n r k m j lo (omega arith) (ap ticket inside' ∙ ap some own) in
      let down = leaves f s n r m j u who inside' in
      elim (stays_until f s n r i t k (suc m) (omega arith) at) [
        | inl (x, le, got) ↦ (x, omega arith, got)
        | inr at' ↦
            let (x, le, got) = rec (suc m) (omega arith) at' (
              omega
                (arith, still, down, gap, inv.few, inv.range i t (ap ticket at), ahead-sum k n)) in
            (x, omega arith, got)
      ]

  -- The owner of the first ticket takes the lock, unless it has it, and leaves.
  pass :
      (d k i t j : ℕ) (p : Pc)
      → k + budget (suc d) + n < 2 ^ 64
      → (after f k s).pc i ≡ spin t
      → t ≡ (after f k s).shared.holder + suc d
      → (after f k s).pc j ≡ p
      → ticket p ≡ some (after f k s).shared.holder
      → ((m : ℕ)
          → m ≤ k + w + w
          → (after f m s).pc i ≡ spin t
          → t ≡ (after f m s).shared.holder + d
          → Gets i t (m + budget d))
      → Gets i t (k + budget (suc d))
  pass d k i t j idle small at gap is has rec = absurd (no_ticket _ has)
  pass d k i t j (loaded c) small at gap is has rec = absurd (no_ticket _ has)
  pass d k i t j (trying c) small at gap is has rec = absurd (no_ticket _ has)
  pass d k i t j (critical u) small at gap is has rec =
      let (x, le, got) =
        after_leave d k i t j u (omega arith) at gap is (λ m le. rec m (omega arith)) in
      (x, omega arith, got)
  pass d k i t j (spin u) small at gap is has rec =
      let (m, lo, hi, who, same) = turn k j u (ap ticket is) in
      let here : ticket ((after f m s).pc j) ≡ some (after f k s).shared.holder =
        ap ticket (same ∙ is) ∙ has in
      let own = some_inj u _ has in
      let inside =
        grabs f s n r m j u who (same ∙ is)
          (holder_same f s n r k m j lo (omega arith) here ∙ sym own) in
      let still =
        holder_same f s n r k (suc m) j (omega arith) (omega arith) (ap ticket inside ∙ has) in
      elim (stays_until f s n r i t k (suc m) (omega arith) at) [
        | inl (x, le, got) ↦ (x, omega arith, got)
        | inr at' ↦
            let (x, le, got) =
              after_leave d (suc m) i t j u (omega arith) at' (omega (arith, still)) inside
                (λ m le. rec m (omega arith)) in
            (x, omega arith, got)
      ]

  serves :
      (d k i t : ℕ)
      → k + budget d + n < 2 ^ 64
      → (after f k s).pc i ≡ spin t
      → t ≡ (after f k s).shared.holder + d
      → Gets i t (k + budget d)
  serves zero k i t small at gap =
      let (m, lo, hi, who, same) = turn k i t (ap ticket at) in
      let first : t ≡ (after f k s).shared.holder = omega arith in
      let still =
        holder_same f s n r k m i lo (omega arith) (ap ticket (same ∙ at) ∙ ap some first) in
      (suc m, omega arith, grabs f s n r m i t who (same ∙ at) (omega (arith, still)))
  serves (suc d) k i t small at gap =
      let inv = Inv-at f s n r k (omega arith) in
      let (j, has) =
        inv.owner (after f k s).shared.holder (omega arith)
          (omega (arith, inv.range i t (ap ticket at))) in
      pass d k i t j ((after f k s).pc j) small at gap refl has
        (λ m le at' gap'. serves d m i t (omega arith) at' gap')

  budget-sum : (d : ℕ) → budget d ≡ (2 * d + 1) * w
  budget-sum zero = omega arith
  budget-sum (suc d) = grind (arith, budget-sum d)

-- In every run from a reachable system in which each thread that waits f s n r for the lock or holds it takes
-- a step within any `w` steps, whatever the threads do otherwise, a thread that waits f s n r with `d`
-- tickets ahead of its own holds the lock after at most (2 * d + 1) * w steps: with n steps taken
-- before, n and these together are below 2^64.
pub lock-Served :
    (f : Schedule) (s : System) (w d n i t : ℕ)
    → n + (2 * d + 1) * w < 2 ^ 64
    → Reach n s
    → IsFair w f s
    → s.pc i ≡ spin t
    → t ≡ s.shared.holder + d
    → (m : ℕ) × (m ≤ (2 * d + 1) * w) × ((after f m s).pc i ≡ critical t)
unfolding after
lock-Served f s w d n i t small r fair at gap =
    let sum = budget-sum f s n r w fair d in
    let (m, le, got) = serves f s n r w fair d 0 i t (omega (arith, sum)) at gap in
    (m, omega (arith, sum), got)
