-- ===== src/IrqState/Tests.antt =====
-- Nested sections on a CPU with interrupts on, and a CPU that holds level 5.
use svsm.Base.{ℕ, ◌-◌, ◌≡◌, refl, true, ◌==◌, if◌then◌else◌, [], ◌∷◌, done, arith}
use svsm.IrqState.{Irqs, new, lower_tpr}
use svsm.IrqState.Nesting.{IsNested, enter, exit, run, depth_after, run-IsNested}
use svsm.IrqState.Priority.{IsHighest, lower_tpr_lem}

new-IsNested : IsNested true 0 (new true 0)
new-IsNested = record { counted = refl; outside = λ e. refl; inside = λ pos. absurd (omega arith) }

run-IsNested_example :
    (s' : Irqs) × (run (enter ∷ enter ∷ exit ∷ []) (new true 0) ≡ done s') × IsNested true 1 s'
unfolding depth_after
run-IsNested_example =
    run-IsNested (enter ∷ enter ∷ exit ∷ []) true 0 1 (new true 0) (omega arith) refl new-IsNested

abbrev at_five : Irqs
at_five = record (new true 5) { counts = λ k. if 5 == k then 1 else 0 }

at_five-IsHighest : IsHighest at_five
at_five-IsHighest = record {
  limit = omega arith;
  none_above = λ k h h'. ground arith;
  held = λ h. omega arith;
}

lower_tpr_lem_example :
    (s' : Irqs) × (lower_tpr at_five 5 ≡ done s')
    × IsHighest s'
    × ((k : ℕ) → s'.counts k ≡ (if 5 == k then at_five.counts k - 1 else at_five.counts k))
lower_tpr_lem_example =
    lower_tpr_lem at_five 5 at_five-IsHighest (omega arith) (omega arith) (omega arith)
      (omega arith)
