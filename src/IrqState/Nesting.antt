-- ===== src/IrqState/Nesting.antt =====
-- Disabling and enabling interrupts in kernel/src/cpu/irq_state.rs: only the outermost pair counts.
use svsm.Base.{
  ℕ, zero, suc, ◌+◌, ◌-◌, ◌%◌, ◌^◌, ◌<◌, ◌≡◌, refl, sym, ◌∙◌, subst, Bool, true, false, ◌&&◌, ◌==◌,
  ltb, inl, inr, Bool-cases, Option, none, some, List, [], ◌∷◌, length, Run, done, ◌>>=◌, arith,
}
use svsm.IrqState.{Irqs, set_count, push_nesting, disable, pop_nesting, enable}

-- `depth` sections are open, and interrupts were as `before` when the outermost was entered.
pub record IsNested (before : Bool) (depth : ℕ) (s : Irqs) : Type 0 where
  pub counted : s.counts 0 ≡ depth
  pub outside : depth ≡ 0 → s.enabled ≡ before
  pub inside : 0 < depth → (s.enabled ≡ false) × (s.state ≡ before)

-- A section is entered,
pub disable_lem :
    (before : Bool) (depth : ℕ) (s : Irqs)
    → depth < 2 ^ 31
    → IsNested before depth s
    → (s' : Irqs) × (disable s ≡ done s') × IsNested before (suc depth) s'
unfolding disable push_nesting
disable_lem before zero s h nested =
    let low : ltb (s.counts 0) (2 ^ 31) ≡ true = ground (arith, nested.counted) in
    let outermost : (s.counts 0 == 0) ≡ true = ground (arith, nested.counted) in
    (
      record {
        enabled = false;
        tpr = s.tpr;
        state = s.enabled;
        counts = set_count s.counts 0 ((s.counts 0 + 1) % 2 ^ 32);
      },
      rw (low, outermost) refl,
      record {
        counted = omega (arith, nested.counted);
        outside = λ e. absurd (omega arith);
        inside = λ pos. (refl, nested.outside refl);
      },
    )
disable_lem before (suc depth) s h nested =
    let low : ltb (s.counts 0) (2 ^ 31) ≡ true = ground (arith, nested.counted) in
    let inner : (s.counts 0 == 0) ≡ false = ground (arith, nested.counted) in
    (
      record s { enabled = false; counts = set_count s.counts 0 ((s.counts 0 + 1) % 2 ^ 32) },
      rw (low, inner) refl,
      record {
        counted = omega (arith, nested.counted);
        outside = λ e. absurd (omega arith);
        inside = λ pos. (refl, (nested.inside (omega arith)).1);
      },
    )

-- and left.
pub enable_lem :
    (before : Bool) (depth : ℕ) (s : Irqs)
    → suc depth < 2 ^ 31
    → IsNested before (suc depth) s
    → (s' : Irqs) × (enable s ≡ done s') × IsNested before depth s'
unfolding enable pop_nesting
enable_lem before depth s h nested =
    let open_section : (ltb 0 (s.counts 0) && ltb (s.counts 0) (2 ^ 31)) ≡ true =
      ground (arith, nested.counted) in
    let (off, kept) = nested.inside (omega arith) in
    elim (Bool-cases (s.counts 0 - 1 == 0)) [
      | inr e ↦ (
        record s { counts = set_count s.counts 0 ((s.counts 0 + 2 ^ 32 - 1) % 2 ^ 32) },
        rw (open_section, e) refl,
        record {
          counted = omega (arith, nested.counted);
          outside = λ z. absurd (ground (arith, nested.counted));
          inside = λ pos. (off, kept);
        },
      )
      | inl e ↦ elim (Bool-cases s.state) [
        | inl on ↦ (
          record s {
            enabled = true;
            counts = set_count s.counts 0 ((s.counts 0 + 2 ^ 32 - 1) % 2 ^ 32);
          },
          rw (open_section, e, on) refl,
          record {
            counted = omega (arith, nested.counted);
            outside = λ z. sym on ∙ kept;
            inside = λ pos. absurd (ground (arith, nested.counted));
          },
        )
        | inr on ↦ (
          record s { counts = set_count s.counts 0 ((s.counts 0 + 2 ^ 32 - 1) % 2 ^ 32) },
          rw (open_section, e, on) refl,
          record {
            counted = omega (arith, nested.counted);
            outside = λ z. off ∙ sym on ∙ kept;
            inside = λ pos. absurd (ground (arith, nested.counted));
          },
        )
      ]
    ]

pub data Event : Type 0 where
  enter : Event
  exit : Event

unfoldable pub run : List Event → Irqs → Run Irqs
run [] s = done s
run (enter ∷ more) s = disable s >>= run more
run (exit ∷ more) s = enable s >>= run more

-- How deep a sequence of events ends, if it never leaves more sections than it entered.
unfoldable pub depth_after : List Event → ℕ → Option ℕ
depth_after [] depth = some depth
depth_after (enter ∷ more) depth = depth_after more (suc depth)
depth_after (exit ∷ more) zero = none
depth_after (exit ∷ more) (suc depth) = depth_after more depth

-- From a CPU with `depth` open sections, any sequence of `disable` and `enable` that never leaves more
-- sections than are open runs without a panic, if depth and length of the sequence together are below
-- 2^31. It ends at the depth that counting gives: if sections are open there, the interrupts are off,
-- and if none is, they are as they were before the outermost was entered.
pub run-IsNested :
    (events : List Event) (before : Bool) (depth depth' : ℕ) (s : Irqs)
    → depth + length events < 2 ^ 31
    → depth_after events depth ≡ some depth'
    → IsNested before depth s
    → (s' : Irqs) × (run events s ≡ done s') × IsNested before depth' s'
unfolding run depth_after
run-IsNested [] before depth depth' s h e nested =
    (s, refl, subst (λ d. IsNested before d s) (some_inj e) nested)
  where
    some_inj : ◌≡◌ {A = Option ℕ} (some depth) (some depth') → depth ≡ depth'
    some_inj e = cc
run-IsNested (enter ∷ more) before depth depth' s h e nested =
    let (s1, run1, nested1) = disable_lem before depth s (omega arith) nested in
    let (s2, run2, nested2) =
      run-IsNested more before (suc depth) depth' s1 (omega arith) e nested1 in
    (s2, rw run1 run2, nested2)
run-IsNested (exit ∷ more) before zero depth' s h e nested = absurd (clash e)
  where
    clash : ◌≡◌ {A = Option ℕ} none (some depth') → ⊥
    clash e = cc
run-IsNested (exit ∷ more) before (suc depth) depth' s h e nested =
    let (s1, run1, nested1) = enable_lem before depth s (omega arith) nested in
    let (s2, run2, nested2) = run-IsNested more before depth depth' s1 (omega arith) e nested1 in
    (s2, rw run1 run2, nested2)
