-- ===== src/IrqState/Priority.antt =====
-- Raising and lowering the task priority in kernel/src/cpu/irq_state.rs.
use svsm.Base.{
  ℕ, zero, suc, ◌+◌, ◌-◌, ◌%◌, ◌^◌, ◌≤◌, ◌<◌, ◌≡◌, refl, sym, ap, subst, true, ◌&&◌, ◌==◌, leb, ltb,
  if◌then◌else◌, inl, inr, Bool-cases, ==→≡, done, ◌>>=◌, arith,
}
use svsm.IrqState.{Irqs, set_count, raise_tpr, lower_tpr, highest_below}

-- The task priority is the highest level that is held, or 0.
pub record IsHighest (s : Irqs) : Type 0 where
  pub limit : s.tpr < 16
  pub none_above : (k : ℕ) → s.tpr < k → k < 16 → s.counts k ≡ 0
  pub held : 0 < s.tpr → 0 < s.counts s.tpr

highest_below_lem :
    (n : ℕ) (counts : ℕ → ℕ)
    → (highest_below n counts ≤ n)
      × (0 < n → highest_below n counts < n)
      × ((k : ℕ) → highest_below n counts < k → k < n → counts k ≡ 0)
      × (0 < highest_below n counts → 0 < counts (highest_below n counts))
unfolding highest_below
highest_below_lem zero counts = (
  omega arith,
  λ h. absurd (omega arith),
  λ k h h'. absurd (omega arith),
  λ h. absurd (omega arith),
)
highest_below_lem (suc n) counts = elim (Bool-cases (counts n == 0)) [
  | inl e ↦
      let (le, lt, above, held) = highest_below_lem n counts in
      rw e (
        omega arith,
        λ h. omega arith,
        λ k h h'. elim (Bool-cases (k == n)) [
          | inl same ↦ subst (λ k. counts k ≡ 0) (sym (==→≡ k n same)) (==→≡ _ 0 e)
          | inr ne ↦ above k h (ground arith)
        ],
        held,
      )
  | inr e ↦ rw e (omega arith, λ h. omega arith, λ k h h'. absurd (omega arith), λ h. ground arith)
]

-- Raising the priority to a level from 1 to 15 that is not below the current one, and is not held
-- 2^32 - 1 times, sets it to that level and holds that once more; the priority is again the highest
-- level that is held.
pub raise_tpr_lem :
    (s : Irqs) (level : ℕ)
    → IsHighest s
    → 0 < level
    → level < 16
    → s.tpr ≤ level
    → s.counts level < 2 ^ 32 - 1
    → (s' : Irqs) × (raise_tpr s level ≡ done s')
      × IsHighest s'
      × (s'.tpr ≡ level)
      × ((k : ℕ) → s'.counts k ≡ (if level == k then suc (s.counts k) else s.counts k))
unfolding raise_tpr
raise_tpr_lem s level highest pos lt le small =
    let test : (ltb 0 level && leb s.tpr level) ≡ true = ground arith in
    let test2 : ltb level 16 ≡ true = ground arith in
    (
      record s { tpr = level; counts = set_count s.counts level ((s.counts level + 1) % 2 ^ 32) },
      rw (test, test2) refl,
      record {
        limit = lt;
        none_above = λ k h h'. ground (arith, highest.none_above k);
        held = λ h. ground arith;
      },
      refl,
      λ k. elim (Bool-cases (level == k)) [
        | inl e ↦ rw e (omega (arith, ap s.counts (==→≡ level k e)))
        | inr e ↦ rw e refl
      ],
    )

-- Lowering a level from 1 to 15 that is held fewer than 2^32 times, and at least once, in any order
-- with others, gives up one hold of it; the priority is again the highest level that is held.
pub lower_tpr_lem :
    (s : Irqs) (level : ℕ)
    → IsHighest s
    → 0 < level
    → level < 16
    → 0 < s.counts level
    → s.counts level < 2 ^ 32
    → (s' : Irqs) × (lower_tpr s level ≡ done s')
      × IsHighest s'
      × ((k : ℕ) → s'.counts k ≡ (if level == k then s.counts k - 1 else s.counts k))
unfolding lower_tpr
lower_tpr_lem s level highest pos lt some_held small =
    let test : ltb level 16 ≡ true = ground arith in
    elim (Bool-cases (s.counts level == 1 && leb s.tpr level)) [
      | inl e ↦
          let (le, below, above, held) = highest_below_lem level counts' in
          (
            record s { tpr = highest_below level counts'; counts = counts' },
            rw (test, e) refl,
            record {
              limit = omega arith;
              none_above = λ k h h'. elim (Bool-cases (ltb k level)) [
                | inl lower ↦ above k h (ground arith)
                | inr higher ↦
                    ground
                      (arith, lowered k, highest.none_above k, ==→≡ (s.counts level) 1 (both e))
              ];
              held = held;
            },
            lowered,
          )
      | inr e ↦ (
        record s { counts = counts' },
        rw (test, e) refl,
        record {
          limit = highest.limit;
          none_above = λ k h h'. ground (arith, lowered k, highest.none_above k);
          held = λ h. ground (arith, lowered s.tpr, highest.held h);
        },
        lowered,
      )
    ]
  where
    counts' : ℕ → ℕ
    counts' = set_count s.counts level ((s.counts level + 2 ^ 32 - 1) % 2 ^ 32)

    both : (s.counts level == 1 && leb s.tpr level) ≡ true → (s.counts level == 1) ≡ true
    both e = ground arith

    lowered : (k : ℕ) → counts' k ≡ (if level == k then s.counts k - 1 else s.counts k)
    lowered k = elim (Bool-cases (level == k)) [
      | inl e ↦ rw e (omega (arith, ap s.counts (==→≡ level k e)))
      | inr e ↦ rw e refl
    ]

-- Two states with the same holds have the same priority.
highest_unique :
    (s s' : Irqs)
    → IsHighest s
    → IsHighest s'
    → ((k : ℕ) → s'.counts k ≡ s.counts k)
    → s'.tpr ≡ s.tpr
highest_unique s s' highest highest' same = ground (
  arith,
  highest.none_above s'.tpr,
  highest'.none_above s.tpr,
  highest.held,
  highest'.held,
  same s.tpr,
  same s'.tpr,
  highest.limit,
  highest'.limit,
)

-- Where the priority is the highest level that is held: raising it to a level from 1 to 15 that is not
-- below it, and is not held 2^32 - 1 times, and lowering that level gives the priority and every count
-- back.
pub lower_tpr-raise_tpr :
    (s : Irqs) (level : ℕ)
    → IsHighest s
    → 0 < level
    → level < 16
    → s.tpr ≤ level
    → s.counts level < 2 ^ 32 - 1
    → (s' : Irqs) × ((raise_tpr s level >>= λ s1. lower_tpr s1 level) ≡ done s')
      × (s'.tpr ≡ s.tpr)
      × ((k : ℕ) → s'.counts k ≡ s.counts k)
lower_tpr-raise_tpr s level highest pos lt le small =
    let (s1, run1, highest1, at, raised) = raise_tpr_lem s level highest pos lt le small in
    let (s2, run2, highest2, lowered) =
      lower_tpr_lem s1 level highest1 pos lt (ground (arith, raised level))
        (ground (arith, raised level)) in
    let same : (k : ℕ) → s2.counts k ≡ s.counts k = λ k. ground (arith, lowered k, raised k) in
    (s2, rw run1 run2, highest_unique s s2 highest highest2 same, same)
