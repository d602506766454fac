-- ===== src/IrqState.antt =====
-- kernel/src/cpu/irq_state.rs: the nesting of interrupt-disabled sections and of raised task
-- priorities on one CPU. `Irqs` is `IrqState` with the CPU's interrupt flag and task priority, which
-- the assembly reads and writes. A count is an `AtomicI32`, as the number below 2^32 that its bits
-- are; assertions that only debug builds have are left out, and so are the hypervisor's events that
-- are handled once interrupts are enabled.
pub mod Nesting
pub mod Priority
mod Tests
use svsm.Base.{
  ℕ, zero, suc, ◌+◌, ◌-◌, ◌/◌, ◌%◌, ◌^◌, Bool, true, false, ◌&&◌, not, ◌==◌, leb, ltb,
  if◌then◌else◌, List, [], ◌∷◌, Run, done, panic, ◌>>=◌, ◌>>◌, assert,
}

abbrev pub tpr_limit : ℕ
tpr_limit = 16

pub record Irqs : Type 0 where
  pub enabled : Bool
  pub tpr : ℕ
  pub state : Bool
  pub counts : ℕ → ℕ

abbrev pub new : Bool → ℕ → Irqs
new enabled tpr = record { enabled = enabled; tpr = tpr; state = false; counts = λ level. 0 }

unfoldable pub tpr_from_vector : ℕ → ℕ
tpr_from_vector vector = vector / 2 ^ 4

-- A count replaced.
abbrev pub set_count : (ℕ → ℕ) → ℕ → ℕ → ℕ → ℕ
set_count counts level n k = if level == k then n else counts k

unfoldable pub push_nesting : Irqs → Bool → Run Irqs
push_nesting s was_enabled =
    let val = s.counts 0 in
    let s = record s { counts = set_count s.counts 0 ((val + 1) % 2 ^ 32) } in
    assert (ltb val (2 ^ 31))
    >> (if val == 0 then done (record s { state = was_enabled }) else done s)

unfoldable pub disable : Irqs → Run Irqs
disable s = push_nesting (record s { enabled = false }) s.enabled

unfoldable pub pop_nesting : Irqs → Run (Irqs × ℕ)
pop_nesting s =
    let val = s.counts 0 in
    let s = record s { counts = set_count s.counts 0 ((val + 2 ^ 32 - 1) % 2 ^ 32) } in
    assert (ltb 0 val && ltb val (2 ^ 31)) >> done (s, val - 1)

unfoldable pub enable : Irqs → Run Irqs
enable s = pop_nesting s >>= λ out.
    if out.1 == 0
    then (if out.0.state then done (record out.0 { enabled = true }) else done out.0)
    else done out.0

unfoldable pub set_restore_state : Irqs → Bool → Run Irqs
set_restore_state s enabled = assert (not (s.counts 0 == 0)) >> done (record s { state = enabled })

unfoldable pub raise_tpr : Irqs → ℕ → Run Irqs
raise_tpr s tpr_value = do
  assert (ltb 0 tpr_value && leb s.tpr tpr_value)
  assert (ltb tpr_value tpr_limit)
  done (record s {
    tpr = tpr_value;
    counts = set_count s.counts tpr_value ((s.counts tpr_value + 1) % 2 ^ 32);
  })

-- The loop over the levels below `n`, from the highest down.
unfoldable pub highest_below : ℕ → (ℕ → ℕ) → ℕ
highest_below zero counts = 0
highest_below (suc n) counts =
    let rest = highest_below n counts in if counts n == 0 then rest else n

unfoldable pub lower_tpr : Irqs → ℕ → Run Irqs
lower_tpr s tpr_value =
    let count = s.counts tpr_value in
    let s' = record s { counts = set_count s.counts tpr_value ((count + 2 ^ 32 - 1) % 2 ^ 32) } in
    assert (ltb tpr_value tpr_limit)
    >> (if count == 1 && leb s.tpr tpr_value
        then done (record s' { tpr = highest_below tpr_value s'.counts })
        else done s')
