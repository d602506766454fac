-- ===== src/Apic/Service.antt =====
-- The in-service stack: what is taken back from the guest CPU, the processor priority, end of
-- interrupt and the ISR registers. `assert!` and `unwrap` that fail are `panic`.
use svsm.Base.{
  ℕ, ◌-◌, ◌/◌, ◌%◌, ◌^◌, bit_or, Bool, true, false, not, ◌==◌, ltb, if◌then◌else◌, Option, none,
  some, List, [], ◌∷◌, get_elem?, take, Run, done, ◌>>=◌, ◌>>◌, assert, unwrap,
}
use svsm.Apic.Vectors.{insert_vector_register, remove_vector_register, test_vector_register}
use svsm.Apic.State.{LocalApic, SvsmCaa, GuestCpuState, Machine}

abbrev checked_sub : ℕ → ℕ → Option ℕ
checked_sub a b = if ltb a b then none else some (a - b)

-- `self.isr_stack.get(new_index) == Some(&irq)`
unfoldable pub is_some_of : Option ℕ → ℕ → Bool
is_some_of none irq = false
is_some_of (some x) irq = x == irq

unfoldable pub rewind_pending_interrupt : LocalApic → ℕ → Run LocalApic
rewind_pending_interrupt apic irq = do
  new_index ← unwrap (checked_sub apic.isr_stack_index 1)
  assert (is_some_of (get_elem? apic.isr_stack new_index) irq)
  done (record apic {
    irr = insert_vector_register apic.irr irq;
    isr_stack_index = new_index;
    update_required = true;
  })

-- The in-service vector that the priority is computed from.
unfoldable pub get_ppr_with_tpr : LocalApic → ℕ → Run ℕ
get_ppr_with_tpr apic tpr = do
  ppr ←
      (if apic.isr_stack_index == 0
        then done 0
        else unwrap (get_elem? apic.isr_stack apic.isr_stack_index))
  done (if ltb (tpr / 16) (ppr / 16) then ppr else tpr)

unfoldable pub get_ppr : {C : Type 0} → GuestCpuState C → LocalApic → C → Run ℕ
get_ppr ops apic cpu = get_ppr_with_tpr apic (ops.get_tpr cpu)

-- A specific EOI that the host refuses is a panic; one that it takes is noted.
unfoldable pub perform_host_eoi : (ℕ → Bool) → ℕ → List ℕ → Run (List ℕ)
perform_host_eoi specific_eoi vector host_eois = do
  assert (specific_eoi vector)
  done (vector ∷ host_eois)

-- The popped vector leaves `tmr`, and `host_tmr` with an EOI to the host if it came from there.
unfoldable pub acknowledge : (ℕ → Bool) → LocalApic → ℕ → List ℕ → Run (LocalApic × List ℕ)
acknowledge specific_eoi apic vector host_eois =
    if test_vector_register apic.tmr vector
    then if test_vector_register apic.host_tmr vector
      then (perform_host_eoi specific_eoi vector host_eois >>= λ eois. done (
        record apic {
          host_tmr = remove_vector_register apic.host_tmr vector;
          tmr = remove_vector_register apic.tmr vector;
        },
        eois,
      ))
      else done (record apic { tmr = remove_vector_register apic.tmr vector }, host_eois)
    else done (apic, host_eois)

unfoldable pub perform_eoi : (ℕ → Bool) → LocalApic → List ℕ → Run (LocalApic × List ℕ)
perform_eoi specific_eoi apic host_eois =
    if apic.isr_stack_index == 0 then done (apic, host_eois) else do
      let index = apic.isr_stack_index - 1
      vector ← unwrap (get_elem? apic.isr_stack index)
      out ← acknowledge specific_eoi (record apic { isr_stack_index = index }) vector host_eois
      done (record out.0 { update_required = true; lazy_eoi_pending = false }, out.1)

unfoldable pub collect_isr : ℕ → List ℕ → ℕ → ℕ
collect_isr index [] value = value
collect_isr index (isr ∷ rest) value =
    collect_isr index rest (if isr / 32 == index then bit_or value (2 ^ (isr % 32)) else value)

unfoldable pub get_isr : LocalApic → ℕ → ℕ
get_isr apic index = collect_isr index (take apic.isr_stack_index apic.isr_stack) 0

-- Whether the calling area can be read and shows a lazy EOI.
unfoldable pub lazy_eoi_requested : Option SvsmCaa → Bool
lazy_eoi_requested none = false
lazy_eoi_requested (some caa) = if caa.readable then caa.no_eoi_required == 0 else false

module _ {C : Type 0} (ops : GuestCpuState C) (specific_eoi : ℕ → Bool) where
  -- An interrupt that the guest CPU gave back, which is 0 if it took it.
  unfoldable pub dismiss : LocalApic → ℕ → Run LocalApic
  dismiss apic irq =
      if irq == 0
      then done apic
      else (rewind_pending_interrupt apic irq >>= λ apic'.
          done (record apic' { lazy_eoi_pending = false }))

  unfoldable pub check_delivered : Machine C → Run (Machine C)
  check_delivered m =
      if m.apic.interrupt_delivered
      then (let out = ops.check_and_clear_pending_interrupt_event m.cpu in
          dismiss m.apic out.1 >>= λ apic.
          done (record m { cpu = out.0; apic = record apic { interrupt_delivered = false } }))
      else done m

  unfoldable pub check_queued : Machine C → Run (Machine C)
  check_queued m =
      if m.apic.interrupt_queued
      then (let out = ops.check_and_clear_pending_virtual_interrupt m.cpu in
          dismiss m.apic out.1 >>= λ apic.
          done (record m { cpu = out.0; apic = record apic { interrupt_queued = false } }))
      else done m

  unfoldable pub check_lazy_eoi : Machine C → Run (Machine C)
  check_lazy_eoi m =
      if m.apic.lazy_eoi_pending
      then if lazy_eoi_requested m.caa
        then (do
          assert (not (m.apic.isr_stack_index == 0))
          out ← perform_eoi specific_eoi m.apic m.host_eois
          done (record m { apic = out.0; host_eois = out.1 }))
        else done m
      else done m

  unfoldable pub check_delivered_interrupts : Machine C → Run (Machine C)
  check_delivered_interrupts m = do m ← check_delivered m; m ← check_queued m; check_lazy_eoi m
