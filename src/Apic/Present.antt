-- ===== src/Apic/Present.antt =====
-- The presentation of interrupts to the guest, after the host's doorbell page has been consumed.
use svsm.Base.{
  ℕ, zero, suc, ◌+◌, ◌-◌, ◌/◌, bit_or, Bool, true, false, not, ◌&&◌, ◌||◌, ◌==◌, leb, ltb,
  if◌then◌else◌, Option, none, some, List, [], ◌∷◌, get_elem?, length, get_or, replicate, Run, done,
  ◌>>=◌, ◌>>◌, assert, unwrap,
}
use svsm.Base
use svsm.Apic.Vectors.{no_vectors, scan_irr, remove_vector_register, test_vector_register}
use svsm.Apic.State.{
  LocalApic, PerCpuShared, SvsmCaa, GuestCpuState, Machine, update_no_eoi_required,
}
use svsm.Apic.Service.{get_ppr, check_delivered_interrupts}

unfoldable pub clear_guest_eoi_pending : Option SvsmCaa → Option SvsmCaa
clear_guest_eoi_pending none = none
clear_guest_eoi_pending (some caa) =
    some (if caa.readable && caa.writable then update_no_eoi_required caa 0 else caa)

unfoldable pub or_words : List ℕ → List ℕ → List ℕ
or_words [] ys = []
or_words (x ∷ xs) [] = x ∷ xs
or_words (x ∷ xs) (y ∷ ys) = bit_or x y ∷ or_words xs ys

-- The IPIs that were posted to this CPU move to the IRR, and its area is left empty of them.
unfoldable pub consume_pending_ipis : LocalApic → PerCpuShared → LocalApic × PerCpuShared
consume_pending_ipis apic cpu_shared = (
  record apic {
    irr = or_words apic.irr cpu_shared.ipi_irr;
    nmi_pending = apic.nmi_pending || cpu_shared.nmi_pending;
    update_required = true;
  },
  record cpu_shared { ipi_irr = no_vectors; nmi_pending = false },
)

-- The test of `ipi_pending`, which clears it.
unfoldable pub receive_ipis : LocalApic → PerCpuShared → LocalApic × PerCpuShared
receive_ipis apic cpu_shared =
    if cpu_shared.ipi_pending
    then consume_pending_ipis apic (record cpu_shared { ipi_pending = false })
    else (apic, cpu_shared)

unfoldable pub current_priority : LocalApic → Run ℕ
current_priority apic =
    if apic.isr_stack_index == 0
    then done 0
    else unwrap (get_elem? apic.isr_stack (apic.isr_stack_index - 1))

-- `irq` moves from the IRR to the top of the in-service stack.
unfoldable pub mark_in_service : LocalApic → ℕ → Run LocalApic
mark_in_service apic irq = do
  assert (ltb apic.isr_stack_index (length apic.isr_stack))
  done (record apic {
    irr = remove_vector_register apic.irr irq;
    isr_stack = Base.set apic.isr_stack apic.isr_stack_index irq;
    isr_stack_index = apic.isr_stack_index + 1;
  })

-- The flag in the calling area that asks for no EOI, and whether it could be set.
unfoldable pub offer_lazy_eoi : Option SvsmCaa → Option SvsmCaa × Bool
offer_lazy_eoi none = (none, false)
offer_lazy_eoi (some caa) =
    if caa.readable && caa.writable
    then (some (update_no_eoi_required caa 1), true)
    else (some caa, false)

module _ {C : Type 0} (ops : GuestCpuState C) where
  unfoldable pub deliver_interrupt_immediately : LocalApic → ℕ → C → Run (C × Bool)
  deliver_interrupt_immediately apic irq cpu =
      if not (ops.interrupts_enabled cpu) || ops.in_intr_shadow cpu then done (cpu, false) else do
        ppr ← get_ppr ops apic cpu
        done (
            if leb (irq / 16) (ppr / 16)
            then (cpu, false)
            else ops.try_deliver_interrupt_immediately cpu irq)

  -- What follows an attempt to deliver `irq`: the interrupt is delivered, or else takes a place in
  -- the CPU's queue; and whether a lazy EOI may be tried.
  unfoldable pub note_delivery : Machine C → ℕ → C × Bool → Machine C × Bool
  note_delivery m irq (cpu, true) =
      (record m { cpu = cpu; apic = record m.apic { interrupt_delivered = true } }, true)
  note_delivery m irq (cpu, false) = (
    record m {
      cpu = ops.queue_interrupt cpu irq;
      apic = record m.apic { interrupt_queued = true };
    },
    m.apic.isr_stack_index == 0,
  )

  unfoldable pub deliver_or_queue : Machine C → ℕ → Run (Machine C × Bool)
  deliver_or_queue m irq = do
    out ← deliver_interrupt_immediately m.apic irq m.cpu
    done (note_delivery m irq out)

  unfoldable pub set_up_lazy_eoi : Machine C → ℕ → Bool → Machine C
  set_up_lazy_eoi m irq try_lazy_eoi =
      if try_lazy_eoi && not (test_vector_register m.apic.tmr irq) && scan_irr m.apic.irr == 0
      then (let out = offer_lazy_eoi m.caa in
          record m {
            caa = out.0;
            apic = if out.1 then record m.apic { lazy_eoi_pending = true } else m.apic;
          })
      else m

  unfoldable pub present_nmi : Machine C → Machine C
  present_nmi m =
      if m.apic.nmi_pending
      then record m { cpu = ops.request_nmi m.cpu; apic = record m.apic { nmi_pending = false } }
      else m

  -- The interrupt `irq` is delivered or queued, put in service, and its EOI made lazy if it can be.
  unfoldable pub present_one : Machine C → ℕ → Run (Machine C)
  present_one m irq = do
    out ← deliver_or_queue m irq
    apic ← mark_in_service out.0.apic irq
    done (set_up_lazy_eoi (record out.0 { apic = apic }) irq out.1)

  -- What follows the NMI when an update is required.
  unfoldable pub present_irq : Machine C → Run (Machine C)
  present_irq m = do
    let irq = scan_irr m.apic.irr
    current ← current_priority m.apic
    let m1 = record m {
      apic = record m.apic { lazy_eoi_pending = false };
      caa = clear_guest_eoi_pending m.caa;
    }
    (if leb (irq / 16) (current / 16) then done m1 else present_one m1 irq)

  unfoldable pub present_update : (ℕ → Bool) → Machine C → Run (Machine C)
  present_update specific_eoi m =
      if m.apic.update_required
      then (do
        m1 ← check_delivered_interrupts ops specific_eoi m
        present_irq (present_nmi (record m1 { apic = record m1.apic { update_required = false } })))
      else done m
