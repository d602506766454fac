-- ===== src/Apic/Tests.antt =====
-- Runs of the emulated APIC, and the theorems at a concrete state of it.
use svsm.Base.{
  inl, inr, ℕ, ◌+◌, ◌*◌, zero, suc, ◌^◌, ◌≤◌, ◌<◌, ◌≡◌, ◌≢◌, refl, true, false, not, ◌&&◌, ◌||◌,
  ◌==◌, none, List, [], ◌∷◌, get_or, get_or-replicate, replicate, take, done, ◌>>=◌, arith,
}
use svsm.Bits.{test_bit}
use svsm.Apic.Vectors.{no_vectors, scan_irr}
use svsm.Apic.Vectors.Laws.{IsRegister, vector, scan_irr-highest}
use svsm.Apic.State.{LocalApic, new, PerCpuShared, GuestCpuState, Machine}
use svsm.Apic.Host.{HvDoorbell}
use svsm.Apic.Rewind.{check_delivered_interrupts_lem, present_update-IsValid}
use svsm.Apic.Service.{check_delivered_interrupts, rewind_pending_interrupt, perform_eoi, get_isr}
use svsm.Apic.Post.{post_interrupt, signal_several_interrupts}
use svsm.Apic.Present.{mark_in_service, present_update}
use svsm.Apic.Inv.{IsStack, IsValid, top, post_interrupt_lem}
use svsm.Apic.Eoi.{Ended, perform_eoi_lem, mem, get_isr_lem}
use svsm.Apic.Delivery.{mark_in_service_lem, rewind-mark_in_service}
use svsm.Apic.Signals.{Signalled, signal_several_interrupts_lem}

no_vectors-IsRegister : IsRegister no_vectors
no_vectors-IsRegister = record {
  eight = refl;
  words = λ i. omega (arith, get_or-replicate {A = ℕ} 8 i 0);
}

-- Vector 0x43 is pending.
abbrev one_pending : List ℕ
one_pending = 0 ∷ 0 ∷ 8 ∷ replicate 5 0

one_pending-IsRegister : IsRegister one_pending
one_pending-IsRegister = record { eight = refl; words = words }
  where
    words : (i : ℕ) → get_or one_pending i 0 < 2 ^ 32
    words zero = omega arith
    words (suc zero) = omega arith
    words (suc (suc zero)) = omega arith
    words (suc (suc (suc i))) = omega (arith, get_or-replicate {A = ℕ} 5 i 0)

-- Vector 0x31 is in service and vector 0x43 is pending.
abbrev busy : LocalApic
busy = record new { irr = one_pending; isr_stack_index = 1; isr_stack = 0x31 ∷ replicate 15 0 }

busy-IsStack : IsStack (0x31 ∷ replicate 15 0) 1
busy-IsStack = record {
  places = refl;
  depth = omega arith;
  rising = λ i lt. absurd (omega arith);
  classes = classes;
}
  where
    classes :
        (i : ℕ)
        → i < 1
        → (16 ≤ get_or (0x31 ∷ replicate 15 0) i 0) × (get_or (0x31 ∷ replicate 15 0) i 0 < 256)
    classes zero lt = (omega arith, omega arith)
    classes (suc i) lt = absurd (omega arith)

busy-IsValid : IsValid busy
busy-IsValid = record {
  irr = one_pending-IsRegister;
  allowed_irr = no_vectors-IsRegister;
  tmr = no_vectors-IsRegister;
  host_tmr = no_vectors-IsRegister;
  stack = busy-IsStack;
}

-- A guest CPU with interrupts enabled that keeps the vector that is queued for it.
abbrev queueing : GuestCpuState ℕ
queueing = record {
  get_tpr = λ c. 0;
  set_tpr = λ c tpr. c;
  request_nmi = λ c. c;
  queue_interrupt = λ c irq. irq;
  try_deliver_interrupt_immediately = λ c irq. (c, false);
  in_intr_shadow = λ c. false;
  interrupts_enabled = λ c. true;
  check_and_clear_pending_nmi = λ c. (c, false);
  check_and_clear_pending_interrupt_event = λ c. (c, 0);
  check_and_clear_pending_virtual_interrupt = λ c. (0, c);
  disable_alternate_injection = λ c. c;
}

abbrev machine : Machine ℕ
machine = record { apic = busy; cpu = 0; caa = none; areas = []; host_eois = []; host_irqs = [] }

scan_irr-highest_example :
    (scan_irr one_pending < 256)
    × (scan_irr one_pending ≢ 0 → vector one_pending (scan_irr one_pending) ≡ true)
    × ((w : ℕ) → w < 256 → scan_irr one_pending < w → vector one_pending w ≡ false)
scan_irr-highest_example = scan_irr-highest one_pending one_pending-IsRegister

mark_in_service_lem_example :
    (b : LocalApic) × (mark_in_service busy 0x43 ≡ done b)
    × IsValid b
    × (top b ≡ 0x43)
    × (b.isr_stack_index ≡ 2)
    × ((w : ℕ) → vector b.irr w ≡ (not (0x43 == w) && vector busy.irr w))
mark_in_service_lem_example = mark_in_service_lem busy 0x43 busy-IsValid (omega arith) (omega arith)

rewind-mark_in_service_example :
    (c : LocalApic) × ((mark_in_service busy 0x43 >>= λ b. rewind_pending_interrupt b 0x43)
      ≡ done c)
    × (c.isr_stack_index ≡ 1)
    × ((w : ℕ) → vector c.irr w ≡ vector busy.irr w)
unfolding test_bit
rewind-mark_in_service_example =
    rewind-mark_in_service busy 0x43 busy-IsValid (omega arith) (omega arith) refl

perform_eoi_lem_example :
    (busy.isr_stack_index ≡ 0 → perform_eoi (λ v. true) busy [] ≡ done (busy, []))
    × (busy.isr_stack_index ≢ 0
        → (b : LocalApic) × (eois : List ℕ) × (perform_eoi (λ v. true) busy [] ≡ done (b, eois))
          × Ended busy [] b eois)
perform_eoi_lem_example = perform_eoi_lem (λ v. true) busy [] busy-IsValid (λ v. refl)

get_isr_lem_example :
    test_bit (get_isr busy 1) 17 ≡ mem 0x31 (take busy.isr_stack_index busy.isr_stack)
get_isr_lem_example = get_isr_lem busy 1 17 (omega arith)

post_interrupt_lem_example :
    IsValid (post_interrupt busy 0x80 true)
    × ((w : ℕ) → vector (post_interrupt busy 0x80 true).irr w ≡ (0x80 == w || vector busy.irr w))
    × ((w : ℕ)
        → vector (post_interrupt busy 0x80 true).tmr w ≡ (true && 0x80 == w || vector busy.tmr w))
    × ((post_interrupt busy 0x80 true).update_required ≡ true)
post_interrupt_lem_example = post_interrupt_lem busy 0x80 true busy-IsValid (omega arith)

signal_several_interrupts_lem_example :
    Signalled busy 3 0x81 (signal_several_interrupts busy 3 0x81)
signal_several_interrupts_lem_example =
    signal_several_interrupts_lem busy 3 0x81 busy-IsValid (omega arith) (omega arith)

-- A CPU to which nothing was posted.
abbrev idle : PerCpuShared
idle = record { apic_id = 2; ipi_irr = no_vectors; ipi_pending = false; nmi_pending = false }

-- A machine with two more CPUs, of which the first is sent vector 0x55.
abbrev idle_machine : Machine ℕ
idle_machine = record machine { areas = idle ∷ record idle { apic_id = 3 } ∷ [] }

abbrev to_second : ℕ
to_second = 4 * 2 ^ 32 + 2 ^ 11 + 0x55

-- Vector 0x31 is queued in the guest CPU, which has not taken it.
abbrev queued : LocalApic
queued = record busy { interrupt_queued = true; update_required = true }

abbrev queued_machine : Machine ℕ
queued_machine = record machine { apic = queued; cpu = 0x31 }

queued-IsValid : IsValid queued
queued-IsValid = record {
  irr = one_pending-IsRegister;
  allowed_irr = no_vectors-IsRegister;
  tmr = no_vectors-IsRegister;
  host_tmr = no_vectors-IsRegister;
  stack = busy-IsStack;
}

check_delivered_interrupts_lem_example :
    (m : Machine ℕ) × (check_delivered_interrupts queueing (λ v. true) queued_machine ≡ done m)
    × IsValid m.apic
    × (m.apic.interrupt_delivered ≡ false)
    × (m.apic.interrupt_queued ≡ false)
check_delivered_interrupts_lem_example =
    check_delivered_interrupts_lem queueing (λ v. true) queued_machine queued-IsValid
      (λ e. absurd (ground arith)) (λ v. refl) (λ e. inl refl) (λ e. inr (refl, omega arith)) refl

present_update-IsValid_example :
    (m : Machine ℕ) × (present_update queueing (λ v. true) queued_machine ≡ done m) × IsValid m.apic
present_update-IsValid_example =
    present_update-IsValid queueing (λ v. true) queued_machine queued-IsValid
      (λ e. absurd (ground arith)) (λ v. refl) (λ e. inl refl) (λ e. inr (refl, omega arith)) refl

-- A doorbell with vector 0x91 in its word of the group, and many vectors announced.
abbrev ringing : HvDoorbell
ringing = record {
  per_vmpl_events = 2;
  descriptor = record { status = 2 ^ 14; irr = replicate 7 0x20000; isr = no_vectors };
}

-- The host may post the vectors that it announces, 0x91 among them.
abbrev open_to_host : LocalApic
open_to_host = record busy { allowed_irr = 0 ∷ replicate 7 0x20000 }
