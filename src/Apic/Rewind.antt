-- ===== src/Apic/Rewind.antt =====
-- Taking back what was handed to the guest CPU, before interrupts are looked at again.
use svsm.Base.{
  ℕ, ◌-◌, ◌≡◌, ◌≢◌, refl, sym, ◌∙◌, inl, inr, ◌⊎◌, Bool, true, false, ◌==◌, ◌&&◌, List, done,
  Bool-cases, arith, subst,
}
use svsm.Apic.State.{LocalApic, GuestCpuState, Machine}
use svsm.Apic.Service.{
  perform_eoi, dismiss, check_delivered, check_queued, check_lazy_eoi, lazy_eoi_requested,
  check_delivered_interrupts,
}
use svsm.Apic.Inv.{IsValid, top, rewound, rewind_pending_interrupt_lem}
use svsm.Apic.Present.{present_nmi, present_irq, present_update}
use svsm.Apic.Delivery.{present_irq-Presented}
use svsm.Apic.Eoi.{perform_eoi_lem}

-- A lazy EOI is pending only while an interrupt is in service.
abbrev pub HasLazyTarget : LocalApic → Type 0
HasLazyTarget a = a.lazy_eoi_pending ≡ true → a.isr_stack_index ≢ 0

-- What a guest CPU may give back: nothing, or the interrupt on top of the stack.
abbrev pub IsReturned : LocalApic → ℕ → Type 0
IsReturned a irq = (irq ≡ 0) ⊎ ((irq ≡ top a) × (a.isr_stack_index ≢ 0))

module _ {C : Type 0} (ops : GuestCpuState C) (specific_eoi : ℕ → Bool) where
  dismiss_lem :
      (a : LocalApic) (irq : ℕ)
      → IsValid a
      → HasLazyTarget a
      → IsReturned a irq
      → (b : LocalApic) × (dismiss ops specific_eoi a irq ≡ done b)
        × IsValid b
        × HasLazyTarget b
        × (b.interrupt_queued ≡ a.interrupt_queued)
        × (b.interrupt_delivered ≡ a.interrupt_delivered)
  unfolding dismiss
  dismiss_lem a irq v l (inl z) = (a, rw z refl, v, l, refl, refl)
  dismiss_lem a irq v l (inr (t, nz)) =
      let (runs, valid, pending) = rewind_pending_interrupt_lem a v nz in
      let some_vector : top a == 0 ≡ false =
        ground (arith, (v.stack.classes (a.isr_stack_index - 1) (omega arith)).0) in
      (
        record (rewound a) { lazy_eoi_pending = false },
        rw (t, some_vector, runs) refl,
        record {
          irr = valid.irr;
          allowed_irr = valid.allowed_irr;
          tmr = valid.tmr;
          host_tmr = valid.host_tmr;
          stack = valid.stack;
        },
        (λ e. absurd (ground arith)),
        refl,
        refl,
      )

  check_delivered-done :
      (m : Machine C) (b : LocalApic)
      → m.apic.interrupt_delivered ≡ true
      → dismiss ops specific_eoi m.apic (ops.check_and_clear_pending_interrupt_event m.cpu).1
        ≡ done b
      → check_delivered ops specific_eoi m
        ≡ done (record m {
          cpu = (ops.check_and_clear_pending_interrupt_event m.cpu).0;
          apic = record b { interrupt_delivered = false };
        })
  unfolding check_delivered
  check_delivered-done m b e runs = rw (runs, e) refl

  check_delivered_lem :
      (m : Machine C)
      → IsValid m.apic
      → HasLazyTarget m.apic
      → (m.apic.interrupt_delivered ≡ true
          → IsReturned m.apic (ops.check_and_clear_pending_interrupt_event m.cpu).1)
      → (m1 : Machine C) × (check_delivered ops specific_eoi m ≡ done m1)
        × IsValid m1.apic
        × HasLazyTarget m1.apic
        × (m1.apic.interrupt_queued ≡ m.apic.interrupt_queued)
        × (m1.apic.interrupt_delivered ≡ false)
        × (m.apic.interrupt_delivered ≡ false → m1 ≡ m)
  unfolding check_delivered
  check_delivered_lem m v l agrees = elim (Bool-cases m.apic.interrupt_delivered) [
    | inl e ↦
        let out = ops.check_and_clear_pending_interrupt_event m.cpu in
        let (b, runs, valid, lazy, queued, delivered) = dismiss_lem m.apic out.1 v l (agrees e) in
        (
          record m { cpu = out.0; apic = record b { interrupt_delivered = false } },
          check_delivered-done m b e runs,
          record {
            irr = valid.irr;
            allowed_irr = valid.allowed_irr;
            tmr = valid.tmr;
            host_tmr = valid.host_tmr;
            stack = valid.stack;
          },
          lazy,
          queued,
          refl,
          (λ h. absurd (ground arith)),
        )
    | inr e ↦ (m, rw e refl, v, l, refl, e, (λ h. refl))
  ]

  check_queued-done :
      (m : Machine C) (b : LocalApic)
      → m.apic.interrupt_queued ≡ true
      → dismiss ops specific_eoi m.apic (ops.check_and_clear_pending_virtual_interrupt m.cpu).1
        ≡ done b
      → check_queued ops specific_eoi m
        ≡ done (record m {
          cpu = (ops.check_and_clear_pending_virtual_interrupt m.cpu).0;
          apic = record b { interrupt_queued = false };
        })
  unfolding check_queued
  check_queued-done m b e runs = rw (runs, e) refl

  check_queued_lem :
      (m : Machine C)
      → IsValid m.apic
      → HasLazyTarget m.apic
      → (m.apic.interrupt_queued ≡ true
          → IsReturned m.apic (ops.check_and_clear_pending_virtual_interrupt m.cpu).1)
      → (m1 : Machine C) × (check_queued ops specific_eoi m ≡ done m1)
        × IsValid m1.apic
        × HasLazyTarget m1.apic
        × (m1.apic.interrupt_delivered ≡ m.apic.interrupt_delivered)
        × (m1.apic.interrupt_queued ≡ false)
  unfolding check_queued
  check_queued_lem m v l agrees = elim (Bool-cases m.apic.interrupt_queued) [
    | inl e ↦
        let out = ops.check_and_clear_pending_virtual_interrupt m.cpu in
        let (b, runs, valid, lazy, queued, delivered) = dismiss_lem m.apic out.1 v l (agrees e) in
        (
          record m { cpu = out.0; apic = record b { interrupt_queued = false } },
          check_queued-done m b e runs,
          record {
            irr = valid.irr;
            allowed_irr = valid.allowed_irr;
            tmr = valid.tmr;
            host_tmr = valid.host_tmr;
            stack = valid.stack;
          },
          lazy,
          delivered,
          refl,
        )
    | inr e ↦ (m, rw e refl, v, l, refl, e)
  ]

  check_lazy_eoi-done :
      (m : Machine C) (b : LocalApic) (eois : List ℕ)
      → m.apic.lazy_eoi_pending ≡ true
      → lazy_eoi_requested m.caa ≡ true
      → (m.apic.isr_stack_index == 0) ≡ false
      → perform_eoi specific_eoi m.apic m.host_eois ≡ done (b, eois)
      → check_lazy_eoi ops specific_eoi m ≡ done (record m { apic = b; host_eois = eois })
  unfolding check_lazy_eoi
  check_lazy_eoi-done m b eois e r busy runs = rw (runs, busy, r, e) refl

  check_lazy_eoi_lem :
      (m : Machine C)
      → IsValid m.apic
      → HasLazyTarget m.apic
      → ((v : ℕ) → specific_eoi v ≡ true)
      → (m1 : Machine C) × (check_lazy_eoi ops specific_eoi m ≡ done m1)
        × IsValid m1.apic
        × (m1.apic.interrupt_delivered ≡ m.apic.interrupt_delivered)
        × (m1.apic.interrupt_queued ≡ m.apic.interrupt_queued)
  unfolding check_lazy_eoi
  check_lazy_eoi_lem m v l takes = elim (Bool-cases m.apic.lazy_eoi_pending) [
    | inl e ↦ elim (Bool-cases (lazy_eoi_requested m.caa)) [
      | inl r ↦
          let (b, eois, runs, ended) =
            (perform_eoi_lem specific_eoi m.apic m.host_eois v takes).1 (l e) in
          let busy : m.apic.isr_stack_index == 0 ≡ false = ground (arith, l e) in
          (
            record m { apic = b; host_eois = eois },
            check_lazy_eoi-done m b eois e r busy runs,
            ended.valid,
            ended.delivered,
            ended.queued,
          )
      | inr r ↦ (m, rw (e, r) refl, v, refl, refl)
    ]
    | inr e ↦ (m, rw e refl, v, refl, refl)
  ]

  -- On a valid structure whose lazy EOI has a target, with a guest CPU that gives back nothing or the
  -- interrupt on top of the stack, with not both a delivered and a queued interrupt, and a host that
  -- takes specific EOIs: the check of delivered interrupts does not panic, leaves a valid structure,
  -- and no interrupt counts as delivered or queued after it.
  pub check_delivered_interrupts_lem :
      (m : Machine C)
      → IsValid m.apic
      → HasLazyTarget m.apic
      → ((v : ℕ) → specific_eoi v ≡ true)
      → (m.apic.interrupt_delivered ≡ true
          → IsReturned m.apic (ops.check_and_clear_pending_interrupt_event m.cpu).1)
      → (m.apic.interrupt_queued ≡ true
          → IsReturned m.apic (ops.check_and_clear_pending_virtual_interrupt m.cpu).1)
      → (m.apic.interrupt_delivered && m.apic.interrupt_queued) ≡ false
      → (m' : Machine C) × (check_delivered_interrupts ops specific_eoi m ≡ done m')
        × IsValid m'.apic
        × (m'.apic.interrupt_delivered ≡ false)
        × (m'.apic.interrupt_queued ≡ false)
  unfolding check_delivered_interrupts
  check_delivered_interrupts_lem m v l takes event virtual one =
      let (m1, runs1, v1, l1, same_queued, delivered1, unchanged) =
        check_delivered_lem m v l event in
      let still : m1.apic.interrupt_queued ≡ true
          → IsReturned m1.apic (ops.check_and_clear_pending_virtual_interrupt m1.cpu).1 =
        λ q.
          subst (λ n. IsReturned n.apic (ops.check_and_clear_pending_virtual_interrupt n.cpu).1)
            (sym (unchanged (ground arith))) (virtual (sym same_queued ∙ q)) in
      let (m2, runs2, v2, l2, delivered2, queued2) = check_queued_lem m1 v1 l1 still in
      let (m3, runs3, v3, delivered3, queued3) = check_lazy_eoi_lem m2 v2 l2 takes in
      (
        m3,
        rw (runs1, runs2, runs3) refl,
        v3,
        delivered3 ∙ delivered2 ∙ delivered1,
        queued3 ∙ queued2,
      )

  present_nmi_lem : (m : Machine C) → IsValid m.apic → IsValid (present_nmi ops m).apic
  unfolding present_nmi
  present_nmi_lem m v = elim (Bool-cases m.apic.nmi_pending) [
    | inl e ↦ rw e (record {
      irr = v.irr;
      allowed_irr = v.allowed_irr;
      tmr = v.tmr;
      host_tmr = v.host_tmr;
      stack = v.stack;
    })
    | inr e ↦ rw e (record {
      irr = v.irr;
      allowed_irr = v.allowed_irr;
      tmr = v.tmr;
      host_tmr = v.host_tmr;
      stack = v.stack;
    })
  ]

  updated : (m : Machine C) → IsValid m.apic → IsValid (record m.apic { update_required = false })
  updated m v = record {
    irr = v.irr;
    allowed_irr = v.allowed_irr;
    tmr = v.tmr;
    host_tmr = v.host_tmr;
    stack = v.stack;
  }

  present_update-done :
      (m m1 m2 : Machine C)
      → m.apic.update_required ≡ true
      → check_delivered_interrupts ops specific_eoi m ≡ done m1
      → present_irq ops
          (present_nmi ops (record m1 { apic = record m1.apic { update_required = false } }))
        ≡ done m2
      → present_update ops specific_eoi m ≡ done m2
  unfolding present_update
  present_update-done m m1 m2 e checks presents = rw (checks, e) presents

  -- On a valid structure whose lazy EOI has a target, with a guest CPU that gives back nothing or the
  -- interrupt on top of the stack, with not both a delivered and a queued interrupt, and a host that
  -- takes specific EOIs: the presentation of interrupts to the guest does not panic and leaves a
  -- valid structure.
  pub present_update-IsValid :
      (m : Machine C)
      → IsValid m.apic
      → HasLazyTarget m.apic
      → ((v : ℕ) → specific_eoi v ≡ true)
      → (m.apic.interrupt_delivered ≡ true
          → IsReturned m.apic (ops.check_and_clear_pending_interrupt_event m.cpu).1)
      → (m.apic.interrupt_queued ≡ true
          → IsReturned m.apic (ops.check_and_clear_pending_virtual_interrupt m.cpu).1)
      → (m.apic.interrupt_delivered && m.apic.interrupt_queued) ≡ false
      → (m' : Machine C) × (present_update ops specific_eoi m ≡ done m') × IsValid m'.apic
  unfolding present_update
  present_update-IsValid m v l takes event virtual one = elim (Bool-cases m.apic.update_required) [
    | inl e ↦
        let (m1, checks, v1, delivered, queued) =
          check_delivered_interrupts_lem m v l takes event virtual one in
        let (m2, presents, spec) =
          present_irq-Presented ops
            (present_nmi ops (record m1 { apic = record m1.apic { update_required = false } }))
            (present_nmi_lem _ (updated m1 v1)) in
        (m2, present_update-done m m1 m2 e checks presents, spec.0)
    | inr e ↦ (m, rw e refl, v)
  ]
