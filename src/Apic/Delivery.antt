-- ===== src/Apic/Delivery.antt =====
-- Putting an interrupt in service, taking it back, and the presentation of interrupts.
use svsm.Base.{
  ℕ, zero, suc, ◌+◌, ◌-◌, ◌*◌, ◌/◌, ◌%◌, ◌^◌, ◌≤◌, ◌<◌, ◌≡◌, ◌≢◌, refl, sym, ◌∙◌, ap, ap₂, inl, inr,
  ◌⊎◌, Bool, true, false, ◌==◌, not, ◌&&◌, ◌||◌, if◌then◌else◌, ltb, leb, Option, none, some, List,
  [], ◌∷◌, length, length-set, get_elem?, get_or, get_or-set_self, get_or-set_ne, Run, done, panic,
  ◌>>=◌, ◌>>◌, assert, unwrap, Bool-cases, arith, tests, ==→≡, ==→≢,
}
use svsm.Base
use svsm.Apic.Vectors.{remove_vector_register, test_vector_register, scan_irr}
use svsm.Apic.Vectors.Laws.{vector, remove_vector_register_lem, scan_irr-highest}
use svsm.Apic.State.{LocalApic, GuestCpuState, Machine}
use svsm.Apic.Service.{rewind_pending_interrupt, get_ppr}
use svsm.Apic.Present.{
  current_priority, mark_in_service, deliver_interrupt_immediately, note_delivery, deliver_or_queue,
  clear_guest_eoi_pending, set_up_lazy_eoi, present_one, present_irq, offer_lazy_eoi,
}
use svsm.Apic.Inv.{
  IsStack, IsValid, top, stack_place, depth-lt, rewound, rewind_pending_interrupt_lem,
}
use svsm.Apic.Eoi.{get_ppr_with_tpr-total}

-- The class of the interrupt in service, 0 if there is none.
abbrev pub current_class : LocalApic → ℕ
current_class a = if a.isr_stack_index == 0 then 0 else top a / 16

abbrev in_service : LocalApic → ℕ → LocalApic
in_service a irq = record a {
  irr = remove_vector_register a.irr irq;
  isr_stack = Base.set a.isr_stack a.isr_stack_index irq;
  isr_stack_index = a.isr_stack_index + 1;
}

place_set :
    (stack : List ℕ) (n irq i : ℕ)
    → n < length stack
    → get_or (Base.set stack n irq) i 0 ≡ (if n == i then irq else get_or stack i 0)
place_set stack n irq i h = elim (Bool-cases (n == i)) [
  | inl e ↦ rw e (
      ap (λ k. get_or (Base.set stack n irq) k 0) (sym (==→≡ n i e))
      ∙ get_or-set_self stack n irq 0 h)
  | inr e ↦ rw e (get_or-set_ne stack n i irq 0 (==→≢ n i e))
]

-- A vector of a higher class on top of a stack.
push-IsStack :
    (stack : List ℕ) (n irq : ℕ)
    → IsStack stack n
    → n < 16
    → 16 ≤ irq
    → irq < 256
    → (n ≢ 0 → get_or stack (n - 1) 0 / 16 < irq / 16)
    → IsStack (Base.set stack n irq) (n + 1)
push-IsStack stack n irq s room lo hi above = record {
  places = length-set stack n irq ∙ s.places;
  depth = omega arith;
  rising = λ i lt.
      let at = place_set stack n irq i (omega (arith, s.places)) in
      let next = place_set stack n irq (suc i) (omega (arith, s.places)) in
      elim (Bool-cases (n == suc i)) [
        | inl e ↦
            let below = ap (λ k. get_or stack (k - 1) 0) (==→≡ n (suc i) e) in
            ground (arith, ==→≡ n (suc i) e)
        | inr e ↦ ground (arith, s.rising i, ==→≢ n (suc i) e)
      ];
  classes = λ i lt.
      let at = place_set stack n irq i (omega (arith, s.places)) in ground (arith, s.classes i);
}

-- In a valid structure a vector of a higher class than the one in service can be put in service:
-- there is a place for it, it is on top, it is no longer pending, nothing else changes what is
-- pending, and the structure stays valid.
pub mark_in_service_lem :
    (a : LocalApic) (irq : ℕ)
    → IsValid a
    → irq < 256
    → current_class a < irq / 16
    → (b : LocalApic) × (mark_in_service a irq ≡ done b)
      × IsValid b
      × (top b ≡ irq)
      × (b.isr_stack_index ≡ a.isr_stack_index + 1)
      × ((w : ℕ) → vector b.irr w ≡ (not (irq == w) && vector a.irr w))
unfolding mark_in_service
mark_in_service_lem a irq v hi above =
    let room = depth-lt a v in
    let (r, rs) = remove_vector_register_lem a.irr irq v.irr hi in
    (
      in_service a irq,
      ground (arith, v.stack.places),
      record {
        irr = r;
        allowed_irr = v.allowed_irr;
        tmr = v.tmr;
        host_tmr = v.host_tmr;
        stack =
            push-IsStack a.isr_stack a.isr_stack_index irq v.stack room (omega arith) hi
              (λ h. ground arith);
      },
      place_set a.isr_stack a.isr_stack_index irq (a.isr_stack_index + 1 - 1)
            (omega (arith, v.stack.places))
          ∙ ground arith,
      refl,
      rs,
    )

-- On a valid structure, taking a vector back undoes putting it in service, if it is of a higher
-- class than the one in service and was pending before: as many interrupts are in service and
-- the same ones are pending as before.
pub rewind-mark_in_service :
    (a : LocalApic) (irq : ℕ)
    → IsValid a
    → irq < 256
    → current_class a < irq / 16
    → vector a.irr irq ≡ true
    → (c : LocalApic) × ((mark_in_service a irq >>= λ b. rewind_pending_interrupt b irq) ≡ done c)
      × (c.isr_stack_index ≡ a.isr_stack_index)
      × ((w : ℕ) → vector c.irr w ≡ vector a.irr w)
rewind-mark_in_service a irq v hi above pending =
    let (b, runs, valid, on_top, index, gone) = mark_in_service_lem a irq v hi above in
    let (back, valid', again) = rewind_pending_interrupt_lem b valid (omega arith) in
    (
      rewound b,
      rw runs (ap (rewind_pending_interrupt b) (sym on_top) ∙ back),
      omega arith,
      λ w. again w ∙ elim (Bool-cases (irq == w)) [
        | inl q ↦ ground (arith, gone w, ap (vector a.irr) (==→≡ irq w q))
        | inr q ↦ ground (arith, gone w)
      ],
    )

-- A structure that differs from `a` in the delivery flags only.
abbrev flagged : LocalApic → Bool → Bool → Bool → LocalApic
flagged a delivered queued lazy = record a {
  interrupt_delivered = delivered;
  interrupt_queued = queued;
  lazy_eoi_pending = lazy;
}

flagged-IsValid : (a : LocalApic) (d q l : Bool) → IsValid a → IsValid (flagged a d q l)
flagged-IsValid a d q l v = record {
  irr = v.irr;
  allowed_irr = v.allowed_irr;
  tmr = v.tmr;
  host_tmr = v.host_tmr;
  stack = v.stack;
}

current_priority_lem :
    (a : LocalApic)
    → IsValid a
    → (cur : ℕ) × (current_priority a ≡ done cur) × (cur / 16 ≡ current_class a)
unfolding current_priority
current_priority_lem a v = elim (Bool-cases (a.isr_stack_index == 0)) [
  | inl e ↦ (0, rw e refl, rw e refl)
  | inr e ↦ (
    top a,
    rw (e, stack_place a (a.isr_stack_index - 1) v (omega (arith, depth-lt a v))) refl,
    rw e refl,
  )
]

module _ {C : Type 0} (ops : GuestCpuState C) where
  deliver-total :
      (a : LocalApic) (irq : ℕ) (cpu : C)
      → IsValid a
      → (out : C × Bool) × (deliver_interrupt_immediately ops a irq cpu ≡ done out)
  unfolding deliver_interrupt_immediately get_ppr
  deliver-total a irq cpu v =
      elim (Bool-cases (not (ops.interrupts_enabled cpu) || ops.in_intr_shadow cpu)) [
        | inl e ↦ ((cpu, false), rw e refl)
        | inr e ↦
            let (ppr, total) = get_ppr_with_tpr-total a (ops.get_tpr cpu) v in
            (
              (if leb (irq / 16) (ppr / 16)
                  then (cpu, false)
                  else ops.try_deliver_interrupt_immediately cpu irq),
              rw (e, total) refl,
            )
      ]

  note_delivery_lem :
      (m : Machine C) (irq : ℕ) (out : C × Bool)
      → (d : Bool) × (q : Bool) × ((note_delivery ops m irq out).0.apic
          ≡ flagged m.apic d q m.apic.lazy_eoi_pending)
  unfolding note_delivery
  note_delivery_lem m irq (cpu, true) = (true, m.apic.interrupt_queued, refl)
  note_delivery_lem m irq (cpu, false) = (m.apic.interrupt_delivered, true, refl)

  -- Delivery or queueing does not panic and changes nothing of the structure but a flag.
  deliver_or_queue_lem :
      (m : Machine C) (irq : ℕ)
      → IsValid m.apic
      → (out : Machine C × Bool) × (d : Bool) × (q : Bool) × (deliver_or_queue ops m irq ≡ done out)
        × (out.0.apic ≡ flagged m.apic d q m.apic.lazy_eoi_pending)
  unfolding deliver_or_queue
  deliver_or_queue_lem m irq v =
      let (out, total) = deliver-total m.apic irq m.cpu v in
      let (d, q, same) = note_delivery_lem m irq out in
      (note_delivery ops m irq out, d, q, rw total refl, same)

  set_up_lazy_eoi_lem :
      (m : Machine C) (irq : ℕ) (b : Bool)
      → (l : Bool) × ((set_up_lazy_eoi ops m irq b).apic
          ≡ flagged m.apic m.apic.interrupt_delivered m.apic.interrupt_queued l)
  unfolding set_up_lazy_eoi
  set_up_lazy_eoi_lem m irq b =
      elim (Bool-cases
        (b && not (test_vector_register m.apic.tmr irq) && scan_irr m.apic.irr == 0)) [
          | inl e ↦ elim (Bool-cases (offer_lazy_eoi m.caa).1) [
            | inl f ↦ (true, rw (e, f) refl)
            | inr f ↦ (m.apic.lazy_eoi_pending, rw (e, f) refl)
          ]
          | inr e ↦ (m.apic.lazy_eoi_pending, rw e refl)
        ]

  -- What the presentation of the pending interrupts makes of the structure: it stays valid, and it
  -- is either left as it was, or the highest pending vector, which is then of a higher class than the
  -- one that was in service, is on top of the stack and no longer pending.
  abbrev pub Presented : LocalApic → LocalApic → Type 0
  Presented a b =
      IsValid b
      × ((leb (scan_irr a.irr / 16) (current_class a) ≡ true
            → (b.isr_stack_index ≡ a.isr_stack_index) × (b.irr ≡ a.irr))
          × (leb (scan_irr a.irr / 16) (current_class a) ≡ false
              → (top b ≡ scan_irr a.irr)
                × (b.isr_stack_index ≡ a.isr_stack_index + 1)
                × ((w : ℕ) → vector b.irr w ≡ (not (scan_irr a.irr == w) && vector a.irr w))))

  present_one_lem :
      (m : Machine C) (irq : ℕ)
      → IsValid m.apic
      → irq < 256
      → current_class m.apic < irq / 16
      → (m' : Machine C) × (present_one ops m irq ≡ done m')
        × IsValid m'.apic
        × (top m'.apic ≡ irq)
        × (m'.apic.isr_stack_index ≡ m.apic.isr_stack_index + 1)
        × ((w : ℕ) → vector m'.apic.irr w ≡ (not (irq == w) && vector m.apic.irr w))
  unfolding present_one
  present_one_lem m irq v hi above =
      let (out, d, q, delivers, same) = deliver_or_queue_lem m irq v in
      let a = flagged m.apic d q m.apic.lazy_eoi_pending in
      let (b, marks, valid, on_top, index, pending) =
        mark_in_service_lem a irq (flagged-IsValid m.apic d q m.apic.lazy_eoi_pending v) hi above in
      let (l, set_up) = set_up_lazy_eoi_lem (record out.0 { apic = b }) irq out.1 in
      (
        set_up_lazy_eoi ops (record out.0 { apic = b }) irq out.1,
        rw (delivers, same, marks) refl,
        rw set_up (flagged-IsValid b b.interrupt_delivered b.interrupt_queued l valid),
        rw set_up on_top,
        rw set_up index,
        rw set_up pending,
      )

  pub present_irq-Presented :
      (m : Machine C)
      → IsValid m.apic
      → (m' : Machine C) × (present_irq ops m ≡ done m') × Presented m.apic m'.apic
  unfolding present_irq
  present_irq-Presented m v =
      let irq = scan_irr m.apic.irr in
      let (cur, total, same) = current_priority_lem m.apic v in
      let m1 = record m {
        apic = record m.apic { lazy_eoi_pending = false };
        caa = clear_guest_eoi_pending m.caa;
      } in
      let valid1 =
        flagged-IsValid m.apic m.apic.interrupt_delivered m.apic.interrupt_queued false v in
      elim (Bool-cases (leb (irq / 16) (current_class m.apic))) [
        | inl e ↦ (
          m1,
          rw (total, same, e) refl,
          (valid1, ((λ h. (refl, refl)), (λ h. absurd (ground arith)))),
        )
        | inr e ↦
            let (m', runs, valid, on_top, index, pending) =
              present_one_lem m1 irq valid1 (scan_irr-highest m.apic.irr v.irr).0 (ground arith) in
            (
              m',
              rw (total, same, e) runs,
              (valid, ((λ h. absurd (ground arith)), (λ h. (on_top, index, pending)))),
            )
      ]
