-- ===== src/Apic/Inv.antt =====
-- The invariant of `LocalApic`: its registers are eight words, the stack has 16 places, and the
-- vectors in service rise in priority class from 1 on.
use svsm.Base.{
  ℕ, zero, suc, ◌-◌, ◌/◌, ◌≤◌, ◌<◌, ◌≡◌, ◌≢◌, refl, inl, inr, Bool, true, false, ◌==◌, ◌&&◌, ◌||◌,
  some, List, length, get_elem?, get_or, done, Bool-cases, arith, ==→≡, ==→≢, get_elem?-eq-get_or,
}
use svsm.Apic.Vectors.{insert_vector_register}
use svsm.Apic.Vectors.Laws.{IsRegister, vector, insert_vector_register_lem}
use svsm.Apic.State.{LocalApic}
use svsm.Apic.Service.{is_some_of, rewind_pending_interrupt}
use svsm.Apic.Post.{post_interrupt}

-- The first `n` places of a stack.
pub record IsStack (stack : List ℕ) (n : ℕ) : Type 0 where
  pub places : length stack ≡ 16
  pub depth : n ≤ 16
  pub rising : (i : ℕ) → suc i < n → get_or stack i 0 / 16 < get_or stack (suc i) 0 / 16
  pub classes : (i : ℕ) → i < n → (16 ≤ get_or stack i 0) × (get_or stack i 0 < 256)

pub record IsValid (a : LocalApic) : Type 0 where
  pub irr : IsRegister a.irr
  pub allowed_irr : IsRegister a.allowed_irr
  pub tmr : IsRegister a.tmr
  pub host_tmr : IsRegister a.host_tmr
  pub stack : IsStack a.isr_stack a.isr_stack_index

-- The vector in place `i` has class `i + 1` at least,
class_above :
    (a : LocalApic)
    → IsValid a
    → (i : ℕ) → i < a.isr_stack_index
    → suc i ≤ get_or a.isr_stack i 0 / 16
class_above a v zero h = omega (arith, v.stack.classes 0 h)
class_above a v (suc i) h = omega (arith, v.stack.rising i h, class_above a v i)

-- At most 15 interrupts are in service, so that there is a place above the top.
pub depth-lt : (a : LocalApic) → IsValid a → a.isr_stack_index < 16
depth-lt a v = elim (Bool-cases (a.isr_stack_index == 16)) [
  | inl e ↦
      let h = ==→≡ a.isr_stack_index 16 e in
      absurd (omega (arith, class_above a v 15 (omega arith), v.stack.classes 15 (omega arith)))
  | inr e ↦ omega (arith, v.stack.depth, ==→≢ a.isr_stack_index 16 e)
]

-- The vector at the top of the stack.
abbrev pub top : LocalApic → ℕ
top a = get_or a.isr_stack (a.isr_stack_index - 1) 0

-- Reading a place of the stack.
pub stack_place :
    (a : LocalApic) (i : ℕ)
    → IsValid a
    → i < 16
    → get_elem? a.isr_stack i ≡ some (get_or a.isr_stack i 0)
stack_place a i v h = get_elem?-eq-get_or a.isr_stack i 0 (omega (arith, v.stack.places))

-- Taking places off the top keeps a stack.
pub pop-IsStack : (stack : List ℕ) (n k : ℕ) → IsStack stack n → k ≤ n → IsStack stack k
pop-IsStack stack n k s h = record {
  places = s.places;
  depth = omega (arith, s.depth);
  rising = λ i lt. s.rising i (omega arith);
  classes = λ i lt. s.classes i (omega arith);
}

-- Posting a vector below 256 keeps a valid structure valid; it makes the vector pending and
-- nothing else, marks it as level sensitive if it is, and asks for an update.
pub post_interrupt_lem :
    (a : LocalApic) (irq : ℕ) (level_sensitive : Bool)
    → IsValid a
    → irq < 256
    → IsValid (post_interrupt a irq level_sensitive)
      × ((w : ℕ)
          → vector (post_interrupt a irq level_sensitive).irr w ≡ (irq == w || vector a.irr w))
      × ((w : ℕ)
          → vector (post_interrupt a irq level_sensitive).tmr w
            ≡ (level_sensitive && irq == w || vector a.tmr w))
      × ((post_interrupt a irq level_sensitive).update_required ≡ true)
unfolding post_interrupt
post_interrupt_lem a irq true v h =
    let (i, is) = insert_vector_register_lem a.irr irq v.irr h in
    let (t, ts) = insert_vector_register_lem a.tmr irq v.tmr h in
    (
      record {
        irr = i;
        allowed_irr = v.allowed_irr;
        tmr = t;
        host_tmr = v.host_tmr;
        stack = v.stack;
      },
      is,
      ts,
      refl,
    )
post_interrupt_lem a irq false v h =
    let (i, is) = insert_vector_register_lem a.irr irq v.irr h in
    (
      record {
        irr = i;
        allowed_irr = v.allowed_irr;
        tmr = v.tmr;
        host_tmr = v.host_tmr;
        stack = v.stack;
      },
      is,
      λ w. refl,
      refl,
    )

-- What rewinding makes of the structure.
abbrev pub rewound : LocalApic → LocalApic
rewound a = record a {
  irr = insert_vector_register a.irr (top a);
  isr_stack_index = a.isr_stack_index - 1;
  update_required = true;
}

-- On a valid structure with an interrupt in service, rewinding the one on top of the stack does
-- not panic: it leaves the stack and is pending again, no other vector changes, and the
-- structure stays valid.
pub rewind_pending_interrupt_lem :
    (a : LocalApic)
    → IsValid a
    → a.isr_stack_index ≢ 0
    → (rewind_pending_interrupt a (top a) ≡ done (rewound a))
      × IsValid (rewound a)
      × ((w : ℕ) → vector (rewound a).irr w ≡ (top a == w || vector a.irr w))
unfolding rewind_pending_interrupt is_some_of
rewind_pending_interrupt_lem a v h =
    let (lo, hi) = v.stack.classes (a.isr_stack_index - 1) (omega arith) in
    let (i, is) = insert_vector_register_lem a.irr (top a) v.irr hi in
    (
      ground (arith, stack_place a (a.isr_stack_index - 1) v (omega (arith, v.stack.depth))),
      record {
        irr = i;
        allowed_irr = v.allowed_irr;
        tmr = v.tmr;
        host_tmr = v.host_tmr;
        stack = pop-IsStack a.isr_stack a.isr_stack_index _ v.stack (omega arith);
      },
      is,
    )
