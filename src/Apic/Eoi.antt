-- ===== src/Apic/Eoi.antt =====
-- End of interrupt, the processor priority and the ISR registers.
use svsm.Base.{
  ℕ, ◌+◌, ◌-◌, ◌*◌, ◌/◌, ◌%◌, ◌^◌, ◌<◌, ◌≡◌, ◌≢◌, refl, ◌∙◌, ap, ap₂, inl, inr, Bool, true, false,
  ◌==◌, not, ◌&&◌, ◌||◌, if◌then◌else◌, ltb, List, [], ◌∷◌, get_or, take, done, Bool-cases, arith,
  ==→≡, ==→≢, bit_or,
}
use svsm.Bits.{test_bit, test_bit-set_bit, test_bit-zero}
use svsm.Apic.Vectors.{remove_vector_register, test_vector_register}
use svsm.Apic.Vectors.Laws.{
  IsRegister, vector, test_vector_register_lem, remove_vector_register_lem,
}
use svsm.Apic.State.{LocalApic}
use svsm.Apic.Service.{
  get_ppr_with_tpr, perform_host_eoi, acknowledge, perform_eoi, collect_isr, get_isr,
}
use svsm.Apic.Inv.{IsValid, top, stack_place, pop-IsStack, depth-lt}

-- What an EOI promises: one place less, the vector no longer level sensitive, an EOI to the host
-- exactly if the vector came from there as level sensitive, and no change to what is pending.
pub record Ended (a : LocalApic) (eois : List ℕ) (b : LocalApic) (eois' : List ℕ) : Type 0 where
  pub valid : IsValid b
  pub index : b.isr_stack_index ≡ a.isr_stack_index - 1
  pub stack : b.isr_stack ≡ a.isr_stack
  pub irr : b.irr ≡ a.irr
  pub tmr : (w : ℕ) → vector b.tmr w ≡ (not (top a == w) && vector a.tmr w)
  pub eoi :
      eois' ≡ (if vector a.tmr (top a) && vector a.host_tmr (top a) then top a ∷ eois else eois)
  pub update : b.update_required ≡ true
  pub lazy : b.lazy_eoi_pending ≡ false
  pub delivered : b.interrupt_delivered ≡ a.interrupt_delivered
  pub queued : b.interrupt_queued ≡ a.interrupt_queued

-- A register with `v` removed if the test says so.
abbrev removed : Bool → List ℕ → ℕ → List ℕ
removed b r v = if b then remove_vector_register r v else r

abbrev level : LocalApic → Bool
level a = test_vector_register a.tmr (top a)

abbrev from_host : LocalApic → Bool
from_host a = level a && test_vector_register a.host_tmr (top a)

abbrev ended : LocalApic → LocalApic
ended a = record a {
  isr_stack_index = a.isr_stack_index - 1;
  tmr = removed (level a) a.tmr (top a);
  host_tmr = removed (from_host a) a.host_tmr (top a);
  update_required = true;
  lazy_eoi_pending = false;
}

perform_eoi-ended :
    (specific_eoi : ℕ → Bool) (a : LocalApic) (eois : List ℕ)
    → IsValid a
    → ((v : ℕ) → specific_eoi v ≡ true)
    → a.isr_stack_index ≢ 0
    → perform_eoi specific_eoi a eois ≡ done (ended a, (if from_host a then top a ∷ eois else eois))
unfolding perform_eoi acknowledge perform_host_eoi
perform_eoi-ended specific_eoi a eois v takes h =
    let place = stack_place a (a.isr_stack_index - 1) v (omega (arith, v.stack.depth)) in
    let taken = takes (top a) in
    elim (Bool-cases (level a)) [
      | inl t ↦ elim (Bool-cases (test_vector_register a.host_tmr (top a))) [
        | inl u ↦ ground arith
        | inr u ↦ ground arith
      ]
      | inr t ↦ ground arith
    ]

removed-IsRegister :
    (b : Bool) (r : List ℕ) (v : ℕ) → IsRegister r → v < 256 → IsRegister (removed b r v)
removed-IsRegister true r v reg h = (remove_vector_register_lem r v reg h).0
removed-IsRegister false r v reg h = reg

-- Removing a vector if it is there is removing it.
vector-removed :
    (r : List ℕ) (v w : ℕ)
    → IsRegister r
    → v < 256
    → vector (removed (test_vector_register r v) r v) w ≡ (not (v == w) && vector r w)
vector-removed r v w reg h = elim (Bool-cases (test_vector_register r v)) [
  | inl e ↦ rw e ((remove_vector_register_lem r v reg h).1 w)
  | inr e ↦ rw e (elim (Bool-cases (v == w)) [
    | inl q ↦ ground (arith, test_vector_register_lem r v, ap (vector r) (==→≡ v w q))
    | inr q ↦ ground arith
  ])
]

top-lt : (a : LocalApic) → IsValid a → a.isr_stack_index ≢ 0 → top a < 256
top-lt a v h = (v.stack.classes (a.isr_stack_index - 1) (omega arith)).1

ended-Ended :
    (a : LocalApic) (eois : List ℕ)
    → IsValid a
    → a.isr_stack_index ≢ 0
    → Ended a eois (ended a) (if from_host a then top a ∷ eois else eois)
ended-Ended a eois v h = record {
  valid = record {
    irr = v.irr;
    allowed_irr = v.allowed_irr;
    tmr = removed-IsRegister (level a) a.tmr (top a) v.tmr (top-lt a v h);
    host_tmr = removed-IsRegister (from_host a) a.host_tmr (top a) v.host_tmr (top-lt a v h);
    stack = pop-IsStack a.isr_stack a.isr_stack_index _ v.stack (omega arith);
  };
  index = refl;
  stack = refl;
  irr = refl;
  tmr = λ w. vector-removed a.tmr (top a) w v.tmr (top-lt a v h);
  eoi =
      ap₂ (λ b c. if b && c then top a ∷ eois else eois) (test_vector_register_lem a.tmr (top a))
        (test_vector_register_lem a.host_tmr (top a));
  update = refl;
  lazy = refl;
  delivered = refl;
  queued = refl;
}

-- On a valid structure, when the host takes specific EOIs, an EOI with an interrupt in service
-- does not panic: it takes the vector off the stack and out of the level-sensitive ones, sends
-- an EOI to the host exactly if the vector was marked as level sensitive from there, asks for an
-- update, and keeps what is pending and the structure valid. With none in service it changes
-- nothing.
pub perform_eoi_lem :
    (specific_eoi : ℕ → Bool) (a : LocalApic) (eois : List ℕ)
    → IsValid a
    → ((v : ℕ) → specific_eoi v ≡ true)
    → (a.isr_stack_index ≡ 0 → perform_eoi specific_eoi a eois ≡ done (a, eois))
      × (a.isr_stack_index ≢ 0
          → (b : LocalApic) × (eois' : List ℕ) × (perform_eoi specific_eoi a eois ≡ done (b, eois'))
            × Ended a eois b eois')
unfolding perform_eoi
perform_eoi_lem specific_eoi a eois v takes = (
  (λ h. ground arith),
  λ h. (ended a, _, perform_eoi-ended specific_eoi a eois v takes h, ended-Ended a eois v h),
)

-- The priority of a valid structure can be computed.
pub get_ppr_with_tpr-total :
    (a : LocalApic) (tpr : ℕ) → IsValid a → (ppr : ℕ) × (get_ppr_with_tpr a tpr ≡ done ppr)
unfolding get_ppr_with_tpr
get_ppr_with_tpr-total a tpr v = elim (Bool-cases (a.isr_stack_index == 0)) [
  | inl e ↦ ((if ltb (tpr / 16) (0 / 16) then 0 else tpr), rw e refl)
  | inr e ↦
      let above = get_or a.isr_stack a.isr_stack_index 0 in
      (
        (if ltb (tpr / 16) (above / 16) then above else tpr),
        rw (e, stack_place a a.isr_stack_index v (depth-lt a v)) refl,
      )
]

-- The vectors of the first `n` places that are `v`.
abbrev pub mem : ℕ → List ℕ → Bool
mem v [] = false
mem v (x ∷ xs) = x == v || mem v xs

added_bit :
    (index value x i : ℕ)
    → i < 32
    → test_bit (if x / 32 == index then bit_or value (2 ^ (x % 32)) else value) i
      ≡ (x == index * 32 + i || test_bit value i)
added_bit index value x i h = elim (Bool-cases (x / 32 == index)) [
  | inl e ↦ rw e (test_bit-set_bit value (x % 32) i ∙ ground (arith, ==→≡ (x / 32) index e))
  | inr e ↦ rw e (ground (arith, ==→≢ (x / 32) index e))
]

collect_isr_lem :
    (index value : ℕ) (xs : List ℕ) (i : ℕ)
    → i < 32
    → test_bit (collect_isr index xs value) i ≡ (mem (index * 32 + i) xs || test_bit value i)
unfolding collect_isr
collect_isr_lem index value [] i h = refl
collect_isr_lem index value (x ∷ xs) i h =
    collect_isr_lem index (if x / 32 == index then bit_or value (2 ^ (x % 32)) else value) xs i h
    ∙ ap (λ b. mem (index * 32 + i) xs || b) (added_bit index value x i h)
    ∙ ground arith

-- Bit `i`, below 32, of the ISR register `index` is set exactly if the vector `32 * index + i`
-- is in service.
pub get_isr_lem :
    (a : LocalApic) (index i : ℕ)
    → i < 32
    → test_bit (get_isr a index) i ≡ mem (index * 32 + i) (take a.isr_stack_index a.isr_stack)
unfolding get_isr
get_isr_lem a index i h =
    collect_isr_lem index 0 (take a.isr_stack_index a.isr_stack) i h
    ∙ ground (arith, test_bit-zero i)
