-- ===== src/Apic/Post.antt =====
-- Posting an interrupt, inter-processor interrupts and the interrupts that the host signals.
use svsm.Base.{
  ℕ, zero, suc, ◌+◌, ◌*◌, ◌/◌, ◌%◌, ◌^◌, bit_and, bit_or, Bool, true, false, not, ◌&&◌, ◌==◌,
  if◌then◌else◌, Option, none, some, List, [], ◌∷◌, get_or, Run, done, panic,
}
use svsm.Base
use svsm.Bits.{not_bits, highest_bit}
use svsm.Apic.Vectors.{insert_vector_register}
use svsm.Apic.State.{
  IcrDestFmt, dest, only_self, all_with_self, all_but_self, IcrMessageType, fixed, unknown, nmi,
  init, sipi, ext_int, icr_vector, icr_message_type, icr_destination_mode,
  icr_destination_shorthand, icr_destination, LocalApic, PerCpuShared, request_ipi, request_nmi,
  Machine,
}

unfoldable pub post_interrupt : LocalApic → ℕ → Bool → LocalApic
post_interrupt apic irq level_sensitive = record apic {
  irr = insert_vector_register apic.irr irq;
  tmr = if level_sensitive then insert_vector_register apic.tmr irq else apic.tmr;
  update_required = true;
}

unfoldable pub is_nmi : IcrMessageType → Bool
is_nmi nmi = true
is_nmi fixed = false
is_nmi unknown = false
is_nmi init = false
is_nmi sipi = false
is_nmi ext_int = false

unfoldable pub post_icr_interrupt : LocalApic → ℕ → LocalApic
post_icr_interrupt apic icr =
    if is_nmi (icr_message_type icr)
    then record apic { nmi_pending = true; update_required = true }
    else post_interrupt apic (icr_vector icr) false

unfoldable pub post_ipi_one_target : PerCpuShared → ℕ → PerCpuShared
post_ipi_one_target cpu icr =
    if is_nmi (icr_message_type icr) then request_nmi cpu else request_ipi cpu (icr_vector icr)

unfoldable pub logical_destination_match : ℕ → ℕ → Bool
logical_destination_match destination apic_id =
    if not (destination / 2 ^ 16 == apic_id / 2 ^ 4)
    then false
    else not (bit_and destination (2 ^ (apic_id % 16)) == 0)

-- The loop over `PERCPU_AREAS` that posts to every CPU that `wanted` picks, and whether there is one.
unfoldable pub post_to : (ℕ → Bool) → ℕ → List PerCpuShared → List PerCpuShared × Bool
post_to wanted icr [] = ([], false)
post_to wanted icr (cpu ∷ cpus) =
    let rest = post_to wanted icr cpus in
    if wanted cpu.apic_id
    then (post_ipi_one_target cpu icr ∷ rest.0, true)
    else (cpu ∷ rest.0, rest.1)

-- `get_by_apic_id` and `request_ipi` on the CPU it finds, if there is one.
unfoldable pub request_by_apic_id : ℕ → ℕ → List PerCpuShared → List PerCpuShared × Bool
request_by_apic_id apic_id vector [] = ([], false)
request_by_apic_id apic_id vector (cpu ∷ cpus) =
    let rest = request_by_apic_id apic_id vector cpus in
    if cpu.apic_id == apic_id then (request_ipi cpu vector ∷ cpus, true) else (cpu ∷ rest.0, rest.1)

-- Whether to signal the host, and to post to the other CPUs and to this one.
abbrev Targets : Type 0
Targets = Bool × Bool × Bool

-- The shorthand field of the ICR that is sent to the host.
unfoldable pub host_shorthand : IcrDestFmt → ℕ
host_shorthand dest = 0
host_shorthand only_self = 1
host_shorthand all_with_self = 3
host_shorthand all_but_self = 3

-- A fixed interrupt on `INT_INJ_VECTOR` with the destination of `icr`.
unfoldable pub host_icr : ℕ → ℕ
host_icr icr =
    0x50
    + icr / 2 ^ 11 % 2 * 2 ^ 11
    + host_shorthand (icr_destination_shorthand icr) * 2 ^ 18
    + icr_destination icr * 2 ^ 32

module _ {C : Type 0} (apic_id : ℕ) where
  unfoldable pub send_logical_ipi : Machine C → ℕ → Machine C × Bool
  send_logical_ipi m icr =
      let destination = icr_destination icr in
      let out =
        post_to (λ other. not (other == apic_id) && logical_destination_match destination other) icr
          m.areas in
      (
        record m {
          apic =
              if logical_destination_match destination apic_id
              then post_icr_interrupt m.apic icr
              else m.apic;
          areas = out.0;
        },
        out.1,
      )

  unfoldable pub send_physical_ipi : Machine C → ℕ → Machine C × Bool
  send_physical_ipi m icr =
      let destination = icr_destination icr in
      let out = request_by_apic_id destination (icr_vector icr) m.areas in
      if destination == apic_id
      then (record m { apic = post_interrupt m.apic (icr_vector icr) false }, false)
      else (record m { areas = out.0 }, out.1)

  unfoldable pub route : IcrDestFmt → Machine C → ℕ → Machine C × Targets
  route only_self m icr = (m, (false, false, true))
  route all_but_self m icr = (m, (true, true, false))
  route all_with_self m icr = (m, (true, true, true))
  route dest m icr =
      if icr_destination icr == 0xFFFFFFFF
      then (m, (true, true, true))
      else (let out =
            if icr_destination_mode icr then send_logical_ipi m icr else send_physical_ipi m icr in
          (out.0, (out.1, false, false)))

  unfoldable pub include_others : Bool → Machine C → ℕ → Machine C
  include_others others m icr =
      if others
      then record m { areas = (post_to (λ other. not (other == apic_id)) icr m.areas).0 }
      else m

  unfoldable pub include_self : Bool → Machine C → ℕ → Machine C
  include_self self m icr = if self then record m { apic = post_icr_interrupt m.apic icr } else m

  unfoldable pub signal_host : Bool → Machine C → ℕ → Machine C
  signal_host signal m icr =
      if signal then record m { host_irqs = host_icr icr ∷ m.host_irqs } else m

  unfoldable pub send_ipi : Machine C → ℕ → Machine C
  send_ipi m icr =
      let out = route (icr_destination_shorthand icr) m icr in
      signal_host out.1.0 (include_self out.1.2 (include_others out.1.1 out.0 icr) icr) icr

unfoldable pub configure_vector : LocalApic → ℕ → Bool → LocalApic
configure_vector apic vector allowed =
    let old = get_or apic.allowed_irr (vector / 32) 0 in
    let mask = 2 ^ (vector % 32) in
    record apic {
      allowed_irr =
          Base.set apic.allowed_irr (vector / 32)
            (if allowed then bit_or old mask else bit_and old (not_bits 32 mask));
    }

unfoldable pub signal_one_host_interrupt : LocalApic → ℕ → Bool → LocalApic × Bool
signal_one_host_interrupt apic vector level_sensitive =
    if not (bit_and (get_or apic.allowed_irr (vector / 32) 0) (2 ^ (vector % 32)) == 0)
    then (post_interrupt apic vector level_sensitive, true)
    else (apic, false)

-- The `while bits != 0`, on fuel: a word has 32 bits at most. A round more than that is a panic.
unfoldable pub signal_loop : ℕ → LocalApic → ℕ → ℕ → Run LocalApic
signal_loop zero apic vector bits = elim (highest_bit 32 bits) [
  | none ↦ done apic
  | some index ↦ panic
]
signal_loop (suc fuel) apic vector bits = elim (highest_bit 32 bits) [
  | none ↦ done apic
  | some index ↦
      signal_loop fuel (post_interrupt apic (vector + index) false) vector
        (bit_and bits (not_bits 32 (2 ^ index)))
]

unfoldable pub signal_several_interrupts : LocalApic → ℕ → ℕ → Run LocalApic
signal_several_interrupts apic group bits = signal_loop 32 apic (group * 32) bits
