-- ===== src/Apic/Host.antt =====
-- The exchange with the hypervisor through the doorbell page (kernel/src/sev/hv_doorbell.rs), of
-- which the guest's entry of `per_vmpl` is kept. The hypervisor may store to the status word between
-- a load and a compare-exchange: these stores are an argument, in the order in which they are seen.
use svsm.Base.{
  ℕ, ◌+◌, ◌/◌, ◌%◌, ◌^◌, bit_and, bit_or, Bool, true, false, not, ◌&&◌, ◌==◌, leb, if◌then◌else◌,
  Option, none, some, List, [], ◌∷◌, get_or, replicate, take, Run, done, ◌>>=◌,
}
use svsm.Bits.{not_bits}
use svsm.Apic.Vectors.{no_vectors, insert_vector_register}
use svsm.Apic.State.{LocalApic}
use svsm.Apic.Post.{signal_one_host_interrupt, signal_several_interrupts}
use svsm.Apic.Present.{or_words}

pub record HvExtIntInfo : Type 0 where
  pub status : ℕ
  pub irr : List ℕ
  pub isr : List ℕ

pub record HvDoorbell : Type 0 where
  pub per_vmpl_events : ℕ
  pub descriptor : HvExtIntInfo

-- The fields of `HVExtIntStatus`.
abbrev pub pending_vector : ℕ → ℕ
pending_vector flags = flags % 2 ^ 8

abbrev pub level_sensitive : ℕ → Bool
level_sensitive flags = flags / 2 ^ 10 % 2 == 1

abbrev pub multiple_vectors : ℕ → Bool
multiple_vectors flags = flags / 2 ^ 14 % 2 == 1

abbrev pub vector_31 : ℕ → Bool
vector_31 flags = flags / 2 ^ 31 % 2 == 1

abbrev pub without : ℕ → ℕ → ℕ
without mask flags = bit_and flags (not_bits 32 mask)

-- The loop that takes a level-sensitive vector: the vector, and the status and flags after it.
unfoldable pub take_level : List ℕ → ℕ → ℕ × ℕ
take_level [] flags = (pending_vector flags, without (2 ^ 10) (without 0xFF flags))
take_level (status ∷ stores) flags =
    if status == flags
    then (pending_vector flags, without (2 ^ 10) (without 0xFF flags))
    else take_level stores status

unfoldable pub signal_level : LocalApic → ℕ → LocalApic
signal_level apic vector =
    let out = signal_one_host_interrupt apic vector true in
    if out.1
    then record out.0 { host_tmr = insert_vector_register out.0.host_tmr vector }
    else out.0

-- `for i in 1..8`, from group `i` on.
unfoldable pub consume_groups : ℕ → List ℕ → LocalApic → Run LocalApic
consume_groups i [] apic = done apic
consume_groups i (bits ∷ rest) apic = do
  apic ← signal_several_interrupts apic i (bit_and bits (get_or apic.allowed_irr i 0))
  consume_groups (i + 1) rest apic

-- First a level-sensitive vector; `flags` is the status as it is known after it.
unfoldable pub consume_level : List ℕ → LocalApic → ℕ → LocalApic × ℕ
consume_level stores apic flags =
    if level_sensitive flags
    then (let out = take_level stores flags in (signal_level apic out.0, out.1))
    else (apic, flags)

-- What a load or an exchange finds: the last store of the hypervisor, if there was one.
abbrev pub found : Option ℕ → ℕ → ℕ
found none status = status
found (some status') status = status'

-- Many vectors; `status` is what the first `fetch_and` finds, `later` a store before the second.
unfoldable pub consume_multiple :
    LocalApic → HvExtIntInfo → ℕ → ℕ → Option ℕ → Run (LocalApic × HvExtIntInfo)
consume_multiple apic descriptor flags status later = do
  let cleared = without (2 ^ 14) status
  apic ←
      consume_groups 1 descriptor.irr
        (if vector_31 flags then (signal_one_host_interrupt apic 31 false).0 else apic)
  done (
    apic,
    record descriptor {
      status = if vector_31 flags then without (2 ^ 31) (found later cleared) else cleared;
      irr = replicate 7 0;
    },
  )

-- One vector; `status` is what the compare-exchange finds, or would.
unfoldable pub consume_single : LocalApic → HvExtIntInfo → ℕ → ℕ → LocalApic × HvExtIntInfo
consume_single apic descriptor flags status =
    if pending_vector flags == 0
    then (apic, record descriptor { status = status })
    else (if status == flags
        then (
          (signal_one_host_interrupt apic (pending_vector flags) false).0,
          record descriptor { status = without 0xFF flags },
        )
        else (apic, record descriptor { status = status }))

-- `late` is a store of the hypervisor before the compare-exchange of a single vector or the first
-- `fetch_and` for many, and `later` one before the second `fetch_and`.
unfoldable pub consume_host_interrupts :
    List ℕ → Option ℕ → Option ℕ → LocalApic → HvDoorbell → Run (LocalApic × HvDoorbell)
consume_host_interrupts stores late later apic doorbell =
    if bit_and doorbell.per_vmpl_events 2 == 0
    then done (apic, record doorbell { per_vmpl_events = 0 })
    else (let first = consume_level stores apic doorbell.descriptor.status in
        let flags = first.1 in
        let status = found late flags in
        let many = consume_multiple first.0 doorbell.descriptor flags status later in
        (if multiple_vectors flags
          then many
          else done (consume_single first.0 doorbell.descriptor flags status))
        >>= λ out. done (out.0, record doorbell { per_vmpl_events = 0; descriptor = out.1 }))

-- `new_isr`, one vector of the stack after the other.
unfoldable pub new_isr : List ℕ → List ℕ → List ℕ
new_isr [] isr = isr
new_isr (vector ∷ stack) isr = new_isr stack (insert_vector_register isr vector)

-- The status with the flags for many vectors and for a pending NMI.
unfoldable pub handoff_status : Bool → ℕ → ℕ
handoff_status nmi_pending status =
    if nmi_pending then bit_or (bit_or status (2 ^ 14)) (2 ^ 8) else bit_or status (2 ^ 14)

-- `HVExtIntStatus::new().vector_31().into()`, a field of a status that is 0.
abbrev pub irr_31_mask : ℕ
irr_31_mask = if vector_31 0 then 1 else 0

abbrev tail : List ℕ → List ℕ
tail [] = []
tail (x ∷ xs) = xs

unfoldable pub handoff_to_host : LocalApic → HvDoorbell → LocalApic × HvDoorbell
handoff_to_host apic doorbell =
    let flags = handoff_status apic.nmi_pending doorbell.descriptor.status in
    let irr =
      if leb 31 (pending_vector flags) && not (level_sensitive flags)
      then insert_vector_register apic.irr (pending_vector flags)
      else apic.irr in
    (
      record apic { irr = irr },
      record doorbell {
        descriptor = record {
          status =
              if not (bit_and (get_or irr 0 0) 0x80000000 == 0)
              then bit_or flags irr_31_mask
              else flags;
          irr = or_words doorbell.descriptor.irr (tail irr);
          isr = new_isr (take apic.isr_stack_index apic.isr_stack) no_vectors;
        };
      },
    )
