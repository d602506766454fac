-- ===== src/Apic/State.antt =====
-- The structures: `LocalApic`, the ICR bit field, the part of `PerCpuShared` that carries
-- inter-processor interrupts (kernel/src/cpu/percpu.rs), the calling area, and the guest CPU behind
-- the trait `GuestCpuState` (kernel/src/platform/guest_cpu.rs).
use svsm.Base.{
  ℕ, ◌/◌, ◌%◌, ◌^◌, ◌==◌, bit_or, if◌then◌else◌, Bool, true, false, Option, List, get_or, replicate,
}
use svsm.Base
use svsm.Apic.Vectors.{no_vectors}

pub data IcrDestFmt : Type 0 where
  dest : IcrDestFmt
  only_self : IcrDestFmt
  all_with_self : IcrDestFmt
  all_but_self : IcrDestFmt

pub data IcrMessageType : Type 0 where
  fixed : IcrMessageType
  unknown : IcrMessageType
  nmi : IcrMessageType
  init : IcrMessageType
  sipi : IcrMessageType
  ext_int : IcrMessageType

unfoldable pub dest_fmt_from_bits : ℕ → IcrDestFmt
dest_fmt_from_bits n =
    if n == 3
    then all_but_self
    else (if n == 2 then all_with_self else (if n == 1 then only_self else dest))

unfoldable pub message_type_from_bits : ℕ → IcrMessageType
message_type_from_bits n =
    if n == 7
    then ext_int
    else (if n == 6
        then sipi
        else (if n == 5
            then init
            else (if n == 4 then nmi else (if n == 0 then fixed else unknown))))

-- The ICR is its 64 bits, and each field of the bit field is read off them.
abbrev pub icr_vector : ℕ → ℕ
icr_vector icr = icr % 2 ^ 8

abbrev pub icr_message_type : ℕ → IcrMessageType
icr_message_type icr = message_type_from_bits (icr / 2 ^ 8 % 8)

abbrev pub icr_destination_mode : ℕ → Bool
icr_destination_mode icr = icr / 2 ^ 11 % 2 == 1

abbrev pub icr_destination_shorthand : ℕ → IcrDestFmt
icr_destination_shorthand icr = dest_fmt_from_bits (icr / 2 ^ 18 % 4)

abbrev pub icr_destination : ℕ → ℕ
icr_destination icr = icr / 2 ^ 32 % 2 ^ 32

pub record LocalApic : Type 0 where
  pub icr : ℕ
  pub irr : List ℕ
  pub allowed_irr : List ℕ
  pub isr_stack_index : ℕ
  pub isr_stack : List ℕ
  pub tmr : List ℕ
  pub host_tmr : List ℕ
  pub update_required : Bool
  pub interrupt_delivered : Bool
  pub interrupt_queued : Bool
  pub lazy_eoi_pending : Bool
  pub nmi_pending : Bool

abbrev pub new : LocalApic
new = record {
  icr = 0;
  irr = no_vectors;
  allowed_irr = no_vectors;
  isr_stack_index = 0;
  isr_stack = replicate 16 0;
  tmr = no_vectors;
  host_tmr = no_vectors;
  update_required = false;
  interrupt_delivered = false;
  interrupt_queued = false;
  lazy_eoi_pending = false;
  nmi_pending = false;
}

pub record PerCpuShared : Type 0 where
  pub apic_id : ℕ
  pub ipi_irr : List ℕ
  pub ipi_pending : Bool
  pub nmi_pending : Bool

unfoldable pub request_ipi : PerCpuShared → ℕ → PerCpuShared
request_ipi cpu vector = record cpu {
  ipi_irr =
      Base.set cpu.ipi_irr (vector / 32)
        (bit_or (get_or cpu.ipi_irr (vector / 32) 0) (2 ^ (vector % 32)));
  ipi_pending = true;
}

unfoldable pub request_nmi : PerCpuShared → PerCpuShared
request_nmi cpu = record cpu { nmi_pending = true; ipi_pending = true }

-- The guest's calling area: whether its page can be read and written, and its flag.
pub record SvsmCaa : Type 0 where
  pub readable : Bool
  pub writable : Bool
  pub no_eoi_required : ℕ

unfoldable pub update_no_eoi_required : SvsmCaa → ℕ → SvsmCaa
update_no_eoi_required caa no_eoi_required = record caa { no_eoi_required = no_eoi_required }

-- The guest CPU, whose registers the platform keeps.
pub record GuestCpuState (C : Type 0) : Type 0 where
  pub get_tpr : C → ℕ
  pub set_tpr : C → ℕ → C
  pub request_nmi : C → C
  pub queue_interrupt : C → ℕ → C
  pub try_deliver_interrupt_immediately : C → ℕ → C × Bool
  pub in_intr_shadow : C → Bool
  pub interrupts_enabled : C → Bool
  pub check_and_clear_pending_nmi : C → C × Bool
  pub check_and_clear_pending_interrupt_event : C → C × ℕ
  pub check_and_clear_pending_virtual_interrupt : C → C × ℕ
  pub disable_alternate_injection : C → C

-- The emulated APIC with what its methods act on: the guest CPU, the calling area, the areas of all
-- CPUs and the calls to the host (the vectors of specific EOIs and the ICR values, latest first).
pub record Machine (C : Type 0) : Type 0 where
  pub apic : LocalApic
  pub cpu : C
  pub caa : Option SvsmCaa
  pub areas : List PerCpuShared
  pub host_eois : List ℕ
  pub host_irqs : List ℕ
