-- ===== src/Apic/Ipi.antt =====
-- Inter-processor interrupts to logical destinations.
use svsm.Base.{
  ℕ, ◌/◌, ◌%◌, ◌^◌, ◌≡◌, Bool, true, false, ◌==◌, ◌&&◌, ◌||◌, not, List, [], ◌∷◌, arith,
}
use svsm.Bits.{test_bit, bit_and-two_pow}
use native.Mathlib.Nat.{one-le-pow}
use svsm.Apic.Vectors.Laws.{vector, IsRegister}
use svsm.Apic.State.{PerCpuShared}
use svsm.Apic.Post.{logical_destination_match}

-- A CPU matches a logical destination exactly if its cluster is the upper half of the destination
-- and the bit of its number in the cluster is set in the lower half.
pub logical_destination_match_iff :
    (destination apic_id : ℕ)
    → logical_destination_match destination apic_id
      ≡ (destination / 2 ^ 16 == apic_id / 2 ^ 4 && test_bit destination (apic_id % 16))
unfolding logical_destination_match
logical_destination_match_iff destination apic_id =
    rw (bit_and-two_pow destination (apic_id % 16)) (ground (arith, one-le-pow (apic_id % 16) 2))

-- A CPU after an interrupt was posted to it: an NMI is pending, or the vector is.
abbrev pub Requested : ℕ → PerCpuShared → PerCpuShared → Type 0
Requested icr cpu cpu' =
    (cpu'.apic_id ≡ cpu.apic_id)
    × (cpu'.ipi_pending ≡ true)
    × (cpu'.nmi_pending ≡ (icr / 2 ^ 8 % 8 == 4 || cpu.nmi_pending))
    × ((w : ℕ)
        → vector cpu'.ipi_irr w
          ≡ (not (icr / 2 ^ 8 % 8 == 4) && icr % 2 ^ 8 == w || vector cpu.ipi_irr w))

-- All CPUs, in the same order, after an interrupt was posted to those that are wanted, and whether
-- there is one.
pub data Posted (wanted : ℕ → Bool) (icr : ℕ)
    : List PerCpuShared → List PerCpuShared → Bool → Type 0 where
  none_left : Posted wanted icr [] [] false
  target :
      (cpu cpu' : PerCpuShared) (cpus cpus' : List PerCpuShared) (found : Bool)
      → wanted cpu.apic_id ≡ true
      → Requested icr cpu cpu'
      → Posted wanted icr cpus cpus' found
      → Posted wanted icr (cpu ∷ cpus) (cpu' ∷ cpus') true
  bystander :
      (cpu : PerCpuShared) (cpus cpus' : List PerCpuShared) (found : Bool)
      → wanted cpu.apic_id ≡ false
      → Posted wanted icr cpus cpus' found
      → Posted wanted icr (cpu ∷ cpus) (cpu ∷ cpus') found

-- The vectors of every CPU are eight words.
abbrev pub AllRegisters : List PerCpuShared → Type 0
AllRegisters [] = Unit
AllRegisters (cpu ∷ cpus) = IsRegister cpu.ipi_irr × AllRegisters cpus

-- A logical destination names a CPU: its cluster is the upper half of the destination, and the bit
-- of its number in the cluster is set in the lower half.
abbrev pub named : ℕ → ℕ → Bool
named icr id =
    let destination = icr / 2 ^ 32 % 2 ^ 32 in
    destination / 2 ^ 16 == id / 2 ^ 4 && test_bit destination (id % 16)
