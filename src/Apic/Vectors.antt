-- ===== src/Apic/Vectors.antt =====
-- The registers of 256 bits, `[u32; 8]`: one bit for each vector.
pub mod Laws
use svsm.Base.{
  ℕ, zero, suc, ◌+◌, ◌*◌, ◌/◌, ◌%◌, ◌^◌, bit_and, bit_or, Bool, true, false, not, ◌==◌, Option,
  none, some, List, get_or, replicate,
}
use svsm.Base
use svsm.Bits.{not_bits, highest_bit}

abbrev pub no_vectors : List ℕ
no_vectors = replicate 8 0

unfoldable pub remove_vector_register : List ℕ → ℕ → List ℕ
remove_vector_register register irq =
    Base.set register (irq / 32)
      (bit_and (get_or register (irq / 32) 0) (not_bits 32 (2 ^ (irq % 32))))

unfoldable pub insert_vector_register : List ℕ → ℕ → List ℕ
insert_vector_register register irq =
    Base.set register (irq / 32) (bit_or (get_or register (irq / 32) 0) (2 ^ (irq % 32)))

unfoldable pub test_vector_register : List ℕ → ℕ → Bool
test_vector_register register irq =
    not (bit_and (get_or register (irq / 32) 0) (2 ^ (irq % 32)) == 0)

-- The words below index `i`, highest first: the highest vector that is set, or 0.
unfoldable pub scan_words : ℕ → List ℕ → ℕ
scan_words zero register = 0
scan_words (suc i) register = elim (highest_bit 32 (get_or register i 0)) [
  | none ↦ scan_words i register
  | some bit_index ↦ i * 32 + bit_index
]

-- `scan_irr`; `31 - irr.leading_zeros()` is the index of the highest bit of a word that is not 0.
unfoldable pub scan_irr : List ℕ → ℕ
unfolding scan_words
scan_irr irr = scan_words 8 irr
