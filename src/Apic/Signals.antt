-- ===== src/Apic/Signals.antt =====
-- The interrupts that the host signals, a word of them at a time.
use svsm.Base.{
  ℕ, zero, suc, ◌+◌, ◌*◌, ◌/◌, ◌%◌, ◌^◌, ◌≤◌, ◌<◌, ◌≡◌, refl, ◌∙◌, ap, inl, inr, Bool, true, false,
  ◌==◌, ◌&&◌, ◌||◌, none, some, Run, done, bit_and, Bool-cases, Option-cases, arith, ==→≡, ==→≢,
}
use svsm.Bits.{
  test_bit, not_bits, test_bit-clear_bit, bit_and-lt, highest_bit, highest_bit-lt, highest_bit-set,
  highest_bit-above, highest_bit-none,
}
use svsm.Apic.Vectors.Laws.{vector}
use svsm.Apic.State.{LocalApic}
use svsm.Apic.Post.{post_interrupt, signal_loop, signal_several_interrupts}
use svsm.Apic.Inv.{IsValid, post_interrupt_lem}

signal_loop-next :
    (fuel : ℕ) (a : LocalApic) (vector bits i : ℕ)
    → highest_bit 32 bits ≡ some i
    → signal_loop (suc fuel) a vector bits
      ≡ signal_loop fuel
          (post_interrupt a (vector + i) false)
          vector
          (bit_and bits (not_bits 32 (2 ^ i)))
unfolding signal_loop
signal_loop-next fuel a vector bits i e = rw (e, signal_loop) refl

signal_loop-end :
    (fuel : ℕ) (a : LocalApic) (vector bits : ℕ)
    → highest_bit 32 bits ≡ none
    → signal_loop fuel a vector bits ≡ done a
unfolding signal_loop
signal_loop-end zero a vector bits e = rw (e, signal_loop) refl
signal_loop-end (suc fuel) a vector bits e = rw (e, signal_loop) refl

-- `b` is `a`, valid, with the vectors `posted` pending too, of which those in `level` are marked as
-- level sensitive; the vectors that the host may post stay.
pub record Posts (a b : LocalApic) (posted level : ℕ → Bool) : Type 0 where
  pub valid : IsValid b
  pub allowed : b.allowed_irr ≡ a.allowed_irr
  pub pending : (w : ℕ) → vector b.irr w ≡ (posted w || vector a.irr w)
  pub marked : (w : ℕ) → vector b.tmr w ≡ (level w || vector a.tmr w)

-- The vectors of a group whose bit is set in a word.
abbrev pub in_group : ℕ → ℕ → ℕ → Bool
in_group group bits w = w / 32 == group && test_bit bits (w % 32)

abbrev pub nowhere : ℕ → Bool
nowhere w = false

-- What signalling a word returns.
abbrev pub Signalled : LocalApic → ℕ → ℕ → Run LocalApic → Type 0
Signalled a group bits run =
    (b : LocalApic) × (run ≡ done b) × Posts a b (in_group group bits) nowhere

-- Bit `i` and the rest of the bits of a word.
one_and_rest :
    (bits group i w : ℕ)
    → bits < 2 ^ 32
    → i < 32
    → test_bit bits i ≡ true
    → (w / 32 == group && test_bit (bit_and bits (not_bits 32 (2 ^ i))) (w % 32)
        || group * 32 + i == w)
      ≡ (w / 32 == group && test_bit bits (w % 32))
one_and_rest bits group i w lt hi set =
    rw (test_bit-clear_bit 32 bits i (w % 32) lt hi) (elim (Bool-cases (group * 32 + i == w)) [
      | inl e ↦
          let h = ==→≡ (group * 32 + i) w e in
          let at : w % 32 ≡ i = omega arith in
          let same : test_bit bits (w % 32) ≡ true = ap (test_bit bits) at ∙ set in ground arith
      | inr e ↦ ground (arith, ==→≢ (group * 32 + i) w e)
    ])

signal_done :
    (fuel : ℕ) (a : LocalApic) (group bits : ℕ)
    → IsValid a
    → highest_bit 32 bits ≡ none
    → Signalled a group bits (signal_loop fuel a (group * 32) bits)
signal_done fuel a group bits v e = (
  a,
  signal_loop-end fuel a (group * 32) bits e,
  record {
    valid = v;
    allowed = refl;
    pending = λ w. ground (arith, highest_bit-none 32 bits (w % 32) e);
    marked = λ w. refl;
  },
)

-- A loop with as much fuel as the bits that may be set posts each vector whose bit is set.
signal_loop_lem :
    (fuel : ℕ) (a : LocalApic) (group bits : ℕ)
    → IsValid a
    → group < 8
    → bits < 2 ^ 32
    → ((i : ℕ) → fuel ≤ i → i < 32 → test_bit bits i ≡ false)
    → Signalled a group bits (signal_loop fuel a (group * 32) bits)
unfolding post_interrupt
signal_loop_lem zero a group bits v g lt clear = elim (Option-cases (highest_bit 32 bits)) [
  | inl e ↦ signal_done zero a group bits v e
  | inr (i, e) ↦
      absurd (ground (arith, clear i, highest_bit-lt 32 bits i e, highest_bit-set 32 bits i e))
]
signal_loop_lem (suc fuel) a group bits v g lt clear = elim (Option-cases (highest_bit 32 bits)) [
  | inl e ↦ signal_done (suc fuel) a group bits v e
  | inr (i, e) ↦
      let hi = highest_bit-lt 32 bits i e in
      let (posted, pending, level, update) =
        post_interrupt_lem a (group * 32 + i) false v (omega arith) in
      let (b, returns, rest) =
        signal_loop_lem fuel (post_interrupt a (group * 32 + i) false) group
          (bit_and bits (not_bits 32 (2 ^ i))) posted g (bit_and-lt 32 _ _ lt)
          (λ j lo up.
            test_bit-clear_bit 32 bits i j lt hi
            ∙ ground (
              arith,
              clear j,
              clear i,
              highest_bit-set 32 bits i e,
              highest_bit-above 32 bits i j e,
            )) in
      (
        b,
        signal_loop-next fuel a (group * 32) bits i e ∙ returns,
        record {
          valid = rest.valid;
          allowed = rest.allowed;
          pending = λ w.
              rest.pending w
              ∙ ap
                  (λ b.
                    w / 32 == group && test_bit (bit_and bits (not_bits 32 (2 ^ i))) (w % 32) || b)
                  (pending w)
              ∙ ground (arith, one_and_rest bits group i w lt hi (highest_bit-set 32 bits i e));
          marked = λ w. rest.marked w ∙ level w;
        },
      )
]

-- On a valid structure, for a group below 8 and a word of 32 bits, signalling the word ends
-- within 32 rounds, without a panic; it keeps the structure valid and makes pending the vectors of
-- the group whose bit is set, and no others, as edge triggered.
pub signal_several_interrupts_lem :
    (a : LocalApic) (group bits : ℕ)
    → IsValid a
    → group < 8
    → bits < 2 ^ 32
    → Signalled a group bits (signal_several_interrupts a group bits)
unfolding signal_several_interrupts
signal_several_interrupts_lem a group bits v g lt =
    signal_loop_lem 32 a group bits v g lt (λ i lo hi. absurd (omega arith))
