-- ===== src/Apic/Vectors/Laws.antt =====
-- What the vector registers hold after an insertion or a removal, and which vector a scan finds.
use svsm.Base.{
  ℕ, zero, suc, ◌+◌, ◌-◌, ◌*◌, ◌/◌, ◌%◌, ◌^◌, ◌≤◌, ◌<◌, bit_and, bit_or, ◌≡◌, ◌≢◌, refl, sym, ◌∙◌,
  ap, Bool, true, false, not, ◌&&◌, ◌||◌, ltb, ◌==◌, if◌then◌else◌, Option, none, some, List,
  length, get_or, Bool-cases, Option-cases, inl, inr, ◌⊎◌, arith, tests, ==→≡, ==→≢, length-set,
  get_or-set_self, get_or-set_ne, get_or-replicate,
}
use svsm.Base
use svsm.Bits.{
  test_bit, bit_and-two_pow, test_bit-set_bit, test_bit-clear_bit, bit_or-lt, bit_and-lt,
  two_pow-lt, highest_bit, highest_bit-lt, highest_bit-set, highest_bit-above, highest_bit-none,
}
use native.Mathlib.Nat.{one-le-pow}
use svsm.Apic.Vectors.{
  remove_vector_register, insert_vector_register, test_vector_register, scan_words, scan_irr,
}

-- Eight words of 32 bits.
pub record IsRegister (r : List ℕ) : Type 0 where
  pub eight : length r ≡ 8
  pub words : (i : ℕ) → get_or r i 0 < 2 ^ 32

-- Vector `v` of a register.
abbrev pub vector : List ℕ → ℕ → Bool
vector r v = test_bit (get_or r (v / 32) 0) (v % 32)

pub test_vector_register_lem : (r : List ℕ) (v : ℕ) → test_vector_register r v ≡ vector r v
unfolding test_vector_register
test_vector_register_lem r v =
    rw (bit_and-two_pow (get_or r (v / 32) 0) (v % 32)) (ground (arith, one-le-pow (v % 32) 2))

-- Word and bit together determine a vector.
same_vector : (v w : ℕ) → v / 32 ≡ w / 32 → v % 32 ≡ w % 32 → v ≡ w
same_vector v w p q = omega arith

same_row :
    (r : List ℕ) (v w : ℕ) (b : Bool)
    → v / 32 ≡ w / 32
    → (if v % 32 == w % 32 then b else test_bit (get_or r (v / 32) 0) (w % 32))
      ≡ (if v == w then b else vector r w)
same_row r v w b p = elim (Bool-cases (v % 32 == w % 32)) [
  | inl q ↦ ground (arith, same_vector v w p (==→≡ (v % 32) (w % 32) q))
  | inr q ↦
      ap (λ k. if v % 32 == w % 32 then b else test_bit (get_or r k 0) (w % 32)) p ∙ ground arith
]

-- Replacing the word of `v` by one that differs in the bit of `v` only changes vector `v` only.
set_word :
    (r : List ℕ) (v x : ℕ) (b : Bool) (w : ℕ)
    → length r ≡ 8
    → v < 256
    → ((i : ℕ) → test_bit x i ≡ (if v % 32 == i then b else test_bit (get_or r (v / 32) 0) i))
    → vector (Base.set r (v / 32) x) w ≡ (if v == w then b else vector r w)
set_word r v x b w len hv bits = elim (Bool-cases (v / 32 == w / 32)) [
  | inl e ↦
      ap (λ k. test_bit (get_or (Base.set r (v / 32) x) k 0) (w % 32))
        (sym (==→≡ (v / 32) (w / 32) e))
      ∙ ap (λ y. test_bit y (w % 32)) (get_or-set_self r (v / 32) x 0 (omega arith))
      ∙ bits (w % 32)
      ∙ same_row r v w b (==→≡ (v / 32) (w / 32) e)
  | inr e ↦
      ap (λ y. test_bit y (w % 32))
        (get_or-set_ne r (v / 32) (w / 32) x 0 (==→≢ (v / 32) (w / 32) e))
      ∙ ground (arith, ==→≢ (v / 32) (w / 32) e)
]

words_set : (r : List ℕ) (k x : ℕ) → IsRegister r → k < 8 → x < 2 ^ 32 → IsRegister (Base.set r k x)
words_set r k x reg hk hx = record {
  eight = length-set r k x ∙ reg.eight;
  words = λ i. elim (Bool-cases (k == i)) [
    | inl e ↦ rw (sym (==→≡ k i e)) (omega (arith, reg.eight, get_or-set_self r k x 0))
    | inr e ↦ rw (get_or-set_ne r k i x 0 (==→≢ k i e)) (reg.words i)
  ];
}

pub insert_vector_register_lem :
    (r : List ℕ) (v : ℕ)
    → IsRegister r
    → v < 256
    → IsRegister (insert_vector_register r v)
      × ((w : ℕ) → vector (insert_vector_register r v) w ≡ (v == w || vector r w))
unfolding insert_vector_register
insert_vector_register_lem r v reg hv = (
  words_set r (v / 32) _ reg (omega arith)
      (bit_or-lt 32 _ _ (reg.words (v / 32)) (two_pow-lt 32 (v % 32) (omega arith))),
  λ w.
      set_word r v _ true w reg.eight hv
        (λ i. test_bit-set_bit (get_or r (v / 32) 0) (v % 32) i ∙ ground arith)
      ∙ ground arith,
)

pub remove_vector_register_lem :
    (r : List ℕ) (v : ℕ)
    → IsRegister r
    → v < 256
    → IsRegister (remove_vector_register r v)
      × ((w : ℕ) → vector (remove_vector_register r v) w ≡ (not (v == w) && vector r w))
unfolding remove_vector_register
remove_vector_register_lem r v reg hv = (
  words_set r (v / 32) _ reg (omega arith) (bit_and-lt 32 _ _ (reg.words (v / 32))),
  λ w.
      set_word r v _ false w reg.eight hv (λ i.
        test_bit-clear_bit 32 (get_or r (v / 32) 0) (v % 32) i (reg.words (v / 32)) (omega arith)
        ∙ ground arith)
      ∙ ground arith,
)

-- What a scan of the words below `n` promises of its result `s`.
Scanned : List ℕ → ℕ → ℕ → Type 0
Scanned r n s =
    (s < n * 32 ⊎ s ≡ 0)
    × (s ≢ 0 → vector r s ≡ true)
    × ((w : ℕ) → w < n * 32 → s < w → vector r w ≡ false)

found :
    (r : List ℕ) (n i : ℕ) → highest_bit 32 (get_or r n 0) ≡ some i → Scanned r (suc n) (n * 32 + i)
unfolding Scanned
found r n i e =
    let lt : i < 32 = highest_bit-lt 32 (get_or r n 0) i e in
    (
      inl (omega arith),
      λ h.
          ap (λ k. test_bit (get_or r k 0) ((n * 32 + i) % 32)) (omega arith)
          ∙ ap (λ k. test_bit (get_or r n 0) k) (omega arith)
          ∙ highest_bit-set 32 (get_or r n 0) i e,
      λ w hi lo.
          ap (λ k. test_bit (get_or r k 0) (w % 32)) (omega arith)
          ∙ highest_bit-above 32 (get_or r n 0) i (w % 32) e (omega arith) (omega arith),
    )

skipped :
    (r : List ℕ) (n s : ℕ)
    → highest_bit 32 (get_or r n 0) ≡ none
    → Scanned r n s
    → Scanned r (suc n) s
unfolding Scanned
skipped r n s e (lt, isset, above) = (
  elim lt [ inl p ↦ inl (omega arith) | inr p ↦ inr p ],
  isset,
  λ w hi lo. elim (Bool-cases (w / 32 == n)) [
    | inl p ↦
        ap (λ k. test_bit (get_or r k 0) (w % 32)) (==→≡ (w / 32) n p)
        ∙ highest_bit-none 32 (get_or r n 0) (w % 32) e (omega arith)
    | inr p ↦ above w (omega (arith, ==→≢ (w / 32) n p)) lo
  ],
)

nothing : (r : List ℕ) → Scanned r 0 (scan_words 0 r)
unfolding scan_words Scanned
nothing r = (inr refl, (λ h. absurd (h refl)), λ w lt. absurd (omega arith))

scan_words-found :
    (r : List ℕ) (n i : ℕ)
    → highest_bit 32 (get_or r n 0) ≡ some i
    → scan_words (suc n) r ≡ n * 32 + i
unfolding scan_words
scan_words-found r n i e = rw (e, scan_words) refl

scan_words-skipped :
    (r : List ℕ) (n : ℕ)
    → highest_bit 32 (get_or r n 0) ≡ none
    → scan_words (suc n) r ≡ scan_words n r
unfolding scan_words
scan_words-skipped r n e = ground arith

scan_words-Scanned : (r : List ℕ) (n : ℕ) → Scanned r n (scan_words n r)
scan_words-Scanned r zero = nothing r
scan_words-Scanned r (suc n) = elim (Option-cases (highest_bit 32 (get_or r n 0))) [
  | inl e ↦ rw (scan_words-skipped r n e) (skipped r n (scan_words n r) e (scan_words-Scanned r n))
  | inr (i, e) ↦ rw (scan_words-found r n i e) (found r n i e)
]

-- A scan of a register of eight words of 32 bits finds the highest vector above 0 that is set,
-- and 0 if there is none.
pub scan_irr-highest :
    (r : List ℕ)
    → IsRegister r
    → (scan_irr r < 256)
      × (scan_irr r ≢ 0 → vector r (scan_irr r) ≡ true)
      × ((w : ℕ) → w < 256 → scan_irr r < w → vector r w ≡ false)
unfolding scan_irr Scanned
scan_irr-highest r reg =
    let (lt, isset, above) = scan_words-Scanned r 8 in
    (elim lt [ inl p ↦ omega arith | inr p ↦ omega arith ], isset, above)
