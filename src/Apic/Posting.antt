-- ===== src/Apic/Posting.antt =====
-- Posting the host's interrupts, alone and by words: which vectors become pending.
use svsm.Base.{
  ℕ, suc, inl, inr, ◌+◌, ◌-◌, ◌≤◌, ◌<◌, ◌≡◌, ◌^◌, ◌∙◌, refl, sym, ap, Bool, true, false, ◌==◌, ◌&&◌,
  ◌||◌, not, leb, List, [], ◌∷◌, length, get_or, bit_and, Bool-cases, arith, ==→≡, ==→≢, done, ◌%◌,
  ◌/◌, tests,
}
use native.Mathlib.Nat.{one-le-pow}
use svsm.Bits.{test_bit, test_bit-bit_and, test_bit-zero, bit_and-two_pow, bit_and-lt}
use svsm.Apic.Vectors.Laws.{vector, insert_vector_register_lem}
use svsm.Apic.State.{LocalApic}
use svsm.Apic.Post.{post_interrupt, signal_one_host_interrupt}
use svsm.Apic.Host.{signal_level, consume_groups}
use svsm.Apic.Inv.{IsValid, post_interrupt_lem}
use svsm.Apic.Signals.{Posts, in_group, nowhere, signal_several_interrupts_lem}

-- The host may post vector `w`.
abbrev pub allows : LocalApic → ℕ → Bool
allows a = vector a.allowed_irr

pub Posts-none : (a : LocalApic) → IsValid a → Posts a a nowhere nowhere
Posts-none a v = record { valid = v; allowed = refl; pending = λ w. refl; marked = λ w. refl }

-- One post after the other,
pub Posts-then :
    (a b c : LocalApic) (p q l k : ℕ → Bool)
    → Posts a b p l
    → Posts b c q k
    → Posts a c (λ w. q w || p w) (λ w. k w || l w)
Posts-then a b c p q l k x y = record {
  valid = y.valid;
  allowed = y.allowed ∙ x.allowed;
  pending = λ w. y.pending w ∙ ground (arith, x.pending w);
  marked = λ w. y.marked w ∙ ground (arith, x.marked w);
}

-- and the same vectors described otherwise.
pub Posts-as :
    (a b : LocalApic) (p q l k : ℕ → Bool)
    → ((w : ℕ) → p w ≡ q w)
    → ((w : ℕ) → l w ≡ k w)
    → Posts a b p l
    → Posts a b q k
Posts-as a b p q l k same same' x = record {
  valid = x.valid;
  allowed = x.allowed;
  pending = λ w. x.pending w ∙ ap (λ t. t || vector a.irr w) (same w);
  marked = λ w. x.marked w ∙ ap (λ t. t || vector a.tmr w) (same' w);
}

-- A single vector, if the host may post it.
abbrev pub only : LocalApic → ℕ → ℕ → Bool
only a v w = v == w && allows a w

allows_test :
    (a : LocalApic) (v : ℕ)
    → not (bit_and (get_or a.allowed_irr (v / 32) 0) (2 ^ (v % 32)) == 0) ≡ allows a v
allows_test a v =
    rw (bit_and-two_pow (get_or a.allowed_irr (v / 32) 0) (v % 32))
      (ground (arith, one-le-pow (v % 32) 2))

only_allowed : (a : LocalApic) (v w : ℕ) (b : Bool) → allows a v ≡ b → only a v w ≡ (b && v == w)
only_allowed a v w b e = elim (Bool-cases (v == w)) [
  | inl s ↦ ground (arith, ap (allows a) (sym (==→≡ v w s)) ∙ e)
  | inr s ↦ ground arith
]

pub one_lem :
    (a : LocalApic) (v : ℕ) (level : Bool)
    → IsValid a
    → v < 256
    → Posts a (signal_one_host_interrupt a v level).0 (only a v) (λ w. level && only a v w)
unfolding signal_one_host_interrupt post_interrupt
one_lem a v level valid lt = elim (Bool-cases (allows a v)) [
  | inl e ↦
      let (posted, pending, tmr, update) = post_interrupt_lem a v level valid lt in
      rw (allows_test a v, e)
        (record {
          valid = posted;
          allowed = refl;
          pending = λ w. pending w ∙ ground (arith, only_allowed a v w true e);
          marked = λ w. tmr w ∙ ground (arith, only_allowed a v w true e);
        })
  | inr e ↦
      rw (allows_test a v, e)
        (Posts-as a a nowhere (only a v) nowhere (λ w. level && only a v w)
          (λ w. sym (only_allowed a v w false e)) (λ w. ground (arith, only_allowed a v w false e))
          (Posts-none a valid))
]

pub level_lem :
    (a : LocalApic) (v : ℕ) → IsValid a → v < 256 → Posts a (signal_level a v) (only a v) (only a v)
unfolding signal_level
level_lem a v valid lt =
    let x = one_lem a v true valid lt in
    elim (Bool-cases (signal_one_host_interrupt a v true).1) [
      | inl e ↦ rw e (record {
        valid = record {
          irr = x.valid.irr;
          allowed_irr = x.valid.allowed_irr;
          tmr = x.valid.tmr;
          host_tmr = (insert_vector_register_lem _ v x.valid.host_tmr lt).0;
          stack = x.valid.stack;
        };
        allowed = x.allowed;
        pending = x.pending;
        marked = x.marked;
      })
      | inr e ↦ rw e x
    ]

-- The vectors of the groups from `i` on that the words have and the host may post.
abbrev pub in_words : LocalApic → ℕ → List ℕ → ℕ → Bool
in_words a i words w =
    leb i (w / 32) && test_bit (get_or words (w / 32 - i) 0) (w % 32) && allows a w

-- The words of the first group and of the others.
words_lem :
    (a : LocalApic) (i bits : ℕ) (rest : List ℕ) (w : ℕ)
    → (in_words a (i + 1) rest w || in_group i (bit_and bits (get_or a.allowed_irr i 0)) w)
      ≡ in_words a i (bits ∷ rest) w
words_lem a i bits rest w = elim (Bool-cases (w / 32 == i)) [
  | inl e ↦
      let here = ==→≡ (w / 32) i e in
      let first : w / 32 - i ≡ 0 = omega (arith, here) in
      let word : get_or (bits ∷ rest) (w / 32 - i) 0 ≡ bits =
        ap (λ k. get_or (bits ∷ rest) k 0) first in
      let mine : test_bit (get_or a.allowed_irr i 0) (w % 32) ≡ allows a w =
        ap (λ k. test_bit (get_or a.allowed_irr k 0) (w % 32)) (sym here) in
      rw (word, test_bit-bit_and bits (get_or a.allowed_irr i 0) (w % 32), mine)
        (ground (arith, here))
  | inr e ↦ elim (Bool-cases (leb i (w / 32))) [
    | inl le ↦
        let behind : w / 32 - i ≡ suc (w / 32 - (i + 1)) =
          omega (arith, ==→≢ (w / 32) i e, tests, le) in
        let word : get_or (bits ∷ rest) (w / 32 - i) 0 ≡ get_or rest (w / 32 - (i + 1)) 0 =
          ap (λ k. get_or (bits ∷ rest) k 0) behind in
        rw word (ground (arith, ==→≢ (w / 32) i e))
    | inr lt ↦ ground (arith, ==→≢ (w / 32) i e)
  ]
]

pub groups_lem :
    (i : ℕ) (words : List ℕ) (a : LocalApic)
    → IsValid a
    → i + length words ≤ 8
    → ((k : ℕ) → get_or words k 0 < 2 ^ 32)
    → (b : LocalApic) × (consume_groups i words a ≡ done b) × Posts a b (in_words a i words) nowhere
unfolding consume_groups
groups_lem i [] a v fits small = (
  a,
  refl,
  Posts-as a a nowhere (in_words a i []) nowhere nowhere
      (λ w. ground (arith, test_bit-zero (w % 32))) (λ w. refl) (Posts-none a v),
)
groups_lem i (bits ∷ rest) a v fits small =
    let (n, signals, x) =
      signal_several_interrupts_lem a i (bit_and bits (get_or a.allowed_irr i 0)) v (omega arith)
        (bit_and-lt 32 bits _ (small 0)) in
    let (b, runs, y) = groups_lem (i + 1) rest n x.valid (omega arith) (λ k. small (suc k)) in
    (
      b,
      rw signals runs,
      Posts-as a b
          (λ w. in_words n (i + 1) rest w || in_group i (bit_and bits (get_or a.allowed_irr i 0)) w)
          (in_words a i (bits ∷ rest)) (λ w. false || false) nowhere
          (λ w.
            ap
              (λ r.
                leb (i + 1) (w / 32)
                  && test_bit (get_or rest (w / 32 - (i + 1)) 0) (w % 32)
                  && vector r w
                || in_group i (bit_and bits (get_or a.allowed_irr i 0)) w)
              x.allowed
            ∙ words_lem a i bits rest w)
          (λ w. refl)
          (Posts-then a n b (in_group i (bit_and bits (get_or a.allowed_irr i 0)))
            (in_words n (i + 1) rest) nowhere nowhere x y),
    )
