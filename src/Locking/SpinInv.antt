-- ===== src/Locking/SpinInv.antt =====
-- The ticket lock of kernel/src/locking/spinlock.rs: who owns which ticket, step by step.
use svsm.Base.{
  ℕ, suc, ◌+◌, ◌%◌, ◌^◌, ◌≤◌, ◌<◌, ◌≡◌, ◌≢◌, refl, sym, ◌∙◌, ap, subst, true, ◌==◌, Option, none,
  some, ◌⊎◌, inl, inr, Bool-cases, ==→≡, ==→≢, arith,
}
use svsm.Locking.Threads.{place, place_self, place-other}
use svsm.Locking.SpinLock.{RawSpinLock, new, Pc, idle, spin, loaded, trying, critical, System}

-- The ticket of a thread that waits or is inside.
abbrev pub ticket : Pc → Option ℕ
ticket idle = none
ticket (spin t) = some t
ticket (loaded c) = none
ticket (trying c) = none
ticket (critical t) = some t

-- What a thread's place says of the counters.
abbrev pub IsFresh : RawSpinLock → Pc → Type 0
IsFresh l idle = Unit
IsFresh l (spin t) = Unit
IsFresh l (loaded c) = Unit
IsFresh l (trying c) = c ≤ l.holder
IsFresh l (critical t) = t ≡ l.holder

-- Every ticket from the holder's up to `current` has one owner, and no other ticket has any.
pub record Inv (n : ℕ) (s : System) : Type 0 where
  pub few : s.shared.current ≤ n
  pub ordered : s.shared.holder ≤ s.shared.current
  pub range : (i t : ℕ) → ticket (s.pc i) ≡ some t → (s.shared.holder ≤ t) × (t < s.shared.current)
  pub unique : (i j t : ℕ) → ticket (s.pc i) ≡ some t → ticket (s.pc j) ≡ some t → i ≡ j
  pub owner :
      (t : ℕ) → s.shared.holder ≤ t → t < s.shared.current → (i : ℕ) × (ticket (s.pc i) ≡ some t)
  pub fresh : (i : ℕ) → IsFresh s.shared (s.pc i)

pub start-Inv : Inv 0 (record { shared = new; pc = λ i. idle })
start-Inv = record {
  few = omega arith;
  ordered = omega arith;
  range = λ i t h. absurd (ground arith);
  unique = λ i j t h k. absurd (ground arith);
  owner = λ t lo hi. absurd (omega arith);
  fresh = λ i. tt;
}

-- A thread's step, by its place.
abbrev pub StepInv : (n : ℕ) (s : System) (i : ℕ) (l' : RawSpinLock) (p' : Pc) → Type 0
StepInv n s i l' p' = Inv (suc n) (record { shared = l'; pc = place s.pc i p' })

-- A step that keeps the counters and the thread's ticket.
pub quiet :
    (n : ℕ) (s : System) (i : ℕ) (p' : Pc)
    → Inv n s
    → ticket p' ≡ ticket (s.pc i)
    → IsFresh s.shared p'
    → StepInv n s i s.shared p'
quiet n s i p' inv same fresh = record {
  few = omega (arith, inv.few);
  ordered = inv.ordered;
  range = λ j t h. inv.range j t (sym (tickets j) ∙ h);
  unique = λ j k t h h'. inv.unique j k t (sym (tickets j) ∙ h) (sym (tickets k) ∙ h');
  owner = λ t lo hi. let (j, h) = inv.owner t lo hi in (j, tickets j ∙ h);
  fresh = λ j. elim (Bool-cases (i == j)) [ inl e ↦ rw e fresh | inr e ↦ rw e (inv.fresh j) ];
}
  where
    tickets : (j : ℕ) → ticket (place s.pc i p' j) ≡ ticket (s.pc j)
    tickets j = elim (Bool-cases (i == j)) [
      | inl e ↦ rw e (same ∙ ap (λ k. ticket (s.pc k)) (==→≡ i j e))
      | inr e ↦ rw e refl
    ]

IsFresh-same : (l l' : RawSpinLock) (p : Pc) → l'.holder ≡ l.holder → IsFresh l p → IsFresh l' p
IsFresh-same l l' idle e f = tt
IsFresh-same l l' (spin t) e f = tt
IsFresh-same l l' (loaded c) e f = tt
IsFresh-same l l' (trying c) e f = omega arith
IsFresh-same l l' (critical t) e f = omega arith

-- Whose ticket it is after a step of thread `i`.
placed :
    (s : System) (i j : ℕ) (p' : Pc) (t : ℕ)
    → ticket (place s.pc i p' j) ≡ some t
    → ((i ≡ j) × (ticket p' ≡ some t)) ⊎ ((i ≢ j) × (ticket (s.pc j) ≡ some t))
placed s i j p' t h = elim (Bool-cases (i == j)) [
  | inl e ↦ inl (==→≡ i j e, subst (λ p. ticket p ≡ some t) (here e) h)
  | inr e ↦
      inr (==→≢ i j e, subst (λ p. ticket p ≡ some t) (place-other s.pc i j p' (==→≢ i j e)) h)
]
  where
    here : (i == j) ≡ true → place s.pc i p' j ≡ p'
    here e = ground arith

pub some_inj : (a b : ℕ) → ◌≡◌ {A = Option ℕ} (some a) (some b) → a ≡ b
some_inj a b e = cc

-- A thread without a ticket takes the next one.
pub gain :
    (n : ℕ) (s : System) (i : ℕ) (p' : Pc)
    → suc n < 2 ^ 64
    → Inv n s
    → ticket (s.pc i) ≡ none
    → ticket p' ≡ some s.shared.current
    → IsFresh s.shared p'
    → StepInv n s i (record s.shared { current = (s.shared.current + 1) % 2 ^ 64 }) p'
gain n s i p' small inv bare gets fresh = record {
  few = omega (arith, inv.few);
  ordered = omega (arith, inv.few, inv.ordered);
  range = λ j t h. elim (placed s i j p' t h) [
    | inl (e, k) ↦ omega (arith, some_inj _ _ (sym gets ∙ k), inv.few, inv.ordered)
    | inr (ne, k) ↦ omega (arith, inv.range j t k, inv.few)
  ];
  unique = λ j k t h h'. elim (placed s i j p' t h) [
    | inl (e, a) ↦ elim (placed s i k p' t h') [
      | inl (e', b) ↦ omega arith
      | inr (ne, b) ↦ absurd (omega (arith, some_inj _ _ (sym gets ∙ a), inv.range k t b))
    ]
    | inr (ne, a) ↦ elim (placed s i k p' t h') [
      | inl (e', b) ↦ absurd (omega (arith, some_inj _ _ (sym gets ∙ b), inv.range j t a))
      | inr (ne', b) ↦ inv.unique j k t a b
    ]
  ];
  owner = λ t lo hi. elim (Bool-cases (t == s.shared.current)) [
    | inl e ↦ (i, ap ticket (place_self s.pc i p') ∙ gets ∙ ap some (sym (==→≡ t _ e)))
    | inr e ↦
        let (j, h) = inv.owner t lo (ground (arith, inv.few)) in
        (j, ap ticket (place-other s.pc i j p' (other t j h)) ∙ h)
  ];
  fresh = λ j. elim (Bool-cases (i == j)) [
    | inl e ↦ rw e (IsFresh-same s.shared l' p' refl fresh)
    | inr e ↦ rw e (IsFresh-same s.shared l' (s.pc j) refl (inv.fresh j))
  ];
}
  where
    l' : RawSpinLock
    l' = record s.shared { current = (s.shared.current + 1) % 2 ^ 64 }

    clash : (t : ℕ) → ◌≡◌ {A = Option ℕ} none (some t) → ⊥
    clash t e = cc

    other : (t j : ℕ) → ticket (s.pc j) ≡ some t → i ≢ j
    other t j h e = clash t (sym bare ∙ subst (λ j. ticket (s.pc j) ≡ some t) (sym e) h)

-- The thread inside leaves.
pub leave :
    (n : ℕ) (s : System) (i t : ℕ)
    → suc n < 2 ^ 64
    → Inv n s
    → s.pc i ≡ critical t
    → StepInv n s i (record s.shared { holder = (s.shared.holder + 1) % 2 ^ 64 }) idle
leave n s i t small inv at =
    let mine : ticket (s.pc i) ≡ some t = ap ticket at in
    let own : t ≡ s.shared.holder = subst (IsFresh s.shared) at (inv.fresh i) in
    let (lo, hi) = inv.range i t mine in
    record {
      few = omega (arith, inv.few);
      ordered = omega (arith, inv.few, inv.ordered);
      range = λ j u h. elim (placed s i j idle u h) [
        | inl (e, k) ↦ absurd (clash u k)
        | inr (ne, k) ↦ above mine own hi j u ne k
      ];
      unique = λ j k u h h'. elim (placed s i j idle u h) [
        | inl (e, a) ↦ absurd (clash u a)
        | inr (ne, a) ↦ elim (placed s i k idle u h') [
          | inl (e', b) ↦ absurd (clash u b)
          | inr (ne', b) ↦ inv.unique j k u a b
        ]
      ];
      owner = λ u lo' hi'.
          let (j, h) = inv.owner u (omega (arith, inv.few)) hi' in
          (
            j,
            ap ticket (place-other s.pc i j idle (differs mine own u j (omega (arith, inv.few)) h))
                ∙ h,
          );
      fresh = λ j. elim (Bool-cases (i == j)) [
        | inl e ↦ rw e tt
        | inr e ↦ rw e (fresher mine own hi j (==→≢ i j e) (s.pc j) refl (inv.fresh j))
      ];
    }
  where
    clash : (u : ℕ) → ◌≡◌ {A = Option ℕ} none (some u) → ⊥
    clash u e = cc

    above :
        ticket (s.pc i) ≡ some t
        → t ≡ s.shared.holder
        → t < s.shared.current
        → (j u : ℕ) → i ≢ j
        → ticket (s.pc j) ≡ some u
        → ((s.shared.holder + 1) % 2 ^ 64 ≤ u) × (u < s.shared.current)
    above mine own hi j u ne k = elim (Bool-cases (u == t)) [
      | inl e ↦ absurd (ne (inv.unique i j t mine (k ∙ ap some (==→≡ u t e))))
      | inr e ↦ omega (arith, inv.range j u k, inv.few, ==→≢ u t e)
    ]

    differs :
        ticket (s.pc i) ≡ some t
        → t ≡ s.shared.holder
        → (u j : ℕ) → s.shared.holder < u
        → ticket (s.pc j) ≡ some u
        → i ≢ j
    differs mine own u j lt h e =
        omega (arith, some_inj t u (sym mine ∙ subst (λ j. ticket (s.pc j) ≡ some u) (sym e) h))

    fresher :
        ticket (s.pc i) ≡ some t
        → t ≡ s.shared.holder
        → t < s.shared.current
        → (j : ℕ) → i ≢ j
        → (p : Pc) → s.pc j ≡ p
        → IsFresh s.shared (s.pc j)
        → IsFresh (record s.shared { holder = (s.shared.holder + 1) % 2 ^ 64 }) (s.pc j)
    fresher mine own hi j ne idle e f = rw e tt
    fresher mine own hi j ne (spin u) e f = rw e tt
    fresher mine own hi j ne (loaded c) e f = rw e tt
    fresher mine own hi j ne (trying c) e f =
        subst (IsFresh (record s.shared { holder = (s.shared.holder + 1) % 2 ^ 64 })) (sym e)
          (omega (arith, subst (IsFresh s.shared) e f, inv.few))
    fresher mine own hi j ne (critical u) e f = absurd (
        ne (inv.unique i j t mine (ap ticket e ∙ ap some (subst (IsFresh s.shared) e f ∙ sym own))))
