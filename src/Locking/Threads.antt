-- ===== src/Locking/Threads.antt =====
-- Threads by number: the one that takes a step gets a new place in its code, the others keep theirs.
use svsm.Base.{
  ℕ, zero, suc, ◌+◌, ◌≤◌, ◌<◌, ◌≡◌, ◌≢◌, refl, sym, subst, inl, inr, Bool, true, ◌==◌,
  if◌then◌else◌, Bool-cases, ==→≡, ==→≢, arith,
}

module _ {ℓ} {A : Type ℓ} where
  abbrev pub place : (ℕ → A) → ℕ → A → ℕ → A
  place pc i a j = if i == j then a else pc j

  pub place_self : (pc : ℕ → A) (i : ℕ) (a : A) → place pc i a i ≡ a
  place_self pc i a = ground arith

  pub place-other : (pc : ℕ → A) (i j : ℕ) (a : A) → i ≢ j → place pc i a j ≡ pc j
  place-other pc i j a ne = ground arith

  -- How many of the first `n` threads are at such a place.
  unfoldable pub count : (A → Bool) → ℕ → (ℕ → A) → ℕ
  count f zero pc = 0
  count f (suc n) pc = count f n pc + (if f (pc n) then 1 else 0)

  count-beyond :
      (f : A → Bool) (n : ℕ) (pc : ℕ → A) (i : ℕ) (a : A)
      → n ≤ i
      → count f n (place pc i a) ≡ count f n pc
  unfolding count
  count-beyond f zero pc i a h = refl
  count-beyond f (suc n) pc i a h =
      rw (place-other pc i n a (omega arith), count-beyond f n pc i a (omega arith)) refl

  pub count-place :
      (f : A → Bool) (n : ℕ) (pc : ℕ → A) (i : ℕ) (a : A)
      → i < n
      → count f n (place pc i a) + (if f (pc i) then 1 else 0)
        ≡ count f n pc + (if f a then 1 else 0)
  unfolding count
  count-place f zero pc i a h = absurd (omega arith)
  count-place f (suc n) pc i a h = elim (Bool-cases (i == n)) [
    | inl e ↦
        subst
          (λ i.
            count f n (place pc i a)
              + (if f (place pc i a n) then 1 else 0)
              + (if f (pc i) then 1 else 0)
            ≡ count f n pc + (if f (pc n) then 1 else 0) + (if f a then 1 else 0))
          (sym (==→≡ i n e))
          (rw (place_self pc n a, count-beyond f n pc n a (omega arith)) (omega arith))
    | inr e ↦
        rw (place-other pc i n a (==→≢ i n e))
          (omega (arith, count-place f n pc i a (ground arith)))
  ]

  pub count-pos :
      (f : A → Bool) (n : ℕ) (pc : ℕ → A) (i : ℕ) → i < n → f (pc i) ≡ true → 1 ≤ count f n pc
  unfolding count
  count-pos f zero pc i h e = absurd (omega arith)
  count-pos f (suc n) pc i h e = elim (Bool-cases (i == n)) [
    | inl s ↦
        let here : f (pc n) ≡ true = subst (λ k. f (pc k) ≡ true) (==→≡ i n s) e in
        rw here (omega arith)
    | inr s ↦ omega (arith, count-pos f n pc i (ground arith) e)
  ]

  pub count-le : (f : A → Bool) (n : ℕ) (pc : ℕ → A) → count f n pc ≤ n
  unfolding count
  count-le f zero pc = omega arith
  count-le f (suc n) pc = ground (arith, count-le f n pc)
