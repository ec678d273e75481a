-- ===== src/Task/Round.antt =====
-- The round of the scheduler that looks for a task of the chosen priority.
use mathlib.Core.Path.{subst}
use native.Mathlib.Nat.{mod-add-mod, mod-eq_of_lt, mod-lt}
use meu_so_baremetal.Prelude.{
  ℕ, zero, suc, ◌+◌, ◌%◌, ◌<◌, ◌≡◌, ◌∙◌, ◌⊎◌, inl, inr, refl, sym, ap, true, false, arith,
  if◌then◌else◌, Bool-cases,
}
use meu_so_baremetal.Prelude.Int.{ℤ}
use meu_so_baremetal.Task.{Task}
use meu_so_baremetal.Task.Schedule.{fits, next_from}

-- From place `c` on, `r` is the first of `n` places in a ring whose task fits.
pub record First (n c : ℕ) (ts : ℕ → Task) (h : ℤ) (r : ℕ) : Type 0 where
  pub steps : ℕ
  pub lands : r ≡ (c + steps) % n
  pub found : fits h (ts r) ≡ true
  pub before : (i : ℕ) → i < steps → fits h (ts ((c + i) % n)) ≡ false

ring_step : (n c d : ℕ) → ((c + 1) % n + d) % n ≡ (c + suc d) % n
ring_step n c d = mod-add-mod (c + 1) n d ∙ ap (λ x. x % n) (omega arith)

ring_here : (n c : ℕ) → c < n → (c + 0) % n ≡ c
ring_here n c lt = ap (λ x. x % n) (omega arith) ∙ mod-eq_of_lt lt

First-here : (n c : ℕ) (ts : ℕ → Task) (h : ℤ) → c < n → fits h (ts c) ≡ true → First n c ts h c
First-here n c ts h lt e = record {
  steps = 0;
  lands = sym (ring_here n c lt);
  found = e;
  before = λ i lt. absurd (omega arith);
}

First-next :
    (n c : ℕ) (ts : ℕ → Task) (h : ℤ) (r : ℕ)
    → c < n
    → fits h (ts c) ≡ false
    → First n ((c + 1) % n) ts h r
    → First n c ts h r
First-next n c ts h r lt e next = record {
  steps = suc next.steps;
  lands = next.lands ∙ ring_step n c next.steps;
  found = next.found;
  before = go;
}
  where
    go : (i : ℕ) → i < suc next.steps → fits h (ts ((c + i) % n)) ≡ false
    go zero below = ap (λ x. fits h (ts x)) (ring_here n c lt) ∙ e
    go (suc i) below = ap (λ x. fits h (ts x)) (sym (ring_step n c i)) ∙ next.before i (omega arith)

-- If a place at distance `d` fits, `d` rounds and one more find the first such place.
pub next_from-First :
    (k n c d : ℕ) (ts : ℕ → Task) (h : ℤ)
    → c < n
    → d < k
    → fits h (ts ((c + d) % n)) ≡ true
    → First n c ts h (next_from k n c ts h)
unfolding next_from
next_from-First zero n c d ts h cn dk e = absurd (omega arith)
next_from-First (suc k) n c zero ts h cn dk e =
    let rest = next_from k n ((c + 1) % n) ts h in
    let here = ap (λ x. fits h (ts x)) (sym (ring_here n c cn)) ∙ e in
    subst (First n c ts h) (sym (ap (λ b. if b then c else rest) here))
      (First-here n c ts h cn here)
next_from-First (suc k) n c (suc d) ts h cn dk e =
    let rest = next_from k n ((c + 1) % n) ts h in
    let later =
      next_from-First k n ((c + 1) % n) d ts h (mod-lt (c + 1) (omega arith)) (omega arith)
        (ap (λ x. fits h (ts x)) (ring_step n c d) ∙ e) in
    elim (Bool-cases (fits h (ts c))) [
      | inl here ↦
          subst (First n c ts h) (sym (ap (λ b. if b then c else rest) here))
            (First-here n c ts h cn here)
      | inr away ↦
          subst (First n c ts h) (sym (ap (λ b. if b then c else rest) away))
            (First-next n c ts h rest cn away later)
    ]

pub next_from-below : (k n c : ℕ) (ts : ℕ → Task) (h : ℤ) → c < n → next_from k n c ts h < n
unfolding next_from
next_from-below zero n c ts h lt = omega arith
next_from-below (suc k) n c ts h lt =
    let rest = next_from-below k n ((c + 1) % n) ts h (mod-lt (c + 1) (omega arith)) in
    ground (arith, rest)

-- The round ends at a task that fits, or with 0.
pub next_from-fits :
    (k n c : ℕ) (ts : ℕ → Task) (h : ℤ)
    → (next_from k n c ts h ≡ 0) ⊎ (fits h (ts (next_from k n c ts h)) ≡ true)
unfolding next_from
next_from-fits zero n c ts h = inl refl
next_from-fits (suc k) n c ts h =
    let rest = next_from k n ((c + 1) % n) ts h in
    elim (Bool-cases (fits h (ts c))) [
      | inl here ↦
          inr (subst (λ r. fits h (ts r) ≡ true) (sym (ap (λ b. if b then c else rest) here)) here)
      | inr away ↦
          subst (λ r. (r ≡ 0) ⊎ (fits h (ts r) ≡ true)) (sym (ap (λ b. if b then c else rest) away))
            (next_from-fits k n ((c + 1) % n) ts h)
    ]
