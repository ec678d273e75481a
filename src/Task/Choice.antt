-- ===== src/Task/Choice.antt =====
-- The choice that the scheduler of src/task.c makes from a table of tasks.
use mathlib.Core.Path.{subst}
use native.Mathlib.Decide.{dec_lt}
use native.Mathlib.Nat.{add-mod_right, mod-eq_of_lt, mod-lt}
use meu_so_baremetal.Prelude.{
  ℕ, ◌+◌, ◌-◌, ◌%◌, ◌<◌, ◌≡◌, ◌≢◌, ◌∙◌, ◌⊎◌, inl, inr, refl, sym, ap, true, false, arith,
  if◌then◌else◌, Bool-cases,
}
use meu_so_baremetal.Prelude.Int.{ℤ, pos, negsuc, ◌≤ℤ◌, ◌<ℤ◌}
use meu_so_baremetal.Task.{Task, ready}
use meu_so_baremetal.Task.Schedule.{eq_ℤ, fits, highest_from, next_from, select}
use meu_so_baremetal.Task.Select.{Holder, highest_from-Holder, highest_from-top}
use meu_so_baremetal.Task.Round.{First, next_from-First, next_from-below, next_from-fits}

fits-ready : (h : ℤ) (t : Task) → fits h t ≡ true → t.state ≡ ready
fits-ready h t e = ground arith

fits-priority : (h : ℤ) (t : Task) → fits h t ≡ true → t.priority ≡ h
fits-priority h t e = ground arith

fits_of : (h : ℤ) (t : Task) → t.state ≡ ready → t.priority ≡ h → fits h t ≡ true
fits_of h t e p = ground arith

lower : (h : ℤ) (t : Task) → fits h t ≡ false → t.state ≡ ready → t.priority ≤ℤ h → t.priority <ℤ h
lower h t e r le = ground arith

-- Task `r` of the first `n` is ready and no ready one has a higher priority; `steps` places after
-- the one behind `current`, and the ready ones on the way all have a lower priority.
pub record Chosen (n current : ℕ) (ts : ℕ → Task) (r : ℕ) : Type 0 where
  pub below : r < n
  pub is_ready' : (ts r).state ≡ ready
  pub top : (j : ℕ) → j < n → (ts j).state ≡ ready → (ts j).priority ≤ℤ (ts r).priority
  pub steps : ℕ
  pub lands : r ≡ ((current + 1) % n + steps) % n
  pub fair :
      (i : ℕ)
      → i < steps
      → (ts (((current + 1) % n + i) % n)).state ≡ ready
      → (ts (((current + 1) % n + i) % n)).priority <ℤ (ts r).priority

ring_reach : (n c w : ℕ) → c < n → w < n → (d : ℕ) × (d < n) × ((c + d) % n ≡ w)
ring_reach n c w cn wn = elim (dec_lt w c) [
  | yes lt ↦
      (w + n - c, omega arith, ap (λ x. x % n) (omega arith) ∙ add-mod_right w n ∙ mod-eq_of_lt wn)
  | no ge ↦ (w - c, omega arith, ap (λ x. x % n) (omega arith) ∙ mod-eq_of_lt wn)
]

positive : (h : ℤ) → pos 0 ≤ℤ h → eq_ℤ h (negsuc 0) ≡ false
positive h le = ground arith

Chosen-First :
    (n current : ℕ) (ts : ℕ → Task) (h : ℤ) (r : ℕ)
    → 0 < n
    → ((j : ℕ) → j < n → (ts j).state ≡ ready → (ts j).priority ≤ℤ h)
    → First n ((current + 1) % n) ts h r
    → Chosen n current ts r
Chosen-First n current ts h r pos_n most first =
    let here = sym (fits-priority h (ts r) first.found) in
    let c = (current + 1) % n in
    record {
      below = subst (λ x. x < n) (sym first.lands) (mod-lt (c + first.steps) pos_n);
      is_ready' = fits-ready h (ts r) first.found;
      top = λ j jn e. subst (λ x. (ts j).priority ≤ℤ x) here (most j jn e);
      steps = first.steps;
      lands = first.lands;
      fair = λ i lt e.
          subst (λ x. (ts ((c + i) % n)).priority <ℤ x) here
            (lower h (ts ((c + i) % n)) (first.before i lt) e
              (most ((c + i) % n) (mod-lt (c + i) pos_n) e));
    }

held :
    (n : ℕ) (ts : ℕ → Task) (h : ℤ)
    → pos 0 ≤ℤ h
    → h ≡ highest_from n 0 ts (negsuc 0)
    → Holder n 0 ts (negsuc 0)
held n ts h ge e = elim (highest_from-Holder n 0 ts (negsuc 0)) [
  | inl none_ready ↦ absurd (ground (arith, ge, e, none_ready))
  | inr holder ↦ holder
]

-- If a task that is not below priority 0 is ready, the choice is as `Chosen` says.
pub select-Chosen :
    (n current : ℕ) (ts : ℕ → Task) (j : ℕ)
    → j < n
    → (ts j).state ≡ ready
    → pos 0 ≤ℤ (ts j).priority
    → Chosen n current ts (select n current ts)
unfolding select
select-Chosen n current ts j jn r ge =
    let h = highest_from n 0 ts (negsuc 0) in
    let c = (current + 1) % n in
    let pos_n : 0 < n = omega arith in
    let most : (i : ℕ) → i < n → (ts i).state ≡ ready → (ts i).priority ≤ℤ h =
      λ i lt e. highest_from-top n 0 ts (negsuc 0) i (omega arith) (omega arith) e in
    let high : pos 0 ≤ℤ h = omega (arith, most j jn r) in
    let holder = held n ts h high refl in
    let (d, dn, lands) =
      ring_reach n c holder.at (mod-lt (current + 1) pos_n) (omega (arith, holder.high)) in
    subst (Chosen n current ts)
      (sym (ap (λ b. if b then 0 else next_from n n c ts h) (positive h high)))
      (Chosen-First n current ts h (next_from n n c ts h) pos_n most (
        next_from-First n n c d ts h (mod-lt (current + 1) pos_n) dn
          (ap (λ x. fits h (ts x)) lands ∙ fits_of h (ts holder.at) holder.is_ready' holder.top)))

-- If no task is ready, the choice is task 0.
pub select-idle :
    (n current : ℕ) (ts : ℕ → Task)
    → ((j : ℕ) → j < n → (ts j).state ≢ ready)
    → select n current ts ≡ 0
unfolding select
select-idle n current ts none = elim (highest_from-Holder n 0 ts (negsuc 0)) [
  | inl low ↦ ground (arith, low)
  | inr holder ↦ absurd (none holder.at (omega (arith, holder.high)) holder.is_ready')
]

pub select-below : (n current : ℕ) (ts : ℕ → Task) → 0 < n → select n current ts < n
unfolding select
select-below n current ts pos_n =
    let found =
      next_from-below n n ((current + 1) % n) ts (highest_from n 0 ts (negsuc 0))
        (mod-lt (current + 1) pos_n) in
    ground (arith, found)

-- Only task 0 is ever chosen without being ready.
pub select_ready :
    (n current : ℕ) (ts : ℕ → Task)
    → (select n current ts ≡ 0) ⊎ ((ts (select n current ts)).state ≡ ready)
unfolding select
select_ready n current ts =
    let h = highest_from n 0 ts (negsuc 0) in
    elim (Bool-cases (eq_ℤ h (negsuc 0))) [
      | inl low ↦ inl (ap (λ b. if b then 0 else next_from n n ((current + 1) % n) ts h) low)
      | inr high ↦
          subst (λ r. (r ≡ 0) ⊎ ((ts r).state ≡ ready))
            (sym (ap (λ b. if b then 0 else next_from n n ((current + 1) % n) ts h) high))
            (elim (next_from-fits n n ((current + 1) % n) ts h) [
              | inl none_fits ↦ inl none_fits
              | inr e ↦ inr (fits-ready h (ts (next_from n n ((current + 1) % n) ts h)) e)
            ])
    ]
