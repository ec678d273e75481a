-- ===== src/Task/Select.antt =====
-- The highest priority that the scheduler of src/task.c finds.
use mathlib.Core.Path.{subst}
use native.Mathlib.Decide.{ℕ_discrete}
use meu_so_baremetal.Prelude.{
  ℕ, zero, suc, ◌+◌, ◌≤◌, ◌<◌, ◌≡◌, ◌∙◌, ◌⊎◌, inl, inr, refl, sym, ap, arith,
}
use meu_so_baremetal.Prelude.Int.{ℤ, ◌≤ℤ◌}
use meu_so_baremetal.Task.{Task, ready}
use meu_so_baremetal.Task.Schedule.{raise, highest_from}

raise-le : (h : ℤ) (t : Task) → h ≤ℤ raise h t
raise-le h t = ground arith

raise-ready : (h : ℤ) (t : Task) → t.state ≡ ready → t.priority ≤ℤ raise h t
raise-ready h t e = ground arith

-- The start value stays, or a ready task has raised it.
raise-cases : (h : ℤ) (t : Task) → (raise h t ≡ h) ⊎ ((t.state ≡ ready) × (raise h t ≡ t.priority))
raise-cases h t = ground arith

highest_from-le : (k i : ℕ) (ts : ℕ → Task) (h : ℤ) → h ≤ℤ highest_from k i ts h
unfolding highest_from
highest_from-le zero i ts h = omega arith
highest_from-le (suc k) i ts h =
    omega (arith, raise-le h (ts i), highest_from-le k (suc i) ts (raise h (ts i)))

-- No ready task among those looked at has a higher priority.
pub highest_from-top :
    (k i : ℕ) (ts : ℕ → Task) (h : ℤ) (j : ℕ)
    → i ≤ j
    → j < i + k
    → (ts j).state ≡ ready
    → (ts j).priority ≤ℤ highest_from k i ts h
unfolding highest_from
highest_from-top zero i ts h j le lt e = absurd (omega arith)
highest_from-top (suc k) i ts h j le lt e = elim (ℕ_discrete i j) [
  | yes same ↦
      subst (λ x. (ts x).priority ≤ℤ highest_from k (suc i) ts (raise h (ts i))) same
        (omega (
          arith,
          raise-ready h (ts i) (ap (λ x. (ts x).state) same ∙ e),
          highest_from-le k (suc i) ts (raise h (ts i)),
        ))
  | no ne ↦ highest_from-top k (suc i) ts (raise h (ts i)) j (omega arith) (omega arith) e
]

-- The highest priority is the start value or that of a ready task.
pub record Holder (k i : ℕ) (ts : ℕ → Task) (h : ℤ) : Type 0 where
  pub at : ℕ
  pub low : i ≤ at
  pub high : at < i + k
  pub is_ready' : (ts at).state ≡ ready
  pub top : (ts at).priority ≡ highest_from k i ts h

pub highest_from-Holder :
    (k i : ℕ) (ts : ℕ → Task) (h : ℤ) → (highest_from k i ts h ≡ h) ⊎ Holder k i ts h
unfolding highest_from
highest_from-Holder zero i ts h = inl refl
highest_from-Holder (suc k) i ts h = elim (highest_from-Holder k (suc i) ts (raise h (ts i))) [
  | inl e ↦ elim (raise-cases h (ts i)) [
    | inl same ↦ inl (e ∙ same)
    | inr (r, p) ↦ inr (record {
      at = i;
      low = omega arith;
      high = omega arith;
      is_ready' = r;
      top = sym p ∙ sym e;
    })
  ]
  | inr held ↦ inr (record {
    at = held.at;
    low = omega (arith, held.low);
    high = omega (arith, held.high);
    is_ready' = held.is_ready';
    top = held.top;
  })
]
