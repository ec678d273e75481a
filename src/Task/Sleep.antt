-- ===== src/Task/Sleep.antt =====
-- Sleeping tasks of src/task.c under `schedule`.
use meu_so_baremetal.Task.Calls.{
  goes_on, continued_lem, schedule-continued, launched, schedule-launched,
}
use meu_so_baremetal.Task.Invariant.{schedule-IsValid}
use mathlib.Core.Path.{subst}
use native.Mathlib.Nat.{mod-eq_of_lt}
use meu_so_baremetal.Prelude.{
  ℕ, ◌+◌, ◌≤◌, ◌<◌, ◌≡◌, ◌≢◌, ◌⊎◌, ◌==◌, ◌∙◌, inl, inr, sym, ap, ◌∷◌, arith, Bool-cases, List, [],
  length,
}
use meu_so_baremetal.Task.{sleeping, ready, running, Kernel, u64_mod}
use meu_so_baremetal.Task.Schedule.{tick, select, schedule}
use meu_so_baremetal.Task.Choice.{select_ready}
use meu_so_baremetal.Task.Switch.{IsValid, now, table, table_lem}

-- The state after timer interrupts that find the given values of `rsp`.
unfoldable pub run : List ℕ → Kernel → Kernel
run [] s = s
run (rsp ∷ rsps) s = run rsps (schedule rsp s).1

-- Task `i` sleeps until tick `wake`.
pub record Sleeps (wake i : ℕ) (s : Kernel) : Type 0 where
  pub in_use : i < s.num_tasks
  pub asleep : (s.tasks i).state ≡ sleeping
  pub until : (s.tasks i).wake_ticks ≡ wake

table-Sleeps :
    (rsp : ℕ) (s : Kernel) (wake i : ℕ)
    → Sleeps wake i s
    → now s < wake
    → (table rsp s i).state ≡ sleeping
table-Sleeps rsp s wake i p early =
    ap (λ t. t.state) (table_lem rsp s i) ∙ ground (arith, p.in_use, p.asleep, p.until, early)

table-wake : (rsp : ℕ) (s : Kernel) (i : ℕ) → (table rsp s i).wake_ticks ≡ (s.tasks i).wake_ticks
table-wake rsp s i = ap (λ t. t.wake_ticks) (table_lem rsp s i) ∙ ground arith

-- A tick before its time leaves a task other than task 0 asleep.
pub schedule-Sleeps :
    (rsp : ℕ) (s : Kernel) (wake i : ℕ)
    → IsValid s
    → i ≢ 0
    → Sleeps wake i s
    → now s < wake
    → Sleeps wake i (schedule rsp s).1
unfolding tick
schedule-Sleeps rsp s wake i v ne p early = elim (Bool-cases (goes_on s)) [
  | inl on ↦
      subst (λ (q : ℕ × Kernel). Sleeps wake i q.1) (sym (schedule-continued rsp s v on))
        (record {
          in_use = p.in_use;
          asleep =
              ap (λ t. t.state) (continued_lem rsp s i)
              ∙ ground (arith, p.in_use, p.asleep, p.until, early);
          until = ap (λ t. t.wake_ticks) (continued_lem rsp s i) ∙ ground (arith, p.until);
        })
  | inr off ↦
      let r = select s.num_tasks s.current_task (table rsp s) in
      let other : i ≢ r = λ e. elim (select_ready s.num_tasks s.current_task (table rsp s)) [
        | inl zero_chosen ↦ ne (e ∙ zero_chosen)
        | inr q ↦
            ground (arith, q, ap (λ x. (table rsp s x).state) e, table-Sleeps rsp s wake i p early)
      ] in
      subst (λ (q : ℕ × Kernel). Sleeps wake i q.1) (sym (schedule-launched rsp s v off))
        (record {
          in_use = p.in_use;
          asleep = ground (arith, other, table-Sleeps rsp s wake i p early);
          until = ground (arith, other, table-wake rsp s i, p.until);
        })
]

pub schedule-ticks : (rsp : ℕ) (s : Kernel) → IsValid s → (schedule rsp s).1.system_ticks ≡ now s
unfolding tick
schedule-ticks rsp s v = elim (Bool-cases (goes_on s)) [
  | inl on ↦ ap (λ (q : ℕ × Kernel). q.1.system_ticks) (schedule-continued rsp s v on)
  | inr off ↦ ap (λ (q : ℕ × Kernel). q.1.system_ticks) (schedule-launched rsp s v off)
]

-- A task other than task 0 that sleeps until `wake` stays asleep during any sequence of timer
-- interrupts that is too short for the clock to reach `wake`.
pub run-Sleeps :
    (rsps : List ℕ) (s : Kernel) (wake i : ℕ)
    → IsValid s
    → i ≢ 0
    → Sleeps wake i s
    → s.system_ticks + length rsps < wake
    → wake < u64_mod
    → Sleeps wake i (run rsps s)
unfolding run
run-Sleeps [] s wake i v ne p early fit = p
run-Sleeps (rsp ∷ rsps) s wake i v ne p early fit =
    let next : now s ≡ s.system_ticks + 1 = mod-eq_of_lt (omega arith) in
    let ticks = schedule-ticks rsp s v in
    run-Sleeps rsps (schedule rsp s).1 wake i (schedule-IsValid rsp s v).0 ne
      (schedule-Sleeps rsp s wake i v ne p (omega arith)) (omega (arith, ticks, next, early)) fit

-- A tick at its time or later wakes a sleeping task: its state is then ready or running.
pub schedule-wakes :
    (rsp : ℕ) (s : Kernel) (wake i : ℕ)
    → IsValid s
    → Sleeps wake i s
    → wake ≤ now s
    → (((schedule rsp s).1.tasks i).state ≡ ready) ⊎ (((schedule rsp s).1.tasks i).state ≡ running)
unfolding tick
schedule-wakes rsp s wake i v p due = elim (Bool-cases (goes_on s)) [
  | inl on ↦ inl (
      ap (λ (q : ℕ × Kernel). (q.1.tasks i).state) (schedule-continued rsp s v on)
      ∙ ap (λ t. t.state) (continued_lem rsp s i)
      ∙ ground (arith, p.in_use, p.asleep, p.until, due))
  | inr off ↦
      subst (λ (q : ℕ × Kernel). ((q.1.tasks i).state ≡ ready) ⊎ ((q.1.tasks i).state ≡ running))
        (sym (schedule-launched rsp s v off)) awake
]
  where
    waits : (table rsp s i).state ≡ ready
    waits = ground (arith, p.in_use, p.asleep, p.until, due, table_lem rsp s i)

    awake :
        (((launched rsp s (select s.num_tasks s.current_task (table rsp s))).1.tasks i).state
          ≡ ready)
        ⊎ (((launched rsp s (select s.num_tasks s.current_task (table rsp s))).1.tasks i).state
            ≡ running)
    awake = elim (Bool-cases (i == select s.num_tasks s.current_task (table rsp s))) [
      | inl chosen ↦ inr (ground (arith, chosen))
      | inr other ↦ inl (ground (arith, other, waits))
    ]
