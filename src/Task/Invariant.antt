-- ===== src/Task/Invariant.antt =====
-- The task table of src/task.c under `schedule`, and which tasks run.
use meu_so_baremetal.Task.Calls.{
  acked, goes_on, continued, schedule-continued, schedule-goes_on, launched, schedule-launched,
  launched-Launched,
}
use mathlib.Core.Path.{subst}
use native.Mathlib.Decide.{ℕ_discrete}
use meu_so_baremetal.Prelude.{ℕ, ◌<◌, ◌≡◌, ◌≢◌, ◌∙◌, inl, inr, sym, ap, true, arith, Bool-cases}
use meu_so_baremetal.Task.{running, Kernel}
use meu_so_baremetal.Task.Schedule.{tick, select, schedule}
use meu_so_baremetal.Task.Choice.{select-below}
use meu_so_baremetal.Task.Switch.{IsValid, table, ticked, tick_lem, table_lem}

ticked_running :
    (rsp : ℕ) (s : Kernel) (i : ℕ) → (ticked rsp s i).state ≡ running → (s.tasks i).state ≡ running
ticked_running rsp s i e = ground arith

table_not_running :
    (rsp : ℕ) (s : Kernel) (i : ℕ)
    → ((s.tasks i).state ≡ running → i ≡ s.current_task)
    → (table rsp s i).state ≢ running
table_not_running rsp s i only e =
    let q = ap (λ t. t.state) (sym (table_lem rsp s i)) ∙ e in ground (arith, q, only)

continued-IsValid :
    (rsp : ℕ) (s : Kernel) → IsValid s → goes_on s ≡ true → IsValid (continued rsp s)
unfolding tick
continued-IsValid rsp s v e = record {
  some_task = v.some_task;
  fits_table = v.fits_table;
  current_below = v.current_below;
  one_runs = λ i lt r. elim (ℕ_discrete i s.current_task) [
    | yes e ↦ e
    | no ne ↦ v.one_runs i lt (
        ticked_running rsp s i
          (ground (arith, ne, r, ap (λ t. t.state) (tick_lem rsp (acked s) i))))
  ];
}

launched-IsValid :
    (rsp : ℕ) (s : Kernel) (r : ℕ) → IsValid s → r < s.num_tasks → IsValid (launched rsp s r).1
unfolding tick
launched-IsValid rsp s r v rn = record {
  some_task = v.some_task;
  fits_table = v.fits_table;
  current_below = rn;
  one_runs = λ i lt q. elim (ℕ_discrete i r) [
    | yes e ↦ e
    | no ne ↦ absurd (table_not_running rsp s i (v.one_runs i lt) (ground (arith, ne, q)))
  ];
}

-- From a valid state, `schedule` leads to a valid state in which the current task is running.
pub schedule-IsValid :
    (rsp : ℕ) (s : Kernel)
    → IsValid s
    → IsValid (schedule rsp s).1
      × (((schedule rsp s).1.tasks (schedule rsp s).1.current_task).state ≡ running)
schedule-IsValid rsp s v = elim (Bool-cases (goes_on s)) [
  | inl on ↦
      let (same_rsp, same, runs, less) = schedule-goes_on rsp s v on in
      (
        subst (λ (q : ℕ × Kernel). IsValid q.1) (sym (schedule-continued rsp s v on))
            (continued-IsValid rsp s v on),
        subst (λ x. ((schedule rsp s).1.tasks x).state ≡ running) (sym same) runs,
      )
  | inr off ↦
      let r = select s.num_tasks s.current_task (table rsp s) in
      let (runs, slice, saved) = launched-Launched rsp s r in
      subst (λ (q : ℕ × Kernel). IsValid q.1 × ((q.1.tasks q.1.current_task).state ≡ running))
        (sym (schedule-launched rsp s v off))
        (
          launched-IsValid rsp s r v
              (select-below s.num_tasks s.current_task (table rsp s) v.some_task),
          runs,
        )
]
