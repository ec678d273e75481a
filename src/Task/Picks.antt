-- ===== src/Task/Picks.antt =====
-- Which task a call of `schedule` launches.
use meu_so_baremetal.Task.Calls.{goes_on, Launched, launched-Launched, schedule-launched}
use mathlib.Core.Path.{subst}
use native.Mathlib.Nat.{mod-lt}
use meu_so_baremetal.Prelude.{ℕ, ◌+◌, ◌%◌, ◌<◌, ◌≡◌, ◌∙◌, refl, sym, ap, true, false, arith}
use meu_so_baremetal.Prelude.Int.{ℤ, pos, pos_part, neg_part, ◌≤ℤ◌, ◌<ℤ◌}
use meu_so_baremetal.Task.{TaskState, ready, is_ready, Kernel}
use meu_so_baremetal.Task.Schedule.{select, schedule}
use meu_so_baremetal.Task.Choice.{Chosen, select-Chosen, select-idle}
use meu_so_baremetal.Task.Switch.{IsValid, can_run, table, table-priority, table-can_run}

-- Task `r` can run, no task that can has a higher priority, and those that stand between the
-- current one and `r`, going round, all have a lower one.
pub record Picked (s : Kernel) (r : ℕ) : Type 0 where
  pub below : r < s.num_tasks
  pub runs : can_run s r ≡ true
  pub top :
      (j : ℕ) → j < s.num_tasks → can_run s j ≡ true → (s.tasks j).priority ≤ℤ (s.tasks r).priority
  pub steps : ℕ
  pub lands : r ≡ ((s.current_task + 1) % s.num_tasks + steps) % s.num_tasks
  pub fair :
      (i : ℕ)
      → i < steps
      → can_run s (((s.current_task + 1) % s.num_tasks + i) % s.num_tasks) ≡ true
      → (s.tasks (((s.current_task + 1) % s.num_tasks + i) % s.num_tasks)).priority
        <ℤ (s.tasks r).priority

ready_of : (t : TaskState) → is_ready t ≡ true → t ≡ ready
ready_of t e = ground arith

table_ready :
    (rsp : ℕ) (s : Kernel) (i : ℕ)
    → IsValid s
    → i < s.num_tasks
    → can_run s i ≡ true
    → (table rsp s i).state ≡ ready
table_ready rsp s i v lt e = ready_of (table rsp s i).state (table-can_run rsp s i v lt ∙ e)

ready_runs :
    (rsp : ℕ) (s : Kernel) (i : ℕ)
    → IsValid s
    → i < s.num_tasks
    → (table rsp s i).state ≡ ready
    → can_run s i ≡ true
ready_runs rsp s i v lt e = sym (table-can_run rsp s i v lt) ∙ ap is_ready e

le_transport : {a a' b b' : ℤ} → a ≡ a' → b ≡ b' → a ≤ℤ b → a' ≤ℤ b'
le_transport e f le = omega (arith, ap pos_part e, ap neg_part e, ap pos_part f, ap neg_part f)

lt_transport : {a a' b b' : ℤ} → a ≡ a' → b ≡ b' → a <ℤ b → a' <ℤ b'
lt_transport e f lt = omega (arith, ap pos_part e, ap neg_part e, ap pos_part f, ap neg_part f)

Picked-Chosen :
    (rsp : ℕ) (s : Kernel) (r : ℕ)
    → IsValid s
    → Chosen s.num_tasks s.current_task (table rsp s) r
    → Picked s r
Picked-Chosen rsp s r v c =
    let p = table-priority rsp s in
    let place = λ (i : ℕ). ((s.current_task + 1) % s.num_tasks + i) % s.num_tasks in
    record {
      below = c.below;
      runs = ready_runs rsp s r v c.below c.is_ready';
      top = λ j jn e. le_transport (p j) (p r) (c.top j jn (table_ready rsp s j v jn e));
      steps = c.steps;
      lands = c.lands;
      fair = λ i lt e.
          lt_transport (p (place i)) (p r)
            (c.fair i lt (table_ready rsp s (place i) v (mod-lt _ v.some_task) e));
    }

-- When the current task does not go on and some task that can run has a priority of at least 0,
-- the next task is one that can run, of the highest priority there is, and the first such one
-- after the current task going round the table. It is left running with a new slice, and its
-- saved `rsp` is returned.
pub schedule_picks :
    (rsp : ℕ) (s : Kernel) (j : ℕ)
    → IsValid s
    → goes_on s ≡ false
    → j < s.num_tasks
    → can_run s j ≡ true
    → pos 0 ≤ℤ (s.tasks j).priority
    → Picked s (schedule rsp s).1.current_task × Launched rsp s (schedule rsp s)
schedule_picks rsp s j v e jn runs high =
    let r = select s.num_tasks s.current_task (table rsp s) in
    let c =
      select-Chosen s.num_tasks s.current_task (table rsp s) j jn (table_ready rsp s j v jn runs)
        (le_transport {a = pos 0} refl (sym (table-priority rsp s j)) high) in
    subst (λ (q : ℕ × Kernel). Picked s q.1.current_task × Launched rsp s q)
      (sym (schedule-launched rsp s v e)) (Picked-Chosen rsp s r v c, launched-Launched rsp s r)

-- When the current task does not go on and no task can run, `schedule` runs task 0 all the same,
-- be it asleep or dead.
pub schedule_idles :
    (rsp : ℕ) (s : Kernel)
    → IsValid s
    → goes_on s ≡ false
    → ((j : ℕ) → j < s.num_tasks → can_run s j ≡ false)
    → ((schedule rsp s).1.current_task ≡ 0) × Launched rsp s (schedule rsp s)
schedule_idles rsp s v e none_runs =
    let r = select s.num_tasks s.current_task (table rsp s) in
    let zero_chosen =
      select-idle s.num_tasks s.current_task (table rsp s)
        (λ j jn q. ground (arith, ready_runs rsp s j v jn q, none_runs j jn)) in
    subst (λ (q : ℕ × Kernel). (q.1.current_task ≡ 0) × Launched rsp s q)
      (sym (schedule-launched rsp s v e)) (zero_chosen, launched-Launched rsp s r)
