-- ===== src/Task/Schedule.antt =====
-- `schedule` and `task_sleep` of src/task.c: the timer tick and the choice of the next task.
use meu_so_baremetal.Prelude.{
  ℕ, zero, suc, ◌+◌, ◌-◌, ◌%◌, Bool, ◌&&◌, ◌∷◌, ltb, leb, ◌==◌, if◌then◌else◌,
}
use meu_so_baremetal.Prelude.Int.{ℤ, negsuc, pos_part, neg_part, ltb_ℤ}
use meu_so_baremetal.Prelude.Events.{outb}
use meu_so_baremetal.Task.{
  ready, running, sleeping, is_ready, is_running, is_sleeping, Task, Kernel, update, u64_mod,
  time_slice,
}

-- The scheduler's first loop: sleepers whose time has come become ready.
abbrev pub wake_task : ℕ → Task → Task
wake_task now t =
    if is_sleeping t.state && leb t.wake_ticks now then record t { state = ready } else t

-- The `k` rounds from index `i` on.
unfoldable pub wake_from : ℕ → ℕ → ℕ → (ℕ → Task) → ℕ → Task
wake_from now zero i ts = ts
wake_from now (suc k) i ts = wake_from now k (suc i) (update ts i (wake_task now (ts i)))

-- The second loop: the highest priority of a ready task, or the start value.
abbrev pub raise : ℤ → Task → ℤ
raise h t = if is_ready t.state && ltb_ℤ h t.priority then t.priority else h

unfoldable pub highest_from : ℕ → ℕ → (ℕ → Task) → ℤ → ℤ
highest_from zero i ts h = h
highest_from (suc k) i ts h = highest_from k (suc i) ts (raise h (ts i))

abbrev pub eq_ℤ : ℤ → ℤ → Bool
eq_ℤ a b = pos_part a == pos_part b && neg_part a == neg_part b

-- `tasks[c].state == TASK_STATE_READY && tasks[c].priority == highest_prio`
abbrev pub fits : ℤ → Task → Bool
fits h t = is_ready t.state && eq_ℤ t.priority h

-- The third loop: the first task that fits, going round from `c`; 0 if no round finds one.
unfoldable pub next_from : ℕ → ℕ → ℕ → (ℕ → Task) → ℤ → ℕ
next_from zero n c ts h = 0
next_from (suc k) n c ts h =
    let rest = next_from k n ((c + 1) % n) ts h in if fits h (ts c) then c else rest

unfoldable pub select : ℕ → ℕ → (ℕ → Task) → ℕ
select n current ts =
    let h = highest_from n 0 ts (negsuc 0) in
    if eq_ℤ h (negsuc 0) then 0 else next_from n n ((current + 1) % n) ts h

-- What happens at every tick, before the choice: the time, the sleepers, the saved `rsp`.
unfoldable pub tick : ℕ → Kernel → Kernel
tick rsp s =
    let now = (s.system_ticks + 1) % u64_mod in
    let woken = wake_from now s.num_tasks 0 s.tasks in
    let t = woken s.current_task in
    record s {
      system_ticks = now;
      tasks =
          update woken s.current_task
            (record t { rsp = rsp; time_ticks = (t.time_ticks + 1) % u64_mod });
    }

-- The end of the current task's slice: a running task becomes ready.
abbrev pub expire : Task → Task
expire t = if is_running t.state then record t { state = ready } else t

-- The choice of the next task, and the switch to it.
unfoldable pub switch : Kernel → ℕ × Kernel
switch s =
    let ts = update s.tasks s.current_task (expire (s.tasks s.current_task)) in
    let next = select s.num_tasks s.current_task ts in
    let t = ts next in
    (
      t.rsp,
      record s {
        current_task = next;
        tasks =
            update ts next (record t { state = running; ticks_remaining = time_slice t.priority });
      },
    )

-- The current task still has ticks of its slice and goes on.
abbrev pub keeps : Task → Bool
keeps t = ltb 1 t.ticks_remaining && is_running t.state

unfoldable pub schedule : ℕ → Kernel → ℕ × Kernel
schedule rsp s0 =
    let s = record s0 { trace = outb 0x20 0x20 ∷ s0.trace } in
    if s.num_tasks == 0
    then (rsp, record s { system_ticks = (s.system_ticks + 1) % u64_mod })
    else let s1 = tick rsp s in
      let t = s1.tasks s1.current_task in
      if keeps t
      then (
        rsp,
        record s1 {
          tasks =
              update s1.tasks s1.current_task
                (record t { ticks_remaining = t.ticks_remaining - 1 });
        },
      )
      else switch s1

-- The task sleeps and yields; the interrupt that `task_yield` raises saves its `rsp`.
unfoldable pub task_sleep : ℕ → ℕ → Kernel → ℕ × Kernel
task_sleep ticks rsp s =
    let t = s.tasks s.current_task in
    schedule rsp (record s {
      tasks =
          update s.tasks s.current_task
            (record t { state = sleeping; wake_ticks = (s.system_ticks + ticks) % u64_mod });
    })
