-- ===== src/Task/Switch.antt =====
-- The table that `schedule` chooses from, and its result read off the state before the tick.
use mathlib.Core.Path.{subst, fun_ext}
use native.Mathlib.Decide.{ℕ_discrete}
use meu_so_baremetal.Prelude.{
  ℕ, ◌+◌, ◌%◌, ◌≤◌, ◌<◌, ◌≡◌, ◌∙◌, ap, Bool, ◌&&◌, ◌||◌, ltb, leb, ◌==◌, arith, if◌then◌else◌,
}
use meu_so_baremetal.Task.{
  running, is_ready, is_running, is_sleeping, Task, Kernel, update, max_tasks, u64_mod,
}
use meu_so_baremetal.Task.Schedule.{wake_task, wake_from, tick, expire}
use meu_so_baremetal.Task.Wake.{wake_from_lem}

-- Some task exists, the current one is in the table, and no other one is marked as running.
pub record IsValid (s : Kernel) : Type 0 where
  pub some_task : 0 < s.num_tasks
  pub fits_table : s.num_tasks ≤ max_tasks
  pub current_below : s.current_task < s.num_tasks
  pub one_runs : (i : ℕ) → i < s.num_tasks → (s.tasks i).state ≡ running → i ≡ s.current_task

-- The time that the next tick sees.
abbrev pub now : Kernel → ℕ
now s = (s.system_ticks + 1) % u64_mod

-- Task `i` can be chosen at the next tick: it is ready, its sleep is over, or it is the current
-- task, whose slice ends.
abbrev pub can_run : Kernel → ℕ → Bool
can_run s i =
    let t = s.tasks i in
    is_ready t.state
    || (is_sleeping t.state && leb t.wake_ticks (now s))
    || (is_running t.state && i == s.current_task)

-- The table that the choice is made from.
abbrev pub table : ℕ → Kernel → ℕ → Task
table rsp s =
    let s1 = tick rsp s in update s1.tasks s1.current_task (expire (s1.tasks s1.current_task))

-- A task as the tick leaves it.
abbrev pub ticked : ℕ → Kernel → ℕ → Task
ticked rsp s i =
    let t = if ltb i s.num_tasks then wake_task (now s) (s.tasks i) else s.tasks i in
    if i == s.current_task
    then record t { rsp = rsp; time_ticks = (t.time_ticks + 1) % u64_mod }
    else t

pub touch :
    (f : Task → Task) (v : ℕ → Task) (c i : ℕ)
    → update v c (f (v c)) i ≡ (if i == c then f (v i) else v i)
touch f v c i = elim (ℕ_discrete i c) [
  | yes e ↦ subst (λ x. update v x (f (v x)) i ≡ (if i == x then f (v i) else v i)) e (ground arith)
  | no ne ↦ ground arith
]

pub tick_lem : (rsp : ℕ) (s : Kernel) (i : ℕ) → (tick rsp s).tasks i ≡ ticked rsp s i
unfolding tick
tick_lem rsp s i =
    let woken : (j : ℕ)
        → wake_from (now s) s.num_tasks 0 s.tasks j
          ≡ (if ltb j s.num_tasks then wake_task (now s) (s.tasks j) else s.tasks j) =
      λ j. wake_from_lem (now s) s.num_tasks 0 s.tasks j ∙ ground arith in
    ap
      (λ (w : ℕ → Task).
        update w s.current_task
          (record (w s.current_task) {
            rsp = rsp;
            time_ticks = ((w s.current_task).time_ticks + 1) % u64_mod;
          })
          i)
      (fun_ext woken)
    ∙ touch (λ t. record t { rsp = rsp; time_ticks = (t.time_ticks + 1) % u64_mod })
        (λ j. if ltb j s.num_tasks then wake_task (now s) (s.tasks j) else s.tasks j) s.current_task
        i

pub table_lem :
    (rsp : ℕ) (s : Kernel) (i : ℕ)
    → table rsp s i ≡ (if i == s.current_task then expire (ticked rsp s i) else ticked rsp s i)
unfolding tick
table_lem rsp s i =
    ap (λ (w : ℕ → Task). update w s.current_task (expire (w s.current_task)) i)
      (fun_ext (tick_lem rsp s))
    ∙ touch expire (ticked rsp s) s.current_task i

pub table-priority :
    (rsp : ℕ) (s : Kernel) (i : ℕ) → (table rsp s i).priority ≡ (s.tasks i).priority
table-priority rsp s i = ap (λ t. t.priority) (table_lem rsp s i) ∙ ground arith

pub table-can_run :
    (rsp : ℕ) (s : Kernel) (i : ℕ)
    → IsValid s
    → i < s.num_tasks
    → is_ready (table rsp s i).state ≡ can_run s i
table-can_run rsp s i v lt = ap (λ t. is_ready t.state) (table_lem rsp s i) ∙ go (v.one_runs i lt)
  where
    go :
        ((s.tasks i).state ≡ running → i ≡ s.current_task)
        → is_ready (if i == s.current_task then expire (ticked rsp s i) else ticked rsp s i).state
          ≡ can_run s i
    go only = ground arith
