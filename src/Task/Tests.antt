-- ===== src/Task/Tests.antt =====
-- Runs of src/task.c on a table of three tasks: task 0 at work, task 1 ready, task 2 asleep.
use meu_so_baremetal.Prelude.{
  ◌⊎◌, ℕ, ◌+◌, ◌*◌, ◌<◌, ◌≡◌, ◌≢◌, refl, false, [], ◌∷◌, arith, if◌then◌else◌, ◌==◌,
}
use meu_so_baremetal.Prelude.Int.{pos, negsuc}
use meu_so_baremetal.Prelude.Text.{codes}
use meu_so_baremetal.Task.{TaskState, ready, running, sleeping, dead, Task, Kernel}
use meu_so_baremetal.Task.Schedule.{schedule}
use meu_so_baremetal.Task.Create.{task_create, task_init}
use meu_so_baremetal.Task.Switch.{IsValid, can_run}
use meu_so_baremetal.Task.Calls.{Launched}
use meu_so_baremetal.Task.Picks.{Picked, schedule_picks}
use meu_so_baremetal.Task.Invariant.{schedule-IsValid}
use meu_so_baremetal.Task.Sleep.{Sleeps, run, run-Sleeps, schedule-wakes}
use meu_so_baremetal.Task.Created.{
  Created, task_create-Created, task_create-full, task_init-IsValid,
}

abbrev a_task : ℕ → TaskState → ℕ → Task
a_task pid state left = record {
  pid = pid;
  name = λ i. 0;
  rsp = 1000 * pid;
  stack = λ i. 0;
  state = state;
  priority = pos 5;
  time_ticks = 0;
  ticks_remaining = left;
  wake_ticks = 50;
  is_user = false;
}

-- The first task is in the given state with the given ticks left, the second one is ready or dead.
abbrev three : TaskState → ℕ → TaskState → Kernel
three first left second = record {
  tasks = λ i.
      if i == 0
      then a_task 1 first left
      else if i == 1
      then a_task 2 second 10
      else a_task 3 sleeping 10;
  current_task = 0;
  num_tasks = 3;
  system_ticks = 7;
  trace = [];
}

three-IsValid :
    (first second : TaskState) (left : ℕ) → second ≢ running → IsValid (three first left second)
three-IsValid first second left ne = record {
  some_task = omega arith;
  fits_table = omega arith;
  current_below = omega arith;
  one_runs = λ i lt r. ground (arith, lt, r, ne);
}

goes_on_state : IsValid (three running 9 ready)
goes_on_state = three-IsValid running ready 9 (λ e. ground (arith, e))

ends_state : IsValid (three running 1 ready)
ends_state = three-IsValid running ready 1 (λ e. ground (arith, e))

idle_state : IsValid (three dead 1 dead)
idle_state = three-IsValid dead dead 1 (λ e. ground (arith, e))

schedule_picks_example :
    Picked (three running 1 ready) (schedule 77 (three running 1 ready)).1.current_task
    × Launched 77 (three running 1 ready) (schedule 77 (three running 1 ready))
schedule_picks_example =
    schedule_picks 77 (three running 1 ready) 1 ends_state refl (omega arith) refl (omega arith)

none_can_run : (j : ℕ) → j < 3 → can_run (three dead 1 dead) j ≡ false
none_can_run j lt = ground (arith, lt)

schedule-IsValid_example :
    IsValid (schedule 77 (three running 1 ready)).1
    × (((schedule 77 (three running 1 ready)).1.tasks
          (schedule 77 (three running 1 ready)).1.current_task).state
        ≡ running)
schedule-IsValid_example = schedule-IsValid 77 (three running 1 ready) ends_state

asleep : Sleeps 50 2 (three running 1 ready)
asleep = record { in_use = omega arith; asleep = refl; until = refl }

run-Sleeps_example : Sleeps 50 2 (run (1 ∷ 2 ∷ 3 ∷ []) (three running 1 ready))
run-Sleeps_example =
    run-Sleeps (1 ∷ 2 ∷ 3 ∷ []) (three running 1 ready) 50 2 ends_state (omega arith) asleep
      (omega arith) (omega arith)

abbrev late : Kernel
late = record (three running 1 ready) { system_ticks = 49 }

late-IsValid : IsValid late
late-IsValid = record {
  some_task = omega arith;
  fits_table = omega arith;
  current_below = omega arith;
  one_runs = λ i lt r. ground (arith, lt, r);
}

late_sleeper : Sleeps 50 2 late
late_sleeper = record { in_use = omega arith; asleep = refl; until = refl }

schedule-wakes_example :
    (((schedule 77 late).1.tasks 2).state ≡ ready)
    ⊎ (((schedule 77 late).1.tasks 2).state ≡ running)
schedule-wakes_example = schedule-wakes 77 late 50 2 late-IsValid late_sleeper (omega arith)

abbrev slots : ℕ → ℕ
slots id = 65536 + 20000 * id

task_create-Created_example :
    ((task_create slots 4242 (codes "GUI") (pos 3) (three running 1 ready)).0 ≡ pos 3)
    × Created 125536 4242
        (codes "GUI")
        (pos 3)
        (three running 1 ready)
        (task_create slots 4242 (codes "GUI") (pos 3) (three running 1 ready)).1
task_create-Created_example =
    task_create-Created slots 4242 (codes "GUI") (pos 3) (three running 1 ready) (omega arith)

abbrev full_table : Kernel
full_table = record (three running 1 ready) { num_tasks = 32 }

task_create-full_example :
    task_create slots 4242 (codes "GUI") (pos 3) full_table ≡ (negsuc 0, full_table)
task_create-full_example =
    task_create-full slots 4242 (codes "GUI") (pos 3) full_table (omega arith)

task_init-IsValid_example : IsValid (task_init (three dead 1 dead))
task_init-IsValid_example = task_init-IsValid (three dead 1 dead)
