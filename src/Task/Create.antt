-- ===== src/Task/Create.antt =====
-- `task_init`, `task_create` and `task_create_user` of src/task.c.
use meu_so_baremetal.Prelude.{
  ℕ, zero, suc, ◌+◌, ◌-◌, ◌*◌, ◌/◌, ◌%◌, Bool, true, false, ◌||◌, Option, none, some, List, [], ◌∷◌,
  leb, ◌==◌, if◌then◌else◌,
}
use meu_so_baremetal.Prelude.Int.{ℤ, pos, negsuc}
use meu_so_baremetal.Prelude.Events.{Trace, outb, serial_write}
use meu_so_baremetal.Prelude.Text.{codes}
use meu_so_baremetal.Memory.{Heap, kmalloc}
use meu_so_baremetal.Task.{ready, running, Task, Kernel, update, max_tasks, time_slice}

-- `while (name[i] != '\0' && i < 31)`, and the terminator.
unfoldable pub copy_name : List ℕ → ℕ → (ℕ → ℕ) → ℕ → ℕ
copy_name [] i buf = update buf i 0
copy_name (c ∷ cs) i buf =
    let rest = copy_name cs (suc i) (update buf i c) in
    if c == 0 || leb 31 i then update buf i 0 else rest

-- The events of `timer_init`, the newest first.
unfoldable pub timer_init : Trace → Trace
timer_init trace =
    serial_write "[TASK] Timer PIT 100Hz (10ms) Inicializado!\n"
    ∷ outb 0x40 (11931 / 256 % 256)
    ∷ outb 0x40 (11931 % 256)
    ∷ outb 0x43 0x36
    ∷ trace

unfoldable pub task_init : Kernel → Kernel
task_init s =
    let t = s.tasks 0 in
    record s {
      num_tasks = 1;
      current_task = 0;
      system_ticks = 0;
      tasks = update s.tasks 0 (record t {
        pid = 1;
        state = running;
        priority = pos 5;
        ticks_remaining = 10;
        time_ticks = 0;
        wake_ticks = 0;
        is_user = false;
        name = copy_name (codes "CapivaraOS_Kernel") 0 t.name;
      });
      trace = timer_init s.trace;
    }

-- A stack that grows down: the index of its top word, and its words.
pub record Stack : Type 0 where
  pub top : ℕ
  pub words : ℕ → ℕ

-- `*(--stk) = v`
abbrev pub push : ℕ → Stack → Stack
push v k = record { top = k.top - 1; words = update k.words (k.top - 1) v }

unfoldable pub push_zeros : ℕ → Stack → Stack
push_zeros zero k = k
push_zeros (suc n) k = push_zeros n (push 0 k)

-- What an interrupt leaves on the stack of a task that is about to start at `entry`: the frame of
-- `iretq` and fifteen saved registers.
unfoldable pub start_frame : (ss rsp cs entry : ℕ) → (ℕ → ℕ) → Stack
start_frame ss rsp cs entry words =
    push_zeros 15 (
      push entry
        (push cs (push 0x0202 (push rsp (push ss (record { top = 2048; words = words }))))))

-- The new task `id`, with the stack whose words stand at address `base` on.
abbrev pub new_task : ℕ → List ℕ → ℤ → Bool → ℕ → Stack → Task → Task
new_task id name priority is_user base frame t = record t {
  pid = id + 1;
  state = ready;
  priority = priority;
  ticks_remaining = time_slice priority;
  time_ticks = 0;
  wake_ticks = 0;
  is_user = is_user;
  name = copy_name name 0 t.name;
  stack = frame.words;
  rsp = base + 8 * frame.top;
}

-- `stack_at id` is the address of `tasks[id].stack`. The result -1 is for a full table.
unfoldable pub task_create : (ℕ → ℕ) → ℕ → List ℕ → ℤ → Kernel → ℤ × Kernel
task_create stack_at entry name priority s =
    let id = s.num_tasks in
    let t = s.tasks id in
    let base = stack_at id in
    let frame = start_frame 0x10 (base + 8 * 2047) 0x08 entry t.stack in
    if leb max_tasks s.num_tasks then (negsuc 0, s) else (
      pos id,
      record s {
        num_tasks = s.num_tasks + 1;
        tasks = update s.tasks id (new_task id name priority false base frame t);
      },
    )

-- The user stack comes from the heap; its address is not checked. `none` if `kmalloc` does not end.
unfoldable pub task_create_user :
    (ℕ → ℕ) → ℕ → List ℕ → ℤ → Kernel × Heap → Option (ℤ × Kernel × Heap)
task_create_user stack_at entry name priority (s, h) =
    let id = s.num_tasks in
    let t = s.tasks id in
    let base = stack_at id in
    if leb max_tasks s.num_tasks then some (negsuc 0, s, h) else elim (kmalloc 16384 h) [
      | none ↦ none
      | some (user_stack, h1) ↦
          let frame = start_frame 0x23 (user_stack + 16384) 0x2B entry t.stack in
          some (
            pos id,
            record s {
              num_tasks = s.num_tasks + 1;
              tasks = update s.tasks id (new_task id name priority true base frame t);
            },
            h1,
          )
    ]
