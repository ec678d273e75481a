-- ===== src/Task/Created.antt =====
-- New tasks: what `task_init` and `task_create` leave in the table and on the new stack.
use meu_so_baremetal.Task.Names.{text, copy_name_lem, copy_name_ends}
use mathlib.Core.Path.{subst}
use native.Mathlib.Decide.{ℕ_discrete, dec_lt}
use meu_so_baremetal.Prelude.{
  ℕ, zero, suc, ◌+◌, ◌-◌, ◌*◌, ◌≤◌, ◌<◌, ◌≡◌, ◌≢◌, ◌∙◌, sym, ap, ◌&&◌, ltb, leb, ◌==◌, false, arith,
  if◌then◌else◌, List, length, get_or,
}
use meu_so_baremetal.Prelude.Int.{ℤ, pos, negsuc}
use meu_so_baremetal.Task.{ready, Kernel, max_tasks, time_slice}
use meu_so_baremetal.Task.Create.{
  Stack, copy_name, push, push_zeros, start_frame, task_create, task_init,
}
use meu_so_baremetal.Task.Switch.{IsValid}

push_zeros-top : (n : ℕ) (k : Stack) → (push_zeros n k).top ≡ k.top - n
unfolding push_zeros
push_zeros-top zero k = ground arith
push_zeros-top (suc n) k = push_zeros-top n (push 0 k) ∙ ground arith

push_zeros_lem :
    (n : ℕ) (k : Stack) (j : ℕ)
    → n ≤ k.top
    → (push_zeros n k).words j ≡ (if leb (k.top - n) j && ltb j k.top then 0 else k.words j)
unfolding push_zeros
push_zeros_lem zero k j le = ground arith
push_zeros_lem (suc n) k j le = push_zeros_lem n (push 0 k) j (ground arith) ∙ ground arith

-- What the interrupt return finds on the new stack: fifteen zero registers from index 2028 on,
-- then the frame of `iretq`; the words below are as they were.
abbrev pub frame_word : (ss rsp cs entry : ℕ) → (ℕ → ℕ) → ℕ → ℕ
frame_word ss rsp cs entry words j =
    if j == 2047
    then ss
    else if j == 2046
    then rsp
    else if j == 2045
    then 0x0202
    else if j == 2044
    then cs
    else if j == 2043
    then entry
    else if leb 2028 j && ltb j 2043
    then 0
    else words j

start_frame_lem :
    (ss rsp cs entry : ℕ) (words : ℕ → ℕ) (j : ℕ)
    → (start_frame ss rsp cs entry words).words j ≡ frame_word ss rsp cs entry words j
unfolding start_frame
start_frame_lem ss rsp cs entry words j = push_zeros_lem 15 _ j (ground arith) ∙ ground arith

start_frame-top :
    (ss rsp cs entry : ℕ) (words : ℕ → ℕ) → (start_frame ss rsp cs entry words).top ≡ 2028
unfolding start_frame
start_frame-top ss rsp cs entry words = push_zeros-top 15 _ ∙ ground arith

-- The state after a task is created: the task `id` with its stack at `base`, and the others as
-- they were.
pub record Created (base entry : ℕ) (name : List ℕ) (priority : ℤ) (s s' : Kernel) : Type 0 where
  pub counted : s'.num_tasks ≡ s.num_tasks + 1
  pub current_kept : s'.current_task ≡ s.current_task
  pub ticks_kept : s'.system_ticks ≡ s.system_ticks
  pub trace_kept : s'.trace ≡ s.trace
  pub others_kept : (j : ℕ) → j ≢ s.num_tasks → s'.tasks j ≡ s.tasks j
  pub starts_ready : (s'.tasks s.num_tasks).state ≡ ready
  pub has_priority : (s'.tasks s.num_tasks).priority ≡ priority
  pub has_slice : (s'.tasks s.num_tasks).ticks_remaining ≡ time_slice priority
  pub has_pid : (s'.tasks s.num_tasks).pid ≡ s.num_tasks + 1
  pub starts_fresh :
      ((s'.tasks s.num_tasks).time_ticks ≡ 0) × ((s'.tasks s.num_tasks).wake_ticks ≡ 0)
  pub in_kernel : (s'.tasks s.num_tasks).is_user ≡ false
  pub named :
      (k : ℕ)
      → k < length (text 31 name)
      → (s'.tasks s.num_tasks).name k ≡ get_or (text 31 name) k 0
  pub name_ends : (s'.tasks s.num_tasks).name (length (text 31 name)) ≡ 0
  pub saved_rsp : (s'.tasks s.num_tasks).rsp ≡ base + 8 * 2028
  pub stacked :
      (j : ℕ)
      → (s'.tasks s.num_tasks).stack j
        ≡ frame_word 0x10 (base + 8 * 2047) 0x08 entry (s.tasks s.num_tasks).stack j

-- With a free slot, `task_create` returns its index and adds one to the number of tasks. The task
-- there is ready, a kernel task with the next pid, the priority, its slice and no ticks behind it.
-- Its name is the first 31 characters of the given one, or all up to the terminator, and a
-- terminator. Its `rsp` points at fifteen zero registers below a frame that makes `iretq` enter
-- `entry`, and the words of its stack below them are as they were. The other tasks, the current
-- task, the clock and the port writes are kept.
pub task_create-Created :
    (stack_at : ℕ → ℕ) (entry : ℕ) (name : List ℕ) (priority : ℤ) (s : Kernel)
    → s.num_tasks < max_tasks
    → ((task_create stack_at entry name priority s).0 ≡ pos s.num_tasks)
      × Created
          (stack_at s.num_tasks)
          entry
          name
          priority
          s
          (task_create stack_at entry name priority s).1
unfolding task_create
task_create-Created stack_at entry name priority s lt =
    let base = stack_at s.num_tasks in
    let words = (s.tasks s.num_tasks).stack in
    let old = (s.tasks s.num_tasks).name in
    let copied : (k : ℕ)
        → k < length (text 31 name)
        → copy_name name 0 old k ≡ get_or (text 31 name) k 0 =
      λ k hk.
        ap (copy_name name 0 old) (omega arith) ∙ copy_name_lem 31 name 0 old k (omega arith) hk in
    let ended : copy_name name 0 old (length (text 31 name)) ≡ 0 =
      ap (copy_name name 0 old) (omega arith) ∙ copy_name_ends 31 name 0 old (omega arith) in
    (
      ground (arith, lt),
      record {
        counted = ground (arith, lt);
        current_kept = ground (arith, lt);
        ticks_kept = ground (arith, lt);
        trace_kept = ground (arith, lt);
        others_kept = λ j ne. ground (arith, lt, ne);
        has_pid = ground (arith, lt);
        starts_fresh = (ground (arith, lt), ground (arith, lt));
        in_kernel = ground (arith, lt);
        named = λ k hk. ground (arith, lt, copied k hk);
        name_ends = ground (arith, lt, ended);
        starts_ready = ground (arith, lt);
        has_priority = ground (arith, lt);
        has_slice = ground (arith, lt);
        saved_rsp = ground (arith, lt, start_frame-top 0x10 (base + 8 * 2047) 0x08 entry words);
        stacked =
            λ j. ground (arith, lt, start_frame_lem 0x10 (base + 8 * 2047) 0x08 entry words j);
      },
    )

-- With a full table `task_create` returns -1 and changes nothing.
pub task_create-full :
    (stack_at : ℕ → ℕ) (entry : ℕ) (name : List ℕ) (priority : ℤ) (s : Kernel)
    → max_tasks ≤ s.num_tasks
    → task_create stack_at entry name priority s ≡ (negsuc 0, s)
unfolding task_create
task_create-full stack_at entry name priority s le = ground (arith, le)

-- `task_create` keeps the table well formed, whether it is full or not.
pub task_create-IsValid :
    (stack_at : ℕ → ℕ) (entry : ℕ) (name : List ℕ) (priority : ℤ) (s : Kernel)
    → IsValid s
    → IsValid (task_create stack_at entry name priority s).1
task_create-IsValid stack_at entry name priority s v = elim (dec_lt s.num_tasks max_tasks) [
  | yes lt ↦
      let c = (task_create-Created stack_at entry name priority s lt).1 in
      let s' = (task_create stack_at entry name priority s).1 in
      record {
        some_task = omega (arith, c.counted);
        fits_table = omega (arith, c.counted);
        current_below = omega (arith, c.counted, c.current_kept, v.current_below);
        one_runs = λ i below r. elim (ℕ_discrete i s.num_tasks) [
          | yes e ↦ absurd (ground (arith, ap (λ x. (s'.tasks x).state) e, r, c.starts_ready))
          | no ne ↦
              v.one_runs i (omega (arith, c.counted, below, ne))
                (ap (λ t. t.state) (sym (c.others_kept i ne)) ∙ r)
              ∙ sym c.current_kept
        ];
      }
  | no full ↦
      subst (λ (q : ℤ × Kernel). IsValid q.1)
        (sym (task_create-full stack_at entry name priority s (omega arith))) v
]

-- After `task_init` the table is well formed, whatever it held before.
pub task_init-IsValid : (s : Kernel) → IsValid (task_init s)
unfolding task_init
task_init-IsValid s = record {
  some_task = ground arith;
  fits_table = ground arith;
  current_below = ground arith;
  one_runs = λ i lt r. omega arith;
}
