-- ===== src/Task.antt =====
-- src/task.c and include/task.h: the task table and the priority round-robin scheduler.
-- The table `tasks` is a function from indices, of which the first `num_tasks` are in use.
pub mod Create
pub mod Schedule
pub mod Wake
pub mod Select
pub mod Round
pub mod Choice
pub mod Switch
pub mod Picks
pub mod Invariant
pub mod Sleep
pub mod Calls
pub mod Names
pub mod Created
mod Tests
use meu_so_baremetal.Prelude.{ℕ, ◌*◌, ◌+◌, ◌-◌, ◌%◌, ◌^◌, Bool, true, false, ◌==◌, if◌then◌else◌}
use meu_so_baremetal.Prelude.Int.{ℤ, pos_part, neg_part}
use meu_so_baremetal.Prelude.Events.{Trace}

abbrev pub max_tasks : ℕ
max_tasks = 32

abbrev pub u32_mod : ℕ
u32_mod = 2 ^ 32

abbrev pub u64_mod : ℕ
u64_mod = 2 ^ 64

pub data TaskState : Type 0 where
  ready running sleeping dead : TaskState

abbrev pub is_ready : TaskState → Bool
is_ready ready = true
is_ready _ = false

abbrev pub is_running : TaskState → Bool
is_running running = true
is_running _ = false

abbrev pub is_sleeping : TaskState → Bool
is_sleeping sleeping = true
is_sleeping _ = false

-- `name` is an array of 32 bytes, `stack` one of 2048 words.
pub record Task : Type 0 where
  pub pid : ℕ
  pub name : ℕ → ℕ
  pub rsp : ℕ
  pub stack : ℕ → ℕ
  pub state : TaskState
  pub priority : ℤ
  pub time_ticks : ℕ
  pub ticks_remaining : ℕ
  pub wake_ticks : ℕ
  pub is_user : Bool

pub record Kernel : Type 0 where
  pub tasks : ℕ → Task
  pub current_task : ℕ
  pub num_tasks : ℕ
  pub system_ticks : ℕ
  pub trace : Trace

abbrev pub update {ℓ} : {A : Type ℓ} → (ℕ → A) → ℕ → A → ℕ → A
update f i v j = if j == i then v else f j

-- `priority * 2` stored in a `uint32_t`.
abbrev pub time_slice : ℤ → ℕ
time_slice p = (pos_part p * 2 + (u32_mod - neg_part p * 2 % u32_mod)) % u32_mod
