-- ===== src/Task/Calls.antt =====
-- The two ways that a call of `schedule` ends: the current task goes on, or a task is launched.
use mathlib.Core.Path.{subst, fun_ext}
use meu_so_baremetal.Prelude.{
  ℕ, ◌+◌, ◌-◌, ◌≡◌, ◌∙◌, refl, sym, ap, Bool, true, false, ◌∷◌, ◌==◌, arith, if◌then◌else◌,
}
use meu_so_baremetal.Prelude.Events.{outb}
use meu_so_baremetal.Task.{running, Task, Kernel, update, time_slice}
use meu_so_baremetal.Task.Schedule.{tick, switch, keeps, select, schedule}
use meu_so_baremetal.Task.Switch.{
  IsValid, table, ticked, tick_lem, table_lem, table-priority, touch,
}

-- The state after the interrupt is acknowledged.
abbrev pub acked : Kernel → Kernel
acked s = record s { trace = outb 0x20 0x20 ∷ s.trace }

-- The current task has ticks left and goes on.
abbrev pub goes_on : Kernel → Bool
goes_on s = keeps (s.tasks s.current_task)

keeps-tick : (rsp : ℕ) (s : Kernel) → keeps ((tick rsp s).tasks s.current_task) ≡ goes_on s
keeps-tick rsp s = ap keeps (tick_lem rsp s s.current_task) ∙ ground arith

third_branch {ℓ} :
    {A : Type ℓ} (b c : Bool) (x y z : A)
    → b ≡ false
    → c ≡ false
    → (if b then x else if c then y else z) ≡ z
third_branch b c x y z e f =
    ap (λ d. if d then x else if c then y else z) e ∙ ap (λ d. if d then y else z) f

second_branch {ℓ} :
    {A : Type ℓ} (b c : Bool) (x y z : A)
    → b ≡ false
    → c ≡ true
    → (if b then x else if c then y else z) ≡ y
second_branch b c x y z e f =
    ap (λ d. if d then x else if c then y else z) e ∙ ap (λ d. if d then y else z) f

-- The state after a tick in which the current task goes on.
abbrev pub continued : ℕ → Kernel → Kernel
continued rsp s =
    let s1 = tick rsp (acked s) in
    let t = s1.tasks s1.current_task in
    record s1 {
      tasks =
          update s1.tasks s1.current_task (record t { ticks_remaining = t.ticks_remaining - 1 });
    }

pub continued_lem :
    (rsp : ℕ) (s : Kernel) (i : ℕ)
    → (continued rsp s).tasks i ≡ (
        if i == s.current_task
        then record (ticked rsp s i) { ticks_remaining = (ticked rsp s i).ticks_remaining - 1 }
        else ticked rsp s i)
unfolding tick
continued_lem rsp s i =
    ap
      (λ (w : ℕ → Task).
        update w s.current_task
          (record (w s.current_task) { ticks_remaining = (w s.current_task).ticks_remaining - 1 })
          i)
      (fun_ext (tick_lem rsp (acked s)))
    ∙ touch (λ t. record t { ticks_remaining = t.ticks_remaining - 1 }) (ticked rsp s)
        s.current_task i

pub schedule-continued :
    (rsp : ℕ) (s : Kernel) → IsValid s → goes_on s ≡ true → schedule rsp s ≡ (rsp, continued rsp s)
unfolding schedule tick
schedule-continued rsp s v e =
    second_branch (s.num_tasks == 0) _ _ _ _ (ground (arith, v.some_task))
      (keeps-tick rsp (acked s) ∙ e)

pub schedule-switch :
    (rsp : ℕ) (s : Kernel)
    → IsValid s
    → goes_on s ≡ false
    → schedule rsp s ≡ switch (tick rsp (acked s))
unfolding schedule tick
schedule-switch rsp s v e =
    third_branch (s.num_tasks == 0) _ _ _ _ (ground (arith, v.some_task))
      (keeps-tick rsp (acked s) ∙ e)

-- A running task with more than one tick left goes on: the same `rsp` is returned, the current
-- task stays, it is still running, and it has one tick less.
pub schedule-goes_on :
    (rsp : ℕ) (s : Kernel)
    → IsValid s
    → goes_on s ≡ true
    → ((schedule rsp s).0 ≡ rsp)
      × ((schedule rsp s).1.current_task ≡ s.current_task)
      × (((schedule rsp s).1.tasks s.current_task).state ≡ running)
      × (((schedule rsp s).1.tasks s.current_task).ticks_remaining + 1
          ≡ (s.tasks s.current_task).ticks_remaining)
unfolding tick
schedule-goes_on rsp s v e =
    let c = tick_lem rsp (acked s) s.current_task in
    subst
      (λ (r : ℕ × Kernel).
        (r.0 ≡ rsp)
        × (r.1.current_task ≡ s.current_task)
        × ((r.1.tasks s.current_task).state ≡ running)
        × ((r.1.tasks s.current_task).ticks_remaining + 1
            ≡ (s.tasks s.current_task).ticks_remaining))
      (sym (schedule-continued rsp s v e))
      (
        refl,
        refl,
        ground (arith, ap (λ t. t.state) c),
        ground (arith, ap (λ t. t.ticks_remaining) c),
      )

-- The result of `schedule` when the choice is task `r`.
abbrev pub launched : ℕ → Kernel → ℕ → ℕ × Kernel
launched rsp s r =
    let t = table rsp s r in
    (
      t.rsp,
      record (tick rsp (acked s)) {
        current_task = r;
        tasks =
            update (table rsp s) r
              (record t { state = running; ticks_remaining = time_slice t.priority });
      },
    )

pub schedule-launched :
    (rsp : ℕ) (s : Kernel)
    → IsValid s
    → goes_on s ≡ false
    → schedule rsp s ≡ launched rsp s (select s.num_tasks s.current_task (table rsp s))
unfolding switch tick
schedule-launched rsp s v e = schedule-switch rsp s v e

-- Task `r` is left running with a new slice, and its saved `rsp` is returned, which for the
-- current task is the one just saved.
abbrev pub Launched : ℕ → Kernel → ℕ × Kernel → Type 0
Launched rsp s q =
    let r = q.1.current_task in
    ((q.1.tasks r).state ≡ running)
    × ((q.1.tasks r).ticks_remaining ≡ time_slice (s.tasks r).priority)
    × (q.0 ≡ (if r == s.current_task then rsp else (s.tasks r).rsp))

pub launched-Launched : (rsp : ℕ) (s : Kernel) (r : ℕ) → Launched rsp s (launched rsp s r)
launched-Launched rsp s r =
    let back : update (table rsp s) r
          (record (table rsp s r) {
            state = running;
            ticks_remaining = time_slice (table rsp s r).priority;
          })
          r
        ≡ record (table rsp s r) {
          state = running;
          ticks_remaining = time_slice (table rsp s r).priority;
        } =
      ground arith in
    (
      ap (λ t. t.state) back,
      ap (λ t. t.ticks_remaining) back ∙ ap time_slice (table-priority rsp s r),
      ap (λ t. t.rsp) (table_lem rsp s r) ∙ ground arith,
    )
