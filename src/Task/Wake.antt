-- ===== src/Task/Wake.antt =====
-- The loops of the scheduler, each against what it computes.
use meu_so_baremetal.Prelude.{ℕ, zero, suc, ◌+◌, ◌≡◌, ◌∙◌, ◌&&◌, ltb, leb, arith, if◌then◌else◌}
use meu_so_baremetal.Task.{Task, update}
use meu_so_baremetal.Task.Schedule.{wake_task, wake_from}

pub wake_from_lem :
    (now k i : ℕ) (ts : ℕ → Task) (j : ℕ)
    → wake_from now k i ts j ≡ (if leb i j && ltb j (i + k) then wake_task now (ts j) else ts j)
unfolding wake_from
wake_from_lem now zero i ts j = ground arith
wake_from_lem now (suc k) i ts j =
    wake_from_lem now k (suc i) (update ts i (wake_task now (ts i))) j ∙ ground arith
