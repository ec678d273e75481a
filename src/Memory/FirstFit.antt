-- ===== src/Memory/FirstFit.antt =====
-- The search of `kmalloc` of src/memory.c and the abstract first fit.
use meu_so_baremetal.Prelude.{
  ℕ, zero, suc, ◌+◌, ◌<◌, ◌≡◌, refl, inl, inr, false, List, [], ◌∷◌, length, ◌==◌, arith,
  Bool-cases,
}
use meu_so_baremetal.Memory.{Heap, overhead, find}
use meu_so_baremetal.Memory.Layout.{Block, Chain, link}
use meu_so_baremetal.Memory.Spec.{first_fit, suits, outcome}

pub find-first_fit :
    (k : ℕ) (h : Heap) (size prev a : ℕ) (bs : List Block)
    → Chain h prev a bs
    → 0 < a
    → length bs < k
    → find k h (link a bs) size ≡ outcome (first_fit size a bs)
unfolding find
find-first_fit zero h size prev a bs c pos fuel = absurd (omega arith)
find-first_fit (suc k) h size prev a [] c pos fuel = refl
find-first_fit (suc k) h size prev a ((n, f) ∷ bs) c pos fuel =
    let away : (a == 0) ≡ false = ground arith in
    let rest = find-first_fit k h size a (a + overhead + n) bs c.2 (omega arith) (omega arith) in
    elim (Bool-cases (suits size (n, f))) [
      | inl yes' ↦ rw (away, c.0) (rw yes')
      | inr no' ↦ rw (away, c.0) (rw no' rest)
    ]
