-- ===== src/Memory/Tests.antt =====
-- Runs of the heap of src/memory.c on a heap that starts at address 4096.
use meu_so_baremetal.Prelude.{
  ℕ, ◌+◌, ◌-◌, ◌≡◌, inr, refl, true, false, some, List, [], ◌∷◌, arith, if◌then◌else◌,
}
use meu_so_baremetal.Klibc.{within}
use meu_so_baremetal.Memory.{
  Heap, mk_header, overhead, heap_size, memory_init, allocate, kmalloc, kfree, find, settle,
}
use meu_so_baremetal.Memory.Layout.{Block, IsHeap}
use meu_so_baremetal.Memory.Resize.{kcalloc, krealloc}
use meu_so_baremetal.Memory.Malloc.{Mallocs, allocate-IsHeap, kmalloc_refines}
use meu_so_baremetal.Memory.Free.{kfree_refines}
use meu_so_baremetal.Memory.RoundTrip.{kfree-kmalloc, kfree_ignores}
use meu_so_baremetal.Memory.Lifetime.{memory_init-IsHeap}
use meu_so_baremetal.Memory.Reach.{here, Reach, boot, malloc, free, Sound, Reach-Sound}
use meu_so_baremetal.Memory.Resizing.{kcalloc_zeroes, krealloc_moves, krealloc_fits, krealloc_full}

abbrev blank : Heap
blank = record {
  header = λ a. mk_header 0 true 0 0;
  footer = λ a. 0;
  bytes = λ a. 7;
  heap_first = 0;
  total_allocated = 0;
  total_free = 0;
  block_count = 0;
}

abbrev booted : Heap
booted = memory_init 4090 blank

-- 112 bytes are in use, at the start of the heap.
abbrev in_use : Heap
in_use = allocate 4096 112 booted

abbrev booted_blocks : List Block
booted_blocks = (heap_size - overhead, true) ∷ []

abbrev in_use_blocks : List Block
in_use_blocks = (112, false) ∷ (heap_size - overhead - 112 - overhead, true) ∷ []

booted-IsHeap : IsHeap booted booted_blocks
booted-IsHeap = memory_init-IsHeap 4090 blank (omega arith)

in_use-IsHeap : IsHeap in_use in_use_blocks
unfolding memory_init
in_use-IsHeap = (allocate-IsHeap booted-IsHeap 112 4096 refl refl).0

kmalloc_refines_example : Mallocs 100 booted booted_blocks (some 4096)
unfolding memory_init
kmalloc_refines_example = kmalloc_refines booted-IsHeap 100

kfree_refines_example :
    IsHeap (kfree 4144 in_use) ((33554368, true) ∷ []) × ((kfree 4144 in_use).heap_first ≡ 4096)
unfolding allocate memory_init
kfree_refines_example = kfree_refines 4096 112 in_use-IsHeap refl

kfree-kmalloc_example :
    (g : Heap) × (kmalloc 100 in_use ≡ some (4320, g)) × IsHeap (kfree 4320 g) in_use_blocks
unfolding allocate memory_init
kfree-kmalloc_example = kfree-kmalloc 100 4272 in_use-IsHeap refl

kfree_ignores_example : kfree 4320 booted ≡ booted
unfolding memory_init
kfree_ignores_example = kfree_ignores 4320 booted (inr (inr refl))

in_use-malloc : kmalloc 112 booted ≡ some (4144, in_use)
unfolding kmalloc find settle memory_init
in_use-malloc = refl

one_live : Reach 4090 in_use (4144 ∷ [])
one_live = malloc 112 4144 (boot blank) in_use-malloc

Reach-Sound_example : Sound (kfree 4144 in_use) []
Reach-Sound_example = Reach-Sound 4090 (omega arith) (free 4144 one_live here)

kcalloc_zeroes_example :
    (g : Heap) × (kcalloc 10 10 in_use ≡ some (4320, g))
    × IsHeap g ((112, false) ∷ (112, false) ∷ (33554016, true) ∷ [])
    × (g.heap_first ≡ 4096)
    × ((x : ℕ) → g.bytes x ≡ (if within 4320 100 x then 0 else in_use.bytes x))
unfolding allocate memory_init
kcalloc_zeroes_example = kcalloc_zeroes 10 10 4272 in_use-IsHeap refl

krealloc_moves_example :
    (g : Heap) × (krealloc 4144 200 in_use ≡ some (4320, g))
    × IsHeap g ((112, true) ∷ (208, false) ∷ (33553920, true) ∷ [])
    × ((x : ℕ)
        → g.bytes x
          ≡ (if within 4320 112 x then in_use.bytes (4144 + (x - 4320)) else in_use.bytes x))
unfolding allocate memory_init
krealloc_moves_example = krealloc_moves 4096 112 200 4272 in_use-IsHeap refl (omega arith) refl

krealloc_fits_example : krealloc 4144 50 in_use ≡ some (4144, in_use)
unfolding allocate memory_init
krealloc_fits_example = krealloc_fits 4096 112 50 in_use-IsHeap refl (omega arith) (omega arith)

krealloc_full_example : krealloc 4144 33554432 in_use ≡ some (0, in_use)
unfolding allocate memory_init
krealloc_full_example = krealloc_full 4096 112 33554432 in_use-IsHeap refl (omega arith) refl
