-- ===== src/Memory/Layout.antt =====
-- What a heap stands for: the list of its blocks, in address order.
-- `Chain` says that headers, links and footers agree with the list; `IsHeap` adds the sizes, the
-- counters, and that no two free blocks are neighbours.
use meu_so_baremetal.Prelude.{
  ℕ, ◌+◌, ◌*◌, ◌%◌, ◌<◌, ◌≡◌, Bool, true, false, List, [], ◌∷◌, length, if◌then◌else◌, arith,
}
use meu_so_baremetal.Memory.{Heap, mk_header, magic_footer, header_size, overhead, heap_size}

-- Payload size, and whether the block is free.
abbrev pub Block : Type 0
Block = ℕ × Bool

-- The link to the list at `a`: NULL when there is none.
abbrev pub link : ℕ → List Block → ℕ
link a [] = 0
link a (b ∷ bs) = a

abbrev pub Chain : Heap → ℕ → ℕ → List Block → Type 0
Chain h prev a [] = Unit {0}
Chain h prev a ((n, f) ∷ bs) =
    (h.header a ≡ mk_header n f (link (a + overhead + n) bs) prev)
    × (h.footer (a + header_size + n) ≡ magic_footer)
    × Chain h a (a + overhead + n) bs

-- The bytes that the blocks take up, with their headers and footers.
abbrev pub extent : List Block → ℕ
extent [] = 0
extent ((n, f) ∷ bs) = overhead + n + extent bs

abbrev pub used_bytes : List Block → ℕ
used_bytes [] = 0
used_bytes ((n, f) ∷ bs) = (if f then 0 else n) + used_bytes bs

abbrev pub free_bytes : List Block → ℕ
free_bytes [] = 0
free_bytes ((n, f) ∷ bs) = (if f then n else 0) + free_bytes bs

-- Sizes are multiples of 16.
abbrev pub Aligned : List Block → Type 0
Aligned [] = Unit {0}
Aligned ((n, f) ∷ bs) = (n % 16 ≡ 0) × Aligned bs

-- No two neighbours are free.
abbrev pub Merged : List Block → Type 0
Merged [] = Unit {0}
Merged (b ∷ []) = Unit {0}
Merged ((n, f) ∷ (m, g) ∷ bs) = ((f ≡ true) → g ≡ false) × Merged ((m, g) ∷ bs)

pub record IsHeap (h : Heap) (bs : List Block) : Type 0 where
  pub chain : Chain h 0 h.heap_first bs
  pub start : 0 < h.heap_first
  pub start_aligned : h.heap_first % 16 ≡ 0
  pub size : extent bs ≡ heap_size
  pub aligned : Aligned bs
  pub merged : Merged bs
  pub count : h.block_count ≡ length bs
  pub allocated : h.total_allocated ≡ used_bytes bs
  pub free : h.total_free + overhead ≡ free_bytes bs + overhead * h.block_count

pub used-add-free :
    (bs : List Block) → used_bytes bs + free_bytes bs + overhead * length bs ≡ extent bs
used-add-free [] = omega arith
used-add-free ((n, true) ∷ bs) = omega (arith, used-add-free bs)
used-add-free ((n, false) ∷ bs) = omega (arith, used-add-free bs)
