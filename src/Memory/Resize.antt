-- ===== src/Memory/Resize.antt =====
-- `kcalloc` and `krealloc` of src/memory.c.
use meu_so_baremetal.Prelude.{
  ℕ, ◌+◌, ◌-◌, ◌*◌, ◌/◌, ◌%◌, ◌^◌, Option, none, some, leb, ltb, ◌==◌, if◌then◌else◌,
}
use meu_so_baremetal.Klibc.{ByteMem, fill_chunks, move_chunks, kmemset128_zero, kmemcpy128}
use meu_so_baremetal.Memory.{Heap, header_size, kmalloc, kfree}

-- The whole 16-byte blocks.
unfoldable pub zero_blocks : ℕ → ℕ → ByteMem → ByteMem
zero_blocks ptr blocks m = if ltb 0 blocks then kmemset128_zero ptr blocks m else m

unfoldable pub zero_payload : ℕ → ℕ → ByteMem → ByteMem
zero_payload ptr total m =
    let m1 = zero_blocks ptr (total / 16) m in
    if ltb 0 (total % 16) then fill_chunks 1 (total % 16) (ptr + total / 16 * 16) 0 m1 else m1

unfoldable pub kcalloc : ℕ → ℕ → Heap → Option (ℕ × Heap)
kcalloc num size h =
    let total = num * size % 2 ^ 64 in
    elim (kmalloc total h) [
      | none ↦ none
      | some (ptr, h1) ↦
          if ptr == 0
          then some (ptr, h1)
          else some (ptr, record h1 { bytes = zero_payload ptr total h1.bytes })
    ]

unfoldable pub copy_blocks : ℕ → ℕ → ℕ → ByteMem → ByteMem
copy_blocks dest src blocks m = if ltb 0 blocks then kmemcpy128 dest src blocks m else m

unfoldable pub copy_payload : ℕ → ℕ → ℕ → ByteMem → ByteMem
copy_payload dest src size m =
    let m1 = copy_blocks dest src (size / 16) m in
    if ltb 0 (size % 16)
    then move_chunks 1 (size % 16) (dest + size / 16 * 16) (src + size / 16 * 16) m1
    else m1

unfoldable pub krealloc : ℕ → ℕ → Heap → Option (ℕ × Heap)
krealloc ptr new_size h =
    let block = ptr - header_size in
    if ptr == 0
    then kmalloc new_size h
    else if new_size == 0
    then some (0, kfree ptr h)
    else if leb new_size (h.header block).size
    then some (ptr, h)
    else elim (kmalloc new_size h) [
      | none ↦ none
      | some (new_ptr, h1) ↦
          if new_ptr == 0
          then some (new_ptr, h1)
          else some (
            new_ptr,
            kfree ptr
                (record h1 { bytes = copy_payload new_ptr ptr (h1.header block).size h1.bytes }),
          )
    ]
