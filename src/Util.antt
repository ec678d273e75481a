-- ===== src/Util.antt =====
-- src/util.c and include/util.h: the vector of 64-bit words over the heap of Memory.
-- A vector is the address of its structure; the structure and the words are bytes of the heap.
use meu_so_baremetal.Prelude.{
  ℕ, zero, suc, ◌+◌, ◌*◌, ◌/◌, ◌%◌, ◌^◌, ◌||◌, Option, none, some, leb, ◌==◌, if◌then◌else◌,
}
use meu_so_baremetal.Klibc.{ByteMem, fast_memset, fast_memcpy}
use meu_so_baremetal.Memory.{Heap, kmalloc, kfree}
use meu_so_baremetal.Memory.Resize.{krealloc}

unfoldable pub kmemset : (dest val count : ℕ) → ByteMem → ByteMem
kmemset dest val count m = fast_memset dest val count m

unfoldable pub kmemcpy : (dest src count : ℕ) → ByteMem → ByteMem
kmemcpy dest src count m = fast_memcpy dest src count m

-- `k` bytes at `a`, little-endian.
unfoldable pub get_bytes : (k a : ℕ) → ByteMem → ℕ
get_bytes zero a m = 0
get_bytes (suc k) a m = m a + 2 ^ 8 * get_bytes k (a + 1) m

unfoldable pub put_bytes : (k a v : ℕ) → ByteMem → ByteMem
put_bytes zero a v m = m
put_bytes (suc k) a v m = put_bytes k (a + 1) (v / 2 ^ 8) (λ x. if x == a then v % 2 ^ 8 else m x)

abbrev pub get_word : ℕ → Heap → ℕ
get_word a h = get_bytes 8 a h.bytes

abbrev pub put_word : ℕ → ℕ → Heap → Heap
put_word a v h = record h { bytes = put_bytes 8 a v h.bytes }

-- The three fields, at offsets 0, 8 and 16.
abbrev pub vec_data : ℕ → Heap → ℕ
vec_data vec h = get_word vec h

abbrev pub vec_capacity : ℕ → Heap → ℕ
vec_capacity vec h = get_word (vec + 8) h

abbrev pub vec_size : ℕ → Heap → ℕ
vec_size vec h = get_word (vec + 16) h

-- The fields of a new vector; that the words' address may be 0 is not tested.
abbrev pub filled : (vec cap : ℕ) → Option (ℕ × Heap) → Option (ℕ × Heap)
filled vec cap none = none
filled vec cap (some (words, h)) =
    some (vec, put_word (vec + 16) 0 (put_word (vec + 8) cap (put_word vec words h)))

abbrev pub with_words : ℕ → Option (ℕ × Heap) → Option (ℕ × Heap)
with_words cap none = none
with_words cap (some (vec, h)) =
    let made = filled vec cap (kmalloc (cap * 8 % 2 ^ 64) h) in
    if vec == 0 then some (0, h) else made

unfoldable pub kvector_create : ℕ → Heap → Option (ℕ × Heap)
kvector_create initial_cap h =
    let cap = if initial_cap == 0 then 4 else initial_cap in with_words cap (kmalloc 24 h)

unfoldable pub kvector_append : (vec val : ℕ) → Heap → Heap
kvector_append vec val h =
    let size = vec_size vec h in
    put_word (vec_data vec h + 8 * size) val (put_word (vec + 16) (size + 1) h)

abbrev pub regrown : (vec cap : ℕ) → Option (ℕ × Heap) → Option Heap
regrown vec cap none = none
regrown vec cap (some (words, h)) = some (put_word (vec + 8) cap (put_word vec words h))

-- The capacity doubled, if the vector is full.
unfoldable pub kvector_grow : ℕ → Heap → Option Heap
kvector_grow vec h =
    let cap = vec_capacity vec h * 2 % 2 ^ 64 in
    let grown = regrown vec cap (krealloc (vec_data vec h) (cap * 8 % 2 ^ 64) h) in
    if leb (vec_capacity vec h) (vec_size vec h) then grown else some h

unfoldable pub kvector_push : (vec val : ℕ) → Heap → Option Heap
kvector_push vec val h =
    if vec == 0
    then some h
    else elim (kvector_grow vec h) [ none ↦ none | some g ↦ some (kvector_append vec val g) ]

unfoldable pub kvector_get : (vec index : ℕ) → Heap → ℕ
kvector_get vec index h =
    if vec == 0 || leb (vec_size vec h) index then 0 else get_word (vec_data vec h + 8 * index) h

unfoldable pub kvector_free : ℕ → Heap → Heap
kvector_free vec h =
    let words = vec_data vec h in
    if vec == 0 then h else kfree vec (if words == 0 then h else kfree words h)
