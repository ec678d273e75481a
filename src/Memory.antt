-- ===== src/Memory.antt =====
-- src/memory.c and include/memory.h: the kernel heap, a doubly linked list of blocks with
-- first-fit allocation, splitting and merging.
-- Block headers are kept apart from the payload bytes: `header a` is the `block_header_t` that
-- stands at address `a`, `footer a` the magic word of the `block_footer_t` at `a`, `bytes` the rest.
pub mod Resize
pub mod Layout
pub mod Spec
pub mod Frame
pub mod FirstFit
pub mod SpecLaws
pub mod Carve
pub mod Carved
pub mod Malloc
pub mod Merge
pub mod Step
pub mod Release
pub mod CoalesceLaws
pub mod Neighbours
pub mod Free
pub mod RoundTrip
pub mod Lifetime
pub mod Owners
pub mod Contents
pub mod Reach
pub mod Resizing
mod Tests
use meu_so_baremetal.Prelude.{
  ℕ, zero, suc, ◌+◌, ◌-◌, ◌*◌, ◌/◌, ◌%◌, ◌^◌, Bool, true, false, not, ◌&&◌, ◌||◌, Option, none,
  some, leb, ltb, ◌==◌, if◌then◌else◌,
}
use meu_so_baremetal.Klibc.{ByteMem}

abbrev pub magic_header : ℕ
magic_header = 0xDEADBEEFCAFEBABE

abbrev pub magic_footer : ℕ
magic_footer = 0xCAFEBABEDEADBEEF

-- `sizeof(block_header_t)`, `sizeof(block_footer_t)` and their sum.
abbrev pub header_size : ℕ
header_size = 48

abbrev pub footer_size : ℕ
footer_size = 16

abbrev pub overhead : ℕ
overhead = 64

abbrev pub heap_size : ℕ
heap_size = 32 * 1024 * 1024

-- `size_t` arithmetic.
abbrev pub add_size : ℕ → ℕ → ℕ
add_size a b = (a + b) % 2 ^ 64

abbrev pub sub_size : ℕ → ℕ → ℕ
sub_size a b = (a + (2 ^ 64 - b)) % 2 ^ 64

pub record Header : Type 0 where
  pub magic : ℕ
  pub size : ℕ
  pub is_free : Bool
  pub next : ℕ
  pub prev : ℕ

abbrev pub mk_header : ℕ → Bool → ℕ → ℕ → Header
mk_header size is_free next prev = record {
  magic = magic_header;
  size = size;
  is_free = is_free;
  next = next;
  prev = prev;
}

pub record Heap : Type 0 where
  pub header : ℕ → Header
  pub footer : ℕ → ℕ
  pub bytes : ByteMem
  pub heap_first : ℕ
  pub total_allocated : ℕ
  pub total_free : ℕ
  pub block_count : ℕ

abbrev pub update {ℓ} : {A : Type ℓ} → (ℕ → A) → ℕ → A → ℕ → A
update f i v j = if j == i then v else f j

-- The header at `a` becomes `b`; nothing else changes.
abbrev pub put : ℕ → Header → Heap → Heap
put a b h = record h { header = update h.header a b }

unfoldable pub set_footer : ℕ → Heap → Heap
set_footer a h = record h {
  footer = update h.footer (a + header_size + (h.header a).size) magic_footer;
}

-- `if (p) p->prev = v`
unfoldable pub set_prev : ℕ → ℕ → Heap → Heap
set_prev p v h = if p == 0 then h else put p (record (h.header p) { prev = v }) h

abbrev pub align_up : ℕ → ℕ
align_up n = if n % 16 == 0 then n else n + (16 - n % 16)

-- `kernel_end` is the address of the linker's symbol.
unfoldable pub memory_init : ℕ → Heap → Heap
unfolding set_footer
memory_init kernel_end h =
    let first = align_up kernel_end in
    let size = heap_size - header_size - footer_size in
    let b = mk_header size true 0 0 in
    set_footer first (record (put first b h) {
      heap_first = first;
      total_free = size;
      total_allocated = 0;
      block_count = 1;
    })

-- How the search of `kmalloc` ends: at a block, with NULL, or not within the fuel.
pub data Search : Type 0 where
  hit : ℕ → Search
  miss out_of_fuel : Search

abbrev pub usable : ℕ → Header → Bool
usable size b = b.is_free && leb size b.size

unfoldable pub find : ℕ → Heap → ℕ → ℕ → Search
find zero h curr size = out_of_fuel
find (suc k) h curr size =
    let b = h.header curr in
    let rest = find k h b.next size in
    if curr == 0
    then miss
    else if not (b.magic == magic_header)
    then miss
    else if usable size b
    then hit curr
    else rest

-- Cuts the free block at `curr` in two, the second of which stays free.
unfoldable pub split : ℕ → ℕ → Heap → Heap
unfolding set_footer set_prev
split curr size h =
    let b = h.header curr in
    let new = curr + header_size + size + footer_size in
    let nb = mk_header (b.size - size - header_size - footer_size) true b.next curr in
    let h1 = set_prev b.next new (put new nb h) in
    let h2 = set_footer new (put curr (record (h1.header curr) { next = new }) h1) in
    record (put curr (record (h2.header curr) { size = size }) h2) {
      block_count = add_size h2.block_count 1;
    }

-- Marks the block at `curr` as used and counts it.
unfoldable pub take_block : ℕ → Heap → Heap
unfolding set_footer
take_block curr h =
    let b = h.header curr in
    set_footer curr (record (put curr (record b { is_free = false }) h) {
      total_allocated = add_size h.total_allocated b.size;
      total_free = sub_size h.total_free b.size;
    })

unfoldable pub allocate : ℕ → ℕ → Heap → Heap
unfolding split take_block
allocate curr size h =
    let wide = leb (size + header_size + footer_size + 32) (h.header curr).size in
    take_block curr (if wide then split curr size h else h)

abbrev pub max_request : ℕ
max_request = 1024 * 1024 * 128

abbrev pub bad_request : ℕ → Bool
bad_request size = size == 0 || ltb max_request size

-- What `kmalloc` returns for each end of its search; `none` if the search did not end.
unfoldable pub settle : ℕ → Heap → Search → Option (ℕ × Heap)
settle size h (hit curr) = some (curr + header_size, allocate curr size h)
settle size h miss = some (0, h)
settle size h out_of_fuel = none

-- The search gets `block_count + 1` rounds.
unfoldable pub kmalloc : ℕ → Heap → Option (ℕ × Heap)
unfolding settle
kmalloc size h =
    if bad_request size
    then some (0, h)
    else settle (align_up size) h (find (h.block_count + 1) h h.heap_first (align_up size))

-- `block` swallows the block behind it.
unfoldable pub merge_next : ℕ → Heap → Heap
unfolding set_prev
merge_next block h =
    let b = h.header block in
    let n = h.header b.next in
    let h1 =
      put block
        (record b { size = add_size b.size (header_size + footer_size + n.size); next = n.next })
        h in
    let h2 = set_prev n.next block h1 in record h2 { block_count = sub_size h2.block_count 1 }

-- The block before `block` swallows it.
unfoldable pub merge_prev : ℕ → Heap → Heap
unfolding set_prev
merge_prev block h =
    let b = h.header block in
    let p = h.header b.prev in
    let h1 =
      put b.prev
        (record p { size = add_size p.size (header_size + footer_size + b.size); next = b.next })
        h in
    let h2 = set_prev b.next b.prev h1 in record h2 { block_count = sub_size h2.block_count 1 }

abbrev pub free_at : ℕ → Heap → Bool
free_at a h = not (a == 0) && (h.header a).is_free

-- The block, marked free and counted.
unfoldable pub give_back : ℕ → Heap → Heap
give_back block h =
    let b = h.header block in
    record (put block (record b { is_free = true }) h) {
      total_allocated = sub_size h.total_allocated b.size;
      total_free = add_size h.total_free b.size;
    }

-- The block merges with the one behind it, if that is free.
unfoldable pub absorb_next : ℕ → Heap → Heap
absorb_next block h = if free_at (h.header block).next h then merge_next block h else h

-- The block merges with the one before it, if that is free; the footer is written.
unfoldable pub yield_prev : ℕ → Heap → Heap
yield_prev block h =
    let prev = (h.header block).prev in
    if free_at prev h then set_footer prev (merge_prev block h) else set_footer block h

unfoldable pub kfree : ℕ → Heap → Heap
kfree ptr h =
    let block = ptr - header_size in
    let b = h.header block in
    if ptr == 0
    then h
    else if not (b.magic == magic_header) || b.is_free
    then h
    else yield_prev block (absorb_next block (give_back block h))
