-- ===== src/Memory/Lifetime.antt =====
-- The heap over time: its start, any sequence of calls, and a block freed twice.
use meu_so_baremetal.Prelude.{
  ℕ, ◌-◌, ◌<◌, ◌≡◌, ◌≢◌, refl, inl, inr, true, not, ◌||◌, [], ◌∷◌, arith, Bool-cases, ◌==◌,
}
use meu_so_baremetal.Memory.{
  Heap, header_size, overhead, heap_size, magic_header, memory_init, kfree, give_back, absorb_next,
  yield_prev, merge_next, merge_prev, set_footer,
}
use meu_so_baremetal.Memory.Layout.{IsHeap}
use meu_so_baremetal.Memory.RoundTrip.{kfree_ignores}

-- No step of `kfree` makes a free block used.
module _ (h : Heap) (x : ℕ) (free : (h.header x).is_free ≡ true) where
  merge_next-free : (q : ℕ) → ((merge_next q h).header x).is_free ≡ true
  unfolding merge_next
  merge_next-free q = ground arith

  merge_prev-free : (q : ℕ) → ((merge_prev q h).header x).is_free ≡ true
  unfolding merge_prev
  merge_prev-free q = ground arith

  absorb_next-free : (q : ℕ) → ((absorb_next q h).header x).is_free ≡ true
  unfolding absorb_next
  absorb_next-free q = ground (arith, merge_next-free q)

  yield_prev-free : (q : ℕ) → ((yield_prev q h).header x).is_free ≡ true
  unfolding yield_prev set_footer
  yield_prev-free q = ground (arith, merge_prev-free q)

give_back-free : (q : ℕ) (h : Heap) → ((give_back q h).header q).is_free ≡ true
unfolding give_back
give_back-free q h = ground arith

kfree-free :
    (ptr : ℕ) (h : Heap)
    → ptr ≢ 0
    → (h.header (ptr - header_size)).magic ≡ magic_header
    → ((kfree ptr h).header (ptr - header_size)).is_free ≡ true
unfolding kfree
kfree-free ptr h ne e =
    let q = ptr - header_size in
    ground (
      arith,
      yield_prev-free (absorb_next q (give_back q h)) q
          (absorb_next-free (give_back q h) q (give_back-free q h) q) q,
    )

-- Whatever the heap and the pointer, freeing the pointer a second time changes nothing.
pub kfree-kfree : (ptr : ℕ) (h : Heap) → kfree ptr (kfree ptr h) ≡ kfree ptr h
kfree-kfree ptr h =
    elim (Bool-cases (ptr == 0 || not ((h.header (ptr - header_size)).magic == magic_header))) [
      | inl skip ↦ let e = kfree_ignores ptr h (ground arith) in rw e e
      | inr go ↦
          kfree_ignores ptr (kfree ptr h)
            (inr (inr (kfree-free ptr h (ground arith) (ground arith))))
    ]

-- `memory_init` makes one free block of the whole heap.
pub memory_init-IsHeap :
    (kernel_end : ℕ) (h : Heap)
    → 0 < kernel_end
    → IsHeap (memory_init kernel_end h) ((heap_size - overhead, true) ∷ [])
unfolding memory_init set_footer
memory_init-IsHeap kernel_end h pos = record {
  chain = (ground arith, ground arith, tt);
  start = ground arith;
  start_aligned = ground arith;
  size = refl;
  aligned = (refl, tt);
  merged = tt;
  count = refl;
  allocated = refl;
  free = refl;
}
