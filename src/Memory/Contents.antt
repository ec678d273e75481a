-- ===== src/Memory/Contents.antt =====
-- The payload bytes across `kcalloc`, `krealloc` and `kfree`.
use meu_so_baremetal.Prelude.{
  ℕ, ◌+◌, ◌-◌, ◌*◌, ◌/◌, ◌%◌, ◌<◌, ◌≡◌, ◌∙◌, sym, ap, inl, inr, true, false, some, arith,
  Bool-cases, if◌then◌else◌, some_pair,
}
use meu_so_baremetal.Klibc.{ByteMem, within, kmemset128_zero, kmemcpy128}
use meu_so_baremetal.Klibc.Chunks.{Apart, fill_chunks_lem, move_chunks_lem}
use meu_so_baremetal.Memory.{
  Heap, header_size, align_up, hit, miss, out_of_fuel, find, bad_request, allocate, kmalloc, kfree,
  give_back, absorb_next, yield_prev, merge_next, merge_prev, set_footer, settle, Search,
}
use meu_so_baremetal.Memory.Resize.{zero_payload, copy_payload, zero_blocks, copy_blocks}

allocate-bytes : (q size : ℕ) (h : Heap) → (allocate q size h).bytes ≡ h.bytes
unfolding allocate
allocate-bytes q size h = ground arith

kmalloc_bad : (size : ℕ) (h : Heap) → bad_request size ≡ true → kmalloc size h ≡ some (0, h)
unfolding kmalloc
kmalloc_bad size h e = rw e

kmalloc_good :
    (size : ℕ) (h : Heap)
    → bad_request size ≡ false
    → kmalloc size h
      ≡ settle (align_up size) h (find (h.block_count + 1) h h.heap_first (align_up size))
unfolding kmalloc
kmalloc_good size h e = rw e

settle-bytes :
    (n : ℕ) (h g : Heap) (p : ℕ) (r : Search) → settle n h r ≡ some (p, g) → g.bytes ≡ h.bytes
unfolding settle
settle-bytes n h g p (hit curr) e =
    ap (λ k. k.bytes) (sym (some_pair e).1) ∙ allocate-bytes curr n h
settle-bytes n h g p miss e = ap (λ k. k.bytes) (sym (some_pair e).1)
settle-bytes n h g p out_of_fuel e = absurd (cc)

pub kmalloc-bytes :
    (size : ℕ) (h g : Heap) (p : ℕ) → kmalloc size h ≡ some (p, g) → g.bytes ≡ h.bytes
kmalloc-bytes size h g p e = elim (Bool-cases (bad_request size)) [
  | inl bad ↦ ap (λ k. k.bytes) (sym (some_pair (sym (kmalloc_bad size h bad) ∙ e)).1)
  | inr good ↦ settle-bytes (align_up size) h g p _ (sym (kmalloc_good size h good) ∙ e)
]

merge_next-bytes : (q : ℕ) (h : Heap) → (merge_next q h).bytes ≡ h.bytes
unfolding merge_next
merge_next-bytes q h = ground arith

merge_prev-bytes : (q : ℕ) (h : Heap) → (merge_prev q h).bytes ≡ h.bytes
unfolding merge_prev
merge_prev-bytes q h = ground arith

absorb_next-bytes : (q : ℕ) (h : Heap) → (absorb_next q h).bytes ≡ h.bytes
unfolding absorb_next
absorb_next-bytes q h = ground (arith, merge_next-bytes q h)

yield_prev-bytes : (q : ℕ) (h : Heap) → (yield_prev q h).bytes ≡ h.bytes
unfolding yield_prev set_footer
yield_prev-bytes q h = ground (arith, merge_prev-bytes q h)

pub kfree-bytes : (p : ℕ) (h : Heap) → (kfree p h).bytes ≡ h.bytes
unfolding kfree give_back
kfree-bytes p h =
    let q = p - header_size in
    ground (
      arith,
      yield_prev-bytes q (absorb_next q (give_back q h)),
      absorb_next-bytes q (give_back q h),
    )

zero_blocks_lem :
    (p k : ℕ) (m : ByteMem) (x : ℕ)
    → 0 < p
    → zero_blocks p k m x ≡ (if within p (16 * k) x then 0 else m x)
unfolding zero_blocks kmemset128_zero
zero_blocks_lem p k m x pos = ground (arith, fill_chunks_lem 16 k p 0 m x)

pub zero_payload_lem :
    (p n : ℕ) (m : ByteMem) (x : ℕ)
    → 0 < p
    → zero_payload p n m x ≡ (if within p n x then 0 else m x)
unfolding zero_payload
zero_payload_lem p n m x pos =
    let m1 = zero_blocks p (n / 16) m in
    ground
      (arith, fill_chunks_lem 1 (n % 16) (p + n / 16 * 16) 0 m1 x, zero_blocks_lem p (n / 16) m x)

copy_blocks_lem :
    (d s k : ℕ) (m : ByteMem) (x : ℕ)
    → 0 < d
    → 0 < s
    → Apart d s (16 * k)
    → copy_blocks d s k m x ≡ (if within d (16 * k) x then m (s + (x - d)) else m x)
unfolding copy_blocks kmemcpy128
copy_blocks_lem d s k m x dp sp ap' = ground (arith, move_chunks_lem 16 k d s m x)

pub copy_payload_lem :
    (d s n : ℕ) (m : ByteMem) (x : ℕ)
    → 0 < d
    → 0 < s
    → Apart d s n
    → copy_payload d s n m x ≡ (if within d n x then m (s + (x - d)) else m x)
unfolding copy_payload
copy_payload_lem d s n m x dp sp ap' =
    let m1 = copy_blocks d s (n / 16) m in
    let y = s + n / 16 * 16 + (x - (d + n / 16 * 16)) in
    ground (
      arith,
      move_chunks_lem 1 (n % 16) (d + n / 16 * 16) (s + n / 16 * 16) m1 x,
      copy_blocks_lem d s (n / 16) m x,
      copy_blocks_lem d s (n / 16) m y,
    )
