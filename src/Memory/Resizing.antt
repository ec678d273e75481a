-- ===== src/Memory/Resizing.antt =====
-- `kcalloc` and `krealloc` on a well-formed heap.
use mathlib.Core.Path.{subst}
use native.Mathlib.Decide.{dec_lt}
use meu_so_baremetal.Prelude.{
  ℕ, ◌+◌, ◌-◌, ◌*◌, ◌%◌, ◌^◌, ◌≤◌, ◌<◌, ◌≡◌, ◌≢◌, ◌∙◌, ap, inl, inr, true, false, List, some, none,
  arith, leb, ◌==◌, if◌then◌else◌,
}
use meu_so_baremetal.Klibc.{ByteMem, within}
use meu_so_baremetal.Klibc.Chunks.{Apart}
use meu_so_baremetal.Memory.{Heap, header_size, align_up, kmalloc, kfree}
use meu_so_baremetal.Memory.Layout.{Block, IsHeap}
use meu_so_baremetal.Memory.Spec.{carve, coalesce, mark_free, block_at}
use meu_so_baremetal.Memory.SpecLaws.{align_up_lem, first_fit-Grant}
use meu_so_baremetal.Memory.Malloc.{request, Mallocs, kmalloc_refines}
use meu_so_baremetal.Memory.Free.{kfree_refines, block_at-header}
use meu_so_baremetal.Memory.RoundTrip.{request-first_fit}
use meu_so_baremetal.Memory.Owners.{block_at-carve, block_at-apart}
use meu_so_baremetal.Memory.Resize.{zero_payload, copy_payload, kcalloc, krealloc}
use meu_so_baremetal.Memory.Contents.{
  kmalloc-bytes, kfree-bytes, zero_payload_lem, copy_payload_lem,
}

-- The payload bytes are no part of a heap's shape.
IsHeap-bytes :
    (h : Heap) (bs : List Block) (m : ByteMem) → IsHeap h bs → IsHeap (record h { bytes = m }) bs
IsHeap-bytes h bs m v = record {
  chain = v.chain;
  start = v.start;
  start_aligned = v.start_aligned;
  size = v.size;
  aligned = v.aligned;
  merged = v.merged;
  count = v.count;
  allocated = v.allocated;
  free = v.free;
}

kcalloc_runs :
    (num size p : ℕ) (h g : Heap)
    → kmalloc (num * size % 2 ^ 64) h ≡ some (p, g)
    → 0 < p
    → kcalloc num size h
      ≡ some (p, record g { bytes = zero_payload p (num * size % 2 ^ 64) g.bytes })
unfolding kcalloc
kcalloc_runs num size p h g e pos =
    let away : (p == 0) ≡ false = ground arith in rw (e, kcalloc) (rw away)

-- When `kmalloc` has room for the product, taken modulo 2^64, `kcalloc` returns that block, makes
-- all bytes of it zero that the product counts, changes no other byte, and leaves the heap well formed.
pub kcalloc_zeroes :
    {h : Heap} {bs : List Block} (num size q : ℕ)
    → IsHeap h bs
    → request (num * size % 2 ^ 64) h.heap_first bs ≡ some q
    → let total = num * size % 2 ^ 64 in
      (g : Heap) × (kcalloc num size h ≡ some (q + header_size, g))
      × IsHeap g (carve (align_up total) bs)
      × (g.heap_first ≡ h.heap_first)
      × ((x : ℕ) → g.bytes x ≡ (if within (q + header_size) total x then 0 else h.bytes x))
kcalloc_zeroes {h} {bs} num size q v e =
    let total = num * size % 2 ^ 64 in
    let (g, runs, is, same) : Mallocs total h bs (some q) = rw e at (kmalloc_refines v total) in
    (
      record g { bytes = zero_payload (q + header_size) total g.bytes },
      kcalloc_runs num size (q + header_size) h g runs (omega arith),
      IsHeap-bytes g _ _ is,
      same,
      λ x.
          zero_payload_lem (q + header_size) total g.bytes x (omega arith)
          ∙ rw (kmalloc-bytes total h g (q + header_size) runs),
    )

-- `kcalloc` does not notice that the product overflows: it then returns a block smaller than the
-- product.
pub kcalloc_overflow :
    {h : Heap} {bs : List Block} (num size q : ℕ)
    → IsHeap h bs
    → 2 ^ 64 ≤ num * size
    → request (num * size % 2 ^ 64) h.heap_first bs ≡ some q
    → (g : Heap) × (n : ℕ) × (kcalloc num size h ≡ some (q + header_size, g))
      × ((g.header q).size ≡ n)
      × (n < num * size)
kcalloc_overflow {h} {bs} num size q v big e =
    let total = num * size % 2 ^ 64 in
    let a = h.heap_first in
    let (g, runs, is, same, _) = kcalloc_zeroes num size q v e in
    let grant =
      first_fit-Grant (align_up total) a q bs v.aligned (request-first_fit total a q bs e) in
    let at =
      block_at-header g 0 g.heap_first q grant.new false (carve (align_up total) bs) is.chain
        (rw same grant.is_used) in
    (g, grant.new, runs, at.2, omega (arith, grant.fits_old, grant.high, v.size))

-- What `krealloc` of the block at `p` does when it moves: the block at `q` is new.
abbrev moved : ℕ → ℕ → ℕ → Heap → Heap
moved p q n g =
    kfree (p + header_size)
      (record g { bytes = copy_payload (q + header_size) (p + header_size) n g.bytes })

krealloc_runs :
    (p q n new_size : ℕ) (h g : Heap)
    → (h.header p).size ≡ n
    → n < new_size
    → kmalloc new_size h ≡ some (q + header_size, g)
    → (g.header p).size ≡ n
    → krealloc (p + header_size) new_size h ≡ some (q + header_size, moved p q n g)
unfolding krealloc
krealloc_runs p q n new_size h g e lt runs e' =
    let away : (p + header_size == 0) ≡ false = ground arith in
    let back : p + header_size - header_size ≡ p = omega arith in
    let large : (new_size == 0) ≡ false = ground arith in
    let grows : leb new_size n ≡ false = ground arith in
    let away' : (q + header_size == 0) ≡ false = ground arith in
    rw (away, back, large, e, grows, runs) (rw (away', back, e'))

-- The payloads of a used block and of a block that `kmalloc` grants do not overlap.
payloads-Apart :
    (a p q n m size : ℕ) (bs : List Block)
    → p ≢ q
    → n ≤ m
    → block_at p a bs ≡ some (n, false)
    → block_at q a bs ≡ some (m, false)
    → Apart (q + header_size) (p + header_size) n
payloads-Apart a p q n m size bs ne le ep eq' = elim (dec_lt p q) [
  | yes lt ↦ inl (omega (arith, block_at-apart p q a n m false false bs lt ep eq'))
  | no ge ↦ inr (omega (arith, block_at-apart q p a m n false false bs (omega arith) eq' ep))
]

-- A used block of `n` bytes is to grow, and `kmalloc` has room: `krealloc` returns the new block,
-- whose first `n` bytes are those of the old one; no other byte changes, the old block is freed,
-- and the heap stays well formed.
pub krealloc_moves :
    {h : Heap} {bs : List Block} (p n new_size q : ℕ)
    → IsHeap h bs
    → block_at p h.heap_first bs ≡ some (n, false)
    → n < new_size
    → request new_size h.heap_first bs ≡ some q
    → (g : Heap) × (krealloc (p + header_size) new_size h ≡ some (q + header_size, g))
      × IsHeap g (coalesce (mark_free p h.heap_first (carve (align_up new_size) bs)))
      × ((x : ℕ)
          → g.bytes x ≡ (
              if within (q + header_size) n x
              then h.bytes (p + header_size + (x - (q + header_size)))
              else h.bytes x))
krealloc_moves {h} {bs} p n new_size q v used lt e =
    let a = h.heap_first in
    let (g, runs, is, same) : Mallocs new_size h bs (some q) =
      rw e at (kmalloc_refines v new_size) in
    let grant =
      first_fit-Grant (align_up new_size) a q bs v.aligned (request-first_fit new_size a q bs e) in
    let still = block_at-carve (align_up new_size) p a n bs used in
    let here = block_at-header h 0 a p n false bs v.chain used in
    let there = block_at-header g 0 g.heap_first p n false _ is.chain (rw same still) in
    let ne : p ≢ q = λ e'.
      let old : block_at q a bs ≡ some (n, false) = rw e' at used in cc (old, grant.was_free) in
    let ap' =
      payloads-Apart a p q n grant.new new_size _ ne
        (omega (arith, grant.enough, align_up_lem new_size)) still grant.is_used in
    let k = record g { bytes = copy_payload (q + header_size) (p + header_size) n g.bytes } in
    let freed = kfree_refines {h = k} p n (IsHeap-bytes g _ _ is) (rw same still) in
    (
      moved p q n g,
      krealloc_runs p q n new_size h g here.2 lt runs there.2,
      subst (λ x. IsHeap (moved p q n g) (coalesce (mark_free p x (carve (align_up new_size) bs))))
          same freed.0,
      λ x.
          ap (λ b. b x) (kfree-bytes (p + header_size) k)
          ∙ copy_payload_lem (q + header_size) (p + header_size) n g.bytes x (omega arith)
              (omega arith) ap'
          ∙ rw (kmalloc-bytes new_size h g (q + header_size) runs),
    )

-- `krealloc` of a used block to a size that fits keeps the block and changes nothing.
pub krealloc_fits :
    {h : Heap} {bs : List Block} (p n new_size : ℕ)
    → IsHeap h bs
    → block_at p h.heap_first bs ≡ some (n, false)
    → 0 < new_size
    → new_size ≤ n
    → krealloc (p + header_size) new_size h ≡ some (p + header_size, h)
unfolding krealloc
krealloc_fits {h} {bs} p n new_size v used pos le =
    let away : (p + header_size == 0) ≡ false = ground arith in
    let back : p + header_size - header_size ≡ p = omega arith in
    let here = block_at-header h 0 h.heap_first p n false bs v.chain used in
    let large : (new_size == 0) ≡ false = ground arith in
    let fits : leb new_size n ≡ true = ground arith in rw (away, large, back, here.2, fits)

-- If a used block is to grow and `kmalloc` has no room, `krealloc` returns NULL and changes nothing.
pub krealloc_full :
    {h : Heap} {bs : List Block} (p n new_size : ℕ)
    → IsHeap h bs
    → block_at p h.heap_first bs ≡ some (n, false)
    → n < new_size
    → request new_size h.heap_first bs ≡ none
    → krealloc (p + header_size) new_size h ≡ some (0, h)
unfolding krealloc
krealloc_full {h} {bs} p n new_size v used lt e =
    let away : (p + header_size == 0) ≡ false = ground arith in
    let back : p + header_size - header_size ≡ p = omega arith in
    let here = block_at-header h 0 h.heap_first p n false bs v.chain used in
    let large : (new_size == 0) ≡ false = ground arith in
    let grows : leb new_size n ≡ false = ground arith in
    let fails : Mallocs new_size h bs none = rw e at (kmalloc_refines v new_size) in
    rw (away, large, back, here.2, grows, fails)
