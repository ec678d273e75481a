-- ===== src/Memory/Malloc.antt =====
-- `kmalloc` of src/memory.c against the abstract list of blocks.
use mathlib.Core.Path.{subst}
use meu_so_baremetal.Prelude.{
  ℕ, ◌+◌, ◌%◌, ◌<◌, ◌≡◌, ◌∙◌, refl, inl, inr, false, List, [], ◌∷◌, Option, some, none, arith,
  Bool-cases, length, if◌then◌else◌, sym,
}
use meu_so_baremetal.Memory.{
  Heap, header_size, heap_size, align_up, bad_request, find, allocate, kmalloc,
}
use meu_so_baremetal.Memory.Layout.{Block, Chain, link, extent, IsHeap, used-add-free}
use meu_so_baremetal.Memory.Spec.{first_fit, carve, outcome}
use meu_so_baremetal.Memory.SpecLaws.{align_up_lem, extent-carve, Aligned-carve, Merged-carve}
use meu_so_baremetal.Memory.FirstFit.{find-first_fit}
use meu_so_baremetal.Memory.Carved.{InRange, allocate-carve}

-- Where the specification finds room for a request, in a list of blocks that starts at `a`.
abbrev pub request : ℕ → ℕ → List Block → Option ℕ
request size a bs = if bad_request size then none else first_fit (align_up size) a bs

-- `kmalloc size h` does what the specification's answer says: NULL and no change, or the address
-- behind the header and the carved list.
abbrev pub Mallocs : ℕ → Heap → List Block → Option ℕ → Type 0
Mallocs size h bs none = kmalloc size h ≡ some (0, h)
Mallocs size h bs (some q) =
    (g : Heap) × (kmalloc size h ≡ some (q + header_size, g))
    × IsHeap g (carve (align_up size) bs)
    × (g.heap_first ≡ h.heap_first)

length-pos : (bs : List Block) → extent bs ≡ heap_size → 0 < length bs
length-pos [] e = absurd (omega arith)
length-pos (b ∷ bs) e = omega arith

link_of_nonempty : (a : ℕ) (bs : List Block) → 0 < length bs → link a bs ≡ a
link_of_nonempty a [] pos = absurd (omega arith)
link_of_nonempty a (b ∷ bs) pos = refl

module _ {h : Heap} {bs : List Block} (v : IsHeap h bs) where
  pub IsHeap-InRange : InRange h bs
  IsHeap-InRange = record {
    allocated = omega (arith, v.size, v.allocated, used-add-free bs);
    free = omega (arith, v.free, v.count, length-pos bs v.size);
    free_top = omega (arith, v.free, v.count, v.size, used-add-free bs);
    count = omega (arith, v.count, v.size, used-add-free bs);
  }

  -- The search takes at most as many rounds as the fuel allows.
  kmalloc-find :
      (size : ℕ)
      → find (h.block_count + 1) h h.heap_first size ≡ outcome (first_fit size h.heap_first bs)
  kmalloc-find size =
      subst (λ x. find (h.block_count + 1) h x size ≡ outcome (first_fit size h.heap_first bs))
        (link_of_nonempty h.heap_first bs (length-pos bs v.size))
        (find-first_fit (h.block_count + 1) h size 0 h.heap_first bs v.chain v.start
          (omega (arith, v.count)))

  pub allocate-IsHeap :
      (size q : ℕ)
      → size % 16 ≡ 0
      → first_fit size h.heap_first bs ≡ some q
      → IsHeap (allocate q size h) (carve size bs) × ((allocate q size h).heap_first ≡ h.heap_first)
  allocate-IsHeap size q al e =
      let c = allocate-carve h size 0 h.heap_first bs q v.chain v.start IsHeap-InRange e in
      let g = allocate q size h in
      (
        record {
          chain = subst (λ x. Chain g 0 x (carve size bs)) (sym c.first) c.chain;
          start = omega (arith, c.first, v.start);
          start_aligned = omega (arith, c.first, v.start_aligned);
          size = extent-carve size bs ∙ v.size;
          aligned = Aligned-carve size bs al v.aligned;
          merged = Merged-carve size bs v.merged;
          count = omega (arith, c.count, v.count);
          allocated = omega (arith, c.allocated, v.allocated);
          free = omega (arith, c.free, c.count, v.free, v.count);
        },
        c.first,
      )

  kmalloc_found :
      (size : ℕ) (o : Option ℕ)
      → bad_request size ≡ false
      → first_fit (align_up size) h.heap_first bs ≡ o
      → Mallocs size h bs o
  unfolding kmalloc
  kmalloc_found size none good e = rw (good, kmalloc-find (align_up size), e)
  kmalloc_found size (some q) good e =
      let (is, same) = allocate-IsHeap (align_up size) q (align_up_lem size).0 e in
      (allocate q (align_up size) h, rw (good, kmalloc-find (align_up size), e), is, same)

  -- On a well-formed heap `kmalloc` ends. It returns NULL and changes nothing if the request is 0 or
  -- above 128 MiB or no free block is large enough; else it returns the address behind the header
  -- of the first free block that is large enough for the size rounded up to 16, and leaves a
  -- well-formed heap of the blocks with that block marked used, cut in two if at least 96 bytes
  -- are left over.
  pub kmalloc_refines : (size : ℕ) → Mallocs size h bs (request size h.heap_first bs)
  unfolding kmalloc
  kmalloc_refines size = elim (Bool-cases (bad_request size)) [
    | inl bad ↦ rw bad (rw bad)
    | inr good ↦ rw good (kmalloc_found size _ good refl)
  ]
