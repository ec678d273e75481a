-- ===== src/Memory/RoundTrip.antt =====
-- `kfree` after `kmalloc` in src/memory.c, and `kfree` of what is no used block.
use mathlib.Core.Path.{subst}
use native.Mathlib.Decide.{dec_le}
use meu_so_baremetal.Prelude.{
  ℕ, ◌+◌, ◌-◌, ◌≤◌, ◌≡◌, ◌≢◌, ◌∙◌, ◌⊎◌, sym, refl, ap, inl, inr, true, false, List, [], ◌∷◌, some,
  arith, Bool-cases,
}
use meu_so_baremetal.Memory.{
  Heap, header_size, overhead, magic_header, align_up, kmalloc, kfree, bad_request,
}
use meu_so_baremetal.Memory.Layout.{Block, Merged, IsHeap}
use meu_so_baremetal.Memory.Spec.{first_fit, suits, carve, join, coalesce, mark_free}
use meu_so_baremetal.Memory.SpecLaws.{first_fit-Grant, first_fit_at, first_fit_skip}
use meu_so_baremetal.Memory.CoalesceLaws.{join_apart, Merged-head, Merged-tail, coalesce-Merged}
use meu_so_baremetal.Memory.Malloc.{request, Mallocs, kmalloc_refines}
use meu_so_baremetal.Memory.Carved.{carve_wide, carve_narrow, carve_skip}
use meu_so_baremetal.Memory.Free.{kfree_refines, mark_free_here, mark_free_later}

first_fit-le : (size a q : ℕ) (bs : List Block) → first_fit size a bs ≡ some q → a ≤ q
first_fit-le size a q [] e = absurd (cc)
first_fit-le size a q ((n, f) ∷ bs) e = elim (Bool-cases (suits size (n, f))) [
  | inl fit ↦ omega (arith, first_fit_at size a n f bs fit e)
  | inr skip ↦ omega (
    arith,
    first_fit-le size (a + overhead + n) q bs (sym (first_fit_skip size a n f bs skip) ∙ e),
  )
]

module _ (size a n : ℕ) (bs : List Block) (mg : Merged ((n, true) ∷ bs)) where
  joined : join (n, true) (coalesce bs) ≡ (n, true) ∷ bs
  joined =
      rw (coalesce-Merged bs (Merged-tail (n, true) bs mg))
        (join_apart n true bs (Merged-head n true bs mg))

  undo_narrow : coalesce (mark_free a a ((n, false) ∷ bs)) ≡ (n, true) ∷ bs
  undo_narrow = rw (mark_free_here a n false bs) joined

  undo_wide :
      size + overhead + 32 ≤ n
      → coalesce (mark_free a a ((size, false) ∷ (n - size - overhead, true) ∷ bs)) ≡ (n, true) ∷ bs
  undo_wide le = rw (mark_free_here a size false ((n - size - overhead, true) ∷ bs)) (
      rw (coalesce-Merged bs (Merged-tail (n, true) bs mg)) (
        rw (join_apart (n - size - overhead) true bs (Merged-head n true bs mg))
          (ap (λ k. (k, true) ∷ bs) (omega arith))))

  undo_here : size ≤ n → coalesce (mark_free a a (carve size ((n, true) ∷ bs))) ≡ (n, true) ∷ bs
  undo_here le = elim (dec_le (size + overhead + 32) n) [
    | yes wide ↦ rw (carve_wide size n bs wide) (undo_wide wide)
    | no narrow ↦ rw (carve_narrow size n bs le (omega arith)) undo_narrow
  ]

-- In the abstract list a release undoes an allocation.
coalesce-carve :
    (size a q : ℕ) (bs : List Block)
    → Merged bs
    → first_fit size a bs ≡ some q
    → coalesce (mark_free q a (carve size bs)) ≡ bs
coalesce-carve size a q [] mg e = absurd (cc)
coalesce-carve size a q ((n, false) ∷ bs) mg e =
    let ne : a ≢ q = omega (arith, first_fit-le size (a + overhead + n) q bs e) in
    rw (mark_free_later q a n false (carve size bs) ne) (
      rw (coalesce-carve size (a + overhead + n) q bs (Merged-tail (n, false) bs mg) e)
        (join_apart n false bs refl))
coalesce-carve size a q ((n, true) ∷ bs) mg e = elim (dec_le size n) [
  | yes le ↦
      subst (λ x. coalesce (mark_free x a (carve size ((n, true) ∷ bs))) ≡ (n, true) ∷ bs)
        (first_fit_at size a n true bs (ground arith) e) (undo_here size a n bs mg le)
  | no gt ↦
      let skip : suits size (n, true) ≡ false = ground arith in
      let later = sym (first_fit_skip size a n true bs skip) ∙ e in
      let ne : a ≢ q = omega (arith, first_fit-le size (a + overhead + n) q bs later) in
      rw (carve_skip size n true bs skip) (
        rw (mark_free_later q a n true (carve size bs) ne) (
          rw (coalesce-carve size (a + overhead + n) q bs (Merged-tail (n, true) bs mg) later)
            (join_apart n true bs (Merged-head n true bs mg))))
]

pub request-first_fit :
    (size a q : ℕ) (bs : List Block)
    → request size a bs ≡ some q
    → first_fit (align_up size) a bs ≡ some q
request-first_fit size a q bs e = elim (Bool-cases (bad_request size)) [
  | inl bad ↦ absurd (cc (rw bad at e))
  | inr good ↦ rw good at e
]

-- A successful `kmalloc` followed by `kfree` of its result: the heap is well formed and consists
-- of the blocks that it had before.
pub kfree-kmalloc :
    {h : Heap} {bs : List Block} (size q : ℕ)
    → IsHeap h bs
    → request size h.heap_first bs ≡ some q
    → (g : Heap) × (kmalloc size h ≡ some (q + header_size, g))
      × IsHeap (kfree (q + header_size) g) bs
kfree-kmalloc {h} {bs} size q v e =
    let (g, runs, is, same) : Mallocs size h bs (some q) = rw e at (kmalloc_refines v size) in
    let found = request-first_fit size h.heap_first q bs e in
    let grant = first_fit-Grant (align_up size) h.heap_first q bs v.aligned found in
    let freed = kfree_refines q grant.new is (rw same grant.is_used) in
    (
      g,
      runs,
      subst (IsHeap (kfree (q + header_size) g))
          (rw same (coalesce-carve (align_up size) h.heap_first q bs v.merged found)) freed.0,
    )

-- A pointer that is NULL, or whose block has no magic word or is free, is left alone.
pub kfree_ignores :
    (ptr : ℕ) (h : Heap)
    → let b = h.header (ptr - header_size) in
      (ptr ≡ 0) ⊎ (b.magic ≢ magic_header) ⊎ (b.is_free ≡ true) → kfree ptr h ≡ h
unfolding kfree
kfree_ignores ptr h c = ground arith
