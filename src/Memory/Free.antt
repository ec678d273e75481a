-- ===== src/Memory/Free.antt =====
-- `kfree` of src/memory.c of a used block, against the abstract list of blocks.
use mathlib.Core.Path.{subst}
use native.Mathlib.Decide.{ℕ_discrete}
use meu_so_baremetal.Prelude.{
  ℕ, ◌+◌, ◌-◌, ◌<◌, ◌≡◌, ◌≢◌, ◌∙◌, sym, Bool, true, false, ◌&&◌, List, [], ◌∷◌, some, arith, length,
  ◌==◌,
}
use meu_so_baremetal.Memory.{Heap, header_size, overhead, magic_header, kfree}
use meu_so_baremetal.Memory.Layout.{Block, Chain, Merged, IsHeap, used-add-free}
use meu_so_baremetal.Memory.Spec.{join, coalesce, mark_free, block_at}
use meu_so_baremetal.Memory.Step.{Step, Step-cons}
use meu_so_baremetal.Memory.CoalesceLaws.{
  head_free, join_apart, Merged-head, Merged-tail, coalesce-Merged, Merged-coalesce,
  extent-coalesce, extent-mark_free, Aligned-coalesce, Aligned-mark_free, head_free-coalesce,
}
use meu_so_baremetal.Memory.Neighbours.{
  release, Room, Room-tail, join-Shape, release-Step_first, release-Step_second,
}

pub mark_free_here :
    (q n : ℕ) (f : Bool) (bs : List Block) → mark_free q q ((n, f) ∷ bs) ≡ (n, true) ∷ bs
mark_free_here q n f bs = ground arith

pub mark_free_later :
    (q a n : ℕ) (f : Bool) (bs : List Block)
    → a ≢ q
    → mark_free q a ((n, f) ∷ bs) ≡ (n, f) ∷ mark_free q (a + overhead + n) bs
mark_free_later q a n f bs ne = ground arith

block_at_here :
    (q a n m : ℕ) (f : Bool) (bs : List Block)
    → a ≡ q
    → block_at q a ((n, f) ∷ bs) ≡ some (m, false)
    → f ≡ false
block_at_here q a n m f bs e h = ground arith

block_at_later :
    (q a n m : ℕ) (f k : Bool) (bs : List Block)
    → a ≢ q
    → block_at q a ((n, f) ∷ bs) ≡ some (m, k)
    → block_at q (a + overhead + n) bs ≡ some (m, k)
block_at_later q a n m f k bs ne h = ground arith

length-join : (n : ℕ) (f : Bool) (bs : List Block) → 0 < length (join (n, f) bs)
length-join n f bs = rw (join-Shape n f bs).shape (omega arith)

-- The specification's result for a block behind the first.
abbrev freed : ℕ → ℕ → ℕ → Bool → List Block → List Block
freed q a n f bs = join (n, f) (coalesce (mark_free q (a + overhead + n) bs))

release-Step_at :
    (h : Heap) (prev a n m : ℕ) (f g : Bool) (bs : List Block)
    → g ≡ false
    → Chain h prev a ((n, f) ∷ (m, g) ∷ bs)
    → 0 < a
    → Merged bs
    → Room h ((n, f) ∷ (m, g) ∷ bs)
    → Step h
        (release (a + overhead + n) h)
        prev
        a
        ((n, f) ∷ (m, g) ∷ bs)
        (freed (a + overhead + n) a n f ((m, g) ∷ bs))
release-Step_at h prev a n m f true bs e c pos mg r = absurd (cc)
release-Step_at h prev a n m f false bs e c pos mg r =
    rw (mark_free_here (a + overhead + n) m false bs)
      (rw (coalesce-Merged bs mg) (release-Step_second h prev a n m f bs c pos r))

release-Step_behind :
    (h : Heap) (prev a n m : ℕ) (f g : Bool) (bs : List Block) (q : ℕ)
    → a + overhead + n ≢ q
    → Chain h prev a ((n, f) ∷ (m, g) ∷ bs)
    → Merged ((n, f) ∷ (m, g) ∷ bs)
    → Step h (release q h) a (a + overhead + n) ((m, g) ∷ bs) (freed q (a + overhead + n) m g bs)
    → Step h (release q h) prev a ((n, f) ∷ (m, g) ∷ bs) (freed q a n f ((m, g) ∷ bs))
release-Step_behind h prev a n m f g bs q ne c mg s =
    let a' = a + overhead + n in
    let rest = mark_free q (a' + overhead + m) bs in
    let apart : (f && head_free (coalesce ((m, g) ∷ rest))) ≡ false =
      rw (head_free-coalesce m g rest) (Merged-head n f ((m, g) ∷ bs) mg) in
    rw (mark_free_later q a' m g bs ne) (
      rw (join_apart n f (coalesce ((m, g) ∷ rest)) apart) (
        Step-cons h (release q h) prev a n f ((m, g) ∷ bs) (coalesce ((m, g) ∷ rest)) c
          (omega arith) (length-join m g (coalesce rest)) s))

pub release-Step :
    (h : Heap) (prev a n : ℕ) (f : Bool) (bs : List Block) (q k : ℕ)
    → Chain h prev a ((n, f) ∷ bs)
    → 0 < a
    → Merged ((n, f) ∷ bs)
    → Room h ((n, f) ∷ bs)
    → block_at q (a + overhead + n) bs ≡ some (k, false)
    → Step h (release q h) prev a ((n, f) ∷ bs) (freed q a n f bs)
release-Step h prev a n f [] q k c pos mg r e = absurd (cc)
release-Step h prev a n f ((m, g) ∷ bs) q k c pos mg r e = elim (ℕ_discrete (a + overhead + n) q) [
  | yes here ↦
      subst (λ x. Step h (release x h) prev a ((n, f) ∷ (m, g) ∷ bs) (freed x a n f ((m, g) ∷ bs)))
        here
        (release-Step_at h prev a n m f g bs (block_at_here q (a + overhead + n) m k g bs here e) c
          pos (Merged-tail (m, g) bs mg.1) r)
  | no ne ↦ release-Step_behind h prev a n m f g bs q ne c mg (
      release-Step h a (a + overhead + n) m g bs q k c.2 (omega arith) mg.1
        (Room-tail h n f ((m, g) ∷ bs) r) (block_at_later q (a + overhead + n) m k g false bs ne e))
]

pub block_at-header :
    (h : Heap) (prev a q n : ℕ) (f : Bool) (bs : List Block)
    → Chain h prev a bs
    → block_at q a bs ≡ some (n, f)
    → ((h.header q).magic ≡ magic_header) × ((h.header q).is_free ≡ f) × ((h.header q).size ≡ n)
block_at-header h prev a q n f [] c e = absurd (cc)
block_at-header h prev a q n f ((m, g) ∷ bs) c e = elim (ℕ_discrete a q) [
  | yes here ↦ ground (arith, c.0)
  | no ne ↦ block_at-header h a (a + overhead + m) q n f bs c.2 (block_at_later q a m n g f bs ne e)
]

module _ {h : Heap} {bs : List Block} (v : IsHeap h bs) where
  IsHeap-Room : Room h bs
  IsHeap-Room = record {
    used = omega (arith, v.allocated);
    used_top = omega (arith, v.allocated, v.size, used-add-free bs);
    free_top = omega (arith, v.free, v.size, v.count, used-add-free bs);
    space = omega (arith, v.size);
    blocks = omega (arith, v.count);
    blocks_top = omega (arith, v.count, v.size, used-add-free bs);
  }

release-Step_head :
    (h : Heap) (a m : ℕ) (g : Bool) (bs : List Block)
    → g ≡ false
    → Chain h 0 a ((m, g) ∷ bs)
    → 0 < a
    → Merged bs
    → Room h ((m, g) ∷ bs)
    → Step h (release a h) 0 a ((m, g) ∷ bs) (coalesce (mark_free a a ((m, g) ∷ bs)))
release-Step_head h a m true bs e c pos mg r = absurd (cc)
release-Step_head h a m false bs e c pos mg r =
    rw (mark_free_here a m false bs)
      (rw (coalesce-Merged bs mg) (release-Step_first h a m bs c pos r))

release-coalesce :
    (h : Heap) (a : ℕ) (bs : List Block) (q n : ℕ)
    → Chain h 0 a bs
    → 0 < a
    → Merged bs
    → Room h bs
    → block_at q a bs ≡ some (n, false)
    → Step h (release q h) 0 a bs (coalesce (mark_free q a bs))
release-coalesce h a [] q n c pos mg r e = absurd (cc)
release-coalesce h a ((m, g) ∷ bs) q n c pos mg r e = elim (ℕ_discrete a q) [
  | yes here ↦
      subst (λ x. Step h (release x h) 0 a ((m, g) ∷ bs) (coalesce (mark_free x a ((m, g) ∷ bs))))
        here
        (release-Step_head h a m g bs (block_at_here q a m n g bs here e) c pos
          (Merged-tail (m, g) bs mg) r)
  | no ne ↦
      rw (mark_free_later q a m g bs ne)
        (release-Step h 0 a m g bs q n c pos mg r (block_at_later q a m n g false bs ne e))
]

kfree_used :
    (h : Heap) (q : ℕ)
    → (h.header q).magic ≡ magic_header
    → (h.header q).is_free ≡ false
    → kfree (q + header_size) h ≡ release q h
unfolding kfree
kfree_used h q e e' =
    let same : q + header_size - header_size ≡ q = omega arith in
    let away : (q + header_size == 0) ≡ false = ground arith in rw (away, same) (rw (e, e'))

-- On a well-formed heap `kfree` of the address of a used block leaves a well-formed heap: the
-- blocks with that one marked free and all free neighbours merged.
pub kfree_refines :
    {h : Heap} {bs : List Block} (q n : ℕ)
    → IsHeap h bs
    → block_at q h.heap_first bs ≡ some (n, false)
    → IsHeap (kfree (q + header_size) h) (coalesce (mark_free q h.heap_first bs))
      × ((kfree (q + header_size) h).heap_first ≡ h.heap_first)
kfree_refines {h} {bs} q n v e =
    let a = h.heap_first in
    let bs' = coalesce (mark_free q a bs) in
    let at = block_at-header h 0 a q n false bs v.chain e in
    let s = release-coalesce h a bs q n v.chain v.start v.merged (IsHeap-Room v) e in
    rw (kfree_used h q at.0 at.1) (
      record {
        chain = subst (λ x. Chain (release q h) 0 x bs') (sym s.first) s.chain;
        start = omega (arith, s.first, v.start);
        start_aligned = omega (arith, s.first, v.start_aligned);
        size = extent-coalesce (mark_free q a bs) ∙ extent-mark_free q a bs ∙ v.size;
        aligned = Aligned-coalesce (mark_free q a bs) (Aligned-mark_free q a bs v.aligned);
        merged = Merged-coalesce (mark_free q a bs);
        count = omega (arith, s.count, v.count);
        allocated = omega (arith, s.allocated, v.allocated);
        free = omega (arith, s.free, s.count, v.free, v.count);
      },
      s.first,
    )
