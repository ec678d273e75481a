-- ===== src/Memory/Neighbours.antt =====
-- What `kfree` does to the block, the one before it and the one behind it.
use meu_so_baremetal.Prelude.{
  ℕ, ◌+◌, ◌^◌, ◌≤◌, ◌<◌, ◌≡◌, refl, Bool, true, false, List, [], ◌∷◌, arith, length,
}
use meu_so_baremetal.Memory.{Heap, overhead, give_back, absorb_next, yield_prev}
use meu_so_baremetal.Memory.Layout.{Block, Chain, extent, used_bytes}
use meu_so_baremetal.Memory.Spec.{join}
use meu_so_baremetal.Memory.Step.{Step, Step-trans, Step-cons}
use meu_so_baremetal.Memory.Release.{
  give_back-Step, absorb_next-Step, yield_prev-Step, yield_prev-Step_first,
}

abbrev pub release : ℕ → Heap → Heap
release q h = yield_prev q (absorb_next q (give_back q h))

-- No counter wraps while a block among `bs` is given back.
pub record Room (h : Heap) (bs : List Block) : Type 0 where
  pub used : used_bytes bs ≤ h.total_allocated
  pub used_top : h.total_allocated < 2 ^ 64
  pub free_top : h.total_free + used_bytes bs < 2 ^ 64
  pub space : extent bs < 2 ^ 64
  pub blocks : length bs ≤ h.block_count
  pub blocks_top : h.block_count < 2 ^ 64

-- Up to the merge with the block behind.
absorb-Step :
    (h : Heap) (prev q n : ℕ) (bs : List Block)
    → Chain h prev q ((n, false) ∷ bs)
    → 0 < q
    → Room h ((n, false) ∷ bs)
    → Step h (absorb_next q (give_back q h)) prev q ((n, false) ∷ bs) (join (n, true) bs)
absorb-Step h prev q n bs c pos r =
    let g = give_back q h in
    let s =
      give_back-Step h prev q n bs c (omega (arith, r.used)) r.used_top
        (omega (arith, r.free_top)) in
    Step-trans h g (absorb_next q g) prev q _ _ _ s (
      absorb_next-Step g prev q n bs s.chain pos (omega (arith, r.space))
        (omega (arith, s.count, r.blocks)) (omega (arith, s.count, r.blocks_top)))

-- What a join begins with.
pub record Shape (n : ℕ) (f : Bool) (bs : List Block) : Type 0 where
  pub first : ℕ
  pub rest : List Block
  pub shape : join (n, f) bs ≡ (first, f) ∷ rest
  pub size : first + extent rest ≡ n + extent bs
  pub shorter : length rest ≤ length bs

pub join-Shape : (n : ℕ) (f : Bool) (bs : List Block) → Shape n f bs
join-Shape n f [] = record {
  first = n;
  rest = [];
  shape = refl;
  size = refl;
  shorter = omega arith;
}
join-Shape n false ((m, g) ∷ bs) = record {
  first = n;
  rest = (m, g) ∷ bs;
  shape = refl;
  size = refl;
  shorter = omega arith;
}
join-Shape n true ((m, false) ∷ bs) = record {
  first = n;
  rest = (m, false) ∷ bs;
  shape = refl;
  size = refl;
  shorter = omega arith;
}
join-Shape n true ((m, true) ∷ bs) = record {
  first = n + overhead + m;
  rest = bs;
  shape = refl;
  size = omega arith;
  shorter = omega arith;
}

pub Room-tail : (h : Heap) (n : ℕ) (f : Bool) (bs : List Block) → Room h ((n, f) ∷ bs) → Room h bs
Room-tail h n f bs r = record {
  used = omega (arith, r.used);
  used_top = r.used_top;
  free_top = omega (arith, r.free_top);
  space = omega (arith, r.space);
  blocks = omega (arith, r.blocks);
  blocks_top = r.blocks_top;
}

pub release-Step_first :
    (h : Heap) (q n : ℕ) (bs : List Block)
    → Chain h 0 q ((n, false) ∷ bs)
    → 0 < q
    → Room h ((n, false) ∷ bs)
    → Step h (release q h) 0 q ((n, false) ∷ bs) (join (n, true) bs)
release-Step_first h q n bs c pos r =
    let s = absorb-Step h 0 q n bs c pos r in
    let j = join-Shape n true bs in
    rw j.shape (
      Step-trans h _ (release q h) 0 q _ _ _ (rw j.shape at s)
        (yield_prev-Step_first _ q j.first true j.rest (rw j.shape at s.chain)))

pub release-Step_second :
    (h : Heap) (prev a n m : ℕ) (f : Bool) (bs : List Block)
    → Chain h prev a ((n, f) ∷ (m, false) ∷ bs)
    → 0 < a
    → Room h ((n, f) ∷ (m, false) ∷ bs)
    → Step h
        (release (a + overhead + n) h)
        prev
        a
        ((n, f) ∷ (m, false) ∷ bs)
        (join (n, f) (join (m, true) bs))
release-Step_second h prev a n m f bs c pos r =
    let q = a + overhead + n in
    let g = absorb_next q (give_back q h) in
    let j = join-Shape m true bs in
    let inner : Step h g a q ((m, false) ∷ bs) ((j.first, true) ∷ j.rest) =
      rw j.shape at (absorb-Step h a q m bs c.2 (omega arith) (Room-tail h n f _ r)) in
    let s = Step-cons h g prev a n f _ _ c (omega arith) (omega arith) inner in
    rw j.shape (
      Step-trans h g (release q h) prev a _ _ _ s (
        yield_prev-Step g prev a n j.first f j.rest s.chain pos (omega (arith, j.size, r.space))
          (omega (arith, s.count, r.blocks)) (omega (arith, s.count, r.blocks_top, j.shorter))))
