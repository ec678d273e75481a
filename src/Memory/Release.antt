-- ===== src/Memory/Release.antt =====
-- The parts of `kfree` as steps from one list of blocks to another.
use meu_so_baremetal.Prelude.{
  ℕ, ◌+◌, ◌^◌, ◌≤◌, ◌<◌, ◌≡◌, refl, Bool, true, false, List, [], ◌∷◌, arith, ap,
}
use meu_so_baremetal.Memory.{
  Heap, overhead, set_footer, merge_next, give_back, free_at, absorb_next, yield_prev,
}
use meu_so_baremetal.Memory.Layout.{Block, Chain, extent}
use meu_so_baremetal.Memory.Spec.{join}
use meu_so_baremetal.Memory.Step.{Step, Step-trans}
use meu_so_baremetal.Memory.Merge.{
  set_footer-Chain, give_back-Chain, merge_next-Chain, merge_next-SameBelow, merge_prev_lem,
  merge_next_counts,
}

pub give_back-Step :
    (h : Heap) (prev q n : ℕ) (bs : List Block)
    → Chain h prev q ((n, false) ∷ bs)
    → n ≤ h.total_allocated
    → h.total_allocated < 2 ^ 64
    → h.total_free + n < 2 ^ 64
    → Step h (give_back q h) prev q ((n, false) ∷ bs) ((n, true) ∷ bs)
unfolding give_back
give_back-Step h prev q n bs c le small room = record {
  below = λ x lt. (ground arith, refl);
  chain = give_back-Chain h prev q n bs c;
  first = refl;
  allocated = rw c.0 (omega arith);
  count = refl;
  free = rw c.0 (omega arith);
}

merge_next-Step :
    (h : Heap) (prev q n m : ℕ) (bs : List Block)
    → Chain h prev q ((n, true) ∷ (m, true) ∷ bs)
    → 0 < q
    → n + overhead + m < 2 ^ 64
    → 0 < h.block_count
    → h.block_count < 2 ^ 64
    → Step h (merge_next q h) prev q ((n, true) ∷ (m, true) ∷ bs) ((n + overhead + m, true) ∷ bs)
merge_next-Step h prev q n m bs c pos small some' top =
    let counts = merge_next_counts h q in
    record {
      below = merge_next-SameBelow h prev q n m true true bs c pos;
      chain = merge_next-Chain h prev q n m true true bs c pos small;
      first = counts.0;
      allocated = ground (arith, counts);
      count = omega (arith, counts);
      free = omega (arith, counts);
    }

set_footer-Step :
    (h : Heap) (x prev a : ℕ) (bs : List Block)
    → Chain h prev a bs
    → a ≤ x
    → Step h (set_footer x h) prev a bs bs
unfolding set_footer
set_footer-Step h x prev a bs c le = record {
  below = λ y lt. (refl, ground arith);
  chain = set_footer-Chain h x prev a bs c;
  first = refl;
  allocated = refl;
  count = refl;
  free = refl;
}

Step-refl : (h : Heap) (prev a : ℕ) (bs : List Block) → Chain h prev a bs → Step h h prev a bs bs
Step-refl h prev a bs c = record {
  below = λ x lt. (refl, refl);
  chain = c;
  first = refl;
  allocated = refl;
  count = refl;
  free = refl;
}

absorb_next_stays : (h : Heap) (q : ℕ) → free_at (h.header q).next h ≡ false → absorb_next q h ≡ h
unfolding absorb_next
absorb_next_stays h q e = rw e

absorb_next_merges :
    (h : Heap) (q : ℕ) → free_at (h.header q).next h ≡ true → absorb_next q h ≡ merge_next q h
unfolding absorb_next
absorb_next_merges h q e = rw e

pub absorb_next-Step :
    (h : Heap) (prev q n : ℕ) (bs : List Block)
    → Chain h prev q ((n, true) ∷ bs)
    → 0 < q
    → extent ((n, true) ∷ bs) < 2 ^ 64
    → 0 < h.block_count
    → h.block_count < 2 ^ 64
    → Step h (absorb_next q h) prev q ((n, true) ∷ bs) (join (n, true) bs)
absorb_next-Step h prev q n [] c pos small some' top =
    rw (absorb_next_stays h q (ground (arith, c.0))) (Step-refl h prev q _ c)
absorb_next-Step h prev q n ((m, false) ∷ bs) c pos small some' top =
    rw (absorb_next_stays h q (ground (arith, c.0, c.2.0))) (Step-refl h prev q _ c)
absorb_next-Step h prev q n ((m, true) ∷ bs) c pos small some' top =
    rw (absorb_next_merges h q (ground (arith, c.0, c.2.0)))
      (merge_next-Step h prev q n m bs c pos (omega arith) some' top)

yield_prev_stays :
    (h : Heap) (q prev : ℕ)
    → (h.header q).prev ≡ prev
    → free_at prev h ≡ false
    → yield_prev q h ≡ set_footer q h
unfolding yield_prev
yield_prev_stays h q prev e e' = rw (e, e')

yield_prev_merges :
    (h : Heap) (q prev : ℕ)
    → (h.header q).prev ≡ prev
    → (h.header prev).next ≡ q
    → free_at prev h ≡ true
    → yield_prev q h ≡ set_footer prev (merge_next prev h)
unfolding yield_prev
yield_prev_merges h q prev e e' e'' = rw (e, e'', merge_prev_lem h q prev e e')

-- The first block of the heap has no block before it.
pub yield_prev-Step_first :
    (h : Heap) (q n : ℕ) (f : Bool) (bs : List Block)
    → Chain h 0 q ((n, f) ∷ bs)
    → Step h (yield_prev q h) 0 q ((n, f) ∷ bs) ((n, f) ∷ bs)
yield_prev-Step_first h q n f bs c =
    rw (yield_prev_stays h q 0 (ap (λ b. b.prev) c.0) refl)
      (set_footer-Step h q 0 q ((n, f) ∷ bs) c (omega arith))

pub yield_prev-Step :
    (h : Heap) (prev a n m : ℕ) (f : Bool) (bs : List Block)
    → Chain h prev a ((n, f) ∷ (m, true) ∷ bs)
    → 0 < a
    → extent ((n, f) ∷ (m, true) ∷ bs) < 2 ^ 64
    → 0 < h.block_count
    → h.block_count < 2 ^ 64
    → Step h
        (yield_prev (a + overhead + n) h)
        prev
        a
        ((n, f) ∷ (m, true) ∷ bs)
        (join (n, f) ((m, true) ∷ bs))
yield_prev-Step h prev a n m false bs c pos small some' top =
    rw (yield_prev_stays h (a + overhead + n) a (ap (λ b. b.prev) c.2.0) (ground (arith, c.0)))
      (set_footer-Step h (a + overhead + n) prev a _ c (omega arith))
yield_prev-Step h prev a n m true bs c pos small some' top =
    let merged = merge_next-Step h prev a n m bs c pos (omega arith) some' top in
    rw
      (yield_prev_merges h (a + overhead + n) a (ap (λ b. b.prev) c.2.0) (ap (λ b. b.next) c.0)
        (ground (arith, c.0)))
      (Step-trans h (merge_next a h) _ prev a _ _ _ merged
        (set_footer-Step (merge_next a h) a prev a _ merged.chain (omega arith)))
