-- ===== src/Memory/Merge.antt =====
-- What the steps of `kfree` write, and what they do to a chain.
use meu_so_baremetal.Memory.Carve.{link_cases}
use meu_so_baremetal.Prelude.{
  ℕ, ◌+◌, ◌^◌, ◌<◌, ◌≡◌, ◌∙◌, refl, ◌⊎◌, inl, inr, Bool, true, false, not, ◌&&◌, List, [], ◌∷◌,
  arith, length, ◌==◌, if◌then◌else◌,
}
use meu_so_baremetal.Memory.{
  Heap, mk_header, header_size, overhead, add_size, sub_size, set_footer, merge_next, merge_prev,
  give_back,
}
use meu_so_baremetal.Memory.Layout.{Block, Chain, link}
use meu_so_baremetal.Memory.Frame.{SameBelow, Chain-frame, Chain-relink}

-- A footer can only become the magic word, so it never breaks a chain.
pub set_footer-Chain :
    (h : Heap) (x prev a : ℕ) (bs : List Block)
    → Chain h prev a bs
    → Chain (set_footer x h) prev a bs
unfolding set_footer
set_footer-Chain h x prev a [] c = tt
set_footer-Chain h x prev a ((n, f) ∷ bs) c =
    (c.0, ground (arith, c.1), set_footer-Chain h x a (a + overhead + n) bs c.2)

pub give_back-Chain :
    (h : Heap) (prev a n : ℕ) (bs : List Block)
    → Chain h prev a ((n, false) ∷ bs)
    → Chain (give_back a h) prev a ((n, true) ∷ bs)
unfolding give_back
give_back-Chain h prev a n bs c = (
  ground (arith, c.0),
  c.1,
  Chain-frame h (give_back a h) a (a + overhead + n) bs c.2 (λ x le. (ground arith, refl)),
)

module _ (h : Heap) (q n next prev m nn : ℕ) (f g : Bool)
    (here : h.header q ≡ mk_header n f next prev) (there : h.header next ≡ mk_header m g nn q) where
  merge_next_header :
      (x : ℕ)
      → q < next
      → (nn ≡ 0) ⊎ (next < nn)
      → (merge_next q h).header x ≡ (
          if not (nn == 0) && (x == nn)
          then record (h.header nn) { prev = q }
          else if x == q
          then mk_header (add_size n (overhead + m)) f nn prev
          else h.header x)
  unfolding merge_next
  merge_next_header x lt b = ground arith

link-lt : (a b : ℕ) (bs : List Block) → b < a → (link a bs ≡ 0) ⊎ (b < link a bs)
link-lt a b [] lt = inl refl
link-lt a b (x ∷ bs) lt = inr lt

-- A block and the one behind it.
module _ (h : Heap) (prev q n m : ℕ) (f g : Bool) (bs : List Block)
    (c : Chain h prev q ((n, f) ∷ (m, g) ∷ bs)) (pos : 0 < q) where
  merge_next_at :
      (x : ℕ)
      → let nn = link (q + overhead + n + overhead + m) bs in
        (merge_next q h).header x ≡ (
          if not (nn == 0) && (x == nn)
          then record (h.header nn) { prev = q }
          else if x == q
          then mk_header (add_size n (overhead + m)) f nn prev
          else h.header x)
  merge_next_at x =
      merge_next_header h q n (q + overhead + n) prev m (link (q + overhead + n + overhead + m) bs)
        f g c.0 c.2.0 x (omega arith)
        (link-lt (q + overhead + n + overhead + m) (q + overhead + n) bs (omega arith))

  merge_next_footer : (x : ℕ) → (merge_next q h).footer x ≡ h.footer x
  unfolding merge_next
  merge_next_footer x = ground arith

  pub merge_next-SameBelow : SameBelow q h (merge_next q h)
  merge_next-SameBelow x lt = (
    ground (arith, merge_next_at x, link-lt (q + overhead + n + overhead + m) q bs),
    merge_next_footer x,
  )

merge_next_tail :
    (h : Heap) (prev q n m : ℕ) (f g : Bool) (bs : List Block)
    → Chain h prev q ((n, f) ∷ (m, g) ∷ bs)
    → 0 < q
    → 0 < length bs
    → let a = q + overhead + n + overhead + m in
      (merge_next q h).header a ≡ record (h.header a) { prev = q }
merge_next_tail h prev q n m f g [] c pos ne = absurd (omega arith)
merge_next_tail h prev q n m f g (b ∷ bs) c pos ne =
    merge_next_at h prev q n m f g (b ∷ bs) c pos (q + overhead + n + overhead + m) ∙ ground arith

pub merge_next-Chain :
    (h : Heap) (prev q n m : ℕ) (f g : Bool) (bs : List Block)
    → Chain h prev q ((n, f) ∷ (m, g) ∷ bs)
    → 0 < q
    → n + overhead + m < 2 ^ 64
    → Chain (merge_next q h) prev q ((n + overhead + m, f) ∷ bs)
merge_next-Chain h prev q n m f g bs c pos small =
    let a = q + overhead + n + overhead + m in
    let e : q + overhead + (n + overhead + m) ≡ a = omega arith in
    let e' : q + header_size + (n + overhead + m) ≡ q + overhead + n + header_size + m =
      omega arith in
    let at = merge_next_at h prev q n m f g bs c pos in
    let foot = merge_next_footer h prev q n m f g bs c pos in
    (
      rw e (ground (arith, at q, link-lt a q bs (omega arith))),
      rw e' (foot (q + overhead + n + header_size + m) ∙ c.2.1),
      rw e (
          Chain-relink h (merge_next q h) (q + overhead + n) q a bs c.2.2
            (merge_next_tail h prev q n m f g bs c pos)
            (λ x lt. (ground (arith, at x, link_cases a bs), foot x))),
    )

-- Merging into the block before is merging that block with this one.
pub merge_prev_lem :
    (h : Heap) (block prev : ℕ)
    → (h.header block).prev ≡ prev
    → (h.header prev).next ≡ block
    → merge_prev block h ≡ merge_next prev h
unfolding merge_prev merge_next
merge_prev_lem h block prev e e' = rw (e, e')

pub merge_next_counts :
    (h : Heap) (q : ℕ)
    → let g = merge_next q h in
      (g.heap_first ≡ h.heap_first)
      × (g.total_allocated ≡ h.total_allocated)
      × (g.total_free ≡ h.total_free)
      × (g.block_count ≡ sub_size h.block_count 1)
unfolding merge_next
merge_next_counts h q = (ground arith, ground arith, ground arith, ground arith)
