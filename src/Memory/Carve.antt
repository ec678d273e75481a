-- ===== src/Memory/Carve.antt =====
-- What `allocate`, a part of `kmalloc` of src/memory.c, writes.

use meu_so_baremetal.Prelude.{
  ◌∙◌, length, not, ◌&&◌, ◌⊎◌, ℕ, ◌+◌, ◌-◌, ◌≤◌, ◌<◌, ◌≡◌, refl, inl, inr, true, false, List, [],
  ◌∷◌, arith, ◌==◌, if◌then◌else◌,
}
use meu_so_baremetal.Memory.{
  Heap, mk_header, magic_footer, header_size, overhead, allocate, add_size, sub_size,
}
use meu_so_baremetal.Memory.Layout.{Block, Chain, link}
use meu_so_baremetal.Memory.Frame.{Chain-frame, Chain-relink}

module _ (h : Heap) (q size n next prev : ℕ) (e : h.header q ≡ mk_header n true next prev) where
  -- The block is too small to be cut.
  module _ (narrow : n < size + overhead + 32) where
    pub allocate_narrow_header :
        (x : ℕ)
        → (allocate q size h).header x
          ≡ (if x == q then mk_header n false next prev else h.header x)
    unfolding allocate
    allocate_narrow_header x = ground (arith)

    pub allocate_narrow_footer :
        (x : ℕ)
        → (allocate q size h).footer x
          ≡ (if x == q + header_size + n then magic_footer else h.footer x)
    unfolding allocate
    allocate_narrow_footer x = ground (arith)

  module _ (wide : size + overhead + 32 ≤ n) where
    pub allocate_wide_header :
        (x : ℕ)
        → (next ≡ 0) ⊎ (next ≡ q + overhead + n)
        → (allocate q size h).header x ≡ (
            if x == q
            then mk_header size false (q + overhead + size) prev
            else if not (next == 0) && (x == next)
            then record (h.header next) { prev = q + overhead + size }
            else if x == q + overhead + size
            then mk_header (n - size - overhead) true next q
            else h.header x)
    unfolding allocate
    allocate_wide_header x b = ground (arith)

    pub allocate_wide_footer :
        (x : ℕ)
        → (next ≡ 0) ⊎ (next ≡ q + overhead + n)
        → (allocate q size h).footer x ≡ (
            if x == q + header_size + size
            then magic_footer
            else if x == q + header_size + n + 0
            then magic_footer
            else h.footer x)
    unfolding allocate
    allocate_wide_footer x b = ground (arith)

pub link_cases : (a : ℕ) (bs : List Block) → 0 < a → (link a bs ≡ 0) ⊎ (link a bs ≡ a)
link_cases a [] pos = inl refl
link_cases a (b ∷ bs) pos = inr refl

-- The header behind a cut block gets the new block as its `prev`.
allocate_wide_next :
    (h : Heap) (size n prev q : ℕ) (bs : List Block)
    → 0 < q
    → size + overhead + 32 ≤ n
    → h.header q ≡ mk_header n true (link (q + overhead + n) bs) prev
    → 0 < length bs
    → (allocate q size h).header (q + overhead + n)
      ≡ record (h.header (q + overhead + n)) { prev = q + overhead + size }
allocate_wide_next h size n prev q [] pos wide e ne = absurd (omega arith)
allocate_wide_next h size n prev q (b ∷ bs) pos wide e ne =
    allocate_wide_header h q size n (q + overhead + n) prev e wide (q + overhead + n) (inr refl)
    ∙ ground arith

module _ (h : Heap) (size n prev q : ℕ) (bs : List Block)
    (c : Chain h prev q ((n, true) ∷ bs)) where
  pub allocate_narrow-Chain :
      n < size + overhead + 32 → Chain (allocate q size h) prev q ((n, false) ∷ bs)
  allocate_narrow-Chain narrow =
      let L = link (q + overhead + n) bs in
      (
        ground (arith, allocate_narrow_header h q size n L prev c.0 narrow q),
        ground (arith, allocate_narrow_footer h q size n L prev c.0 narrow (q + header_size + n)),
        Chain-frame h (allocate q size h) q (q + overhead + n) bs c.2 (λ x le. (
          ground (arith, allocate_narrow_header h q size n L prev c.0 narrow x),
          ground (arith, allocate_narrow_footer h q size n L prev c.0 narrow x),
        )),
      )

  pub allocate_wide-Chain :
      0 < q
      → size + overhead + 32 ≤ n
      → Chain (allocate q size h) prev q ((size, false) ∷ (n - size - overhead, true) ∷ bs)
  allocate_wide-Chain pos wide =
      let L = link (q + overhead + n) bs in
      let at = link_cases (q + overhead + n) bs (omega arith) in
      let head = λ (x : ℕ). allocate_wide_header h q size n L prev c.0 wide x at in
      let foot = λ (x : ℕ). allocate_wide_footer h q size n L prev c.0 wide x at in
      let new = q + overhead + size in
      let e : new + overhead + (n - size - overhead) ≡ q + overhead + n = omega arith in
      let e' : new + header_size + (n - size - overhead) ≡ q + header_size + n = omega arith in
      (
        ground (arith, head q),
        ground (arith, foot (q + header_size + size)),
        (
          rw e (ground (arith, head new)),
          rw e' (ground (arith, foot (q + header_size + n))),
          rw e (
              Chain-relink h (allocate q size h) q new (q + overhead + n) bs c.2
                (allocate_wide_next h size n prev q bs pos wide c.0)
                (λ x lt. (ground (arith, head x), ground (arith, foot x)))),
        ),
      )

-- What becomes of the counters.
abbrev pub Counts : Heap → Heap → ℕ → ℕ → Type 0
Counts h g taken more =
    (g.heap_first ≡ h.heap_first)
    × (g.total_allocated ≡ add_size h.total_allocated taken)
    × (g.total_free ≡ sub_size h.total_free taken)
    × (g.block_count ≡ (if more == 0 then h.block_count else add_size h.block_count more))

module _ (h : Heap) (q size n next prev : ℕ) (e : h.header q ≡ mk_header n true next prev) where
  pub allocate_narrow-Counts : n < size + overhead + 32 → Counts h (allocate q size h) n 0
  unfolding allocate
  allocate_narrow-Counts narrow = (ground arith, ground arith, ground arith, ground arith)

  pub allocate_wide-Counts :
      size + overhead + 32 ≤ n
      → (next ≡ 0) ⊎ (next ≡ q + overhead + n)
      → Counts h (allocate q size h) size 1
  unfolding allocate
  allocate_wide-Counts wide b = (ground arith, ground arith, ground arith, ground arith)
