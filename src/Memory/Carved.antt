-- ===== src/Memory/Carved.antt =====
-- An allocation of src/memory.c and the list of blocks.
use native.Mathlib.Decide.{dec_le}
use mathlib.Core.Path.{subst}
use meu_so_baremetal.Prelude.{
  ℕ, ◌+◌, ◌-◌, ◌*◌, ◌^◌, ◌≤◌, ◌<◌, ◌≡◌, ◌∙◌, refl, true, false, List, [], ◌∷◌, some, arith, length,
  Bool,
}
use meu_so_baremetal.Memory.{Heap, overhead, allocate, header_size}
use meu_so_baremetal.Memory.Layout.{Block, Chain, link, extent, used_bytes, free_bytes}
use meu_so_baremetal.Memory.Frame.{SameBelow}
use meu_so_baremetal.Memory.Spec.{first_fit, suits, carve}
use meu_so_baremetal.Memory.Carve.{
  link_cases, allocate_narrow_header, allocate_narrow_footer, allocate_wide_header,
  allocate_wide_footer, allocate_narrow-Chain, allocate_wide-Chain, allocate_narrow-Counts,
  allocate_wide-Counts,
}

-- What an allocation at `q` does to the suffix `bs` of the chain that starts at `a`.
pub record Carved (h : Heap) (size prev a : ℕ) (bs : List Block) (q : ℕ) : Type 0 where
  pub low : a ≤ q
  pub below : SameBelow q h (allocate q size h)
  pub chain : Chain (allocate q size h) prev a (carve size bs)
  pub first : (allocate q size h).heap_first ≡ h.heap_first
  pub allocated :
      (allocate q size h).total_allocated + used_bytes bs
      ≡ h.total_allocated + used_bytes (carve size bs)
  pub count : (allocate q size h).block_count + length bs ≡ h.block_count + length (carve size bs)
  pub free :
      (allocate q size h).total_free + free_bytes bs + overhead * length bs
      ≡ h.total_free + free_bytes (carve size bs) + overhead * length (carve size bs)

-- No counter wraps at an allocation among the blocks `bs`.
pub record InRange (h : Heap) (bs : List Block) : Type 0 where
  pub allocated : h.total_allocated + extent bs < 2 ^ 64
  pub free : free_bytes bs ≤ h.total_free
  pub free_top : h.total_free < 2 ^ 64
  pub count : h.block_count + 1 < 2 ^ 64

pub carve_wide :
    (size n : ℕ) (bs : List Block)
    → size + overhead + 32 ≤ n
    → carve size ((n, true) ∷ bs) ≡ (size, false) ∷ (n - size - overhead, true) ∷ bs
carve_wide size n bs h = ground arith

pub carve_narrow :
    (size n : ℕ) (bs : List Block)
    → size ≤ n
    → n < size + overhead + 32
    → carve size ((n, true) ∷ bs) ≡ (n, false) ∷ bs
carve_narrow size n bs le h = ground arith

module _ (h : Heap) (size prev q n : ℕ) (bs : List Block) (c : Chain h prev q ((n, true) ∷ bs))
    (pos : 0 < q) (r : InRange h ((n, true) ∷ bs)) where
  allocate-Carved_wide : size + overhead + 32 ≤ n → Carved h size prev q ((n, true) ∷ bs) q
  allocate-Carved_wide wide =
      let L = link (q + overhead + n) bs in
      let at = link_cases (q + overhead + n) bs (omega arith) in
      let counts = allocate_wide-Counts h q size n L prev c.0 wide at in
      let cut = carve_wide size n bs wide in
      record {
        low = omega arith;
        below = λ x lt. (
          ground (arith, allocate_wide_header h q size n L prev c.0 wide x at),
          ground (arith, allocate_wide_footer h q size n L prev c.0 wide x at),
        );
        chain = rw cut (allocate_wide-Chain h size n prev q bs c pos wide);
        first = counts.0;
        allocated = rw cut (ground (arith, counts));
        count = rw cut (ground (arith, counts));
        free = rw cut (ground (arith, counts));
      }

  allocate-Carved_narrow :
      size ≤ n → n < size + overhead + 32 → Carved h size prev q ((n, true) ∷ bs) q
  allocate-Carved_narrow le narrow =
      let L = link (q + overhead + n) bs in
      let counts = allocate_narrow-Counts h q size n L prev c.0 narrow in
      let cut = carve_narrow size n bs le narrow in
      record {
        low = omega arith;
        below = λ x lt. (
          ground (arith, allocate_narrow_header h q size n L prev c.0 narrow x),
          ground (arith, allocate_narrow_footer h q size n L prev c.0 narrow x),
        );
        chain = rw cut (allocate_narrow-Chain h size n prev q bs c narrow);
        first = counts.0;
        allocated = rw cut (ground (arith, counts));
        count = rw cut (ground (arith, counts));
        free = rw cut (ground (arith, counts));
      }

  allocate-Carved_here : size ≤ n → Carved h size prev q ((n, true) ∷ bs) q
  allocate-Carved_here le = elim (dec_le (size + overhead + 32) n) [
    | yes wide ↦ allocate-Carved_wide wide
    | no narrow ↦ allocate-Carved_narrow le (omega arith)
  ]

link-carve : (size a : ℕ) (bs : List Block) → link a (carve size bs) ≡ link a bs
link-carve size a [] = refl
link-carve size a ((n, f) ∷ bs) = ground arith

pub carve_skip :
    (size n : ℕ) (f : Bool) (bs : List Block)
    → suits size (n, f) ≡ false
    → carve size ((n, f) ∷ bs) ≡ (n, f) ∷ carve size bs
carve_skip size n f bs e = rw e

-- A block in front that the search passes over stays as it is.
allocate-Carved_skip :
    (h : Heap) (size prev a n : ℕ) (f : Bool) (bs : List Block) (q : ℕ)
    → Chain h prev a ((n, f) ∷ bs)
    → suits size (n, f) ≡ false
    → Carved h size a (a + overhead + n) bs q
    → Carved h size prev a ((n, f) ∷ bs) q
allocate-Carved_skip h size prev a n f bs q c skip r =
    let cut = carve_skip size n f bs skip in
    record {
      low = omega (arith, r.low);
      below = r.below;
      chain = rw cut (
        (r.below a (omega (arith, r.low))).0 ∙ c.0 ∙ rw (link-carve size (a + overhead + n) bs),
        (r.below (a + header_size + n) (omega (arith, r.low))).1 ∙ c.1,
        r.chain,
      );
      first = r.first;
      allocated = rw cut (omega (arith, r.allocated));
      count = rw cut (omega (arith, r.count));
      free = rw cut (omega (arith, r.free));
    }

first_fit_here :
    (size a n : ℕ) (bs : List Block) {q : ℕ}
    → size ≤ n
    → first_fit size a ((n, true) ∷ bs) ≡ some q
    → a ≡ q
first_fit_here size a n bs le e = ground arith

pub allocate-carve :
    (h : Heap) (size prev a : ℕ) (bs : List Block) (q : ℕ)
    → Chain h prev a bs
    → 0 < a
    → InRange h bs
    → first_fit size a bs ≡ some q
    → Carved h size prev a bs q
allocate-carve h size prev a [] q c pos r e = absurd (cc)
allocate-carve h size prev a ((n, false) ∷ bs) q c pos r e =
    allocate-Carved_skip h size prev a n false bs q c refl
      (allocate-carve h size a (a + overhead + n) bs q c.2 (omega arith) (omega arith) e)
allocate-carve h size prev a ((n, true) ∷ bs) q c pos r e = elim (dec_le size n) [
  | yes le ↦
      subst (Carved h size prev a ((n, true) ∷ bs)) (first_fit_here size a n bs le e)
        (allocate-Carved_here h size prev a n bs c pos r le)
  | no gt ↦
      let skip : suits size (n, true) ≡ false = ground arith in
      allocate-Carved_skip h size prev a n true bs q c skip (
        allocate-carve h size a (a + overhead + n) bs q c.2 (omega arith) (omega arith)
          (rw skip at e))
]
