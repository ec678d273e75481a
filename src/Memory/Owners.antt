-- ===== src/Memory/Owners.antt =====
-- The used blocks of the heap of src/memory.c while other blocks are allocated and freed.
use native.Mathlib.Decide.{ℕ_discrete}
use meu_so_baremetal.Prelude.{
  ℕ, ◌+◌, ◌≤◌, ◌<◌, ◌≡◌, ◌≢◌, Bool, true, false, List, [], ◌∷◌, some, arith,
}
use meu_so_baremetal.Memory.{overhead}
use meu_so_baremetal.Memory.Layout.{Block}
use meu_so_baremetal.Memory.Spec.{carve, join, coalesce, mark_free, block_at}

pub block_at-le : (x a n : ℕ) (f : Bool) (bs : List Block) → block_at x a bs ≡ some (n, f) → a ≤ x
block_at-le x a n f [] e = absurd (cc)
block_at-le x a n f ((m, g) ∷ bs) e = elim (ℕ_discrete a x) [
  | yes here ↦ omega arith
  | no ne ↦ omega (arith, block_at-le x (a + overhead + m) n f bs (ground arith))
]

pub block_at-carve :
    (size x a n : ℕ) (bs : List Block)
    → block_at x a bs ≡ some (n, false)
    → block_at x a (carve size bs) ≡ some (n, false)
block_at-carve size x a n [] e = absurd (cc)
block_at-carve size x a n ((m, g) ∷ bs) e = elim (ℕ_discrete a x) [
  | yes here ↦ ground arith
  | no ne ↦
      let rest : block_at x (a + overhead + m) bs ≡ some (n, false) = ground arith in
      ground (
        arith,
        block_at-le x (a + overhead + m) n false bs rest,
        block_at-carve size x (a + overhead + m) n bs rest,
      )
]

pub block_at-mark_free :
    (q x a n : ℕ) (bs : List Block)
    → q ≢ x
    → block_at x a bs ≡ some (n, false)
    → block_at x a (mark_free q a bs) ≡ some (n, false)
block_at-mark_free q x a n [] ne e = absurd (cc)
block_at-mark_free q x a n ((m, g) ∷ bs) ne e = elim (ℕ_discrete a x) [
  | yes here ↦ ground arith
  | no other ↦ ground (arith, block_at-mark_free q x (a + overhead + m) n bs ne (ground arith))
]

block_at-join :
    (x a n m : ℕ) (g : Bool) (bs : List Block)
    → block_at x a ((m, g) ∷ bs) ≡ some (n, false)
    → block_at x a (join (m, g) bs) ≡ some (n, false)
block_at-join x a n m g [] e = e
block_at-join x a n m false ((k, f) ∷ bs) e = e
block_at-join x a n m true ((k, false) ∷ bs) e = e
block_at-join x a n m true ((k, true) ∷ bs) e = elim (ℕ_discrete (a + overhead + m) x) [
  | yes here ↦ absurd (ground arith)
  | no ne ↦ ground arith
]

block_at-cons :
    (x a n m : ℕ) (g : Bool) (bs bs' : List Block)
    → (block_at x (a + overhead + m) bs ≡ some (n, false)
        → block_at x (a + overhead + m) bs' ≡ some (n, false))
    → block_at x a ((m, g) ∷ bs) ≡ some (n, false)
    → block_at x a ((m, g) ∷ bs') ≡ some (n, false)
block_at-cons x a n m g bs bs' k e = elim (ℕ_discrete a x) [
  | yes here ↦ ground arith
  | no ne ↦
      let rest : block_at x (a + overhead + m) bs ≡ some (n, false) = ground arith in
      ground (arith, k rest)
]

pub block_at-coalesce :
    (x a n : ℕ) (bs : List Block)
    → block_at x a bs ≡ some (n, false)
    → block_at x a (coalesce bs) ≡ some (n, false)
block_at-coalesce x a n [] e = e
block_at-coalesce x a n ((m, g) ∷ bs) e =
    block_at-join x a n m g (coalesce bs)
      (block_at-cons x a n m g bs (coalesce bs) (block_at-coalesce x (a + overhead + m) n bs) e)

-- Two blocks of one list do not overlap, headers and footers included.
pub block_at-apart :
    (x y a n m : ℕ) (f g : Bool) (bs : List Block)
    → x < y
    → block_at x a bs ≡ some (n, f)
    → block_at y a bs ≡ some (m, g)
    → x + overhead + n ≤ y
block_at-apart x y a n m f g [] lt e e' = absurd (cc)
block_at-apart x y a n m f g ((k, h) ∷ bs) lt e e' = elim (ℕ_discrete a x) [
  | yes here ↦
      let rest : block_at y (a + overhead + k) bs ≡ some (m, g) = ground arith in
      ground (arith, block_at-le y (a + overhead + k) m g bs rest)
  | no ne ↦
      let le : a ≤ x = block_at-le x a n f ((k, h) ∷ bs) e in
      block_at-apart x y (a + overhead + k) n m f g bs lt (ground arith) (ground arith)
]
