-- ===== src/Memory/Frame.antt =====
-- A chain depends only on what stands at its own addresses.
use meu_so_baremetal.Prelude.{ℕ, ◌+◌, ◌≤◌, ◌<◌, ◌≡◌, ◌∙◌, List, [], ◌∷◌, length, arith}
use meu_so_baremetal.Memory.{Heap, header_size, overhead}
use meu_so_baremetal.Memory.Layout.{Block, Chain}

-- `g` has the headers and footers of `h` from `a` on.
abbrev pub SameFrom : ℕ → Heap → Heap → Type 0
SameFrom a h g = (x : ℕ) → a ≤ x → (g.header x ≡ h.header x) × (g.footer x ≡ h.footer x)

-- `g` has the headers and footers of `h` below `a`.
abbrev pub SameBelow : ℕ → Heap → Heap → Type 0
SameBelow a h g = (x : ℕ) → x < a → (g.header x ≡ h.header x) × (g.footer x ≡ h.footer x)

pub Chain-frame :
    (h g : Heap) (prev a : ℕ) (bs : List Block)
    → Chain h prev a bs
    → SameFrom a h g
    → Chain g prev a bs
Chain-frame h g prev a [] c same = tt
Chain-frame h g prev a ((n, f) ∷ bs) c same = (
  (same a (omega arith)).0 ∙ c.0,
  (same (a + header_size + n) (omega arith)).1 ∙ c.1,
  Chain-frame h g a (a + overhead + n) bs c.2 (λ x le. same x (omega arith)),
)

-- The same when the first header, if there is one, gets a new `prev`.
pub Chain-relink :
    (h g : Heap) (prev prev' a : ℕ) (bs : List Block)
    → Chain h prev a bs
    → (0 < length bs → g.header a ≡ record (h.header a) { prev = prev' })
    → ((x : ℕ) → a < x → (g.header x ≡ h.header x) × (g.footer x ≡ h.footer x))
    → Chain g prev' a bs
Chain-relink h g prev prev' a [] c first same = tt
Chain-relink h g prev prev' a ((n, f) ∷ bs) c first same = (
  first (omega arith) ∙ rw c.0,
  (same (a + header_size + n) (omega arith)).1 ∙ c.1,
  Chain-frame h g a (a + overhead + n) bs c.2 (λ x le. same x (omega arith)),
)
