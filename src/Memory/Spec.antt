-- ===== src/Memory/Spec.antt =====
-- The heap as an abstract list of blocks: first-fit allocation and merging.
use meu_so_baremetal.Prelude.{
  ℕ, ◌+◌, ◌-◌, Bool, true, false, ◌&&◌, Option, none, some, List, [], ◌∷◌, leb, ◌==◌, if◌then◌else◌,
}
use meu_so_baremetal.Memory.{Search, hit, miss, overhead}
use meu_so_baremetal.Memory.Layout.{Block}

abbrev pub suits : ℕ → Block → Bool
suits size (n, f) = f && leb size n

-- The address of the first free block that is large enough, in a list that starts at `a`.
abbrev pub first_fit : ℕ → ℕ → List Block → Option ℕ
first_fit size a [] = none
first_fit size a ((n, f) ∷ bs) =
    if suits size (n, f) then some a else first_fit size (a + overhead + n) bs

abbrev pub outcome : Option ℕ → Search
outcome none = miss
outcome (some a) = hit a

-- The pieces of a free block of `n` bytes of which `size` are allocated.
abbrev pub pieces : ℕ → ℕ → List Block → List Block
pieces size n bs =
    if leb (size + overhead + 32) n
    then (size, false) ∷ (n - size - overhead, true) ∷ bs
    else (n, false) ∷ bs

-- The list after an allocation of `size` bytes.
abbrev pub carve : ℕ → List Block → List Block
carve size [] = []
carve size ((n, f) ∷ bs) = if suits size (n, f) then pieces size n bs else (n, f) ∷ carve size bs

-- A block in front of a list of which it takes the first block in, if both are free.
abbrev pub join : Block → List Block → List Block
join (n, f) [] = (n, f) ∷ []
join (n, f) ((m, g) ∷ bs) = if f && g then (n + overhead + m, true) ∷ bs else (n, f) ∷ (m, g) ∷ bs

-- All free neighbours merged.
abbrev pub coalesce : List Block → List Block
coalesce [] = []
coalesce (b ∷ bs) = join b (coalesce bs)

-- The block at `q` marked free, in a list that starts at `a`.
abbrev pub mark_free : ℕ → ℕ → List Block → List Block
mark_free q a [] = []
mark_free q a ((n, f) ∷ bs) =
    if a == q then (n, true) ∷ bs else (n, f) ∷ mark_free q (a + overhead + n) bs

-- The block at `q`, in a list that starts at `a`.
abbrev pub block_at : ℕ → ℕ → List Block → Option Block
block_at q a [] = none
block_at q a ((n, f) ∷ bs) = if a == q then some (n, f) else block_at q (a + overhead + n) bs
