-- ===== src/Memory/CoalesceLaws.antt =====
-- Laws of the abstract release: marking a block free and merging all free neighbours.
use meu_so_baremetal.Prelude.{ℕ, ◌+◌, ◌%◌, ◌≡◌, refl, Bool, true, false, ◌&&◌, List, [], ◌∷◌, arith}
use meu_so_baremetal.Memory.{overhead}
use meu_so_baremetal.Memory.Layout.{Block, extent, Aligned, Merged}
use meu_so_baremetal.Memory.Spec.{join, coalesce, mark_free}

-- The flag of the first block; an empty list counts as used.
abbrev pub head_free : List Block → Bool
head_free [] = false
head_free ((n, f) ∷ bs) = f

pub join_apart :
    (n : ℕ) (f : Bool) (bs : List Block)
    → (f && head_free bs) ≡ false
    → join (n, f) bs ≡ (n, f) ∷ bs
join_apart n f [] e = refl
join_apart n f ((m, g) ∷ bs) e = rw e

pub Merged-head :
    (n : ℕ) (f : Bool) (bs : List Block) → Merged ((n, f) ∷ bs) → (f && head_free bs) ≡ false
Merged-head n f [] mg = ground arith
Merged-head n f ((m, g) ∷ bs) mg = ground (arith, mg.0)

pub Merged-tail : (b : Block) (bs : List Block) → Merged (b ∷ bs) → Merged bs
Merged-tail b [] mg = tt
Merged-tail b (c ∷ bs) mg = mg.1

-- A list with no free neighbours stays as it is.
pub coalesce-Merged : (bs : List Block) → Merged bs → coalesce bs ≡ bs
coalesce-Merged [] mg = refl
coalesce-Merged ((n, f) ∷ bs) mg =
    rw (coalesce-Merged bs (Merged-tail (n, f) bs mg)) (join_apart n f bs (Merged-head n f bs mg))

pub join-Merged : (n : ℕ) (f : Bool) (bs : List Block) → Merged bs → Merged (join (n, f) bs)
join-Merged n f [] mg = tt
join-Merged n false ((m, g) ∷ bs) mg = (λ e. cc, mg)
join-Merged n true ((m, false) ∷ bs) mg = (λ e. refl, mg)
join-Merged n true ((m, true) ∷ []) mg = tt
join-Merged n true ((m, true) ∷ c ∷ bs) mg = (mg.0, mg.1)

pub Merged-coalesce : (bs : List Block) → Merged (coalesce bs)
Merged-coalesce [] = tt
Merged-coalesce ((n, f) ∷ bs) = join-Merged n f (coalesce bs) (Merged-coalesce bs)

extent-join :
    (n : ℕ) (f : Bool) (bs : List Block) → extent (join (n, f) bs) ≡ overhead + n + extent bs
extent-join n f [] = refl
extent-join n f ((m, g) ∷ bs) = ground arith

pub extent-coalesce : (bs : List Block) → extent (coalesce bs) ≡ extent bs
extent-coalesce [] = refl
extent-coalesce ((n, f) ∷ bs) = omega (arith, extent-join n f (coalesce bs), extent-coalesce bs)

pub extent-mark_free : (q a : ℕ) (bs : List Block) → extent (mark_free q a bs) ≡ extent bs
extent-mark_free q a [] = refl
extent-mark_free q a ((n, f) ∷ bs) = ground (arith, extent-mark_free q (a + overhead + n) bs)

join-Aligned :
    (n : ℕ) (f : Bool) (bs : List Block) → n % 16 ≡ 0 → Aligned bs → Aligned (join (n, f) bs)
join-Aligned n f [] e al = (e, tt)
join-Aligned n f ((m, g) ∷ bs) e al = ground (arith, al.0, al.1)

pub Aligned-coalesce : (bs : List Block) → Aligned bs → Aligned (coalesce bs)
Aligned-coalesce [] al = tt
Aligned-coalesce ((n, f) ∷ bs) al = join-Aligned n f (coalesce bs) al.0 (Aligned-coalesce bs al.1)

pub Aligned-mark_free : (q a : ℕ) (bs : List Block) → Aligned bs → Aligned (mark_free q a bs)
Aligned-mark_free q a [] al = tt
Aligned-mark_free q a ((n, f) ∷ bs) al =
    ground (arith, al.0, Aligned-mark_free q (a + overhead + n) bs al.1)

head_free-join : (n : ℕ) (f : Bool) (bs : List Block) → head_free (join (n, f) bs) ≡ f
head_free-join n f [] = refl
head_free-join n f ((m, g) ∷ bs) = ground arith

-- The first block that a coalesced list begins with has the flag of the first block.
pub head_free-coalesce :
    (n : ℕ) (f : Bool) (bs : List Block) → head_free (coalesce ((n, f) ∷ bs)) ≡ f
head_free-coalesce n f bs = head_free-join n f (coalesce bs)
