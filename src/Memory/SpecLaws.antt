-- ===== src/Memory/SpecLaws.antt =====
-- What an allocation keeps of the abstract list of blocks.
use mathlib.Core.Path.{subst}
use meu_so_baremetal.Prelude.{
  ℕ, ◌+◌, ◌%◌, ◌≤◌, ◌<◌, ◌≡◌, refl, inl, inr, Bool, true, false, List, [], ◌∷◌, some, arith,
  Bool-cases, leb, sym, ◌∙◌, if◌then◌else◌,
}
use meu_so_baremetal.Memory.{overhead, align_up}
use meu_so_baremetal.Memory.Layout.{Block, extent, Aligned, Merged}
use meu_so_baremetal.Memory.Spec.{first_fit, suits, carve, block_at}

pub align_up_lem : (n : ℕ) → (align_up n % 16 ≡ 0) × (n ≤ align_up n) × (align_up n < n + 16)
align_up_lem n = ground arith

pub extent-carve : (size : ℕ) (bs : List Block) → extent (carve size bs) ≡ extent bs
extent-carve size [] = refl
extent-carve size ((n, f) ∷ bs) = ground (arith, extent-carve size bs)

pub Aligned-carve :
    (size : ℕ) (bs : List Block) → size % 16 ≡ 0 → Aligned bs → Aligned (carve size bs)
Aligned-carve size [] e al = tt
Aligned-carve size ((n, f) ∷ bs) e al = ground (arith, Aligned-carve size bs e al.1)

pub Merged-carve : (size : ℕ) (bs : List Block) → Merged bs → Merged (carve size bs)
Merged-carve size [] mg = tt
Merged-carve size ((n, f) ∷ []) mg = ground arith
Merged-carve size ((n, f) ∷ (m, g) ∷ bs) mg =
    ground (arith, mg.0, Merged-carve size ((m, g) ∷ bs) mg.1)

-- The block that the search finds is free and large enough; carved, it is used and large enough.
pub record Grant (size a q : ℕ) (bs : List Block) : Type 0 where
  pub old : ℕ
  pub new : ℕ
  pub was_free : block_at q a bs ≡ some (old, true)
  pub is_used : block_at q a (carve size bs) ≡ some (new, false)
  pub enough : size ≤ new
  pub fits_old : new ≤ old
  pub low : a ≤ q
  pub high : q + overhead + old ≤ a + extent bs
  pub aligned : a % 16 ≡ 0 → q % 16 ≡ 0

Grant-here :
    (size a n : ℕ) (f : Bool) (bs : List Block)
    → suits size (n, f) ≡ true
    → Grant size a a ((n, f) ∷ bs)
Grant-here size a n f bs fit = record {
  old = n;
  new = if leb (size + overhead + 32) n then size else n;
  was_free = ground arith;
  is_used = ground arith;
  enough = ground arith;
  fits_old = ground arith;
  low = omega arith;
  high = omega arith;
  aligned = λ al. al;
}

Grant-later :
    (size a q n : ℕ) (f : Bool) (bs : List Block)
    → n % 16 ≡ 0
    → suits size (n, f) ≡ false
    → Grant size (a + overhead + n) q bs
    → Grant size a q ((n, f) ∷ bs)
Grant-later size a q n f bs al skip r = record {
  old = r.old;
  new = r.new;
  was_free = ground (arith, r.low, r.was_free);
  is_used = ground (arith, r.low, r.is_used);
  enough = r.enough;
  fits_old = r.fits_old;
  low = omega (arith, r.low);
  high = omega (arith, r.high);
  aligned = λ e. r.aligned (omega arith);
}

pub first_fit_skip :
    (size a n : ℕ) (f : Bool) (bs : List Block)
    → suits size (n, f) ≡ false
    → first_fit size a ((n, f) ∷ bs) ≡ first_fit size (a + overhead + n) bs
first_fit_skip size a n f bs e = rw e

pub first_fit_at :
    (size a n : ℕ) (f : Bool) (bs : List Block) {q : ℕ}
    → suits size (n, f) ≡ true
    → first_fit size a ((n, f) ∷ bs) ≡ some q
    → a ≡ q
first_fit_at size a n f bs fit e = ground arith

pub first_fit-Grant :
    (size a q : ℕ) (bs : List Block) → Aligned bs → first_fit size a bs ≡ some q → Grant size a q bs
first_fit-Grant size a q [] al e = absurd (cc)
first_fit-Grant size a q ((n, f) ∷ bs) al e = elim (Bool-cases (suits size (n, f))) [
  | inl fit ↦
      subst (λ x. Grant size a x ((n, f) ∷ bs)) (first_fit_at size a n f bs fit e)
        (Grant-here size a n f bs fit)
  | inr skip ↦ Grant-later size a q n f bs al.0 skip (
      first_fit-Grant size (a + overhead + n) q bs al.1
        (sym (first_fit_skip size a n f bs skip) ∙ e))
]
