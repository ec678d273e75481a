-- ===== src/Klibc/Strings.antt =====
-- The string functions of src/klibc.c on strings with no zero byte in them.
use mathlib.Core.Path.{subst}
use meu_so_baremetal.Prelude.{
  ℕ, zero, suc, ◌+◌, ◌<◌, ◌≡◌, ◌∙◌, ◌⊎◌, ◌↔◌, refl, inl, false, arith, ◌==◌, List, [], ◌∷◌, length,
  take, if◌then◌else◌,
}
use meu_so_baremetal.Prelude.Int.{pos}
use meu_so_baremetal.Klibc.{ByteMem, within, store_chunk, kstrcmp, kstrncmp, kstrlen, kstrcpy}

-- No byte of the string is the terminator.
abbrev pub NoNul : List ℕ → Type 0
NoNul [] = Unit {0}
NoNul (c ∷ cs) = (0 < c) × NoNul cs

kstrcmp_refl : (s : List ℕ) → NoNul s → kstrcmp s s ≡ pos 0
unfolding kstrcmp
kstrcmp_refl [] h = refl
kstrcmp_refl (c ∷ cs) h = ground (arith, kstrcmp_refl cs h.1)

kstrcmp-eq : (s t : List ℕ) → NoNul s → NoNul t → kstrcmp s t ≡ pos 0 → s ≡ t
unfolding kstrcmp
kstrcmp-eq [] [] hs ht e = refl
kstrcmp-eq [] (d ∷ ds) hs ht e = absurd (ground (arith, ht.0))
kstrcmp-eq (c ∷ cs) [] hs ht e = absurd (ground (arith, hs.0))
kstrcmp-eq (c ∷ cs) (d ∷ ds) hs ht e = ground (arith, hs.0, ht.0, kstrcmp-eq cs ds hs.1 ht.1)

-- `kstrcmp` is 0 exactly on equal strings.
pub kstrcmp_iff : (s t : List ℕ) → NoNul s → NoNul t → (kstrcmp s t ≡ pos 0) ↔ (s ≡ t)
kstrcmp_iff s t hs ht = (kstrcmp-eq s t hs ht, λ e. rw (← e) (kstrcmp_refl s hs))

-- `kstrncmp` is 0 exactly when the first `n` bytes agree.
pub kstrncmp_iff :
    (n : ℕ) (s t : List ℕ) → NoNul s → NoNul t → (kstrncmp s t n ≡ pos 0) ↔ (take n s ≡ take n t)
unfolding kstrncmp
kstrncmp_iff zero s t hs ht = (λ e. refl, λ e. refl)
kstrncmp_iff (suc n) [] [] hs ht = (λ e. refl, λ e. refl)
kstrncmp_iff (suc n) [] (d ∷ ds) hs ht = (λ e. absurd (ground (arith, ht.0)), λ e. absurd (cc))
kstrncmp_iff (suc n) (c ∷ cs) [] hs ht = (λ e. absurd (ground (arith, hs.0)), λ e. absurd (cc))
kstrncmp_iff (suc n) (c ∷ cs) (d ∷ ds) hs ht =
    let ih = kstrncmp_iff n cs ds hs.1 ht.1 in
    (λ e. ground (arith, hs.0, ht.0, ih.0), λ e. ground (arith, hs.0, ht.0, ih.1))

pub kstrlen_lem : (s : List ℕ) → NoNul s → kstrlen s ≡ length s
unfolding kstrlen
kstrlen_lem [] h = refl
kstrlen_lem (c ∷ cs) h = ground (arith, h.0, kstrlen_lem cs h.1)

-- The memory holds the string, with its terminator, at `a`.
abbrev pub Holds : ByteMem → ℕ → List ℕ → Type 0
Holds m a [] = m a ≡ 0
Holds m a (c ∷ cs) = (m a ≡ c) × Holds m (a + 1) cs

pub kstrcpy_outside :
    (s : List ℕ) (d x : ℕ) (m : ByteMem) → (x < d) ⊎ (d + length s < x) → kstrcpy d s m x ≡ m x
unfolding kstrcpy
kstrcpy_outside [] d x m out = ground arith
kstrcpy_outside (c ∷ cs) d x m out =
    ground (arith, kstrcpy_outside cs (d + 1) x (store_chunk 1 d c m))

kstrcpy_step :
    (c : ℕ) (cs : List ℕ) (d : ℕ) (m : ByteMem)
    → 0 < c
    → kstrcpy (d + 1) cs (store_chunk 1 d c m) ≡ kstrcpy d (c ∷ cs) m
unfolding kstrcpy
kstrcpy_step c cs d m h = let go : (c == 0) ≡ false = ground (arith, h) in rw go

kstrcpy-Holds : (s : List ℕ) (d : ℕ) (m : ByteMem) → NoNul s → Holds (kstrcpy d s m) d s
kstrcpy-Holds [] d m h = unfold kstrcpy in ground arith
kstrcpy-Holds (c ∷ cs) d m h =
    let n = store_chunk 1 d c m in
    subst (λ g. Holds g d (c ∷ cs)) (kstrcpy_step c cs d m h.0)
      (
        kstrcpy_outside cs (d + 1) d n (inl (omega arith)) ∙ ground arith,
        kstrcpy-Holds cs (d + 1) n h.1,
      )

-- `kstrcpy` leaves the source string with its terminator at `dest`, and every byte outside of it
-- stays as it was.
pub kstrcpy_lem :
    (s : List ℕ) (d x : ℕ) (m : ByteMem)
    → NoNul s
    → Holds (kstrcpy d s m) d s
      × ((if within d (length s + 1) x then m x else kstrcpy d s m x) ≡ m x)
kstrcpy_lem s d x m h = (kstrcpy-Holds s d m h, ground (arith, kstrcpy_outside s d x m))
