-- ===== src/Task/Names.antt =====
-- The names of tasks that `task_create` of src/task.c copies.
use meu_so_baremetal.Prelude.{
  ℕ, zero, suc, ◌+◌, ◌<◌, ◌≡◌, ◌∙◌, inl, inr, ap, false, List, [], ◌∷◌, leb, ◌==◌, if◌then◌else◌,
  arith, refl, length, get_or, Bool-cases,
}
use meu_so_baremetal.Task.{update}
use meu_so_baremetal.Task.Create.{copy_name}

-- A C string up to its terminator, cut off after `n` characters.
abbrev pub text : ℕ → List ℕ → List ℕ
text zero cs = []
text (suc n) [] = []
text (suc n) (c ∷ cs) = if c == 0 then [] else c ∷ text n cs

copy_name_before :
    (cs : List ℕ) (i : ℕ) (buf : ℕ → ℕ) (j : ℕ) → j < i → copy_name cs i buf j ≡ buf j
unfolding copy_name
copy_name_before [] i buf j h = ground arith
copy_name_before (c ∷ cs) i buf j h =
    ground (arith, copy_name_before cs (suc i) (update buf i c) j (omega arith))

next_char :
    (c : ℕ) (cs : List ℕ) (i : ℕ) (buf : ℕ → ℕ)
    → (c == 0) ≡ false
    → i < 31
    → copy_name (c ∷ cs) i buf ≡ copy_name cs (suc i) (update buf i c)
unfolding copy_name
next_char c cs i buf z h = let room : leb 31 i ≡ false = ground arith in rw (z, room) refl

stored_char :
    (c : ℕ) (cs : List ℕ) (i k : ℕ) (buf : ℕ → ℕ)
    → k ≡ i
    → copy_name cs (suc i) (update buf i c) k ≡ c
stored_char c cs i k buf e =
    copy_name_before cs (suc i) (update buf i c) k (omega arith) ∙ ground (arith, e)

-- The buffer holds the text, and a terminator behind it.
pub copy_name_lem :
    (n : ℕ) (cs : List ℕ) (i : ℕ) (buf : ℕ → ℕ) (k : ℕ)
    → n + i ≡ 31
    → k < length (text n cs)
    → copy_name cs i buf (i + k) ≡ get_or (text n cs) k 0
unfolding copy_name
copy_name_lem zero cs i buf k e h = absurd (omega arith)
copy_name_lem (suc n) [] i buf k e h = absurd (omega arith)
copy_name_lem (suc n) (c ∷ cs) i buf zero e h = elim (Bool-cases (c == 0)) [
  | inl z ↦ absurd (let h' = rw z at h in omega arith)
  | inr z ↦
      ap (λ (b : ℕ → ℕ). b (i + 0)) (next_char c cs i buf z (omega arith))
      ∙ rw z (stored_char c cs i (i + 0) buf (omega arith))
]
copy_name_lem (suc n) (c ∷ cs) i buf (suc k) e h = elim (Bool-cases (c == 0)) [
  | inl z ↦ absurd (let h' = rw z at h in omega arith)
  | inr z ↦
      let h' : suc k < length (c ∷ text n cs) = rw z at h in
      ap (λ (b : ℕ → ℕ). b (i + suc k)) (next_char c cs i buf z (omega arith))
      ∙ rw z (
          ap (copy_name cs (suc i) (update buf i c)) (omega arith)
          ∙ copy_name_lem n cs (suc i) (update buf i c) k (omega arith) (omega arith))
]

pub copy_name_ends :
    (n : ℕ) (cs : List ℕ) (i : ℕ) (buf : ℕ → ℕ)
    → n + i ≡ 31
    → copy_name cs i buf (i + length (text n cs)) ≡ 0
unfolding copy_name
copy_name_ends zero [] i buf e = ground arith
copy_name_ends zero (c ∷ cs) i buf e = ground (arith, e)
copy_name_ends (suc n) [] i buf e = ground arith
copy_name_ends (suc n) (c ∷ cs) i buf e = elim (Bool-cases (c == 0)) [
  | inl z ↦ rw z (ground arith)
  | inr z ↦
      ap (λ (b : ℕ → ℕ). b (i + length (text (suc n) (c ∷ cs))))
        (next_char c cs i buf z (omega arith))
      ∙ rw z (
          ap (copy_name cs (suc i) (update buf i c)) (omega arith)
          ∙ copy_name_ends n cs (suc i) (update buf i c) (omega arith))
]
