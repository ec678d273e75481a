-- ===== src/Ui/Fields.antt =====
-- The text fields of src/ui.c: the shell line, the pad and the serial line, each a `char` array with
-- an index of its end.
use meu_so_baremetal.Prelude.{
  ℕ, zero, suc, ◌+◌, ◌-◌, ◌≤◌, ◌<◌, ◌≡◌, ◌≢◌, inl, inr, ◌∙◌, List, [], ◌∷◌, ◌++◌, ltb, ◌==◌,
  if◌then◌else◌, arith, refl, sym, ap, Bool-cases,
}

pub record Field : Type 0 where
  pub buffer : ℕ → ℕ
  pub index : ℕ

abbrev pub put_byte : ℕ → ℕ → (ℕ → ℕ) → ℕ → ℕ
put_byte i v b j = if i == j then v else b j

-- `buffer[index++] = c; buffer[index] = '\0';`
unfoldable pub append : ℕ → Field → Field
append c f = record {
  buffer = put_byte (f.index + 1) 0 (put_byte f.index c f.buffer);
  index = f.index + 1;
}

-- `if (index > 0) buffer[--index] = '\0';`
unfoldable pub erase : Field → Field
erase f =
    if ltb 0 f.index
    then record { buffer = put_byte (f.index - 1) 0 f.buffer; index = f.index - 1 }
    else f

-- `buffer[0] = '\0'; index = 0;`
unfoldable pub clear_field : Field → Field
clear_field f = record { buffer = put_byte 0 0 f.buffer; index = 0 }

-- A character is taken while the index is below `limit`.
unfoldable pub type_into : ℕ → ℕ → Field → Field
type_into limit c f = if ltb f.index limit then append c f else f

-- `n` bytes of an array from `i` on.
abbrev pub bytes_from : (ℕ → ℕ) → ℕ → ℕ → List ℕ
bytes_from b i zero = []
bytes_from b i (suc n) = b i ∷ bytes_from b (i + 1) n

-- The text of a field.
abbrev pub text_of : Field → List ℕ
text_of f = bytes_from f.buffer 0 f.index

-- The array of `size` bytes is not left, and the text of non-zero bytes is ended at the index.
pub record IsField (size : ℕ) (f : Field) : Type 0 where
  pub fits : f.index < size
  pub ended : f.buffer f.index ≡ 0
  pub text : (i : ℕ) → i < f.index → f.buffer i ≢ 0

pub append-IsField :
    (size c : ℕ) (f : Field)
    → f.index + 1 < size
    → c ≢ 0
    → IsField size f
    → IsField size (append c f)
unfolding append
append-IsField size c f h nz v = record {
  fits = h;
  ended = ground arith;
  text = λ i hi. ground (arith, v.text i);
}

pub erase-IsField : (size : ℕ) (f : Field) → IsField size f → IsField size (erase f)
unfolding erase
erase-IsField size f v = elim (Bool-cases (ltb 0 f.index)) [
  | inl e ↦ rw e (record {
    fits = omega (arith, v.fits);
    ended = ground arith;
    text = λ i hi. ground (arith, v.text i);
  })
  | inr e ↦ rw e v
]

pub clear_field-IsField : (size : ℕ) (f : Field) → 0 < size → IsField size (clear_field f)
unfolding clear_field
clear_field-IsField size f h = record {
  fits = h;
  ended = refl;
  text = λ i hi. absurd (omega arith);
}

pub type_into-IsField :
    (size limit c : ℕ) (f : Field)
    → limit < size
    → c ≢ 0
    → IsField size f
    → IsField size (type_into limit c f)
unfolding type_into
type_into-IsField size limit c f h nz v = elim (Bool-cases (ltb f.index limit)) [
  | inl e ↦ rw e (append-IsField size c f (ground arith) nz v)
  | inr e ↦ rw e v
]

bytes_from_same :
    (b d : ℕ → ℕ) (i n : ℕ)
    → ((j : ℕ) → i ≤ j → j < i + n → b j ≡ d j)
    → bytes_from b i n ≡ bytes_from d i n
bytes_from_same b d i zero h = refl
bytes_from_same b d i (suc n) h =
    rw
      (
        h i (omega arith) (omega arith),
        bytes_from_same b d (i + 1) n (λ j p q. h j (omega arith) (omega arith)),
      )
      refl

bytes_from_snoc :
    (b : ℕ → ℕ) (i n : ℕ) → bytes_from b i (suc n) ≡ bytes_from b i n ++ (b (i + n) ∷ [])
bytes_from_snoc b i zero = let e : i + 0 ≡ i = omega arith in rw e refl
bytes_from_snoc b i (suc n) =
    let e : i + 1 + n ≡ i + suc n = omega arith in
    ap (◌∷◌ (b i)) (bytes_from_snoc b (i + 1) n ∙ rw e refl)

-- The list without its last element.
abbrev pub but_last : List ℕ → List ℕ
but_last [] = []
but_last (c ∷ []) = []
but_last (c ∷ d ∷ cs) = c ∷ but_last (d ∷ cs)

but_last_snoc : (cs : List ℕ) (c : ℕ) → but_last (cs ++ (c ∷ [])) ≡ cs
but_last_snoc [] c = refl
but_last_snoc (d ∷ []) c = refl
but_last_snoc (d ∷ e ∷ cs) c = ap (◌∷◌ d) (but_last_snoc (e ∷ cs) c)

pub append-text : (c : ℕ) (f : Field) → text_of (append c f) ≡ text_of f ++ (c ∷ [])
unfolding append
append-text c f =
    let e : f.index + 1 ≡ suc f.index = omega arith in
    let z : 0 + f.index ≡ f.index = omega arith in
    let b : ℕ → ℕ = put_byte (f.index + 1) 0 (put_byte f.index c f.buffer) in
    let here : b f.index ≡ c = ground arith in
    ap (bytes_from b 0) e
    ∙ bytes_from_snoc b 0 f.index
    ∙ rw (z, here, bytes_from_same b f.buffer 0 f.index (λ j p q. ground arith)) refl

pub erase-text : (f : Field) → text_of (erase f) ≡ but_last (text_of f)
unfolding erase
erase-text f = elim (Bool-cases (ltb 0 f.index)) [
  | inr e ↦ let z : f.index ≡ 0 = ground arith in rw (e, z) refl
  | inl e ↦
      let s : f.index ≡ suc (f.index - 1) = ground arith in
      rw e (
        bytes_from_same (put_byte (f.index - 1) 0 f.buffer) f.buffer 0 (f.index - 1)
          (λ j p q. ground arith)
        ∙ sym (but_last_snoc _ (f.buffer (0 + (f.index - 1))))
        ∙ ap but_last
            (sym (bytes_from_snoc f.buffer 0 (f.index - 1)) ∙ ap (bytes_from f.buffer 0) (sym s)))
]
