-- ===== src/Gfx/Digits.antt =====
-- Decimal digits, as `gfx_draw_number_64` of src/gfx.c makes them: reading them gives the number.
use native.Mathlib.Nat.{pow-le-pow_right}
use meu_so_baremetal.Prelude.{
  ℕ, zero, suc, ◌+◌, ◌-◌, ◌*◌, ◌/◌, ◌^◌, ◌≤◌, ◌<◌, ◌≡◌, inl, inr, ◌∙◌, Bool, true, ◌&&◌, List, [],
  ◌∷◌, leb, ◌==◌, arith, refl, Bool-cases, length,
}
use meu_so_baremetal.Gfx.Text.{digits_from, reverse_onto, number_text}

-- What `val = val * 10 + (c - '0')` comes to over a text.
unfoldable pub value_of : ℕ → List ℕ → ℕ
value_of val [] = val
value_of val (c ∷ cs) = value_of (val * 10 + (c - b'0')) cs

low_value : List ℕ → ℕ
low_value [] = 0
low_value (d ∷ ds) = (d - b'0') + 10 * low_value ds

value_of-reverse_onto :
    (ds acc : List ℕ) → value_of 0 (reverse_onto ds acc) ≡ value_of (low_value ds) acc
unfolding value_of low_value
value_of-reverse_onto [] acc = refl
value_of-reverse_onto (d ∷ ds) acc =
    let e : low_value ds * 10 + (d - b'0') ≡ (d - b'0') + 10 * low_value ds = omega arith in
    value_of-reverse_onto ds (d ∷ acc) ∙ rw e refl

low_value-digits_from : (fuel num : ℕ) → num < 10 ^ fuel → low_value (digits_from fuel num) ≡ num
unfolding low_value digits_from
low_value-digits_from zero num h = omega arith
low_value-digits_from (suc fuel) num h =
    ground (arith, low_value-digits_from fuel (num / 10) (omega arith))

-- Reading the digits in reading order gives the number.
pub value_of-digits :
    (fuel num : ℕ) → num < 10 ^ fuel → value_of 0 (reverse_onto (digits_from fuel num) []) ≡ num
value_of-digits fuel num h =
    value_of-reverse_onto (digits_from fuel num) []
    ∙ unfold value_of in low_value-digits_from fuel num h

pub length-digits_from : (fuel num : ℕ) → length (digits_from fuel num) ≤ fuel
unfolding digits_from
length-digits_from zero num = omega arith
length-digits_from (suc fuel) num = ground (arith, length-digits_from fuel (num / 10))

pub some_digit : (fuel num : ℕ) → 0 < num → 1 ≤ length (digits_from (suc fuel) num)
unfolding digits_from
some_digit fuel num h = ground arith

pub length-reverse_onto : (ds acc : List ℕ) → length (reverse_onto ds acc) ≡ length ds + length acc
length-reverse_onto [] acc = omega arith
length-reverse_onto (d ∷ ds) acc = omega (arith, length-reverse_onto ds (d ∷ acc))

abbrev pub all_digits : List ℕ → Bool
all_digits [] = true
all_digits (c ∷ cs) = (leb b'0' c && leb c b'9') && all_digits cs

pub digits_from-digits : (fuel num : ℕ) → all_digits (digits_from fuel num) ≡ true
unfolding digits_from
digits_from-digits zero num = refl
digits_from-digits (suc fuel) num = ground (arith, digits_from-digits fuel (num / 10))

pub reverse_onto-digits :
    (ds acc : List ℕ)
    → all_digits ds ≡ true
    → all_digits acc ≡ true
    → all_digits (reverse_onto ds acc) ≡ true
reverse_onto-digits [] acc h h' = h'
reverse_onto-digits (d ∷ ds) acc h h' =
    reverse_onto-digits ds (d ∷ acc) (ground arith) (ground arith)

-- The text of a 64-bit number has 1 to 20 characters, all of them digits, and reads as the number.
pub number_text_lem :
    (num : ℕ)
    → num < 2 ^ 64
    → (value_of 0 (number_text num) ≡ num)
      × (all_digits (number_text num) ≡ true)
      × (length (number_text num) ≤ 20)
      × (1 ≤ length (number_text num))
unfolding number_text
number_text_lem num h = elim (Bool-cases (num == 0)) [
  | inl e ↦ unfold value_of in rw e (ground arith, refl, omega arith, omega arith)
  | inr e ↦ rw e (
    value_of-digits 20 num (omega arith),
    reverse_onto-digits (digits_from 20 num) [] (digits_from-digits 20 num) refl,
    omega (arith, length-reverse_onto (digits_from 20 num) [], length-digits_from 20 num),
    omega (arith, length-reverse_onto (digits_from 20 num) [], some_digit 19 num (ground arith)),
  )
]

no_digits : (fuel : ℕ) → digits_from fuel 0 ≡ []
unfolding digits_from
no_digits zero = refl
no_digits (suc fuel) = refl

digits_same : (f g num : ℕ) → num < 10 ^ f → num < 10 ^ g → digits_from f num ≡ digits_from g num
unfolding digits_from
digits_same zero g num p q = let z : num ≡ 0 = omega arith in rw (z, no_digits g) refl
digits_same (suc f) zero num p q = let z : num ≡ 0 = omega arith in rw z refl
digits_same (suc f) (suc g) num p q =
    rw (digits_same f g (num / 10) (omega arith) (omega arith)) refl

-- The digit loop of `gfx_draw_number_64` is over after 20 rounds for every 64-bit number: with any
-- more rounds it finds the same digits.
pub digits_from_ends :
    (fuel num : ℕ) → num < 2 ^ 64 → 20 ≤ fuel → digits_from fuel num ≡ digits_from 20 num
digits_from_ends fuel num h h' =
    let p : 10 ^ 20 ≤ 10 ^ fuel = pow-le-pow_right (omega arith) h' in
    digits_same fuel 20 num (omega arith) (omega arith)
