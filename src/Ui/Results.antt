-- ===== src/Ui/Results.antt =====
-- The display of the calculator: a result reads back as itself, and the text stays short.
use meu_so_baremetal.Prelude.{
  ℕ, zero, suc, ◌+◌, ◌^◌, ◌≤◌, ◌<◌, ◌≡◌, true, false, List, [], ◌∷◌, ◌==◌, length, arith, refl,
  if◌then◌else◌,
}
use meu_so_baremetal.Prelude.Int.{ℤ, pos, negsuc, sub_ℕ}
use meu_so_baremetal.Gfx.Text.{digits_from, reverse_onto}
use meu_so_baremetal.Gfx.Digits.{
  value_of, value_of-digits, all_digits, length-digits_from, length-reverse_onto,
  digits_from-digits, reverse_onto-digits, some_digit,
}
use meu_so_baremetal.Ui.Calculator.{
  magnitude, is_negative, wrap64, parse_calc_display, print_result,
}

-- The values of a `long long` but the least one.
abbrev pub Printable : ℤ → Type 0
Printable r = magnitude r < 2 ^ 63

pub wrap64_same : (r : ℤ) → Printable r → wrap64 r ≡ r
unfolding wrap64
wrap64_same (pos n) h = ground arith
wrap64_same (negsuc n) h = ground arith

digits_of : ℕ → List ℕ
digits_of n = reverse_onto (digits_from 20 n) []

-- A text of digits that is not empty reads as its value.
pub parse_digits :
    (cs : List ℕ)
    → all_digits cs ≡ true
    → 1 ≤ length cs
    → parse_calc_display cs ≡ wrap64 (pos (value_of 0 cs))
unfolding parse_calc_display
parse_digits [] h l = absurd (omega arith)
parse_digits (c ∷ cs) h l = let e : (c == b'-') ≡ false = ground arith in rw e refl

digits_of_lem :
    (n : ℕ)
    → 0 < n
    → n < 2 ^ 63
    → (value_of 0 (digits_of n) ≡ n)
      × (all_digits (digits_of n) ≡ true)
      × (1 ≤ length (digits_of n))
      × (length (digits_of n) ≤ 20)
unfolding digits_of
digits_of_lem n h h' = (
  value_of-digits 20 n (omega arith),
  reverse_onto-digits (digits_from 20 n) [] (digits_from-digits 20 n) refl,
  omega (arith, length-reverse_onto (digits_from 20 n) [], some_digit 19 n h),
  omega (arith, length-reverse_onto (digits_from 20 n) [], length-digits_from 20 n),
)

print_pos : (n : ℕ) → 0 < n → n < 2 ^ 63 → print_result (pos n) ≡ digits_of n
unfolding print_result digits_of
print_pos n h h' =
    let z : (n + 0 == 0) ≡ false = ground arith in
    let e : n + 0 ≡ n = omega arith in rw (z, e, wrap64_same (pos n) (omega arith)) refl

print_neg : (n : ℕ) → suc n < 2 ^ 63 → print_result (negsuc n) ≡ b'-' ∷ digits_of (suc n)
unfolding print_result digits_of
print_neg n h =
    let e : 0 + suc n ≡ suc n = omega arith in
    let z : (suc n == 0) ≡ false = ground arith in
    let g : is_negative (negsuc n) ≡ true = ground arith in
    rw (e, z, g, wrap64_same (pos (suc n)) (omega arith)) refl

-- What `=` prints reads back as the same value, for every `long long` but the least one.
pub parse_calc_display-print_result :
    (r : ℤ) → Printable r → parse_calc_display (print_result r) ≡ r
parse_calc_display-print_result (pos zero) h =
    unfold print_result parse_calc_display wrap64 value_of in refl
parse_calc_display-print_result (pos (suc n)) h =
    let (v, d, l, _) = digits_of_lem (suc n) (omega arith) (omega arith) in
    rw (print_pos (suc n) (omega arith) (omega arith), parse_digits (digits_of (suc n)) d l, v)
      (wrap64_same (pos (suc n)) h)
parse_calc_display-print_result (negsuc n) h =
    let (v, d, l, _) = digits_of_lem (suc n) (omega arith) (omega arith) in
    let m : sub_ℕ 0 (suc n) ≡ negsuc n = ground arith in
    rw (print_neg n (omega arith))
      (unfold parse_calc_display in rw (v, m) (wrap64_same (negsuc n) h))

-- The integer that a text stands for: an optional minus sign, and digits.
abbrev pub text_value : List ℕ → ℤ
text_value [] = pos 0
text_value (c ∷ cs) = if c == b'-' then sub_ℕ 0 (value_of 0 cs) else pos (value_of 0 (c ∷ cs))

text_digits : (cs : List ℕ) → all_digits cs ≡ true → text_value cs ≡ pos (value_of 0 cs)
text_digits [] h = unfold value_of in refl
text_digits (c ∷ cs) h = let e : (c == b'-') ≡ false = ground arith in rw e refl

-- What `=` prints is the text of the result, for every `long long` but the least one.
pub text_value-print_result : (r : ℤ) → Printable r → text_value (print_result r) ≡ r
text_value-print_result (pos zero) h = unfold print_result value_of in refl
text_value-print_result (pos (suc n)) h =
    let (v, d, l, _) = digits_of_lem (suc n) (omega arith) (omega arith) in
    rw (print_pos (suc n) (omega arith) (omega arith), text_digits (digits_of (suc n)) d, v) refl
text_value-print_result (negsuc n) h =
    let (v, d, l, _) = digits_of_lem (suc n) (omega arith) (omega arith) in
    let m : sub_ℕ 0 (suc n) ≡ negsuc n = ground arith in rw (print_neg n (omega arith), v, m) refl
