-- ===== src/Ui/Sums.antt =====
-- Typing a whole sum on the calculator, and the length of its display under any buttons.
use meu_so_baremetal.Gfx.Text.{digits_from}
use meu_so_baremetal.Prelude.{
  ℕ, ◌+◌, ◌*◌, ◌/◌, if◌then◌else◌, ◌≤◌, ◌≡◌, Bool, true, false, ◌&&◌, ◌||◌, List, [], ◌∷◌, ◌==◌,
  length, length-append, arith, get_or,
}
use meu_so_baremetal.Prelude.Int.{ℤ, pos, pos_part, sub_ℕ}
use meu_so_baremetal.Gfx.Digits.{all_digits, length-reverse_onto, length-digits_from}
use meu_so_baremetal.Ui.Calculator.{
  Calc, magnitude, wrap64, parse_calc_display, print_result, press_digit, press_clear, press_equals,
  press_operator, press, compute,
}

unfoldable pub press_all : List ℕ → Calc → Calc
press_all [] s = s
press_all (b ∷ bs) s = press_all bs (press b s)

-- A number as it is typed: at most 15 digits, and no leading zero.
pub record IsTyped (cs : List ℕ) : Type 0 where
  pub digits : all_digits cs ≡ true
  pub short : length cs ≤ 15
  pub some : 1 ≤ length cs
  pub no_zero : (get_or cs 0 0 == b'0') ≡ false

abbrev pub showing : List ℕ → Bool → Calc → Calc
showing cs clear s = record s { calc_display = cs; calc_clear_next = clear }

-- A display that the next digit replaces.
abbrev pub is_fresh : Calc → Bool
is_fresh s =
    s.calc_clear_next || ((get_or s.calc_display 0 0 == b'0') && (length s.calc_display == 1))

abbrev pub is_operator : ℕ → Bool
is_operator b = (b == b'+') || (b == b'-') || (b == b'*') || (b == b'/')

-- The result of the sum of two numbers as it is written: `x + y`, `x - y`, `x * y`, and `x / y`
-- rounded down, or 0 for a division by 0.
abbrev pub answer : ℕ → ℕ → ℕ → ℤ
answer op x y =
    if op == b'+'
    then pos (x + y)
    else if op == b'-'
    then sub_ℕ x y
    else if op == b'*'
    then pos (x * y)
    else if y == 0
    then pos 0
    else pos (x / y)

abbrev pub IsShort : Calc → Type 0
IsShort s = length s.calc_display ≤ 21

print_short : (r : ℤ) → length (print_result r) ≤ 21
unfolding print_result
print_short r =
    let n = pos_part (wrap64 (pos (magnitude r))) in
    ground (arith, length-reverse_onto (digits_from 20 n) [], length-digits_from 20 n)

press-IsShort : (b : ℕ) (s : Calc) → IsShort s → IsShort (press b s)
unfolding press press_digit press_clear press_equals press_operator
press-IsShort b s h = ground (
  arith,
  length-append s.calc_display (b ∷ []),
  print_short (compute s.calc_op s.calc_val1 (parse_calc_display s.calc_display)),
)

-- Any buttons in any order leave at most 21 characters on the display, which has room for 31.
pub press_all-IsShort : (bs : List ℕ) (s : Calc) → IsShort s → IsShort (press_all bs s)
unfolding press_all
press_all-IsShort [] s h = h
press_all-IsShort (b ∷ bs) s h = press_all-IsShort bs (press b s) (press-IsShort b s h)
