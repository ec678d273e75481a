-- ===== src/Ui/Calculator.antt =====
-- The calculator of src/ui.c. `long long` values are integers that wrap at 2^64.
use meu_so_baremetal.Prelude.{
  ℕ, ◌+◌, ◌-◌, ◌*◌, ◌/◌, ◌%◌, ◌^◌, Bool, true, false, ◌&&◌, ◌||◌, not, List, [], ◌∷◌, ltb, leb,
  ◌==◌, if◌then◌else◌, length, get_or, ◌++◌,
}
use meu_so_baremetal.Prelude.Int.{ℤ, pos, negsuc, pos_part, neg_part, sub_ℕ, ◌+ℤ◌, ◌-ℤ◌}
use meu_so_baremetal.Gfx.Text.{digits_from, reverse_onto}
use meu_so_baremetal.Gfx.Digits.{value_of}

abbrev pub magnitude : ℤ → ℕ
magnitude a = pos_part a + neg_part a

abbrev pub is_negative : ℤ → Bool
is_negative a = ltb 0 (neg_part a)

abbrev pub with_sign : Bool → ℕ → ℤ
with_sign neg n = if neg then sub_ℕ 0 n else pos n

abbrev pub xor : Bool → Bool → Bool
xor true b = not b
xor false b = b

-- The product, and the quotient towards 0.
abbrev pub ◌*ℤ◌ : ℤ → ℤ → ℤ
a *ℤ b = with_sign (xor (is_negative a) (is_negative b)) (magnitude a * magnitude b)

abbrev pub quot_ℤ : ℤ → ℤ → ℤ
quot_ℤ a b = with_sign (xor (is_negative a) (is_negative b)) (magnitude a / magnitude b)

-- The value of 64 bits: the pattern, read with its sign.
abbrev pub pattern64 : ℤ → ℕ
pattern64 (pos n) = n % 2 ^ 64
pattern64 (negsuc n) = 2 ^ 64 - 1 - n % 2 ^ 64

abbrev pub signed64 : ℕ → ℤ
signed64 p = if ltb p (2 ^ 63) then pos p else negsuc (2 ^ 64 - 1 - p)

unfoldable pub wrap64 : ℤ → ℤ
wrap64 a = signed64 (pattern64 a)

infixl 70 ◌*ℤ◌
pub record Calc : Type 0 where
  pub calc_display : List ℕ
  pub calc_val1 : ℤ
  pub calc_op : ℕ
  pub calc_clear_next : Bool

unfoldable pub parse_calc_display : List ℕ → ℤ
parse_calc_display [] = pos 0
parse_calc_display (c ∷ cs) =
    if c == b'-' then wrap64 (sub_ℕ 0 (value_of 0 cs)) else wrap64 (pos (value_of 0 (c ∷ cs)))

-- The text that `=` puts on the display. The magnitude is taken in 64 bits: that of -2^63 is no
-- positive number, and the loop then finds no digit.
unfoldable pub print_result : ℤ → List ℕ
print_result res =
    let temp = wrap64 (pos (magnitude res)) in
    let digits = reverse_onto (digits_from 20 (pos_part temp)) [] in
    if magnitude res == 0 then b'0' ∷ [] else if is_negative res then b'-' ∷ digits else digits

unfoldable pub press_digit : ℕ → Calc → Calc
press_digit b s =
    if s.calc_clear_next || ((get_or s.calc_display 0 0 == b'0') && (length s.calc_display == 1))
    then record s { calc_display = b ∷ []; calc_clear_next = false }
    else if ltb (length s.calc_display) 15
    then record s { calc_display = s.calc_display ++ (b ∷ []) }
    else s

unfoldable pub press_clear : Calc → Calc
press_clear s = record {
  calc_display = b'0' ∷ [];
  calc_val1 = pos 0;
  calc_op = 0;
  calc_clear_next = false;
}

unfoldable pub compute : ℕ → ℤ → ℤ → ℤ
compute op val1 val2 =
    if op == 1
    then wrap64 (val1 +ℤ val2)
    else if op == 2
    then wrap64 (val1 -ℤ val2)
    else if op == 3
    then wrap64 (val1 *ℤ val2)
    else if (op == 4) && not (magnitude val2 == 0)
    then wrap64 (quot_ℤ val1 val2)
    else val2

unfoldable pub press_equals : Calc → Calc
press_equals s = record s {
  calc_display = print_result (compute s.calc_op s.calc_val1 (parse_calc_display s.calc_display));
  calc_op = 0;
  calc_clear_next = true;
}

unfoldable pub op_code : ℕ → ℕ → ℕ
op_code b old =
    if b == b'+'
    then 1
    else if b == b'-'
    then 2
    else if b == b'*'
    then 3
    else if b == b'/'
    then 4
    else old

unfoldable pub press_operator : ℕ → Calc → Calc
press_operator b s = record s {
  calc_val1 = parse_calc_display s.calc_display;
  calc_op = op_code b s.calc_op;
  calc_clear_next = true;
}

-- The effect of a button by its label.
unfoldable pub press : ℕ → Calc → Calc
press b s =
    if leb b'0' b && leb b b'9'
    then press_digit b s
    else if b == b'C'
    then press_clear s
    else if b == b'='
    then press_equals s
    else press_operator b s

abbrev pub btns : List ℕ
btns =
    b'7' ∷ b'8' ∷ b'9' ∷ b'/' ∷ b'4' ∷ b'5' ∷ b'6' ∷ b'*' ∷ b'1' ∷ b'2' ∷ b'3' ∷ b'-' ∷ b'C' ∷ b'0'
    ∷ b'=' ∷ b'+' ∷ []

-- `(v - base) / step`, which a division towards 0 makes; 4 stands for a negative one.
abbrev pub cell : ℕ → ℕ → ℕ → ℕ
cell v base step = if leb base v then (v - base) / step else if ltb base (v + step) then 0 else 4

-- The click at (`mouse_x`, `mouse_y`) of the window at (`x`, `y`).
unfoldable pub click_calc : (mouse_x mouse_y x y : ℕ) → Calc → Calc
click_calc mouse_x mouse_y x y s =
    let col = cell mouse_x (x + 15) 43 in
    let row = cell mouse_y (y + 100) 35 in
    if ltb col 4 && ltb row 4 then press (get_or btns (row * 4 + col) 0) s else s
