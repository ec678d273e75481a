-- ===== src/Gfx/Text.antt =====
-- Characters, strings, numbers and the mouse cursor of src/gfx.c.
use meu_so_baremetal.Prelude.{
  ℕ, zero, suc, ◌+◌, ◌-◌, ◌/◌, ◌%◌, ◌^◌, ◌&&◌, ◌||◌, List, [], ◌∷◌, ltb, leb, ◌==◌, if◌then◌else◌,
}
use meu_so_baremetal.Prelude.Int.{ℤ, pos, ◌+ℤ◌}
use meu_so_baremetal.Prelude.Text.{codes}
use meu_so_baremetal.Gfx.{Gfx, gfx_put_pixel, gfx_put_pixel_alpha}
use meu_so_baremetal.Gfx.Glyphs.{font8x8_basic, glyph_in}

-- The columns of a row of a glyph from `cx` on, `n` of them: `row & (1 << (7 - cx))`.
unfoldable pub draw_row : ℕ → ℕ → ℕ → ℤ → ℤ → ℕ → Gfx → Gfx
draw_row row cx zero x y color g = g
draw_row row cx (suc n) x y color g =
    draw_row row (cx + 1) n x y color
      (if row / 2 ^ (7 - cx) % 2 == 1 then gfx_put_pixel (x +ℤ pos cx) y color g else g)

unfoldable pub draw_glyph : List ℕ → ℤ → ℤ → ℕ → Gfx → Gfx
draw_glyph [] x y color g = g
draw_glyph (row ∷ rows) x y color g =
    draw_glyph rows x (y +ℤ pos 1) color (if row == 0 then g else draw_row row 0 8 x y color g)

-- Small letters are drawn as capitals.
abbrev pub upper : ℕ → ℕ
upper c = if leb b'a' c && leb c b'z' then c - 32 else c

unfoldable pub gfx_draw_char : ℕ → ℤ → ℤ → ℕ → Gfx → Gfx
gfx_draw_char c x y color g = draw_glyph (glyph_in font8x8_basic (upper c)) x y color g

-- A string ends at its first zero byte.
unfoldable pub gfx_draw_string : List ℕ → ℤ → ℤ → ℕ → Gfx → Gfx
gfx_draw_string [] x y color g = g
gfx_draw_string (c ∷ cs) x y color g =
    let drawn = gfx_draw_string cs (x +ℤ pos 8) y color (gfx_draw_char c x y color g) in
    if c == 0 then g else drawn

-- The digits of a number in the order in which the loop finds them, for `fuel` rounds at most.
unfoldable pub digits_from : ℕ → ℕ → List ℕ
digits_from zero num = []
digits_from (suc fuel) num =
    let rest = digits_from fuel (num / 10) in if ltb 0 num then (b'0' + num % 10) ∷ rest else []

-- The swaps of the second loop reverse the buffer.
abbrev pub reverse_onto : List ℕ → List ℕ → List ℕ
reverse_onto [] acc = acc
reverse_onto (c ∷ cs) acc = reverse_onto cs (c ∷ acc)

-- What `gfx_draw_number_64` has in `buf` before it draws it. A `uint64_t` has at most 20 digits.
unfoldable pub number_text : ℕ → List ℕ
number_text num = if num == 0 then b'0' ∷ [] else reverse_onto (digits_from 20 num) []

unfoldable pub gfx_draw_number_64 : ℕ → ℤ → ℤ → ℕ → Gfx → Gfx
gfx_draw_number_64 num x y color g = gfx_draw_string (number_text num) x y color g

abbrev pub cursor_sprite : List (List ℕ)
cursor_sprite =
    codes "*           "
    ∷ codes "**          "
    ∷ codes "*.*         "
    ∷ codes "*..*        "
    ∷ codes "*...*       "
    ∷ codes "*....*      "
    ∷ codes "*.....*     "
    ∷ codes "*......*    "
    ∷ codes "*.......*   "
    ∷ codes "*.....****  "
    ∷ codes "*..**..*    "
    ∷ codes "*.*  *..*   "
    ∷ codes "**    *..*  "
    ∷ codes "*      *..* "
    ∷ codes "        **  "
    ∷ codes "            "
    ∷ []

unfoldable pub shadow_row : List ℕ → ℤ → ℤ → Gfx → Gfx
shadow_row [] x y g = g
shadow_row (pixel ∷ rest) x y g =
    shadow_row rest (x +ℤ pos 1) y
      (if (pixel == b'*') || (pixel == b'.') then gfx_put_pixel_alpha x y 0 90 g else g)

unfoldable pub sprite_row : List ℕ → ℤ → ℤ → Gfx → Gfx
sprite_row [] x y g = g
sprite_row (pixel ∷ rest) x y g = sprite_row rest (x +ℤ pos 1) y (
    if pixel == b'*'
    then gfx_put_pixel x y 0xFFFFFF g
    else if pixel == b'.'
    then gfx_put_pixel x y 0x181825 g
    else g)

unfoldable pub sprite_rows : (List ℕ → ℤ → ℤ → Gfx → Gfx) → List (List ℕ) → ℤ → ℤ → Gfx → Gfx
sprite_rows draw [] x y g = g
sprite_rows draw (row ∷ rows) x y g = sprite_rows draw rows x (y +ℤ pos 1) (draw row x y g)

unfoldable pub gfx_draw_cursor : ℤ → ℤ → Gfx → Gfx
gfx_draw_cursor x y g =
    sprite_rows sprite_row cursor_sprite x y
      (sprite_rows shadow_row cursor_sprite (x +ℤ pos 3) (y +ℤ pos 3) g)
