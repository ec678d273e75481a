-- ===== src/Images.antt =====
-- src/bmp.c and src/bgif.c. Here: drawing a BMP picture, scaled and with a transparent colour.
-- A picture stands in a byte memory at an address, 0 for NULL. Products are natural numbers: they
-- are those of the source where these fit an `int`.
pub mod Export
pub mod Headers
pub mod Stored
pub mod Drawn
pub mod RoundTrip
pub mod Animation
pub mod Frames
pub mod Delta
pub mod Screen
pub mod Shown
mod Tests
use meu_so_baremetal.Prelude.{
  ℕ, zero, suc, ◌+◌, ◌-◌, ◌*◌, ◌/◌, ◌%◌, ◌^◌, Bool, true, false, ◌||◌, ◌&&◌, not, ltb, leb, ◌==◌,
  if◌then◌else◌,
}
use meu_so_baremetal.Prelude.Int.{ℤ, pos, ◌+ℤ◌}
use meu_so_baremetal.Klibc.{ByteMem}
use meu_so_baremetal.Gfx.{Gfx, gfx_put_pixel}

abbrev pub le16 : ByteMem → ℕ → ℕ
le16 m a = m a + m (a + 1) * 256

abbrev pub le32 : ByteMem → ℕ → ℕ
le32 m a = le16 m a + le16 m (a + 2) * 2 ^ 16

-- The fields of the two packed headers that are read; `off_bits` is at byte 10 of the file header of
-- 14 bytes.
pub record Bmp : Type 0 where
  pub type : ℕ
  pub off_bits : ℕ
  pub width : ℕ
  pub height : ℕ
  pub bpp : ℕ

unfoldable pub read_headers : ByteMem → ℕ → Bmp
read_headers m a = record {
  type = le16 m a;
  off_bits = le32 m (a + 10);
  width = le32 m (a + 18);
  height = le32 m (a + 22);
  bpp = le16 m (a + 28);
}

-- An `int32_t` below 0, and its absolute value.
abbrev pub is_minus : ℕ → Bool
is_minus v = leb (2 ^ 31) v

abbrev pub lines : Bmp → ℕ
lines b = if is_minus b.height then 2 ^ 32 - b.height else b.height

abbrev pub row_size : ℕ → ℕ → ℕ
row_size w bpp = (w * bpp + 31) / 32 * 4

-- The tests before the loops.
unfoldable pub is_drawable : Bmp → ℕ → ℕ → Bool
is_drawable b max_w max_h =
    (b.type == 0x4D42)
    && not (is_minus b.width || (b.width == 0) || (b.height == 0) || (max_w == 0) || (max_h == 0))
    && leb 3 (b.bpp / 8)

-- The colour that the loops read for (`px`, `py`) of the area.
unfoldable pub color_at : ByteMem → ℕ → Bmp → (max_w max_h px py : ℕ) → ℕ
color_at m a b max_w max_h px py =
    let src_y = py * lines b / max_h in
    let src_x = px * b.width / max_w in
    let real_y = if is_minus b.height then src_y else lines b - 1 - src_y in
    let pixel = a + b.off_bits + real_y * row_size b.width b.bpp + src_x * (b.bpp / 8) in
    m (pixel + 2) * 2 ^ 16 + m (pixel + 1) * 2 ^ 8 + m pixel

-- The loops over the columns and the lines of an area, for a colour at each place.
unfoldable pub draw_columns : (ℕ → ℕ → ℕ) → ℕ → ℤ → ℤ → ℕ → ℕ → ℕ → Gfx → Gfx
draw_columns color key x y py px zero g = g
draw_columns color key x y py px (suc n) g =
    draw_columns color key x y py (px + 1) n
      (if color px py == key then g else gfx_put_pixel (x +ℤ pos px) (y +ℤ pos py) (color px py) g)

unfoldable pub draw_lines : (ℕ → ℕ → ℕ) → ℕ → ℤ → ℤ → ℕ → ℕ → ℕ → Gfx → Gfx
draw_lines color key x y w py zero g = g
draw_lines color key x y w py (suc n) g =
    draw_lines color key x y w (py + 1) n (draw_columns color key x y py 0 w g)

-- The result tells whether something was drawn.
unfoldable pub bmp_draw_icon :
    ByteMem → ℕ → ℤ → ℤ → (max_w max_h transparent_key : ℕ) → Gfx → Bool × Gfx
bmp_draw_icon m data' x y max_w max_h key g =
    let b = read_headers m data' in
    if (data' == 0) || not (is_drawable b max_w max_h)
    then (false, g)
    else (true, draw_lines (color_at m data' b max_w max_h) key x y max_w 0 max_h g)

unfoldable pub bmp_draw : ByteMem → ℕ → ℤ → ℤ → (max_w max_h : ℕ) → Gfx → Bool × Gfx
bmp_draw m data' x y max_w max_h g = bmp_draw_icon m data' x y max_w max_h 0xFFFFFFFF g
