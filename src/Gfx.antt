-- ===== src/Gfx.antt =====
-- src/gfx.c, the drawing surface: the dirty rectangle, single pixels, rectangles, block copies and
-- the copy to the screen, with `kmemset128_color` of src/memory.c.
--
-- The memory is seen in words of 32 bits, the pixels; a pointer to pixels is the number of its
-- word. The bounds of the dirty rectangle are numbers: they start so, `x` and `y` are cut off at 0
-- before they are kept, and a right or bottom end is kept only when it is above the old one.
pub mod Lines
pub mod Rows
pub mod Draw
pub mod Blit
pub mod Dirty
pub mod Valid
pub mod Painting
pub mod Operations
pub mod Pixels
pub mod Landscapes
pub mod Init
mod Tests
pub mod Digits
pub mod Alpha
pub mod Glyphs
pub mod Text
pub mod Session
pub mod Swap
use meu_so_baremetal.Prelude.{
  ℕ, zero, suc, ◌+◌, ◌-◌, ◌*◌, ◌/◌, ◌%◌, ◌^◌, Bool, true, false, ◌&&◌, ◌||◌, not, ltb, leb, ◌==◌,
  if◌then◌else◌,
}
use meu_so_baremetal.Prelude.Int.{
  ℤ, pos, negsuc, pos_part, neg_part, sub_ℕ, ◌+ℤ◌, ◌-ℤ◌, ltb_ℤ, leb_ℤ,
}
use meu_so_baremetal.Klibc.{ByteMem, fill_chunks, move_chunks}

abbrev pub Words : Type 0
Words = ℕ → ℕ

pub record Gfx : Type 0 where
  pub framebuffer : ℕ
  pub active_buffer : ℕ
  pub active_width : ℕ
  pub active_height : ℕ
  pub back_buffer : ℕ
  pub width : ℕ
  pub height : ℕ
  pub total_pixels_64 : ℕ
  pub dirty_min_x : ℕ
  pub dirty_min_y : ℕ
  pub dirty_max_x : ℕ
  pub dirty_max_y : ℕ
  pub dirty_active : Bool
  pub words : Words

-- `end > limit ? limit : end`, for an end that is not negative.
abbrev pub clip_end : ℤ → ℕ → ℕ
clip_end e limit = if ltb_ℤ (pos limit) e then limit else pos_part e

-- The lower bound of the dirty rectangle in one direction, and the upper one.
unfoldable pub low_end : ℤ → ℕ → ℕ
low_end x dirty_min = if ltb (pos_part x) dirty_min then pos_part x else dirty_min

unfoldable pub high_end : ℤ → ℕ → ℕ → ℕ
high_end x2 active dirty_max =
    let x2 = if ltb_ℤ (pos active) x2 then pos active else x2 in
    if ltb_ℤ (pos dirty_max) x2 then pos_part x2 else dirty_max

-- The part of `gfx_mark_dirty` after its guard, for the corners `x`, `y` and `x2`, `y2`.
unfoldable pub widen : ℤ → ℤ → ℤ → ℤ → Gfx → Gfx
widen x y x2 y2 g = record g {
  dirty_min_x = low_end x g.dirty_min_x;
  dirty_min_y = low_end y g.dirty_min_y;
  dirty_max_x = high_end x2 g.active_width g.dirty_max_x;
  dirty_max_y = high_end y2 g.active_height g.dirty_max_y;
  dirty_active = true;
}

unfoldable pub gfx_mark_dirty : ℤ → ℤ → ℤ → ℤ → Gfx → Gfx
gfx_mark_dirty x y w h g =
    if leb_ℤ w (pos 0) || leb_ℤ h (pos 0) then g else widen x y (x +ℤ w) (y +ℤ h) g

abbrev pub gfx_reset_dirty : Gfx → Gfx
gfx_reset_dirty g = record g {
  dirty_min_x = g.active_width;
  dirty_min_y = g.active_height;
  dirty_max_x = 0;
  dirty_max_y = 0;
  dirty_active = false;
}

abbrev pub gfx_is_dirty : Gfx → Bool
gfx_is_dirty g = g.dirty_active

-- `x < 0 || x >= w || y < 0 || y >= h`.
abbrev pub off_surface : ℤ → ℤ → ℕ → ℕ → Bool
off_surface x y w h = ltb_ℤ x (pos 0) || leb_ℤ (pos w) x || ltb_ℤ y (pos 0) || leb_ℤ (pos h) y

abbrev pub store_word : ℕ → ℕ → Words → Words
store_word a v m b = if b == a then v else m b

unfoldable pub gfx_put_pixel : ℤ → ℤ → ℕ → Gfx → Gfx
gfx_put_pixel x y color g =
    if off_surface x y g.active_width g.active_height
    then g
    else let a = g.active_buffer + (pos_part y * g.active_width + pos_part x) in
      let drawn = record g { words = store_word a color g.words } in
      if g.active_buffer == g.back_buffer then gfx_mark_dirty x y (pos 1) (pos 1) drawn else drawn

unfoldable pub gfx_get_pixel : ℤ → ℤ → Gfx → ℕ
gfx_get_pixel x y g =
    if off_surface x y g.active_width g.active_height
    then 0
    else g.words (g.active_buffer + (pos_part y * g.active_width + pos_part x))

-- `(color >> shift) & 0xFF`.
abbrev pub channel : ℕ → ℕ → ℕ
channel color shift = color / 2 ^ shift % 256

-- `(fg * alpha + bg * (255 - alpha)) / 255`, for one channel.
unfoldable pub blend : ℕ → ℕ → ℕ → ℕ
blend alpha fg bg = (fg * alpha + bg * (255 - alpha)) / 255

-- `(r << 16) | (g << 8) | b`, for channels below 256.
abbrev pub pack : ℕ → ℕ → ℕ → ℕ
pack r g b = r * 2 ^ 16 + g * 2 ^ 8 + b

unfoldable pub mix : ℕ → ℕ → ℕ → ℕ
mix alpha color bg =
    if alpha == 255
    then color
    else pack (blend alpha (channel color 16) (channel bg 16))
        (blend alpha (channel color 8) (channel bg 8))
        (blend alpha (channel color 0) (channel bg 0))

unfoldable pub gfx_put_pixel_alpha : ℤ → ℤ → ℕ → ℕ → Gfx → Gfx
gfx_put_pixel_alpha x y color alpha g =
    if off_surface x y g.width g.height
    then g
    else if alpha == 0
    then g
    else let a = g.back_buffer + (pos_part y * g.width + pos_part x) in
      gfx_mark_dirty x y (pos 1) (pos 1)
        (record g { words = store_word a (mix alpha color (g.words a)) g.words })

-- 16 bytes are four words.
abbrev pub kmemset128_color : ℕ → ℕ → ℕ → Words → Words
kmemset128_color dest color count m =
    if dest == 0 then m else if count == 0 then m else fill_chunks 4 count dest color m

-- `kmemcpy128`, in words.
abbrev pub kmemcpy128_words : ℕ → ℕ → ℕ → Words → Words
kmemcpy128_words dest src count m =
    if dest == 0
    then m
    else if src == 0
    then m
    else if count == 0
    then m
    else move_chunks 4 count dest src m

-- A line of pixels of `line_bytes` bytes: blocks of 16 bytes, then the rest word by word.
unfoldable pub fill_line : ℕ → ℕ → ℕ → Words → Words
fill_line dest color line_bytes m =
    let blocks_16 = line_bytes / 16 in
    fill_chunks 1 (line_bytes % 16 / 4) (dest + blocks_16 * 4) color
      (kmemset128_color dest color blocks_16 m)

-- The same for a copy, whose rest `fast_memcpy` takes.
unfoldable pub copy_line : ℕ → ℕ → ℕ → Words → Words
copy_line dest src line_bytes m =
    let blocks_16 = line_bytes / 16 in
    move_chunks 1 (line_bytes % 16 / 4) (dest + blocks_16 * 4) (src + blocks_16 * 4)
      (kmemcpy128_words dest src blocks_16 m)

unfoldable pub gfx_clear : ℕ → Gfx → Gfx
gfx_clear color g =
    gfx_mark_dirty (pos 0) (pos 0) (pos g.active_width) (pos g.active_height) (record g {
      words = kmemset128_color g.back_buffer color (g.total_pixels_64 * 4 / 16) g.words;
    })

-- `n` lines of a rectangle from line `i` on.
unfoldable pub fill_lines : ℕ → ℕ → ℕ → ℕ → ℕ → ℕ → Words → Words
fill_lines base stride color line_bytes i zero m = m
fill_lines base stride color line_bytes i (suc n) m =
    fill_lines base stride color line_bytes (i + 1) n
      (fill_line (base + i * stride) color line_bytes m)

-- Line `i` of the destination from line `k` of the source on.
unfoldable pub copy_lines : ℕ → ℕ → ℕ → ℕ → ℕ → ℕ → ℕ → ℕ → Words → Words
copy_lines dest stride src src_stride line_bytes i k zero m = m
copy_lines dest stride src src_stride line_bytes i k (suc n) m =
    copy_lines dest stride src src_stride line_bytes (i + 1) (k + 1) n
      (copy_line (dest + i * stride) (src + k * src_stride) line_bytes m)

-- `(size_t)((end - start) * 4)`: a negative width wraps.
abbrev pub bytes_of_width : ℕ → ℕ → ℕ
bytes_of_width start end' =
    if leb start end' then (end' - start) * 4 else 2 ^ 64 - (start - end') * 4

-- `x >= width || y >= height || x + w <= 0 || y + h <= 0`.
abbrev pub misses : ℤ → ℤ → ℤ → ℤ → Gfx → Bool
misses x y w h g =
    leb_ℤ (pos g.active_width) x
    || leb_ℤ (pos g.active_height) y
    || leb_ℤ (x +ℤ w) (pos 0)
    || leb_ℤ (y +ℤ h) (pos 0)

unfoldable pub gfx_draw_rect : ℤ → ℤ → ℤ → ℤ → ℕ → Gfx → Gfx
gfx_draw_rect x y w h color g =
    if misses x y w h g
    then g
    else let start_x = pos_part x in
      let start_y = pos_part y in
      let end_x = clip_end (x +ℤ w) g.active_width in
      let end_y = clip_end (y +ℤ h) g.active_height in
      gfx_mark_dirty (pos start_x) (pos start_y) (sub_ℕ end_x start_x) (sub_ℕ end_y start_y)
        (record g {
          words =
              fill_lines (g.active_buffer + start_x) g.active_width color
                (bytes_of_width start_x end_x) start_y (end_y - start_y) g.words;
        })

-- The loops of `gfx_draw_rect_alpha`, over the columns of a line and over the lines.
unfoldable pub alpha_row : ℤ → ℤ → ℕ → ℕ → ℕ → Gfx → Gfx
alpha_row j i color alpha zero g = g
alpha_row j i color alpha (suc n) g =
    alpha_row (j +ℤ pos 1) i color alpha n (gfx_put_pixel_alpha j i color alpha g)

unfoldable pub alpha_rows : ℤ → ℤ → ℕ → ℕ → ℕ → ℕ → Gfx → Gfx
alpha_rows x i w color alpha zero g = g
alpha_rows x i w color alpha (suc n) g =
    alpha_rows x (i +ℤ pos 1) w color alpha n (alpha_row x i color alpha w g)

-- A width or height that is not positive gives no round.
unfoldable pub gfx_draw_rect_alpha : ℤ → ℤ → ℤ → ℤ → ℕ → ℕ → Gfx → Gfx
gfx_draw_rect_alpha x y w h color alpha g = alpha_rows x y (pos_part w) color alpha (pos_part h) g

unfoldable pub gfx_set_target : ℕ → ℕ → ℕ → Gfx → Gfx
gfx_set_target target w h g =
    if target == 0
    then record g {
      active_buffer = g.back_buffer;
      active_width = g.width;
      active_height = g.height;
    }
    else record g { active_buffer = target; active_width = w; active_height = h }

-- The width and the height that the callers give are not negative.
unfoldable pub gfx_blit : ℕ → ℤ → ℤ → ℕ → ℕ → Gfx → Gfx
gfx_blit src dx dy w h g =
    if (src == 0) || misses dx dy (pos w) (pos h) g
    then g
    else let start_x = pos_part dx in
      let start_y = pos_part dy in
      let end_x = clip_end (dx +ℤ pos w) g.active_width in
      let end_y = clip_end (dy +ℤ pos h) g.active_height in
      let drawn = record g {
        words =
            copy_lines (g.active_buffer + start_x) g.active_width (src + neg_part dx) w
              (bytes_of_width start_x end_x) start_y (neg_part dy) (end_y - start_y) g.words;
      } in
      if g.active_buffer == g.back_buffer
      then gfx_mark_dirty (pos start_x) (pos start_y) (sub_ℕ end_x start_x) (sub_ℕ end_y start_y)
          drawn
      else drawn

abbrev pub after_swap : Gfx → Gfx
after_swap g =
    gfx_reset_dirty
      (record g { active_buffer = g.back_buffer; active_width = g.width; active_height = g.height })

-- The copy of `gfx_swap_buffers`, of a dirty rectangle that is not empty.
unfoldable pub show : Gfx → Words
show g =
    let bw = g.dirty_max_x - g.dirty_min_x in
    let bh = g.dirty_max_y - g.dirty_min_y in
    if (bw == g.active_width) && (bh == g.active_height)
    then kmemcpy128_words g.framebuffer g.back_buffer (g.total_pixels_64 * 4 / 16) g.words
    else copy_lines (g.framebuffer + g.dirty_min_x) g.width (g.back_buffer + g.dirty_min_x) g.width
        (bw * 4) g.dirty_min_y g.dirty_min_y bh g.words

unfoldable pub gfx_swap_buffers : Gfx → Gfx
gfx_swap_buffers g =
    if (g.framebuffer == 0) || (g.back_buffer == 0) || not g.dirty_active
    then g
    else if leb g.dirty_max_x g.dirty_min_x || leb g.dirty_max_y g.dirty_min_y
    then after_swap g
    else after_swap (record g { words = show g })
