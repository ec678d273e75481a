-- ===== src/Images/Animation.antt =====
-- src/bgif.c: one frame of an animation, scaled; only pixels that have changed are drawn.
-- The file stands in a byte memory at an address, 0 for NULL. Sums of an `int` are integers: they
-- are those of the source where these fit.
use meu_so_baremetal.Prelude.{
  ℕ, zero, suc, ◌+◌, ◌-◌, ◌*◌, ◌/◌, ◌%◌, ◌^◌, Bool, ◌&&◌, not, ltb, leb, ◌==◌, if◌then◌else◌,
}
use meu_so_baremetal.Prelude.Int.{ℤ, pos, negsuc, ◌+ℤ◌, ◌-ℤ◌, ltb_ℤ, leb_ℤ, pos_part, sub_ℕ}
use meu_so_baremetal.Klibc.{ByteMem}
use meu_so_baremetal.Gfx.{Gfx, gfx_put_pixel, gfx_get_pixel, gfx_mark_dirty, channel}
use meu_so_baremetal.Images.{le16, le32}

abbrev pub delta_threshold : ℕ
delta_threshold = 12

-- `bgif_header_t` without the magic number and the speed.
pub record Header : Type 0 where
  pub width : ℕ
  pub height : ℕ
  pub frame_count : ℕ
  pub frame_size : ℕ

abbrev pub header_size : ℕ
header_size = 16

unfoldable pub read_header : ByteMem → ℕ → Header
read_header m a = record {
  width = le16 m (a + 4);
  height = le16 m (a + 6);
  frame_count = le16 m (a + 8);
  frame_size = le32 m (a + 12);
}

abbrev pub is_bgif : ByteMem → ℕ → Bool
is_bgif m a = (m a == 66) && (m (a + 1) == 71) && (m (a + 2) == 73) && (m (a + 3) == 70)

-- The remainder of an `int`, with the sign of the dividend.
abbrev pub rem_ℤ : ℤ → ℕ → ℤ
rem_ℤ (pos n) k = pos (n % k)
rem_ℤ (negsuc n) k = sub_ℕ 0 (suc n % k)

-- An `int` as a `uint32_t`.
abbrev pub to_u32 : ℤ → ℕ
to_u32 (pos n) = n % 2 ^ 32
to_u32 (negsuc n) = 2 ^ 32 - 1 - n % 2 ^ 32

unfoldable pub frame_offset : ℤ → Header → ℕ
frame_offset current_frame header =
    (header_size + to_u32 current_frame * header.frame_size % 2 ^ 32) % 2 ^ 32

-- The colour for the sums `curr_x` and `curr_y`, 16 bits of which are a fraction.
unfoldable pub frame_color : ByteMem → (frame_pixels : ℕ) → Header → (curr_x curr_y : ℕ) → ℕ
frame_color m frame_pixels header curr_x curr_y =
    let w = header.width in
    let src_y =
      if leb header.height (curr_y / 2 ^ 16) then header.height - 1 else curr_y / 2 ^ 16 in
    let src_x = if leb w (curr_x / 2 ^ 16) then w - 1 else curr_x / 2 ^ 16 in
    let pixel = frame_pixels + src_y * w * 3 % 2 ^ 32 + src_x * 3 in
    m (pixel + 2) * 2 ^ 16 + m (pixel + 1) * 2 ^ 8 + m pixel

-- What the loops change: the surface, the corners of what has been drawn, and a count.
pub record Sweep : Type 0 where
  pub gfx : Gfx
  pub dirty_x1 : ℤ
  pub dirty_y1 : ℤ
  pub dirty_x2 : ℤ
  pub dirty_y2 : ℤ
  pub pixels_changed : ℕ

abbrev pub gap : ℕ → ℕ → ℕ
gap a b = (a - b) + (b - a)

-- `dr + dg + db`.
abbrev pub delta : ℕ → ℕ → ℕ
delta new_color old_color =
    gap (channel new_color 16) (channel old_color 16)
    + gap (channel new_color 8) (channel old_color 8)
    + gap (channel new_color 0) (channel old_color 0)

abbrev pub put : ℤ → ℤ → ℕ → Sweep → Sweep
put x y color s = record s {
  gfx = gfx_put_pixel x y color s.gfx;
  pixels_changed = s.pixels_changed + 1;
  dirty_x1 = if ltb_ℤ x s.dirty_x1 then x else s.dirty_x1;
  dirty_x2 = if ltb_ℤ s.dirty_x2 x then x else s.dirty_x2;
  dirty_y1 = if ltb_ℤ y s.dirty_y1 then y else s.dirty_y1;
  dirty_y2 = if ltb_ℤ s.dirty_y2 y then y else s.dirty_y2;
}

-- `v >= 0 && v < limit`.
abbrev pub on_screen : ℤ → ℕ → Bool
on_screen v limit = leb_ℤ (pos 0) v && ltb_ℤ v (pos limit)

unfoldable pub visit : Bool → (screen_w : ℕ) → ℤ → ℤ → ℕ → Sweep → Sweep
visit force_full_redraw screen_w x y color s =
    if not (on_screen x screen_w)
    then s
    else if not force_full_redraw && leb (delta color (gfx_get_pixel x y s.gfx)) delta_threshold
    then s
    else put x y color s

-- The loop over a line, for a colour at each sum `curr_x`.
unfoldable pub sweep_line :
    (ℕ → ℕ) → Bool → (screen_w : ℕ) → ℤ → ℤ → (step_x px curr_x : ℕ) → ℕ → Sweep → Sweep
sweep_line color force_full_redraw screen_w dest_x y step_x px curr_x zero s = s
sweep_line color force_full_redraw screen_w dest_x y step_x px curr_x (suc n) s =
    sweep_line color force_full_redraw screen_w dest_x y step_x (px + 1)
      ((curr_x + step_x) % 2 ^ 32) n
      (visit force_full_redraw screen_w (dest_x +ℤ pos px) y (color curr_x) s)

-- The loop over the lines: the colour at two sums, the size of the screen, and the area.
unfoldable pub sweep_lines :
    (ℕ → ℕ → ℕ)
    → Bool
    → (screen_w screen_h : ℕ) → ℤ
    → ℤ
    → (draw_w step_x step_y py curr_y : ℕ) → ℕ
    → Sweep
    → Sweep
sweep_lines color full screen_w screen_h dest_x dest_y draw_w step_x step_y py curr_y zero s = s
sweep_lines color full screen_w screen_h dest_x dest_y draw_w step_x step_y py curr_y (suc n) s =
    let y = dest_y +ℤ pos py in
    sweep_lines color full screen_w screen_h dest_x dest_y draw_w step_x step_y (py + 1)
      ((curr_y + step_y) % 2 ^ 32) n
      (if on_screen y screen_h
        then sweep_line (λ curr_x. color curr_x curr_y) full screen_w dest_x y step_x 0 0 draw_w s
        else s)

unfoldable pub mark_changes : Sweep → Gfx
mark_changes s =
    if ltb 0 s.pixels_changed && leb_ℤ s.dirty_x1 s.dirty_x2 && leb_ℤ s.dirty_y1 s.dirty_y2
    then gfx_mark_dirty s.dirty_x1 s.dirty_y1 (s.dirty_x2 -ℤ s.dirty_x1 +ℤ pos 1)
        (s.dirty_y2 -ℤ s.dirty_y1 +ℤ pos 1) s.gfx
    else s.gfx

-- Where nothing has been drawn yet, the corners are the opposite ones.
abbrev pub nothing_drawn : ℤ → ℤ → (draw_w draw_h : ℕ) → Gfx → Sweep
nothing_drawn dest_x dest_y draw_w draw_h g = record {
  gfx = g;
  dirty_x1 = dest_x +ℤ pos draw_w;
  dirty_y1 = dest_y +ℤ pos draw_h;
  dirty_x2 = dest_x;
  dirty_y2 = dest_y;
  pixels_changed = 0;
}

-- The lower of `max` and what is left of the screen, for a start before the end of the screen.
abbrev pub clipped : ℤ → (max screen : ℕ) → ℕ
clipped dest max screen =
    if ltb_ℤ (pos screen) (dest +ℤ pos max) then pos_part (pos screen -ℤ dest) else max
