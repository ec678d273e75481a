-- ===== src/Images/Frames.antt =====
-- `bgif_draw_frame` and `bgif_reset_delta_cache` of src/bgif.c.
use meu_so_baremetal.Prelude.{ℕ, ◌+◌, ◌*◌, ◌/◌, ◌%◌, ◌^◌, Bool, ◌||◌, not, ltb, ◌==◌, if◌then◌else◌}
use meu_so_baremetal.Prelude.Int.{ℤ, pos, negsuc, leb_ℤ, pos_part, neg_part}
use meu_so_baremetal.Klibc.{ByteMem}
use meu_so_baremetal.Gfx.{Gfx}
use meu_so_baremetal.Images.Animation.{
  Header, header_size, read_header, is_bgif, rem_ℤ, frame_offset, frame_color, Sweep, sweep_lines,
  mark_changes, nothing_drawn, clipped,
}

pub record Player : Type 0 where
  pub last_drawn_frame : ℤ
  pub gfx : Gfx

abbrev pub bgif_reset_delta_cache : Player → Player
bgif_reset_delta_cache p = record p { last_drawn_frame = negsuc 0 }

-- `last_drawn_frame == -1 || current_frame == 0`.
abbrev pub force_full_redraw : ℤ → ℤ → Bool
force_full_redraw last_drawn_frame current_frame =
    ((neg_part last_drawn_frame == 1)) || (pos_part current_frame + neg_part current_frame == 0)

-- The loops over the part of the frame on the screen.
unfoldable pub sweep_frame :
    ByteMem
    → (bgif_data : ℕ) → Header
    → ℤ
    → ℤ
    → ℤ
    → (max_w max_h draw_w draw_h : ℕ) → Player
    → Sweep
sweep_frame m bgif_data header current_frame dest_x dest_y max_w max_h draw_w draw_h p =
    let step_x = header.width * 2 ^ 16 / max_w in
    let step_y = header.height * 2 ^ 16 / max_h in
    let frame_pixels = bgif_data + frame_offset current_frame header in
    sweep_lines (frame_color m frame_pixels header)
      (force_full_redraw p.last_drawn_frame current_frame) p.gfx.width p.gfx.height dest_x dest_y
      draw_w step_x step_y 0 0 draw_h (nothing_drawn dest_x dest_y draw_w draw_h p.gfx)

-- What is drawn when every test is passed.
unfoldable pub draw_frame :
    ByteMem → (bgif_data : ℕ) → Header → ℤ → ℤ → ℤ → (max_w max_h : ℕ) → Player → Player
draw_frame m bgif_data header current_frame dest_x dest_y max_w max_h p =
    let draw_w = clipped dest_x max_w p.gfx.width in
    let draw_h = clipped dest_y max_h p.gfx.height in
    let s =
      sweep_frame m bgif_data header current_frame dest_x dest_y max_w max_h draw_w draw_h p in
    if (draw_w == 0) || (draw_h == 0)
    then p
    else record { last_drawn_frame = current_frame; gfx = mark_changes s }

-- The tests that return 0.
abbrev pub is_refused : ByteMem → (bgif_data file_size : ℕ) → ℤ → Header → (max_w max_h : ℕ) → Bool
is_refused m bgif_data file_size current_frame header max_w max_h =
    (bgif_data == 0)
    || ltb file_size header_size
    || not (is_bgif m bgif_data)
    || (header.frame_count == 0)
    || ltb file_size ((frame_offset current_frame header + header.frame_size) % 2 ^ 32)
    || (max_w == 0)
    || (max_h == 0)
    || (header.width == 0)
    || (header.height == 0)

abbrev pub is_past : Gfx → ℤ → ℤ → Bool
is_past g dest_x dest_y = leb_ℤ (pos g.width) dest_x || leb_ℤ (pos g.height) dest_y

-- The result is the number of frames, 0 for a file that is refused.
unfoldable pub bgif_draw_frame :
    ByteMem → (bgif_data file_size : ℕ) → ℤ → ℤ → ℤ → (max_w max_h : ℕ) → Player → ℕ × Player
bgif_draw_frame m bgif_data file_size frame_idx dest_x dest_y max_w max_h p =
    let header = read_header m bgif_data in
    let current_frame = rem_ℤ frame_idx header.frame_count in
    if is_refused m bgif_data file_size current_frame header max_w max_h
    then (0, p)
    else if is_past p.gfx dest_x dest_y
    then (header.frame_count, p)
    else (
      header.frame_count,
      draw_frame m bgif_data header current_frame dest_x dest_y max_w max_h p,
    )
