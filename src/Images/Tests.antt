-- ===== src/Images/Tests.antt =====
-- Runs of the picture functions, and the theorem on a concrete canvas.
use meu_so_baremetal.Prelude.{get_or, ◌&&◌, ◌<◌, List, Bool, ltb, zero, suc, ◌∷◌}
use meu_so_baremetal.Images.Animation.{read_header, frame_offset}
use meu_so_baremetal.Images.Frames.{Player, bgif_draw_frame}
use meu_so_baremetal.Images.Shown.{ShowsBytes, bgif_draw_frame_shows}
use meu_so_baremetal.Prelude.{[], ◌∷◌, ◌-◌, ℕ, ◌+◌, ◌*◌, ◌≡◌, true, false, arith, refl}
use meu_so_baremetal.Prelude.Int.{pos}
use meu_so_baremetal.Klibc.{ByteMem}
use meu_so_baremetal.Gfx.{Gfx, gfx_put_pixel, gfx_mark_dirty, widen, gfx_get_pixel}
use meu_so_baremetal.Images.{
  draw_lines, bmp_draw_icon, is_drawable, read_headers, draw_columns, color_at,
}
use meu_so_baremetal.Images.Export.{bmp_bytes, file_size, export_rows, export_row, write_headers}

-- A canvas of 3 by 2 pixels, and memory that holds 7 everywhere.
abbrev canvas : ℕ → ℕ
canvas i = 0xFF102030 + i

abbrev sevens : ByteMem
sevens i = 7

-- A surface of 4 by 4 pixels at 100, its back buffer at 200.
abbrev screen : Gfx
screen = record {
  framebuffer = 100;
  active_buffer = 200;
  active_width = 4;
  active_height = 4;
  back_buffer = 200;
  width = 4;
  height = 4;
  total_pixels_64 = 16;
  dirty_min_x = 4;
  dirty_min_y = 4;
  dirty_max_x = 0;
  dirty_max_y = 0;
  dirty_active = false;
  words = λ i. 0;
}

-- Lines are padded to four bytes.
padded_file_size : file_size 3 2 ≡ 78
padded_file_size = refl

abbrev drawn : Gfx
drawn = (bmp_draw_icon (bmp_bytes canvas 3 2 1000 sevens) 1000 (pos 1) (pos 1) 3 2 0 screen).1

-- The first word of the second line, where the drawing put it.
drawn_pixel : drawn.words (200 + 2 * 4 + 1) ≡ 0x102033
unfolding bmp_draw_icon is_drawable read_headers bmp_bytes export_rows export_row write_headers
    draw_lines draw_columns color_at gfx_put_pixel gfx_mark_dirty widen
drawn_pixel = refl

-- A film of one frame of 2 by 1 pixels at 1000.
abbrev film_bytes : List ℕ
film_bytes =
    66 ∷ 71 ∷ 73 ∷ 70 ∷ 2 ∷ 0 ∷ 1 ∷ 0 ∷ 1 ∷ 0 ∷ 10 ∷ 0 ∷ 6 ∷ 0 ∷ 0 ∷ 0 ∷ 1 ∷ 2 ∷ 3 ∷ 200 ∷ 5 ∷ 6
    ∷ []

abbrev film : ByteMem
film a = get_or film_bytes (a - 1000) 0

abbrev all_bytes : List ℕ → Bool
all_bytes [] = true
all_bytes (b ∷ bs) = ltb b 256 && all_bytes bs

get_or_small : (bs : List ℕ) → all_bytes bs ≡ true → (i : ℕ) → get_or bs i 0 < 256
get_or_small [] e i = omega arith
get_or_small (b ∷ bs) e zero = ground (arith, e)
get_or_small (b ∷ bs) e (suc i) = get_or_small bs (ground (arith, e)) i

abbrev player : Player
player = record { last_drawn_frame = pos 3; gfx = screen }

-- The film is played at (1, 1), in an area of 2 by 2.
film_runs : (bgif_draw_frame film 1000 22 (pos 5) (pos 1) (pos 1) 2 2 player).0 ≡ 1
unfolding bgif_draw_frame read_header frame_offset
film_runs = refl

film_small : (x : ℕ) → film x < 256
film_small x = get_or_small film_bytes refl (x - 1000)

-- The right pixel of the film, 200, 5 and 6, at the lower right place of the area.
bgif_draw_frame_shows_example : ShowsBytes film 1019 (
    gfx_get_pixel
      (pos 2)
      (pos 2)
      (bgif_draw_frame film 1000 22 (pos 5) (pos 1) (pos 1) 2 2 player).1.gfx)
bgif_draw_frame_shows_example =
    bgif_draw_frame_shows film 1000 22 5 (pos 1) (pos 1) 2 2 player 1 1 2 2 film_small
      (λ q. absurd (let r = film_runs in omega arith)) (omega arith) (omega arith) (omega arith)
      (omega arith) refl refl (omega arith) (omega arith) (omega arith) (omega arith)
