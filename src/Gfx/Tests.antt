-- ===== src/Gfx/Tests.antt =====
-- Runs of the drawing functions, and the theorems on concrete surfaces.
use meu_so_baremetal.Gfx.Init.{
  static_state, gfx_init, gfx_init_lem, bga_set_video_mode, IsFilled, color_dark_slate,
  find_framebuffer, boot_framebuffer, pci_framebuffer,
}
use meu_so_baremetal.Memory.{Heap, mk_header, memory_init, allocate, kmalloc, find, settle}
use meu_so_baremetal.Prelude.{
  ◌⊎◌, ◌&&◌, ℕ, ◌*◌, ◌/◌, ◌≤◌, ◌<◌, ◌≡◌, inl, true, false, [], arith, refl, if◌then◌else◌, none,
  some, length,
}
use meu_so_baremetal.Prelude.Int.{pos, negsuc, ◌<ℤ◌, ◌≤ℤ◌}
use meu_so_baremetal.Prelude.Text.{codes}
use meu_so_baremetal.Gfx.{
  Gfx, gfx_draw_rect, gfx_blit, gfx_put_pixel, gfx_get_pixel, gfx_swap_buffers, gfx_is_dirty,
}
use meu_so_baremetal.Gfx.Rows.{OutsideOf}
use meu_so_baremetal.Gfx.Draw.{target_at, inside, gfx_draw_rect_lem}
use meu_so_baremetal.Gfx.Blit.{gfx_blit_lem}
use meu_so_baremetal.Gfx.Valid.{IsValid}
use meu_so_baremetal.Gfx.Swap.{Shows}
use meu_so_baremetal.Gfx.Session.{
  Draws, start, then_call, rect, number, perform, swap_after_session,
}
use meu_so_baremetal.Gfx.Pixels.{eq_ℤ, gfx_put_pixel_lem}
use meu_so_baremetal.Gfx.Digits.{value_of, all_digits, number_text_lem}
use meu_so_baremetal.Gfx.Text.{number_text, digits_from}

-- A screen of 4 by 4 pixels at 100, its back buffer at 200, and nothing dirty.
abbrev small : Gfx
small = record {
  framebuffer = 100;
  active_buffer = 200;
  active_width = 4;
  active_height = 4;
  back_buffer = 200;
  width = 4;
  height = 4;
  total_pixels_64 = 16;
  dirty_min_x = 4;
  dirty_min_y = 4;
  dirty_max_x = 0;
  dirty_max_y = 0;
  dirty_active = false;
  words = λ a. 7;
}

small-IsValid : IsValid small
small-IsValid = record {
  screen = omega arith;
  back = omega arith;
  total = refl;
  quads = refl;
  apart = omega arith;
  target = inl (refl, refl, refl);
  max_x = omega arith;
  max_y = omega arith;
  idle = λ e. refl;
  synced = λ c r hc hr d. refl;
}

number_runs : number_text 1024 ≡ codes "1024"
unfolding number_text digits_from
number_runs = refl

abbrev drawn : Gfx
drawn = perform (number 42 (negsuc 2) (pos 0) 5) (perform (rect (pos 1) (negsuc 0) 9 3 8) small)

session : Draws small drawn
session =
    then_call (number 42 (negsuc 2) (pos 0) 5) (then_call (rect (pos 1) (negsuc 0) 9 3 8) start _) _

swap_after_session_example :
    Shows drawn (gfx_swap_buffers drawn).words × (gfx_is_dirty (gfx_swap_buffers drawn) ≡ false)
swap_after_session_example = swap_after_session small drawn small-IsValid session

gfx_draw_rect_lem_example :
    ((c r : ℕ)
      → c < 4
      → r < 4
      → (gfx_draw_rect (negsuc 1) (pos 1) (pos 3) (pos 2) 9 small).words (target_at small c r)
        ≡ (if inside (negsuc 1) (pos 1) 3 2 c r then 9 else 7))
    × ((a : ℕ)
        → OutsideOf 200 (4 * 4) a
        → (gfx_draw_rect (negsuc 1) (pos 1) (pos 3) (pos 2) 9 small).words a ≡ 7)
gfx_draw_rect_lem_example = gfx_draw_rect_lem (negsuc 1) (pos 1) 3 2 9 small (omega arith)

gfx_blit_lem_example :
    ((c r : ℕ)
      → c < 4
      → r < 4
      → (gfx_blit 300 (negsuc 0) (pos 2) 3 2 small).words (target_at small c r)
        ≡ (if inside (negsuc 0) (pos 2) 3 2 c r then 7 else 7))
    × ((a : ℕ) → OutsideOf 200 (4 * 4) a → (gfx_blit 300 (negsuc 0) (pos 2) 3 2 small).words a ≡ 7)
gfx_blit_lem_example =
    gfx_blit_lem 300 (negsuc 0) (pos 2) 3 2 small (omega arith) (omega arith) (omega arith)

gfx_put_pixel_lem_example :
    ((c r : ℕ)
      → c < 4
      → r < 4
      → gfx_get_pixel (pos c) (pos r) (gfx_put_pixel (pos 2) (pos 1) 9 small) ≡ (
          if eq_ℤ (pos 2) (pos c) && eq_ℤ (pos 1) (pos r)
          then 9
          else small.words (target_at small c r)))
    × ((a : ℕ)
        → OutsideOf 200 (4 * 4) a
        → (gfx_put_pixel (pos 2) (pos 1) 9 small).words a ≡ small.words a)
    × ((pos 2 <ℤ pos 0) ⊎ (pos 4 ≤ℤ pos 2) ⊎ (pos 1 <ℤ pos 0) ⊎ (pos 4 ≤ℤ pos 1)
        → gfx_put_pixel (pos 2) (pos 1) 9 small ≡ small)
gfx_put_pixel_lem_example = gfx_put_pixel_lem (pos 2) (pos 1) 9 small

number_text_lem_example :
    (value_of 0 (number_text 1024) ≡ 1024)
    × (all_digits (number_text 1024) ≡ true)
    × (length (number_text 1024) ≤ 20)
    × (1 ≤ length (number_text 1024))
number_text_lem_example = number_text_lem 1024 (omega arith)

abbrev blank : Heap
blank = record {
  header = λ a. mk_header 0 false 0 0;
  footer = λ a. 0;
  bytes = λ a. 0;
  heap_first = 0;
  total_allocated = 0;
  total_free = 0;
  block_count = 0;
}

abbrev after_allocation : Heap
after_allocation = allocate 4096 3145728 (memory_init 4090 blank)

back_buffer_runs : kmalloc (1024 * 768 * 4) (memory_init 4090 blank) ≡ some (4144, after_allocation)
unfolding kmalloc find settle memory_init
back_buffer_runs = refl

gfx_init_lem_example :
    (g : Gfx) × (gfx_init none
        (λ slot offset. 0)
        (memory_init 4090 blank)
        []
        (static_state (λ a. 0))
      ≡ some (g, after_allocation, bga_set_video_mode 1024 768 32 []))
    × IsValid g
    × IsFilled color_dark_slate (find_framebuffer none (λ slot offset. 0) / 4) g.words
unfolding find_framebuffer boot_framebuffer pci_framebuffer
gfx_init_lem_example =
    gfx_init_lem none (λ slot offset. 0) (memory_init 4090 blank) after_allocation [] (λ a. 0) 4144
      back_buffer_runs (omega arith) (omega arith) (omega arith)
