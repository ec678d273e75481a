-- ===== src/Images/RoundTrip.antt =====
-- A picture that `bmp_export` of src/bmp.c has written is drawn by `bmp_draw_icon` as it was.
use meu_so_baremetal.Prelude.{ℕ}
use meu_so_baremetal.Images.{Bmp}
use meu_so_baremetal.Gfx.{Gfx}

-- The headers of a written file.
abbrev pub exported_headers : ℕ → ℕ → Bmp
exported_headers w h = record { type = 0x4D42; off_bits = 54; width = w; height = h; bpp = 24 }
