-- ===== src/Images/Headers.antt =====
-- The headers that `bmp_export` of src/bmp.c writes, as `bmp_draw_icon` reads them.
use meu_so_baremetal.Prelude.{ℕ, ◌+◌, ◌^◌, ◌≤◌, ◌<◌, ◌≡◌, ◌∙◌, arith}
use meu_so_baremetal.Klibc.{ByteMem}
use meu_so_baremetal.Images.{le16, le32}
use meu_so_baremetal.Images.Export.{store_le16, store_le32, file_size, write_headers}

-- Reading a field at an offset from another one that has been set.
le16-store_le16 : (a v : ℕ) (m : ByteMem) → v < 2 ^ 16 → le16 (store_le16 a v m) a ≡ v
le16-store_le16 a v m h = ground arith

le32-store_le32 : (a v : ℕ) (m : ByteMem) → v < 2 ^ 32 → le32 (store_le32 a v m) a ≡ v
le32-store_le32 a v m h = ground arith

le32-store_le16_outside :
    (a b v : ℕ) (m : ByteMem) → a + 4 ≤ b → le32 (store_le16 b v m) a ≡ le32 m a
le32-store_le16_outside a b v m h = ground arith

le32-store_le32_outside :
    (a b v : ℕ) (m : ByteMem) → a + 4 ≤ b → le32 (store_le32 b v m) a ≡ le32 m a
le32-store_le32_outside a b v m h = ground arith

-- A field below the last two: their stores leave it.
below_last_two :
    (a b w v : ℕ) (m : ByteMem)
    → b + 4 ≤ a + 26
    → le32 (store_le16 (a + 28) w (store_le16 (a + 26) v m)) b ≡ le32 m b
below_last_two a b w v m h =
    le32-store_le16_outside b (a + 28) w (store_le16 (a + 26) v m) (omega arith)
    ∙ le32-store_le16_outside b (a + 26) v m h

-- The memory after each store.
abbrev after_file_size : ℕ → ℕ → ℕ → ByteMem → ByteMem
after_file_size a w h m = store_le32 (a + 2) (file_size w h) (store_le16 a 0x4D42 m)

abbrev after_off_bits : ℕ → ℕ → ℕ → ByteMem → ByteMem
after_off_bits a w h m = store_le32 (a + 10) 54 (after_file_size a w h m)

abbrev after_size : ℕ → ℕ → ℕ → ByteMem → ByteMem
after_size a w h m = store_le32 (a + 14) 40 (after_off_bits a w h m)

abbrev after_width : ℕ → ℕ → ℕ → ByteMem → ByteMem
after_width a w h m = store_le32 (a + 18) w (after_size a w h m)

abbrev after_height : ℕ → ℕ → ℕ → ByteMem → ByteMem
after_height a w h m = store_le32 (a + 22) h (after_width a w h m)

module _ (a w h : ℕ) (m : ByteMem) where
  pub type_lem : le16 (write_headers a w h m) a ≡ 0x4D42
  unfolding write_headers
  type_lem = ground arith

  pub bpp_lem : le16 (write_headers a w h m) (a + 28) ≡ 24
  unfolding write_headers
  bpp_lem = ground arith

  pub height_lem : h < 2 ^ 32 → le32 (write_headers a w h m) (a + 22) ≡ h
  unfolding write_headers
  height_lem hh =
      below_last_two a (a + 22) 24 1 (after_height a w h m) (omega arith)
      ∙ le32-store_le32 (a + 22) h (after_width a w h m) hh

  pub width_lem : w < 2 ^ 32 → le32 (write_headers a w h m) (a + 18) ≡ w
  unfolding write_headers
  width_lem hw =
      below_last_two a (a + 18) 24 1 (after_height a w h m) (omega arith)
      ∙ le32-store_le32_outside (a + 18) (a + 22) h (after_width a w h m) (omega arith)
      ∙ le32-store_le32 (a + 18) w (after_size a w h m) hw

  pub off_bits_lem : le32 (write_headers a w h m) (a + 10) ≡ 54
  unfolding write_headers
  off_bits_lem =
      below_last_two a (a + 10) 24 1 (after_height a w h m) (omega arith)
      ∙ le32-store_le32_outside (a + 10) (a + 22) h (after_width a w h m) (omega arith)
      ∙ le32-store_le32_outside (a + 10) (a + 18) w (after_size a w h m) (omega arith)
      ∙ le32-store_le32_outside (a + 10) (a + 14) 40 (after_off_bits a w h m) (omega arith)
      ∙ le32-store_le32 (a + 10) 54 (after_file_size a w h m) (omega arith)
