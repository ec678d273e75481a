-- ===== src/Gfx/Lines.antt =====
-- Lines of pixels: which words the fills and copies of src/gfx.c write.
use meu_so_baremetal.Prelude.{
  ℕ, ◌+◌, ◌-◌, ◌*◌, ◌/◌, ◌%◌, ◌≤◌, ◌<◌, ◌≡◌, ◌≢◌, ◌∙◌, ◌&&◌, ◌==◌, if◌then◌else◌, arith,
}
use meu_so_baremetal.Klibc.{within}
use meu_so_baremetal.Klibc.Chunks.{fill_chunks_lem, move_chunks_lem, Apart}
use meu_so_baremetal.Gfx.{Words, fill_line, copy_line, kmemset128_color, kmemcpy128_words}

pub kmemset128_color_lem :
    (dest color k : ℕ) (m : Words) (x : ℕ)
    → dest ≢ 0
    → kmemset128_color dest color k m x ≡ (if within dest (4 * k) x then color else m x)
kmemset128_color_lem dest color k m x h = ground (arith, fill_chunks_lem 4 k dest color m x)

pub kmemcpy128_words_lem :
    (dest src k : ℕ) (m : Words) (x : ℕ)
    → dest ≢ 0
    → src ≢ 0
    → Apart dest src (4 * k)
    → kmemcpy128_words dest src k m x
      ≡ (if within dest (4 * k) x then m (src + (x - dest)) else m x)
kmemcpy128_words_lem dest src k m x h h' a = ground (arith, move_chunks_lem 4 k dest src m x a)

pub fill_line_lem :
    (dest color n : ℕ) (m : Words) (x : ℕ)
    → dest ≢ 0
    → fill_line dest color (n * 4) m x ≡ (if within dest n x then color else m x)
unfolding fill_line
fill_line_lem dest color n m x h =
    fill_chunks_lem 1 (n * 4 % 16 / 4) (dest + n * 4 / 16 * 4) color _ x
    ∙ ground (arith, kmemset128_color_lem dest color (n * 4 / 16) m x h)

pub copy_line_lem :
    (dest src n : ℕ) (m : Words) (x : ℕ)
    → dest ≢ 0
    → src ≢ 0
    → Apart dest src n
    → copy_line dest src (n * 4) m x ≡ (if within dest n x then m (src + (x - dest)) else m x)
unfolding copy_line
copy_line_lem dest src n m x h h' a =
    move_chunks_lem 1 (n * 4 % 16 / 4) (dest + n * 4 / 16 * 4) (src + n * 4 / 16 * 4) _ x
      (omega arith)
    ∙ ground (
      arith,
      kmemcpy128_words_lem dest src (n * 4 / 16) m x h h' (omega arith),
      kmemcpy128_words_lem dest src (n * 4 / 16) m
          (src + n * 4 / 16 * 4 + (x - (dest + n * 4 / 16 * 4))) h h' (omega arith),
    )

pub rows_le : (w p q : ℕ) → p < q → p * w + w ≤ q * w
rows_le w p q h = grind arith

-- A word of line `q` is in the part of line `p` exactly if the lines and the columns fit.
pub within_row :
    (base w p q s n c : ℕ)
    → c < w
    → s + n ≤ w
    → within (base + s + p * w) n (base + (q * w + c)) ≡ ((p == q) && within s n c)
within_row base w p q s n c hc hs = ground (arith, rows_le w p q, rows_le w q p)
