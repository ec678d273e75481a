-- ===== src/Gfx/Rows.antt =====
-- Several lines of pixels: what `fill_lines` and `copy_lines` leave at each column of each row of a
-- buffer, and outside of it. A buffer at `base` has `rows` rows of `w` pixels.
use meu_so_baremetal.Prelude.{
  ℕ, zero, suc, ◌+◌, ◌-◌, ◌*◌, ◌≤◌, ◌<◌, ◌≡◌, ◌≢◌, ◌⊎◌, ◌∙◌, true, ◌&&◌, ◌==◌, if◌then◌else◌, arith,
  refl, ap,
}
use meu_so_baremetal.Klibc.{within}
use meu_so_baremetal.Gfx.{Words, fill_line, copy_line, fill_lines, copy_lines}
use meu_so_baremetal.Gfx.Lines.{fill_line_lem, copy_line_lem, within_row, rows_le}

-- The address is not in the buffer of `n` words.
abbrev pub OutsideOf : ℕ → ℕ → ℕ → Type 0
OutsideOf base n x = (x < base) ⊎ (base + n ≤ x)

pub rows_fit : (w i rows : ℕ) → i < rows → i * w + w ≤ rows * w
rows_fit w i rows h = rows_le w i rows h

module _ (base w color s len : ℕ) (set : base ≢ 0) (fits : s + len ≤ w) where
  pub fill_lines_lem :
      (i n r c : ℕ) (m : Words)
      → c < w
      → fill_lines (base + s) w color (len * 4) i n m (base + (r * w + c))
        ≡ (if within i n r && within s len c then color else m (base + (r * w + c)))
  unfolding fill_lines
  fill_lines_lem i zero r c m hc = ground arith
  fill_lines_lem i (suc n) r c m hc =
      fill_lines_lem (i + 1) n r c (fill_line (base + s + i * w) color (len * 4) m) hc
      ∙ ground (
        arith,
        fill_line_lem (base + s + i * w) color len m (base + (r * w + c)) (omega arith),
        within_row base w i r s len c hc fits,
      )

  pub fill_lines_outside :
      (i n rows x : ℕ) (m : Words)
      → i + n ≤ rows
      → OutsideOf base (rows * w) x
      → fill_lines (base + s) w color (len * 4) i n m x ≡ m x
  unfolding fill_lines
  fill_lines_outside i zero rows x m h out = refl
  fill_lines_outside i (suc n) rows x m h out =
      fill_lines_outside (i + 1) n rows x (fill_line (base + s + i * w) color (len * 4) m)
        (omega arith) out
      ∙ ground (
        arith,
        fill_line_lem (base + s + i * w) color len m x (omega arith),
        rows_fit w i rows (omega arith),
      )

module _ (base w s len src sw o : ℕ) (set : base ≢ 0) (from : src ≢ 0) (fits : s + len ≤ w)
    (reads : o + len ≤ sw) (rows src_rows : ℕ)
    (apart : (src + src_rows * sw ≤ base) ⊎ (base + rows * w ≤ src)) where
  copy_line_at :
      (i k x : ℕ) (m : Words)
      → i < rows
      → k < src_rows
      → copy_line (base + s + i * w) (src + o + k * sw) (len * 4) m x ≡ (
          if within (base + s + i * w) len x
          then m (src + o + k * sw + (x - (base + s + i * w)))
          else m x)
  copy_line_at i k x m hi hk =
      copy_line_lem (base + s + i * w) (src + o + k * sw) len m x (omega arith) (omega arith)
        (omega (arith, rows_fit w i rows hi, rows_fit sw k src_rows hk, apart))

  pub copy_lines_outside :
      (i k n x : ℕ) (m : Words)
      → i + n ≤ rows
      → k + n ≤ src_rows
      → OutsideOf base (rows * w) x
      → copy_lines (base + s) w (src + o) sw (len * 4) i k n m x ≡ m x
  unfolding copy_lines
  copy_lines_outside i k zero x m h h' out = refl
  copy_lines_outside i k (suc n) x m h h' out =
      copy_lines_outside (i + 1) (k + 1) n x
        (copy_line (base + s + i * w) (src + o + k * sw) (len * 4) m) (omega arith) (omega arith)
        out
      ∙ ground
          (arith, copy_line_at i k x m (omega arith) (omega arith), rows_fit w i rows (omega arith))

  copy_line_outside :
      (i k x : ℕ) (m : Words)
      → i < rows
      → k < src_rows
      → OutsideOf base (rows * w) x
      → copy_line (base + s + i * w) (src + o + k * sw) (len * 4) m x ≡ m x
  copy_line_outside i k x m hi hk out =
      ground (arith, copy_line_at i k x m hi hk, rows_fit w i rows hi)

  abbrev source_of : ℕ → ℕ → ℕ → ℕ → ℕ
  source_of i k r c = src + ((k + (r - i)) * sw + (o + (c - s)))

  source_outside :
      (i k n r c : ℕ)
      → k + n ≤ src_rows
      → within i n r ≡ true
      → within s len c ≡ true
      → OutsideOf base (rows * w) (source_of i k r c)
  source_outside i k n r c h hr hc =
      ground (arith, apart, rows_fit sw (k + (r - i)) src_rows (ground arith))

  source_next : (i k r c : ℕ) → i < r → source_of (i + 1) (k + 1) r c ≡ source_of i k r c
  source_next i k r c h =
      ap (λ (t : ℕ). src + (t * sw + (o + (c - s)))) {x = k + 1 + (r - (i + 1))} (omega arith)

  copy_line_here :
      (i k r c : ℕ) (m : Words)
      → i < rows
      → k < src_rows
      → c < w
      → copy_line (base + s + i * w) (src + o + k * sw) (len * 4) m (base + (r * w + c))
        ≡ (if (i == r) && within s len c then m (source_of i k r c) else m (base + (r * w + c)))
  copy_line_here i k r c m hi hk hc = ground (
    arith,
    copy_line_at i k (base + (r * w + c)) m hi hk,
    within_row base w i r s len c hc fits,
    λ (e : i ≡ r). ap (λ (t : ℕ). t * w) e,
    λ (e : i ≡ r). ap (λ (t : ℕ). t * sw) {x = k + (r - i)} {y = k} (omega arith),
  )

  pub copy_lines_lem :
      (i k n r c : ℕ) (m : Words)
      → i + n ≤ rows
      → k + n ≤ src_rows
      → c < w
      → copy_lines (base + s) w (src + o) sw (len * 4) i k n m (base + (r * w + c))
        ≡ (if within i n r && within s len c then m (source_of i k r c) else m (base + (r * w + c)))
  unfolding copy_lines
  copy_lines_lem i k zero r c m h h' hc = ground arith
  copy_lines_lem i k (suc n) r c m h h' hc =
      copy_lines_lem (i + 1) (k + 1) n r c
        (copy_line (base + s + i * w) (src + o + k * sw) (len * 4) m) (omega arith) (omega arith) hc
      ∙ ground (
        arith,
        copy_line_here i k r c m (omega arith) (omega arith) hc,
        source_next i k r c,
        λ (p : within (i + 1) n r ≡ true) (q : within s len c ≡ true).
            copy_line_outside i k (source_of (i + 1) (k + 1) r c) m (omega arith) (omega arith)
              (source_outside (i + 1) (k + 1) n r c (omega arith) p q),
      )
