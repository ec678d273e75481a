-- ===== src/Images/Drawn.antt =====
-- What the loops of `bmp_draw_icon` of src/bmp.c leave at each place.
use mathlib.Core.Path.{subst}
use meu_so_baremetal.Prelude.{
  ℕ, zero, suc, ◌+◌, ◌≤◌, ◌<◌, ◌≡◌, inl, inr, ◌∙◌, Bool, true, false, ◌&&◌, ◌==◌, if◌then◌else◌,
  arith, refl, ap, Bool-cases,
}
use meu_so_baremetal.Prelude.Int.{ℤ, pos, ◌+ℤ◌}
use meu_so_baremetal.Gfx.{Gfx, gfx_put_pixel, gfx_get_pixel, off_surface}
use meu_so_baremetal.Gfx.Pixels.{eq_ℤ}
use meu_so_baremetal.Images.{draw_columns, draw_lines}
use meu_so_baremetal.Images.Delta.{put_here, put_far, put_off, other_place}

-- The colour that is left where `c` has been drawn on `old`.
abbrev pub over : ℕ → ℕ → ℕ → ℕ
over key old c = if c == key then old else c

abbrev pub off_at : ℤ → ℤ → Gfx → Bool
off_at x y g = off_surface x y g.active_width g.active_height

module _ (key : ℕ) where
  abbrev dot : ℤ → ℤ → ℕ → Gfx → Gfx
  dot x y c g = if c == key then g else gfx_put_pixel x y c g

  dot_here :
      (x y : ℤ) (c : ℕ) (g : Gfx)
      → off_at x y g ≡ false
      → gfx_get_pixel x y (dot x y c g) ≡ over key (gfx_get_pixel x y g) c
  dot_here x y c g off = elim (Bool-cases (c == key)) [
    | inl e ↦ rw e refl
    | inr e ↦ rw e (put_here x y c g off)
  ]

  dot_far :
      (x y x' y' : ℤ) (c : ℕ) (g : Gfx)
      → eq_ℤ x x' && eq_ℤ y y' ≡ false
      → gfx_get_pixel x' y' (dot x y c g) ≡ gfx_get_pixel x' y' g
  dot_far x y x' y' c g far = elim (Bool-cases (c == key)) [
    | inl e ↦ rw e refl
    | inr e ↦ rw e (put_far x y x' y' c g far)
  ]

  dot_off : (x y x' y' : ℤ) (c : ℕ) (g : Gfx) → off_at x' y' (dot x y c g) ≡ off_at x' y' g
  dot_off x y x' y' c g = elim (Bool-cases (c == key)) [
    | inl e ↦ rw e refl
    | inr e ↦ rw e (put_off x y x' y' c g)
  ]

  module _ (color : ℕ → ℕ → ℕ) (x y : ℤ) where
    columns_far :
        (py px n : ℕ) (g : Gfx) (x' y' : ℤ)
        → ((i : ℕ) → px ≤ i → i < px + n → eq_ℤ (x +ℤ pos i) x' && eq_ℤ (y +ℤ pos py) y' ≡ false)
        → gfx_get_pixel x' y' (draw_columns color key x y py px n g) ≡ gfx_get_pixel x' y' g
    unfolding draw_columns
    columns_far py px zero g x' y' far = refl
    columns_far py px (suc n) g x' y' far =
        columns_far py (px + 1) n (dot (x +ℤ pos px) (y +ℤ pos py) (color px py) g) x' y'
          (λ i h h'. far i (omega arith) (omega arith))
        ∙ dot_far (x +ℤ pos px) (y +ℤ pos py) x' y' (color px py) g
            (far px (omega arith) (omega arith))

    columns_off :
        (py px n : ℕ) (g : Gfx) (x' y' : ℤ)
        → off_at x' y' (draw_columns color key x y py px n g) ≡ off_at x' y' g
    unfolding draw_columns
    columns_off py px zero g x' y' = refl
    columns_off py px (suc n) g x' y' =
        columns_off py (px + 1) n (dot (x +ℤ pos px) (y +ℤ pos py) (color px py) g) x' y'
        ∙ dot_off (x +ℤ pos px) (y +ℤ pos py) x' y' (color px py) g

    columns_here :
        (py px n : ℕ) (g : Gfx) (d i : ℕ)
        → d < n
        → i ≡ px + d
        → off_at (x +ℤ pos i) (y +ℤ pos py) g ≡ false
        → gfx_get_pixel (x +ℤ pos i) (y +ℤ pos py) (draw_columns color key x y py px n g)
          ≡ over key (gfx_get_pixel (x +ℤ pos i) (y +ℤ pos py) g) (color i py)
    unfolding draw_columns
    columns_here py px zero g d i h e off = absurd (omega arith)
    columns_here py px (suc n) g zero i h e off =
        columns_far py (px + 1) n (dot (x +ℤ pos px) (y +ℤ pos py) (color px py) g) (x +ℤ pos i)
          (y +ℤ pos py)
          (λ j hj hj'.
            ap (λ t. t && eq_ℤ (y +ℤ pos py) (y +ℤ pos py))
              (other_place x j i (λ (q : j ≡ i). absurd (omega arith))))
        ∙ subst
            (λ k.
              gfx_get_pixel (x +ℤ pos i) (y +ℤ pos py)
                (dot (x +ℤ pos k) (y +ℤ pos py) (color k py) g)
              ≡ over key (gfx_get_pixel (x +ℤ pos i) (y +ℤ pos py) g) (color i py))
            (omega arith) (dot_here (x +ℤ pos i) (y +ℤ pos py) (color i py) g off)
    columns_here py px (suc n) g (suc d) i h e off =
        columns_here py (px + 1) n (dot (x +ℤ pos px) (y +ℤ pos py) (color px py) g) d i
          (omega arith) (omega arith)
          (dot_off (x +ℤ pos px) (y +ℤ pos py) (x +ℤ pos i) (y +ℤ pos py) (color px py) g ∙ off)
        ∙ ap (λ old. over key old (color i py))
            (dot_far (x +ℤ pos px) (y +ℤ pos py) (x +ℤ pos i) (y +ℤ pos py) (color px py) g (
              ap (λ t. t && eq_ℤ (y +ℤ pos py) (y +ℤ pos py))
                (other_place x px i (λ (q : px ≡ i). absurd (omega arith)))))

    -- A place that the area does not have stays as it was.
    pub lines_far :
        (w py n : ℕ) (g : Gfx) (x' y' : ℤ)
        → ((i j : ℕ)
            → i < w
            → py ≤ j
            → j < py + n
            → eq_ℤ (x +ℤ pos i) x' && eq_ℤ (y +ℤ pos j) y' ≡ false)
        → gfx_get_pixel x' y' (draw_lines color key x y w py n g) ≡ gfx_get_pixel x' y' g
    unfolding draw_lines
    lines_far w py zero g x' y' far = refl
    lines_far w py (suc n) g x' y' far =
        lines_far w (py + 1) n (draw_columns color key x y py 0 w g) x' y'
          (λ i j hi hj hj'. far i j hi (omega arith) (omega arith))
        ∙ columns_far py 0 w g x' y' (λ i h h'. far i py (omega arith) (omega arith) (omega arith))

    no_line : (b : Bool) → b && false ≡ false
    no_line true = refl
    no_line false = refl

    -- A place of the area gets its colour, if that is not the key.
    pub lines_here :
        (w py n : ℕ) (g : Gfx) (d i j : ℕ)
        → i < w
        → d < n
        → j ≡ py + d
        → off_at (x +ℤ pos i) (y +ℤ pos j) g ≡ false
        → gfx_get_pixel (x +ℤ pos i) (y +ℤ pos j) (draw_lines color key x y w py n g)
          ≡ over key (gfx_get_pixel (x +ℤ pos i) (y +ℤ pos j) g) (color i j)
    unfolding draw_lines
    lines_here w py zero g d i j hi h e off = absurd (omega arith)
    lines_here w py (suc n) g zero i j hi h e off =
        lines_far w (py + 1) n (draw_columns color key x y py 0 w g) (x +ℤ pos i) (y +ℤ pos j)
          (λ a b ha hb hb'.
            ap (λ t. eq_ℤ (x +ℤ pos a) (x +ℤ pos i) && t)
              (other_place y b j (λ (q : b ≡ j). absurd (omega arith)))
            ∙ no_line (eq_ℤ (x +ℤ pos a) (x +ℤ pos i)))
        ∙ subst
            (λ k.
              gfx_get_pixel (x +ℤ pos i) (y +ℤ pos j) (draw_columns color key x y k 0 w g)
              ≡ over key (gfx_get_pixel (x +ℤ pos i) (y +ℤ pos j) g) (color i j))
            (omega arith) (columns_here j 0 w g i i hi (omega arith) off)
    lines_here w py (suc n) g (suc d) i j hi h e off =
        lines_here w (py + 1) n (draw_columns color key x y py 0 w g) d i j hi (omega arith)
          (omega arith) (columns_off py 0 w g (x +ℤ pos i) (y +ℤ pos j) ∙ off)
        ∙ ap (λ old. over key old (color i j))
            (columns_far py 0 w g (x +ℤ pos i) (y +ℤ pos j) (λ a ha ha'.
              ap (λ t. eq_ℤ (x +ℤ pos a) (x +ℤ pos i) && t)
                (other_place y py j (λ (q : py ≡ j). absurd (omega arith)))
              ∙ no_line (eq_ℤ (x +ℤ pos a) (x +ℤ pos i))))
