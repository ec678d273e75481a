-- ===== src/Gfx/Operations.antt =====
-- Each drawing operation of src/gfx.c keeps the invariant of the drawing surface.
use meu_so_baremetal.Prelude.{
  ℕ, ◌+◌, ◌*◌, ◌/◌, ◌≤◌, ◌≡◌, ◌≢◌, ◌⊎◌, inl, inr, ◌∙◌, false, ◌&&◌, ◌||◌, ◌==◌, if◌then◌else◌,
  arith, refl, Bool-cases,
}
use meu_so_baremetal.Prelude.Int.{ℤ, pos, negsuc, pos_part, neg_part, sub_ℕ, ◌+ℤ◌}
use meu_so_baremetal.Klibc.{within}
use meu_so_baremetal.Gfx.{
  Gfx, Words, gfx_put_pixel, gfx_put_pixel_alpha, gfx_draw_rect, gfx_blit, gfx_clear, off_surface,
  misses, clip_end, store_word,
}
use meu_so_baremetal.Gfx.Lines.{kmemset128_color_lem, rows_le}
use meu_so_baremetal.Gfx.Rows.{
  rows_fit, fill_lines_lem, fill_lines_outside, copy_lines_lem, copy_lines_outside,
}
use meu_so_baremetal.Gfx.Draw.{inside, clipped, clipped_fits, Hits, hits, line_bytes, rect_words}
use meu_so_baremetal.Gfx.Blit.{blit_words}
use meu_so_baremetal.Gfx.Valid.{OnBack, OffBack, IsValid, target_fits}
use meu_so_baremetal.Gfx.Painting.{PaintsIn, painted_off, painted_marked}

pub off_back : (g : Gfx) → IsValid g → (g.active_buffer == g.back_buffer) ≡ false → OffBack g
off_back g v e = elim v.target [ inl on ↦ absurd (ground (arith, on.0)) | inr off ↦ off ]

-- The store of a pixel on the surface paints one cell.
store_word-PaintsIn :
    (x y : ℤ) (color a : ℕ) (g : Gfx)
    → off_surface x y g.active_width g.active_height ≡ false
    → a ≡ g.active_buffer + (pos_part y * g.active_width + pos_part x)
    → PaintsIn x y 1 1 (store_word a color g.words) g
store_word-PaintsIn (pos x) (pos y) color a g h e = record {
  elsewhere = λ c r hc hr d. ground (arith, rows_le g.active_width y r, rows_le g.active_width r y);
  outside = λ b out. ground (arith, rows_fit g.active_width y g.active_height (ground arith));
}
store_word-PaintsIn (pos x) (negsuc y) color a g h e = absurd (ground arith)
store_word-PaintsIn (negsuc x) (pos y) color a g h e = absurd (ground arith)
store_word-PaintsIn (negsuc x) (negsuc y) color a g h e = absurd (ground arith)

pub gfx_put_pixel-IsValid :
    (x y : ℤ) (color : ℕ) (g : Gfx) → IsValid g → IsValid (gfx_put_pixel x y color g)
unfolding gfx_put_pixel
gfx_put_pixel-IsValid x y color g v =
    elim (Bool-cases (off_surface x y g.active_width g.active_height)) [
      | inl e ↦ rw e v
      | inr e ↦
          let paints = store_word-PaintsIn x y color _ g e refl in
          elim (Bool-cases (g.active_buffer == g.back_buffer)) [
            | inl b ↦ rw (e, b) (painted_marked x y 1 1 _ g v paints)
            | inr b ↦ rw (e, b) (painted_off x y 1 1 _ g v paints (off_back g v b))
          ]
    ]

pub gfx_put_pixel_alpha-IsValid :
    (x y : ℤ) (color alpha : ℕ) (g : Gfx)
    → IsValid g
    → OnBack g
    → IsValid (gfx_put_pixel_alpha x y color alpha g)
unfolding gfx_put_pixel_alpha
gfx_put_pixel_alpha-IsValid x y color alpha g v (b, aw, ah) =
    elim (Bool-cases (off_surface x y g.width g.height)) [
      | inl e ↦ rw e v
      | inr e ↦ elim (Bool-cases (alpha == 0)) [
        | inl z ↦ rw (e, z) v
        | inr z ↦
            rw (e, z)
              (painted_marked x y 1 1 _ g v
                (store_word-PaintsIn x y _ _ g (rw (aw, ah) e) (rw (b, aw) refl)))
      ]
    ]

pub gfx_clear-IsValid : (color : ℕ) (g : Gfx) → IsValid g → OnBack g → IsValid (gfx_clear color g)
unfolding gfx_clear
gfx_clear-IsValid color g v (b, aw, ah) =
    painted_marked (pos 0) (pos 0) g.active_width g.active_height _ g v (record {
      elsewhere = λ c r hc hr e. absurd (ground arith);
      outside = λ a out. ground (
        arith,
        kmemset128_color_lem g.back_buffer color (g.total_pixels_64 * 4 / 16) g.words a v.back,
        v.total,
        v.quads,
        the_area,
        b,
      );
    })
  where
    the_area : g.active_height * g.active_width ≡ g.height * g.width
    the_area = rw (aw, ah) refl

rect_width :
    (x : ℤ) (n limit : ℕ)
    → Hits x n limit
    → sub_ℕ (clip_end (x +ℤ pos n) limit) (pos_part x) ≡ pos (clipped x n limit)
rect_width (pos x) n limit h = ground arith
rect_width (negsuc x) n limit h = ground arith

not_inside :
    (x y w h c r new old : ℕ)
    → inside (pos x) (pos y) w h c r ≡ false
    → (if within y h r && within x w c then new else old) ≡ old
not_inside x y w h c r new old e = ground arith

module _ (x y : ℤ) (w h : ℕ) (g : Gfx) (hx : Hits x w g.active_width)
    (hy : Hits y h g.active_height) where
  abbrev PaintsRect : Words → Type 0
  PaintsRect m =
      PaintsIn (pos (pos_part x)) (pos (pos_part y)) (clipped x w g.active_width)
        (clipped y h g.active_height) m g

  rect-PaintsIn : (color : ℕ) → g.active_buffer ≢ 0 → PaintsRect (rect_words x y w h color g)
  rect-PaintsIn color set =
      let fx = clipped_fits x w g.active_width hx.0 hx.1 in
      let fy = clipped_fits y h g.active_height hy.0 hy.1 in
      record {
        elsewhere = λ c r hc hr e.
            fill_lines_lem g.active_buffer g.active_width color (pos_part x)
              (clipped x w g.active_width) set fx.0 (pos_part y) (clipped y h g.active_height) r c
              g.words hc
            ∙ not_inside (pos_part x) (pos_part y) (clipped x w g.active_width)
                (clipped y h g.active_height) c r color _ e;
        outside = λ a out.
            fill_lines_outside g.active_buffer g.active_width color (pos_part x)
              (clipped x w g.active_width) set fx.0 (pos_part y) (clipped y h g.active_height)
              g.active_height a g.words fy.0 out;
      }

  blit-PaintsIn :
      (src : ℕ)
      → g.active_buffer ≢ 0
      → src ≢ 0
      → (src + h * w ≤ g.active_buffer) ⊎ (g.active_buffer + g.active_height * g.active_width ≤ src)
      → PaintsRect (blit_words src x y w h g)
  blit-PaintsIn src set from apart =
      let fx = clipped_fits x w g.active_width hx.0 hx.1 in
      let fy = clipped_fits y h g.active_height hy.0 hy.1 in
      record {
        elsewhere = λ c r hc hr e.
            copy_lines_lem g.active_buffer g.active_width (pos_part x) (clipped x w g.active_width)
              src w (neg_part x) set from fx.0 fx.2 g.active_height h apart (pos_part y)
              (neg_part y) (clipped y h g.active_height) r c g.words fy.0 fy.2 hc
            ∙ not_inside (pos_part x) (pos_part y) (clipped x w g.active_width)
                (clipped y h g.active_height) c r _ _ e;
        outside = λ a out.
            copy_lines_outside g.active_buffer g.active_width (pos_part x)
              (clipped x w g.active_width) src w (neg_part x) set from fx.0 fx.2 g.active_height h
              apart (pos_part y) (neg_part y) (clipped y h g.active_height) a g.words fy.0 fy.2 out;
      }

pub gfx_draw_rect-IsValid :
    (x y : ℤ) (w h color : ℕ) (g : Gfx)
    → IsValid g
    → IsValid (gfx_draw_rect x y (pos w) (pos h) color g)
unfolding gfx_draw_rect
gfx_draw_rect-IsValid x y w h color g v = elim (Bool-cases (misses x y (pos w) (pos h) g)) [
  | inl m ↦ rw m v
  | inr m ↦
      let (hx, hy) = hits x y w h g m in
      rw
        (
          m,
          line_bytes x w g.active_width hx,
          rect_width x w g.active_width hx,
          rect_width y h g.active_height hy,
        )
        (painted_marked (pos (pos_part x)) (pos (pos_part y)) (clipped x w g.active_width)
          (clipped y h g.active_height) (rect_words x y w h color g) g v
          (rect-PaintsIn x y w h g hx hy color (target_fits g v).0))
]

pub gfx_blit-IsValid :
    (src : ℕ) (x y : ℤ) (w h : ℕ) (g : Gfx)
    → IsValid g
    → (src + h * w ≤ g.active_buffer) ⊎ (g.active_buffer + g.active_height * g.active_width ≤ src)
    → IsValid (gfx_blit src x y w h g)
unfolding gfx_blit
gfx_blit-IsValid src x y w h g v apart =
    elim (Bool-cases ((src == 0) || misses x y (pos w) (pos h) g)) [
      | inl m ↦ rw m v
      | inr m ↦
          let from : src ≢ 0 = ground arith in
          let (hx, hy) = hits x y w h g (ground arith) in
          let paints = blit-PaintsIn x y w h g hx hy src (target_fits g v).0 from apart in
          elim (Bool-cases (g.active_buffer == g.back_buffer)) [
            | inl b ↦
                rw
                  (
                    m,
                    b,
                    line_bytes x w g.active_width hx,
                    rect_width x w g.active_width hx,
                    rect_width y h g.active_height hy,
                  )
                  (painted_marked _ _ _ _ _ g v paints)
            | inr b ↦
                rw (m, b, line_bytes x w g.active_width hx)
                  (painted_off _ _ _ _ _ g v paints (off_back g v b))
          ]
    ]
