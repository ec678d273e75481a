-- ===== src/Gfx/Draw.antt =====
-- What the drawing operations of src/gfx.c do to the pixels of their target.
use meu_so_baremetal.Prelude.{
  ℕ, ◌+◌, ◌-◌, ◌*◌, ◌≤◌, ◌<◌, ◌≡◌, ◌≢◌, inl, inr, ◌∙◌, Bool, true, false, ◌&&◌, if◌then◌else◌,
  arith, refl, Bool-cases,
}
use meu_so_baremetal.Prelude.Int.{ℤ, pos, negsuc, pos_part, neg_part, ◌+ℤ◌, ltb_ℤ, leb_ℤ}
use meu_so_baremetal.Klibc.{within}
use meu_so_baremetal.Gfx.{
  Gfx, Words, gfx_mark_dirty, widen, gfx_draw_rect, clip_end, misses, fill_lines, bytes_of_width,
}
use meu_so_baremetal.Gfx.Rows.{OutsideOf, fill_lines_lem, fill_lines_outside}

pub gfx_mark_dirty-words : (x y w h : ℤ) (g : Gfx) → (gfx_mark_dirty x y w h g).words ≡ g.words
unfolding gfx_mark_dirty widen
gfx_mark_dirty-words x y w h g = ground arith

-- The word of the pixel in column `c` of row `r` of the target.
abbrev pub target_at : Gfx → ℕ → ℕ → ℕ
target_at g c r = g.active_buffer + (r * g.active_width + c)

-- The column or row `c` is one of the `n` from `x` on.
abbrev pub spans : ℤ → ℕ → ℕ → Bool
spans x n c = leb_ℤ x (pos c) && ltb_ℤ (pos c) (x +ℤ pos n)

abbrev pub inside : ℤ → ℤ → ℕ → ℕ → ℕ → ℕ → Bool
inside x y w h c r = spans y h r && spans x w c

abbrev pub clipped : ℤ → ℕ → ℕ → ℕ
clipped x n limit = clip_end (x +ℤ pos n) limit - pos_part x

-- The visible part of a span, when there is one.
pub spans-clipped :
    (x : ℤ) (n limit c : ℕ)
    → leb_ℤ (pos limit) x ≡ false
    → leb_ℤ (x +ℤ pos n) (pos 0) ≡ false
    → c < limit
    → within (pos_part x) (clipped x n limit) c ≡ spans x n c
spans-clipped (pos x) n limit c h h' hc = ground arith
spans-clipped (negsuc x) n limit c h h' hc = ground arith

pub clipped_fits :
    (x : ℤ) (n limit : ℕ)
    → leb_ℤ (pos limit) x ≡ false
    → leb_ℤ (x +ℤ pos n) (pos 0) ≡ false
    → (pos_part x + clipped x n limit ≤ limit)
      × (pos_part x + clipped x n limit ≡ clip_end (x +ℤ pos n) limit)
      × (neg_part x + clipped x n limit ≤ n)
clipped_fits (pos x) n limit h h' = ground arith
clipped_fits (negsuc x) n limit h h' = ground arith

-- What a rectangle that does not miss the target comes to.
abbrev pub Hits : ℤ → ℕ → ℕ → Type 0
Hits x n limit = (leb_ℤ (pos limit) x ≡ false) × (leb_ℤ (x +ℤ pos n) (pos 0) ≡ false)

pub hits :
    (x y : ℤ) (w h : ℕ) (g : Gfx)
    → misses x y (pos w) (pos h) g ≡ false
    → Hits x w g.active_width × Hits y h g.active_height
hits x y w h g m = ground arith

-- A rectangle that misses the target covers no pixel of it.
pub misses-inside :
    (x y : ℤ) (w h c r : ℕ) (g : Gfx)
    → misses x y (pos w) (pos h) g ≡ true
    → c < g.active_width
    → r < g.active_height
    → inside x y w h c r ≡ false
misses-inside (pos x) (pos y) w h c r g m hc hr = ground arith
misses-inside (pos x) (negsuc y) w h c r g m hc hr = ground arith
misses-inside (negsuc x) (pos y) w h c r g m hc hr = ground arith
misses-inside (negsuc x) (negsuc y) w h c r g m hc hr = ground arith

pub line_bytes :
    (x : ℤ) (n limit : ℕ)
    → Hits x n limit
    → bytes_of_width (pos_part x) (clip_end (x +ℤ pos n) limit) ≡ clipped x n limit * 4
line_bytes (pos x) n limit h = ground arith
line_bytes (negsuc x) n limit h = ground arith

abbrev pub rect_words : ℤ → ℤ → ℕ → ℕ → ℕ → Gfx → Words
rect_words x y w h color g =
    fill_lines (g.active_buffer + pos_part x) g.active_width color (clipped x w g.active_width * 4)
      (pos_part y) (clipped y h g.active_height) g.words

pub gfx_draw_rect-words :
    (x y : ℤ) (w h color : ℕ) (g : Gfx)
    → misses x y (pos w) (pos h) g ≡ false
    → (gfx_draw_rect x y (pos w) (pos h) color g).words ≡ rect_words x y w h color g
unfolding gfx_draw_rect
gfx_draw_rect-words x y w h color g m =
    let (hx, hy) = hits x y w h g m in
    rw (m, gfx_mark_dirty-words, line_bytes x w g.active_width hx) refl

-- With a width and a height that are not negative, and a target that is not NULL, `gfx_draw_rect`
-- gives the colour to exactly the pixels of the target that lie in the rectangle, wherever it lies,
-- and changes no word outside of the target.
pub gfx_draw_rect_lem :
    (x y : ℤ) (w h color : ℕ) (g : Gfx)
    → g.active_buffer ≢ 0
    → ((c r : ℕ)
        → c < g.active_width
        → r < g.active_height
        → (gfx_draw_rect x y (pos w) (pos h) color g).words (target_at g c r)
          ≡ (if inside x y w h c r then color else g.words (target_at g c r)))
      × ((a : ℕ)
          → OutsideOf g.active_buffer (g.active_height * g.active_width) a
          → (gfx_draw_rect x y (pos w) (pos h) color g).words a ≡ g.words a)
gfx_draw_rect_lem x y w h color g set = elim (Bool-cases (misses x y (pos w) (pos h) g)) [
  | inl m ↦ (
    λ c r hc hr. rw (misses-inside x y w h c r g m hc hr) (unfold gfx_draw_rect in rw m refl),
    λ a out. unfold gfx_draw_rect in rw m refl,
  )
  | inr m ↦
      let (hx, hy) = hits x y w h g m in
      let fx = clipped_fits x w g.active_width hx.0 hx.1 in
      let fy = clipped_fits y h g.active_height hy.0 hy.1 in
      (
        λ c r hc hr. rw (gfx_draw_rect-words x y w h color g m) (
            fill_lines_lem g.active_buffer g.active_width color (pos_part x)
              (clipped x w g.active_width) set fx.0 (pos_part y) (clipped y h g.active_height) r c
              g.words hc
            ∙ rw
                (
                  spans-clipped x w g.active_width c hx.0 hx.1 hc,
                  spans-clipped y h g.active_height r hy.0 hy.1 hr,
                )
                refl),
        λ a out. rw (gfx_draw_rect-words x y w h color g m) (
            fill_lines_outside g.active_buffer g.active_width color (pos_part x)
              (clipped x w g.active_width) set fx.0 (pos_part y) (clipped y h g.active_height)
              g.active_height a g.words fy.0 out),
      )
]
