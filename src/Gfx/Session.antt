-- ===== src/Gfx/Session.antt =====
-- Whole drawing sessions: any calls of the functions of src/gfx.c between two `gfx_swap_buffers`.
use meu_so_baremetal.Prelude.{
  ℕ, zero, suc, ◌+◌, ◌-◌, ◌*◌, ◌/◌, ◌%◌, ◌^◌, ◌≤◌, ◌≡◌, ◌⊎◌, inl, inr, false, List, [], ◌∷◌, ◌==◌,
  arith, refl, Bool-cases,
}
use meu_so_baremetal.Prelude.Int.{ℤ, pos, ◌+ℤ◌}
use meu_so_baremetal.Gfx.{
  Gfx, gfx_put_pixel, gfx_put_pixel_alpha, gfx_draw_rect, gfx_blit, gfx_clear, gfx_set_target,
  gfx_swap_buffers, gfx_mark_dirty, gfx_is_dirty,
}
use meu_so_baremetal.Gfx.Valid.{OnBack, OffBack, IsValid, gfx_mark_dirty-IsValid}
use meu_so_baremetal.Gfx.Operations.{
  gfx_put_pixel-IsValid, gfx_put_pixel_alpha-IsValid, gfx_draw_rect-IsValid, gfx_blit-IsValid,
  gfx_clear-IsValid,
}
use meu_so_baremetal.Gfx.Swap.{Shows, gfx_swap_buffers-Shows}
use meu_so_baremetal.Gfx.Text.{
  draw_row, draw_glyph, gfx_draw_char, gfx_draw_string, gfx_draw_number_64, number_text,
}

draw_row-IsValid :
    (row cx n : ℕ) (x y : ℤ) (color : ℕ) (g : Gfx)
    → IsValid g
    → IsValid (draw_row row cx n x y color g)
unfolding draw_row
draw_row-IsValid row cx zero x y color g v = v
draw_row-IsValid row cx (suc n) x y color g v =
    draw_row-IsValid row (cx + 1) n x y color _ (elim (Bool-cases (row / 2 ^ (7 - cx) % 2 == 1)) [
      | inl e ↦ rw e (gfx_put_pixel-IsValid (x +ℤ pos cx) y color g v)
      | inr e ↦ rw e v
    ])

draw_glyph-IsValid :
    (rows : List ℕ) (x y : ℤ) (color : ℕ) (g : Gfx)
    → IsValid g
    → IsValid (draw_glyph rows x y color g)
unfolding draw_glyph
draw_glyph-IsValid [] x y color g v = v
draw_glyph-IsValid (row ∷ rows) x y color g v =
    draw_glyph-IsValid rows x (y +ℤ pos 1) color _ (elim (Bool-cases (row == 0)) [
      | inl e ↦ rw e v
      | inr e ↦ rw e (draw_row-IsValid row 0 8 x y color g v)
    ])

gfx_draw_string-IsValid :
    (cs : List ℕ) (x y : ℤ) (color : ℕ) (g : Gfx)
    → IsValid g
    → IsValid (gfx_draw_string cs x y color g)
unfolding gfx_draw_string gfx_draw_char
gfx_draw_string-IsValid [] x y color g v = v
gfx_draw_string-IsValid (c ∷ cs) x y color g v = elim (Bool-cases (c == 0)) [
  | inl e ↦ rw e v
  | inr e ↦
      rw e (gfx_draw_string-IsValid cs (x +ℤ pos 8) y color _ (draw_glyph-IsValid _ x y color g v))
]

-- The calls of a session. `target` is a call of `gfx_set_target`, whose rest is the calls while
-- that target is set; the rest is for the back buffer.
pub data Call : Type 0 where
  mark : (x y w h : ℤ) → Call
  pixel : (x y : ℤ) (color : ℕ) → Call
  rect : (x y : ℤ) (w h color : ℕ) → Call
  blit : (src : ℕ) (x y : ℤ) (w h : ℕ) → Call
  text : (cs : List ℕ) (x y : ℤ) (color : ℕ) → Call
  number : (num : ℕ) (x y : ℤ) (color : ℕ) → Call
  alpha : (x y : ℤ) (color alpha : ℕ) → Call
  clear : (color : ℕ) → Call
  target : (buffer w h : ℕ) → Call
  swap : Call

unfoldable pub perform : Call → Gfx → Gfx
perform (mark x y w h) g = gfx_mark_dirty x y w h g
perform (pixel x y color) g = gfx_put_pixel x y color g
perform (rect x y w h color) g = gfx_draw_rect x y (pos w) (pos h) color g
perform (blit src x y w h) g = gfx_blit src x y w h g
perform (text cs x y color) g = gfx_draw_string cs x y color g
perform (number num x y color) g = gfx_draw_number_64 num x y color g
perform (alpha x y color a) g = gfx_put_pixel_alpha x y color a g
perform (clear color) g = gfx_clear color g
perform (target buffer w h) g = gfx_set_target buffer w h g
perform swap g = gfx_swap_buffers g

-- What a caller has to see to: a picture does not overlap the target, blending and clearing are
-- for the back buffer, and another target is no larger than the screen and apart from the rest.
abbrev pub Allowed : Call → Gfx → Type 0
Allowed (mark x y w h) g = Unit {0}
Allowed (pixel x y color) g = Unit {0}
Allowed (rect x y w h color) g = Unit {0}
Allowed (blit src x y w h) g =
    (src + h * w ≤ g.active_buffer) ⊎ (g.active_buffer + g.active_height * g.active_width ≤ src)
Allowed (text cs x y color) g = Unit {0}
Allowed (number num x y color) g = Unit {0}
Allowed (alpha x y color a) g = OnBack g
Allowed (clear color) g = OnBack g
Allowed (target buffer w h) g =
    (buffer ≡ 0)
    ⊎ OffBack (record g { active_buffer = buffer; active_width = w; active_height = h })
Allowed swap g = Unit {0}

set_target-IsValid :
    (buffer w h : ℕ) (g : Gfx)
    → IsValid g
    → OnBack (record g { active_buffer = buffer; active_width = w; active_height = h })
      ⊎ OffBack (record g { active_buffer = buffer; active_width = w; active_height = h })
    → IsValid (record g { active_buffer = buffer; active_width = w; active_height = h })
set_target-IsValid buffer w h g v t = record {
  screen = v.screen;
  back = v.back;
  total = v.total;
  quads = v.quads;
  apart = v.apart;
  target = t;
  max_x = v.max_x;
  max_y = v.max_y;
  idle = v.idle;
  synced = v.synced;
}

gfx_set_target-IsValid :
    (buffer w h : ℕ) (g : Gfx)
    → IsValid g
    → Allowed (target buffer w h) g
    → IsValid (gfx_set_target buffer w h g)
unfolding gfx_set_target
gfx_set_target-IsValid buffer w h g v a = elim (Bool-cases (buffer == 0)) [
  | inl e ↦ rw e (set_target-IsValid g.back_buffer g.width g.height g v (inl (refl, refl, refl)))
  | inr e ↦ elim a [
    | inl z ↦ absurd (ground arith)
    | inr off ↦ rw e (set_target-IsValid buffer w h g v (inr off))
  ]
]

-- Every allowed call keeps the state valid.
pub perform-IsValid :
    (call : Call) (g : Gfx) → IsValid g → Allowed call g → IsValid (perform call g)
unfolding perform gfx_draw_number_64
perform-IsValid (mark x y w h) g v a = gfx_mark_dirty-IsValid x y w h g v
perform-IsValid (pixel x y color) g v a = gfx_put_pixel-IsValid x y color g v
perform-IsValid (rect x y w h color) g v a = gfx_draw_rect-IsValid x y w h color g v
perform-IsValid (blit src x y w h) g v a = gfx_blit-IsValid src x y w h g v a
perform-IsValid (text cs x y color) g v a = gfx_draw_string-IsValid cs x y color g v
perform-IsValid (number num x y color) g v a =
    gfx_draw_string-IsValid (number_text num) x y color g v
perform-IsValid (alpha x y color k) g v a = gfx_put_pixel_alpha-IsValid x y color k g v a
perform-IsValid (clear color) g v a = gfx_clear-IsValid color g v a
perform-IsValid (target buffer w h) g v a = gfx_set_target-IsValid buffer w h g v a
perform-IsValid swap g v a = (gfx_swap_buffers-Shows g v).2

-- The states that a session leads to.
pub data Draws : Gfx → Gfx → Type 0 where
  start : {g : Gfx} → Draws g g
  then_call : {g h : Gfx} (call : Call) → Draws g h → Allowed call h → Draws g (perform call h)

pub Draws-IsValid : {g h : Gfx} → IsValid g → Draws g h → IsValid h
Draws-IsValid v start = v
Draws-IsValid v (then_call call d a) = perform-IsValid call _ (Draws-IsValid v d) a

-- Whatever was drawn since a valid state, by allowed calls in any order, the next
-- `gfx_swap_buffers` leaves the whole back buffer on the screen and changes no word off the
-- screen; nothing is dirty then.
pub swap_after_session :
    (g h : Gfx)
    → IsValid g
    → Draws g h
    → Shows h (gfx_swap_buffers h).words × (gfx_is_dirty (gfx_swap_buffers h) ≡ false)
swap_after_session g h v d = let (s, e, _) = gfx_swap_buffers-Shows h (Draws-IsValid v d) in (s, e)
