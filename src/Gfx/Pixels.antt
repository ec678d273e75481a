-- ===== src/Gfx/Pixels.antt =====
-- `gfx_get_pixel` after `gfx_put_pixel` of src/gfx.c.
use meu_so_baremetal.Prelude.{
  ℕ, ◌+◌, ◌*◌, ◌<◌, ◌⊎◌, ◌∙◌, true, ◌≡◌, inl, inr, Bool, false, ◌&&◌, ◌||◌, not, ◌==◌,
  if◌then◌else◌, arith, refl, ap, Bool-cases,
}
use meu_so_baremetal.Prelude.Int.{ℤ, pos, negsuc, pos_part, neg_part, leb_ℤ, ◌<ℤ◌, ◌≤ℤ◌}
use meu_so_baremetal.Gfx.{
  Gfx, Words, gfx_mark_dirty, widen, gfx_put_pixel, gfx_get_pixel, off_surface, store_word,
}
use meu_so_baremetal.Gfx.Lines.{rows_le}
use meu_so_baremetal.Gfx.Rows.{OutsideOf, rows_fit}
use meu_so_baremetal.Gfx.Draw.{target_at}

abbrev pub eq_ℤ : ℤ → ℤ → Bool
eq_ℤ a b = (pos_part a == pos_part b) && (neg_part a == neg_part b)

-- A mark does not change what is read.
pub mark-get :
    (x y w h x' y' : ℤ) (g : Gfx)
    → gfx_get_pixel x' y' (gfx_mark_dirty x y w h g) ≡ gfx_get_pixel x' y' g
unfolding gfx_get_pixel gfx_mark_dirty widen
mark-get x y w h x' y' g = elim (Bool-cases (leb_ℤ w (pos 0) || leb_ℤ h (pos 0))) [
  | inl e ↦ rw e refl
  | inr e ↦ rw e refl
]

stored-get :
    (x y x' y' : ℤ) (color : ℕ) (g : Gfx)
    → off_surface x y g.active_width g.active_height ≡ false
    → gfx_get_pixel x' y' (record g {
      words =
          store_word (g.active_buffer + (pos_part y * g.active_width + pos_part x)) color g.words;
    })
      ≡ (if eq_ℤ x x' && eq_ℤ y y' then color else gfx_get_pixel x' y' g)
unfolding gfx_get_pixel
stored-get (pos x) (pos y) (pos x') (pos y') color g h = ground (
  arith,
  rows_le g.active_width y y',
  rows_le g.active_width y' y,
  λ (e : y ≡ y'). ap (λ (t : ℕ). t * g.active_width) e,
)
stored-get (pos x) (pos y) (pos x') (negsuc y') color g h = ground arith
stored-get (pos x) (pos y) (negsuc x') y' color g h = ground arith
stored-get (pos x) (negsuc y) x' y' color g h = absurd (ground arith)
stored-get (negsuc x) (pos y) x' y' color g h = absurd (ground arith)
stored-get (negsuc x) (negsuc y) x' y' color g h = absurd (ground arith)

-- A pixel put on the surface is read back at its place, and every other place reads as before.
pub gfx_get_pixel-gfx_put_pixel :
    (x y x' y' : ℤ) (color : ℕ) (g : Gfx)
    → gfx_get_pixel x' y' (gfx_put_pixel x y color g) ≡ (
        if not (off_surface x y g.active_width g.active_height) && (eq_ℤ x x' && eq_ℤ y y')
        then color
        else gfx_get_pixel x' y' g)
unfolding gfx_put_pixel
gfx_get_pixel-gfx_put_pixel x y x' y' color g =
    elim (Bool-cases (off_surface x y g.active_width g.active_height)) [
      | inl e ↦ rw e refl
      | inr e ↦
          let s = stored-get x y x' y' color g e in
          elim (Bool-cases (g.active_buffer == g.back_buffer)) [
            | inl b ↦ rw (e, b, mark-get) s
            | inr b ↦ rw (e, b) s
          ]
    ]

-- A place on the surface reads as its word.
get_word :
    (c r : ℕ) (g : Gfx)
    → c < g.active_width
    → r < g.active_height
    → gfx_get_pixel (pos c) (pos r) g ≡ g.words (target_at g c r)
unfolding gfx_get_pixel
get_word c r g hc hr =
    let e : off_surface (pos c) (pos r) g.active_width g.active_height ≡ false = ground arith in
    rw e refl

on_surface :
    (x y : ℤ) (c r w h u v : ℕ)
    → c < w
    → r < h
    → (if not (off_surface x y w h) && (eq_ℤ x (pos c) && eq_ℤ y (pos r)) then u else v)
      ≡ (if eq_ℤ x (pos c) && eq_ℤ y (pos r) then u else v)
on_surface (pos x) (pos y) c r w h u v hc hr = ground arith
on_surface (pos x) (negsuc y) c r w h u v hc hr = ground arith
on_surface (negsuc x) y c r w h u v hc hr = ground arith

put_outside :
    (x y : ℤ) (color a : ℕ) (g : Gfx)
    → off_surface x y g.active_width g.active_height ≡ false
    → OutsideOf g.active_buffer (g.active_height * g.active_width) a
    → store_word (g.active_buffer + (pos_part y * g.active_width + pos_part x)) color g.words a
      ≡ g.words a
put_outside (pos x) (pos y) color a g e out =
    ground (arith, rows_fit g.active_width y g.active_height (ground arith))
put_outside (pos x) (negsuc y) color a g e out = absurd (ground arith)
put_outside (negsuc x) y color a g e out = absurd (ground arith)

beside_off :
    (x y : ℤ) (w h : ℕ)
    → (x <ℤ pos 0) ⊎ (pos w ≤ℤ x) ⊎ (y <ℤ pos 0) ⊎ (pos h ≤ℤ y)
    → off_surface x y w h ≡ true
beside_off (pos x) (pos y) w h b = ground arith
beside_off (pos x) (negsuc y) w h b = ground arith
beside_off (negsuc x) y w h b = ground arith

put_words :
    (x y : ℤ) (color : ℕ) (g : Gfx)
    → off_surface x y g.active_width g.active_height ≡ false
    → (gfx_put_pixel x y color g).words
      ≡ store_word (g.active_buffer + (pos_part y * g.active_width + pos_part x)) color g.words
unfolding gfx_put_pixel gfx_mark_dirty widen
put_words x y color g e = elim (Bool-cases (g.active_buffer == g.back_buffer)) [
  | inl b ↦ rw (e, b) refl
  | inr b ↦ rw (e, b) refl
]

-- After `gfx_put_pixel` the place (`x`, `y`) of the surface reads as the colour, and every other
-- place of it as its word was; no word outside of the surface changes, and a place beside the
-- surface, on any of its four sides, leaves the whole state as it was.
pub gfx_put_pixel_lem :
    (x y : ℤ) (color : ℕ) (g : Gfx)
    → ((c r : ℕ)
        → c < g.active_width
        → r < g.active_height
        → gfx_get_pixel (pos c) (pos r) (gfx_put_pixel x y color g)
          ≡ (if eq_ℤ x (pos c) && eq_ℤ y (pos r) then color else g.words (target_at g c r)))
      × ((a : ℕ)
          → OutsideOf g.active_buffer (g.active_height * g.active_width) a
          → (gfx_put_pixel x y color g).words a ≡ g.words a)
      × ((x <ℤ pos 0) ⊎ (pos g.active_width ≤ℤ x) ⊎ (y <ℤ pos 0) ⊎ (pos g.active_height ≤ℤ y)
          → gfx_put_pixel x y color g ≡ g)
gfx_put_pixel_lem x y color g = (
  λ c r hc hr.
      gfx_get_pixel-gfx_put_pixel x y (pos c) (pos r) color g
      ∙ on_surface x y c r g.active_width g.active_height color (gfx_get_pixel (pos c) (pos r) g) hc
          hr
      ∙ ap (λ v. if eq_ℤ x (pos c) && eq_ℤ y (pos r) then color else v) (get_word c r g hc hr),
  λ a out. elim (Bool-cases (off_surface x y g.active_width g.active_height)) [
    | inl e ↦ unfold gfx_put_pixel in rw e refl
    | inr e ↦ ap (λ (m : Words). m a) (put_words x y color g e) ∙ put_outside x y color a g e out
  ],
  λ b. let e = beside_off x y g.active_width g.active_height b in unfold gfx_put_pixel in rw e refl,
)
