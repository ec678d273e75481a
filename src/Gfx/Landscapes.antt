-- ===== src/Gfx/Landscapes.antt =====
-- The three landscapes of src/gfx.c. They are drawn straight into the back buffer. The callers give
-- no negative position; squares, and remainders tested for 0, are taken of absolute differences.
use meu_so_baremetal.Prelude.{
  ℕ, zero, suc, ◌+◌, ◌-◌, ◌*◌, ◌/◌, ◌%◌, ◌≤◌, ◌<◌, ◌≡◌, inl, inr, ◌∙◌, Bool, ◌&&◌, ◌||◌, ltb, ◌==◌,
  if◌then◌else◌, arith, refl, ap, Bool-cases,
}
use meu_so_baremetal.Prelude.Int.{pos}
use meu_so_baremetal.Klibc.{within}
use meu_so_baremetal.Gfx.{Gfx, Words, gfx_mark_dirty, store_word, pack}
use meu_so_baremetal.Gfx.Rows.{OutsideOf, rows_fit}
use meu_so_baremetal.Gfx.Lines.{rows_le}
use meu_so_baremetal.Gfx.Draw.{gfx_mark_dirty-words}

-- The distance of two coordinates, and its square.
abbrev pub apart : ℕ → ℕ → ℕ
apart a b = (a - b) + (b - a)

abbrev pub squared : ℕ → ℕ → ℕ
squared a b = apart a b * apart a b

-- The sky above the horizon, by its height `t` of 255.
unfoldable pub sunset_low : ℕ → ℕ
sunset_low t1 =
    pack (0x1A + (0xE6 - 0x1A) * t1 / 255) (0x05 + (0x39 - 0x05) * t1 / 255)
      (0x2E + (0x46 - 0x2E) * t1 / 255)

unfoldable pub sunset_high : ℕ → ℕ
sunset_high t2 =
    pack (0xE6 + (0xFF - 0xE6) * t2 / 255) (0x39 + (0xB7 - 0x39) * t2 / 255)
      (0x46 - (0x46 - 0x03) * t2 / 255)

unfoldable pub sunset_sky : ℕ → ℕ
sunset_sky t = if ltb t 128 then sunset_low (t * 2) else sunset_high ((t - 128) * 2)

-- Above the horizon, and below it.
unfoldable pub sunset_above : (x y w h px py horizon : ℕ) → ℕ
sunset_above x y w h px py horizon =
    let rel_x = px - x in
    let t = (py - y) * 255 / (horizon - y) in
    let dist2 = squared px (x + w / 2) + squared py (horizon - h / 7) in
    let sky = sunset_sky (if ltb 255 t then 255 else t) in
    let sun = if ltb dist2 1200 then 0xFFF1E6 else if ltb dist2 2800 then 0xFFD166 else sky in
    let hills =
      if ltb horizon (py + 35 + (rel_x * 9 % 40 + rel_x * 5 % 25)) then 0x3A0CA3 else sun in
    if ltb horizon (py + 15 + (rel_x * 13 % 30 + rel_x * 19 % 20)) then 0x10002B else hills

unfoldable pub sunset_below : (x y w px py : ℕ) → ℕ
sunset_below x y w px py =
    let dx = apart px (x + w / 2) in
    let ripple = ((px - x) * 23 + (py - y) * 11) % 17 in
    if ltb dx 80 && ltb ripple 9
    then 0xFFD166
    else if ltb dx 160 && ltb ripple 5
    then 0xF72585
    else 0x050517

unfoldable pub sunset_color : (x y w h px py : ℕ) → ℕ
sunset_color x y w h px py =
    let horizon = y + h * 6 / 10 in
    if ltb py horizon then sunset_above x y w h px py horizon else sunset_below x y w px py

-- The stars and the glow, and then the planet and its ring.
unfoldable pub cosmos_stars : (x y w h px py : ℕ) → ℕ
cosmos_stars x y w h px py =
    let hash = (px * 73 + py * 137) % 197 in
    let star =
      if hash == 7
      then 0xFFFFFF
      else if hash == 19
      then 0x4CC9F0
      else if hash == 42
      then 0xF72585
      else 0x03030D in
    let dist2 = squared px (x + w / 3) + squared py (y + h / 2) in
    let intensity = (16000 - dist2) * 180 / 16000 in
    if ltb dist2 16000 then star + pack intensity (intensity / 4) intensity else star

unfoldable pub cosmos_color : (x y w h px py : ℕ) → ℕ
cosmos_color x y w h px py =
    let p_cx = x + w * 3 / 4 in
    let p_cy = y + h / 3 in
    let pdist2 = squared px p_cx + squared py p_cy in
    let shadow = if ltb (p_cx + 10) px then 2 else 1 in
    let planet =
      if ltb (py % 12) 6
      then pack (0x43 / shadow) (0x61 / shadow) (0xEE / shadow)
      else pack (0x3F / shadow) (0x37 / shadow) (0xC9 / shadow) in
    let color = if ltb pdist2 1600 then planet else cosmos_stars x y w h px py in
    let here = px * 2 + py * 6 in
    let centre = p_cx * 2 + p_cy * 6 in
    if ltb centre (here + 60) && ltb here (centre + 60) && ltb pdist2 4500 && ltb 1800 pdist2
    then 0x7209B7
    else color

abbrev pub is_grid_line : ℕ → Bool
is_grid_line n =
    (n == 3)
    || (n == 10)
    || (n == 22)
    || (n == 40)
    || (n == 65)
    || (n == 100)
    || (n == 145)
    || (n == 200)

unfoldable pub synthwave_above : (x y w h px py horizon : ℕ) → ℕ
synthwave_above x y w h px py horizon =
    let sun_cx = x + w / 2 in
    let sun_cy = horizon - h / 6 in
    let t = (py - y) * 255 / (horizon - y) in
    let sky = pack (0x10 + (0xFF - 0x10) * t / 255) 0 (0x28 + (0x70 - 0x28) * t / 255) in
    let slice = (py + 50 - sun_cy) / 8 in
    if ltb (squared px sun_cx + squared py sun_cy) 2500 && (ltb py sun_cy || (slice % 2 == 0))
    then 0xFFB703
    else sky

unfoldable pub synthwave_below : (x w px ground_y : ℕ) → ℕ
synthwave_below x w px ground_y =
    let line = if is_grid_line ground_y then 0xF72585 else 0x050010 in
    if ltb 0 ground_y && (apart px (x + w / 2) * 120 / ground_y % 35 == 0) then 0x00FFFF else line

unfoldable pub synthwave_color : (x y w h px py : ℕ) → ℕ
synthwave_color x y w h px py =
    let horizon = y + h * 55 / 100 in
    if ltb py horizon
    then synthwave_above x y w h px py horizon
    else synthwave_below x w px (py - horizon)

-- The two loops that the landscapes share, for the colour at each position.
unfoldable pub paint_row : (ℕ → ℕ → ℕ) → ℕ → ℕ → ℕ → ℕ → ℕ → Words → Words
paint_row color_at back width py px zero m = m
paint_row color_at back width py px (suc n) m =
    paint_row color_at back width py (px + 1) n
      (store_word (back + (py * width + px)) (color_at px py) m)

unfoldable pub paint_area : (ℕ → ℕ → ℕ) → ℕ → ℕ → ℕ → ℕ → ℕ → ℕ → Words → Words
paint_area color_at back width x w py zero m = m
paint_area color_at back width x w py (suc n) m =
    paint_area color_at back width x w (py + 1) n (paint_row color_at back width py x w m)

unfoldable pub draw_landscape : (ℕ → ℕ → ℕ) → ℕ → ℕ → ℕ → ℕ → Gfx → Gfx
draw_landscape color_at x y w h g =
    gfx_mark_dirty (pos x) (pos y) (pos w) (pos h)
      (record g { words = paint_area color_at g.back_buffer g.width x w y h g.words })

unfoldable pub gfx_draw_landscape_sunset : ℕ → ℕ → ℕ → ℕ → Gfx → Gfx
gfx_draw_landscape_sunset x y w h g = draw_landscape (sunset_color x y w h) x y w h g

unfoldable pub gfx_draw_landscape_cosmos : ℕ → ℕ → ℕ → ℕ → Gfx → Gfx
gfx_draw_landscape_cosmos x y w h g = draw_landscape (cosmos_color x y w h) x y w h g

unfoldable pub gfx_draw_landscape_synthwave : ℕ → ℕ → ℕ → ℕ → Gfx → Gfx
gfx_draw_landscape_synthwave x y w h g = draw_landscape (synthwave_color x y w h) x y w h g

module _ (color_at : ℕ → ℕ → ℕ) (back width : ℕ) where
  store_at :
      (px py v c r : ℕ) (m : Words)
      → px < width
      → c < width
      → store_word (back + (py * width + px)) v m (back + (r * width + c))
        ≡ (if (py == r) && (px == c) then v else m (back + (r * width + c)))
  store_at px py v c r m h hc =
      ground
        (arith, rows_le width py r, rows_le width r py, λ (e : py ≡ r). ap (λ (t : ℕ). t * width) e)

  color_here :
      (px py c r other : ℕ)
      → (if (py == r) && (px == c) then color_at px py else other)
        ≡ (if (py == r) && (px == c) then color_at c r else other)
  color_here px py c r other = elim (Bool-cases ((py == r) && (px == c))) [
    | inl e ↦ let ey : py ≡ r = ground arith in let ex : px ≡ c = ground arith in rw (ey, ex) refl
    | inr e ↦ rw e refl
  ]

  paint_row_lem :
      (py px n r c : ℕ) (m : Words)
      → px + n ≤ width
      → c < width
      → paint_row color_at back width py px n m (back + (r * width + c))
        ≡ (if (py == r) && within px n c then color_at c r else m (back + (r * width + c)))
  unfolding paint_row
  paint_row_lem py px zero r c m h hc = ground arith
  paint_row_lem py px (suc n) r c m h hc =
      paint_row_lem py (px + 1) n r c (store_word (back + (py * width + px)) (color_at px py) m)
        (omega arith) hc
      ∙ ground (
        arith,
        store_at px py (color_at px py) c r m (omega arith) hc,
        color_here px py c r (m (back + (r * width + c))),
      )

  paint_area_lem :
      (x w py n r c : ℕ) (m : Words)
      → x + w ≤ width
      → c < width
      → paint_area color_at back width x w py n m (back + (r * width + c))
        ≡ (if within py n r && within x w c then color_at c r else m (back + (r * width + c)))
  unfolding paint_area
  paint_area_lem x w py zero r c m h hc = ground arith
  paint_area_lem x w py (suc n) r c m h hc =
      paint_area_lem x w (py + 1) n r c (paint_row color_at back width py x w m) h hc
      ∙ ground (arith, paint_row_lem py x w r c m h hc)

  paint_row_outside :
      (py px n height a : ℕ) (m : Words)
      → px + n ≤ width
      → py < height
      → OutsideOf back (height * width) a
      → paint_row color_at back width py px n m a ≡ m a
  unfolding paint_row
  paint_row_outside py px zero height a m h hp out = refl
  paint_row_outside py px (suc n) height a m h hp out =
      paint_row_outside py (px + 1) n height a
        (store_word (back + (py * width + px)) (color_at px py) m) (omega arith) hp out
      ∙ ground (arith, rows_fit width py height hp)

  paint_area_outside :
      (x w py n height a : ℕ) (m : Words)
      → x + w ≤ width
      → py + n ≤ height
      → OutsideOf back (height * width) a
      → paint_area color_at back width x w py n m a ≡ m a
  unfolding paint_area
  paint_area_outside x w py zero height a m h hp out = refl
  paint_area_outside x w py (suc n) height a m h hp out =
      paint_area_outside x w (py + 1) n height a (paint_row color_at back width py x w m) h
        (omega arith) out
      ∙ paint_row_outside py x w height a m h (omega arith) out

-- A landscape inside the screen gives each position of its area its colour, changes no other pixel
-- of the back buffer and no word outside of that.
pub draw_landscape_lem :
    (color_at : ℕ → ℕ → ℕ) (x y w h : ℕ) (g : Gfx)
    → x + w ≤ g.width
    → y + h ≤ g.height
    → ((c r : ℕ)
        → c < g.width
        → (draw_landscape color_at x y w h g).words (g.back_buffer + (r * g.width + c)) ≡ (
            if within y h r && within x w c
            then color_at c r
            else g.words (g.back_buffer + (r * g.width + c))))
      × ((a : ℕ)
          → OutsideOf g.back_buffer (g.height * g.width) a
          → (draw_landscape color_at x y w h g).words a ≡ g.words a)
unfolding draw_landscape
draw_landscape_lem color_at x y w h g fits low = rw gfx_mark_dirty-words (
  λ c r hc. paint_area_lem color_at g.back_buffer g.width x w y h r c g.words fits hc,
  λ a out.
      paint_area_outside color_at g.back_buffer g.width x w y h g.height a g.words fits low out,
)
