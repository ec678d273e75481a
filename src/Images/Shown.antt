-- ===== src/Images/Shown.antt =====
-- The bytes of a film that `bgif_draw_frame` of src/bgif.c shows, place by place.
use mathlib.Core.Path.{subst}
use native.Mathlib.Nat.{div-mul-le_self, mod-eq_of_lt, mod-lt}
use meu_so_baremetal.Prelude.{
  ℕ, zero, suc, ◌+◌, ◌-◌, ◌*◌, ◌/◌, ◌%◌, ◌^◌, ◌≤◌, ◌<◌, ◌≡◌, ◌≢◌, inl, inr, ◌∙◌, false, leb, arith,
  refl, ap, Bool-cases,
}
use meu_so_baremetal.Prelude.Int.{ℤ, pos, ◌+ℤ◌}
use meu_so_baremetal.Klibc.{ByteMem}
use meu_so_baremetal.Gfx.{gfx_get_pixel, off_surface}
use meu_so_baremetal.Images.{le16, le32}
use meu_so_baremetal.Images.Animation.{
  Header, delta, delta_threshold, on_screen, frame_color, frame_offset, read_header, rem_ℤ,
}
use meu_so_baremetal.Images.Frames.{Player, is_refused, bgif_draw_frame}
use meu_so_baremetal.Images.Screen.{IsShown, source_color, bgif_draw_frame-Near}

abbrev pub difference : ℕ → ℕ → ℕ
difference a b = (a - b) + (b - a)

-- The colour `v` is that of the blue, green and red byte at `at`, up to 12 in all.
abbrev pub ShowsBytes : ByteMem → ℕ → ℕ → Type 0
ShowsBytes m at v =
    difference (m (at + 2)) (v / 2 ^ 16 % 256)
      + difference (m (at + 1)) (v / 2 ^ 8 % 256)
      + difference (m at) (v % 256)
    ≤ 12

-- The column of `w` for column `i` of `max_w`, in the fixed-point numbers of the source.
abbrev pub scaled : ℕ → ℕ → ℕ → ℕ
scaled w max_w i = i * (w * 2 ^ 16 / max_w) / 2 ^ 16

-- Where the pixel for (`i`, `j`) of an area stands in a film at `bgif_data`: frames of the size in
-- bytes 12 to 15 follow the header of 16 bytes, with lines of the width in bytes 4 and 5.
abbrev pub film_at : ByteMem → (bgif_data frame max_w max_h i j : ℕ) → ℕ
film_at m bgif_data frame max_w max_h i j =
    let w = le16 m (bgif_data + 4) in
    bgif_data
    + 16
    + frame * le32 m (bgif_data + 12)
    + (scaled (le16 m (bgif_data + 6)) max_h j * w + scaled w max_w i) * 3

steps_below : (i n s t : ℕ) → i < n → s * n ≤ t → 0 < t → i * s < t
steps_below i n zero t h le some = ground arith
steps_below i n (suc s) t h le some = grind arith

step_sum : (w n i : ℕ) → 0 < w → w < 2 ^ 16 → i < n → i * (w * 2 ^ 16 / n) < w * 2 ^ 16
step_sum w n i w0 fit h =
    steps_below i n (w * 2 ^ 16 / n) (w * 2 ^ 16) h (div-mul-le_self (w * 2 ^ 16) n) (omega arith)

scaled_below : (w n i : ℕ) → 0 < w → w < 2 ^ 16 → i < n → scaled w n i < w
scaled_below w n i w0 fit h = omega (arith, step_sum w n i w0 fit h)

line_below : (y w h : ℕ) → y < h → y * w + w ≤ h * w
line_below y w h lt = grind arith

frame_color_lem :
    (m : ByteMem) (at : ℕ) (header : Header) (cx cy : ℕ)
    → cx / 2 ^ 16 < header.width
    → cy / 2 ^ 16 < header.height
    → header.height * header.width * 3 ≤ 2 ^ 32
    → let p = at + (cy / 2 ^ 16 * header.width + cx / 2 ^ 16) * 3 in
      frame_color m at header cx cy ≡ m (p + 2) * 2 ^ 16 + m (p + 1) * 2 ^ 8 + m p
unfolding frame_color
frame_color_lem m at header cx cy hx hy fit =
    let x_in : leb header.width (cx / 2 ^ 16) ≡ false = ground (arith, hx) in
    let y_in : leb header.height (cy / 2 ^ 16) ≡ false = ground (arith, hy) in
    let line = line_below (cy / 2 ^ 16) header.width header.height hy in
    let row : cy / 2 ^ 16 * header.width * 3 % 2 ^ 32 ≡ cy / 2 ^ 16 * header.width * 3 =
      mod-eq_of_lt (omega (arith, line, fit, hx)) in
    let place : at + cy / 2 ^ 16 * header.width * 3 + cx / 2 ^ 16 * 3
        ≡ at + (cy / 2 ^ 16 * header.width + cx / 2 ^ 16) * 3 =
      omega arith in
    rw (x_in, y_in, row) (ap (λ p. m (p + 2) * 2 ^ 16 + m (p + 1) * 2 ^ 8 + m p) place)

frame_offset_lem :
    (k : ℕ) (header : Header)
    → k < 2 ^ 32
    → 16 + k * header.frame_size < 2 ^ 32
    → frame_offset (pos k) header ≡ 16 + k * header.frame_size
unfolding frame_offset
frame_offset_lem k header hk fit =
    let e : k % 2 ^ 32 ≡ k = mod-eq_of_lt hk in
    let f : k * header.frame_size % 2 ^ 32 ≡ k * header.frame_size = mod-eq_of_lt (omega arith) in
    rw (e, f) (mod-eq_of_lt fit)

-- The threshold between a packed colour and a pixel, byte by byte.
bytes_near :
    (r g b v : ℕ)
    → r < 256
    → g < 256
    → b < 256
    → delta (r * 2 ^ 16 + g * 2 ^ 8 + b) v ≤ delta_threshold
    → difference r (v / 2 ^ 16 % 256) + difference g (v / 2 ^ 8 % 256) + difference b (v % 256) ≤ 12
bytes_near r g b v hr hg hb near =
    let packed = r * 2 ^ 16 + g * 2 ^ 8 + b in
    let e2 : packed / 2 ^ 16 % 256 ≡ r = omega arith in
    let e1 : packed / 2 ^ 8 % 256 ≡ g = omega arith in
    let e0 : packed / 2 ^ 0 % 256 ≡ b = omega arith in
    let v0 : v / 2 ^ 0 % 256 ≡ v % 256 = omega arith in rw (e2, e1, e0, v0) at near

-- A file that is not refused has some pixels.
some_size :
    (m : ByteMem) (bgif_data file_size : ℕ) (frame_idx dest_x dest_y : ℤ) (max_w max_h : ℕ)
    (p : Player)
    → (bgif_draw_frame m bgif_data file_size frame_idx dest_x dest_y max_w max_h p).0 ≢ 0
    → let header = read_header m bgif_data in
      (0 < header.width) × (0 < header.height) × (0 < header.frame_count)
unfolding bgif_draw_frame
some_size m bgif_data file_size frame_idx dest_x dest_y max_w max_h p ok =
    let header = read_header m bgif_data in
    elim (Bool-cases
      (is_refused m bgif_data file_size (rem_ℤ frame_idx header.frame_count) header max_w max_h)) [
        | inl e ↦ absurd (ok (rw e refl))
        | inr e ↦ (ground (arith, e), ground (arith, e), ground (arith, e))
      ]

module _ (m : ByteMem) (bgif_data file_size frame : ℕ) (dest_x dest_y : ℤ) (max_w max_h : ℕ)
    (p : Player) where
  abbrev the_header : Header
  the_header = read_header m bgif_data

  abbrev shown_frame : ℕ
  shown_frame = frame % the_header.frame_count

  source_color_lem :
      (i j : ℕ)
      → ((x : ℕ) → m x < 256)
      → (0 < the_header.width) × (0 < the_header.height) × (0 < the_header.frame_count)
      → 16 + shown_frame * the_header.frame_size < 2 ^ 32
      → the_header.height * the_header.width * 3 ≤ 2 ^ 32
      → i < max_w
      → j < max_h
      → let at = film_at m bgif_data shown_frame max_w max_h i j in
        source_color m bgif_data the_header
          (rem_ℤ (pos frame) the_header.frame_count)
          max_w
          max_h
          i
          j
        ≡ m (at + 2) * 2 ^ 16 + m (at + 1) * 2 ^ 8 + m at
  unfolding read_header
  source_color_lem i j small (w0, h0, c0) fit area hi hj =
      let w = the_header.width in
      let h = the_header.height in
      let w_small : w < 2 ^ 16 = omega (arith, small (bgif_data + 4), small (bgif_data + 4 + 1)) in
      let h_small : h < 2 ^ 16 = omega (arith, small (bgif_data + 6), small (bgif_data + 6 + 1)) in
      let cx = step_sum w max_w i w0 w_small hi in
      let cy = step_sum h max_h j h0 h_small hj in
      let ex : i * (w * 2 ^ 16 / max_w) % 2 ^ 32 ≡ i * (w * 2 ^ 16 / max_w) =
        mod-eq_of_lt (omega (arith, cx, w_small)) in
      let ey : j * (h * 2 ^ 16 / max_h) % 2 ^ 32 ≡ j * (h * 2 ^ 16 / max_h) =
        mod-eq_of_lt (omega (arith, cy, h_small)) in
      let k_small : shown_frame < 2 ^ 32 =
        omega (arith, mod-lt frame c0, small (bgif_data + 8), small (bgif_data + 8 + 1)) in
      rw (frame_offset_lem shown_frame the_header k_small fit, ex, ey)
        (frame_color_lem m (bgif_data + (16 + shown_frame * the_header.frame_size)) the_header
            (i * (w * 2 ^ 16 / max_w)) (j * (h * 2 ^ 16 / max_h))
            (scaled_below w max_w i w0 w_small hi) (scaled_below h max_h j h0 h_small hj) area
          ∙ ap (λ q. m (q + 2) * 2 ^ 16 + m (q + 1) * 2 ^ 8 + m q) (omega arith))

-- A frame with a number that is not negative, and that `bgif_draw_frame` does not refuse (its result
-- is not 0), is on the screen afterwards. Take any place of the area that is on the screen and on
-- the surface: its blue, green and red differ by 12 in all, at most, from the three bytes of the
-- film for that place. These stand behind the header of 16 bytes, in frame `frame` modulo the
-- number of frames, at the line and the column that the place has at the scale of the area. The film
-- consists of bytes, its frame starts below 2 ^ 32, and a whole frame has at most 2 ^ 32 bytes.
pub bgif_draw_frame_shows :
    (m : ByteMem) (bgif_data file_size frame : ℕ) (dest_x dest_y : ℤ) (max_w max_h : ℕ) (p : Player)
    (i j c r : ℕ)
    → ((x : ℕ) → m x < 256)
    → (bgif_draw_frame m bgif_data file_size (pos frame) dest_x dest_y max_w max_h p).0 ≢ 0
    → 16 + frame % le16 m (bgif_data + 8) * le32 m (bgif_data + 12) < 2 ^ 32
    → le16 m (bgif_data + 6) * le16 m (bgif_data + 4) * 3 ≤ 2 ^ 32
    → i < max_w
    → j < max_h
    → dest_x +ℤ pos i ≡ pos c
    → dest_y +ℤ pos j ≡ pos r
    → c < p.gfx.width
    → r < p.gfx.height
    → c < p.gfx.active_width
    → r < p.gfx.active_height
    → ShowsBytes m (film_at m bgif_data (frame % le16 m (bgif_data + 8)) max_w max_h i j) (
        gfx_get_pixel
          (pos c)
          (pos r)
          (bgif_draw_frame m bgif_data file_size (pos frame) dest_x dest_y max_w max_h p).1.gfx)
unfolding read_header
bgif_draw_frame_shows m bgif_data file_size frame dest_x dest_y max_w max_h p i j c r small ok fit
      area hi hj ec er hc hr ac ar =
    let g = (bgif_draw_frame m bgif_data file_size (pos frame) dest_x dest_y max_w max_h p).1.gfx in
    let at = film_at m bgif_data (frame % le16 m (bgif_data + 8)) max_w max_h i j in
    let shown : IsShown p.gfx dest_x dest_y i j = (
      ap (λ x. on_screen x p.gfx.width) ec ∙ ground arith,
      ap (λ y. on_screen y p.gfx.height) er ∙ ground arith,
      ap (λ x. off_surface x (dest_y +ℤ pos j) p.gfx.active_width p.gfx.active_height) ec
          ∙ ap (λ y. off_surface (pos c) y p.gfx.active_width p.gfx.active_height) er
          ∙ ground arith,
    ) in
    let header = read_header m bgif_data in
    let source =
      source_color m bgif_data header (rem_ℤ (pos frame) header.frame_count) max_w max_h i j in
    let near =
      bgif_draw_frame-Near m bgif_data file_size (pos frame) dest_x dest_y max_w max_h p i j ok hi
        hj shown in
    let sizes = some_size m bgif_data file_size (pos frame) dest_x dest_y max_w max_h p ok in
    let colour =
      source_color_lem m bgif_data file_size frame dest_x dest_y max_w max_h p i j small sizes fit
        area hi hj in
    bytes_near (m (at + 2)) (m (at + 1)) (m at) (gfx_get_pixel (pos c) (pos r) g) (small (at + 2))
      (small (at + 1)) (small at)
      (subst (λ v. delta v (gfx_get_pixel (pos c) (pos r) g) ≤ delta_threshold) colour
        (subst (λ y. delta source (gfx_get_pixel (pos c) y g) ≤ delta_threshold) er
          (subst (λ x. delta source (gfx_get_pixel x (dest_y +ℤ pos j) g) ≤ delta_threshold) ec
            near)))
