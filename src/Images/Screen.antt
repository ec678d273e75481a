-- ===== src/Images/Screen.antt =====
-- `bgif_draw_frame` of src/bgif.c leaves on the screen what the frame holds, up to the threshold.
use meu_so_baremetal.Prelude.{
  ℕ, zero, suc, ◌+◌, ◌*◌, ◌/◌, ◌%◌, ◌^◌, ◌≤◌, ◌<◌, ◌≡◌, ◌≢◌, inl, inr, ◌∙◌, Bool, true, false, ◌&&◌,
  ◌||◌, ltb, ◌==◌, if◌then◌else◌, arith, refl, ap, Bool-cases,
}
use mathlib.Core.Path.{subst}
use meu_so_baremetal.Prelude.Int.{ℤ, pos, negsuc, ◌+ℤ◌, leb_ℤ, ◌-ℤ◌}
use meu_so_baremetal.Klibc.{ByteMem}
use meu_so_baremetal.Gfx.{Gfx, gfx_get_pixel, off_surface}
use meu_so_baremetal.Gfx.Pixels.{eq_ℤ, mark-get}
use meu_so_baremetal.Images.Animation.{
  Header, Sweep, delta, delta_threshold, on_screen, sweep_line, sweep_lines, mark_changes, clipped,
  frame_color, frame_offset, read_header, rem_ℤ,
}
use meu_so_baremetal.Images.Frames.{
  Player, is_refused, is_past, draw_frame, sweep_frame, force_full_redraw, bgif_draw_frame,
}
use meu_so_baremetal.Images.Delta.{
  Near, near_from, sum_after, sum_after_lem, other_place, sweep_line_far, sweep_line_off,
  sweep_line-Near,
}

no_place : (b : Bool) → b && false ≡ false
no_place true = refl
no_place false = refl

module _ (color : ℕ → ℕ → ℕ) (full : Bool) (sw sh : ℕ) (dest_x dest_y : ℤ)
    (dw step_x step_y : ℕ) where
  -- One round of the loop over the lines.
  abbrev line_at : ℤ → ℕ → Sweep → Sweep
  line_at y curr_y s =
      if on_screen y sh
      then sweep_line (λ curr_x. color curr_x curr_y) full sw dest_x y step_x 0 0 dw s
      else s

  line_far :
      (y x' y' : ℤ) (curr_y : ℕ) (s : Sweep)
      → eq_ℤ y y' ≡ false
      → gfx_get_pixel x' y' (line_at y curr_y s).gfx ≡ gfx_get_pixel x' y' s.gfx
  line_far y x' y' curr_y s far = elim (Bool-cases (on_screen y sh)) [
    | inl o ↦ rw o (
        sweep_line_far (λ curr_x. color curr_x curr_y) full sw dest_x y step_x 0 0 dw s x' y'
          (λ i h.
            ap (λ t. eq_ℤ (dest_x +ℤ pos i) x' && t) far ∙ no_place (eq_ℤ (dest_x +ℤ pos i) x')))
    | inr o ↦ rw o refl
  ]

  line_off :
      (y x' y' : ℤ) (curr_y : ℕ) (s : Sweep)
      → (let g = (line_at y curr_y s).gfx in off_surface x' y' g.active_width g.active_height)
        ≡ off_surface x' y' s.gfx.active_width s.gfx.active_height
  line_off y x' y' curr_y s = elim (Bool-cases (on_screen y sh)) [
    | inl o ↦
        rw o (sweep_line_off (λ curr_x. color curr_x curr_y) full sw dest_x y step_x 0 0 dw s x' y')
    | inr o ↦ rw o refl
  ]

  sweep_lines_far :
      (py curr_y n : ℕ) (s : Sweep) (x' y' : ℤ)
      → ((i : ℕ) → py ≤ i → eq_ℤ (dest_y +ℤ pos i) y' ≡ false)
      → gfx_get_pixel x' y'
          (sweep_lines color full sw sh dest_x dest_y dw step_x step_y py curr_y n s).gfx
        ≡ gfx_get_pixel x' y' s.gfx
  unfolding sweep_lines
  sweep_lines_far py curr_y zero s x' y' far = refl
  sweep_lines_far py curr_y (suc n) s x' y' far =
      sweep_lines_far (py + 1) ((curr_y + step_y) % 2 ^ 32) n (line_at (dest_y +ℤ pos py) curr_y s)
        x' y' (λ i h. far i (omega arith))
      ∙ line_far (dest_y +ℤ pos py) x' y' curr_y s (far py (omega arith))

  line-Near :
      (y : ℤ) (curr_y i : ℕ) (s : Sweep)
      → i < dw
      → on_screen (dest_x +ℤ pos i) sw ≡ true
      → on_screen y sh ≡ true
      → off_surface (dest_x +ℤ pos i) y s.gfx.active_width s.gfx.active_height ≡ false
      → Near (color (sum_after step_x 0 i) curr_y) (dest_x +ℤ pos i) y (line_at y curr_y s).gfx
  line-Near y curr_y i s h on on_y off = rw on_y (
      sweep_line-Near (λ curr_x. color curr_x curr_y) full sw dest_x y step_x 0 0 dw s i i h
        (omega arith) on off)

  sweep_lines-Near :
      (py curr_y n : ℕ) (s : Sweep) (d j i : ℕ)
      → d < n
      → j ≡ py + d
      → i < dw
      → on_screen (dest_x +ℤ pos i) sw ≡ true
      → on_screen (dest_y +ℤ pos j) sh ≡ true
      → off_surface (dest_x +ℤ pos i) (dest_y +ℤ pos j) s.gfx.active_width s.gfx.active_height
        ≡ false
      → Near
          (color (sum_after step_x 0 i) (sum_after step_y curr_y d))
          (dest_x +ℤ pos i)
          (dest_y +ℤ pos j)
          (sweep_lines color full sw sh dest_x dest_y dw step_x step_y py curr_y n s).gfx
  unfolding sweep_lines sum_after
  sweep_lines-Near py curr_y zero s d j i h e hi on on_y off = absurd (omega arith)
  sweep_lines-Near py curr_y (suc n) s zero j i h e hi on on_y off =
      near_from _ _ _
        (sweep_lines_far (py + 1) ((curr_y + step_y) % 2 ^ 32) n
          (line_at (dest_y +ℤ pos py) curr_y s) (dest_x +ℤ pos i) (dest_y +ℤ pos j)
          (λ k hk. other_place dest_y k j (λ (q : k ≡ j). absurd (omega arith))))
        (subst
          (λ k.
            Near (color (sum_after step_x 0 i) curr_y) (dest_x +ℤ pos i) (dest_y +ℤ pos j)
              (line_at (dest_y +ℤ pos k) curr_y s).gfx)
          (omega arith) (line-Near (dest_y +ℤ pos j) curr_y i s hi on on_y off))
  sweep_lines-Near py curr_y (suc n) s (suc d) j i h e hi on on_y off =
      sweep_lines-Near (py + 1) ((curr_y + step_y) % 2 ^ 32) n (line_at (dest_y +ℤ pos py) curr_y s)
        d j i (omega arith) (omega arith) hi on on_y
        (line_off (dest_y +ℤ pos py) (dest_x +ℤ pos i) (dest_y +ℤ pos j) curr_y s ∙ off)

mark_changes-get :
    (x y : ℤ) (s : Sweep) → gfx_get_pixel x y (mark_changes s) ≡ gfx_get_pixel x y s.gfx
unfolding mark_changes
mark_changes-get x y s =
    elim (Bool-cases
      (ltb 0 s.pixels_changed && leb_ℤ s.dirty_x1 s.dirty_x2 && leb_ℤ s.dirty_y1 s.dirty_y2)) [
        | inl e ↦ rw e (
            mark-get s.dirty_x1 s.dirty_y1 (s.dirty_x2 -ℤ s.dirty_x1 +ℤ pos 1)
              (s.dirty_y2 -ℤ s.dirty_y1 +ℤ pos 1) x y s.gfx)
        | inr e ↦ rw e refl
      ]

below_clipped :
    (dest : ℤ) (max screen i : ℕ)
    → i < max
    → on_screen (dest +ℤ pos i) screen ≡ true
    → i < clipped dest max screen
below_clipped (pos n) max screen i h on = ground arith
below_clipped (negsuc n) max screen i h on = ground arith

before_end :
    (dest : ℤ) (screen i : ℕ)
    → on_screen (dest +ℤ pos i) screen ≡ true
    → leb_ℤ (pos screen) dest ≡ false
before_end (pos n) screen i on = ground arith
before_end (negsuc n) screen i on = ground arith

-- The place (`i`, `j`) of the area is on the screen, and on the surface that is drawn on.
abbrev pub IsShown : Gfx → ℤ → ℤ → ℕ → ℕ → Type 0
IsShown g dest_x dest_y i j =
    (on_screen (dest_x +ℤ pos i) g.width ≡ true)
    × (on_screen (dest_y +ℤ pos j) g.height ≡ true)
    × (off_surface (dest_x +ℤ pos i) (dest_y +ℤ pos j) g.active_width g.active_height ≡ false)

-- The colour that the frame holds for that place.
abbrev pub source_color : ByteMem → (bgif_data : ℕ) → Header → ℤ → (max_w max_h i j : ℕ) → ℕ
source_color m bgif_data header current_frame max_w max_h i j =
    frame_color m (bgif_data + frame_offset current_frame header) header
      (i * (header.width * 2 ^ 16 / max_w) % 2 ^ 32) (j * (header.height * 2 ^ 16 / max_h) % 2 ^ 32)

sum_from_zero : (step d : ℕ) → sum_after step 0 d ≡ d * step % 2 ^ 32
sum_from_zero step d = sum_after_lem step 0 d (omega arith) ∙ ap (λ t. t % 2 ^ 32) (omega arith)

not_past :
    (g : Gfx) (dest_x dest_y : ℤ) (i j : ℕ)
    → IsShown g dest_x dest_y i j
    → is_past g dest_x dest_y ≡ false
not_past g dest_x dest_y i j (on, on_y, off) =
    rw (before_end dest_x g.width i on, before_end dest_y g.height j on_y) refl

some_area : (a b i j : ℕ) → i < a → j < b → (a == 0) || (b == 0) ≡ false
some_area a b i j h h' = ground arith

module _ (m : ByteMem) (bgif_data : ℕ) (header : Header) (current_frame dest_x dest_y : ℤ)
    (max_w max_h : ℕ) (p : Player) where
  abbrev the_sweep : Sweep
  the_sweep =
      sweep_frame m bgif_data header current_frame dest_x dest_y max_w max_h
        (clipped dest_x max_w p.gfx.width) (clipped dest_y max_h p.gfx.height) p

  closed_sums :
      (i j : ℕ)
      → frame_color m
          (bgif_data + frame_offset current_frame header)
          header
          (sum_after (header.width * 2 ^ 16 / max_w) 0 i)
          (sum_after (header.height * 2 ^ 16 / max_h) 0 j)
        ≡ source_color m bgif_data header current_frame max_w max_h i j
  closed_sums i j =
      rw
        (
          sum_from_zero (header.width * 2 ^ 16 / max_w) i,
          sum_from_zero (header.height * 2 ^ 16 / max_h) j,
        )
        refl

  draw_frame-Near :
      (i j : ℕ)
      → i < max_w
      → j < max_h
      → IsShown p.gfx dest_x dest_y i j
      → Near
          (source_color m bgif_data header current_frame max_w max_h i j)
          (dest_x +ℤ pos i)
          (dest_y +ℤ pos j)
          (draw_frame m bgif_data header current_frame dest_x dest_y max_w max_h p).gfx
  unfolding draw_frame sweep_frame
  draw_frame-Near i j hi hj (on, on_y, off) =
      let w = below_clipped dest_x max_w p.gfx.width i hi on in
      let h = below_clipped dest_y max_h p.gfx.height j hj on_y in
      rw (some_area (clipped dest_x max_w p.gfx.width) (clipped dest_y max_h p.gfx.height) i j w h)
        (near_from _ _ _ (mark_changes-get (dest_x +ℤ pos i) (dest_y +ℤ pos j) (the_sweep)) (
          subst
            (λ c.
              delta c (gfx_get_pixel (dest_x +ℤ pos i) (dest_y +ℤ pos j) the_sweep.gfx)
              ≤ delta_threshold)
            (closed_sums i j)
            (sweep_lines-Near (frame_color m (bgif_data + frame_offset current_frame header) header)
              (force_full_redraw p.last_drawn_frame current_frame) p.gfx.width p.gfx.height dest_x
              dest_y (clipped dest_x max_w p.gfx.width) (header.width * 2 ^ 16 / max_w)
              (header.height * 2 ^ 16 / max_h) 0 0 (clipped dest_y max_h p.gfx.height) _ j j i h
              (omega arith) w on on_y off)))

-- A frame that `bgif_draw_frame` does not refuse (its result is not 0) is on the screen afterwards:
-- at each place of the area that is on the screen and on the surface, the three channels of the
-- pixel differ from those of the frame's colour for that place by 12 in all, at most.
pub bgif_draw_frame-Near :
    (m : ByteMem) (bgif_data file_size : ℕ) (frame_idx dest_x dest_y : ℤ) (max_w max_h : ℕ)
    (p : Player) (i j : ℕ)
    → (bgif_draw_frame m bgif_data file_size frame_idx dest_x dest_y max_w max_h p).0 ≢ 0
    → i < max_w
    → j < max_h
    → IsShown p.gfx dest_x dest_y i j
    → (let header = read_header m bgif_data in
        let current_frame = rem_ℤ frame_idx header.frame_count in
        Near
          (source_color m bgif_data header current_frame max_w max_h i j)
          (dest_x +ℤ pos i)
          (dest_y +ℤ pos j)
          (bgif_draw_frame m bgif_data file_size frame_idx dest_x dest_y max_w max_h p).1.gfx)
unfolding bgif_draw_frame
bgif_draw_frame-Near m bgif_data file_size frame_idx dest_x dest_y max_w max_h p i j ok hi hj
      shown =
    let header = read_header m bgif_data in
    let current_frame = rem_ℤ frame_idx header.frame_count in
    elim (Bool-cases (is_refused m bgif_data file_size current_frame header max_w max_h)) [
      | inl e ↦ absurd (ok (rw e refl))
      | inr e ↦
          rw (e, not_past p.gfx dest_x dest_y i j shown)
            (draw_frame-Near m bgif_data header current_frame dest_x dest_y max_w max_h p i j hi hj
              shown)
    ]
