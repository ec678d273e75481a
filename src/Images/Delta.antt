-- ===== src/Images/Delta.antt =====
-- After a line or a frame of src/bgif.c, what is on the surface is near what the frame holds.
use mathlib.Core.Path.{subst}
use meu_so_baremetal.Prelude.{
  ℕ, zero, suc, ◌+◌, ◌*◌, ◌%◌, ◌^◌, ◌≤◌, ◌<◌, ◌≡◌, ◌≢◌, ◌⊎◌, inl, inr, ◌∙◌, Bool, true, false, ◌&&◌,
  not, leb, ◌==◌, if◌then◌else◌, arith, refl, ap, sym, Bool-cases,
}
use meu_so_baremetal.Prelude.Int.{ℤ, pos, ◌+ℤ◌}
use meu_so_baremetal.Gfx.{Gfx, gfx_put_pixel, gfx_get_pixel, off_surface, gfx_mark_dirty, widen}
use meu_so_baremetal.Gfx.Pixels.{eq_ℤ, gfx_get_pixel-gfx_put_pixel}
use meu_so_baremetal.Images.Animation.{Sweep, delta, delta_threshold, on_screen, visit, sweep_line}

-- `color` and the pixel at (`x`, `y`) differ by no more than the threshold.
abbrev pub Near : ℕ → ℤ → ℤ → Gfx → Type 0
Near color x y g = delta color (gfx_get_pixel x y g) ≤ delta_threshold

delta_self : (c : ℕ) → delta c c ≡ 0
delta_self c = omega arith

near_same : (c o : ℕ) → o ≡ c → delta c o ≤ delta_threshold
near_same c o e = let d = delta_self c in omega arith

eq_ℤ_self : (x : ℤ) → eq_ℤ x x ≡ true
eq_ℤ_self x = ground arith

pub put_here :
    (x y : ℤ) (c : ℕ) (g : Gfx)
    → off_surface x y g.active_width g.active_height ≡ false
    → gfx_get_pixel x y (gfx_put_pixel x y c g) ≡ c
put_here x y c g off =
    gfx_get_pixel-gfx_put_pixel x y x y c g ∙ rw (off, eq_ℤ_self x, eq_ℤ_self y) refl

pub put_far :
    (x y x' y' : ℤ) (c : ℕ) (g : Gfx)
    → eq_ℤ x x' && eq_ℤ y y' ≡ false
    → gfx_get_pixel x' y' (gfx_put_pixel x y c g) ≡ gfx_get_pixel x' y' g
put_far x y x' y' c g e =
    gfx_get_pixel-gfx_put_pixel x y x' y' c g
    ∙ ap
        (λ t.
          if not (off_surface x y g.active_width g.active_height) && t
          then c
          else gfx_get_pixel x' y' g)
        e
    ∙ only_false (off_surface x y g.active_width g.active_height) c (gfx_get_pixel x' y' g)
  where
    only_false : (b : Bool) (u v : ℕ) → (if not b && false then u else v) ≡ v
    only_false true u v = refl
    only_false false u v = refl

pub put_off :
    (x y x' y' : ℤ) (c : ℕ) (g : Gfx)
    → off_surface x' y' (gfx_put_pixel x y c g).active_width (gfx_put_pixel x y c g).active_height
      ≡ off_surface x' y' g.active_width g.active_height
unfolding gfx_put_pixel gfx_mark_dirty widen
put_off x y x' y' c g = elim (Bool-cases (off_surface x y g.active_width g.active_height)) [
  | inl o ↦ rw o refl
  | inr o ↦ elim (Bool-cases (g.active_buffer == g.back_buffer)) [
    | inl b ↦ rw (o, b) refl
    | inr b ↦ rw (o, b) refl
  ]
]

-- A visit leaves all as it was, or puts the pixel.
visit_cases :
    (full : Bool) (sw : ℕ) (x y : ℤ) (c : ℕ) (s : Sweep)
    → ((visit full sw x y c s).gfx ≡ s.gfx)
      ⊎ ((visit full sw x y c s).gfx ≡ gfx_put_pixel x y c s.gfx)
unfolding visit
visit_cases full sw x y c s = elim (Bool-cases (on_screen x sw)) [
  | inr o ↦ inl (rw o refl)
  | inl o ↦
      elim (Bool-cases (not full && leb (delta c (gfx_get_pixel x y s.gfx)) delta_threshold)) [
        | inl t ↦ inl (rw (o, t) refl)
        | inr t ↦ inr (rw (o, t) refl)
      ]
]

visit_far :
    (full : Bool) (sw : ℕ) (x y x' y' : ℤ) (c : ℕ) (s : Sweep)
    → eq_ℤ x x' && eq_ℤ y y' ≡ false
    → gfx_get_pixel x' y' (visit full sw x y c s).gfx ≡ gfx_get_pixel x' y' s.gfx
visit_far full sw x y x' y' c s e = elim (visit_cases full sw x y c s) [
  | inl v ↦ ap (gfx_get_pixel x' y') v
  | inr v ↦ ap (gfx_get_pixel x' y') v ∙ put_far x y x' y' c s.gfx e
]

visit_off :
    (full : Bool) (sw : ℕ) (x y x' y' : ℤ) (c : ℕ) (s : Sweep)
    → (let g = (visit full sw x y c s).gfx in off_surface x' y' g.active_width g.active_height)
      ≡ off_surface x' y' s.gfx.active_width s.gfx.active_height
visit_off full sw x y x' y' c s = elim (visit_cases full sw x y c s) [
  | inl v ↦ ap (λ g. off_surface x' y' g.active_width g.active_height) v
  | inr v ↦ ap (λ g. off_surface x' y' g.active_width g.active_height) v ∙ put_off x y x' y' c s.gfx
]

visit-Near :
    (full : Bool) (sw : ℕ) (x y : ℤ) (c : ℕ) (s : Sweep)
    → on_screen x sw ≡ true
    → off_surface x y s.gfx.active_width s.gfx.active_height ≡ false
    → Near c x y (visit full sw x y c s).gfx
unfolding visit
visit-Near full sw x y c s on off =
    elim (Bool-cases (not full && leb (delta c (gfx_get_pixel x y s.gfx)) delta_threshold)) [
      | inl e ↦ rw (on, e) (within_threshold full _ e)
      | inr e ↦ rw (on, e) (near_same c _ (put_here x y c s.gfx off))
    ]
  where
    within_threshold :
        (b : Bool) (d : ℕ) → not b && leb d delta_threshold ≡ true → d ≤ delta_threshold
    within_threshold b d h = ground arith

-- A sum of the fixed-point loop after `d` more rounds.
unfoldable pub sum_after : (step curr d : ℕ) → ℕ
sum_after step curr zero = curr
sum_after step curr (suc d) = sum_after step ((curr + step) % 2 ^ 32) d

sum_step :
    (u d step curr : ℕ)
    → u ≡ curr + step
    → (u % 2 ^ 32 + d * step) % 2 ^ 32 ≡ (curr + suc d * step) % 2 ^ 32
sum_step u d step curr e = let f : suc d * step ≡ step + d * step = ground arith in omega arith

pub sum_after_lem :
    (step curr d : ℕ) → curr < 2 ^ 32 → sum_after step curr d ≡ (curr + d * step) % 2 ^ 32
unfolding sum_after
sum_after_lem step curr zero h = ground arith
sum_after_lem step curr (suc d) h =
    sum_after_lem step ((curr + step) % 2 ^ 32) d (omega arith)
    ∙ sum_step (curr + step) d step curr refl

-- What is read decides what is near.
pub near_from : (c o o' : ℕ) → o' ≡ o → delta c o ≤ delta_threshold → delta c o' ≤ delta_threshold
near_from c o o' e h = subst (λ v. delta c v ≤ delta_threshold) (sym e) h

-- Places of a line are different, and so are lines.
pub other_place : (x : ℤ) (i j : ℕ) → i ≢ j → eq_ℤ (x +ℤ pos i) (x +ℤ pos j) ≡ false
other_place x i j h = ground arith

module _ (color : ℕ → ℕ) (full : Bool) (sw : ℕ) (dest_x y : ℤ) (step : ℕ) where
  pub sweep_line_far :
      (px curr n : ℕ) (s : Sweep) (x' y' : ℤ)
      → ((i : ℕ) → px ≤ i → eq_ℤ (dest_x +ℤ pos i) x' && eq_ℤ y y' ≡ false)
      → gfx_get_pixel x' y' (sweep_line color full sw dest_x y step px curr n s).gfx
        ≡ gfx_get_pixel x' y' s.gfx
  unfolding sweep_line
  sweep_line_far px curr zero s x' y' far = refl
  sweep_line_far px curr (suc n) s x' y' far =
      sweep_line_far (px + 1) ((curr + step) % 2 ^ 32) n
        (visit full sw (dest_x +ℤ pos px) y (color curr) s) x' y' (λ i h. far i (omega arith))
      ∙ visit_far full sw (dest_x +ℤ pos px) y x' y' (color curr) s (far px (omega arith))

  pub sweep_line_off :
      (px curr n : ℕ) (s : Sweep) (x' y' : ℤ)
      → (let g = (sweep_line color full sw dest_x y step px curr n s).gfx in
          off_surface x' y' g.active_width g.active_height)
        ≡ off_surface x' y' s.gfx.active_width s.gfx.active_height
  unfolding sweep_line
  sweep_line_off px curr zero s x' y' = refl
  sweep_line_off px curr (suc n) s x' y' =
      sweep_line_off (px + 1) ((curr + step) % 2 ^ 32) n
        (visit full sw (dest_x +ℤ pos px) y (color curr) s) x' y'
      ∙ visit_off full sw (dest_x +ℤ pos px) y x' y' (color curr) s

  pub sweep_line-Near :
      (px curr n : ℕ) (s : Sweep) (d i : ℕ)
      → d < n
      → i ≡ px + d
      → on_screen (dest_x +ℤ pos i) sw ≡ true
      → off_surface (dest_x +ℤ pos i) y s.gfx.active_width s.gfx.active_height ≡ false
      → Near
          (color (sum_after step curr d))
          (dest_x +ℤ pos i)
          y
          (sweep_line color full sw dest_x y step px curr n s).gfx
  unfolding sweep_line sum_after
  sweep_line-Near px curr zero s d i h e on off = absurd (omega arith)
  sweep_line-Near px curr (suc n) s zero i h e on off =
      near_from _ _ _
        (sweep_line_far (px + 1) ((curr + step) % 2 ^ 32) n
          (visit full sw (dest_x +ℤ pos px) y (color curr) s) (dest_x +ℤ pos i) y
          (λ j hj.
            ap (λ t. t && eq_ℤ y y) (other_place dest_x j i (λ (q : j ≡ i). absurd (omega arith)))))
        (subst
          (λ k.
            Near (color curr) (dest_x +ℤ pos i) y
              (visit full sw (dest_x +ℤ pos k) y (color curr) s).gfx)
          (omega arith) (visit-Near full sw (dest_x +ℤ pos i) y (color curr) s on off))
  sweep_line-Near px curr (suc n) s (suc d) i h e on off =
      sweep_line-Near (px + 1) ((curr + step) % 2 ^ 32) n
        (visit full sw (dest_x +ℤ pos px) y (color curr) s) d i (omega arith) (omega arith) on
        (visit_off full sw (dest_x +ℤ pos px) y (dest_x +ℤ pos i) y (color curr) s ∙ off)
