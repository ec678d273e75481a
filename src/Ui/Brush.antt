-- ===== src/Ui/Brush.antt =====
-- The brush of the paint window of src/ui.c: which pixels of the canvas it colours.
use meu_so_baremetal.Prelude.{
  ℕ, ◌+◌, ◌*◌, ◌≤◌, ◌<◌, ◌≡◌, ◌∙◌, Bool, true, false, ◌&&◌, leb, ◌==◌, if◌then◌else◌, arith, refl,
}
use meu_so_baremetal.Ui.Pointer.{brush, dab, dab_row}

-- At most one apart.
abbrev pub near : ℕ → ℕ → Bool
near a b = leb a (b + 1) && leb b (a + 1)

dab_lem :
    (x1 y1 color : ℕ) (canvas : ℕ → ℕ) (c r : ℕ)
    → c < 160
    → r < 120
    → dab x1 y1 color canvas (r * 160 + c)
      ≡ (if (x1 == c + 1) && (y1 == r + 1) then color else canvas (r * 160 + c))
dab_lem x1 y1 color canvas c r hc hr = ground arith

dab_row_lem :
    (p_x y1 color : ℕ) (canvas : ℕ → ℕ) (c r : ℕ)
    → c < 160
    → r < 120
    → dab_row p_x y1 color canvas (r * 160 + c)
      ≡ (if near p_x c && (y1 == r + 1) then color else canvas (r * 160 + c))
dab_row_lem p_x y1 color canvas c r hc hr =
    let m1 : ℕ → ℕ = dab p_x y1 color canvas in
    let m2 : ℕ → ℕ = dab (p_x + 1) y1 color m1 in
    dab_lem (p_x + 2) y1 color m2 c r hc hr
    ∙ ground (arith, dab_lem (p_x + 1) y1 color m1 c r hc hr, dab_lem p_x y1 color canvas c r hc hr)

dab_outside :
    (x1 y1 color : ℕ) (canvas : ℕ → ℕ) (i : ℕ) → 160 * 120 ≤ i → dab x1 y1 color canvas i ≡ canvas i
dab_outside x1 y1 color canvas i h = ground arith

dab_row_outside :
    (p_x y1 color : ℕ) (canvas : ℕ → ℕ) (i : ℕ)
    → 160 * 120 ≤ i
    → dab_row p_x y1 color canvas i ≡ canvas i
dab_row_outside p_x y1 color canvas i h =
    dab_outside (p_x + 2) y1 color (dab (p_x + 1) y1 color (dab p_x y1 color canvas)) i h
    ∙ (dab_outside (p_x + 1) y1 color (dab p_x y1 color canvas) i h
        ∙ dab_outside p_x y1 color canvas i h)

three_rows :
    (n : Bool) (p r color old : ℕ)
    → (if n && (p + 2 == r + 1)
        then color
        else if n && (p + 1 == r + 1)
        then color
        else if n && (p == r + 1)
        then color
        else old)
      ≡ (if n && near p r then color else old)
three_rows true p r color old = ground arith
three_rows false p r color old = refl

-- Wherever the brush is, it colours exactly the pixels of the canvas of 160 by 120 that are at most
-- one column and one row away, and writes nothing behind the canvas.
pub brush_lem :
    (p_x p_y color : ℕ) (canvas : ℕ → ℕ)
    → ((c r : ℕ)
        → c < 160
        → r < 120
        → brush p_x p_y color canvas (r * 160 + c)
          ≡ (if near p_x c && near p_y r then color else canvas (r * 160 + c)))
      × ((i : ℕ) → 160 * 120 ≤ i → brush p_x p_y color canvas i ≡ canvas i)
unfolding brush
brush_lem p_x p_y color canvas =
    let m1 : ℕ → ℕ = dab_row p_x p_y color canvas in
    let m2 : ℕ → ℕ = dab_row p_x (p_y + 1) color m1 in
    (
      λ c r hc hr.
          dab_row_lem p_x (p_y + 2) color m2 c r hc hr
          ∙ rw
              (
                dab_row_lem p_x (p_y + 1) color m1 c r hc hr,
                dab_row_lem p_x p_y color canvas c r hc hr,
              )
              (three_rows (near p_x c) p_y r color (canvas (r * 160 + c))),
      λ i h.
          dab_row_outside p_x (p_y + 2) color m2 i h
          ∙ (dab_row_outside p_x (p_y + 1) color m1 i h ∙ dab_row_outside p_x p_y color canvas i h),
    )
