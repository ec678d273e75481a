-- ===== src/Gfx/Blit.antt =====
-- `gfx_blit` of src/gfx.c: which pixels of the source it brings where, however it is clipped.
use meu_so_baremetal.Prelude.{
  ℕ, ◌+◌, ◌-◌, ◌*◌, ◌≤◌, ◌<◌, ◌≡◌, ◌≢◌, ◌⊎◌, inl, inr, ◌∙◌, true, false, ◌&&◌, ◌==◌, if◌then◌else◌,
  arith, refl, Bool-cases,
}
use meu_so_baremetal.Prelude.Int.{ℤ, pos, negsuc, pos_part, neg_part, ◌-ℤ◌}
use meu_so_baremetal.Gfx.{Gfx, Words, gfx_blit, misses, copy_lines}
use meu_so_baremetal.Gfx.Rows.{OutsideOf, copy_lines_lem, copy_lines_outside}
use meu_so_baremetal.Gfx.Draw.{
  gfx_mark_dirty-words, target_at, inside, spans, clipped, spans-clipped, clipped_fits, hits,
  misses-inside, line_bytes,
}

abbrev pub blit_words : ℕ → ℤ → ℤ → ℕ → ℕ → Gfx → Words
blit_words src dx dy w h g =
    copy_lines (g.active_buffer + pos_part dx) g.active_width (src + neg_part dx) w
      (clipped dx w g.active_width * 4) (pos_part dy) (neg_part dy) (clipped dy h g.active_height)
      g.words

pub gfx_blit-words :
    (src : ℕ) (dx dy : ℤ) (w h : ℕ) (g : Gfx)
    → src ≢ 0
    → misses dx dy (pos w) (pos h) g ≡ false
    → (gfx_blit src dx dy w h g).words ≡ blit_words src dx dy w h g
unfolding gfx_blit
gfx_blit-words src dx dy w h g from m =
    let (hx, hy) = hits dx dy w h g m in
    let some_source : (src == 0) ≡ false = ground arith in
    elim (Bool-cases (g.active_buffer == g.back_buffer)) [
      | inl e ↦ rw (some_source, m, e, gfx_mark_dirty-words, line_bytes dx w g.active_width hx) refl
      | inr e ↦ rw (some_source, m, e, line_bytes dx w g.active_width hx) refl
    ]

pub gfx_blit-misses :
    (src : ℕ) (dx dy : ℤ) (w h : ℕ) (g : Gfx)
    → misses dx dy (pos w) (pos h) g ≡ true
    → gfx_blit src dx dy w h g ≡ g
unfolding gfx_blit
gfx_blit-misses src dx dy w h g m = elim (Bool-cases (src == 0)) [
  | inl e ↦ rw e refl
  | inr e ↦ rw (e, m) refl
]

-- The word of the source that belongs to column `c` and row `r` of the target.
abbrev pub source_at : ℕ → ℤ → ℤ → ℕ → ℕ → ℕ → ℕ
source_at src dx dy w c r = src + (pos_part (pos r -ℤ dy) * w + pos_part (pos c -ℤ dx))

offset_of :
    (x : ℤ) (n c : ℕ) → spans x n c ≡ true → neg_part x + (c - pos_part x) ≡ pos_part (pos c -ℤ x)
offset_of (pos x) n c h = ground arith
offset_of (negsuc x) n c h = ground arith

source_word :
    (m : Words) (src : ℕ) (dx dy : ℤ) (w h c r : ℕ)
    → spans dx w c ≡ true
    → spans dy h r ≡ true
    → m (src + ((neg_part dy + (r - pos_part dy)) * w + (neg_part dx + (c - pos_part dx))))
      ≡ m (source_at src dx dy w c r)
source_word m src dx dy w h c r p q = rw (offset_of dx w c p, offset_of dy h r q) refl

blit_cases :
    (m : Words) (src : ℕ) (dx dy : ℤ) (w h c r old : ℕ)
    → (if spans dy h r && spans dx w c
        then m (src + ((neg_part dy + (r - pos_part dy)) * w + (neg_part dx + (c - pos_part dx))))
        else old)
      ≡ (if inside dx dy w h c r then m (source_at src dx dy w c r) else old)
blit_cases m src dx dy w h c r old = elim (Bool-cases (spans dy h r)) [
  | inl p ↦ elim (Bool-cases (spans dx w c)) [
    | inl q ↦ rw (p, q) (source_word m src dx dy w h c r q p)
    | inr q ↦ rw (p, q) refl
  ]
  | inr p ↦ rw p refl
]

-- `gfx_blit` puts each pixel of the source picture that falls on the target there, changes no
-- other pixel of the target and no word outside of it, if source and target do not overlap.
pub gfx_blit_lem :
    (src : ℕ) (dx dy : ℤ) (w h : ℕ) (g : Gfx)
    → g.active_buffer ≢ 0
    → src ≢ 0
    → (src + h * w ≤ g.active_buffer) ⊎ (g.active_buffer + g.active_height * g.active_width ≤ src)
    → ((c r : ℕ)
        → c < g.active_width
        → r < g.active_height
        → (gfx_blit src dx dy w h g).words (target_at g c r) ≡ (
            if inside dx dy w h c r
            then g.words (source_at src dx dy w c r)
            else g.words (target_at g c r)))
      × ((a : ℕ)
          → OutsideOf g.active_buffer (g.active_height * g.active_width) a
          → (gfx_blit src dx dy w h g).words a ≡ g.words a)
gfx_blit_lem src dx dy w h g set from apart = elim (Bool-cases (misses dx dy (pos w) (pos h) g)) [
  | inl m ↦ (
    λ c r hc hr. rw (gfx_blit-misses src dx dy w h g m, misses-inside dx dy w h c r g m hc hr) refl,
    λ a out. rw (gfx_blit-misses src dx dy w h g m) refl,
  )
  | inr m ↦
      let (hx, hy) = hits dx dy w h g m in
      let fx = clipped_fits dx w g.active_width hx.0 hx.1 in
      let fy = clipped_fits dy h g.active_height hy.0 hy.1 in
      (
        λ c r hc hr. rw (gfx_blit-words src dx dy w h g from m) (
            copy_lines_lem g.active_buffer g.active_width (pos_part dx)
              (clipped dx w g.active_width) src w (neg_part dx) set from fx.0 fx.2 g.active_height h
              apart (pos_part dy) (neg_part dy) (clipped dy h g.active_height) r c g.words fy.0 fy.2
              hc
            ∙ rw
                (
                  spans-clipped dx w g.active_width c hx.0 hx.1 hc,
                  spans-clipped dy h g.active_height r hy.0 hy.1 hr,
                )
                (blit_cases g.words src dx dy w h c r (g.words (target_at g c r)))),
        λ a out. rw (gfx_blit-words src dx dy w h g from m) (
            copy_lines_outside g.active_buffer g.active_width (pos_part dx)
              (clipped dx w g.active_width) src w (neg_part dx) set from fx.0 fx.2 g.active_height h
              apart (pos_part dy) (neg_part dy) (clipped dy h g.active_height) a g.words fy.0 fy.2
              out),
      )
]
