-- ===== src/Gfx/Alpha.antt =====
-- Blending in src/gfx.c: each channel of the result lies between those of the two colours.
use native.Mathlib.Nat.{mul-add}
use meu_so_baremetal.Prelude.{
  sym, ap, ◌∙◌, ℕ, ◌+◌, ◌-◌, ◌*◌, ◌≤◌, ◌≡◌, ◌⊎◌, inl, inr, ◌==◌, arith, Bool-cases,
}
use meu_so_baremetal.Gfx.{channel, blend, pack, mix}

abbrev pub Between : ℕ → ℕ → ℕ → Type 0
Between a b x = ((a ≤ x) × (x ≤ b)) ⊎ ((b ≤ x) × (x ≤ a))

scale_le : (a b k : ℕ) → a ≤ b → a * k ≤ b * k
scale_le a b k h = grind arith

whole : (v alpha : ℕ) → alpha ≤ 255 → v * alpha + v * (255 - alpha) ≡ v * 255
whole v alpha h = sym (mul-add v alpha (255 - alpha)) ∙ ap (◌*◌ v) (omega arith)

blend-Between : (alpha fg bg : ℕ) → alpha ≤ 255 → Between fg bg (blend alpha fg bg)
unfolding blend
blend-Between alpha fg bg h = ground (
  arith,
  scale_le fg bg alpha,
  scale_le bg fg alpha,
  scale_le fg bg (255 - alpha),
  scale_le bg fg (255 - alpha),
  whole fg alpha h,
  whole bg alpha h,
)

channel_bound : (color shift : ℕ) → channel color shift ≤ 255
channel_bound color shift = omega arith

Between-bound : (a b x : ℕ) → Between a b x → a ≤ 255 → b ≤ 255 → x ≤ 255
Between-bound a b x h p q = omega (arith, h)

pack_channels :
    (r g b : ℕ)
    → r ≤ 255
    → g ≤ 255
    → b ≤ 255
    → (channel (pack r g b) 16 ≡ r) × (channel (pack r g b) 8 ≡ g) × (channel (pack r g b) 0 ≡ b)
pack_channels r g b hr hg hb = omega arith

-- Each channel of a blended colour lies between that of the colour and that of the ground: none
-- runs over into the next one.
pub mix-Between :
    (alpha color bg : ℕ)
    → alpha ≤ 255
    → Between (channel color 16) (channel bg 16) (channel (mix alpha color bg) 16)
      × Between (channel color 8) (channel bg 8) (channel (mix alpha color bg) 8)
      × Between (channel color 0) (channel bg 0) (channel (mix alpha color bg) 0)
unfolding mix
mix-Between alpha color bg h = elim (Bool-cases (alpha == 255)) [
  | inl e ↦ rw e (omega arith, omega arith, omega arith)
  | inr e ↦
      let r = blend-Between alpha (channel color 16) (channel bg 16) h in
      let g = blend-Between alpha (channel color 8) (channel bg 8) h in
      let b = blend-Between alpha (channel color 0) (channel bg 0) h in
      let (pr, pg, pb) =
        pack_channels _ _ _ (Between-bound _ _ _ r (channel_bound color 16) (channel_bound bg 16))
          (Between-bound _ _ _ g (channel_bound color 8) (channel_bound bg 8))
          (Between-bound _ _ _ b (channel_bound color 0) (channel_bound bg 0)) in
      rw (e, pr, pg, pb) (r, g, b)
]
