-- ===== src/Gfx/Swap.antt =====
-- `gfx_swap_buffers` of src/gfx.c: the copy of the dirty rectangle brings the whole screen up to date.
use meu_so_baremetal.Prelude.{
  ℕ, ◌+◌, ◌-◌, ◌*◌, ◌/◌, ◌≤◌, ◌<◌, ◌≡◌, ◌⊎◌, inl, inr, ◌∙◌, true, false, ◌&&◌, ◌||◌, not, leb, ltb,
  ◌==◌, if◌then◌else◌, arith, refl, sym, Bool-cases,
}
use meu_so_baremetal.Klibc.{within}
use meu_so_baremetal.Gfx.{
  Gfx, Words, gfx_swap_buffers, show, after_swap, gfx_is_dirty, kmemcpy128_words, copy_lines,
}
use meu_so_baremetal.Gfx.Lines.{kmemcpy128_words_lem}
use meu_so_baremetal.Gfx.Rows.{OutsideOf, rows_fit, copy_lines_lem, copy_lines_outside}
use meu_so_baremetal.Gfx.Dirty.{is_dirty_at}
use meu_so_baremetal.Gfx.Valid.{IsValid, cell_outside}

-- `m` has on the screen what the back buffer has, and is else as before.
pub record Shows (g : Gfx) (m : Words) : Type 0 where
  pub shown :
      (c r : ℕ)
      → c < g.width
      → r < g.height
      → m (g.framebuffer + (r * g.width + c)) ≡ g.words (g.back_buffer + (r * g.width + c))
  pub outside : (a : ℕ) → OutsideOf g.framebuffer (g.height * g.width) a → m a ≡ g.words a

same_word :
    (m : Words) (b x y w c r : ℕ)
    → x ≤ c
    → y ≤ r
    → m (b + ((y + (r - y)) * w + (x + (c - x)))) ≡ m (b + (r * w + c))
same_word m b x y w c r hx hy =
    let ex : x + (c - x) ≡ c = omega arith in
    let ey : y + (r - y) ≡ r = omega arith in rw (ex, ey) refl

module _ (g : Gfx) (v : IsValid g) where
  clean-Shows : ((c r : ℕ) → is_dirty_at g c r ≡ false) → Shows g g.words
  clean-Shows clean = record {
    shown = λ c r hc hr. v.synced c r hc hr (clean c r);
    outside = λ a out. refl;
  }

  whole-Shows :
      Shows g (kmemcpy128_words g.framebuffer g.back_buffer (g.total_pixels_64 * 4 / 16) g.words)
  whole-Shows = record {
    shown = λ c r hc hr.
        copied (g.framebuffer + (r * g.width + c))
        ∙ ground (arith, v.total, v.quads, rows_fit g.width r g.height hr);
    outside = λ a out. copied a ∙ ground (arith, v.total, v.quads);
  }
    where
      copied :
          (a : ℕ)
          → kmemcpy128_words g.framebuffer g.back_buffer (g.total_pixels_64 * 4 / 16) g.words a ≡ (
              if within g.framebuffer (4 * (g.total_pixels_64 * 4 / 16)) a
              then g.words (g.back_buffer + (a - g.framebuffer))
              else g.words a)
      copied a =
          kmemcpy128_words_lem g.framebuffer g.back_buffer (g.total_pixels_64 * 4 / 16) g.words a
            v.screen v.back (omega (arith, v.apart, v.total, v.quads))

  copied_or_clean :
      (c r : ℕ)
      → c < g.width
      → r < g.height
      → ltb g.dirty_min_x g.dirty_max_x ≡ true
      → ltb g.dirty_min_y g.dirty_max_y ≡ true
      → (if within g.dirty_min_y (g.dirty_max_y - g.dirty_min_y) r
            && within g.dirty_min_x (g.dirty_max_x - g.dirty_min_x) c
          then g.words (
              g.back_buffer
              + ((g.dirty_min_y + (r - g.dirty_min_y)) * g.width
                  + (g.dirty_min_x + (c - g.dirty_min_x))))
          else g.words (g.framebuffer + (r * g.width + c)))
        ≡ g.words (g.back_buffer + (r * g.width + c))
  copied_or_clean c r hc hr wide high =
      elim (Bool-cases (
        within g.dirty_min_y (g.dirty_max_y - g.dirty_min_y) r
        && within g.dirty_min_x (g.dirty_max_x - g.dirty_min_x) c)) [
          | inl e ↦ rw e (
              same_word g.words g.back_buffer g.dirty_min_x g.dirty_min_y g.width c r (ground arith)
                (ground arith))
          | inr e ↦ rw e (v.synced c r hc hr (ground arith))
        ]

  part-Shows :
      ltb g.dirty_min_x g.dirty_max_x ≡ true
      → ltb g.dirty_min_y g.dirty_max_y ≡ true
      → Shows g (
          copy_lines
            (g.framebuffer + g.dirty_min_x)
            g.width
            (g.back_buffer + g.dirty_min_x)
            g.width
            ((g.dirty_max_x - g.dirty_min_x) * 4)
            g.dirty_min_y
            g.dirty_min_y
            (g.dirty_max_y - g.dirty_min_y)
            g.words)
  part-Shows wide high =
      let bw = g.dirty_max_x - g.dirty_min_x in
      let bh = g.dirty_max_y - g.dirty_min_y in
      let fits : g.dirty_min_x + bw ≤ g.width = ground (arith, v.max_x) in
      let low : g.dirty_min_y + bh ≤ g.height = ground (arith, v.max_y) in
      let apart : (g.back_buffer + g.height * g.width ≤ g.framebuffer)
          ⊎ (g.framebuffer + g.height * g.width ≤ g.back_buffer) =
        omega (arith, v.apart) in
      record {
        shown = λ c r hc hr.
            copy_lines_lem g.framebuffer g.width g.dirty_min_x bw g.back_buffer g.width
              g.dirty_min_x v.screen v.back fits fits g.height g.height apart g.dirty_min_y
              g.dirty_min_y bh r c g.words low low hc
            ∙ copied_or_clean c r hc hr wide high;
        outside = λ a out.
            copy_lines_outside g.framebuffer g.width g.dirty_min_x bw g.back_buffer g.width
              g.dirty_min_x v.screen v.back fits fits g.height g.height apart g.dirty_min_y
              g.dirty_min_y bh a g.words low low out;
      }

  show-Shows :
      ltb g.dirty_min_x g.dirty_max_x ≡ true
      → ltb g.dirty_min_y g.dirty_max_y ≡ true
      → Shows g (show g)
  unfolding show
  show-Shows wide high =
      elim (Bool-cases (
        (g.dirty_max_x - g.dirty_min_x == g.active_width)
        && (g.dirty_max_y - g.dirty_min_y == g.active_height))) [
          | inl e ↦ rw e whole-Shows
          | inr e ↦ rw e (part-Shows wide high)
        ]

  after_swap-IsValid : (m : Words) → Shows g m → IsValid (after_swap (record g { words = m }))
  after_swap-IsValid m s = record {
    screen = v.screen;
    back = v.back;
    total = v.total;
    quads = v.quads;
    apart = v.apart;
    target = inl (refl, refl, refl);
    max_x = omega arith;
    max_y = omega arith;
    idle = λ e. refl;
    synced = λ c r hc hr d.
        s.shown c r hc hr
        ∙ sym (
            s.outside _ (
              cell_outside g.framebuffer g.height g.width g.back_buffer (g.height * g.width) c r
                v.apart hc hr));
  }

-- After `gfx_swap_buffers` the whole screen shows the back buffer, though only the dirty rectangle
-- was copied: no word off the screen has changed, nothing is dirty, and the state is valid.
pub gfx_swap_buffers-Shows :
    (g : Gfx)
    → IsValid g
    → Shows g (gfx_swap_buffers g).words
      × (gfx_is_dirty (gfx_swap_buffers g) ≡ false)
      × IsValid (gfx_swap_buffers g)
unfolding gfx_swap_buffers
gfx_swap_buffers-Shows g v =
    let ready : ((g.framebuffer == 0) || (g.back_buffer == 0) || not g.dirty_active)
        ≡ not g.dirty_active =
      ground (arith, v.screen, v.back) in
    elim (Bool-cases g.dirty_active) [
      | inr e ↦
          let same : not g.dirty_active ≡ true = rw e refl in
          rw (ready, same) (clean-Shows g v (λ c r. ground (arith, v.idle e)), e, v)
      | inl e ↦
          let go : not g.dirty_active ≡ false = rw e refl in
          elim (Bool-cases (leb g.dirty_max_x g.dirty_min_x || leb g.dirty_max_y g.dirty_min_y)) [
            | inl f ↦
                let s = clean-Shows g v (λ c r. ground arith) in
                rw (ready, go, f) (s, refl, after_swap-IsValid g v g.words s)
            | inr f ↦
                let s = show-Shows g v (ground arith) (ground arith) in
                rw (ready, go, f) (s, refl, after_swap-IsValid g v (show g) s)
          ]
    ]
