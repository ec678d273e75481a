-- ===== src/Gfx/Painting.antt =====
-- Painting on the target keeps the invariant of the drawing surface.
use meu_so_baremetal.Prelude.{ℕ, ◌+◌, ◌*◌, ◌<◌, ◌≡◌, inl, inr, true, false, ◌||◌, arith, Bool-cases}
use meu_so_baremetal.Prelude.Int.{ℤ, pos, ◌+ℤ◌, leb_ℤ}
use meu_so_baremetal.Gfx.{Gfx, Words, widen, gfx_mark_dirty}
use meu_so_baremetal.Gfx.Rows.{OutsideOf}
use meu_so_baremetal.Gfx.Draw.{inside, target_at}
use meu_so_baremetal.Gfx.Dirty.{is_dirty_at, gfx_mark_dirty_covers, spans_some}
use meu_so_baremetal.Gfx.Valid.{OffBack, IsValid, widen-IsValid, redrawn-IsValid, cell_outside}

-- `m` is what painting inside the rectangle can leave.
pub record PaintsIn (x y : ℤ) (w h : ℕ) (m : Words) (g : Gfx) : Type 0 where
  pub elsewhere :
      (c r : ℕ)
      → c < g.active_width
      → r < g.active_height
      → inside x y w h c r ≡ false
      → m (target_at g c r) ≡ g.words (target_at g c r)
  pub outside :
      (a : ℕ) → OutsideOf g.active_buffer (g.active_height * g.active_width) a → m a ≡ g.words a

module _ (x y : ℤ) (w h : ℕ) (m : Words) (g : Gfx) (v : IsValid g)
    (paints : PaintsIn x y w h m g) where
  screen_kept :
      (c r : ℕ)
      → c < g.width
      → r < g.height
      → m (g.framebuffer + (r * g.width + c)) ≡ g.words (g.framebuffer + (r * g.width + c))
  screen_kept c r hc hr = paints.outside _ (elim v.target [
    | inl on ↦
        rw (on.0, on.1, on.2)
          (cell_outside g.back_buffer g.height g.width g.framebuffer (g.height * g.width) c r
            (omega (arith, v.apart)) hc hr)
    | inr off ↦
        cell_outside g.active_buffer g.height g.width g.framebuffer
          (g.active_height * g.active_width) c r off.from_screen hc hr
  ])

  back_kept :
      (c r : ℕ)
      → c < g.width
      → r < g.height
      → inside x y w h c r ≡ false
      → m (g.back_buffer + (r * g.width + c)) ≡ g.words (g.back_buffer + (r * g.width + c))
  back_kept c r hc hr e = elim v.target [
    | inl (b, aw, ah) ↦
        rw (b, aw) at (paints.elsewhere c r (omega (arith, aw)) (omega (arith, ah)) e)
    | inr off ↦ paints.outside _ (
        cell_outside g.active_buffer g.height g.width g.back_buffer
          (g.active_height * g.active_width) c r off.from_back hc hr)
  ]

  -- Off the back buffer no mark is needed.
  pub painted_off : OffBack g → IsValid (record g { words = m })
  painted_off off = redrawn-IsValid m g v screen_kept (λ c r hc hr _. paints.outside _ (
      cell_outside g.active_buffer g.height g.width g.back_buffer (g.active_height * g.active_width)
        c r off.from_back hc hr))

  back_kept_dirty :
      (c r : ℕ)
      → c < g.width
      → r < g.height
      → is_dirty_at (gfx_mark_dirty x y (pos w) (pos h) g) c r ≡ false
      → m (g.back_buffer + (r * g.width + c)) ≡ g.words (g.back_buffer + (r * g.width + c))
  back_kept_dirty c r hc hr d = elim (Bool-cases (inside x y w h c r)) [
    | inr e ↦ back_kept c r hc hr e
    | inl e ↦ elim v.target [
      | inl (b, aw, ah) ↦
          absurd
            (cc (gfx_mark_dirty_covers x y w h g c r (omega (arith, aw)) (omega (arith, ah)) e))
      | inr off ↦ paints.outside _ (
          cell_outside g.active_buffer g.height g.width g.back_buffer
            (g.active_height * g.active_width) c r off.from_back hc hr)
    ]
  ]

  empty_inside :
      (leb_ℤ (pos w) (pos 0) || leb_ℤ (pos h) (pos 0)) ≡ true
      → (c r : ℕ) → inside x y w h c r ≡ false
  empty_inside e c r = elim (Bool-cases (inside x y w h c r)) [
    | inr f ↦ f
    | inl f ↦ absurd (ground (arith, spans_some x w c, spans_some y h r))
  ]

  pub painted_marked : IsValid (gfx_mark_dirty x y (pos w) (pos h) (record g { words = m }))
  unfolding gfx_mark_dirty
  painted_marked = elim (Bool-cases (leb_ℤ (pos w) (pos 0) || leb_ℤ (pos h) (pos 0))) [
    | inl e ↦ rw e (
        redrawn-IsValid m g v screen_kept (λ c r hc hr _. back_kept c r hc hr (empty_inside e c r)))
    | inr e ↦ rw e (
        unfold widen in
        redrawn-IsValid m (widen x y (x +ℤ pos w) (y +ℤ pos h) g)
          (widen-IsValid x y (x +ℤ pos w) (y +ℤ pos h) g v) screen_kept
          (λ c r hc hr d. back_kept_dirty c r hc hr (rw e d)))
  ]
