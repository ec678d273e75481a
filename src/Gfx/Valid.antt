-- ===== src/Gfx/Valid.antt =====
-- The invariant of the drawing surface: outside of the dirty rectangle the screen shows the back
-- buffer. And what a change of the pixels and a mark must do to keep it.
use meu_so_baremetal.Prelude.{
  ℕ, ◌+◌, ◌*◌, ◌%◌, ◌≤◌, ◌<◌, ◌≡◌, ◌≢◌, ◌⊎◌, inl, inr, ◌∙◌, false, ◌||◌, arith, refl, sym,
  Bool-cases,
}
use meu_so_baremetal.Prelude.Int.{ℤ, pos, ◌+ℤ◌, leb_ℤ}
use meu_so_baremetal.Gfx.{Gfx, Words, widen, gfx_mark_dirty}
use meu_so_baremetal.Gfx.Rows.{OutsideOf, rows_fit}
use meu_so_baremetal.Gfx.Dirty.{is_dirty_at, widen_clean, high_end-le}

abbrev pub AreApart : ℕ → ℕ → ℕ → ℕ → Type 0
AreApart a n b k = (a + n ≤ b) ⊎ (b + k ≤ a)

abbrev pub OnBack : Gfx → Type 0
OnBack g =
    (g.active_buffer ≡ g.back_buffer) × (g.active_width ≡ g.width) × (g.active_height ≡ g.height)

-- The target is no larger than the screen, and apart from it and from the back buffer.
pub record OffBack (g : Gfx) : Type 0 where
  pub set : g.active_buffer ≢ 0
  pub narrow : g.active_width ≤ g.width
  pub low : g.active_height ≤ g.height
  pub from_back :
      AreApart g.active_buffer (g.active_height * g.active_width) g.back_buffer (g.height * g.width)
  pub from_screen :
      AreApart g.active_buffer (g.active_height * g.active_width) g.framebuffer (g.height * g.width)

pub record IsValid (g : Gfx) : Type 0 where
  pub screen : g.framebuffer ≢ 0
  pub back : g.back_buffer ≢ 0
  pub total : g.total_pixels_64 ≡ g.height * g.width
  pub quads : g.total_pixels_64 % 4 ≡ 0
  pub apart : AreApart g.framebuffer (g.height * g.width) g.back_buffer (g.height * g.width)
  pub target : OnBack g ⊎ OffBack g
  pub max_x : g.dirty_max_x ≤ g.width
  pub max_y : g.dirty_max_y ≤ g.height
  pub idle : g.dirty_active ≡ false → g.dirty_max_x ≡ 0
  pub synced :
      (c r : ℕ)
      → c < g.width
      → r < g.height
      → is_dirty_at g c r ≡ false
      → g.words (g.framebuffer + (r * g.width + c)) ≡ g.words (g.back_buffer + (r * g.width + c))

pub target_fits :
    (g : Gfx)
    → IsValid g
    → (g.active_buffer ≢ 0) × (g.active_width ≤ g.width) × (g.active_height ≤ g.height)
target_fits g v = elim v.target [
  | inl on ↦ (λ e. v.back (sym on.0 ∙ e), omega (arith, on.1), omega (arith, on.2))
  | inr off ↦ (off.set, off.narrow, off.low)
]

pub widen-IsValid : (x y x2 y2 : ℤ) (g : Gfx) → IsValid g → IsValid (widen x y x2 y2 g)
unfolding widen
widen-IsValid x y x2 y2 g v =
    let (set, narrow, low) = target_fits g v in
    record {
      screen = v.screen;
      back = v.back;
      total = v.total;
      quads = v.quads;
      apart = v.apart;
      target = elim v.target [
        | inl on ↦ inl on
        | inr off ↦ inr (record {
          set = off.set;
          narrow = off.narrow;
          low = off.low;
          from_back = off.from_back;
          from_screen = off.from_screen;
        })
      ];
      max_x = high_end-le x2 g.active_width g.dirty_max_x g.width v.max_x narrow;
      max_y = high_end-le y2 g.active_height g.dirty_max_y g.height v.max_y low;
      idle = λ e. absurd (ground arith);
      synced = λ c r hc hr d. v.synced c r hc hr (widen_clean x y x2 y2 g c r d);
    }

-- A mark alone keeps the invariant, whatever its rectangle.
pub gfx_mark_dirty-IsValid :
    (x y w h : ℤ) (g : Gfx) → IsValid g → IsValid (gfx_mark_dirty x y w h g)
unfolding gfx_mark_dirty
gfx_mark_dirty-IsValid x y w h g v = elim (Bool-cases (leb_ℤ w (pos 0) || leb_ℤ h (pos 0))) [
  | inl e ↦ rw e v
  | inr e ↦ rw e (widen-IsValid x y (x +ℤ w) (y +ℤ h) g v)
]

-- New pixels that leave the screen and the clean part of the back buffer as they are.
pub redrawn-IsValid :
    (m : Words) (g : Gfx)
    → IsValid g
    → ((c r : ℕ)
        → c < g.width
        → r < g.height
        → m (g.framebuffer + (r * g.width + c)) ≡ g.words (g.framebuffer + (r * g.width + c)))
    → ((c r : ℕ)
        → c < g.width
        → r < g.height
        → is_dirty_at g c r ≡ false
        → m (g.back_buffer + (r * g.width + c)) ≡ g.words (g.back_buffer + (r * g.width + c)))
    → IsValid (record g { words = m })
redrawn-IsValid m g v front back = record {
  screen = v.screen;
  back = v.back;
  total = v.total;
  quads = v.quads;
  apart = v.apart;
  target = elim v.target [
    | inl on ↦ inl on
    | inr off ↦ inr (record {
      set = off.set;
      narrow = off.narrow;
      low = off.low;
      from_back = off.from_back;
      from_screen = off.from_screen;
    })
  ];
  max_x = v.max_x;
  max_y = v.max_y;
  idle = v.idle;
  synced = λ c r hc hr d. front c r hc hr ∙ (v.synced c r hc hr d ∙ sym (back c r hc hr d));
}

-- A mark looks at no pixel.
pub gfx_mark_dirty_commutes :
    (x y w h : ℤ) (m : Words) (g : Gfx)
    → gfx_mark_dirty x y w h (record g { words = m })
      ≡ record (gfx_mark_dirty x y w h g) { words = m }
unfolding gfx_mark_dirty widen
gfx_mark_dirty_commutes x y w h m g = elim (Bool-cases (leb_ℤ w (pos 0) || leb_ℤ h (pos 0))) [
  | inl e ↦ rw e refl
  | inr e ↦ rw e refl
]

-- A cell of a buffer of `rows` rows is not in a buffer that is apart from it.
pub cell_outside :
    (base rows w other n c r : ℕ)
    → AreApart base n other (rows * w)
    → c < w
    → r < rows
    → OutsideOf base n (other + (r * w + c))
cell_outside base rows w other n c r a hc hr = omega (arith, a, rows_fit w r rows hr)
