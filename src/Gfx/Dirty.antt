-- ===== src/Gfx/Dirty.antt =====
-- The dirty rectangle of src/gfx.c: what `gfx_mark_dirty` adds to it, and the invariant that the
-- screen agrees with the back buffer outside of it.
use meu_so_baremetal.Prelude.{
  ℕ, ◌+◌, ◌≤◌, ◌<◌, ◌≡◌, inl, inr, Bool, true, false, ◌&&◌, leb, ltb, arith, Bool-cases,
}
use meu_so_baremetal.Prelude.Int.{ℤ, pos, negsuc, pos_part, ◌+ℤ◌, leb_ℤ}
use meu_so_baremetal.Gfx.{Gfx, widen, low_end, high_end, gfx_mark_dirty}
use meu_so_baremetal.Gfx.Draw.{spans, inside}

abbrev pub is_dirty_at : Gfx → ℕ → ℕ → Bool
is_dirty_at g c r =
    (leb g.dirty_min_x c && ltb c g.dirty_max_x) && (leb g.dirty_min_y r && ltb r g.dirty_max_y)

low_end-le : (x : ℤ) (m : ℕ) → (low_end x m ≤ m) × (low_end x m ≤ pos_part x)
unfolding low_end
low_end-le x m = ground arith

high_end-ge : (x : ℤ) (limit m : ℕ) → (m ≤ high_end x limit m) × (high_end x limit m ≤ m + limit)
unfolding high_end
high_end-ge (pos x) limit m = ground arith
high_end-ge (negsuc x) limit m = ground arith

pub high_end-le : (x : ℤ) (limit m top : ℕ) → m ≤ top → limit ≤ top → high_end x limit m ≤ top
unfolding high_end
high_end-le (pos x) limit m top h h' = ground arith
high_end-le (negsuc x) limit m top h h' = ground arith

-- A column of the target in the span is between the two ends.
span_between :
    (x : ℤ) (n limit lo hi c : ℕ)
    → c < limit
    → spans x n c ≡ true
    → (low_end x lo ≤ c) × (c < high_end (x +ℤ pos n) limit hi)
unfolding low_end high_end
span_between (pos x) n limit lo hi c h s = ground arith
span_between (negsuc x) n limit lo hi c h s = ground arith

pub spans_some : (x : ℤ) (n c : ℕ) → spans x n c ≡ true → leb_ℤ (pos n) (pos 0) ≡ false
spans_some (pos x) n c h = ground arith
spans_some (negsuc x) n c h = ground arith

widen_keeps :
    (x y x2 y2 : ℤ) (g : Gfx) (c r : ℕ)
    → is_dirty_at g c r ≡ true
    → is_dirty_at (widen x y x2 y2 g) c r ≡ true
unfolding widen
widen_keeps x y x2 y2 g c r d = ground (
  arith,
  low_end-le x g.dirty_min_x,
  low_end-le y g.dirty_min_y,
  high_end-ge x2 g.active_width g.dirty_max_x,
  high_end-ge y2 g.active_height g.dirty_max_y,
)

-- What is clean after a mark was clean before.
pub widen_clean :
    (x y x2 y2 : ℤ) (g : Gfx) (c r : ℕ)
    → is_dirty_at (widen x y x2 y2 g) c r ≡ false
    → is_dirty_at g c r ≡ false
widen_clean x y x2 y2 g c r e = elim (Bool-cases (is_dirty_at g c r)) [
  | inl d ↦ absurd (cc (widen_keeps x y x2 y2 g c r d))
  | inr d ↦ d
]

-- The pixels of the target in the rectangle become dirty.
pub gfx_mark_dirty_covers :
    (x y : ℤ) (w h : ℕ) (g : Gfx) (c r : ℕ)
    → c < g.active_width
    → r < g.active_height
    → inside x y w h c r ≡ true
    → is_dirty_at (gfx_mark_dirty x y (pos w) (pos h) g) c r ≡ true
unfolding gfx_mark_dirty widen
gfx_mark_dirty_covers x y w h g c r hc hr d =
    let sx : spans x w c ≡ true = ground arith in
    let sy : spans y h r ≡ true = ground arith in
    let bx = span_between x w g.active_width g.dirty_min_x g.dirty_max_x c hc sx in
    let by' = span_between y h g.active_height g.dirty_min_y g.dirty_max_y r hr sy in
    rw (spans_some x w c sx, spans_some y h r sy) (ground arith)
