-- ===== src/Ui.antt =====
-- The windows of src/ui.c: the table, the stacking order, and the window under a point.
--
-- Coordinates are numbers: the mouse stays on the screen (Idt.Mouse), the first positions are on it,
-- and dragging cuts off at its edges. An index of -1, for no window, is `none`.
pub mod Stacking
pub mod Front
pub mod Fields
pub mod Calculator
pub mod Results
pub mod Sums
pub mod State
pub mod Keyboard
pub mod Shell
pub mod Pointer
pub mod Desktop
pub mod Brush
pub mod Typing
mod Tests
use meu_so_baremetal.Prelude.{
  ℕ, zero, suc, ◌+◌, ◌-◌, ◌≤◌, Bool, true, false, ◌&&◌, List, [], ◌∷◌, Option, none, some, ltb, leb,
  ◌==◌, if◌then◌else◌, get_or, set,
}

pub record Window : Type 0 where
  pub id : ℕ
  pub app_type : ℕ
  pub x : ℕ
  pub y : ℕ
  pub w : ℕ
  pub h : ℕ
  pub is_open : Bool
  pub z_index : ℕ
  pub cache : ℕ

abbrev pub mk_window : (id app x y w h : ℕ) → Bool → (z cache : ℕ) → Window
mk_window id app x y w h is_open z cache = record {
  id = id;
  app_type = app;
  x = x;
  y = y;
  w = w;
  h = h;
  is_open = is_open;
  z_index = z;
  cache = cache;
}

-- The table that `ui_init` fills; `cache` is what `kmalloc` gives to each window.
unfoldable pub first_windows : (ℕ → ℕ) → List Window
first_windows cache =
    mk_window 0 0 240 60 640 520 false 1 (cache 0)
    ∷ mk_window 1 1 200 80 640 520 false 2 (cache 1)
    ∷ mk_window 2 2 160 100 640 520 false 3 (cache 2)
    ∷ mk_window 3 3 180 40 640 540 false 4 (cache 3)
    ∷ mk_window 4 4 260 90 580 480 false 5 (cache 4)
    ∷ mk_window 5 5 200 60 660 500 false 6 (cache 5)
    ∷ mk_window 6 6 130 70 600 520 false 7 (cache 6)
    ∷ mk_window 7 7 240 100 560 420 false 8 (cache 7)
    ∷ mk_window 8 8 150 70 580 480 false 9 (cache 8)
    ∷ mk_window 9 9 210 80 580 500 true 10 (cache 9)
    ∷ mk_window 10 10 300 150 200 260 false 11 (cache 10)
    ∷ mk_window 11 11 220 100 600 480 false 12 (cache 11)
    ∷ mk_window 12 12 180 70 620 480 false 13 (cache 12)
    ∷ mk_window 13 13 200 90 620 480 false 14 (cache 13)
    ∷ []

pub record Stack : Type 0 where
  pub windows : List Window
  pub top_z_index : ℕ

abbrev pub raise : ℕ → Window → Window
raise z w = record w { z_index = z; is_open = true }

-- `windows[i]` is changed by `f`, if there is one.
unfoldable pub change : (Window → Window) → ℕ → List Window → List Window
change f i [] = []
change f zero (w ∷ ws) = f w ∷ ws
change f (suc i) (w ∷ ws) = w ∷ change f i ws

-- The part of `bring_to_front` that concerns the windows.
unfoldable pub bring_to_front : ℕ → Stack → Stack
bring_to_front win_id s =
    let z = s.top_z_index + 1 in
    record { windows = change (raise z) win_id s.windows; top_z_index = z }

-- The edges count as inside: `mx <= x + w`.
unfoldable pub contains : ℕ → ℕ → Window → Bool
contains mx my w = leb w.x mx && leb mx (w.x + w.w) && (leb w.y my && leb my (w.y + w.h))

-- The loops that look for the open window with the highest `z_index` among those that `test`
-- accepts; `best` is `top_id` with `highest_z`, and `i` counts the windows.
abbrev pub better : Option (ℕ × ℕ) → ℕ → ℕ → Option (ℕ × ℕ)
better none i z = some (i, z)
better (some (j, highest_z)) i z = if ltb highest_z z then some (i, z) else some (j, highest_z)

unfoldable pub find_top : (Window → Bool) → ℕ → List Window → Option (ℕ × ℕ) → Option (ℕ × ℕ)
find_top test i [] best = best
find_top test i (w ∷ ws) best =
    find_top test (i + 1) ws (if w.is_open && test w then better best i w.z_index else best)

abbrev pub id_of : Option (ℕ × ℕ) → Option ℕ
id_of none = none
id_of (some (i, z)) = some i

unfoldable pub find_clicked_window : ℕ → ℕ → List Window → Option ℕ
find_clicked_window mx my ws = id_of (find_top (contains mx my) 0 ws none)

-- The search of `ui_handle_keyboard`.
unfoldable pub top_window : List Window → Option ℕ
top_window ws = id_of (find_top (λ w. true) 0 ws none)
