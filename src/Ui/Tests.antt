-- ===== src/Ui/Tests.antt =====
-- Runs of the user interface, and the theorems on concrete states.
use mathlib.Core.Path.{subst}
use mathlib.Core.Option.{some-injective}
use meu_so_baremetal.Prelude.{
  ap, ℕ, ◌+◌, ◌*◌, ◌≤◌, ◌<◌, ◌≡◌, ◌⊎◌, inl, inr, true, false, ◌&&◌, [], ◌∷◌, get_elem?, none, some,
  arith, refl, if◌then◌else◌,
}
use meu_so_baremetal.Prelude.Int.{pos, negsuc}
use meu_so_baremetal.Prelude.Text.{codes}
use meu_so_baremetal.Ui.{
  Window, Stack, mk_window, bring_to_front, contains, find_clicked_window, top_window, find_top,
}
use meu_so_baremetal.Ui.Stacking.{IsTopmost, find_clicked_window-IsTopmost}
use meu_so_baremetal.Ui.Front.{IsOrdered, bring_to_front_lem}
use meu_so_baremetal.Ui.Fields.{Field, text_of, IsField}
use meu_so_baremetal.Ui.Calculator.{Calc}
use meu_so_baremetal.Ui.Shell.{Services}
use meu_so_baremetal.Ui.State.{Ui}
use meu_so_baremetal.Ui.Keyboard.{ui_handle_keyboard, ui_handle_keyboard-IsValid, top_app}
use meu_so_baremetal.Ui.Keyboard
use meu_so_baremetal.Ui.Typing.{keyboard_edits_pad}
use meu_so_baremetal.Ui.Pointer.{brush, ui_handle_mouse}
use meu_so_baremetal.Ui.Desktop.{ui_handle_mouse-IsValid}
use meu_so_baremetal.Ui.Desktop
use meu_so_baremetal.Ui.Brush.{near, brush_lem}

-- Two open windows, the pad above a paint window.
abbrev paint_window : Window
paint_window = mk_window 0 6 130 70 600 520 true 1 0

abbrev pad_window : Window
pad_window = mk_window 1 12 180 70 620 480 true 2 0

abbrev two : Stack
two = record { windows = paint_window ∷ pad_window ∷ []; top_z_index = 2 }

two_cases :
    (i : ℕ) (w : Window)
    → get_elem? two.windows i ≡ some w
    → ((i ≡ 0) × (paint_window ≡ w)) ⊎ ((i ≡ 1) × (pad_window ≡ w))
two_cases ℕ.zero w e = inl (refl, some-injective _ _ e)
two_cases (ℕ.suc ℕ.zero) w e = inr (refl, some-injective _ _ e)
two_cases (ℕ.suc (ℕ.suc i)) w e = absurd (cc)

abbrev z_of : Window → ℕ
z_of w = w.z_index

two-IsOrdered : IsOrdered two
two-IsOrdered = record {
  bounded = λ i w e. elim (two_cases i w e) [
    | inl (p, q) ↦ omega (arith, ap z_of q)
    | inr (p, q) ↦ omega (arith, ap z_of q)
  ];
  distinct = λ i j v w e f z. elim (two_cases i v e) [
    | inl (p, q) ↦ elim (two_cases j w f) [
      | inl (p', q') ↦ omega (arith, p, p')
      | inr (p', q') ↦ absurd (omega (arith, ap z_of q, ap z_of q', z))
    ]
    | inr (p, q) ↦ elim (two_cases j w f) [
      | inl (p', q') ↦ absurd (omega (arith, ap z_of q, ap z_of q', z))
      | inr (p', q') ↦ omega (arith, p, p')
    ]
  ];
}

two-IsValid : Desktop.IsValid two
two-IsValid = record {
  ordered = two-IsOrdered;
  placed = λ i w e. elim (two_cases i w e) [
    | inl (p, q) ↦ subst Desktop.OnDesktop q (omega arith)
    | inr (p, q) ↦ subst Desktop.OnDesktop q (omega arith)
  ];
}

find_clicked_window-IsTopmost_example :
    IsTopmost (contains 300 300) two.windows (find_clicked_window 300 300 two.windows)
find_clicked_window-IsTopmost_example = find_clicked_window-IsTopmost 300 300 two.windows

bring_to_front_lem_example :
    (top_window (bring_to_front 0 two).windows ≡ some 0)
    × ((mx my : ℕ)
        → contains mx my paint_window ≡ true
        → find_clicked_window mx my (bring_to_front 0 two).windows ≡ some 0)
    × IsOrdered (bring_to_front 0 two)
bring_to_front_lem_example = bring_to_front_lem 0 two paint_window refl two-IsOrdered

abbrev empty_field : Field
empty_field = record { buffer = λ i. 0; index = 0 }

empty-IsField : (size : ℕ) → 0 < size → IsField size empty_field
empty-IsField size h = record { fits = h; ended = refl; text = λ i hi. absurd (omega arith) }

abbrev calculator : Calc
calculator = record {
  calc_display = codes "0";
  calc_val1 = pos 0;
  calc_op = 0;
  calc_clear_next = false;
}

abbrev desktop : Ui
desktop = record {
  stack = two;
  dragging_window_id = none;
  drag_off_x = 0;
  drag_off_y = 0;
  current_wallpaper = negsuc 0;
  start_menu_open = false;
  gallery_photo = 0;
  input = empty_field;
  shell_output = [];
  paint_canvas = λ i. 0;
  paint_color = 0xFFFFFF;
  prev_mouse_left = false;
  prev_mouse_x = negsuc 0;
  prev_mouse_y = negsuc 0;
  snake_dir_x = pos 5;
  snake_dir_y = pos 0;
  video_playing = true;
  video_frame = 0;
  ui_needs_redraw = true;
  calc = calculator;
  pad = empty_field;
  serial_guest = empty_field;
  app_icon_files = λ i. [];
  selected_icon_target_app = 0;
  last_key_pressed = b'h';
  calls = [];
}

abbrev services : Services
services = record {
  vfs_list = codes "A.TXT";
  vfs_read = λ name. none;
  vfs_write_file = λ name bytes. true;
  elf_load_and_run = λ bytes name. false;
  ahci_get_status_string = codes "ATA";
}

desktop-IsValid : Keyboard.IsValid desktop
desktop-IsValid = record {
  input = empty-IsField 32 (omega arith);
  pad = empty-IsField 256 (omega arith);
  serial = empty-IsField 64 (omega arith);
  snake = inr refl;
}

ui_handle_keyboard-IsValid_example : Keyboard.IsValid (ui_handle_keyboard services desktop)
ui_handle_keyboard-IsValid_example = ui_handle_keyboard-IsValid services desktop desktop-IsValid

keyboard_edits_pad_example :
    (text_of (ui_handle_keyboard services desktop).pad ≡ codes "h")
    × ((ui_handle_keyboard services desktop).input ≡ empty_field)
    × ((ui_handle_keyboard services desktop).serial_guest ≡ empty_field)
    × ((ui_handle_keyboard services desktop).last_key_pressed ≡ 0)
unfolding top_app top_window find_top
keyboard_edits_pad_example = keyboard_edits_pad services desktop (λ e. ground arith) refl

ui_handle_mouse-IsValid_example : Desktop.IsValid (ui_handle_mouse true 300 80 desktop).stack
ui_handle_mouse-IsValid_example = ui_handle_mouse-IsValid true 300 80 desktop two-IsValid

brush_lem_example :
    ((c r : ℕ)
      → c < 160
      → r < 120
      → brush 0 5 9 (λ i. 1) (r * 160 + c) ≡ (if near 0 c && near 5 r then 9 else 1))
    × ((i : ℕ) → 160 * 120 ≤ i → brush 0 5 9 (λ i. 1) i ≡ 1)
brush_lem_example = brush_lem 0 5 9 (λ i. 1)
