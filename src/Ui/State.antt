-- ===== src/Ui/State.antt =====
-- The static variables of src/ui.c as one record. The calls out of the file are kept in order, the
-- newest first.
use meu_so_baremetal.Prelude.{ℕ, Bool, true, List, ◌∷◌, Option}
use meu_so_baremetal.Prelude.Int.{ℤ}
use meu_so_baremetal.Ui.{Stack, bring_to_front}
use meu_so_baremetal.Ui.Fields.{Field}
use meu_so_baremetal.Ui.Calculator.{Calc}
use meu_so_baremetal.Ui.Shell.{Call, bgif_reset_delta_cache}

pub record Ui : Type 0 where
  pub stack : Stack
  pub dragging_window_id : Option ℕ
  pub drag_off_x : ℕ
  pub drag_off_y : ℕ
  pub current_wallpaper : ℤ
  pub start_menu_open : Bool
  pub gallery_photo : ℕ
  pub input : Field
  pub shell_output : List ℕ
  pub paint_canvas : ℕ → ℕ
  pub paint_color : ℕ
  pub prev_mouse_left : Bool
  pub prev_mouse_x : ℤ
  pub prev_mouse_y : ℤ
  pub snake_dir_x : ℤ
  pub snake_dir_y : ℤ
  pub video_playing : Bool
  pub video_frame : ℕ
  pub ui_needs_redraw : Bool
  pub calc : Calc
  pub pad : Field
  pub serial_guest : Field
  pub app_icon_files : ℕ → List ℕ
  pub selected_icon_target_app : ℕ
  pub last_key_pressed : ℕ
  pub calls : List Call

abbrev pub called : Call → Ui → Ui
called c s = record s { calls = c ∷ s.calls }

-- `bring_to_front` with what it does beside the windows.
unfoldable pub focus : ℕ → Ui → Ui
focus win_id s = record s {
  stack = bring_to_front win_id s.stack;
  ui_needs_redraw = true;
  calls = bgif_reset_delta_cache ∷ s.calls;
}
