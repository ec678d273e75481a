-- ===== src/Ui/Pointer.antt =====
-- `ui_handle_mouse` of src/ui.c, in the order of its parts: icons, start menu, windows, painting,
-- dragging. The screen is 768 high. Only calls and state are kept; where a part sets
-- `ui_needs_redraw` again after `focus` has set it, that is left out.
use meu_so_baremetal.Prelude.{
  ℕ, zero, suc, ◌+◌, ◌-◌, ◌*◌, ◌/◌, ◌%◌, Bool, true, false, ◌&&◌, ◌||◌, not, List, [], ◌∷◌, ◌++◌,
  ltb, leb, ◌==◌, if◌then◌else◌, Option, none, some, get_elem?, get_or,
}
use meu_so_baremetal.Prelude.Int.{ℤ, pos, negsuc}
use meu_so_baremetal.Prelude.Text.{codes}
use meu_so_baremetal.Ui.{Window, change, find_clicked_window}
use meu_so_baremetal.Ui.Fields.{clear_field, text_of}
use meu_so_baremetal.Ui.Calculator.{click_calc}
use meu_so_baremetal.Ui.Shell.{
  vfs_write, sound_click, music_toggle_play, music_next_track, bmp_export, bgif_reset_delta_cache,
  sys_shutdown, sys_reboot,
}
use meu_so_baremetal.Ui.State.{Ui, called, focus}
use meu_so_baremetal.Ui.Keyboard.{send_serial}

abbrev pub screen_h : ℕ
screen_h = 768

-- `lo <= v && v <= hi`.
abbrev pub between : ℕ → ℕ → ℕ → Bool
between lo hi v = leb lo v && leb v hi

-- The `i`-th of the ranges of a column of icons that holds `my`, as the id of its window.
unfoldable pub icon_in : List (ℕ × ℕ) → ℕ → Option ℕ
icon_in [] my = none
icon_in ((top, id) ∷ rest) my =
    let later = icon_in rest my in if between top (top + 55) my then some id else later

abbrev pub first_column : List (ℕ × ℕ)
first_column =
    (20, 0)
    ∷ (80, 1)
    ∷ (140, 2)
    ∷ (200, 3)
    ∷ (260, 4)
    ∷ (320, 5)
    ∷ (380, 6)
    ∷ (440, 7)
    ∷ (500, 9)
    ∷ []

abbrev pub second_column : List (ℕ × ℕ)
second_column = (20, 10) ∷ (80, 11) ∷ (140, 12) ∷ (200, 13) ∷ []

abbrev pub focus_if : Option ℕ → Ui → Ui
focus_if none s = s
focus_if (some id) s = focus id s

unfoldable pub click_icons : ℕ → ℕ → Ui → Ui
click_icons mx my s =
    if between 15 135 mx
    then focus_if (icon_in first_column my) s
    else if between 145 265 mx
    then focus_if (icon_in second_column my) s
    else s

-- The entries of the start menu from entry `i` on: each one whose range holds `my` comes to front.
unfoldable pub click_menu : ℕ → List ℕ → ℕ → Ui → Ui
click_menu i [] my s = s
click_menu i (id ∷ ids) my s =
    let y = screen_h - 445 + i * 28 in
    click_menu (i + 1) ids my (if between (y - 5) (y + 23) my then focus id s else s)

abbrev pub mapping : List ℕ
mapping = 0 ∷ 1 ∷ 2 ∷ 3 ∷ 4 ∷ 5 ∷ 6 ∷ 7 ∷ 9 ∷ 10 ∷ 11 ∷ 12 ∷ 13 ∷ []

-- The buttons of the applications, for a click at (`dx`, `dy`) from the corner of the window.
unfoldable pub click_serial : ℕ → ℕ → Ui → Ui
click_serial dx dy s =
    if between 420 455 dy && (between 20 240 dx && ltb 0 s.serial_guest.index)
    then called sound_click (send_serial s)
    else s

unfoldable pub click_pad : ℕ → ℕ → Ui → Ui
click_pad dx dy s =
    if between 420 455 dy && between 30 220 dx
    then called sound_click (called (vfs_write (codes "nota.txt") (text_of s.pad)) s)
    else if between 420 455 dy && between 240 400 dx
    then called sound_click (record s { pad = clear_field s.pad })
    else s

unfoldable pub click_video : ℕ → ℕ → Ui → Ui
click_video dx dy s =
    if not (between 400 440 dy)
    then s
    else if between 30 180 dx
    then record s { video_playing = not s.video_playing }
    else if between 200 360 dx
    then record s { video_frame = s.video_frame + 1 }
    else if between 380 550 dx
    then called bgif_reset_delta_cache (record s { current_wallpaper = pos 4 })
    else s

unfoldable pub click_music : ℕ → ℕ → Ui → Ui
click_music dx dy s =
    if not (between 160 200 dy)
    then s
    else if between 50 200 dx
    then called music_toggle_play s
    else if between 220 400 dx
    then called music_next_track s
    else s

-- The text that `save_icons_config` writes: each name and a line feed.
unfoldable pub icons_text : (ℕ → List ℕ) → ℕ → ℕ → List ℕ
icons_text files i zero = []
icons_text files i (suc n) = files i ++ (10 ∷ icons_text files (i + 1) n)

unfoldable pub save_icons_config : Ui → Ui
save_icons_config s = called (vfs_write (codes "icons.cfg") (icons_text s.app_icon_files 0 14)) s

unfoldable pub set_icon : ℕ → List ℕ → Ui → Ui
set_icon app name s =
    save_icons_config
      (record s { app_icon_files = λ i. if i == app then name else s.app_icon_files i })

abbrev pub pic_names : List (List ℕ)
pic_names = codes "foto.bmp" ∷ codes "gallery.bmp" ∷ codes "paint.bmp" ∷ codes "foto.bmp" ∷ []

-- The three rows of buttons of the gallery.
unfoldable pub click_photos : ℕ → Ui → Ui
click_photos dx s =
    if between 20 110 dx
    then record s { gallery_photo = 0 }
    else if between 120 200 dx
    then record s { gallery_photo = 1 }
    else if between 210 310 dx
    then record s { gallery_photo = 2 }
    else if between 320 450 dx
    then record s { gallery_photo = 3 }
    else s

unfoldable pub click_wallpaper : ℕ → Ui → Ui
click_wallpaper dx s =
    if between 20 210 dx
    then called bgif_reset_delta_cache (record s { current_wallpaper = pos s.gallery_photo })
    else if between 225 435 dx
    then called (vfs_write (codes "paisagem.art") (codes "ARTE RECENTE DA GALERIA")) s
    else if between 450 610 dx
    then called bgif_reset_delta_cache (record s { current_wallpaper = negsuc 0 })
    else s

unfoldable pub click_icon_target : ℕ → Ui → Ui
click_icon_target dx s =
    if between 20 250 dx
    then record s { selected_icon_target_app = (s.selected_icon_target_app + 1) % 14 }
    else if between 260 500 dx
    then set_icon s.selected_icon_target_app (get_or pic_names s.gallery_photo []) s
    else s

unfoldable pub click_gallery : ℕ → ℕ → Ui → Ui
click_gallery dx dy s =
    let s1 = if between 375 405 dy then click_photos dx s else s in
    let s2 = if between 415 445 dy then click_wallpaper dx s1 else s1 in
    if between 455 485 dy then click_icon_target dx s2 else s2

unfoldable pub click_colors : ℕ → ℕ → Ui → Ui
click_colors dx dy s =
    if not (between 430 460 dy)
    then s
    else if between 20 60 dx
    then record s { paint_color = 0xFF0000 }
    else if between 70 110 dx
    then record s { paint_color = 0x00FF00 }
    else if between 120 160 dx
    then record s { paint_color = 0x0000FF }
    else if between 170 210 dx
    then record s { paint_color = 0xFFFFFF }
    else if between 220 260 dx
    then record s { paint_color = 0 }
    else if between 310 510 dx
    then set_icon 6 (codes "arte.bmp") (called (bmp_export (codes "arte.bmp")) s)
    else s

unfoldable pub click_app : ℕ → ℕ → Window → Ui → Ui
click_app mx my w s =
    let dx = mx - w.x in
    let dy = my - w.y in
    if w.app_type == 13
    then click_serial dx dy s
    else if w.app_type == 12
    then click_pad dx dy s
    else if w.app_type == 9
    then click_video dx dy s
    else if w.app_type == 4
    then click_music dx dy s
    else if w.app_type == 10
    then record s { calc = click_calc mx my w.x w.y s.calc }
    else if w.app_type == 3
    then click_gallery dx dy s
    else if w.app_type == 6
    then click_colors dx dy s
    else s

abbrev pub close_window : Window → Window
close_window w = record w { is_open = false }

unfoldable pub on_close_button : ℕ → ℕ → Window → Bool
on_close_button mx my w =
    between (w.x + w.w - 25) (w.x + w.w - 9) mx && between (w.y + 7) (w.y + 23) my

unfoldable pub grab : ℕ → ℕ → ℕ → Window → Ui → Ui
grab id mx my w s =
    if between w.y (w.y + 30) my
    then record s { dragging_window_id = some id; drag_off_x = mx - w.x; drag_off_y = my - w.y }
    else s

-- One pixel of the brush, for `p_x + dx + 1` and `p_y + dy + 1`, if it is on the canvas of 160 by 120.
abbrev pub dab : (x1 y1 color : ℕ) → (ℕ → ℕ) → ℕ → ℕ
dab x1 y1 color canvas i =
    if leb 1 x1 && ltb x1 161 && (leb 1 y1 && ltb y1 121) && (i == (y1 - 1) * 160 + (x1 - 1))
    then color
    else canvas i

abbrev pub dab_row : (p_x y1 color : ℕ) → (ℕ → ℕ) → ℕ → ℕ
dab_row p_x y1 color canvas =
    dab (p_x + 2) y1 color (dab (p_x + 1) y1 color (dab p_x y1 color canvas))

-- The two loops over `dy` and `dx` from -1 to 1.
unfoldable pub brush : (p_x p_y color : ℕ) → (ℕ → ℕ) → ℕ → ℕ
brush p_x p_y color canvas =
    dab_row p_x (p_y + 2) color (dab_row p_x (p_y + 1) color (dab_row p_x p_y color canvas))

abbrev pub on_canvas : ℕ → ℕ → Window → Bool
on_canvas mx my w =
    leb (w.x + 30) mx && ltb mx (w.x + 30 + 480) && (leb (w.y + 60) my && ltb my (w.y + 60 + 360))

unfoldable pub paint_in : ℕ → ℕ → Window → Ui → Ui
paint_in mx my w s =
    if (w.app_type == 6) && on_canvas mx my w
    then record s {
      paint_canvas =
          brush ((mx - (w.x + 30)) / 3) ((my - (w.y + 60)) / 3) s.paint_color s.paint_canvas;
      ui_needs_redraw = true;
    }
    else s

-- With a window of the table, or none.
abbrev pub apply_to : (Window → Ui → Ui) → Option Window → Ui → Ui
apply_to f none s = s
apply_to f (some w) s = f w s

abbrev pub with_window : (Window → Ui → Ui) → Option ℕ → Ui → Ui
with_window f none s = s
with_window f (some i) s = apply_to f (get_elem? s.stack.windows i) s

unfoldable pub paint : ℕ → ℕ → Ui → Ui
paint mx my s = with_window (paint_in mx my) (find_clicked_window mx my s.stack.windows) s

-- The new position of one side: cut off at 0, and then at the end of the desktop.
abbrev pub dragged_to : (mouse off size limit : ℕ) → ℕ
dragged_to mouse off size limit =
    let p = mouse - off in if ltb limit (p + size) then limit - size else p

unfoldable pub drag_window : (mx my off_x off_y : ℕ) → Window → Window
drag_window mx my off_x off_y w = record w {
  x = dragged_to mx off_x w.w 1024;
  y = dragged_to my off_y w.h 728;
}

unfoldable pub drag : ℕ → ℕ → Ui → Ui
drag mx my s = elim s.dragging_window_id [
  | none ↦ s
  | some id ↦ record s {
    stack = record s.stack {
      windows = change (drag_window mx my s.drag_off_x s.drag_off_y) id s.stack.windows;
    };
    ui_needs_redraw = true;
  }
]

-- What the end of the handler does, with the button down or up.
unfoldable pub finish : Bool → ℕ → ℕ → Ui → Ui
finish click mx my s =
    if click then drag mx my (paint mx my s) else record s { dragging_window_id = none }

unfoldable pub close : ℕ → Ui → Ui
close id s = record s {
  stack = record s.stack { windows = change close_window id s.stack.windows };
  dragging_window_id = none;
}

-- A press in window `w`, which is in front now.
unfoldable pub press_in : ℕ → ℕ → ℕ → Window → Ui → Ui
press_in id mx my w s =
    if on_close_button mx my w
    then close id s
    else finish true mx my (click_app mx my w (grab id mx my w s))

abbrev pub press_found : ℕ → ℕ → Option ℕ → Ui → Ui
press_found mx my none s = finish true mx my s
press_found mx my (some id) s = with_window (press_in id mx my) (some id) (focus id s)

unfoldable pub press_windows : ℕ → ℕ → Ui → Ui
press_windows mx my s = press_found mx my (find_clicked_window mx my s.stack.windows) s

-- A press on the desktop: the start button and the open menu come before the windows.
unfoldable pub press_desktop : ℕ → ℕ → Ui → Ui
press_desktop mx my s =
    if between 10 90 mx && between (screen_h - 35) (screen_h - 5) my
    then record s { start_menu_open = not s.start_menu_open; ui_needs_redraw = true }
    else if s.start_menu_open && (between 10 200 mx && between (screen_h - 480) (screen_h - 70) my)
    then record (click_menu 0 mapping my s) { start_menu_open = false; ui_needs_redraw = true }
    else press_windows mx my (record s { start_menu_open = false })

-- The power buttons do not return.
unfoldable pub press_button : ℕ → ℕ → Ui → Ui
press_button mx my s =
    if s.start_menu_open && (between 10 200 mx && between (screen_h - 40 - 25) (screen_h - 40) my)
    then called (if leb mx 100 then sys_shutdown else sys_reboot) s
    else press_desktop mx my (click_icons mx my s)

abbrev pub moved : ℕ → ℕ → Ui → Bool
moved mx my s = not (at s.prev_mouse_x mx && at s.prev_mouse_y my)
  where
    at : ℤ → ℕ → Bool
    at (pos n) m = n == m
    at (negsuc n) m = false

-- The first part: the position and the button are noted.
unfoldable pub note_mouse : Bool → ℕ → ℕ → Ui → Ui
note_mouse click mx my s =
    let just_pressed = click && not s.prev_mouse_left in
    let s1 = record s { prev_mouse_left = click } in
    if moved mx my s || just_pressed
    then record s1 { ui_needs_redraw = true; prev_mouse_x = pos mx; prev_mouse_y = pos my }
    else s1

unfoldable pub ui_handle_mouse : Bool → ℕ → ℕ → Ui → Ui
ui_handle_mouse click mx my s =
    if click && not s.prev_mouse_left
    then press_button mx my (called sound_click (note_mouse click mx my s))
    else finish click mx my (note_mouse click mx my s)
