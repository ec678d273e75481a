-- ===== src/Ui/Desktop.antt =====
-- The mouse keeps the windows on the desktop and their order strict.
use mathlib.Core.Path.{subst}
use mathlib.Core.Option.{some-injective}
use meu_so_baremetal.Prelude.{
  ℕ, zero, suc, ◌+◌, ◌-◌, ◌≤◌, ◌≡◌, ◌⊎◌, inl, inr, ◌∙◌, Bool, true, false, ◌&&◌, ◌||◌, not, List,
  [], ◌∷◌, ltb, if◌then◌else◌, arith, refl, sym, ap, Bool-cases, Option, none, some, get_elem?,
  Option-cases,
}
use meu_so_baremetal.Ui.{Window, Stack, raise, change, bring_to_front, find_clicked_window}
use meu_so_baremetal.Ui.Front.{IsOrdered, kept_IsOrdered}
use meu_so_baremetal.Ui.State.{Ui, focus}
use meu_so_baremetal.Ui.Keyboard.{send_serial}
use meu_so_baremetal.Ui.Pointer.{
  click_serial, click_pad, click_video, click_music, click_photos, click_wallpaper,
  click_icon_target, set_icon, save_icons_config, click_gallery, click_colors, click_app, between,
  close_window, grab, paint_in, paint, with_window, drag_window, drag, finish, close, press_in,
  press_windows, press_desktop, press_button, click_icons, click_menu, mapping, icon_in,
  first_column, second_column, focus_if, note_mouse, ui_handle_mouse, moved, on_close_button,
  apply_to, press_found,
}

-- A window lies on the desktop of 1024 by 728.
abbrev pub OnDesktop : Window → Type 0
OnDesktop w = (w.x + w.w ≤ 1024) × (w.y + w.h ≤ 728)

pub record IsValid (s : Stack) : Type 0 where
  pub ordered : IsOrdered s
  pub placed : (i : ℕ) (w : Window) → get_elem? s.windows i ≡ some w → OnDesktop w

-- A window of a changed table is a changed or an old one.
change_cases :
    (f : Window → Window) (id j : ℕ) (ws : List Window) (v : Window)
    → get_elem? (change f id ws) j ≡ some v
    → (get_elem? ws j ≡ some v) ⊎ ((w : Window) × (get_elem? ws j ≡ some w) × (v ≡ f w))
unfolding change
change_cases f id j [] v e = absurd (cc)
change_cases f zero zero (w ∷ ws) v e = inr (w, refl, sym (some-injective _ _ e))
change_cases f zero (suc j) (w ∷ ws) v e = inl e
change_cases f (suc id) zero (w ∷ ws) v e = inl e
change_cases f (suc id) (suc j) (w ∷ ws) v e = change_cases f id j ws v e

change-none :
    (f : Window → Window) (id : ℕ) (ws : List Window) → get_elem? ws id ≡ none → change f id ws ≡ ws
unfolding change
change-none f id [] e = refl
change-none f zero (w ∷ ws) e = absurd (cc)
change-none f (suc id) (w ∷ ws) e = ap (◌∷◌ w) (change-none f id ws e)

bring_to_front-IsOrdered : (id : ℕ) (s : Stack) → IsOrdered s → IsOrdered (bring_to_front id s)
bring_to_front-IsOrdered id s o = elim (Option-cases (get_elem? s.windows id)) [
  | inr (w, e) ↦ kept_IsOrdered id s w e o
  | inl e ↦
      unfold bring_to_front in
      rw (change-none (raise (s.top_z_index + 1)) id s.windows e)
        (record { bounded = λ i w g. omega (arith, o.bounded i w g); distinct = o.distinct })
]

bring_to_front-IsValid : (id : ℕ) (s : Stack) → IsValid s → IsValid (bring_to_front id s)
unfolding bring_to_front
bring_to_front-IsValid id s v = record {
  ordered = bring_to_front-IsOrdered id s v.ordered;
  placed = λ i w e. elim (change_cases (raise (s.top_z_index + 1)) id i s.windows w e) [
    | inl g ↦ v.placed i w g
    | inr (u, g, p) ↦ subst OnDesktop (sym p) (v.placed i u g)
  ];
}

-- A change that moves no window in the order and none off the desktop.
module _ (f : Window → Window) (keeps : (w : Window) → (f w).z_index ≡ w.z_index)
    (stays : (w : Window) → OnDesktop w → OnDesktop (f w)) where
  abbrev changed : ℕ → Stack → Stack
  changed id s = record s { windows = change f id s.windows }

  old_z :
      (id j : ℕ) (s : Stack) (v : Window)
      → get_elem? (change f id s.windows) j ≡ some v
      → (w : Window) × (get_elem? s.windows j ≡ some w) × (v.z_index ≡ w.z_index)
  old_z id j s v e = elim (change_cases f id j s.windows v e) [
    | inl g ↦ (v, g, refl)
    | inr (w, g, p) ↦ (w, g, ap (λ (u : Window). u.z_index) p ∙ keeps w)
  ]

  changed-IsValid : (id : ℕ) (s : Stack) → IsValid s → IsValid (changed id s)
  changed-IsValid id s v = record {
    ordered = record {
      bounded =
          λ i w e. let (u, g, p) = old_z id i s w e in omega (arith, p, v.ordered.bounded i u g);
      distinct = λ i j a b ea eb ez.
          let (u, g, p) = old_z id i s a ea in
          let (u', g', p') = old_z id j s b eb in
          v.ordered.distinct i j u u' g g' (sym p ∙ (ez ∙ p'));
    };
    placed = λ i w e. elim (change_cases f id i s.windows w e) [
      | inl g ↦ v.placed i w g
      | inr (u, g, p) ↦ subst OnDesktop (sym p) (stays u (v.placed i u g))
    ];
  }

-- What the buttons in a window do leaves the windows as they are.
abbrev KeepsStack : (Ui → Ui) → Type 0
KeepsStack f = (s : Ui) → (f s).stack ≡ s.stack

click_photos-stack : (dx : ℕ) → KeepsStack (click_photos dx)
unfolding click_photos
click_photos-stack dx s = ground arith

click_wallpaper-stack : (dx : ℕ) → KeepsStack (click_wallpaper dx)
unfolding click_wallpaper
click_wallpaper-stack dx s = ground arith

click_icon_target-stack : (dx : ℕ) → KeepsStack (click_icon_target dx)
unfolding click_icon_target set_icon save_icons_config
click_icon_target-stack dx s = ground arith

click_colors-stack : (dx dy : ℕ) → KeepsStack (click_colors dx dy)
unfolding click_colors set_icon save_icons_config
click_colors-stack dx dy s = ground arith

click_serial-stack : (dx dy : ℕ) → KeepsStack (click_serial dx dy)
unfolding click_serial send_serial
click_serial-stack dx dy s = ground arith

click_pad-stack : (dx dy : ℕ) → KeepsStack (click_pad dx dy)
unfolding click_pad
click_pad-stack dx dy s = ground arith

click_video-stack : (dx dy : ℕ) → KeepsStack (click_video dx dy)
unfolding click_video
click_video-stack dx dy s = ground arith

click_music-stack : (dx dy : ℕ) → KeepsStack (click_music dx dy)
unfolding click_music
click_music-stack dx dy s = ground arith

if_stack :
    (b : Bool) (f : Ui → Ui) (s : Ui)
    → (f s).stack ≡ s.stack
    → (if b then f s else s).stack ≡ s.stack
if_stack true f s h = h
if_stack false f s h = refl

click_gallery-stack : (dx dy : ℕ) → KeepsStack (click_gallery dx dy)
unfolding click_gallery
click_gallery-stack dx dy s =
    let s1 : Ui = if between 375 405 dy then click_photos dx s else s in
    let s2 : Ui = if between 415 445 dy then click_wallpaper dx s1 else s1 in
    if_stack (between 455 485 dy) (click_icon_target dx) s2 (click_icon_target-stack dx s2)
    ∙ (if_stack (between 415 445 dy) (click_wallpaper dx) s1 (click_wallpaper-stack dx s1)
        ∙ if_stack (between 375 405 dy) (click_photos dx) s (click_photos-stack dx s))

click_app-stack : (mx my : ℕ) (w : Window) → KeepsStack (click_app mx my w)
unfolding click_app
click_app-stack mx my w s = ground (
  arith,
  click_serial-stack (mx - w.x) (my - w.y) s,
  click_pad-stack (mx - w.x) (my - w.y) s,
  click_video-stack (mx - w.x) (my - w.y) s,
  click_music-stack (mx - w.x) (my - w.y) s,
  click_gallery-stack (mx - w.x) (my - w.y) s,
  click_colors-stack (mx - w.x) (my - w.y) s,
)

grab-stack : (id mx my : ℕ) (w : Window) (s : Ui) → (grab id mx my w s).stack ≡ s.stack
unfolding grab
grab-stack id mx my w s = ground arith

paint_in-stack : (mx my : ℕ) (w : Window) (s : Ui) → (paint_in mx my w s).stack ≡ s.stack
unfolding paint_in
paint_in-stack mx my w s = ground arith

abbrev Valid : Ui → Type 0
Valid s = IsValid s.stack

apply_to-Valid :
    (f : Window → Ui → Ui)
    → ((w : Window) (s : Ui) → Valid s → Valid (f w s))
    → (o : Option Window) (s : Ui) → Valid s
    → Valid (apply_to f o s)
apply_to-Valid f h none s v = v
apply_to-Valid f h (some w) s v = h w s v

with_window-Valid :
    (f : Window → Ui → Ui)
    → ((w : Window) (s : Ui) → Valid s → Valid (f w s))
    → (o : Option ℕ) (s : Ui) → Valid s
    → Valid (with_window f o s)
with_window-Valid f h none s v = v
with_window-Valid f h (some i) s v = apply_to-Valid f h (get_elem? s.stack.windows i) s v

paint-Valid : (mx my : ℕ) (s : Ui) → Valid s → Valid (paint mx my s)
unfolding paint
paint-Valid mx my s v =
    with_window-Valid (paint_in mx my) (λ w t u. subst IsValid (sym (paint_in-stack mx my w t)) u)
      (find_clicked_window mx my s.stack.windows) s v

dragged_fits :
    (mouse off size limit : ℕ)
    → size ≤ limit
    → (if ltb limit (mouse - off + size) then limit - size else mouse - off) + size ≤ limit
dragged_fits mouse off size limit h = ground arith

drag_window-OnDesktop :
    (mx my x y : ℕ) (w : Window) → OnDesktop w → OnDesktop (drag_window mx my x y w)
unfolding drag_window
drag_window-OnDesktop mx my x y w (hx, hy) =
    (dragged_fits mx x w.w 1024 (omega arith), dragged_fits my y w.h 728 (omega arith))

drag-Valid : (mx my : ℕ) (s : Ui) → Valid s → Valid (drag mx my s)
unfolding drag
drag-Valid mx my s v = elim (Option-cases s.dragging_window_id) [
  | inl e ↦ rw e v
  | inr (id, e) ↦ rw e (
      changed-IsValid (drag_window mx my s.drag_off_x s.drag_off_y)
        (unfold drag_window in λ w. refl) (drag_window-OnDesktop mx my s.drag_off_x s.drag_off_y) id
        s.stack v)
]

finish-Valid : (click : Bool) (mx my : ℕ) (s : Ui) → Valid s → Valid (finish click mx my s)
unfolding finish
finish-Valid true mx my s v = drag-Valid mx my (paint mx my s) (paint-Valid mx my s v)
finish-Valid false mx my s v = v

press_in-Valid : (id mx my : ℕ) (w : Window) (s : Ui) → Valid s → Valid (press_in id mx my w s)
unfolding press_in close
press_in-Valid id mx my w s v = elim (Bool-cases (on_close_button mx my w)) [
  | inl e ↦ rw e (changed-IsValid close_window (λ u. refl) (λ u h. h) id s.stack v)
  | inr e ↦ rw e (
      finish-Valid true mx my (click_app mx my w (grab id mx my w s)) (
        subst IsValid (sym (click_app-stack mx my w (grab id mx my w s) ∙ grab-stack id mx my w s))
          v))
]

focus-Valid : (id : ℕ) (s : Ui) → Valid s → Valid (focus id s)
unfolding focus
focus-Valid id s v = bring_to_front-IsValid id s.stack v

press_found-Valid : (mx my : ℕ) (o : Option ℕ) (s : Ui) → Valid s → Valid (press_found mx my o s)
press_found-Valid mx my none s v = finish-Valid true mx my s v
press_found-Valid mx my (some id) s v =
    with_window-Valid (press_in id mx my) (press_in-Valid id mx my) (some id) (focus id s)
      (focus-Valid id s v)

press_windows-Valid : (mx my : ℕ) (s : Ui) → Valid s → Valid (press_windows mx my s)
unfolding press_windows
press_windows-Valid mx my s v =
    press_found-Valid mx my (find_clicked_window mx my s.stack.windows) s v

focus_test-Valid : (b : Bool) (id : ℕ) (s : Ui) → Valid s → Valid (if b then focus id s else s)
focus_test-Valid true id s v = focus-Valid id s v
focus_test-Valid false id s v = v

click_menu-Valid :
    (i : ℕ) (ids : List ℕ) (my : ℕ) (s : Ui) → Valid s → Valid (click_menu i ids my s)
unfolding click_menu
click_menu-Valid i [] my s v = v
click_menu-Valid i (id ∷ ids) my s v = click_menu-Valid (i + 1) ids my _ (focus_test-Valid _ id s v)

focus_if-Valid : (o : Option ℕ) (s : Ui) → Valid s → Valid (focus_if o s)
focus_if-Valid none s v = v
focus_if-Valid (some id) s v = focus-Valid id s v

click_icons-Valid : (mx my : ℕ) (s : Ui) → Valid s → Valid (click_icons mx my s)
unfolding click_icons
click_icons-Valid mx my s v = elim (Bool-cases (between 15 135 mx)) [
  | inl e ↦ rw e (focus_if-Valid (icon_in first_column my) s v)
  | inr e ↦ elim (Bool-cases (between 145 265 mx)) [
    | inl f ↦ rw (e, f) (focus_if-Valid (icon_in second_column my) s v)
    | inr f ↦ rw (e, f) v
  ]
]

press_desktop-Valid : (mx my : ℕ) (s : Ui) → Valid s → Valid (press_desktop mx my s)
unfolding press_desktop
press_desktop-Valid mx my s v =
    elim (Bool-cases (between 10 90 mx && between (768 - 35) (768 - 5) my)) [
      | inl e ↦ rw e v
      | inr e ↦
          elim (Bool-cases
            (s.start_menu_open && (between 10 200 mx && between (768 - 480) (768 - 70) my))) [
              | inl f ↦ rw (e, f) (click_menu-Valid 0 mapping my s v)
              | inr f ↦
                  rw (e, f) (press_windows-Valid mx my (record s { start_menu_open = false }) v)
            ]
    ]

press_button-Valid : (mx my : ℕ) (s : Ui) → Valid s → Valid (press_button mx my s)
unfolding press_button
press_button-Valid mx my s v =
    elim (Bool-cases
      (s.start_menu_open && (between 10 200 mx && between (768 - 40 - 25) (768 - 40) my))) [
        | inl e ↦ rw e v
        | inr e ↦
            rw e (press_desktop-Valid mx my (click_icons mx my s) (click_icons-Valid mx my s v))
      ]

note_mouse-stack : (click : Bool) (mx my : ℕ) (s : Ui) → (note_mouse click mx my s).stack ≡ s.stack
unfolding note_mouse
note_mouse-stack click mx my s =
    elim (Bool-cases (moved mx my s || (click && not s.prev_mouse_left))) [
      | inl e ↦ rw e refl
      | inr e ↦ rw e refl
    ]

-- Whatever the mouse does, `ui_handle_mouse` keeps every window on the desktop of 1024 by 728 and
-- the stacking order strict.
pub ui_handle_mouse-IsValid :
    (click : Bool) (mx my : ℕ) (s : Ui)
    → IsValid s.stack
    → IsValid (ui_handle_mouse click mx my s).stack
unfolding ui_handle_mouse
ui_handle_mouse-IsValid click mx my s v =
    let n = subst IsValid (sym (note_mouse-stack click mx my s)) v in
    elim (Bool-cases (click && not s.prev_mouse_left)) [
      | inl e ↦ rw e (press_button-Valid mx my _ n)
      | inr e ↦ rw e (finish-Valid click mx my (note_mouse click mx my s) n)
    ]
