-- ===== src/Ui/Keyboard.antt =====
-- `ui_handle_keyboard` of src/ui.c: which field a key goes to, and what it does there.
use meu_so_baremetal.Prelude.{
  ℕ, zero, suc, ◌≡◌, ◌≢◌, ◌⊎◌, inl, inr, Bool, true, false, ◌&&◌, List, ◌∷◌, ◌++◌, ltb, ◌==◌,
  if◌then◌else◌, arith, refl, Bool-cases, Option, none, some, get_elem?,
}
use meu_so_baremetal.Prelude.Int.{ℤ, pos, negsuc}
use meu_so_baremetal.Ui.{Window, top_window}
use meu_so_baremetal.Ui.State.{Ui}
use meu_so_baremetal.Ui.Fields.{
  erase, clear_field, type_into, text_of, IsField, erase-IsField, clear_field-IsField,
  type_into-IsField,
}
use meu_so_baremetal.Ui.Shell.{Services, serial_send_custom, process_shell_command}

-- The application of the window on top; 14 stands for no window.
abbrev pub app_at : List Window → Option ℕ → ℕ
app_at ws none = 14
app_at ws (some i) = elim (get_elem? ws i) [ none ↦ 14 | some w ↦ w.app_type ]

unfoldable pub top_app : List Window → ℕ
top_app ws = app_at ws (top_window ws)

-- What `serial_send_custom` is given, and the empty field after it.
unfoldable pub send_serial : Ui → Ui
send_serial s =
    if ltb 0 s.serial_guest.index
    then record s {
      serial_guest = clear_field s.serial_guest;
      calls = serial_send_custom (text_of s.serial_guest) ∷ s.calls;
    }
    else s

unfoldable pub serial_key : ℕ → Ui → Ui
serial_key c s =
    if c == 8
    then record s { serial_guest = erase s.serial_guest }
    else if c == 10
    then send_serial s
    else record s { serial_guest = type_into 60 c s.serial_guest }

unfoldable pub pad_key : ℕ → Ui → Ui
pad_key c s =
    if c == 8
    then record s { pad = erase s.pad }
    else record s { pad = type_into 240 (if c == 10 then b' ' else c) s.pad }

abbrev pub is_none : ℤ → Bool
is_none (pos zero) = true
is_none (pos (suc n)) = false
is_none (negsuc n) = false

-- The snake turns only across its direction.
unfoldable pub snake_key : ℕ → Ui → Ui
snake_key c s =
    if (c == b'w') && is_none s.snake_dir_y
    then record s { snake_dir_x = pos 0; snake_dir_y = negsuc 4 }
    else if (c == b's') && is_none s.snake_dir_y
    then record s { snake_dir_x = pos 0; snake_dir_y = pos 5 }
    else if (c == b'a') && is_none s.snake_dir_x
    then record s { snake_dir_x = negsuc 4; snake_dir_y = pos 0 }
    else if (c == b'd') && is_none s.snake_dir_x
    then record s { snake_dir_x = pos 5; snake_dir_y = pos 0 }
    else s

unfoldable pub run_command : Services → Ui → Ui
run_command v s =
    let answer = process_shell_command v (text_of s.input) in
    record s {
      input = clear_field s.input;
      shell_output = answer.shell_output;
      calls = answer.calls ++ s.calls;
    }

unfoldable pub shell_key : Services → ℕ → Ui → Ui
shell_key v c s =
    if c == 8
    then record s { input = erase s.input }
    else if c == 10
    then run_command v s
    else record s { input = type_into 30 c s.input }

unfoldable pub handle_key : Services → ℕ → Ui → Ui
handle_key v c s =
    let app = top_app s.stack.windows in
    if app == 13
    then serial_key c s
    else if app == 12
    then pad_key c s
    else shell_key v c (snake_key c s)

unfoldable pub ui_handle_keyboard : Services → Ui → Ui
ui_handle_keyboard v s =
    if s.last_key_pressed == 0
    then s
    else handle_key v s.last_key_pressed (record s { last_key_pressed = 0; ui_needs_redraw = true })

-- The three arrays are not left and their texts are ended, and the snake goes one way.
pub record IsValid (s : Ui) : Type 0 where
  pub input : IsField 32 s.input
  pub pad : IsField 256 s.pad
  pub serial : IsField 64 s.serial_guest
  pub snake : (is_none s.snake_dir_x ≡ true) ⊎ (is_none s.snake_dir_y ≡ true)

module _ (v : Services) (c : ℕ) (some_key : c ≢ 0) where
  serial_key-IsValid : (s : Ui) → IsValid s → IsValid (serial_key c s)
  unfolding serial_key send_serial
  serial_key-IsValid s i = elim (Bool-cases (c == 8)) [
    | inl e ↦ rw e (record {
      input = i.input;
      pad = i.pad;
      serial = erase-IsField 64 s.serial_guest i.serial;
      snake = i.snake;
    })
    | inr e ↦ elim (Bool-cases (c == 10)) [
      | inr f ↦
          rw (e, f)
            (record {
              input = i.input;
              pad = i.pad;
              serial = type_into-IsField 64 60 c s.serial_guest (omega arith) some_key i.serial;
              snake = i.snake;
            })
      | inl f ↦ elim (Bool-cases (ltb 0 s.serial_guest.index)) [
        | inl g ↦
            rw (e, f, g)
              (record {
                input = i.input;
                pad = i.pad;
                serial = clear_field-IsField 64 s.serial_guest (omega arith);
                snake = i.snake;
              })
        | inr g ↦ rw (e, f, g) i
      ]
    ]
  ]

  pad_key-IsValid : (s : Ui) → IsValid s → IsValid (pad_key c s)
  unfolding pad_key
  pad_key-IsValid s i = elim (Bool-cases (c == 8)) [
    | inl e ↦ rw e (record {
      input = i.input;
      pad = erase-IsField 256 s.pad i.pad;
      serial = i.serial;
      snake = i.snake;
    })
    | inr e ↦ rw e (record {
      input = i.input;
      pad =
          type_into-IsField 256 240 (if c == 10 then b' ' else c) s.pad (omega arith) (ground arith)
            i.pad;
      serial = i.serial;
      snake = i.snake;
    })
  ]

  shell_key-IsValid : (s : Ui) → IsValid s → IsValid (shell_key v c s)
  unfolding shell_key run_command
  shell_key-IsValid s i = elim (Bool-cases (c == 8)) [
    | inl e ↦ rw e (record {
      input = erase-IsField 32 s.input i.input;
      pad = i.pad;
      serial = i.serial;
      snake = i.snake;
    })
    | inr e ↦ elim (Bool-cases (c == 10)) [
      | inl f ↦
          rw (e, f)
            (record {
              input = clear_field-IsField 32 s.input (omega arith);
              pad = i.pad;
              serial = i.serial;
              snake = i.snake;
            })
      | inr f ↦
          rw (e, f)
            (record {
              input = type_into-IsField 32 30 c s.input (omega arith) some_key i.input;
              pad = i.pad;
              serial = i.serial;
              snake = i.snake;
            })
    ]
  ]

  snake_key-IsValid : (s : Ui) → IsValid s → IsValid (snake_key c s)
  unfolding snake_key
  snake_key-IsValid s i = elim (Bool-cases ((c == b'w') && is_none s.snake_dir_y)) [
    | inl e ↦ rw e (record { input = i.input; pad = i.pad; serial = i.serial; snake = inl refl })
    | inr e ↦ elim (Bool-cases ((c == b's') && is_none s.snake_dir_y)) [
      | inl f ↦
          rw (e, f) (record { input = i.input; pad = i.pad; serial = i.serial; snake = inl refl })
      | inr f ↦ elim (Bool-cases ((c == b'a') && is_none s.snake_dir_x)) [
        | inl g ↦
            rw (e, f, g)
              (record { input = i.input; pad = i.pad; serial = i.serial; snake = inr refl })
        | inr g ↦ elim (Bool-cases ((c == b'd') && is_none s.snake_dir_x)) [
          | inl h ↦
              rw (e, f, g, h)
                (record { input = i.input; pad = i.pad; serial = i.serial; snake = inr refl })
          | inr h ↦ rw (e, f, g, h) i
        ]
      ]
    ]
  ]

  handle_key-IsValid : (s : Ui) → IsValid s → IsValid (handle_key v c s)
  unfolding handle_key
  handle_key-IsValid s i = elim (Bool-cases (top_app s.stack.windows == 13)) [
    | inl e ↦ rw e (serial_key-IsValid s i)
    | inr e ↦ elim (Bool-cases (top_app s.stack.windows == 12)) [
      | inl f ↦ rw (e, f) (pad_key-IsValid s i)
      | inr f ↦ rw (e, f) (shell_key-IsValid (snake_key c s) (snake_key-IsValid s i))
    ]
  ]

-- Whatever key waits and whichever window is on top, `ui_handle_keyboard` leaves the three arrays
-- of 32, 256 and 64 bytes in bounds and their texts ended, and the snake without a diagonal.
pub ui_handle_keyboard-IsValid :
    (v : Services) (s : Ui) → IsValid s → IsValid (ui_handle_keyboard v s)
unfolding ui_handle_keyboard
ui_handle_keyboard-IsValid v s i = elim (Bool-cases (s.last_key_pressed == 0)) [
  | inl e ↦ rw e i
  | inr e ↦ rw e (
      handle_key-IsValid v s.last_key_pressed (ground arith)
        (record s { last_key_pressed = 0; ui_needs_redraw = true })
        (record { input = i.input; pad = i.pad; serial = i.serial; snake = i.snake }))
]
