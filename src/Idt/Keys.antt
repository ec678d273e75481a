-- ===== src/Idt/Keys.antt =====
-- `apply_accent` and `keyboard_handler_main` of src/idt.c.
use meu_so_baremetal.Prelude.{
  ℕ, ◌-◌, ◌%◌, Bool, true, false, not, ◌&&◌, ◌||◌, List, [], ◌∷◌, ltb, leb, ◌==◌, get_or,
  if◌then◌else◌, ◌≡◌, ◌≢◌, arith, ap, ◌∙◌,
}
use meu_so_baremetal.Prelude.Events.{Trace, outb}
use meu_so_baremetal.Idt.{bit}

-- The entries that the initializers leave out are 0.
abbrev pub scancode_ascii_normal : List ℕ
scancode_ascii_normal =
    0 ∷ 27 ∷ 49 ∷ 50 ∷ 51 ∷ 52 ∷ 53 ∷ 54 ∷ 55 ∷ 56 ∷ 57 ∷ 48 ∷ 45 ∷ 61 ∷ 8 ∷ 9 ∷ 113 ∷ 119 ∷ 101
    ∷ 114 ∷ 116 ∷ 121 ∷ 117 ∷ 105 ∷ 111 ∷ 112 ∷ 91 ∷ 93 ∷ 10 ∷ 0 ∷ 97 ∷ 115 ∷ 100 ∷ 102 ∷ 103 ∷ 104
    ∷ 106 ∷ 107 ∷ 108 ∷ 59 ∷ 39 ∷ 96 ∷ 0 ∷ 92 ∷ 122 ∷ 120 ∷ 99 ∷ 118 ∷ 98 ∷ 110 ∷ 109 ∷ 44 ∷ 46 ∷ 47
    ∷ 0 ∷ 42 ∷ 0 ∷ 32 ∷ []

abbrev pub scancode_ascii_shift : List ℕ
scancode_ascii_shift =
    0 ∷ 27 ∷ 33 ∷ 64 ∷ 35 ∷ 36 ∷ 37 ∷ 94 ∷ 38 ∷ 42 ∷ 40 ∷ 41 ∷ 95 ∷ 43 ∷ 8 ∷ 9 ∷ 81 ∷ 87 ∷ 69 ∷ 82
    ∷ 84 ∷ 89 ∷ 85 ∷ 73 ∷ 79 ∷ 80 ∷ 123 ∷ 125 ∷ 10 ∷ 0 ∷ 65 ∷ 83 ∷ 68 ∷ 70 ∷ 71 ∷ 72 ∷ 74 ∷ 75 ∷ 76
    ∷ 58 ∷ 34 ∷ 126 ∷ 0 ∷ 124 ∷ 90 ∷ 88 ∷ 67 ∷ 86 ∷ 66 ∷ 78 ∷ 77 ∷ 60 ∷ 62 ∷ 63 ∷ 0 ∷ 42 ∷ 0 ∷ 32
    ∷ []

pub record Keyboard : Type 0 where
  pub last_key_pressed : ℕ
  pub shift_pressed : Bool
  pub caps_lock : Bool
  pub active_dead_key : ℕ
  pub trace : Trace

-- The dead keys are ' (39), ~ (126), ^ (94) and ` (96).
unfoldable pub apply_accent : ℕ → ℕ → ℕ
apply_accent dead base =
    if dead == 39
    then (if base == 97
        then 225
        else if base == 101
        then 233
        else if base == 105
        then 237
        else if base == 111
        then 243
        else if base == 117
        then 250
        else if base == 99
        then 231
        else base)
    else if dead == 126
    then (if base == 97 then 227 else if base == 111 then 245 else base)
    else if dead == 94
    then (if base == 97
        then 226
        else if base == 101
        then 234
        else if base == 111
        then 244
        else base)
    else if dead == 96
    then (if base == 97 then 224 else base)
    else base

-- The character of a key: the table for the state of shift, then caps lock on a lower-case letter.
unfoldable pub raw_char : (shift_pressed caps_lock : Bool) → ℕ → ℕ
raw_char shift_pressed caps_lock scancode =
    let c =
      if shift_pressed
      then get_or scancode_ascii_shift scancode 0
      else get_or scancode_ascii_normal scancode 0 in
    if not shift_pressed && caps_lock && leb 97 c && leb c 122 then c - 32 else c

abbrev pub is_dead : ℕ → Bool
is_dead c = c == 39 || c == 126 || c == 94 || c == 96

-- A character meets the dead key that may be active.
unfoldable pub type_char : ℕ → Keyboard → Keyboard
type_char c s =
    if is_dead c
    then (if s.active_dead_key == 0
        then record s { active_dead_key = c }
        else if s.active_dead_key == c
        then record s { last_key_pressed = c; active_dead_key = 0 }
        else s)
    else if c == 0
    then s
    else if s.active_dead_key == 0
    then record s { last_key_pressed = c }
    else record s { last_key_pressed = apply_accent s.active_dead_key c; active_dead_key = 0 }

unfoldable pub scan : ℕ → Keyboard → Keyboard
scan scancode s =
    let typed = type_char (raw_char s.shift_pressed s.caps_lock scancode) s in
    if bit 128 scancode
    then (if scancode % 128 == 0x2A || scancode % 128 == 0x36
        then record s { shift_pressed = false }
        else s)
    else if scancode == 0x2A || scancode == 0x36
    then record s { shift_pressed = true }
    else if scancode == 0x3A
    then record s { caps_lock = not s.caps_lock }
    else if ltb scancode 128
    then typed
    else s

unfoldable pub keyboard_handler_main : (status byte : ℕ) → Keyboard → Keyboard
keyboard_handler_main status byte s =
    let s1 = if bit 1 status && not (bit 32 status) then scan byte s else s in
    record s1 { trace = outb 0x20 0x20 ∷ s1.trace }

-- The dead key that waits is none or one of the four.
abbrev pub IsValid : Keyboard → Type 0
IsValid s = (s.active_dead_key == 0 || is_dead s.active_dead_key) ≡ true

type_char-IsValid : (c : ℕ) (s : Keyboard) → IsValid s → IsValid (type_char c s)
unfolding type_char
type_char-IsValid c s v = ground (arith, v)

-- Whatever the ports give, only the four dead keys ever wait for a letter.
pub keyboard_handler_main-IsValid :
    (status byte : ℕ) (s : Keyboard) → IsValid s → IsValid (keyboard_handler_main status byte s)
unfolding keyboard_handler_main scan
keyboard_handler_main-IsValid status byte s v =
    let w = type_char-IsValid (raw_char s.shift_pressed s.caps_lock byte) s v in
    ground (arith, v, w)

-- The scancode of a key press, other than shift and caps lock.
abbrev pub is_typed : ℕ → Bool
is_typed k = ltb k 128 && not (k == 0x2A) && not (k == 0x36) && not (k == 0x3A)

-- A key press with data in the buffer types the character of the key.
key_press :
    (k : ℕ) (s : Keyboard)
    → is_typed k ≡ true
    → keyboard_handler_main 1 k s ≡ (
        let t = type_char (raw_char s.shift_pressed s.caps_lock k) s in
        record t { trace = outb 0x20 0x20 ∷ t.trace })
unfolding keyboard_handler_main scan
key_press k s e = ground (arith, e)

-- A dead key and then a letter leave the accented letter as the last key, and no dead key waits.
pub keyboard_accents :
    (d c : ℕ) (s : Keyboard)
    → s.active_dead_key ≡ 0
    → is_typed d ≡ true
    → is_typed c ≡ true
    → is_dead (raw_char s.shift_pressed s.caps_lock d) ≡ true
    → is_dead (raw_char s.shift_pressed s.caps_lock c) ≡ false
    → raw_char s.shift_pressed s.caps_lock c ≢ 0
    → let s' = keyboard_handler_main 1 c (keyboard_handler_main 1 d s) in
      (s'.last_key_pressed
        ≡ apply_accent
            (raw_char s.shift_pressed s.caps_lock d)
            (raw_char s.shift_pressed s.caps_lock c))
      × (s'.active_dead_key ≡ 0)
unfolding type_char
keyboard_accents d c s none_waits td tc dead letter some_char =
    let r = raw_char s.shift_pressed s.caps_lock d in
    let s1 : Keyboard = record s { active_dead_key = r; trace = outb 0x20 0x20 ∷ s.trace } in
    let first : keyboard_handler_main 1 d s ≡ s1 =
      key_press d s td ∙ ground (arith, dead, none_waits) in
    let both = ap (keyboard_handler_main 1 c) first ∙ key_press c s1 tc in
    let nonzero : r ≢ 0 = λ e. ground (arith, e, dead) in
    (
      ap (λ (t : Keyboard). t.last_key_pressed) both ∙ ground (arith, letter, some_char, nonzero),
      ap (λ (t : Keyboard). t.active_dead_key) both ∙ ground (arith, letter, some_char, nonzero),
    )

-- While a dead key waits, a press of another dead key is lost: only the trace changes.
pub keyboard_loses :
    (d : ℕ) (s : Keyboard)
    → is_typed d ≡ true
    → is_dead (raw_char s.shift_pressed s.caps_lock d) ≡ true
    → s.active_dead_key ≢ 0
    → s.active_dead_key ≢ raw_char s.shift_pressed s.caps_lock d
    → keyboard_handler_main 1 d s ≡ record s { trace = outb 0x20 0x20 ∷ s.trace }
unfolding type_char
keyboard_loses d s td dead waits other = key_press d s td ∙ ground (arith, dead, waits, other)
