-- ===== src/Idt/Accents.antt =====
-- Typing the accented letters of Portuguese with the keyboard handler of src/idt.c.
use meu_so_baremetal.Prelude.{
  ℕ, ◌+◌, ◌%◌, ◌≡◌, refl, Bool, true, false, ◌&&◌, ◌||◌, not, List, [], ◌∷◌, ◌==◌, if◌then◌else◌,
}
use meu_so_baremetal.Idt.{bit}
use meu_so_baremetal.Idt.Keys.{Keyboard, keyboard_handler_main}

-- What the two ports give in one interrupt.
abbrev pub Event : Type 0
Event = ℕ × ℕ

-- An interrupt without a byte of the keyboard, or the release of a key that is no shift key.
abbrev pub is_quiet : Event → Bool
is_quiet (status, byte) =
    not (bit 1 status)
    || bit 32 status
    || (bit 128 byte && not (byte % 128 == 0x2A) && not (byte % 128 == 0x36))

abbrev pub AllQuiet : List Event → Type 0
AllQuiet [] = Unit {0}
AllQuiet (e ∷ es) = (is_quiet e ≡ true) × AllQuiet es

unfoldable pub handle_all : List Event → Keyboard → Keyboard
handle_all [] s = s
handle_all ((status, byte) ∷ es) s = handle_all es (keyboard_handler_main status byte s)

-- Scancodes that arrive one after the other, with other events before each of them.
unfoldable pub strokes : List (List Event × ℕ) → Keyboard → Keyboard
strokes [] s = s
strokes ((noise, k) ∷ ks) s = strokes ks (keyboard_handler_main 1 k (handle_all noise s))

-- All but the trace of port writes.
abbrev pub core : Keyboard → Keyboard
core s = record s { trace = [] }

if_core : (b : Bool) (s t : Keyboard) → core (if b then s else t) ≡ (if b then core s else core t)
if_core true s t = refl
if_core false s t = refl

-- Scancode number `n` and the following ones, with the quiet events of `noise` before each of them.
abbrev pub among : (ℕ → List Event) → ℕ → List ℕ → List (List Event × ℕ)
among noise n [] = []
among noise n (k ∷ ks) = (noise n, k) ∷ among noise (n + 1) ks

-- The same scancodes alone.
unfoldable alone : List ℕ → Keyboard → Keyboard
alone [] s = s
alone (k ∷ ks) s = alone ks (core (keyboard_handler_main 1 k s))

-- The keys of a US keyboard for an accented letter, as scancodes, and its code in Latin-1: the dead
-- keys ' (0x28) and ` (0x29), and with shift (0x2A to 0xAA) ~ (0x29) and ^ (0x07); then the letter.
abbrev pub accented : List (List ℕ × ℕ)
accented =
    ((0x28 ∷ 0x1E ∷ []), 0xE1)
    ∷ ((0x28 ∷ 0x12 ∷ []), 0xE9)
    ∷ ((0x28 ∷ 0x17 ∷ []), 0xED)
    ∷ ((0x28 ∷ 0x18 ∷ []), 0xF3)
    ∷ ((0x28 ∷ 0x16 ∷ []), 0xFA)
    ∷ ((0x28 ∷ 0x2E ∷ []), 0xE7)
    ∷ ((0x29 ∷ 0x1E ∷ []), 0xE0)
    ∷ ((0x2A ∷ 0x29 ∷ 0xAA ∷ 0x1E ∷ []), 0xE3)
    ∷ ((0x2A ∷ 0x29 ∷ 0xAA ∷ 0x18 ∷ []), 0xF5)
    ∷ ((0x2A ∷ 0x07 ∷ 0xAA ∷ 0x1E ∷ []), 0xE2)
    ∷ ((0x2A ∷ 0x07 ∷ 0xAA ∷ 0x12 ∷ []), 0xEA)
    ∷ ((0x2A ∷ 0x07 ∷ 0xAA ∷ 0x18 ∷ []), 0xF4)
    ∷ []

-- A keyboard with no key held, no caps lock, no dead key, and `c` as the last key.
abbrev pub resting : ℕ → Keyboard
resting c = record {
  last_key_pressed = c;
  shift_pressed = false;
  caps_lock = false;
  active_dead_key = 0;
  trace = [];
}

-- Each of the letters is typed by its keys.
abbrev pub Types : (ℕ → List Event) → Keyboard → List (List ℕ × ℕ) → Type 0
Types noise s [] = Unit {0}
Types noise s ((ks, c) ∷ rows) =
    (core (strokes (among noise 0 ks) s) ≡ resting c) × Types noise s rows

abbrev Alone : ℕ → List (List ℕ × ℕ) → Type 0
Alone l [] = Unit {0}
Alone l ((ks, c) ∷ rows) = (alone ks (resting l) ≡ resting c) × Alone l rows
