-- ===== src/Idt/Tests.antt =====
-- Runs of the handlers of src/idt.c.
use meu_so_baremetal.Prelude.{ℕ, List, ◌+◌, ◌<◌, ◌≡◌, inl, refl, false, [], arith, ◌^◌, ◌∷◌}
use meu_so_baremetal.Prelude.Int.{pos}
use meu_so_baremetal.Prelude.Events.{outb}
use meu_so_baremetal.Idt.Gates.{Stubs, handler}
use meu_so_baremetal.Idt.Keys
use meu_so_baremetal.Idt.Keys.{
  Keyboard, raw_char, keyboard_handler_main, keyboard_handler_main-IsValid, keyboard_loses,
}
use meu_so_baremetal.Idt.Accents.{Event}
use meu_so_baremetal.Idt.Mouse
use meu_so_baremetal.Idt.Mouse.{
  Mouse, mouse_handler_main, mouse_handler_main-IsValid, mouse_handler_main_ignores,
}

abbrev pointer : Mouse
pointer = record {
  mouse_x = pos 1020;
  mouse_y = pos 5;
  mouse_left_clicked = false;
  mouse_cycle = 0;
  byte0 = 0;
  byte1 = 0;
  byte2 = 0;
  trace = [];
}

abbrev keys : Keyboard
keys = record {
  last_key_pressed = 0;
  shift_pressed = false;
  caps_lock = false;
  active_dead_key = 0;
  trace = [];
}

mouse_handler_main-IsValid_example : Mouse.IsValid (mouse_handler_main 0x21 9 pointer)
mouse_handler_main-IsValid_example = mouse_handler_main-IsValid 0x21 9 pointer (record {
  left = omega arith;
  right = omega arith;
  top = omega arith;
  bottom = omega arith;
  cycle = omega arith;
})

mouse_handler_main_ignores_example :
    mouse_handler_main 0x21 1 pointer
    ≡ record pointer { trace = outb 0x20 0x20 ∷ outb 0xA0 0x20 ∷ [] }
mouse_handler_main_ignores_example = mouse_handler_main_ignores 0x21 1 pointer (inl (refl, refl))

keyboard_handler_main-IsValid_example : Keys.IsValid (keyboard_handler_main 1 0x28 keys)
keyboard_handler_main-IsValid_example = keyboard_handler_main-IsValid 1 0x28 keys refl

-- Before each key, a byte of the mouse and the release of the key A.
abbrev noise : ℕ → List Event
noise i = (0x21, 7) ∷ (1, 0x9E) ∷ []

abbrev waiting : Keyboard
waiting = record keys { active_dead_key = 126 }

abbrev some_stubs : Stubs
some_stubs = record {
  default_irq_stub = 2 ^ 40 + 7;
  isr0_stub = 1;
  isr8_stub = 2;
  isr13_stub = 3;
  isr14_stub = 4;
  irq0_stub = 5;
  irq1_stub = 6;
  irq12_stub = 2 ^ 63;
}

some_stubs_fit : (j : ℕ) → handler some_stubs j < 2 ^ 64
some_stubs_fit j = ground arith
