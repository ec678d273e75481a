-- ===== src/Idt.antt =====
-- src/idt.c: the interrupt table, the keyboard handler and the mouse handler.
-- A `char` is a byte. The status and data ports of the 8042 controller are arguments of the
-- handlers: what `inb(0x64)` and `inb(0x60)` return at that interrupt.
pub mod Gates
pub mod Mouse
pub mod Keys
pub mod Accents
mod Tests
use meu_so_baremetal.Prelude.{
  ℕ, ◌+◌, ◌-◌, ◌*◌, ◌/◌, ◌%◌, ◌^◌, Bool, true, false, not, ◌&&◌, ◌||◌, List, [], ◌∷◌, ltb, leb,
  ◌==◌, get_or, if◌then◌else◌,
}
use meu_so_baremetal.Prelude.Int.{ℤ, pos, negsuc, ◌+ℤ◌, ◌-ℤ◌, ltb_ℤ, leb_ℤ}
use meu_so_baremetal.Prelude.Events.{Trace, outb}

-- Bit `2 ^ k` of a byte, for `m = 2 ^ k`.
abbrev pub bit : ℕ → ℕ → Bool
bit m b = b / m % 2 == 1

pub record IdtEntry : Type 0 where
  pub base_low : ℕ
  pub sel : ℕ
  pub ist : ℕ
  pub flags : ℕ
  pub base_mid : ℕ
  pub base_high : ℕ
  pub reserved : ℕ

abbrev pub gate_entry : (base sel flags : ℕ) → IdtEntry
gate_entry base sel flags = record {
  base_low = base % 2 ^ 16;
  base_mid = base / 2 ^ 16 % 2 ^ 16;
  base_high = base / 2 ^ 32 % 2 ^ 32;
  sel = sel;
  ist = 0;
  flags = flags;
  reserved = 0;
}

unfoldable pub idt_set_gate : (num base sel flags : ℕ) → (ℕ → IdtEntry) → ℕ → IdtEntry
idt_set_gate num base sel flags idt i = if i == num then gate_entry base sel flags else idt i
